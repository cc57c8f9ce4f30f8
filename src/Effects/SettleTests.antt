-- ===== src/Effects/SettleTests.antt =====
-- A settlement with effects at concrete inputs: the end of the claim is dead.
use taquba.Base.{◌≡◌, ℕ, refl, List, [], ◌∷◌, none, some}
use taquba.Bytes.{bytes_eq}
use taquba.Map.{Map, bytes_Eq}
use taquba.Map
use taquba.Keys.{
  user_scoped_key, job_index_key, claimed_key, dead_key, attempt_history_key, of, job_status,
}
use taquba.Job.{JobRecord, stored_key, new_pending, stored_clone}
use taquba.Error.{Result, ok, err}
use taquba.Kv.{kv_state_matches}
use taquba.LeaseRegistry.{current}
use taquba.Txn.{Txn, put_job, append_attempt, move_job, end_waits, key_status}
use taquba.Txn.ClaimEnd.{
  ClaimEnd, stage_claim_end, stage_claim_end_at, stage_dead_letter, is_terminal,
}
use taquba.QueueCore.Settle.{settle_claim}
use taquba.QueueCore.SettleCorrect.{take_claim-ok}
use taquba.Effects.{PreparedEffects}
use taquba.Effects.Staged.{
  EnqueueResult, stage_jobs, stage_counts, check_fence, check_compares, stage_effects, commit,
  settle_claim_with,
}
use taquba.Effects.Applied.{IsMap}
use taquba.Effects.Settled.{Settled, settle_claim_with-Settled}
use taquba.Example.Store.{example_store, holding-Stored}
use taquba.Example.Counts.{count_codec}
use taquba.Example.Jobs.{
  running, running_job, running_key, running_stored_key, running_lease, fits, leases,
}

abbrev unfenced : PreparedEffects
unfenced = record {
  kv_compares = (record { key = b'a' ∷ []; expected = none }) ∷ [];
  claim_fence = none;
  prepared_jobs = [];
  kv_writes = (b'a' ∷ [], b'1' ∷ []) ∷ [];
  kv_deletes = (b'b' ∷ []) ∷ [];
  expiry_entries = [];
  count_changes = [];
}

abbrev buried : JobRecord → ℕ → ClaimEnd
buried _ _ = ClaimEnd.dead (b'e' ∷ [])

abbrev taken : Txn example_store
taken = record running {
  txn = example_store.delete running.txn (claimed_key running_job.queue running_job.id);
}

abbrev ended : Txn example_store × JobRecord
ended =
    elim (stage_claim_end example_store taken (stored_clone running_job) (ClaimEnd.dead (b'e' ∷ []))
      60) [ ok r ↦ r | err e ↦ (running, running_job) | Result.panic ↦ (running, running_job) ]

abbrev ended_effects : Txn example_store × List EnqueueResult
ended_effects = elim (stage_effects example_store count_codec ended.0 leases unfenced) [
  | ok r ↦ r
  | err e ↦ (running, [])
  | Result.panic ↦ (running, [])
]

settled-end :
    stage_claim_end example_store taken (stored_clone running_job) (ClaimEnd.dead (b'e' ∷ [])) 60
    ≡ ok ended
unfolding stage_claim_end stage_claim_end_at stage_dead_letter append_attempt move_job end_waits
    stored_key new_pending claimed_key bytes_eq dead_key key_status of job_status
settled-end = refl

settled-effects : stage_effects example_store count_codec ended.0 leases unfenced ≡ ok ended_effects
unfolding stage_effects check_compares check_fence kv_state_matches stage_counts stage_jobs Map.get
    Map.insert Map.remove user_scoped_key put_job job_index_key attempt_history_key stage_claim_end
    stage_claim_end_at stage_dead_letter append_attempt move_job end_waits stored_key new_pending
    claimed_key bytes_eq dead_key key_status of job_status stored_clone
settled-effects = refl

settle-with :
    settle_claim_with example_store count_codec running leases running_job.queue running_job.id 7
      buried 60 unfenced
    ≡ ok (commit ended_effects.0 (ended.1, ClaimEnd.dead (b'e' ∷ []), some ended_effects.1))
unfolding settle_claim_with settle_claim is_terminal
settle-with = rw (
  settle_claim_with,
  settle_claim,
  take_claim-ok example_store running leases 7 100 running_job
      (holding-Stored running_job running_key running_stored_key fits) running_lease,
  settled-end,
  settled-effects,
)

settle_claim_with-Settled_example :
    ((expires_at : ℕ) × (current leases running_job.queue running_job.id ≡ some (expires_at, 7)))
    × Settled example_store count_codec running ended_effects.0 leases unfenced
        (ClaimEnd.dead (b'e' ∷ []))
        (some ended_effects.1)
unfolding IsMap Map.get
settle_claim_with-Settled_example =
    settle_claim_with-Settled example_store count_codec running ended_effects.0 leases
      running_job.queue running_job.id 7 buried 60 unfenced ended.1 (ClaimEnd.dead (b'e' ∷ []))
      (some ended_effects.1) (refl, tt) settle-with

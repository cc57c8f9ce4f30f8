-- ===== src/Effects/Tests.antt =====
-- A job and its effects at concrete inputs.
use taquba.Base.{
  ◌≡◌, ap, ◌≤◌, ◌⊎◌, ℕ, inl, inr, refl, true, false, List, [], ◌∷◌, none, some, length,
}
use taquba.Bytes.{Bytes, bytes_eq}
use taquba.Bytes.Utf8.{is_utf8, is_rest}
use taquba.Map.{Map, bytes_Eq, pair_beq}
use taquba.Map
use taquba.Form.{Text, as_bytes, check, first_outside, may_start, is_ascii_alphanumeric}
use taquba.Keys.{user_scoped_key, job_index_key, claimed_key}
use taquba.Job.{JobRecord, stored_key, new_pending}
use taquba.Error.{Result, ok, err, ◌>>=◌}
use taquba.QueueName
use taquba.QueueName.{queue_name_form}
use taquba.Kv.{kv_state_matches, max_kv_value_size, validate_kv_value_size}
use taquba.Options.{QueueConfigs, EnqueueOptions, config_of, default_options, default_queue_config}
use taquba.Txn.{Txn, begin, insert_job, put_job}
use taquba.Effects.{
  PreparedJob, PreparedEffects, SettlementEffects, no_effects, prepare_job_record, prepare_jobs,
  prepare_effects, job_id, check_waits, new_job, future_run_at, check_sizes, conflicting,
}
use taquba.Effects.Staged.{
  EnqueueResult, dedup_hit, insert_waiting, stage_job_writes, stage_jobs, stage_counts, check_fence,
  check_compares, stage_effects,
}
use taquba.Effects.Prepared.{IsNew, prepare_job_record-IsNew, prepare_effects_lem}
use taquba.Effects.Applied.{IsMap, IsLive, AllMatch, is_in, value_after, stage_effects-applied}
use taquba.Effects.Dedup.{stage_job_writes-dedup}
use taquba.Example.Store.{example_store, holding-Stored}
use taquba.Example.Counts.{count_codec}
use taquba.Example.Jobs.{
  running, running_job, running_key, running_stored_key, running_lease, fits, leases,
}
use taquba.QueueCore.SettleCorrect.{read_claim-Stored}

abbrev configs : QueueConfigs
configs = record { default = default_queue_config; per_queue = [] }

abbrev opts : EnqueueOptions
opts = record default_options { dedup_key = some (b'k' ∷ []) }

abbrev queue : Text
queue = b'q' ∷ []

abbrev job : JobRecord
job = new_job default_queue_config (b'n' ∷ []) queue (b'p' ∷ []) opts none 50

abbrev prepared : PreparedJob
prepared = record { job = job; id_override_used = false }

prepare-job : prepare_job_record configs (b'n' ∷ []) 50 50 queue (b'p' ∷ []) opts ≡ ok prepared
unfolding prepare_job_record job_id check_waits future_run_at config_of Map.get QueueName.new
    queue_name_form check first_outside may_start is_ascii_alphanumeric as_bytes
prepare-job = refl

prepare_job_record-IsNew_example : IsNew 50 job
prepare_job_record-IsNew_example =
    prepare_job_record-IsNew configs (b'n' ∷ []) 50 50 queue (b'p' ∷ []) opts prepared prepare-job

-- The same job from a later request, which finds the first.
abbrev second : PreparedJob
second = record {
  job = new_job default_queue_config (b'm' ∷ []) queue (b'p' ∷ []) opts none 60;
  id_override_used = false;
}

abbrev first_writes : Txn example_store × (Bytes ⊎ Bytes)
first_writes = elim (stage_job_writes example_store count_codec (begin example_store []) prepared) [
  | ok r ↦ r
  | err e ↦ (begin example_store [], inl [])
  | Result.panic ↦ (begin example_store [], inl [])
]

first-written :
    stage_job_writes example_store count_codec (begin example_store []) prepared
    ≡ ok (first_writes.0, inr (b'n' ∷ []))
unfolding stage_job_writes dedup_hit insert_waiting insert_job stored_key new_job new_pending
    Map.get
first-written = refl

stage_job_writes-dedup_example :
    stage_job_writes example_store count_codec first_writes.0 second
    ≡ ok (first_writes.0, inl job.id)
unfolding new_job new_pending is_utf8 is_rest
stage_job_writes-dedup_example =
    stage_job_writes-dedup example_store count_codec (begin example_store []) first_writes.0
      prepared second (b'n' ∷ []) (b'k' ∷ []) first-written refl refl refl refl

-- The effects of a settlement: a write, a delete and a compare, under a live claim.
abbrev effects : SettlementEffects
effects = record no_effects {
  claim_fence = some (record { queue = b'q' ∷ []; id = b'j' ∷ []; claim_id = 7 });
  kv_compares = (record { key = b'a' ∷ []; expected = none }) ∷ [];
  kv_writes = (b'a' ∷ [], b'1' ∷ []) ∷ [];
  kv_deletes = (b'b' ∷ []) ∷ [];
}

abbrev draws : ℕ → Bytes × ℕ × ℕ
draws n = (n ∷ [], 50, 50)

abbrev prepared_effects : PreparedEffects
prepared_effects = record {
  kv_compares = effects.kv_compares;
  claim_fence = effects.claim_fence;
  prepared_jobs = [];
  kv_writes = effects.kv_writes;
  kv_deletes = effects.kv_deletes;
  expiry_entries = [];
  count_changes = [];
}

prepare-effects : prepare_effects configs draws effects ≡ ok prepared_effects
unfolding prepare_effects check_sizes validate_kv_value_size max_kv_value_size conflicting Map.get
    bytes_eq prepare_jobs
prepare-effects = refl

prepare_effects_lem_example :
    ((key value : Bytes)
      → Map.get key prepared_effects.kv_writes ≡ some value
      → length value ≤ max_kv_value_size)
    × ((key : Bytes)
        → is_in key prepared_effects.kv_deletes ≡ true
        → Map.get key prepared_effects.kv_writes ≡ none)
prepare_effects_lem_example =
    prepare_effects_lem configs draws effects prepared_effects prepare-effects

fence-live :
    check_fence example_store count_codec running.txn leases prepared_effects.claim_fence ≡ ok tt
unfolding check_fence new_pending
fence-live =
    ap (λ x. x >>= λ claimed. ok tt)
      (read_claim-Stored example_store running.txn leases 7 100 running_job
        (holding-Stored running_job running_key running_stored_key fits) running_lease)

-- What the effects without the fence stage.
abbrev applied : Txn example_store × List EnqueueResult
applied =
    elim (stage_effects example_store count_codec running leases
      (record prepared_effects { claim_fence = none })) [
        | ok r ↦ r
        | err e ↦ (running, [])
        | Result.panic ↦ (running, [])
      ]

stage-effects :
    stage_effects example_store count_codec running leases prepared_effects
    ≡ ok (applied.0, applied.1)
unfolding stage_effects check_compares check_fence kv_state_matches stage_counts stage_jobs Map.get
    Map.insert Map.remove bytes_eq user_scoped_key put_job job_index_key claimed_key new_pending
stage-effects = rw (stage_effects, fence-live)

stage_effects-applied_example :
    IsLive example_store leases prepared_effects.claim_fence
    × AllMatch example_store running.txn prepared_effects.kv_compares
    × ((key : Bytes)
        → Map.get (user_scoped_key key) applied.0.txn
          ≡ value_after prepared_effects.kv_writes prepared_effects.kv_deletes key
              (Map.get (user_scoped_key key) running.txn))
unfolding IsMap Map.get
stage_effects-applied_example =
    stage_effects-applied example_store count_codec running applied.0 leases prepared_effects
      applied.1 (refl, tt) stage-effects

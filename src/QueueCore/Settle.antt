-- ===== src/QueueCore/Settle.antt =====
-- taquba/src/queue_core/settle.rs: the end of a claim, and the revival of a dead job. The effects of a
-- settlement and the log are left out.
use taquba.Base.{ℕ, false, none, some, if◌then◌else◌}
use taquba.Bytes.{Bytes}
use taquba.Status.{status_eq, dead}
use taquba.Job.{JobRecord}
use taquba.History.{requeued}
use taquba.Error.{Result, ok, err, ◌>>=◌, job_not_found, invalid_state}
use taquba.LeaseRegistry.{Registry}
use taquba.Backend.{Backend}
use taquba.Txn.{Txn, get_indexed_job, take_claim, append_attempt, stage_to_pending}
use taquba.Txn.ClaimEnd.{ClaimEnd, stage_claim_end}

-- What the transition of `requeue_dead_job` resets. A revival clears any prior cancel request.
abbrev pub revived : JobRecord → JobRecord
revived job = record job {
  attempts = 0;
  last_error = none;
  claimed_at = none;
  failed_at = none;
  cancel_requested = false;
}

module _ (b : Backend) where
  -- One pass of the retry loop of `settle_claim`: the writes, the record as it is written and the
  -- transition.
  unfoldable pub settle_claim :
      Txn b
      → Registry
      → Bytes
      → Bytes
      → ℕ
      → (JobRecord → ℕ → ClaimEnd)
      → ℕ
      → Result (Txn b × JobRecord × ClaimEnd)
  settle_claim t registry queue id claim_id end_for now = do
    (u, job) ← take_claim b t registry queue id claim_id
    (v, written) ← stage_claim_end b u job (end_for job now) now
    ok (v, written, end_for job now)

  unfoldable pub requeue_dead_job : Txn b → Bytes → ℕ → Result (Txn b × JobRecord)
  requeue_dead_job t id now = get_indexed_job b t.txn id >>= λ found. elim found [
    | none ↦ err (job_not_found id)
    | some (current_key, job) ↦
        if status_eq job.status dead
        then stage_to_pending b t current_key (revived job) >>= (λ (u, written). ok (
          append_attempt b u written.id (record {
            attempt = 0;
            claimed_at = none;
            recorded_at = now;
            outcome = requeued;
            error = none;
          }),
          written,
        ))
        else err invalid_state
  ]

-- ===== src/QueueCore/ReviveCorrect.antt =====
-- The revival of a dead job, on a consistent store.
use taquba.Base.{ℕ, ◌≡◌, ◌≢◌, ◌⊎◌, inl, inr, refl, ap, none, false, arith, Bool-cases}
use taquba.Bytes.{Bytes}
use taquba.Status.{JobStatus, dead, status_eq, status_eq_iff}
use taquba.Job.{JobRecord, stored_clone}
use taquba.History.{JobAttempt, requeued}
use taquba.Error.{ok, err, invalid_state}
use taquba.Backend.{Backend}
use taquba.Txn.{Txn, append_attempt}
use taquba.Txn.Consistent.{Stored, IsConsistent}
use taquba.Txn.Moved.{Kept}
use taquba.Txn.Unrelated.{append_attempt-Kept}
use taquba.Txn.Lookup.{get_indexed_job-Stored}
use taquba.QueueCore.Settle.{requeue_dead_job, revived}
use taquba.QueueCore.Read.{stage_to_pending-Kept}

-- The record of a revived job, field by field where it changes.
abbrev pub after_revival : JobRecord → JobRecord
after_revival job = record job {
  status = JobStatus.pending;
  attempts = 0;
  last_error = none;
  claimed_at = none;
  failed_at = none;
  cancel_requested = false;
  run_at = none;
  signal_wait = false;
  count_wait = none;
}

module _ (b : Backend) where
  -- The revival of a stored job in a consistent store: a dead job becomes pending, with no
  -- attempts, error, failure time, claim time or cancellation, and the store stays consistent. A job in
  -- any other state is refused as invalid.
  pub requeue_dead_job_lem :
      (t : Txn b) (key : Bytes) (job : JobRecord) (now : ℕ)
      → IsConsistent b t.txn
      → Stored b t.txn key job
      → ((job.status ≢ dead) × (requeue_dead_job b t job.id now ≡ err invalid_state))
        ⊎ ((job.status ≡ dead)
            × (u : Txn b) × (requeue_dead_job b t job.id now
                ≡ ok (u, after_revival (stored_clone job)))
            × Kept b u.txn (after_revival (stored_clone job)))
  unfolding requeue_dead_job stored_clone
  requeue_dead_job_lem t key job now c st = elim (Bool-cases (status_eq job.status dead)) [
    | inr e ↦ inl (
      λ p. ground (arith, ap (λ s. status_eq s dead) p),
      rw (requeue_dead_job, get_indexed_job-Stored b t.txn key job st, e),
    )
    | inl e ↦
        let (u, p, kept) =
          stage_to_pending-Kept b t.txn t key (revived (stored_clone job)) job c st refl
            st.queue_fits (λ x _ _. refl) in
        inr (
          (status_eq_iff job.status dead).0 e,
          append_attempt b u job.id marker,
          rw (requeue_dead_job, get_indexed_job-Stored b t.txn key job st, e, p),
          append_attempt-Kept b u job.id marker (after_revival (stored_clone job)) kept,
        )
  ]
    where
      marker : JobAttempt
      marker = record {
        attempt = 0;
        claimed_at = none;
        recorded_at = now;
        outcome = requeued;
        error = none;
      }

-- ===== src/Sweeps/SweepsCorrect.antt =====
-- The reap of an expired lease, the requeue of an interrupted claim and the promotion of a due job, on a
-- consistent store.
use taquba.Base.{
  ℕ, ◌≡◌, ◌≢◌, inl, inr, refl, ap, ◌∙◌, Bool, true, false, Option, none, some, arith, Bool-cases,
  ◌==◌, if◌then◌else◌,
}
use taquba.Bytes.{Bytes}
use taquba.Keys.{claimed_key}
use taquba.Job.{JobRecord, stored_clone, is_last_attempt}
use taquba.Job.Storage.{decode-stored}
use taquba.History.{AttemptOutcome, lease_expired, interrupted}
use taquba.Error.{ok}
use taquba.LeaseRegistry.{Registry, DueLease, current}
use taquba.Backend.{Backend}
use taquba.Txn.{Txn}
use taquba.Txn.ClaimEnd.{ClaimEnd, stage_claim_end}
use taquba.Txn.Consistent.{Stored, IsConsistent}
use taquba.Txn.Moved.{Kept}
use taquba.QueueCore.Read.{pending_of, stage_to_pending-Kept}
use taquba.QueueCore.SettleCorrect.{ended, stage_claim_end_lem}
use taquba.Sweeps.{
  unsettled_claim_end, lease_expired_error, interrupted_error, reap_claimed, reap_job,
  requeue_interrupted, promote_job,
}

-- The record of a claim that ends without a settlement: dead on its last attempt, pending otherwise.
abbrev pub unsettled : JobRecord → Bytes → ℕ → JobRecord
unsettled job error now =
    if is_last_attempt job
    then ended (ClaimEnd.dead error) now job
    else ended (ClaimEnd.retry none lease_expired none) now job

module _ (b : Backend) where
  -- The end of a claim that no settlement ends never discards the record.
  unsettled-Kept :
      (t : Txn b) (job : JobRecord) (outcome : AttemptOutcome) (error : Bytes) (now : ℕ)
      → IsConsistent b t.txn
      → Stored b t.txn (claimed_key job.queue job.id) job
      → (u : Txn b) × (stage_claim_end b t
            (stored_clone job)
            (unsettled_claim_end (stored_clone job) outcome error)
            now
          ≡ ok (u, unsettled (stored_clone job) error now))
        × Kept b u.txn (unsettled (stored_clone job) error now)
  unfolding unsettled_claim_end
  unsettled-Kept t job outcome error now c st = by (is_last_attempt (stored_clone job)) refl
    where
      by :
          (last : Bool)
          → is_last_attempt (stored_clone job) ≡ last
          → (u : Txn b) × (stage_claim_end b t
                (stored_clone job)
                (if is_last_attempt (stored_clone job)
                  then ClaimEnd.dead error
                  else ClaimEnd.retry none outcome none)
                now
              ≡ ok (u, unsettled (stored_clone job) error now))
            × Kept b u.txn (unsettled (stored_clone job) error now)
      by true e = rw e (stage_claim_end_lem b t job (ClaimEnd.dead error) now c st)
      by false e = rw e (stage_claim_end_lem b t job (ClaimEnd.retry none outcome none) now c st)

  -- The reap of a lease that is still the live one of a stored claimed job, in a consistent store,
  -- returns, and keeps the job: as dead on its last attempt, and as pending otherwise, in a
  -- consistent store.
  pub reap_job_lem :
      (t : Txn b) (registry : Registry) (job : JobRecord) (expires_at due_at claim_id now : ℕ)
      → IsConsistent b t.txn
      → Stored b t.txn (claimed_key job.queue job.id) job
      → current registry job.queue job.id ≡ some (expires_at, claim_id)
      → (u : Txn b) × (reap_job b t registry
            (record { queue = job.queue; id = job.id; expires_at = due_at; claim_id = claim_id })
            now
          ≡ ok (
            registry,
            some (
              u,
              unsettled (stored_clone job) lease_expired_error now,
              unsettled_claim_end (stored_clone job) lease_expired lease_expired_error,
            ),
          ))
        × Kept b u.txn (unsettled (stored_clone job) lease_expired_error now)
  unfolding reap_job reap_claimed
  reap_job_lem t registry job expires_at due_at claim_id now c st live =
      let (u, p, kept) = unsettled-Kept t job lease_expired lease_expired_error now c st in
      (
        u,
        rw (reap_job, live, same)
            (rw (
              reap_claimed,
              st.at_key,
              decode-stored b.codec job (claimed_key job.queue job.id) st.keyed,
              p,
            )),
        kept,
      )
    where
      same : (claim_id == claim_id) ≡ true
      same = ground arith

  -- A reap for a lease that is not the live one of its job changes nothing.
  pub reap_job-stale :
      (t : Txn b) (registry : Registry) (lease : DueLease) (now : ℕ)
      → ((expires_at : ℕ)
          → current registry lease.queue lease.id ≢ some (expires_at, lease.claim_id))
      → reap_job b t registry lease now ≡ ok (registry, none)
  unfolding reap_job
  reap_job-stale t registry lease now h = by (current registry lease.queue lease.id) refl
    where
      by :
          (live : Option (ℕ × ℕ))
          → current registry lease.queue lease.id ≡ live
          → reap_job b t registry lease now ≡ ok (registry, none)
      by none e = rw (reap_job, e)
      by (some (expires_at, other)) e = elim (Bool-cases (other == lease.claim_id)) [
        | inl same ↦
            absurd (h expires_at (e ∙ ap (λ c. some (expires_at, c)) (ground (arith, same))))
        | inr differ ↦ rw (reap_job, e, differ)
      ]

  -- The promotion of a stored job of a consistent store returns and makes it pending without its
  -- time and its waits, in a consistent store.
  pub promote_job_lem :
      (t : Txn b) (key : Bytes) (job : JobRecord)
      → IsConsistent b t.txn
      → Stored b t.txn key job
      → (u : Txn b) × (promote_job b t key ≡ ok (some (u, pending_of (stored_clone job))))
        × Kept b u.txn (pending_of (stored_clone job))
  unfolding promote_job stored_clone
  promote_job_lem t key job c st =
      let (u, p, kept) =
        stage_to_pending-Kept b t.txn t key (stored_clone job) job c st refl st.queue_fits
          (λ x _ _. refl) in
      (u, rw (promote_job, st.at_key, decode-stored b.codec job key st.keyed, p), kept)

  -- The requeue of a claim that another process left, from its stored record, returns and keeps the
  -- job: as dead on its last attempt, and as pending otherwise, in a consistent store.
  pub requeue_interrupted_lem :
      (t : Txn b) (job : JobRecord) (now : ℕ)
      → IsConsistent b t.txn
      → Stored b t.txn (claimed_key job.queue job.id) job
      → (u : Txn b) × (requeue_interrupted b t (stored_clone job) now
          ≡ ok (u, unsettled (stored_clone job) interrupted_error now))
        × Kept b u.txn (unsettled (stored_clone job) interrupted_error now)
  unfolding requeue_interrupted
  requeue_interrupted_lem t job now c st =
      unsettled-Kept t job interrupted interrupted_error now c st

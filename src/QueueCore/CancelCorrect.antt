-- ===== src/QueueCore/CancelCorrect.antt =====
-- The cancel of a job, on a consistent store.
use taquba.Base.{◌≡◌, ◌⊎◌, inl, inr, refl, ap, ◌∙◌, true, false, some, arith, Bool-cases}
use taquba.Bytes.{Bytes}
use taquba.Status.{JobStatus, pending, scheduled, claimed, done, dead}
use taquba.Job.{JobRecord, stored_key, stored_clone}
use taquba.Error.{ok}
use taquba.Backend.{Backend}
use taquba.Txn.{Txn, end_waits, get_indexed_job}
use taquba.Txn.Consistent.{Stored, IsConsistent}
use taquba.Txn.Moved.{Kept, Gone, move_job-Kept}
use taquba.Txn.Removal.{stage_remove-Gone}
use taquba.Txn.Lookup.{get_indexed_job-Stored}
use taquba.QueueCore.Control.{StagedCancel, stage_cancel, cancel_found}

-- The record of a claimed job with a cancellation on it.
abbrev pub flagged : JobRecord → JobRecord
flagged job = end_waits (record job { cancel_requested = true })

stored_key-flagged :
    (job : JobRecord) (key : Bytes)
    → job.status ≡ claimed
    → stored_key job ≡ some key
    → stored_key (flagged (stored_clone job)) ≡ some key
unfolding stored_key end_waits stored_clone
stored_key-flagged job key s h = ground arith

-- What the cancel of a stored job does, by its state.
pub data Cancelled (b : Backend) (t : Txn b) (job : JobRecord) : Type 0 where
  gone :
      (u : Txn b)
      → ((job.status ≡ pending) ⊎ (job.status ≡ scheduled))
      → stage_cancel b t job.id ≡ ok (u, StagedCancel.removed (stored_clone job))
      → Gone b u.txn job.id
      → Cancelled b t job
  recorded :
      (u : Txn b)
      → job.status ≡ claimed
      → job.cancel_requested ≡ false
      → stage_cancel b t job.id ≡ ok (u, StagedCancel.requested (flagged (stored_clone job)))
      → Kept b u.txn (flagged (stored_clone job))
      → Cancelled b t job
  again :
      job.status ≡ claimed
      → job.cancel_requested ≡ true
      → stage_cancel b t job.id ≡ ok (t, StagedCancel.already_requested (stored_clone job))
      → Cancelled b t job
  ended :
      ((job.status ≡ done) ⊎ (job.status ≡ dead))
      → stage_cancel b t job.id ≡ ok (t, StagedCancel.not_found)
      → Cancelled b t job

module _ (b : Backend) where
  -- The cancel of a stored job in a consistent store returns. A pending or scheduled job is removed
  -- with its index entry. The record of a claimed job gets the cancellation, once. A done or dead job
  -- is left as it is. The store stays consistent.
  pub stage_cancel_lem :
      (t : Txn b) (key : Bytes) (job : JobRecord)
      → IsConsistent b t.txn
      → Stored b t.txn key job
      → Cancelled b t job
  unfolding stage_cancel stored_clone cancel_found
  stage_cancel_lem t key job c st = by job.status refl
    where
      read : get_indexed_job b t.txn job.id ≡ ok (some (key, stored_clone job))
      read = get_indexed_job-Stored b t.txn key job st

      opened :
          {s : JobStatus}
          → job.status ≡ s
          → stage_cancel b t job.id ≡ cancel_found b s t key (stored_clone job)
      opened e = rw (stage_cancel, read) (ap (λ s. cancel_found b s t key (stored_clone job)) e)

      by : (s : JobStatus) → job.status ≡ s → Cancelled b t job
      by pending e =
          let (u, p, g) =
            stage_remove-Gone b t.txn t key (stored_clone job) job c st refl (λ x _ _. refl) in
          gone u (inl e) (opened e ∙ rw (cancel_found, p)) g
      by scheduled e =
          let (u, p, g) =
            stage_remove-Gone b t.txn t key (stored_clone job) job c st refl (λ x _ _. refl) in
          gone u (inr e) (opened e ∙ rw (cancel_found, p)) g
      by claimed e = elim (Bool-cases job.cancel_requested) [
        | inl r ↦ again e r (opened e ∙ rw (cancel_found, r))
        | inr r ↦
            let (u, p, k) =
              move_job-Kept b t.txn t key (record (stored_clone job) { cancel_requested = true })
                key job c st refl st.queue_fits (λ x _ _. refl)
                (stored_key-flagged job key e st.keyed) in
            recorded u e r (opened e ∙ rw (cancel_found, r, p)) k
      ]
      by done e = ended (inl e) (opened e)
      by dead e = ended (inr e) (opened e)

-- ===== src/QueueCore/ControlCorrect.antt =====
-- The wake and the cancel of a job, on a consistent store.
use taquba.Base.{
  ◌≡◌, ◌≢◌, ◌<◌, ◌⊎◌, inl, inr, refl, ap, ◌∙◌, Bool, true, false, some, arith, length, Bool-cases,
}
use taquba.Bytes.{Bytes}
use taquba.Status.{scheduled, status_eq, status_eq_iff}
use taquba.Job.{JobRecord, stored_clone}
use taquba.Error.{ok}
use taquba.Backend.{Backend}
use taquba.Txn.{Txn}
use taquba.Txn.Consistent.{Stored, IsConsistent}
use taquba.Txn.Moved.{Kept}
use taquba.Txn.Lookup.{get_indexed_job-Stored}
use taquba.QueueCore.Control.{
  Wake, signal, count, early, unscheduled, no_wait, is_count, stage_wake, woken_record,
}
use taquba.QueueCore.Read.{pending_of, stage_to_pending-Kept}

-- Whether a scheduled job waits for what wakes it.
abbrev pub awaits : Wake → JobRecord → Bool
awaits (signal _) job = job.signal_wait
awaits (count name) job = is_count job.count_wait name
awaits early job = true

-- The record of a woken job: the payload of a signal is stored on it.
abbrev pub with_payload : Wake → JobRecord → JobRecord
with_payload (signal payload) job = record job { signal = some payload }
with_payload (count _) job = job
with_payload early job = job

woken_record_lem :
    (wake : Wake) (job : JobRecord)
    → ((awaits wake job ≡ true) × (woken_record wake job ≡ inr (with_payload wake job)))
      ⊎ ((awaits wake job ≡ false) × (woken_record wake job ≡ inl no_wait))
woken_record_lem (signal payload) job = ground arith
woken_record_lem (count name) job = ground arith
woken_record_lem early job = ground arith

module _ (b : Backend) where
  -- In a consistent store, the wake of a stored job that is not scheduled, or does not wait for it,
  -- changes nothing and says which. Any other makes the job pending: its record is stored as pending
  -- with the payload of a signal and without its waits, and the store is consistent.
  pub stage_wake_lem :
      (t : Txn b) (key : Bytes) (job : JobRecord) (wake : Wake)
      → IsConsistent b t.txn
      → Stored b t.txn key job
      → ((job.status ≢ scheduled) × (stage_wake b t job.id wake ≡ ok (t, inl unscheduled)))
        ⊎ ((job.status ≡ scheduled)
            × (awaits wake job ≡ false)
            × (stage_wake b t job.id wake ≡ ok (t, inl no_wait)))
        ⊎ ((job.status ≡ scheduled)
            × (awaits wake job ≡ true)
            × (u : Txn b) × (stage_wake b t job.id wake ≡ ok (u, inr job.queue))
            × Kept b u.txn (pending_of (with_payload wake (stored_clone job))))
  unfolding stage_wake stored_clone
  stage_wake_lem t key job wake c st = elim (Bool-cases (status_eq job.status scheduled)) [
    | inr e ↦ inl (
      λ p. ground (arith, ap (λ s. status_eq s scheduled) p),
      rw (stage_wake, get_indexed_job-Stored b t.txn key job st, e),
    )
    | inl e ↦ elim (woken_record_lem wake (stored_clone job)) [
      | inr (idle, w) ↦ inr (
          inl (
            (status_eq_iff job.status scheduled).0 e,
            same_wait wake ∙ idle,
            rw (stage_wake, get_indexed_job-Stored b t.txn key job st, e, w),
          ))
      | inl (ready, w) ↦
          let (u, p, kept) =
            stage_to_pending-Kept b t.txn t key (with_payload wake (stored_clone job)) job c st
              (same_id wake) (fits wake) (λ x _ _. refl) in
          inr (
            inr (
              (status_eq_iff job.status scheduled).0 e,
              same_wait wake ∙ ready,
              u,
              rw (stage_wake, get_indexed_job-Stored b t.txn key job st, e, w, p)
                  (ap (λ q. ok (u, inr q)) (same_queue wake)),
              kept,
            ))
    ]
  ]
    where
      same_wait : (w : Wake) → awaits w job ≡ awaits w (stored_clone job)
      same_wait (signal _) = refl
      same_wait (count _) = refl
      same_wait early = refl

      same_id : (w : Wake) → job.id ≡ (with_payload w (stored_clone job)).id
      same_id (signal _) = refl
      same_id (count _) = refl
      same_id early = refl

      fits : (w : Wake) → length (with_payload w (stored_clone job)).queue < 256
      fits (signal _) = st.queue_fits
      fits (count _) = st.queue_fits
      fits early = st.queue_fits

      same_queue : (w : Wake) → (with_payload w (stored_clone job)).queue ≡ job.queue
      same_queue (signal _) = refl
      same_queue (count _) = refl
      same_queue early = refl

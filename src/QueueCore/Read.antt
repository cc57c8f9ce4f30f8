-- ===== src/QueueCore/Read.antt =====
-- What the transitions of a job read first, and the move to pending that several end in.
use taquba.Base.{◌≡◌, ◌<◌, ◌⊎◌, inl, inr, refl, false, Option, none, some, length}
use taquba.Bytes.{Bytes}
use taquba.Status.{pending}
use taquba.Keys.{job_index_key, pending_key}
use taquba.Job.{JobRecord, stored_key}
use taquba.Error.{ok}
use taquba.Backend.{Backend}
use taquba.Txn.{Txn, end_waits, stage_to_pending, get_indexed_job}
use taquba.Txn.Consistent.{Stored, IsConsistent}
use taquba.Txn.Moved.{IsNear, Kept, move_job-Kept}

-- The record of a job that is pending at once.
abbrev pub pending_of : JobRecord → JobRecord
pending_of job = record job {
  status = pending;
  run_at = none;
  signal_wait = false;
  count_wait = none;
}

module _ (b : Backend) where
  pub stage_to_pending-Kept :
      (s : b.State) (t : Txn b) (from : Bytes) (job before : JobRecord)
      → IsConsistent b s
      → Stored b s from before
      → before.id ≡ job.id
      → length job.queue < 256
      → IsNear b s t.txn from
      → (u : Txn b) × (stage_to_pending b t from job ≡ ok (u, pending_of job))
        × Kept b u.txn (pending_of job)
  unfolding stage_to_pending end_waits stored_key
  stage_to_pending-Kept s t from job before c st same fits near =
      move_job-Kept b s t from (record job { status = pending; run_at = none })
        (pending_key job.queue job.priority job.enqueued_at job.id) before c st same fits near refl

  -- In a consistent store the record of an id is read, or there is none.
  pub get_indexed_job-cases :
      (s : b.State) (id : Bytes)
      → IsConsistent b s
      → ((b.get s (job_index_key id) ≡ none) × (get_indexed_job b s id ≡ ok none))
        ⊎ ((key : Bytes) × (job : JobRecord) × (job.id ≡ id) × Stored b s key job)
  unfolding get_indexed_job
  get_indexed_job-cases s id c = split (b.get s (job_index_key id)) refl
    where
      split :
          (found : Option Bytes)
          → b.get s (job_index_key id) ≡ found
          → ((b.get s (job_index_key id) ≡ none) × (get_indexed_job b s id ≡ ok none))
            ⊎ ((key : Bytes) × (job : JobRecord) × (job.id ≡ id) × Stored b s key job)
      split none e = inl (e, rw (get_indexed_job, e))
      split (some key) e = let (job, same, st) = c.indexed id key e in inr (key, job, same, st)

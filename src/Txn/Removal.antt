-- ===== src/Txn/Removal.antt =====
-- The removal of a job.
use taquba.Base.{◌≡◌, none, some, arith, if◌then◌else◌}
use taquba.Bytes.{Bytes, bytes_eq}
use taquba.Bytes.Order.{bytes_eq_refl}
use taquba.Status.{JobStatus, status_eq}
use taquba.Keys.{job_index_key, attempt_history_key}
use taquba.Job.{JobRecord}
use taquba.Job.Storage.{status_of-stored_key}
use taquba.Error.{ok}
use taquba.Backend.{Backend}
use taquba.Txn.{Txn, key_status, count_move, stage_remove, delete_dedup}
use taquba.Txn.Keyed.{job_space-index}
use taquba.Txn.Consistent.{Stored, IsConsistent}
use taquba.Txn.Removed.{IsRemoved, removed-IsConsistent}
use taquba.Txn.Moved.{Gone, IsNear, OldKey-moved}
use taquba.Txn.Unrelated.{other_space, history_space, get-delete_dedup}

module _ (b : Backend) where
  open b use {State, get, put, delete, codec}

  stage_remove-ok :
      (s : State) (t : Txn b) (from : Bytes) (job before : JobRecord)
      → Stored b s from before
      → IsNear b s t.txn from
      → (u : Txn b) × (stage_remove b t from job ≡ ok u)
        × IsRemoved b s u.txn job.id (bytes_eq from)
  unfolding stage_remove key_status
  stage_remove-ok s t from job before st near = (
    record t {
      txn = delete_dedup b left job;
      stats =
          count_move t.stats job.queue (some before.status)
            (if status_eq job.status JobStatus.done then some JobStatus.done else none);
    },
    rw (stage_remove, status_of-stored_key before from st.keyed),
    λ x hx. ground (
      arith,
      get-delete_dedup b left job x hx,
      b.get-delete (delete (delete t.txn from) (job_index_key job.id)) (attempt_history_key job.id)
          x,
      b.get-delete (delete t.txn from) (job_index_key job.id) x,
      b.get-delete t.txn from x,
      near x hx,
      other_space b (attempt_history_key job.id) x (history_space b job.id) hx,
    ),
  )
    where
      left : State
      left = delete (delete (delete t.txn from) (job_index_key job.id)) (attempt_history_key job.id)

  -- Removing a stored job returns, leaves nothing of it, and keeps the store consistent.
  pub stage_remove-Gone :
      (s : State) (t : Txn b) (from : Bytes) (job before : JobRecord)
      → IsConsistent b s
      → Stored b s from before
      → before.id ≡ job.id
      → IsNear b s t.txn from
      → (u : Txn b) × (stage_remove b t from job ≡ ok u) × Gone b u.txn job.id
  stage_remove-Gone s t from job before c st same near =
      let (u, e, w) = stage_remove-ok s t from job before st near in
      (
        u,
        e,
        record {
          no_index = ground (
            arith,
            w (job_index_key job.id) (job_space-index job.id),
            bytes_eq_refl (job_index_key job.id),
          );
          consistent =
              removed-IsConsistent b s u.txn job.id (bytes_eq from) c
                (OldKey-moved b s from before job.id st same) w;
        },
      )

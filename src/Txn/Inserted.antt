-- ===== src/Txn/Inserted.antt =====
-- The insert of a new job.
use taquba.Base.{◌≡◌, ◌<◌, refl, sym, subst, false, [], ◌∷◌, ◌++◌, none, some, arith, length}
use taquba.Bytes.{Bytes}
use taquba.Keys.{job_index_key}
use taquba.Job.{JobRecord, stored_key, stored_clone, stored_bytes}
use taquba.Error.{ok}
use taquba.Backend.{Backend}
use taquba.Txn.{Txn, put_job, insert_job, count_move, get_indexed_job}
use taquba.Txn.Consistent.{IsConsistent}
use taquba.Txn.Written.{IsWritten, written-Stored, written-IsConsistent}
use taquba.Txn.Lookup.{get_indexed_job-Stored, OldKey-none}

module _ (b : Backend) where
  open b use {State, get, put, delete, codec}

  pub insert_job-ok :
      (t : Txn b) (job : JobRecord) (key : Bytes)
      → stored_key job ≡ some key
      → (u : Txn b) × (insert_job b t job ≡ ok u) × (u.txn ≡ (put_job b t key job).txn)
  unfolding insert_job
  insert_job-ok t job key h =
      let u = put_job b t key job in
      (
        record u {
          stats = count_move u.stats job.queue none (some job.status);
          notes = record u.notes { enqueued = u.notes.enqueued ++ (job.queue, job.id) ∷ [] };
        },
        rw (insert_job, h),
        refl,
      )

  -- The two writes of `put_job` are what a write of a job has to do.
  pub put_job-IsWritten :
      (t : Txn b) (job : JobRecord) (key : Bytes)
      → IsWritten b t.txn (put_job b t key job).txn job key (λ _. false)
  unfolding put_job
  put_job-IsWritten t job key x _ = ground (
    arith,
    b.get-put (put t.txn key (stored_bytes codec job)) (job_index_key job.id) key x,
    b.get-put t.txn key (stored_bytes codec job) x,
  )

  -- Inserting a job whose id is not in use into a consistent store returns, when its state has a
  -- key and its queue name has at most 255 bytes. The store stays consistent, and the job is then
  -- looked up by its id.
  pub insert_job-IsConsistent :
      (t : Txn b) (job : JobRecord) (key : Bytes)
      → IsConsistent b t.txn
      → get t.txn (job_index_key job.id) ≡ none
      → length job.queue < 256
      → stored_key job ≡ some key
      → (u : Txn b) × (insert_job b t job ≡ ok u)
        × IsConsistent b u.txn
        × (get_indexed_job b u.txn job.id ≡ ok (some (key, stored_clone job)))
  insert_job-IsConsistent t job key c fresh fits h =
      let (u, e, p) = insert_job-ok t job key h in
      let w =
        subst (λ s. IsWritten b t.txn s job key (λ _. false)) (sym p)
          (put_job-IsWritten t job key) in
      (
        u,
        e,
        written-IsConsistent b t.txn u.txn job key (λ _. false) c (OldKey-none b t.txn job.id fresh)
            w h fits,
        get_indexed_job-Stored b u.txn key job
            (written-Stored b t.txn u.txn job key (λ _. false) w h fits),
      )

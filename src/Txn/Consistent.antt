-- ===== src/Txn/Consistent.antt =====
-- A store in which the records and the index of the jobs agree, and what a write has to do to keep
-- it so.
use taquba.Base.{
  ◌≡◌, ◌≢◌, ◌<◌, ◌⊎◌, inl, inr, sym, ◌∙◌, subst, false, some, arith, length, Bool-cases,
}
use taquba.Bytes.{Bytes, bytes_eq}
use taquba.Bytes.Order.{eq_of_bytes_eq, bytes_eq_refl}
use taquba.Status.{JobStatus}
use taquba.Keys.{job_index_key}
use taquba.Job.{JobRecord, stored_key, stored_bytes}
use taquba.Job.Storage.{status_of, status_of-stored_key}
use taquba.Backend.{Backend}

module _ (b : Backend) where
  open b use {State, get, codec}

  -- The record of a job stands at the key of its state, the index names that key, and the name of its
  -- queue fits the length byte of a key.
  pub record Stored (s : State) (key : Bytes) (job : JobRecord) : Type 0 where
    pub at_key : get s key ≡ some (stored_bytes codec job)
    pub keyed : stored_key job ≡ some key
    pub at_index : get s (job_index_key job.id) ≡ some key
    pub queue_fits : length job.queue < 256

  pub record IsConsistent (s : State) : Type 0 where
    pub indexed :
        (id key : Bytes)
        → get s (job_index_key id) ≡ some key
        → (job : JobRecord) × (job.id ≡ id) × Stored s key job
    pub located :
        (key v : Bytes) (status : JobStatus)
        → status_of key ≡ some status
        → get s key ≡ some v
        → (job : JobRecord) × (v ≡ stored_bytes codec job) × Stored s key job

module _ (b : Backend) where
  open b use {State, get, codec}

  Stored-status :
      (s : State) (key : Bytes) (job : JobRecord)
      → Stored b s key job
      → status_of key ≡ some job.status
  Stored-status s key job h = status_of-stored_key job key h.keyed

  -- A change of the entries of one job keeps the store consistent when what it leaves of the job is.
  pub replace_job :
      (s t : State) (id : Bytes)
      → IsConsistent b s
      → ((i : Bytes) → i ≢ id → get t (job_index_key i) ≡ get s (job_index_key i))
      → ((k : Bytes) (j : JobRecord) → Stored b s k j → j.id ≢ id → get t k ≡ get s k)
      → ((k : Bytes)
          → get t (job_index_key id) ≡ some k
          → (j : JobRecord) × (j.id ≡ id) × Stored b t k j)
      → ((k v : Bytes) (status : JobStatus)
          → status_of k ≡ some status
          → get t k ≡ some v
          → ((j : JobRecord) × (v ≡ stored_bytes codec j) × Stored b t k j)
            ⊎ ((get s k ≡ some v) × ((j : JobRecord) → Stored b s k j → j.id ≢ id)))
      → IsConsistent b t
  replace_job s t id c index_kept record_kept own_index own_record = record {
    indexed = λ i k h. elim (Bool-cases (bytes_eq i id)) [
      | inl e ↦
          let same = eq_of_bytes_eq i id e in
          let (j, e, st) = own_index k (subst (λ x. get t (job_index_key x) ≡ some k) same h) in
          (j, e ∙ sym same, st)
      | inr e ↦
          let other = differs i e in
          let (j, p, st) = c.indexed i k (sym (index_kept i other) ∙ h) in
          (j, p, kept k j st (λ q. other (sym p ∙ q)))
    ];
    located = λ k v status hs h. elim (own_record k v status hs h) [
      | inl found ↦ found
      | inr (h, free) ↦
          let (j, p, st) = c.located k v status hs h in (j, p, kept k j st (free j st))
    ];
  }
    where
      differs : (i : Bytes) → bytes_eq i id ≡ false → i ≢ id
      differs i e p = ground (arith, bytes_eq_refl i)

      kept : (k : Bytes) (j : JobRecord) → Stored b s k j → j.id ≢ id → Stored b t k j
      kept k j st other = record {
        at_key = record_kept k j st other ∙ st.at_key;
        keyed = st.keyed;
        at_index = index_kept j.id other ∙ st.at_index;
        queue_fits = st.queue_fits;
      }

-- ===== src/Txn/Removed.antt =====
-- What a removal of a job's entries leaves: a consistent store with nothing of the job.
use taquba.Base.{
  ◌≡◌, ◌≢◌, ◌⊎◌, inl, inr, sym, Bool, true, none, some, arith, Bool-cases, if◌then◌else◌,
}
use taquba.Bytes.{Bytes, bytes_eq}
use taquba.Bytes.Order.{bytes_eq_refl}
use taquba.Status.{JobStatus}
use taquba.Keys.{job_index_key}
use taquba.Job.{JobRecord, stored_bytes}
use taquba.Job.Storage.{status_of, status_of-stored_key}
use taquba.Backend.{Backend}
use taquba.Txn.Keyed.{
  job_space, job_space-index, job_space-record, index-not_record, index-injective,
}
use taquba.Txn.Consistent.{Stored, IsConsistent, replace_job}
use taquba.Txn.Written.{OldKey}

module _ (b : Backend) (s t : b.State) (id : Bytes) (old : Bytes → Bool) where
  -- `t` is `s` without the entries of a job.
  abbrev pub IsRemoved : Type 0
  IsRemoved =
      (x : Bytes)
      → job_space x ≡ true
      → b.get t x
        ≡ (if bytes_eq (job_index_key id) x then none else if old x then none else b.get s x)

module _ (b : Backend) (s t : b.State) (id : Bytes) (old : Bytes → Bool) where
  open b use {State, get, codec}

  pub removed-IsConsistent :
      IsConsistent b s → OldKey b s id old → IsRemoved b s t id old → IsConsistent b t
  removed-IsConsistent c o w = replace_job b s t id c index_kept record_kept own_index own_record
    where
      index_kept : (i : Bytes) → i ≢ id → get t (job_index_key i) ≡ get s (job_index_key i)
      index_kept i other = elim (Bool-cases (bytes_eq (job_index_key id) (job_index_key i))) [
        | inl e ↦ absurd (other (sym (index-injective id i e)))
        | inr e ↦ ground (arith, w (job_index_key i) (job_space-index i), e, o.not_index i)
      ]

      record_kept : (k : Bytes) (j : JobRecord) → Stored b s k j → j.id ≢ id → get t k ≡ get s k
      record_kept k j st other = elim (Bool-cases (old k)) [
        | inl is_old ↦ absurd (other (o.only k j st is_old))
        | inr not_old ↦ ground (
          arith,
          w k (job_space-record k j.status (status_of-stored_key j k st.keyed)),
          index-not_record id k j.status (status_of-stored_key j k st.keyed),
          not_old,
        )
      ]

      own_index :
          (k : Bytes)
          → get t (job_index_key id) ≡ some k
          → (j : JobRecord) × (j.id ≡ id) × Stored b t k j
      own_index k e = absurd (
          ground
            (arith, e, w (job_index_key id) (job_space-index id), bytes_eq_refl (job_index_key id)))

      own_record :
          (k v : Bytes) (status : JobStatus)
          → status_of k ≡ some status
          → get t k ≡ some v
          → ((j : JobRecord) × (v ≡ stored_bytes codec j) × Stored b t k j)
            ⊎ ((get s k ≡ some v) × ((j : JobRecord) → Stored b s k j → j.id ≢ id))
      own_record k v status hs e = inr (
        ground (arith, w k (job_space-record k status hs), index-not_record id k status hs, e),
        λ j st p. ground (
          arith,
          w k (job_space-record k status hs),
          index-not_record id k status hs,
          e,
          o.mine k j st p,
        ),
      )

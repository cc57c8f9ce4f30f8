-- ===== src/Txn/Written.antt =====
-- What one write and one removal of a job's entries leave: a consistent store, with the record as
-- it was written, or with nothing of the job.
use taquba.Base.{
  ◌≡◌, ◌≢◌, ◌<◌, ◌⊎◌, inl, inr, refl, sym, ap, ◌∙◌, subst, Bool, true, false, none, some, arith,
  length, Bool-cases, if◌then◌else◌,
}
use taquba.Bytes.{Bytes, bytes_eq}
use taquba.Bytes.Order.{eq_of_bytes_eq, bytes_eq_refl}
use taquba.Status.{JobStatus}
use taquba.Keys.{job_index_key}
use taquba.Job.{JobRecord, stored_key, stored_bytes}
use taquba.Job.Storage.{status_of, status_of-stored_key}
use taquba.Backend.{Backend}
use taquba.Txn.Keyed.{
  job_space, job_space-index, job_space-record, index-not_record, index-injective,
  stored_key-injective,
}
use taquba.Txn.Consistent.{Stored, IsConsistent, replace_job}

-- The record key that a job has, if it has one, and no other.
pub record OldKey (b : Backend) (s : b.State) (id : Bytes) (old : Bytes → Bool) : Type 0 where
  pub mine : (k : Bytes) (j : JobRecord) → Stored b s k j → j.id ≡ id → old k ≡ true
  pub only : (k : Bytes) (j : JobRecord) → Stored b s k j → old k ≡ true → j.id ≡ id
  pub not_index : (i : Bytes) → old (job_index_key i) ≡ false

module _ (b : Backend) (s t : b.State) (job : JobRecord) (key : Bytes) (old : Bytes → Bool) where
  open b use {State, get, codec}

  -- `t` is `s` with the record of the job written at its key in place of its old one.
  abbrev pub IsWritten : Type 0
  IsWritten =
      (x : Bytes)
      → job_space x ≡ true
      → get t x ≡ (
          if bytes_eq (job_index_key job.id) x
          then some key
          else if bytes_eq key x
          then some (stored_bytes codec job)
          else if old x
          then none
          else get s x)

module _ (b : Backend) (s t : b.State) (job : JobRecord) (key : Bytes) (old : Bytes → Bool) where
  open b use {State, get, codec}

  pub written-Stored :
      IsWritten b s t job key old
      → stored_key job ≡ some key
      → length job.queue < 256
      → Stored b t key job
  written-Stored w h q = record {
    at_key = ground (
      arith,
      w key (job_space-record key job.status (status_of-stored_key job key h)),
      index-not_record job.id key job.status (status_of-stored_key job key h),
      bytes_eq_refl key,
    );
    keyed = h;
    at_index = ground (
      arith,
      w (job_index_key job.id) (job_space-index job.id),
      bytes_eq_refl (job_index_key job.id),
    );
    queue_fits = q;
  }

  pub written-IsConsistent :
      IsConsistent b s
      → OldKey b s job.id old
      → IsWritten b s t job key old
      → stored_key job ≡ some key
      → length job.queue < 256
      → IsConsistent b t
  written-IsConsistent c o w h q =
      replace_job b s t job.id c index_kept record_kept own_index own_record
    where
      here : Stored b t key job
      here = written-Stored w h q

      not_key : (i : Bytes) → bytes_eq key (job_index_key i) ≡ false
      not_key i = elim (Bool-cases (bytes_eq key (job_index_key i))) [
        | inl e ↦ ground (
          arith,
          index-not_record i key job.status (status_of-stored_key job key h),
          eq_of_bytes_eq key (job_index_key i) e,
          bytes_eq_refl key,
        )
        | inr e ↦ e
      ]

      same_key : (k : Bytes) (j : JobRecord) → Stored b s k j → key ≡ k → job.id ≡ j.id
      same_key k j st e =
          (stored_key-injective job j key q st.queue_fits h (st.keyed ∙ ap some (sym e))).1

      index_kept : (i : Bytes) → i ≢ job.id → get t (job_index_key i) ≡ get s (job_index_key i)
      index_kept i other = elim (Bool-cases (bytes_eq (job_index_key job.id) (job_index_key i))) [
        | inl e ↦ absurd (other (sym (index-injective job.id i e)))
        | inr e ↦
            ground (arith, w (job_index_key i) (job_space-index i), e, not_key i, o.not_index i)
      ]

      record_kept : (k : Bytes) (j : JobRecord) → Stored b s k j → j.id ≢ job.id → get t k ≡ get s k
      record_kept k j st other = elim (Bool-cases (bytes_eq key k)) [
        | inl e ↦ absurd (other (sym (same_key k j st (eq_of_bytes_eq key k e))))
        | inr e ↦ elim (Bool-cases (old k)) [
          | inl is_old ↦ absurd (other (o.only k j st is_old))
          | inr not_old ↦ ground (
            arith,
            w k (job_space-record k j.status (status_of-stored_key j k st.keyed)),
            index-not_record job.id k j.status (status_of-stored_key j k st.keyed),
            e,
            not_old,
          )
        ]
      ]

      own_index :
          (k : Bytes)
          → get t (job_index_key job.id) ≡ some k
          → (j : JobRecord) × (j.id ≡ job.id) × Stored b t k j
      own_index k e =
          (job, refl, subst (λ x. Stored b t x job) (ground (arith, e, here.at_index)) here)

      own_record :
          (k v : Bytes) (status : JobStatus)
          → status_of k ≡ some status
          → get t k ≡ some v
          → ((j : JobRecord) × (v ≡ stored_bytes codec j) × Stored b t k j)
            ⊎ ((get s k ≡ some v) × ((j : JobRecord) → Stored b s k j → j.id ≢ job.id))
      own_record k v status hs e = elim (Bool-cases (bytes_eq key k)) [
        | inl same ↦ inl (
          job,
          ground (arith, e, here.at_key, eq_of_bytes_eq key k same),
          subst (λ x. Stored b t x job) (eq_of_bytes_eq key k same) here,
        )
        | inr differ ↦ inr (
          ground (
            arith,
            w k (job_space-record k status hs),
            index-not_record job.id k status hs,
            differ,
            e,
          ),
          λ j st p. ground (
            arith,
            w k (job_space-record k status hs),
            index-not_record job.id k status hs,
            differ,
            e,
            o.mine k j st p,
          ),
        )
      ]

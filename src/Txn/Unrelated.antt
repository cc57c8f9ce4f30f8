-- ===== src/Txn/Unrelated.antt =====
-- Writes outside the records and the index of the jobs.
use taquba.Base.{
  ◌≡◌, inl, inr, refl, sym, ap, ◌∙◌, true, false, Option, none, some, arith, Bool-cases,
}
use taquba.Bytes.{Bytes, bytes_eq}
use taquba.Bytes.Order.{eq_of_bytes_eq}
use taquba.History.{JobAttempt}
use taquba.Keys.{of, job_index_key, attempt_history_key, dedup_index_key}
use taquba.Job.{JobRecord}
use taquba.Job.Storage.{status_of-stored_key}
use taquba.Backend.{Backend}
use taquba.Txn.{Txn, delete_dedup, append_attempt}
use taquba.Txn.Keyed.{job_space, job_space-index, job_space-record}
use taquba.Txn.Consistent.{Stored, IsConsistent}
use taquba.Txn.Moved.{Kept, IsNear}

module _ (b : Backend) where
  open b use {State, get, put, delete, codec}

  -- A key outside the records and the index is none of theirs.
  pub other_space : (k x : Bytes) → job_space k ≡ false → job_space x ≡ true → bytes_eq k x ≡ false
  other_space k x hk hx = elim (Bool-cases (bytes_eq k x)) [
    | inl e ↦ ground (arith, ap job_space (eq_of_bytes_eq k x e), hk, hx)
    | inr e ↦ e
  ]

  pub history_space : (id : Bytes) → job_space (attempt_history_key id) ≡ false
  unfolding job_space of attempt_history_key
  history_space id = refl

  pub dedup_space : (queue key : Bytes) → job_space (dedup_index_key queue key) ≡ false
  unfolding job_space of dedup_index_key
  dedup_space queue key = refl

  -- The release of a dedup key changes no record and no index entry.
  pub get-delete_dedup :
      (s : State) (job : JobRecord) (x : Bytes)
      → job_space x ≡ true
      → get (delete_dedup b s job) x ≡ get s x
  get-delete_dedup s job x hx = of_key job.dedup_key
    where
      of_key :
          (m : Option Bytes)
          → get (elim m [ none ↦ s | some k ↦ delete s (dedup_index_key job.queue k) ]) x ≡ get s x
      of_key none = refl
      of_key (some k) = ground (
        arith,
        b.get-delete s (dedup_index_key job.queue k) x,
        other_space (dedup_index_key job.queue k) x (dedup_space job.queue k) hx,
      )

  -- Appending to the attempt history changes no record and no index entry.
  pub append_attempt-IsNear :
      (s : State) (t : Txn b) (from id : Bytes) (entry : JobAttempt)
      → IsNear b s t.txn from
      → IsNear b s (append_attempt b t id entry).txn from
  unfolding append_attempt
  append_attempt-IsNear s t from id entry near x hx hf = ground (
    arith,
    b.get-merge t.txn id (b.encode_attempt entry) x,
    other_space (attempt_history_key id) x (history_space id) hx,
    near x hx hf,
  )

  -- A change outside the records and the index leaves what is stored.
  pub Stored-same :
      (s t : State)
      → ((x : Bytes) → job_space x ≡ true → get t x ≡ get s x)
      → (k : Bytes) (j : JobRecord) → Stored b s k j
      → Stored b t k j
  Stored-same s t same k j st = record {
    at_key = same k (job_space-record k j.status (status_of-stored_key j k st.keyed)) ∙ st.at_key;
    keyed = st.keyed;
    at_index = same (job_index_key j.id) (job_space-index j.id) ∙ st.at_index;
    queue_fits = st.queue_fits;
  }

  -- A change outside the records and the index leaves the store as consistent as it was.
  pub IsConsistent-same :
      (s t : State)
      → ((x : Bytes) → job_space x ≡ true → get t x ≡ get s x)
      → IsConsistent b s
      → IsConsistent b t
  IsConsistent-same s t same c = record {
    indexed = λ id k h.
        let (j, p, st) = c.indexed id k (sym (same (job_index_key id) (job_space-index id)) ∙ h) in
        (j, p, Stored-same s t same k j st);
    located = λ k v status hs h.
        let (j, p, st) =
          c.located k v status hs (sym (same k (job_space-record k status hs)) ∙ h) in
        (j, p, Stored-same s t same k j st);
  }

  pub Kept-same :
      (s t : State) (job : JobRecord)
      → ((x : Bytes) → job_space x ≡ true → get t x ≡ get s x)
      → Kept b s job
      → Kept b t job
  Kept-same s t job same kept = record {
    key = kept.key;
    stored = Stored-same s t same kept.key job kept.stored;
    consistent = IsConsistent-same s t same kept.consistent;
  }

  -- Appending to the attempt history keeps what is stored.
  pub append_attempt-Kept :
      (t : Txn b) (id : Bytes) (entry : JobAttempt) (job : JobRecord)
      → Kept b t.txn job
      → Kept b (append_attempt b t id entry).txn job
  unfolding append_attempt
  append_attempt-Kept t id entry job kept =
      Kept-same t.txn (append_attempt b t id entry).txn job
        (λ x hx. ground (
          arith,
          b.get-merge t.txn id (b.encode_attempt entry) x,
          other_space (attempt_history_key id) x (history_space id) hx,
        ))
        kept

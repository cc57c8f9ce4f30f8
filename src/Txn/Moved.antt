-- ===== src/Txn/Moved.antt =====
-- The move of a job to the key of its new state.
use taquba.Base.{
  ◌≡◌, ◌<◌, inl, inr, sym, ◌∙◌, subst, true, false, none, some, arith, length, Bool-cases,
}
use taquba.Bytes.{Bytes, bytes_eq}
use taquba.Bytes.Order.{eq_of_bytes_eq}
use taquba.Map.{bytes_eq_iff}
use taquba.Keys.{job_index_key}
use taquba.Job.{JobRecord, stored_key, stored_bytes}
use taquba.Job.Storage.{status_of-stored_key}
use taquba.Error.{ok}
use taquba.Backend.{Backend}
use taquba.Txn.{Txn, put_job, move_job, end_waits, key_status, count_move, note_written}
use taquba.Txn.Keyed.{job_space, index-not_record}
use taquba.Txn.Consistent.{Stored, IsConsistent}
use taquba.Txn.Written.{OldKey, IsWritten, written-Stored, written-IsConsistent}
use taquba.Txn.Lookup.{OldKey-Stored}

module _ (b : Backend) where
  open b use {State, get, put, delete, codec}

  -- What a store holds of the jobs besides the record at one key.
  abbrev pub IsNear : State → State → Bytes → Type 0
  IsNear s t from = (x : Bytes) → job_space x ≡ true → bytes_eq from x ≡ false → get t x ≡ get s x

  end_waits_lem :
      (job : JobRecord) → ((end_waits job).id ≡ job.id) × ((end_waits job).queue ≡ job.queue)
  unfolding end_waits
  end_waits_lem job = (ground arith, ground arith)

  move_job-ok :
      (s : State) (t : Txn b) (from : Bytes) (job : JobRecord) (key : Bytes) (before : JobRecord)
      → Stored b s from before
      → before.id ≡ (end_waits job).id
      → IsNear s t.txn from
      → stored_key (end_waits job) ≡ some key
      → (u : Txn b) × (move_job b t from job ≡ ok (u, end_waits job))
        × IsWritten b s u.txn (end_waits job) key (bytes_eq from)
  unfolding move_job key_status put_job
  move_job-ok s t from job key before st same near h = elim (Bool-cases (bytes_eq from key)) [
    | inl e ↦ (
      record t {
        txn = put t.txn key (stored_bytes codec job');
        notes = note_written t.notes job' key;
      },
      rw (move_job, h, e),
      λ x hx. ground (
        arith,
        b.get-put t.txn key (stored_bytes codec job') x,
        bytes_eq_iff (job_index_key job'.id) x,
        bytes_eq_iff from x,
        eq_of_bytes_eq from key e,
        near x hx,
        at_index,
        index-not_record job'.id from before.status (status_of-stored_key before from st.keyed),
      ),
    )
    | inr e ↦
        let u = put_job b (record t { txn = delete t.txn from }) key job' in
        (
          record u {
            stats = count_move u.stats job'.queue (some before.status) (some job'.status);
          },
          rw (move_job, h, e, known),
          λ x hx. ground (
            arith,
            b.get-put (put (delete t.txn from) key (stored_bytes codec job'))
                (job_index_key job'.id) key x,
            b.get-put (delete t.txn from) key (stored_bytes codec job') x,
            b.get-delete t.txn from x,
            near x hx,
          ),
        )
  ]
    where
      job' : JobRecord
      job' = end_waits job

      known : key_status from ≡ some before.status
      known = status_of-stored_key before from st.keyed

      at_index : get s (job_index_key job'.id) ≡ some from
      at_index = subst (λ i. get s (job_index_key i) ≡ some from) same st.at_index

  -- What a transition leaves of a job: its record at a key, in a consistent store.
  pub record Kept (t : State) (job : JobRecord) : Type 0 where
    pub key : Bytes
    pub stored : Stored b t key job
    pub consistent : IsConsistent b t

  -- Nothing of a job, in a consistent store.
  pub record Gone (t : State) (id : Bytes) : Type 0 where
    pub no_index : get t (job_index_key id) ≡ none
    pub consistent : IsConsistent b t

module _ (b : Backend) where
  open b use {State, get, put, delete, codec}

  pub OldKey-moved :
      (s : State) (from : Bytes) (before : JobRecord) (id : Bytes)
      → Stored b s from before
      → before.id ≡ id
      → OldKey b s id (bytes_eq from)
  OldKey-moved s from before id st same =
      subst (λ i. OldKey b s i (bytes_eq from)) same (OldKey-Stored b s from before st)

  -- Moving a stored job of a consistent store to the key of its new state, when that state has a
  -- key and its queue name has at most 255 bytes, returns, writes the record there without the
  -- waits of a state that has none, and keeps the store consistent. The transaction may have
  -- written at the old key, or outside the records and the index, before.
  pub move_job-Kept :
      (s : State) (t : Txn b) (from : Bytes) (job : JobRecord) (key : Bytes) (before : JobRecord)
      → IsConsistent b s
      → Stored b s from before
      → before.id ≡ job.id
      → length job.queue < 256
      → IsNear b s t.txn from
      → stored_key (end_waits job) ≡ some key
      → (u : Txn b) × (move_job b t from job ≡ ok (u, end_waits job)) × Kept b u.txn (end_waits job)
  move_job-Kept s t from job key before c st same fits near h =
      let (same_id, same_queue) = end_waits_lem b job in
      let fits' : length (end_waits job).queue < 256 = ground (arith, same_queue) in
      let same' = same ∙ sym same_id in
      let (u, e, w) = move_job-ok b s t from job key before st same' near h in
      (
        u,
        e,
        record {
          key = key;
          stored = written-Stored b s u.txn (end_waits job) key (bytes_eq from) w h fits';
          consistent =
              written-IsConsistent b s u.txn (end_waits job) key (bytes_eq from) c
                (OldKey-moved s from before (end_waits job).id st same') w h fits';
        },
      )

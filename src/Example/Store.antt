-- ===== src/Example/Store.antt =====
-- A store as an association list, and a consistent state of it with one job.
use taquba.Base.{◌≡◌, ◌<◌, refl, false, [], ◌∷◌, some, arith, length}
use taquba.Bytes.{Bytes}
use taquba.Map.{Map, get-insert, get-remove, bytes_Eq}
use taquba.Map
use taquba.Keys.{attempt_history_key}
use taquba.Job.{JobRecord, stored_key, new_pending}
use taquba.History.{merge_append}
use taquba.Backend.{Backend}
use taquba.Txn.{Txn, begin, put_job}
use taquba.Txn.Consistent.{Stored, IsConsistent}
use taquba.Txn.Written.{written-Stored, written-IsConsistent}
use taquba.Txn.Lookup.{OldKey-none}
use taquba.Txn.Inserted.{put_job-IsWritten}
use taquba.Example.Serialized.{example_codec}

abbrev merged : Map Bytes Bytes → Bytes → Bytes → Map Bytes Bytes
merged s k v = Map.insert k (merge_append (Map.get k s) (v ∷ [])) s

abbrev pub example_store : Backend
example_store = record {
  State = Map Bytes Bytes;
  get = λ s k. Map.get k s;
  put = λ s k v. Map.insert k v s;
  delete = λ s k. Map.remove k s;
  merge = merged;
  codec = example_codec;
  encode_attempt = λ entry. entry.attempt ∷ entry.recorded_at ∷ [];
  get-put = λ s k v j. get-insert k j v s;
  get-delete = λ s k j. get-remove k j s;
  get-merge = λ s id v j.
      get-insert (attempt_history_key id) j
        (merge_append (Map.get (attempt_history_key id) s) (v ∷ [])) s;
}

pub empty-IsConsistent : IsConsistent example_store []
unfolding Map.get
empty-IsConsistent = record {
  indexed = λ id key h. ground arith;
  located = λ key v status hs h. ground arith;
}

-- A store with one job.
abbrev pub holding : JobRecord → Bytes → Txn example_store
holding job key = put_job example_store (begin example_store []) key job

module _ (job : JobRecord) (key : Bytes) (h : stored_key job ≡ some key)
    (fits : length job.queue < 256) where
  pub holding-Stored : Stored example_store (holding job key).txn key job
  holding-Stored =
      written-Stored example_store [] (holding job key).txn job key (λ _. false)
        (put_job-IsWritten example_store (begin example_store []) job key) h fits

  pub holding-IsConsistent : IsConsistent example_store (holding job key).txn
  unfolding Map.get
  holding-IsConsistent =
      written-IsConsistent example_store [] (holding job key).txn job key (λ _. false)
        empty-IsConsistent (OldKey-none example_store [] job.id refl)
        (put_job-IsWritten example_store (begin example_store []) job key) h fits

-- A job of the queue `q` with the id `j`.
abbrev pub example_job : JobRecord
example_job = record (new_pending (b'q' ∷ []) (b'q' ∷ []) [] 3 1 50) { id = b'j' ∷ [] }

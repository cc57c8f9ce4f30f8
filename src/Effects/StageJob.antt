-- ===== src/Effects/StageJob.antt =====
-- The writes of a new job, on a consistent store.
use taquba.Base.{◌≡◌, ◌⊎◌, inl, inr, true, false, Option, none, some}
use taquba.Bytes.{Bytes}
use taquba.Bytes.Utf8.{is_utf8}
use taquba.Keys.{job_index_key, dedup_index_key}
use taquba.Job.{JobRecord, stored_clone}
use taquba.Error.{Error, Result, ok, err, duplicate_job_id, invalid_state}
use taquba.Backend.{Backend}
use taquba.Txn.{Txn, get_indexed_job}
use taquba.Txn.Consistent.{IsConsistent}
use taquba.Count.{CountCodec}
use taquba.Effects.{PreparedJob}
use taquba.Effects.CountWait.{WaitRefused, WaitWritten}

module _ (b : Backend) (counts : CountCodec) where
  open b use {State, get, put, delete}

  -- Why the insert of a new job is refused: its wait for a count is.
  abbrev InsertRefused : Txn b → JobRecord → Error → Type 0
  InsertRefused t job e =
      (name : Bytes) × (job.count_wait ≡ some name) × WaitRefused b counts t name e

  -- The record that a new job leaves: as it is prepared, or by its wait for a count.
  abbrev pub Written : Txn b → JobRecord → JobRecord → Type 0
  Written t job written =
      ((job.count_wait ≡ none) × (written ≡ job))
      ⊎ ((name : Bytes) × (job.count_wait ≡ some name) × WaitWritten b counts t name job written)

  -- What an insert of a new job leaves: refused, or looked up as it is written, in a consistent store.
  abbrev Inserts : Txn b → JobRecord → Result (Txn b) → Type 0
  Inserts t job r =
      ((e : Error) × (r ≡ err e) × InsertRefused t job e)
      ⊎ ((u : Txn b) × (written : JobRecord) × (key : Bytes) × (r ≡ ok u)
          × IsConsistent b u.txn
          × (get_indexed_job b u.txn job.id ≡ ok (some (key, stored_clone written)))
          × Written t job written)

  -- The dedup key of a job has an entry with these bytes.
  abbrev pub Holds : Txn b → JobRecord → Bytes → Type 0
  Holds t job bytes =
      (k : Bytes) × (job.dedup_key ≡ some k)
      × (get t.txn (dedup_index_key job.queue k) ≡ some bytes)

  -- No job holds the dedup key of a job, if it has one.
  abbrev pub Unheld : Txn b → JobRecord → Type 0
  Unheld t job =
      (job.dedup_key ≡ none)
      ⊎ ((k : Bytes) × (job.dedup_key ≡ some k) × (get t.txn (dedup_index_key job.queue k) ≡ none))

  -- Why the writes of a new job are refused: the entry of its dedup key is no text, its supplied id is
  -- in use, or its wait for a count is refused.
  abbrev pub Refused : Txn b → PreparedJob → Error → Type 0
  Refused t p e =
      ((bytes : Bytes) × Holds t p.job bytes × (is_utf8 bytes ≡ false) × (e ≡ invalid_state))
      ⊎ ((key : Bytes) × (p.id_override_used ≡ true)
          × (get t.txn (job_index_key p.job.id) ≡ some key)
          × (e ≡ duplicate_job_id p.job.id))
      ⊎ InsertRefused t p.job e

  -- What the writes of a new job leave.
  abbrev pub Stages : Txn b → PreparedJob → Result (Txn b × (Bytes ⊎ Bytes)) → Type 0
  Stages t p r =
      ((existing : Bytes) × (r ≡ ok (t, inl existing)) × Holds t p.job existing)
      ⊎ ((e : Error) × (r ≡ err e) × Refused t p e)
      ⊎ ((u : Txn b) × (written : JobRecord) × (key : Bytes) × (r ≡ ok (u, inr p.job.id))
          × IsConsistent b u.txn
          × (get_indexed_job b u.txn p.job.id ≡ ok (some (key, stored_clone written)))
          × Unheld t p.job
          × (get t.txn (job_index_key p.job.id) ≡ none)
          × Written t p.job written)

  -- What the read of the dedup key found.
  abbrev Hit : Txn b → JobRecord → Option Bytes → Type 0
  Hit t job none = Unheld t job
  Hit t job (some existing) = Holds t job existing

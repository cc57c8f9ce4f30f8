-- ===== src/Job/Storage.antt =====
-- A record is read back from its key and its bytes.
use taquba.Base.{◌≡◌, Option, none, some, arith}
use taquba.Bytes.{Bytes}
use taquba.Status.{JobStatus, pending}
use taquba.Keys.{of, job_status, pending_key, scheduled_key, claimed_key, done_key, dead_key}
use taquba.Job.{JobRecord, stored_key, stored_key_for, stored_clone, Codec, stored_bytes, decode}

-- The state of the job record stored at a key, if the key is one of a job record.
abbrev pub status_of : Bytes → Option JobStatus
status_of key = elim (of key) [ none ↦ none | some tag ↦ job_status tag ]

stored_key_for-status :
    (s : JobStatus) (job : JobRecord) (key : Bytes)
    → stored_key_for s job ≡ some key
    → status_of key ≡ some s
unfolding of job_status pending_key scheduled_key claimed_key done_key dead_key
stored_key_for-status pending job key h = ground arith
stored_key_for-status _ job key h = ground arith

-- The key space of a stored record tells its state.
pub status_of-stored_key :
    (job : JobRecord) (key : Bytes) → stored_key job ≡ some key → status_of key ≡ some job.status
unfolding stored_key
status_of-stored_key job key h = stored_key_for-status job.status job key h

module _ (codec : Codec) where
  stored_bytes-stored_clone :
      (job : JobRecord) → stored_bytes codec job ≡ codec.encode (stored_clone job)
  unfolding stored_bytes stored_clone
  stored_bytes-stored_clone job = ground arith

  -- What is written for a record, under the key of its state, decodes to the record in its stored
  -- form: the state comes back from the key, and all else but an offloaded payload from the bytes.
  pub decode-stored :
      (job : JobRecord) (key : Bytes)
      → stored_key job ≡ some key
      → decode codec key (stored_bytes codec job) ≡ some (stored_clone job)
  unfolding decode stored_clone
  decode-stored job key h = ground (
    arith,
    status_of-stored_key job key h,
    stored_bytes-stored_clone job,
    codec.from_slice-encode (stored_clone job),
  )

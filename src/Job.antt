-- ===== src/Job.antt =====
-- taquba/src/job.rs: the record of a job, the key it is stored under and its stored form. Text is
-- its bytes. The serialization (`rmp_serde`) is a parameter, with the round trip that it documents
-- for a field marked `skip`.
pub mod Storage
use taquba.Base.{ℕ, ◌≡◌, Bool, true, false, List, [], ◌∷◌, Option, none, some, leb, if◌then◌else◌}
use taquba.Bytes.{Bytes}
use taquba.Map.{Map}
use taquba.Status.{JobStatus, pending, scheduled, claimed, done, dead}
use taquba.Keys.{of, job_status, pending_key, scheduled_key, claimed_key, done_key, dead_key}

pub record JobRecord : Type 0 where
  pub id : Bytes
  pub queue : Bytes
  pub payload : Bytes
  pub payload_ref : Option Bytes
  pub headers : Map Bytes Bytes
  pub status : JobStatus
  pub attempts : ℕ  -- u32
  pub max_attempts : ℕ  -- u32
  pub enqueued_at : ℕ  -- u64
  pub claimed_at : Option ℕ
  pub run_at : Option ℕ
  pub signal : Option Bytes
  pub signal_wait : Bool
  pub count_wait : Option Bytes
  pub priority : ℕ  -- u32
  pub last_error : Option Bytes
  pub dedup_key : Option Bytes
  pub completed_at : Option ℕ
  pub failed_at : Option ℕ
  pub cancel_requested : Bool

unfoldable pub is_last_attempt : JobRecord → Bool
is_last_attempt job = leb job.max_attempts job.attempts

unfoldable pub new_pending : Bytes → Bytes → Bytes → ℕ → ℕ → ℕ → JobRecord
new_pending id queue payload max_attempts priority enqueued_at = record {
  id = id;
  queue = queue;
  payload = payload;
  payload_ref = none;
  headers = [];
  status = pending;
  attempts = 0;
  max_attempts = max_attempts;
  enqueued_at = enqueued_at;
  claimed_at = none;
  run_at = none;
  signal = none;
  signal_wait = false;
  count_wait = none;
  priority = priority;
  last_error = none;
  dedup_key = none;
  completed_at = none;
  failed_at = none;
  cancel_requested = false;
}

-- The state of a record before `decode` sets it.
abbrev pub initial : JobStatus
initial = pending

-- The `match` of `stored_key`. `none` is the panic of `expect`.
abbrev pub stored_key_for : JobStatus → JobRecord → Option Bytes
stored_key_for pending job = some (pending_key job.queue job.priority job.enqueued_at job.id)
stored_key_for scheduled job = elim job.run_at [
  | none ↦ none
  | some run_at ↦ some (scheduled_key job.queue run_at job.id)
]
stored_key_for claimed job = some (claimed_key job.queue job.id)
stored_key_for done job = elim job.completed_at [
  | none ↦ none
  | some completed_at ↦ some (done_key completed_at job.queue job.id)
]
stored_key_for dead job = some (dead_key job.queue job.id)

unfoldable pub stored_key : JobRecord → Option Bytes
stored_key job = stored_key_for job.status job

unfoldable pub stored_clone : JobRecord → JobRecord
stored_clone job = record job {
  payload = elim job.payload_ref [ none ↦ job.payload | some _ ↦ [] ];
}

-- `rmp_serde` over a `JobRecord`: the status is not stored, and a decoded record has the initial
-- one.
pub record Codec : Type 0 where
  pub encode : JobRecord → Bytes
  pub from_slice : Bytes → Option JobRecord
  pub from_slice-encode :
      (job : JobRecord) → from_slice (encode job) ≡ some (record job { status = initial })

module _ (codec : Codec) where
  unfoldable pub stored_bytes : JobRecord → Bytes
  stored_bytes job = elim job.payload_ref [
    | none ↦ codec.encode job
    | some _ ↦ codec.encode (stored_clone job)
  ]

  -- `none` is the decode error.
  unfoldable pub decode : Bytes → Bytes → Option JobRecord
  decode key bytes = elim (of key) [
    | none ↦ none
    | some tag ↦ elim (job_status tag) [
      | none ↦ none
      | some status ↦ elim (codec.from_slice bytes) [
        | none ↦ none
        | some job ↦ some (record job { status = status })
      ]
    ]
  ]

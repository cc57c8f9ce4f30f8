-- ===== src/Txn.antt =====
-- taquba/src/txn.rs: the writes that every transition of a job is made of. A transaction is the state
-- of the store as it sees it, with the notes and the counter changes of its commit. A storage error
-- ends the call and commits nothing, and is not modelled.
pub mod ClaimEnd
pub mod Keyed
pub mod Consistent
pub mod Written
pub mod Removed
pub mod Lookup
pub mod Inserted
pub mod Moved
pub mod Unrelated
pub mod Removal
mod Tests
use taquba.Base.{
  ℕ, ◌≡◌, ◌↔◌, Bool, true, false, not, ◌&&◌, ◌||◌, List, [], ◌∷◌, ◌++◌, Option, none, some, arith,
  ltb, leb, ◌==◌, if◌then◌else◌, min, suc, ◌+◌,
}
use taquba.Bytes.{Bytes, bytes_eq, bytes_lt}
use taquba.Map.{Map, Eq, bytes_Eq, pair_Eq, bytes_eq_iff}
use taquba.Map
use taquba.Int.{ℤ, pos, add_one, sub_one}
use taquba.Status.{JobStatus, pending, scheduled, claimed, done, dead, status_eq, status_eq_iff}
use taquba.Keys.{
  of, job_status, claimed_key, job_index_key, attempt_history_key, dedup_index_key,
  inbox_record_key, inbox_expiry_key,
}
use taquba.Job.{JobRecord, stored_key, stored_bytes, decode}
use taquba.History.{JobAttempt, AttemptOutcome}
use taquba.Error.{Result, ok, err, panic, ◌>>=◌, deserialization, claim_lost}
use taquba.LeaseRegistry.{Registry, current}
use taquba.Expiry.{ExpiryIndex}
use taquba.Backend.{Backend}

abbrev pub counter_beq : Bytes × JobStatus → Bytes × JobStatus → Bool
counter_beq (q, s) (r, t) = bytes_eq q r && status_eq s t

pub counter_beq_iff : (a b : Bytes × JobStatus) → (counter_beq a b ≡ true) ↔ (a ≡ b)
counter_beq_iff (q, s) (r, t) = (
  λ h. ground (arith, bytes_eq_iff q r, status_eq_iff s t),
  λ h. ground (arith, bytes_eq_iff q r, status_eq_iff s t),
)

instance abbrev pub counter_Eq : Eq (Bytes × JobStatus)
counter_Eq = record { beq = counter_beq; beq_iff = counter_beq_iff }

pub record CommitNotes : Type 0 where
  pub pending : Map Bytes (Bytes × ℕ)
  pub scheduled : Option ℕ
  pub done : Option ℕ
  pub enqueued : List (Bytes × Bytes)
  pub expiry : List (ExpiryIndex × ℕ)
  pub inbox : Option ℕ

abbrev pub no_notes : CommitNotes
no_notes = record {
  pending = [];
  scheduled = none;
  done = none;
  enqueued = [];
  expiry = [];
  inbox = none;
}

-- taquba/src/inbox/record.rs, `StagedRecord`.
pub record StagedRecord : Type 0 where
  pub queue : Bytes
  pub id : Bytes
  pub applied_at_ms : ℕ
  pub bytes : Bytes

abbrev pub CounterChanges : Type 0
CounterChanges = Map (Bytes × JobStatus) ℤ

abbrev change_of : Option ℤ → ℤ
change_of none = pos 0
change_of (some d) = d

-- `*stats.entry((queue, status)).or_default() += 1`, and `-= 1`.
abbrev count_up : Bytes × JobStatus → CounterChanges → CounterChanges
count_up key stats = Map.insert key (add_one (change_of (Map.get key stats))) stats

abbrev count_down : Bytes × JobStatus → CounterChanges → CounterChanges
count_down key stats = Map.insert key (sub_one (change_of (Map.get key stats))) stats

abbrev leave : Bytes → Option JobStatus → CounterChanges → CounterChanges
leave queue none stats = stats
leave queue (some from) stats =
    if status_eq from done then stats else count_down (queue, from) stats

abbrev enter : Bytes → Option JobStatus → CounterChanges → CounterChanges
enter queue none stats = stats
enter queue (some to) stats = count_up (queue, to) stats

abbrev option_status_eq : Option JobStatus → Option JobStatus → Bool
option_status_eq none none = true
option_status_eq (some s) (some t) = status_eq s t
option_status_eq none (some t) = false
option_status_eq (some s) none = false

unfoldable pub count_move :
    CounterChanges → Bytes → Option JobStatus → Option JobStatus → CounterChanges
count_move stats queue from to =
    if option_status_eq from to then stats else enter queue to (leave queue from stats)

-- The closure `earliest` of `note_written`.
abbrev earliest : Option ℕ → Option ℕ → Option ℕ
earliest bound none = bound
earliest none (some at) = some at
earliest (some b) (some at) = some (min b at)

abbrev note_pending : Option (Bytes × ℕ) → Bytes → Bytes × ℕ
note_pending none key = (key, 1)
note_pending (some (min_key, count)) key =
    (if bytes_lt key min_key then key else min_key, count + 1)

note_status : JobStatus → CommitNotes → JobRecord → Bytes → CommitNotes
note_status pending notes job key = record notes {
  pending = Map.insert job.queue (note_pending (Map.get job.queue notes.pending) key) notes.pending;
}
note_status scheduled notes job key = record notes {
  scheduled = earliest notes.scheduled job.run_at;
}
note_status done notes job key = record notes { done = earliest notes.done job.completed_at }
note_status claimed notes job key = notes
note_status dead notes job key = notes

unfoldable pub note_written : CommitNotes → JobRecord → Bytes → CommitNotes
unfolding note_status
note_written notes job key = note_status job.status notes job key

-- `none` is the panic of `expect`.
unfoldable pub key_status : Bytes → Option JobStatus
key_status key = elim (of key) [ none ↦ none | some tag ↦ job_status tag ]

-- A job that leaves the scheduled state leaves its waits.
unfoldable pub end_waits : JobRecord → JobRecord
end_waits job =
    if status_eq job.status scheduled
    then job
    else record job { signal_wait = false; count_wait = none }

module _ (b : Backend) where
  open b use {State, get, put, delete, merge, codec, encode_attempt}

  pub record Txn : Type 0 where
    pub txn : State
    pub notes : CommitNotes
    pub stats : CounterChanges

  -- `QueueCore::begin`, on a snapshot of the store.
  abbrev pub begin : State → Txn
  begin s = record { txn = s; notes = no_notes; stats = [] }

  unfoldable pub put_job : Txn → Bytes → JobRecord → Txn
  put_job t key job = record t {
    txn = put (put t.txn key (stored_bytes codec job)) (job_index_key job.id) key;
    notes = note_written t.notes job key;
  }

  unfoldable pub insert_job : Txn → JobRecord → Result Txn
  insert_job t job = elim (stored_key job) [
    | none ↦ panic
    | some key ↦
        let u = put_job t key job in
        ok (record u {
          stats = count_move u.stats job.queue none (some job.status);
          notes = record u.notes { enqueued = u.notes.enqueued ++ (job.queue, job.id) ∷ [] };
        })
  ]

  -- `move_job` once the key of the record is known. The record comes back as it is written.
  abbrev move_to : Txn → Bytes → JobRecord → Bytes → Result (Txn × JobRecord)
  move_to t from job key =
      if bytes_eq from key
      then ok (
        record t {
          txn = put t.txn key (stored_bytes codec job);
          notes = note_written t.notes job key;
        },
        job,
      )
      else let u = put_job (record t { txn = delete t.txn from }) key job in
        elim (key_status from) [
          | none ↦ panic
          | some s ↦
              ok (record u { stats = count_move u.stats job.queue (some s) (some job.status) }, job)
        ]

  unfoldable pub move_job : Txn → Bytes → JobRecord → Result (Txn × JobRecord)
  move_job t from job = elim (stored_key (end_waits job)) [
    | none ↦ panic
    | some key ↦ move_to t from (end_waits job) key
  ]

  abbrev pub delete_dedup : State → JobRecord → State
  delete_dedup s job = elim job.dedup_key [
    | none ↦ s
    | some dedup_key ↦ delete s (dedup_index_key job.queue dedup_key)
  ]

  unfoldable pub stage_remove : Txn → Bytes → JobRecord → Result Txn
  stage_remove t key job =
      let s =
        delete (delete (delete t.txn key) (job_index_key job.id)) (attempt_history_key job.id) in
      let completed : Option JobStatus = if status_eq job.status done then some done else none in
      elim (key_status key) [
        | none ↦ panic
        | some from ↦ ok (record t {
          txn = delete_dedup s job;
          stats = count_move t.stats job.queue (some from) completed;
        })
      ]

  -- The record of an id through its index entry: the current key and the record.
  unfoldable pub get_indexed_job : State → Bytes → Result (Option (Bytes × JobRecord))
  get_indexed_job s id = elim (get s (job_index_key id)) [
    | none ↦ ok none
    | some current_key ↦ elim (get s current_key) [
      | none ↦ ok none
      | some bytes ↦ elim (decode codec current_key bytes) [
        | none ↦ err deserialization
        | some job ↦ ok (some (current_key, job))
      ]
    ]
  ]

  -- The in-transaction read of `read_claim`, after the check of the claim id.
  unfoldable pub read_record : State → Bytes → Result (Bytes × JobRecord)
  read_record s key = elim (get s key) [
    | none ↦ err claim_lost
    | some raw ↦ elim (decode codec key raw) [
      | none ↦ err deserialization
      | some job ↦ ok (key, job)
    ]
  ]

  unfoldable pub read_claim : State → Registry → Bytes → Bytes → ℕ → Result (Bytes × JobRecord)
  unfolding read_record
  read_claim s registry queue id claim_id = elim (current registry queue id) [
    | none ↦ err claim_lost
    | some (_, live) ↦
        if live == claim_id then read_record s (claimed_key queue id) else err claim_lost
  ]

  unfoldable pub take_claim : Txn → Registry → Bytes → Bytes → ℕ → Result (Txn × JobRecord)
  take_claim t registry queue id claim_id = do
    (key, job) ← read_claim t.txn registry queue id claim_id
    ok (record t { txn = delete t.txn key }, job)

  unfoldable pub append_attempt : Txn → Bytes → JobAttempt → Txn
  append_attempt t id entry = record t {
    txn = merge t.txn (attempt_history_key id) (encode_attempt entry);
  }

  unfoldable pub stage_to_pending : Txn → Bytes → JobRecord → Result (Txn × JobRecord)
  stage_to_pending t from job = move_job t from (record job { status = pending; run_at = none })

  unfoldable pub stage_inbox_record : Txn → StagedRecord → Txn
  stage_inbox_record t r = record t {
    txn =
        put (put t.txn (inbox_record_key r.queue r.id) r.bytes)
          (inbox_expiry_key r.applied_at_ms r.queue r.id) [];
    notes = record t.notes { inbox = earliest t.notes.inbox (some r.applied_at_ms) };
  }

  unfoldable pub note_expiry_entry : Txn → ExpiryIndex → ℕ → Txn
  note_expiry_entry t index at_ms = record t {
    notes = record t.notes { expiry = t.notes.expiry ++ (index, at_ms) ∷ [] };
  }

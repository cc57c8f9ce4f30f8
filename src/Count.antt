-- ===== src/Count.antt =====
-- taquba/src/count.rs: named counts, and the job that waits for a count to reach zero. The change of a
-- count is an integer, where the source adds an `i64`. The serialization is a parameter.
pub mod CountCorrect
mod Tests
use taquba.Base.{ℕ, ◌≡◌, Bool, true, false, not, ◌&&◌, Option, none, some, if◌then◌else◌}
use taquba.Bytes.{Bytes}
use taquba.Int.{ℤ, pos, add, is_zero}
use taquba.Status.{JobStatus, pending, scheduled, status_eq}
use taquba.Keys.{count_key}
use taquba.Job.{JobRecord}
use taquba.Error.{Result, ok, err, deserialization, count_waiter_exists, ◌>>=◌}
use taquba.Backend.{Backend}
use taquba.Txn.{Txn, get_indexed_job}
use taquba.QueueCore.Control.{Wake, stage_wake, is_count}

pub record CountRecord : Type 0 where
  pub active : ℤ
  pub waiter : Option Bytes

abbrev pub default : CountRecord
default = record { active = pos 0; waiter = none }

-- `rmp_serde` over a `CountRecord`.
pub record CountCodec : Type 0 where
  pub encode : CountRecord → Bytes
  pub from_slice : Bytes → Option CountRecord
  pub from_slice-encode : (r : CountRecord) → from_slice (encode r) ≡ some r

module _ (b : Backend) (counts : CountCodec) where
  open b use {State, get, put, delete}

  unfoldable pub read_record : State → Bytes → Result CountRecord
  read_record s key = elim (get s key) [
    | none ↦ ok default
    | some bytes ↦ elim (counts.from_slice bytes) [ none ↦ err deserialization | some r ↦ ok r ]
  ]

  -- The rest of `stage_count_change`, from the changed record. What the wake reports is ignored.
  unfoldable pub write_change : Txn b → Bytes → CountRecord → Result (Txn b)
  write_change t name r =
      if not (is_zero r.active)
      then ok (record t { txn = put t.txn (count_key name) (counts.encode r) })
      else elim r.waiter [
        | none ↦ ok (record t { txn = delete t.txn (count_key name) })
        | some waiter ↦
            stage_wake b (record t { txn = delete t.txn (count_key name) }) waiter (Wake.count name)
            >>= λ (u, _). ok u
      ]

  unfoldable pub stage_count_change : Txn b → Bytes → ℤ → Result (Txn b)
  stage_count_change t name delta =
      if is_zero delta
      then ok t
      else read_record t.txn (count_key name) >>= λ r.
          write_change t name (record r { active = add r.active delta })

  abbrev pub register : Txn b → Bytes → CountRecord → JobRecord → Result (Txn b × JobRecord)
  register t name r job = ok (
    record t {
      txn = put t.txn (count_key name) (counts.encode (record r { waiter = some job.id }));
    },
    job,
  )

  -- The check of the recorded waiting job, from the record that is found of it.
  abbrev pub replace_found :
      Txn b
      → Bytes
      → CountRecord
      → JobRecord
      → Bytes
      → Option (Bytes × JobRecord)
      → Result (Txn b × JobRecord)
  replace_found t name r job waiter none = register t name r job
  replace_found t name r job waiter (some (_, current)) =
      if status_eq current.status scheduled && is_count current.count_wait name
      then err (count_waiter_exists name waiter)
      else register t name r job

  abbrev pub replace_on :
      Txn b → Bytes → CountRecord → JobRecord → Option Bytes → Result (Txn b × JobRecord)
  replace_on t name r job none = register t name r job
  replace_on t name r job (some waiter) =
      get_indexed_job b t.txn waiter >>= replace_found t name r job waiter

  -- The check of the recorded waiting job, and the record of this one.
  unfoldable pub replace_waiter :
      Txn b → Bytes → CountRecord → JobRecord → Result (Txn b × JobRecord)
  replace_waiter t name r job = replace_on t name r job r.waiter

  -- The rest of `stage_count_wait`, from the record of the count.
  abbrev pub wait_for : Txn b → JobRecord → Bytes → CountRecord → Result (Txn b × JobRecord)
  wait_for t job name r =
      if is_zero r.active
      then ok (
        t,
        record job { status = pending; run_at = none; signal_wait = false; count_wait = none },
      )
      else replace_waiter t name r job

  abbrev pub wait_on : Txn b → JobRecord → Option Bytes → Result (Txn b × JobRecord)
  wait_on t job none = ok (t, job)
  wait_on t job (some name) = read_record t.txn (count_key name) >>= wait_for t job name

  unfoldable pub stage_count_wait : Txn b → JobRecord → Result (Txn b × JobRecord)
  stage_count_wait t job = wait_on t job job.count_wait

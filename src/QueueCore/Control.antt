-- ===== src/QueueCore/Control.antt =====
-- taquba/src/queue_core/control.rs: the wake of a scheduled job and the cancel of a job. The effects,
-- the waiters and the log are left out.
use taquba.Base.{ℕ, Bool, true, false, Option, none, some, ◌⊎◌, inl, inr, if◌then◌else◌}
use taquba.Bytes.{Bytes, bytes_eq}
use taquba.Status.{JobStatus, pending, scheduled, claimed, done, dead, status_eq}
use taquba.Job.{JobRecord}
use taquba.Error.{Result, ok, ◌>>=◌}
use taquba.LeaseRegistry.{Registry}
use taquba.LeaseRegistry
use taquba.Backend.{Backend}
use taquba.Txn.{Txn, get_indexed_job, stage_to_pending, stage_remove, move_job}

pub data Wake : Type 0 where
  signal : Bytes → Wake
  count : Bytes → Wake
  early : Wake

pub data NotWoken : Type 0 where
  missing unscheduled no_wait : NotWoken

abbrev pub is_count : Option Bytes → Bytes → Bool
is_count none name = false
is_count (some waited) name = bytes_eq waited name

-- The `match` on the wake: the record to move, or why there is none.
abbrev pub woken_record : Wake → JobRecord → NotWoken ⊎ JobRecord
woken_record (signal payload) job =
    if job.signal_wait then inr (record job { signal = some payload }) else inl no_wait
woken_record (count name) job = if is_count job.count_wait name then inr job else inl no_wait
woken_record early job = inr job

pub data StagedCancel : Type 0 where
  removed : JobRecord → StagedCancel
  requested : JobRecord → StagedCancel
  already_requested : JobRecord → StagedCancel
  not_found : StagedCancel

-- taquba/src/queue.rs, `CancelOutcome`.
pub data CancelOutcome : Type 0 where
  removed requested not_found : CancelOutcome

unfoldable pub outcome : StagedCancel → CancelOutcome
outcome (StagedCancel.removed _) = CancelOutcome.removed
outcome (StagedCancel.requested _) = CancelOutcome.requested
outcome (StagedCancel.already_requested _) = CancelOutcome.requested
outcome StagedCancel.not_found = CancelOutcome.not_found

-- `finish_cancel`: the lease token that it fires, and the removed job, whose payload object the caller deletes.
unfoldable pub finish_cancel : Registry → StagedCancel → Option ℕ × Option JobRecord
finish_cancel registry (StagedCancel.removed job) =
    (LeaseRegistry.cancel registry job.queue job.id, some job)
finish_cancel registry (StagedCancel.requested job) =
    (LeaseRegistry.cancel registry job.queue job.id, none)
finish_cancel registry (StagedCancel.already_requested job) =
    (LeaseRegistry.cancel registry job.queue job.id, none)
finish_cancel registry StagedCancel.not_found = (none, none)

module _ (b : Backend) where
  -- The rest of `stage_wake`, from the record that is found.
  abbrev pub wake_found :
      Txn b → Wake → Option (Bytes × JobRecord) → Result (Txn b × (NotWoken ⊎ Bytes))
  wake_found t wake none = ok (t, inl missing)
  wake_found t wake (some (current_key, job)) =
      if status_eq job.status scheduled
      then elim (woken_record wake job) [
        | inl reason ↦ ok (t, inl reason)
        | inr job ↦
            stage_to_pending b t current_key job >>= λ (u, written). ok (u, inr written.queue)
      ]
      else ok (t, inl unscheduled)

  -- The queue of a woken job, or why it was not woken.
  unfoldable pub stage_wake : Txn b → Bytes → Wake → Result (Txn b × (NotWoken ⊎ Bytes))
  stage_wake t job_id wake = get_indexed_job b t.txn job_id >>= wake_found t wake

  unfoldable pub cancel_found :
      JobStatus → Txn b → Bytes → JobRecord → Result (Txn b × StagedCancel)
  cancel_found pending t current_key job =
      stage_remove b t current_key job >>= λ u. ok (u, StagedCancel.removed job)
  cancel_found scheduled t current_key job =
      stage_remove b t current_key job >>= λ u. ok (u, StagedCancel.removed job)
  cancel_found claimed t current_key job =
      if job.cancel_requested
      then ok (t, StagedCancel.already_requested job)
      else move_job b t current_key (record job { cancel_requested = true }) >>= λ (u, written).
          ok (u, StagedCancel.requested written)
  cancel_found done t current_key job = ok (t, StagedCancel.not_found)
  cancel_found dead t current_key job = ok (t, StagedCancel.not_found)

  unfoldable pub stage_cancel : Txn b → Bytes → Result (Txn b × StagedCancel)
  unfolding cancel_found
  stage_cancel t job_id = get_indexed_job b t.txn job_id >>= λ found. elim found [
    | none ↦ ok (t, StagedCancel.not_found)
    | some (current_key, job) ↦ cancel_found job.status t current_key job
  ]

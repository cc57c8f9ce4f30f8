-- ===== src/QueueCore/Signal.antt =====
-- taquba/src/queue_core/signal.rs: a signal to a job that waits for one.
use taquba.Base.{◌≡◌, inl, inr, true}
use taquba.Bytes.{Bytes}
use taquba.Status.{scheduled}
use taquba.Job.{JobRecord, stored_clone}
use taquba.Error.{Result, ok, ◌>>=◌}
use taquba.Backend.{Backend}
use taquba.Txn.{Txn, begin}
use taquba.Txn.Consistent.{Stored, IsConsistent}
use taquba.Txn.Moved.{Kept}
use taquba.QueueCore.Control.{Wake, stage_wake}
use taquba.QueueCore.ControlCorrect.{stage_wake_lem, with_payload}
use taquba.QueueCore.Read.{pending_of}

-- taquba/src/queue.rs, `SignalOutcome`.
pub data SignalOutcome : Type 0 where
  delivered not_waiting : SignalOutcome

module _ (b : Backend) where
  unfoldable pub stage_signal : Txn b → Bytes → Bytes → Result (Txn b × SignalOutcome)
  stage_signal t job_id payload = stage_wake b t job_id (Wake.signal payload) >>= λ (u, woken).
      elim woken [
        | inl _ ↦ ok (u, SignalOutcome.not_waiting)
        | inr _ ↦ ok (u, SignalOutcome.delivered)
      ]

module _ (b : Backend) where
  -- A signal to a stored job that is not scheduled changes nothing and is not delivered.
  stage_signal-unscheduled :
      (t : Txn b) (key : Bytes) (job : JobRecord) (payload : Bytes)
      → IsConsistent b t.txn
      → Stored b t.txn key job
      → ¬ (job.status ≡ scheduled)
      → stage_signal b t job.id payload ≡ ok (t, SignalOutcome.not_waiting)
  unfolding stage_signal
  stage_signal-unscheduled t key job payload c st other =
      elim (stage_wake_lem b t key job (Wake.signal payload) c st) [
        | inl (_, p) ↦ rw (stage_signal, p)
        | inr (inl (s, _, _)) ↦ absurd (other s)
        | inr (inr (s, _, _, _, _)) ↦ absurd (other s)
      ]

  -- A signal is delivered once: in a consistent store, a signal to a scheduled job that waits for one
  -- is delivered, and makes the job pending with the payload on its record. A second signal, after the
  -- first one commits, changes nothing and reports that the job is not waiting.
  pub stage_signal-once :
      (t : Txn b) (key : Bytes) (job : JobRecord) (payload second : Bytes)
      → IsConsistent b t.txn
      → Stored b t.txn key job
      → job.status ≡ scheduled
      → job.signal_wait ≡ true
      → (u : Txn b) × (stage_signal b t job.id payload ≡ ok (u, SignalOutcome.delivered))
        × Kept b u.txn (pending_of (with_payload (Wake.signal payload) (stored_clone job)))
        × (stage_signal b (begin b u.txn) job.id second
            ≡ ok (begin b u.txn, SignalOutcome.not_waiting))
  unfolding stage_signal stored_clone
  stage_signal-once t key job payload second c st is_scheduled waits =
      elim (stage_wake_lem b t key job (Wake.signal payload) c st) [
        | inl (other, _) ↦ absurd (other is_scheduled)
        | inr (inl (_, idle, _)) ↦ absurd (cc (idle, waits))
        | inr (inr (_, _, u, p, kept)) ↦ (
          u,
          rw (stage_signal, p),
          kept,
          stage_signal-unscheduled (begin b u.txn) kept.key
              (pending_of (with_payload (Wake.signal payload) (stored_clone job))) second
              kept.consistent kept.stored (λ e. cc e),
        )
      ]

-- ===== src/Sweeps.antt =====
-- The tasks that move jobs without a worker: taquba/src/reaper.rs, the leases that expired and the claims
-- that a process left, and taquba/src/scheduler.rs, the promotion of a due job. The scan of the
-- scheduled keys is in TimeBound.Steps. The retention sweeps and the metrics are left out.
pub mod SweepsCorrect
mod Tests
use taquba.Base.{ℕ, Bool, true, false, Option, none, some, List, [], ◌∷◌, ◌==◌, if◌then◌else◌}
use taquba.Bytes.{Bytes}
use taquba.Keys.{claimed_key}
use taquba.Job.{JobRecord, decode, is_last_attempt}
use taquba.History.{AttemptOutcome, lease_expired, interrupted}
use taquba.Error.{Result, ok, err, deserialization, ◌>>=◌}
use taquba.LeaseRegistry.{Registry, DueLease, current}
use taquba.LeaseRegistry
use taquba.Backend.{Backend}
use taquba.Txn.{Txn, stage_to_pending}
use taquba.Txn.ClaimEnd.{ClaimEnd, stage_claim_end}

unfoldable pub unsettled_claim_end : JobRecord → AttemptOutcome → Bytes → ClaimEnd
unsettled_claim_end job outcome error =
    if is_last_attempt job then ClaimEnd.dead error else ClaimEnd.retry none outcome none

abbrev pub lease_expired_error : Bytes
lease_expired_error =
    b'l' ∷ b'e' ∷ b'a' ∷ b's' ∷ b'e' ∷ b' ' ∷ b'e' ∷ b'x' ∷ b'p' ∷ b'i' ∷ b'r' ∷ b'e' ∷ b'd' ∷ []

abbrev pub interrupted_error : Bytes
interrupted_error =
    b'c' ∷ b'l' ∷ b'a' ∷ b'i' ∷ b'm' ∷ b' ' ∷ b'i' ∷ b'n' ∷ b't' ∷ b'e' ∷ b'r' ∷ b'r' ∷ b'u' ∷ b'p'
    ∷ b't' ∷ b'e' ∷ b'd' ∷ b' ' ∷ b'b' ∷ b'y' ∷ b' ' ∷ b'p' ∷ b'r' ∷ b'o' ∷ b'c' ∷ b'e' ∷ b's'
    ∷ b's' ∷ b' ' ∷ b'e' ∷ b'x' ∷ b'i' ∷ b't' ∷ []

module _ (b : Backend) where
  open b use {get, codec}

  -- The registry, and what the transaction commits unless it aborts.
  abbrev pub Reaped : Type 0
  Reaped = Registry × Option (Txn b × JobRecord × ClaimEnd)

  -- `reap_job` for an entry that is still the one of the lease.
  unfoldable pub reap_claimed : Txn b → Registry → DueLease → ℕ → Result Reaped
  reap_claimed t registry lease now = elim (get t.txn (claimed_key lease.queue lease.id)) [
    | none ↦ ok (LeaseRegistry.remove registry lease.queue lease.id lease.claim_id, none)
    | some raw ↦ elim (decode codec (claimed_key lease.queue lease.id) raw) [
      | none ↦ err deserialization
      | some job ↦
          let end = unsettled_claim_end job lease_expired lease_expired_error in
          stage_claim_end b t job end now >>= λ (u, written). ok (registry, some (u, written, end))
    ]
  ]

  unfoldable pub reap_job : Txn b → Registry → DueLease → ℕ → Result Reaped
  unfolding reap_claimed
  reap_job t registry lease now = elim (current registry lease.queue lease.id) [
    | none ↦ ok (registry, none)
    | some (_, live) ↦
        if live == lease.claim_id then reap_claimed t registry lease now else ok (registry, none)
  ]

  -- One pass of the loop of `requeue_interrupted_claims`, over the records read at open.
  unfoldable pub requeue_interrupted : Txn b → JobRecord → ℕ → Result (Txn b × JobRecord)
  requeue_interrupted t job now =
      stage_claim_end b t job (unsettled_claim_end job interrupted interrupted_error) now

  -- `none` where the attempt aborts.
  unfoldable pub promote_job : Txn b → Bytes → Result (Option (Txn b × JobRecord))
  promote_job t key = elim (get t.txn key) [
    | none ↦ ok none
    | some raw ↦ elim (decode codec key raw) [
      | none ↦ err deserialization
      | some job ↦ stage_to_pending b t key job >>= λ moved. ok (some moved)
    ]
  ]

-- ===== src/QueueCore/Claim.antt =====
-- taquba/src/queue_core/claim.rs: the writes of a claim. The scan and its interleavings are in
-- ClaimCursor.Steps. A cancel token is a number, and the fetch of an offloaded payload, which follows
-- the commit, is left out.
use taquba.Base.{ℕ, Bool, ◌+◌, ◌%◌, ◌^◌, ◌||◌, none, some, if◌then◌else◌, List, [], ◌∷◌}
use taquba.Bytes.{Bytes}
use taquba.Status.{JobStatus, pending, scheduled, status_eq}
use taquba.Job.{JobRecord, decode}
use taquba.Error.{Result, ok, err, deserialization, ◌>>=◌}
use taquba.LeaseRegistry.{Registry}
use taquba.LeaseRegistry
use taquba.Backend.{Backend}
use taquba.Txn.{Txn, get_indexed_job, move_job, delete_dedup}

-- taquba/src/job.rs, `Claim`: the record as it is written, the claim id and the cancel token, with whether the
-- token is fired. The token of a job whose cancellation was requested before is fired at once.
pub record Claim : Type 0 where
  pub job : JobRecord
  pub claim_id : ℕ
  pub cancel_token : ℕ
  pub is_fired : Bool

pub data ClaimOutcome : Type 0 where
  claimed : Claim → ClaimOutcome
  not_claimable not_found : ClaimOutcome

-- The claimed copy of a record. The dedup key leaves it.
abbrev pub claimed_record : JobRecord → ℕ → JobRecord
claimed_record job now = record job {
  status = JobStatus.claimed;
  claimed_at = some now;
  attempts = (job.attempts + 1) % 2 ^ 32;
  dedup_key = none;
}

module _ (b : Backend) where
  open b use {delete, codec}

  -- The writes of one claim: the record moves, the lease is registered, and the dedup entry of the
  -- record is released.
  unfoldable pub stage_claim :
      Txn b → Registry → Bytes → JobRecord → ℕ → ℕ → ℕ → ℕ → Result (Txn b × Registry × Claim)
  stage_claim t registry key job now lease_ms claim_id token =
      move_job b t key (claimed_record job now) >>= λ (u, written). ok (
        record u { txn = delete_dedup b u.txn job },
        LeaseRegistry.insert registry written.queue written.id ((now + lease_ms) % 2 ^ 64) claim_id
            token,
        record {
          job = written;
          claim_id = claim_id;
          cancel_token = token;
          is_fired = written.cancel_requested;
        },
      )

  unfoldable pub claim_by_id :
      Txn b → Registry → Bytes → ℕ → ℕ → ℕ → ℕ → Result (Txn b × Registry × ClaimOutcome)
  claim_by_id t registry id now lease_ms claim_id token = get_indexed_job b t.txn id >>= λ found.
      elim found [
        | none ↦ ok (t, registry, not_found)
        | some (current_key, job) ↦
            if status_eq job.status pending || status_eq job.status scheduled
            then stage_claim t registry current_key job now lease_ms claim_id token
              >>= (λ (u, leases, claim). ok (u, leases, claimed claim))
            else ok (t, registry, not_claimable)
      ]

  -- The loop over the candidates of a batch, each with the claim id and the token made for it.
  unfoldable pub stage_claims :
      Txn b
      → Registry
      → List ((Bytes × Bytes) × (ℕ × ℕ))
      → ℕ
      → ℕ
      → Result (Txn b × Registry × List Claim)
  stage_claims t registry [] now lease_ms = ok (t, registry, [])
  stage_claims t registry (((key, value), (claim_id, token)) ∷ candidates) now lease_ms =
      elim (decode codec key value) [
        | none ↦ err deserialization
        | some job ↦
            stage_claim t registry key job now lease_ms claim_id token >>= λ (u, leases, claim).
            stage_claims u leases candidates now lease_ms >>= λ (v, rest, claims).
            ok (v, rest, claim ∷ claims)
      ]

-- ===== src/QueueCore/ClaimCorrect.antt =====
-- The claim of a job by its id, on a consistent store, and the settlement that it allows.
use taquba.Base.{
  ℕ, ◌≡◌, ◌≢◌, ◌+◌, ◌%◌, ◌^◌, ◌⊎◌, inl, inr, refl, ap, false, ◌||◌, none, some, arith, Bool-cases,
  subst,
}
use taquba.Bytes.{Bytes}
use taquba.Status.{JobStatus, pending, scheduled, status_eq, status_eq_iff}
use taquba.Keys.{claimed_key}
use taquba.Map.{get-insert_self, pair_Eq}
use taquba.Job.{JobRecord, stored_key, stored_clone}
use taquba.Error.{ok}
use taquba.LeaseRegistry.{Registry, current}
use taquba.LeaseRegistry
use taquba.Backend.{Backend}
use taquba.Txn.{Txn, begin, end_waits, delete_dedup}
use taquba.Txn.ClaimEnd.{ClaimEnd}
use taquba.Txn.Consistent.{Stored, IsConsistent}
use taquba.Txn.Moved.{Kept, move_job-Kept}
use taquba.Txn.Unrelated.{Kept-same, get-delete_dedup}
use taquba.Txn.Lookup.{get_indexed_job-Stored}
use taquba.QueueCore.Claim.{ClaimOutcome, not_claimable, claimed_record, stage_claim, claim_by_id}
use taquba.QueueCore.Settle.{settle_claim}
use taquba.QueueCore.SettleCorrect.{ended, Left, settle_claim_lem}

-- The record of a claimed job, field by field where it changes: one more attempt, and neither the dedup
-- key nor a wait.
abbrev pub written_claim : JobRecord → ℕ → JobRecord
written_claim job now = record job {
  status = JobStatus.claimed;
  claimed_at = some now;
  attempts = (job.attempts + 1) % 2 ^ 32;
  dedup_key = none;
  signal_wait = false;
  count_wait = none;
}

-- The lease of a claim is the live one right after it is registered.
current-insert :
    (r : Registry) (queue id : Bytes) (expires_at claim_id token : ℕ)
    → current (LeaseRegistry.insert r queue id expires_at claim_id token) queue id
      ≡ some (expires_at, claim_id)
unfolding current LeaseRegistry.insert
current-insert r queue id expires_at claim_id token = rw (
  current,
  get-insert_self {K = Bytes × Bytes} (queue, id)
      (record { expires_at = expires_at; claim_id = claim_id; cancel = token; reaping = false })
      r.by_job,
)

module _ (b : Backend) where
  stage_claim-Kept :
      (t : Txn b) (registry : Registry) (key : Bytes) (job : JobRecord)
      (now lease_ms claim_id token : ℕ)
      → IsConsistent b t.txn
      → Stored b t.txn key job
      → (u : Txn b) × (stage_claim b t registry key (stored_clone job) now lease_ms claim_id token
          ≡ ok (
            u,
            LeaseRegistry.insert registry job.queue job.id
                ((now + lease_ms) % 2 ^ 64)
                claim_id
                token,
            record {
              job = written_claim (stored_clone job) now;
              claim_id = claim_id;
              cancel_token = token;
              is_fired = job.cancel_requested;
            },
          ))
        × Kept b u.txn (written_claim (stored_clone job) now)
  unfolding stage_claim end_waits stored_key stored_clone
  stage_claim-Kept t registry key job now lease_ms claim_id token c st =
      let (u, p, kept) =
        move_job-Kept b t.txn t key (claimed_record (stored_clone job) now)
          (claimed_key job.queue job.id) job c st refl st.queue_fits (λ x _ _. refl) refl in
      (
        record u { txn = delete_dedup b u.txn (stored_clone job) },
        rw (stage_claim, p),
        Kept-same b u.txn (delete_dedup b u.txn (stored_clone job))
            (written_claim (stored_clone job) now) (get-delete_dedup b u.txn (stored_clone job))
            kept,
      )

  -- A claim by id of a stored job in a consistent store returns. A pending or scheduled job becomes
  -- claimed: its record is stored as claimed at the time, with one more attempt and without its dedup
  -- key and its waits, the store is consistent, and the live lease of the job is the one of this
  -- claim. The cancel token of the claim is fired exactly when a cancellation of the job was requested
  -- before. A job in any other state is left as it is.
  pub claim_by_id_lem :
      (t : Txn b) (registry : Registry) (key : Bytes) (job : JobRecord)
      (now lease_ms claim_id token : ℕ)
      → IsConsistent b t.txn
      → Stored b t.txn key job
      → (((job.status ≢ pending) × (job.status ≢ scheduled))
          × (claim_by_id b t registry job.id now lease_ms claim_id token
              ≡ ok (t, registry, not_claimable)))
        ⊎ (((job.status ≡ pending) ⊎ (job.status ≡ scheduled))
            × (u : Txn b) × (leases : Registry) × (claim_by_id b t registry job.id now lease_ms
                  claim_id token
                ≡ ok (
                  u,
                  leases,
                  ClaimOutcome.claimed (record {
                    job = written_claim (stored_clone job) now;
                    claim_id = claim_id;
                    cancel_token = token;
                    is_fired = job.cancel_requested;
                  }),
                ))
            × Kept b u.txn (written_claim (stored_clone job) now)
            × (current leases job.queue job.id ≡ some ((now + lease_ms) % 2 ^ 64, claim_id)))
  unfolding claim_by_id stored_clone
  claim_by_id_lem t registry key job now lease_ms claim_id token c st =
      elim (Bool-cases (status_eq job.status pending || status_eq job.status scheduled)) [
        | inr e ↦ inl (
          (
            λ p. ground (arith, ap (λ s. status_eq s pending) p, e),
            λ p. ground (arith, ap (λ s. status_eq s scheduled) p, e),
          ),
          rw (claim_by_id, get_indexed_job-Stored b t.txn key job st, e),
        )
        | inl e ↦
            let (u, p, kept) =
              stage_claim-Kept t registry key job now lease_ms claim_id token c st in
            inr (
              ground
                  (arith, status_eq_iff job.status pending, status_eq_iff job.status scheduled, e),
              u,
              LeaseRegistry.insert registry job.queue job.id ((now + lease_ms) % 2 ^ 64) claim_id
                  token,
              rw (claim_by_id, get_indexed_job-Stored b t.txn key job st, e, p),
              kept,
              current-insert registry job.queue job.id ((now + lease_ms) % 2 ^ 64) claim_id token,
            )
      ]

  claimed_at_key :
      (s : b.State) (job : JobRecord) (now : ℕ)
      → Kept b s (written_claim job now)
      → Stored b s (claimed_key job.queue job.id) (written_claim job now)
  unfolding stored_key
  claimed_at_key s job now kept =
      subst (λ k. Stored b s k (written_claim job now)) (cc (kept.stored.keyed)) kept.stored

  -- What is claimed by id in a consistent store can be settled: after the claim of a pending or
  -- scheduled job commits, with its token fired exactly when a cancellation of the job was requested
  -- before, a settlement with the claim id returns, and ends the job as the end for
  -- its claimed record says.
  pub claim-settle :
      (t : Txn b) (registry : Registry) (key : Bytes) (job : JobRecord)
      (now lease_ms claim_id token : ℕ) (end_for : JobRecord → ℕ → ClaimEnd) (later : ℕ)
      → IsConsistent b t.txn
      → Stored b t.txn key job
      → ((job.status ≡ pending) ⊎ (job.status ≡ scheduled))
      → let claimed_job = stored_clone (written_claim (stored_clone job) now) in
        (u : Txn b) × (leases : Registry) × (v : Txn b) × (claim_by_id b t registry job.id now
            lease_ms claim_id token
          ≡ ok (
            u,
            leases,
            ClaimOutcome.claimed (record {
              job = written_claim (stored_clone job) now;
              claim_id = claim_id;
              cancel_token = token;
              is_fired = job.cancel_requested;
            }),
          ))
        × (settle_claim b (begin b u.txn) leases job.queue job.id claim_id end_for later
            ≡ ok
                (v, ended (end_for claimed_job later) later claimed_job, end_for claimed_job later))
        × Left b
            (end_for claimed_job later)
            v.txn
            (ended (end_for claimed_job later) later claimed_job)
  unfolding stored_clone
  claim-settle t registry key job now lease_ms claim_id token end_for later c st ready =
      elim (claim_by_id_lem t registry key job now lease_ms claim_id token c st) [
        | inl ((not_pending, not_scheduled), _) ↦ elim ready [
          | inl e ↦ absurd (not_pending e)
          | inr e ↦ absurd (not_scheduled e)
        ]
        | inr (_, u, leases, claimed_eq, kept, live) ↦
            let (v, settled, left) =
              settle_claim_lem b (begin b u.txn) leases claim_id ((now + lease_ms) % 2 ^ 64)
                (written_claim (stored_clone job) now) end_for later kept.consistent
                (claimed_at_key u.txn (stored_clone job) now kept) live in
            (u, leases, v, claimed_eq, settled, left)
      ]

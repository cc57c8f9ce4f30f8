-- ===== src/QueueCore/SettleCorrect.antt =====
-- The end of a claim, on a consistent store.
use taquba.Base.{
  ℕ, ◌≡◌, ◌≢◌, ◌<◌, ◌⊎◌, inl, inr, refl, ap, ◌∙◌, true, false, Option, none, some, arith, length,
  Bool-cases, ◌==◌,
}
use taquba.Bytes.{Bytes}
use taquba.Status.{JobStatus, scheduled}
use taquba.Keys.{claimed_key, scheduled_key, done_key, dead_key}
use taquba.Job.{JobRecord, stored_key, stored_clone}
use taquba.Job.Storage.{decode-stored}
use taquba.Error.{ok, err, claim_lost}
use taquba.LeaseRegistry.{Registry, current}
use taquba.Backend.{Backend}
use taquba.Txn.{Txn, end_waits, take_claim, read_claim, read_record, append_attempt}
use taquba.Txn.ClaimEnd.{
  ClaimEnd, retry, stage_claim_end, stage_claim_end_at, stage_return, stage_dead_letter, with_error,
}
use taquba.Txn.Consistent.{Stored, IsConsistent}
use taquba.Txn.Moved.{Kept, Gone, IsNear, move_job-Kept}
use taquba.Txn.Removal.{stage_remove-Gone}
use taquba.Txn.Unrelated.{append_attempt-IsNear}
use taquba.QueueCore.Read.{pending_of, stage_to_pending-Kept}
use taquba.QueueCore.Settle.{settle_claim}

-- The record that the end of a claim writes.
abbrev pub ended : ClaimEnd → ℕ → JobRecord → JobRecord
ended (ClaimEnd.done false) now job = record job {
  status = JobStatus.done;
  completed_at = some now;
}
ended (ClaimEnd.done true) now job = record job {
  status = JobStatus.done;
  completed_at = some now;
  signal_wait = false;
  count_wait = none;
}
ended (retry none _ error) now job =
    pending_of (with_error error (record job { claimed_at = none }))
ended (retry (some at) _ error) now job = record (with_error error job) {
  claimed_at = none;
  status = scheduled;
  run_at = some at;
}
ended (ClaimEnd.dead error) now job = record job {
  claimed_at = none;
  status = JobStatus.dead;
  last_error = some error;
  failed_at = some now;
  signal_wait = false;
  count_wait = none;
}

-- What is left of the job in the store.
abbrev pub Left : (b : Backend) → ClaimEnd → b.State → JobRecord → Type 0
Left b (ClaimEnd.done false) s job = Gone b s job.id
Left b (ClaimEnd.done true) s job = Kept b s job
Left b (retry _ _ _) s job = Kept b s job
Left b (ClaimEnd.dead _) s job = Kept b s job

module _ (b : Backend) where
  open b use {State, get, delete, codec}

  read_claim-live :
      (s : State) (registry : Registry) (queue id : Bytes) (claim_id expires_at : ℕ)
      → current registry queue id ≡ some (expires_at, claim_id)
      → read_claim b s registry queue id claim_id ≡ read_record b s (claimed_key queue id)
  unfolding read_claim
  read_claim-live s registry queue id claim_id expires_at live = rw (read_claim, live, same)
    where
      same : (claim_id == claim_id) ≡ true
      same = ground arith

  -- The record of a stored claimed job is read by the holder of its live claim.
  pub read_claim-Stored :
      (s : State) (registry : Registry) (claim_id expires_at : ℕ) (job : JobRecord)
      → Stored b s (claimed_key job.queue job.id) job
      → current registry job.queue job.id ≡ some (expires_at, claim_id)
      → read_claim b s registry job.queue job.id claim_id
        ≡ ok (claimed_key job.queue job.id, stored_clone job)
  unfolding read_record
  read_claim-Stored s registry claim_id expires_at job st live =
      read_claim-live s registry job.queue job.id claim_id expires_at live
      ∙ rw (read_record, st.at_key, decode-stored codec job (claimed_key job.queue job.id) st.keyed)

  pub take_claim-ok :
      (t : Txn b) (registry : Registry) (claim_id expires_at : ℕ) (job : JobRecord)
      → Stored b t.txn (claimed_key job.queue job.id) job
      → current registry job.queue job.id ≡ some (expires_at, claim_id)
      → take_claim b t registry job.queue job.id claim_id
        ≡ ok (record t { txn = delete t.txn (claimed_key job.queue job.id) }, stored_clone job)
  unfolding take_claim
  take_claim-ok t registry claim_id expires_at job st live =
      rw (take_claim, read_claim-Stored t.txn registry claim_id expires_at job st live)

  stage_claim_end_at_lem :
      (s : State) (t : Txn b) (from : Bytes) (job before : JobRecord) (end : ClaimEnd) (now : ℕ)
      → IsConsistent b s
      → Stored b s from before
      → before.id ≡ job.id
      → length job.queue < 256
      → IsNear b s t.txn from
      → (u : Txn b) × (stage_claim_end_at b t from job end now ≡ ok (u, ended end now job))
        × Left b end u.txn (ended end now job)
  unfolding stage_claim_end_at stage_return stage_dead_letter stored_key end_waits
  stage_claim_end_at_lem s t from job before (ClaimEnd.done false) now c st same fits near =
      let finished = record job { status = JobStatus.done; completed_at = some now } in
      let (u, p, g) = stage_remove-Gone b s t from finished before c st same near in (u, rw p, g)
  stage_claim_end_at_lem s t from job before (ClaimEnd.done true) now c st same fits near =
      move_job-Kept b s (append_attempt b t job.id _) from
        (record job { status = JobStatus.done; completed_at = some now })
        (done_key now job.queue job.id) before c st same fits
        (append_attempt-IsNear b s t from job.id _ near) refl
  stage_claim_end_at_lem s t from job before (retry none outcome error) now c st same fits near =
      stage_to_pending-Kept b s (append_attempt b t job.id _) from
        (with_error error (record job { claimed_at = none })) before c st same fits
        (append_attempt-IsNear b s t from job.id _ near)
  stage_claim_end_at_lem s t from job before (retry (some at) outcome error) now c st same fits
        near =
      move_job-Kept b s (append_attempt b t job.id _) from
        (record (with_error error job) { claimed_at = none; status = scheduled; run_at = some at })
        (scheduled_key job.queue at job.id) before c st same fits
        (append_attempt-IsNear b s t from job.id _ near) refl
  stage_claim_end_at_lem s t from job before (ClaimEnd.dead error) now c st same fits near =
      move_job-Kept b s (append_attempt b t job.id _) from
        (record job {
          claimed_at = none;
          status = JobStatus.dead;
          last_error = some error;
          failed_at = some now;
        })
        (dead_key job.queue job.id) before c st same fits
        (append_attempt-IsNear b s t from job.id _ near) refl

  -- The end of the claim of a stored claimed job, from its record in the store.
  pub stage_claim_end_lem :
      (t : Txn b) (job : JobRecord) (end : ClaimEnd) (now : ℕ)
      → IsConsistent b t.txn
      → Stored b t.txn (claimed_key job.queue job.id) job
      → (u : Txn b) × (stage_claim_end b t (stored_clone job) end now
          ≡ ok (u, ended end now (stored_clone job)))
        × Left b end u.txn (ended end now (stored_clone job))
  unfolding stage_claim_end stored_clone
  stage_claim_end_lem t job end now c st =
      stage_claim_end_at_lem t.txn t (claimed_key job.queue job.id) (stored_clone job) job end now c
        st refl st.queue_fits (λ x _ _. refl)

  -- The holder of the live claim of a stored claimed job settles it: the settlement returns, writes
  -- the record that the end prescribes, or removes the job when a completed one is not kept, and
  -- leaves the store consistent.
  pub settle_claim_lem :
      (t : Txn b) (registry : Registry) (claim_id expires_at : ℕ) (job : JobRecord)
      (end_for : JobRecord → ℕ → ClaimEnd) (now : ℕ)
      → IsConsistent b t.txn
      → Stored b t.txn (claimed_key job.queue job.id) job
      → current registry job.queue job.id ≡ some (expires_at, claim_id)
      → let end = end_for (stored_clone job) now in
        (u : Txn b) × (settle_claim b t registry job.queue job.id claim_id end_for now
          ≡ ok (u, ended end now (stored_clone job), end))
        × Left b end u.txn (ended end now (stored_clone job))
  unfolding settle_claim stored_clone stage_claim_end
  settle_claim_lem t registry claim_id expires_at job end_for now c st live =
      let end = end_for (stored_clone job) now in
      let (u, p, left) =
        stage_claim_end_at_lem t.txn taken (claimed_key job.queue job.id) (stored_clone job) job end
          now c st refl st.queue_fits
          (λ x hx hf. ground (arith, b.get-delete t.txn (claimed_key job.queue job.id) x, hf)) in
      (u, rw (settle_claim, take_claim-ok t registry claim_id expires_at job st live, p), left)
    where
      taken : Txn b
      taken = record t { txn = delete t.txn (claimed_key job.queue job.id) }

  -- A settlement by any other than the holder of the live claim, or of a job with no claimed record,
  -- fails with a lost claim.
  pub settle_claim-fenced :
      (t : Txn b) (registry : Registry) (queue id : Bytes) (claim_id : ℕ)
      (end_for : JobRecord → ℕ → ClaimEnd) (now : ℕ)
      → (((expires_at : ℕ) → current registry queue id ≢ some (expires_at, claim_id))
          ⊎ (get t.txn (claimed_key queue id) ≡ none))
      → settle_claim b t registry queue id claim_id end_for now ≡ err claim_lost
  unfolding settle_claim take_claim read_claim
  settle_claim-fenced t registry queue id claim_id end_for now h =
      by (current registry queue id) refl
    where
      by :
          (live : Option (ℕ × ℕ))
          → current registry queue id ≡ live
          → settle_claim b t registry queue id claim_id end_for now ≡ err claim_lost
      by none e = rw (settle_claim, take_claim, read_claim, e)
      by (some (expires_at, other)) e = elim (Bool-cases (other == claim_id)) [
        | inr differ ↦ rw (settle_claim, take_claim, read_claim, e, differ)
        | inl same ↦ elim h [
          | inl lost ↦
              absurd (lost expires_at (e ∙ ap (λ c. some (expires_at, c)) (ground (arith, same))))
          | inr no_record ↦ rw (
            settle_claim,
            take_claim,
            read_claim-live t.txn registry queue id claim_id expires_at
                (e ∙ ap (λ c. some (expires_at, c)) (ground (arith, same))),
            read_record,
            no_record,
          )
        ]
      ]

-- ===== src/Txn/ClaimEnd.antt =====
-- taquba/src/txn.rs: `ClaimEnd` and the transition that ends a claim. The log lines are left out.
use taquba.Base.{ℕ, Bool, true, false, Option, none, some}
use taquba.Bytes.{Bytes}
use taquba.Status.{JobStatus}
use taquba.Keys.{claimed_key}
use taquba.Job.{JobRecord}
use taquba.History.{AttemptOutcome, completed, dead_lettered}
use taquba.Error.{Result, ok, ◌>>=◌}
use taquba.Backend.{Backend}
use taquba.Txn.{Txn, append_attempt, move_job, stage_remove, stage_to_pending}

pub data ClaimEnd : Type 0 where
  done : Bool → ClaimEnd
  retry : Option ℕ → AttemptOutcome → Option Bytes → ClaimEnd
  dead : Bytes → ClaimEnd

unfoldable pub is_terminal : ClaimEnd → Bool
is_terminal (retry run_at outcome error) = false
is_terminal (done keep) = true
is_terminal (dead error) = true

-- The last error is replaced by an error that is given.
abbrev pub with_error : Option Bytes → JobRecord → JobRecord
with_error error job = record job {
  last_error = elim error [ none ↦ job.last_error | some e ↦ some e ];
}

module _ (b : Backend) where
  unfoldable pub stage_dead_letter :
      Txn b → Bytes → JobRecord → ℕ → Bytes → Result (Txn b × JobRecord)
  stage_dead_letter t from job now error =
      let buried = record job {
        claimed_at = none;
        status = JobStatus.dead;
        last_error = some error;
        failed_at = some now;
      } in
      move_job b
        (append_attempt b t job.id (record {
          attempt = job.attempts;
          claimed_at = job.claimed_at;
          recorded_at = now;
          outcome = dead_lettered;
          error = some error;
        }))
        from buried

  -- The `match` on the time of a retry: pending at once, scheduled for a time.
  unfoldable pub stage_return : Txn b → Bytes → JobRecord → Option ℕ → Result (Txn b × JobRecord)
  stage_return t from job none = stage_to_pending b t from job
  stage_return t from job (some run_at) =
      move_job b t from (record job { status = JobStatus.scheduled; run_at = some run_at })

  -- The record comes back as it is written.
  unfoldable pub stage_claim_end_at :
      Txn b → Bytes → JobRecord → ClaimEnd → ℕ → Result (Txn b × JobRecord)
  unfolding stage_dead_letter stage_return
  stage_claim_end_at t from job (done false) now =
      let finished = record job { status = JobStatus.done; completed_at = some now } in
      stage_remove b t from finished >>= λ u. ok (u, finished)
  stage_claim_end_at t from job (done true) now =
      move_job b
        (append_attempt b t job.id (record {
          attempt = job.attempts;
          claimed_at = job.claimed_at;
          recorded_at = now;
          outcome = completed;
          error = none;
        }))
        from (record job { status = JobStatus.done; completed_at = some now })
  stage_claim_end_at t from job (retry run_at outcome error) now =
      stage_return
        (append_attempt b t job.id (record {
          attempt = job.attempts;
          claimed_at = job.claimed_at;
          recorded_at = now;
          outcome = outcome;
          error = error;
        }))
        from (with_error error (record job { claimed_at = none })) run_at
  stage_claim_end_at t from job (dead error) now = stage_dead_letter t from job now error

  unfoldable pub stage_claim_end : Txn b → JobRecord → ClaimEnd → ℕ → Result (Txn b × JobRecord)
  unfolding stage_claim_end_at
  stage_claim_end t job end now = stage_claim_end_at t (claimed_key job.queue job.id) job end now

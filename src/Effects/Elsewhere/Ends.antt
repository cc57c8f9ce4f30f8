-- ===== src/Effects/Elsewhere/Ends.antt =====
-- The end of a claim reaches no user key.
use taquba.Base.{
  ℕ, ◌≡◌, inl, inr, refl, sym, subst, ap, ◌∙◌, true, false, Option, none, some, arith, Bool-cases,
  Option-cases, if◌then◌else◌, ◌==◌,
}
use taquba.Bytes.{Bytes, bytes_eq}
use taquba.Status.{JobStatus, done, status_eq}
use taquba.Keys.{KeyTag, of, job_index_key, attempt_history_key, dedup_index_key, claimed_key}
use taquba.Job.{JobRecord, decode}
use taquba.History.{JobAttempt}
use taquba.Error.{Result, ok, bind-ok, ok-injective}
use taquba.LeaseRegistry.{Registry, current}
use taquba.Backend.{Backend}
use taquba.Txn.{
  Txn, move_job, stage_remove, delete_dedup, append_attempt, take_claim, read_claim, read_record,
  key_status, stage_to_pending, count_move,
}
use taquba.Txn.ClaimEnd.{
  ClaimEnd, stage_dead_letter, stage_return, stage_claim_end_at, stage_claim_end,
}
use taquba.Txn.Keyed.{job_space, job_space-index}
use taquba.QueueCore.Settle.{settle_claim}
use taquba.Effects.Elsewhere.{
  SameUser, tag_differs, job_differs, delete-SameUser, SameUser-refl, SameUser-trans,
  move_job-SameUser,
}

claimed_key-space : (queue id : Bytes) → job_space (claimed_key queue id) ≡ true
unfolding job_space claimed_key of
claimed_key-space queue id = refl

attempt_differs :
    (id x : Bytes) → of x ≡ some KeyTag.user → bytes_eq (attempt_history_key id) x ≡ false
unfolding attempt_history_key of
attempt_differs id x h = tag_differs (attempt_history_key id) x (λ e. cc (e, h))

dedup_differs :
    (queue key x : Bytes) → of x ≡ some KeyTag.user → bytes_eq (dedup_index_key queue key) x ≡ false
unfolding dedup_index_key of
dedup_differs queue key x h = tag_differs (dedup_index_key queue key) x (λ e. cc (e, h))

module _ (b : Backend) where
  open b use {State, get, put, delete, merge, codec, encode_attempt}

  append_attempt-SameUser :
      (t : Txn b) (id : Bytes) (entry : JobAttempt)
      → SameUser b t.txn (append_attempt b t id entry).txn
  unfolding append_attempt SameUser
  append_attempt-SameUser t id entry x hx =
      ground (arith, b.get-merge t.txn id (encode_attempt entry) x, attempt_differs id x hx)

  delete_dedup-SameUser :
      (s t : State) (job : JobRecord) (dedup : Option Bytes)
      → SameUser b s t
      → SameUser b s (delete_dedup b t (record job { dedup_key = dedup }))
  delete_dedup-SameUser s t job none same = same
  delete_dedup-SameUser s t job (some key) same =
      delete-SameUser b s t (dedup_index_key job.queue key) same
        (λ x. dedup_differs job.queue key x)

  stage_remove-SameUser :
      (t u : Txn b) (from : Bytes) (job : JobRecord)
      → job_space from ≡ true
      → stage_remove b t from job ≡ ok u
      → SameUser b t.txn u.txn
  unfolding stage_remove
  stage_remove-SameUser t u from job hf h = elim (Option-cases (key_status from)) [
    | inl e ↦ absurd (ground (arith, e, h))
    | inr (status, e) ↦
        subst (SameUser b t.txn)
          (ap (λ w. w.txn) (ok-injective (left status) u (sym (kept status e) ∙ h)))
          (delete_dedup-SameUser t.txn removed job job.dedup_key (
            delete-SameUser b t.txn _ (attempt_history_key job.id)
              (delete-SameUser b t.txn _ (job_index_key job.id)
                (delete-SameUser b t.txn t.txn from (SameUser-refl b t.txn)
                  (λ x. job_differs from x hf))
                (λ x. job_differs (job_index_key job.id) x (job_space-index job.id)))
              (λ x. attempt_differs job.id x)))
  ]
    where
      removed : State
      removed =
          delete (delete (delete t.txn from) (job_index_key job.id)) (attempt_history_key job.id)

      left : JobStatus → Txn b
      left status = record t {
        txn = delete_dedup b removed job;
        stats =
            count_move t.stats job.queue (some status)
              (if status_eq job.status done then some done else none);
      }

      kept :
          (status : JobStatus)
          → key_status from ≡ some status
          → stage_remove b t from job ≡ ok (left status)
      kept status e = rw (stage_remove, e) refl

  -- The changes of an end follow the note of the attempt in its history.
  attempted :
      (t u : Txn b) (id : Bytes) (entry : JobAttempt) (from : Bytes) (job written : JobRecord)
      → job_space from ≡ true
      → move_job b (append_attempt b t id entry) from job ≡ ok (u, written)
      → SameUser b t.txn u.txn
  attempted t u id entry from job written hf h =
      SameUser-trans b t.txn (append_attempt b t id entry).txn u.txn
        (append_attempt-SameUser t id entry)
        (move_job-SameUser b (append_attempt b t id entry) u from job written hf h)

  stage_claim_end_at-SameUser :
      (t u : Txn b) (from : Bytes) (job written : JobRecord) (end : ClaimEnd) (now : ℕ)
      → job_space from ≡ true
      → stage_claim_end_at b t from job end now ≡ ok (u, written)
      → SameUser b t.txn u.txn
  unfolding stage_claim_end_at stage_dead_letter stage_return stage_to_pending
  stage_claim_end_at-SameUser t u from job written (ClaimEnd.done false) now hf h =
      let (v, p, q) = bind-ok (stage_remove b t from _) _ (u, written) h in
      subst (λ x. SameUser b t.txn x.0.txn) (ok-injective _ (u, written) q)
        (stage_remove-SameUser t v from _ hf p)
  stage_claim_end_at-SameUser t u from job written (ClaimEnd.done true) now hf h =
      attempted t u job.id _ from _ written hf h
  stage_claim_end_at-SameUser t u from job written (ClaimEnd.retry none outcome error) now hf h =
      attempted t u job.id _ from _ written hf h
  stage_claim_end_at-SameUser t u from job written (ClaimEnd.retry (some at) outcome error) now hf
        h =
      attempted t u job.id _ from _ written hf h
  stage_claim_end_at-SameUser t u from job written (ClaimEnd.dead error) now hf h =
      attempted t u job.id _ from _ written hf h

  read_claim-key :
      (s : State) (registry : Registry) (queue id : Bytes) (claim_id : ℕ) (key : Bytes)
      (job : JobRecord)
      → read_claim b s registry queue id claim_id ≡ ok (key, job)
      → key ≡ claimed_key queue id
  unfolding read_claim read_record
  read_claim-key s registry queue id claim_id key job h =
      elim (Option-cases (current registry queue id)) [
        | inl e ↦ absurd (ground (arith, e, h))
        | inr ((expires_at, live), e) ↦ elim (Bool-cases (live == claim_id)) [
          | inr f ↦ absurd (ground (arith, e, f, h))
          | inl f ↦ elim (Option-cases (get s (claimed_key queue id))) [
            | inl g ↦ absurd (ground (arith, e, f, g, h))
            | inr (raw, g) ↦ elim (Option-cases (decode codec (claimed_key queue id) raw)) [
              | inl k ↦ absurd (ground (arith, e, f, g, k, h))
              | inr (j, k) ↦ same j (ground (arith, e, f, g, k, h))
            ]
          ]
        ]
      ]
    where
      same :
          (j : JobRecord)
          → ◌≡◌ {A = Result (Bytes × JobRecord)} (ok (claimed_key queue id, j)) (ok (key, job))
          → key ≡ claimed_key queue id
      same j e = cc

  take_claim-SameUser :
      (t u : Txn b) (registry : Registry) (queue id : Bytes) (claim_id : ℕ) (job : JobRecord)
      → take_claim b t registry queue id claim_id ≡ ok (u, job)
      → SameUser b t.txn u.txn
  unfolding take_claim
  take_claim-SameUser t u registry queue id claim_id job h =
      let ((key, j), p, q) = bind-ok (read_claim b t.txn registry queue id claim_id) _ (u, job) h in
      let space : job_space key ≡ true =
        ap job_space (read_claim-key t.txn registry queue id claim_id key j p)
        ∙ claimed_key-space queue id in
      subst (λ x. SameUser b t.txn x.0.txn)
        (ok-injective (record t { txn = delete t.txn key }, j) (u, job) q)
        (delete-SameUser b t.txn t.txn key (SameUser-refl b t.txn) (λ x. job_differs key x space))

  pub settle_claim-SameUser :
      (t u : Txn b) (registry : Registry) (queue id : Bytes) (claim_id : ℕ)
      (end_for : JobRecord → ℕ → ClaimEnd) (now : ℕ) (written : JobRecord) (end : ClaimEnd)
      → settle_claim b t registry queue id claim_id end_for now ≡ ok (u, written, end)
      → SameUser b t.txn u.txn
  unfolding settle_claim stage_claim_end
  settle_claim-SameUser t u registry queue id claim_id end_for now written end h =
      let ((v, job), p, h) =
        bind-ok (take_claim b t registry queue id claim_id) _ (u, written, end) h in
      let ((w, final), q, h) =
        bind-ok (stage_claim_end b v job (end_for job now) now) _ (u, written, end) h in
      subst (λ x. SameUser b t.txn x.0.txn)
        (ok-injective (w, final, end_for job now) (u, written, end) h)
        (SameUser-trans b t.txn v.txn w.txn
          (take_claim-SameUser t v registry queue id claim_id job p)
          (stage_claim_end_at-SameUser v w (claimed_key job.queue job.id) job final
            (end_for job now) now (claimed_key-space job.queue job.id) q))

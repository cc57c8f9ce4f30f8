-- ===== src/Effects/Staged.antt =====
-- taquba/src/effects.rs, taquba/src/queue_core/enqueue.rs and taquba/src/queue_core/settle.rs: the
-- writes of prepared effects and of a new job in a transaction. An `Err` drops the transaction, and so
-- does an `Abort`, which returns a value.
use taquba.Base.{ℕ, List, [], ◌∷◌, ◌⊎◌, inl, inr, Option, none, some, ◌&&◌, if◌then◌else◌}
use taquba.Bytes.{Bytes}
use taquba.Bytes.Utf8.{is_utf8}
use taquba.Map.{Map}
use taquba.Int.{ℤ}
use taquba.Keys.{job_index_key, dedup_index_key, user_scoped_key}
use taquba.Job.{JobRecord}
use taquba.Error.{Result, ok, err, ◌>>=◌, invalid_state, duplicate_job_id, kv_compare_failed}
use taquba.LeaseRegistry.{Registry}
use taquba.Backend.{Backend}
use taquba.Expiry.{ExpiryIndex}
use taquba.Txn.{Txn, insert_job, read_claim, note_expiry_entry}
use taquba.Txn.ClaimEnd.{ClaimEnd, is_terminal}
use taquba.Count.{CountCodec, stage_count_change, stage_count_wait}
use taquba.Kv.{kv_state_matches}
use taquba.QueueCore.Settle.{settle_claim}
use taquba.Effects.{ClaimFence, KvCompare, PreparedJob, PreparedEffects, is_some}

-- taquba/src/queue.rs, `EnqueueResult`.
pub data EnqueueResult : Type 0 where
  new already_enqueued : Bytes → EnqueueResult

-- taquba/src/txn.rs, `Attempt`, with the transaction that is committed.
pub data Attempt {ℓ} (b : Backend) (A : Type ℓ) : Type ℓ where
  commit : Txn b → A → Attempt b A
  abort : A → Attempt b A

module _ (b : Backend) where
  open b use {State, get, put, delete}

  -- The job that holds the dedup key, if the job at hand has a key that is held.
  unfoldable pub dedup_hit : State → JobRecord → Result (Option Bytes)
  dedup_hit s job = elim job.dedup_key [
    | none ↦ ok none
    | some dedup_key ↦ elim (get s (dedup_index_key job.queue dedup_key)) [
      | none ↦ ok none
      | some bytes ↦ if is_utf8 bytes then ok (some bytes) else err invalid_state
    ]
  ]

  abbrev pub hold_dedup : Txn b → JobRecord → Txn b
  hold_dedup t job = record t {
    txn = elim job.dedup_key [
      | none ↦ t.txn
      | some dedup_key ↦ put t.txn (dedup_index_key job.queue dedup_key) job.id
    ];
  }

module _ (b : Backend) (counts : CountCodec) where
  open b use {State, get, put, delete}

  -- The record of a job that waits for a count is the one that the wait returns.
  abbrev pub insert_on : Txn b → JobRecord → Option Bytes → Result (Txn b)
  insert_on t job none = insert_job b t job
  insert_on t job (some _) = do
    (u, waiting) ← stage_count_wait b counts t job
    insert_job b u waiting

  unfoldable pub insert_waiting : Txn b → JobRecord → Result (Txn b)
  insert_waiting t job = insert_on t job job.count_wait

  -- The rest of `stage_job_writes`, from the job that holds the dedup key.
  abbrev pub write_unheld : Txn b → PreparedJob → Option Bytes → Result (Txn b × (Bytes ⊎ Bytes))
  write_unheld t prepared (some existing) = ok (t, inl existing)
  write_unheld t prepared none =
      if prepared.id_override_used && is_some (get t.txn (job_index_key prepared.job.id))
      then err (duplicate_job_id prepared.job.id)
      else do
        u ← insert_waiting t prepared.job
        ok (hold_dedup b u prepared.job, inr prepared.job.id)

  -- The id of the new job on the right, or the id of the job that holds its dedup key.
  unfoldable pub stage_job_writes : Txn b → PreparedJob → Result (Txn b × (Bytes ⊎ Bytes))
  stage_job_writes t prepared = dedup_hit b t.txn prepared.job >>= write_unheld t prepared

  abbrev pub result_of : Bytes ⊎ Bytes → EnqueueResult
  result_of (inr id) = EnqueueResult.new id
  result_of (inl existing) = EnqueueResult.already_enqueued existing

  unfoldable pub stage_jobs : Txn b → List PreparedJob → Result (Txn b × List EnqueueResult)
  stage_jobs t [] = ok (t, [])
  stage_jobs t (p ∷ prepared) = stage_job_writes t p >>= λ (u, r).
      stage_jobs u prepared >>= λ (v, results). ok (v, result_of r ∷ results)

  unfoldable pub stage_counts : Txn b → Map Bytes ℤ → Result (Txn b)
  stage_counts t [] = ok t
  stage_counts t ((name, delta) ∷ changes) =
      stage_count_change b counts t name delta >>= λ u. stage_counts u changes

  unfoldable pub check_fence : State → Registry → Option ClaimFence → Result (Unit {0})
  check_fence s registry none = ok tt
  check_fence s registry (some fence) = do
    claimed ← read_claim b s registry fence.queue fence.id fence.claim_id
    ok tt

  unfoldable pub check_compares : State → List KvCompare → Result (Unit {0})
  check_compares s [] = ok tt
  check_compares s (c ∷ compares) =
      let rest = check_compares s compares in
      if kv_state_matches b s (user_scoped_key c.key) c.expected
      then rest
      else err (kv_compare_failed c.key)

  unfoldable pub put_all : State → Map Bytes Bytes → State
  put_all s [] = s
  put_all s ((key, value) ∷ writes) = put_all (put s (user_scoped_key key) value) writes

  unfoldable pub delete_all : State → List Bytes → State
  delete_all s [] = s
  delete_all s (key ∷ keys) = delete_all (delete s (user_scoped_key key)) keys

  unfoldable pub note_all : Txn b → List (ExpiryIndex × ℕ) → Txn b
  note_all t [] = t
  note_all t ((index, at_ms) ∷ entries) = note_all (note_expiry_entry b t index at_ms) entries

  unfoldable pub stage_effects :
      Txn b → Registry → PreparedEffects → Result (Txn b × List EnqueueResult)
  stage_effects t registry prepared = do
    fenced ← check_fence t.txn registry prepared.claim_fence
    compared ← check_compares t.txn prepared.kv_compares
    u ← stage_counts t prepared.count_changes
    (v, results) ← stage_jobs u prepared.prepared_jobs
    ok (
      note_all
          (record v { txn = delete_all (put_all v.txn prepared.kv_writes) prepared.kv_deletes })
          prepared.expiry_entries,
      results,
    )

  -- The transaction of `write_job`, with the results of the effects, or the job that holds the dedup
  -- key.
  unfoldable pub write_job_txn :
      Txn b
      → Registry
      → PreparedJob
      → PreparedEffects
      → Result (Attempt b (Bytes ⊎ (Bytes × List EnqueueResult)))
  write_job_txn t registry prepared effects = stage_job_writes t prepared >>= λ (u, staged).
      elim staged [
        | inl existing ↦ ok (abort (inl existing))
        | inr id ↦
            stage_effects u registry effects >>= λ (v, results). ok (commit v (inr (id, results)))
      ]

  -- The transaction of `settle_claim`, with the effects on an end that applies them.
  unfoldable pub settle_claim_with :
      Txn b
      → Registry
      → Bytes
      → Bytes
      → ℕ
      → (JobRecord → ℕ → ClaimEnd)
      → ℕ
      → PreparedEffects
      → Result (Attempt b (JobRecord × ClaimEnd × Option (List EnqueueResult)))
  settle_claim_with t registry queue id claim_id end_for now effects =
      settle_claim b t registry queue id claim_id end_for now >>= λ (u, job, end).
      if is_terminal end
      then (stage_effects u registry effects >>= λ (v, results).
          ok (commit v (job, end, some results)))
      else ok (commit u (job, end, none))

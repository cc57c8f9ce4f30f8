-- ===== src/Cron/OverQueue.antt =====
-- The queue of taquba/src as the scheduler of taquba-cron/src/lib.rs calls it: the key-value reads and
-- writes of taquba/src/kv.rs, and `enqueue_with` and `enqueue_with_effects` of taquba/src/queue.rs. The
-- conflicts of SlateDB, after which a body runs again, are left out.
pub mod Attempts
pub mod Filled
use taquba.Base.{
  ℕ, suc, ◌≡◌, ◌⊎◌, inl, inr, refl, sym, ap, ◌∙◌, subst, Bool, true, false, List, [], ◌∷◌, Option,
  none, some, arith, Bool-cases,
}
use taquba.Bytes.{Bytes, bytes_eq}
use taquba.Bytes.Order.{bytes_eq_refl}
use taquba.Map.{Map, bytes_Eq}
use taquba.Map
use taquba.Keys.{user_scoped_key}
use taquba.Error.{Error, storage, Result, ok, err, panic, ◌>>=◌, bind-ok, ok-injective}
use taquba.LeaseRegistry.{Registry}
use taquba.LeaseRegistry
use taquba.Backend.{Backend}
use taquba.Txn.{Txn, begin}
use taquba.Count.{CountCodec}
use taquba.Kv
use taquba.Kv.{validate_kv_value_size}
use taquba.Options.{QueueConfigs, EnqueueOptions}
use taquba.Effects.{
  PreparedJob, PreparedEffects, SettlementEffects, no_effects, prepare_job_record, prepare_effects,
  prepare_unconflicted, check_sizes, conflicting, prepare_jobs,
}
use taquba.Effects.Staged.{
  EnqueueResult, new, already_enqueued, Attempt, commit, abort, stage_job_writes, stage_effects,
  write_job_txn,
}
use taquba.Effects.Applied.{IsMap, value_after, is_in, stage_effects-applied}
use taquba.Cron.{CronQueue, Outcome, done, lost, unsure, panicked}

-- What the storage does to a call: it works, it fails, or it fails once the writes are committed, in
-- `await_durable`.
pub data Fault : Type 0 where
  works before_commit after_commit : Fault

module _ (b : Backend) where
  -- The store, and the number of calls so far.
  pub record QueueState : Type 0 where
    pub store : b.State
    pub calls : ℕ

module _ (b : Backend) (counts : CountCodec) (configs : QueueConfigs) (draws : ℕ → Bytes × ℕ × ℕ)
    (faults : ℕ → Fault) where
  open b use {get}

  abbrev pub after : QueueState b → b.State → QueueState b
  after s store = record { store = store; calls = suc s.calls }

  abbrev pub peek : QueueState b → Bytes → Option Bytes
  peek s key = get s.store (user_scoped_key key)

  -- The commit of a new store.
  abbrev pub committed :
      {A : Type 0} → Fault → QueueState b → b.State → A → Outcome (QueueState b) A
  committed works s store a = done (after s store) a
  committed before_commit s store a = lost (after s s.store) storage
  committed after_commit s store a = unsure (after s store) storage

  -- A read has no commit, so only the fault before one is its.
  abbrev pub read : Fault → QueueState b → Bytes → Result (Option Bytes)
  read works s key = ok (peek s key)
  read before_commit s key = err storage
  read after_commit s key = ok (peek s key)

  abbrev pub put_outcome : QueueState b → Result b.State → Outcome (QueueState b) (Unit {0})
  put_outcome s (ok store) = committed (faults s.calls) s store tt
  put_outcome s (err e) = lost (after s s.store) e
  put_outcome s panic = panicked

  abbrev pub put_of : QueueState b → Bytes → Bytes → Outcome (QueueState b) (Unit {0})
  put_of s key value = put_outcome s (Kv.kv_put b s.store key value)

  -- The result of `write_job` from the transaction of an attempt.
  abbrev pub job_result : Bytes ⊎ (Bytes × List EnqueueResult) → EnqueueResult
  job_result (inl existing) = already_enqueued existing
  job_result (inr (id, _)) = new id

  abbrev pub attempt_outcome :
      QueueState b
      → Result (Attempt b (Bytes ⊎ (Bytes × List EnqueueResult)))
      → Outcome (QueueState b) EnqueueResult
  attempt_outcome s (ok (commit u r)) = committed (faults s.calls) s u.txn (job_result r)
  attempt_outcome s (ok (abort r)) = done (after s s.store) (job_result r)
  attempt_outcome s (err e) = lost (after s s.store) e
  attempt_outcome s panic = panicked

  -- The id and the clock of a new job are drawn for the call.
  unfoldable pub job_attempt :
      QueueState b
      → Bytes
      → Bytes
      → EnqueueOptions
      → Map Bytes Bytes
      → Result (Attempt b (Bytes ⊎ (Bytes × List EnqueueResult)))
  job_attempt s queue payload opts writes =
      let (next_id, now, enqueued_at) = draws s.calls in
      do
        prepared ← prepare_job_record configs next_id now enqueued_at queue payload opts
        effects ← prepare_effects configs draws (record no_effects { kv_writes = writes })
        write_job_txn b counts (begin b s.store) LeaseRegistry.new prepared effects

  abbrev pub enqueue_of :
      QueueState b
      → Bytes
      → Bytes
      → EnqueueOptions
      → Map Bytes Bytes
      → Outcome (QueueState b) EnqueueResult
  enqueue_of s queue payload opts writes =
      attempt_outcome s (job_attempt s queue payload opts writes)

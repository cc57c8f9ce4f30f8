-- ===== src/Effects.antt =====
-- taquba/src/effects.rs: the effects of a settlement and the new jobs, from their validation to the
-- writes of a transaction. The offload of payloads is input and output and is left out, and so is the
-- end of their objects. A `HashMap` is read in the order of its list, which is any order.
pub mod Staged
pub mod Prepared
pub mod CountWait
pub mod StageJob
pub mod Elsewhere
pub mod Applied
pub mod Settled
pub mod Dedup
mod Tests
mod SettleTests
use taquba.Base.{
  ℕ, suc, Bool, true, false, not, ◌&&◌, List, [], ◌∷◌, ◌++◌, Option, none, some, ltb, if◌then◌else◌,
}
use taquba.Bytes.{Bytes}
use taquba.Map.{Map, bytes_Eq}
use taquba.Map
use taquba.Int.{ℤ, pos, add_one, sub_one}
use taquba.Form.{Text, as_bytes}
use taquba.Status.{JobStatus, pending, scheduled}
use taquba.Job.{JobRecord, new_pending}
use taquba.Error.{
  Result, ok, err, ◌>>=◌, signal_wait_without_run_at, count_wait_without_run_at,
  conflicting_kv_effect,
}
use taquba.QueueName.{validate_id_override}
use taquba.QueueName
use taquba.Kv.{validate_kv_value_size}
use taquba.Options.{QueueConfig, QueueConfigs, config_of, EnqueueOptions}
use taquba.Expiry.{ExpiryIndex, entry_key}

pub record EnqueueRequest : Type 0 where
  pub queue : Text
  pub payload : Bytes
  pub options : EnqueueOptions

pub record KvCompare : Type 0 where
  pub key : Bytes
  pub expected : Option Bytes

-- taquba/src/lease.rs, `ClaimFence`.
pub record ClaimFence : Type 0 where
  pub queue : Bytes
  pub id : Bytes
  pub claim_id : ℕ

pub record SettlementEffects : Type 0 where
  pub kv_compares : List KvCompare
  pub claim_fence : Option ClaimFence
  pub enqueues : List EnqueueRequest
  pub kv_writes : Map Bytes Bytes
  pub kv_deletes : List Bytes
  pub expiry_entries : List (ExpiryIndex × ℕ)
  pub count_changes : Map Bytes ℤ

abbrev pub no_effects : SettlementEffects
no_effects = record {
  kv_compares = [];
  claim_fence = none;
  enqueues = [];
  kv_writes = [];
  kv_deletes = [];
  expiry_entries = [];
  count_changes = [];
}

-- `*count_changes.entry(name).or_default()`.
abbrev change_of : Bytes → Map Bytes ℤ → ℤ
change_of name changes = elim (Map.get name changes) [ none ↦ pos 0 | some d ↦ d ]

unfoldable pub count_up : Bytes → SettlementEffects → SettlementEffects
count_up name effects = record effects {
  count_changes =
      Map.insert name (add_one (change_of name effects.count_changes)) effects.count_changes;
}

unfoldable pub count_down : Bytes → SettlementEffects → SettlementEffects
count_down name effects = record effects {
  count_changes =
      Map.insert name (sub_one (change_of name effects.count_changes)) effects.count_changes;
}

unfoldable pub expiry_entry : ExpiryIndex → ℕ → Bytes → SettlementEffects → SettlementEffects
expiry_entry index at_ms suffix effects = record effects {
  kv_writes = Map.insert (entry_key index at_ms suffix) [] effects.kv_writes;
  expiry_entries = effects.expiry_entries ++ (index, at_ms) ∷ [];
}

pub record PreparedJob : Type 0 where
  pub job : JobRecord
  pub id_override_used : Bool

pub record PreparedEffects : Type 0 where
  pub kv_compares : List KvCompare
  pub claim_fence : Option ClaimFence
  pub prepared_jobs : List PreparedJob
  pub kv_writes : Map Bytes Bytes
  pub kv_deletes : List Bytes
  pub expiry_entries : List (ExpiryIndex × ℕ)
  pub count_changes : Map Bytes ℤ

abbrev unwrap_or {ℓ} : {A : Type ℓ} → Option A → A → A
unwrap_or none a = a
unwrap_or (some a) _ = a

abbrev pub is_some {ℓ} : {A : Type ℓ} → Option A → Bool
is_some none = false
is_some (some _) = true

-- A `run_at` that is at or before now is an immediate enqueue.
unfoldable pub future_run_at : ℕ → Option ℕ → Option ℕ
future_run_at now none = none
future_run_at now (some ms) = if ltb now ms then some ms else none

-- The id of the job, and whether the caller supplied it. `next_id` is the id that the generator has
-- next.
unfoldable pub job_id : Option Text → Bytes → Result (Bytes × Bool)
job_id none next_id = ok (next_id, false)
job_id (some supplied) next_id = do
  valid ← validate_id_override supplied
  ok (as_bytes supplied, true)

unfoldable pub check_waits : EnqueueOptions → Result (Unit {0})
check_waits opts =
    if opts.signal_wait && not (is_some opts.run_at)
    then err signal_wait_without_run_at
    else if is_some opts.count_wait && not (is_some opts.run_at)
    then err count_wait_without_run_at
    else ok tt

-- The record of a new job with the time it is to run at, if that is later than now.
unfoldable pub new_job :
    QueueConfig → Bytes → Bytes → Bytes → EnqueueOptions → Option ℕ → ℕ → JobRecord
new_job config id queue payload opts run_at now =
    record (new_pending id queue payload (unwrap_or opts.max_attempts config.max_attempts)
      (unwrap_or opts.priority config.default_priority) now) {
        headers = opts.headers;
        status = if is_some run_at then scheduled else pending;
        run_at = run_at;
        dedup_key = opts.dedup_key;
        signal_wait = opts.signal_wait && is_some run_at;
        count_wait = if is_some run_at then opts.count_wait else none;
      }

-- The clock is read once for the test of `run_at` and once for the record.
unfoldable pub prepare_job_record :
    QueueConfigs → Bytes → ℕ → ℕ → Text → Bytes → EnqueueOptions → Result PreparedJob
prepare_job_record configs next_id now enqueued_at queue payload opts = do
  name ← QueueName.new queue
  (id, id_override_used) ← job_id opts.id_override next_id
  checked ← check_waits opts
  ok (record {
    job =
        new_job (config_of configs name) id name payload opts (future_run_at now opts.run_at)
          enqueued_at;
    id_override_used = id_override_used;
  })

unfoldable pub check_sizes : Map Bytes Bytes → Result (Unit {0})
check_sizes [] = ok tt
check_sizes ((key, value) ∷ writes) =
    let rest = check_sizes writes in validate_kv_value_size value >>= λ checked. rest

-- The first deleted key that is also written.
unfoldable pub conflicting : Map Bytes Bytes → List Bytes → Option Bytes
conflicting writes [] = none
conflicting writes (key ∷ keys) =
    let rest = conflicting writes keys in if is_some (Map.get key writes) then some key else rest

-- The requests in order, each with the id that the generator has for it and the times of the clock.
unfoldable pub prepare_jobs :
    QueueConfigs → (ℕ → Bytes × ℕ × ℕ) → ℕ → List EnqueueRequest → Result (List PreparedJob)
prepare_jobs configs draws n [] = ok []
prepare_jobs configs draws n (r ∷ requests) =
    let rest = prepare_jobs configs draws (suc n) requests in
    let (next_id, now, enqueued_at) = draws n in
    prepare_job_record configs next_id now enqueued_at r.queue r.payload r.options >>= λ prepared.
    rest >>= λ jobs. ok (prepared ∷ jobs)

-- The rest of `prepare_effects`, from a key that is both written and deleted.
abbrev pub prepare_unconflicted :
    QueueConfigs → (ℕ → Bytes × ℕ × ℕ) → SettlementEffects → Option Bytes → Result PreparedEffects
prepare_unconflicted configs draws effects (some key) = err (conflicting_kv_effect key)
prepare_unconflicted configs draws effects none = do
  jobs ← prepare_jobs configs draws 0 effects.enqueues
  ok (record {
    kv_compares = effects.kv_compares;
    claim_fence = effects.claim_fence;
    prepared_jobs = jobs;
    kv_writes = effects.kv_writes;
    kv_deletes = effects.kv_deletes;
    expiry_entries = effects.expiry_entries;
    count_changes = effects.count_changes;
  })

unfoldable pub prepare_effects :
    QueueConfigs → (ℕ → Bytes × ℕ × ℕ) → SettlementEffects → Result PreparedEffects
prepare_effects configs draws effects = do
  checked ← check_sizes effects.kv_writes
  prepare_unconflicted configs draws effects (conflicting effects.kv_writes effects.kv_deletes)

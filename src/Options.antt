-- ===== src/Options.antt =====
-- taquba/src/options.rs, taquba/src/queue.rs and taquba/src/queue_core.rs: the configuration of a
-- queue, the options of an enqueue and the delay before a retry. A `Duration` is its number of
-- nanoseconds, and a `SystemTime` its number of milliseconds from the Unix epoch, where the source
-- takes a time before the epoch as 0.
pub mod Backoff
pub mod NackCorrect
mod Tests
use taquba.Base.{
  ℕ, ◌+◌, ◌-◌, ◌*◌, ◌/◌, ◌%◌, ◌^◌, Bool, true, false, Option, none, some, List, [], min, ◌==◌,
  if◌then◌else◌,
}
use taquba.Bytes.{Bytes}
use taquba.Map.{Map, bytes_Eq}
use taquba.Map
use taquba.Form.{Text}
use taquba.Job.{JobRecord, is_last_attempt}
use taquba.History.{retried}
use taquba.Txn.ClaimEnd.{ClaimEnd}

abbrev pub seconds : ℕ → ℕ
seconds n = n * 1000000000

-- `Duration::MAX`.
abbrev pub duration_max : ℕ
duration_max = 18446744073709551615 * 1000000000 + 999999999

-- `Duration::as_millis`.
abbrev pub as_millis : ℕ → ℕ
as_millis d = d / 1000000

pub record QueueConfig : Type 0 where
  pub max_attempts : ℕ  -- u32
  pub lease_duration : ℕ
  pub default_priority : ℕ  -- u32
  pub retry_backoff_base : ℕ
  pub retry_backoff_max : ℕ
  pub keep_done_jobs : Option ℕ
  pub dead_retention : Option ℕ

abbrev pub priority_normal : ℕ
priority_normal = 1000

abbrev pub default_queue_config : QueueConfig
default_queue_config = record {
  max_attempts = 3;
  lease_duration = seconds 30;
  default_priority = priority_normal;
  retry_backoff_base = seconds 1;
  retry_backoff_max = seconds 300;
  keep_done_jobs = none;
  dead_retention = some (seconds 604800);
}

-- queue_core.rs.
pub record QueueConfigs : Type 0 where
  pub default : QueueConfig
  pub per_queue : Map Bytes QueueConfig

unfoldable pub config_of : QueueConfigs → Bytes → QueueConfig
config_of configs queue = elim (Map.get queue configs.per_queue) [
  | none ↦ configs.default
  | some config ↦ config
]

pub record EnqueueOptions : Type 0 where
  pub max_attempts : Option ℕ
  pub priority : Option ℕ
  pub run_at : Option ℕ
  pub dedup_key : Option Bytes
  pub headers : Map Bytes Bytes
  pub id_override : Option Text
  pub signal_wait : Bool
  pub count_wait : Option Bytes

abbrev pub default_options : EnqueueOptions
default_options = record {
  max_attempts = none;
  priority = none;
  run_at = none;
  dedup_key = none;
  headers = [];
  id_override = none;
  signal_wait = false;
  count_wait = none;
}

-- `saturating_pow` and `saturating_mul` keep to the ranges of a `u32` and of a `Duration`.
unfoldable pub backoff_delay : ℕ → ℕ → ℕ → ℕ
backoff_delay attempts base max =
    if base == 0 then 0 else min (min (base * min (2 ^ (attempts - 1)) 4294967295) duration_max) max

-- The closure of `ack_with`.
unfoldable pub ack_end : QueueConfigs → Bytes → JobRecord → ℕ → ClaimEnd
ack_end configs queue stored now = elim (config_of configs queue).keep_done_jobs [
  | none ↦ ClaimEnd.done false
  | some _ ↦ ClaimEnd.done true
]

-- The time of a retry. The cast is `as u64`, and the sum wraps as a `u64`.
unfoldable pub retry_time : ℕ → ℕ → Option ℕ
retry_time now backoff =
    if backoff == 0 then none else some ((now + as_millis backoff % 2 ^ 64) % 2 ^ 64)

-- The closure of `nack_with`.
unfoldable pub nack_end : QueueConfigs → Bytes → JobRecord → ℕ → ClaimEnd
nack_end configs error stored now =
    if is_last_attempt stored
    then ClaimEnd.dead error
    else let config = config_of configs stored.queue in
      ClaimEnd.retry
        (retry_time now
          (backoff_delay stored.attempts config.retry_backoff_base config.retry_backoff_max))
        retried (some error)

-- The closure of `dead_letter_with`.
abbrev pub dead_letter_end : Bytes → JobRecord → ℕ → ClaimEnd
dead_letter_end reason stored now = ClaimEnd.dead reason

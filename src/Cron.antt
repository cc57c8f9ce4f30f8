-- ===== src/Cron.antt =====
-- taquba-cron/src/lib.rs: the firings of one schedule. An instant is its number of nanoseconds from
-- the first instant of `DateTime<Utc>`, and a `Duration` its number of nanoseconds. The parsing and the
-- search of cron expressions (croner), the limits of `DateTime` (chrono) and the queue are parameters.
pub mod Instants
pub mod Backfilled
pub mod Complete
pub mod OverQueue
pub mod Registry
pub mod Names
pub mod Active
mod Tests
use taquba.Base.{
  ℕ, suc, ◌≡◌, ◌≤◌, ◌<◌, ◌+◌, ◌-◌, ◌*◌, ◌/◌, ◌%◌, ◌^◌, Bool, true, false, List, [], ◌∷◌, ◌++◌, ◌⊎◌,
  Option, none, some, leb, ltb, ◌==◌, if◌then◌else◌,
}
use taquba.Bytes.{Bytes}
use taquba.Bytes.Utf8.{is_utf8}
use taquba.Map.{Map, bytes_Eq}
use taquba.Map
use taquba.Int.{ℤ, pos, negsuc}
use taquba.Decimal.{parse_i64, to_string, negated}
use taquba.Form.{Text}
use taquba.Error.{Error, Result, ok, err, ◌>>=◌}
use taquba.Options.{EnqueueOptions, default_options, seconds}
use taquba.Effects.Staged.{EnqueueResult, new, already_enqueued}

abbrev pub second : ℕ
second = seconds 1

-- An `i64` of the source as an integer.
unfoldable pub IsI64 : ℤ → Type 0
IsI64 (pos n) = n < 2 ^ 63
IsI64 (negsuc n) = n < 2 ^ 63

-- `DateTime<Utc>` and `chrono::Duration`: their limits, and the milliseconds of an instant from the
-- Unix epoch, which are an `i64` and lose nothing of a whole second.
pub record Chrono : Type 0 where
  pub epoch : ℕ
  pub max_utc : ℕ
  pub max_delta : ℕ
  pub from_timestamp_millis : ℤ → Option ℕ
  pub timestamp_millis : ℕ → ℤ
  pub timestamp_millis-IsI64 : (at : ℕ) → at ≤ max_utc → IsI64 (timestamp_millis at)
  pub from_timestamp_millis-timestamp_millis :
      (at : ℕ)
      → at % 1000000000 ≡ 0
      → at ≤ max_utc
      → from_timestamp_millis (timestamp_millis at) ≡ some at

-- A cron expression of croner: its occurrences are whole seconds, and the search finds the first one
-- after an instant.
pub record Croner (time : Chrono) : Type 1 where
  pub Cron : Type 0
  pub as_str : Cron → Bytes
  pub occurs : Cron → ℕ → Bool
  pub find_next_occurrence : Cron → ℕ → Option ℕ
  pub find_previous_occurrence : Cron → ℕ → Option ℕ
  pub occurs-whole :
      (e : Cron) (at : ℕ) → occurs e at ≡ true → (at % 1000000000 ≡ 0) × (at ≤ time.max_utc)
  pub next-first :
      (e : Cron) (anchor at : ℕ)
      → find_next_occurrence e anchor ≡ some at
      → (anchor < at) × (occurs e at ≡ true) × ((u : ℕ) → anchor < u → u < at → occurs e u ≡ false)

-- How a call that writes ends, with the queue that it leaves. A call that fails has committed nothing,
-- or fails after its commit, when the wait for the write to be durable does.
pub data Outcome {ℓ} (State : Type ℓ) (A : Type 0) : Type ℓ where
  done : State → A → Outcome State A
  lost unsure : State → Error → Outcome State A
  panicked : Outcome State A

-- The queue, as the scheduler calls it: `peek` is what is stored under a user key. Cron.OverQueue fills
-- the record with the queue of taquba/src.
pub record CronQueue : Type 1 where
  pub State : Type 0
  pub peek : State → Bytes → Option Bytes
  pub kv_get : State → Bytes → Result (Option Bytes)
  pub kv_put : State → Bytes → Bytes → Outcome State (Unit {0})
  pub enqueue_with : State → Bytes → Bytes → EnqueueOptions → Outcome State EnqueueResult
  pub enqueue_with_effects :
      State → Bytes → Bytes → EnqueueOptions → Bytes → Bytes → Outcome State EnqueueResult
  -- A read that returns has what is stored.
  pub kv_get-peek : (s : State) (k : Bytes) (v : Option Bytes) → kv_get s k ≡ ok v → v ≡ peek s k
  -- A write is stored once it returns, and also when it fails after its commit.
  pub kv_put-done : (s t : State) (k v : Bytes) → kv_put s k v ≡ done t tt → peek t k ≡ some v
  pub kv_put-unsure :
      (s t : State) (k v : Bytes) (e : Error) → kv_put s k v ≡ unsure t e → peek t k ≡ some v
  pub kv_put-lost :
      (s t : State) (k v : Bytes) (e : Error) → kv_put s k v ≡ lost t e → peek t k ≡ peek s k
  -- So is the write that an enqueue has for effect, when the job is new. A dedup hit skips it.
  pub enqueue-new :
      (s t : State) (queue payload : Bytes) (opts : EnqueueOptions) (k v id : Bytes)
      → enqueue_with_effects s queue payload opts k v ≡ done t (new id)
      → peek t k ≡ some v
  pub enqueue-already :
      (s t : State) (queue payload : Bytes) (opts : EnqueueOptions) (k v id : Bytes)
      → enqueue_with_effects s queue payload opts k v ≡ done t (already_enqueued id)
      → peek t k ≡ peek s k
  pub enqueue-unsure :
      (s t : State) (queue payload : Bytes) (opts : EnqueueOptions) (k v : Bytes) (e : Error)
      → enqueue_with_effects s queue payload opts k v ≡ unsure t e
      → peek t k ≡ some v
  pub enqueue-lost :
      (s t : State) (queue payload : Bytes) (opts : EnqueueOptions) (k v : Bytes) (e : Error)
      → enqueue_with_effects s queue payload opts k v ≡ lost t e
      → peek t k ≡ peek s k

-- The literal texts of the source: `cron/watermark/`, `cron:`, `cron.fire_ms`, `cron.previous_fire_ms`
-- and `cron.`.
abbrev watermark_prefix : Bytes
watermark_prefix =
    b'c' ∷ b'r' ∷ b'o' ∷ b'n' ∷ b'/' ∷ b'w' ∷ b'a' ∷ b't' ∷ b'e' ∷ b'r' ∷ b'm' ∷ b'a' ∷ b'r' ∷ b'k'
    ∷ b'/' ∷ []

abbrev reserved_dedup_prefix : Bytes
reserved_dedup_prefix = b'c' ∷ b'r' ∷ b'o' ∷ b'n' ∷ b':' ∷ []

abbrev fire_ms_header : Bytes
fire_ms_header =
    b'c' ∷ b'r' ∷ b'o' ∷ b'n' ∷ b'.' ∷ b'f' ∷ b'i' ∷ b'r' ∷ b'e' ∷ b'_' ∷ b'm' ∷ b's' ∷ []

abbrev previous_fire_ms_header : Bytes
previous_fire_ms_header =
    b'c' ∷ b'r' ∷ b'o' ∷ b'n' ∷ b'.' ∷ b'p' ∷ b'r' ∷ b'e' ∷ b'v' ∷ b'i' ∷ b'o' ∷ b'u' ∷ b's' ∷ b'_'
    ∷ b'f' ∷ b'i' ∷ b'r' ∷ b'e' ∷ b'_' ∷ b'm' ∷ b's' ∷ []

abbrev pub reserved_header_prefix : Bytes
reserved_header_prefix = b'c' ∷ b'r' ∷ b'o' ∷ b'n' ∷ b'.' ∷ []

abbrev pub enqueue_retry_delay : ℕ
enqueue_retry_delay = seconds 1

unfoldable pub watermark_key : Bytes → Bytes
watermark_key name = watermark_prefix ++ name

pub data BackfillStart : Type 0 where
  current_time lookback : BackfillStart

pub record Backfill : Type 0 where
  pub lookback : ℕ
  pub start : BackfillStart

abbrev unwrap_or {ℓ} : {A : Type ℓ} → Option A → A → A
unwrap_or none a = a
unwrap_or (some a) _ = a

module _ (time : Chrono) where
  unfoldable pub parse_watermark : Bytes → Option ℕ
  parse_watermark value =
      if is_utf8 value
      then elim (parse_i64 value) [ none ↦ none | some ms ↦ time.from_timestamp_millis ms ]
      else none

  -- `chrono::Duration::from_std` and `checked_sub_signed`.
  unfoldable pub lookback_floor : ℕ → ℕ → Option ℕ
  lookback_floor now span =
      if leb span time.max_delta then if leb span now then some (now - span) else none else none

module _ (time : Chrono) (cron : Croner time) where
  open cron use {Cron, find_next_occurrence, find_previous_occurrence}

  pub record Schedule : Type 0 where
    pub name : Bytes
    pub expression : Cron
    pub queue : Bytes
    pub payload : Bytes
    pub headers : Map Bytes Bytes
    pub priority : Option ℕ
    pub max_attempts : Option ℕ
    pub backfill : Option Backfill

  unfoldable pub next_time_after : Cron → ℕ → Option ℕ
  next_time_after e anchor = find_next_occurrence e anchor

  -- The search for a fractional instant starts at the following second.
  unfoldable pub previous_time_before : Cron → ℕ → Option ℕ
  previous_time_before e at =
      if at % second == 0
      then find_previous_occurrence e at
      else if leb (at - at % second + second) time.max_utc
      then find_previous_occurrence e (at - at % second + second)
      else none

module _ (time : Chrono) (cron : Croner time) where
  unfoldable pub fire_headers : Schedule time cron → ℕ → Map Bytes Bytes
  fire_headers entry fire_at =
      let headers =
        Map.insert fire_ms_header (to_string (time.timestamp_millis fire_at)) entry.headers in
      elim (previous_time_before time cron entry.expression fire_at) [
        | none ↦ headers
        | some previous ↦
            Map.insert previous_fire_ms_header (to_string (time.timestamp_millis previous)) headers
      ]

  unfoldable pub fire_options : Schedule time cron → ℕ → EnqueueOptions
  fire_options entry fire_at = record default_options {
    dedup_key = some (
        reserved_dedup_prefix
        ++ (entry.name ++ (b':' ∷ to_string (time.timestamp_millis fire_at))));
    headers = fire_headers entry fire_at;
    priority = entry.priority;
    max_attempts = entry.max_attempts;
  }

  -- The anchor of the first search under backfill, from the stored watermark.
  unfoldable pub raise : Option ℕ → ℕ → ℕ
  raise none watermark = watermark
  raise (some floor) watermark = if ltb watermark floor then floor else watermark

  unfoldable pub backfill_anchor : Backfill → ℕ → Option Bytes → ℕ
  backfill_anchor backfill now none = elim backfill.start [
    | current_time ↦ now
    | lookback ↦ unwrap_or (lookback_floor time now backfill.lookback) now
  ]
  backfill_anchor backfill now (some raw) = elim (parse_watermark time raw) [
    | none ↦ now
    | some watermark ↦ raise (lookback_floor time now backfill.lookback) watermark
  ]

module _ (time : Chrono) (cron : Croner time) (q : CronQueue) where
  open q use {State, kv_get, kv_put, enqueue_with, enqueue_with_effects}

  abbrev pub anchor_on : State → Schedule time cron → ℕ → Option Backfill → Result ℕ
  anchor_on s entry now none = ok now
  anchor_on s entry now (some backfill) = do
    raw ← kv_get s (watermark_key entry.name)
    ok (backfill_anchor time cron backfill now raw)

  unfoldable pub initial_anchor : State → Schedule time cron → ℕ → Result ℕ
  initial_anchor s entry now = anchor_on s entry now entry.backfill

  -- A dedup hit skips the write of the watermark, which is then made by itself.
  abbrev pub advance_watermark :
      Schedule time cron → ℕ → Outcome State EnqueueResult → Outcome State (Unit {0})
  advance_watermark entry fire_at (done s (new id)) = done s tt
  advance_watermark entry fire_at (done s (already_enqueued id)) =
      kv_put s (watermark_key entry.name) (to_string (time.timestamp_millis fire_at))
  advance_watermark entry fire_at (lost s e) = lost s e
  advance_watermark entry fire_at (unsure s e) = unsure s e
  advance_watermark entry fire_at panicked = panicked

  abbrev pub fire_backfilled : State → Schedule time cron → ℕ → Outcome State (Unit {0})
  fire_backfilled s entry fire_at = advance_watermark entry fire_at (
      enqueue_with_effects s entry.queue entry.payload (fire_options time cron entry fire_at)
        (watermark_key entry.name) (to_string (time.timestamp_millis fire_at)))

  -- The result of the enqueue without backfill is discarded.
  abbrev pub discarded : Outcome State EnqueueResult → Outcome State (Unit {0})
  discarded (done s _) = done s tt
  discarded (lost s e) = lost s e
  discarded (unsure s e) = unsure s e
  discarded panicked = panicked

  abbrev pub fire_on : State → Schedule time cron → ℕ → Option Backfill → Outcome State (Unit {0})
  fire_on s entry fire_at (some _) = fire_backfilled s entry fire_at
  fire_on s entry fire_at none =
      discarded (enqueue_with s entry.queue entry.payload (fire_options time cron entry fire_at))

  unfoldable pub fire : State → Schedule time cron → ℕ → Outcome State (Unit {0})
  fire s entry fire_at = fire_on s entry fire_at entry.backfill

  -- What a tick leaves: the queue, the next firing of the entry, and the instant at which it needs
  -- attention.
  pub record Ticked : Type 0 where
    pub state : State
    pub next_fire : Option ℕ
    pub wake : Option ℕ

module _ (time : Chrono) (cron : Croner time) (q : CronQueue) where
  open q use {State}

  -- A tick whose search of the next firing returned.
  abbrev pub searched : State → Option ℕ → Ticked time cron q
  searched s next = record { state = s; next_fire = next; wake = next }

  -- An entry under backfill keeps its firing for a retry.
  abbrev retried : State → ℕ → ℕ → Ticked time cron q
  retried s now fire_at = record {
    state = s;
    next_fire = some fire_at;
    wake = some (now + enqueue_retry_delay);
  }

  -- The end of a tick that fired, by the outcome of the firing. A panic ends the scheduler, so its next
  -- firings are lost.
  abbrev pub after_fire :
      State
      → Schedule time cron
      → ℕ
      → ℕ
      → Option Backfill
      → Outcome State (Unit {0})
      → Ticked time cron q
  after_fire s entry now fire_at (some _) (done t _) =
      searched t (next_time_after time cron entry.expression fire_at)
  after_fire s entry now fire_at none (done t _) =
      searched t (next_time_after time cron entry.expression now)
  after_fire s entry now fire_at (some _) (lost t e) = retried t now fire_at
  after_fire s entry now fire_at (some _) (unsure t e) = retried t now fire_at
  after_fire s entry now fire_at none (lost t e) =
      searched t (next_time_after time cron entry.expression now)
  after_fire s entry now fire_at none (unsure t e) =
      searched t (next_time_after time cron entry.expression now)
  after_fire s entry now fire_at (some _) panicked = searched s none
  after_fire s entry now fire_at none panicked = searched s none

  -- The part of a tick after the search of the next firing.
  unfoldable pub fire_due : State → Schedule time cron → ℕ → Option ℕ → Ticked time cron q
  fire_due s entry now none = searched s none
  fire_due s entry now (some fire_at) =
      if leb fire_at now
      then after_fire s entry now fire_at entry.backfill (fire time cron q s entry fire_at)
      else searched s (some fire_at)

  abbrev pub start_at : State → Schedule time cron → ℕ → Result ℕ → Ticked time cron q
  start_at s entry now (ok anchor) =
      fire_due s entry now (next_time_after time cron entry.expression anchor)
  start_at s entry now _ = record {
    state = s;
    next_fire = none;
    wake = some (now + enqueue_retry_delay);
  }

  unfoldable pub tick_entry : State → Schedule time cron → ℕ → Option ℕ → Ticked time cron q
  tick_entry s entry now none = start_at s entry now (initial_anchor time cron q s entry now)
  tick_entry s entry now (some fire_at) = fire_due s entry now (some fire_at)

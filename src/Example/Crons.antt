-- ===== src/Example/Crons.antt =====
-- A cron expression that fires at every whole minute, and a queue whose storage fails once.
use taquba.Base.{
  ℕ, suc, ◌≡◌, ◌<◌, ◌≤◌, ◌+◌, ◌-◌, ◌*◌, ◌/◌, ◌%◌, Bool, true, false, [], ◌∷◌, none, some, Option,
  arith, leb, ◌==◌, ◌&&◌, if◌then◌else◌, Bool-cases, inl, inr,
}
use taquba.Map.{bytes_Eq}
use taquba.Int.{ℤ, pos, negsuc}
use taquba.Options.{default_queue_config}
use taquba.Cron.OverQueue.{Fault, works, after_commit}
use taquba.Cron.OverQueue.Filled.{over_queue}
use taquba.Example.Store.{example_store}
use taquba.Example.Counts.{count_codec}
use taquba.Cron.{Chrono, IsI64, Croner, CronQueue}

-- The instants from ten seconds before the Unix epoch.
unfoldable pub example_from_millis : ℤ → Option ℕ
example_from_millis (pos n) =
    if leb (10000000000 + n * 1000000) 1000000000000000
    then some (10000000000 + n * 1000000)
    else none
example_from_millis (negsuc n) =
    if leb (suc n * 1000000) 10000000000 then some (10000000000 - suc n * 1000000) else none

unfoldable pub example_millis : ℕ → ℤ
example_millis at =
    if leb 10000000000 at
    then pos ((at - 10000000000) / 1000000)
    else negsuc ((10000000000 - at + 999999) / 1000000 - 1)

pub example_millis-IsI64 : (at : ℕ) → at ≤ 1000000000000000 → IsI64 (example_millis at)
unfolding example_millis IsI64
example_millis-IsI64 at h = elim (Bool-cases (leb 10000000000 at)) [
  | inl e ↦ rw (example_millis, e, IsI64) (omega (arith, h))
  | inr e ↦ rw (example_millis, e, IsI64) (omega (arith, h))
]

pub example_from_millis-example_millis :
    (at : ℕ)
    → at % 1000000000 ≡ 0
    → at ≤ 1000000000000000
    → example_from_millis (example_millis at) ≡ some at
unfolding example_from_millis example_millis
example_from_millis-example_millis at whole h = elim (Bool-cases (leb 10000000000 at)) [
  | inl e ↦ rw (example_millis, e, example_from_millis) (ground (arith, e, whole, h))
  | inr e ↦ rw (example_millis, e, example_from_millis) (ground (arith, e, whole, h))
]

abbrev pub example_time : Chrono
example_time = record {
  epoch = 10000000000;
  max_utc = 1000000000000000;
  max_delta = 1000000000000000;
  from_timestamp_millis = λ ms. example_from_millis ms;
  timestamp_millis = λ at. example_millis at;
  timestamp_millis-IsI64 = λ at h. example_millis-IsI64 at h;
  from_timestamp_millis-timestamp_millis =
      λ at whole h. example_from_millis-example_millis at whole h;
}

abbrev pub minute : ℕ
minute = 60000000000

abbrev pub each_minute : ℕ → Bool
each_minute at = at % minute == 0 && leb at 1000000000000000

abbrev pub next_minute : ℕ → Option ℕ
next_minute anchor =
    if leb (anchor / minute * minute + minute) 1000000000000000
    then some (anchor / minute * minute + minute)
    else none

pub each_minute-whole :
    (at : ℕ) → each_minute at ≡ true → (at % 1000000000 ≡ 0) × (at ≤ 1000000000000000)
each_minute-whole at h = (ground (arith, h), ground (arith, h))

pub next_minute-first :
    (anchor at : ℕ)
    → next_minute anchor ≡ some at
    → (anchor < at)
      × (each_minute at ≡ true)
      × ((u : ℕ) → anchor < u → u < at → each_minute u ≡ false)
next_minute-first anchor at h = (ground (arith, h), ground (arith, h), λ u k l. ground (arith, h))

abbrev pub example_cron : Croner example_time
example_cron = record {
  Cron = Unit {0};
  as_str = λ e. [];
  occurs = λ e at. each_minute at;
  find_next_occurrence = λ e anchor. next_minute anchor;
  find_previous_occurrence = λ e at. none;
  occurs-whole = λ e at h. each_minute-whole at h;
  next-first = λ e anchor at h. next_minute-first anchor at h;
}

-- The first call fails after its commit, and the others work.
unfoldable pub example_faults : ℕ → Fault
example_faults n = if n == 0 then after_commit else works

abbrev pub example_queue : CronQueue
example_queue =
    over_queue example_store count_codec (record { default = default_queue_config; per_queue = [] })
      (λ n. (n ∷ [], 0, 0)) (λ n. example_faults n)

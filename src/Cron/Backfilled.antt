-- ===== src/Cron/Backfilled.antt =====
-- The firings of a schedule with backfill, over the ticks of the scheduler, its restarts and whatever
-- else happens to the queue.
use taquba.Base.{
  ℕ, Bool, true, false, if◌then◌else◌, ◌≡◌, ◌≤◌, List, [], ◌∷◌, ◌++◌, Option, none, some, leb,
}
use taquba.Error.{Result, ok}
use taquba.Cron.{
  Chrono, Croner, CronQueue, Outcome, done, lost, unsure, panicked, Schedule, Backfill,
  watermark_key, parse_watermark, lookback_floor, initial_anchor, next_time_after, fire, tick_entry,
}

module _ (time : Chrono) (cron : Croner time) (q : CronQueue) (entry : Schedule time cron)
    (backfill : Backfill) where
  open q use {State, peek}

  -- The stored watermark of the schedule.
  unfoldable pub watermark : State → Option ℕ
  watermark s = elim (peek s (watermark_key entry.name)) [
    | none ↦ none
    | some raw ↦ parse_watermark time raw
  ]

  -- The firings that a tick commits: the instant of each, and whether its call returned without an
  -- error. A dedup hit, which finds the job of the firing, is one once the watermark is written.
  abbrev pub fired_of : ℕ → Outcome State (Unit {0}) → List (ℕ × Bool)
  fired_of at (done _ _) = (at, true) ∷ []
  fired_of at (unsure _ _) = (at, false) ∷ []
  fired_of at (lost _ _) = []
  fired_of at panicked = []

  unfoldable pub due_fired : State → ℕ → Option ℕ → List (ℕ × Bool)
  due_fired s now none = []
  due_fired s now (some at) = if leb at now then fired_of at (fire time cron q s entry at) else []

  abbrev pub started_fired : State → ℕ → Result ℕ → List (ℕ × Bool)
  started_fired s now (ok anchor) =
      due_fired s now (next_time_after time cron entry.expression anchor)
  started_fired s now _ = []

  unfoldable pub tick_fired : State → ℕ → Option ℕ → List (ℕ × Bool)
  tick_fired s now (some at) = due_fired s now (some at)
  tick_fired s now none = started_fired s now (initial_anchor time cron q s entry now)

  -- The time since the watermark is within the lookback.
  unfoldable pub IsCovered : State → ℕ → Type 0
  IsCovered s now =
      (w floor : ℕ)
      → watermark s ≡ some w
      → lookback_floor time now backfill.lookback ≡ some floor
      → floor ≤ w

  -- A run of ticks, of restarts, which lose the next firing, and of changes of the queue that leave the
  -- watermark, with the firings that its ticks commit.
  pub data Run : State → Option ℕ → List (ℕ × Bool) → State → Option ℕ → Type 0 where
    stop : (s : State) (next : Option ℕ) → Run s next [] s next
    tick :
        (s u : State) (next final : Option ℕ) (fired : List (ℕ × Bool)) (now : ℕ)
        → IsCovered s now
        → Run
            (tick_entry time cron q s entry now next).state
            (tick_entry time cron q s entry now next).next_fire
            fired
            u
            final
        → Run s next (tick_fired s now next ++ fired) u final
    restart :
        (s u : State) (next final : Option ℕ) (fired : List (ℕ × Bool))
        → Run s none fired u final
        → Run s next fired u final
    other :
        (s t u : State) (next final : Option ℕ) (fired : List (ℕ × Bool))
        → peek t (watermark_key entry.name) ≡ peek s (watermark_key entry.name)
        → Run t next fired u final
        → Run s next fired u final

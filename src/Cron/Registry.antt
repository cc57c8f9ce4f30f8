-- ===== src/Cron/Registry.antt =====
-- taquba-cron/src/lib.rs: the registered schedules. An `Arc` is a number for what it points to, with
-- the schedule. The notification of a change is left out.
use taquba.Base.{
  ℕ, suc, Bool, true, false, List, [], ◌∷◌, ◌++◌, ◌⊎◌, inl, inr, Option, none, some, ◌==◌, ◌&&◌,
  ◌||◌, ltb, if◌then◌else◌, length,
}
use taquba.Bytes.{Bytes, bytes_eq}
use taquba.Map.{Map, bytes_Eq}
use taquba.Map
use taquba.Keys.{strip_prefix}
use taquba.Cron.{
  Chrono, Croner, Schedule, Backfill, BackfillStart, current_time, lookback, lookback_floor,
  reserved_header_prefix,
}

pub data Error : Type 0 where
  invalid_expression : Bytes → Bytes → Error
  duplicate_name reserved_header unbounded_start : Bytes → Error
  stopped : Error

-- The first header with the reserved prefix.
unfoldable pub find_reserved : Map Bytes Bytes → Option Bytes
find_reserved [] = none
find_reserved ((name, _) ∷ headers) = elim (strip_prefix reserved_header_prefix name) [
  | some _ ↦ some name
  | none ↦ find_reserved headers
]

-- The derived equalities.
abbrev pub option_eq : Option ℕ → Option ℕ → Bool
option_eq none none = true
option_eq (some a) (some b) = a == b
option_eq none (some _) = false
option_eq (some _) none = false

abbrev pub start_eq : BackfillStart → BackfillStart → Bool
start_eq current_time current_time = true
start_eq lookback lookback = true
start_eq current_time lookback = false
start_eq lookback current_time = false

abbrev pub backfill_eq : Option Backfill → Option Backfill → Bool
backfill_eq none none = true
backfill_eq (some a) (some b) = a.lookback == b.lookback && start_eq a.start b.start
backfill_eq none (some _) = false
backfill_eq (some _) none = false

abbrev has_entry : Option Bytes → Bytes → Bool
has_entry none value = false
has_entry (some v) value = bytes_eq v value

unfoldable pub all_in : Map Bytes Bytes → Map Bytes Bytes → Bool
all_in [] b = true
all_in ((k, v) ∷ a) b = has_entry (Map.get k b) v && all_in a b

abbrev pub headers_eq : Map Bytes Bytes → Map Bytes Bytes → Bool
headers_eq a b = length a == length b && all_in a b

module _ (time : Chrono) (cron : Croner time) where
  unfoldable pub schedule_eq : Schedule time cron → Schedule time cron → Bool
  schedule_eq a b =
      bytes_eq a.name b.name
      && (bytes_eq (cron.as_str a.expression) (cron.as_str b.expression)
          && (bytes_eq a.queue b.queue
              && (bytes_eq a.payload b.payload
                  && (headers_eq a.headers b.headers
                      && (option_eq a.priority b.priority
                          && (option_eq a.max_attempts b.max_attempts
                              && backfill_eq a.backfill b.backfill))))))

  abbrev unbounded : Schedule time cron → Option Backfill → Option Error
  unbounded schedule none = none
  unbounded schedule (some backfill) = elim backfill.start [
    | current_time ↦ none
    | lookback ↦ elim (lookback_floor time time.epoch backfill.lookback) [
      | none ↦ some (unbounded_start schedule.name)
      | some _ ↦ none
    ]
  ]

  -- `none` is `Ok(())`.
  unfoldable pub validate : Schedule time cron → Option Error
  validate schedule = elim (find_reserved schedule.headers) [
    | some header ↦ some (reserved_header header)
    | none ↦ unbounded schedule schedule.backfill
  ]

  abbrev pub Arc : Type 0
  Arc = ℕ × Schedule time cron

  -- `allocated` is the number of the next `Arc`.
  pub record RegistryState : Type 0 where
    pub entries : List Arc
    pub version : ℕ
    pub is_stopped : Bool
    pub allocated : ℕ

module _ (time : Chrono) (cron : Croner time) where
  unfoldable pub has_name : List (Arc time cron) → Bytes → Bool
  has_name [] name = false
  has_name ((_, e) ∷ entries) name = bytes_eq e.name name || has_name entries name

  unfoldable pub register :
      RegistryState time cron → Schedule time cron → Error ⊎ RegistryState time cron
  register state schedule = elim (validate time cron schedule) [
    | some e ↦ inl e
    | none ↦
        if state.is_stopped
        then inl stopped
        else if has_name state.entries schedule.name
        then inl (duplicate_name schedule.name)
        else inr (record state {
          version = suc state.version;
          entries = state.entries ++ (state.allocated, schedule) ∷ [];
          allocated = suc state.allocated;
        })
  ]

  unfoldable pub is_named : Bytes → List (Schedule time cron) → Bool
  is_named name [] = false
  is_named name (s ∷ schedules) = bytes_eq s.name name || is_named name schedules

  -- The loop over the new schedules, with those before the one at hand. `none` is that all pass.
  unfoldable pub check_all : List (Schedule time cron) → List (Schedule time cron) → Option Error
  check_all before [] = none
  check_all before (s ∷ schedules) =
      let rest = check_all (s ∷ before) schedules in
      elim (validate time cron s) [
        | some e ↦ some e
        | none ↦ if is_named s.name before then some (duplicate_name s.name) else rest
      ]

  unfoldable pub find_equal : List (Arc time cron) → Schedule time cron → Option (Arc time cron)
  find_equal [] schedule = none
  find_equal ((ptr, e) ∷ entries) schedule =
      let rest = find_equal entries schedule in
      if schedule_eq time cron e schedule then some (ptr, e) else rest

  -- The new entries, the number of those that are kept, and the next `Arc`, for one more schedule: the
  -- entries after it are in the first triple when an old entry is kept, else in the second.
  abbrev pub place :
      Schedule time cron
      → ℕ
      → List (Arc time cron) × ℕ × ℕ
      → List (Arc time cron) × ℕ × ℕ
      → Option (Arc time cron)
      → List (Arc time cron) × ℕ × ℕ
  place s allocated (entries, kept, next) _ (some e) = (e ∷ entries, suc kept, next)
  place s allocated _ (entries, kept, next) none = ((allocated, s) ∷ entries, kept, next)

  unfoldable pub replace_entries :
      List (Arc time cron) → ℕ → List (Schedule time cron) → List (Arc time cron) × ℕ × ℕ
  replace_entries old allocated [] = ([], 0, allocated)
  replace_entries old allocated (s ∷ schedules) =
      place s allocated (replace_entries old allocated schedules)
        (replace_entries old (suc allocated) schedules) (find_equal old s)

  -- The state, and whether it changed.
  unfoldable pub replace_all :
      RegistryState time cron → List (Schedule time cron) → Error ⊎ (RegistryState time cron × Bool)
  replace_all state schedules = elim (check_all [] schedules) [
    | some e ↦ inl e
    | none ↦
        if state.is_stopped
        then inl stopped
        else let (entries, kept, next) = replace_entries state.entries state.allocated schedules in
          if kept == length entries && kept == length state.entries
          then inr (state, false)
          else inr (
            record state { version = suc state.version; entries = entries; allocated = next },
            true,
          )
  ]

  unfoldable pub without_name : Bytes → List (Arc time cron) → List (Arc time cron)
  without_name name [] = []
  without_name name ((ptr, e) ∷ entries) =
      let rest = without_name name entries in if bytes_eq e.name name then rest else (ptr, e) ∷ rest

  -- The state, and whether the schedule was registered.
  unfoldable pub unschedule : RegistryState time cron → Bytes → RegistryState time cron × Bool
  unschedule state name =
      let entries = without_name name state.entries in
      if ltb (length entries) (length state.entries)
      then (record state { entries = entries; version = suc state.version }, true)
      else (record state { entries = entries }, false)

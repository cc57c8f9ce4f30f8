-- ===== src/Cron/Active.antt =====
-- taquba-cron/src/lib.rs: the entries that the scheduler runs, and one tick over all of them. The loop
-- around the ticks, with its sleeps, is left out.
use taquba.Base.{
  ℕ, ◌≡◌, refl, ap, ◌∙◌, ◌⊎◌, min, inl, inr, Bool, true, false, not, List, [], ◌∷◌, ◌++◌, Option,
  none, some, ◌==◌, ◌+◌, ◌≤◌, ◌||◌, if◌then◌else◌, arith, Bool-cases,
}
use taquba.Cron.{Chrono, Croner, CronQueue, tick_entry}
use taquba.Cron.Registry.{Arc, RegistryState}

module _ (time : Chrono) (cron : Croner time) where
  pub record ActiveEntry : Type 0 where
    pub entry : Arc time cron
    pub next_fire : Option ℕ

module _ (time : Chrono) (cron : Croner time) where
  -- `Arc::ptr_eq` compares the numbers.
  unfoldable pub has_ptr : List (Arc time cron) → ℕ → Bool
  has_ptr [] ptr = false
  has_ptr ((p, _) ∷ entries) ptr = p == ptr || has_ptr entries ptr

  unfoldable pub is_active : List (ActiveEntry time cron) → ℕ → Bool
  is_active [] ptr = false
  is_active (a ∷ active) ptr = a.entry.0 == ptr || is_active active ptr

  unfoldable pub retain :
      List (Arc time cron) → List (ActiveEntry time cron) → List (ActiveEntry time cron)
  retain entries [] = []
  retain entries (a ∷ active) =
      let rest = retain entries active in if has_ptr entries a.entry.0 then a ∷ rest else rest

  unfoldable pub push_new :
      List (ActiveEntry time cron) → List (Arc time cron) → List (ActiveEntry time cron)
  push_new active [] = active
  push_new active (e ∷ entries) =
      let kept = push_new active entries in
      let pushed = push_new (active ++ record { entry = e; next_fire = none } ∷ []) entries in
      if is_active active e.0 then kept else pushed

  -- `CronScheduler`, less the queue and the registry.
  pub record Scheduler : Type 0 where
    pub active : List (ActiveEntry time cron)
    pub synced : ℕ

module _ (time : Chrono) (cron : Croner time) where
  unfoldable pub sync : RegistryState time cron → Scheduler time cron → Scheduler time cron
  sync state s = if state.version == s.synced then s else record {
    active = push_new time cron (retain time cron state.entries s.active) state.entries;
    synced = state.version;
  }

  abbrev pub soonest_of : Option ℕ → Option ℕ → Option ℕ
  soonest_of soonest none = soonest
  soonest_of none (some wake) = some wake
  soonest_of (some s) (some wake) = some (min s wake)

module _ (time : Chrono) (cron : Croner time) (q : CronQueue) where
  open q use {State}

  -- The loop over the active entries, with the soonest wake so far.
  unfoldable pub tick_all :
      State
      → List (ActiveEntry time cron)
      → ℕ
      → Option ℕ
      → State × List (ActiveEntry time cron) × Option ℕ
  tick_all s [] now soonest = (s, [], soonest)
  tick_all s (a ∷ active) now soonest =
      let ticked = tick_entry time cron q s a.entry.1 now a.next_fire in
      let (t, rest, wake) =
        tick_all ticked.state active now (soonest_of time cron soonest ticked.wake) in
      (t, record a { next_fire = ticked.next_fire } ∷ rest, wake)

  unfoldable pub step :
      RegistryState time cron
      → State
      → Scheduler time cron
      → ℕ
      → State × Scheduler time cron × Option ℕ
  step registry state s now =
      let synced = sync time cron registry s in
      let (t, active, soonest) = tick_all state synced.active now none in
      (t, record synced { active = active }, soonest)

module _ (time : Chrono) (cron : Croner time) where
  -- The next firing that the scheduler has for an entry, if the entry is active.
  unfoldable pub position : List (ActiveEntry time cron) → ℕ → Option (Option ℕ)
  position [] ptr = none
  position (a ∷ active) ptr =
      let rest = position active ptr in if a.entry.0 == ptr then some a.next_fire else rest

  abbrev pub started : Option (Option ℕ) → Option (Option ℕ)
  started none = some none
  started (some next) = some next

  abbrev pub or_started : Bool → Option (Option ℕ) → Option (Option ℕ)
  or_started is_new (some next) = some next
  or_started is_new none = if is_new then some none else none

  is_active-position :
      (active : List (ActiveEntry time cron)) (p : ℕ)
      → ((is_active time cron active p ≡ false) × (position active p ≡ none))
        ⊎ ((n : Option ℕ) × (is_active time cron active p ≡ true) × (position active p ≡ some n))
  unfolding is_active position
  is_active-position [] p = inl (refl, refl)
  is_active-position (a ∷ active) p = elim (Bool-cases (a.entry.0 == p)) [
    | inl e ↦ inr (a.next_fire, ground (arith, e), rw e refl)
    | inr e ↦ elim (is_active-position active p) [
      | inl (h, k) ↦ inl (ground (arith, e, h), rw e k)
      | inr (n, h, k) ↦ inr (n, ground (arith, e, h), rw e k)
    ]
  ]

  position-retain :
      (entries : List (Arc time cron)) (active : List (ActiveEntry time cron)) (p : ℕ)
      → position (retain time cron entries active) p
        ≡ (if has_ptr time cron entries p then position active p else none)
  unfolding retain position
  position-retain entries [] p = ground arith
  position-retain entries (a ∷ active) p =
      let rest = position-retain entries active p in
      elim (Bool-cases (has_ptr time cron entries a.entry.0)) [
        | inl f ↦ elim (Bool-cases (a.entry.0 == p)) [
          | inl e ↦ rw (f, e, same e ∙ f)
          | inr e ↦ rw (f, e, rest)
        ]
        | inr f ↦ elim (Bool-cases (a.entry.0 == p)) [
          | inl e ↦ rw (f, rest, e, same e ∙ f)
          | inr e ↦ rw (f, rest, e)
        ]
      ]
    where
      same :
          (a.entry.0 == p) ≡ true
          → has_ptr time cron entries p ≡ has_ptr time cron entries a.entry.0
      same e = ap (has_ptr time cron entries) (ground (arith, e))

  position-snoc :
      (active : List (ActiveEntry time cron)) (e : Arc time cron) (p : ℕ)
      → position (active ++ record { entry = e; next_fire = none } ∷ []) p
        ≡ or_started (e.0 == p) (position active p)
  unfolding position
  position-snoc [] e p = refl
  position-snoc (a ∷ active) e p = elim (Bool-cases (a.entry.0 == p)) [
    | inl h ↦ rw h refl
    | inr h ↦ rw h (position-snoc active e p)
  ]

  position-push_new :
      (entries : List (Arc time cron)) (active : List (ActiveEntry time cron)) (p : ℕ)
      → position (push_new time cron active entries) p
        ≡ or_started (has_ptr time cron entries p) (position active p)
  unfolding push_new has_ptr
  position-push_new [] active p = unchanged (position active p)
    where
      unchanged : (o : Option (Option ℕ)) → o ≡ or_started false o
      unchanged none = refl
      unchanged (some n) = refl
  position-push_new (e ∷ entries) active p = elim (is_active-position active e.0) [
    | inl (h, k) ↦ rw h (
        position-push_new entries (active ++ record { entry = e; next_fire = none } ∷ []) p
        ∙ ap (or_started (has_ptr time cron entries p)) (position-snoc active e p)
        ∙ merged (e.0 == p) (has_ptr time cron entries p) (position active p))
    | inr (n, h, k) ↦ elim (Bool-cases (e.0 == p)) [
      | inl f ↦
          let there : position active p ≡ some n = ap (position active) (ground (arith, f)) ∙ k in
          rw (h, f) (position-push_new entries active p ∙ rw there refl)
      | inr f ↦ rw (h, f) (position-push_new entries active p)
    ]
  ]
    where
      merged :
          (b c : Bool) (o : Option (Option ℕ))
          → or_started c (or_started b o) ≡ or_started (b || c) o
      merged b c (some n) = refl
      merged true c none = refl
      merged false c none = refl

  -- How often an entry is active.
  unfoldable pub times_active : List (ActiveEntry time cron) → ℕ → ℕ
  times_active [] ptr = 0
  times_active (a ∷ active) ptr = (if a.entry.0 == ptr then 1 else 0) + times_active active ptr

  is_active-times :
      (active : List (ActiveEntry time cron)) (p : ℕ)
      → is_active time cron active p ≡ not (times_active active p == 0)
  unfolding is_active times_active
  is_active-times [] p = refl
  is_active-times (a ∷ active) p = ground (arith, is_active-times active p)

  times_active-snoc :
      (active : List (ActiveEntry time cron)) (e : Arc time cron) (p : ℕ)
      → times_active (active ++ record { entry = e; next_fire = none } ∷ []) p
        ≡ times_active active p + (if e.0 == p then 1 else 0)
  unfolding times_active
  times_active-snoc [] e p = ground arith
  times_active-snoc (a ∷ active) e p = ground (arith, times_active-snoc active e p)

  times_active-retain :
      (entries : List (Arc time cron)) (active : List (ActiveEntry time cron)) (p : ℕ)
      → times_active (retain time cron entries active) p
        ≡ (if has_ptr time cron entries p then times_active active p else 0)
  unfolding retain times_active
  times_active-retain entries [] p = ground arith
  times_active-retain entries (a ∷ active) p =
      let rest = times_active-retain entries active p in
      elim (Bool-cases (has_ptr time cron entries a.entry.0)) [
        | inl f ↦ elim (Bool-cases (a.entry.0 == p)) [
          | inl e ↦ ground (arith, f, e, rest, same e)
          | inr e ↦ ground (arith, f, e, rest)
        ]
        | inr f ↦ elim (Bool-cases (a.entry.0 == p)) [
          | inl e ↦ ground (arith, f, e, rest, same e)
          | inr e ↦ ground (arith, f, e, rest)
        ]
      ]
    where
      same :
          (a.entry.0 == p) ≡ true
          → has_ptr time cron entries p ≡ has_ptr time cron entries a.entry.0
      same e = ap (has_ptr time cron entries) (ground (arith, e))

  times_active-push_new :
      (entries : List (Arc time cron)) (active : List (ActiveEntry time cron)) (p : ℕ)
      → times_active (push_new time cron active entries) p ≡ (
          if times_active active p == 0
          then (if has_ptr time cron entries p then 1 else 0)
          else times_active active p)
  unfolding push_new has_ptr
  times_active-push_new [] active p = ground arith
  times_active-push_new (e ∷ entries) active p =
      let pushed = active ++ record { entry = e; next_fire = none } ∷ [] in
      elim (Bool-cases (is_active time cron active e.0)) [
        | inl h ↦ elim (Bool-cases (e.0 == p)) [
          | inl f ↦ rw h (
              ground (
                arith,
                f,
                times_active-push_new entries active p,
                h,
                is_active-times active e.0,
                same f,
              ))
          | inr f ↦ rw h (ground (arith, f, times_active-push_new entries active p))
        ]
        | inr h ↦ elim (Bool-cases (e.0 == p)) [
          | inl f ↦ rw h (
              ground (
                arith,
                f,
                times_active-push_new entries pushed p,
                times_active-snoc active e p,
                h,
                is_active-times active e.0,
                same f,
              ))
          | inr f ↦ rw h (
              ground
                (arith, f, times_active-push_new entries pushed p, times_active-snoc active e p))
        ]
      ]
    where
      same : (e.0 == p) ≡ true → times_active active e.0 ≡ times_active active p
      same f = ap (times_active active) (ground (arith, f))

  -- After a sync with a changed registry, an entry that the scheduler had at most once is active exactly
  -- once when it is registered, and not at all otherwise. When it was active it keeps its next firing,
  -- and a new one starts without one. Entries are the same when they are one `Arc`.
  pub position-sync :
      (state : RegistryState time cron) (s : Scheduler time cron) (p : ℕ)
      → (state.version == s.synced) ≡ false
      → times_active s.active p ≤ 1
      → (times_active (sync time cron state s).active p
          ≡ (if has_ptr time cron state.entries p then 1 else 0))
        × (position (sync time cron state s).active p
            ≡ (if has_ptr time cron state.entries p then started (position s.active p) else none))
  unfolding sync
  position-sync state s p h once = (
    rw (sync, h)
        (ground (
          arith,
          times_active-push_new state.entries (retain time cron state.entries s.active) p,
          times_active-retain state.entries s.active p,
          once,
        )),
    rw (sync, h)
        (position-push_new state.entries (retain time cron state.entries s.active) p
          ∙ ap (or_started (has_ptr time cron state.entries p))
              (position-retain state.entries s.active p)
          ∙ joined (has_ptr time cron state.entries p) (position s.active p)),
  )
    where
      joined :
          (b : Bool) (o : Option (Option ℕ))
          → or_started b (if b then o else none) ≡ (if b then started o else none)
      joined false o = refl
      joined true none = refl
      joined true (some n) = refl

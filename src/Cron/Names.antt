-- ===== src/Cron/Names.antt =====
-- The names of the registered schedules are different.
pub mod Entries
use taquba.Base.{
  ℕ, suc, ◌≡◌, refl, sym, ap, ◌∙◌, subst, inl, inr, Bool, true, false, List, [], ◌∷◌, ◌++◌, ◌⊎◌,
  Option, none, some, arith, ◌||◌, ◌&&◌, ◌==◌, length, Bool-cases, Option-cases,
}
use taquba.Bytes.{Bytes, bytes_eq}
use taquba.Bytes.Order.{eq_of_bytes_eq, bytes_eq_refl}
use taquba.Map.{bytes_eq_iff}
use taquba.Cron.{Chrono, Croner, Schedule}
use taquba.Cron.Registry.{
  Error, stopped, duplicate_name, RegistryState, Arc, has_name, is_named, schedule_eq, validate,
  register, check_all, find_equal, place, replace_entries, replace_all, without_name, unschedule,
}
use taquba.Cron.Names.Entries.{
  NamesUnique, snoc-NamesUnique, without_name-NamesUnique, replace_entries-NamesUnique,
  check_all-Distinct,
}

module _ (time : Chrono) (cron : Croner time) where
  pub data RegistryOp : Type 0 where
    schedule : Schedule time cron → RegistryOp
    replace : List (Schedule time cron) → RegistryOp
    remove : Bytes → RegistryOp
    stop : RegistryOp

module _ (time : Chrono) (cron : Croner time) where
  abbrev registered :
      RegistryState time cron → Error ⊎ RegistryState time cron → RegistryState time cron
  registered state (inl _) = state
  registered _ (inr t) = t

  abbrev replaced :
      RegistryState time cron → Error ⊎ (RegistryState time cron × Bool) → RegistryState time cron
  replaced state (inl _) = state
  replaced _ (inr (t, _)) = t

  -- The state after an operation, which a failed one leaves as it is.
  unfoldable pub step : RegistryState time cron → RegistryOp time cron → RegistryState time cron
  step state (RegistryOp.schedule s) = registered state (register time cron state s)
  step state (RegistryOp.replace ss) = replaced state (replace_all time cron state ss)
  step state (RegistryOp.remove name) = (unschedule time cron state name).0
  step state RegistryOp.stop = record state { is_stopped = true }

  unfoldable pub run :
      RegistryState time cron → List (RegistryOp time cron) → RegistryState time cron
  run state [] = state
  run state (op ∷ ops) = run (step state op) ops

  module _ (state : RegistryState time cron) (u : NamesUnique time cron state.entries) where
    registered-NamesUnique :
        (s : Schedule time cron) (r : Error ⊎ RegistryState time cron)
        → register time cron state s ≡ r
        → NamesUnique time cron (registered state r).entries
        → NamesUnique time cron (registered state (register time cron state s)).entries
    registered-NamesUnique s r e =
        subst (λ r. NamesUnique time cron (registered state r).entries) (sym e)

    abbrev added : Schedule time cron → RegistryState time cron
    added s = record state {
      version = suc state.version;
      entries = state.entries ++ (state.allocated, s) ∷ [];
      allocated = suc state.allocated;
    }

    abbrev changed : List (Arc time cron) × ℕ × ℕ → RegistryState time cron
    changed (entries, kept, next) = record state {
      version = suc state.version;
      entries = entries;
      allocated = next;
    }

    register-NamesUnique :
        (s : Schedule time cron)
        → NamesUnique time cron (registered state (register time cron state s)).entries
    unfolding register
    register-NamesUnique s = elim (Option-cases (validate time cron s)) [
      | inr (e, f) ↦ registered-NamesUnique s (inl e) (ground (arith, f)) u
      | inl f ↦ elim (Bool-cases state.is_stopped) [
        | inl g ↦ registered-NamesUnique s (inl stopped) (ground (arith, f, g)) u
        | inr g ↦ elim (Bool-cases (has_name time cron state.entries s.name)) [
          | inl k ↦
              registered-NamesUnique s (inl (duplicate_name s.name)) (ground (arith, f, g, k)) u
          | inr k ↦
              registered-NamesUnique s (inr (added s)) (ground (arith, f, g, k))
                (snoc-NamesUnique time cron state.entries state.allocated s u k)
        ]
      ]
    ]

    replaced-NamesUnique :
        (ss : List (Schedule time cron)) (r : Error ⊎ (RegistryState time cron × Bool))
        → replace_all time cron state ss ≡ r
        → NamesUnique time cron (replaced state r).entries
        → NamesUnique time cron (replaced state (replace_all time cron state ss)).entries
    replaced-NamesUnique ss r e =
        subst (λ r. NamesUnique time cron (replaced state r).entries) (sym e)

    replace_all-NamesUnique :
        (ss : List (Schedule time cron))
        → NamesUnique time cron (replaced state (replace_all time cron state ss)).entries
    unfolding replace_all
    replace_all-NamesUnique ss = elim (Option-cases (check_all time cron [] ss)) [
      | inr (e, f) ↦ replaced-NamesUnique ss (inl e) (ground (arith, f)) u
      | inl f ↦ elim (Bool-cases state.is_stopped) [
        | inl g ↦ replaced-NamesUnique ss (inl stopped) (ground (arith, f, g)) u
        | inr g ↦ elim (Bool-cases (made.1 == length made.0 && made.1 == length state.entries)) [
          | inl k ↦ replaced-NamesUnique ss (inr (state, false)) (ground (arith, f, g, k)) u
          | inr k ↦ replaced-NamesUnique ss (inr (changed made, true)) (ground (arith, f, g, k)) (
              replace_entries-NamesUnique time cron state.entries state.allocated ss
                (check_all-Distinct time cron [] ss f))
        ]
      ]
    ]
      where
        made : List (Arc time cron) × ℕ × ℕ
        made = replace_entries time cron state.entries state.allocated ss

    unschedule-NamesUnique :
        (name : Bytes) → NamesUnique time cron (unschedule time cron state name).0.entries
    unfolding unschedule
    unschedule-NamesUnique name =
        ground (arith, without_name-NamesUnique time cron name state.entries u)

  step-NamesUnique :
      (op : RegistryOp time cron) (state : RegistryState time cron)
      → NamesUnique time cron state.entries
      → NamesUnique time cron (step state op).entries
  unfolding step
  step-NamesUnique (RegistryOp.schedule s) state u = register-NamesUnique state u s
  step-NamesUnique (RegistryOp.replace ss) state u = replace_all-NamesUnique state u ss
  step-NamesUnique (RegistryOp.remove name) state u = unschedule-NamesUnique state u name
  step-NamesUnique RegistryOp.stop state u = u

  -- While the registry is used, by any sequence of calls of `schedule`, `replace_all` and `unschedule`
  -- and the stop of the scheduler, whether they succeed or fail, the names of its schedules stay
  -- different.
  pub run-NamesUnique :
      (ops : List (RegistryOp time cron)) (state : RegistryState time cron)
      → NamesUnique time cron state.entries
      → NamesUnique time cron (run state ops).entries
  unfolding run
  run-NamesUnique [] state u = u
  run-NamesUnique (op ∷ ops) state u =
      run-NamesUnique ops (step state op) (step-NamesUnique op state u)

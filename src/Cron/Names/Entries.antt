-- ===== src/Cron/Names/Entries.antt =====
-- The names of the entries after one change of their list.
use taquba.Base.{
  ℕ, suc, ◌≡◌, refl, sym, ap, ◌∙◌, subst, inl, inr, Bool, true, false, List, [], ◌∷◌, ◌++◌, Option,
  none, some, arith, ◌||◌, Bool-cases, Option-cases,
}
use taquba.Bytes.{Bytes, bytes_eq}
use taquba.Bytes.Order.{eq_of_bytes_eq, bytes_eq_refl}
use taquba.Map.{bytes_eq_iff}
use taquba.Cron.{Chrono, Croner, Schedule}
use taquba.Cron.Registry.{
  Arc, has_name, is_named, schedule_eq, validate, check_all, find_equal, place, replace_entries,
  without_name,
}

module _ (time : Chrono) (cron : Croner time) where
  unfoldable pub NamesUnique : List (Arc time cron) → Type 0
  NamesUnique [] = Unit {0}
  NamesUnique ((_, e) ∷ entries) = (has_name time cron entries e.name ≡ false) × NamesUnique entries

module _ (time : Chrono) (cron : Croner time) where
  has_name-snoc :
      (es : List (Arc time cron)) (ptr : ℕ) (s : Schedule time cron) (n : Bytes)
      → has_name time cron (es ++ (ptr, s) ∷ []) n ≡ (has_name time cron es n || bytes_eq s.name n)
  unfolding has_name
  has_name-snoc [] ptr s n = ground arith
  has_name-snoc ((p, e) ∷ es) ptr s n = ground (arith, has_name-snoc es ptr s n)

  pub snoc-NamesUnique :
      (es : List (Arc time cron)) (ptr : ℕ) (s : Schedule time cron)
      → NamesUnique time cron es
      → has_name time cron es s.name ≡ false
      → NamesUnique time cron (es ++ (ptr, s) ∷ [])
  unfolding NamesUnique has_name
  snoc-NamesUnique [] ptr s u h = (refl, tt)
  snoc-NamesUnique ((p, e) ∷ es) ptr s (f, u) h = (
    ground (
      arith,
      has_name-snoc es ptr s e.name,
      f,
      h,
      bytes_eq_iff s.name e.name,
      bytes_eq_iff e.name s.name,
    ),
    snoc-NamesUnique es ptr s u (ground (arith, h)),
  )

  has_name-without_name :
      (name n : Bytes) (es : List (Arc time cron))
      → has_name time cron es n ≡ false
      → has_name time cron (without_name time cron name es) n ≡ false
  unfolding has_name without_name
  has_name-without_name name n [] h = refl
  has_name-without_name name n ((p, e) ∷ es) h = ground (arith, h, has_name-without_name name n es)

  pub without_name-NamesUnique :
      (name : Bytes) (es : List (Arc time cron))
      → NamesUnique time cron es
      → NamesUnique time cron (without_name time cron name es)
  unfolding NamesUnique without_name
  without_name-NamesUnique name [] u = tt
  without_name-NamesUnique name ((p, e) ∷ es) (f, u) = elim (Bool-cases (bytes_eq e.name name)) [
    | inl h ↦ rw h (without_name-NamesUnique name es u)
    | inr h ↦ rw h (has_name-without_name name e.name es f, without_name-NamesUnique name es u)
  ]

  schedule_eq-name : (a b : Schedule time cron) → schedule_eq time cron a b ≡ true → a.name ≡ b.name
  unfolding schedule_eq
  schedule_eq-name a b h = elim (Bool-cases (bytes_eq a.name b.name)) [
    | inl e ↦ eq_of_bytes_eq a.name b.name e
    | inr e ↦ absurd (ground (arith, e, h))
  ]

  find_equal-name :
      (es : List (Arc time cron)) (s : Schedule time cron) (a : Arc time cron)
      → find_equal time cron es s ≡ some a
      → a.1.name ≡ s.name
  unfolding find_equal
  find_equal-name [] s a h = absurd (cc)
  find_equal-name ((p, e) ∷ es) s a h = elim (Bool-cases (schedule_eq time cron e s)) [
    | inl k ↦ subst (λ x. x.1.name ≡ s.name) (same (p, e) (sym (rw k) ∙ h)) (schedule_eq-name e s k)
    | inr k ↦ find_equal-name es s a (ground (arith, h, k))
  ]
    where
      same : (x : Arc time cron) → ◌≡◌ {A = Option (Arc time cron)} (some x) (some a) → x ≡ a
      same x k = cc

  has_name-place :
      (old : List (Arc time cron)) (s : Schedule time cron) (next : ℕ) (named : Bool)
      (kept made : List (Arc time cron) × ℕ × ℕ) (n : Bytes)
      → has_name time cron kept.0 n ≡ named
      → has_name time cron made.0 n ≡ named
      → (o : Option (Arc time cron)) → find_equal time cron old s ≡ o
      → has_name time cron (place time cron s next kept made o).0 n ≡ (bytes_eq s.name n || named)
  unfolding has_name
  has_name-place old s next named kept made n h k none e = ap (λ b. bytes_eq s.name n || b) k
  has_name-place old s next named kept made n h k (some (p, a)) e =
      ap (λ b. bytes_eq a.name n || b) h
      ∙ ap (λ m. bytes_eq m n || named) (find_equal-name old s (p, a) e)

  -- The names of the new entries are those of the new schedules.
  has_name-replace_entries :
      (old : List (Arc time cron)) (next : ℕ) (ss : List (Schedule time cron)) (n : Bytes)
      → has_name time cron (replace_entries time cron old next ss).0 n ≡ is_named time cron n ss
  unfolding has_name is_named replace_entries
  has_name-replace_entries old next [] n = refl
  has_name-replace_entries old next (s ∷ ss) n =
      has_name-place old s next (is_named time cron n ss) _ _ n
        (has_name-replace_entries old next ss n) (has_name-replace_entries old (suc next) ss n)
        (find_equal time cron old s) refl

  -- The names of a list of schedules are different.
  pub Distinct : List (Schedule time cron) → Type 0
  Distinct [] = Unit {0}
  Distinct (s ∷ ss) = (is_named time cron s.name ss ≡ false) × Distinct ss

  place-NamesUnique :
      (old : List (Arc time cron)) (s : Schedule time cron) (next : ℕ)
      (kept made : List (Arc time cron) × ℕ × ℕ)
      → has_name time cron kept.0 s.name ≡ false
      → has_name time cron made.0 s.name ≡ false
      → NamesUnique time cron kept.0
      → NamesUnique time cron made.0
      → (o : Option (Arc time cron)) → find_equal time cron old s ≡ o
      → NamesUnique time cron (place time cron s next kept made o).0
  unfolding NamesUnique
  place-NamesUnique old s next kept made h k u v none e = (k, v)
  place-NamesUnique old s next kept made h k u v (some (p, a)) e =
      (ap (λ m. has_name time cron kept.0 m) (find_equal-name old s (p, a) e) ∙ h, u)

  pub replace_entries-NamesUnique :
      (old : List (Arc time cron)) (next : ℕ) (ss : List (Schedule time cron))
      → Distinct ss
      → NamesUnique time cron (replace_entries time cron old next ss).0
  unfolding Distinct NamesUnique replace_entries
  replace_entries-NamesUnique old next [] d = tt
  replace_entries-NamesUnique old next (s ∷ ss) (f, d) =
      place-NamesUnique old s next _ _ (has_name-replace_entries old next ss s.name ∙ f)
        (has_name-replace_entries old (suc next) ss s.name ∙ f)
        (replace_entries-NamesUnique old next ss d)
        (replace_entries-NamesUnique old (suc next) ss d) (find_equal time cron old s) refl

  -- Schedules that pass the check have no name of those before them.
  check_all-named :
      (before ss : List (Schedule time cron)) (n : Bytes)
      → check_all time cron before ss ≡ none
      → is_named time cron n before ≡ true
      → is_named time cron n ss ≡ false
  unfolding check_all is_named
  check_all-named before [] n h k = refl
  check_all-named before (s ∷ ss) n h k = elim (Option-cases (validate time cron s)) [
    | inr (e, f) ↦ absurd (ground (arith, f, h))
    | inl f ↦ elim (Bool-cases (is_named time cron s.name before)) [
      | inl g ↦ absurd (ground (arith, f, g, h))
      | inr g ↦
          let rest =
            check_all-named (s ∷ before) ss n (ground (arith, f, g, h)) (ground (arith, k)) in
          elim (Bool-cases (bytes_eq s.name n)) [
            | inl same ↦
                absurd
                  (cc (ap (λ x. is_named time cron x before) (eq_of_bytes_eq s.name n same), g, k))
            | inr differ ↦ ground (arith, differ, rest)
          ]
    ]
  ]

  pub check_all-Distinct :
      (before ss : List (Schedule time cron)) → check_all time cron before ss ≡ none → Distinct ss
  unfolding check_all Distinct is_named
  check_all-Distinct before [] h = tt
  check_all-Distinct before (s ∷ ss) h = elim (Option-cases (validate time cron s)) [
    | inr (e, f) ↦ absurd (ground (arith, f, h))
    | inl f ↦ elim (Bool-cases (is_named time cron s.name before)) [
      | inl g ↦ absurd (ground (arith, f, g, h))
      | inr g ↦
          let rest : check_all time cron (s ∷ before) ss ≡ none = ground (arith, f, g, h) in
          (
            check_all-named (s ∷ before) ss s.name rest (ground (arith, bytes_eq_refl s.name)),
            check_all-Distinct (s ∷ before) ss rest,
          )
    ]
  ]

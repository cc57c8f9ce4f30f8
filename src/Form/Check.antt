-- ===== src/Form/Check.antt =====
-- The check of a form against a description of it that tests nothing in order.
use taquba.Base.{
  ℕ, ◌≡◌, ◌↔◌, ◌≤◌, refl, true, Bool, [], ◌∷◌, none, arith, length, inl, inr, Option-cases,
}
use taquba.Form.{Form, Text, as_bytes, check, first_outside, may_start}

-- Every character of the text passes a test.
unfoldable pub Each : (ℕ → Bool) → Text → Type 0
Each p [] = Unit {0}
Each p (c ∷ cs) = (p c ≡ true) × Each p cs

pub record IsOfForm (form : Form) (value : Text) : Type 0 where
  pub starts : (c : ℕ) × (cs : Text) × (value ≡ c ∷ cs) × (may_start form.start c ≡ true)
  pub fits : length (as_bytes value) ≤ form.max
  pub contains : Each form.characters value

Each-none_outside : (p : ℕ → Bool) (v : Text) → first_outside p v ≡ none → Each p v
unfolding first_outside Each
Each-none_outside p [] h = tt
Each-none_outside p (c ∷ cs) h = (ground arith, Each-none_outside p cs (ground arith))

first_outside-Each : (p : ℕ → Bool) (v : Text) → Each p v → first_outside p v ≡ none
unfolding first_outside Each
first_outside-Each p [] h = refl
first_outside-Each p (c ∷ cs) (hc, hs) = ground (arith, first_outside-Each p cs hs)

check-IsOfForm :
    (form : Form) (c : ℕ) (cs : Text) → check form (c ∷ cs) ≡ none → IsOfForm form (c ∷ cs)
unfolding check
check-IsOfForm form c cs h = record {
  starts = (c, cs, refl, ground arith);
  fits = ground arith;
  contains =
      Each-none_outside form.characters (c ∷ cs)
        (elim (Option-cases (first_outside form.characters (c ∷ cs))) [
          | inl e ↦ e
          | inr (x, e) ↦ ground (arith, e)
        ]);
}

IsOfForm-check :
    (form : Form) (c : ℕ) (cs : Text) → IsOfForm form (c ∷ cs) → check form (c ∷ cs) ≡ none
unfolding check
IsOfForm-check form c cs h =
    let (d, ds, e, m) = h.starts in
    ground (arith, first_outside-Each form.characters (c ∷ cs) h.contains, h.fits, e, m)

-- The check accepts a text exactly when the text has a first character, that character may start it,
-- the bytes of the text are at most the maximum, and every character of it is one of the form.
pub check_lem : (form : Form) (v : Text) → (check form v ≡ none) ↔ IsOfForm form v
unfolding check
check_lem form [] = (λ h. cc, λ h. let (c, cs, e, m) = h.starts in cc)
check_lem form (c ∷ cs) = (check-IsOfForm form c cs, IsOfForm-check form c cs)

-- ===== src/QueueName/Accepted.antt =====
-- What an accepted name is: its characters are its bytes, and its length fits the length byte of the
-- keys.
use taquba.Base.{
  ℕ, ◌≡◌, ◌<◌, refl, true, Bool, [], ◌∷◌, none, arith, length, inl, inr, Bool-cases, Option-cases,
  ◌∙◌,
}
use taquba.Bytes.{Bytes}
use taquba.Form.{Text, as_bytes, check, is_ascii_alphanumeric}
use taquba.Form.Check.{Each, IsOfForm, check_lem}
use taquba.Error.{ok}
use taquba.QueueName.{queue_name_form, new}

alphanumeric-ascii : (c : ℕ) → is_ascii_alphanumeric c ≡ true → c < 128
unfolding is_ascii_alphanumeric
alphanumeric-ascii c h = ground arith

-- A text whose characters are ASCII is its bytes.
as_bytes-ascii :
    (p : ℕ → Bool) (v : Text) → ((c : ℕ) → p c ≡ true → c < 128) → Each p v → as_bytes v ≡ v
unfolding as_bytes Each
as_bytes-ascii p [] h e = refl
as_bytes-ascii p (c ∷ cs) h (hc, hs) = ground (arith, h c hc, as_bytes-ascii p cs h hs)

form-ascii : (name : Text) → IsOfForm queue_name_form name → as_bytes name ≡ name
unfolding queue_name_form
form-ascii name form =
    as_bytes-ascii queue_name_form.characters name
      (λ c h. elim (Bool-cases (is_ascii_alphanumeric c)) [
        | inl e ↦ alphanumeric-ascii c e
        | inr e ↦ ground (arith, e)
      ])
      form.contains

check-new :
    (name : Text) (q : Bytes)
    → new name ≡ ok q
    → (check queue_name_form name ≡ none) × (q ≡ as_bytes name)
unfolding new
check-new name q h = elim (Option-cases (check queue_name_form name)) [
  | inl e ↦ (e, ground (arith, e))
  | inr (x, e) ↦ ground (arith, e)
]

-- A queue name that is accepted is kept as its characters: from 1 to 255 of them, so its length fits
-- the length byte of a key.
pub new-fits :
    (name : Text) (q : Bytes) → new name ≡ ok q → (q ≡ name) × (0 < length q) × (length q < 256)
unfolding queue_name_form
new-fits name q h =
    let (e, p) = check-new name q h in
    let form = (check_lem queue_name_form name).0 e in
    let (c, cs, v, m) = form.starts in
    let same = form-ascii name form in
    (p ∙ same, ground (arith, v, p, same), ground (arith, p, form.fits))

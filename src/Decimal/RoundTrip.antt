-- ===== src/Decimal/RoundTrip.antt =====
-- The text of a number is read back as the number.
use native.Mathlib.Nat.{pow-suc}
use taquba.Base.{
  ℕ, zero, suc, ◌≡◌, ◌<◌, ◌≤◌, ◌+◌, ◌-◌, ◌*◌, ◌/◌, ◌%◌, ◌^◌, refl, ◌⊎◌, inl, inr, [], ◌∷◌, ◌++◌,
  some, arith, ltb, leb, true, Bool-cases, subst, ◌∙◌, ap, sym,
}
use taquba.Bytes.{Bytes}
use taquba.Int.{ℤ, pos, negsuc}
use taquba.Decimal.{digits, digits_value, nonempty_value, to_string, parse_i64, positive, negative}

digits_value-snoc :
    (acc : ℕ) (xs : Bytes) (m d : ℕ)
    → digits_value acc xs ≡ some m
    → d < 10
    → digits_value acc (xs ++ (b'0' + d) ∷ []) ≡ some (m * 10 + d)
unfolding digits_value
digits_value-snoc acc [] m d h k = ground (arith, h)
digits_value-snoc acc (c ∷ cs) m d h k =
    ground (arith, h, digits_value-snoc (acc * 10 + (c - b'0')) cs m d)

one_digit : (n : ℕ) → n < 10 → digits_value 0 ((b'0' + n) ∷ []) ≡ some n
unfolding digits_value
one_digit n h = ground arith

pub quotient_lt : (f n : ℕ) → n < 10 ^ suc (suc f) → n / 10 < 10 ^ suc f
quotient_lt f n h = below (10 ^ suc f) (subst (λ p. n < p) (pow-suc 10 (suc f)) h)
  where
    below : (p : ℕ) → n < p * 10 → n / 10 < p
    below p k = omega arith

digits_value-digits : (f n : ℕ) → n < 10 ^ suc f → digits_value 0 (digits f n) ≡ some n
unfolding digits
digits_value-digits zero n h = one_digit n h
digits_value-digits (suc f) n h = elim (Bool-cases (ltb n 10)) [
  | inl e ↦ rw e (one_digit n (ground (arith, e)))
  | inr e ↦ rw e (
      digits_value-snoc 0 (digits f (n / 10)) (n / 10) (n % 10)
        (digits_value-digits f (n / 10) (quotient_lt f n h)) (ground arith)
      ∙ ap (λ m. some m) (omega arith))
]

-- The first byte of digits is a digit.
digits-front :
    (f n : ℕ) → n < 10 ^ suc f → (c : ℕ) × (cs : Bytes) × (digits f n ≡ c ∷ cs) × (b'0' ≤ c)
unfolding digits
digits-front zero n h = (b'0' + n, [], refl, omega arith)
digits-front (suc f) n h = elim (Bool-cases (ltb n 10)) [
  | inl e ↦ (b'0' + n, [], rw e, omega arith)
  | inr e ↦
      let (c, cs, p, k) = digits-front f (n / 10) (quotient_lt f n h) in
      (c, cs ++ (b'0' + n % 10) ∷ [], rw (e, p), k)
]

parse_i64-digits :
    (c : ℕ) (cs : Bytes) → b'0' ≤ c → parse_i64 (c ∷ cs) ≡ positive (digits_value 0 (c ∷ cs))
unfolding parse_i64
parse_i64-digits c cs k = ground arith

-- The text of an integer is read back as the integer, over the whole range of an `i64`.
pub parse_i64-to_string :
    (z : ℤ) → (n : ℕ) → (z ≡ pos n) ⊎ (z ≡ negsuc n) → n < 2 ^ 63 → parse_i64 (to_string z) ≡ some z
unfolding to_string parse_i64
parse_i64-to_string z n (inl e) h =
    let (c, cs, p, k) = digits-front 19 n (ground arith) in
    let v = digits_value-digits 19 n (ground arith) in
    rw e (
      ap parse_i64 p
      ∙ parse_i64-digits c cs k
      ∙ ap positive (sym (ap (digits_value 0) p) ∙ v)
      ∙ rw (in_range n h))
  where
    in_range : (n : ℕ) → n < 2 ^ 63 → ltb n (2 ^ 63) ≡ true
    in_range n h = ground arith
parse_i64-to_string z n (inr e) h =
    let (c, cs, p, k) = digits-front 19 (suc n) (ground arith) in
    let v = digits_value-digits 19 (suc n) (ground arith) in
    rw e (
      ap (λ x. negative (nonempty_value x)) p
      ∙ ap negative (sym (ap (digits_value 0) p) ∙ v)
      ∙ rw (in_range n h))
  where
    in_range : (n : ℕ) → n < 2 ^ 63 → leb (suc n) (2 ^ 63) ≡ true
    in_range n h = ground arith

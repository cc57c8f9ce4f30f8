-- ===== src/Bytes/Order.antt =====
-- The order of byte strings is a strict total order, and equality of slices is equality.
use taquba.Base.{◌≡◌, refl, inl, inr, true, false, [], ◌∷◌, arith, Bool-cases}
use taquba.Bytes.{Bytes, bytes_eq, bytes_lt}

pub bytes_eq_refl : (a : Bytes) → bytes_eq a a ≡ true
unfolding bytes_eq
bytes_eq_refl [] = refl
bytes_eq_refl (x ∷ xs) = ground (arith, bytes_eq_refl xs)

pub eq_of_bytes_eq : (a b : Bytes) → bytes_eq a b ≡ true → a ≡ b
unfolding bytes_eq
eq_of_bytes_eq [] [] h = refl
eq_of_bytes_eq [] (y ∷ ys) h = cc
eq_of_bytes_eq (x ∷ xs) [] h = cc
eq_of_bytes_eq (x ∷ xs) (y ∷ ys) h = ground (arith, eq_of_bytes_eq xs ys)

pub bytes_lt_irrefl : (a : Bytes) → bytes_lt a a ≡ false
unfolding bytes_lt
bytes_lt_irrefl [] = refl
bytes_lt_irrefl (x ∷ xs) = ground (arith, bytes_lt_irrefl xs)

pub bytes_lt_trans :
    (a b c : Bytes) → bytes_lt a b ≡ true → bytes_lt b c ≡ true → bytes_lt a c ≡ true
unfolding bytes_lt
bytes_lt_trans [] [] c h k = cc
bytes_lt_trans [] (y ∷ ys) [] h k = cc
bytes_lt_trans [] (y ∷ ys) (z ∷ zs) h k = refl
bytes_lt_trans (x ∷ xs) [] c h k = cc
bytes_lt_trans (x ∷ xs) (y ∷ ys) [] h k = cc
bytes_lt_trans (x ∷ xs) (y ∷ ys) (z ∷ zs) h k = ground (arith, bytes_lt_trans xs ys zs)

-- Of two byte strings that are not ordered either way, both are the same.
pub bytes_lt_total : (a b : Bytes) → bytes_lt a b ≡ false → bytes_lt b a ≡ false → a ≡ b
unfolding bytes_lt
bytes_lt_total [] [] h k = refl
bytes_lt_total [] (y ∷ ys) h k = cc
bytes_lt_total (x ∷ xs) [] h k = cc
bytes_lt_total (x ∷ xs) (y ∷ ys) h k = ground (arith, bytes_lt_total xs ys)

-- `a ≤ b < c` gives `a < c`.
pub bytes_le_lt_trans :
    (a b c : Bytes) → bytes_lt b a ≡ false → bytes_lt b c ≡ true → bytes_lt a c ≡ true
bytes_le_lt_trans a b c h k = elim (Bool-cases (bytes_lt a b)) [
  | inl e ↦ bytes_lt_trans a b c e k
  | inr e ↦ rw (bytes_lt_total a b e h) k
]

-- `a < b ≤ c` gives `a < c`.
pub bytes_lt_le_trans :
    (a b c : Bytes) → bytes_lt a b ≡ true → bytes_lt c b ≡ false → bytes_lt a c ≡ true
bytes_lt_le_trans a b c h k = elim (Bool-cases (bytes_lt b c)) [
  | inl e ↦ bytes_lt_trans a b c h e
  | inr e ↦ rw (← bytes_lt_total b c e k) h
]

-- `a < b` excludes `b < a`.
pub bytes_lt_asymm : (a b : Bytes) → bytes_lt a b ≡ true → bytes_lt b a ≡ false
bytes_lt_asymm a b h = elim (Bool-cases (bytes_lt b a)) [
  | inl e ↦ cc (bytes_lt_trans a b a h e, bytes_lt_irrefl a)
  | inr e ↦ e
]

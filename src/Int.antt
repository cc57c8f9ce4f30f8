-- ===== src/Int.antt =====
-- The counters' `i64`, as an integer.
use taquba.Base.{ℕ, zero, suc, Bool, true, false}

-- `negsuc n` is -(n + 1).
pub data ℤ : Type 0 where
  pos : ℕ → ℤ
  negsuc : ℕ → ℤ

abbrev pub add_one : ℤ → ℤ
add_one (pos n) = pos (suc n)
add_one (negsuc zero) = pos 0
add_one (negsuc (suc n)) = negsuc n

abbrev pub sub_one : ℤ → ℤ
sub_one (pos zero) = negsuc 0
sub_one (pos (suc n)) = pos n
sub_one (negsuc n) = negsuc (suc n)

abbrev up : ℕ → ℤ → ℤ
up zero x = x
up (suc n) x = add_one (up n x)

abbrev down : ℕ → ℤ → ℤ
down zero x = x
down (suc n) x = sub_one (down n x)

abbrev pub add : ℤ → ℤ → ℤ
add x (pos n) = up n x
add x (negsuc n) = down (suc n) x

abbrev pub is_zero : ℤ → Bool
is_zero (pos zero) = true
is_zero (pos (suc n)) = false
is_zero (negsuc n) = false

-- ===== src/Bytes/BigEndian.antt =====
-- Big-endian bytes keep the order of the integers and decode to them.
use native.Mathlib.Nat.{pow-suc, div-add-mod, mod-lt}
use taquba.Base.{
  ℕ, zero, suc, ◌+◌, ◌*◌, ◌/◌, ◌%◌, ◌^◌, ◌<◌, ◌≡◌, refl, sym, ap, ◌∙◌, ◌++◌, arith, ltb, ◌==◌, ◌&&◌,
  ◌||◌, length,
}
use taquba.Bytes.{Bytes, bytes_lt, be_bytes, from_be}

pub length-be_bytes : (w n : ℕ) → length (be_bytes w n) ≡ w
unfolding be_bytes
length-be_bytes zero n = refl
length-be_bytes (suc w) n = omega (arith, length-be_bytes w (n % 256 ^ w))

pow_pos : (w : ℕ) → 0 < 256 ^ w
pow_pos zero = omega arith
pow_pos (suc w) = rw pow-suc (omega (arith, pow_pos w))

lt_of_div : (p n m : ℕ) → 0 < p → n / p < m / p → n < m
lt_of_div p n m h k = grind arith

same_div : (p n m : ℕ) → n / p ≡ m / p → n + m % p ≡ m + n % p
same_div p n m e = omega (arith, div-add-mod n p, div-add-mod m p, ap (λ (t : ℕ). p * t) e)

-- The order of two numbers, read from the leading digit first.
ltb-digits :
    (p n m : ℕ) → 0 < p → ltb n m ≡ (ltb (n / p) (m / p) || (n / p == m / p && ltb (n % p) (m % p)))
ltb-digits p n m h = ground (arith, lt_of_div p n m, lt_of_div p m n, same_div p n m)

eq-digits : (p n m : ℕ) → (n == m) ≡ (n / p == m / p && n % p == m % p)
eq-digits p n m = ground (arith, same_div p n m)

digit_small : (w n : ℕ) → n < 256 ^ suc w → n / 256 ^ w % 256 ≡ n / 256 ^ w
digit_small w n h = let k : n < 256 ^ w * 256 = rw (← pow-suc) h in grind arith

-- The digits of the leading place.
pub bytes_lt-be_bytes :
    (w n m : ℕ) (xs ys : Bytes)
    → n < 256 ^ w
    → m < 256 ^ w
    → bytes_lt (be_bytes w n ++ xs) (be_bytes w m ++ ys) ≡ (ltb n m || (n == m && bytes_lt xs ys))
unfolding be_bytes bytes_lt
bytes_lt-be_bytes zero n m xs ys hn hm = ground arith
bytes_lt-be_bytes (suc w) n m xs ys hn hm = ground (
  arith,
  pow_pos w,
  digit_small w n,
  digit_small w m,
  mod-lt n (pow_pos w),
  mod-lt m (pow_pos w),
  ltb-digits (256 ^ w) n m,
  eq-digits (256 ^ w) n m,
  bytes_lt-be_bytes w (n % 256 ^ w) (m % 256 ^ w) xs ys,
)

place : (acc p n : ℕ) → (acc * 256 + n / p) * p + n % p ≡ acc * (p * 256) + n
place acc p n = grind (arith, div-add-mod n p)

-- Reading the bytes of a number back gives the number.
pub from_be-be_bytes : (w acc n : ℕ) → n < 256 ^ w → from_be acc (be_bytes w n) ≡ acc * 256 ^ w + n
unfolding be_bytes from_be
from_be-be_bytes zero acc n h = omega arith
from_be-be_bytes (suc w) acc n h =
    rw (digit_small w n h, from_be-be_bytes w (acc * 256 + n / 256 ^ w) _ (mod-lt n (pow_pos w)))
      (place acc (256 ^ w) n ∙ ap (λ t. acc * t + n) (sym (pow-suc 256 w)))

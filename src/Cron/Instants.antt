-- ===== src/Cron/Instants.antt =====
-- The watermark of an occurrence is read back as the occurrence.
use taquba.Base.{
  ℕ, zero, suc, ◌≡◌, ◌<◌, ◌≤◌, ◌⊎◌, ◌+◌, ◌/◌, ◌%◌, ◌^◌, refl, inl, inr, Bool, true, [], ◌∷◌, ◌++◌,
  some, arith, leb, ltb, ◌&&◌, Bool-cases,
}
use taquba.Bytes.{Bytes}
use taquba.Bytes.Utf8.{is_utf8, is_rest}
use taquba.Int.{ℤ, pos, negsuc}
use taquba.Decimal.{digits, to_string}
use taquba.Decimal.RoundTrip.{parse_i64-to_string, quotient_lt}
use taquba.Cron.{Chrono, IsI64, parse_watermark}

unfoldable is_ascii : Bytes → Bool
is_ascii [] = true
is_ascii (c ∷ cs) = leb c 0x7F && is_ascii cs

is_utf8-ascii : (v : Bytes) → is_ascii v ≡ true → is_utf8 v ≡ true
unfolding is_ascii is_utf8 is_rest
is_utf8-ascii [] h = refl
is_utf8-ascii (c ∷ cs) h = ground (arith, h, is_utf8-ascii cs)

is_ascii-snoc : (v : Bytes) (c : ℕ) → is_ascii v ≡ true → c ≤ 0x7F → is_ascii (v ++ c ∷ []) ≡ true
unfolding is_ascii
is_ascii-snoc [] c h k = ground arith
is_ascii-snoc (x ∷ xs) c h k = ground (arith, h, is_ascii-snoc xs c)

is_ascii-digits : (f n : ℕ) → n < 10 ^ suc f → is_ascii (digits f n) ≡ true
unfolding digits is_ascii
is_ascii-digits zero n h = ground arith
is_ascii-digits (suc f) n h = elim (Bool-cases (ltb n 10)) [
  | inl e ↦ rw e (ground (arith, e))
  | inr e ↦ rw e (
      is_ascii-snoc (digits f (n / 10)) (b'0' + n % 10)
        (is_ascii-digits f (n / 10) (quotient_lt f n h)) (omega arith))
]

IsI64-cases : (z : ℤ) → IsI64 z → (n : ℕ) × (n < 2 ^ 63) × ((z ≡ pos n) ⊎ (z ≡ negsuc n))
unfolding IsI64
IsI64-cases (pos n) h = (n, h, inl refl)
IsI64-cases (negsuc n) h = (n, h, inr refl)

module _ (time : Chrono) where
  is_utf8-to_string :
      (z : ℤ) (n : ℕ) → (z ≡ pos n) ⊎ (z ≡ negsuc n) → n < 2 ^ 63 → is_utf8 (to_string z) ≡ true
  unfolding to_string is_ascii
  is_utf8-to_string z n (inl e) h =
      is_utf8-ascii (to_string z) (rw e (is_ascii-digits 19 n (ground arith)))
  is_utf8-to_string z n (inr e) h =
      is_utf8-ascii (to_string z) (rw e (is_ascii-digits 19 (suc n) (ground arith)))

  -- The text of the milliseconds of a whole second is read back as the instant, before and after the
  -- epoch.
  pub parse_watermark-timestamp_millis :
      (at : ℕ)
      → at % 1000000000 ≡ 0
      → at ≤ time.max_utc
      → parse_watermark time (to_string (time.timestamp_millis at)) ≡ some at
  unfolding parse_watermark
  parse_watermark-timestamp_millis at whole fits =
      let (n, h, cases) =
        IsI64-cases (time.timestamp_millis at) (time.timestamp_millis-IsI64 at fits) in
      rw (
        parse_watermark,
        is_utf8-to_string (time.timestamp_millis at) n cases h,
        parse_i64-to_string (time.timestamp_millis at) n cases h,
        time.from_timestamp_millis-timestamp_millis at whole fits,
      )

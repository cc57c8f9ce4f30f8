-- ===== src/Options/Backoff.antt =====
-- The delay before a retry.
use taquba.Base.{
  ◌≡◌, ◌≤◌, ◌==◌, ℕ, zero, suc, ◌-◌, ◌*◌, ◌^◌, min, arith, leb, inl, inr, Bool-cases, true, false,
}
use taquba.Options.{backoff_delay, duration_max}

mul_le : (a b c : ℕ) → b ≤ c → a * b ≤ a * c
mul_le zero b c h = ground arith
mul_le (suc a) b c h = ground (arith, mul_le a b c h)

-- The cap of the multiplier does not show when the maximum is reached within it.
capped :
    (base p cap d max : ℕ)
    → max ≤ d
    → max ≤ base * cap
    → min (min (base * min p cap) d) max ≡ min (base * p) max
capped base p cap d max fits reached = elim (Bool-cases (leb p cap)) [
  | inl e ↦ rw (small p cap e) (ground arith)
  | inr e ↦ rw (large p cap e) (ground (arith, mul_le base cap p (ground (arith, e))))
]
  where
    small : (p cap : ℕ) → leb p cap ≡ true → min p cap ≡ p
    small p cap e = ground arith

    large : (p cap : ℕ) → leb p cap ≡ false → min p cap ≡ cap
    large p cap e = ground arith

-- The delay is the exponential one, `min(base * 2^(attempts - 1), max)`, on every attempt, when the
-- maximum is a duration, and is reached within the range of the multiplier.
pub backoff_delay_lem :
    (attempts base max : ℕ)
    → max ≤ duration_max
    → max ≤ base * 4294967295
    → backoff_delay attempts base max ≡ min (base * 2 ^ (attempts - 1)) max
unfolding backoff_delay
backoff_delay_lem attempts zero max fits reached = ground arith
backoff_delay_lem attempts (suc base) max fits reached =
    rw nonzero (capped (suc base) (2 ^ (attempts - 1)) 4294967295 duration_max max fits reached)
  where
    nonzero : (suc base == 0) ≡ false
    nonzero = ground arith

-- ===== src/TimeBound.antt =====
-- taquba/src/time_bound.rs: the lower bound on the times of a time-ordered key space. Each atomic
-- operation is one step of `TimeBound.Steps`, so `begin` is two.
pub mod Steps
pub mod Coverage
mod Tests
use taquba.Base.{
  ℕ, ◌+◌, ◌-◌, ◌^◌, Bool, true, false, not, Option, none, some, leb, if◌then◌else◌, min,
}

abbrev pub u64_max : ℕ
u64_max = 2 ^ 64 - 1

-- The new bound.
abbrev pub new : ℕ
new = 0

unfoldable pub lower : ℕ → ℕ → ℕ
lower bound at_ms = min bound at_ms

-- `saturating_add` stops at the largest value.
abbrev pub is_due : ℕ → ℕ → ℕ → Bool
is_due at_ms now_ms retention_ms = leb (min (at_ms + retention_ms) u64_max) now_ms

pub record Scan : Type 0 where
  pub now_ms : ℕ
  pub retention_ms : ℕ
  pub from : ℕ
  pub retained : ℕ
  pub completed : Bool

-- The scan, and the bound that `swap` leaves. `loaded` is the bound that `load` returns, and `swapped`
-- the one that `swap` returns, which another operation may have changed in between.
unfoldable pub begin : ℕ → ℕ → ℕ → ℕ → Option (Scan × ℕ)
begin loaded swapped now_ms retention_ms =
    if not (is_due loaded now_ms retention_ms)
    then none
    else some (
      record {
        now_ms = now_ms;
        retention_ms = retention_ms;
        from = swapped;
        retained = u64_max;
        completed = false;
      },
      u64_max,
    )

abbrev pub due : Scan → ℕ → Bool
due scan at_ms = is_due at_ms scan.now_ms scan.retention_ms

unfoldable pub retain : Scan → ℕ → Scan
retain scan at_ms = record scan { retained = min scan.retained at_ms }

-- The bound after the drop of a scan.
unfoldable pub drop : ℕ → Scan → ℕ
drop bound scan = min bound (if scan.completed then scan.retained else scan.from)

-- `complete` sets the flag and drops the scan.
unfoldable pub complete : ℕ → Scan → ℕ
unfolding drop
complete bound scan = drop bound (record scan { completed = true })

-- ===== src/ClaimCursor/Steps/Invariant.antt =====
-- The invariant of the claim state, over every interleaving.
use taquba.Base.{ℕ, ◌≤◌, ◌<◌, ◌≡◌, ◌⊎◌, true, false, some}
use taquba.Bytes.{Bytes, bytes_lt}
use taquba.ClaimCursor.State.{QueueClaimState, ClaimScanStart, known_empty}
use taquba.ClaimCursor.Steps.{
  in_any, yields, Phase, idle, begun, scanning, committed, advanced, World,
}
use taquba.ClaimCursor.Steps.Bound.{MovedBack, Ahead}

-- A live key whose insert is noted.
abbrev pub Noted : World → Bytes → Type 0
Noted w k = (w.live k ≡ true) × (in_any k w.unnoted ≡ false)

-- What a claim's observation still says of the claim state.
pub record Observed (c : QueueClaimState) (obs : ClaimScanStart) : Type 0 where
  pub earlier : obs.epoch ≤ c.epoch
  pub bound : MovedBack c.scan_from obs.scan_from ⊎ (c.scan_from ≡ obs.scan_from)
  pub same : c.epoch ≡ obs.epoch → c.scan_from ≡ obs.scan_from

-- The key was noted after the observation, in a way that the claim will see.
abbrev pub Since : QueueClaimState → ClaimScanStart → Bytes → Type 0
Since c obs k =
    (obs.epoch < c.epoch) × (MovedBack c.scan_from obs.scan_from ⊎ Ahead c.min_insert_ahead k)

-- What holds of the keys `N` in each phase of a claim.
abbrev pub PhaseInv : QueueClaimState → (Bytes → Type 0) → Phase → Type 0
PhaseInv c N idle = Unit {0}
PhaseInv c N (begun obs) = Observed c obs
PhaseInv c N (scanning obs snap) =
    Observed c obs × ((k : Bytes) → N k → (snap k ≡ true) ⊎ Since c obs k)
PhaseInv c N (committed obs key drained) =
    Observed c obs
    × ((k : Bytes) → N k → ((bytes_lt key k ≡ true) × (drained ≡ false)) ⊎ Since c obs k)
PhaseInv c N (advanced obs drained) =
    (obs.epoch ≤ c.epoch) × (drained ≡ true → c.epoch ≡ obs.epoch → (k : Bytes) → ¬ N k)

pub record CursorInv (c : QueueClaimState) (N : Bytes → Type 0) : Type 0 where
  -- A scan from the bound reads every key.
  pub bounded : (k : Bytes) → N k → yields c.scan_from k ≡ true
  -- A queue that is known to be empty has no key.
  pub empty : known_empty c ≡ true → (k : Bytes) → ¬ N k
  pub marked : (e : ℕ) → c.empty_as_of ≡ some e → e ≤ c.epoch

pub record Inv (w : World) : Type 0 where
  pub cursor_inv : CursorInv w.cursor (Noted w)
  pub phase_inv : PhaseInv w.cursor (Noted w) w.phase

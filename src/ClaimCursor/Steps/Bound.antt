-- ===== src/ClaimCursor/Steps/Bound.antt =====
-- How the bound, the emptiness marker and the key ahead of the bound change, one operation each.
use taquba.Base.{
  ◌≡◌, refl, ◌⊎◌, inl, inr, Bool, true, false, not, ◌&&◌, ◌||◌, Option, none, some, arith,
}
use taquba.Bytes.{Bytes, bytes_eq, bytes_lt}
use taquba.Bytes.Order.{
  bytes_eq_refl, eq_of_bytes_eq, bytes_lt_trans, bytes_lt_irrefl, bytes_lt_total, bytes_le_lt_trans,
  bytes_lt_le_trans,
}
use taquba.ClaimCursor.State.{ScanFrom, scan_from_eq, clamp, include_min_key, lower_ahead}
use taquba.ClaimCursor.Steps.{yields}

abbrev pub behind : ScanFrom → ScanFrom → Bool
behind a b = bytes_lt a.key b.key || (bytes_eq a.key b.key && (a.inclusive && not b.inclusive))

-- The bound moved back from the one that a claim observed.
abbrev pub MovedBack : Option ScanFrom → Option ScanFrom → Type 0
MovedBack none o = ⊥
MovedBack (some a) none = Unit {0}
MovedBack (some a) (some b) = behind a b ≡ true

-- A key at or after the smallest key inserted ahead of the bound.
abbrev pub Ahead : Option Bytes → Bytes → Type 0
Ahead none k = ⊥
Ahead (some m) k = bytes_lt k m ≡ false

pub eq_of_scan_from_eq : (a b : Option ScanFrom) → scan_from_eq a b ≡ true → a ≡ b
eq_of_scan_from_eq none none h = refl
eq_of_scan_from_eq none (some b) h = cc
eq_of_scan_from_eq (some a) none h = cc
eq_of_scan_from_eq (some a) (some b) h = ground (arith, eq_of_bytes_eq a.key b.key)

pub not-MovedBack : (a b : Option ScanFrom) → scan_from_eq a b ≡ true → ¬ MovedBack a b
not-MovedBack none none h m = m
not-MovedBack none (some b) h m = m
not-MovedBack (some a) none h m = cc
not-MovedBack (some a) (some b) h m =
    ground (arith, eq_of_bytes_eq a.key b.key, bytes_lt_irrefl a.key)

pub scan_from_eq_refl : (a : Option ScanFrom) → scan_from_eq a a ≡ true
scan_from_eq_refl none = refl
scan_from_eq_refl (some a) = ground (arith, bytes_eq_refl a.key)

abbrev pub at_key : Bytes → ScanFrom
at_key k = record { key = k; inclusive = true }

-- An insert that the bound skips moves it back, from wherever a claim observed it.
pub include-MovedBack :
    (s o : Option ScanFrom) (e : Bool) (k : Bytes)
    → include_min_key s e k ≡ true
    → (MovedBack s o ⊎ (s ≡ o))
    → MovedBack (some (at_key k)) o
include-MovedBack none none e k h m = tt
include-MovedBack none (some b) e k h (inl m) = absurd m
include-MovedBack none (some b) e k h (inr m) = cc
include-MovedBack (some a) none e k h m = tt
include-MovedBack (some a) (some b) e k h (inl m) = ground (
  arith,
  bytes_lt_trans k a.key b.key,
  eq_of_bytes_eq k a.key,
  eq_of_bytes_eq a.key b.key,
  bytes_eq_refl b.key,
)
include-MovedBack (some a) (some b) e k h (inr m) = ground arith

-- A scan from the key itself reads it and every later key.
pub yields-at_key : (k j : Bytes) → bytes_lt j k ≡ false → yields (some (at_key k)) j ≡ true
yields-at_key k j h = ground (arith, bytes_lt_total k j, bytes_eq_refl k)

-- The bound that moved back reads all that it read before.
pub yields-include :
    (sf : ScanFrom) (e : Bool) (k j : Bytes)
    → include_min_key (some sf) e k ≡ true
    → yields (some sf) j ≡ true
    → yields (some (at_key k)) j ≡ true
yields-include sf e k j h y = ground (
  arith,
  bytes_lt_trans k sf.key j,
  eq_of_bytes_eq k sf.key,
  eq_of_bytes_eq sf.key j,
  bytes_eq_refl k,
)

-- A bound that stays reads the keys from the new one on.
pub yields-not_include :
    (s : Option ScanFrom) (e : Bool) (k j : Bytes)
    → include_min_key s e k ≡ false
    → bytes_lt j k ≡ false
    → yields s j ≡ true
yields-not_include none e k j h l = refl
yields-not_include (some sf) e k j h l = ground (
  arith,
  bytes_lt_total k sf.key,
  bytes_eq_refl k,
  bytes_lt_le_trans sf.key k j,
  bytes_lt_total k j,
)

pub Ahead-lower :
    (m : Option Bytes) (k j : Bytes) → bytes_lt j k ≡ false → Ahead (some (lower_ahead m k)) j
Ahead-lower none k j h = h
Ahead-lower (some m) k j h = ground (arith, bytes_lt_le_trans j m k, bytes_lt_irrefl j)

pub Ahead-lower_kept :
    (m : Option Bytes) (k j : Bytes) → Ahead m j → Ahead (some (lower_ahead m k)) j
Ahead-lower_kept none k j h = absurd h
Ahead-lower_kept (some m) k j h = ground (arith, bytes_lt_trans j k m)

-- The bound that `advance` sets reads every key behind the claimed one, and every key recorded
-- ahead of the bound.
pub yields-clamp :
    (m : Option Bytes) (claimed k : Bytes)
    → ((bytes_lt claimed k ≡ true) ⊎ Ahead m k)
    → yields (some (clamp m claimed)) k ≡ true
yields-clamp none claimed k (inl h) = ground arith
yields-clamp none claimed k (inr h) = absurd h
yields-clamp (some m) claimed k (inl h) = ground (arith, bytes_le_lt_trans m claimed k)
yields-clamp (some m) claimed k (inr h) =
    ground (arith, bytes_lt_le_trans claimed m k, bytes_lt_total m k, bytes_eq_refl m)

-- The bound that an insert moves back reads all that it read before, if an unknown bound moves only
-- where nothing is to be read.
pub yields-include_any :
    (s : Option ScanFrom) (e : Bool) (k j : Bytes)
    → include_min_key s e k ≡ true
    → ¬ (e ≡ true)
    → yields s j ≡ true
    → yields (some (at_key k)) j ≡ true
yields-include_any none e k j h ne y = absurd (ne h)
yields-include_any (some sf) e k j h ne y = yields-include sf e k j h y

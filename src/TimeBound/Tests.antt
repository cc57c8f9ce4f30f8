-- ===== src/TimeBound/Tests.antt =====
-- A key space with one key.
use taquba.Base.{◌≡◌, refl, true, false, ◌||◌, [], ◌∷◌, some, leb}
use taquba.Bytes.{bytes_eq}
use taquba.TimeBound.{Scan, begin, due, u64_max}
use taquba.TimeBound.Steps.{Key, key_eq, World, Reach, begun, opened, next, loads, swaps}
use taquba.TimeBound.Coverage.{covered, Noted, bound_covers_keys, due_key_begins_scan}

abbrev one_key : Key
one_key = (5, [])

abbrev at_open : World
at_open = record { bound = 0; live = λ k. key_eq one_key k; unnoted = []; begins = []; scans = [] }

at_open-Noted : Noted at_open one_key
unfolding bytes_eq
at_open-Noted = (refl, refl)

abbrev first_scan : Scan
first_scan = record {
  now_ms = 7;
  retention_ms = 1;
  from = 0;
  retained = u64_max;
  completed = false;
}

-- Two calls of `begin` loaded the bound, and one of them swapped.
abbrev in_scan : World
in_scan = record at_open { bound = u64_max; begins = (0, 7, 1) ∷ []; scans = begun first_scan ∷ [] }

in_scan-Reach : Reach in_scan
unfolding begin
in_scan-Reach =
    next (next (next (opened (λ k. key_eq one_key k)) (loads 7 1 refl)) (loads 7 1 refl))
      (swaps [] ((0, 7, 1) ∷ []) 0 7 1 u64_max first_scan refl refl refl)

in_scan-Noted : Noted in_scan one_key
unfolding bytes_eq
in_scan-Noted = (refl, refl)

bound_covers_keys_example : (leb in_scan.bound 5 || covered in_scan.scans one_key) ≡ true
bound_covers_keys_example = bound_covers_keys in_scan one_key in_scan-Reach in_scan-Noted

due_key_begins_scan_example :
    (scan : Scan) × (begin 0 0 7 1 ≡ some (scan, u64_max))
    × (leb scan.from 5 ≡ true)
    × (due scan 5 ≡ true)
due_key_begins_scan_example =
    due_key_begins_scan at_open at_open one_key 7 1 (opened (λ k. key_eq one_key k))
      (opened (λ k. key_eq one_key k)) at_open-Noted at_open-Noted refl refl refl

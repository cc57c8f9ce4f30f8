-- ===== src/ClaimCursor/Steps/Collect.antt =====
-- What the candidate loop of a claim takes from its scan.
use taquba.Base.{ℕ, zero, suc, ◌≡◌, refl, ◌⊎◌, true, false, List, [], ◌∷◌, arith}
use taquba.Bytes.{Bytes, bytes_lt}
use taquba.Bytes.Order.{eq_of_bytes_eq, bytes_lt_trans}
use taquba.ClaimCursor.Steps.{mem, collect, last_of, IsAscending}

-- A scan that ran out gave all its keys.
pub collect_drained :
    (n : ℕ) (iter : List Bytes) → (collect n iter).1 ≡ true → (collect n iter).0 ≡ iter
unfolding collect
collect_drained zero iter h = cc
collect_drained (suc n) [] h = refl
collect_drained (suc n) (k ∷ iter) h = ground (arith, collect_drained n iter)

pub ascending_above :
    (k j : Bytes) (iter : List Bytes)
    → IsAscending (k ∷ iter)
    → mem j iter ≡ true
    → bytes_lt k j ≡ true
ascending_above k j [] a h = cc
ascending_above k j (i ∷ iter) a h =
    ground (arith, eq_of_bytes_eq j i, ascending_above i j iter a.1, bytes_lt_trans k i j)

IsAscending-tail : (k : Bytes) (iter : List Bytes) → IsAscending (k ∷ iter) → IsAscending iter
IsAscending-tail k [] a = tt
IsAscending-tail k (i ∷ iter) a = a.1

-- A key of the scan is a candidate, or comes after every candidate in a scan that did not run out.
pub collect_splits :
    (n : ℕ) (iter : List Bytes) (k first : Bytes) (more : List Bytes)
    → IsAscending iter
    → (collect n iter).0 ≡ first ∷ more
    → mem k iter ≡ true
    → (mem k (first ∷ more) ≡ true)
      ⊎ ((bytes_lt (last_of first more) k ≡ true) × ((collect n iter).1 ≡ false))
unfolding collect
collect_splits zero iter k first more a e h = cc
collect_splits (suc n) [] k first more a e h = cc
collect_splits (suc zero) (i ∷ iter) k first [] a e h = ground (arith, ascending_above i k iter a)
collect_splits (suc zero) (i ∷ iter) k first (x ∷ xs) a e h = cc
collect_splits (suc (suc n)) (i ∷ []) k first [] a e h = ground arith
collect_splits (suc (suc n)) (i ∷ (y ∷ ys)) k first [] a e h = cc
collect_splits (suc (suc n)) (i ∷ iter) k first (x ∷ xs) a e h = ground (
  arith,
  collect_splits (suc n) iter k x xs (IsAscending-tail i iter a),
  ascending_above i k iter a,
)

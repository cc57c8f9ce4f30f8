-- ===== src/LeaseRegistry/ExpirySet.antt =====
-- `BTreeSet<(u64, QueueName, String)>` as an ascending list: the view of the leases by expiry.
use taquba.Base.{
  ℕ, ◌≤◌, ◌≡◌, refl, Bool, true, false, not, ◌&&◌, ◌||◌, List, [], ◌∷◌, arith, ltb, leb, ◌==◌,
  if◌then◌else◌, Bool-cases, inl, inr,
}
use taquba.Bytes.{Bytes, bytes_eq, bytes_lt}
use taquba.Bytes.Order.{eq_of_bytes_eq, bytes_eq_refl, bytes_lt_total, bytes_lt_trans}
use taquba.Map.{pair_beq, pair_beq_iff}

abbrev pub Expiry : Type 0
Expiry = ℕ × (Bytes × Bytes)

abbrev pub Expiries : Type 0
Expiries = List Expiry

unfoldable pub expiry_eq : Expiry → Expiry → Bool
expiry_eq (s, j) (t, k) = s == t && pair_beq j k

-- `<` of tuples.
unfoldable pub expiry_lt : Expiry → Expiry → Bool
expiry_lt (s, (q, i)) (t, (r, j)) =
    ltb s t || (s == t && (bytes_lt q r || (bytes_eq q r && bytes_lt i j)))

unfoldable pub insert : Expiry → Expiries → Expiries
insert x [] = x ∷ []
insert x (y ∷ ys) =
    let rest = insert x ys in
    if expiry_lt x y then x ∷ (y ∷ ys) else if expiry_eq x y then y ∷ ys else y ∷ rest

unfoldable pub remove : Expiry → Expiries → Expiries
remove x [] = []
remove x (y ∷ ys) = let rest = remove x ys in if expiry_eq x y then rest else y ∷ rest

-- `take_while(|(expires_at, ..)| *expires_at <= now)`.
unfoldable pub due_keys : ℕ → Expiries → Expiries
due_keys now [] = []
due_keys now ((t, key) ∷ ys) =
    let rest = due_keys now ys in if leb t now then (t, key) ∷ rest else []

abbrev pub contains : Expiry → Expiries → Bool
contains x [] = false
contains x (y ∷ ys) = expiry_eq x y || contains x ys

abbrev pub IsAscending : Expiries → Type 0
IsAscending [] = Unit {0}
IsAscending (x ∷ []) = Unit {0}
IsAscending (x ∷ (y ∷ ys)) = (expiry_lt x y ≡ true) × IsAscending (y ∷ ys)

pub eq_of_expiry_eq : (x y : Expiry) → expiry_eq x y ≡ true → x ≡ y
unfolding expiry_eq
eq_of_expiry_eq (s, j) (t, k) h = ground (arith, (pair_beq_iff j k).0)

pub expiry_eq_refl : (x : Expiry) → expiry_eq x x ≡ true
unfolding expiry_eq pair_beq
expiry_eq_refl (s, (q, i)) = ground (arith, bytes_eq_refl q, bytes_eq_refl i)

expiry_lt_total :
    (x y : Expiry) → expiry_lt x y ≡ false → expiry_eq x y ≡ false → expiry_lt y x ≡ true
unfolding expiry_eq expiry_lt pair_beq
expiry_lt_total (s, (q, i)) (t, (r, j)) h k =
    ground (arith, bytes_lt_total q r, bytes_lt_total i j, bytes_eq_refl q, bytes_eq_refl i)

expiry_lt_trans :
    (x y z : Expiry) → expiry_lt x y ≡ true → expiry_lt y z ≡ true → expiry_lt x z ≡ true
unfolding expiry_lt
expiry_lt_trans (s, (q, i)) (t, (r, j)) (u, (v, k)) h l = ground (
  arith,
  bytes_lt_trans q r v,
  bytes_lt_trans i j k,
  eq_of_bytes_eq q r,
  eq_of_bytes_eq r v,
  bytes_eq_refl v,
)

pub contains-insert :
    (x y : Expiry) (ys : Expiries) → contains x (insert y ys) ≡ (expiry_eq x y || contains x ys)
unfolding insert
contains-insert x y [] = refl
contains-insert x y (z ∷ zs) = ground (arith, contains-insert x y zs, eq_of_expiry_eq y z)

pub contains-remove :
    (x y : Expiry) (ys : Expiries)
    → contains x (remove y ys) ≡ (not (expiry_eq x y) && contains x ys)
unfolding remove
contains-remove x y [] = ground arith
contains-remove x y (z ∷ zs) =
    ground (arith, contains-remove x y zs, eq_of_expiry_eq y z, eq_of_expiry_eq x y)

-- The entry comes before the set.
abbrev Before : Expiry → Expiries → Type 0
Before x [] = Unit {0}
Before x (y ∷ ys) = expiry_lt x y ≡ true

IsAscending-cons :
    (x : Expiry) (ys : Expiries) → Before x ys → IsAscending ys → IsAscending (x ∷ ys)
IsAscending-cons x [] b a = tt
IsAscending-cons x (y ∷ ys) b a = (b, a)

IsAscending-uncons :
    (x : Expiry) (ys : Expiries) → IsAscending (x ∷ ys) → Before x ys × IsAscending ys
IsAscending-uncons x [] a = (tt, tt)
IsAscending-uncons x (y ∷ ys) a = a

Before-insert :
    (x y : Expiry) (ys : Expiries) → expiry_lt x y ≡ true → Before x ys → Before x (insert y ys)
unfolding insert
Before-insert x y [] l b = l
Before-insert x y (z ∷ zs) l b = ground arith

pub insert-IsAscending : (x : Expiry) (ys : Expiries) → IsAscending ys → IsAscending (insert x ys)
unfolding insert
insert-IsAscending x [] a = tt
insert-IsAscending x (y ∷ ys) a = elim (Bool-cases (expiry_lt x y)) [
  | inl l ↦ rw l (l, a)
  | inr l ↦ elim (Bool-cases (expiry_eq x y)) [
    | inl e ↦ rw (l, e) a
    | inr e ↦
        let (b, tail) = IsAscending-uncons y ys a in
        rw (l, e)
          (IsAscending-cons y (insert x ys) (Before-insert y x ys (expiry_lt_total x y l e) b)
            (insert-IsAscending x ys tail))
  ]
]

Before-remove :
    (x y : Expiry) (ys : Expiries) → Before x ys → IsAscending ys → Before x (remove y ys)
unfolding remove
Before-remove x y [] b a = tt
Before-remove x y (z ∷ zs) b a = elim (Bool-cases (expiry_eq y z)) [
  | inl e ↦ rw e (
      Before-remove x y zs (skipped zs (IsAscending-uncons z zs a).0) (IsAscending-uncons z zs a).1)
  | inr e ↦ rw e b
]
  where
    skipped : (us : Expiries) → Before z us → Before x us
    skipped [] h = tt
    skipped (u ∷ us) h = expiry_lt_trans x z u b h

pub remove-IsAscending : (x : Expiry) (ys : Expiries) → IsAscending ys → IsAscending (remove x ys)
unfolding remove
remove-IsAscending x [] a = tt
remove-IsAscending x (y ∷ ys) a =
    let (b, tail) = IsAscending-uncons y ys a in
    elim (Bool-cases (expiry_eq x y)) [
      | inl e ↦ rw e (remove-IsAscending x ys tail)
      | inr e ↦ rw e (
          IsAscending-cons y (remove x ys) (Before-remove y x ys b tail)
            (remove-IsAscending x ys tail))
    ]

expiry_lt-le : (x y : Expiry) → expiry_lt x y ≡ true → x.0 ≤ y.0
unfolding expiry_lt
expiry_lt-le (s, (q, i)) (t, (r, j)) h = ground arith

ascending_floor :
    (x y : Expiry) (ys : Expiries) → IsAscending (y ∷ ys) → contains x (y ∷ ys) ≡ true → y.0 ≤ x.0
ascending_floor x y [] a h = ground (arith, eq_of_expiry_eq x y)
ascending_floor x y (z ∷ zs) a h =
    ground (arith, eq_of_expiry_eq x y, ascending_floor x z zs a.1, expiry_lt-le y z)

-- The due keys are the entries of the set at or before the time, in the set's order.
pub contains-due_keys :
    (now : ℕ) (x : Expiry) (ys : Expiries)
    → IsAscending ys
    → contains x (due_keys now ys) ≡ (leb x.0 now && contains x ys)
unfolding due_keys
contains-due_keys now x [] a = ground arith
contains-due_keys now x ((t, key) ∷ ys) a = ground (
  arith,
  contains-due_keys now x ys (IsAscending-uncons (t, key) ys a).1,
  ascending_floor x (t, key) ys a,
  eq_of_expiry_eq x (t, key),
)

pub due_keys-IsAscending :
    (now : ℕ) (ys : Expiries) → IsAscending ys → IsAscending (due_keys now ys)
unfolding due_keys
due_keys-IsAscending now [] a = tt
due_keys-IsAscending now ((t, key) ∷ ys) a = elim (Bool-cases (leb t now)) [
  | inr e ↦ rw e tt
  | inl e ↦
      let (before, rest) = IsAscending-uncons (t, key) ys a in
      rw e (
        IsAscending-cons (t, key) (due_keys now ys) (still ys before)
          (due_keys-IsAscending now ys rest))
]
  where
    still : (us : Expiries) → Before (t, key) us → Before (t, key) (due_keys now us)
    still [] h = tt
    still ((u, k) ∷ us) h = elim (Bool-cases (leb u now)) [ inl e ↦ rw e h | inr e ↦ rw e tt ]

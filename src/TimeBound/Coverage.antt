-- ===== src/TimeBound/Coverage.antt =====
-- The bound never passes a live key that a scan does not have in hand.
use taquba.Base.{
  ℕ, ◌≡◌, ◌≤◌, refl, sym, ap, ◌∙◌, subst, inl, inr, Bool, true, false, not, ◌&&◌, ◌||◌, List, [],
  ◌∷◌, ◌++◌, some, arith, leb, Bool-cases,
}
use taquba.TimeBound.{Scan, begin, due, is_due, retain, lower, drop, complete, u64_max}
use taquba.TimeBound.Steps.{
  Key, mem, in_any, read_due, InOrder, Running, begun, handling, scan_of, World, Step, Reach,
  insert, delete, note, loads, declines, swaps, reads, removes, keeps, completes, drops, opened,
  next,
}

-- Whether a scan has a key in hand: it lowers the bound to the key, or handles it, before it ends.
abbrev pub covers : Running → Key → Bool
covers (begun scan) k = not scan.completed && leb scan.from k.0
covers (handling scan keys) k =
    not scan.completed && leb scan.from k.0 && (leb scan.retained k.0 || mem k keys)

abbrev pub covered : List Running → Key → Bool
covered [] k = false
covered (r ∷ rs) k = covers r k || covered rs k

-- A live key for which its writer has lowered the bound.
abbrev pub Noted : World → Key → Type 0
Noted w k = (w.live k ≡ true) × (in_any k w.unnoted ≡ false)

covered-append :
    (rs ss : List Running) (k : Key) → covered (rs ++ ss) k ≡ (covered rs k || covered ss k)
covered-append [] ss k = refl
covered-append (r ∷ rs) ss k = ground (arith, covered-append rs ss k)

in_any-append :
    (xs ys : List (List Key)) (k : Key) → in_any k (xs ++ ys) ≡ (in_any k xs || in_any k ys)
in_any-append [] ys k = refl
in_any-append (ks ∷ xs) ys k = ground (arith, in_any-append xs ys k)

-- The read of a scan finds each key that it lists due, or retains a time at or before it.
read_due-covers :
    (scan : Scan) (keys : List Key) (k : Key)
    → InOrder keys
    → mem k keys ≡ true
    → (leb (read_due scan keys).0.retained k.0 || mem k (read_due scan keys).1) ≡ true
unfolding read_due retain
read_due-covers scan [] k o h = ground arith
read_due-covers scan ((t, x) ∷ keys) (u, y) (first, rest) h =
    ground (arith, read_due-covers scan keys (u, y) rest, first (u, y))

read_due-kept :
    (scan : Scan) (keys : List Key)
    → ((read_due scan keys).0.from ≡ scan.from)
      × ((read_due scan keys).0.completed ≡ scan.completed)
unfolding read_due retain
read_due-kept scan [] = (refl, refl)
read_due-kept scan ((t, x) ∷ keys) =
    (ground (arith, read_due-kept scan keys), ground (arith, read_due-kept scan keys))

-- Each live key whose bound is lowered is at or after the bound, or in the hands of a scan.
abbrev pub Inv : World → Type 0
Inv w = (k : Key) → Noted w k → (leb w.bound k.0 || covered w.scans k) ≡ true

-- Replacing a scan by one that covers what it covered keeps the rest.
replaced :
    (before after : List Running) (r s : Running) (k : Key)
    → (covers r k ≡ true → covers s k ≡ true)
    → covered (before ++ (r ∷ after)) k ≡ true
    → covered (before ++ (s ∷ after)) k ≡ true
replaced before after r s k h c =
    ground (arith, covered-append before (r ∷ after) k, covered-append before (s ∷ after) k, h)

-- Ending a scan keeps the rest, when the bound is lowered to what it covered.
ended :
    (before after : List Running) (r : Running) (bound left : ℕ) (k : Key)
    → left ≤ bound
    → (covers r k ≡ true → leb left k.0 ≡ true)
    → (leb bound k.0 || covered (before ++ (r ∷ after)) k) ≡ true
    → (leb left k.0 || covered (before ++ after) k) ≡ true
ended before after r bound left k low h c =
    ground (arith, covered-append before (r ∷ after) k, covered-append before after k, h)

started :
    (loaded bound now_ms retention_ms left : ℕ) (scan : Scan) (scans : List Running) (k : Key)
    → begin loaded bound now_ms retention_ms ≡ some (scan, left)
    → (leb bound k.0 || covered scans k) ≡ true
    → (leb left k.0 || covered (begun scan ∷ scans) k) ≡ true
unfolding begin
started loaded bound now_ms retention_ms left scan scans k q c = ground (arith, q, c)

read-covers :
    (scan : Scan) (keys : List Key) (k : Key)
    → InOrder keys
    → covers (begun scan) k ≡ true
    → (leb scan.from k.0 ≡ true → mem k keys ≡ true)
    → covers (handling (read_due scan keys).0 (read_due scan keys).1) k ≡ true
read-covers scan keys k o c h =
    rw
      (
        (read_due-kept scan keys).0,
        (read_due-kept scan keys).1,
        read_due-covers scan keys k o (h (ground (arith, c))),
      )
      (ground (arith, c))

keep-covers :
    (scan : Scan) (key : Key) (keys : List Key) (k : Key)
    → covers (handling scan (key ∷ keys)) k ≡ true
    → covers (handling (retain scan key.0) keys) k ≡ true
unfolding retain
keep-covers scan (t, x) keys (u, y) c = ground arith

complete_low : (bound : ℕ) (scan : Scan) → complete bound scan ≤ bound
unfolding complete
complete_low bound scan = ground arith

drop_low : (bound : ℕ) (scan : Scan) → drop bound scan ≤ bound
unfolding drop
drop_low bound scan = ground arith

complete-covers :
    (bound : ℕ) (scan : Scan) (k : Key)
    → covers (handling scan []) k ≡ true
    → leb (complete bound scan) k.0 ≡ true
unfolding complete
complete-covers bound scan k c = ground arith

drop-covers :
    (bound : ℕ) (running : Running) (k : Key)
    → covers running k ≡ true
    → leb (drop bound (scan_of running)) k.0 ≡ true
unfolding drop
drop-covers bound (begun scan) k c = ground arith
drop-covers bound (handling scan keys) k c = ground arith

at_scans :
    (bound : ℕ) (scans rs : List Running) (k : Key)
    → scans ≡ rs
    → (leb bound k.0 || covered scans k) ≡ true
    → (leb bound k.0 || covered rs k) ≡ true
at_scans bound scans rs k q c = subst (λ rs. (leb bound k.0 || covered rs k) ≡ true) q c

kept :
    (bound : ℕ) (scans before after : List Running) (r s : Running) (k : Key)
    → scans ≡ before ++ (r ∷ after)
    → (covers r k ≡ true → covers s k ≡ true)
    → (leb bound k.0 || covered scans k) ≡ true
    → (leb bound k.0 || covered (before ++ (s ∷ after)) k) ≡ true
kept bound scans before after r s k q h c =
    ground
      (arith, at_scans bound scans (before ++ (r ∷ after)) k q c, replaced before after r s k h)

step-Inv : {w v : World} → Step w v → Inv w → Inv v
unfolding begin lower retain
step-Inv {w} (insert keys e) i =
    subst Inv (sym e) (λ k (live, noted). ground (arith, i k, live, noted))
step-Inv {w} (delete keys e) i =
    subst Inv (sym e) (λ k (live, noted). ground (arith, i k, live, noted))
step-Inv {w} (note before after keys at_ms q earliest e) i = subst Inv (sym e) (λ k (live, noted).
    elim (Bool-cases (mem k keys)) [
      | inl m ↦ ground (arith, earliest k m)
      | inr m ↦ ground (
        arith,
        i k (
          live,
          ap (in_any k) q
              ∙ in_any-append before (keys ∷ after) k
              ∙ ground (arith, m, noted, in_any-append before after k),
        ),
      )
    ])
step-Inv {w} (loads now_ms retention_ms e) i = subst Inv (sym e) i
step-Inv {w} (declines before after loaded swapped now_ms retention_ms p q e) i =
    subst Inv (sym e) i
step-Inv {w} (swaps before after loaded now_ms retention_ms bound scan p q e) i =
    subst Inv (sym e) (λ k (live, noted).
      started loaded w.bound now_ms retention_ms bound scan w.scans k q (i k (live, noted)))
step-Inv {w} (reads before after scan keys q listing e) i = subst Inv (sym e) (λ k (live, noted).
    kept w.bound w.scans before after (begun scan)
      (handling (read_due scan keys).0 (read_due scan keys).1) k q
      (λ c.
        read-covers scan keys k listing.in_order c
          (λ low. listing.lists k ∙ ground (arith, live, low)))
      (i k (live, noted)))
step-Inv {w} (removes before after scan key keys q e) i = subst Inv (sym e) (λ k (live, noted).
    kept w.bound w.scans before after (handling scan (key ∷ keys)) (handling scan keys) k q
      (λ c. ground (arith, c, live)) (i k (ground (arith, live), noted)))
step-Inv {w} (keeps before after scan key keys q e) i = subst Inv (sym e) (λ k (live, noted).
    kept w.bound w.scans before after (handling scan (key ∷ keys))
      (handling (retain scan key.0) keys) k q (keep-covers scan key keys k) (i k (live, noted)))
step-Inv {w} (completes before after scan q e) i = subst Inv (sym e) (λ k (live, noted).
    ended before after (handling scan []) w.bound (complete w.bound scan) k
      (complete_low w.bound scan) (complete-covers w.bound scan k)
      (at_scans w.bound w.scans _ k q (i k (live, noted))))
step-Inv {w} (drops before after running q e) i = subst Inv (sym e) (λ k (live, noted).
    ended before after running w.bound (drop w.bound (scan_of running)) k
      (drop_low w.bound (scan_of running)) (drop-covers w.bound running k)
      (at_scans w.bound w.scans _ k q (i k (live, noted))))

Reach-Inv : {w : World} → Reach w → Inv w
Reach-Inv (opened live) = λ k n. ground arith
Reach-Inv (next r s) = step-Inv s (Reach-Inv r)

-- In every world that the process reaches, a live key whose writer has lowered the bound is at or after
-- the bound, or a running scan has it in hand: the scan began at or before the time of the key, and it
-- has not read yet, has the key among those it handles, or has retained a time at or before the key.
pub bound_covers_keys :
    (w : World) (k : Key) → Reach w → Noted w k → (leb w.bound k.0 || covered w.scans k) ≡ true
bound_covers_keys w k r n = Reach-Inv r k n

-- A live key whose writer has lowered the bound and which is due makes a scan begin: a begin returns a
-- scan that starts at or before the time of the key and finds the key due, when no scan runs at its
-- load or at its swap, whatever the process does between the two.
pub due_key_begins_scan :
    (w v : World) (k : Key) (now_ms retention_ms : ℕ)
    → Reach w
    → Reach v
    → Noted w k
    → Noted v k
    → w.scans ≡ []
    → v.scans ≡ []
    → is_due k.0 now_ms retention_ms ≡ true
    → (scan : Scan) × (begin w.bound v.bound now_ms retention_ms ≡ some (scan, u64_max))
      × (leb scan.from k.0 ≡ true)
      × (due scan k.0 ≡ true)
unfolding begin
due_key_begins_scan w v k now_ms retention_ms r s n m idle still d = (
  record {
    now_ms = now_ms;
    retention_ms = retention_ms;
    from = v.bound;
    retained = u64_max;
    completed = false;
  },
  rw (begin, bound_due),
  low v s m still,
  d,
)
  where
    low : (u : World) → Reach u → Noted u k → u.scans ≡ [] → leb u.bound k.0 ≡ true
    low u r n idle = ground (arith, bound_covers_keys u k r n, ap (λ rs. covered rs k) idle)

    bound_due : is_due w.bound now_ms retention_ms ≡ true
    bound_due = ground (arith, low w r n idle, d)

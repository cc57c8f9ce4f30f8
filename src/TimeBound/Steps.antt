-- ===== src/TimeBound/Steps.antt =====
-- The scans of a time-ordered key space and the writers of its keys, in any interleaving: the loop of
-- taquba/src/scheduler.rs (`promote_due_jobs`), over the bound. Any number of scans may run at once.
use taquba.Base.{
  ℕ, ◌≡◌, Bool, true, false, not, ◌&&◌, ◌||◌, List, [], ◌∷◌, ◌++◌, none, some, leb, ◌==◌,
  if◌then◌else◌,
}
use taquba.Bytes.{Bytes, bytes_eq}
use taquba.TimeBound.{Scan, begin, due, retain, lower, drop, complete}

-- A key is its time and the rest of it.
abbrev pub Key : Type 0
Key = ℕ × Bytes

abbrev pub key_eq : Key → Key → Bool
key_eq (t, a) (u, b) = t == u && bytes_eq a b

abbrev pub mem : Key → List Key → Bool
mem k [] = false
mem k (j ∷ ks) = key_eq j k || mem k ks

abbrev pub in_any : Key → List (List Key) → Bool
in_any k [] = false
in_any k (ks ∷ batches) = mem k ks || in_any k batches

-- The loop of a scan over the keys that it reads: the due keys, up to the first that is not due, whose
-- time is retained.
unfoldable pub read_due : Scan → List Key → Scan × List Key
read_due scan [] = (scan, [])
read_due scan ((t, k) ∷ keys) =
    let (rest, found) = read_due scan keys in
    if due scan t then (rest, (t, k) ∷ found) else (retain scan t, [])

-- The times do not decrease.
abbrev pub InOrder : List Key → Type 0
InOrder [] = Unit
InOrder (k ∷ ks) = ((j : Key) → mem j ks ≡ true → leb k.0 j.0 ≡ true) × InOrder ks

-- What the read of a snapshot from a time returns.
pub record IsListing (live : Key → Bool) (from : ℕ) (keys : List Key) : Type 0 where
  pub lists : (k : Key) → mem k keys ≡ (live k && leb from k.0)
  pub in_order : InOrder keys

-- A scan before its read, and one with the due keys that are left to handle.
pub data Running : Type 0 where
  begun : Scan → Running
  handling : Scan → List Key → Running

abbrev pub scan_of : Running → Scan
scan_of (begun scan) = scan
scan_of (handling scan _) = scan

pub record World : Type 0 where
  pub bound : ℕ
  pub live : Key → Bool
  -- The batches of keys that are committed and for which the bound is not lowered yet.
  pub unnoted : List (List Key)
  -- The calls of `begin` between the load and the swap: the bound that was loaded, the time and the
  -- retention.
  pub begins : List (ℕ × ℕ × ℕ)
  pub scans : List Running

pub data Step (w : World) (v : World) : Type 0 where
  insert :
      (keys : List Key)
      → v ≡ record w { live = λ k. mem k keys || w.live k; unnoted = keys ∷ w.unnoted }
      → Step w v
  delete : (keys : List Key) → v ≡ record w { live = λ k. not (mem k keys) && w.live k } → Step w v
  -- The bound is lowered to the earliest time of a batch.
  note :
      (before after : List (List Key)) (keys : List Key) (at_ms : ℕ)
      → w.unnoted ≡ before ++ (keys ∷ after)
      → ((k : Key) → mem k keys ≡ true → leb at_ms k.0 ≡ true)
      → v ≡ record w { bound = lower w.bound at_ms; unnoted = before ++ after }
      → Step w v
  loads :
      (now_ms retention_ms : ℕ)
      → v ≡ record w { begins = (w.bound, now_ms, retention_ms) ∷ w.begins }
      → Step w v
  -- The load showed that no key can be due.
  declines :
      (before after : List (ℕ × ℕ × ℕ)) (loaded swapped now_ms retention_ms : ℕ)
      → w.begins ≡ before ++ ((loaded, now_ms, retention_ms) ∷ after)
      → begin loaded swapped now_ms retention_ms ≡ none
      → v ≡ record w { begins = before ++ after }
      → Step w v
  swaps :
      (before after : List (ℕ × ℕ × ℕ)) (loaded now_ms retention_ms bound : ℕ) (scan : Scan)
      → w.begins ≡ before ++ ((loaded, now_ms, retention_ms) ∷ after)
      → begin loaded w.bound now_ms retention_ms ≡ some (scan, bound)
      → v ≡ record w { bound = bound; begins = before ++ after; scans = begun scan ∷ w.scans }
      → Step w v
  reads :
      (before after : List Running) (scan : Scan) (keys : List Key)
      → w.scans ≡ before ++ (begun scan ∷ after)
      → IsListing w.live scan.from keys
      → v ≡ record w {
        scans = before ++ (handling (read_due scan keys).0 (read_due scan keys).1 ∷ after);
      }
      → Step w v
  -- A due key is removed by its transaction, or is gone already.
  removes :
      (before after : List Running) (scan : Scan) (key : Key) (keys : List Key)
      → w.scans ≡ before ++ (handling scan (key ∷ keys) ∷ after)
      → v ≡ record w {
        live = λ k. not (key_eq key k) && w.live k;
        scans = before ++ (handling scan keys ∷ after);
      }
      → Step w v
  -- A due key is kept, and its time retained.
  keeps :
      (before after : List Running) (scan : Scan) (key : Key) (keys : List Key)
      → w.scans ≡ before ++ (handling scan (key ∷ keys) ∷ after)
      → v ≡ record w { scans = before ++ (handling (retain scan key.0) keys ∷ after) }
      → Step w v
  completes :
      (before after : List Running) (scan : Scan)
      → w.scans ≡ before ++ (handling scan [] ∷ after)
      → v ≡ record w { bound = complete w.bound scan; scans = before ++ after }
      → Step w v
  -- A scan that fails, or whose caller drops it.
  drops :
      (before after : List Running) (running : Running)
      → w.scans ≡ before ++ (running ∷ after)
      → v ≡ record w { bound = drop w.bound (scan_of running); scans = before ++ after }
      → Step w v

-- The worlds reached from the open of a store with these keys.
pub data Reach : World → Type 0 where
  opened :
      (live : Key → Bool)
      → Reach (record { bound = 0; live = live; unnoted = []; begins = []; scans = [] })
  next : {w v : World} → Reach w → Step w v → Reach v

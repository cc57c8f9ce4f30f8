-- ===== src/ClaimCursor/Steps.antt =====
-- taquba/src/queue_core/claim.rs, `claim_batch_locked`, run beside the other transactions of the
-- process on one queue: a step relation over the live pending keys and the claim state. A commit
-- and the note that follows it are two steps, and so are the read of the scan state, the snapshot,
-- the commit of a claim and its two updates of the claim state. The claim lock admits one claim at
-- a time. The store is the set of live keys. What is assumed of it stands in the premise `IsScan`: a
-- scan returns the keys that are live in its snapshot, from the bound, in order. A claim may commit
-- whatever other transactions wrote since its snapshot, so no conflict detection is assumed.
pub mod Bound
pub mod Collect
pub mod Invariant
pub mod Note
pub mod Preserved
use taquba.Base.{
  ℕ, zero, suc, ◌+◌, ◌^◌, ◌<◌, ◌≡◌, Bool, true, false, not, ◌&&◌, ◌||◌, List, [], ◌∷◌, ◌++◌, Option,
  none, some, if◌then◌else◌,
}
use taquba.Bytes.{Bytes, bytes_eq, bytes_lt}
use taquba.ClaimCursor.State.{ScanFrom, QueueClaimState, ClaimScanStart, known_empty}
use taquba.ClaimCursor.State

abbrev pub mem : Bytes → List Bytes → Bool
mem k [] = false
mem k (x ∷ xs) = bytes_eq k x || mem k xs

-- A key of one of the batches.
abbrev pub in_any : Bytes → List (List Bytes) → Bool
in_any k [] = false
in_any k (b ∷ bs) = mem k b || in_any k bs

-- Whether a scan that starts at the bound reads the key.
abbrev pub yields : Option ScanFrom → Bytes → Bool
yields none k = true
yields (some sf) k = bytes_lt sf.key k || (sf.inclusive && bytes_eq sf.key k)

-- The loop that takes up to `n` keys of the scan, and whether the scan ran out first.
unfoldable pub collect : ℕ → List Bytes → List Bytes × Bool
collect zero iter = ([], false)
collect (suc n) [] = ([], true)
collect (suc n) (k ∷ iter) = let (candidates, drained) = collect n iter in (k ∷ candidates, drained)

-- The key of the last candidate.
abbrev pub last_of : Bytes → List Bytes → Bytes
last_of k [] = k
last_of k (x ∷ xs) = last_of x xs

abbrev pub IsAscending : List Bytes → Type 0
IsAscending [] = Unit {0}
IsAscending (k ∷ []) = Unit {0}
IsAscending (k ∷ (j ∷ ks)) = (bytes_lt k j ≡ true) × IsAscending (j ∷ ks)

pub record IsScan (snapshot : Bytes → Bool) (bound : Option ScanFrom) (iter : List Bytes)
    : Type 0 where
  pub reads : (k : Bytes) → mem k iter ≡ (snapshot k && yields bound k)
  pub ascending : IsAscending iter

-- Where the claim that holds the lock is.
pub data Phase : Type 0 where
  idle : Phase
  begun : ClaimScanStart → Phase
  scanning : ClaimScanStart → (Bytes → Bool) → Phase
  committed : ClaimScanStart → Bytes → Bool → Phase
  advanced : ClaimScanStart → Bool → Phase

pub record World : Type 0 where
  pub cursor : QueueClaimState
  pub live : Bytes → Bool
  -- The batches of pending keys that are committed and not noted yet.
  pub unnoted : List (List Bytes)
  pub phase : Phase

pub record IsLeast (key : Bytes) (keys : List Bytes) : Type 0 where
  pub within : mem key keys ≡ true
  pub least : (k : Bytes) → mem k keys ≡ true → bytes_lt k key ≡ false

-- `mark_empty` when the scan ran out.
abbrev pub mark_drained : Bool → QueueClaimState → ClaimScanStart → QueueClaimState
mark_drained true s obs = State.mark_empty s obs
mark_drained false s obs = s

pub data Step (w : World) (v : World) : Type 0 where
  -- A transaction that writes pending keys commits.
  insert :
      (keys : List Bytes)
      → v ≡ record w { live = λ k. mem k keys || w.live k; unnoted = keys ∷ w.unnoted }
      → Step w v
  -- A transaction that deletes pending keys commits: a cancel, a claim by id.
  delete :
      (keys : List Bytes) → v ≡ record w { live = λ k. not (mem k keys) && w.live k } → Step w v
  -- The note of a committed batch.
  note :
      (before after : List (List Bytes)) (keys : List Bytes) (min_key : Bytes)
      → w.unnoted ≡ before ++ (keys ∷ after)
      → IsLeast min_key keys
      → w.cursor.epoch + 1 < 2 ^ 64
      → v ≡ record w {
        cursor = State.note_pending_inserts w.cursor min_key;
        unnoted = before ++ after;
      }
      → Step w v
  -- A claim reads the scan state. It goes on if the queue is not known to be empty.
  begin :
      w.phase ≡ idle
      → (State.begin_claim w.cursor).known_empty ≡ false
      → v ≡ record w { phase = begun (State.begin_claim w.cursor) }
      → Step w v
  snapshot :
      (obs : ClaimScanStart)
      → w.phase ≡ begun obs
      → v ≡ record w { phase = scanning obs w.live }
      → Step w v
  -- The scan ends without a key.
  found_none :
      (obs : ClaimScanStart) (snap : Bytes → Bool)
      → w.phase ≡ scanning obs snap
      → IsScan snap obs.scan_from []
      → v ≡ record w { cursor = State.mark_empty w.cursor obs; phase = idle }
      → Step w v
  -- The claim of the first `max_jobs` keys of the scan commits.
  commit :
      (obs : ClaimScanStart) (snap : Bytes → Bool) (max_jobs : ℕ) (iter : List Bytes)
      (first : Bytes) (more : List Bytes) (drained : Bool)
      → w.phase ≡ scanning obs snap
      → IsScan snap obs.scan_from iter
      → collect max_jobs iter ≡ (first ∷ more, drained)
      → v ≡ record w {
        live = λ k. not (mem k (first ∷ more)) && w.live k;
        phase = committed obs (last_of first more) drained;
      }
      → Step w v
  advance :
      (obs : ClaimScanStart) (key : Bytes) (drained : Bool)
      → w.phase ≡ committed obs key drained
      → v ≡ record w { cursor = State.advance w.cursor key obs; phase = advanced obs drained }
      → Step w v
  finish :
      (obs : ClaimScanStart) (drained : Bool)
      → w.phase ≡ advanced obs drained
      → v ≡ record w { cursor = mark_drained drained w.cursor obs; phase = idle }
      → Step w v
  -- A conflict, an error, or a claim whose caller drops it.
  abandon : v ≡ record w { phase = idle } → Step w v

pub data Reach (w : World) : World → Type 0 where
  here : Reach w w
  next : {u v : World} → Reach w u → Step u v → Reach w v

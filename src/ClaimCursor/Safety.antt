-- ===== src/ClaimCursor/Safety.antt =====
-- What the claim cursor promises to the claims of a queue, from the open of the store on.
use taquba.Base.{
  ℕ, suc, ◌≡◌, refl, sym, ◌∙◌, inl, inr, Bool, true, false, List, [], ◌∷◌, none, some, arith,
  Bool-cases, ◌≤◌,
}
use taquba.Bytes.{Bytes, bytes_eq, bytes_lt}
use taquba.Bytes.Order.{eq_of_bytes_eq, bytes_lt_irrefl, bytes_lt_asymm}
use taquba.ClaimCursor.Steps.Collect.{ascending_above}
use taquba.ClaimCursor.State.{ScanFrom, QueueClaimState, CursorState, default, known_empty}
use taquba.ClaimCursor.State
use taquba.ClaimCursor.Steps.{mem, yields, collect, IsAscending, IsScan, idle, World, Reach}
use taquba.ClaimCursor.Steps.Invariant.{Noted, Inv}
use taquba.ClaimCursor.Steps.Preserved.{Reach-Inv}

-- A store that is opened with these pending keys.
abbrev pub opened : (Bytes → Bool) → World
opened live = record { cursor = default; live = live; unnoted = []; phase = idle }

opened-Inv : (live : Bytes → Bool) → Inv (opened live)
opened-Inv live = record {
  cursor_inv = record { bounded = λ k n. refl; empty = λ e k n. cc; marked = λ e h. cc };
  phase_inv = tt;
}

-- `persist_cursor_state` at a clean close and `restore_cursor_state` at the next open, for one queue.
unfoldable pub reopened : QueueClaimState → QueueClaimState
reopened s = elim (State.export s) [ none ↦ default | some state ↦ State.restore default state ]

-- The two fields of the restored state that a claim reads.
restored_state :
    (s : QueueClaimState)
    → ((reopened s).scan_from ≡ s.scan_from) × (known_empty (reopened s) ≡ known_empty s)
unfolding reopened State.export State.restore
restored_state s = (ground arith, ground arith)

restored_mark :
    (s : QueueClaimState) (e : ℕ) → (reopened s).empty_as_of ≡ some e → e ≤ (reopened s).epoch
unfolding reopened State.export State.restore
restored_mark s e h = ground arith

abbrev pub reopen : World → World
reopen w = record w { cursor = reopened w.cursor; phase = idle }

reopen-Inv : (w : World) → Inv w → Inv (reopen w)
reopen-Inv w i = record {
  cursor_inv = record {
    bounded = λ k n. rw (restored_state w.cursor).0 (i.cursor_inv.bounded k n);
    empty = λ e k n. i.cursor_inv.empty (sym (restored_state w.cursor).1 ∙ e) k n;
    marked = restored_mark w.cursor;
  };
  phase_inv = tt;
}

-- The worlds of the process: reached from an opened store, by any interleaving of the steps and any
-- number of clean closes. A note is a step while the counter of the inserts stays below 2^64.
pub data Life : World → Type 0 where
  fresh : (live : Bytes → Bool) → Life (opened live)
  run : {w v : World} → Life w → Reach w v → Life v
  closed : {w : World} → Life w → w.unnoted ≡ [] → Life (reopen w)

pub Life-Inv : {w : World} → Life w → Inv w
Life-Inv (fresh live) = opened-Inv live
Life-Inv (run l r) = Reach-Inv (Life-Inv l) r
Life-Inv (closed {w} l u) = reopen-Inv w (Life-Inv l)

-- No live pending key whose insert is noted is ever skipped: in every world that the process reaches,
-- whatever other transactions do between the steps of a claim and over any number of clean closes, a
-- scan from the bound of the queue reads the key.
pub scan_reads_every_key :
    (w : World) (k : Bytes) → Life w → Noted w k → yields w.cursor.scan_from k ≡ true
scan_reads_every_key w k l n = (Life-Inv l).cursor_inv.bounded k n

-- A queue that is reported as known to be empty has no live pending key whose insert is noted, in
-- every world that the process reaches.
pub known_empty_sound : (w : World) (k : Bytes) → Life w → known_empty w.cursor ≡ true → ¬ Noted w k
known_empty_sound w k l e n = (Life-Inv l).cursor_inv.empty e k n

head_least :
    (k f : Bytes) (iter : List Bytes)
    → IsAscending (f ∷ iter)
    → mem k (f ∷ iter) ≡ true
    → bytes_lt k f ≡ false
head_least k f iter a h = elim (Bool-cases (bytes_eq k f)) [
  | inl e ↦ rw (eq_of_bytes_eq k f e) (bytes_lt_irrefl f)
  | inr e ↦ bytes_lt_asymm f k (ascending_above f k iter a (ground arith))
]

in_scan :
    (w : World) (k : Bytes) (iter : List Bytes)
    → Life w
    → Noted w k
    → IsScan w.live w.cursor.scan_from iter
    → mem k iter ≡ true
in_scan w k iter l n scan = rw (scan.reads k, n.0) (scan_reads_every_key w k l n)

-- A claim that no other transaction disturbs, in a world that the process reaches, goes on while a
-- noted key is live, and the first job that it takes is the least noted key or one before it: it
-- returns at least one job for every batch size of at least one.
pub claim_takes_least :
    (w : World) (k : Bytes) (max_jobs : ℕ) (iter : List Bytes)
    → Life w
    → Noted w k
    → IsScan w.live w.cursor.scan_from iter
    → ((State.begin_claim w.cursor).known_empty ≡ false)
      × (first : Bytes) × (more : List Bytes) × ((collect (suc max_jobs) iter).0 ≡ first ∷ more)
      × (bytes_lt k first ≡ false)
unfolding State.begin_claim collect
claim_takes_least w k max_jobs [] l n scan = absurd (cc (in_scan w k [] l n scan))
claim_takes_least w k max_jobs (f ∷ iter) l n scan = (
  not_known,
  f,
  (collect max_jobs iter).0,
  refl,
  head_least k f iter scan.ascending (in_scan w k (f ∷ iter) l n scan),
)
  where
    not_known : known_empty w.cursor ≡ false
    not_known = elim (Bool-cases (known_empty w.cursor)) [
      | inl e ↦ absurd (known_empty_sound w k l e n)
      | inr e ↦ e
    ]

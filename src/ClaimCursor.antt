-- ===== src/ClaimCursor.antt =====
-- taquba/src/claim_cursor.rs: the claim state of each queue, in the memory of the process. A wakeup
-- is counted, and the claim lock is the rule of `ClaimCursor.Steps` that one claim runs at a time.
pub mod State
pub mod Steps
pub mod Safety
mod Tests
use taquba.Base.{ℕ, min, Bool, true, false, List, [], ◌∷◌, Option, none, some}
use taquba.Bytes.{Bytes}
use taquba.Map.{Map, bytes_Eq}
use taquba.Map
use State.{ScanFrom, QueueClaimState, ClaimScanStart, CursorState, default, known_empty}

abbrev pub max_insert_wakeups : ℕ
max_insert_wakeups = 64

-- The map of the queues.
abbrev pub ClaimCursor : Type 0
ClaimCursor = Map Bytes QueueClaimState

-- `entry(queue).or_default()`.
abbrev pub entry : ClaimCursor → Bytes → QueueClaimState
entry cursor queue = elim (Map.get queue cursor) [ none ↦ default | some s ↦ s ]

unfoldable pub begin_claim : ClaimCursor → Bytes → ClaimScanStart
unfolding State.begin_claim
begin_claim cursor queue = elim (Map.get queue cursor) [
  | none ↦ record { scan_from = none; epoch = 0; known_empty = false }
  | some s ↦ State.begin_claim s
]

unfoldable pub advance : ClaimCursor → Bytes → Bytes → ClaimScanStart → ClaimCursor
advance cursor queue claimed observed =
    Map.insert queue (State.advance (entry cursor queue) claimed observed) cursor

unfoldable pub mark_empty : ClaimCursor → Bytes → ClaimScanStart → ClaimCursor
mark_empty cursor queue observed =
    Map.insert queue (State.mark_empty (entry cursor queue) observed) cursor

unfoldable pub queue_known_empty : ClaimCursor → Bytes → Bool
queue_known_empty cursor queue = elim (Map.get queue cursor) [
  | none ↦ false
  | some s ↦ known_empty s
]

-- The new state, and the number of `notify_one` calls.
unfoldable pub note_pending_inserts : ClaimCursor → Bytes → Bytes → ℕ → ClaimCursor × ℕ
note_pending_inserts cursor queue min_key count = (
  Map.insert queue (State.note_pending_inserts (entry cursor queue) min_key) cursor,
  min count max_insert_wakeups,
)

unfoldable pub export : ClaimCursor → Map Bytes CursorState
export [] = []
export ((queue, s) ∷ cursor) =
    let rest = export cursor in
    elim (State.export s) [ none ↦ rest | some state ↦ (queue, state) ∷ rest ]

unfoldable pub restore : ClaimCursor → Bytes → CursorState → ClaimCursor
restore cursor queue state = Map.insert queue (State.restore (entry cursor queue) state) cursor

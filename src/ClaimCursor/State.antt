-- ===== src/ClaimCursor/State.antt =====
-- taquba/src/claim_cursor.rs: the claim state of one queue and the operations on it.
use taquba.Base.{
  ℕ, ◌+◌, ◌%◌, ◌^◌, Bool, true, false, not, ◌&&◌, ◌||◌, Option, none, some, ◌==◌, if◌then◌else◌,
}
use taquba.Bytes.{Bytes, bytes_eq, bytes_lt}

pub record ScanFrom : Type 0 where
  pub key : Bytes
  pub inclusive : Bool

pub record QueueClaimState : Type 0 where
  pub scan_from : Option ScanFrom
  pub epoch : ℕ  -- u64
  pub empty_as_of : Option ℕ
  pub min_insert_ahead : Option Bytes

abbrev pub default : QueueClaimState
default = record { scan_from = none; epoch = 0; empty_as_of = none; min_insert_ahead = none }

abbrev pub known_empty : QueueClaimState → Bool
known_empty s = elim s.empty_as_of [ none ↦ false | some e ↦ e == s.epoch ]

pub record ClaimScanStart : Type 0 where
  pub scan_from : Option ScanFrom
  pub epoch : ℕ
  pub known_empty : Bool

pub record CursorState : Type 0 where
  pub scan_from : Option ScanFrom
  pub known_empty : Bool

abbrev bool_eq : Bool → Bool → Bool
bool_eq true b = b
bool_eq false b = not b

-- `==` on `Option<ScanFrom>`.
abbrev pub scan_from_eq : Option ScanFrom → Option ScanFrom → Bool
scan_from_eq none none = true
scan_from_eq none (some b) = false
scan_from_eq (some a) none = false
scan_from_eq (some a) (some b) = bytes_eq a.key b.key && bool_eq a.inclusive b.inclusive

unfoldable pub begin_claim : QueueClaimState → ClaimScanStart
begin_claim s = record { scan_from = s.scan_from; epoch = s.epoch; known_empty = known_empty s }

-- The `match` on the smallest key inserted ahead of the bound.
abbrev pub clamp : Option Bytes → Bytes → ScanFrom
clamp none claimed = record { key = claimed; inclusive = false }
clamp (some ahead) claimed =
    if bytes_lt claimed ahead
    then record { key = claimed; inclusive = false }
    else record { key = ahead; inclusive = true }

unfoldable pub advance : QueueClaimState → Bytes → ClaimScanStart → QueueClaimState
advance s claimed observed =
    if scan_from_eq s.scan_from observed.scan_from
    then record s { scan_from = some (clamp s.min_insert_ahead claimed); min_insert_ahead = none }
    else s

unfoldable pub mark_empty : QueueClaimState → ClaimScanStart → QueueClaimState
mark_empty s observed = record s { empty_as_of = some observed.epoch }

-- Whether an insert of the key moves the bound back to it.
abbrev pub include_min_key : Option ScanFrom → Bool → Bytes → Bool
include_min_key none was_known_empty min_key = was_known_empty
include_min_key (some sf) was_known_empty min_key =
    bytes_lt min_key sf.key || (bytes_eq min_key sf.key && not sf.inclusive)

abbrev pub lower_ahead : Option Bytes → Bytes → Bytes
lower_ahead none key = key
lower_ahead (some ahead) key = if bytes_lt key ahead then key else ahead

unfoldable pub note_pending_inserts : QueueClaimState → Bytes → QueueClaimState
note_pending_inserts s min_key =
    let t = record s { epoch = (s.epoch + 1) % 2 ^ 64 } in
    if include_min_key s.scan_from (known_empty s) min_key
    then record t {
      scan_from = some (record { key = min_key; inclusive = true });
      min_insert_ahead = none;
    }
    else record t { min_insert_ahead = some (lower_ahead s.min_insert_ahead min_key) }

-- `none` where the queue is omitted from the export.
unfoldable pub export : QueueClaimState → Option CursorState
export s = elim s.scan_from [
  | none ↦
      if known_empty s then some (record { scan_from = s.scan_from; known_empty = true }) else none
  | some _ ↦ some (record { scan_from = s.scan_from; known_empty = known_empty s })
]

unfoldable pub restore : QueueClaimState → CursorState → QueueClaimState
restore s state =
    let t = record s { scan_from = state.scan_from } in
    if state.known_empty then record t { empty_as_of = some s.epoch } else t

-- ===== src/Keys.antt =====
-- taquba/src/keys.rs: the binary keys of the store. A queue name and an id are their bytes.
pub mod Decoding
pub mod Injective
pub mod Ordering
mod Tests
use taquba.Base.{
  ℕ, zero, suc, ◌+◌, ◌-◌, ◌%◌, Bool, true, false, List, [], ◌∷◌, ◌++◌, Option, none, some, leb, ltb,
  ◌==◌, if◌then◌else◌, length, ◌&&◌,
}
use taquba.Bytes.{Bytes, bytes_eq, be_bytes, from_be}
use taquba.Status.{JobStatus}

abbrev pub key_version : ℕ
key_version = 1

pub data KeyTag : Type 0 where
  pending claimed scheduled done dead job_index dedup cursor : KeyTag
  stats attempt_history heartbeat inbox_record inbox_expiry inbox_failure count user : KeyTag

abbrev pub id : KeyTag → ℕ
id pending = 0x01
id claimed = 0x02
id scheduled = 0x03
id done = 0x04
id dead = 0x05
id job_index = 0x06
id dedup = 0x07
id cursor = 0x08
id stats = 0x09
id attempt_history = 0x0A
id heartbeat = 0x0B
id inbox_record = 0x0C
id inbox_expiry = 0x0D
id inbox_failure = 0x0E
id count = 0x0F
id user = 0xFF

-- The `match` of `KeyTag::of` on the first byte.
abbrev of_byte : ℕ → Option KeyTag
of_byte b =
    if b == 0x01
    then some pending
    else if b == 0x02
    then some claimed
    else if b == 0x03
    then some scheduled
    else if b == 0x04
    then some done
    else if b == 0x05
    then some dead
    else if b == 0x06
    then some job_index
    else if b == 0x07
    then some dedup
    else if b == 0x08
    then some cursor
    else if b == 0x09
    then some stats
    else if b == 0x0A
    then some attempt_history
    else if b == 0x0B
    then some heartbeat
    else if b == 0x0C
    then some inbox_record
    else if b == 0x0D
    then some inbox_expiry
    else if b == 0x0E
    then some inbox_failure
    else if b == 0x0F
    then some count
    else if b == 0xFF
    then some user
    else none

unfoldable pub of : Bytes → Option KeyTag
of [] = none
of (b ∷ _) = of_byte b

unfoldable pub job_status : KeyTag → Option JobStatus
job_status pending = some JobStatus.pending
job_status claimed = some JobStatus.claimed
job_status scheduled = some JobStatus.scheduled
job_status done = some JobStatus.done
job_status dead = some JobStatus.dead
job_status _ = none

abbrev pub header : KeyTag → Bytes
header tag = id tag ∷ key_version ∷ []

-- The length prefix is the cast `as u8`.
abbrev pub push_queue : Bytes → Bytes
push_queue queue = (length queue % 256) ∷ queue

unfoldable pub pending_key : Bytes → ℕ → ℕ → Bytes → Bytes
pending_key queue priority enqueued_at job_id =
    header pending
    ++ (push_queue queue ++ (be_bytes 4 priority ++ (be_bytes 8 enqueued_at ++ job_id)))

unfoldable pub pending_prefix : Bytes → Bytes
pending_prefix queue = header pending ++ push_queue queue

unfoldable pub time_first_key : KeyTag → ℕ → Bytes → Bytes → Bytes
time_first_key tag ts queue job_id = header tag ++ (be_bytes 8 ts ++ (push_queue queue ++ job_id))

unfoldable pub queue_first_key : KeyTag → Bytes → Bytes → Bytes
queue_first_key tag queue job_id = header tag ++ (push_queue queue ++ job_id)

unfoldable pub queue_prefix : KeyTag → Bytes → Bytes
queue_prefix tag queue = header tag ++ push_queue queue

unfoldable pub claimed_key : Bytes → Bytes → Bytes
unfolding queue_first_key
claimed_key = queue_first_key claimed

unfoldable pub claimed_prefix : Bytes → Bytes
unfolding queue_prefix
claimed_prefix = queue_prefix claimed

unfoldable pub scheduled_key : Bytes → ℕ → Bytes → Bytes
unfolding time_first_key
scheduled_key queue run_at job_id = time_first_key scheduled run_at queue job_id

unfoldable pub done_key : ℕ → Bytes → Bytes → Bytes
unfolding time_first_key
done_key completed_at queue job_id = time_first_key done completed_at queue job_id

unfoldable pub dead_key : Bytes → Bytes → Bytes
unfolding queue_first_key
dead_key = queue_first_key dead

unfoldable pub job_index_key : Bytes → Bytes
job_index_key job_id = header job_index ++ job_id

unfoldable pub attempt_history_key : Bytes → Bytes
attempt_history_key job_id = header attempt_history ++ job_id

unfoldable pub dedup_index_key : Bytes → Bytes → Bytes
dedup_index_key queue key = header dedup ++ (push_queue queue ++ key)

unfoldable pub cursor_key : Bytes → Bytes
cursor_key queue = header cursor ++ queue

unfoldable pub inbox_record_key : Bytes → Bytes → Bytes
unfolding queue_first_key
inbox_record_key = queue_first_key inbox_record

unfoldable pub inbox_expiry_key : ℕ → Bytes → Bytes → Bytes
unfolding time_first_key
inbox_expiry_key applied_at queue job_id = time_first_key inbox_expiry applied_at queue job_id

unfoldable pub inbox_failure_key : Bytes → Bytes → Bytes
unfolding queue_first_key
inbox_failure_key = queue_first_key inbox_failure

unfoldable pub dead_prefix : Bytes → Bytes
unfolding queue_prefix
dead_prefix = queue_prefix dead

unfoldable pub heartbeat_key : Bytes
heartbeat_key = header heartbeat

unfoldable pub count_key : Bytes → Bytes
count_key name = header count ++ name

unfoldable pub stats_key : Bytes → Bytes → Bytes
stats_key queue metric = header stats ++ (push_queue queue ++ metric)

unfoldable pub user_scoped_key : Bytes → Bytes
user_scoped_key key = id user ∷ key

-- `<[u8]>::strip_prefix`.
unfoldable pub strip_prefix : Bytes → Bytes → Option Bytes
strip_prefix [] key = some key
strip_prefix (p ∷ ps) [] = none
strip_prefix (p ∷ ps) (k ∷ ks) = let rest = strip_prefix ps ks in if p == k then rest else none

-- `<[u8]>::get(..n)`: the first `n` bytes, if there are as many.
unfoldable pub get_to : ℕ → Bytes → Option Bytes
get_to zero bs = some []
get_to (suc n) [] = none
get_to (suc n) (b ∷ bs) = elim (get_to n bs) [ none ↦ none | some front ↦ some (b ∷ front) ]

unfoldable pub parse_key_timestamp : Bytes → KeyTag → Option ℕ
parse_key_timestamp key tag = elim (strip_prefix (header tag) key) [
  | none ↦ none
  | some rest ↦ elim (get_to 8 rest) [ none ↦ none | some ts ↦ some (from_be 0 ts) ]
]

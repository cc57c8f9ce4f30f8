-- ===== src/Kv.antt =====
-- taquba/src/kv.rs: the user KV namespace, its size cap and its compare operations. A compare and its
-- write are one transaction. The read marks and the retry of a conflict are documented behaviour of
-- SlateDB, so an operation acts on the state that its commit sees.
pub mod Replay
pub mod Refines
mod Tests
use taquba.Base.{ℕ, Bool, true, false, Option, none, some, ltb, if◌then◌else◌, length}
use taquba.Bytes.{Bytes, bytes_eq}
use taquba.Keys.{user_scoped_key}
use taquba.Error.{Result, ok, err, kv_value_too_large, ◌>>=◌}
use taquba.Backend.{Backend}

unfoldable pub max_kv_value_size : ℕ
max_kv_value_size = 262144

unfoldable pub validate_kv_value_size : Bytes → Result (Unit {0})
validate_kv_value_size value =
    if ltb max_kv_value_size (length value)
    then err (kv_value_too_large (length value) max_kv_value_size)
    else ok tt

-- The match of what is stored with what is expected.
abbrev pub same_value : Option Bytes → Option Bytes → Bool
same_value (some current) (some expected) = bytes_eq current expected
same_value none none = true
same_value (some current) none = false
same_value none (some expected) = false

module _ (b : Backend) where
  open b use {State, get, put, delete}

  unfoldable pub kv_state_matches : State → Bytes → Option Bytes → Bool
  kv_state_matches s scoped expected = same_value (get s scoped) expected

  unfoldable pub kv_put : State → Bytes → Bytes → Result State
  kv_put s key value = do
    checked ← validate_kv_value_size value
    ok (put s (user_scoped_key key) value)

  unfoldable pub kv_delete : State → Bytes → State
  kv_delete s key = delete s (user_scoped_key key)

  -- The state after the call, and whether the stored state matched.
  unfoldable pub kv_compare_then :
      State → Bytes → Option Bytes → (State → Bytes → State) → State × Bool
  kv_compare_then s key expected write =
      if kv_state_matches s (user_scoped_key key) expected
      then (write s (user_scoped_key key), true)
      else (s, false)

  unfoldable pub kv_compare_delete : State → Bytes → Bytes → State × Bool
  kv_compare_delete s key expected =
      kv_compare_then s key (some expected) (λ txn scoped. delete txn scoped)

  unfoldable pub kv_compare_put : State → Bytes → Option Bytes → Bytes → Result (State × Bool)
  kv_compare_put s key expected value = do
    checked ← validate_kv_value_size value
    ok (kv_compare_then s key expected (λ txn scoped. put txn scoped value))

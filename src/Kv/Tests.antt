-- ===== src/Kv/Tests.antt =====
-- A run of operations on two user keys.
use taquba.Base.{◌≡◌, ◌≢◌, refl, true, false, none, some, List, [], ◌∷◌}
use taquba.Bytes.{Bytes, bytes_eq}
use taquba.Map.{bytes_Eq}
use taquba.Map
use taquba.Keys.{KeyTag, of, user_scoped_key}
use taquba.Error.{ok}
use taquba.Kv.{
  validate_kv_value_size, kv_state_matches, kv_put, kv_delete, kv_compare_then, kv_compare_delete,
  kv_compare_put, max_kv_value_size,
}
use taquba.Kv.Replay.{KvOp, step, run, replay, View}
use taquba.Kv.Refines.{IsView, run_refines}
use taquba.Example.Store.{example_store}

abbrev no_keys : View
no_keys key = none

abbrev ops : List KvOp
ops =
    KvOp.compare_put (b'a' ∷ []) none (b'x' ∷ [])
    ∷ KvOp.put (b'b' ∷ []) (b'y' ∷ [])
    ∷ KvOp.compare_put (b'a' ∷ []) none (b'z' ∷ [])
    ∷ KvOp.compare_delete (b'a' ∷ []) (b'x' ∷ [])
    ∷ KvOp.delete (b'c' ∷ [])
    ∷ []

empty-IsView : IsView example_store [] no_keys
unfolding IsView Map.get
empty-IsView key = refl

run-ops : (run example_store [] ops).1 ≡ ok true ∷ ok true ∷ ok false ∷ ok true ∷ ok true ∷ []
unfolding run step kv_put kv_delete kv_compare_put kv_compare_delete kv_compare_then
    kv_state_matches validate_kv_value_size max_kv_value_size Map.get Map.insert Map.remove bytes_eq
    user_scoped_key
run-ops = refl

run_refines_example :
    IsView example_store (run example_store [] ops).0 (replay no_keys ops).0
    × ((run example_store [] ops).1 ≡ (replay no_keys ops).1)
    × ((x : Bytes)
        → of x ≢ some KeyTag.user
        → Map.get x (run example_store [] ops).0 ≡ Map.get x [])
run_refines_example = run_refines example_store [] no_keys ops empty-IsView

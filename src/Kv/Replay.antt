-- ===== src/Kv/Replay.antt =====
-- What the KV namespace promises: a map from keys to values, without the store, its key space and the
-- transactions.
use taquba.Base.{Bool, true, false, Option, none, some, List, [], ◌∷◌, if◌then◌else◌, leb, length}
use taquba.Bytes.{Bytes, bytes_eq}
use taquba.Error.{Result, ok, err, kv_value_too_large}
use taquba.Backend.{Backend}
use taquba.Kv.{max_kv_value_size, kv_put, kv_delete, kv_compare_delete, kv_compare_put, same_value}

pub data KvOp : Type 0 where
  put : Bytes → Bytes → KvOp
  delete : Bytes → KvOp
  compare_delete : Bytes → Bytes → KvOp
  compare_put : Bytes → Option Bytes → Bytes → KvOp

module _ (b : Backend) where
  open b use {State}

  abbrev pub keep : State → Result State → State × Result Bool
  keep s (ok t) = (t, ok true)
  keep s (err e) = (s, err e)
  keep s Result.panic = (s, Result.panic)

  abbrev pub keep_compared : State → Result (State × Bool) → State × Result Bool
  keep_compared s (ok (t, matched)) = (t, ok matched)
  keep_compared s (err e) = (s, err e)
  keep_compared s Result.panic = (s, Result.panic)

  -- A failed operation leaves the store.
  unfoldable pub step : State → KvOp → State × Result Bool
  step s (KvOp.put key value) = keep s (kv_put b s key value)
  step s (KvOp.delete key) = (kv_delete b s key, ok true)
  step s (KvOp.compare_delete key expected) =
      keep_compared s (ok (kv_compare_delete b s key expected))
  step s (KvOp.compare_put key expected value) =
      keep_compared s (kv_compare_put b s key expected value)

  unfoldable pub run : State → List KvOp → State × List (Result Bool)
  run s [] = (s, [])
  run s (op ∷ ops) = let (t, r) = step s op in let (u, rs) = run t ops in (u, r ∷ rs)

abbrev pub View : Type 0
View = Bytes → Option Bytes

unfoldable pub set : View → Bytes → Option Bytes → View
set view key value other = if bytes_eq key other then value else view other

-- The size that a value may have, and the write when it has it.
abbrev pub sized : View → Bytes → View × Result Bool → View × Result Bool
sized view value written =
    if leb (length value) max_kv_value_size
    then written
    else (view, err (kv_value_too_large (length value) max_kv_value_size))

abbrev pub compared : View → Bytes → Option Bytes → Option Bytes → View × Result Bool
compared view key expected value =
    if same_value (view key) expected then (set view key value, ok true) else (view, ok false)

unfoldable pub replay_step : View → KvOp → View × Result Bool
replay_step view (KvOp.put key value) = sized view value (set view key (some value), ok true)
replay_step view (KvOp.delete key) = (set view key none, ok true)
replay_step view (KvOp.compare_delete key expected) = compared view key (some expected) none
replay_step view (KvOp.compare_put key expected value) =
    sized view value (compared view key expected (some value))

unfoldable pub replay : View → List KvOp → View × List (Result Bool)
replay view [] = (view, [])
replay view (op ∷ ops) =
    let (v, r) = replay_step view op in let (w, rs) = replay v ops in (w, r ∷ rs)

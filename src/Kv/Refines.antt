-- ===== src/Kv/Refines.antt =====
-- The operations on the store implement those on the map, and reach no other key.
use taquba.Base.{
  ◌≡◌, ◌≢◌, refl, Bool, not, sym, subst, ap, ◌∙◌, inl, inr, true, false, Option, none, some, List,
  [], ◌∷◌, arith, Bool-cases, ltb, leb, length,
}
use taquba.Bytes.{Bytes, bytes_eq}
use taquba.Bytes.Order.{eq_of_bytes_eq}
use taquba.Keys.{KeyTag, of, user_scoped_key}
use taquba.Error.{Result, ok, err, kv_value_too_large, ◌>>=◌}
use taquba.Backend.{Backend}
use taquba.Kv.{
  kv_put, kv_delete, kv_compare_delete, kv_compare_put, kv_compare_then, kv_state_matches,
  same_value, validate_kv_value_size, max_kv_value_size,
}
use taquba.Kv.Replay.{
  KvOp, keep, keep_compared, compared, sized, step, run, View, set, replay_step, replay,
}

-- A key outside the user space is no scoped key.
pub other_user : (k x : Bytes) → of x ≢ some KeyTag.user → bytes_eq (user_scoped_key k) x ≡ false
unfolding of user_scoped_key
other_user k x h = elim (Bool-cases (bytes_eq (user_scoped_key k) x)) [
  | inl e ↦ absurd (h (ap of (sym (eq_of_bytes_eq (user_scoped_key k) x e))))
  | inr e ↦ e
]

module _ (b : Backend) where
  open b use {State, get}

  -- What a state of the store holds under the user keys.
  unfoldable pub IsView : State → View → Type 0
  IsView s view = (key : Bytes) → get s (user_scoped_key key) ≡ view key

module _ (b : Backend) where
  open b use {State, get, put, delete}

  -- A change of one key as the map changes it, which no key outside the user space sees.
  record Changes (s t : State) (view : View) (key : Bytes) (value : Option Bytes) : Type 0 where
    views : IsView b t (set view key value)
    elsewhere : (x : Bytes) → of x ≢ some KeyTag.user → get t x ≡ get s x

  put-Changes :
      (s : State) (view : View) (key value : Bytes)
      → IsView b s view
      → Changes s (put s (user_scoped_key key) value) view key (some value)
  unfolding IsView set user_scoped_key bytes_eq
  put-Changes s view key value h = record {
    views = λ j. ground (arith, b.get-put s (user_scoped_key key) value (user_scoped_key j), h j);
    elsewhere =
        λ x hx. ground (arith, b.get-put s (user_scoped_key key) value x, other_user key x hx);
  }

  delete-Changes :
      (s : State) (view : View) (key : Bytes)
      → IsView b s view
      → Changes s (delete s (user_scoped_key key)) view key none
  unfolding IsView set user_scoped_key bytes_eq
  delete-Changes s view key h = record {
    views = λ j. ground (arith, b.get-delete s (user_scoped_key key) (user_scoped_key j), h j);
    elsewhere = λ x hx. ground (arith, b.get-delete s (user_scoped_key key) x, other_user key x hx);
  }

  -- The same result of an operation on the store and on the map, in states that agree.
  record Agrees (s : State) (t : State × Result Bool) (w : View × Result Bool) : Type 0 where
    views : IsView b t.0 w.0
    same_result : t.1 ≡ w.1
    elsewhere : (x : Bytes) → of x ≢ some KeyTag.user → get t.0 x ≡ get s x

  same-Agrees :
      (s : State) (view : View) (r : Result Bool) → IsView b s view → Agrees s (s, r) (view, r)
  same-Agrees s view r h = record { views = h; same_result = refl; elsewhere = λ x hx. refl }

  change-Agrees :
      (s t : State) (view : View) (key : Bytes) (value : Option Bytes)
      → Changes s t view key value
      → Agrees s (t, ok true) (set view key value, ok true)
  change-Agrees s t view key value ch = record {
    views = ch.views;
    same_result = refl;
    elsewhere = ch.elsewhere;
  }

  to-Agrees :
      (s : State) (t u : State × Result Bool) (w x : View × Result Bool)
      → t ≡ u
      → w ≡ x
      → Agrees s u x
      → Agrees s t w
  to-Agrees s t u w x p q a = subst (λ y. Agrees s y w) (sym p) (subst (Agrees s u) (sym q) a)

  -- A compare and its write, against those of the map.
  compare-Agrees :
      (s : State) (view : View) (key : Bytes) (expected value : Option Bytes)
      (write : State → Bytes → State)
      → IsView b s view
      → Changes s (write s (user_scoped_key key)) view key value
      → Agrees s
          (keep_compared b s (ok (kv_compare_then b s key expected write)))
          (compared view key expected value)
  unfolding kv_compare_then kv_state_matches IsView
  compare-Agrees s view key expected value write h ch =
      elim (Bool-cases (same_value (view key) expected)) [
        | inl e ↦
            to-Agrees s _ (write s (user_scoped_key key), ok true) _ (set view key value, ok true)
              (rw (h key, e)) (rw e)
              (change-Agrees s (write s (user_scoped_key key)) view key value ch)
        | inr e ↦
            to-Agrees s _ (s, ok false) _ (view, ok false) (rw (h key, e)) (rw e)
              (same-Agrees s view (ok false) h)
      ]

  -- An operation with a value is refused when the value is too long.
  sized-Agrees :
      (s : State) (view : View) (value : Bytes) (r : Result (State × Bool)) (w : View × Result Bool)
      → IsView b s view
      → Agrees s (keep_compared b s r) w
      → Agrees s
          (keep_compared b s (validate_kv_value_size value >>= λ checked. r))
          (sized view value w)
  unfolding validate_kv_value_size max_kv_value_size
  sized-Agrees s view value r w h a = elim (Bool-cases (ltb max_kv_value_size (length value))) [
    | inl e ↦
        to-Agrees s _ (s, err (kv_value_too_large (length value) max_kv_value_size)) _
          (view, err (kv_value_too_large (length value) max_kv_value_size)) (rw e)
          (rw (small true e))
          (same-Agrees s view (err (kv_value_too_large (length value) max_kv_value_size)) h)
    | inr e ↦ to-Agrees s _ (keep_compared b s r) _ w (rw e) (rw (small false e)) a
  ]
    where
      small :
          (m : Bool)
          → ltb max_kv_value_size (length value) ≡ m
          → leb (length value) max_kv_value_size ≡ not m
      small m e = ground arith

  keep-ok :
      (s t : State) (r : Result (Unit {0}))
      → keep b s (r >>= λ checked. ok t) ≡ keep_compared b s (r >>= λ checked. ok (t, true))
  keep-ok s t (ok u) = refl
  keep-ok s t (err e) = refl
  keep-ok s t Result.panic = refl

  step-Agrees :
      (s : State) (view : View) (op : KvOp)
      → IsView b s view
      → Agrees s (step b s op) (replay_step view op)
  unfolding step replay_step kv_put kv_delete kv_compare_delete kv_compare_put
  step-Agrees s view (KvOp.put key value) h =
      subst (λ x. Agrees s x (replay_step view (KvOp.put key value)))
        (sym (keep-ok s (put s (user_scoped_key key) value) (validate_kv_value_size value)))
        (sized-Agrees s view value (ok (put s (user_scoped_key key) value, true)) _ h (
          change-Agrees s (put s (user_scoped_key key) value) view key (some value)
            (put-Changes s view key value h)))
  step-Agrees s view (KvOp.delete key) h =
      change-Agrees s (delete s (user_scoped_key key)) view key none (delete-Changes s view key h)
  step-Agrees s view (KvOp.compare_delete key expected) h =
      compare-Agrees s view key (some expected) none (λ txn scoped. delete txn scoped) h
        (delete-Changes s view key h)
  step-Agrees s view (KvOp.compare_put key expected value) h = sized-Agrees s view value _ _ h (
      compare-Agrees s view key expected (some value) (λ txn scoped. put txn scoped value) h
        (put-Changes s view key value h))

  -- Any run of operations on the user keys of a store has the results of the same run on a map that
  -- holds what the store holds under the user keys at the start. At the end the store holds under them
  -- what the map does, and every key outside the user space has what it had.
  pub run_refines :
      (s : State) (view : View) (ops : List KvOp)
      → IsView b s view
      → IsView b (run b s ops).0 (replay view ops).0
        × ((run b s ops).1 ≡ (replay view ops).1)
        × ((x : Bytes) → of x ≢ some KeyTag.user → get (run b s ops).0 x ≡ get s x)
  unfolding run replay
  run_refines s view [] h = (h, refl, λ x hx. refl)
  run_refines s view (op ∷ ops) h =
      let a = step-Agrees s view op h in
      let (v, r, o) = run_refines (step b s op).0 (replay_step view op).0 ops a.views in
      (v, ground (arith, a.same_result, r), λ x hx. o x hx ∙ a.elsewhere x hx)

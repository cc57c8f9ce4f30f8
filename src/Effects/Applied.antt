-- ===== src/Effects/Applied.antt =====
-- What staged effects have done: the fence and the compares held, and the user keys are those of the
-- writes and the deletes.
use taquba.Base.{
  ◌≡◌, ℕ, inl, inr, refl, subst, ap, ◌∙◌, Bool, true, false, List, [], ◌∷◌, Option, none, some,
  arith, Bool-cases, Option-cases, ◌||◌, if◌then◌else◌, ◌==◌,
}
use taquba.Bytes.{Bytes, bytes_eq}
use taquba.Bytes.Order.{eq_of_bytes_eq}
use taquba.Map.{Map, bytes_Eq, bytes_eq_iff}
use taquba.Map
use taquba.Keys.{KeyTag, of, user_scoped_key}
use taquba.Job.{JobRecord}
use taquba.Error.{ok, bind-ok, ok-injective}
use taquba.LeaseRegistry.{Registry, current}
use taquba.Backend.{Backend}
use taquba.Expiry.{ExpiryIndex}
use taquba.Txn.{Txn, read_claim, note_expiry_entry}
use taquba.Count.{CountCodec}
use taquba.Kv.{kv_state_matches, same_value}
use taquba.Effects.{ClaimFence, KvCompare, PreparedEffects}
use taquba.Effects.Staged.{
  EnqueueResult, check_fence, check_compares, put_all, delete_all, note_all, stage_counts,
  stage_jobs, stage_effects,
}
use taquba.Effects.Elsewhere.{SameUser}
use taquba.Effects.Elsewhere.Counts.{stage_counts-SameUser}
use taquba.Effects.Elsewhere.NewJobs.{stage_jobs-SameUser}

-- One entry for a key, as in a `HashMap`.
unfoldable pub IsMap : Map Bytes Bytes → Type 0
IsMap [] = Unit {0}
IsMap ((key, _) ∷ writes) = (Map.get key writes ≡ none) × IsMap writes

unfoldable pub is_in : Bytes → List Bytes → Bool
is_in key [] = false
is_in key (k ∷ keys) = bytes_eq k key || is_in key keys

-- The value of a key after writes and deletes.
unfoldable pub value_after : Map Bytes Bytes → List Bytes → Bytes → Option Bytes → Option Bytes
value_after writes deletes key before =
    if is_in key deletes
    then none
    else elim (Map.get key writes) [ none ↦ before | some value ↦ some value ]

same_value-eq :
    (stored expected : Option Bytes) → same_value stored expected ≡ true → stored ≡ expected
same_value-eq none none h = refl
same_value-eq (some a) (some e) h = ground (arith, eq_of_bytes_eq a e)
same_value-eq none (some e) h = cc
same_value-eq (some a) none h = cc

module _ (b : Backend) where
  open b use {State, get, put, delete}

  unfoldable pub AllMatch : State → List KvCompare → Type 0
  AllMatch s [] = Unit {0}
  AllMatch s (c ∷ compares) = (get s (user_scoped_key c.key) ≡ c.expected) × AllMatch s compares

  -- The claim of a fence is the live one.
  unfoldable pub IsLive : Registry → Option ClaimFence → Type 0
  IsLive registry none = Unit {0}
  IsLive registry (some fence) =
      (expires_at : ℕ) × (current registry fence.queue fence.id ≡ some (expires_at, fence.claim_id))

module _ (b : Backend) (counts : CountCodec) where
  open b use {State, get, put, delete}

  check_compares-AllMatch :
      (s : State) (compares : List KvCompare)
      → check_compares b counts s compares ≡ ok tt
      → AllMatch b s compares
  unfolding check_compares AllMatch kv_state_matches
  check_compares-AllMatch s [] h = tt
  check_compares-AllMatch s (c ∷ compares) h =
      elim (Bool-cases (kv_state_matches b s (user_scoped_key c.key) c.expected)) [
        | inl e ↦ (
          same_value-eq (get s (user_scoped_key c.key)) c.expected e,
          check_compares-AllMatch s compares (ground (arith, e, h)),
        )
        | inr e ↦ absurd (ground (arith, e, h))
      ]

  pub read_claim-current :
      (s : State) (registry : Registry) (queue id : Bytes) (claim_id : ℕ)
      (found : Bytes × JobRecord)
      → read_claim b s registry queue id claim_id ≡ ok found
      → (expires_at : ℕ) × (current registry queue id ≡ some (expires_at, claim_id))
  unfolding read_claim
  read_claim-current s registry queue id claim_id found h =
      elim (Option-cases (current registry queue id)) [
        | inl e ↦ absurd (ground (arith, e, h))
        | inr ((expires_at, live), e) ↦ elim (Bool-cases (live == claim_id)) [
          | inl same ↦ (expires_at, e ∙ ap (λ c. some (expires_at, c)) (ground (arith, same)))
          | inr other ↦ absurd (ground (arith, e, other, h))
        ]
      ]

  check_fence-IsLive :
      (s : State) (registry : Registry) (fence : Option ClaimFence)
      → check_fence b counts s registry fence ≡ ok tt
      → IsLive b registry fence
  unfolding check_fence IsLive
  check_fence-IsLive s registry none h = tt
  check_fence-IsLive s registry (some fence) h =
      let (found, p, q) =
        bind-ok (read_claim b s registry fence.queue fence.id fence.claim_id) _ tt h in
      read_claim-current s registry fence.queue fence.id fence.claim_id found p

  get-put_all :
      (s : State) (writes : Map Bytes Bytes) (key : Bytes)
      → IsMap writes
      → get (put_all b counts s writes) (user_scoped_key key) ≡ (elim (Map.get key writes) [
        | none ↦ get s (user_scoped_key key)
        | some value ↦ some value
      ])
  unfolding put_all IsMap Map.get user_scoped_key bytes_eq
  get-put_all s [] key m = refl
  get-put_all s ((k, v) ∷ writes) key (fresh, m) = elim (Bool-cases (bytes_eq k key)) [
    | inl e ↦ ground (
      arith,
      get-put_all (put s (user_scoped_key k) v) writes key m,
      b.get-put s (user_scoped_key k) v (user_scoped_key key),
      absent e,
      e,
    )
    | inr e ↦ ground (
      arith,
      get-put_all (put s (user_scoped_key k) v) writes key m,
      b.get-put s (user_scoped_key k) v (user_scoped_key key),
      e,
    )
  ]
    where
      absent : bytes_eq k key ≡ true → Map.get key writes ≡ none
      absent e = subst (λ x. Map.get x writes ≡ none) (eq_of_bytes_eq k key e) fresh

  get-delete_all :
      (s : State) (keys : List Bytes) (key : Bytes)
      → get (delete_all b counts s keys) (user_scoped_key key)
        ≡ (if is_in key keys then none else get s (user_scoped_key key))
  unfolding delete_all is_in user_scoped_key bytes_eq
  get-delete_all s [] key = refl
  get-delete_all s (k ∷ keys) key = ground (
    arith,
    get-delete_all (delete s (user_scoped_key k)) keys key,
    b.get-delete s (user_scoped_key k) (user_scoped_key key),
  )

  note_all-txn :
      (t : Txn b) (entries : List (ExpiryIndex × ℕ)) → (note_all b counts t entries).txn ≡ t.txn
  unfolding note_all note_expiry_entry
  note_all-txn t [] = refl
  note_all-txn t ((index, at) ∷ entries) = note_all-txn (note_expiry_entry b t index at) entries

  user_of : (key : Bytes) → of (user_scoped_key key) ≡ some KeyTag.user
  unfolding of user_scoped_key
  user_of key = refl

  -- Effects that a transaction staged, from writes with one value for a key: the claim of the fence
  -- was the live one, every compare matched what the transaction began with, and every user key has
  -- the value of its write, none when it is deleted, and what it had when it is neither.
  pub stage_effects-applied :
      (t u : Txn b) (registry : Registry) (prepared : PreparedEffects)
      (results : List EnqueueResult)
      → IsMap prepared.kv_writes
      → stage_effects b counts t registry prepared ≡ ok (u, results)
      → IsLive b registry prepared.claim_fence
        × AllMatch b t.txn prepared.kv_compares
        × ((key : Bytes)
            → get u.txn (user_scoped_key key)
              ≡ value_after prepared.kv_writes prepared.kv_deletes key
                  (get t.txn (user_scoped_key key)))
  unfolding stage_effects value_after SameUser
  stage_effects-applied t u registry prepared results m h =
      let (fenced, p, h) =
        bind-ok (check_fence b counts t.txn registry prepared.claim_fence) _ (u, results) h in
      let (compared, q, h) =
        bind-ok (check_compares b counts t.txn prepared.kv_compares) _ (u, results) h in
      let (v, r, h) = bind-ok (stage_counts b counts t prepared.count_changes) _ (u, results) h in
      let ((w, staged), e, h) =
        bind-ok (stage_jobs b counts v prepared.prepared_jobs) _ (u, results) h in
      (
        check_fence-IsLive t.txn registry prepared.claim_fence p,
        check_compares-AllMatch t.txn prepared.kv_compares q,
        λ key. ground (
          arith,
          ap (λ x. get x.0.txn (user_scoped_key key)) (ok-injective _ (u, results) h),
          note_all-txn
              (record w {
                txn =
                    delete_all b counts (put_all b counts w.txn prepared.kv_writes)
                      prepared.kv_deletes;
              })
              prepared.expiry_entries,
          get-delete_all (put_all b counts w.txn prepared.kv_writes) prepared.kv_deletes key,
          get-put_all w.txn prepared.kv_writes key m,
          stage_jobs-SameUser b counts v w prepared.prepared_jobs staged e (user_scoped_key key)
              (user_of key),
          stage_counts-SameUser b counts t v prepared.count_changes r (user_scoped_key key)
              (user_of key),
        ),
      )

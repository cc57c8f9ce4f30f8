-- ===== src/LeaseRegistry/Coherence.antt =====
-- The two views of the registry agree after every operation.
use taquba.Base.{
  ℕ, ◌≡◌, refl, sym, ◌∙◌, ◌⊎◌, ◌≢◌, Bool, true, false, List, [], ◌∷◌, Option, none, some, arith,
  ◌==◌, Option-cases, Bool-cases, inl, inr, if◌then◌else◌,
}
use taquba.Bytes.{Bytes}
use taquba.Map.{Map, pair_Eq, pair_beq, pair_beq_iff, get-insert, get-remove}
use taquba.Map
use taquba.Error.{Result, ok, err, panic, claim_lost, cancel_requested}
use taquba.LeaseRegistry.{
  Renewal, Entry, Registry, renewed, DueLease, new, drop_old, insert, renew_entry, renew, close,
  mark_due, take_due, remove_entry, remove, Call, inserts, renews, closes, takes_due, removes, step,
  run,
}
use taquba.LeaseRegistry.ExpirySet.{
  Expiries, expiry_eq, contains, IsAscending, contains-insert, contains-remove, insert-IsAscending,
  remove-IsAscending, contains-due_keys, expiry_eq_refl,
}
use taquba.LeaseRegistry.ExpirySet

abbrev pub has_expiry : ℕ → Option Entry → Bool
has_expiry t none = false
has_expiry t (some e) = t == e.expires_at

-- A time and a job stand in the expiry view exactly where the job has a lease of that expiry.
abbrev pub Agree : Map (Bytes × Bytes) Entry → Expiries → Type 0
Agree m set = (t : ℕ) (k : Bytes × Bytes) → contains (t, k) set ≡ has_expiry t (Map.get k m)

pub record IsCoherent (r : Registry) : Type 0 where
  pub agree : Agree r.by_job r.by_expiry
  pub ascending : IsAscending r.by_expiry

module _ (m : Map (Bytes × Bytes) Entry) (set : Expiries) (key : Bytes × Bytes)
    (a : Agree m set) where
  Agree-insert :
      (v : Entry)
      → Agree
          (Map.insert key v m)
          (ExpirySet.insert (v.expires_at, key) (drop_old key (Map.get key m) set))
  unfolding expiry_eq
  Agree-insert v t k = elim (Option-cases (Map.get key m)) [
    | inl n ↦ rw n (
        ground (
          arith,
          get-insert key k v m,
          contains-insert (t, k) (v.expires_at, key) set,
          pair_beq_iff key k,
          pair_beq_iff k key,
          a t k,
          a t key,
        ))
    | inr (old, n) ↦ rw n (
        ground (
          arith,
          get-insert key k v m,
          contains-insert (t, k) (v.expires_at, key) (ExpirySet.remove (old.expires_at, key) set),
          contains-remove (t, k) (old.expires_at, key) set,
          pair_beq_iff key k,
          pair_beq_iff k key,
          a t k,
          a t key,
        ))
  ]

  Agree-mark :
      (e : Entry)
      → Map.get key m ≡ some e
      → Agree (Map.insert key (record e { reaping = true }) m) set
  Agree-mark e g t k =
      ground (arith, get-insert key k (record e { reaping = true }) m, pair_beq_iff key k, a t k)

  Agree-remove :
      (e : Entry)
      → Map.get key m ≡ some e
      → Agree (Map.remove key m) (ExpirySet.remove (e.expires_at, key) set)
  unfolding expiry_eq
  Agree-remove e g t k = ground (
    arith,
    get-remove key k m,
    contains-remove (t, k) (e.expires_at, key) set,
    pair_beq_iff key k,
    pair_beq_iff k key,
    a t k,
  )

drop_old-IsAscending :
    (key : Bytes × Bytes) (o : Option Entry) (set : Expiries)
    → IsAscending set
    → IsAscending (drop_old key o set)
drop_old-IsAscending key none set h = h
drop_old-IsAscending key (some e) set h = remove-IsAscending (e.expires_at, key) set h

pub new-IsCoherent : IsCoherent new
unfolding Map.get
new-IsCoherent = record { agree = λ t k. refl; ascending = tt }

pub insert-IsCoherent :
    (r : Registry) (queue id : Bytes) (expires_at claim_id token : ℕ)
    → IsCoherent r
    → IsCoherent (insert r queue id expires_at claim_id token)
unfolding insert
insert-IsCoherent r queue id expires_at claim_id token c = record {
  agree = Agree-insert r.by_job r.by_expiry (queue, id) c.agree _;
  ascending =
      insert-IsAscending _ _
        (drop_old-IsAscending (queue, id) (Map.get (queue, id) r.by_job) r.by_expiry c.ascending);
}

renewed-IsCoherent :
    (r : Registry) (key : Bytes × Bytes) (e : Entry) (expires_at : ℕ)
    → Map.get key r.by_job ≡ some e
    → IsCoherent r
    → IsCoherent (renewed r key e expires_at)
renewed-IsCoherent r key e expires_at g c = record {
  agree =
      rw g at
        (Agree-insert r.by_job r.by_expiry key c.agree (record e { expires_at = expires_at }));
  ascending = insert-IsAscending _ _ (remove-IsAscending _ _ c.ascending);
}

-- A renewal that succeeds leaves the registry as it was, or moves the lease found.
renew_entry_cases :
    (r : Registry) (key : Bytes × Bytes) (claim_id expires_at : ℕ) (mode : Renewal) (e : Entry)
    (changed : Bool) (s : Registry)
    → renew_entry r key claim_id expires_at mode (some e) ≡ ok (changed, s)
    → (s ≡ r) ⊎ (s ≡ renewed r key e expires_at)
unfolding renew_entry
renew_entry_cases r key claim_id expires_at mode e changed s h = ground arith

renew_entry-IsCoherent :
    (r : Registry) (key : Bytes × Bytes) (claim_id expires_at : ℕ) (mode : Renewal)
    (o : Option Entry) (changed : Bool) (s : Registry)
    → Map.get key r.by_job ≡ o
    → IsCoherent r
    → renew_entry r key claim_id expires_at mode o ≡ ok (changed, s)
    → IsCoherent s
renew_entry-IsCoherent r key claim_id expires_at mode none changed s g c h =
    unfold renew_entry in cc
renew_entry-IsCoherent r key claim_id expires_at mode (some e) changed s g c h =
    elim (renew_entry_cases r key claim_id expires_at mode e changed s h) [
      | inl q ↦ rw q c
      | inr q ↦ rw q (renewed-IsCoherent r key e expires_at g c)
    ]

renew-IsCoherent :
    (r : Registry) (queue id : Bytes) (claim_id : ℕ) (is_cancelled : Bool) (expires_at : ℕ)
    (mode : Renewal) (changed : Bool) (s : Registry)
    → IsCoherent r
    → renew r queue id claim_id is_cancelled expires_at mode ≡ ok (changed, s)
    → IsCoherent s
renew-IsCoherent r queue id claim_id is_cancelled expires_at mode changed s c h =
    renew_entry-IsCoherent r (queue, id) claim_id expires_at mode (Map.get (queue, id) r.by_job)
      changed s refl c (open_entry r.closed is_cancelled (unfold renew in h))
  where
    open_entry :
        {A : Type 0} {x : Result A} {y : A} (p q : Bool)
        → (if p then err claim_lost else if q then err cancel_requested else x) ≡ ok y
        → x ≡ ok y
    open_entry p q h = ground arith

remove_entry-IsCoherent :
    (r : Registry) (key : Bytes × Bytes) (claim_id : ℕ) (o : Option Entry)
    → Map.get key r.by_job ≡ o
    → IsCoherent r
    → IsCoherent (remove_entry r key claim_id o)
unfolding remove_entry
remove_entry-IsCoherent r key claim_id none g c = c
remove_entry-IsCoherent r key claim_id (some e) g c = elim (Bool-cases (e.claim_id == claim_id)) [
  | inl q ↦ rw q (record {
    agree = Agree-remove r.by_job r.by_expiry key c.agree e g;
    ascending = remove-IsAscending _ _ c.ascending;
  })
  | inr q ↦ rw q c
]

pub remove-IsCoherent :
    (r : Registry) (queue id : Bytes) (claim_id : ℕ)
    → IsCoherent r
    → IsCoherent (remove r queue id claim_id)
unfolding remove
remove-IsCoherent r queue id claim_id c =
    remove_entry-IsCoherent r (queue, id) claim_id (Map.get (queue, id) r.by_job) refl c

no_lease : (t : ℕ) (o : Option Entry) → o ≡ none → has_expiry t o ≡ true → ⊥
no_lease t none e h = cc
no_lease t (some x) e h = cc

-- The marking loop finds an entry for each key of the view, and leaves the view as it was.
mark_due-Agree :
    (keys : Expiries) (m : Map (Bytes × Bytes) Entry) (set : Expiries)
    → Agree m set
    → ((x : ℕ × (Bytes × Bytes)) → contains x keys ≡ true → contains x set ≡ true)
    → (due : List DueLease) × (marked : Map (Bytes × Bytes) Entry) × (mark_due keys m
        ≡ some (due, marked))
      × Agree marked set
unfolding mark_due
mark_due-Agree [] m set a sub = ([], m, refl, a)
mark_due-Agree ((t, key) ∷ keys) m set a sub = elim (Option-cases (Map.get key m)) [
  | inl n ↦ absurd (no_lease t (Map.get key m) n held)
  | inr (e, g) ↦
      let (due, marked, q, b) =
        mark_due-Agree keys (Map.insert key (record e { reaping = true }) m) set
          (Agree-mark m set key a e g) (λ x h. sub x (ground (arith, h))) in
      (
        record { queue = key.0; id = key.1; expires_at = t; claim_id = e.claim_id } ∷ due,
        marked,
        rw (g, mark_due, q),
        b,
      )
]
  where
    held : has_expiry t (Map.get key m) ≡ true
    held = sym (a t key) ∙ sub (t, key) (rw expiry_eq_refl)

pub mark_due-total :
    (r : Registry) (now : ℕ)
    → IsCoherent r
    → (due : List DueLease) × (marked : Map (Bytes × Bytes) Entry) × (mark_due
          (ExpirySet.due_keys now r.by_expiry)
          r.by_job
        ≡ some (due, marked))
      × Agree marked r.by_expiry
mark_due-total r now c =
    mark_due-Agree (ExpirySet.due_keys now r.by_expiry) r.by_job r.by_expiry c.agree
      (λ x h. ground (arith, contains-due_keys now x r.by_expiry c.ascending))

take_due-IsCoherent :
    (r : Registry) (now : ℕ)
    → IsCoherent r
    → (due : List DueLease) × (s : Registry) × (take_due r now ≡ some (due, s)) × IsCoherent s
unfolding take_due
take_due-IsCoherent r now c =
    let (due, marked, q, b) = mark_due-total r now c in
    (
      due,
      record r { by_job = marked },
      rw (q, take_due),
      record { agree = b; ascending = c.ascending },
    )

renew-ne-panic :
    (r : Registry) (queue id : Bytes) (claim_id : ℕ) (cancelled : Bool) (expires_at : ℕ)
    (mode : Renewal)
    → renew r queue id claim_id cancelled expires_at mode ≢ panic
unfolding renew renew_entry
renew-ne-panic r queue id claim_id cancelled expires_at mode h = ground arith

-- Every call keeps the registry coherent, and none panics.
step-IsCoherent :
    (r : Registry) (c : Call) → IsCoherent r → (s : Registry) × (step r c ≡ some s) × IsCoherent s
unfolding step close
step-IsCoherent r (inserts queue id expires_at claim_id token) c =
    (_, refl, insert-IsCoherent r queue id expires_at claim_id token c)
step-IsCoherent r (renews queue id claim_id cancelled expires_at mode) c =
    renew_step (renew r queue id claim_id cancelled expires_at mode) refl
  where
    renew_step :
        (x : Result (Bool × Registry))
        → renew r queue id claim_id cancelled expires_at mode ≡ x
        → (s : Registry) × ((elim x [ ok (changed, s') ↦ some s' | err e ↦ some r | panic ↦ none ])
            ≡ some s)
          × IsCoherent s
    renew_step (ok (changed, s)) q =
        (s, refl, renew-IsCoherent r queue id claim_id cancelled expires_at mode changed s c q)
    renew_step (err e) q = (r, refl, c)
    renew_step panic q = absurd (renew-ne-panic r queue id claim_id cancelled expires_at mode q)
step-IsCoherent r closes c = (_, refl, record { agree = c.agree; ascending = c.ascending })
step-IsCoherent r (takes_due now) c =
    let (due, s, q, d) = take_due-IsCoherent r now c in (s, rw (q, step), d)
step-IsCoherent r (removes queue id claim_id) c = (_, refl, remove-IsCoherent r queue id claim_id c)

-- Whatever calls are made on a coherent registry, in any order, none of them panics, and the two
-- views of the registry agree after the last: a time and a job stand in the expiry view, which stays
-- in order, exactly where the job has a lease that expires at that time.
pub run-IsCoherent :
    (r : Registry) (calls : List Call)
    → IsCoherent r
    → (s : Registry) × (run r calls ≡ some s) × IsCoherent s
unfolding run
run-IsCoherent r [] c = (r, refl, c)
run-IsCoherent r (call ∷ calls) c =
    let (s, q, d) = step-IsCoherent r call c in
    let (t, p, e) = run-IsCoherent s calls d in (t, rw (q, run) p, e)

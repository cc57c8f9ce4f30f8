-- ===== src/LeaseRegistry/Reaping/Marked.antt =====
-- The loop of `take_due`: what it lists, and what it marks.
use taquba.Base.{
  ℕ, ◌≡◌, refl, sym, subst, ap, ◌∙◌, Bool, true, false, ◌&&◌, ◌||◌, List, [], ◌∷◌, Option, none,
  some, arith, Option-cases, Bool-cases, inl, inr, leb,
}
use taquba.Bytes.{Bytes}
use taquba.Map.{Map, pair_Eq, pair_beq, pair_beq_iff, get-insert, get-insert_self, get-remove_self}
use taquba.Map
use taquba.LeaseRegistry.{Entry, Registry, DueLease, current, mark_due, push_due}
use taquba.LeaseRegistry.ExpirySet.{
  Expiries, expiry_eq, expiry_eq_refl, contains, contains-due_keys, due_keys,
}
use taquba.LeaseRegistry.Coherence.{IsCoherent, has_expiry}

abbrev pub mark_if : Bool → Option Entry → Option Entry
mark_if b none = none
mark_if b (some e) = some (record e { reaping = b || e.reaping })

-- Whether the job stands among the keys.
abbrev pub job_in : Bytes × Bytes → Expiries → Bool
job_in k [] = false
job_in k ((_, j) ∷ keys) = pair_beq j k || job_in k keys

abbrev pub lists : ℕ → Bytes × Bytes → List DueLease → Bool
lists t k [] = false
lists t k (d ∷ due) = expiry_eq (t, k) (d.expires_at, (d.queue, d.id)) || lists t k due

-- The loop found an entry for the first key, and went on with the entry marked.
record MarkedFirst (t : ℕ) (key : Bytes × Bytes) (keys : Expiries)
    (m marked : Map (Bytes × Bytes) Entry) (due : List DueLease) : Type 0 where
  entry : Entry
  rest : List DueLease
  found : Map.get key m ≡ some entry
  more : mark_due keys (Map.insert key (record entry { reaping = true }) m) ≡ some (rest, marked)
  first :
      due ≡ record { queue = key.0; id = key.1; expires_at = t; claim_id = entry.claim_id } ∷ rest

mark_due-MarkedFirst :
    (t : ℕ) (key : Bytes × Bytes) (keys : Expiries) (m marked : Map (Bytes × Bytes) Entry)
    (due : List DueLease)
    → mark_due ((t, key) ∷ keys) m ≡ some (due, marked)
    → MarkedFirst t key keys m marked due
unfolding mark_due
mark_due-MarkedFirst t key keys m marked due h = found_cases (Map.get key m) refl h
  where
    lease : Entry → DueLease
    lease e = record { queue = key.0; id = key.1; expires_at = t; claim_id = e.claim_id }

    more_cases :
        (e : Entry) (x : Option (List DueLease × Map (Bytes × Bytes) Entry))
        → Map.get key m ≡ some e
        → mark_due keys (Map.insert key (record e { reaping = true }) m) ≡ x
        → push_due (lease e) x ≡ some (due, marked)
        → MarkedFirst t key keys m marked due
    more_cases e none g p q = cc
    more_cases e (some (rest, marked')) g p q = record {
      entry = e;
      rest = rest;
      found = g;
      more = p ∙ ground arith;
      first = ground arith;
    }

    found_cases :
        (o : Option Entry)
        → Map.get key m ≡ o
        → (elim o [
          | none ↦ none
          | some e ↦
              push_due (lease e) (mark_due keys (Map.insert key (record e { reaping = true }) m))
        ])
          ≡ some (due, marked)
        → MarkedFirst t key keys m marked due
    found_cases none g q = cc
    found_cases (some e) g q = more_cases e _ g refl q

pub marked_jobs :
    (keys : Expiries) (m marked : Map (Bytes × Bytes) Entry) (due : List DueLease)
    (k : Bytes × Bytes)
    → mark_due keys m ≡ some (due, marked)
    → Map.get k marked ≡ mark_if (job_in k keys) (Map.get k m)
marked_jobs [] m marked due k h = unfold mark_due in ground (arith, Option-cases (Map.get k m))
marked_jobs ((t, key) ∷ keys) m marked due k h =
    let f = mark_due-MarkedFirst t key keys m marked due h in
    marked_jobs keys (Map.insert key (record f.entry { reaping = true }) m) marked f.rest k f.more
    ∙ ground (
      arith,
      get-insert key k (record f.entry { reaping = true }) m,
      pair_beq_iff key k,
      f.found,
      Option-cases (Map.get k m),
    )

pub listed_keys :
    (keys : Expiries) (m marked : Map (Bytes × Bytes) Entry) (due : List DueLease) (t : ℕ)
    (k : Bytes × Bytes)
    → mark_due keys m ≡ some (due, marked)
    → lists t k due ≡ contains (t, k) keys
listed_keys [] m marked due t k h = unfold mark_due in ground arith
listed_keys ((u, key) ∷ keys) m marked due t k h =
    let f = mark_due-MarkedFirst u key keys m marked due h in
    ap (lists t k) f.first
    ∙ ap (λ b. expiry_eq (t, k) (u, key) || b)
        (listed_keys keys (Map.insert key (record f.entry { reaping = true }) m) marked f.rest t k
          f.more)

job_in-contains :
    (t : ℕ) (k : Bytes × Bytes) (keys : Expiries)
    → contains (t, k) keys ≡ true
    → job_in k keys ≡ true
unfolding expiry_eq
job_in-contains t k [] h = cc
job_in-contains t k ((u, j) ∷ keys) h =
    ground (arith, job_in-contains t k keys, pair_beq_iff k j, pair_beq_iff j k)

contains-job_in :
    (k : Bytes × Bytes) (keys : Expiries)
    → job_in k keys ≡ true
    → (t : ℕ) × (contains (t, k) keys ≡ true)
contains-job_in k [] h = cc
contains-job_in k ((u, j) ∷ keys) h = elim (Bool-cases (pair_beq j k)) [
  | inl e ↦ (u, unfold expiry_eq in ground (arith, pair_beq_iff k j, pair_beq_iff j k))
  | inr e ↦ let (t, c) = contains-job_in k keys (ground arith) in (t, rw c (ground arith))
]

abbrev pub is_due : ℕ → Option Entry → Bool
is_due now none = false
is_due now (some e) = leb e.expires_at now

pub job_in-due_keys :
    (r : Registry) (now : ℕ) (k : Bytes × Bytes)
    → IsCoherent r
    → job_in k (due_keys now r.by_expiry) ≡ is_due now (Map.get k r.by_job)
job_in-due_keys r now k c = found_cases (Map.get k r.by_job) refl
  where
    listed :
        (t : ℕ)
        → contains (t, k) (due_keys now r.by_expiry)
          ≡ (leb t now && has_expiry t (Map.get k r.by_job))
    listed t =
        contains-due_keys now (t, k) r.by_expiry c.ascending
        ∙ ap (λ b. leb t now && b) (c.agree t k)

    found_cases :
        (o : Option Entry)
        → Map.get k r.by_job ≡ o
        → job_in k (due_keys now r.by_expiry) ≡ is_due now o
    found_cases none g = elim (Bool-cases (job_in k (due_keys now r.by_expiry))) [
      | inl j ↦
          let (t, h) = contains-job_in k (due_keys now r.by_expiry) j in ground (arith, listed t)
      | inr j ↦ j
    ]
    found_cases (some e) g = elim (Bool-cases (job_in k (due_keys now r.by_expiry))) [
      | inl j ↦
          let (t, h) = contains-job_in k (due_keys now r.by_expiry) j in ground (arith, listed t)
      | inr j ↦
          ground
            (arith, listed e.expires_at, job_in-contains e.expires_at k (due_keys now r.by_expiry))
    ]

-- The expiries of the leases, in their order.
abbrev pub keys_of : List DueLease → Expiries
keys_of [] = []
keys_of (d ∷ due) = (d.expires_at, (d.queue, d.id)) ∷ keys_of due

-- Each lease is the one that its job has, with its expiry and its claim.
abbrev pub AllLive : Registry → List DueLease → Type 0
AllLive r [] = Unit {0}
AllLive r (d ∷ due) = (current r d.queue d.id ≡ some (d.expires_at, d.claim_id)) × AllLive r due

abbrev pub claim_of : Option Entry → Option ℕ
claim_of none = none
claim_of (some e) = some e.claim_id

abbrev pub AllClaims : Map (Bytes × Bytes) Entry → List DueLease → Type 0
AllClaims m [] = Unit {0}
AllClaims m (d ∷ due) = (claim_of (Map.get (d.queue, d.id) m) ≡ some d.claim_id) × AllClaims m due

mark_due-nil :
    (m marked : Map (Bytes × Bytes) Entry) (due : List DueLease)
    → mark_due [] m ≡ some (due, marked)
    → ◌≡◌ {A = List DueLease} [] due
unfolding mark_due
mark_due-nil m marked due h = cc

pub keys_of-mark_due :
    (keys : Expiries) (m marked : Map (Bytes × Bytes) Entry) (due : List DueLease)
    → mark_due keys m ≡ some (due, marked)
    → keys_of due ≡ keys
keys_of-mark_due [] m marked due h = ap keys_of (sym (mark_due-nil m marked due h))
keys_of-mark_due ((t, key) ∷ keys) m marked due h =
    let f = mark_due-MarkedFirst t key keys m marked due h in
    ap keys_of f.first
    ∙ ap (λ ks. (t, key) ∷ ks)
        (keys_of-mark_due keys (Map.insert key (record f.entry { reaping = true }) m) marked f.rest
          f.more)

-- The claims are those of a map whose entries the marking did not change otherwise.
pub mark_due-AllClaims :
    (keys : Expiries) (m m' marked : Map (Bytes × Bytes) Entry) (due : List DueLease)
    → ((k : Bytes × Bytes) → claim_of (Map.get k m') ≡ claim_of (Map.get k m))
    → mark_due keys m' ≡ some (due, marked)
    → AllClaims m due
mark_due-AllClaims [] m m' marked due same h = subst (AllClaims m) (mark_due-nil m' marked due h) tt
mark_due-AllClaims ((t, key) ∷ keys) m m' marked due same h =
    let f = mark_due-MarkedFirst t key keys m' marked due h in
    subst (AllClaims m) (sym f.first) (
      sym (same key) ∙ ap claim_of f.found,
      mark_due-AllClaims keys m (Map.insert key (record f.entry { reaping = true }) m') marked
          f.rest
          (λ k. ground (
            arith,
            get-insert key k (record f.entry { reaping = true }) m',
            pair_beq_iff key k,
            f.found,
            same k,
          ))
          f.more,
    )

pub AllClaims-AllLive :
    (r : Registry) (due : List DueLease)
    → AllClaims r.by_job due
    → ((t : ℕ) (k : Bytes × Bytes)
        → lists t k due ≡ true
        → has_expiry t (Map.get k r.by_job) ≡ true)
    → AllLive r due
unfolding current
AllClaims-AllLive r [] a h = tt
AllClaims-AllLive r (d ∷ due) (c, a) h = (
  live (Map.get (d.queue, d.id) r.by_job) refl,
  AllClaims-AllLive r due a (λ t k l. h t k (ground (arith, l))),
)
  where
    live :
        (o : Option Entry)
        → Map.get (d.queue, d.id) r.by_job ≡ o
        → current r d.queue d.id ≡ some (d.expires_at, d.claim_id)
    live none g = ground (arith, g, c)
    live (some e) g = ground (
      arith,
      g,
      sym (ap (has_expiry d.expires_at) g)
          ∙ h d.expires_at (d.queue, d.id)
              (ground (arith, expiry_eq_refl (d.expires_at, (d.queue, d.id)))),
      sym (ap claim_of g) ∙ c,
    )

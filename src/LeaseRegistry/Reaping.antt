-- ===== src/LeaseRegistry/Reaping.antt =====
-- What the reaper gets from the registry, what a marked lease refuses, and the fence on a claim id.
pub mod Marked
use taquba.Base.{
  ℕ, ◌≡◌, ◌≤◌, refl, sym, subst, ap, ◌∙◌, Bool, true, false, not, ◌&&◌, ◌||◌, List, [], ◌∷◌, Option,
  none, some, arith, ◌==◌, Option-cases, Bool-cases, inl, inr, if◌then◌else◌, ltb, leb,
}
use taquba.Bytes.{Bytes}
use taquba.Map.{Map, pair_Eq, pair_beq, pair_beq_iff, get-insert, get-insert_self, get-remove_self}
use taquba.Map
use taquba.Error.{ok, err, claim_lost}
use taquba.LeaseRegistry.{
  Renewal, Entry, Registry, DueLease, insert, renew_entry, renew, current, mark_due, push_due,
  take_due, remove_entry, remove,
}
use taquba.LeaseRegistry.ExpirySet.{
  Expiries, IsAscending, expiry_eq, expiry_eq_refl, due_keys-IsAscending, contains,
  contains-due_keys, due_keys,
}
use taquba.LeaseRegistry.Coherence.{IsCoherent, has_expiry, mark_due-total}
use taquba.LeaseRegistry.Reaping.Marked.{
  mark_if, job_in, lists, is_due, keys_of, AllLive, marked_jobs, listed_keys, job_in-due_keys,
  keys_of-mark_due, mark_due-AllClaims, AllClaims-AllLive,
}

-- `take_due` on a coherent registry does not panic and returns the leases that expire at or before the
-- time: exactly these, each once and in the order of expiry, queue and id, each with the claim that
-- holds it. It marks these and no others: every other field of every lease stays.
pub take_due_exact :
    (r : Registry) (now : ℕ)
    → IsCoherent r
    → (due : List DueLease) × (s : Registry) × (take_due r now ≡ some (due, s))
      × ((t : ℕ) (k : Bytes × Bytes)
          → lists t k due ≡ (leb t now && has_expiry t (Map.get k r.by_job)))
      × IsAscending (keys_of due)
      × AllLive r due
      × ((k : Bytes × Bytes)
          → Map.get k s.by_job ≡ mark_if (is_due now (Map.get k r.by_job)) (Map.get k r.by_job))
unfolding take_due
take_due_exact r now c =
    let (due, marked, q, b) = mark_due-total r now c in
    let listed : (t : ℕ) (k : Bytes × Bytes)
        → lists t k due ≡ (leb t now && has_expiry t (Map.get k r.by_job)) =
      λ t k.
        listed_keys (due_keys now r.by_expiry) r.by_job marked due t k q
        ∙ contains-due_keys now (t, k) r.by_expiry c.ascending
        ∙ ap (λ b. leb t now && b) (c.agree t k) in
    (
      due,
      record r { by_job = marked },
      rw (q, take_due),
      listed,
      subst IsAscending (sym (keys_of-mark_due (due_keys now r.by_expiry) r.by_job marked due q))
          (due_keys-IsAscending now r.by_expiry c.ascending),
      AllClaims-AllLive r due
          (mark_due-AllClaims (due_keys now r.by_expiry) r.by_job r.by_job marked due (λ k. refl) q)
          (λ t k l. ground (arith, listed t k, l)),
      λ k.
          marked_jobs (due_keys now r.by_expiry) r.by_job marked due k q
          ∙ ap (λ b. mark_if b (Map.get k r.by_job)) (job_in-due_keys r now k c),
    )

-- Once the reaper took a lease of a coherent registry as due, every renewal of it fails, whichever
-- claim asks, for whatever time and in either mode, as long as the claim's token was not fired; the
-- lease is lost also in a closed registry.
pub due_lease_refuses_renewal :
    (r s : Registry) (now : ℕ) (due : List DueLease) (queue id : Bytes) (e : Entry)
    (claim_id expires_at : ℕ) (mode : Renewal)
    → IsCoherent r
    → take_due r now ≡ some (due, s)
    → Map.get (queue, id) r.by_job ≡ some e
    → e.expires_at ≤ now
    → renew s queue id claim_id false expires_at mode ≡ err claim_lost
unfolding renew renew_entry
due_lease_refuses_renewal r s now due queue id e claim_id expires_at mode c taken g late =
    let (due', s', taken', _, _, _, marks) = take_due_exact r now c in
    ground (arith, marks (queue, id))

abbrev pub target : Renewal → ℕ → ℕ → ℕ
target Renewal.set old requested = requested
target Renewal.extend old requested = if ltb old requested then requested else old

entry_result :
    (r s : Registry) (key : Bytes × Bytes) (claim_id expires_at : ℕ) (mode : Renewal) (e : Entry)
    (changed : Bool)
    → Map.get key r.by_job ≡ some e
    → renew_entry r key claim_id expires_at mode (some e) ≡ ok (changed, s)
    → (e.claim_id ≡ claim_id)
      × (f : Entry) × (Map.get key s.by_job ≡ some f)
      × (f.expires_at ≡ target mode e.expires_at expires_at)
      × (f.claim_id ≡ claim_id)
      × (changed ≡ not (target mode e.expires_at expires_at == e.expires_at))
unfolding renew_entry
entry_result r s key claim_id expires_at mode e changed g h = (
  ground arith,
  record e { expires_at = target mode e.expires_at expires_at },
  by_mode mode h,
  refl,
  ground arith,
  ground arith,
)
  where
    by_mode :
        (mode' : Renewal)
        → renew_entry r key claim_id expires_at mode' (some e) ≡ ok (changed, s)
        → Map.get key s.by_job
          ≡ some (record e { expires_at = target mode' e.expires_at expires_at })
    by_mode Renewal.set q =
        ground (arith, get-insert_self key (record e { expires_at = expires_at }) r.by_job)
    by_mode Renewal.extend q =
        ground (arith, get-insert_self key (record e { expires_at = expires_at }) r.by_job)

-- A renewal succeeds only for the claim that holds the lease, while the registry is open and the
-- claim's token was not fired. It sets the expiry to the requested one, or raises it to the requested
-- one in the mode `extend`, keeps the claim, and reports whether the expiry changed.
pub renew_result :
    (r s : Registry) (queue id : Bytes) (claim_id expires_at : ℕ) (is_cancelled : Bool)
    (mode : Renewal) (changed : Bool)
    → renew r queue id claim_id is_cancelled expires_at mode ≡ ok (changed, s)
    → (r.closed ≡ false)
      × (is_cancelled ≡ false)
      × (old : ℕ) × (current r queue id ≡ some (old, claim_id))
      × (current s queue id ≡ some (target mode old expires_at, claim_id))
      × (changed ≡ not (target mode old expires_at == old))
unfolding renew current
renew_result r s queue id claim_id expires_at is_cancelled mode changed h =
    found_cases (Map.get (queue, id) r.by_job) refl (ground arith)
  where
    found_cases :
        (o : Option Entry)
        → Map.get (queue, id) r.by_job ≡ o
        → renew_entry r (queue, id) claim_id expires_at mode (Map.get (queue, id) r.by_job)
          ≡ ok (changed, s)
        → (r.closed ≡ false)
          × (is_cancelled ≡ false)
          × (old : ℕ) × (current r queue id ≡ some (old, claim_id))
          × (current s queue id ≡ some (target mode old expires_at, claim_id))
          × (changed ≡ not (target mode old expires_at == old))
    found_cases none g q = absurd (not_found (rw g at q))
      where
        not_found : renew_entry r (queue, id) claim_id expires_at mode none ≡ ok (changed, s) → ⊥
        not_found q = unfold renew_entry in cc
    found_cases (some e) g q =
        let (own, f, gs, at, cl, ch) =
          entry_result r s (queue, id) claim_id expires_at mode e changed g (rw g at q) in
        (
          ground arith,
          ground arith,
          e.expires_at,
          rw (g, current) (ground arith),
          rw (gs, current) (ground arith),
          ch,
        )

-- A removal for an earlier claim of the job leaves the lease of the claim that replaced it, and a
-- removal for the claim itself ends its lease.
pub remove_fenced :
    (r : Registry) (queue id : Bytes) (expires_at claim_id token other : ℕ)
    → current (remove (insert r queue id expires_at claim_id token) queue id other) queue id
      ≡ (if claim_id == other then none else some (expires_at, claim_id))
unfolding remove remove_entry insert current
remove_fenced r queue id expires_at claim_id token other =
    let key : Bytes × Bytes = (queue, id) in
    elim (Bool-cases (claim_id == other)) [
      | inl e ↦ rw (get-insert_self key _ r.by_job, remove_entry, e, current, get-remove_self key _)
      | inr e ↦
          rw (
            get-insert_self key _ r.by_job,
            remove_entry,
            e,
            current,
            get-insert_self key _ r.by_job,
          )
    ]

-- ===== src/LeaseRegistry/Tests.antt =====
-- The registry on concrete leases.
use taquba.Base.{ℕ, ◌≡◌, refl, Bool, true, false, not, ◌&&◌, List, [], ◌∷◌, some, arith, leb, ◌==◌}
use taquba.Bytes.{Bytes, bytes_eq}
use taquba.Map.{pair_beq, pair_Eq}
use taquba.Map
use taquba.Error.{ok, err, claim_lost}
use taquba.LeaseRegistry.{
  Renewal, Registry, DueLease, Entry, new, insert, renew, renew_entry, current, take_due, mark_due,
  takes_due, removes, run,
}
use taquba.LeaseRegistry.ExpirySet.{IsAscending, contains, due_keys, expiry_eq, expiry_lt}
use taquba.LeaseRegistry.ExpirySet
use taquba.LeaseRegistry.Coherence.{
  IsCoherent, new-IsCoherent, insert-IsCoherent, run-IsCoherent, has_expiry,
}
use taquba.LeaseRegistry.Reaping.{take_due_exact, due_lease_refuses_renewal, renew_result, target}
use taquba.LeaseRegistry.Reaping.Marked.{lists, keys_of, AllLive, mark_if, is_due}

abbrev q : Bytes
q = b'q' ∷ []

abbrev job : Bytes
job = b'j' ∷ []

-- One lease, of claim 7, that expires at 100.
abbrev held : Registry
held = insert new q job 100 7 0

abbrev lease : Entry
lease = record { expires_at = 100; claim_id = 7; cancel = 0; reaping = false }

held-IsCoherent : IsCoherent held
held-IsCoherent = insert-IsCoherent new q job 100 7 0 new-IsCoherent

run-IsCoherent_example :
    (s : Registry) × (run held (takes_due 100 ∷ (removes q job 7 ∷ [])) ≡ some s) × IsCoherent s
run-IsCoherent_example =
    run-IsCoherent held (takes_due 100 ∷ (removes q job 7 ∷ [])) held-IsCoherent

take_due_exact_example :
    (due : List DueLease) × (s : Registry) × (take_due held 100 ≡ some (due, s))
    × ((t : ℕ) (k : Bytes × Bytes)
        → lists t k due ≡ (leb t 100 && has_expiry t (Map.get k held.by_job)))
    × IsAscending (keys_of due)
    × AllLive held due
    × ((k : Bytes × Bytes)
        → Map.get k s.by_job ≡ mark_if (is_due 100 (Map.get k held.by_job)) (Map.get k held.by_job))
take_due_exact_example = take_due_exact held 100 held-IsCoherent

abbrev marked : Registry
marked = record held { by_job = Map.insert (q, job) (record lease { reaping = true }) held.by_job }

held_due :
    take_due held 100
    ≡ some (record { queue = q; id = job; expires_at = 100; claim_id = 7 } ∷ [], marked)
unfolding take_due mark_due due_keys insert ExpirySet.insert Map.insert Map.get pair_beq bytes_eq
held_due = refl

held_lease : Map.get (q, job) held.by_job ≡ some lease
unfolding insert Map.insert Map.get pair_beq bytes_eq
held_lease = refl

due_lease_refuses_renewal_example : renew marked q job 7 false 500 Renewal.extend ≡ err claim_lost
due_lease_refuses_renewal_example =
    due_lease_refuses_renewal held marked 100 _ q job lease 7 500 Renewal.extend held-IsCoherent
      held_due held_lease (omega arith)

abbrev extended : Registry
extended = record held {
  by_expiry = ExpirySet.insert (150, (q, job)) (ExpirySet.remove (100, (q, job)) held.by_expiry);
  by_job = Map.insert (q, job) (record lease { expires_at = 150 }) held.by_job;
}

held_renewed : renew held q job 7 false 150 Renewal.extend ≡ ok (true, extended)
unfolding renew renew_entry insert ExpirySet.insert ExpirySet.remove Map.insert Map.get pair_beq
    bytes_eq
held_renewed = refl

renew_result_example :
    (held.closed ≡ false)
    × (◌≡◌ {A = Bool} false false)
    × (old : ℕ) × (current held q job ≡ some (old, 7))
    × (current extended q job ≡ some (target Renewal.extend old 150, 7))
    × (true ≡ not (target Renewal.extend old 150 == old))
renew_result_example = renew_result held extended q job 7 150 false Renewal.extend true held_renewed

-- ===== src/LeaseRegistry.antt =====
-- taquba/src/lease_registry.rs: the leases of the claimed jobs, in the memory of the process. Each
-- method runs under the registry's lock, so it is one function on the registry. A cancellation token
-- (`tokio_util`) is its identity: `cancel` and `close` return the tokens that they fire, and `renew`
-- is given whether the claim's token was fired.
pub mod ExpirySet
pub mod Coherence
pub mod Reaping
mod Tests
use taquba.Base.{
  ℕ, Bool, true, false, not, ◌&&◌, ◌||◌, List, [], ◌∷◌, Option, none, some, ltb, leb, ◌==◌,
  if◌then◌else◌,
}
use taquba.Bytes.{Bytes}
use taquba.Map.{Map, pair_Eq}
use taquba.Map
use taquba.Error.{Result, ok, err, panic, claim_lost, cancel_requested}
use ExpirySet.{Expiries}

pub data Renewal : Type 0 where
  set extend : Renewal

pub record DueLease : Type 0 where
  pub queue : Bytes
  pub id : Bytes
  pub expires_at : ℕ
  pub claim_id : ℕ

pub record Entry : Type 0 where
  pub expires_at : ℕ  -- u64
  pub claim_id : ℕ  -- u64
  pub cancel : ℕ
  pub reaping : Bool

pub record Registry : Type 0 where
  pub by_job : Map (Bytes × Bytes) Entry
  pub by_expiry : Expiries
  pub closed : Bool

abbrev pub new : Registry
new = record { by_job = []; by_expiry = []; closed = false }

-- The first half of `insert`: the expiry of a replaced entry leaves the set.
abbrev drop_old : Bytes × Bytes → Option Entry → Expiries → Expiries
drop_old key none expiries = expiries
drop_old key (some old) expiries = ExpirySet.remove (old.expires_at, key) expiries

unfoldable pub insert : Registry → Bytes → Bytes → ℕ → ℕ → ℕ → Registry
insert r queue id expires_at claim_id cancel =
    let key : Bytes × Bytes = (queue, id) in
    record r {
      by_expiry =
          ExpirySet.insert (expires_at, key) (drop_old key (Map.get key r.by_job) r.by_expiry);
      by_job =
          Map.insert key
            (record {
              expires_at = expires_at;
              claim_id = claim_id;
              cancel = cancel;
              reaping = false;
            })
            r.by_job;
    }

-- `matches!(mode, Renewal::Extend)`.
abbrev is_extend : Renewal → Bool
is_extend set = false
is_extend extend = true

-- The move of a lease to another expiry, in both views.
abbrev renewed : Registry → Bytes × Bytes → Entry → ℕ → Registry
renewed r key e expires_at = record r {
  by_expiry = ExpirySet.insert (expires_at, key) (ExpirySet.remove (e.expires_at, key) r.by_expiry);
  by_job = Map.insert key (record e { expires_at = expires_at }) r.by_job;
}

-- The rest of `renew`, from the entry found.
renew_entry : Registry → Bytes × Bytes → ℕ → ℕ → Renewal → Option Entry → Result (Bool × Registry)
renew_entry r key claim_id expires_at mode none = err claim_lost
renew_entry r key claim_id expires_at mode (some e) =
    if e.claim_id == claim_id && not e.reaping
    then if e.expires_at == expires_at || (is_extend mode && ltb expires_at e.expires_at)
      then ok (false, r)
      else ok (true, renewed r key e expires_at)
    else err claim_lost

-- `is_cancelled` is the state of the claim's token. A failure leaves the registry as it was.
unfoldable pub renew : Registry → Bytes → Bytes → ℕ → Bool → ℕ → Renewal → Result (Bool × Registry)
unfolding renew_entry
renew r queue id claim_id is_cancelled expires_at mode =
    if r.closed
    then err claim_lost
    else if is_cancelled
    then err cancel_requested
    else renew_entry r (queue, id) claim_id expires_at mode (Map.get (queue, id) r.by_job)

unfoldable pub current : Registry → Bytes → Bytes → Option (ℕ × ℕ)
current r queue id = elim (Map.get (queue, id) r.by_job) [
  | none ↦ none
  | some e ↦ some (e.expires_at, e.claim_id)
]

-- The token that is fired. The result of the method is whether there is one.
unfoldable pub cancel : Registry → Bytes → Bytes → Option ℕ
cancel r queue id = elim (Map.get (queue, id) r.by_job) [ none ↦ none | some e ↦ some e.cancel ]

abbrev tokens : Map (Bytes × Bytes) Entry → List ℕ
tokens [] = []
tokens ((_, e) ∷ m) = e.cancel ∷ tokens m

unfoldable pub close : Registry → Registry × List ℕ
close r = (record r { closed = true }, tokens r.by_job)

abbrev push_due :
    DueLease
    → Option (List DueLease × Map (Bytes × Bytes) Entry)
    → Option (List DueLease × Map (Bytes × Bytes) Entry)
push_due d none = none
push_due d (some (due, marked)) = some (d ∷ due, marked)

-- The loop of `take_due` over the due keys. `none` is the panic of `expect`.
unfoldable pub mark_due :
    Expiries → Map (Bytes × Bytes) Entry → Option (List DueLease × Map (Bytes × Bytes) Entry)
mark_due [] by_job = some ([], by_job)
mark_due ((t, key) ∷ keys) by_job = elim (Map.get key by_job) [
  | none ↦ none
  | some e ↦
      push_due (record { queue = key.0; id = key.1; expires_at = t; claim_id = e.claim_id })
        (mark_due keys (Map.insert key (record e { reaping = true }) by_job))
]

unfoldable pub take_due : Registry → ℕ → Option (List DueLease × Registry)
take_due r now = elim (mark_due (ExpirySet.due_keys now r.by_expiry) r.by_job) [
  | none ↦ none
  | some (due, marked) ↦ some (due, record r { by_job = marked })
]

remove_entry : Registry → Bytes × Bytes → ℕ → Option Entry → Registry
remove_entry r key claim_id none = r
remove_entry r key claim_id (some e) =
    if e.claim_id == claim_id
    then record r {
      by_job = Map.remove key r.by_job;
      by_expiry = ExpirySet.remove (e.expires_at, key) r.by_expiry;
    }
    else r

unfoldable pub remove : Registry → Bytes → Bytes → ℕ → Registry
unfolding remove_entry
remove r queue id claim_id = remove_entry r (queue, id) claim_id (Map.get (queue, id) r.by_job)

-- The calls of the methods that change the registry.
pub data Call : Type 0 where
  inserts : Bytes → Bytes → ℕ → ℕ → ℕ → Call
  renews : Bytes → Bytes → ℕ → Bool → ℕ → Renewal → Call
  closes : Call
  takes_due : ℕ → Call
  removes : Bytes → Bytes → ℕ → Call

-- `none` is a panic.
unfoldable pub step : Registry → Call → Option Registry
step r (inserts queue id expires_at claim_id cancel) =
    some (insert r queue id expires_at claim_id cancel)
step r (renews queue id claim_id is_cancelled expires_at mode) =
    elim (renew r queue id claim_id is_cancelled expires_at mode) [
      | ok (changed, s) ↦ some s
      | err e ↦ some r
      | panic ↦ none
    ]
step r closes = some (close r).0
step r (takes_due now) = elim (take_due r now) [ none ↦ none | some (due, s) ↦ some s ]
step r (removes queue id claim_id) = some (remove r queue id claim_id)

-- The calls run in order, from the first.
unfoldable pub run : Registry → List Call → Option Registry
run r [] = some r
run r (c ∷ cs) = elim (step r c) [ none ↦ none | some s ↦ run s cs ]

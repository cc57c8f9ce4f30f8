-- ===== src/Txn/Keyed.antt =====
-- A stored record is found by its key: two records at one key are of the same job, and no record
-- stands at an index key.
use taquba.Base.{
  ℕ, ◌<◌, ◌≡◌, refl, sym, ap, ◌∙◌, Bool, true, false, Option, none, some, arith, length, inl, inr,
  Bool-cases, subst,
}
use taquba.Bytes.{Bytes, bytes_eq}
use taquba.Bytes.Order.{eq_of_bytes_eq}
use taquba.Status.{JobStatus, pending, scheduled, claimed, done, dead}
use taquba.Keys.{
  KeyTag, of, job_status, scheduled_key, claimed_key, done_key, dead_key, job_index_key,
}
use taquba.Keys.Injective.{
  pending_key-injective, time_first_key-injective, queue_first_key-injective,
}
use taquba.Job.{JobRecord, stored_key, stored_key_for}
use taquba.Job.Storage.{status_of, status_of-stored_key}

stored_key_for-injective :
    (s : JobStatus) (i j : JobRecord) (key : Bytes)
    → length i.queue < 256
    → length j.queue < 256
    → stored_key_for s i ≡ some key
    → stored_key_for s j ≡ some key
    → (i.queue ≡ j.queue) × (i.id ≡ j.id)
unfolding scheduled_key claimed_key done_key dead_key
stored_key_for-injective pending i j key hi hj p q =
    pending_key-injective i.queue j.queue i.priority j.priority i.enqueued_at j.enqueued_at i.id
      j.id hi hj (cc)
stored_key_for-injective claimed i j key hi hj p q =
    queue_first_key-injective KeyTag.claimed i.queue j.queue i.id j.id hi hj (cc)
stored_key_for-injective dead i j key hi hj p q =
    queue_first_key-injective KeyTag.dead i.queue j.queue i.id j.id hi hj (cc)
stored_key_for-injective scheduled i j key hi hj p q = times i.run_at j.run_at p q
  where
    times :
        (m n : Option ℕ)
        → (elim m [ none ↦ none | some t ↦ some (scheduled_key i.queue t i.id) ]) ≡ some key
        → (elim n [ none ↦ none | some t ↦ some (scheduled_key j.queue t j.id) ]) ≡ some key
        → (i.queue ≡ j.queue) × (i.id ≡ j.id)
    times none n p q = cc
    times (some m) none p q = cc
    times (some m) (some n) p q =
        time_first_key-injective KeyTag.scheduled m n i.queue j.queue i.id j.id hi hj (cc)
stored_key_for-injective done i j key hi hj p q = times i.completed_at j.completed_at p q
  where
    times :
        (m n : Option ℕ)
        → (elim m [ none ↦ none | some t ↦ some (done_key t i.queue i.id) ]) ≡ some key
        → (elim n [ none ↦ none | some t ↦ some (done_key t j.queue j.id) ]) ≡ some key
        → (i.queue ≡ j.queue) × (i.id ≡ j.id)
    times none n p q = cc
    times (some m) none p q = cc
    times (some m) (some n) p q =
        time_first_key-injective KeyTag.done m n i.queue j.queue i.id j.id hi hj (cc)

-- Two records that are stored under one key are of the same queue and have the same id, whatever
-- their states, for queue names of at most 255 bytes.
pub stored_key-injective :
    (i j : JobRecord) (key : Bytes)
    → length i.queue < 256
    → length j.queue < 256
    → stored_key i ≡ some key
    → stored_key j ≡ some key
    → (i.queue ≡ j.queue) × (i.id ≡ j.id)
unfolding stored_key
stored_key-injective i j key hi hj p q =
    stored_key_for-injective i.status i j key hi hj p (ap (λ s. stored_key_for s j) same ∙ q)
  where
    same : i.status ≡ j.status
    same = cc (status_of-stored_key i key p, status_of-stored_key j key q)

-- The key spaces that a job has an entry in: the five of its record, and the index.
abbrev space_of : Option KeyTag → Bool
space_of none = false
space_of (some KeyTag.pending) = true
space_of (some KeyTag.claimed) = true
space_of (some KeyTag.scheduled) = true
space_of (some KeyTag.done) = true
space_of (some KeyTag.dead) = true
space_of (some KeyTag.job_index) = true
space_of (some _) = false

unfoldable pub job_space : Bytes → Bool
job_space key = space_of (of key)

pub job_space-index : (id : Bytes) → job_space (job_index_key id) ≡ true
unfolding job_space of job_index_key
job_space-index id = refl

pub job_space-record : (key : Bytes) (s : JobStatus) → status_of key ≡ some s → job_space key ≡ true
unfolding job_space job_status
job_space-record key s h = ground arith

index-status : (id : Bytes) (s : JobStatus) → status_of (job_index_key id) ≡ some s → ⊥
unfolding of job_index_key job_status
index-status id s h = cc

-- No record stands at an index key.
pub index-not_record :
    (id key : Bytes) (s : JobStatus)
    → status_of key ≡ some s
    → bytes_eq (job_index_key id) key ≡ false
index-not_record id key s h = elim (Bool-cases (bytes_eq (job_index_key id) key)) [
  | inl e ↦ absurd (
      index-status id s
        (subst (λ k. status_of k ≡ some s) (sym (eq_of_bytes_eq (job_index_key id) key e)) h))
  | inr e ↦ e
]

pub index-injective : (i j : Bytes) → bytes_eq (job_index_key i) (job_index_key j) ≡ true → i ≡ j
unfolding job_index_key
index-injective i j h = ground (arith, eq_of_bytes_eq (job_index_key i) (job_index_key j))

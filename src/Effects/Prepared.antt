-- ===== src/Effects/Prepared.antt =====
-- What the preparation of a new job and of effects lets through.
use taquba.Base.{
  ℕ, ◌≡◌, ◌⊎◌, ◌≤◌, ◌<◌, inl, inr, refl, sym, subst, ap, ◌∙◌, true, false, List, [], ◌∷◌, Option,
  none, some, arith, length, Bool-cases, ltb,
}
use taquba.Bytes.{Bytes, bytes_eq}
use taquba.Bytes.Order.{eq_of_bytes_eq}
use taquba.Map.{Map, bytes_Eq}
use taquba.Map
use taquba.Form.{Text}
use taquba.Status.{pending, scheduled}
use taquba.Job.{JobRecord, stored_key, new_pending}
use taquba.Error.{ok, bind-ok, ok-injective}
use taquba.QueueName
use taquba.QueueName.Accepted.{new-fits}
use taquba.Kv.{validate_kv_value_size, max_kv_value_size}
use taquba.Options.{QueueConfig, QueueConfigs, config_of, EnqueueOptions}
use taquba.Effects.{
  PreparedJob, PreparedEffects, SettlementEffects, job_id, check_waits, new_job, future_run_at,
  prepare_job_record, prepare_jobs, prepare_effects, prepare_unconflicted, check_sizes, conflicting,
}
use taquba.Effects.Applied.{is_in}

-- A record that a new job starts with: it is pending, or scheduled for a later time, only a scheduled
-- one waits, and its state has a key, which has room for the name of the queue.
pub record IsNew (now : ℕ) (job : JobRecord) : Type 0 where
  pub starts :
      ((job.status ≡ pending) × (job.run_at ≡ none))
      ⊎ ((job.status ≡ scheduled) × (at : ℕ) × (job.run_at ≡ some at) × (now < at))
  pub pending_waits_not : job.status ≡ pending → (job.signal_wait ≡ false) × (job.count_wait ≡ none)
  pub keyed : (key : Bytes) × (stored_key job ≡ some key)
  pub queue_fits : length job.queue < 256
  pub unclaimed : (job.attempts ≡ 0) × (job.claimed_at ≡ none)

module _ (config : QueueConfig) (id queue payload : Bytes) (opts : EnqueueOptions)
    (now enqueued_at : ℕ) (fits : length queue < 256) where
  at_once-IsNew : IsNew now (new_job config id queue payload opts none enqueued_at)
  unfolding new_job new_pending stored_key
  at_once-IsNew = record {
    starts = inl (refl, refl);
    pending_waits_not = λ h. (ground arith, refl);
    keyed = (_, refl);
    queue_fits = fits;
    unclaimed = (refl, refl);
  }

  later-IsNew :
      (at : ℕ) → now < at → IsNew now (new_job config id queue payload opts (some at) enqueued_at)
  unfolding new_job new_pending stored_key
  later-IsNew at h = record {
    starts = inr (refl, at, refl, h);
    pending_waits_not = λ e. absurd (ground (arith, e));
    keyed = (_, refl);
    queue_fits = fits;
    unclaimed = (refl, refl);
  }

  new_job-IsNew :
      (run_at : Option ℕ)
      → IsNew now (new_job config id queue payload opts (future_run_at now run_at) enqueued_at)
  unfolding future_run_at
  new_job-IsNew none = at_once-IsNew
  new_job-IsNew (some at) = elim (Bool-cases (ltb now at)) [
    | inl e ↦
        subst (λ m. IsNew now (new_job config id queue payload opts m enqueued_at)) (sym (rw e))
          (later-IsNew at (ground (arith, e)))
    | inr e ↦
        subst (λ m. IsNew now (new_job config id queue payload opts m enqueued_at)) (sym (rw e))
          at_once-IsNew
  ]

-- A record that the preparation of a job returns is pending or is scheduled for a later time, waits
-- only when it is scheduled, has a key with room for the name of its queue, and starts with no
-- attempt and no claim.
pub prepare_job_record-IsNew :
    (configs : QueueConfigs) (next_id : Bytes) (now enqueued_at : ℕ) (queue : Text)
    (payload : Bytes) (opts : EnqueueOptions) (p : PreparedJob)
    → prepare_job_record configs next_id now enqueued_at queue payload opts ≡ ok p
    → IsNew now p.job
unfolding prepare_job_record
prepare_job_record-IsNew configs next_id now enqueued_at queue payload opts p h =
    let (name, e, h) = bind-ok (QueueName.new queue) _ p h in
    let ((id, used), f, h) = bind-ok (job_id opts.id_override next_id) _ p h in
    let (checked, g, h) = bind-ok (check_waits opts) _ p h in
    subst (λ q. IsNew now q.job) (ok-injective _ p h)
      (new_job-IsNew (config_of configs name) id name payload opts now enqueued_at
        (new-fits queue name e).2 opts.run_at)

check_sizes-fits :
    (writes : Map Bytes Bytes) (key value : Bytes)
    → check_sizes writes ≡ ok tt
    → Map.get key writes ≡ some value
    → length value ≤ max_kv_value_size
unfolding check_sizes Map.get validate_kv_value_size max_kv_value_size
check_sizes-fits [] key value h e = cc
check_sizes-fits ((k, v) ∷ writes) key value h e =
    let (checked, p, q) = bind-ok (validate_kv_value_size v) (λ _. check_sizes writes) tt h in
    elim (Bool-cases (bytes_eq k key)) [
      | inl same ↦ ground (arith, p, e, same)
      | inr other ↦ check_sizes-fits writes key value q (ground (arith, e, other))
    ]

conflicting-none :
    (writes : Map Bytes Bytes) (keys : List Bytes) (key : Bytes)
    → conflicting writes keys ≡ none
    → is_in key keys ≡ true
    → Map.get key writes ≡ none
unfolding conflicting is_in
conflicting-none writes [] key h e = absurd (ground (arith, e))
conflicting-none writes (k ∷ keys) key h e = elim (Bool-cases (bytes_eq k key)) [
  | inl same ↦
      subst (λ x. Map.get x writes ≡ none) (eq_of_bytes_eq k key same)
        (unwritten (Map.get k writes) refl)
  | inr other ↦ conflicting-none writes keys key (ground (arith, h)) (ground (arith, e, other))
]
  where
    unwritten : (m : Option Bytes) → Map.get k writes ≡ m → Map.get k writes ≡ none
    unwritten none p = p
    unwritten (some v) p = absurd (ground (arith, h, p))

unconflicted-kv :
    (configs : QueueConfigs) (draws : ℕ → Bytes × ℕ × ℕ) (effects : SettlementEffects)
    (conflict : Option Bytes) (p : PreparedEffects)
    → prepare_unconflicted configs draws effects conflict ≡ ok p
    → (conflict ≡ none) × (p.kv_writes ≡ effects.kv_writes) × (p.kv_deletes ≡ effects.kv_deletes)
unconflicted-kv configs draws effects (some key) p h = cc
unconflicted-kv configs draws effects none p h =
    let (jobs, e, f) = bind-ok (prepare_jobs configs draws 0 effects.enqueues) _ p h in
    (
      refl,
      sym (ap (λ x. x.kv_writes) (ok-injective _ p f)),
      sym (ap (λ x. x.kv_deletes) (ok-injective _ p f)),
    )

-- Effects that are prepared write no value above the maximum, and delete no key that they write.
pub prepare_effects_lem :
    (configs : QueueConfigs) (draws : ℕ → Bytes × ℕ × ℕ) (effects : SettlementEffects)
    (p : PreparedEffects)
    → prepare_effects configs draws effects ≡ ok p
    → ((key value : Bytes)
        → Map.get key p.kv_writes ≡ some value
        → length value ≤ max_kv_value_size)
      × ((key : Bytes) → is_in key p.kv_deletes ≡ true → Map.get key p.kv_writes ≡ none)
unfolding prepare_effects
prepare_effects_lem configs draws effects p h =
    let (checked, e, h) = bind-ok (check_sizes effects.kv_writes) _ p h in
    let (free, writes, deletes) =
      unconflicted-kv configs draws effects (conflicting effects.kv_writes effects.kv_deletes) p
        h in
    (
      λ key value g.
          check_sizes-fits effects.kv_writes key value e (ap (Map.get key) (sym writes) ∙ g),
      λ key g.
          ap (Map.get key) writes
          ∙ conflicting-none effects.kv_writes effects.kv_deletes key free
              (ap (is_in key) (sym deletes) ∙ g),
    )

-- ===== src/Options/NackCorrect.antt =====
-- The end of a claim by a failed delivery.
use taquba.Base.{
  ℕ, ◌≡◌, ◌≤◌, ◌⊎◌, ◌-◌, ◌+◌, ◌<◌, ◌/◌, ◌%◌, ◌==◌, ◌*◌, ◌^◌, arith, min, inl, inr, refl, true,
  false, none, some, Bool-cases, ap, subst, ◌∙◌,
}
use taquba.Bytes.{Bytes}
use taquba.Status.{pending, scheduled, dead}
use taquba.Keys.{claimed_key}
use taquba.Job.{JobRecord, is_last_attempt, stored_clone}
use taquba.History.{retried}
use taquba.Error.{ok}
use taquba.LeaseRegistry.{Registry, current}
use taquba.Backend.{Backend}
use taquba.Txn.{Txn}
use taquba.Txn.ClaimEnd.{ClaimEnd, retry}
use taquba.Txn.Consistent.{Stored, IsConsistent}
use taquba.Txn.Moved.{Kept}
use taquba.QueueCore.Settle.{settle_claim}
use taquba.QueueCore.SettleCorrect.{settle_claim_lem, ended, Left}
use taquba.Options.{QueueConfigs, config_of, nack_end, retry_time, duration_max}
use taquba.Options.Backoff.{backoff_delay_lem}

-- The exponential delay after the attempt of a job, in nanoseconds.
abbrev pub delay_of : QueueConfigs → JobRecord → ℕ
delay_of configs job =
    min ((config_of configs job.queue).retry_backoff_base * 2 ^ (job.attempts - 1))
      (config_of configs job.queue).retry_backoff_max

-- The state and the time of a job that is retried after a delay.
abbrev pub Retries : JobRecord → ℕ → ℕ → Type 0
Retries job now delay =
    ((delay ≡ 0) × (job.status ≡ pending) × (job.run_at ≡ none))
    ⊎ ((0 < delay) × (job.status ≡ scheduled) × (job.run_at ≡ some (now + delay / 1000000)))

retry_time-cases :
    (now delay : ℕ)
    → now + delay / 1000000 < 2 ^ 64
    → ((delay ≡ 0) × (retry_time now delay ≡ none))
      ⊎ ((0 < delay) × (retry_time now delay ≡ some (now + delay / 1000000)))
unfolding retry_time
retry_time-cases now delay h = elim (Bool-cases (delay == 0)) [
  | inl e ↦ inl (ground (arith, e), rw (retry_time, e) refl)
  | inr e ↦ inr (ground (arith, e), rw (retry_time, e) (ap some (wrapped h)))
]
  where
    wrapped :
        now + delay / 1000000 < 2 ^ 64
        → (now + delay / 1000000 % 2 ^ 64) % 2 ^ 64 ≡ now + delay / 1000000
    wrapped h = omega (arith, h)

nack_end_lem :
    (configs : QueueConfigs) (error : Bytes) (job : JobRecord) (now : ℕ)
    → (config_of configs job.queue).retry_backoff_max ≤ duration_max
    → (config_of configs job.queue).retry_backoff_max
      ≤ (config_of configs job.queue).retry_backoff_base * 4294967295
    → is_last_attempt job ≡ false
    → nack_end configs error (stored_clone job) now
      ≡ retry (retry_time now (delay_of configs job)) retried (some error)
unfolding nack_end stored_clone is_last_attempt
nack_end_lem configs error job now fits reached more = rw (
  more,
  backoff_delay_lem job.attempts (config_of configs job.queue).retry_backoff_base
      (config_of configs job.queue).retry_backoff_max fits reached,
)

nack_end-last :
    (configs : QueueConfigs) (error : Bytes) (job : JobRecord) (now : ℕ)
    → is_last_attempt job ≡ true
    → nack_end configs error (stored_clone job) now ≡ ClaimEnd.dead error
unfolding nack_end stored_clone is_last_attempt
nack_end-last configs error job now last = rw last

module _ (b : Backend) where
  -- A nack by the holder of the live claim of a stored claimed job, in a consistent store, with a
  -- maximum delay that the backoff reaches, and a time that stays within 64 bits after the delay: it
  -- returns and keeps the job with the error as its last, in a consistent store. On the last attempt
  -- the job is dead. On any other it is pending without a time when the exponential delay is zero, and
  -- scheduled for the present plus the milliseconds of that delay otherwise.
  pub nack_lem :
      (t : Txn b) (registry : Registry) (claim_id expires_at : ℕ) (job : JobRecord)
      (configs : QueueConfigs) (error : Bytes) (now : ℕ)
      → IsConsistent b t.txn
      → Stored b t.txn (claimed_key job.queue job.id) job
      → current registry job.queue job.id ≡ some (expires_at, claim_id)
      → (config_of configs job.queue).retry_backoff_max ≤ duration_max
      → (config_of configs job.queue).retry_backoff_max
        ≤ (config_of configs job.queue).retry_backoff_base * 4294967295
      → now + delay_of configs job / 1000000 < 2 ^ 64
      → (u : Txn b) × (written : JobRecord) × (end : ClaimEnd) × (settle_claim b t registry
            job.queue job.id claim_id
            (nack_end configs error)
            now
          ≡ ok (u, written, end))
        × Kept b u.txn written
        × (written.last_error ≡ some error)
        × (((is_last_attempt job ≡ true) × (written.status ≡ dead))
            ⊎ ((is_last_attempt job ≡ false) × Retries written now (delay_of configs job)))
  nack_lem t registry claim_id expires_at job configs error now c st live fits reached early =
      elim (Bool-cases (is_last_attempt job)) [
        | inl last ↦
            let (u, p, left) =
              settled (ClaimEnd.dead error) (nack_end-last configs error job now last) in
            (
              u,
              ended (ClaimEnd.dead error) now (stored_clone job),
              ClaimEnd.dead error,
              p,
              left,
              refl,
              inl (last, refl),
            )
        | inr more ↦
            let q = nack_end_lem configs error job now fits reached more in
            elim (retry_time-cases now (delay_of configs job) early) [
              | inl (zero, e) ↦
                  let end = retry none retried (some error) in
                  let (u, p, left) = settled end (q ∙ ap (λ m. retry m retried (some error)) e) in
                  (
                    u,
                    ended end now (stored_clone job),
                    end,
                    p,
                    left,
                    refl,
                    inr (more, inl (zero, refl, refl)),
                  )
              | inr (positive, e) ↦
                  let end =
                    retry (some (now + delay_of configs job / 1000000)) retried (some error) in
                  let (u, p, left) = settled end (q ∙ ap (λ m. retry m retried (some error)) e) in
                  (
                    u,
                    ended end now (stored_clone job),
                    end,
                    p,
                    left,
                    refl,
                    inr (more, inr (positive, refl, refl)),
                  )
            ]
      ]
    where
      settled :
          (end : ClaimEnd)
          → nack_end configs error (stored_clone job) now ≡ end
          → (u : Txn b) × (settle_claim b t registry job.queue job.id claim_id
                (nack_end configs error)
                now
              ≡ ok (u, ended end now (stored_clone job), end))
            × Left b end u.txn (ended end now (stored_clone job))
      settled end q =
          subst
            (λ e.
              (u : Txn b) × (settle_claim b t registry job.queue job.id claim_id
                  (nack_end configs error) now
                ≡ ok (u, ended e now (stored_clone job), e))
              × Left b e u.txn (ended e now (stored_clone job)))
            q
            (settle_claim_lem b t registry claim_id expires_at job (nack_end configs error) now c st
              live)

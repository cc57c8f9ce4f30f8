-- ===== src/Error.antt =====
-- taquba/src/error.rs: the errors of the crate, and the results of its operations. What an error of a
-- library says of itself is left out.
use taquba.Base.{◌≡◌, refl, ℕ, Bool, true, false}
use taquba.Bytes.{Bytes}
use taquba.Form.{FormError}

pub data Error : Type 0 where
  storage deserialization : Error
  job_not_found : Bytes → Error
  invalid_state claim_lost cancel_requested : Error
  -- The key.
  conflicting_kv_effect kv_compare_failed : Bytes → Error
  -- The size, and the maximum.
  kv_value_too_large : ℕ → ℕ → Error
  invalid_id : Bytes → FormError → Error
  duplicate_job_id : Bytes → Error
  signal_wait_without_run_at count_wait_without_run_at : Error
  -- The count, and the job that waits for it.
  count_waiter_exists : Bytes → Bytes → Error
  invalid_queue_name : Bytes → FormError → Error
  payload_store : Error
  payload_missing : Bytes → Error
  store_not_initialized invalid_store_url : Bytes → Error
  inbox_store : Error
  inbox_path_within_queue : Bytes → Bytes → Error

unfoldable pub is_permanent : Error → Bool
is_permanent storage = false
is_permanent (kv_compare_failed key) = false
is_permanent payload_store = false
is_permanent (store_not_initialized path) = false
is_permanent inbox_store = false
is_permanent _ = true

pub data Result {ℓ} (A : Type ℓ) : Type ℓ where
  ok : A → Result A
  err : Error → Result A
  -- The panic of an `expect`.
  panic : Result A

infixl 5 ◌>>=◌
abbrev pub ◌>>=◌ {ℓ κ} : {A : Type ℓ} {B : Type κ} → Result A → (A → Result B) → Result B
ok a >>= f = f a
err e >>= f = err e
panic >>= f = panic

-- A chain that returns has returned at its first step.
pub bind-ok {ℓ κ} :
    {A : Type ℓ} {B : Type κ} (r : Result A) (f : A → Result B) (y : B)
    → (r >>= f) ≡ ok y
    → (a : A) × (r ≡ ok a) × (f a ≡ ok y)
bind-ok (ok a) f y h = (a, refl, h)
bind-ok (err e) f y h = cc
bind-ok panic f y h = cc

pub ok-injective {ℓ} : {A : Type ℓ} (a b : A) → ok a ≡ ok b → a ≡ b
ok-injective a b h = cc

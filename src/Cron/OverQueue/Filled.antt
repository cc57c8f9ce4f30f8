-- ===== src/Cron/OverQueue/Filled.antt =====
-- The queue fills the record that the scheduler takes.
use taquba.Base.{
  ℕ, ◌≡◌, ◌⊎◌, inl, inr, refl, sym, ap, ◌∙◌, subst, List, [], ◌∷◌, Option, some, arith,
}
use taquba.Bytes.{Bytes}
use taquba.Bytes.Order.{bytes_eq_refl}
use taquba.Map.{bytes_Eq}
use taquba.Keys.{user_scoped_key}
use taquba.Error.{Error, Result, ok, err, panic, bind-ok, ok-injective}
use taquba.Backend.{Backend}
use taquba.Count.{CountCodec}
use taquba.Kv
use taquba.Kv.{validate_kv_value_size}
use taquba.Options.{QueueConfigs, EnqueueOptions}
use taquba.Effects.Staged.{EnqueueResult, new, already_enqueued, Attempt, commit, abort}
use taquba.Cron.{CronQueue, Outcome, done, lost, unsure, panicked}
use taquba.Cron.OverQueue.{
  Fault, works, before_commit, after_commit, QueueState, peek, committed, read, put_outcome, put_of,
  attempt_outcome, enqueue_of, job_attempt,
}
use taquba.Cron.OverQueue.Attempts.{Attempts, job_attempt-Attempts}

module _ (b : Backend) (counts : CountCodec) (configs : QueueConfigs) (draws : ℕ → Bytes × ℕ × ℕ)
    (faults : ℕ → Fault) where
  open b use {get}

  -- What a write leaves under its key.
  Puts : QueueState b → Bytes → Bytes → Outcome (QueueState b) (Unit {0}) → Type 0
  Puts s key value (done t _) = peek b counts configs draws faults t key ≡ some value
  Puts s key value (unsure t e) = peek b counts configs draws faults t key ≡ some value
  Puts s key value (lost t e) =
      peek b counts configs draws faults t key ≡ peek b counts configs draws faults s key
  Puts s key value panicked = Unit {0}

  put_outcome-Puts :
      (s : QueueState b) (key value : Bytes) (r : Result b.State)
      → Kv.kv_put b s.store key value ≡ r
      → Puts s key value (put_outcome b counts configs draws faults s r)
  unfolding Puts Kv.kv_put
  put_outcome-Puts s key value (err e) h = refl
  put_outcome-Puts s key value panic h = tt
  put_outcome-Puts s key value (ok store) h = by_fault (faults s.calls)
    where
      stored : get store (user_scoped_key key) ≡ some value
      stored =
          let (checked, p, e) = bind-ok (validate_kv_value_size value) _ store h in
          ap (λ x. get x (user_scoped_key key)) (sym (ok-injective _ store e))
          ∙ ground (
            arith,
            b.get-put s.store (user_scoped_key key) value (user_scoped_key key),
            bytes_eq_refl (user_scoped_key key),
          )

      by_fault :
          (f : Fault) → Puts s key value (committed b counts configs draws faults f s store tt)
      by_fault works = stored
      by_fault before_commit = refl
      by_fault after_commit = stored

  -- What an enqueue leaves under the key of its effect.
  Enqueues : QueueState b → Bytes → Bytes → Outcome (QueueState b) EnqueueResult → Type 0
  Enqueues s key value (done t (new id)) = peek b counts configs draws faults t key ≡ some value
  Enqueues s key value (done t (already_enqueued id)) =
      peek b counts configs draws faults t key ≡ peek b counts configs draws faults s key
  Enqueues s key value (unsure t e) = peek b counts configs draws faults t key ≡ some value
  Enqueues s key value (lost t e) =
      peek b counts configs draws faults t key ≡ peek b counts configs draws faults s key
  Enqueues s key value panicked = Unit {0}

  attempt-Enqueues :
      (s : QueueState b) (key value : Bytes)
      (r : Result (Attempt b (Bytes ⊎ (Bytes × List EnqueueResult))))
      → ((a : Attempt b (Bytes ⊎ (Bytes × List EnqueueResult)))
          → r ≡ ok a
          → Attempts b counts configs draws faults key value a)
      → Enqueues s key value (attempt_outcome b counts configs draws faults s r)
  unfolding Enqueues Attempts
  attempt-Enqueues s key value (err e) h = refl
  attempt-Enqueues s key value panic h = tt
  attempt-Enqueues s key value (ok (abort (inl existing))) h = refl
  attempt-Enqueues s key value (ok (abort (inr r))) h = absurd (h (abort (inr r)) refl)
  attempt-Enqueues s key value (ok (commit u (inl existing))) h =
      absurd (h (commit u (inl existing)) refl)
  attempt-Enqueues s key value (ok (commit u (inr (id, results)))) h = by_fault (faults s.calls)
    where
      by_fault :
          (f : Fault)
          → Enqueues s key value (committed b counts configs draws faults f s u.txn (new id))
      by_fault works = h (commit u (inr (id, results))) refl
      by_fault before_commit = refl
      by_fault after_commit = h (commit u (inr (id, results))) refl

  put_of-Puts :
      (s : QueueState b) (key value : Bytes)
      → Puts s key value (put_of b counts configs draws faults s key value)
  put_of-Puts s key value = put_outcome-Puts s key value _ refl

  enqueue_of-Enqueues :
      (s : QueueState b) (queue payload : Bytes) (opts : EnqueueOptions) (key value : Bytes)
      → Enqueues s key value
          (enqueue_of b counts configs draws faults s queue payload opts ((key, value) ∷ []))
  enqueue_of-Enqueues s queue payload opts key value =
      attempt-Enqueues s key value
        (job_attempt b counts configs draws faults s queue payload opts ((key, value) ∷ []))
        (λ a. job_attempt-Attempts b counts configs draws faults s queue payload opts key value a)

  pub read-peek :
      (f : Fault) (s : QueueState b) (key : Bytes) (v : Option Bytes)
      → read b counts configs draws faults f s key ≡ ok v
      → v ≡ peek b counts configs draws faults s key
  read-peek works s key v h = sym (ok-injective (peek b counts configs draws faults s key) v h)
  read-peek before_commit s key v h = absurd (cc)
  read-peek after_commit s key v h =
      sym (ok-injective (peek b counts configs draws faults s key) v h)

  pub put_of-done :
      (s t : QueueState b) (k v : Bytes)
      → put_of b counts configs draws faults s k v ≡ done t tt
      → peek b counts configs draws faults t k ≡ some v
  unfolding Puts
  put_of-done s t k v h = subst (Puts s k v) h (put_of-Puts s k v)

  pub put_of-unsure :
      (s t : QueueState b) (k v : Bytes) (e : Error)
      → put_of b counts configs draws faults s k v ≡ unsure t e
      → peek b counts configs draws faults t k ≡ some v
  unfolding Puts
  put_of-unsure s t k v e h = subst (Puts s k v) h (put_of-Puts s k v)

  pub put_of-lost :
      (s t : QueueState b) (k v : Bytes) (e : Error)
      → put_of b counts configs draws faults s k v ≡ lost t e
      → peek b counts configs draws faults t k ≡ peek b counts configs draws faults s k
  unfolding Puts
  put_of-lost s t k v e h = subst (Puts s k v) h (put_of-Puts s k v)

  enqueue_of-outcome :
      (s : QueueState b) (queue payload : Bytes) (opts : EnqueueOptions) (k v : Bytes)
      (o : Outcome (QueueState b) EnqueueResult)
      → enqueue_of b counts configs draws faults s queue payload opts ((k, v) ∷ []) ≡ o
      → Enqueues s k v o
  enqueue_of-outcome s queue payload opts k v o h =
      subst (Enqueues s k v) h (enqueue_of-Enqueues s queue payload opts k v)

  pub enqueue_of-new :
      (s t : QueueState b) (queue payload : Bytes) (opts : EnqueueOptions) (k v id : Bytes)
      → enqueue_of b counts configs draws faults s queue payload opts ((k, v) ∷ [])
        ≡ done t (new id)
      → peek b counts configs draws faults t k ≡ some v
  unfolding Enqueues
  enqueue_of-new s t queue payload opts k v id h =
      enqueue_of-outcome s queue payload opts k v (done t (new id)) h

  pub enqueue_of-already :
      (s t : QueueState b) (queue payload : Bytes) (opts : EnqueueOptions) (k v id : Bytes)
      → enqueue_of b counts configs draws faults s queue payload opts ((k, v) ∷ [])
        ≡ done t (already_enqueued id)
      → peek b counts configs draws faults t k ≡ peek b counts configs draws faults s k
  unfolding Enqueues
  enqueue_of-already s t queue payload opts k v id h =
      enqueue_of-outcome s queue payload opts k v (done t (already_enqueued id)) h

  pub enqueue_of-unsure :
      (s t : QueueState b) (queue payload : Bytes) (opts : EnqueueOptions) (k v : Bytes) (e : Error)
      → enqueue_of b counts configs draws faults s queue payload opts ((k, v) ∷ []) ≡ unsure t e
      → peek b counts configs draws faults t k ≡ some v
  unfolding Enqueues
  enqueue_of-unsure s t queue payload opts k v e h =
      enqueue_of-outcome s queue payload opts k v (unsure t e) h

  pub enqueue_of-lost :
      (s t : QueueState b) (queue payload : Bytes) (opts : EnqueueOptions) (k v : Bytes) (e : Error)
      → enqueue_of b counts configs draws faults s queue payload opts ((k, v) ∷ []) ≡ lost t e
      → peek b counts configs draws faults t k ≡ peek b counts configs draws faults s k
  unfolding Enqueues
  enqueue_of-lost s t queue payload opts k v e h =
      enqueue_of-outcome s queue payload opts k v (lost t e) h

  abbrev pub over_queue : CronQueue
  over_queue = record {
    State = QueueState b;
    peek = λ s k. peek b counts configs draws faults s k;
    kv_get = λ s k. read b counts configs draws faults (faults s.calls) s k;
    kv_put = λ s k v. put_of b counts configs draws faults s k v;
    enqueue_with =
        λ s queue payload opts. enqueue_of b counts configs draws faults s queue payload opts [];
    enqueue_with_effects = λ s queue payload opts k v.
        enqueue_of b counts configs draws faults s queue payload opts ((k, v) ∷ []);
    kv_get-peek = λ s k v h. read-peek (faults s.calls) s k v h;
    kv_put-done = λ s t k v h. put_of-done s t k v h;
    kv_put-unsure = λ s t k v e h. put_of-unsure s t k v e h;
    kv_put-lost = λ s t k v e h. put_of-lost s t k v e h;
    enqueue-new = λ s t queue payload opts k v id h. enqueue_of-new s t queue payload opts k v id h;
    enqueue-already =
        λ s t queue payload opts k v id h. enqueue_of-already s t queue payload opts k v id h;
    enqueue-unsure =
        λ s t queue payload opts k v e h. enqueue_of-unsure s t queue payload opts k v e h;
    enqueue-lost = λ s t queue payload opts k v e h. enqueue_of-lost s t queue payload opts k v e h;
  }

-- ===== src/Cron/OverQueue/Attempts.antt =====
-- What the transaction of an enqueue with an effect has written.
use taquba.Base.{ℕ, ◌≡◌, ◌⊎◌, inl, inr, refl, sym, ap, ◌∙◌, subst, List, [], ◌∷◌, some, arith}
use taquba.Bytes.{Bytes}
use taquba.Bytes.Order.{bytes_eq_refl}
use taquba.Map.{Map, bytes_Eq}
use taquba.Map
use taquba.Keys.{user_scoped_key}
use taquba.Error.{ok, ◌>>=◌, bind-ok, ok-injective}
use taquba.LeaseRegistry.{Registry}
use taquba.LeaseRegistry
use taquba.Backend.{Backend}
use taquba.Txn.{Txn, begin}
use taquba.Count.{CountCodec}
use taquba.Options.{QueueConfigs, EnqueueOptions}
use taquba.Effects.{
  PreparedJob, PreparedEffects, no_effects, prepare_job_record, prepare_effects, check_sizes,
  conflicting, prepare_jobs,
}
use taquba.Effects.Staged.{
  EnqueueResult, Attempt, commit, abort, stage_job_writes, stage_effects, write_job_txn,
}
use taquba.Effects.Applied.{IsMap, value_after, is_in, stage_effects-applied}
use taquba.Cron.OverQueue.{Fault, QueueState, job_attempt}

module _ (b : Backend) (counts : CountCodec) (configs : QueueConfigs) (draws : ℕ → Bytes × ℕ × ℕ)
    (faults : ℕ → Fault) where
  open b use {get}

  prepare_effects-writes :
      (writes : Map Bytes Bytes) (effects : PreparedEffects)
      → prepare_effects configs draws (record no_effects { kv_writes = writes }) ≡ ok effects
      → (effects.kv_writes ≡ writes) × (effects.kv_deletes ≡ [])
  unfolding prepare_effects conflicting prepare_jobs
  prepare_effects-writes writes effects h =
      let (checked, p, e) = bind-ok (check_sizes writes) _ effects h in
      (
        ap (λ x. x.kv_writes) (sym (ok-injective _ effects e)),
        ap (λ x. x.kv_deletes) (sym (ok-injective _ effects e)),
      )

  -- An attempt that commits has written the value, and one that aborts has found another job.
  unfoldable pub Attempts :
      Bytes → Bytes → Attempt b (Bytes ⊎ (Bytes × List EnqueueResult)) → Type 0
  Attempts key value (commit u (inr r)) = get u.txn (user_scoped_key key) ≡ some value
  Attempts key value (commit u (inl existing)) = ⊥
  Attempts key value (abort (inl existing)) = Unit {0}
  Attempts key value (abort (inr r)) = ⊥

  staged-Attempts :
      (u : Txn b) (staged : Bytes ⊎ Bytes) (effects : PreparedEffects) (key value : Bytes)
      (a : Attempt b (Bytes ⊎ (Bytes × List EnqueueResult)))
      → effects.kv_writes ≡ (key, value) ∷ []
      → effects.kv_deletes ≡ []
      → (elim staged [
        | inl existing ↦ ok (abort (inl existing))
        | inr id ↦ stage_effects b counts u LeaseRegistry.new effects >>= λ (v, results).
            ok (commit v (inr (id, results)))
      ])
        ≡ ok a
      → Attempts key value a
  unfolding Attempts IsMap value_after is_in Map.get
  staged-Attempts u (inl existing) effects key value a w d h =
      subst (Attempts key value) (ok-injective (abort (inl existing)) a h) tt
  staged-Attempts u (inr id) effects key value a w d h =
      let ((v, results), p, e) =
        bind-ok (stage_effects b counts u LeaseRegistry.new effects) _ a h in
      let (_, _, values) =
        stage_effects-applied b counts u v LeaseRegistry.new effects results (one w) p in
      subst (Attempts key value) (ok-injective (commit v (inr (id, results))) a e)
        (values key ∙ written w d)
    where
      one : effects.kv_writes ≡ (key, value) ∷ [] → IsMap effects.kv_writes
      one w = subst IsMap (sym w) (refl, tt)

      written :
          effects.kv_writes ≡ (key, value) ∷ []
          → effects.kv_deletes ≡ []
          → value_after effects.kv_writes effects.kv_deletes key (get u.txn (user_scoped_key key))
            ≡ some value
      written w d =
          subst
            (λ (x : Map Bytes Bytes × List Bytes).
              value_after x.0 x.1 key (get u.txn (user_scoped_key key)) ≡ some value)
            (ap (λ ws. (ws, [])) (sym w) ∙ ap (λ ds. (effects.kv_writes, ds)) (sym d))
            (ground (arith, bytes_eq_refl key))

  write_job_txn-Attempts :
      (t : Txn b) (p : PreparedJob) (effects : PreparedEffects) (key value : Bytes)
      (a : Attempt b (Bytes ⊎ (Bytes × List EnqueueResult)))
      → effects.kv_writes ≡ (key, value) ∷ []
      → effects.kv_deletes ≡ []
      → write_job_txn b counts t LeaseRegistry.new p effects ≡ ok a
      → Attempts key value a
  unfolding write_job_txn
  write_job_txn-Attempts t p effects key value a w d h =
      let ((u, staged), q, e) = bind-ok (stage_job_writes b counts t p) _ a h in
      staged-Attempts u staged effects key value a w d e

  pub job_attempt-Attempts :
      (s : QueueState b) (queue payload : Bytes) (opts : EnqueueOptions) (key value : Bytes)
      (a : Attempt b (Bytes ⊎ (Bytes × List EnqueueResult)))
      → job_attempt b counts configs draws faults s queue payload opts ((key, value) ∷ []) ≡ ok a
      → Attempts key value a
  unfolding job_attempt
  job_attempt-Attempts s queue payload opts key value a h =
      let (prepared, p, h) = bind-ok (prepare_job_record configs _ _ _ queue payload opts) _ a h in
      let (effects, q, h) =
        bind-ok
          (prepare_effects configs draws (record no_effects { kv_writes = (key, value) ∷ [] })) _ a
          h in
      let (w, d) = prepare_effects-writes ((key, value) ∷ []) effects q in
      write_job_txn-Attempts (begin b s.store) prepared effects key value a w d h

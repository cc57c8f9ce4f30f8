-- ===== src/Effects/Settled.antt =====
-- The settlement with its effects: the writes of the end of a claim reach no user key, so the effects
-- act on the user keys that the settlement began with.
use taquba.Base.{
  ℕ, ◌≡◌, ◌⊎◌, inl, inr, refl, sym, ap, ◌∙◌, true, false, List, [], ◌∷◌, Option, none, some,
  Bool-cases,
}
use taquba.Bytes.{Bytes}
use taquba.Keys.{of, user_scoped_key}
use taquba.Job.{JobRecord}
use taquba.Error.{Result, ok, ◌>>=◌, bind-ok}
use taquba.LeaseRegistry.{Registry, current}
use taquba.Backend.{Backend}
use taquba.Txn.{Txn, take_claim, read_claim}
use taquba.Txn.ClaimEnd.{ClaimEnd, is_terminal}
use taquba.QueueCore.Settle.{settle_claim}
use taquba.Count.{CountCodec}
use taquba.Effects.{KvCompare, PreparedEffects}
use taquba.Effects.Staged.{EnqueueResult, Attempt, commit, stage_effects, settle_claim_with}
use taquba.Effects.Applied.{
  IsMap, AllMatch, IsLive, value_after, read_claim-current, stage_effects-applied,
}
use taquba.Effects.Elsewhere.{SameUser}
use taquba.Effects.Elsewhere.Ends.{settle_claim-SameUser}

module _ (b : Backend) where
  AllMatch-SameUser :
      (s t : b.State) (compares : List KvCompare)
      → SameUser b s t
      → AllMatch b t compares
      → AllMatch b s compares
  unfolding AllMatch SameUser of user_scoped_key
  AllMatch-SameUser s t [] same m = tt
  AllMatch-SameUser s t (c ∷ compares) same (m, ms) =
      (sym (same (user_scoped_key c.key) refl) ∙ m, AllMatch-SameUser s t compares same ms)

module _ (b : Backend) (counts : CountCodec) where
  open b use {get}

  -- What the effects of a settlement have done, for an end that applies them and for one that does not.
  unfoldable pub Settled :
      Txn b → Txn b → Registry → PreparedEffects → ClaimEnd → Option (List EnqueueResult) → Type 0
  Settled t v registry effects end results =
      ((is_terminal end ≡ true)
        × IsLive b registry effects.claim_fence
        × AllMatch b t.txn effects.kv_compares
        × ((key : Bytes)
            → get v.txn (user_scoped_key key)
              ≡ value_after effects.kv_writes effects.kv_deletes key
                  (get t.txn (user_scoped_key key))))
      ⊎ ((is_terminal end ≡ false)
          × (results ≡ none)
          × ((key : Bytes) → get v.txn (user_scoped_key key) ≡ get t.txn (user_scoped_key key)))

  Settled-terminal :
      (t u v : Txn b) (registry : Registry) (effects : PreparedEffects) (written job : JobRecord)
      (end e : ClaimEnd) (results : Option (List EnqueueResult))
      → IsMap effects.kv_writes
      → SameUser b t.txn u.txn
      → is_terminal e ≡ true
      → ◌≡◌ {A = Result (Attempt b (JobRecord × ClaimEnd × Option (List EnqueueResult)))}
          (stage_effects b counts u registry effects >>= λ (v, results).
            ok (commit v (job, e, some results)))
          (ok (commit v (written, end, results)))
      → Settled t v registry effects end results
  unfolding Settled SameUser of user_scoped_key
  Settled-terminal t u v registry effects written job end e results m same f h =
      let ((w, staged), p, q) = bind-ok (stage_effects b counts u registry effects) _ _ h in
      let (live, matched, values) =
        stage_effects-applied b counts u w registry effects staged m p in
      let txn : w ≡ v = cc q in
      inl (
        ap is_terminal (cc q) ∙ f,
        live,
        AllMatch-SameUser b t.txn u.txn effects.kv_compares same matched,
        λ key.
            ap (λ x. get x.txn (user_scoped_key key)) (sym txn)
            ∙ values key
            ∙ ap (value_after effects.kv_writes effects.kv_deletes key)
                (same (user_scoped_key key) refl),
      )

  Settled-returned :
      (t u v : Txn b) (registry : Registry) (effects : PreparedEffects) (written job : JobRecord)
      (end e : ClaimEnd) (results : Option (List EnqueueResult))
      → SameUser b t.txn u.txn
      → is_terminal e ≡ false
      → ◌≡◌ {A = Result (Attempt b (JobRecord × ClaimEnd × Option (List EnqueueResult)))}
          (ok (commit u (job, e, none)))
          (ok (commit v (written, end, results)))
      → Settled t v registry effects end results
  unfolding Settled SameUser of user_scoped_key
  Settled-returned t u v registry effects written job end e results same f h =
      let txn : u ≡ v = cc in
      inr (
        ap is_terminal (cc) ∙ f,
        cc,
        λ key.
            ap (λ x. get x.txn (user_scoped_key key)) (sym txn) ∙ same (user_scoped_key key) refl,
      )

  settle_claim-current :
      (t u : Txn b) (registry : Registry) (queue id : Bytes) (claim_id : ℕ)
      (end_for : JobRecord → ℕ → ClaimEnd) (now : ℕ) (written : JobRecord) (end : ClaimEnd)
      → settle_claim b t registry queue id claim_id end_for now ≡ ok (u, written, end)
      → (expires_at : ℕ) × (current registry queue id ≡ some (expires_at, claim_id))
  unfolding settle_claim take_claim
  settle_claim-current t u registry queue id claim_id end_for now written end h =
      let ((v, job), p, h) =
        bind-ok (take_claim b t registry queue id claim_id) _ (u, written, end) h in
      let (found, q, p) = bind-ok (read_claim b t.txn registry queue id claim_id) _ (v, job) p in
      read_claim-current b counts t.txn registry queue id claim_id found q

  -- A settlement with effects that returns, from writes with one value for a key: the claim was the
  -- live one of its job. When the end is terminal, the effects were applied in the same transaction to
  -- the user keys that it began with: the fence was live, every compare matched, and every user key has
  -- the value of its write, none when it is deleted, and what it had when it is neither. When the end
  -- is a retry, no effect was applied and every user key has what it had.
  pub settle_claim_with-Settled :
      (t v : Txn b) (registry : Registry) (queue id : Bytes) (claim_id : ℕ)
      (end_for : JobRecord → ℕ → ClaimEnd) (now : ℕ) (effects : PreparedEffects)
      (written : JobRecord) (end : ClaimEnd) (results : Option (List EnqueueResult))
      → IsMap effects.kv_writes
      → settle_claim_with b counts t registry queue id claim_id end_for now effects
        ≡ ok (commit v (written, end, results))
      → ((expires_at : ℕ) × (current registry queue id ≡ some (expires_at, claim_id)))
        × Settled t v registry effects end results
  unfolding settle_claim_with
  settle_claim_with-Settled t v registry queue id claim_id end_for now effects written end results m
        h =
      let ((u, job, e), p, h) =
        bind-ok (settle_claim b t registry queue id claim_id end_for now) _ _ h in
      let same = settle_claim-SameUser b t u registry queue id claim_id end_for now job e p in
      (
        settle_claim-current t u registry queue id claim_id end_for now job e p,
        elim (Bool-cases (is_terminal e)) [
          | inl f ↦
              Settled-terminal t u v registry effects written job end e results m same f
                (sym (rw f refl) ∙ h)
          | inr f ↦
              Settled-returned t u v registry effects written job end e results same f
                (sym (rw f refl) ∙ h)
        ],
      )

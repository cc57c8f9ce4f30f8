-- ===== src/Cron/Complete.antt =====
-- A schedule with backfill fires every occurrence, in order, and repeats only a firing whose call failed.
pub mod Ticks
use taquba.Base.{
  ℕ, ◌≡◌, ◌<◌, ◌≤◌, ◌⊎◌, refl, sym, ap, ◌∙◌, subst, inl, inr, Bool, true, false, List, [], ◌∷◌,
  ◌++◌, Option, none, some, arith, leb, ltb, ◌==◌, ◌||◌, Bool-cases, Option-cases,
}
use taquba.Bytes.{Bytes}
use taquba.Decimal.{to_string}
use taquba.Error.{Result, ok, err, panic, bind-ok, ok-injective}
use taquba.Effects.Staged.{EnqueueResult, new, already_enqueued}
use taquba.Cron.{
  Chrono, Croner, CronQueue, Outcome, done, lost, unsure, panicked, Schedule, Backfill, Ticked,
  watermark_key, parse_watermark, lookback_floor, raise, backfill_anchor, anchor_on, initial_anchor,
  next_time_after, advance_watermark, fire_on, fire, fire_options, searched, after_fire, fire_due,
  start_at, tick_entry,
}
use taquba.Cron.Instants.{parse_watermark-timestamp_millis}
use taquba.Cron.Backfilled.{
  watermark, fired_of, started_fired, due_fired, tick_fired, IsCovered, Run, stop, tick, restart,
  other,
}
use taquba.Cron.Complete.Ticks.{next_of, Follows, Ready, kept-watermark, tick-Ticks}

module _ (time : Chrono) (cron : Croner time) (q : CronQueue) (entry : Schedule time cron)
    (backfill : Backfill) (has : entry.backfill ≡ some backfill) where
  open q use {State, peek}

  -- The firings follow each other, from one at an instant.
  unfoldable pub Chain : ℕ → Bool → List (ℕ × Bool) → Type 0
  Chain w returned [] = Unit {0}
  Chain w returned ((at, r) ∷ fired) =
      Follows time cron q entry backfill has w returned at × Chain at r fired

  unfoldable pub last : ℕ → List (ℕ × Bool) → ℕ
  last w [] = w
  last w ((at, _) ∷ fired) = last at fired

  unfoldable pub is_fired : ℕ → List (ℕ × Bool) → Bool
  is_fired u [] = false
  is_fired u ((at, _) ∷ fired) = at == u || is_fired u fired

  -- Any run that starts with a watermark and a ready entry: its firings follow each other, and the
  -- watermark at the end is the last of them.
  Run-Chain :
      (s u : State) (next final : Option ℕ) (fired : List (ℕ × Bool)) (w : ℕ) (returned : Bool)
      → Run time cron q entry backfill s next fired u final
      → watermark time cron q entry backfill s ≡ some w
      → Ready time cron q entry backfill has w returned next
      → Chain w returned fired × (watermark time cron q entry backfill u ≡ some (last w fired))
  unfolding Chain last
  Run-Chain s u next final fired w returned (stop _ _) h n = (tt, h)
  Run-Chain s u next final _ w returned (tick _ _ _ _ fired now c run) h n =
      let t = tick_entry time cron q s entry now next in
      elim (tick-Ticks time cron q entry backfill has s now w returned next h n c) [
        | inl (h', n', e) ↦
            subst (Ends (watermark time cron q entry backfill u) w returned fired) (sym e)
              (Run-Chain t.state u t.next_fire final fired w returned run h' n')
        | inr (at, r, p, h', n', e) ↦
            let (chain, end) = Run-Chain t.state u t.next_fire final fired at r run h' n' in
            subst (Ends (watermark time cron q entry backfill u) w returned fired) (sym e)
              ((p, chain), end)
      ]
    where
      Ends : Option ℕ → ℕ → Bool → List (ℕ × Bool) → List (ℕ × Bool) → Type 0
      Ends mark w returned fired x =
          Chain w returned (x ++ fired) × (mark ≡ some (last w (x ++ fired)))
  Run-Chain s u next final fired w returned (restart _ _ _ _ _ run) h n =
      Run-Chain s u none final fired w returned run h (λ at p. absurd (cc))
  Run-Chain s u next final fired w returned (other _ t _ _ _ _ same run) h n =
      Run-Chain t u next final fired w returned run
        (kept-watermark time cron q entry backfill has s t w same h) n

  Chain-covers :
      (w u : ℕ) (returned : Bool) (fired : List (ℕ × Bool))
      → Chain w returned fired
      → w < u
      → u ≤ last w fired
      → cron.occurs entry.expression u ≡ true
      → is_fired u fired ≡ true
  unfolding Chain last is_fired next_time_after
  Chain-covers w u returned [] chain l k o = absurd (ground arith)
  Chain-covers w u returned ((at, r) ∷ fired) (inr (failed, same, _), chain) l k o =
      elim (Bool-cases (at == u)) [
        | inl e ↦ rw e
        | inr e ↦ rw (e, Chain-covers at u r fired chain (ground (arith, same, l)) k o)
      ]
  Chain-covers w u returned ((at, r) ∷ fired) (inl p, chain) l k o =
      let (later, occurs, gap) = cron.next-first entry.expression w at p in
      elim (Bool-cases (at == u)) [
        | inl e ↦ rw e
        | inr e ↦ elim (Bool-cases (ltb u at)) [
          | inl before ↦ absurd (cc (gap u l (ground (arith, before)), o))
          | inr after ↦ rw (e, Chain-covers at u r fired chain (ground (arith, e, after)) k o)
        ]
      ]

  -- Over any run of a schedule with backfill that starts with a watermark, with the ticks within the
  -- lookback of the watermark, whichever calls fail before or after their commit: every occurrence from
  -- the first watermark to the last one is fired, and the watermark at the end is the last firing, or
  -- the first watermark when nothing fired. Each firing is of the first occurrence after the one before
  -- it, or repeats that one when the call that fired it committed and then failed.
  pub Run-complete :
      (s u : State) (next final : Option ℕ) (fired : List (ℕ × Bool)) (w : ℕ)
      → Run time cron q entry backfill s next fired u final
      → watermark time cron q entry backfill s ≡ some w
      → ((at : ℕ) → next ≡ some at → next_of time cron q entry backfill has w ≡ some at)
      → Chain w true fired
        × (watermark time cron q entry backfill u ≡ some (last w fired))
        × ((o : ℕ)
            → w < o
            → o ≤ last w fired
            → cron.occurs entry.expression o ≡ true
            → is_fired o fired ≡ true)
  Run-complete s u next final fired w run h n =
      let (chain, end) = Run-Chain s u next final fired w true run h (λ at p. inl (n at p)) in
      (chain, end, λ o l k oc. Chain-covers w o true fired chain l k oc)

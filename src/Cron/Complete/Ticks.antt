-- ===== src/Cron/Complete/Ticks.antt =====
-- What one tick does for a schedule with backfill.
use taquba.Base.{
  ℕ, ◌≡◌, ◌≤◌, ◌⊎◌, refl, sym, ap, ◌∙◌, subst, inl, inr, Bool, true, false, List, [], ◌∷◌, Option,
  none, some, arith, leb, ltb, Bool-cases, Option-cases,
}
use taquba.Bytes.{Bytes}
use taquba.Decimal.{to_string}
use taquba.Error.{Result, ok, err, panic, bind-ok, ok-injective}
use taquba.Effects.Staged.{EnqueueResult, new, already_enqueued}
use taquba.Cron.{
  Chrono, Croner, CronQueue, Outcome, done, lost, unsure, panicked, Schedule, Backfill, Ticked,
  watermark_key, parse_watermark, lookback_floor, raise, backfill_anchor, anchor_on, initial_anchor,
  next_time_after, advance_watermark, fire_on, fire, fire_options, searched, after_fire, fire_due,
  start_at, tick_entry,
}
use taquba.Cron.Instants.{parse_watermark-timestamp_millis}
use taquba.Cron.Backfilled.{watermark, fired_of, started_fired, due_fired, tick_fired, IsCovered}

module _ (time : Chrono) (cron : Croner time) (q : CronQueue) (entry : Schedule time cron)
    (backfill : Backfill) (has : entry.backfill ≡ some backfill) where
  open q use {State, peek}

  abbrev pub next_of : ℕ → Option ℕ
  next_of anchor = next_time_after time cron entry.expression anchor

  abbrev pub Occurs : ℕ → Type 0
  Occurs at = cron.occurs entry.expression at ≡ true

  next_of-Occurs : (w at : ℕ) → next_of w ≡ some at → Occurs at
  unfolding next_time_after
  next_of-Occurs w at n = (cron.next-first entry.expression w at n).1

  -- The instant to fire after one at `w`: the first occurrence after it, or the same occurrence again
  -- when the call that fired it failed.
  abbrev pub Follows : ℕ → Bool → ℕ → Type 0
  Follows w returned at =
      (next_of w ≡ some at)
      ⊎ ((returned ≡ false) × (at ≡ w) × (cron.occurs entry.expression at ≡ true))

  Follows-Occurs : (w at : ℕ) (returned : Bool) → Follows w returned at → Occurs at
  Follows-Occurs w at returned (inl n) = next_of-Occurs w at n
  Follows-Occurs w at returned (inr (failed, same, o)) = o

  written-watermark :
      (t : State) (at : ℕ)
      → Occurs at
      → peek t (watermark_key entry.name) ≡ some (to_string (time.timestamp_millis at))
      → watermark time cron q entry backfill t ≡ some at
  unfolding watermark
  written-watermark t at o h =
      let (whole, fits) = cron.occurs-whole entry.expression at o in
      rw (watermark, h, parse_watermark-timestamp_millis time at whole fits)

  pub kept-watermark :
      (s t : State) (w : ℕ)
      → peek t (watermark_key entry.name) ≡ peek s (watermark_key entry.name)
      → watermark time cron q entry backfill s ≡ some w
      → watermark time cron q entry backfill t ≡ some w
  unfolding watermark
  kept-watermark s t w same h =
      subst (λ raw. (elim raw [ none ↦ none | some v ↦ parse_watermark time v ]) ≡ some w)
        (sym same) h

  -- What a firing leaves under the key of the watermark.
  abbrev Fires : State → ℕ → Outcome State (Unit {0}) → Type 0
  Fires s at (done t _) =
      peek t (watermark_key entry.name) ≡ some (to_string (time.timestamp_millis at))
  Fires s at (unsure t e) =
      peek t (watermark_key entry.name) ≡ some (to_string (time.timestamp_millis at))
  Fires s at (lost t e) = peek t (watermark_key entry.name) ≡ peek s (watermark_key entry.name)
  Fires s at panicked = Unit {0}

  put-Fires :
      (s t : State) (at : ℕ) (r : Outcome State (Unit {0}))
      → peek t (watermark_key entry.name) ≡ peek s (watermark_key entry.name)
      → q.kv_put t (watermark_key entry.name) (to_string (time.timestamp_millis at)) ≡ r
      → Fires s at r
  put-Fires s t at (done u _) same p =
      q.kv_put-done t u (watermark_key entry.name) (to_string (time.timestamp_millis at)) p
  put-Fires s t at (unsure u e) same p =
      q.kv_put-unsure t u (watermark_key entry.name) (to_string (time.timestamp_millis at)) e p
  put-Fires s t at (lost u e) same p =
      q.kv_put-lost t u (watermark_key entry.name) (to_string (time.timestamp_millis at)) e p ∙ same
  put-Fires s t at panicked same p = tt

  advance-Fires :
      (s : State) (at : ℕ) (r : Outcome State EnqueueResult)
      → q.enqueue_with_effects s entry.queue entry.payload
          (fire_options time cron entry at)
          (watermark_key entry.name)
          (to_string (time.timestamp_millis at))
        ≡ r
      → Fires s at (advance_watermark time cron q entry at r)
  advance-Fires s at (done u (new id)) p =
      q.enqueue-new s u entry.queue entry.payload (fire_options time cron entry at)
        (watermark_key entry.name) (to_string (time.timestamp_millis at)) id p
  advance-Fires s at (done u (already_enqueued id)) p =
      put-Fires s u at _
        (q.enqueue-already s u entry.queue entry.payload (fire_options time cron entry at)
          (watermark_key entry.name) (to_string (time.timestamp_millis at)) id p)
        refl
  advance-Fires s at (unsure u e) p =
      q.enqueue-unsure s u entry.queue entry.payload (fire_options time cron entry at)
        (watermark_key entry.name) (to_string (time.timestamp_millis at)) e p
  advance-Fires s at (lost u e) p =
      q.enqueue-lost s u entry.queue entry.payload (fire_options time cron entry at)
        (watermark_key entry.name) (to_string (time.timestamp_millis at)) e p
  advance-Fires s at panicked p = tt

  fire-Fires : (s : State) (at : ℕ) → Fires s at (fire time cron q s entry at)
  unfolding fire
  fire-Fires s at =
      subst (λ m. Fires s at (fire_on time cron q s entry at m)) (sym has)
        (advance-Fires s at _ refl)

  -- The next firing follows an instant.
  abbrev pub Ready : ℕ → Bool → Option ℕ → Type 0
  Ready w returned next = (at : ℕ) → next ≡ some at → Follows w returned at

  -- What a tick does for an entry that is ready: a firing is committed and is the new watermark, or none
  -- is, and either way the entry is ready again.
  abbrev pub Ticks : ℕ → Bool → Ticked time cron q → List (ℕ × Bool) → Type 0
  Ticks w returned r fired =
      ((watermark time cron q entry backfill r.state ≡ some w)
        × Ready w returned r.next_fire
        × (fired ≡ []))
      ⊎ ((at : ℕ) × (now_returned : Bool) × Follows w returned at
          × (watermark time cron q entry backfill r.state ≡ some at)
          × Ready at now_returned r.next_fire
          × (fired ≡ (at, now_returned) ∷ []))

  after_fire-Ticks :
      (s : State) (now w at : ℕ) (returned : Bool) (r : Outcome State (Unit {0}))
      → watermark time cron q entry backfill s ≡ some w
      → Follows w returned at
      → Fires s at r
      → Ticks w returned
          (after_fire time cron q s entry now at (some backfill) r)
          (fired_of time cron q entry backfill at r)
  after_fire-Ticks s now w at returned (done t _) h n f =
      inr
        (at, true, n, written-watermark t at (Follows-Occurs w at returned n) f, λ a p. inl p, refl)
  after_fire-Ticks s now w at returned (unsure t e) h n f =
      let o = Follows-Occurs w at returned n in
      inr (
        at,
        false,
        n,
        written-watermark t at o f,
        λ a p. let same : at ≡ a = cc in inr (refl, sym same, subst Occurs same o),
        refl,
      )
  after_fire-Ticks s now w at returned (lost t e) h n f = inl (
    kept-watermark s t w f h,
    λ a p. let same : at ≡ a = cc in subst (Follows w returned) same n,
    refl,
  )
  after_fire-Ticks s now w at returned panicked h n f = inl (h, λ a p. absurd (cc), refl)

  to-Ticks :
      (w : ℕ) (returned : Bool) (r r' : Ticked time cron q) (fired fired' : List (ℕ × Bool))
      → r ≡ r'
      → fired ≡ fired'
      → Ticks w returned r' fired'
      → Ticks w returned r fired
  to-Ticks w returned r r' fired fired' p e h =
      subst (λ x. Ticks w returned x fired) (sym p) (subst (Ticks w returned r') (sym e) h)

  due-Ticks :
      (s : State) (now w : ℕ) (returned : Bool) (next : Option ℕ)
      → watermark time cron q entry backfill s ≡ some w
      → Ready w returned next
      → Ticks w returned
          (fire_due time cron q s entry now next)
          (due_fired time cron q entry backfill s now next)
  unfolding fire_due due_fired
  due-Ticks s now w returned none h n = inl (h, λ at p. absurd (cc), refl)
  due-Ticks s now w returned (some at) h n = elim (Bool-cases (leb at now)) [
    | inr e ↦
        to-Ticks w returned (fire_due time cron q s entry now (some at))
          (searched time cron q s (some at)) _ [] (rw e) (rw e) (inl (h, n, refl))
    | inl e ↦
        to-Ticks w returned (fire_due time cron q s entry now (some at))
          (after_fire time cron q s entry now at (some backfill) fired) _
          (fired_of time cron q entry backfill at fired)
          (due e ∙ ap (λ m. after_fire time cron q s entry now at m fired) has) (rw e)
          (after_fire-Ticks s now w at returned fired h (n at refl) (fire-Fires s at))
  ]
    where
      fired : Outcome State (Unit {0})
      fired = fire time cron q s entry at

      due :
          leb at now ≡ true
          → fire_due time cron q s entry now (some at)
            ≡ after_fire time cron q s entry now at entry.backfill fired
      due e = rw e

  backfill_anchor-covered :
      (s : State) (now w : ℕ) (raw : Option Bytes)
      → watermark time cron q entry backfill s ≡ some w
      → IsCovered time cron q entry backfill s now
      → raw ≡ peek s (watermark_key entry.name)
      → backfill_anchor time cron backfill now raw ≡ w
  unfolding IsCovered watermark backfill_anchor raise
  backfill_anchor-covered s now w none h c p = absurd (ground (arith, h, p))
  backfill_anchor-covered s now w (some v) h c p =
      elim (Option-cases (lookback_floor time now backfill.lookback)) [
        | inl e ↦ rw (backfill_anchor, parsed, e)
        | inr (floor, e) ↦ rw (backfill_anchor, parsed, e, raise, kept floor (c w floor h e))
      ]
    where
      parsed : parse_watermark time v ≡ some w
      parsed = ground (arith, h, p)

      kept : (floor : ℕ) → floor ≤ w → ltb w floor ≡ false
      kept floor k = ground arith

  initial_anchor-watermark :
      (s : State) (now w anchor : ℕ)
      → watermark time cron q entry backfill s ≡ some w
      → IsCovered time cron q entry backfill s now
      → initial_anchor time cron q s entry now ≡ ok anchor
      → anchor ≡ w
  unfolding initial_anchor
  initial_anchor-watermark s now w anchor h c e =
      let (raw, p, r) =
        bind-ok (q.kv_get s (watermark_key entry.name))
          (λ raw. ok (backfill_anchor time cron backfill now raw)) anchor
          (sym (ap (anchor_on time cron q s entry now) has) ∙ e) in
      sym (ok-injective _ anchor r)
      ∙ backfill_anchor-covered s now w raw h c (q.kv_get-peek s (watermark_key entry.name) raw p)

  pub tick-Ticks :
      (s : State) (now w : ℕ) (returned : Bool) (next : Option ℕ)
      → watermark time cron q entry backfill s ≡ some w
      → Ready w returned next
      → IsCovered time cron q entry backfill s now
      → Ticks w returned
          (tick_entry time cron q s entry now next)
          (tick_fired time cron q entry backfill s now next)
  unfolding tick_entry tick_fired
  tick-Ticks s now w returned (some at) h n c = due-Ticks s now w returned (some at) h n
  tick-Ticks s now w returned none h n c = started (initial_anchor time cron q s entry now) refl
    where
      started :
          (r : Result ℕ)
          → initial_anchor time cron q s entry now ≡ r
          → Ticks w returned
              (start_at time cron q s entry now r)
              (started_fired time cron q entry backfill s now r)
      started (ok anchor) e = due-Ticks s now w returned (next_of anchor) h (λ at p.
          inl (subst (λ a. next_of a ≡ some at) (initial_anchor-watermark s now w anchor h c e) p))
      started (err x) e = inl (h, λ at p. absurd (cc), refl)
      started panic e = inl (h, λ at p. absurd (cc), refl)

-- ===== src/ClaimCursor/Tests.antt =====
-- The claim cursor on concrete schedules.
use taquba.Base.{
  ◌≡◌, refl, true, false, not, ◌&&◌, ◌||◌, List, [], ◌∷◌, none, arith, Bool-cases, inl, inr,
}
use taquba.Bytes.{Bytes, bytes_eq, bytes_lt}
use taquba.Bytes.Order.{eq_of_bytes_eq, bytes_lt_irrefl}
use taquba.ClaimCursor.State.{known_empty, begin_claim, note_pending_inserts, advance, mark_empty}
use taquba.ClaimCursor.State
use taquba.ClaimCursor.Steps.{
  mem, collect, yields, World, IsScan, IsLeast, Phase, begun, scanning, committed, Reach, here,
  next,
}
use taquba.ClaimCursor.Steps
use taquba.ClaimCursor.Steps.Invariant.{Noted}
use taquba.ClaimCursor.Safety.{
  opened, fresh, run, scan_reads_every_key, known_empty_sound, claim_takes_least,
}

abbrev early : Bytes
early = 3 ∷ []

abbrev late : Bytes
late = 5 ∷ []

-- A claim takes `late` while another transaction inserts `early` and notes it.
abbrev w0 : World
w0 = opened (λ k. mem k (late ∷ []))

abbrev w1 : World
w1 = record w0 { phase = begun (State.begin_claim w0.cursor) }

abbrev w2 : World
w2 = record w1 { phase = scanning (State.begin_claim w0.cursor) w0.live }

abbrev w3 : World
w3 = record w2 { live = λ k. mem k (early ∷ []) || w2.live k; unnoted = (early ∷ []) ∷ w2.unnoted }

abbrev w4 : World
w4 = record w3 { cursor = State.note_pending_inserts w3.cursor early; unnoted = [] }

abbrev w5 : World
w5 = record w4 {
  live = λ k. not (mem k (late ∷ [])) && w4.live k;
  phase = committed (State.begin_claim w0.cursor) late false;
}

abbrev w6 : World
w6 = record w5 {
  cursor = State.advance w5.cursor late (State.begin_claim w0.cursor);
  phase = Phase.advanced (State.begin_claim w0.cursor) false;
}

IsLeast-early : IsLeast early (early ∷ [])
unfolding bytes_eq
IsLeast-early = record {
  within = refl;
  least = λ k h. ground (arith, eq_of_bytes_eq k early, bytes_lt_irrefl early);
}

IsScan-late : IsScan w0.live none (late ∷ [])
IsScan-late = record { reads = λ k. ground arith; ascending = tt }

steps : Reach w0 w6
unfolding State.begin_claim State.note_pending_inserts bytes_eq bytes_lt collect
steps =
    next
      (next
        (next
          (next (next (next here (Steps.begin refl refl refl)) (Steps.snapshot _ refl refl))
            (Steps.insert (early ∷ []) refl))
          (Steps.note [] [] (early ∷ []) early refl IsLeast-early (omega arith) refl))
        (Steps.commit _ _ 1 (late ∷ []) late [] false refl IsScan-late refl refl))
      (Steps.advance _ late false refl refl)

early-Noted : Noted w6 early
unfolding bytes_eq
early-Noted = (refl, refl)

scan_reads_every_key_example : yields w6.cursor.scan_from early ≡ true
scan_reads_every_key_example = scan_reads_every_key w6 early (run (fresh _) steps) early-Noted

IsScan-early : IsScan w6.live w6.cursor.scan_from (early ∷ [])
unfolding State.begin_claim State.note_pending_inserts State.advance bytes_eq bytes_lt
IsScan-early = record {
  reads = λ k. elim (Bool-cases (bytes_eq k early)) [
    | inl e ↦ rw (eq_of_bytes_eq k early e)
    | inr e ↦ rw e (ground arith)
  ];
  ascending = tt;
}

claim_takes_least_example :
    ((State.begin_claim w6.cursor).known_empty ≡ false)
    × (first : Bytes) × (more : List Bytes) × ((collect 1 (early ∷ [])).0 ≡ first ∷ more)
    × (bytes_lt early first ≡ false)
claim_takes_least_example =
    claim_takes_least w6 early 0 (early ∷ []) (run (fresh _) steps) early-Noted IsScan-early

-- A claim on an empty queue.
abbrev e0 : World
e0 = opened (λ k. false)

abbrev e1 : World
e1 = record e0 { phase = begun (State.begin_claim e0.cursor) }

abbrev e2 : World
e2 = record e1 { phase = scanning (State.begin_claim e0.cursor) e0.live }

abbrev e3 : World
e3 = record e2 {
  cursor = State.mark_empty e2.cursor (State.begin_claim e0.cursor);
  phase = Phase.idle;
}

empty_steps : Reach e0 e3
unfolding State.begin_claim
empty_steps =
    next (next (next here (Steps.begin refl refl refl)) (Steps.snapshot _ refl refl))
      (Steps.found_none _ _ refl (record { reads = λ k. refl; ascending = tt }) refl)

known_empty_sound_example : ¬ Noted e3 early
unfolding State.begin_claim State.mark_empty
known_empty_sound_example = known_empty_sound e3 early (run (fresh _) empty_steps) refl

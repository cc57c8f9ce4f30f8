-- ===== src/ClaimCursor/Steps/Note.antt =====
-- The note of a batch of inserts keeps the invariant of the claim state.
use taquba.Base.{
  ℕ, ◌+◌, ◌^◌, ◌≤◌, ◌<◌, ◌≡◌, refl, sym, subst, ◌⊎◌, inl, inr, true, false, Option, none, some,
  arith, Bool-cases, ◌==◌,
}
use taquba.Bytes.{Bytes, bytes_lt}
use taquba.ClaimCursor.State.{
  ScanFrom, QueueClaimState, ClaimScanStart, known_empty, scan_from_eq, clamp, include_min_key,
  lower_ahead, default,
}
use taquba.ClaimCursor.State
use taquba.ClaimCursor.Steps.{yields, Phase, idle, begun, scanning, committed, advanced}
use taquba.ClaimCursor.Steps.Bound.{
  MovedBack, at_key, include-MovedBack, yields-at_key, yields-not_include, Ahead-lower,
  Ahead-lower_kept,
}
use taquba.ClaimCursor.Steps.Bound.{yields-include_any}
use taquba.ClaimCursor.Steps.Invariant.{Observed, Since, PhaseInv, CursorInv}

-- The two outcomes of a note.
note_cases :
    (c : QueueClaimState) (min_key : Bytes)
    → let t = State.note_pending_inserts c min_key in
      ((include_min_key c.scan_from (known_empty c) min_key ≡ true)
        × (t.scan_from ≡ some (at_key min_key)))
      ⊎ ((include_min_key c.scan_from (known_empty c) min_key ≡ false)
          × (t.scan_from ≡ c.scan_from)
          × (t.min_insert_ahead ≡ some (lower_ahead c.min_insert_ahead min_key)))
unfolding State.note_pending_inserts
note_cases c min_key = elim (Bool-cases (include_min_key c.scan_from (known_empty c) min_key)) [
  | inl e ↦ inl (e, rw e)
  | inr e ↦ inr (e, rw e, rw e)
]

-- The note of a batch, for keys `M` that were in `N` before or are in the batch.
module _ {N M : Bytes → Type 0} (c : QueueClaimState) (min_key : Bytes)
    (room : c.epoch + 1 < 2 ^ 64)
    (split : (k : Bytes) → M k → N k ⊎ (bytes_lt k min_key ≡ false)) where
  abbrev noted : QueueClaimState
  noted = State.note_pending_inserts c min_key

  noted_epoch : noted.epoch ≡ c.epoch + 1
  unfolding State.note_pending_inserts
  noted_epoch = ground arith

  note_bounded : CursorInv c N → (k : Bytes) → M k → yields noted.scan_from k ≡ true
  note_bounded i k m = elim (note_cases c min_key) [
    | inl (h, e) ↦ rw e (elim (split k m) [
      | inl n ↦ yields-include_any c.scan_from _ min_key k h (λ z. i.empty z k n) (i.bounded k n)
      | inr l ↦ yields-at_key min_key k l
    ])
    | inr (h, e, f) ↦ rw e (elim (split k m) [
      | inl n ↦ i.bounded k n
      | inr l ↦ yields-not_include c.scan_from _ min_key k h l
    ])
  ]

  note_marked : CursorInv c N → (e : ℕ) → noted.empty_as_of ≡ some e → e ≤ c.epoch
  unfolding State.note_pending_inserts
  note_marked i e h = ground (arith, i.marked e)

  note_not_empty : CursorInv c N → ¬ (known_empty noted ≡ true)
  note_not_empty i h = not_empty noted.empty_as_of refl h
    where
      not_empty :
          (o : Option ℕ)
          → noted.empty_as_of ≡ o
          → (elim o [ none ↦ false | some e ↦ e == noted.epoch ]) ≡ true
          → ⊥
      not_empty none q z = cc
      not_empty (some e) q z = ground (arith, note_marked i e q, noted_epoch)

  pub note-CursorInv : CursorInv c N → CursorInv noted M
  note-CursorInv i = record {
    bounded = note_bounded i;
    empty = λ e k m. note_not_empty i e;
    marked = λ e h. omega (arith, note_marked i e h, noted_epoch);
  }

  note-Observed : (obs : ClaimScanStart) → Observed c obs → Observed noted obs
  note-Observed obs o = record {
    earlier = omega (arith, noted_epoch);
    bound = elim (note_cases c min_key) [
      | inl (h, e) ↦ inl (
          subst (λ s. MovedBack s obs.scan_from) (sym e)
            (include-MovedBack c.scan_from obs.scan_from _ min_key h o.bound))
      | inr (h, e, f) ↦ rw e o.bound
    ];
    same = λ e. absurd (omega (arith, noted_epoch, o.earlier));
  }

  note-Since :
      (obs : ClaimScanStart) (k : Bytes)
      → Observed c obs
      → Since c obs k ⊎ (bytes_lt k min_key ≡ false)
      → Since noted obs k
  note-Since obs k o s = (
    omega (arith, noted_epoch, o.earlier),
    elim (note_cases c min_key) [
      | inl (h, e) ↦ inl (
          subst (λ s. MovedBack s obs.scan_from) (sym e)
            (include-MovedBack c.scan_from obs.scan_from _ min_key h o.bound))
      | inr (h, e, f) ↦
          rw (e, f)
            (elim s [
              | inl (l, inl m) ↦ inl m
              | inl (l, inr a) ↦ inr (Ahead-lower_kept c.min_insert_ahead min_key k a)
              | inr l ↦ inr (Ahead-lower c.min_insert_ahead min_key k l)
            ])
    ],
  )

  pub note-PhaseInv : (p : Phase) → PhaseInv c N p → PhaseInv noted M p
  note-PhaseInv idle i = tt
  note-PhaseInv (begun obs) i = note-Observed obs i
  note-PhaseInv (scanning obs snap) i = (
    note-Observed obs i.0,
    λ k m. elim (split k m) [
      | inl n ↦ elim (i.1 k n) [ inl s ↦ inl s | inr s ↦ inr (note-Since obs k i.0 (inl s)) ]
      | inr l ↦ inr (note-Since obs k i.0 (inr l))
    ],
  )
  note-PhaseInv (committed obs key drained) i = (
    note-Observed obs i.0,
    λ k m. elim (split k m) [
      | inl n ↦ elim (i.1 k n) [ inl s ↦ inl s | inr s ↦ inr (note-Since obs k i.0 (inl s)) ]
      | inr l ↦ inr (note-Since obs k i.0 (inr l))
    ],
  )
  note-PhaseInv (advanced obs drained) i =
      (omega (arith, noted_epoch, i.0), λ d e k m. omega (arith, noted_epoch, i.0))

-- ===== src/ClaimCursor/Steps/Preserved.antt =====
-- Every step keeps the invariant, so it holds in every world that the process reaches.
use taquba.Base.{
  ℕ, ◌+◌, ◌^◌, ◌≤◌, ◌<◌, ◌≡◌, refl, sym, ap, ◌∙◌, subst, ◌⊎◌, inl, inr, Bool, true, false, not,
  ◌&&◌, ◌||◌, List, [], ◌∷◌, ◌++◌, arith, Bool-cases, ◌==◌,
}
use taquba.Bytes.{Bytes, bytes_lt}
use taquba.ClaimCursor.State.{
  ScanFrom, QueueClaimState, ClaimScanStart, known_empty, scan_from_eq, clamp, include_min_key,
  lower_ahead, default,
}
use taquba.ClaimCursor.State
use taquba.ClaimCursor.Steps.{
  mem, in_any, yields, collect, last_of, IsScan, Phase, idle, begun, scanning, committed, advanced,
  World, IsLeast, mark_drained, Step, Reach, here, next,
}
use taquba.ClaimCursor.Steps.Bound.{MovedBack, not-MovedBack, scan_from_eq_refl, yields-clamp}
use taquba.ClaimCursor.Steps.Collect.{collect_splits}
use taquba.ClaimCursor.Steps.Invariant.{Noted, Since, PhaseInv, CursorInv, Inv}
use taquba.ClaimCursor.Steps.Note.{note-CursorInv, note-PhaseInv}
use taquba.ClaimCursor.Steps.{
  insert, delete, note, begin, snapshot, found_none, commit, advance, finish, abandon,
}

-- Fewer keys: the invariant stays.
module _ {N M : Bytes → Type 0} (sub : (k : Bytes) → M k → N k) where
  CursorInv-sub : (c : QueueClaimState) → CursorInv c N → CursorInv c M
  CursorInv-sub c i = record {
    bounded = λ k m. i.bounded k (sub k m);
    empty = λ e k m. i.empty e k (sub k m);
    marked = i.marked;
  }

  PhaseInv-sub : (c : QueueClaimState) (p : Phase) → PhaseInv c N p → PhaseInv c M p
  PhaseInv-sub c idle i = tt
  PhaseInv-sub c (begun obs) i = i
  PhaseInv-sub c (scanning obs snap) i = (i.0, λ k m. i.1 k (sub k m))
  PhaseInv-sub c (committed obs key drained) i = (i.0, λ k m. i.1 k (sub k m))
  PhaseInv-sub c (advanced obs drained) i = (i.0, λ d e k m. i.1 d e k (sub k m))

in_any-middle :
    (k : Bytes) (before after : List (List Bytes)) (keys : List Bytes)
    → in_any k (before ++ (keys ∷ after)) ≡ (mem k keys || in_any k (before ++ after))
in_any-middle k [] after keys = refl
in_any-middle k (b ∷ before) after keys = ground (arith, in_any-middle k before after keys)

-- A world with other live keys, fewer of them noted.
Inv-sub :
    (w : World) (live : Bytes → Bool) (unnoted : List (List Bytes))
    → ((k : Bytes) → Noted (record w { live = live; unnoted = unnoted }) k → Noted w k)
    → Inv w
    → Inv (record w { live = live; unnoted = unnoted })
Inv-sub w live unnoted sub i = record {
  cursor_inv = CursorInv-sub sub w.cursor i.cursor_inv;
  phase_inv = PhaseInv-sub sub w.cursor w.phase i.phase_inv;
}

-- What the invariant says of the phase that a step starts from.
phase_at : (w : World) (p : Phase) → w.phase ≡ p → Inv w → PhaseInv w.cursor (Noted w) p
phase_at w p e i = subst (PhaseInv w.cursor (Noted w)) e i.phase_inv

note-Inv :
    (w : World) (before after : List (List Bytes)) (keys : List Bytes) (min_key : Bytes)
    → w.unnoted ≡ before ++ (keys ∷ after)
    → IsLeast min_key keys
    → w.cursor.epoch + 1 < 2 ^ 64
    → Inv w
    → Inv (record w {
      cursor = State.note_pending_inserts w.cursor min_key;
      unnoted = before ++ after;
    })
note-Inv w before after keys min_key u least room i = record {
  cursor_inv = note-CursorInv w.cursor min_key room split i.cursor_inv;
  phase_inv = note-PhaseInv w.cursor min_key room split w.phase i.phase_inv;
}
  where
    split :
        (k : Bytes)
        → (w.live k ≡ true) × (in_any k (before ++ after) ≡ false)
        → Noted w k ⊎ (bytes_lt k min_key ≡ false)
    split k (l, n) = elim (Bool-cases (mem k keys)) [
      | inl m ↦ inr (least.least k m)
      | inr m ↦ inl (l, rw (u, in_any-middle k before after keys, m) n)
    ]

begin-Inv : (w : World) → Inv w → Inv (record w { phase = begun (State.begin_claim w.cursor) })
unfolding State.begin_claim
begin-Inv w i = record {
  cursor_inv = i.cursor_inv;
  phase_inv = record { earlier = omega arith; bound = inr refl; same = λ _. refl };
}

-- A key of the snapshot is read by the claim's scan, while the bound is the one observed.
read_by_scan :
    (w : World) (obs : ClaimScanStart) (snap : Bytes → Bool) (iter : List Bytes) (k : Bytes)
    → Inv w
    → IsScan snap obs.scan_from iter
    → w.cursor.scan_from ≡ obs.scan_from
    → Noted w k
    → snap k ≡ true
    → mem k iter ≡ true
read_by_scan w obs snap iter k i scan e n s =
    let y : yields obs.scan_from k ≡ true = rw (← e) (i.cursor_inv.bounded k n) in
    rw (scan.reads k, s) y

-- Emptiness recorded against an observation holds only while no note followed it.
mark_empty-CursorInv :
    (c : QueueClaimState) (N : Bytes → Type 0) (obs : ClaimScanStart)
    → obs.epoch ≤ c.epoch
    → (c.epoch ≡ obs.epoch → (k : Bytes) → ¬ N k)
    → CursorInv c N
    → CursorInv (State.mark_empty c obs) N
unfolding State.mark_empty
mark_empty-CursorInv c N obs le none_left i = record {
  bounded = i.bounded;
  empty = λ h k n. none_left (ground arith) k n;
  marked = λ e h. ground arith;
}

Since-later :
    (c : QueueClaimState) (obs : ClaimScanStart) (k : Bytes) → c.epoch ≡ obs.epoch → ¬ Since c obs k
Since-later c obs k e s = omega (arith, s.0)

found_none-Inv :
    (w : World) (obs : ClaimScanStart) (snap : Bytes → Bool)
    → PhaseInv w.cursor (Noted w) (scanning obs snap)
    → IsScan snap obs.scan_from []
    → Inv w
    → Inv (record w { cursor = State.mark_empty w.cursor obs; phase = idle })
found_none-Inv w obs snap p scan i = record {
  cursor_inv = mark_empty-CursorInv w.cursor (Noted w) obs p.0.earlier none_left i.cursor_inv;
  phase_inv = tt;
}
  where
    none_left : w.cursor.epoch ≡ obs.epoch → (k : Bytes) → ¬ Noted w k
    none_left e k n = elim (p.1 k n) [
      | inl s ↦ cc (read_by_scan w obs snap [] k i scan (p.0.same e) n s)
      | inr s ↦ Since-later w.cursor obs k e s
    ]

module _ (w : World) (obs : ClaimScanStart) (snap : Bytes → Bool) (max_jobs : ℕ) (iter : List Bytes)
    (first : Bytes) (more : List Bytes) (drained : Bool)
    (p : PhaseInv w.cursor (Noted w) (scanning obs snap)) (scan : IsScan snap obs.scan_from iter)
    (taken : collect max_jobs iter ≡ (first ∷ more, drained)) (i : Inv w) where
  abbrev after_commit : World
  after_commit = record w {
    live = λ k. not (mem k (first ∷ more)) && w.live k;
    phase = committed obs (last_of first more) drained;
  }

  still-Noted : (k : Bytes) → Noted after_commit k → Noted w k
  still-Noted k n = ground arith

  not_taken : (k : Bytes) → Noted after_commit k → mem k (first ∷ more) ≡ false
  not_taken k n = ground arith

  behind_last :
      (k : Bytes)
      → Noted after_commit k
      → ((bytes_lt (last_of first more) k ≡ true) × (drained ≡ false)) ⊎ Since w.cursor obs k
  behind_last k n = elim (p.1 k (still-Noted k n)) [
    | inr s ↦ inr s
    | inl s ↦ elim p.0.bound [
      | inl m ↦ inr (moved m, inl m)
      | inr e ↦
          elim (collect_splits max_jobs iter k first more scan.ascending (ap (λ t. t.0) taken)
            (read_by_scan w obs snap iter k i scan e (still-Noted k n) s)) [
              | inl m ↦ cc (not_taken k n)
              | inr (l, d) ↦ inl (l, sym (ap (λ t. t.1) taken) ∙ d)
            ]
    ]
  ]
    where
      moved : MovedBack w.cursor.scan_from obs.scan_from → obs.epoch < w.cursor.epoch
      moved m = elim (Bool-cases (w.cursor.epoch == obs.epoch)) [
        | inl e ↦ absurd (
            not-MovedBack w.cursor.scan_from obs.scan_from
              (rw (p.0.same (ground arith)) (scan_from_eq_refl obs.scan_from)) m)
        | inr e ↦ ground (arith, p.0.earlier)
      ]

  commit-Inv : Inv after_commit
  commit-Inv = record {
    cursor_inv = CursorInv-sub still-Noted w.cursor i.cursor_inv;
    phase_inv = (p.0, behind_last);
  }

module _ (w : World) (obs : ClaimScanStart) (key : Bytes) (drained : Bool)
    (p : PhaseInv w.cursor (Noted w) (committed obs key drained)) (i : Inv w) where
  advance_bounded :
      (k : Bytes) → Noted w k → yields (State.advance w.cursor key obs).scan_from k ≡ true
  unfolding State.advance
  advance_bounded k n = elim (Bool-cases (scan_from_eq w.cursor.scan_from obs.scan_from)) [
    | inr e ↦ rw e (i.cursor_inv.bounded k n)
    | inl e ↦ rw e (
        yields-clamp w.cursor.min_insert_ahead key k (elim (p.1 k n) [
          | inl (l, _) ↦ inl l
          | inr (_, inl m) ↦ absurd (not-MovedBack w.cursor.scan_from obs.scan_from e m)
          | inr (_, inr a) ↦ inr a
        ]))
  ]

  advance_kept :
      ((State.advance w.cursor key obs).epoch ≡ w.cursor.epoch)
      × ((State.advance w.cursor key obs).empty_as_of ≡ w.cursor.empty_as_of)
  unfolding State.advance
  advance_kept = (ground arith, ground arith)

  advance-Inv :
      Inv (record w { cursor = State.advance w.cursor key obs; phase = advanced obs drained })
  advance-Inv = record {
    cursor_inv = record {
      bounded = advance_bounded;
      empty = λ h k n. i.cursor_inv.empty (rw (advance_kept.0, advance_kept.1) at h) k n;
      marked = λ e h. rw advance_kept.0 (i.cursor_inv.marked e (sym advance_kept.1 ∙ h));
    };
    phase_inv = (
      rw advance_kept.0 p.0.earlier,
      λ d e k n. elim (p.1 k n) [
        | inl (_, f) ↦ cc
        | inr s ↦ Since-later w.cursor obs k (sym advance_kept.0 ∙ e) s
      ],
    );
  }

finish-Inv :
    (w : World) (obs : ClaimScanStart) (drained : Bool)
    → PhaseInv w.cursor (Noted w) (advanced obs drained)
    → Inv w
    → Inv (record w { cursor = mark_drained drained w.cursor obs; phase = idle })
finish-Inv w obs true p i = record {
  cursor_inv = mark_empty-CursorInv w.cursor (Noted w) obs p.0 (p.1 refl) i.cursor_inv;
  phase_inv = tt;
}
finish-Inv w obs false p i = record { cursor_inv = i.cursor_inv; phase_inv = tt }

-- Every step keeps the invariant.
pub Step-Inv : {w v : World} → Step w v → Inv w → Inv v
Step-Inv {w} (insert keys e) i =
    rw e (Inv-sub w (λ k. mem k keys || w.live k) (keys ∷ w.unnoted) (λ k n. ground arith) i)
Step-Inv {w} (delete keys e) i =
    rw e (Inv-sub w (λ k. not (mem k keys) && w.live k) w.unnoted (λ k n. ground arith) i)
Step-Inv {w} (note before after keys min_key u least room e) i =
    rw e (note-Inv w before after keys min_key u least room i)
Step-Inv {w} (begin _ _ e) i = rw e (begin-Inv w i)
Step-Inv {w} (snapshot obs q e) i =
    rw e (record {
      cursor_inv = i.cursor_inv;
      phase_inv = (phase_at w (begun obs) q i, λ k n. inl n.0);
    })
Step-Inv {w} (found_none obs snap q scan e) i =
    rw e (found_none-Inv w obs snap (phase_at w (scanning obs snap) q i) scan i)
Step-Inv {w} (commit obs snap max_jobs iter first more drained q scan taken e) i = rw e (
    commit-Inv w obs snap max_jobs iter first more drained (phase_at w (scanning obs snap) q i) scan
      taken i)
Step-Inv {w} (advance obs key drained q e) i =
    rw e (advance-Inv w obs key drained (phase_at w (committed obs key drained) q i) i)
Step-Inv {w} (finish obs drained q e) i =
    rw e (finish-Inv w obs drained (phase_at w (advanced obs drained) q i) i)
Step-Inv {w} (abandon e) i = rw e (record { cursor_inv = i.cursor_inv; phase_inv = tt })

pub Reach-Inv : {w v : World} → Inv w → Reach w v → Inv v
Reach-Inv i here = i
Reach-Inv i (next r s) = Step-Inv s (Reach-Inv i r)

-- ===== src/Effects/Elsewhere/Counts.antt =====
-- The changes of counts and the waits for them reach no user key.
use taquba.Base.{
  ◌≡◌, ◌&&◌, inl, inr, refl, sym, subst, ap, ◌∙◌, false, [], ◌∷◌, Option, none, some, arith,
  Bool-cases, Option-cases,
}
use taquba.Bytes.{Bytes, bytes_eq}
use taquba.Map.{Map}
use taquba.Int.{ℤ, is_zero, add}
use taquba.Status.{status_eq, scheduled, pending}
use taquba.Keys.{KeyTag, of, count_key}
use taquba.Job.{JobRecord}
use taquba.Error.{Result, ok, bind-ok, ok-injective}
use taquba.Backend.{Backend}
use taquba.Txn.{Txn, get_indexed_job}
use taquba.Count.{
  CountCodec, CountRecord, read_record, write_change, stage_count_change, register, replace_found,
  replace_on, wait_for, wait_on, replace_waiter, stage_count_wait,
}
use taquba.QueueCore.Control.{is_count, Wake, stage_wake}
use taquba.Effects.Staged.{stage_counts}
use taquba.Effects.Elsewhere.{
  tag_differs, SameUser, put-SameUser, delete-SameUser, SameUser-refl, SameUser-trans, returned,
  stage_wake-SameUser,
}

module _ (b : Backend) (counts : CountCodec) where
  open b use {State, get, put, delete, codec}

  count_differs : (name x : Bytes) → of x ≡ some KeyTag.user → bytes_eq (count_key name) x ≡ false
  unfolding of count_key
  count_differs name x hx = tag_differs (count_key name) x (λ e. ground (arith, e, hx))

  same_txn :
      (r : Result (Txn b)) (s : State) (v u : Txn b)
      → r ≡ ok v
      → r ≡ ok u
      → SameUser b s v.txn
      → SameUser b s u.txn
  same_txn r s v u p q same =
      subst (SameUser b s) (ap (λ w. w.txn) (ok-injective v u (sym p ∙ q))) same

  write_change-SameUser :
      (t u : Txn b) (name : Bytes) (r : CountRecord)
      → write_change b counts t name r ≡ ok u
      → SameUser b t.txn u.txn
  unfolding write_change
  write_change-SameUser t u name r h = elim (Bool-cases (is_zero r.active)) [
    | inr e ↦
        same_txn (write_change b counts t name r) t.txn
          (record t { txn = put t.txn (count_key name) (counts.encode r) }) u (rw (write_change, e))
          h
          (put-SameUser b t.txn t.txn (count_key name) (counts.encode r) (SameUser-refl b t.txn)
            (count_differs name))
    | inl e ↦ elim (Option-cases r.waiter) [
      | inl f ↦
          same_txn (write_change b counts t name r) t.txn left u (rw (write_change, e, f)) h without
      | inr (waiter, f) ↦
          let ((v, woken), p, q) =
            bind-ok (stage_wake b left waiter (Wake.count name)) (λ x. ok x.0) u
              (sym (rw (write_change, e, f)) ∙ h) in
          same_txn (ok v) t.txn v u refl q (
            SameUser-trans b t.txn left.txn v.txn without
              (stage_wake-SameUser b left v waiter (Wake.count name) woken p))
    ]
  ]
    where
      left : Txn b
      left = record t { txn = delete t.txn (count_key name) }

      without : SameUser b t.txn left.txn
      without =
          delete-SameUser b t.txn t.txn (count_key name) (SameUser-refl b t.txn)
            (count_differs name)

  stage_count_change-SameUser :
      (t u : Txn b) (name : Bytes) (delta : ℤ)
      → stage_count_change b counts t name delta ≡ ok u
      → SameUser b t.txn u.txn
  unfolding stage_count_change
  stage_count_change-SameUser t u name delta h = elim (Bool-cases (is_zero delta)) [
    | inl e ↦
        same_txn (stage_count_change b counts t name delta) t.txn t u (rw (stage_count_change, e)) h
          (SameUser-refl b t.txn)
    | inr e ↦
        let (r, p, q) =
          bind-ok (read_record b counts t.txn (count_key name))
            (λ r. write_change b counts t name (record r { active = add r.active delta })) u
            (sym (rw (stage_count_change, e)) ∙ h) in
        write_change-SameUser t u name (record r { active = add r.active delta }) q
  ]

  pub stage_counts-SameUser :
      (t u : Txn b) (changes : Map Bytes ℤ)
      → stage_counts b counts t changes ≡ ok u
      → SameUser b t.txn u.txn
  unfolding stage_counts
  stage_counts-SameUser t u [] h = same_txn (ok t) t.txn t u refl h (SameUser-refl b t.txn)
  stage_counts-SameUser t u ((name, delta) ∷ changes) h =
      let (v, p, q) = bind-ok (stage_count_change b counts t name delta) _ u h in
      SameUser-trans b t.txn v.txn u.txn (stage_count_change-SameUser t v name delta p)
        (stage_counts-SameUser v u changes q)

  register-SameUser :
      (t u : Txn b) (name : Bytes) (r : CountRecord) (job written : JobRecord)
      → register b counts t name r job ≡ ok (u, written)
      → SameUser b t.txn u.txn
  register-SameUser t u name r job written h =
      returned b JobRecord (register b counts t name r job) t.txn
        (record t {
          txn = put t.txn (count_key name) (counts.encode (record r { waiter = some job.id }));
        })
        u job written refl h
        (put-SameUser b t.txn t.txn (count_key name) _ (SameUser-refl b t.txn) (count_differs name))

  replace_found-SameUser :
      (t u : Txn b) (name : Bytes) (r : CountRecord) (job written : JobRecord) (waiter : Bytes)
      (found : Option (Bytes × JobRecord))
      → replace_found b counts t name r job waiter found ≡ ok (u, written)
      → SameUser b t.txn u.txn
  replace_found-SameUser t u name r job written waiter none h =
      register-SameUser t u name r job written h
  replace_found-SameUser t u name r job written waiter (some (key, current)) h =
      elim (Bool-cases (status_eq current.status scheduled && is_count current.count_wait name)) [
        | inl e ↦ absurd (ground (arith, e, h))
        | inr e ↦ register-SameUser t u name r job written (sym (rw e) ∙ h)
      ]

  replace_waiter-SameUser :
      (t u : Txn b) (name : Bytes) (r : CountRecord) (job written : JobRecord)
      → replace_waiter b counts t name r job ≡ ok (u, written)
      → SameUser b t.txn u.txn
  unfolding replace_waiter
  replace_waiter-SameUser t u name r job written h = elim (Option-cases r.waiter) [
    | inl e ↦
        register-SameUser t u name r job written (sym (ap (replace_on b counts t name r job) e) ∙ h)
    | inr (waiter, e) ↦
        let (found, p, q) =
          bind-ok (get_indexed_job b t.txn waiter) (replace_found b counts t name r job waiter)
            (u, written) (sym (ap (replace_on b counts t name r job) e) ∙ h) in
        replace_found-SameUser t u name r job written waiter found q
  ]

  pub stage_count_wait-SameUser :
      (t u : Txn b) (job written : JobRecord)
      → stage_count_wait b counts t job ≡ ok (u, written)
      → SameUser b t.txn u.txn
  unfolding stage_count_wait
  stage_count_wait-SameUser t u job written h = elim (Option-cases job.count_wait) [
    | inl e ↦
        returned b JobRecord (stage_count_wait b counts t job) t.txn t u job written
          (ap (wait_on b counts t job) e) h (SameUser-refl b t.txn)
    | inr (name, e) ↦
        let (r, p, q) =
          bind-ok (read_record b counts t.txn (count_key name)) (wait_for b counts t job name)
            (u, written) (sym (ap (wait_on b counts t job) e) ∙ h) in
        elim (Bool-cases (is_zero r.active)) [
          | inl z ↦
              returned b JobRecord (wait_for b counts t job name r) t.txn t u
                (record job {
                  status = pending;
                  run_at = none;
                  signal_wait = false;
                  count_wait = none;
                })
                written (rw z) q (SameUser-refl b t.txn)
          | inr z ↦ replace_waiter-SameUser t u name r job written (sym (rw z) ∙ q)
        ]
  ]

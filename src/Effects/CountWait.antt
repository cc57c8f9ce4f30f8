-- ===== src/Effects/CountWait.antt =====
-- The end of a wait for a count, on a consistent store.
use taquba.Base.{
  ◌≡◌, ◌⊎◌, inl, inr, refl, sym, subst, ap, ◌∙◌, true, false, Option, none, some, arith, Bool-cases,
  Option-cases, ◌&&◌,
}
use taquba.Bytes.{Bytes}
use taquba.Int.{is_zero}
use taquba.Status.{scheduled, status_eq, status_eq_iff}
use taquba.Keys.{count_key}
use taquba.Job.{JobRecord, stored_clone}
use taquba.Error.{Error, Result, ok, err, ◌>>=◌, deserialization, count_waiter_exists}
use taquba.Backend.{Backend}
use taquba.Txn.{Txn, get_indexed_job}
use taquba.Txn.Keyed.{job_space}
use taquba.Txn.Consistent.{IsConsistent}
use taquba.Txn.Lookup.{get_indexed_job-Stored}
use taquba.Txn.Unrelated.{other_space}
use taquba.QueueCore.Read.{pending_of, get_indexed_job-cases}
use taquba.QueueCore.Control.{is_count}
use taquba.Count.{
  CountCodec, CountRecord, default, read_record, register, replace_found, replace_on,
  replace_waiter, wait_for, wait_on,
}
use taquba.Count.CountCorrect.{count_space}

module _ (b : Backend) (counts : CountCodec) where
  open b use {State, get, put, delete}

  -- The registration of a waiter for a count that is not zero: refused while the recorded job waits for
  -- the count, else the job as it is, with no change of the records and the index.
  abbrev Registers : Txn b → Bytes → CountRecord → JobRecord → Result (Txn b × JobRecord) → Type 0
  Registers t name r job res =
      ((waiter : Bytes) × (key : Bytes) × (current : JobRecord) × (res
          ≡ err (count_waiter_exists name waiter))
        × (r.waiter ≡ some waiter)
        × (get_indexed_job b t.txn waiter ≡ ok (some (key, current)))
        × (current.status ≡ scheduled)
        × (is_count current.count_wait name ≡ true))
      ⊎ ((u : Txn b) × (res ≡ ok (u, job))
          × ((x : Bytes) → job_space x ≡ true → get u.txn x ≡ get t.txn x))

  -- Why a wait for a count is refused: the count cannot be read, or is not zero and has a waiter.
  abbrev pub WaitRefused : Txn b → Bytes → Error → Type 0
  WaitRefused t name e =
      ((bytes : Bytes) × (get t.txn (count_key name) ≡ some bytes)
        × (counts.from_slice bytes ≡ none)
        × (e ≡ deserialization))
      ⊎ ((r : CountRecord) × (waiter : Bytes) × (key : Bytes) × (current : JobRecord) × (read_record
              b counts t.txn (count_key name)
            ≡ ok r)
          × (is_zero r.active ≡ false)
          × (r.waiter ≡ some waiter)
          × (get_indexed_job b t.txn waiter ≡ ok (some (key, current)))
          × (current.status ≡ scheduled)
          × (is_count current.count_wait name ≡ true)
          × (e ≡ count_waiter_exists name waiter))

  -- The record that a wait for a count leaves: pending when the count is zero, as it is otherwise.
  abbrev pub WaitWritten : Txn b → Bytes → JobRecord → JobRecord → Type 0
  WaitWritten t name job written =
      (r : CountRecord) × (read_record b counts t.txn (count_key name) ≡ ok r)
      × (((is_zero r.active ≡ true) × (written ≡ pending_of job))
          ⊎ ((is_zero r.active ≡ false) × (written ≡ job)))

  -- The end of a wait for a count, with no change of the records and the index.
  abbrev pub WaitEnd : Txn b → Bytes → JobRecord → Result (Txn b × JobRecord) → Type 0
  WaitEnd t name job res =
      ((e : Error) × (res ≡ err e) × WaitRefused t name e)
      ⊎ ((u : Txn b) × (written : JobRecord) × (res ≡ ok (u, written))
          × ((x : Bytes) → job_space x ≡ true → get u.txn x ≡ get t.txn x)
          × WaitWritten t name job written)

  register-Registers :
      (t : Txn b) (name : Bytes) (r : CountRecord) (job : JobRecord)
      → Registers t name r job (register b counts t name r job)
  register-Registers t name r job = inr (
    record t {
      txn = put t.txn (count_key name) (counts.encode (record r { waiter = some job.id }));
    },
    refl,
    λ x hx. ground (
      arith,
      b.get-put t.txn (count_key name) (counts.encode (record r { waiter = some job.id })) x,
      other_space b (count_key name) x (count_space b counts name) hx,
    ),
  )

  found-Registers :
      (t : Txn b) (name : Bytes) (r : CountRecord) (job : JobRecord) (waiter key : Bytes)
      (current : JobRecord)
      → r.waiter ≡ some waiter
      → get_indexed_job b t.txn waiter ≡ ok (some (key, current))
      → Registers t name r job (replace_found b counts t name r job waiter (some (key, current)))
  found-Registers t name r job waiter key current h p =
      elim (Bool-cases (status_eq current.status scheduled && is_count current.count_wait name)) [
        | inl e ↦ inl (
          waiter,
          key,
          current,
          rw e,
          h,
          p,
          (status_eq_iff current.status scheduled).0 (ground (arith, e)),
          ground (arith, e),
        )
        | inr e ↦ subst (Registers t name r job) (sym (rw e)) (register-Registers t name r job)
      ]

  replace_on-Registers :
      (t : Txn b) (name : Bytes) (r : CountRecord) (job : JobRecord) (waiter : Option Bytes)
      → IsConsistent b t.txn
      → r.waiter ≡ waiter
      → Registers t name r job (replace_on b counts t name r job waiter)
  replace_on-Registers t name r job none c h = register-Registers t name r job
  replace_on-Registers t name r job (some waiter) c h =
      elim (get_indexed_job-cases b t.txn waiter c) [
        | inl (e, p) ↦
            subst (λ x. Registers t name r job (x >>= replace_found b counts t name r job waiter))
              (sym p) (register-Registers t name r job)
        | inr (key, current, e, st) ↦
            let p =
              sym (ap (get_indexed_job b t.txn) e)
              ∙ get_indexed_job-Stored b t.txn key current st in
            subst (λ x. Registers t name r job (x >>= replace_found b counts t name r job waiter))
              (sym p) (found-Registers t name r job waiter key (stored_clone current) h p)
      ]

  wait_for-WaitEnd :
      (t : Txn b) (job : JobRecord) (name : Bytes) (r : CountRecord)
      → IsConsistent b t.txn
      → read_record b counts t.txn (count_key name) ≡ ok r
      → WaitEnd t name job (wait_for b counts t job name r)
  unfolding replace_waiter
  wait_for-WaitEnd t job name r c q = elim (Bool-cases (is_zero r.active)) [
    | inl e ↦ inr (t, pending_of job, rw e, λ x hx. refl, (r, q, inl (e, refl)))
    | inr e ↦
        subst (WaitEnd t name job) (sym (rw e))
          (elim (replace_on-Registers t name r job r.waiter c refl) [
            | inl (waiter, key, current, p, h, found, s, k) ↦ inl (
              count_waiter_exists name waiter,
              p,
              inr (r, waiter, key, current, q, e, h, found, s, k, refl),
            )
            | inr (u, p, same) ↦ inr (u, job, p, same, (r, q, inr (e, refl)))
          ])
  ]

  -- The read of a count is refused, or returns.
  read_record-cases :
      (s : State) (key : Bytes)
      → ((bytes : Bytes) × (get s key ≡ some bytes)
          × (counts.from_slice bytes ≡ none)
          × (read_record b counts s key ≡ err deserialization))
        ⊎ ((r : CountRecord) × (read_record b counts s key ≡ ok r))
  unfolding read_record
  read_record-cases s key = elim (Option-cases (get s key)) [
    | inl e ↦ inr (default, rw (read_record, e))
    | inr (bytes, e) ↦ elim (Option-cases (counts.from_slice bytes)) [
      | inl f ↦ inl (bytes, e, f, rw (read_record, e, f))
      | inr (r, f) ↦ inr (r, rw (read_record, e, f))
    ]
  ]

  pub wait_on-WaitEnd :
      (t : Txn b) (job : JobRecord) (name : Bytes)
      → IsConsistent b t.txn
      → WaitEnd t name job (wait_on b counts t job (some name))
  wait_on-WaitEnd t job name c = elim (read_record-cases t.txn (count_key name)) [
    | inl (bytes, e, f, p) ↦
        inl
          (deserialization, ap (λ x. x >>= wait_for b counts t job name) p, inl (bytes, e, f, refl))
    | inr (r, e) ↦
        subst (λ x. WaitEnd t name job (x >>= wait_for b counts t job name)) (sym e)
          (wait_for-WaitEnd t job name r c e)
  ]

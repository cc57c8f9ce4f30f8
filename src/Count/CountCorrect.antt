-- ===== src/Count/CountCorrect.antt =====
-- The counts on a consistent store.
use taquba.Base.{◌≡◌, inl, inr, refl, true, false, some, arith}
use taquba.Bytes.{Bytes}
use taquba.Bytes.Order.{bytes_eq_refl}
use taquba.Int.{ℤ, add, is_zero}
use taquba.Status.{scheduled, status_eq_iff}
use taquba.Keys.{of, count_key}
use taquba.Job.{JobRecord, stored_clone}
use taquba.Error.{ok, err, count_waiter_exists}
use taquba.Backend.{Backend}
use taquba.Txn.{Txn}
use taquba.Txn.Keyed.{job_space}
use taquba.Txn.Consistent.{Stored, IsConsistent}
use taquba.Txn.Lookup.{get_indexed_job-Stored}
use taquba.Txn.Moved.{Kept}
use taquba.Txn.Unrelated.{other_space, Stored-same, IsConsistent-same}
use taquba.QueueCore.Control.{Wake, is_count}
use taquba.QueueCore.ControlCorrect.{stage_wake_lem}
use taquba.QueueCore.Read.{pending_of}
use taquba.Count.{
  CountRecord, CountCodec, read_record, write_change, stage_count_change, replace_waiter,
  stage_count_wait,
}

module _ (b : Backend) (counts : CountCodec) where
  open b use {State, get, put, delete}

  -- What is stored for a count, if the record is one of zero it is not stored.
  pub read_record-stored :
      (s : State) (key : Bytes) (r : CountRecord)
      → get s key ≡ some (counts.encode r)
      → read_record b counts s key ≡ ok r
  unfolding read_record
  read_record-stored s key r h = rw (read_record, h, counts.from_slice-encode r)

  pub count_space : (name : Bytes) → job_space (count_key name) ≡ false
  unfolding job_space of count_key
  count_space name = refl

  -- A change that leaves a count away from zero returns, and the count is then read as the sum, with
  -- the same waiting job.
  pub stage_count_change-sum :
      (t : Txn b) (name : Bytes) (delta : ℤ) (r : CountRecord)
      → read_record b counts t.txn (count_key name) ≡ ok r
      → is_zero delta ≡ false
      → is_zero (add r.active delta) ≡ false
      → (u : Txn b) × (stage_count_change b counts t name delta ≡ ok u)
        × (read_record b counts u.txn (count_key name)
            ≡ ok (record r { active = add r.active delta }))
  unfolding stage_count_change write_change
  stage_count_change-sum t name delta r h d z = (
    record t {
      txn = put t.txn (count_key name) (counts.encode (record r { active = add r.active delta }));
    },
    rw (stage_count_change, d, h, write_change, z),
    read_record-stored _ (count_key name) (record r { active = add r.active delta })
        (ground (
          arith,
          b.get-put t.txn (count_key name)
              (counts.encode (record r { active = add r.active delta })) (count_key name),
          bytes_eq_refl (count_key name),
        )),
  )

  -- The change that leaves a count at zero, in a consistent store, returns, and makes the recorded
  -- job pending, when it is scheduled and waits for this count.
  pub stage_count_change-wakes :
      (t : Txn b) (name key : Bytes) (delta active : ℤ) (job : JobRecord)
      → IsConsistent b t.txn
      → Stored b t.txn key job
      → job.status ≡ scheduled
      → is_count job.count_wait name ≡ true
      → get t.txn (count_key name)
        ≡ some (counts.encode (record { active = active; waiter = some job.id }))
      → is_zero delta ≡ false
      → is_zero (add active delta) ≡ true
      → (u : Txn b) × (stage_count_change b counts t name delta ≡ ok u)
        × Kept b u.txn (pending_of (stored_clone job))
  unfolding stage_count_change write_change
  stage_count_change-wakes t name key delta active job c st is_scheduled waits h d z =
      elim (stage_wake_lem b left key job (Wake.count name)
        (IsConsistent-same b t.txn left.txn same c)
        (Stored-same b t.txn left.txn same key job st)) [
          | inl (other, _) ↦ absurd (other is_scheduled)
          | inr (inl (_, idle, _)) ↦ absurd (cc (idle, waits))
          | inr (inr (_, _, u, p, kept)) ↦ (
            u,
            rw (
              stage_count_change,
              d,
              read_record-stored t.txn (count_key name)
                  (record { active = active; waiter = some job.id }) h,
              write_change,
              z,
              p,
            ),
            kept,
          )
        ]
    where
      left : Txn b
      left = record t { txn = delete t.txn (count_key name) }

      same : (x : Bytes) → job_space x ≡ true → get left.txn x ≡ get t.txn x
      same x hx = ground (
        arith,
        b.get-delete t.txn (count_key name) x,
        other_space b (count_key name) x (count_space name) hx,
      )

  -- While the recorded job of a count that is not zero waits for it, no other job can wait.
  pub stage_count_wait-exclusive :
      (t : Txn b) (name key : Bytes) (r : CountRecord) (job waiting : JobRecord)
      → Stored b t.txn key waiting
      → waiting.status ≡ scheduled
      → is_count waiting.count_wait name ≡ true
      → r.waiter ≡ some waiting.id
      → read_record b counts t.txn (count_key name) ≡ ok r
      → is_zero r.active ≡ false
      → job.count_wait ≡ some name
      → stage_count_wait b counts t job ≡ err (count_waiter_exists name waiting.id)
  unfolding stage_count_wait replace_waiter stored_clone
  stage_count_wait-exclusive t name key r job waiting st is_scheduled waits w h z j = rw (
    stage_count_wait,
    j,
    h,
    z,
    replace_waiter,
    w,
    get_indexed_job-Stored b t.txn key waiting st,
    (status_eq_iff waiting.status scheduled).1 is_scheduled,
    waits,
  )

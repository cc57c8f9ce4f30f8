-- ===== src/Effects/Elsewhere.antt =====
-- The transitions of jobs and of counts reach no user key.
pub mod Counts
pub mod NewJobs
pub mod Ends
use taquba.Base.{
  ◌≡◌, ◌≢◌, ◌&&◌, ◌⊎◌, inl, inr, refl, sym, subst, ap, ◌∙◌, Bool, true, false, List, [], ◌∷◌,
  Option, none, some, arith, Bool-cases, Option-cases,
}
use taquba.Bytes.{Bytes, bytes_eq}
use taquba.Bytes.Order.{eq_of_bytes_eq}
use taquba.Map.{Map}
use taquba.Int.{ℤ, is_zero, add}
use taquba.Status.{status_eq, scheduled, pending}
use taquba.Keys.{KeyTag, of, job_status, job_index_key, count_key, dedup_index_key}
use taquba.Job.{JobRecord, stored_key, stored_bytes, decode}
use taquba.Job.Storage.{status_of, status_of-stored_key}
use taquba.Error.{Result, ok, ◌>>=◌, bind-ok, ok-injective}
use taquba.Backend.{Backend}
use taquba.Txn.{
  note_written, count_move, Txn, put_job, insert_job, move_job, end_waits, key_status,
  get_indexed_job, stage_to_pending,
}
use taquba.Txn.Inserted.{insert_job-ok}
use taquba.Txn.Keyed.{job_space, job_space-record, job_space-index}
use taquba.Count.{
  CountCodec, CountRecord, read_record, write_change, stage_count_change, register, replace_found,
  replace_on, wait_for, wait_on, replace_waiter, stage_count_wait,
}
use taquba.QueueCore.Control.{
  is_count, Wake, NotWoken, missing, unscheduled, wake_found, stage_wake, woken_record,
}
use taquba.Effects.{PreparedJob, is_some}
use taquba.Effects.Staged.{
  EnqueueResult, dedup_hit, stage_job_writes, stage_jobs, stage_counts, insert_waiting, insert_on,
  write_unheld, hold_dedup,
}

-- A key of another tag than a user key is another key.
pub tag_differs : (k x : Bytes) → of k ≢ of x → bytes_eq k x ≡ false
tag_differs k x h = elim (Bool-cases (bytes_eq k x)) [
  | inl e ↦ absurd (h (ap of (eq_of_bytes_eq k x e)))
  | inr e ↦ e
]

pub job_differs :
    (k x : Bytes) → job_space k ≡ true → of x ≡ some KeyTag.user → bytes_eq k x ≡ false
unfolding job_space
job_differs k x hk hx = tag_differs k x (λ e. ground (arith, e, hx, hk))

module _ (b : Backend) where
  open b use {State, get, put, delete, codec}

  -- A state with the user keys of another.
  unfoldable pub SameUser : State → State → Type 0
  SameUser s t = (x : Bytes) → of x ≡ some KeyTag.user → get t x ≡ get s x

module _ (b : Backend) where
  open b use {State, get, put, delete, codec}

  pub put-SameUser :
      (s t : State) (k v : Bytes)
      → SameUser b s t
      → ((x : Bytes) → of x ≡ some KeyTag.user → bytes_eq k x ≡ false)
      → SameUser b s (put t k v)
  unfolding SameUser
  put-SameUser s t k v same differ x hx = ground (arith, b.get-put t k v x, differ x hx, same x hx)

  pub delete-SameUser :
      (s t : State) (k : Bytes)
      → SameUser b s t
      → ((x : Bytes) → of x ≡ some KeyTag.user → bytes_eq k x ≡ false)
      → SameUser b s (delete t k)
  unfolding SameUser
  delete-SameUser s t k same differ x hx =
      ground (arith, b.get-delete t k x, differ x hx, same x hx)

  pub SameUser-refl : (s : State) → SameUser b s s
  unfolding SameUser
  SameUser-refl s x hx = refl

  pub SameUser-trans : (s t u : State) → SameUser b s t → SameUser b t u → SameUser b s u
  unfolding SameUser
  SameUser-trans s t u h k x hx = k x hx ∙ h x hx

  put_job-SameUser :
      (s : State) (t : Txn b) (key : Bytes) (job : JobRecord)
      → SameUser b s t.txn
      → job_space key ≡ true
      → SameUser b s (put_job b t key job).txn
  unfolding put_job
  put_job-SameUser s t key job same h =
      put-SameUser s (put t.txn key (stored_bytes codec job)) (job_index_key job.id) key
        (put-SameUser s t.txn key (stored_bytes codec job) same (λ x. job_differs key x h))
        (λ x. job_differs (job_index_key job.id) x (job_space-index job.id))

  stored-space : (job : JobRecord) (key : Bytes) → stored_key job ≡ some key → job_space key ≡ true
  stored-space job key h = job_space-record key job.status (status_of-stored_key job key h)

  pub insert_job-SameUser :
      (t u : Txn b) (job : JobRecord) → insert_job b t job ≡ ok u → SameUser b t.txn u.txn
  unfolding insert_job
  insert_job-SameUser t u job h = elim (Option-cases (stored_key job)) [
    | inl e ↦ absurd (ground (arith, e, h))
    | inr (key, e) ↦
        let (v, p, q) = insert_job-ok b t job key e in
        subst (SameUser b t.txn) (sym q ∙ ap (λ w. w.txn) (ok-injective v u (sym p ∙ h)))
          (put_job-SameUser t.txn t key job (SameUser-refl t.txn) (stored-space job key e))
  ]

  -- A call that returns one transaction returned that one.
  pub returned :
      (A : Type 0) (r : Result (Txn b × A)) (s : State) (v u : Txn b) (x y : A)
      → r ≡ ok (v, x)
      → r ≡ ok (u, y)
      → SameUser b s v.txn
      → SameUser b s u.txn
  returned A r s v u x y p q same =
      subst (SameUser b s) (ap (λ w. w.0.txn) (ok-injective (v, x) (u, y) (sym p ∙ q))) same

  pub move_job-SameUser :
      (t u : Txn b) (from : Bytes) (job written : JobRecord)
      → job_space from ≡ true
      → move_job b t from job ≡ ok (u, written)
      → SameUser b t.txn u.txn
  unfolding move_job
  move_job-SameUser t u from job written hf h = elim (Option-cases (stored_key job')) [
    | inl e ↦ absurd (ground (arith, e, h))
    | inr (key, e) ↦ elim (Bool-cases (bytes_eq from key)) [
      | inl same ↦
          returned JobRecord (move_job b t from job) t.txn
            (record t {
              txn = put t.txn key (stored_bytes codec job');
              notes = note_written t.notes job' key;
            })
            u job' written (rw (move_job, e, same)) h
            (put-SameUser t.txn t.txn key (stored_bytes codec job') (SameUser-refl t.txn)
              (λ x. job_differs key x (stored-space job' key e)))
      | inr other ↦ elim (Option-cases (key_status from)) [
        | inl f ↦ absurd (ground (arith, e, other, f, h))
        | inr (s, f) ↦
            let v = put_job b (record t { txn = delete t.txn from }) key job' in
            returned JobRecord (move_job b t from job) t.txn
              (record v { stats = count_move v.stats job'.queue (some s) (some job'.status) }) u
              job' written (rw (move_job, e, other, f)) h
              (put_job-SameUser t.txn (record t { txn = delete t.txn from }) key job'
                (delete-SameUser t.txn t.txn from (SameUser-refl t.txn)
                  (λ x. job_differs from x hf))
                (stored-space job' key e))
      ]
    ]
  ]
    where
      job' : JobRecord
      job' = end_waits job

  -- A record is decoded only from the key of a job.
  decode-space :
      (key bytes : Bytes) (job : JobRecord)
      → decode codec key bytes ≡ some job
      → job_space key ≡ true
  unfolding decode job_space
  decode-space key bytes job h = elim (Option-cases (of key)) [
    | inl e ↦ absurd (ground (arith, e, h))
    | inr (tag, e) ↦ elim (Option-cases (job_status tag)) [
      | inl f ↦ absurd (ground (arith, e, f, h))
      | inr (status, f) ↦ job_space-record key status (rw (status_of, e) f)
    ]
  ]

  pub get_indexed_job-space :
      (s : State) (id key : Bytes) (job : JobRecord)
      → get_indexed_job b s id ≡ ok (some (key, job))
      → job_space key ≡ true
  unfolding get_indexed_job
  get_indexed_job-space s id key job h = elim (Option-cases (get s (job_index_key id))) [
    | inl e ↦ absurd (ground (arith, e, h))
    | inr (k, e) ↦ elim (Option-cases (get s k)) [
      | inl f ↦ absurd (ground (arith, e, f, h))
      | inr (bytes, f) ↦ elim (Option-cases (decode codec k bytes)) [
        | inl g ↦ absurd (ground (arith, e, f, g, h))
        | inr (j, g) ↦
            subst (λ x. job_space x ≡ true) (same k j (sym (rw (get_indexed_job, e, f, g)) ∙ h))
              (decode-space k bytes j g)
      ]
    ]
  ]
    where
      same :
          (k : Bytes) (j : JobRecord)
          → ◌≡◌ {A = Result (Option (Bytes × JobRecord))} (ok (some (k, j))) (ok (some (key, job)))
          → k ≡ key
      same k j e = cc

  woken-SameUser :
      (t u : Txn b) (key : Bytes) (job : JobRecord) (r : NotWoken ⊎ Bytes)
      → job_space key ≡ true
      → ◌≡◌ {A = Result (Txn b × (NotWoken ⊎ Bytes))}
          (stage_to_pending b t key job >>= λ (v, written). ok (v, inr written.queue))
          (ok (u, r))
      → SameUser b t.txn u.txn
  unfolding stage_to_pending
  woken-SameUser t u key job r hk h =
      let ((v, written), p, q) = bind-ok (stage_to_pending b t key job) _ (u, r) h in
      returned (NotWoken ⊎ Bytes) (ok (v, inr written.queue)) t.txn v u (inr written.queue) r refl q
        (move_job-SameUser t v key (record job { status = pending; run_at = none }) written hk p)

  wake_found-SameUser :
      (t u : Txn b) (id : Bytes) (wake : Wake) (found : Option (Bytes × JobRecord))
      (r : NotWoken ⊎ Bytes)
      → get_indexed_job b t.txn id ≡ ok found
      → wake_found b t wake found ≡ ok (u, r)
      → SameUser b t.txn u.txn
  wake_found-SameUser t u id wake none r p h =
      returned (NotWoken ⊎ Bytes) _ t.txn t u (inl missing) r refl h (SameUser-refl t.txn)
  wake_found-SameUser t u id wake (some (key, job)) r p h =
      elim (Bool-cases (status_eq job.status scheduled)) [
        | inr e ↦
            returned (NotWoken ⊎ Bytes) (wake_found b t wake (some (key, job))) t.txn t u
              (inl unscheduled) r (rw e) h (SameUser-refl t.txn)
        | inl e ↦ elim (woken-cases (woken_record wake job)) [
          | inl (reason, f) ↦
              returned (NotWoken ⊎ Bytes) (wake_found b t wake (some (key, job))) t.txn t u
                (inl reason) r (rw (e, f)) h (SameUser-refl t.txn)
          | inr (ready, f) ↦
              woken-SameUser t u key ready r (get_indexed_job-space t.txn id key job p)
                (sym (rw (e, f)) ∙ h)
        ]
      ]
    where
      woken-cases :
          (x : NotWoken ⊎ JobRecord)
          → ((n : NotWoken) × (x ≡ inl n)) ⊎ ((j : JobRecord) × (x ≡ inr j))
      woken-cases (inl n) = inl (n, refl)
      woken-cases (inr j) = inr (j, refl)

  pub stage_wake-SameUser :
      (t u : Txn b) (id : Bytes) (wake : Wake) (r : NotWoken ⊎ Bytes)
      → stage_wake b t id wake ≡ ok (u, r)
      → SameUser b t.txn u.txn
  unfolding stage_wake
  stage_wake-SameUser t u id wake r h =
      let (found, p, q) = bind-ok (get_indexed_job b t.txn id) (wake_found b t wake) (u, r) h in
      wake_found-SameUser t u id wake found r p q

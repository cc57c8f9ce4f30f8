-- ===== src/Effects/Elsewhere/NewJobs.antt =====
-- The writes of new jobs reach no user key.
use taquba.Base.{
  ◌≡◌, ◌&&◌, ◌⊎◌, inl, inr, refl, sym, ap, ◌∙◌, false, List, [], ◌∷◌, Option, none, some, arith,
  Bool-cases, Option-cases,
}
use taquba.Bytes.{Bytes, bytes_eq}
use taquba.Keys.{KeyTag, of, job_index_key, dedup_index_key}
use taquba.Job.{JobRecord}
use taquba.Error.{ok, bind-ok}
use taquba.Backend.{Backend}
use taquba.Txn.{Txn, insert_job}
use taquba.Count.{CountCodec, stage_count_wait}
use taquba.Effects.{PreparedJob, is_some}
use taquba.Effects.Staged.{
  EnqueueResult, dedup_hit, stage_job_writes, stage_jobs, insert_waiting, insert_on, write_unheld,
  hold_dedup,
}
use taquba.Effects.Elsewhere.{
  tag_differs, SameUser, put-SameUser, SameUser-refl, SameUser-trans, insert_job-SameUser, returned,
}
use taquba.Effects.Elsewhere.Counts.{stage_count_wait-SameUser}

module _ (b : Backend) (counts : CountCodec) where
  open b use {State, get, put, delete, codec}

  dedup_differs :
      (queue key x : Bytes)
      → of x ≡ some KeyTag.user
      → bytes_eq (dedup_index_key queue key) x ≡ false
  unfolding of dedup_index_key
  dedup_differs queue key x hx =
      tag_differs (dedup_index_key queue key) x (λ e. ground (arith, e, hx))

  insert_waiting-SameUser :
      (t u : Txn b) (job : JobRecord)
      → insert_waiting b counts t job ≡ ok u
      → SameUser b t.txn u.txn
  unfolding insert_waiting
  insert_waiting-SameUser t u job h = elim (Option-cases job.count_wait) [
    | inl e ↦ insert_job-SameUser b t u job (sym (ap (insert_on b counts t job) e) ∙ h)
    | inr (name, e) ↦
        let ((v, waiting), p, q) =
          bind-ok (stage_count_wait b counts t job) (λ x. insert_job b x.0 x.1) u
            (sym (ap (insert_on b counts t job) e) ∙ h) in
        SameUser-trans b t.txn v.txn u.txn (stage_count_wait-SameUser b counts t v job waiting p)
          (insert_job-SameUser b v u waiting q)
  ]

  hold_dedup-SameUser : (t : Txn b) (job : JobRecord) → SameUser b t.txn (hold_dedup b t job).txn
  hold_dedup-SameUser t job = of_key job.dedup_key
    where
      of_key :
          (m : Option Bytes)
          → SameUser b t.txn
              (elim m [ none ↦ t.txn | some k ↦ put t.txn (dedup_index_key job.queue k) job.id ])
      of_key none = SameUser-refl b t.txn
      of_key (some k) =
          put-SameUser b t.txn t.txn (dedup_index_key job.queue k) job.id (SameUser-refl b t.txn)
            (dedup_differs job.queue k)

  write_unheld-SameUser :
      (t u : Txn b) (p : PreparedJob) (held : Option Bytes) (r : Bytes ⊎ Bytes)
      → write_unheld b counts t p held ≡ ok (u, r)
      → SameUser b t.txn u.txn
  write_unheld-SameUser t u p (some existing) r h =
      returned b (Bytes ⊎ Bytes) (ok (t, inl existing)) t.txn t u (inl existing) r refl h
        (SameUser-refl b t.txn)
  write_unheld-SameUser t u p none r h =
      elim (Bool-cases (p.id_override_used && is_some (get t.txn (job_index_key p.job.id)))) [
        | inl e ↦ absurd (ground (arith, e, h))
        | inr e ↦
            let (v, q, w) =
              bind-ok (insert_waiting b counts t p.job)
                (λ v. ok (hold_dedup b v p.job, inr p.job.id)) (u, r) (sym (rw e) ∙ h) in
            returned b (Bytes ⊎ Bytes) _ t.txn (hold_dedup b v p.job) u (inr p.job.id) r refl w (
              SameUser-trans b t.txn v.txn (hold_dedup b v p.job).txn
                (insert_waiting-SameUser t v p.job q) (hold_dedup-SameUser v p.job))
      ]

  stage_job_writes-SameUser :
      (t u : Txn b) (p : PreparedJob) (r : Bytes ⊎ Bytes)
      → stage_job_writes b counts t p ≡ ok (u, r)
      → SameUser b t.txn u.txn
  unfolding stage_job_writes
  stage_job_writes-SameUser t u p r h =
      let (held, q, w) = bind-ok (dedup_hit b t.txn p.job) (write_unheld b counts t p) (u, r) h in
      write_unheld-SameUser t u p held r w

  pub stage_jobs-SameUser :
      (t u : Txn b) (jobs : List PreparedJob) (results : List EnqueueResult)
      → stage_jobs b counts t jobs ≡ ok (u, results)
      → SameUser b t.txn u.txn
  unfolding stage_jobs
  stage_jobs-SameUser t u [] results h =
      returned b (List EnqueueResult) (ok (t, [])) t.txn t u [] results refl h
        (SameUser-refl b t.txn)
  stage_jobs-SameUser t u (p ∷ jobs) results h =
      let ((v, r), q, w) = bind-ok (stage_job_writes b counts t p) _ (u, results) h in
      let ((x, rest), q', w') = bind-ok (stage_jobs b counts v jobs) _ (u, results) w in
      returned b (List EnqueueResult) _ t.txn x u _ results refl w' (
        SameUser-trans b t.txn v.txn x.txn (stage_job_writes-SameUser t v p r q)
          (stage_jobs-SameUser v x jobs rest q'))

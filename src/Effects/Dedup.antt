-- ===== src/Effects/Dedup.antt =====
-- The dedup key of a job that is written.
use taquba.Base.{
  ◌≡◌, inl, inr, sym, subst, ap, ◌∙◌, true, Option, none, some, arith, Bool-cases, ◌&&◌,
}
use taquba.Bytes.{Bytes}
use taquba.Bytes.Utf8.{is_utf8}
use taquba.Bytes.Order.{bytes_eq_refl}
use taquba.Keys.{job_index_key, dedup_index_key}
use taquba.Job.{JobRecord}
use taquba.Error.{ok, ◌>>=◌, bind-ok, ok-injective}
use taquba.Backend.{Backend}
use taquba.Txn.{Txn}
use taquba.Count.{CountCodec}
use taquba.Effects.{PreparedJob, is_some}
use taquba.Effects.Staged.{dedup_hit, hold_dedup, insert_waiting, write_unheld, stage_job_writes}

module _ (b : Backend) (counts : CountCodec) where
  open b use {State, get, put, delete}

  dedup_hit-held :
      (s : State) (job : JobRecord) (k holder : Bytes)
      → job.dedup_key ≡ some k
      → get s (dedup_index_key job.queue k) ≡ some holder
      → is_utf8 holder ≡ true
      → dedup_hit b s job ≡ ok (some holder)
  unfolding dedup_hit
  dedup_hit-held s job k holder e f g = ground (arith, e, f, g)

  get-hold_dedup :
      (t : Txn b) (job : JobRecord) (k : Bytes)
      → job.dedup_key ≡ some k
      → get (hold_dedup b t job).txn (dedup_index_key job.queue k) ≡ some job.id
  get-hold_dedup t job k e = ground (
    arith,
    e,
    b.get-put t.txn (dedup_index_key job.queue k) job.id (dedup_index_key job.queue k),
    bytes_eq_refl (dedup_index_key job.queue k),
  )

  write_unheld-holds :
      (t u : Txn b) (p : PreparedJob) (held : Option Bytes) (id k : Bytes)
      → write_unheld b counts t p held ≡ ok (u, inr id)
      → p.job.dedup_key ≡ some k
      → get u.txn (dedup_index_key p.job.queue k) ≡ some p.job.id
  write_unheld-holds t u p (some existing) id k h e = absurd (cc)
  write_unheld-holds t u p none id k h e =
      elim (Bool-cases (p.id_override_used && is_some (get t.txn (job_index_key p.job.id)))) [
        | inl f ↦ absurd (ground (arith, f, h))
        | inr f ↦
            let (v, q, w) =
              bind-ok (insert_waiting b counts t p.job)
                (λ v. ok (hold_dedup b v p.job, inr p.job.id)) (u, inr id) (sym (rw f) ∙ h) in
            subst (λ s. get s (dedup_index_key p.job.queue k) ≡ some p.job.id)
              (ap (λ x. x.0.txn) (ok-injective _ (u, inr id) w)) (get-hold_dedup v p.job k e)
      ]

  -- Once a new job with a dedup key is written, another with the same queue and dedup key writes
  -- nothing and returns the id of the first, which is text.
  pub stage_job_writes-dedup :
      (t u : Txn b) (p q : PreparedJob) (id k : Bytes)
      → stage_job_writes b counts t p ≡ ok (u, inr id)
      → p.job.dedup_key ≡ some k
      → q.job.dedup_key ≡ some k
      → q.job.queue ≡ p.job.queue
      → is_utf8 p.job.id ≡ true
      → stage_job_writes b counts u q ≡ ok (u, inl p.job.id)
  unfolding stage_job_writes
  stage_job_writes-dedup t u p q id k h e f same text =
      let (held, g, w) =
        bind-ok (dedup_hit b t.txn p.job) (write_unheld b counts t p) (u, inr id) h in
      ap (λ x. x >>= write_unheld b counts u q)
        (dedup_hit-held u.txn q.job k p.job.id f
          (subst (λ queue. get u.txn (dedup_index_key queue k) ≡ some p.job.id) (sym same)
            (write_unheld-holds t u p held id k w e))
          text)

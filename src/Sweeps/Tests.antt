-- ===== src/Sweeps/Tests.antt =====
-- The sweeps on a store with one job.
use taquba.Base.{◌≡◌, some}
use taquba.Job.{stored_clone}
use taquba.History.{lease_expired}
use taquba.Error.{ok}
use taquba.LeaseRegistry.{DueLease}
use taquba.Txn.{Txn}
use taquba.Txn.Moved.{Kept}
use taquba.QueueCore.Read.{pending_of}
use taquba.Sweeps.{reap_job, promote_job, unsettled_claim_end, lease_expired_error}
use taquba.Sweeps.SweepsCorrect.{unsettled, reap_job_lem, promote_job_lem}
use taquba.Example.Jobs.{
  waiting_key, waiting_job, waiting, fits, waiting_stored_key, running_key, running_job, running,
  running_stored_key, leases, running_lease,
}
use taquba.Example.Store.{example_store, holding-Stored, holding-IsConsistent}

abbrev lease : DueLease
lease = record { queue = running_job.queue; id = running_job.id; expires_at = 100; claim_id = 7 }

reap_job_lem_example :
    (u : Txn example_store) × (reap_job example_store running leases lease 120
      ≡ ok (
        leases,
        some (
          u,
          unsettled (stored_clone running_job) lease_expired_error 120,
          unsettled_claim_end (stored_clone running_job) lease_expired lease_expired_error,
        ),
      ))
    × Kept example_store u.txn (unsettled (stored_clone running_job) lease_expired_error 120)
reap_job_lem_example =
    reap_job_lem example_store running leases running_job 100 100 7 120
      (holding-IsConsistent running_job running_key running_stored_key fits)
      (holding-Stored running_job running_key running_stored_key fits) running_lease

promote_job_lem_example :
    (u : Txn example_store) × (promote_job example_store waiting waiting_key
      ≡ ok (some (u, pending_of (stored_clone waiting_job))))
    × Kept example_store u.txn (pending_of (stored_clone waiting_job))
promote_job_lem_example =
    promote_job_lem example_store waiting waiting_key waiting_job
      (holding-IsConsistent waiting_job waiting_key waiting_stored_key fits)
      (holding-Stored waiting_job waiting_key waiting_stored_key fits)

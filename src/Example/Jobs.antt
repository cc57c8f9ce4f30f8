-- ===== src/Example/Jobs.antt =====
-- Stores with one job: one that waits for a signal, and one with a live claim.
use taquba.Base.{◌≡◌, ◌<◌, refl, true, some, arith, length}
use taquba.Bytes.{Bytes, bytes_eq}
use taquba.Status.{JobStatus}
use taquba.Keys.{claimed_key, scheduled_key}
use taquba.Job.{JobRecord, stored_key, new_pending}
use taquba.LeaseRegistry.{Registry, current, new}
use taquba.LeaseRegistry
use taquba.Map.{pair_beq}
use taquba.Map
use taquba.Txn.{Txn}
use taquba.Example.Store.{example_store, example_job, holding}

abbrev pub waiting_key : Bytes
waiting_key = scheduled_key example_job.queue 90 example_job.id

abbrev pub waiting_job : JobRecord
waiting_job = record example_job {
  status = JobStatus.scheduled;
  run_at = some 90;
  signal_wait = true;
}

abbrev pub waiting : Txn example_store
waiting = holding waiting_job waiting_key

pub fits : length example_job.queue < 256
unfolding new_pending
fits = ground arith

pub waiting_stored_key : stored_key waiting_job ≡ some waiting_key
unfolding stored_key
waiting_stored_key = refl

abbrev pub running_key : Bytes
running_key = claimed_key example_job.queue example_job.id

abbrev pub running_job : JobRecord
running_job = record example_job { status = JobStatus.claimed; attempts = 1; claimed_at = some 60 }

abbrev pub running : Txn example_store
running = holding running_job running_key

pub running_stored_key : stored_key running_job ≡ some running_key
unfolding stored_key
running_stored_key = refl

abbrev pub leases : Registry
leases = LeaseRegistry.insert new example_job.queue example_job.id 100 7 0

pub running_lease : current leases running_job.queue running_job.id ≡ some (100, 7)
unfolding current LeaseRegistry.insert Map.get Map.insert pair_beq bytes_eq new_pending
running_lease = refl

-- ===== src/Txn/Tests.antt =====
-- The writes of a transaction on a store with one job.
use taquba.Base.{◌≡◌, ◌<◌, refl, some, arith, length}
use taquba.Bytes.{Bytes}
use taquba.Status.{JobStatus}
use taquba.Keys.{pending_key, dead_key}
use taquba.Job.{JobRecord, stored_key, stored_clone, stored_bytes, decode, new_pending}
use taquba.Job.Storage.{decode-stored}
use taquba.Error.{ok}
use taquba.Txn.{Txn, move_job, end_waits}
use taquba.Txn.Keyed.{stored_key-injective}
use taquba.Txn.Moved.{Kept, move_job-Kept}
use taquba.Example.Serialized.{example_codec}
use taquba.Example.Store.{example_store, example_job, holding, holding-Stored, holding-IsConsistent}

abbrev from_key : Bytes
from_key = pending_key example_job.queue example_job.priority example_job.enqueued_at example_job.id

fits : length example_job.queue < 256
unfolding new_pending
fits = ground arith

has_key : stored_key example_job ≡ some from_key
unfolding stored_key new_pending
has_key = refl

decode-stored_example :
    decode example_codec from_key (stored_bytes example_codec example_job)
    ≡ some (stored_clone example_job)
decode-stored_example = decode-stored example_codec example_job from_key has_key

stored_key-injective_example :
    (example_job.queue ≡ example_job.queue) × (example_job.id ≡ example_job.id)
unfolding stored_key new_pending
stored_key-injective_example =
    stored_key-injective example_job (record example_job { attempts = 2 }) from_key fits fits
      has_key other
  where
    other : stored_key (record example_job { attempts = 2 }) ≡ some from_key
    other = refl

abbrev moved : JobRecord
moved = record example_job { status = JobStatus.dead; failed_at = some 70 }

move_job-Kept_example :
    (u : Txn example_store) × (move_job example_store (holding example_job from_key) from_key moved
      ≡ ok (u, end_waits moved))
    × Kept example_store u.txn (end_waits moved)
unfolding stored_key end_waits
move_job-Kept_example =
    move_job-Kept example_store (holding example_job from_key).txn (holding example_job from_key)
      from_key moved (dead_key moved.queue moved.id) example_job
      (holding-IsConsistent example_job from_key has_key fits)
      (holding-Stored example_job from_key has_key fits) refl fits (λ x _ _. refl) dead_at
  where
    dead_at : stored_key (end_waits moved) ≡ some (dead_key moved.queue moved.id)
    dead_at = refl

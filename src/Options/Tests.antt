-- ===== src/Options/Tests.antt =====
-- The delays, and the end of a failed delivery, at concrete inputs.
use taquba.Base.{◌≡◌, ◌⊎◌, ◌*◌, ◌-◌, ◌^◌, min, refl, true, false, some, [], ◌∷◌, arith}
use taquba.Map.{bytes_Eq}
use taquba.Map
use taquba.Status.{dead}
use taquba.Job.{JobRecord, is_last_attempt}
use taquba.Error.{ok}
use taquba.Txn.{Txn}
use taquba.Txn.ClaimEnd.{ClaimEnd}
use taquba.Txn.Moved.{Kept}
use taquba.QueueCore.Settle.{settle_claim}
use taquba.Options.{QueueConfigs, config_of, default_queue_config, backoff_delay, nack_end, seconds}
use taquba.Options.Backoff.{backoff_delay_lem}
use taquba.Options.NackCorrect.{nack_lem, delay_of, Retries}
use taquba.Example.Store.{example_store, holding-Stored, holding-IsConsistent}
use taquba.Example.Jobs.{
  running, running_job, running_key, running_stored_key, running_lease, leases, fits,
}

third_delay : backoff_delay 3 (seconds 1) (seconds 300) ≡ seconds 4
unfolding backoff_delay
third_delay = refl

capped_delay : backoff_delay 50 (seconds 1) (seconds 300) ≡ seconds 300
unfolding backoff_delay
capped_delay = refl

backoff_delay_lem_example :
    backoff_delay 3 (seconds 1) (seconds 300) ≡ min (seconds 1 * 2 ^ (3 - 1)) (seconds 300)
backoff_delay_lem_example =
    backoff_delay_lem 3 (seconds 1) (seconds 300) (ground arith) (ground arith)

abbrev configs : QueueConfigs
configs = record { default = default_queue_config; per_queue = [] }

nack_lem_example :
    (u : Txn example_store) × (written : JobRecord) × (end : ClaimEnd) × (settle_claim example_store
        running leases running_job.queue running_job.id 7
        (nack_end configs (b'e' ∷ []))
        80
      ≡ ok (u, written, end))
    × Kept example_store u.txn written
    × (written.last_error ≡ some (b'e' ∷ []))
    × (((is_last_attempt running_job ≡ true) × (written.status ≡ dead))
        ⊎ ((is_last_attempt running_job ≡ false)
            × Retries written 80 (delay_of configs running_job)))
unfolding config_of Map.get
nack_lem_example =
    nack_lem example_store running leases 7 100 running_job configs (b'e' ∷ []) 80
      (holding-IsConsistent running_job running_key running_stored_key fits)
      (holding-Stored running_job running_key running_stored_key fits) running_lease (ground arith)
      (ground arith) (ground arith)

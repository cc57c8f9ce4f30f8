-- ===== src/QueueCore/Tests.antt =====
-- The transitions on a store with one job.
use taquba.Base.{ℕ, ◌≡◌, ◌≢◌, ◌⊎◌, inl, inr, refl, true, false, [], some, arith}
use taquba.Bytes.{Bytes}
use taquba.Status.{JobStatus}
use taquba.Keys.{pending_key, dead_key}
use taquba.Job.{JobRecord, stored_key, stored_clone, new_pending}
use taquba.Error.{ok, err, claim_lost, invalid_state}
use taquba.LeaseRegistry.{Registry, current, new}
use taquba.Map.{pair_beq}
use taquba.Map
use taquba.Txn.{Txn, begin, insert_job, get_indexed_job}
use taquba.Txn.ClaimEnd.{ClaimEnd}
use taquba.Txn.Consistent.{IsConsistent}
use taquba.Txn.Moved.{Kept}
use taquba.Txn.Inserted.{insert_job-IsConsistent}
use taquba.QueueCore.Read.{pending_of}
use taquba.QueueCore.Control.{signal, stage_wake, unscheduled, no_wait}
use taquba.QueueCore.ControlCorrect.{awaits, with_payload, stage_wake_lem}
use taquba.QueueCore.CancelCorrect.{Cancelled, stage_cancel_lem}
use taquba.QueueCore.Settle.{settle_claim, requeue_dead_job}
use taquba.QueueCore.SettleCorrect.{ended, Left, settle_claim_lem, settle_claim-fenced}
use taquba.QueueCore.Signal.{SignalOutcome, stage_signal, stage_signal-once}
use taquba.QueueCore.Claim.{ClaimOutcome, not_claimable, claim_by_id}
use taquba.QueueCore.ClaimCorrect.{written_claim, claim_by_id_lem, claim-settle}
use taquba.QueueCore.ReviveCorrect.{after_revival, requeue_dead_job_lem}
use taquba.Example.Jobs.{
  waiting_key, waiting_job, waiting, fits, waiting_stored_key, running_key, running_job, running,
  running_stored_key, leases, running_lease,
}
use taquba.Example.Store.{
  example_store, example_job, empty-IsConsistent, holding, holding-Stored, holding-IsConsistent,
}

stage_wake_lem_example :
    ((waiting_job.status ≢ JobStatus.scheduled)
      × (stage_wake example_store waiting waiting_job.id (signal [])
          ≡ ok (waiting, inl unscheduled)))
    ⊎ ((waiting_job.status ≡ JobStatus.scheduled)
        × (awaits (signal []) waiting_job ≡ false)
        × (stage_wake example_store waiting waiting_job.id (signal []) ≡ ok (waiting, inl no_wait)))
    ⊎ ((waiting_job.status ≡ JobStatus.scheduled)
        × (awaits (signal []) waiting_job ≡ true)
        × (u : Txn example_store) × (stage_wake example_store waiting waiting_job.id (signal [])
            ≡ ok (u, inr waiting_job.queue))
        × Kept example_store u.txn
            (pending_of (with_payload (signal []) (stored_clone waiting_job))))
stage_wake_lem_example =
    stage_wake_lem example_store waiting waiting_key waiting_job (signal [])
      (holding-IsConsistent waiting_job waiting_key waiting_stored_key fits)
      (holding-Stored waiting_job waiting_key waiting_stored_key fits)

stage_cancel_lem_example : Cancelled example_store waiting waiting_job
stage_cancel_lem_example =
    stage_cancel_lem example_store waiting waiting_key waiting_job
      (holding-IsConsistent waiting_job waiting_key waiting_stored_key fits)
      (holding-Stored waiting_job waiting_key waiting_stored_key fits)

abbrev to_end : JobRecord → ℕ → ClaimEnd
to_end job now = ClaimEnd.done true

settle_claim_lem_example :
    (u : Txn example_store) × (settle_claim example_store running leases running_job.queue
        running_job.id 7 to_end 80
      ≡ ok (u, ended (ClaimEnd.done true) 80 (stored_clone running_job), ClaimEnd.done true))
    × Left example_store
        (ClaimEnd.done true)
        u.txn
        (ended (ClaimEnd.done true) 80 (stored_clone running_job))
settle_claim_lem_example =
    settle_claim_lem example_store running leases 7 100 running_job to_end 80
      (holding-IsConsistent running_job running_key running_stored_key fits)
      (holding-Stored running_job running_key running_stored_key fits) running_lease

settle_claim-fenced_example :
    settle_claim example_store running new running_job.queue running_job.id 7 to_end 80
    ≡ err claim_lost
unfolding current Map.get
settle_claim-fenced_example =
    settle_claim-fenced example_store running new running_job.queue running_job.id 7 to_end 80
      (inl no_lease)
  where
    no_lease : (e : ℕ) → current new running_job.queue running_job.id ≢ some (e, 7)
    no_lease e p = ground arith

abbrev buried_key : Bytes
buried_key = dead_key example_job.queue example_job.id

abbrev buried_job : JobRecord
buried_job = record example_job { status = JobStatus.dead; attempts = 3; failed_at = some 70 }

abbrev buried : Txn example_store
buried = holding buried_job buried_key

buried_stored_key : stored_key buried_job ≡ some buried_key
unfolding stored_key
buried_stored_key = refl

requeue_dead_job_lem_example :
    ((buried_job.status ≢ JobStatus.dead)
      × (requeue_dead_job example_store buried buried_job.id 80 ≡ err invalid_state))
    ⊎ ((buried_job.status ≡ JobStatus.dead)
        × (u : Txn example_store) × (requeue_dead_job example_store buried buried_job.id 80
            ≡ ok (u, after_revival (stored_clone buried_job)))
        × Kept example_store u.txn (after_revival (stored_clone buried_job)))
requeue_dead_job_lem_example =
    requeue_dead_job_lem example_store buried buried_key buried_job 80
      (holding-IsConsistent buried_job buried_key buried_stored_key fits)
      (holding-Stored buried_job buried_key buried_stored_key fits)

abbrev new_key : Bytes
new_key = pending_key example_job.queue example_job.priority example_job.enqueued_at example_job.id

insert_job-IsConsistent_example :
    (u : Txn example_store) × (insert_job example_store (begin example_store []) example_job ≡ ok u)
    × IsConsistent example_store u.txn
    × (get_indexed_job example_store u.txn example_job.id
        ≡ ok (some (new_key, stored_clone example_job)))
unfolding Map.get stored_key new_pending
insert_job-IsConsistent_example =
    insert_job-IsConsistent example_store (begin example_store []) example_job new_key
      empty-IsConsistent refl fits refl

claim_by_id_lem_example :
    (((waiting_job.status ≢ JobStatus.pending) × (waiting_job.status ≢ JobStatus.scheduled))
      × (claim_by_id example_store waiting new waiting_job.id 60 40 7 0
          ≡ ok (waiting, new, not_claimable)))
    ⊎ (((waiting_job.status ≡ JobStatus.pending) ⊎ (waiting_job.status ≡ JobStatus.scheduled))
        × (u : Txn example_store) × (leases : Registry) × (claim_by_id example_store waiting new
              waiting_job.id 60 40 7 0
            ≡ ok (
              u,
              leases,
              ClaimOutcome.claimed (record {
                job = written_claim (stored_clone waiting_job) 60;
                claim_id = 7;
                cancel_token = 0;
                is_fired = waiting_job.cancel_requested;
              }),
            ))
        × Kept example_store u.txn (written_claim (stored_clone waiting_job) 60)
        × (current leases waiting_job.queue waiting_job.id ≡ some (100, 7)))
claim_by_id_lem_example =
    claim_by_id_lem example_store waiting new waiting_key waiting_job 60 40 7 0
      (holding-IsConsistent waiting_job waiting_key waiting_stored_key fits)
      (holding-Stored waiting_job waiting_key waiting_stored_key fits)

abbrev claimed_then : JobRecord
claimed_then = stored_clone (written_claim (stored_clone waiting_job) 60)

claim-settle_example :
    (u : Txn example_store) × (leases : Registry) × (v : Txn example_store) × (claim_by_id
        example_store waiting new waiting_job.id 60 40 7 0
      ≡ ok (
        u,
        leases,
        ClaimOutcome.claimed (record {
          job = written_claim (stored_clone waiting_job) 60;
          claim_id = 7;
          cancel_token = 0;
          is_fired = waiting_job.cancel_requested;
        }),
      ))
    × (settle_claim example_store
          (begin example_store u.txn)
          leases
          waiting_job.queue
          waiting_job.id
          7
          to_end
          80
        ≡ ok (v, ended (ClaimEnd.done true) 80 claimed_then, ClaimEnd.done true))
    × Left example_store (ClaimEnd.done true) v.txn (ended (ClaimEnd.done true) 80 claimed_then)
claim-settle_example =
    claim-settle example_store waiting new waiting_key waiting_job 60 40 7 0 to_end 80
      (holding-IsConsistent waiting_job waiting_key waiting_stored_key fits)
      (holding-Stored waiting_job waiting_key waiting_stored_key fits) (inr refl)

stage_signal-once_example :
    (u : Txn example_store) × (stage_signal example_store waiting waiting_job.id []
      ≡ ok (u, SignalOutcome.delivered))
    × Kept example_store u.txn (pending_of (with_payload (signal []) (stored_clone waiting_job)))
    × (stage_signal example_store (begin example_store u.txn) waiting_job.id []
        ≡ ok (begin example_store u.txn, SignalOutcome.not_waiting))
stage_signal-once_example =
    stage_signal-once example_store waiting waiting_key waiting_job [] []
      (holding-IsConsistent waiting_job waiting_key waiting_stored_key fits)
      (holding-Stored waiting_job waiting_key waiting_stored_key fits) refl refl

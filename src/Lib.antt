-- ===== src/Lib.antt =====
-- A model of the job queue of Taquba, a queue in the process of its user over an object store
-- (taquba/src), and the theorems that make its parts correct.
--
-- A job is a record stored at one key of an ordered store. The key says the state of the job, and an
-- index entry says the key. Transitions are transactions that move the record to the key of its next
-- state, and collect the notes and counter changes of their commit. What a process keeps in memory is
-- a cache over the store: the claim cursor, which says where in the pending keys of a queue a claim
-- scans from, and the lease registry, which says which claim of a job is live and until when. The cron
-- scheduler (taquba-cron/src) is a client of the queue.
--
-- Which file models which part:
-- - Bytes, Map, Int, Decimal: byte strings in the order of the store and as UTF-8, `HashMap` as an
--   association list, `i64` and its decimal text.
-- - Keys (taquba/src/keys.rs): `KeyTag` and one function for each key, of the source's name.
-- - Status, Job (job.rs): `JobRecord`, `stored_key`, `stored_bytes`, `decode`.
-- - Error (error.rs): the errors, and results. A result may be a panic. Form is the form of a name with
--   its check, QueueName the name of a queue and the id of a job that the caller chooses.
-- - History (history.rs, stats.rs): the attempts of a job, and the merge of their key space.
-- - ClaimCursor (claim_cursor.rs): State has the operations on the state of one queue, with the
--   source's names, and the parent lifts them to the map of the queues. Steps is the step relation of
--   the store, the cursor and the claim of queue_core/claim.rs (`claim_batch_locked`) for one queue,
--   where any other transaction may run between two steps of a claim.
-- - LeaseRegistry (lease_registry.rs): the two maps of the registry and its methods. ExpirySet is the
--   `BTreeSet` of expiries, as an ascending list.
-- - Backend: what the transactions use of SlateDB and of the serialization, with documented laws.
-- - Txn (txn.rs): the writes of a transaction, `get_indexed_job`, `take_claim`. ClaimEnd is the end of
--   a claim.
-- - Kv (kv.rs): the operations on user keys. Replay writes a list of them, and Refines has the map.
-- - Options (options.rs, queue.rs): `QueueConfig`, `EnqueueOptions`, `backoff_delay`, and the end of a
--   claim that `ack_with`, `nack_with` and `dead_letter_with` choose.
-- - Effects (effects.rs, queue_core/enqueue.rs): the effects of a settlement and the record of a new
--   job. Prepared is `prepare_effects`, Staged is `stage_effects` and the deduplication, StageJob the
--   insert of a job with its waits. Staged has `settle_claim` with its effects too.
-- - Expiry (expiry.rs): the keys of the entries of an expiry index.
-- - QueueCore (queue_core/): Settle is `settle_claim` without effects and `requeue_dead_job`, Control is
--   the wake and the cancel, Claim is the writes of a claim and `claim_by_id`, Signal is `stage_signal`.
-- - TimeBound (time_bound.rs): the lower bound on the times of a key space, and in Steps its scans and
--   the writers of its keys in any interleaving, with the read of scheduler.rs.
-- - Count (count.rs): `stage_count_change` and `stage_count_wait`.
-- - Sweeps (reaper.rs, scheduler.rs): `reap_job`, the requeue of an interrupted claim, `promote_job`.
-- - Cron (taquba-cron/src/lib.rs): `initial_anchor`, `fire` and `tick_entry` for one schedule. Registry
--   is the registry of the schedules, Active the `sync` and `step` over all of them. Backfilled is the
--   run of a schedule over ticks and restarts. OverQueue fills the queue that the scheduler takes with
--   the one of Kv and Effects, where the storage may fail a call before or after its commit.
-- - Example: a store and a serialization with the laws of Backend, for the witnesses. Counts and Crons
--   have the counts and a clock with a cron expression.
--
-- A store is consistent (Txn.Consistent) when every index entry names the key of the record of its
-- job, and every record stands at the key of its own state and is named by its index entry.
--
-- Bounds: numbers of the source are natural numbers. The keys hold 32 and 64 bits of them, written
-- out as a remainder, so the order of keys has those bounds as hypotheses. A queue name has at most
-- 255 bytes, the range of the length byte in a key. The counter of the inserts wraps at 2^64, and the
-- step relation lets a note happen below that. Only the decimal digits of an `i64` use fuel, 19, which
-- is enough below 2^63. Every other loop is over a list.
--
-- Not modelled: input and output (the object store with the payloads it holds, tasks, clocks, metrics,
-- logs), the retry loop and the commit of SlateDB, whose conflicts are documented behaviour of the
-- library, the pass over an expiry index, the run loop of the cron scheduler, and the crates
-- taquba-workflow, taquba-webhooks and taquba-bencher. A storage error ends a call and commits nothing.
pub mod Base
pub mod Bytes
pub mod Map
pub mod Int
pub mod Form
pub mod Error
pub mod QueueName
pub mod Status
pub mod Keys
pub mod Job
pub mod History
pub mod Backend
pub mod Expiry
pub mod LeaseRegistry
pub mod ClaimCursor
pub mod TimeBound
pub mod Txn
pub mod QueueCore
pub mod Count
pub mod Sweeps
pub mod Kv
pub mod Options
pub mod Effects
pub mod Decimal
pub mod Cron
pub mod Example

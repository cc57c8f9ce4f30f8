-- ===== src/Cron/Tests.antt =====
-- A schedule that fires each minute, over two ticks with a restart between them.
use taquba.Base.{
  ℕ, Bool, arith, false, ◌≡◌, ◌<◌, ◌≤◌, refl, true, [], ◌∷◌, ◌++◌, List, Option, none, some,
}
use taquba.Bytes.{bytes_eq}
use taquba.Bytes.Utf8.{is_utf8, is_rest}
use taquba.Map.{Map, bytes_Eq}
use taquba.Map
use taquba.Decimal.{digits, to_string, parse_i64, digits_value}
use taquba.Cron.{
  Schedule, Backfill, BackfillStart, watermark_key, parse_watermark, lookback_floor, tick_entry,
  fire_due, fire, initial_anchor, backfill_anchor, raise, next_time_after,
}
use taquba.Keys.{user_scoped_key}
use taquba.Form.{as_bytes, check, first_outside, may_start, is_ascii_alphanumeric}
use taquba.Keys.{dedup_index_key, pending_key, job_index_key}
use taquba.Job.{stored_key, new_pending}
use taquba.QueueName
use taquba.QueueName.{queue_name_form}
use taquba.Kv.{validate_kv_value_size, max_kv_value_size}
use taquba.Options.{config_of}
use taquba.Txn.{insert_job, put_job}
use taquba.Effects.{
  prepare_job_record, prepare_effects, prepare_jobs, job_id, check_waits, future_run_at, new_job,
  check_sizes, conflicting,
}
use taquba.Effects.Staged.{
  write_job_txn, stage_job_writes, dedup_hit, insert_waiting, stage_effects, check_fence,
  check_compares, stage_counts, stage_jobs, put_all, delete_all, note_all,
}
use taquba.Cron.{fire_options, fire_headers, previous_time_before}
use taquba.Cron.OverQueue.{QueueState, job_attempt}
use taquba.Cron.Backfilled.{watermark, due_fired, tick_fired, IsCovered, Run, stop, tick, restart}
use taquba.Cron.Complete.{Chain, last, is_fired, Run-complete}
use taquba.Cron.Registry.{RegistryState}
use taquba.Cron.Names.{RegistryOp, run, run-NamesUnique}
use taquba.Cron.Names.Entries.{NamesUnique}
use taquba.Cron.Active.{Scheduler, sync, position, times_active, position-sync, has_ptr}
use taquba.Example.Store.{example_store}
use taquba.Example.Crons.{
  example_time, example_millis, example_from_millis, example_faults, example_cron, example_queue,
  each_minute,
}

abbrev backfill : Backfill
backfill = record { lookback = 900000000000; start = BackfillStart.current_time }

abbrev entry : Schedule example_time example_cron
entry = record {
  name = b'n' ∷ [];
  expression = tt;
  queue = b'q' ∷ [];
  payload = [];
  headers = [];
  priority = none;
  max_attempts = none;
  backfill = some backfill;
}

abbrev stored : QueueState example_store
stored = record {
  store =
      (
        user_scoped_key (watermark_key (b'n' ∷ [])),
        to_string (example_time.timestamp_millis 60000000000),
      )
      ∷ [];
  calls = 0;
}

watermark-stored :
    watermark example_time example_cron example_queue entry backfill stored ≡ some 60000000000
unfolding user_scoped_key watermark Map.get bytes_eq watermark_key parse_watermark is_utf8 is_rest
    parse_i64 to_string digits digits_value example_millis example_from_millis
watermark-stored = refl

covered :
    (s : QueueState example_store)
    → IsCovered example_time example_cron example_queue entry backfill s 190000000000
unfolding IsCovered lookback_floor
covered s w floor h k = absurd (cc)

abbrev first_state : QueueState example_store
first_state =
    (tick_entry example_time example_cron example_queue stored entry 190000000000 none).state

abbrev fired : List (ℕ × Bool)
fired =
    tick_fired example_time example_cron example_queue entry backfill stored 190000000000 none
    ++ (tick_fired example_time example_cron example_queue entry backfill first_state 190000000000
          none
        ++ [])

fired-minutes : fired ≡ (120000000000, false) ∷ (180000000000, true) ∷ []
unfolding tick_fired due_fired tick_entry fire_due fire initial_anchor backfill_anchor raise
    lookback_floor next_time_after Map.get Map.insert Map.remove bytes_eq watermark_key
    user_scoped_key parse_watermark is_utf8 is_rest parse_i64 to_string digits digits_value
    example_millis example_from_millis example_faults job_attempt prepare_job_record prepare_effects
    prepare_jobs job_id check_waits future_run_at new_job config_of QueueName.new queue_name_form
    check first_outside may_start is_ascii_alphanumeric as_bytes check_sizes validate_kv_value_size
    max_kv_value_size conflicting write_job_txn stage_job_writes dedup_hit dedup_index_key
    insert_waiting insert_job put_job stored_key new_pending pending_key job_index_key stage_effects
    check_fence check_compares stage_counts stage_jobs put_all delete_all note_all fire_options
    fire_headers previous_time_before
fired-minutes = refl

abbrev second_tick : QueueState example_store × Option ℕ
second_tick =
    let t =
      tick_entry example_time example_cron example_queue first_state entry 190000000000 none in
    (t.state, t.next_fire)

two_ticks :
    Run example_time example_cron example_queue entry backfill stored none fired second_tick.0
      second_tick.1
two_ticks = tick stored second_tick.0 none second_tick.1 _ 190000000000 (covered stored) (
    restart first_state second_tick.0 _ second_tick.1 _ (
      tick first_state second_tick.0 none second_tick.1 [] 190000000000 (covered first_state)
        (stop second_tick.0 second_tick.1)))

Run-complete_example :
    Chain example_time example_cron example_queue entry backfill refl 60000000000 true fired
    × (watermark example_time example_cron example_queue entry backfill second_tick.0
        ≡ some (last example_time example_cron example_queue entry backfill refl 60000000000 fired))
    × ((o : ℕ)
        → 60000000000 < o
        → o ≤ last example_time example_cron example_queue entry backfill refl 60000000000 fired
        → each_minute o ≡ true
        → is_fired example_time example_cron example_queue entry backfill refl o fired ≡ true)
Run-complete_example =
    Run-complete example_time example_cron example_queue entry backfill refl stored second_tick.0
      none second_tick.1 fired 60000000000 two_ticks watermark-stored (λ at p. absurd (cc))

abbrev no_schedules : RegistryState example_time example_cron
no_schedules = record { entries = []; version = 0; is_stopped = false; allocated = 0 }

no_schedules-NamesUnique : NamesUnique example_time example_cron []
unfolding NamesUnique
no_schedules-NamesUnique = tt

abbrev renamed : Schedule example_time example_cron
renamed = record entry { name = b'm' ∷ [] }

abbrev registry_ops : List (RegistryOp example_time example_cron)
registry_ops =
    RegistryOp.schedule entry
    ∷ RegistryOp.schedule entry
    ∷ RegistryOp.replace (renamed ∷ entry ∷ [])
    ∷ RegistryOp.remove (b'n' ∷ [])
    ∷ RegistryOp.stop
    ∷ []

run-NamesUnique_example :
    NamesUnique example_time example_cron
      (run example_time example_cron no_schedules registry_ops).entries
run-NamesUnique_example =
    run-NamesUnique example_time example_cron registry_ops no_schedules no_schedules-NamesUnique

-- The registry has the entry of number 3 besides a new one. The scheduler also has one that is gone.
abbrev two_schedules : RegistryState example_time example_cron
two_schedules = record {
  entries = (3, entry) ∷ (4, renamed) ∷ [];
  version = 2;
  is_stopped = false;
  allocated = 5;
}

abbrev scheduler : Scheduler example_time example_cron
scheduler = record {
  active =
      record { entry = (3, entry); next_fire = some 120000000000 }
      ∷ record { entry = (1, renamed); next_fire = some 180000000000 }
      ∷ [];
  synced = 1;
}

position-sync_example :
    (times_active example_time example_cron
        (sync example_time example_cron two_schedules scheduler).active
        3
      ≡ 1)
    × (position example_time example_cron
          (sync example_time example_cron two_schedules scheduler).active
          3
        ≡ some (some 120000000000))
unfolding position has_ptr times_active
position-sync_example =
    position-sync example_time example_cron two_schedules scheduler 3 refl (omega arith)

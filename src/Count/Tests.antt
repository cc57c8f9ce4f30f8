-- ===== src/Count/Tests.antt =====
-- A count of one with a waiting job.
use taquba.Base.{◌≡◌, ◌<◌, refl, true, [], ◌∷◌, some, arith, length}
use taquba.Bytes.{Bytes, bytes_eq}
use taquba.Int.{pos, negsuc}
use taquba.Map.{get-insert_self, bytes_Eq}
use taquba.Status.{scheduled}
use taquba.Keys.{count_key, scheduled_key}
use taquba.Job.{JobRecord, stored_key, stored_clone, new_pending}
use taquba.Error.{ok}
use taquba.Txn.{Txn}
use taquba.Txn.Keyed.{job_space}
use taquba.Txn.Consistent.{Stored, IsConsistent}
use taquba.Txn.Moved.{Kept}
use taquba.Txn.Unrelated.{other_space, Stored-same, IsConsistent-same}
use taquba.QueueCore.Control.{is_count}
use taquba.QueueCore.Read.{pending_of}
use taquba.Count.{CountRecord, read_record, stage_count_change}
use taquba.Count.CountCorrect.{read_record-stored, count_space, stage_count_change-wakes}
use taquba.Example.Counts.{count_codec}
use taquba.Example.Store.{example_store, example_job, holding, holding-Stored, holding-IsConsistent}

abbrev name : Bytes
name = b'c' ∷ []

abbrev job : JobRecord
job = record example_job { status = scheduled; run_at = some 90; count_wait = some name }

abbrev key : Bytes
key = scheduled_key job.queue 90 job.id

abbrev one : CountRecord
one = record { active = pos 1; waiter = some job.id }

abbrev without : Txn example_store
without = holding job key

abbrev counted : Txn example_store
counted = record without {
  txn = example_store.put without.txn (count_key name) (count_codec.encode one);
}

fits : length job.queue < 256
unfolding new_pending
fits = ground arith

has_key : stored_key job ≡ some key
unfolding stored_key
has_key = refl

same :
    (x : Bytes)
    → job_space x ≡ true
    → example_store.get counted.txn x ≡ example_store.get without.txn x
same x hx = ground (
  arith,
  example_store.get-put without.txn (count_key name) (count_codec.encode one) x,
  other_space example_store (count_key name) x (count_space example_store count_codec name) hx,
)

counted-Stored : Stored example_store counted.txn key job
counted-Stored =
    Stored-same example_store without.txn counted.txn same key job
      (holding-Stored job key has_key fits)

counted-IsConsistent : IsConsistent example_store counted.txn
counted-IsConsistent =
    IsConsistent-same example_store without.txn counted.txn same
      (holding-IsConsistent job key has_key fits)

count_stored : example_store.get counted.txn (count_key name) ≡ some (count_codec.encode one)
count_stored = get-insert_self (count_key name) (count_codec.encode one) without.txn

count_read : read_record example_store count_codec counted.txn (count_key name) ≡ ok one
count_read =
    read_record-stored example_store count_codec counted.txn (count_key name) one count_stored

waits : is_count job.count_wait name ≡ true
unfolding bytes_eq
waits = refl

stage_count_change-wakes_example :
    (u : Txn example_store) × (stage_count_change example_store count_codec counted name (negsuc 0)
      ≡ ok u)
    × Kept example_store u.txn (pending_of (stored_clone job))
stage_count_change-wakes_example =
    stage_count_change-wakes example_store count_codec counted name key (negsuc 0) (pos 1) job
      counted-IsConsistent counted-Stored refl waits count_stored refl refl

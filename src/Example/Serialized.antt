-- ===== src/Example/Serialized.antt =====
-- A serialization of the job records that has the documented round trip.
use taquba.Base.{ℕ, ◌≡◌, refl, Bool, true, false, [], Option, none, some, zero, suc}
use taquba.Bytes.{Bytes}
use taquba.Map.{Map}
use taquba.Job.{JobRecord, Codec, initial}
use taquba.Example.Parser.{Format, number, through, both, option, list}

flag : Format Bool
flag = through to of back number
  where
    to : Bool → ℕ
    to false = 0
    to true = 1

    of : ℕ → Option Bool
    of zero = some false
    of (suc _) = some true

    back : (x : Bool) → of (to x) ≡ some x
    back false = refl
    back true = refl

text : Format Bytes
text = list number

abbrev Fields : Type 0
Fields =
    (((Bytes × Bytes) × (Bytes × Option Bytes)) × ((Map Bytes Bytes × ℕ) × (ℕ × ℕ)))
    × ((((Option ℕ × Option ℕ) × (Option Bytes × Bool))
          × ((Option Bytes × ℕ) × (Option Bytes × Option Bytes)))
        × ((Option ℕ × Option ℕ) × Bool))

abbrev fields_of : JobRecord → Fields
fields_of j = (
  (
    ((j.id, j.queue), (j.payload, j.payload_ref)),
    ((j.headers, j.attempts), (j.max_attempts, j.enqueued_at)),
  ),
  (
    (
      ((j.claimed_at, j.run_at), (j.signal, j.signal_wait)),
      ((j.count_wait, j.priority), (j.last_error, j.dedup_key)),
    ),
    ((j.completed_at, j.failed_at), j.cancel_requested),
  ),
)

abbrev of_fields : Fields → JobRecord
of_fields
      (
        (((id, queue), (payload, payload_ref)), ((headers, attempts), (max_attempts, enqueued_at))),
        (
          (
            ((claimed_at, run_at), (signal, signal_wait)),
            ((count_wait, priority), (last_error, dedup_key)),
          ),
          ((completed_at, failed_at), cancel_requested),
        ),
      ) =
    record {
      id = id;
      queue = queue;
      payload = payload;
      payload_ref = payload_ref;
      headers = headers;
      status = initial;
      attempts = attempts;
      max_attempts = max_attempts;
      enqueued_at = enqueued_at;
      claimed_at = claimed_at;
      run_at = run_at;
      signal = signal;
      signal_wait = signal_wait;
      count_wait = count_wait;
      priority = priority;
      last_error = last_error;
      dedup_key = dedup_key;
      completed_at = completed_at;
      failed_at = failed_at;
      cancel_requested = cancel_requested;
    }

fields : Format Fields
fields =
    both
      (both (both (both text text) (both text (option text)))
        (both (both (list (both text text)) number) (both number number)))
      (both
        (both (both (both (option number) (option number)) (both (option text) flag))
          (both (both (option text) number) (both (option text) (option text))))
        (both (both (option number) (option number)) flag))

abbrev decoded : Bytes → Option JobRecord
decoded bytes = elim (fields.read bytes) [ none ↦ none | some (x, _) ↦ some (of_fields x) ]

pub example_codec : Codec
example_codec = record {
  encode = λ job. fields.write (fields_of job) [];
  from_slice = decoded;
  from_slice-encode = λ job. rw (decoded, fields.read-write (fields_of job) []);
}

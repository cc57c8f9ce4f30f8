-- ===== src/Txn/Lookup.antt =====
-- A stored job is looked up by its id, and its key is its only one.
use taquba.Base.{◌≡◌, inl, inr, refl, ap, ◌∙◌, false, none, some, arith, Bool-cases}
use taquba.Bytes.{Bytes, bytes_eq}
use taquba.Bytes.Order.{eq_of_bytes_eq, bytes_eq_refl}
use taquba.Keys.{job_index_key}
use taquba.Job.{JobRecord, stored_clone}
use taquba.Job.Storage.{status_of-stored_key, decode-stored}
use taquba.Error.{ok}
use taquba.Backend.{Backend}
use taquba.Txn.{get_indexed_job}
use taquba.Txn.Keyed.{index-not_record, stored_key-injective}
use taquba.Txn.Consistent.{Stored}
use taquba.Txn.Written.{OldKey}

module _ (b : Backend) where
  open b use {State, get, put, delete, codec}

  -- A stored job is looked up by its id.
  pub get_indexed_job-Stored :
      (s : State) (key : Bytes) (job : JobRecord)
      → Stored b s key job
      → get_indexed_job b s job.id ≡ ok (some (key, stored_clone job))
  unfolding get_indexed_job
  get_indexed_job-Stored s key job h =
      ground (arith, h.at_key, h.at_index, decode-stored codec job key h.keyed)

  -- The key of a stored job is its only one.
  pub OldKey-Stored :
      (s : State) (from : Bytes) (job : JobRecord)
      → Stored b s from job
      → OldKey b s job.id (bytes_eq from)
  OldKey-Stored s from job h = record {
    mine =
        λ k j st e. ground (arith, bytes_eq_refl from, h.at_index, st.at_index, ap job_index_key e);
    only = λ k j st e.
        (stored_key-injective j job k st.queue_fits h.queue_fits st.keyed
          (h.keyed ∙ ap some (eq_of_bytes_eq from k e))).1;
    not_index = λ i. elim (Bool-cases (bytes_eq from (job_index_key i))) [
      | inl e ↦ ground (
        arith,
        index-not_record i from job.status (status_of-stored_key job from h.keyed),
        eq_of_bytes_eq from (job_index_key i) e,
        bytes_eq_refl from,
      )
      | inr e ↦ e
    ];
  }

  -- An id that is not in the index has no key.
  pub OldKey-none :
      (s : State) (id : Bytes) → get s (job_index_key id) ≡ none → OldKey b s id (λ _. false)
  OldKey-none s id h = record {
    mine = λ k j st e. ground (arith, h, st.at_index, ap job_index_key e);
    only = λ k j st e. ground arith;
    not_index = λ i. refl;
  }

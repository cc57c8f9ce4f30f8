-- ===== src/Backend.antt =====
-- What the transactions use of the libraries: a SlateDB transaction, which reads its own writes, and
-- the serialization of `rmp_serde`. Each law is documented behaviour of the library. The merge law is
-- stated for the key space of the attempt history, with the merge operator of the source.
use taquba.Base.{◌≡◌, [], ◌∷◌, Option, none, some, if◌then◌else◌}
use taquba.Bytes.{Bytes, bytes_eq}
use taquba.Keys.{attempt_history_key}
use taquba.Job.{Codec}
use taquba.History.{JobAttempt, merge_append}

pub record Backend : Type 1 where
  pub State : Type 0
  pub get : State → Bytes → Option Bytes
  pub put : State → Bytes → Bytes → State
  pub delete : State → Bytes → State
  pub merge : State → Bytes → Bytes → State
  pub codec : Codec
  pub encode_attempt : JobAttempt → Bytes
  pub get-put :
      (s : State) (k v j : Bytes) → get (put s k v) j ≡ (if bytes_eq k j then some v else get s j)
  pub get-delete :
      (s : State) (k j : Bytes) → get (delete s k) j ≡ (if bytes_eq k j then none else get s j)
  pub get-merge :
      (s : State) (id v j : Bytes)
      → get (merge s (attempt_history_key id) v) j ≡ (
          if bytes_eq (attempt_history_key id) j
          then some (merge_append (get s (attempt_history_key id)) (v ∷ []))
          else get s j)

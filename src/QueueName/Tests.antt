-- ===== src/QueueName/Tests.antt =====
-- The checks of names at concrete inputs.
use taquba.Base.{◌≡◌, ◌<◌, refl, [], ◌∷◌, length, ◌↔◌, none}
use taquba.Form.{
  Text, as_bytes, check, first_outside, may_start, is_ascii_alphanumeric, invalid_character, id,
}
use taquba.Form.Check.{IsOfForm, check_lem}
use taquba.Error.{ok, err, invalid_queue_name}
use taquba.QueueName.{queue_name_form, new}
use taquba.QueueName.Accepted.{new-fits}

abbrev name : Text
name = b'q' ∷ b'.' ∷ b'1' ∷ []

new_ok : new name ≡ ok name
unfolding new queue_name_form check first_outside may_start is_ascii_alphanumeric as_bytes
new_ok = refl

new_slash :
    new (b'q' ∷ b'/' ∷ []) ≡ err (invalid_queue_name (b'q' ∷ b'/' ∷ []) (invalid_character b'/'))
unfolding new queue_name_form check first_outside may_start is_ascii_alphanumeric as_bytes
new_slash = refl

new-fits_example : (name ≡ name) × (0 < length name) × (length name < 256)
new-fits_example = new-fits name name new_ok

check_lem_example : (check (id 2) (b'a' ∷ b'_' ∷ []) ≡ none) ↔ IsOfForm (id 2) (b'a' ∷ b'_' ∷ [])
check_lem_example = check_lem (id 2) (b'a' ∷ b'_' ∷ [])

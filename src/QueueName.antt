-- ===== src/QueueName.antt =====
-- taquba/src/keys.rs and taquba/src/queue.rs: the names and ids that a caller supplies.
pub mod Accepted
mod Tests
use taquba.Base.{ℕ, Bool, Option, none, some, ◌==◌, ◌||◌}
use taquba.Bytes.{Bytes}
use taquba.Form.{Form, FormError, Text, as_bytes, check, is_ascii_alphanumeric}
use taquba.Form
use taquba.Error.{Result, ok, err, invalid_queue_name, invalid_id}

abbrev pub max_queue_name_len : ℕ
max_queue_name_len = 255

unfoldable pub queue_name_form : Form
queue_name_form = record {
  max = max_queue_name_len;
  start = some is_ascii_alphanumeric;
  characters = λ c. is_ascii_alphanumeric c || (c == b'.' || (c == b'_' || c == b'-'));
}

-- `QueueName::new`. The name is kept as its bytes.
unfoldable pub new : Text → Result Bytes
new name = elim (check queue_name_form name) [
  | none ↦ ok (as_bytes name)
  | some reason ↦ err (invalid_queue_name (as_bytes name) reason)
]

abbrev pub max_id_override_len : ℕ
max_id_override_len = 128

unfoldable pub id_override_form : Form
id_override_form = Form.id max_id_override_len

unfoldable pub validate_id_override : Text → Result (Unit {0})
validate_id_override id = elim (check id_override_form id) [
  | none ↦ ok tt
  | some reason ↦ err (invalid_id (as_bytes id) reason)
]

-- ===== src/History.antt =====
-- taquba/src/history.rs, and the merge of its key space in taquba/src/stats.rs.
use taquba.Base.{ℕ, List, [], ◌∷◌, ◌++◌, Option, none, some}
use taquba.Bytes.{Bytes}

pub data AttemptOutcome : Type 0 where
  completed retried dead_lettered lease_expired interrupted requeued : AttemptOutcome

pub record JobAttempt : Type 0 where
  pub attempt : ℕ  -- u32
  pub claimed_at : Option ℕ
  pub recorded_at : ℕ
  pub outcome : AttemptOutcome
  pub error : Option Bytes

-- The bytes of the operands, in order.
abbrev concat : List Bytes → Bytes
concat [] = []
concat (op ∷ ops) = op ++ concat ops

-- The existing value and the operands, in order.
unfoldable pub merge_append : Option Bytes → List Bytes → Bytes
merge_append none operands = concat operands
merge_append (some existing) operands = existing ++ concat operands

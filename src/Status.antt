-- ===== src/Status.antt =====
-- taquba/src/job.rs: the lifecycle states of a job.
use taquba.Base.{◌≡◌, ◌↔◌, Bool, true, false, arith}

pub data JobStatus : Type 0 where
  pending scheduled claimed done dead : JobStatus

-- `==` on `JobStatus`.
abbrev pub status_eq : JobStatus → JobStatus → Bool
status_eq pending pending = true
status_eq scheduled scheduled = true
status_eq claimed claimed = true
status_eq done done = true
status_eq dead dead = true
status_eq _ _ = false

pub status_eq_iff : (s t : JobStatus) → (status_eq s t ≡ true) ↔ (s ≡ t)
status_eq_iff s t = ground arith

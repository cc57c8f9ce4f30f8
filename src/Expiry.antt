-- ===== src/Expiry.antt =====
-- taquba/src/expiry.rs: the entries of a time-ordered index over one prefix of the user KV namespace.
pub mod Entry
mod Tests
use taquba.Base.{ℕ, zero, suc, [], ◌∷◌, ◌++◌, Option, none, some}
use taquba.Bytes.{Bytes, be_bytes, from_be}
use taquba.Keys.{strip_prefix}

-- The clones of an index share its bound, so the bound is named by where it is.
pub record ExpiryIndex : Type 0 where
  pub prefix : Bytes
  pub bound : ℕ

unfoldable pub entry_key : ExpiryIndex → ℕ → Bytes → Bytes
entry_key index at_ms suffix = index.prefix ++ (be_bytes 8 at_ms ++ suffix)

-- `<[u8]>::split_first_chunk`.
unfoldable pub split_first_chunk : ℕ → Bytes → Option (Bytes × Bytes)
split_first_chunk zero bs = some ([], bs)
split_first_chunk (suc n) [] = none
split_first_chunk (suc n) (b ∷ bs) = elim (split_first_chunk n bs) [
  | none ↦ none
  | some (front, rest) ↦ some (b ∷ front, rest)
]

unfoldable pub parse : ExpiryIndex → Bytes → Option (ℕ × Bytes)
parse index key = elim (strip_prefix index.prefix key) [
  | none ↦ none
  | some rest ↦ elim (split_first_chunk 8 rest) [
    | none ↦ none
    | some (time, suffix) ↦ some (from_be 0 time, suffix)
  ]
]

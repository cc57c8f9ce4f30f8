-- ===== src/Expiry/Tests.antt =====
-- The key of an entry at a concrete input.
use taquba.Base.{◌≡◌, [], ◌∷◌, some, arith}
use taquba.Expiry.{ExpiryIndex, entry_key, parse}
use taquba.Expiry.Entry.{parse-entry_key}

abbrev index : ExpiryIndex
index = record { prefix = b'x' ∷ b'/' ∷ []; bound = 0 }

parse-entry_key_example : parse index (entry_key index 500 (b's' ∷ [])) ≡ some (500, b's' ∷ [])
parse-entry_key_example = parse-entry_key index 500 (b's' ∷ []) (ground arith)

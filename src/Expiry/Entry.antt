-- ===== src/Expiry/Entry.antt =====
-- The keys of the entries: read back, and in the order of their times.
use taquba.Base.{ℕ, ◌^◌, ◌<◌, ◌≡◌, refl, sym, ap, ◌∙◌, [], ◌∷◌, ◌++◌, some, arith, length}
use taquba.Bytes.{Bytes, be_bytes}
use taquba.Bytes.BigEndian.{length-be_bytes, from_be-be_bytes}
use taquba.Keys.{strip_prefix}
use taquba.Expiry.{ExpiryIndex, entry_key, parse, split_first_chunk}

strip_prefix-append : (ps rest : Bytes) → strip_prefix ps (ps ++ rest) ≡ some rest
unfolding strip_prefix
strip_prefix-append [] rest = refl
strip_prefix-append (p ∷ ps) rest = ground (arith, strip_prefix-append ps rest)

split_first_chunk-append :
    (xs ys : Bytes) → split_first_chunk (length xs) (xs ++ ys) ≡ some (xs, ys)
unfolding split_first_chunk
split_first_chunk-append [] ys = refl
split_first_chunk-append (x ∷ xs) ys = rw (split_first_chunk-append xs ys)

split-be_bytes :
    (at : ℕ) (suffix : Bytes)
    → split_first_chunk 8 (be_bytes 8 at ++ suffix) ≡ some (be_bytes 8 at, suffix)
split-be_bytes at suffix =
    ap (λ n. split_first_chunk n (be_bytes 8 at ++ suffix)) (sym (length-be_bytes 8 at))
    ∙ split_first_chunk-append (be_bytes 8 at) suffix

-- The time and the suffix of an entry are read back from its key, for every time of 64 bits.
pub parse-entry_key :
    (index : ExpiryIndex) (at : ℕ) (suffix : Bytes)
    → at < 2 ^ 64
    → parse index (entry_key index at suffix) ≡ some (at, suffix)
unfolding parse entry_key
parse-entry_key index at suffix h =
    rw
      (
        parse,
        strip_prefix-append index.prefix _,
        split-be_bytes at suffix,
        from_be-be_bytes 8 0 at h,
      )
      (ap (λ n. some (n, suffix)) (omega arith))

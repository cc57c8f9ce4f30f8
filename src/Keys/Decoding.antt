-- ===== src/Keys/Decoding.antt =====
-- What a key says of itself: its tag, the state of its record and its leading time.
use taquba.Base.{
  ℕ, ◌^◌, ◌<◌, ◌≡◌, refl, sym, ap, ◌∙◌, [], ◌∷◌, ◌++◌, none, some, arith, ◌==◌, if◌then◌else◌,
  length, Bool-cases, inl, inr,
}
use taquba.Bytes.{Bytes, be_bytes}
use taquba.Bytes.BigEndian.{length-be_bytes, from_be-be_bytes}
use taquba.Keys.{KeyTag, id, of, header, time_first_key, strip_prefix, get_to, parse_key_timestamp}

-- The first byte of a tag is read back as the tag.
pub of-id : (tag : KeyTag) (rest : Bytes) → of (id tag ∷ rest) ≡ some tag
unfolding of
of-id KeyTag.pending rest = refl
of-id _ rest = refl

pub id-injective : (s t : KeyTag) → id s ≡ id t → s ≡ t
unfolding of
id-injective s t e = ground (arith, of-id s [], of-id t [], ap (λ b. of (b ∷ [])) e)

get_to-append : (xs ys : Bytes) → get_to (length xs) (xs ++ ys) ≡ some xs
unfolding get_to
get_to-append [] ys = refl
get_to-append (x ∷ xs) ys = ground (arith, get_to-append xs ys)

get_to-be_bytes : (ts : ℕ) (rest : Bytes) → get_to 8 (be_bytes 8 ts ++ rest) ≡ some (be_bytes 8 ts)
get_to-be_bytes ts rest =
    ap (λ n. get_to n (be_bytes 8 ts ++ rest)) (sym (length-be_bytes 8 ts))
    ∙ get_to-append (be_bytes 8 ts) rest

strip_prefix-header :
    (s t : KeyTag) (rest : Bytes)
    → strip_prefix (header s) (header t ++ rest) ≡ (if id s == id t then some rest else none)
unfolding strip_prefix
strip_prefix-header s t rest = refl

-- The time of a time-first key is read back from the key by the tag that the key was built with,
-- and by no other tag, for every time of 64 bits, every queue and every id.
pub parse_key_timestamp-time_first_key :
    (s t : KeyTag) (ts : ℕ) (queue job_id : Bytes)
    → ts < 2 ^ 64
    → parse_key_timestamp (time_first_key t ts queue job_id) s
      ≡ (if id s == id t then some ts else none)
unfolding parse_key_timestamp time_first_key
parse_key_timestamp-time_first_key s t ts queue job_id h = elim (Bool-cases (id s == id t)) [
  | inl e ↦
      rw
        (
          parse_key_timestamp,
          strip_prefix-header s t _,
          e,
          get_to-be_bytes ts _,
          from_be-be_bytes 8 0 ts h,
        )
        (ap (λ n. some n) (omega arith))
  | inr e ↦ rw (parse_key_timestamp, strip_prefix-header s t _, e)
]

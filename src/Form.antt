-- ===== src/Form.antt =====
-- taquba/src/error.rs: the form of a name or an id, and its check. A `str` is the list of its
-- characters, with their UTF-8 bytes.
pub mod Check
use taquba.Base.{
  ℕ, ◌+◌, ◌/◌, ◌%◌, Bool, List, [], ◌∷◌, ◌++◌, Option, none, some, leb, ltb, ◌==◌, if◌then◌else◌,
  length, ◌&&◌, ◌||◌,
}
use taquba.Bytes.{Bytes}

abbrev pub Text : Type 0
Text = List ℕ

-- `char::encode_utf8`.
abbrev pub encode_utf8 : ℕ → Bytes
encode_utf8 c =
    if ltb c 0x80
    then c ∷ []
    else if ltb c 0x800
    then (0xC0 + c / 64) ∷ (0x80 + c % 64) ∷ []
    else if ltb c 0x10000
    then (0xE0 + c / 4096) ∷ (0x80 + c / 64 % 64) ∷ (0x80 + c % 64) ∷ []
    else (0xF0 + c / 262144) ∷ (0x80 + c / 4096 % 64) ∷ (0x80 + c / 64 % 64) ∷ (0x80 + c % 64) ∷ []

-- `str::as_bytes`.
unfoldable pub as_bytes : Text → Bytes
as_bytes [] = []
as_bytes (c ∷ cs) = encode_utf8 c ++ as_bytes cs

pub data FormError : Type 0 where
  empty : FormError
  too_long : ℕ → FormError
  invalid_start invalid_character : ℕ → FormError

pub record Form : Type 0 where
  pub max : ℕ
  pub start : Option (ℕ → Bool)
  pub characters : ℕ → Bool

-- `char::is_ascii_alphanumeric`.
unfoldable pub is_ascii_alphanumeric : ℕ → Bool
is_ascii_alphanumeric c =
    (leb b'0' c && leb c b'9') || ((leb b'A' c && leb c b'Z') || (leb b'a' c && leb c b'z'))

-- The form of an id of up to `max` bytes.
abbrev pub id : ℕ → Form
id max = record {
  max = max;
  start = none;
  characters = λ c. is_ascii_alphanumeric c || (c == b'_' || c == b'-');
}

-- `value.chars().find(|&c| !(self.characters)(c))`.
unfoldable pub first_outside : (ℕ → Bool) → Text → Option ℕ
first_outside p [] = none
first_outside p (c ∷ cs) = let rest = first_outside p cs in if p c then rest else some c

-- The test of `start`, which a form may leave out.
unfoldable pub may_start : Option (ℕ → Bool) → ℕ → Bool
may_start none c = Bool.true
may_start (some start) c = start c

-- `none` is `Ok(())`.
unfoldable pub check : Form → Text → Option FormError
check form [] = some empty
check form (first ∷ rest) =
    if ltb form.max (length (as_bytes (first ∷ rest)))
    then some (too_long form.max)
    else if may_start form.start first
    then elim (first_outside form.characters (first ∷ rest)) [
      | none ↦ none
      | some c ↦ some (invalid_character c)
    ]
    else some (invalid_start first)

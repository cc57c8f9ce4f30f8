-- ===== src/Bytes/Utf8.antt =====
-- The check of `String::from_utf8`: which byte strings are UTF-8.
use taquba.Base.{ℕ, Bool, true, false, List, [], ◌∷◌, Option, none, some, leb, if◌then◌else◌, ◌&&◌}
use taquba.Bytes.{Bytes}

abbrev tail_byte : ℕ × ℕ
tail_byte = (0x80, 0xBF)

-- The ranges of the bytes that follow a first byte.
abbrev after : ℕ → Option (List (ℕ × ℕ))
after b =
    if leb b 0x7F
    then some []
    else if leb b 0xC1
    then none
    else if leb b 0xDF
    then some (tail_byte ∷ [])
    else if leb b 0xE0
    then some ((0xA0, 0xBF) ∷ tail_byte ∷ [])
    else if leb b 0xEC
    then some (tail_byte ∷ tail_byte ∷ [])
    else if leb b 0xED
    then some ((0x80, 0x9F) ∷ tail_byte ∷ [])
    else if leb b 0xEF
    then some (tail_byte ∷ tail_byte ∷ [])
    else if leb b 0xF0
    then some ((0x90, 0xBF) ∷ tail_byte ∷ tail_byte ∷ [])
    else if leb b 0xF3
    then some (tail_byte ∷ tail_byte ∷ tail_byte ∷ [])
    else if leb b 0xF4
    then some ((0x80, 0x8F) ∷ tail_byte ∷ tail_byte ∷ [])
    else none

-- The rest of a text, with the ranges of the bytes that the character at hand still needs.
unfoldable pub is_rest : List (ℕ × ℕ) → Bytes → Bool
is_rest [] [] = true
is_rest (r ∷ rs) [] = false
is_rest [] (b ∷ bs) = elim (after b) [ none ↦ false | some ranges ↦ is_rest ranges bs ]
is_rest ((low, high) ∷ rs) (b ∷ bs) = leb low b && (leb b high && is_rest rs bs)

unfoldable pub is_utf8 : Bytes → Bool
is_utf8 = is_rest []

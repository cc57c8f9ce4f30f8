-- ===== src/Decimal.antt =====
-- The decimal text of an `i64`: `to_string` and `parse::<i64>` of the standard library. A text is its
-- bytes. The digits are counted down from 19, which is enough for 2^63.
pub mod RoundTrip
use taquba.Base.{
  ℕ, zero, suc, ◌+◌, ◌-◌, ◌*◌, ◌/◌, ◌%◌, ◌^◌, [], ◌∷◌, ◌++◌, Option, none, some, ltb, leb, ◌==◌,
  ◌&&◌, ◌||◌, if◌then◌else◌,
}
use taquba.Bytes.{Bytes}
use taquba.Int.{ℤ, pos, negsuc}

unfoldable pub digits : ℕ → ℕ → Bytes
digits zero n = (b'0' + n) ∷ []
digits (suc f) n =
    let front = digits f (n / 10) in
    if ltb n 10 then (b'0' + n) ∷ [] else front ++ (b'0' + n % 10) ∷ []

unfoldable pub to_string : ℤ → Bytes
to_string (pos n) = digits 19 n
to_string (negsuc n) = b'-' ∷ digits 19 (suc n)

-- The value of the digits, with the value of those already read.
unfoldable pub digits_value : ℕ → Bytes → Option ℕ
digits_value acc [] = some acc
digits_value acc (c ∷ cs) =
    let rest = digits_value (acc * 10 + (c - b'0')) cs in
    if leb b'0' c && leb c b'9' then rest else none

abbrev pub nonempty_value : Bytes → Option ℕ
nonempty_value [] = none
nonempty_value (c ∷ cs) = digits_value 0 (c ∷ cs)

abbrev pub positive : Option ℕ → Option ℤ
positive none = none
positive (some n) = if ltb n (2 ^ 63) then some (pos n) else none

abbrev pub negated : ℕ → ℤ
negated zero = pos 0
negated (suc n) = negsuc n

abbrev pub negative : Option ℕ → Option ℤ
negative none = none
negative (some n) = if leb n (2 ^ 63) then some (negated n) else none

unfoldable pub parse_i64 : Bytes → Option ℤ
parse_i64 [] = none
parse_i64 (c ∷ cs) =
    if c == b'-'
    then negative (nonempty_value cs)
    else if c == b'+'
    then positive (nonempty_value cs)
    else positive (digits_value 0 (c ∷ cs))

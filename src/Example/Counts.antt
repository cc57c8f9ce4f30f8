-- ===== src/Example/Counts.antt =====
-- A serialization of the record of a count.
use taquba.Base.{ℕ, zero, suc, ◌≡◌, refl, [], Option, none, some}
use taquba.Bytes.{Bytes}
use taquba.Int.{ℤ, pos, negsuc}
use taquba.Count.{CountRecord, CountCodec}
use taquba.Example.Parser.{Format, number, through, both, option, list}

signed : Format ℤ
signed = through to of back (both number number)
  where
    to : ℤ → ℕ × ℕ
    to (pos n) = (0, n)
    to (negsuc n) = (1, n)

    of : ℕ × ℕ → Option ℤ
    of (zero, n) = some (pos n)
    of (suc _, n) = some (negsuc n)

    back : (x : ℤ) → of (to x) ≡ some x
    back (pos n) = refl
    back (negsuc n) = refl

pub parts : Format (ℤ × Option Bytes)
parts = both signed (option (list number))

abbrev decoded : Bytes → Option CountRecord
decoded bytes = elim (parts.read bytes) [
  | none ↦ none
  | some ((active, waiter), _) ↦ some (record { active = active; waiter = waiter })
]

abbrev pub count_codec : CountCodec
count_codec = record {
  encode = λ r. parts.write (r.active, r.waiter) [];
  from_slice = decoded;
  from_slice-encode = λ r. rw (decoded, parts.read-write (r.active, r.waiter) []);
}

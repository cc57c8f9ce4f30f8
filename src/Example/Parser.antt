-- ===== src/Example/Parser.antt =====
-- Serializers with their parsers, built up from a number.
use taquba.Base.{ℕ, ◌≡◌, refl, List, [], ◌∷◌, Option, none, some, zero, suc, length}
use taquba.Bytes.{Bytes}

pub record Format {ℓ} (A : Type ℓ) : Type ℓ where
  pub write : A → Bytes → Bytes
  pub read : Bytes → Option (A × Bytes)
  pub read-write : (a : A) (rest : Bytes) → read (write a rest) ≡ some (a, rest)

abbrev pub number : Format ℕ
number = record {
  write = λ n rest. n ∷ rest;
  read = λ bytes. elim bytes [ [] ↦ none | n ∷ rest ↦ some (n, rest) ];
  read-write = λ n rest. refl;
}

-- A value that has a form in another format.
abbrev via : {A B : Type 0} → (A → B) → (B → Option A) → Format B → Bytes → Option (A × Bytes)
via {A} {B} f g F bytes = elim (F.read bytes) [
  | none ↦ none
  | some (x, rest) ↦ elim (g x) [ none ↦ none | some a ↦ some (a, rest) ]
]

pub through :
    {A B : Type 0}
    → (f : A → B) (g : B → Option A) → ((a : A) → g (f a) ≡ some a)
    → Format B
    → Format A
through f g inv F = record {
  write = λ a rest. F.write (f a) rest;
  read = via f g F;
  read-write = λ a rest. rw (via, F.read-write (f a) rest, inv a);
}

-- One value and then another.
abbrev read_both : {A B : Type 0} → Format A → Format B → Bytes → Option ((A × B) × Bytes)
read_both F G bytes = elim (F.read bytes) [
  | none ↦ none
  | some (a, rest) ↦ elim (G.read rest) [ none ↦ none | some (x, end) ↦ some ((a, x), end) ]
]

pub both : {A B : Type 0} → Format A → Format B → Format (A × B)
both F G = record {
  write = λ (a, x) rest. F.write a (G.write x rest);
  read = read_both F G;
  read-write = λ (a, x) rest. rw (read_both, F.read-write a (G.write x rest), G.read-write x rest);
}

abbrev write_option : {A : Type 0} → Format A → Option A → Bytes → Bytes
write_option F none rest = 0 ∷ rest
write_option F (some a) rest = 1 ∷ F.write a rest

abbrev read_option : {A : Type 0} → Format A → Bytes → Option (Option A × Bytes)
read_option F [] = none
read_option F (zero ∷ rest) = some (none, rest)
read_option F (suc _ ∷ rest) = elim (F.read rest) [
  | none ↦ none
  | some (a, end) ↦ some (some a, end)
]

pub option : {A : Type 0} → Format A → Format (Option A)
option {A} F = record { write = write_option F; read = read_option F; read-write = back }
  where
    back : (m : Option A) (rest : Bytes) → read_option F (write_option F m rest) ≡ some (m, rest)
    back none rest = refl
    back (some a) rest = rw (read_option, F.read-write a rest)

-- The number of the items of a list, and the items.
abbrev write_all : {A : Type 0} → Format A → List A → Bytes → Bytes
write_all F [] rest = rest
write_all F (a ∷ items) rest = F.write a (write_all F items rest)

abbrev read_all : {A : Type 0} → Format A → ℕ → Bytes → Option (List A × Bytes)
read_all F zero bytes = some ([], bytes)
read_all F (suc n) bytes = elim (F.read bytes) [
  | none ↦ none
  | some (a, rest) ↦ elim (read_all F n rest) [
    | none ↦ none
    | some (items, end) ↦ some (a ∷ items, end)
  ]
]

abbrev read_list : {A : Type 0} → Format A → Bytes → Option (List A × Bytes)
read_list F [] = none
read_list F (n ∷ rest) = read_all F n rest

pub list : {A : Type 0} → Format A → Format (List A)
list {A} F = record {
  write = λ items rest. length items ∷ write_all F items rest;
  read = read_list F;
  read-write = back;
}
  where
    back :
        (items : List A) (rest : Bytes)
        → read_all F (length items) (write_all F items rest) ≡ some (items, rest)
    back [] rest = refl
    back (a ∷ items) rest = rw (read_all, F.read-write a (write_all F items rest), back items rest)

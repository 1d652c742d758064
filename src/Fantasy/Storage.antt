-- ===== src/Fantasy/Storage.antt =====
-- The files of the league server, TPE1/src/IO/io.c: how their lines are read, by `fgets` and `atoi`.
--
-- A file is its bytes, of which none is NUL. `none` is the end of the process: by `exit`, or by a use
-- of memory that is not valid. `malloc` is taken to succeed.
pub mod Lines
pub mod Numbers
pub mod Objects
pub mod Roundtrip
pub mod Points
pub mod Folders
use so_tpe.Prelude.{
  ℕ, zero, suc, ◌+◌, ◌-◌, ◌*◌, ◌%◌, ◌^◌, Bool, true, false, Option, none, some, List, [], ◌∷◌, ◌++◌,
  ◌==◌, ◌&&◌, ◌||◌, leb, if◌then◌else◌,
}

abbrev pub newline : ℕ
newline = 10

abbrev pub buffer_size : ℕ
buffer_size = 100

-- The buffer `aux`, with nothing before the first line is read, and what is left of the file.
pub record Reader : Type 0 where
  pub aux : Option (List ℕ)
  pub rest : List ℕ

-- A step that reads.
abbrev pub Reads : Type 0 → Type 0
Reads A = Reader → Option (A × Reader)

infixl 5 ◌>>=◌
abbrev pub ◌>>=◌ : {A B : Type 0} → Reads A → (A → Reads B) → Reads B
◌>>=◌ m f r = elim (m r) [ none ↦ none | some (a, r') ↦ f a r' ]

abbrev pub pure : {A : Type 0} → A → Reads A
pure a r = some (a, r)

-- The bytes up to a newline, `n` at most, and those after them.
unfoldable pub take_line : ℕ → List ℕ → List ℕ × List ℕ
take_line zero bs = ([], bs)
take_line (suc n) [] = ([], [])
take_line (suc n) (b ∷ bs) =
    let (line, rest) = take_line n bs in if b == newline then (b ∷ [], bs) else (b ∷ line, rest)

-- `fgets(aux, BUFFER_SIZE, file)`: at the end of the file the buffer keeps what it holds.
unfoldable pub fgets : Reader → Reader
fgets r = elim r.rest [
  | [] ↦ r
  | b ∷ bs ↦
      let (line, rest) = take_line (buffer_size - 1) (b ∷ bs) in
      record { aux = some line; rest = rest }
]

-- All bytes but the last.
abbrev pub init : List ℕ → List ℕ
init [] = []
init (b ∷ []) = []
init (b ∷ c ∷ bs) = b ∷ init (c ∷ bs)

-- The line in the buffer as text: `aux[dim-1] = 0`, which writes before an empty buffer.
abbrev pub as_text : Reads (List ℕ)
as_text r = elim r.aux [
  | none ↦ none
  | some [] ↦ none
  | some (b ∷ bs) ↦ some (init (b ∷ bs), record r { aux = some (init (b ∷ bs)) })
]

unfoldable pub read_text : Reads (List ℕ)
read_text r = as_text (fgets r)

abbrev pub is_digit : ℕ → Bool
is_digit c = leb 48 c && leb c 57

abbrev pub is_space : ℕ → Bool
is_space c = (c == 32) || (leb 9 c && leb c 13)

-- The number that the digits write, behind `acc`.
unfoldable pub value_of : ℕ → List ℕ → ℕ
value_of acc [] = acc
value_of acc (c ∷ s) =
    let rest = value_of (acc * 10 + (c - 48)) s in if is_digit c then rest else acc

unfoldable pub skip_spaces : List ℕ → List ℕ
skip_spaces [] = []
skip_spaces (c ∷ s) = let rest = skip_spaces s in if is_space c then rest else c ∷ s

abbrev pub negated : ℕ → ℕ
negated n = (2 ^ 32 - n % 2 ^ 32) % 2 ^ 32

-- The sign, and then the digits.
unfoldable pub signed_value : List ℕ → ℕ
signed_value [] = 0
signed_value (c ∷ s) =
    if c == 45
    then negated (value_of 0 s)
    else if c == 43
    then value_of 0 s % 2 ^ 32
    else value_of 0 (c ∷ s) % 2 ^ 32

-- `atoi` of the C library, as the 32-bit pattern of an `int`; out of range it is taken to wrap.
unfoldable pub atoi : List ℕ → ℕ
unfolding skip_spaces signed_value
atoi s = signed_value (skip_spaces s)

-- The line in the buffer as a number.
abbrev pub as_int : Reads ℕ
as_int r = elim r.aux [ none ↦ none | some s ↦ some (atoi s, r) ]

unfoldable pub read_int : Reads ℕ
read_int r = as_int (fgets r)

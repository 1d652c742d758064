-- ===== src/Fantasy/Storage/Lines.antt =====
-- Lines that are read as they were written.
use so_tpe.Prelude.{
  ℕ, zero, suc, ◌+◌, ◌-◌, ◌/◌, ◌%◌, ◌^◌, ◌≤◌, ◌<◌, ◌≡◌, refl, sym, ap, ◌∙◌, inl, inr, false, Option,
  some, List, [], ◌∷◌, ◌++◌, append-nil, ◌==◌, ltb, leb, arith, All, length, Bool-cases,
}
use so_tpe.Fantasy.Game.Answer.{digits, decimal}
use so_tpe.Fantasy.Storage.{
  newline, Reader, take_line, fgets, init, as_text, as_int, read_text, value_of, atoi, read_int,
}
use so_tpe.Fantasy.Storage.Objects.{line}
use so_tpe.Fantasy.Storage.Numbers.{atoi-decimal, decimal_head}

abbrev pub NoNewline : List ℕ → Type 0
NoNewline s = All (λ c. (c == newline) ≡ false) s

-- A text that a line of the buffer holds.
abbrev pub Fits : List ℕ → Type 0
Fits s = NoNewline s × (length s < 99)

take_line-line :
    (n : ℕ) (s more : List ℕ)
    → NoNewline s
    → length s < n
    → take_line n (s ++ newline ∷ more) ≡ (s ++ newline ∷ [], more)
unfolding take_line
take_line-line zero s more f h = absurd (omega arith)
take_line-line (suc n) [] more f h = refl
take_line-line (suc n) (c ∷ s) more f h = rw (f.0, take_line-line n s more f.1 (omega arith)) refl

take_line-last : (n : ℕ) (s : List ℕ) → NoNewline s → length s ≤ n → take_line n s ≡ (s, [])
unfolding take_line
take_line-last zero [] f h = refl
take_line-last zero (c ∷ s) f h = absurd (omega arith)
take_line-last (suc n) [] f h = refl
take_line-last (suc n) (c ∷ s) f h = rw (f.0, take_line-last n s f.1 (omega arith)) refl

init-add : (s : List ℕ) (c : ℕ) → init (s ++ c ∷ []) ≡ s
init-add [] c = refl
init-add (b ∷ []) c = refl
init-add (b ∷ d ∷ s) c = ap (λ t. b ∷ t) (init-add (d ∷ s) c)

-- The reader at a place in a file.
abbrev pub reader : Option (List ℕ) → List ℕ → Reader
reader aux rest = record { aux = aux; rest = rest }

fgets-line :
    (aux : Option (List ℕ)) (s more : List ℕ)
    → Fits s
    → fgets (reader aux (line s more)) ≡ reader (some (s ++ newline ∷ [])) more
unfolding fgets
fgets-line aux [] more f = rw (take_line-line 99 [] more f.0 f.1) refl
fgets-line aux (c ∷ s) more f = rw (take_line-line 99 (c ∷ s) more f.0 f.1) refl

text_of :
    (s : List ℕ) (c : ℕ) (more : List ℕ)
    → ◌≡◌ {A = Option (List ℕ × Reader)}
        (as_text (reader (some (s ++ c ∷ [])) more))
        (some (s, reader (some s) more))
text_of [] c more = refl
text_of (b ∷ s) c more = rw (init-add (b ∷ s) c) refl

pub read_text-line :
    (aux : Option (List ℕ)) (s more : List ℕ)
    → Fits s
    → read_text (reader aux (line s more)) ≡ some (s, reader (some s) more)
unfolding read_text
read_text-line aux s more f = ap as_text (fgets-line aux s more f) ∙ text_of s newline more

digits-NoNewline : (fuel n : ℕ) (acc : List ℕ) → NoNewline acc → NoNewline (digits fuel n acc)
unfolding digits
digits-NoNewline zero n acc h = h
digits-NoNewline (suc fuel) n acc h = elim (Bool-cases (ltb n 10)) [
  | inl e ↦ rw e (ground arith, h)
  | inr e ↦ rw e (digits-NoNewline fuel (n / 10) ((48 + n % 10) ∷ acc) (ground arith, h))
]

length-digits : (fuel n : ℕ) (acc : List ℕ) → length (digits fuel n acc) ≤ fuel + length acc
unfolding digits
length-digits zero n acc = omega arith
length-digits (suc fuel) n acc = elim (Bool-cases (ltb n 10)) [
  | inl e ↦ rw e (omega arith)
  | inr e ↦ let h = length-digits fuel (n / 10) ((48 + n % 10) ∷ acc) in rw e (omega arith)
]

decimal-NoNewline : (n : ℕ) → NoNewline (decimal n)
unfolding decimal
decimal-NoNewline n = elim (Bool-cases (leb (2 ^ 31) n)) [
  | inl e ↦ rw e (refl, digits-NoNewline 10 (2 ^ 32 - n) [] tt)
  | inr e ↦ rw e (digits-NoNewline 10 n [] tt)
]

-- A sign and ten digits at most.
pub length-decimal : (n : ℕ) → length (decimal n) ≤ 11
unfolding decimal
length-decimal n = elim (Bool-cases (leb (2 ^ 31) n)) [
  | inl e ↦ let h = length-digits 10 (2 ^ 32 - n) [] in rw e (omega arith)
  | inr e ↦ let h = length-digits 10 n [] in rw e (omega arith)
]

pub decimal-Fits : (n : ℕ) → Fits (decimal n)
decimal-Fits n = let h = length-decimal n in (decimal-NoNewline n, omega arith)

stops_nil : (m : ℕ) → value_of m [] ≡ m
unfolding value_of
stops_nil m = refl

stops_newline : (m : ℕ) → value_of m (newline ∷ []) ≡ m
unfolding value_of
stops_newline m = refl

pub read_int-line :
    (aux : Option (List ℕ)) (n : ℕ) (more : List ℕ)
    → n < 2 ^ 32
    → read_int (reader aux (line (decimal n) more))
      ≡ some (n, reader (some (decimal n ++ newline ∷ [])) more)
unfolding read_int
read_int-line aux n more h =
    ap as_int (fgets-line aux (decimal n) more (decimal-Fits n))
    ∙ ap (λ m. some (m, reader (some (decimal n ++ newline ∷ [])) more))
        (atoi-decimal n (newline ∷ []) h stops_newline)

fgets-last :
    (aux : Option (List ℕ)) (c : ℕ) (s : List ℕ)
    → Fits (c ∷ s)
    → fgets (reader aux (c ∷ s)) ≡ reader (some (c ∷ s)) []
unfolding fgets
fgets-last aux c s f = rw (take_line-last 99 (c ∷ s) f.0 (omega arith)) refl

read_int-bytes :
    (aux : Option (List ℕ)) (c : ℕ) (s : List ℕ)
    → Fits (c ∷ s)
    → read_int (reader aux (c ∷ s)) ≡ some (atoi (c ∷ s), reader (some (c ∷ s)) [])
unfolding read_int
read_int-bytes aux c s f = ap as_int (fgets-last aux c s f)

-- The last line of a file, with no newline behind it.
pub read_int-last :
    (aux : Option (List ℕ)) (n : ℕ)
    → n < 2 ^ 32
    → read_int (reader aux (decimal n)) ≡ some (n, reader (some (decimal n)) [])
read_int-last aux n h =
    let (c, s, e, shown) = decimal_head n in
    let v : atoi (decimal n) ≡ n =
      ap atoi (sym (append-nil (decimal n))) ∙ atoi-decimal n [] h stops_nil in
    rw e (
      read_int-bytes aux c s (rw e at (decimal-Fits n))
      ∙ ap (λ m. some (m, reader (some (c ∷ s)) [])) (rw e at v))

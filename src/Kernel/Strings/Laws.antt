-- ===== src/Kernel/Strings/Laws.antt =====
-- The string functions on strings that end within their memory.
use so_tpe.Prelude.{
  ℕ, ◌+◌, ◌-◌, ◌*◌, ◌%◌, ◌^◌, ◌<◌, ◌≡◌, refl, ◌≢◌, true, false, some, List, [], ◌∷◌, ◌++◌, arith,
  ◌==◌, leb, All, length, drop, Bool, Bool-cases, inl, inr, ap, ◌∙◌,
}
use so_tpe.Kernel.Strings.{streq, strlen, strcpy, atoi, atoi_from}

-- The characters of a row of digits.
abbrev pub chars : List ℕ → List ℕ
chars [] = []
chars (d ∷ ds) = (48 + d) ∷ chars ds

-- The number that the digits write behind `i`.
abbrev pub value : ℕ → List ℕ → ℕ
value i [] = i
value i (d ∷ ds) = value (10 * i + d) ds

atoi_step :
    (i d : ℕ)
    → d < 10
    → (i % 2 ^ 32 * 8 + i % 2 ^ 32 * 2 + (48 + d + 2 ^ 32 - 48)) % 2 ^ 32 ≡ (10 * i + d) % 2 ^ 32
atoi_step i d lt = omega (arith, lt)

atoi_from-value :
    (i : ℕ) (ds rest : List ℕ)
    → All (λ d. d < 10) ds
    → atoi_from (i % 2 ^ 32) (chars ds ++ 0 ∷ rest) ≡ some (value i ds % 2 ^ 32)
unfolding atoi_from
atoi_from-value i [] rest a = refl
atoi_from-value i (d ∷ ds) rest a =
    let digit : leb 128 (48 + d) ≡ false = ground (arith, a.0) in
    let more : (48 + d == 0) ≡ false = ground arith in
    rw (digit, more, atoi_step i d a.0) (atoi_from-value (10 * i + d) ds rest a.1)

-- `atoi` of a string of decimal digits is the number that they write, modulo 2 ^ 32.
pub atoi-value :
    (ds rest : List ℕ)
    → All (λ d. d < 10) ds
    → atoi (chars ds ++ 0 ∷ rest) ≡ some (value 0 ds % 2 ^ 32)
unfolding atoi
atoi-value ds rest a = atoi_from-value 0 ds rest a

-- `strcpy` of a string into memory with room for it and its NUL leaves the string, the NUL, and
-- what stood behind them.
pub strcpy-copy :
    (d s rest : List ℕ)
    → All (λ c. c ≢ 0) s
    → length s < length d
    → strcpy d (s ++ 0 ∷ rest) ≡ some (s ++ 0 ∷ drop (length s + 1) d)
unfolding strcpy
strcpy-copy [] s rest a lt = absurd (omega (arith, lt))
strcpy-copy (b ∷ d) [] rest a lt = ground arith
strcpy-copy (b ∷ d) (c ∷ s) rest a lt =
    let more : (c == 0) ≡ false = ground (arith, a.0) in
    rw (more, strcpy-copy d s rest a.1 (ground (arith, lt))) (ground arith)

-- `strlen` counts the bytes before the NUL.
pub strlen-length :
    (s rest : List ℕ)
    → All (λ c. c ≢ 0) s
    → length s < 2 ^ 31
    → strlen (s ++ 0 ∷ rest) ≡ some (length s)
unfolding strlen
strlen-length [] rest a lt = refl
strlen-length (c ∷ s) rest a lt =
    let more : (c == 0) ≡ false = ground (arith, a.0) in
    rw (more, strlen-length s rest a.1 (omega (arith, lt))) (ground (arith, lt))

streq_same : (s rest rest' : List ℕ) → streq (s ++ 0 ∷ rest) (s ++ 0 ∷ rest') ≡ some true
unfolding streq
streq_same [] rest rest' = refl
streq_same (a ∷ s) rest rest' = elim (Bool-cases (a == 0)) [
  | inl e ↦ let self : (a == a) ≡ true = ground arith in rw (self, e) refl
  | inr e ↦ let self : (a == a) ≡ true = ground arith in rw (self, e) (streq_same s rest rest')
]

-- Every string is the same as itself, also one that holds a NUL.
pub streq_refl : (s rest : List ℕ) → streq (s ++ 0 ∷ rest) (s ++ 0 ∷ rest) ≡ some true
streq_refl s rest = streq_same s rest rest

eq_of_streq :
    (s t rest rest' : List ℕ)
    → All (λ c. c ≢ 0) s
    → All (λ c. c ≢ 0) t
    → streq (s ++ 0 ∷ rest) (t ++ 0 ∷ rest') ≡ some true
    → s ≡ t
unfolding streq
eq_of_streq [] [] rest rest' a b e = refl
eq_of_streq [] (d ∷ t) rest rest' a b e = absurd (ground (arith, b.0))
eq_of_streq (c ∷ s) [] rest rest' a b e = absurd (ground (arith, a.0))
eq_of_streq (c ∷ s) (d ∷ t) rest rest' a b e = elim (Bool-cases (c == d)) [
  | inl f ↦
      let more : (c == 0) ≡ false = ground (arith, a.0) in
      let more' : (d == 0) ≡ false = ground (arith, b.0) in
      let g : streq (s ++ 0 ∷ rest) (t ++ 0 ∷ rest') ≡ some true = rw (f, more, more') at e in
      ground (arith, eq_of_streq s t rest rest' a.1 b.1 g)
  | inr f ↦ absurd (let g : some false ≡ some true = rw f at e in cc)
]

streq_answers :
    (s t rest rest' : List ℕ)
    → All (λ c. c ≢ 0) s
    → All (λ c. c ≢ 0) t
    → (b : Bool) × (streq (s ++ 0 ∷ rest) (t ++ 0 ∷ rest') ≡ some b)
unfolding streq
streq_answers [] [] rest rest' a b = (true, refl)
streq_answers [] (d ∷ t) rest rest' a b =
    let other : (0 == d) ≡ false = ground (arith, b.0) in (false, rw other refl)
streq_answers (c ∷ s) [] rest rest' a b =
    let other : (c == 0) ≡ false = ground (arith, a.0) in (false, rw other refl)
streq_answers (c ∷ s) (d ∷ t) rest rest' a b =
    let more : (c == 0) ≡ false = ground (arith, a.0) in
    let more' : (d == 0) ≡ false = ground (arith, b.0) in
    elim (Bool-cases (c == d)) [
      | inl e ↦ rw (e, more, more') (streq_answers s t rest rest' a.1 b.1)
      | inr e ↦ (false, rw e refl)
    ]

-- `streq` of two strings that end within their memory, whatever stands behind their NULs, ends there
-- and answers TRUE exactly when the strings are the same.
pub streq-eq :
    (s t rest rest' : List ℕ)
    → All (λ c. c ≢ 0) s
    → All (λ c. c ≢ 0) t
    → (b : Bool) × (streq (s ++ 0 ∷ rest) (t ++ 0 ∷ rest') ≡ some b)
      × (b ≡ true → s ≡ t)
      × (s ≡ t → b ≡ true)
streq-eq s t rest rest' a b =
    let (r, e) = streq_answers s t rest rest' a b in
    (
      r,
      e,
      λ f. eq_of_streq s t rest rest' a b (e ∙ ap some f),
      λ f.
          let g : streq (s ++ 0 ∷ rest) (t ++ 0 ∷ rest') ≡ some true =
            rw f (streq_same t rest rest') in
          cc,
    )

-- ===== src/Fantasy/Storage/Numbers.antt =====
-- Numbers as text and back: `%d`, itoa of TPE1/src/server/execute.c, and `atoi`.
use so_tpe.Prelude.{
  ℕ, zero, suc, ◌+◌, ◌-◌, ◌*◌, ◌/◌, ◌%◌, ◌^◌, ◌≤◌, ◌<◌, ◌≡◌, refl, sym, ap, ◌∙◌, inl, inr, true,
  false, List, [], ◌∷◌, ◌++◌, append_assoc, append-nil, ◌==◌, ltb, leb, arith, Bool-cases,
}
use native.Mathlib.Nat.{pow-suc}
use so_tpe.Fantasy.Game.Answer.{digits, decimal}
use so_tpe.Fantasy.Storage.{is_digit, is_space, value_of, skip_spaces, signed_value, negated, atoi}
use so_tpe.Fantasy.Storage.Objects.{reverse, digits_back, itoa}

digits-append : (fuel n : ℕ) (acc t : List ℕ) → digits fuel n acc ++ t ≡ digits fuel n (acc ++ t)
unfolding digits
digits-append zero n acc t = refl
digits-append (suc fuel) n acc t = elim (Bool-cases (ltb n 10)) [
  | inl e ↦ rw e refl
  | inr e ↦ rw e (digits-append fuel (n / 10) ((48 + n % 10) ∷ acc) t)
]

value_of-digit :
    (acc d : ℕ) (s : List ℕ) → d < 10 → value_of acc ((48 + d) ∷ s) ≡ value_of (acc * 10 + d) s
unfolding value_of
value_of-digit acc d s h =
    let e : is_digit (48 + d) ≡ true = ground arith in
    let f : 48 + d - 48 ≡ d = omega arith in rw (e, f) refl

value_of-digits :
    (fuel n : ℕ) (acc : List ℕ)
    → n < 10 ^ suc fuel
    → value_of 0 (digits (suc fuel) n acc) ≡ value_of n acc
unfolding digits
value_of-digits zero n acc h =
    let small : n < 10 = omega arith in
    let e : ltb n 10 ≡ true = ground arith in
    rw e (value_of-digit 0 n acc small ∙ ap (λ m. value_of m acc) (omega arith))
value_of-digits (suc fuel) n acc h = elim (Bool-cases (ltb n 10)) [
  | inl e ↦
      let small : n < 10 = ground arith in
      rw e (value_of-digit 0 n acc small ∙ ap (λ m. value_of m acc) (omega arith))
  | inr e ↦
      let p : 10 ^ suc (suc fuel) ≡ 10 ^ suc fuel * 10 = pow-suc 10 (suc fuel) in
      let less : n / 10 < 10 ^ suc fuel = omega arith in
      rw e (
        value_of-digits fuel (n / 10) ((48 + n % 10) ∷ acc) less
        ∙ value_of-digit (n / 10) (n % 10) acc (omega arith)
        ∙ ap (λ m. value_of m acc) (omega arith))
]

-- The first digit.
digits_head :
    (fuel n : ℕ) (acc : List ℕ)
    → (d : ℕ) × (t : List ℕ) × (digits (suc fuel) n acc ≡ (48 + d) ∷ t) × (d < 10)
unfolding digits
digits_head zero n acc = elim (Bool-cases (ltb n 10)) [
  | inl e ↦ (n, acc, rw e refl, ground arith)
  | inr e ↦ (n % 10, acc, rw e refl, omega arith)
]
digits_head (suc fuel) n acc = elim (Bool-cases (ltb n 10)) [
  | inl e ↦ (n, acc, rw e refl, ground arith)
  | inr e ↦ let (d, t, f, h) = digits_head fuel (n / 10) ((48 + n % 10) ∷ acc) in (d, t, rw e f, h)
]

atoi-digit :
    (d : ℕ) (t : List ℕ) → d < 10 → atoi ((48 + d) ∷ t) ≡ value_of 0 ((48 + d) ∷ t) % 2 ^ 32
unfolding atoi skip_spaces signed_value
atoi-digit d t h =
    let a : is_space (48 + d) ≡ false = ground arith in
    let b : (48 + d == 45) ≡ false = ground arith in
    let c : (48 + d == 43) ≡ false = ground arith in rw a (rw b (rw c refl))

atoi-digits : (n : ℕ) (t : List ℕ) → n < 10 ^ 10 → atoi (digits 10 n t) ≡ value_of n t % 2 ^ 32
atoi-digits n t h =
    let (d, u, e, g) = digits_head 9 n t in
    let v : value_of 0 (digits 10 n t) ≡ value_of n t = value_of-digits 9 n t h in
    rw e (atoi-digit d u g ∙ ap (λ m. m % 2 ^ 32) (rw e at v))

atoi-minus : (s : List ℕ) → atoi (45 ∷ s) ≡ negated (value_of 0 s)
unfolding atoi skip_spaces signed_value
atoi-minus s = refl

-- What `%d` writes is read back, when what follows it begins with no digit.
pub atoi-decimal :
    (n : ℕ) (t : List ℕ) → n < 2 ^ 32 → ((m : ℕ) → value_of m t ≡ m) → atoi (decimal n ++ t) ≡ n
unfolding decimal
atoi-decimal n t h stops = elim (Bool-cases (leb (2 ^ 31) n)) [
  | inr e ↦
      rw (e, digits-append 10 n [] t)
        (atoi-digits n t (omega arith) ∙ ap (λ m. m % 2 ^ 32) (stops n) ∙ (omega arith))
  | inl e ↦
      let big : 2 ^ 31 ≤ n = ground arith in
      rw (e, digits-append 10 (2 ^ 32 - n) [] t)
        (atoi-minus (digits 10 (2 ^ 32 - n) t)
          ∙ ap negated (value_of-digits 9 (2 ^ 32 - n) t (omega arith) ∙ stops (2 ^ 32 - n))
          ∙ (omega arith))
]

reverse-add : (s : List ℕ) (c : ℕ) → reverse (s ++ c ∷ []) ≡ c ∷ reverse s
unfolding reverse
reverse-add [] c = refl
reverse-add (b ∷ s) c = rw (reverse-add s c) refl

digits_back-digits :
    (fuel n : ℕ) (acc : List ℕ)
    → n < 10 ^ suc fuel
    → reverse (digits_back (suc fuel) n) ++ acc ≡ digits (suc fuel) n acc
unfolding digits_back digits reverse
digits_back-digits zero n acc h =
    let small : n < 10 = omega arith in
    let e : ltb n 10 ≡ true = ground arith in
    let f : ltb 0 (n / 10) ≡ false = ground arith in rw (e, f) (ap (λ c. c ∷ acc) (omega arith))
digits_back-digits (suc fuel) n acc h = elim (Bool-cases (ltb n 10)) [
  | inl e ↦
      let small : n < 10 = ground arith in
      let f : ltb 0 (n / 10) ≡ false = ground arith in rw (e, f) (ap (λ c. c ∷ acc) (omega arith))
  | inr e ↦
      let f : ltb 0 (n / 10) ≡ true = ground arith in
      let p : 10 ^ suc (suc fuel) ≡ 10 ^ suc fuel * 10 = pow-suc 10 (suc fuel) in
      let less : n / 10 < 10 ^ suc fuel = omega arith in
      rw (e, f)
        (append_assoc (reverse (digits_back (suc fuel) (n / 10))) ((n % 10 + 48) ∷ []) acc
          ∙ ap (λ c. reverse (digits_back (suc fuel) (n / 10)) ++ c ∷ acc) (omega arith)
          ∙ digits_back-digits fuel (n / 10) ((48 + n % 10) ∷ acc) less)
]

-- `itoa` of the server writes what `%d` of the C library writes.
pub itoa-decimal : (n : ℕ) → n < 2 ^ 32 → itoa n ≡ decimal n
unfolding itoa decimal
itoa-decimal n h = elim (Bool-cases (leb (2 ^ 31) n)) [
  | inl e ↦
      let big : 2 ^ 31 ≤ n = ground arith in
      rw e (
        reverse-add (digits_back 10 (2 ^ 32 - n)) 45
        ∙ ap (λ s. 45 ∷ s)
            (sym (append-nil _) ∙ digits_back-digits 9 (2 ^ 32 - n) [] (omega arith)))
  | inr e ↦
      let small : n < 2 ^ 31 = ground arith in
      rw (e, append-nil (digits_back 10 n))
        (sym (append-nil _) ∙ digits_back-digits 9 n [] (omega arith))
]

-- No number begins with a '.'.
pub decimal_head : (n : ℕ) → (c : ℕ) × (s : List ℕ) × (decimal n ≡ c ∷ s) × ((c == 46) ≡ false)
unfolding decimal
decimal_head n = elim (Bool-cases (leb (2 ^ 31) n)) [
  | inl e ↦ (45, digits 10 (2 ^ 32 - n) [], rw e refl, refl)
  | inr e ↦ let (d, t, f, h) = digits_head 9 n [] in (48 + d, t, rw e f, ground arith)
]

-- ===== src/Kernel/Keyboard/Typed.antt =====
-- `parseKey` of the keys with letters and digits, against what stands on them.
use so_tpe.Prelude.{
  ℕ, ◌+◌, ◌≡◌, ◌≢◌, ◌<◌, refl, ◌∙◌, Bool, true, false, inl, inr, Bool-cases, List, [], ◌∷◌, ◌++◌,
  arith, ◌==◌, leb, ltb, ◌&&◌, ◌||◌, not, if◌then◌else◌, ltb→lt, get_or, All, map,
}
use so_tpe.Kernel.Task.{null}
use so_tpe.Kernel.Keyboard.{
  Lang, Keyboard, Console, set_keyboard, get_foreground_tty, get_keyboard, set_key_type,
  set_key_ascii, key_type, key_ascii, key_code, on_key, ascii_of, KeyType, parse_key,
}
use so_tpe.Kernel.Keyboard.Tables.{
  e_lowercase, e_uppercase, e_capslowercase, e_capsuppercase, s_lowercase, s_uppercase,
  s_capslowercase, s_capsuppercase,
}

-- The keys from scan code `c` on, with what stands on them.
abbrev pub row : ℕ → List ℕ → List (ℕ × ℕ)
row c [] = []
row c (b ∷ bs) = (c, b) ∷ row (c + 1) bs

-- "QWERTYUIOP", "ASDFGHJKL" and "ZXCVBNM"; a small letter is 32 higher.
abbrev letters : ℕ → List (ℕ × ℕ)
letters d =
    row 0x10 (map (λ b. b + d) (81 ∷ 87 ∷ 69 ∷ 82 ∷ 84 ∷ 89 ∷ 85 ∷ 73 ∷ 79 ∷ 80 ∷ []))
    ++ (row 0x1e (map (λ b. b + d) (65 ∷ 83 ∷ 68 ∷ 70 ∷ 71 ∷ 72 ∷ 74 ∷ 75 ∷ 76 ∷ []))
        ++ row 0x2c (map (λ b. b + d) (90 ∷ 88 ∷ 67 ∷ 86 ∷ 66 ∷ 78 ∷ 77 ∷ [])))

-- "1234567890", and above them "!@#$%^&*()" or, in Spanish, "!"#$%&/()=".
abbrev digits : Lang → Bool → List (ℕ × ℕ)
digits lang false = row 2 (49 ∷ 50 ∷ 51 ∷ 52 ∷ 53 ∷ 54 ∷ 55 ∷ 56 ∷ 57 ∷ 48 ∷ [])
digits Lang.english true = row 2 (33 ∷ 64 ∷ 35 ∷ 36 ∷ 37 ∷ 94 ∷ 38 ∷ 42 ∷ 40 ∷ 41 ∷ [])
digits Lang.spanish true = row 2 (33 ∷ 34 ∷ 35 ∷ 36 ∷ 37 ∷ 38 ∷ 47 ∷ 40 ∷ 41 ∷ 61 ∷ [])

-- Whether letters are capital, by caps lock and shift: in Spanish the two together give small ones.
abbrev pub is_capital : Lang → Bool → Bool → Bool
is_capital Lang.english caps shift = caps || shift
is_capital Lang.spanish caps shift = caps && not shift || not caps && shift

-- What a keyboard writes, key by key.
abbrev pub legends : Keyboard → List (ℕ × ℕ)
legends kb =
    letters (if is_capital kb.lang kb.caps_state kb.shift_state then 0 else 32)
    ++ digits kb.lang kb.shift_state

-- A key that is no control key, below 0x38 and not the dead key.
abbrev is_typed : ℕ → Bool
is_typed c = ltb c 0x38 && not (c == 0x1a) && not (c == 0x1d) && not (c == 0x2a) && not (c == 0x36)

-- A table has these entries, all of keys that are typed.
abbrev agrees : List ℕ → List (ℕ × ℕ) → Bool
agrees table [] = true
agrees table ((c, b) ∷ ps) =
    is_typed c && ((get_or table c 0 == b) && (ltb b 256 && agrees table ps))

both : (a b : Bool) → (a && b) ≡ true → (a ≡ true) × (b ≡ true)
both true true e = (refl, refl)
both true false e = absurd cc
both false b e = absurd cc

==→≡ : (a b : ℕ) → (a == b) ≡ true → a ≡ b
==→≡ a b e = ground arith

-- The same of a key under the test that it is typed and the byte that `ascii_of` gives.
Types : Keyboard → ℕ × ℕ → Type 0
Types kb (c, b) = (is_typed c ≡ true) × (ascii_of kb c ≡ b) × (b < 256)

types :
    (kb : Keyboard) (table : List ℕ) (ps : List (ℕ × ℕ))
    → ((c : ℕ) → ascii_of kb c ≡ get_or table c 0)
    → agrees table ps ≡ true
    → All (Types kb) ps
unfolding Types
types kb table [] e h = tt
types kb table ((c, b) ∷ ps) e h =
    let (t, r) = both _ _ h in
    let (g, r') = both _ _ r in
    let (w, more) = both _ _ r' in
    ((t, e c ∙ ==→≡ (get_or table c 0) b g, ltb→lt b 256 w), types kb table ps e more)

-- The table that each state of the keyboard reads has the entries that stand on the keys.
tables_of :
    (lang : Lang) (caps shift : Bool) (kb : Keyboard)
    → kb.lang ≡ lang
    → kb.caps_state ≡ caps
    → kb.shift_state ≡ shift
    → kb.dead_key ≡ false
    → All (Types kb) (letters (if is_capital lang caps shift then 0 else 32) ++ digits lang shift)
unfolding ascii_of
tables_of Lang.english true true kb e f g d =
    types kb e_capsuppercase (letters 0 ++ digits Lang.english true) (λ c. rw (e, f, g) refl) refl
tables_of Lang.english true false kb e f g d =
    types kb e_capslowercase (letters 0 ++ digits Lang.english false) (λ c. rw (e, f, g) refl) refl
tables_of Lang.english false true kb e f g d =
    types kb e_uppercase (letters 0 ++ digits Lang.english true) (λ c. rw (e, f, g) refl) refl
tables_of Lang.english false false kb e f g d =
    types kb e_lowercase (letters 32 ++ digits Lang.english false) (λ c. rw (e, f, g) refl) refl
tables_of Lang.spanish true true kb e f g d =
    types kb s_capsuppercase (letters 32 ++ digits Lang.spanish true) (λ c. rw (e, f, g, d) refl)
      refl
tables_of Lang.spanish true false kb e f g d =
    types kb s_capslowercase (letters 0 ++ digits Lang.spanish false) (λ c. rw (e, f, g, d) refl)
      refl
tables_of Lang.spanish false true kb e f g d =
    types kb s_uppercase (letters 0 ++ digits Lang.spanish true) (λ c. rw (e, f, g, d) refl) refl
tables_of Lang.spanish false false kb e f g d =
    types kb s_lowercase (letters 32 ++ digits Lang.spanish false) (λ c. rw (e, f, g, d) refl) refl

typed_else : (c d : ℕ) → c ≢ d → (c == d) ≡ false
typed_else c d n = ground arith

-- A key that is no control key, below 0x38 and not the dead key.
IsTyped : ℕ → Type 0
IsTyped c = (c < 0x38) × (c ≢ 0x1a) × (c ≢ 0x1d) × (c ≢ 0x2a) × (c ≢ 0x36)

is_typed-IsTyped : (c : ℕ) → is_typed c ≡ true → IsTyped c
unfolding IsTyped
is_typed-IsTyped c e = (ground arith, ground arith, ground arith, ground arith, ground arith)

-- The last case of the `switch`.
abbrev spent : ℕ → ℕ → Console → Console
spent p c s =
    let alphanum = set_key_type KeyType.alphanum_key s in
    let typed = set_key_ascii (ascii_of (alphanum.keyboards p) c) alphanum in
    set_keyboard p (record (typed.keyboards p) { dead_key = false }) typed

on_key_typed : (p c : ℕ) (s : Console) → IsTyped c → on_key p c s ≡ spent p c s
unfolding on_key IsTyped
on_key_typed p c s (lt, n1, n2, n3, n4) = simp (
  typed_else c 0x45 (omega (arith, lt, n1, n2, n3, n4)),
  typed_else c 0x46 (omega (arith, lt, n1, n2, n3, n4)),
  typed_else c 0x2a (omega (arith, lt, n1, n2, n3, n4)),
  typed_else c 0x36 (omega (arith, lt, n1, n2, n3, n4)),
  typed_else c 0xaa (omega (arith, lt, n1, n2, n3, n4)),
  typed_else c 0xb6 (omega (arith, lt, n1, n2, n3, n4)),
  typed_else c 0x3a (omega (arith, lt, n1, n2, n3, n4)),
  typed_else c 0xe0 (omega (arith, lt, n1, n2, n3, n4)),
  typed_else c 0x38 (omega (arith, lt, n1, n2, n3, n4)),
  typed_else c 0xb8 (omega (arith, lt, n1, n2, n3, n4)),
  typed_else c 0x1d (omega (arith, lt, n1, n2, n3, n4)),
  typed_else c 0x9d (omega (arith, lt, n1, n2, n3, n4)),
  typed_else c 0x48 (omega (arith, lt, n1, n2, n3, n4)),
  typed_else c 0x50 (omega (arith, lt, n1, n2, n3, n4)),
  typed_else c 0x4b (omega (arith, lt, n1, n2, n3, n4)),
  typed_else c 0x4d (omega (arith, lt, n1, n2, n3, n4)),
  typed_else c 0x49 (omega (arith, lt, n1, n2, n3, n4)),
  typed_else c 0x51 (omega (arith, lt, n1, n2, n3, n4)),
  typed_else c 0x3b (omega (arith, lt, n1, n2, n3, n4)),
  typed_else c 0x3c (omega (arith, lt, n1, n2, n3, n4)),
  typed_else c 0x3d (omega (arith, lt, n1, n2, n3, n4)),
  typed_else c 0x3e (omega (arith, lt, n1, n2, n3, n4)),
  typed_else c 0x1a (omega (arith, lt, n1, n2, n3, n4)),
  high,
)
  where
    high : leb 0x80 c ≡ false
    high = ground arith

parse_key_run :
    (c : ℕ) (s : Console)
    → get_foreground_tty s.kernel ≢ null
    → s.kernel.current_task ≢ null
    → let p = get_keyboard (get_foreground_tty s.kernel) s.kernel in
      let kb = s.keyboards p in
      parse_key c s ≡ (
        true,
        on_key p c
            (if kb.escaped_key then set_keyboard p (record kb { escaped_key = false }) s else s),
      )
unfolding parse_key
parse_key_run c s fg running = simp (
  typed_else s.kernel.current_task null running,
  typed_else (get_foreground_tty s.kernel) null fg,
)

-- The key's bytes at NULL and the keyboard at `p` do not overlap.
spent_key :
    (p c b : ℕ) (s : Console)
    → p ≢ null
    → ascii_of (s.keyboards p) c ≡ b
    → b < 256
    → let s' = spent p c s in
      (key_type s' ≡ key_code KeyType.alphanum_key)
      × (key_ascii s' ≡ b)
      × ((s'.keyboards p).dead_key ≡ false)
      × ((s'.keyboards p).escaped_key ≡ (s.keyboards p).escaped_key)
spent_key p c b s ne e lt =
    let n1 : (p == null) ≡ false = ground arith in
    let n2 : (null == p) ≡ false = ground arith in
    let self : (p == p) ≡ true = ground arith in
    (
      rw (key_type, n1) refl,
      rw (key_ascii, n1) (rw n2 (rw e (omega (arith, lt)))),
      rw self refl,
      rw self (rw n2 refl),
    )

-- What `parseKey` returns and leaves for a key on which `b` stands.
abbrev pub Writes : Console → ℕ × ℕ → Type 0
Writes s (c, b) =
    let (answer, s') = parse_key c s in
    let p = get_keyboard (get_foreground_tty s.kernel) s.kernel in
    (answer ≡ true)
    × (key_type s' ≡ key_code KeyType.alphanum_key)
    × (key_ascii s' ≡ b)
    × ((s'.keyboards p).dead_key ≡ false)
    × ((s'.keyboards p).escaped_key ≡ false)

parse_key_typed :
    (s : Console) (key : ℕ × ℕ)
    → get_foreground_tty s.kernel ≢ null
    → s.kernel.current_task ≢ null
    → get_keyboard (get_foreground_tty s.kernel) s.kernel ≢ null
    → Types (s.keyboards (get_keyboard (get_foreground_tty s.kernel) s.kernel)) key
    → Writes s key
unfolding Types ascii_of
parse_key_typed s (c, b) fg running ne (t, e, lt) =
    let p = get_keyboard (get_foreground_tty s.kernel) s.kernel in
    let self : (p == p) ≡ true = ground arith in
    let typed = is_typed-IsTyped c t in
    elim (Bool-cases (s.keyboards p).escaped_key) [
      | inl f ↦
          let s1 = set_keyboard p (record (s.keyboards p) { escaped_key = false }) s in
          let k = spent_key p c b s1 ne (rw self e) lt in
          rw (parse_key_run c s fg running, f, on_key_typed p c s1 typed)
            (refl, k.0, k.1, k.2, k.3 ∙ rw self refl)
      | inr f ↦
          let k = spent_key p c b s ne e lt in
          rw (parse_key_run c s fg running, f, on_key_typed p c s typed)
            (refl, k.0, k.1, k.2, k.3 ∙ f)
    ]

All-mono {ℓ κ μ} :
    {A : Type ℓ} {P : A → Type κ} {Q : A → Type μ} (xs : List A)
    → ((x : A) → P x → Q x)
    → All P xs
    → All Q xs
All-mono [] f h = tt
All-mono (x ∷ xs) f (h, hs) = (f x h, All-mono xs f hs)

-- Every key with a letter or a digit, pressed on the terminal in front, whose keyboard does not stand
-- at NULL and has no dead key pending, is an alphanumeric key with the byte that stands on it in the
-- keyboard's language under caps lock and shift (of which both give capitals in English, and only one
-- alone in Spanish), and spends the escape.
pub parse_key-legends :
    (s : Console)
    → get_foreground_tty s.kernel ≢ null
    → s.kernel.current_task ≢ null
    → let p = get_keyboard (get_foreground_tty s.kernel) s.kernel in
      p ≢ null → (s.keyboards p).dead_key ≡ false → All (Writes s) (legends (s.keyboards p))
parse_key-legends s fg running ne d =
    let p = get_keyboard (get_foreground_tty s.kernel) s.kernel in
    let kb = s.keyboards p in
    All-mono (legends kb) (λ key t. parse_key_typed s key fg running ne t)
      (tables_of kb.lang kb.caps_state kb.shift_state kb refl refl refl d)

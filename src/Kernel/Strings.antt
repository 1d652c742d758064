-- ===== src/Kernel/Strings.antt =====
-- TPE3/src/strings.c. Each function sees the memory from its pointers to the end of what may be
-- read, and `none` is a step beyond it. An
-- `int` is its 32-bit pattern, a `char` its 8-bit pattern.
pub mod Laws
use so_tpe.Prelude.{
  ℕ, ◌+◌, ◌-◌, ◌*◌, ◌%◌, ◌^◌, Bool, true, false, Option, none, some, List, [], ◌∷◌, ◌==◌, leb, not,
  ◌&&◌, ◌||◌, if◌then◌else◌, ◌>>=◌,
}

-- The loop goes on while the bytes are equal and not NUL.
unfoldable pub streq : List ℕ → List ℕ → Option Bool
streq [] t = none
streq (a ∷ s) [] = none
streq (a ∷ s) (b ∷ t) =
    let rest = streq s t in
    if a == b
    then (if (a == 0) && (b == 0)
        then some true
        else if (a == 0) && not (b == 0) || not (a == 0) && (b == 0)
        then some false
        else rest)
    else some false

unfoldable pub strlen : List ℕ → Option ℕ
strlen [] = none
strlen (c ∷ str) =
    let rest = strlen str in if c == 0 then some 0 else do i ← rest; some ((i + 1) % 2 ^ 32)

-- What stands at `d` afterwards.
unfoldable pub strcpy : List ℕ → List ℕ → Option (List ℕ)
strcpy [] s = none
strcpy (b ∷ d) [] = none
strcpy (b ∷ d) (c ∷ s) =
    let rest = strcpy d s in if c == 0 then some (0 ∷ d) else do d' ← rest; some (c ∷ d')

-- The loop of `atoi`, with `i` so far.
unfoldable pub atoi_from : ℕ → List ℕ → Option ℕ
atoi_from i [] = none
atoi_from i (c ∷ s) =
    let wide = if leb 128 c then c + 2 ^ 32 - 256 else c in
    let rest = atoi_from ((i * 8 + i * 2 + (wide + 2 ^ 32 - 48)) % 2 ^ 32) s in
    if c == 0 then some i else rest

unfoldable pub atoi : List ℕ → Option ℕ
atoi s = atoi_from 0 s

-- The first place behind `p`, where `s` begins, that holds `c`: the answer may be NULL.
unfoldable pub strtok : ℕ → List ℕ → ℕ → Option (Option ℕ)
strtok p [] c = none
strtok p (a ∷ []) c = if a == 0 then some none else none
strtok p (a ∷ b ∷ s) c =
    let rest = strtok (p + 1) (b ∷ s) c in
    if a == 0 then some none else if b == c then some (some (p + 1)) else rest

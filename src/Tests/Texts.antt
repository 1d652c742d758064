-- ===== src/Tests/Texts.antt =====
-- The string functions on "203".
use so_tpe.Prelude.{Bool, ℕ, ◌≡◌, true, some, List, [], ◌∷◌, arith}
use so_tpe.Kernel.Strings.{streq, strlen, strcpy, atoi}
use so_tpe.Kernel.Strings.Laws.{atoi-value, strcpy-copy, strlen-length, streq-eq}

atoi-value_example : atoi (50 ∷ 48 ∷ 51 ∷ 0 ∷ 7 ∷ []) ≡ some 203
atoi-value_example = atoi-value (2 ∷ 0 ∷ 3 ∷ []) (7 ∷ []) (ground arith)

strcpy-copy_example :
    strcpy (1 ∷ 2 ∷ 3 ∷ 4 ∷ []) (50 ∷ 48 ∷ 0 ∷ 7 ∷ []) ≡ some (50 ∷ 48 ∷ 0 ∷ 4 ∷ [])
strcpy-copy_example =
    strcpy-copy (1 ∷ 2 ∷ 3 ∷ 4 ∷ []) (50 ∷ 48 ∷ []) (7 ∷ []) (ground arith) (omega arith)

strlen-length_example : strlen (50 ∷ 48 ∷ 0 ∷ 7 ∷ []) ≡ some 2
strlen-length_example = strlen-length (50 ∷ 48 ∷ []) (7 ∷ []) (ground arith) (omega arith)

abbrev twenty : List ℕ
twenty = 50 ∷ 48 ∷ []

streq-eq_example :
    (b : Bool) × (streq (65 ∷ 66 ∷ 0 ∷ 7 ∷ []) (65 ∷ 67 ∷ 0 ∷ []) ≡ some b)
    × (b ≡ true → ◌≡◌ {A = List ℕ} (65 ∷ 66 ∷ []) (65 ∷ 67 ∷ []))
    × (◌≡◌ {A = List ℕ} (65 ∷ 66 ∷ []) (65 ∷ 67 ∷ []) → b ≡ true)
streq-eq_example = streq-eq (65 ∷ 66 ∷ []) (65 ∷ 67 ∷ []) (7 ∷ []) [] (ground arith) (ground arith)

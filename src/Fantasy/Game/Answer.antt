-- ===== src/Fantasy/Game/Answer.antt =====
-- The answers as they are built: `createMsg_s` of TPE1/src/server/execute.c, and
-- TPE1/src/utils/printColor.c. `asprintf` writes a number in decimal.
use so_tpe.Prelude.{
  ℕ, zero, suc, ◌+◌, ◌-◌, ◌/◌, ◌%◌, ◌^◌, List, [], ◌∷◌, ◌++◌, ltb, leb, if◌then◌else◌,
}
use so_tpe.Fantasy.Reply.{Reply}
use so_tpe.Fantasy.Game.{Server}
use so_tpe.Fantasy.Game.Text.{codes}

abbrev pub ok_status : ℕ
ok_status = 0

abbrev pub error_status : ℕ
error_status = 1

-- The decimal digits of `n`, before those of `acc`; `fuel` bounds their number.
unfoldable pub digits : ℕ → ℕ → List ℕ → List ℕ
digits zero n acc = acc
digits (suc fuel) n acc =
    let rest = digits fuel (n / 10) ((48 + n % 10) ∷ acc) in
    if ltb n 10 then (48 + n) ∷ acc else rest

-- `%d` of an `int`, which has ten digits at most.
unfoldable pub decimal : ℕ → List ℕ
decimal n = if leb (2 ^ 31) n then 45 ∷ digits 10 (2 ^ 32 - n) [] else digits 10 n []

unfoldable pub create_msg : ℕ → Server → Reply
create_msg type s = record { response_type = type; status = s.stale; msg_list = [] }

-- `AddToList(text, answer->msgList)`.
unfoldable pub say : List ℕ → Reply → Reply
say text r = record r { msg_list = r.msg_list ++ text ∷ [] }

-- "%c[%d;%dm" with the escape character.
unfoldable pub colour : ℕ → ℕ → List ℕ
colour m n = 0x1b ∷ codes "[" ++ decimal m ++ codes ";" ++ decimal n ++ codes "m"

unfoldable pub print_yellow_color : Reply → Reply
print_yellow_color r = say (colour 1 33) r

unfoldable pub print_red_color : Reply → Reply
print_red_color r = say (colour 1 31) r

unfoldable pub print_cyan_color : Reply → Reply
print_cyan_color r = say (colour 1 36) r

unfoldable pub print_green_color : Reply → Reply
print_green_color r = say (colour 1 32) r

unfoldable pub print_green_blink : Reply → Reply
print_green_blink r = say (colour 5 32) r

-- It adds the text twice.
unfoldable pub release_print_color : Reply → Reply
release_print_color r = say (colour 0 37) (say (colour 0 37) r)

-- A line in red or green, as most answers have it.
unfoldable pub in_red : List ℕ → Reply → Reply
in_red text r = release_print_color (say text (print_red_color r))

unfoldable pub in_green : List ℕ → Reply → Reply
in_green text r = release_print_color (say text (print_green_color r))

abbrev pub with_status : ℕ → Reply → Reply
with_status n r = record r { status = n }

-- The whole answer of a refusal, and of a success.
unfoldable pub refusal : ℕ → List ℕ → Server → Reply
refusal type text s = with_status error_status (in_red text (create_msg type s))

unfoldable pub success : ℕ → List ℕ → Server → Reply
success type text s = with_status ok_status (in_green text (create_msg type s))

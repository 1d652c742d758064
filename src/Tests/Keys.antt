-- ===== src/Tests/Keys.antt =====
-- A console whose keyboard in front holds one key, around the end of the ring.
use so_tpe.Prelude.{ℕ, ◌≡◌, ◌≢◌, refl, true, false, none, some, [], ◌∷◌, arith, ◌+◌, All}
use so_tpe.Kernel.Keyboard.{Lang, Keyboard, Console, foreground, insert_key, get_key}
use so_tpe.Kernel.Keyboard.Ring.{HoldsKeys, insert_key-append, insert_key_full, get_key-take}
use so_tpe.Kernel.Keyboard.Typed.{Writes, legends, parse_key-legends}
use so_tpe.Tests.Tasks.{kernel}

abbrev keyboard : ℕ → ℕ → Keyboard
keyboard head tail = record {
  head = head;
  tail = tail;
  shift_state = true;
  ctrl_state = false;
  alt_state = false;
  caps_state = false;
  num_state = false;
  scroll_state = false;
  escaped_key = true;
  dead_key = true;
  lang = Lang.english;
  buffer = λ i. 65 + i;
}

abbrev console : ℕ → ℕ → Console
console head tail = record { kernel = kernel; keyboards = λ a. keyboard head tail }

one_key : HoldsKeys (keyboard 9 0) (74 ∷ [])
one_key = record { inside = omega arith; count = omega arith; ring = ground arith }

nine_keys : HoldsKeys (keyboard 0 9) (65 ∷ 66 ∷ 67 ∷ 68 ∷ 69 ∷ 70 ∷ 71 ∷ 72 ∷ 73 ∷ [])
nine_keys = record { inside = omega arith; count = omega arith; ring = ground arith }

insert_key-append_example :
    (r : ℕ) × (s' : Console) × (insert_key 30 (console 9 0) ≡ some (r, s'))
    × HoldsKeys (foreground s') (74 ∷ 30 ∷ [])
    × (s'.kernel ≡ kernel)
    × ((a : ℕ) → a ≢ 0 → s'.keyboards a ≡ keyboard 9 0)
insert_key-append_example = insert_key-append 30 (console 9 0) (74 ∷ []) refl one_key (omega arith)

insert_key_full_example : insert_key 30 (console 0 9) ≡ some (0, console 0 9)
insert_key_full_example =
    insert_key_full 30 (console 0 9) (65 ∷ 66 ∷ 67 ∷ 68 ∷ 69 ∷ 70 ∷ 71 ∷ 72 ∷ 73 ∷ []) refl
      nine_keys refl

get_key-take_example :
    (s' : Console) × (get_key (λ s. none) (console 9 0) ≡ some (74, s'))
    × HoldsKeys (foreground s') []
    × (s'.kernel ≡ kernel)
    × ((a : ℕ) → a ≢ 0 → s'.keyboards a ≡ keyboard 9 0)
get_key-take_example = get_key-take (λ s. none) (console 9 0) 74 [] refl one_key

-- The task in front has the keyboard at 7.
abbrev typing : Console
typing = record {
  kernel = record kernel { tasks = λ a. record (kernel.tasks a) { keyboard = 7 } };
  keyboards = λ a. record (keyboard 9 0) { dead_key = false };
}

parse_key-legends_example :
    All (Writes typing) (legends (record (keyboard 9 0) { dead_key = false }))
parse_key-legends_example = parse_key-legends typing (omega arith) (omega arith) (omega arith) refl

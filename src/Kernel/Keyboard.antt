-- ===== src/Kernel/Keyboard.antt =====
-- TPE3/src/drivers/keyboard.c: the ring of keys of each terminal, and the scan codes.
--
-- A `char` is its 8-bit pattern. `keyboards` are the structures behind the pointers to keyboards.
-- `key` is NULL for good, and page 0 is mapped: `*key` is the first bytes of what stands at NULL,
-- where a keyboard has its `head` and its `tail`. Two keyboards do not overlap otherwise, and a task
-- at NULL is told apart. `none` is a walk through a broken queue of tasks. The header that
-- `changeLang` prints again, and the diodes, are left out.
pub mod Tables
pub mod Ring
pub mod Typed
use so_tpe.Prelude.{
  ℕ, ◌+◌, ◌*◌, ◌/◌, ◌%◌, Bool, true, false, Option, none, some, List, ◌==◌, ltb, leb, not, ◌&&◌,
  ◌||◌, if◌then◌else◌, ◌>>=◌, get_or,
}
use so_tpe.Kernel.Task.{Task, TaskState, null}
use so_tpe.Kernel.Scheduler.{Kernel, is_suspended, suspend_task, unsuspend_task}
use so_tpe.Kernel.Keyboard.Tables.{
  e_lowercase, e_uppercase, e_capslowercase, e_capsuppercase, s_lowercase, s_uppercase,
  s_capslowercase, s_capsuppercase,
}

abbrev pub k_buffer_size : ℕ
k_buffer_size = 10

abbrev pub empty_char : ℕ
empty_char = 0

pub data Lang : Type 0 where
  english spanish : Lang

-- `keyboard_t`; the numbers that hold TRUE or FALSE are Booleans.
pub record Keyboard : Type 0 where
  pub head : ℕ
  pub tail : ℕ
  pub shift_state : Bool
  pub ctrl_state : Bool
  pub alt_state : Bool
  pub caps_state : Bool
  pub num_state : Bool
  pub scroll_state : Bool
  pub escaped_key : Bool
  pub dead_key : Bool
  pub lang : Lang
  pub buffer : ℕ → ℕ

pub data KeyType : Type 0 where
  alphanum_key function_key hidden_key tty_key : KeyType

-- The numbers of these types in TPE3/include/defs.h.
abbrev pub key_code : KeyType → ℕ
key_code KeyType.alphanum_key = 1
key_code KeyType.function_key = 2
key_code KeyType.hidden_key = 3
key_code KeyType.tty_key = 4

pub record Console : Type 0 where
  pub kernel : Kernel
  pub keyboards : ℕ → Keyboard

abbrev pub get_foreground_tty : Kernel → ℕ
get_foreground_tty k = k.foreground_tasks k.foreground_tty

-- The address of a task's keyboard.
abbrev pub get_keyboard : ℕ → Kernel → ℕ
get_keyboard t k = (k.tasks t).keyboard

abbrev pub set_keyboard : ℕ → Keyboard → Console → Console
set_keyboard p v s = record s { keyboards = λ a. if p == a then v else s.keyboards a }

-- `key->keyType`, the word at NULL, and `key->ascii`, the byte behind it.
abbrev pub key_type : Console → ℕ
key_type s = (s.keyboards null).head

abbrev pub key_ascii : Console → ℕ
key_ascii s = (s.keyboards null).tail % 256

abbrev pub set_key_type : KeyType → Console → Console
set_key_type t s = set_keyboard null (record (s.keyboards null) { head = key_code t }) s

abbrev pub set_key_ascii : ℕ → Console → Console
set_key_ascii c s =
    set_keyboard null
      (record (s.keyboards null) { tail = (s.keyboards null).tail / 256 * 256 + c % 256 }) s

abbrev pub foreground : Console → Keyboard
foreground s = s.keyboards (get_keyboard (get_foreground_tty s.kernel) s.kernel)

unfoldable pub buffer_is_full : Console → Bool
buffer_is_full s = (((foreground s).tail + 1) % k_buffer_size) == (foreground s).head

unfoldable pub is_empty_buffer : Console → Bool
is_empty_buffer s = (foreground s).tail == (foreground s).head

-- `keyboard->buffer[keyboard->tail] = c`, and `++tail` with its wrap.
unfoldable pub store : ℕ → Keyboard → Keyboard
store c kb = record kb {
  buffer = λ i. if kb.tail == i then c else kb.buffer i;
  tail = if (kb.tail + 1) == k_buffer_size then 0 else kb.tail + 1;
}

-- `++head` with its wrap.
unfoldable pub advance : Keyboard → Keyboard
advance kb = record kb { head = if (kb.head + 1) == k_buffer_size then 0 else kb.head + 1 }

-- The pointer to the keyboard is read before the task is resumed.
unfoldable pub insert_key : ℕ → Console → Option (ℕ × Console)
insert_key c s = do
  let fg = get_foreground_tty s.kernel
  let p = get_keyboard fg s.kernel
  k ← if is_suspended (s.kernel.tasks fg).state then unsuspend_task fg s.kernel else some s.kernel
  let s1 : Console = record s { kernel = k }
  let kb = s1.keyboards p
  some (
      if buffer_is_full s1
      then (0, s1)
      else (if (kb.tail + 1) == k_buffer_size then c else 0, set_keyboard p (store c kb) s1))

-- `yield` is what happens until the task runs again.
unfoldable pub get_key : (Console → Option Console) → Console → Option (ℕ × Console)
get_key yield s = do
  let t = s.kernel.current_task
  let p = get_keyboard t s.kernel
  let wait : Option Console = do k ← suspend_task t s.kernel; yield (record s { kernel = k })
  s1 ← if is_empty_buffer s then wait else some s
  let kb = s1.keyboards p
  some (
      if is_empty_buffer s1
      then (empty_char, s1)
      else (kb.buffer kb.head, set_keyboard p (advance kb) s1))

unfoldable pub is_printable : ℕ → Bool
is_printable c =
    ltb 1 c && ltb c 29 || ltb 29 c && ltb c 42 || ltb 42 c && ltb c 55 || (c == 86) || (c == 57)

unfoldable pub is_vowel : ℕ → Bool
is_vowel c = (c == 0x12) || (c == 0x1e) || (c == 0x16) || (c == 0x17) || (c == 0x18)

-- Read only for a vowel; elsewhere `ch` has no value, and `other` is what it happens to hold.
unfoldable pub acc_vowel : ℕ → ℕ → ℕ
acc_vowel other c =
    if c == 0x12
    then 0xe9
    else if c == 0x1e
    then 0xe1
    else if c == 0x16
    then 0xfa
    else if c == 0x17
    then 0xed
    else if c == 0x18
    then 0xf3
    else other

abbrev pub other_lang : Lang → Lang
other_lang Lang.english = Lang.spanish
other_lang Lang.spanish = Lang.english

-- Of the running task's keyboard.
unfoldable pub change_lang : Console → Console
change_lang s =
    let p = get_keyboard s.kernel.current_task s.kernel in
    set_keyboard p (record (s.keyboards p) { lang = other_lang (s.keyboards p).lang }) s

-- The byte that an alphanumeric key stands for.
unfoldable pub ascii_of : Keyboard → ℕ → ℕ
ascii_of kb c = elim kb.lang [
  | Lang.english ↦
      if kb.caps_state
      then get_or (if kb.shift_state then e_capsuppercase else e_capslowercase) c 0
      else get_or (if kb.shift_state then e_uppercase else e_lowercase) c 0
  | Lang.spanish ↦
      if kb.caps_state
      then (if kb.dead_key && kb.shift_state && is_vowel c
          then acc_vowel 0 c
          else get_or (if kb.shift_state then s_capsuppercase else s_capslowercase) c 0)
      else (if kb.dead_key && not kb.shift_state && is_vowel c
          then acc_vowel 0 c
          else get_or (if kb.shift_state then s_uppercase else s_lowercase) c 0)
]

abbrev pub is_spanish : Lang → Bool
is_spanish Lang.english = false
is_spanish Lang.spanish = true

-- The `switch` of `parseKey` on the keyboard at `p`.
unfoldable pub on_key : ℕ → ℕ → Console → Console
on_key p c s =
    let kb = s.keyboards p in
    let hide = set_key_type KeyType.hidden_key in
    let shifted = set_keyboard p (record kb { shift_state = true }) s in
    let controlled = set_keyboard p (record kb { ctrl_state = true }) s in
    let alphanum = set_key_type KeyType.alphanum_key s in
    let typed = set_key_ascii (ascii_of (alphanum.keyboards p) c) alphanum in
    let spent = set_keyboard p (record (typed.keyboards p) { dead_key = false }) typed in
    if c == 0x45
    then hide (set_keyboard p (record kb { num_state = not kb.num_state }) s)
    else if c == 0x46
    then hide (set_keyboard p (record kb { scroll_state = not kb.scroll_state }) s)
    else if (c == 0x2a) || (c == 0x36)
    then hide (if kb.ctrl_state then change_lang shifted else shifted)
    else if (c == 0xaa) || (c == 0xb6)
    then hide (set_keyboard p (record kb { shift_state = false }) s)
    else if c == 0x3a
    then hide (set_keyboard p (record kb { caps_state = not kb.caps_state }) s)
    else if c == 0xe0
    then hide (set_keyboard p (record kb { escaped_key = true }) s)
    else if c == 0x38
    then set_keyboard p (record kb { alt_state = true }) s
    else if c == 0xb8
    then set_keyboard p (record kb { alt_state = false }) s
    else if c == 0x1d
    then (if kb.shift_state then change_lang controlled else controlled)
    else if c == 0x9d
    then set_keyboard p (record kb { ctrl_state = false }) s
    else if (c == 0x48) || (c == 0x50) || (c == 0x4b) || (c == 0x4d) || (c == 0x49) || (c == 0x51)
    then set_key_type KeyType.function_key s
    else if (c == 0x3b) || (c == 0x3c) || (c == 0x3d) || (c == 0x3e)
    then set_key_type KeyType.tty_key s
    else if c == 0x1a
    then (if is_spanish kb.lang then set_keyboard p (record kb { dead_key = true }) s else s)
    else if leb 0x80 c
    then hide s
    else spent

-- `c += 256` leaves an `unsigned char` as it is. FALSE is the NULL that is returned early.
unfoldable pub parse_key : ℕ → Console → Bool × Console
parse_key c s =
    let fg = get_foreground_tty s.kernel in
    let p = get_keyboard fg s.kernel in
    let kb = s.keyboards p in
    let s1 = if kb.escaped_key then set_keyboard p (record kb { escaped_key = false }) s else s in
    if (s.kernel.current_task == null) || (fg == null) then (false, s) else (true, on_key p c s1)

-- ===== src/Fantasy/Reply.antt =====
-- The answers of the server, `msg_s` of TPE1/src/includes/message.h, with `serialize_s` and
-- `deserialize_s` of TPE1/src/marshalling/message_serialization.c.
pub mod Roundtrip
use so_tpe.Prelude.{
  ℕ, zero, suc, ◌+◌, ◌*◌, ◌%◌, ◌^◌, Option, some, List, [], ◌∷◌, ◌++◌, length, drop, ltb, ◌>>=◌,
  if◌then◌else◌,
}
use so_tpe.Fantasy.Wire.{
  int_size, Buffer, put_size, put_int, put_string, get_int, get_string, strcpy_into,
}

-- `msgList` holds strings, and its `NumEl` is their number.
pub record Reply : Type 0 where
  pub response_type : ℕ
  pub status : ℕ
  pub msg_list : List (List ℕ)

-- `msgListSize`, the sum of the `sizes[i]`, an `int`.
unfoldable pub msg_list_size : List (List ℕ) → ℕ
msg_list_size [] = 0
msg_list_size (e ∷ es) = (length e + 1 + msg_list_size es) % 2 ^ 32

-- The second `FOR_EACH`.
unfoldable pub put_strings : List (List ℕ) → Buffer → Option Buffer
put_strings [] msg = some msg
put_strings (e ∷ es) msg = put_string e msg >>= put_strings es

unfoldable pub serialize_s : Reply → Option Buffer
serialize_s r = do
  let msg_size = 3 * int_size + msg_list_size r.msg_list
  msg ← put_size msg_size
  msg ← put_int r.response_type msg
  msg ← put_int r.status msg
  msg ← put_int (length r.msg_list) msg
  put_strings r.msg_list msg

-- The loop, with the rounds left; `AddToList` appends.
unfoldable pub get_strings : ℕ → List ℕ → List (List ℕ) → Option (List (List ℕ))
get_strings zero stream l = some l
get_strings (suc n) stream l = do
  source ← get_string stream
  let size = length source + 1
  str ← strcpy_into size source
  get_strings n (drop size stream) (l ++ str ∷ [])

-- An `elemQty` of 2 ^ 31 and above is negative, and the loop makes no round.
unfoldable pub deserialize_s : List ℕ → Option Reply
deserialize_s stream = do
  response_type ← get_int stream
  let stream = drop int_size stream
  status ← get_int stream
  let stream = drop int_size stream
  elem_qty ← get_int stream
  let stream = drop int_size stream
  let rounds = if ltb elem_qty (2 ^ 31) then elem_qty else 0
  l ← get_strings rounds stream []
  some (record { response_type = response_type; status = status; msg_list = l })

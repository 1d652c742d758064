-- ===== src/Tests/Messages.antt =====
-- A trade request, an answer of two strings, and a contact message over named pipes.
use so_tpe.Prelude.{ℕ, ◌≡◌, refl, ◌++◌, some, none, List, [], ◌∷◌, arith}
use so_tpe.Fantasy.Transport.{shmm, fifo_deserialize_contact}
use so_tpe.Fantasy.Transport.Laws.{fifos_overflow}
use so_tpe.Fantasy.Wire.{int_bytes, put_size, put_int, put_string, get_int, get_string, strcpy_into}
use so_tpe.Fantasy.Wire.Frame.{framed}
use so_tpe.Fantasy.Message.Defs.{Message, trade}
use so_tpe.Fantasy.Message.Encode.{serialize_msg, serialize_trade}
use so_tpe.Fantasy.Message.Decode.{deserialize_msg, dispatch, deserialize_trade}
use so_tpe.Fantasy.Message.Roundtrip.{deserialize_msg-serialize_msg}
use so_tpe.Fantasy.Reply.{Reply, serialize_s, deserialize_s}
use so_tpe.Fantasy.Reply.Roundtrip.{deserialize_s-serialize_s}

abbrev messi_for_diego : Message
messi_for_diego = trade (77 ∷ 101 ∷ []) (68 ∷ []) 258

trade_bytes :
    serialize_msg shmm messi_for_diego
    ≡ some (framed (9 ∷ 0 ∷ 0 ∷ 0 ∷ 77 ∷ 101 ∷ 0 ∷ 68 ∷ 0 ∷ 2 ∷ 1 ∷ 0 ∷ 0 ∷ []))
unfolding serialize_msg serialize_trade put_size put_int put_string int_bytes
trade_bytes = refl

trade_read :
    deserialize_msg shmm (9 ∷ 0 ∷ 0 ∷ 0 ∷ 77 ∷ 101 ∷ 0 ∷ 68 ∷ 0 ∷ 2 ∷ 1 ∷ 0 ∷ 0 ∷ [])
    ≡ some messi_for_diego
unfolding deserialize_msg dispatch deserialize_trade get_int get_string strcpy_into
trade_read = refl

deserialize_msg-serialize_msg_example :
    (bytes : List ℕ) × (serialize_msg shmm messi_for_diego ≡ some (framed bytes))
    × ((rest : List ℕ) → deserialize_msg shmm (bytes ++ rest) ≡ some messi_for_diego)
unfolding int_bytes
deserialize_msg-serialize_msg_example =
    deserialize_msg-serialize_msg shmm messi_for_diego (omega arith, omega arith, omega arith)
      (omega arith)

abbrev answer : Reply
answer = record { response_type = 2; status = 0; msg_list = (79 ∷ 75 ∷ []) ∷ [] ∷ [] }

deserialize_s-serialize_s_example :
    (bytes : List ℕ) × (serialize_s answer ≡ some (framed bytes))
    × ((rest : List ℕ) → deserialize_s (bytes ++ rest) ≡ some answer)
unfolding int_bytes
deserialize_s-serialize_s_example = deserialize_s-serialize_s answer (record {
  type_fits = omega arith;
  status_fits = omega arith;
  few = omega arith;
  strings = omega arith;
  small = omega arith;
})

fifos_overflow_example : fifo_deserialize_contact (47 ∷ 116 ∷ 0 ∷ []) ≡ none
fifos_overflow_example = fifos_overflow (47 ∷ 116 ∷ 0 ∷ [])

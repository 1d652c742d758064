-- ===== src/Fantasy/Reply/Roundtrip.antt =====
-- An answer that is sent is the answer that arrives.
use so_tpe.Prelude.{
  ℕ, ◌%◌, ◌^◌, ◌<◌, ◌≡◌, refl, some, List, [], ◌∷◌, ◌++◌, arith, append_assoc, append-nil, length,
  length-append, All, lt→ltb,
}
use so_tpe.Fantasy.Wire.{
  int_mod, int_bytes, IsString, terminated, terminated-append, length-terminated, get_int-int_bytes,
  drop-int_bytes, length-int_bytes, get_string-append, drop-append, strcpy_into-fits,
}
use so_tpe.Fantasy.Wire.Frame.{
  framed, Writes, put_int-Writes, put_string-Writes, Writes-append, Writes-framed,
}
use so_tpe.Fantasy.Reply.{
  Reply, msg_list_size, put_strings, serialize_s, get_strings, deserialize_s,
}

-- The strings of an answer, each with its NUL.
abbrev pub texts : List (List ℕ) → List ℕ
texts [] = []
texts (e ∷ es) = terminated e ++ texts es

abbrev pub body : Reply → List ℕ
body r =
    int_bytes r.response_type
    ++ (int_bytes r.status ++ (int_bytes (length r.msg_list) ++ texts r.msg_list))

-- Numbers of 32 bits, C strings, and less than 2 GB in all.
pub record Fits (r : Reply) : Type 0 where
  pub type_fits : r.response_type < int_mod
  pub status_fits : r.status < int_mod
  pub few : length r.msg_list < 2 ^ 31
  pub strings : All IsString r.msg_list
  pub small : length (body r) < 2 ^ 31

length-texts : (es : List (List ℕ)) → length (texts es) % 2 ^ 32 ≡ msg_list_size es
unfolding msg_list_size
length-texts [] = refl
length-texts (e ∷ es) =
    omega (arith, length-append (terminated e) (texts es), length-terminated e, length-texts es)

put_strings-Writes : (es : List (List ℕ)) → Writes (put_strings es) (texts es)
unfolding put_strings
put_strings-Writes [] = record { runs = λ w m r e. ground (arith, append-nil w) }
put_strings-Writes (e ∷ es) = Writes-append (put_string-Writes e) (put_strings-Writes es)

get_strings-texts :
    (es l : List (List ℕ)) (rest : List ℕ)
    → All IsString es
    → get_strings (length es) (texts es ++ rest) l ≡ some (l ++ es)
unfolding get_strings
get_strings-texts [] l rest h = rw append-nil
get_strings-texts (e ∷ es) l rest h = rw (
  append_assoc (terminated e) (texts es) rest,
  terminated-append e _,
  get_string-append _ e h.0,
  strcpy_into-fits e,
  drop-append _ e,
  get_strings-texts es (l ++ e ∷ []) rest h.1,
  append_assoc l (e ∷ []) es,
)

serialize_s-framed : (r : Reply) → length (body r) < 2 ^ 31 → serialize_s r ≡ some (framed (body r))
unfolding serialize_s
serialize_s-framed r small =
    Writes-framed _ small
      (omega (
        arith,
        length-append (int_bytes r.response_type)
            (int_bytes r.status ++ (int_bytes (length r.msg_list) ++ texts r.msg_list)),
        length-append (int_bytes r.status) (int_bytes (length r.msg_list) ++ texts r.msg_list),
        length-append (int_bytes (length r.msg_list)) (texts r.msg_list),
        length-int_bytes r.response_type,
        length-int_bytes r.status,
        length-int_bytes (length r.msg_list),
        length-texts r.msg_list,
      ))
      (Writes-append (put_int-Writes _) (
        Writes-append (put_int-Writes _)
          (Writes-append (put_int-Writes _) (put_strings-Writes r.msg_list))))

deserialize_s-body : (r : Reply) (rest : List ℕ) → Fits r → deserialize_s (body r ++ rest) ≡ some r
unfolding deserialize_s
deserialize_s-body r rest h = rw (
  append_assoc (int_bytes r.response_type) _ rest,
  append_assoc (int_bytes r.status) _ rest,
  append_assoc (int_bytes (length r.msg_list)) _ rest,
  get_int-int_bytes r.response_type _ h.type_fits,
  drop-int_bytes r.response_type,
  get_int-int_bytes r.status _ h.status_fits,
  drop-int_bytes r.status,
  get_int-int_bytes (length r.msg_list) _ (omega (arith, h.few)),
  drop-int_bytes (length r.msg_list),
  lt→ltb _ _ h.few,
  get_strings-texts r.msg_list [] rest h.strings,
)

-- An answer of C strings and of numbers of 32 bits, with less than 2^31 strings and less than 2 GB
-- in all, fills its allocation exactly, behind a size field that counts the bytes after it; and
-- from those bytes, whatever follows them, the same answer is read, the strings in their order.
pub deserialize_s-serialize_s :
    (r : Reply)
    → Fits r
    → (bytes : List ℕ) × (serialize_s r ≡ some (framed bytes))
      × ((rest : List ℕ) → deserialize_s (bytes ++ rest) ≡ some r)
deserialize_s-serialize_s r h =
    (body r, serialize_s-framed r h.small, λ rest. deserialize_s-body r rest h)

-- ===== src/Fantasy/Wire.antt =====
-- The bytes of a message: what TPE1/src/marshalling/message_serialization.c does with `memcpy`,
-- `strcpy`, `strlen` and `malloc`.
--
-- A byte is a number below 256, an `int` its 32 bits, a C string the list of its bytes without
-- the NUL. `malloc` of a size that is not negative succeeds. A write past the allocation and a read past the stream are
-- undefined in C, and `none` here.
pub mod Frame
use so_tpe.Prelude.{
  ℕ, zero, suc, ◌+◌, ◌-◌, ◌*◌, ◌/◌, ◌%◌, ◌^◌, ◌<◌, ◌≡◌, refl, ap, ◌≢◌, Bool, true, false, Option,
  none, some, List, [], ◌∷◌, ◌++◌, arith, leb, ltb, ◌==◌, if◌then◌else◌, ◌>>=◌, All, length,
  length-append, append_assoc, drop,
}

-- `sizeof(int)`
abbrev pub int_size : ℕ
int_size = 4

abbrev pub int_mod : ℕ
int_mod = 2 ^ 32

-- The bytes of an `int`, lowest first.
unfoldable pub int_bytes : ℕ → List ℕ
int_bytes n = n % 256 ∷ n / 256 % 256 ∷ n / 65536 % 256 ∷ n / 16777216 % 256 ∷ []

-- An allocation while it is filled: what stands before the cursor, and the bytes left behind it.
pub record Buffer : Type 0 where
  pub written : List ℕ
  pub room : ℕ

abbrev pub malloc : ℕ → Buffer
malloc n = record { written = []; room = n }

-- `memcpy(msgstraux, &n, sizeof(int)); msgstraux += sizeof(int);`
unfoldable pub put_int : ℕ → Buffer → Option Buffer
put_int n b =
    if leb int_size b.room
    then some (record { written = b.written ++ int_bytes n; room = b.room - int_size })
    else none

-- The size field, `msgSize`, an `int` that the sum `n` wraps into, at the head of an allocation of
-- `msgSize + sizeof(int)` bytes: a negative one asks for more than there is, and the field is written
-- through NULL.
unfoldable pub put_size : ℕ → Option Buffer
put_size n =
    let msg_size = n % int_mod in
    if ltb msg_size (2 ^ 31) then put_int msg_size (malloc (msg_size + int_size)) else none

-- `strcpy(msgstraux, s); msgstraux += strlen(s) + 1;`
unfoldable pub put_string : List ℕ → Buffer → Option Buffer
put_string s b =
    if leb (length s + 1) b.room
    then some (record { written = b.written ++ (s ++ 0 ∷ []); room = b.room - (length s + 1) })
    else none

-- `memcpy(&n, stream, sizeof(int))`
unfoldable pub get_int : List ℕ → Option ℕ
get_int (a ∷ b ∷ c ∷ d ∷ rest) = some (a + b * 256 + c * 65536 + d * 16777216)
get_int _ = none

-- The string that a pointer into the stream points at: the bytes before the next NUL.
unfoldable pub get_string : List ℕ → Option (List ℕ)
get_string [] = none
get_string (c ∷ rest) =
    let more = get_string rest in if c == 0 then some [] else (more >>= λ s. some (c ∷ s))

-- `strcpy(malloc(n), s)`
unfoldable pub strcpy_into : ℕ → List ℕ → Option (List ℕ)
strcpy_into n s = if leb (length s + 1) n then some s else none

-- What a C string holds.
abbrev pub IsString : List ℕ → Type 0
IsString s = All (λ c. (c ≢ 0) × (c < 256)) s

-- A C string in memory.
abbrev pub terminated : List ℕ → List ℕ
terminated s = s ++ 0 ∷ []

pub length-terminated : (s : List ℕ) → length (terminated s) ≡ length s + 1
length-terminated s = length-append s (0 ∷ [])

module _ (s rest : List ℕ) where
  pub terminated-append : terminated s ++ rest ≡ s ++ 0 ∷ rest
  terminated-append = append_assoc s (0 ∷ []) rest

pub get_int-int_bytes :
    (n : ℕ) (rest : List ℕ) → n < int_mod → get_int (int_bytes n ++ rest) ≡ some n
unfolding get_int int_bytes
get_int-int_bytes n rest h = ap some (omega arith)

pub drop-int_bytes : (n : ℕ) (rest : List ℕ) → drop int_size (int_bytes n ++ rest) ≡ rest
unfolding int_bytes
drop-int_bytes n rest = refl

pub length-int_bytes : (n : ℕ) → length (int_bytes n) ≡ int_size
unfolding int_bytes
length-int_bytes n = refl

module _ (rest : List ℕ) where
  pub get_string-append : (s : List ℕ) → IsString s → get_string (s ++ 0 ∷ rest) ≡ some s
  unfolding get_string
  get_string-append [] h = refl
  get_string-append (c ∷ s) h = ground (arith, get_string-append s h.1)

  pub drop-append : (s : List ℕ) → drop (length s + 1) (s ++ 0 ∷ rest) ≡ rest
  drop-append [] = refl
  drop-append (c ∷ s) =
      let e : length (c ∷ s) + 1 ≡ suc (length s + 1) = omega arith in rw e (drop-append s)

pub strcpy_into-fits : (s : List ℕ) → strcpy_into (length s + 1) s ≡ some s
unfolding strcpy_into
strcpy_into-fits s = ground arith

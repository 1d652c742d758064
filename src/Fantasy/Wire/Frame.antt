-- ===== src/Fantasy/Wire/Frame.antt =====
-- What the calls of `put_int` and `put_string` of a `serialize_*` function leave behind.
use so_tpe.Prelude.{
  ℕ, ◌+◌, ◌%◌, ◌^◌, ◌<◌, ltb, true, ◌≡◌, Option, some, List, [], ◌∷◌, ◌++◌, arith, refl, ap, ◌∙◌,
  append_assoc, length, ◌>>=◌, length-append,
}
use so_tpe.Fantasy.Wire.{
  int_mod, int_bytes, length-int_bytes, Buffer, put_size, put_int, put_string,
}

abbrev pub filled : List ℕ → ℕ → Buffer
filled w r = record { written = w; room = r }

-- A step that fits, and appends these bytes.
pub record Writes (put : Buffer → Option Buffer) (bs : List ℕ) : Type 0 where
  pub runs :
      (w : List ℕ) (m r : ℕ) → m ≡ length bs + r → put (filled w m) ≡ some (filled (w ++ bs) r)

pub put_int-Writes : (n : ℕ) → Writes (put_int n) (int_bytes n)
unfolding put_int
put_int-Writes n = record { runs = λ w m r e. ground (arith, length-int_bytes n) }

pub put_string-Writes : (s : List ℕ) → Writes (put_string s) (s ++ 0 ∷ [])
unfolding put_string
put_string-Writes s = record { runs = λ w m r e. ground (arith, length-append s (0 ∷ [])) }

module _ {more : Buffer → Option Buffer} {bs : List ℕ} where
  pub Writes-append :
      {put : Buffer → Option Buffer} {xs : List ℕ}
      → Writes put xs
      → Writes more bs
      → Writes (λ b. put b >>= more) (xs ++ bs)
  Writes-append {put} {xs} h k = record {
    runs = λ w m r e.
        let n : m ≡ length xs + (length bs + r) = omega (arith, length-append xs bs) in
        ap (λ o. o >>= more) (h.runs w m (length bs + r) n)
        ∙ (k.runs (w ++ xs) _ r refl ∙ ap (λ v. some (filled v r)) (append_assoc w xs bs));
  }

-- A full allocation whose size field counts the bytes behind it.
abbrev pub framed : List ℕ → Buffer
framed body = filled (int_bytes (length body) ++ body) 0

pub Writes-framed :
    {more : Buffer → Option Buffer} {bs : List ℕ} (size : ℕ)
    → length bs < 2 ^ 31
    → size % int_mod ≡ length bs
    → Writes more bs
    → (put_size size >>= more) ≡ some (framed bs)
unfolding put_size
Writes-framed {more} {bs} size small e h =
    let positive : ltb (length bs) (2 ^ 31) ≡ true = ground arith in
    rw (e, positive)
      ((Writes-append (put_int-Writes (length bs)) h).runs [] _ 0
        (omega (arith, length-append (int_bytes (length bs)) bs, length-int_bytes (length bs))))

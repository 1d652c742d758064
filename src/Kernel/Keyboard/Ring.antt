-- ===== src/Kernel/Keyboard/Ring.antt =====
-- `insertKey` and `getKey` against a list of keys.
use so_tpe.Prelude.{
  ℕ, ◌+◌, ◌%◌, ◌<◌, ◌≡◌, refl, ◌∙◌, ◌≢◌, true, false, Option, some, List, [], ◌∷◌, ◌++◌, arith,
  ◌==◌, if◌then◌else◌, length, length-append,
}
use so_tpe.Kernel.Scheduler.{is_suspended}
use so_tpe.Kernel.Keyboard.{
  Keyboard, Console, k_buffer_size, get_foreground_tty, get_keyboard, foreground, set_keyboard,
  store, advance, insert_key, get_key, buffer_is_full, is_empty_buffer,
}

-- The index after `i`.
abbrev next : ℕ → ℕ
next i = if (i + 1) == k_buffer_size then 0 else i + 1

-- From `h` up to `t`, around the end, stand `xs`.
abbrev pub Ring : (ℕ → ℕ) → ℕ → ℕ → List ℕ → Type 0
Ring b h t [] = h ≡ t
Ring b h t (x ∷ xs) = (b h ≡ x) × Ring b (next h) t xs

-- The keyboard holds the keys `xs`, the oldest first.
pub record HoldsKeys (kb : Keyboard) (xs : List ℕ) : Type 0 where
  pub inside : kb.head < k_buffer_size
  pub count : length xs < k_buffer_size
  pub ring : Ring kb.buffer kb.head kb.tail xs

next_inside : (i : ℕ) → i < k_buffer_size → next i < k_buffer_size
next_inside i lt = ground arith

Ring-tail :
    (b : ℕ → ℕ) (h t : ℕ) (xs : List ℕ)
    → h < k_buffer_size
    → Ring b h t xs
    → t ≡ (h + length xs) % k_buffer_size
Ring-tail b h t [] lt r = omega (arith, r)
Ring-tail b h t (x ∷ xs) lt r = ground (arith, Ring-tail b (next h) t xs (next_inside h lt) r.1)

Ring-write :
    (b : ℕ → ℕ) (h t c : ℕ) (xs : List ℕ)
    → h < k_buffer_size
    → length xs < k_buffer_size
    → Ring b h t xs
    → Ring (λ i. if t == i then c else b i) h t xs
Ring-write b h t c [] lt n r = r
Ring-write b h t c (x ∷ xs) lt n r = (
  ground (arith, Ring-tail b h t (x ∷ xs) lt r),
  Ring-write b (next h) t c xs (next_inside h lt) (omega (arith, n)) r.1,
)

Ring-snoc :
    (b : ℕ → ℕ) (h t c : ℕ) (xs : List ℕ)
    → b t ≡ c
    → Ring b h t xs
    → Ring b h (next t) (xs ++ c ∷ [])
Ring-snoc b h t c [] e r = (ground arith, ground arith)
Ring-snoc b h t c (x ∷ xs) e r = (r.0, Ring-snoc b (next h) t c xs e r.1)

store-HoldsKeys :
    (c : ℕ) (kb : Keyboard) (xs : List ℕ)
    → HoldsKeys kb xs
    → length xs + 1 < k_buffer_size
    → HoldsKeys (store c kb) (xs ++ c ∷ [])
unfolding store
store-HoldsKeys c kb xs r n = record {
  inside = r.inside;
  count = omega (arith, length-append xs (c ∷ []), n);
  ring =
      Ring-snoc _ kb.head kb.tail c xs (ground arith)
        (Ring-write kb.buffer kb.head kb.tail c xs r.inside r.count r.ring);
}

advance-HoldsKeys :
    (kb : Keyboard) (x : ℕ) (xs : List ℕ)
    → HoldsKeys kb (x ∷ xs)
    → (kb.buffer kb.head ≡ x) × HoldsKeys (advance kb) xs
unfolding advance
advance-HoldsKeys kb x xs r = (
  r.ring.0,
  record { inside = next_inside kb.head r.inside; count = omega (arith, r.count); ring = r.ring.1 },
)

-- The tests on the ring count its keys.
pub buffer_is_full-HoldsKeys :
    (s : Console) (xs : List ℕ)
    → HoldsKeys (foreground s) xs
    → buffer_is_full s ≡ (length xs + 1 == k_buffer_size)
unfolding buffer_is_full
buffer_is_full-HoldsKeys s xs r = ground (
  arith,
  Ring-tail (foreground s).buffer (foreground s).head (foreground s).tail xs r.inside r.ring,
  r.inside,
  r.count,
)

pub is_empty_buffer-HoldsKeys :
    (s : Console) (xs : List ℕ) → HoldsKeys (foreground s) xs → is_empty_buffer s ≡ (length xs == 0)
unfolding is_empty_buffer
is_empty_buffer-HoldsKeys s xs r = ground (
  arith,
  Ring-tail (foreground s).buffer (foreground s).head (foreground s).tail xs r.inside r.ring,
  r.inside,
  r.count,
)

not_suspended_insert :
    (c : ℕ) (s : Console)
    → is_suspended (s.kernel.tasks (get_foreground_tty s.kernel)).state ≡ false
    → buffer_is_full s ≡ false
    → let p = get_keyboard (get_foreground_tty s.kernel) s.kernel in
      let kb = s.keyboards p in
      insert_key c s
      ≡ some (if (kb.tail + 1) == k_buffer_size then c else 0, set_keyboard p (store c kb) s)
unfolding insert_key buffer_is_full store
not_suspended_insert c s e f = simp (e, f)

-- A key for the terminal in front, whose task is not suspended and whose ring holds the keys `xs`
-- and has room for one more, goes behind them; the tasks and the other keyboards stay.
pub insert_key-append :
    (c : ℕ) (s : Console) (xs : List ℕ)
    → is_suspended (s.kernel.tasks (get_foreground_tty s.kernel)).state ≡ false
    → HoldsKeys (foreground s) xs
    → length xs + 1 < k_buffer_size
    → (r : ℕ) × (s' : Console) × (insert_key c s ≡ some (r, s'))
      × HoldsKeys (foreground s') (xs ++ c ∷ [])
      × (s'.kernel ≡ s.kernel)
      × ((a : ℕ)
          → a ≢ get_keyboard (get_foreground_tty s.kernel) s.kernel
          → s'.keyboards a ≡ s.keyboards a)
insert_key-append c s xs e r n =
    let p = get_keyboard (get_foreground_tty s.kernel) s.kernel in
    let room : buffer_is_full s ≡ false = buffer_is_full-HoldsKeys s xs r ∙ ground arith in
    let self : (p == p) ≡ true = ground arith in
    (
      _,
      _,
      not_suspended_insert c s e room,
      rw self (store-HoldsKeys c (foreground s) xs r n),
      refl,
      λ a ne. ground arith,
    )

-- While the task in front is not suspended and its ring holds nine keys, a further key is dropped,
-- and nothing changes.
pub insert_key_full :
    (c : ℕ) (s : Console) (xs : List ℕ)
    → is_suspended (s.kernel.tasks (get_foreground_tty s.kernel)).state ≡ false
    → HoldsKeys (foreground s) xs
    → length xs + 1 ≡ k_buffer_size
    → insert_key c s ≡ some (0, s)
unfolding insert_key buffer_is_full
insert_key_full c s xs e r n =
    let full : buffer_is_full s ≡ true = buffer_is_full-HoldsKeys s xs r ∙ ground arith in
    simp (e, full)

get_key_waiting :
    (yield : Console → Option Console) (s : Console)
    → is_empty_buffer s ≡ false
    → let p = get_keyboard s.kernel.current_task s.kernel in
      let kb = s.keyboards p in
      get_key yield s ≡ some (kb.buffer kb.head, set_keyboard p (advance kb) s)
unfolding get_key
get_key_waiting yield s e = simp e

-- The running task, when it uses the keyboard of the terminal in front and that ring holds `x` and
-- then `xs`, gets `x` without waiting; the ring holds `xs` afterwards, and the tasks and the other
-- keyboards stay.
pub get_key-take :
    (yield : Console → Option Console) (s : Console) (x : ℕ) (xs : List ℕ)
    → get_keyboard s.kernel.current_task s.kernel
      ≡ get_keyboard (get_foreground_tty s.kernel) s.kernel
    → HoldsKeys (foreground s) (x ∷ xs)
    → (s' : Console) × (get_key yield s ≡ some (x, s'))
      × HoldsKeys (foreground s') xs
      × (s'.kernel ≡ s.kernel)
      × ((a : ℕ)
          → a ≢ get_keyboard (get_foreground_tty s.kernel) s.kernel
          → s'.keyboards a ≡ s.keyboards a)
get_key-take yield s x xs mine r =
    let p = get_keyboard (get_foreground_tty s.kernel) s.kernel in
    let more : is_empty_buffer s ≡ false = is_empty_buffer-HoldsKeys s (x ∷ xs) r ∙ ground arith in
    let self : (p == p) ≡ true = ground arith in
    let (first, rest) = advance-HoldsKeys (foreground s) x xs r in
    (
      set_keyboard p (advance (foreground s)) s,
      get_key_waiting yield s more ∙ rw (mine, first),
      rw self rest,
      refl,
      λ a ne. ground arith,
    )

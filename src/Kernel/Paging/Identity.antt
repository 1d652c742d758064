-- ===== src/Kernel/Paging/Identity.antt =====
-- What the tables hold after `initpages`, and after one page is made absent or present.
use so_tpe.Prelude.{
  ℕ, zero, suc, ◌+◌, ◌*◌, ◌%◌, ◌^◌, ◌<◌, ◌≤◌, ◌≡◌, refl, ap, ◌∙◌, ◌≢◌, ◌⊎◌, inl, inr, arith, ◌==◌,
  ltb, if◌then◌else◌, Bool-cases,
}
use so_tpe.Kernel.Paging.{
  Memory, cr3, max_page_size, present, absent, setup_descr_page, map_directory, map_pages,
  cant_pages, cant_dir, initpages, descriptor_of, present_page_number, absent_page_number,
}

-- From 0, the pages of the tables stand one behind the other.
descriptor_of_flat :
    (page : ℕ) → page < 2 ^ 20 → descriptor_of page ≡ cr3 + max_page_size + 4 * page
unfolding descriptor_of
descriptor_of_flat page small = omega arith

setup_at :
    (item v : ℕ) (mem : Memory)
    → v % 4 ≡ 0
    → (present item (setup_descr_page item v mem) item ≡ v + 3)
      × (setup_descr_page item v mem item ≡ v + 3)
unfolding present setup_descr_page
setup_at item v mem e = ground arith

setup_elsewhere :
    (item v a : ℕ) (mem : Memory)
    → item ≢ a
    → (present item (setup_descr_page item v mem) a ≡ mem a)
      × (setup_descr_page item v mem a ≡ mem a)
unfolding present setup_descr_page
setup_elsewhere item v a mem ne = ground arith

-- The loops write at the entries from `i` up to `i + n`.
map_directory_elsewhere :
    (n i a : ℕ) (mem : Memory)
    → (a < cr3 + 4 * i) ⊎ (cr3 + 4 * (i + n) ≤ a)
    → map_directory n i mem a ≡ mem a
unfolding map_directory
map_directory_elsewhere zero i a mem out = refl
map_directory_elsewhere (suc n) i a mem out =
    map_directory_elsewhere n (i + 1) a _ (omega (arith, out))
    ∙ (setup_elsewhere (cr3 + 4 * i) _ a mem (omega (arith, out))).0

map_directory_entry :
    (n i j : ℕ) (mem : Memory)
    → i ≤ j
    → j < i + n
    → j < 1024 * 512
    → map_directory n i mem (cr3 + 4 * j) ≡ cr3 + max_page_size * (j + 1) + 3
unfolding map_directory
map_directory_entry zero i j mem lo hi b = absurd (omega (arith, lo, hi))
map_directory_entry (suc n) i j mem lo hi b = elim (Bool-cases (i == j)) [
  | inl e ↦
      let same : i ≡ j = ground arith in
      let fits : i < 1024 * 512 = omega (arith, same, b) in
      let v = (cr3 + max_page_size + i * max_page_size) % 2 ^ 32 in
      let value : v ≡ cr3 + max_page_size * (i + 1) = omega (arith, fits) in
      rw (← same) (
        map_directory_elsewhere n (i + 1) (cr3 + 4 * i) _ (inl (omega arith))
        ∙ ((setup_at (cr3 + 4 * i) v mem (omega arith)).0 ∙ ap (λ x. x + 3) value))
  | inr e ↦ map_directory_entry n (i + 1) j _ (ground arith) (omega (arith, hi)) b
]

page_step :
    (i d : ℕ) (mem : Memory)
    → let item = cr3 + max_page_size + 4 * i in
      let mem1 = setup_descr_page item (i * max_page_size % 2 ^ 32) mem in
      let mem2 : Memory = if ltb i (512 + d + 1) then present item mem1 else mem1 in
      (mem2 item ≡ i * max_page_size % 2 ^ 32 + 3) × ((a : ℕ) → item ≢ a → mem2 a ≡ mem a)
page_step i d mem =
    let item = cr3 + max_page_size + 4 * i in
    let v = i * max_page_size % 2 ^ 32 in
    let at = setup_at item v mem (omega arith) in
    elim (Bool-cases (ltb i (512 + d + 1))) [
      | inl e ↦ rw e (at.0, λ a ne. (setup_elsewhere item v a mem ne).0)
      | inr e ↦ rw e (at.1, λ a ne. (setup_elsewhere item v a mem ne).1)
    ]

map_pages_elsewhere :
    (n i d a : ℕ) (mem : Memory)
    → (a < cr3 + max_page_size + 4 * i) ⊎ (cr3 + max_page_size + 4 * (i + n) ≤ a)
    → map_pages n i d mem a ≡ mem a
unfolding map_pages
map_pages_elsewhere zero i d a mem out = refl
map_pages_elsewhere (suc n) i d a mem out =
    map_pages_elsewhere n (i + 1) d a _ (omega (arith, out))
    ∙ (page_step i d mem).1 a (omega (arith, out))

map_pages_entry :
    (n i d j : ℕ) (mem : Memory)
    → i ≤ j
    → j < i + n
    → j < 1024 * 512
    → map_pages n i d mem (cr3 + max_page_size + 4 * j) ≡ max_page_size * j + 3
unfolding map_pages
map_pages_entry zero i d j mem lo hi b = absurd (omega (arith, lo, hi))
map_pages_entry (suc n) i d j mem lo hi b = elim (Bool-cases (i == j)) [
  | inl e ↦
      let same : i ≡ j = ground arith in
      let fits : i < 1024 * 512 = omega (arith, same, b) in
      let value : i * max_page_size % 2 ^ 32 ≡ max_page_size * i = omega (arith, fits) in
      rw (← same) (
        map_pages_elsewhere n (i + 1) d (cr3 + max_page_size + 4 * i) _ (inl (omega arith))
        ∙ ((page_step i d mem).0 ∙ ap (λ x. x + 3) value))
  | inr e ↦ map_pages_entry n (i + 1) d j _ (ground arith) (omega (arith, hi)) b
]

-- With less than 2 GB of memory, `initpages` maps each page to itself and marks it present, those
-- behind the first megabytes too; each directory entry points to its table and is present; and no
-- other word changes.
pub initpages-identity :
    (fin_mem : ℕ) (mem : Memory)
    → fin_mem < 2 ^ 31
    → let mem' = initpages fin_mem mem in
      ((page : ℕ)
        → page < cant_pages fin_mem
        → mem' (descriptor_of page) ≡ max_page_size * page + 3)
      × ((i : ℕ) → i < cant_dir fin_mem → mem' (cr3 + 4 * i) ≡ cr3 + max_page_size * (i + 1) + 3)
      × ((a : ℕ)
          → (a < cr3)
            ⊎ ((cr3 + 4 * cant_dir fin_mem ≤ a) × (a < cr3 + max_page_size)
                ⊎ (cr3 + max_page_size + 4 * cant_pages fin_mem ≤ a))
          → mem' a ≡ mem a)
unfolding initpages
initpages-identity fin_mem mem small = (
  λ page lt. rw (descriptor_of_flat page (omega (arith, lt, small))) (
      map_pages_entry (cant_pages fin_mem) 0 (cant_dir fin_mem) page _ (omega arith)
        (omega (arith, lt)) (omega (arith, lt, small))),
  λ i lt.
      map_pages_elsewhere (cant_pages fin_mem) 0 (cant_dir fin_mem) (cr3 + 4 * i) _
        (inl (omega (arith, lt, small)))
      ∙ map_directory_entry (cant_dir fin_mem) 0 i mem (omega arith) (omega (arith, lt))
          (omega (arith, lt, small)),
  λ a out.
      map_pages_elsewhere (cant_pages fin_mem) 0 (cant_dir fin_mem) a _ (omega (arith, out, small))
      ∙ map_directory_elsewhere (cant_dir fin_mem) 0 a mem (omega (arith, out, small)),
)

-- For one of the 2^20 pages of 32-bit memory whose descriptor has the two low bits set: making it
-- absent clears these two bits, and changes the descriptor of no other of these pages; making it
-- present again gives back all the memory.
pub present-absent :
    (page : ℕ) (mem : Memory)
    → page < 2 ^ 20
    → mem (descriptor_of page) % 4 ≡ 3
    → let mem1 = absent_page_number page mem in
      (mem1 (descriptor_of page) + 3 ≡ mem (descriptor_of page))
      × ((other : ℕ)
          → other < 2 ^ 20
          → page ≢ other
          → mem1 (descriptor_of other) ≡ mem (descriptor_of other))
      × ((a : ℕ) → present_page_number page mem1 a ≡ mem a)
unfolding present_page_number absent_page_number present absent
present-absent page mem small was = (
  ground (arith, was),
  λ other lt ne. ground (arith, descriptor_of_flat page small, descriptor_of_flat other lt),
  λ a. ground (arith, was),
)

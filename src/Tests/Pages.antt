-- ===== src/Tests/Pages.antt =====
-- Page tables for 8 MB of memory, from memory that is 7 everywhere.
use so_tpe.Prelude.{◌^◌, ℕ, ◌+◌, ◌*◌, ◌<◌, ◌≤◌, ◌≡◌, ◌≢◌, refl, ◌⊎◌, arith}
use so_tpe.Kernel.Paging.{
  Memory, cr3, max_page_size, cant_pages, cant_dir, initpages, descriptor_of, present_page_number,
  absent_page_number,
}
use so_tpe.Kernel.Paging.Identity.{initpages-identity, present-absent}

abbrev memory : Memory
memory a = 7

initpages-identity_example :
    let mem' = initpages 8388608 memory in
    ((page : ℕ) → page < cant_pages 8388608 → mem' (descriptor_of page) ≡ max_page_size * page + 3)
    × ((i : ℕ) → i < cant_dir 8388608 → mem' (cr3 + 4 * i) ≡ cr3 + max_page_size * (i + 1) + 3)
    × ((a : ℕ)
        → (a < cr3)
          ⊎ ((cr3 + 4 * cant_dir 8388608 ≤ a) × (a < cr3 + max_page_size)
              ⊎ (cr3 + max_page_size + 4 * cant_pages 8388608 ≤ a))
        → mem' a ≡ memory a)
initpages-identity_example = initpages-identity 8388608 memory (omega arith)

present-absent_example :
    let mem1 = absent_page_number 5 memory in
    (mem1 (descriptor_of 5) + 3 ≡ 7)
    × ((other : ℕ) → other < 2 ^ 20 → 5 ≢ other → mem1 (descriptor_of other) ≡ 7)
    × ((a : ℕ) → present_page_number 5 mem1 a ≡ 7)
present-absent_example = present-absent 5 memory (omega arith) refl

-- ===== src/Kernel/Paging.antt =====
-- TPE3/src/auxMem.c: the page tables.
--
-- Memory is the word at each address. `void *` and `int` are 32 bits; addresses stay below 2 ^ 31.
-- `initpages` ends by handing the memory behind the tables to `createHeadersList`, with `f`, and by
-- loading the control register; these two calls are left out.
pub mod Identity
use so_tpe.Prelude.{ℕ, zero, suc, ◌+◌, ◌*◌, ◌/◌, ◌%◌, ◌^◌, Bool, ◌==◌, ltb, if◌then◌else◌}

abbrev pub max_page_size : ℕ
max_page_size = 4096

-- `MEMORY_START`.
abbrev pub cr3 : ℕ
cr3 = 0x200000

abbrev pub Memory : Type 0
Memory = ℕ → ℕ

abbrev pub poke : ℕ → ℕ → Memory → Memory
poke a v mem b = if a == b then v else mem b

-- `| 3`, and `& 0xFFFFFFFC`.
unfoldable pub present : ℕ → Memory → Memory
present item mem = poke item (mem item / 4 * 4 + 3) mem

unfoldable pub absent : ℕ → Memory → Memory
absent item mem = poke item (mem item / 4 * 4) mem

unfoldable pub setup_descr_page : ℕ → ℕ → Memory → Memory
setup_descr_page item address mem = present item (poke item address mem)

-- The loop over the directory, `n` entries left.
unfoldable pub map_directory : ℕ → ℕ → Memory → Memory
map_directory zero i mem = mem
map_directory (suc n) i mem =
    let item = cr3 + 4 * i in
    let descriptor = (cr3 + max_page_size + i * max_page_size) % 2 ^ 32 in
    map_directory n (i + 1) (present item (setup_descr_page item descriptor mem))

-- The loop over the pages, `n` of them left.
unfoldable pub map_pages : ℕ → ℕ → ℕ → Memory → Memory
map_pages zero i cant_dir mem = mem
map_pages (suc n) i cant_dir mem =
    let item = cr3 + max_page_size + 4 * i in
    let mem1 = setup_descr_page item (i * max_page_size % 2 ^ 32) mem in
    map_pages n (i + 1) cant_dir (if ltb i (512 + cant_dir + 1) then present item mem1 else mem1)

-- `CEILING` of a whole number is the number, so the quotient is rounded down.
abbrev pub cant_pages : ℕ → ℕ
cant_pages fin_mem = fin_mem / max_page_size

abbrev pub cant_dir : ℕ → ℕ
cant_dir fin_mem = cant_pages fin_mem / 1024

unfoldable pub initpages : ℕ → Memory → Memory
initpages fin_mem mem =
    map_pages (cant_pages fin_mem) 0 (cant_dir fin_mem) (map_directory (cant_dir fin_mem) 0 mem)

-- `CEILING` again.
unfoldable pub get_real_pointer : ℕ → ℕ
get_real_pointer pointer = max_page_size * (pointer / max_page_size)

-- The address of the descriptor of a page, for a number below 2 ^ 31.
unfoldable pub descriptor_of : ℕ → ℕ
descriptor_of page = (cr3 + max_page_size * (page / 1024 + 1) + 4 * (page % 1024)) % 2 ^ 32

unfoldable pub present_page_number : ℕ → Memory → Memory
present_page_number page mem = present (descriptor_of page) mem

unfoldable pub absent_page_number : ℕ → Memory → Memory
absent_page_number page mem = absent (descriptor_of page) mem

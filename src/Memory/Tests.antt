-- ===== src/Memory/Tests.antt =====
-- mem.c on a pool of four pages.
use chic_os.Base.{
  ℕ, zero, suc, ◌+◌, ◌≤◌, ◌<◌, ◌≡◌, refl, ◌⊎◌, true, false, Option, none, some, List, [], ◌∷◌,
  arith, get_elem?, ok, exits,
}
use chic_os.Memory.{
  Page, AllocHeader, Memory, Mallocs, fresh_page, is_free, init_mem, c_alloc, c_dealloc,
  second_chance, make_room, place, evict_page, take_page,
}
use chic_os.Memory.Pages.{count_free}
use chic_os.Memory.Invariant.{Inv}
use chic_os.Memory.Init.{init_mem-Inv}
use chic_os.Memory.Alloc.{Block, Allocated, c_alloc-Allocated}
use chic_os.Memory.Release.{Freed, c_dealloc-Freed}
use chic_os.Memory.Blocks.{c_alloc-c_dealloc}
use chic_os.Memory.Replace.{second_chance_ends}
use chic_os.Memory.Cleared.{is_used}
use chic_os.Memory.Victim.{second_chance_passes}
use chic_os.Memory.Eviction.{Table, evict_page_miscounts}
use chic_os.Memory.Room.{c_alloc_ends}

abbrev pub no_header : AllocHeader
no_header = record { id = 0; page_num = 0 }

abbrev junk_page : Page
junk_page = record { id = 7; p = 7; free = false; used = true }

abbrev raw_headers : List AllocHeader
raw_headers = no_header ∷ no_header ∷ no_header ∷ no_header ∷ []

abbrev raw_pages : List Page
raw_pages = junk_page ∷ junk_page ∷ junk_page ∷ junk_page ∷ []

abbrev raw_stack : List ℕ
raw_stack = 9 ∷ 9 ∷ 9 ∷ 9 ∷ []

abbrev mallocs : Mallocs
mallocs = record {
  pool = some raw_headers;
  page_array = some raw_pages;
  stack_array = some raw_stack;
}

-- What `init_mem` makes of 4,500 bytes.
abbrev pub four : Memory
four = record {
  memory_s = 1;
  size = 4500;
  len = 4;
  free_page_num = 4;
  free_stack = 0 ∷ 1 ∷ 2 ∷ 3 ∷ [];
  free_stack_top = 4;
  pages = fresh_page 0 ∷ fresh_page 1 ∷ fresh_page 2 ∷ fresh_page 3 ∷ [];
  headers = raw_headers;
  clock = 0;
}

-- The same with a block of two pages at page 0.
abbrev pub half : Memory
half = record four {
  free_page_num = 2;
  pages = take_page (fresh_page 0) ∷ take_page (fresh_page 1) ∷ fresh_page 2 ∷ fresh_page 3 ∷ [];
  headers = record { id = 0; page_num = 2 } ∷ no_header ∷ no_header ∷ no_header ∷ [];
}

init_runs : init_mem mallocs 4500 ≡ ok four
unfolding init_mem
init_runs = refl

alloc_runs : c_alloc 1100 four ≡ ok (some 8, half)
unfolding c_alloc make_room place
alloc_runs = refl

dealloc_runs :
    c_dealloc (some 8) half
    ≡ ok (record four {
      pages =
          record (take_page (fresh_page 0)) { free = true }
          ∷ record (take_page (fresh_page 1)) { free = true }
          ∷ fresh_page 2
          ∷ fresh_page 3
          ∷ [];
      headers = half.headers;
    })
unfolding c_dealloc
dealloc_runs = refl

pub four-Inv : Inv four
unfolding count_free
four-Inv = omega arith

pub half-Inv : Inv half
unfolding count_free
half-Inv = omega arith

half_taken : (j : ℕ) → 0 ≤ j → j < 0 + 2 → is_free half.pages j ≡ false
half_taken zero lo hi = refl
half_taken (suc zero) lo hi = refl
half_taken (suc (suc j)) lo hi = absurd (omega arith)

pub half-Block : Block half 0 2
half-Block = record {
  some_pages = omega arith;
  within = omega arith;
  header = refl;
  taken = half_taken;
}

init_mem-Inv_example :
    (m : Memory) × (init_mem mallocs 4500 ≡ ok m)
    × Inv m
    × (m.size ≡ 4500)
    × (m.len ≡ 4)
    × (m.free_page_num ≡ m.len)
    × (m.clock ≡ 0)
    × (m.memory_s ≡ 1)
    × ((j : ℕ) → j < m.len → get_elem? m.pages j ≡ some (fresh_page j))
init_mem-Inv_example =
    init_mem-Inv mallocs 4500 raw_headers raw_pages raw_stack (omega arith) refl refl refl refl refl
      refl

c_alloc-Allocated_example : Allocated half 2 (c_alloc 1100 half)
c_alloc-Allocated_example =
    c_alloc-Allocated half 1100 half-Inv (omega arith) (omega arith) (omega arith)

c_dealloc-Freed_example : (m : Memory) × (c_dealloc (some 8) half ≡ ok m) × Freed half 0 2 m
c_dealloc-Freed_example = c_dealloc-Freed half 0 2 half-Inv half-Block

c_alloc-c_dealloc_example :
    (m : Memory) × (c_dealloc (some 8) half ≡ ok m)
    × Inv m
    × ((j : ℕ) → is_free m.pages j ≡ is_free four.pages j)
    × (m.free_page_num ≡ 4)
c_alloc-c_dealloc_example =
    c_alloc-c_dealloc four half 1100 8 four-Inv (omega arith) (omega arith) (omega arith) alloc_runs

second_chance_ends_example :
    (v : Option ℕ) × (m : Memory) × (second_chance half ≡ ok (v, m))
    × ((v ≡ none) ⊎ ((w : ℕ) × (v ≡ some w) × (w < 4)))
    × ((j : ℕ) → is_free m.pages j ≡ is_free half.pages j)
    × (m.free_page_num ≡ 2)
    × Inv m
second_chance_ends_example = second_chance_ends half half-Inv (omega arith)

half_used : (j : ℕ) → 0 ≤ j → j < 2 → is_used half.pages j ≡ true
half_used zero lo hi = refl
half_used (suc zero) lo hi = refl
half_used (suc (suc j)) lo hi = absurd (omega arith)

-- The pages 0 and 1 are used and page 2 is not: page 3 is named.
second_chance_passes_example :
    (m : Memory) × (second_chance half ≡ ok (some 3, m))
    × (m.clock ≡ 3)
    × ((j : ℕ) → 0 ≤ j → j ≤ 2 → is_used m.pages j ≡ false)
    × ((j : ℕ) → (j < 0) ⊎ (2 < j) → get_elem? m.pages j ≡ get_elem? half.pages j)
second_chance_passes_example = second_chance_passes half 2 half-Inv (omega arith) half_used refl

evict_page_miscounts_example :
    (m : Memory) × (evict_page 3 half ≡ ok m) × (m.free_page_num ≡ count_free m.pages + 1)
evict_page_miscounts_example = evict_page_miscounts half 3 half-Inv refl

half-Table : Table half
half-Table = omega arith

c_alloc_ends_example :
    (c_alloc 3000 half ≡ exits)
    ⊎ ((ptr : Option ℕ) × (m : Memory) × (c_alloc 3000 half ≡ ok (ptr, m))
        × Table m
        × ((m.memory_s ≡ 1) ⊎ ((ptr ≡ none) × (m.memory_s ≡ 2))))
c_alloc_ends_example = c_alloc_ends half 3000 half-Table (omega arith)

-- ===== src/Memory.antt =====
-- src/modules/memory/mem.c: the page table, the allocator over it and the page replacement.
-- An address is an offset from the start of the pool. Of the pool's bytes the model holds what the
-- allocator itself reads, the header at the start of each page.
pub mod Pages
mod Search
pub mod Invariant
pub mod Init
pub mod Alloc
pub mod Release
pub mod Blocks
mod Cleared
mod Replace
mod Eviction
mod Victim
mod Room
pub mod Tests
use chic_os.Base.{
  ℕ, zero, suc, ◌+◌, ◌-◌, ◌*◌, ◌/◌, ◌%◌, ◌^◌, Bool, true, false, ◌&&◌, ◌||◌, Option, none, some,
  List, [], ltb, leb, ◌==◌, if◌then◌else◌, get_elem?, set, modify, Outcome, ok, fault, exits,
  unfinished, ◌>>=◌, deref, sem_wait, sem_post, u32,
}

abbrev pub page_size : ℕ
page_size = 1024

abbrev pub mb : ℕ
mb = 1048576

-- `sizeof(alloc_header)`
abbrev pub header_size : ℕ
header_size = 8

pub record Page : Type 0 where
  pub id : ℕ
  pub p : ℕ
  pub free : Bool
  pub used : Bool

pub record AllocHeader : Type 0 where
  pub id : ℕ
  pub page_num : ℕ

-- `memory` and its `page_table`; `clock` is the `static int i` of `second_chance`.
pub record Memory : Type 0 where
  pub memory_s : ℕ
  pub size : ℕ
  pub len : ℕ
  pub free_page_num : ℕ
  pub free_stack : List ℕ
  pub free_stack_top : ℕ
  pub pages : List Page
  pub headers : List AllocHeader
  pub clock : ℕ

-- What `malloc` hands to `init_mem`, with whatever it holds; `none` is a null pointer. `pool` is
-- also null where the struct itself could not be had.
pub record Mallocs : Type 0 where
  pub pool : Option (List AllocHeader)
  pub page_array : Option (List Page)
  pub stack_array : Option (List ℕ)

unfoldable pub push_free_stack : ℕ → Memory → Memory
push_free_stack i m =
    if ltb m.free_stack_top m.len
    then (record m {
      free_stack = set m.free_stack m.free_stack_top i;
      free_stack_top = m.free_stack_top + 1;
    })
    else m

abbrev pub fresh_page : ℕ → Page
fresh_page i = record { id = i; p = i * page_size; free = true; used = false }

-- The loop of `init_mem` with `n` rounds left.
pub init_pages : ℕ → ℕ → Memory → Memory
init_pages zero i m = m
init_pages (suc n) i m =
    init_pages n (i + 1) (push_free_stack i (record m { pages = set m.pages i (fresh_page i) }))

abbrev or_exit {ℓ} : {A : Type ℓ} → Option A → Outcome A
or_exit none = exits
or_exit (some a) = ok a

-- The size that `init_mem` goes on with.
abbrev pub pool_size : ℕ → ℕ
pool_size mem_size = if leb (4 * mb) mem_size then mb else mem_size

-- The first page written through a null `pages` or `free_stack` is a fault.
unfoldable pub init_mem : Mallocs → ℕ → Outcome Memory
unfolding init_pages push_free_stack
init_mem b mem_size = do
  let size = pool_size mem_size
  let len = size / page_size
  pool ← or_exit b.pool
  pages ← if len == 0 then or_exit b.page_array else deref b.page_array
  stack ← if len == 0 then ok [] else deref b.stack_array
  ok (
      init_pages len 0 (record {
        memory_s = 1;
        size = size;
        len = len;
        free_page_num = len;
        free_stack = stack;
        free_stack_top = 0;
        pages = pages;
        headers = pool;
        clock = 0;
      }))

-- `get_header` and a read through it. At an offset where no header can stand the model faults.
unfoldable pub get_header : ℕ → Memory → Outcome AllocHeader
get_header a m =
    if ltb a header_size
    then fault
    else (if (a - header_size) % page_size == 0
        then deref (get_elem? m.headers ((a - header_size) / page_size))
        else fault)

-- The loop of `c_dealloc` with `n` rounds left.
pub free_pages : ℕ → ℕ → Memory → Outcome Memory
unfolding push_free_stack
free_pages zero i m = ok m
free_pages (suc n) i m = do
  p ← deref (get_elem? m.pages i)
  free_pages n (i + 1)
      (push_free_stack i (record m { pages = set m.pages i (record p { free = true }) }))

pub release_block : ℕ → Memory → Outcome Memory
unfolding get_header free_pages
release_block a m = do
  h ← get_header a m
  freed ← free_pages (u32 (h.id + h.page_num) - h.id) h.id m
  ok (record freed {
    free_page_num = u32 (freed.free_page_num + h.page_num);
    memory_s = sem_post freed.memory_s;
  })

unfoldable pub c_dealloc : Option ℕ → Memory → Outcome Memory
unfolding release_block
c_dealloc ptr m = do
  s ← sem_wait m.memory_s
  let held = record m { memory_s = s }
  elim ptr [ none ↦ ok (record held { memory_s = sem_post s }) | some a ↦ release_block a held ]

-- The loop of `second_chance` at page `curr`, for at most so many rounds; `none` is -1. The loop
-- ends at `curr == i - 1`, which an `i` of 0 never meets.
pub sweep : ℕ → ℕ → Memory → Outcome (Option ℕ × Memory)
sweep zero curr m = unfinished
sweep (suc rounds) curr m = do
  p ← deref (get_elem? m.pages curr)
  let m' = record m { pages = set m.pages curr (record p { used = false }) }
  let next = (curr + 1) % m.len
  elim p.used [
    | false ↦ ok (some next, record m' { clock = next; memory_s = sem_post m.memory_s })
    | true ↦ elim (next + 1 == m.clock) [
      | true ↦ ok (none, record m' { clock = (next + 1) % m.len; memory_s = sem_post m.memory_s })
      | false ↦ sweep rounds next m'
    ]
  ]

unfoldable pub second_chance : Memory → Outcome (Option ℕ × Memory)
unfolding sweep
second_chance m = do s ← sem_wait m.memory_s; sweep (m.len + 1) m.clock (record m { memory_s = s })

-- What `c_alloc` does with the page that `second_chance` names.
pub evict_page : ℕ → Memory → Outcome Memory
unfolding push_free_stack
evict_page v m = do
  s ← sem_wait m.memory_s
  p ← deref (get_elem? m.pages v)
  ok (
      push_free_stack v (record m {
        pages = set m.pages v (record p { free = true });
        free_page_num = u32 (m.free_page_num + 1);
        memory_s = sem_post s;
      }))

-- The `while` of `c_alloc` for at most so many rounds. `false` is its return of NULL, which posts
-- a semaphore that it does not hold.
pub replace_pages : ℕ → ℕ → Memory → Outcome (Bool × Memory)
replace_pages zero num m = if ltb m.free_page_num num then unfinished else ok (true, m)
replace_pages (suc rounds) num m = elim (ltb m.free_page_num num) [
  | false ↦ ok (true, m)
  | true ↦ do
    (victim, m') ← second_chance m
    elim victim [
      | none ↦ ok (false, record m' { memory_s = sem_post m'.memory_s })
      | some v ↦ evict_page v m' >>= replace_pages rounds num
    ]
]

-- `pages[j].free`; the loops below keep `j` within the table.
abbrev pub page_free : Option Page → Bool
page_free none = false
page_free (some p) = p.free

abbrev pub is_free : List Page → ℕ → Bool
is_free pages j = page_free (get_elem? pages j)

-- The inner loop of the search, over `n` pages from `j` on.
pub run_free : ℕ → ℕ → List Page → Bool
run_free zero j pages = true
run_free (suc n) j pages = is_free pages j && run_free n (j + 1) pages

-- The search for `num` contiguous free pages, from `i` on with so many rounds left.
pub find_run : ℕ → ℕ → ℕ → ℕ → List Page → Option ℕ
unfolding run_free
find_run zero i num len pages = none
find_run (suc rounds) i num len pages =
    if ltb len (i + num)
    then none
    else (if run_free num i pages then some i else find_run rounds (i + 1) num len pages)

abbrev pub take_page : Page → Page
take_page p = record p { free = false; used = true }

-- The loop that marks `n` pages from `j` on as allocated.
pub take_pages : ℕ → ℕ → List Page → List Page
take_pages zero j pages = pages
take_pages (suc n) j pages = take_pages n (j + 1) (modify take_page j pages)

-- The second half of `c_alloc`.
unfoldable pub place : ℕ → Memory → Outcome (Option ℕ × Memory)
unfolding find_run take_pages
place num m = do
  s ← sem_wait m.memory_s
  elim (find_run m.len 0 num m.len m.pages) [
    | none ↦ exits
    | some i ↦ ok (
      some (i * page_size + header_size),
      record m {
        free_page_num = u32 (m.free_page_num + 2 ^ 32 - num);
        pages = take_pages num i m.pages;
        headers = set m.headers i (record { id = i; page_num = num });
        memory_s = sem_post s;
      },
    )
  ]

-- The pages that a request of so many bytes takes, with its header.
abbrev pub num_pages : ℕ → ℕ
num_pages bytes = (bytes + header_size + page_size - 1) / page_size

unfoldable pub make_room : ℕ → Memory → Outcome (Bool × Memory)
unfolding replace_pages second_chance evict_page
make_room num m =
    if ltb m.free_page_num num || ltb m.len num then replace_pages num num m else ok (true, m)

unfoldable pub c_alloc : ℕ → Memory → Outcome (Option ℕ × Memory)
c_alloc bytes m =
    if bytes == 0 || leb m.size bytes
    then ok (none, m)
    else (make_room (num_pages bytes) m >>= λ (room, m').
        if room then place (num_pages bytes) m' else ok (none, m'))

-- `memcpy` copies bytes that the model does not hold.
unfoldable pub c_realloc : Option ℕ → ℕ → Memory → Outcome (Option ℕ × Memory)
unfolding get_header c_alloc c_dealloc
c_realloc none bytes m = ok (none, m)
c_realloc (some a) bytes m = do
  h ← get_header a m
  (buffer, m') ← c_alloc (u32 (u32 (h.page_num * page_size + 2 ^ 32 - header_size) + bytes)) m
  elim buffer [ none ↦ ok (none, m') | some b ↦ do m'' ← c_dealloc (some a) m'; ok (some b, m'') ]

-- ===== src/Memory/Init.antt =====
-- `init_mem`: the table starts with every page free.
use chic_os.Base.{
  ℕ, zero, suc, ◌+◌, ◌/◌, ◌≤◌, ◌<◌, ◌≡◌, refl, ◌∙◌, ap, subst, ◌==◌, false, List, some, arith,
  length, length-set, get_elem?, set, get_elem?-set_self, get_elem?-set_ne, ok, ℕ_discrete,
}
use chic_os.Memory.{
  Page, Memory, Mallocs, AllocHeader, page_size, pool_size, push_free_stack, init_pages, init_mem,
  fresh_page, page_free,
}
use chic_os.Memory.Pages.{count_free-all}
use chic_os.Memory.Invariant.{Inv}

-- What the loop of `init_mem` leaves alone.
record SameTable (m m' : Memory) : Type 0 where
  same_lock : m'.memory_s ≡ m.memory_s
  same_size : m'.size ≡ m.size
  same_len : m'.len ≡ m.len
  same_free : m'.free_page_num ≡ m.free_page_num
  same_headers : m'.headers ≡ m.headers
  same_clock : m'.clock ≡ m.clock
  same_pages : length m'.pages ≡ length m.pages
  same_stack : length m'.free_stack ≡ length m.free_stack
  top_grows : m.free_stack_top ≤ m.len → m'.free_stack_top ≤ m.len

init_pages-SameTable : (n i : ℕ) (m : Memory) → SameTable m (init_pages n i m)
unfolding init_pages push_free_stack
init_pages-SameTable zero i m = ground arith
init_pages-SameTable (suc n) i m = ground (
  arith,
  init_pages-SameTable n (i + 1)
      (push_free_stack i (record m { pages = set m.pages i (fresh_page i) })),
  length-set m.pages i (fresh_page i),
  length-set m.free_stack m.free_stack_top i,
)

pages-push_free_stack : (i : ℕ) (m : Memory) → (push_free_stack i m).pages ≡ m.pages
unfolding push_free_stack
pages-push_free_stack i m = ground arith

-- The pages up to the end of the loop are fresh once it has run.
init_pages-fresh :
    (n i j : ℕ) (m : Memory)
    → i + n ≤ length m.pages
    → ((k : ℕ) → k < i → get_elem? m.pages k ≡ some (fresh_page k))
    → j < i + n
    → get_elem? (init_pages n i m).pages j ≡ some (fresh_page j)
unfolding init_pages
init_pages-fresh zero i j m h done lt = done j (omega arith)
init_pages-fresh (suc n) i j m h done lt =
    init_pages-fresh n (i + 1) j
      (push_free_stack i (record m { pages = set m.pages i (fresh_page i) }))
      (rw (pages-push_free_stack, length-set) (omega arith))
      (λ k lk. rw pages-push_free_stack (elim (ℕ_discrete i k) [
        | yes e ↦
            subst (λ q. get_elem? (set m.pages i (fresh_page i)) q ≡ some (fresh_page q)) e
              (get_elem?-set_self m.pages i (fresh_page i) (omega arith))
        | no ne ↦ get_elem?-set_ne m.pages i k (fresh_page i) ne ∙ done k (omega arith)
      ]))
      (omega arith)

-- The state in which the loop starts.
abbrev blank : ℕ → ℕ → List AllocHeader → List Page → List ℕ → Memory
blank size len pool ps stack = record {
  memory_s = 1;
  size = size;
  len = len;
  free_page_num = len;
  free_stack = stack;
  free_stack_top = 0;
  pages = ps;
  headers = pool;
  clock = 0;
}

module _ (size len : ℕ) (pool : List AllocHeader) (ps : List Page) (stack : List ℕ)
    (l1 : length pool ≡ len) (l2 : length ps ≡ len) (l3 : length stack ≡ len) where
  done : Memory
  done = init_pages len 0 (blank size len pool ps stack)

  done-same : SameTable (blank size len pool ps stack) done
  unfolding done
  done-same = init_pages-SameTable len 0 (blank size len pool ps stack)

  done-fresh : (j : ℕ) → j < done.len → get_elem? done.pages j ≡ some (fresh_page j)
  unfolding done
  done-fresh j lt =
      init_pages-fresh len 0 j (blank size len pool ps stack) (omega arith)
        (λ k lk. absurd (omega arith)) (omega (arith, done-same.same_len))

  done-Inv : len ≤ 4096 → Inv done
  done-Inv small = ground (
    arith,
    done-same,
    l1,
    l2,
    l3,
    count_free-all done.pages (λ j lt. ap page_free (done-fresh j (omega (arith, done-same)))),
  )

-- A request for a pool of at least a page, with arrays of the right lengths from `malloc`, ends with
-- a table that meets the invariant: one page for each whole kilobyte (of one megabyte, where four
-- or more were asked for), every page free and unused, all of them counted, the hand at page 0, and the
-- semaphore free.
pub init_mem-Inv :
    (b : Mallocs) (mem_size : ℕ) (pool : List AllocHeader) (ps : List Page) (stack : List ℕ)
    → page_size ≤ mem_size
    → b.pool ≡ some pool
    → b.page_array ≡ some ps
    → b.stack_array ≡ some stack
    → length pool ≡ pool_size mem_size / page_size
    → length ps ≡ pool_size mem_size / page_size
    → length stack ≡ pool_size mem_size / page_size
    → (m : Memory) × (init_mem b mem_size ≡ ok m)
      × Inv m
      × (m.size ≡ pool_size mem_size)
      × (m.len ≡ pool_size mem_size / page_size)
      × (m.free_page_num ≡ m.len)
      × (m.clock ≡ 0)
      × (m.memory_s ≡ 1)
      × ((j : ℕ) → j < m.len → get_elem? m.pages j ≡ some (fresh_page j))
unfolding init_mem done
init_mem-Inv b mem_size pool ps stack big e1 e2 e3 l1 l2 l3 = (
  done size len pool ps stack l1 l2 l3,
  rw (e1, e2, e3, nz) refl,
  done-Inv size len pool ps stack l1 l2 l3 (ground arith),
  same.same_size,
  same.same_len,
  ground (arith, same),
  same.same_clock,
  same.same_lock,
  done-fresh size len pool ps stack l1 l2 l3,
)
  where
    size : ℕ
    size = pool_size mem_size

    len : ℕ
    len = size / page_size

    nz : (len == 0) ≡ false
    nz = ground arith

    same : SameTable (blank size len pool ps stack) (done size len pool ps stack l1 l2 l3)
    same = done-same size len pool ps stack l1 l2 l3

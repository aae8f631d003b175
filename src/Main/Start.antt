-- ===== src/Main/Start.antt =====
-- How the program starts.
use chic_os.Base.{
  ℕ, zero, suc, ◌+◌, ◌/◌, ◌≤◌, ◌<◌, ◌≡◌, ◌≢◌, refl, ap, Bool, true, false, none, some, List, [],
  ◌∷◌, map, arith, ◌==◌, length, get_elem?, ok, inl, inr,
}
use chic_os.Memory.{
  Page, AllocHeader, Memory, Mallocs, page_size, header_size, pool_size, fresh_page, page_free,
  init_mem, c_alloc,
}
use chic_os.Memory.Pages.{IsRun}
use chic_os.Memory.Invariant.{Inv}
use chic_os.Memory.Init.{init_mem-Inv}
use chic_os.Memory.Alloc.{Block, Placed, c_alloc-Allocated}
use chic_os.Process.{Pcb, init_pcb}
use chic_os.Semaphore.{
  Semaphore, SemaphoreList, cleared, init_semaphore_list, find_name, get_semaphore_by_name,
}
use chic_os.Main.{Threads, init_app}

abbrev pub all_threads : Threads
all_threads = record { cpu_t = true; disk_t = true; printer_t = true; render_t = true }

-- The list of semaphores when it has been initialised.
abbrev empty_list : SemaphoreList → SemaphoreList
empty_list raw = record raw { l = map cleared raw.l; max = 0; last = 0 }

no_name : (name i : ℕ) (l : List Semaphore) → name ≢ 0 → find_name name i (map cleared l) ≡ none
unfolding find_name
no_name name i [] ne = refl
no_name name i (s ∷ l) ne = rw (other) (no_name name (i + 1) l ne)
  where
    other : (0 == name) ≡ false
    other = ground arith

first_page :
    (m : Memory)
    → 0 < m.len
    → ((j : ℕ) → j < m.len → get_elem? m.pages j ≡ some (fresh_page j))
    → IsRun m.pages 0 1
first_page m pos fresh j lo hi = ap page_free (fresh j (omega arith))

-- The list gets the first page of fresh memory.
list-Placed :
    (m : Memory)
    → Inv m
    → 816 < m.size
    → 0 < m.len
    → m.free_page_num ≡ m.len
    → ((j : ℕ) → j < m.len → get_elem? m.pages j ≡ some (fresh_page j))
    → (m' : Memory) × (c_alloc 816 m ≡ ok (some header_size, m')) × Placed m 0 1 m'
list-Placed m v large pos count fresh =
    elim (c_alloc-Allocated m 816 v (omega arith) large (omega arith)) [
      | inl (zero, m', run, placed, first) ↦ (m', run, placed)
      | inl (suc i, m', run, placed, first) ↦
          absurd (first 0 (omega arith) (first_page m pos fresh))
      | inr (ends, nowhere) ↦ absurd (nowhere 0 (omega arith) (first_page m pos fresh))
    ]

init_app_lem :
    (b : Mallocs) (raw : SemaphoreList) (mem_size a : ℕ) (should_render : Bool) (t : Pcb)
    (m m' : Memory)
    → init_mem b mem_size ≡ ok m
    → c_alloc 816 m ≡ ok (some a, m')
    → init_app b raw all_threads mem_size should_render t ≡ ok (init_pcb t, m', empty_list raw)
unfolding init_app init_semaphore_list
init_app_lem b raw mem_size a true t m m' e1 e2 = rw (e1) (rw (e2) refl)
init_app_lem b raw mem_size a false t m m' e1 e2 = rw (e1) (rw (e2) refl)

-- With at least a page asked for, arrays of the right lengths from `malloc`, and every thread made,
-- `init_app` goes through, with or without the terminal: the process table is empty and its semaphore
-- free, the memory meets the invariant and has one block, that of the list of semaphores, at its first
-- page, and no semaphore has a name.
pub init_app-Inv :
    (b : Mallocs) (raw : SemaphoreList) (mem_size : ℕ) (should_render : Bool) (t : Pcb)
    (pool : List AllocHeader) (ps : List Page) (stack : List ℕ)
    → page_size ≤ mem_size
    → b.pool ≡ some pool
    → b.page_array ≡ some ps
    → b.stack_array ≡ some stack
    → length pool ≡ pool_size mem_size / page_size
    → length ps ≡ pool_size mem_size / page_size
    → length stack ≡ pool_size mem_size / page_size
    → (t' : Pcb) × (m : Memory) × (sl : SemaphoreList) × (init_app b raw all_threads mem_size
          should_render t
        ≡ ok (t', m, sl))
      × (t'.curr ≡ 0)
      × (t'.last ≡ 0)
      × (t'.pcb_s ≡ 1)
      × Inv m
      × Block m 0 1
      × (m.free_page_num + 1 ≡ m.len)
      × ((name : ℕ) → name ≢ 0 → get_semaphore_by_name name sl ≡ none)
unfolding init_pcb get_semaphore_by_name
init_app-Inv b raw mem_size should_render t pool ps stack big e1 e2 e3 l1 l2 l3 =
    let (m, run, v, size, len, count, clock, lock, fresh) =
      init_mem-Inv b mem_size pool ps stack big e1 e2 e3 l1 l2 l3 in
    let (m', got, placed) =
      list-Placed m v (ground (arith, size)) (ground (arith, len)) count fresh in
    (
      init_pcb t,
      m',
      empty_list raw,
      init_app_lem b raw mem_size header_size should_render t m m' run got,
      refl,
      refl,
      refl,
      placed.inv,
      placed.block,
      omega (arith, placed.fewer, placed.same_len, count),
      λ name ne. no_name name 0 raw.l ne,
    )

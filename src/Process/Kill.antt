-- ===== src/Process/Kill.antt =====
-- `p_kill`: the process's memory goes back to the allocator.
use chic_os.Base.{ℕ, suc, ◌≡◌, refl, ◌∙◌, some, get_elem?, modify, ok}
use chic_os.Process.{Process, Pcb, as_killed, p_find, kill_at, p_kill}
use chic_os.Process.Lookup.{FirstWith, p_find_found}
use chic_os.Memory.{Memory, c_dealloc}
use chic_os.Memory.Invariant.{Inv}
use chic_os.Memory.Alloc.{Block}
use chic_os.Memory.Release.{Freed, block_address, c_dealloc-Freed}

kill_at_lem :
    (i n a : ℕ) (p : Process) (t : Pcb) (m m' : Memory)
    → t.pcb_s ≡ suc n
    → get_elem? t.process_stack i ≡ some p
    → p.address_space ≡ some a
    → c_dealloc (some a) m ≡ ok m'
    → kill_at i t m ≡ ok (record t { process_stack = modify as_killed i t.process_stack }, m')
unfolding kill_at
kill_at_lem i n a p t m m' lock at space run = rw (lock) (rw (at, space, run) refl)

p_kill_lem :
    (pid i : ℕ) (t : Pcb) (m : Memory) → p_find pid t ≡ some i → p_kill pid t m ≡ kill_at i t m
unfolding p_kill
p_kill_lem pid i t m e = rw (e, p_kill) refl

-- Killing a process whose address space is an allocated block marks the first process with the
-- pid as killed and frees that block, and the memory keeps its invariant.
pub p_kill-Freed :
    (pid i n block pages : ℕ) (t : Pcb) (m : Memory)
    → t.pcb_s ≡ suc n
    → FirstWith pid t.process_stack (some i)
    → ((p : Process)
        → get_elem? t.process_stack i ≡ some p
        → p.address_space ≡ some (block_address block))
    → Inv m
    → Block m block pages
    → (m' : Memory) × (p_kill pid t m
        ≡ ok (record t { process_stack = modify as_killed i t.process_stack }, m'))
      × Freed m block pages m'
p_kill-Freed pid i n block pages t m lock first space v b =
    let (p, at, same, before) = first in
    let (m', run, freed) = c_dealloc-Freed m block pages v b in
    (
      m',
      p_kill_lem pid i t m (p_find_found pid i t first)
          ∙ kill_at_lem i n (block_address block) p t m m' lock at (space p at) run,
      freed,
    )

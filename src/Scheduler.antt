-- ===== src/Scheduler.antt =====
-- src/modules/scheduler/scheduler.c: who runs next, and how killed processes leave the table.
mod Preferred
mod Select
mod Shift
mod Reap
mod Pass
pub mod Locks
mod Tests
use chic_os.Base.{
  ℕ, zero, suc, ◌+◌, ◌-◌, Bool, true, false, ◌&&◌, ◌||◌, Option, none, some, List, ltb, ◌==◌,
  if◌then◌else◌, get_elem?, set, modify, Outcome, ok, ◌>>=◌, deref, sem_wait, sem_post, u8, lt_i32,
}
use chic_os.Process.{
  Status, new, inactive, running, ready, blocked, kill, waiting, Process, Pcb, as_ready,
}

abbrev pub time_slice : ℕ
time_slice = 1000

abbrev pub is_running : Status → Bool
is_running running = true
is_running _ = false

abbrev pub is_kill : Status → Bool
is_kill kill = true
is_kill _ = false

-- BLOCKED or WAITING
abbrev pub is_held : Status → Bool
is_held blocked = true
is_held waiting = true
is_held _ = false

-- The loop of `scheduler_no_running` at cell `i` with so many rounds left.
unfoldable pub no_running : ℕ → ℕ → Pcb → Outcome Pcb
no_running zero i t = ok t
no_running (suc rounds) i t = do
  s ← sem_wait t.pcb_s
  p ← deref (get_elem? t.process_stack i)
  no_running rounds (i + 1) (record t {
    process_stack =
        if is_running p.status then modify as_ready i t.process_stack else t.process_stack;
    pcb_s = sem_post s;
  })

unfoldable pub scheduler_no_running : Pcb → Outcome Pcb
unfolding no_running
scheduler_no_running t = no_running t.last 0 t

-- Whether the candidate takes the place of the one selected so far; the numbers are their counts
-- of reads and writes.
unfoldable pub preferred : Process → ℕ → Process → ℕ → Bool
preferred candidate rc selected rs =
    lt_i32 rc rs
    || (ltb candidate.h_used selected.h_used && rc == rs)
    || (rc == rs && ltb candidate.pid selected.pid)

-- The body of the loop for a candidate that is not held.
unfoldable pub choose : ℕ → Process → Option ℕ → List Process → Outcome (Option ℕ)
choose i candidate none stack = ok (some i)
choose i candidate (some j) stack = do
  selected ← deref (get_elem? stack j)
  bc ← deref candidate.fb
  bs ← deref selected.fb
  ok (if preferred candidate bc.h.rw_count selected bs.h.rw_count then some i else some j)

-- The loop of `scheduler_get_process`, with the count of the table's semaphore: each round takes it
-- and gives it back in both branches.
unfoldable pub select : ℕ → ℕ → Option ℕ → ℕ → List Process → Outcome (Option ℕ × ℕ)
select zero i selected pcb_s stack = ok (selected, pcb_s)
select (suc rounds) i selected pcb_s stack = do
  s ← sem_wait pcb_s
  candidate ← deref (get_elem? stack i)
  elim (is_held candidate.status) [
    | true ↦ select rounds (i + 1) selected (sem_post s) stack
    | false ↦ do
      selected' ← choose i candidate selected stack
      select rounds (i + 1) selected' (sem_post s) stack
  ]

abbrev pub dispatched : Process → Process
dispatched p = record p { status = running; time_to_run = time_slice }

-- What `scheduler_get_process` does with the process that it has selected.
unfoldable pub dispatch : Option ℕ → Pcb → Outcome (Option ℕ × Pcb)
dispatch none t = ok (none, t)
dispatch (some i) t = do
  s ← sem_wait t.pcb_s
  ok (some i, record t { process_stack = modify dispatched i t.process_stack; pcb_s = sem_post s })

unfoldable pub scheduler_get_process : Pcb → Outcome (Option ℕ × Pcb)
scheduler_get_process t = if t.last == 0 then ok (none, t) else (do
  (selected, s) ← select t.last 0 none t.pcb_s t.process_stack
  dispatch selected (record t { pcb_s = s }))

-- The inner loop of `scheduler_kill_process` at `j` with so many rounds left.
unfoldable pub shift_over : ℕ → ℕ → List Process → Outcome (List Process)
shift_over zero j stack = ok stack
shift_over (suc rounds) j stack = do
  p ← deref (get_elem? stack j)
  shift_over rounds (j + 1) (set stack (j - 1) p)

-- The outer loop at cell `i` with so many rounds left; `rounds` cells lie after cell `i`.
unfoldable pub kill_loop : ℕ → ℕ → Pcb → Outcome Pcb
kill_loop zero i t = ok t
kill_loop (suc rounds) i t = do
  candidate ← deref (get_elem? t.process_stack i)
  elim (is_kill candidate.status) [
    | false ↦ kill_loop rounds (i + 1) t
    | true ↦ do
      s ← sem_wait t.pcb_s
      stack ← shift_over rounds (i + 1) t.process_stack
      kill_loop rounds (i + 1)
          (record t { process_stack = stack; last = u8 (t.last + 255); pcb_s = sem_post s })
  ]

unfoldable pub scheduler_kill_process : Pcb → Outcome Pcb
unfolding kill_loop shift_over
scheduler_kill_process t = kill_loop 11 0 t

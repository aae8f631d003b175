-- ===== src/Cpu.antt =====
-- src/modules/cpu/cpu.c: how a process runs, and the loop of the CPU.
pub mod Locks
pub mod Cell
pub mod Run
pub mod Reads
pub mod Tests
use chic_os.Base.{
  ℕ, zero, suc, ◌+◌, ◌-◌, ◌*◌, ◌^◌, Bool, true, false, Option, none, some, List, [], ◌∷◌, leb, ltb,
  ◌==◌, if◌then◌else◌, get_elem?, modify, Outcome, ok, fault, ◌>>=◌, deref, sem_wait, sem_post, u8,
  u32, u64, ◌&&◌,
}
use chic_os.Memory.{Memory}
use chic_os.Utils.{sleep_ms_with_time}
use chic_os.Stdio.Scan.{scan_word, from_start}
use chic_os.Process
use chic_os.Process.{
  Event, Process, Pcb, CodeSection, Instruction, SyntBuffer, p_block, p_unblock, p_interrupt,
  p_kill,
}
use chic_os.Disk.{Disk, simulate_io}
use chic_os.Printer.{Printer, add_to_print_queue, pop_print}
use chic_os.Scheduler.{
  time_slice, scheduler_no_running, scheduler_kill_process, scheduler_get_process,
}
use chic_os.Semaphore
use chic_os.Semaphore.{SemaphoreList, get_semaphore_by_name}
use chic_os.Synt.{Contents}
use chic_os.Create.{Report, memory_load_req, p_create, p_realloc, log_process}
use chic_os.Syscall.{
  max_time_more_pages, System, World, Args, holding_cpu, sys_call, interrupt_control,
}

-- A step on the process in cell `i` with the table's semaphore held.
unfoldable pub holding_pcb : (Process → Process) → ℕ → System → Outcome System
holding_pcb f i s = do
  n ← sem_wait s.pcb.pcb_s
  p ← deref (get_elem? s.pcb.process_stack i)
  ok (record s {
    pcb = record s.pcb { process_stack = modify f i s.pcb.process_stack; pcb_s = sem_post n };
  })

abbrev pub no_args : Args
no_args = record { pid = 0; time = 0; sem = 0; path = []; process = 0; bytes = 0 }

-- `p->c.it[p->c.PC]`
unfoldable pub current : ℕ → System → Outcome (Process × Instruction)
current i s = do
  p ← deref (get_elem? s.pcb.process_stack i)
  c ← deref (get_elem? p.c.it p.c.pc)
  ok (p, c)

abbrev pub less_time : ℕ → CodeSection → CodeSection
less_time time c = record c {
  it =
      modify
        (λ (x : Instruction). record x {
          remaining_time = u32 (x.remaining_time + (2 ^ 32 - time));
        })
        c.pc c.it;
}

abbrev pub counted : ℕ → Process → Process
counted time p = record p { h_used = u8 (p.h_used + 1); c = less_time time p.c }

-- More memory for a process that ran for long; 24 is the size of a page, 8 of a pointer.
unfoldable pub more_pages : World → ℕ → ℕ → System → Outcome System
more_pages w i time s = if ltb time max_time_more_pages then ok s else (do
  n ← sem_wait s.pcb.pcb_s
  p ← deref (get_elem? s.pcb.process_stack i)
  (t, sl, m) ←
      p_realloc w.contents s.cpu_s p.address_space (u32 (8 + 24 * time)) i
        (record s.pcb { pcb_s = n }) s.semaphores s.mem
  ok (record s { pcb = record t { pcb_s = sem_post t.pcb_s }; semaphores = sl; mem = m }))

-- `sleep_ms_with_time` counts the process's time down, with the CPU's semaphore held.
unfoldable pub sleep_step : ℕ → ℕ → System → Outcome System
sleep_step i time s = ok (record s {
  pcb = record s.pcb {
    process_stack =
        modify (λ (p : Process). record p { time_to_run = sleep_ms_with_time time p.time_to_run }) i
          s.pcb.process_stack;
  };
})

-- The branch for `process_exec`; `true` is that its time is over.
unfoldable pub exec_branch : World → ℕ → Instruction → System → Outcome (Bool × System)
exec_branch w i c s = do
  s1 ←
      if ltb c.remaining_time time_slice
      then holding_pcb (λ p. record p { time_to_run = c.remaining_time }) i s
      else ok s
  (p, c1) ← current i s1
  let l_time = p.time_to_run
  s2 ← holding_cpu (sleep_step i l_time) s1
  s3 ← holding_pcb (counted l_time) i s2
  s4 ← more_pages w i l_time s3
  (p', c') ← current i s4
  ok (c'.remaining_time == 0, s4)

abbrev pub counted_buffer : SyntBuffer → SyntBuffer
counted_buffer b = record b { h = record b.h { rw_count = u32 (b.h.rw_count + 1) } }

-- `p->fb->h->rw_count++`
unfoldable pub count_rw : ℕ → System → Outcome System
count_rw i s = do
  p ← deref (get_elem? s.pcb.process_stack i)
  b ← deref p.fb
  ok (record s {
    pcb = record s.pcb {
      process_stack =
          modify (λ (p : Process). record p { fb = some (counted_buffer b) }) i s.pcb.process_stack;
    };
  })

-- The switch of `exec_process` on the instruction `c`; `true` is that it goes on to the next one.
unfoldable pub exec_instruction :
    World → ℕ → Process → Instruction → Event → System → Outcome (Bool × System)
exec_instruction w i p c Process.semaphore_p s = do
  s' ← sys_call w Process.semaphore_p (record no_args { sem = c.sem_name; pid = p.pid }) s
  ok (true, s')
exec_instruction w i p c Process.semaphore_v s = do
  s' ← sys_call w Process.semaphore_v (record no_args { sem = c.sem_name; pid = p.pid }) s
  ok (true, s')
exec_instruction w i p c Process.process_exec s = exec_branch w i c s
exec_instruction w i p c Process.disk_request s = do
  s1 ← holding_cpu (count_rw i) s
  s2 ← sys_call w Process.disk_request (record no_args { pid = p.pid; time = c.remaining_time }) s1
  ok (true, s2)
exec_instruction w i p c Process.print_request s = do
  s' ← sys_call w Process.print_request (record no_args { pid = p.pid; time = c.remaining_time }) s
  ok (true, s')
exec_instruction w i p c e s = ok (true, s)

abbrev pub advanced : Process → Process
advanced p = record p { c = record p.c { pc = u32 (p.c.pc + 1) } }

abbrev pub advance_if : ℕ → Bool → System → System
advance_if i false s = s
advance_if i true s = record s {
  pcb = record s.pcb { process_stack = modify advanced i s.pcb.process_stack };
}

abbrev pub kill_at_end : World → Process → System → Outcome System
kill_at_end w p s =
    if p.c.pc == p.c.last
    then sys_call w Process.process_kill (record no_args { pid = p.pid }) s
    else ok s

-- On the process in cell `i`. Killing a process at its end does not stop the switch.
unfoldable pub exec_process : World → ℕ → System → Outcome System
exec_process w i s = do
  p ← deref (get_elem? s.pcb.process_stack i)
  if p.time_to_run == 0
      then sys_call w Process.process_interrupt (record no_args { pid = p.pid }) s
      else (do
        s1 ← kill_at_end w p s
        (p1, c) ← current i s1
        (next, s2) ← exec_instruction w i p1 c c.e s1
        ok (advance_if i next s2))

abbrev pub run_found : World → Option ℕ → System → Outcome System
run_found w none s = ok s
run_found w (some i) s = do
  s' ← exec_process w i s
  p ← deref (get_elem? s'.pcb.process_stack i)
  report ← log_process p.pid s'.pcb
  ok s'

-- `resources/sint` and a digit
abbrev pub resource : ℕ → List ℕ
resource n =
    b'r'
    ∷ b'e'
    ∷ b's'
    ∷ b'o'
    ∷ b'u'
    ∷ b'r'
    ∷ b'c'
    ∷ b'e'
    ∷ b's'
    ∷ b'/'
    ∷ b's'
    ∷ b'i'
    ∷ b'n'
    ∷ b't'
    ∷ (48 + n)
    ∷ []

-- The processes that are created for debugging.
unfoldable pub debug_create : World → Bool → System → Outcome System
debug_create w debug s =
    if debug && (ltb 0 s.quantum_time && leb s.quantum_time 4)
    then interrupt_control w Process.process_create
        (record no_args { path = resource s.quantum_time }) s
    else ok s

-- One round of `cpu_loop`.
unfoldable pub cpu_round : World → Bool → System → Outcome System
cpu_round w debug s = do
  let s0 = record s { quantum_time = u64 (s.quantum_time + 1) }
  t1 ← scheduler_no_running s0.pcb
  t2 ← scheduler_kill_process t1
  (found, t3) ← scheduler_get_process t2
  s1 ← run_found w found (record s0 { pcb = t3 })
  debug_create w debug s1

-- So many rounds.
unfoldable pub cpu_rounds : ℕ → World → Bool → System → Outcome System
cpu_rounds zero w debug s = ok s
cpu_rounds (suc n) w debug s = do s' ← cpu_round w debug s; cpu_rounds n w debug s'

-- ===== src/Syscall.antt =====
-- src/modules/cpu/cpu.c: the state, and the system calls and interrupts.
pub mod Locks
use chic_os.Base.{
  ℕ, zero, suc, ◌+◌, ◌-◌, ◌*◌, ◌^◌, Bool, true, false, Option, none, some, List, [], ◌∷◌, leb, ltb,
  ◌==◌, if◌then◌else◌, get_elem?, modify, Outcome, ok, fault, ◌>>=◌, deref, sem_wait, sem_post, u8,
  u32, u64, ◌&&◌,
}
use chic_os.Memory.{Memory}
use chic_os.Utils.{sleep_ms_with_time}
use chic_os.Stdio.Scan.{scan_word, from_start}
use chic_os.Process
use chic_os.Process.{
  Event, Process, Pcb, CodeSection, Instruction, SyntBuffer, p_block, p_unblock, p_interrupt,
  p_kill,
}
use chic_os.Disk.{Disk, simulate_io}
use chic_os.Printer.{Printer, add_to_print_queue, pop_print}
use chic_os.Scheduler.{
  time_slice, scheduler_no_running, scheduler_kill_process, scheduler_get_process,
}
use chic_os.Semaphore
use chic_os.Semaphore.{SemaphoreList, get_semaphore_by_name}
use chic_os.Synt.{Contents}
use chic_os.Create.{Report, memory_load_req, p_create, p_realloc, log_process}

abbrev pub max_time_more_pages : ℕ
max_time_more_pages = 1000

-- The parts of `app` that the CPU works on.
pub record System : Type 0 where
  pub cpu_s : ℕ
  pub quantum_time : ℕ
  pub pcb : Pcb
  pub mem : Memory
  pub disk : Disk
  pub printer : Printer
  pub semaphores : SemaphoreList

-- What the calls do not change: the files, and what the memory holds that is allocated.
pub record World : Type 0 where
  pub fopen : List ℕ → Option (List ℕ)
  pub contents : Contents

-- What the callers print into the buffer and `sscanf` reads back from it. `time` is the track of a
-- disk request; `process` is the cell that a pointer names.
pub record Args : Type 0 where
  pub pid : ℕ
  pub time : ℕ
  pub sem : ℕ
  pub path : List ℕ
  pub process : ℕ
  pub bytes : ℕ

-- `init_cpu` up to its loop.
unfoldable pub init_cpu : System → System
init_cpu s = record s { quantum_time = 0; cpu_s = 1 }

abbrev pub on_pcb : Outcome Pcb → System → Outcome System
on_pcb run s = do t ← run; ok (record s { pcb = t })

unfoldable pub call_kill : ℕ → System → Outcome System
call_kill pid s = do (t, m) ← p_kill pid s.pcb s.mem; ok (record s { pcb = t; mem = m })

-- The first word of the path makes a process, which is then logged.
unfoldable pub call_create : World → List ℕ → System → Outcome System
call_create w path s = do
  address ← deref (scan_word (from_start path)).0
  (pid, t, sl, m) ← p_create w.fopen w.contents s.cpu_s address s.pcb s.semaphores s.mem
  report ← log_process pid t
  ok (record s { pcb = t; semaphores = sl; mem = m })

unfoldable pub call_disk : ℕ → ℕ → System → Outcome System
call_disk pid track s = do
  t ← p_block pid s.pcb
  d ← simulate_io pid track s.disk
  ok (record s { pcb = t; disk = d })

unfoldable pub call_load : ℕ → ℕ → System → Outcome System
call_load i bytes s = do
  p ← deref (get_elem? s.pcb.process_stack i)
  (p', m) ← memory_load_req bytes p s.mem
  ok (record s {
    pcb = record s.pcb { process_stack = modify (λ old. p') i s.pcb.process_stack };
    mem = m;
  })

-- A name that is NUL ends the buffer, so that `sscanf` reads none.
abbrev pub name_read : ℕ → Outcome ℕ
name_read zero = fault
name_read (suc n) = ok (suc n)

unfoldable pub call_p : ℕ → ℕ → System → Outcome System
call_p name pid s = do
  sem ← name_read name
  (sl, t) ← Semaphore.semaphore_p (get_semaphore_by_name sem s.semaphores) pid s.semaphores s.pcb
  ok (record s { semaphores = sl; pcb = t })

unfoldable pub call_v : ℕ → System → Outcome System
call_v name s = do
  sem ← name_read name
  (sl, t) ← Semaphore.semaphore_v (get_semaphore_by_name sem s.semaphores) s.semaphores s.pcb
  ok (record s { semaphores = sl; pcb = t })

unfoldable pub call_print : ℕ → ℕ → System → Outcome System
call_print time pid s = do
  (p, m) ← add_to_print_queue time pid s.printer s.mem
  ok (record s { printer = p; mem = m })

unfoldable pub call_pop : System → Outcome System
call_pop s = do p ← pop_print s.printer; ok (record s { printer = p })

-- The switch of `sys_call`.
unfoldable pub serve_call : World → Event → Args → System → Outcome System
serve_call w Process.disk_request a s = call_disk a.pid a.time s
serve_call w Process.process_interrupt a s = on_pcb (p_interrupt a.pid s.pcb) s
serve_call w Process.process_create a s = call_create w a.path s
serve_call w Process.process_kill a s = call_kill a.pid s
serve_call w Process.mem_load_req a s = call_load a.process a.bytes s
serve_call w Process.semaphore_p a s = call_p a.sem a.pid s
serve_call w Process.semaphore_v a s = call_v a.sem s
serve_call w Process.print_request a s = call_print a.time a.pid s
serve_call w Process.print_finish a s = call_pop s
serve_call w Process.disk_finish a s = ok s
serve_call w Process.mem_load_finish a s = ok s
serve_call w Process.process_exec a s = ok s

-- The switch of `interrupt_control`. `mem_load_finish` only prints.
unfoldable pub serve_interrupt : World → Event → Args → System → Outcome System
serve_interrupt w Process.disk_finish a s = on_pcb (p_unblock a.pid s.pcb) s
serve_interrupt w Process.process_interrupt a s = on_pcb (p_interrupt a.pid s.pcb) s
serve_interrupt w Process.process_create a s = call_create w a.path s
serve_interrupt w Process.process_kill a s = call_kill a.pid s
serve_interrupt w Process.mem_load_finish a s = ok s
serve_interrupt w Process.print_request a s = call_print a.time a.pid s
serve_interrupt w Process.print_finish a s = call_pop s
serve_interrupt w Process.disk_request a s = ok s
serve_interrupt w Process.mem_load_req a s = ok s
serve_interrupt w Process.semaphore_p a s = ok s
serve_interrupt w Process.semaphore_v a s = ok s
serve_interrupt w Process.process_exec a s = ok s

-- A step with the CPU's semaphore held.
unfoldable pub holding_cpu : (System → Outcome System) → System → Outcome System
holding_cpu step s = do
  n ← sem_wait s.cpu_s
  s' ← step (record s { cpu_s = n })
  ok (record s' { cpu_s = sem_post s'.cpu_s })

unfoldable pub sys_call : World → Event → Args → System → Outcome System
sys_call w e a s = holding_cpu (serve_call w e a) s

unfoldable pub interrupt_control : World → Event → Args → System → Outcome System
interrupt_control w e a s = holding_cpu (serve_interrupt w e a) s

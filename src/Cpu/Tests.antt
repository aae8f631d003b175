-- ===== src/Cpu/Tests.antt =====
-- cpu.c on a small table.
use chic_os.Base.{
  ℕ, ◌≡◌, refl, true, false, none, some, get_elem?, [], ◌∷◌, arith, replicate, set, ok,
}
use chic_os.Process
use chic_os.Process.{
  Process, Pcb, Instruction, SyntBuffer, blank, ready, running, blocked, as_ready, process_exec,
  disk_request, p_block, update_found, p_find,
}
use chic_os.Disk.{Disk, disk_rounds, simulate_io, q_put}
use chic_os.Printer.{Printer}
use chic_os.Stdio.Scan.{from_start}
use chic_os.Synt.Tests.{sixteen, contents, no_semaphores, junk, old}
use chic_os.Create.Tests.{only_file, table}
use chic_os.Syscall.{System, World, interrupt_control, holding_cpu, sys_call, serve_call, call_disk}
use chic_os.Cpu.{
  no_args, counted_buffer, exec_process, cpu_round, cpu_rounds, current, exec_instruction,
  exec_branch, holding_pcb, sleep_step, more_pages, debug_create, count_rw,
}
use chic_os.Create.{log_process}
use chic_os.Scheduler.{
  scheduler_no_running, scheduler_kill_process, scheduler_get_process, select, choose, dispatch,
  preferred,
}
use chic_os.Utils.{sleep_ms_with_time}
use chic_os.Syscall.Locks.{Locks}
use chic_os.Cpu.Locks.{cpu_rounds-Locks}
use chic_os.Cpu.Cell.{with_process, IsFree}
use chic_os.Cpu.Run.{Ran, exec_process-Ran}
use chic_os.Cpu.Reads.{disk_request_completes}

abbrev pub world : World
world = record { fopen = only_file; contents = contents }

abbrev buffer : SyntBuffer
buffer = record { fp = from_start []; content = []; h = junk; address = []; block = 8; h_block = 8 }

abbrev instruction : Instruction
instruction = record old { e = process_exec; remaining_time = 30 }

abbrev reading : Instruction
reading = record old { e = disk_request; remaining_time = 30 }

-- At its second instruction, which is the first of these two; the second one reads.
abbrev pub one : Process
one = record blank {
  pid = 4;
  status = running;
  time_to_run = 1000;
  fb = some buffer;
  c = record { it = old ∷ instruction ∷ reading ∷ []; pc = 1; size = 0; last = 3 };
}

abbrev pub idle : Disk
idle = record {
  queue = replicate 11 (record { id = 0; time_to_run = 0; track = 0 });
  len = 0;
  disk_s = 1;
  current_track = 10;
}

abbrev no_printer : Printer
no_printer = record {
  printer_s = 1;
  head = none;
  tail = none;
  printer_buffer = none;
  active = true;
  nodes = λ a. none;
}

abbrev pub system_of : Process → System
system_of p = record {
  cpu_s = 1;
  quantum_time = 0;
  pcb = record table { process_stack = set table.process_stack 0 p };
  mem = sixteen;
  disk = idle;
  printer = no_printer;
  semaphores = no_semaphores;
}

one-IsFree : (p : Process) → IsFree 0 (system_of p)
one-IsFree p = record { c = 0; k = 0; cpu = refl; table = refl; within = omega arith }

-- An `exec` to its end, a request of the disk, and a round in which every process is blocked.
cpu_rounds-Locks_example :
    (s : System) × (p : Process) × (cpu_rounds 3 world false (system_of one) ≡ ok s)
    × Locks 1 1 s
    × (s.disk.len ≡ 1)
    × (get_elem? s.pcb.process_stack 0 ≡ some p)
    × (p.status ≡ blocked)
unfolding cpu_rounds cpu_round scheduler_no_running scheduler_kill_process scheduler_get_process
    select choose dispatch exec_process current exec_instruction exec_branch holding_pcb holding_cpu
    sleep_step more_pages log_process debug_create count_rw sys_call serve_call call_disk
    simulate_io p_block update_found p_find sleep_ms_with_time preferred q_put
cpu_rounds-Locks_example = (
  _,
  _,
  refl,
  cpu_rounds-Locks world 1 1 3 false (system_of one) _ (refl, refl) refl,
  refl,
  refl,
  refl,
)

exec_process-Ran_example :
    (q : Process) × (exec_process world 0 (system_of one) ≡ ok (with_process q 0 (system_of one)))
    × Ran one q instruction
exec_process-Ran_example =
    exec_process-Ran world 0 (system_of one) one instruction (one-IsFree one) refl
      (λ e. omega arith) (λ e. omega arith) refl refl (omega arith) (omega arith)

abbrev second : Process
second = record one { c = record one.c { pc = 2 } }

disk_request_completes_example :
    (q : Process) × (d : Disk) × (n : ℕ) × (d' : Disk) × (exec_process world 0 (system_of second)
      ≡ ok (with_process q 0 (record (system_of second) { disk = d })))
    × (q.status ≡ blocked)
    × (q.c.pc ≡ 3)
    × (q.fb ≡ some (counted_buffer buffer))
    × (disk_rounds n d ≡ ok (some 4, d'))
    × (interrupt_control world Process.disk_finish
          (record no_args { pid = 4 })
          (with_process q 0 (record (system_of second) { disk = d' }))
        ≡ ok (with_process (as_ready q) 0 (record (system_of second) { disk = d' })))
disk_request_completes_example =
    disk_request_completes world 0 (system_of second) second reading buffer (one-IsFree second)
      (second, refl, refl, λ j q lt e. absurd (omega arith)) refl (λ e. omega arith)
      (λ e. omega arith) refl refl (omega arith) refl (omega arith) refl (omega arith)

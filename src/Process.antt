-- ===== src/Process.antt =====
-- src/modules/process/process.c: the process table and the operations that change one process.
-- A pointer into the table is an index.
pub mod Lookup
pub mod Locks
mod Kill
pub mod Tests
use chic_os.Base.{
  ℕ, zero, suc, ◌+◌, Option, none, some, List, [], ◌∷◌, ◌==◌, if◌then◌else◌, get_elem?, modify,
  Outcome, ok, ◌>>=◌, deref, sem_wait, sem_post,
}
use chic_os.Memory.{Memory, c_dealloc}
use chic_os.Stdio.{File}

abbrev pub max_pcb : ℕ
max_pcb = 11

-- `events` of defines.h
pub data Event : Type 0 where
  process_interrupt process_create process_kill disk_request disk_finish mem_load_req : Event
  mem_load_finish semaphore_p semaphore_v print_request print_finish process_exec : Event

-- `p_status`
pub data Status : Type 0 where
  new inactive running ready blocked kill waiting : Status

pub record Instruction : Type 0 where
  pub e : Event
  pub remaining_time : ℕ
  pub fp_pos : ℕ
  pub sem_name : ℕ

-- `it` holds the instructions that have been read; a null `it` has none.
pub record CodeSection : Type 0 where
  pub it : List Instruction
  pub pc : ℕ
  pub size : ℕ
  pub last : ℕ

-- `synt_header`; a string is its bytes.
pub record SyntHeader : Type 0 where
  pub name : List ℕ
  pub priority : ℕ
  pub rw_count : ℕ
  pub seg_flag : ℕ
  pub seg_size : ℕ
  pub semaphores : List ℕ

-- `synt_buffer`, once its file is open and its header read. `block` and `h_block` are where the
-- buffer and the header stand, and `content` is what the file holds from its start.
pub record SyntBuffer : Type 0 where
  pub fp : File
  pub content : List ℕ
  pub h : SyntHeader
  pub address : List ℕ
  pub block : ℕ
  pub h_block : ℕ

-- A null `fb` is `none`.
pub record Process : Type 0 where
  pub name : List ℕ
  pub pid : ℕ
  pub status : Status
  pub time_to_run : ℕ
  pub h_used : ℕ
  pub address_space : Option ℕ
  pub fb : Option SyntBuffer
  pub c : CodeSection

pub record Pcb : Type 0 where
  pub process_stack : List Process
  pub curr : ℕ
  pub last : ℕ
  pub last_pid : ℕ
  pub pcb_s : ℕ

-- A cell of the table before its first use: the program's globals are zero, and 0 is RUNNING.
abbrev pub blank : Process
blank = record {
  name = [];
  pid = 0;
  status = running;
  time_to_run = 0;
  h_used = 0;
  address_space = none;
  fb = none;
  c = record { it = []; pc = 0; size = 0; last = 0 };
}

unfoldable pub init_pcb : Pcb → Pcb
init_pcb t = record t { last = 0; curr = 0; last_pid = 0; pcb_s = 1 }

-- The loop of `clear_pcb` over the cells that are left.
unfoldable pub clear_pcb : List Process → Memory → Outcome Memory
clear_pcb [] m = ok m
clear_pcb (p ∷ ps) m = elim p.address_space [
  | none ↦ clear_pcb ps m
  | some a ↦ c_dealloc (some a) m >>= clear_pcb ps
]

-- The inner loop of `p_find`, from cell `i` on.
unfoldable pub find_pid : ℕ → ℕ → List Process → Option ℕ
find_pid pid i [] = none
find_pid pid i (p ∷ ps) = if p.pid == pid then some i else find_pid pid (i + 1) ps

-- The outer loop with so many tries left. Nothing else runs between two tries here.
unfoldable pub find_retry : ℕ → ℕ → List Process → Option ℕ
unfolding find_pid
find_retry zero pid stack = none
find_retry (suc retry) pid stack = elim (find_pid pid 0 stack) [
  | some i ↦ some i
  | none ↦ find_retry retry pid stack
]

unfoldable pub p_find : ℕ → Pcb → Option ℕ
unfolding find_retry
p_find pid t = find_retry 5 pid t.process_stack

-- What `p_interrupt`, `p_block` and `p_unblock` have in common: the process is used under the
-- table's semaphore without a test for null.
unfoldable pub update_found : (Process → Process) → Option ℕ → Pcb → Outcome Pcb
update_found f found t = do
  s ← sem_wait t.pcb_s
  i ← deref found
  ok (record t { process_stack = modify f i t.process_stack; pcb_s = sem_post s })

abbrev pub interrupted : Process → Process
interrupted p = record p { time_to_run = 0 }

abbrev pub as_blocked : Process → Process
as_blocked p = record p { status = blocked; time_to_run = 0 }

abbrev pub as_ready : Process → Process
as_ready p = record p { status = ready }

abbrev pub as_killed : Process → Process
as_killed p = record p { status = kill }

unfoldable pub p_interrupt : ℕ → Pcb → Outcome Pcb
p_interrupt pid t = update_found interrupted (p_find pid t) t

unfoldable pub p_block : ℕ → Pcb → Outcome Pcb
p_block pid t = update_found as_blocked (p_find pid t) t

unfoldable pub p_unblock : ℕ → Pcb → Outcome Pcb
p_unblock pid t = update_found as_ready (p_find pid t) t

abbrev pub dealloc_if : Option ℕ → Memory → Outcome Memory
dealloc_if none m = ok m
dealloc_if (some a) m = c_dealloc (some a) m

unfoldable pub kill_at : ℕ → Pcb → Memory → Outcome (Pcb × Memory)
kill_at i t m = do
  s ← sem_wait t.pcb_s
  p ← deref (get_elem? t.process_stack i)
  m' ← dealloc_if p.address_space m
  ok (record t { process_stack = modify as_killed i t.process_stack; pcb_s = sem_post s }, m')

unfoldable pub p_kill : ℕ → Pcb → Memory → Outcome (Pcb × Memory)
p_kill pid t m = elim (p_find pid t) [ none ↦ ok (t, m) | some i ↦ kill_at i t m ]

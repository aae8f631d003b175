-- ===== src/Create.antt =====
-- src/modules/process/process.c: how a process is made from a file, shown, and given more memory;
-- with `memory_load_req` of src/modules/memory/mem.c.
pub mod Locks
pub mod Loaded
pub mod Realloc
pub mod Tests
use chic_os.Base.{
  ℕ, zero, suc, ◌+◌, ◌-◌, ◌*◌, ◌/◌, ◌^◌, tabulate, Bool, true, false, Option, none, some, List, [],
  ◌∷◌, leb, ltb, ◌==◌, if◌then◌else◌, length, take, get_elem?, set, modify, Outcome, ok, fault,
  unfinished, ◌>>=◌, deref, sem_wait, sem_post, u8, u16, u32,
}
use chic_os.Memory.{Memory, page_size, header_size, get_header, c_alloc, c_dealloc}
use chic_os.Stdio.{strtok}
use chic_os.Stdio.Scan.{from_start}
use chic_os.Process.{
  Status, inactive, new, Process, Pcb, CodeSection, Instruction, SyntBuffer, max_pcb, find_pid,
  p_kill,
}
use chic_os.Scheduler.{time_slice}
use chic_os.Semaphore.{SemaphoreList}
use chic_os.Synt.{Contents, max_address_size, read_header, open_file}
use chic_os.Code.{init_code_section}

-- Whether a cell holds this pid.
unfoldable pub has_pid : ℕ → List Process → Bool
has_pid seed [] = false
has_pid seed (p ∷ ps) = let rest = has_pid seed ps in if seed == p.pid then true else rest

-- The seed is compared, the time is returned. Each call but the first has the same seed.
unfoldable pub get_pid : ℕ → ℕ → ℕ → List Process → Outcome ℕ
unfolding has_pid
get_pid zero seed time stack = unfinished
get_pid (suc calls) seed time stack = elim (has_pid seed stack) [
  | false ↦ ok (u32 time)
  | true ↦ get_pid calls (u32 (time + 1)) time stack
]

-- The loop of `p_create` over the path: the last token between slashes, each of which is copied to
-- a buffer of 16 bytes; `none` is the buffer as it was.
unfoldable pub last_token : ℕ → Option (List ℕ) → List ℕ → Outcome (Option (List ℕ))
unfolding strtok
last_token zero ret s = unfinished
last_token (suc rounds) ret s = elim (strtok b'/' s) [
  | none ↦ ok ret
  | some (name, rest) ↦ elim (ltb (length name) 16) [
    | false ↦ fault
    | true ↦ last_token rounds (some name) rest
  ]
]

-- The file's name up to its first dot; `none` is NULL.
unfoldable pub process_name : List ℕ → Outcome (Option (List ℕ))
unfolding last_token
process_name address = do
  ret ← last_token (suc (length address)) none address
  file ← deref ret
  ok (elim (strtok b'.' file) [ none ↦ none | some (name, rest) ↦ some name ])

-- `process_kill` as a system call: it needs the CPU's semaphore.
unfoldable pub kill_call : ℕ → ℕ → Pcb → Memory → Outcome (Pcb × Memory)
kill_call cpu_s pid t m = do n ← sem_wait cpu_s; p_kill pid t m

abbrev pub kill_if : Bool → ℕ → ℕ → Pcb → Memory → Outcome (Pcb × Memory)
kill_if false cpu_s pid t m = ok (t, m)
kill_if true cpu_s pid t m = kill_call cpu_s pid t m

-- For how many instructions of 16 bytes a block of so many pages has room behind its header.
abbrev pub room_in : ℕ → ℕ
room_in pages = (pages * page_size - header_size) / 16

-- The instructions that stand in the block at a pointer, as many as fit. A write behind them, into the
-- next block, is a fault here.
unfoldable pub cells_of : Contents → Option ℕ → Memory → Outcome (Option (List Instruction))
cells_of w none m = ok none
cells_of w (some a) m = do
  block ← get_header a m
  ok (some (tabulate (room_in block.page_num) (w.cells a)))

-- `memory_load_req`, with the message of `memory_load_finish`; a null process is not passed on.
unfoldable pub memory_load_req : ℕ → Process → Memory → Outcome (Process × Memory)
memory_load_req bytes p m = do
  (ptr, m') ← c_alloc bytes m
  ok (record p { address_space = ptr }, m')

-- What `p_create` starts from, with the fields that it does not name at 0.
abbrev pub started : ℕ → Process
started pid = record {
  name = [];
  pid = pid;
  status = new;
  time_to_run = time_slice;
  h_used = 0;
  address_space = none;
  fb = none;
  c = record { it = []; pc = 0; size = 0; last = 0 };
}

-- The cell at `curr`, which has to be one of the table's.
unfoldable pub enter : Process → Pcb → Outcome Pcb
enter p t = do
  s ← sem_wait t.pcb_s
  old ← deref (get_elem? t.process_stack t.curr)
  ok (record t {
    process_stack = set t.process_stack t.curr p;
    curr = u8 (t.curr + 1);
    last = u8 (t.last + 1);
    pcb_s = sem_post s;
  })

-- `p_create` on the process with its pid and its name.
unfoldable pub create_at :
    (List ℕ → Option (List ℕ))
    → Contents
    → ℕ
    → List ℕ
    → Option (List ℕ)
    → Process
    → Pcb
    → SemaphoreList
    → Memory
    → Outcome (Pcb × SemaphoreList × Memory)
create_at fopen w cpu_s address name p t sl m = do
  (p1, m1) ← memory_load_req 1024 p m
  called ← deref name
  (fb, sl', m2) ← open_file fopen w (some address) sl m1
  b ← deref fb
  space ← cells_of w p1.address_space m1
  (kills, c, fp) ← init_code_section (some b.fp) space p1.c
  (t', m3) ← kill_if kills cpu_s p1.pid t m2
  end ← deref fp
  t'' ← enter (record p1 { name = called; fb = some (record b { fp = end }); c = c }) t'
  ok (t'', sl', m3)

-- The result is the pid, or -1 as a `u32` where the table is full.
unfoldable pub p_create :
    (List ℕ → Option (List ℕ))
    → Contents
    → ℕ
    → List ℕ
    → Pcb
    → SemaphoreList
    → Memory
    → Outcome (ℕ × Pcb × SemaphoreList × Memory)
p_create fopen w cpu_s address t sl m = if leb max_address_size (length address) then fault else (do
  name ← process_name address
  if leb (max_pcb - 1) t.curr then ok (2 ^ 32 - 1, t, sl, m) else (do
    (t', sl', m') ←
        create_at fopen w cpu_s address name (started t.last_pid)
          (record t { last_pid = u16 (t.last_pid + 1) }) sl m
    ok (t.last_pid, t', sl', m')))

-- What `log_process` shows.
pub data Report : Type 0 where
  no_process : Report
  shown : List ℕ → ℕ → Status → ℕ → Report

-- There is no word for an inactive process.
abbrev pub named : Status → Outcome Status
named inactive = fault
named s = ok s

abbrev pub report_of : Process → Outcome Report
report_of p = if p.pid == 0 then ok no_process else (do
  b ← deref p.fb
  status ← named p.status
  ok (shown (take 120 p.name) p.pid status b.h.rw_count))

-- Without a process of that pid the local variable is used as it is, which C leaves undefined.
unfoldable pub log_process : ℕ → Pcb → Outcome Report
unfolding find_pid
log_process pid t = do
  i ← deref (find_pid pid 0 t.process_stack)
  p ← deref (get_elem? t.process_stack i)
  report_of p

-- The instruction at `pc` in the new code section, where the other fields are as they were.
unfoldable pub restore : CodeSection → Instruction → CodeSection → Outcome CodeSection
restore old saved c = do
  there ← deref (get_elem? c.it old.pc)
  ok (record { it = set c.it old.pc saved; pc = old.pc; size = old.size; last = old.last })

-- `p_realloc` on the process in cell `i`, with its pointer to memory and the block's header.
unfoldable pub realloc_at :
    Contents
    → ℕ
    → ℕ
    → ℕ
    → ℕ
    → Process
    → Pcb
    → SemaphoreList
    → Memory
    → Outcome (Pcb × SemaphoreList × Memory)
realloc_at w cpu_s a bytes i p t sl m = do
  (it, m1) ← c_alloc 16 m
  saved ← deref (get_elem? p.c.it p.c.pc)
  copy ← deref it
  b ← deref p.fb
  (b', sl', m2) ← read_header w (record b { fp = from_start b.content }) sl m1
  m3 ← c_dealloc (some a) m2
  (buffer, m4) ← c_alloc bytes m3
  space ← cells_of w buffer m4
  (kills, c, fp) ← init_code_section (some b'.fp) space p.c
  end ← deref fp
  let p1 = record p { address_space = buffer; fb = some (record b' { fp = end }) }
  (t', m5) ← kill_if kills cpu_s p.pid (record t { process_stack = set t.process_stack i p1 }) m4
  p2 ← deref (get_elem? t'.process_stack i)
  c' ← restore p.c saved c
  m6 ← c_dealloc (some copy) m5
  ok (record t' { process_stack = set t'.process_stack i (record p2 { c = c' }) }, sl', m6)

unfoldable pub p_realloc :
    Contents
    → ℕ
    → Option ℕ
    → ℕ
    → ℕ
    → Pcb
    → SemaphoreList
    → Memory
    → Outcome (Pcb × SemaphoreList × Memory)
p_realloc w cpu_s none bytes i t sl m = ok (t, sl, m)
p_realloc w cpu_s (some a) bytes i t sl m = do
  h ← get_header a m
  p ← deref (get_elem? t.process_stack i)
  realloc_at w cpu_s a (u32 (u32 (h.page_num * page_size + (2 ^ 32 - header_size)) + bytes)) i p t
      sl m

-- ===== src/Create/Tests.antt =====
-- process.c on a small file.
use chic_os.Base.{
  ℕ, ◌≡◌, refl, Option, some, List, [], ◌∷◌, ◌++◌, arith, replicate, set, tabulate, ok, fault,
  unfinished,
}
use chic_os.Memory.{Memory, fresh_page, take_page, c_alloc, c_dealloc, make_room, place, get_header}
use chic_os.Memory.Invariant.{Inv}
use chic_os.Memory.Pages.{count_free}
use chic_os.Stdio.{digits, strtok, skip, split_at}
use chic_os.Stdio.Scan.{from_start}
use chic_os.Process.{Process, Pcb, SyntBuffer, blank, ready, process_exec, find_pid}
use chic_os.Semaphore.{
  SemaphoreList, init_semaphore, add_semaphore, find_name, get_semaphore_by_name,
}
use chic_os.Synt.Header.{written, init_all}
use chic_os.Synt.Tests.{sixteen, contents, old, no_semaphores, small, small-IsHeader, junk}
use chic_os.Code.Commands.{Command, exec, lock, print}
use chic_os.Code.Load.{text, AllCommands}
use chic_os.Create.{
  process_name, last_token, p_create, log_process, shown, no_process, get_pid, has_pid, p_realloc,
}
use chic_os.Create.Loaded.{Created, p_create-Created}
use chic_os.Create.Realloc.{Restored, p_realloc-Restored}

-- `dir/p1.sint`
abbrev path : List ℕ
path = b'd' ∷ b'/' ∷ b'p' ∷ b'1' ∷ b'.' ∷ b's' ∷ []

abbrev commands : List Command
commands = lock b's' ∷ exec (b'7' ∷ []) ∷ print (b'5' ∷ []) ∷ []

all_commands : AllCommands commands
unfolding digits
all_commands = (
  (λ e. omega arith, λ e. omega arith, λ e. omega arith),
  (
    ((omega arith, omega arith, tt), omega arith, omega arith),
    (((omega arith, omega arith, tt), omega arith, omega arith), tt),
  ),
)

abbrev pub source : List ℕ
source = written small ([] ++ (10 ∷ text commands))

abbrev pub only_file : List ℕ → Option (List ℕ)
only_file p = some source

abbrev pub table : Pcb
table = record { process_stack = replicate 11 blank; curr = 2; last = 1; last_pid = 4; pcb_s = 1 }

name_runs : process_name path ≡ ok (some (b'p' ∷ b'1' ∷ []))
unfolding process_name last_token strtok skip split_at
name_runs = refl

-- A file name of sixteen bytes does not fit.
long_name_runs : process_name (replicate 16 b'a') ≡ fault
unfolding process_name last_token strtok skip split_at
long_name_runs = refl

-- With a process of pid 5 in the table at time 5, no pid is ever found once the time is also one
-- less than a pid.
pid_runs :
    (get_pid 9 7 5 (record blank { pid = 6 } ∷ []) ≡ ok 5)
    × (get_pid 9 6 5 (record blank { pid = 6 } ∷ []) ≡ unfinished)
unfolding get_pid has_pid
pid_runs = (refl, refl)

sixteen-Inv : Inv sixteen
unfolding count_free
sixteen-Inv = omega arith

p_create-Created_example :
    (m : Memory) × (sl : SemaphoreList) × ((t : Pcb) × (p_create only_file contents 0 path table
          no_semaphores sixteen
        ≡ ok (4, t, sl, m))
      × Created table t (b'p' ∷ b'1' ∷ []) 8 (tabulate 127 (contents.cells 8)) small commands)
unfolding init_all init_semaphore add_semaphore find_name get_semaphore_by_name c_alloc make_room
    place process_name last_token strtok skip split_at
p_create-Created_example = (
  _,
  _,
  p_create-Created only_file contents 0 0 8 _ _ path (b'p' ∷ b'1' ∷ []) [] small commands table
      no_semaphores _ sixteen _ _ _ _ (omega arith) refl (omega arith) (omega arith) refl
      sixteen-Inv (omega arith) (omega arith) refl refl refl refl refl small-IsHeader tt
      (omega arith) all_commands (omega arith),
)

abbrev used_buffer : SyntBuffer
used_buffer = record {
  fp = from_start [];
  content = source;
  h = record junk { rw_count = 3 };
  address = path;
  block = 8;
  h_block = 8;
}

-- Eighth in the table, at its second instruction.
abbrev runs_long : Process
runs_long = record blank {
  pid = 4;
  status = ready;
  time_to_run = 0;
  address_space = some 8;
  fb = some used_buffer;
  c = record {
    it = old ∷ record old { e = process_exec; remaining_time = 3 } ∷ replicate 6 old;
    pc = 1;
    size = 0;
    last = 3;
  };
}

abbrev pub running_table : Pcb
running_table = record table { process_stack = set table.process_stack 7 runs_long }

-- With the block of two pages at page 0 that the process has.
abbrev one_block : Memory
one_block = record sixteen {
  free_page_num = 14;
  pages = set (set sixteen.pages 0 (take_page (fresh_page 0))) 1 (take_page (fresh_page 1));
  headers = set sixteen.headers 0 (record { id = 0; page_num = 2 });
}

block_runs : c_alloc 1024 sixteen ≡ ok (some 8, one_block)
unfolding c_alloc make_room place
block_runs = refl

p_realloc-Restored_example :
    (m : Memory) × (sl : SemaphoreList) × (buffer : ℕ) × ((q : Process) × (p_realloc contents 1
          (some 8)
          4008
          7
          running_table
          no_semaphores
          one_block
        ≡ ok (record running_table { process_stack = set running_table.process_stack 7 q }, sl, m))
      × Restored runs_long q buffer
          (record old { e = process_exec; remaining_time = 3 })
          small
          commands)
unfolding init_all init_semaphore add_semaphore find_name get_semaphore_by_name c_alloc make_room
    place get_header c_dealloc
p_realloc-Restored_example = (
  _,
  _,
  _,
  p_realloc-Restored contents 1 8 4008 7 _ _ _ _ _ runs_long
      (record old { e = process_exec; remaining_time = 3 }) used_buffer [] small commands
      running_table no_semaphores _ one_block _ _ _ _ _ _ refl refl refl refl refl refl refl refl
      refl refl refl refl small-IsHeader tt (omega arith) all_commands (omega arith) (omega arith),
)

log_runs :
    (log_process 4 running_table ≡ ok (shown [] 4 ready 3))
    × (log_process 0 running_table ≡ ok no_process)
    × (log_process 6 running_table ≡ fault)
unfolding log_process find_pid
log_runs = (refl, refl, refl)

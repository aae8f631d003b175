-- ===== src/Main/Tests.antt =====
-- chicos.c on a few arguments.
use chic_os.Base.{
  ℕ, ◌+◌, ◌≡◌, ◌≢◌, refl, true, false, none, some, List, [], ◌∷◌, arith, replicate, ok, exits,
  fault,
}
use chic_os.Stdio.{same_bytes, digits}
use chic_os.Memory.{Memory, Mallocs}
use chic_os.Memory.Invariant.{Inv}
use chic_os.Memory.Alloc.{Block}
use chic_os.Process.{Pcb}
use chic_os.Semaphore.{SemaphoreList, get_semaphore_by_name}
use chic_os.Synt.Tests.{no_header, no_semaphores}
use chic_os.Create.Tests.{table}
use chic_os.Memory.{fresh_page}
use chic_os.Utils.{valid_int}
use chic_os.Main.{
  is_help, is_size, is_quiet, short_size, short_quiet, size_arg, args_loop, handle_args, options,
  init_app,
}
use chic_os.Main.Options.{Flag, size, quiet, typed, AllFlags, options-typed}
use chic_os.Main.Start.{all_threads, init_app-Inv}

abbrev flags : List Flag
flags = size false (b'2' ∷ b'0' ∷ b'4' ∷ b'8' ∷ []) ∷ quiet true ∷ []

all_flags : AllFlags flags
unfolding digits
all_flags = (
  (
    (
      omega arith,
      omega arith,
      (omega arith, omega arith, (omega arith, omega arith, (omega arith, omega arith, tt))),
    ),
    omega arith,
    omega arith,
  ),
  (tt, tt),
)

-- A size without a number is read through a null pointer, and `-h` ends the program. The array on the
-- stack is not initialised: with a 1 in its first cell any argument ends the program as `-h` does.
args_run :
    (options (replicate 10 0) (short_size ∷ []) ≡ fault)
    × (options (replicate 10 0) ((b'-' ∷ b'h' ∷ []) ∷ []) ≡ exits)
    × (options (1 ∷ replicate 9 0) (short_quiet ∷ []) ≡ exits)
unfolding options handle_args args_loop size_arg is_help is_size is_quiet same_bytes valid_int
args_run = (refl, refl, refl)

options-typed_example : options (replicate 10 0) (typed flags) ≡ ok (2048, false)
unfolding digits
options-typed_example = options-typed flags (replicate 7 0) all_flags

abbrev mallocs : Mallocs
mallocs = record {
  pool = some (replicate 4 no_header);
  page_array = some (replicate 4 (fresh_page 9));
  stack_array = some (replicate 4 9);
}

init_app-Inv_example :
    (t : Pcb) × (m : Memory) × (sl : SemaphoreList) × (init_app mallocs no_semaphores all_threads
        4500 true table
      ≡ ok (t, m, sl))
    × (t.curr ≡ 0)
    × (t.last ≡ 0)
    × (t.pcb_s ≡ 1)
    × Inv m
    × Block m 0 1
    × (m.free_page_num + 1 ≡ m.len)
    × ((name : ℕ) → name ≢ 0 → get_semaphore_by_name name sl ≡ none)
init_app-Inv_example =
    init_app-Inv mallocs no_semaphores 4500 true table (replicate 4 no_header)
      (replicate 4 (fresh_page 9)) (replicate 4 9) (omega arith) refl refl refl refl refl refl

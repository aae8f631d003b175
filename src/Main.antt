-- ===== src/Main.antt =====
-- src/chicos.c: the arguments, and the start and the end of the program.
pub mod Options
pub mod Start
mod Tests
use chic_os.Base.{
  ℕ, zero, suc, ◌+◌, ◌*◌, Bool, true, false, ◌&&◌, ◌||◌, not, Option, none, some, List, [], ◌∷◌,
  leb, ◌==◌, if◌then◌else◌, get_elem?, set, Outcome, ok, exits, ◌>>=◌, deref,
}
use chic_os.Utils.{valid_int}
use chic_os.Stdio.{same_bytes, atoi}
use chic_os.Log.{LogLevel, get_min_log_level}
use chic_os.Memory.{Memory, Mallocs, mb, init_mem}
use chic_os.Process.{Process, Pcb, init_pcb, clear_pcb}
use chic_os.Semaphore.{SemaphoreList, init_semaphore_list}

-- `app.debug`, which is also the result.
unfoldable pub set_envvar : List ℕ → Bool
set_envvar mode =
    same_bytes mode (b'D' ∷ b'e' ∷ b'b' ∷ b'u' ∷ b'g' ∷ [])
    || same_bytes mode (b'D' ∷ b'E' ∷ b'B' ∷ b'U' ∷ b'G' ∷ [])

-- `BUILD_TYPE` is none where it is not defined; then `app.debug` stays as it is, false.
unfoldable pub set_debug_mode : Option (List ℕ) → Bool × LogLevel
set_debug_mode none = (false, get_min_log_level false)
set_debug_mode (some mode) = let debug = set_envvar mode in (debug, get_min_log_level debug)

unfoldable pub is_help : List ℕ → Bool
is_help s =
    same_bytes s (b'-' ∷ b'-' ∷ b'h' ∷ b'e' ∷ b'l' ∷ b'p' ∷ []) || same_bytes s (b'-' ∷ b'h' ∷ [])

-- `--mem-size`
abbrev pub long_size : List ℕ
long_size = b'-' ∷ b'-' ∷ b'm' ∷ b'e' ∷ b'm' ∷ b'-' ∷ b's' ∷ b'i' ∷ b'z' ∷ b'e' ∷ []

abbrev pub short_size : List ℕ
short_size = b'-' ∷ b'm' ∷ b's' ∷ []

unfoldable pub is_size : List ℕ → Bool
is_size s = same_bytes s long_size || same_bytes s short_size

-- `--no_render`
abbrev pub long_quiet : List ℕ
long_quiet = b'-' ∷ b'-' ∷ b'n' ∷ b'o' ∷ b'_' ∷ b'r' ∷ b'e' ∷ b'n' ∷ b'd' ∷ b'e' ∷ b'r' ∷ []

abbrev pub short_quiet : List ℕ
short_quiet = b'-' ∷ b'n' ∷ b'r' ∷ []

unfoldable pub is_quiet : List ℕ → Bool
is_quiet s = same_bytes s long_quiet || same_bytes s short_quiet

-- The size that stands in the next argument, where there is one.
unfoldable pub size_arg : List (List ℕ) → List ℕ → Outcome (List ℕ)
size_arg rest args = do
  str ← deref (get_elem? rest 0)
  val ← atoi str
  if val == 0 || leb (4 * mb) val then exits else ok (set args 1 val)

-- The loop of `handle_args` over the arguments that are left.
unfoldable pub args_loop : List (List ℕ) → List ℕ → Outcome (List ℕ)
args_loop [] args = ok args
args_loop (s ∷ rest) args = elim (is_help s) [
  | true ↦ ok (set args 0 1)
  | false ↦ do
    args' ← if is_size s then size_arg rest args else ok args
    args_loop rest (if is_quiet s then set args' 2 1 else args')
]

-- The help ends the program.
unfoldable pub handle_args : List ℕ → List (List ℕ) → Outcome (List ℕ)
handle_args args argv = do
  args' ← args_loop argv args
  help ← deref (get_elem? args' 0)
  if help == 1 then exits else ok args'

-- What `main` takes from the arguments: the memory's size, and whether to render. `args` is what
-- its array holds at the start, and `argv` has no program name.
unfoldable pub options : List ℕ → List (List ℕ) → Outcome (ℕ × Bool)
options args [] = ok (mb, true)
options args (s ∷ argv) = do
  args' ← handle_args args (s ∷ argv)
  size ← deref (get_elem? args' 1)
  quiet ← deref (get_elem? args' 2)
  ok (
    if not (size == 0) && valid_int size then size else mb,
    not (not (quiet == 0) && valid_int quiet),
  )

-- Whether `pthread_create` makes each thread.
pub record Threads : Type 0 where
  pub cpu_t : Bool
  pub disk_t : Bool
  pub printer_t : Bool
  pub render_t : Bool

abbrev pub or_crit {ℓ} : {A : Type ℓ} → Bool → Outcome A → Outcome A
or_crit true run = run
or_crit false run = exits

-- What the threads start with; each initialises its own part.
unfoldable pub init_app :
    Mallocs → SemaphoreList → Threads → ℕ → Bool → Pcb → Outcome (Pcb × Memory × SemaphoreList)
init_app b raw threads mem_size should_render t = do
  m ← init_mem b mem_size
  let t' = init_pcb t
  (sl, m') ← init_semaphore_list raw m
  or_crit threads.cpu_t (
      or_crit threads.disk_t (
        or_crit threads.printer_t
          (if should_render then or_crit threads.render_t (ok (t', m', sl)) else ok (t', m', sl))))

-- After the threads have been joined; `clear_mem` gives the memory itself back.
unfoldable pub clear_app : Pcb → Memory → Outcome Memory
clear_app t m = clear_pcb t.process_stack m

-- `main` up to its threads, with what `malloc` and the array on the stack hold.
unfoldable pub main_starts :
    List ℕ
    → Mallocs
    → SemaphoreList
    → Threads
    → List (List ℕ)
    → Pcb
    → Outcome (Pcb × Memory × SemaphoreList)
main_starts args b raw threads argv t = do
  (mem_size, should_render) ← options args argv
  init_app b raw threads mem_size should_render t

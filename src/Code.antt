-- ===== src/Code.antt =====
-- src/modules/process/process.c: how the instructions of a process are read from its file.
pub mod Line
pub mod Commands
pub mod Load
pub mod Section
mod Tests
use chic_os.Base.{
  ℕ, zero, suc, ◌+◌, ◌-◌, ◌*◌, ◌^◌, Bool, true, false, ◌&&◌, ◌||◌, Option, none, some, List, [],
  ◌∷◌, ◌++◌, ltb, leb, ◌==◌, if◌then◌else◌, length, get_elem?, set, Outcome, ok, fault, unfinished,
  ◌>>=◌, deref, u32,
}
use chic_os.Stdio.{
  File, take_line, fgets_of, fgets, split_at, skip, token_of, strtok, cut_of, cut, same_bytes,
  is_space, is_digit, digits, signed, atoi,
}
use chic_os.Process.{
  Event, process_kill, disk_request, print_request, process_exec, semaphore_p, semaphore_v,
  Instruction, CodeSection,
}

abbrev pub exec_word : List ℕ
exec_word = b'e' ∷ b'x' ∷ b'e' ∷ b'c' ∷ []

abbrev pub write_word : List ℕ
write_word = b'w' ∷ b'r' ∷ b'i' ∷ b't' ∷ b'e' ∷ []

abbrev pub read_word : List ℕ
read_word = b'r' ∷ b'e' ∷ b'a' ∷ b'd' ∷ []

abbrev pub print_word : List ℕ
print_word = b'p' ∷ b'r' ∷ b'i' ∷ b'n' ∷ b't' ∷ []

unfoldable pub retrieve_event : List ℕ → Event
unfolding same_bytes
retrieve_event command =
    if same_bytes command (b'V' ∷ [])
    then semaphore_v
    else (if same_bytes command (b'P' ∷ [])
        then semaphore_p
        else (if same_bytes command exec_word
            then process_exec
            else (if same_bytes command write_word || same_bytes command read_word
                then disk_request
                else (if same_bytes command print_word then print_request else process_kill))))

abbrev pub timed : Event → Bool
timed print_request = true
timed disk_request = true
timed process_exec = true
timed _ = false

abbrev pub on_semaphore : Event → Bool
on_semaphore semaphore_v = true
on_semaphore semaphore_p = true
on_semaphore _ = false

-- The name between the parentheses of `aux`: its first byte, which is NUL where it is empty.
unfoldable pub name_of : List ℕ → Outcome ℕ
unfolding strtok
name_of aux = do
  (token, after) ← deref (strtok b'(' aux)
  (inside, more) ← deref (strtok b'(' after)
  (name, closed) ← deref (strtok b')' inside)
  ok (elim name [ [] ↦ 0 | c ∷ cs ↦ c ])

-- The body of the loop of `init_code_section` on the line `aux`; `c` is what stands in its cell.
unfoldable pub decode : List ℕ → ℕ → Instruction → Outcome Instruction
unfolding cut strtok retrieve_event atoi name_of
decode aux pos c = do
  (command, args) ← deref (strtok b' ' (cut b'(' aux))
  let e = retrieve_event command
  let c1 = record c { e = e; fp_pos = pos }
  if timed e
      then (do
        (arg, more) ← deref (strtok b' ' args)
        time ← atoi arg
        ok (record c1 { remaining_time = time }))
      else (if on_semaphore e
          then (do name ← name_of aux; ok (record c1 { sem_name = name }))
          else ok c1)

-- `sizeof(p->address_space) / INSTRUCTION_SIZE`, of the pointer.
abbrev pub code_size : ℕ
code_size = 0

-- The rest of a round, with what `fgets` returned and the loop that follows.
abbrev pub read_next :
    (ℕ → List Instruction → File → Outcome (Option ℕ × List Instruction × File))
    → ℕ
    → List Instruction
    → Option (List ℕ) × File
    → Outcome (Option ℕ × List Instruction × File)
read_next next i it (none, f) = ok (some i, it, f)
read_next next i it (some aux, f) = do
  old ← deref (get_elem? it i)
  c ← decode aux f.pos old
  next (i + 1) (set it i c) f

-- The loop at instruction `i` for at most so many rounds. The result is `i` at its end, or none
-- where the section is too big, and the instructions.
unfoldable pub load_loop :
    ℕ → ℕ → List Instruction → File → Outcome (Option ℕ × List Instruction × File)
load_loop zero i it f = unfinished
load_loop (suc rounds) i it f = elim f.eof [
  | true ↦ ok (some i, it, f)
  | false ↦ elim (leb (u32 (code_size + (2 ^ 32 - 1))) (u32 (i * 16))) [
    | true ↦ ok (none, it, f)
    | false ↦ read_next (load_loop rounds) i it (fgets 16 f)
  ]
]

abbrev pub cells_at : Option (List Instruction) → List Instruction
cells_at none = []
cells_at (some it) = it

abbrev pub last_or : ℕ → Option ℕ → ℕ
last_or last none = last
last_or last (some i) = i

-- A round more than there are bytes is enough.
unfoldable pub load : File → Option (List Instruction) → CodeSection → Outcome (CodeSection × File)
load f space c = do
  let (line, f') = fgets 16 f
  (found, it, end) ← load_loop (length f'.rest + 2) 0 (cells_at space) f'
  ok (record { it = it; pc = 0; size = code_size; last = last_or c.last found }, end)

-- `file` is none where it could not be opened, and `space` holds what stands in the process's
-- address space. The result `true` is the call of `process_kill` on a file at its end.
unfoldable pub init_code_section :
    Option File
    → Option (List Instruction)
    → CodeSection
    → Outcome (Bool × CodeSection × Option File)
init_code_section none space c = ok (false, c, none)
init_code_section (some f) space c = elim f.eof [
  | true ↦ ok (true, c, some f)
  | false ↦ do (c', f') ← load f space c; ok (false, c', some f')
]

-- ===== src/Code/Tests.antt =====
-- The code section of a file with three commands.
use chic_os.Base.{ℕ, ◌≡◌, refl, false, some, List, [], ◌∷◌, ◌++◌, arith, replicate, ok}
use chic_os.Process.{
  Instruction, CodeSection, process_interrupt, process_exec, semaphore_p, semaphore_v, process_kill,
}
use chic_os.Stdio.{
  File, take_line, fgets, skip, strtok, cut, same_bytes, digits, signed, atoi, split_at,
}
use chic_os.Code.{retrieve_event, name_of, decode, load_loop, load, init_code_section}
use chic_os.Code.Commands.{Command, exec, lock, unlock, body, meaning, decode-body, IsCommand}
use chic_os.Code.Load.{text, AllCommands, Read}
use chic_os.Code.Section.{init_code_section-Read}

abbrev old : Instruction
old = record { e = process_interrupt; remaining_time = 9; fp_pos = 9; sem_name = 9 }

abbrev twenty : List ℕ
twenty = b'2' ∷ b'0' ∷ []

abbrev commands : List Command
commands = lock b's' ∷ exec twenty ∷ unlock b's' ∷ []

abbrev source : File
source = record { rest = 10 ∷ text commands; eof = false; pos = 30 }

abbrev section : CodeSection
section = record { it = []; pc = 7; size = 7; last = 7 }

all_commands : AllCommands commands
unfolding digits
all_commands = (
  (λ e. omega arith, λ e. omega arith, λ e. omega arith),
  (
    ((omega arith, omega arith, (omega arith, omega arith, tt)), omega arith, omega arith),
    ((λ e. omega arith, λ e. omega arith, λ e. omega arith), tt),
  ),
)

section_runs :
    (f : File) × (init_code_section (some source) (some (replicate 4 old)) section
      ≡ ok (
        false,
        record {
          it =
              record { e = semaphore_p; remaining_time = 9; fp_pos = 36; sem_name = b's' }
              ∷ record { e = process_exec; remaining_time = 20; fp_pos = 44; sem_name = 9 }
              ∷ record { e = semaphore_v; remaining_time = 9; fp_pos = 49; sem_name = b's' }
              ∷ old
              ∷ [];
          pc = 0;
          size = 0;
          last = 3;
        },
        some f,
      ))
unfolding init_code_section load load_loop fgets take_line decode cut strtok skip split_at
    retrieve_event same_bytes atoi digits signed name_of text
section_runs = (_, refl)

-- An unknown word is a `process_kill`.
unknown_runs : retrieve_event (b's' ∷ b't' ∷ b'o' ∷ b'p' ∷ []) ≡ process_kill
unfolding retrieve_event same_bytes
unknown_runs = refl

number-IsCommand : IsCommand (exec twenty)
unfolding digits
number-IsCommand =
    ((omega arith, omega arith, (omega arith, omega arith, tt)), omega arith, omega arith)

decode-body_example :
    decode (body (exec twenty) ++ (10 ∷ [])) 44 old ≡ ok (meaning (exec twenty) 44 old)
decode-body_example = decode-body (exec twenty) 44 old number-IsCommand

init_code_section-Read_example :
    (c : CodeSection) × (f : File) × (init_code_section
        (some source)
        (some (replicate 4 old))
        section
      ≡ ok (false, c, some f))
    × (c.last ≡ 3)
    × (c.pc ≡ 0)
    × Read 0 commands (replicate 4 old) c.it
init_code_section-Read_example =
    init_code_section-Read [] commands source (replicate 4 old) section tt (omega arith)
      all_commands refl refl (omega arith)

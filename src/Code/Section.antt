-- ===== src/Code/Section.antt =====
-- `init_code_section` as a whole.
use chic_os.Base.{
  ℕ, ◌+◌, ◌≤◌, ◌<◌, ◌≡◌, refl, ◌∙◌, ap, false, Option, some, List, [], ◌∷◌, ◌++◌, arith, length,
  length-append, ok, branch-false,
}
use chic_os.Process.{Instruction, CodeSection}
use chic_os.Stdio.{File, take_line, fgets_of, fgets}
use chic_os.Code.{load_loop, load, init_code_section, code_size}
use chic_os.Code.Line.{Lacks}
use chic_os.Code.Commands.{Command}
use chic_os.Code.Load.{text, AllCommands, Read, load_loop-Read, take_line-append, fgets_of_line}

length-text : (cmds : List Command) → length cmds ≤ length (text cmds)
unfolding text
length-text [] = omega arith
length-text (cmd ∷ cmds) = omega (arith, length-append _ (10 ∷ text cmds), length-text cmds)

-- The line that is skipped.
fgets-line :
    (s rest : List ℕ) (f : File)
    → Lacks 10 s
    → length s < 15
    → f.eof ≡ false
    → f.rest ≡ s ++ (10 ∷ rest)
    → fgets 16 f ≡ (
      some (s ++ (10 ∷ [])),
      record { rest = rest; eof = false; pos = f.pos + length (s ++ (10 ∷ [])) },
    )
unfolding fgets
fgets-line s rest f l short e at =
    ap (λ s. fgets_of f (take_line 15 s)) at
    ∙ ap (fgets_of f) (take_line-append 15 s rest l short)
    ∙ fgets_of_line f s rest e

load_lem :
    (f f1 f2 : File) (line : Option (List ℕ)) (cells it : List Instruction) (c : CodeSection)
    (n : ℕ)
    → fgets 16 f ≡ (line, f1)
    → load_loop (length f1.rest + 2) 0 cells f1 ≡ ok (some n, it, f2)
    → load f (some cells) c ≡ ok (record { it = it; pc = 0; size = code_size; last = n }, f2)
unfolding load
load_lem f f1 f2 line cells it c n got run = rw (got) (rw (run) refl)

init_code_section_lem :
    (f f' : File) (space : Option (List Instruction)) (c c' : CodeSection)
    → f.eof ≡ false
    → load f space c ≡ ok (c', f')
    → init_code_section (some f) space c ≡ ok (false, c', some f')
unfolding init_code_section
init_code_section_lem f f' space c c' e run = branch-false f.eof _ _ e ∙ rw (run) refl

-- On a file that stands before a line of at most 14 bytes and then holds commands, a line each, and
-- with a cell for each of them, `init_code_section` reads them all, in their order, each as the
-- instruction that it stands for, and `last` is their number.
pub init_code_section-Read :
    (s : List ℕ) (cmds : List Command) (f : File) (cells : List Instruction) (c : CodeSection)
    → Lacks 10 s
    → length s < 15
    → AllCommands cmds
    → f.eof ≡ false
    → f.rest ≡ s ++ (10 ∷ text cmds)
    → length cmds ≤ length cells
    → (c' : CodeSection) × (f' : File) × (init_code_section (some f) (some cells) c
        ≡ ok (false, c', some f'))
      × (c'.last ≡ length cmds)
      × (c'.pc ≡ 0)
      × Read 0 cmds cells c'.it
init_code_section-Read s cmds f cells c l short all e at room =
    let f1 : File = record {
      rest = text cmds;
      eof = false;
      pos = f.pos + length (s ++ (10 ∷ []));
    } in
    let (it', f', run, done) =
      load_loop-Read cmds (length (text cmds) + 2) 0 cells f1 all refl refl
        (omega (arith, length-text cmds)) (omega arith) in
    (
      record { it = it'; pc = 0; size = code_size; last = 0 + length cmds },
      f',
      init_code_section_lem f f' (some cells) c _ e (
          load_lem f f1 f' _ cells it' c (0 + length cmds) (fgets-line s (text cmds) f l short e at)
            run),
      omega arith,
      refl,
      done,
    )

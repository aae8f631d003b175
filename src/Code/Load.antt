-- ===== src/Code/Load.antt =====
-- `init_code_section` on a file of commands.
use native.Mathlib.Nat.{add-zero}
use chic_os.Base.{
  ℕ, zero, suc, ◌+◌, ◌-◌, ◌*◌, ◌^◌, ◌≤◌, ◌<◌, ◌≡◌, refl, ◌∙◌, sym, ap, true, false, Option, none,
  some, List, [], ◌∷◌, ◌++◌, arith, ◌||◌, leb, u32, length, length-set, get_elem?, get_elem?-lt,
  get_elem?-set_self, get_elem?-set_ne, some-injective, branch-false, set, ok, deref, ◌>>=◌,
}
use chic_os.Process.{Instruction}
use chic_os.Stdio.{File, take_line, fgets_of, fgets}
use chic_os.Code.{
  exec_word, write_word, read_word, print_word, decode, load_loop, read_next, code_size,
}
use chic_os.Code.Line.{Lacks, differs, Lacks-append, Digits-Lacks}
use chic_os.Code.Commands.{
  Command, body, meaning, IsCommand, IsNumber, decode-body, absent, absent-Lacks, exec, write, read,
  print, lock, unlock,
}

-- The commands, a line each.
unfoldable pub text : List Command → List ℕ
text [] = []
text (cmd ∷ cmds) = let rest = text cmds in body cmd ++ (10 ∷ rest)

pub take_line-append :
    (n : ℕ) (s rest : List ℕ)
    → Lacks 10 s
    → length s < n
    → take_line n (s ++ (10 ∷ rest)) ≡ (s ++ (10 ∷ []), rest, false)
unfolding take_line
take_line-append zero s rest l lt = absurd (omega arith)
take_line-append (suc n) [] rest l lt = refl
take_line-append (suc n) (c ∷ s) rest (ne, l) lt =
    rw (differs c 10 ne) (rw (take_line-append n s rest l (omega arith)) refl)

short_number : (ds : List ℕ) → IsNumber ds → Lacks 10 ds × (length ds ≤ 8)
short_number [] h = elim h [ ]
short_number (d ∷ s) (ds, small, short) = (Digits-Lacks 10 (d ∷ s) (omega arith) ds, short)

body_fits : (cmd : Command) → IsCommand cmd → Lacks 10 (body cmd) × (length (body cmd) < 15)
unfolding absent
body_fits (exec ds) h =
    let (l, short) = short_number ds h in
    (
      Lacks-append 10 (exec_word ++ (32 ∷ [])) ds (absent-Lacks 10 (exec_word ++ (32 ∷ [])) refl) l,
      omega arith,
    )
body_fits (write ds) h =
    let (l, short) = short_number ds h in
    (
      Lacks-append 10 (write_word ++ (32 ∷ [])) ds (absent-Lacks 10 (write_word ++ (32 ∷ [])) refl)
          l,
      omega arith,
    )
body_fits (read ds) h =
    let (l, short) = short_number ds h in
    (
      Lacks-append 10 (read_word ++ (32 ∷ [])) ds (absent-Lacks 10 (read_word ++ (32 ∷ [])) refl) l,
      omega arith,
    )
body_fits (print ds) h =
    let (l, short) = short_number ds h in
    (
      Lacks-append 10 (print_word ++ (32 ∷ [])) ds (absent-Lacks 10 (print_word ++ (32 ∷ [])) refl)
          l,
      omega arith,
    )
body_fits (lock n) (a, b, c) = (
  Lacks-append 10 (b'P' ∷ b'(' ∷ []) (n ∷ b')' ∷ []) (absent-Lacks 10 (b'P' ∷ b'(' ∷ []) refl)
      (c, (λ e. omega arith, tt)),
  omega arith,
)
body_fits (unlock n) (a, b, c) = (
  Lacks-append 10 (b'V' ∷ b'(' ∷ []) (n ∷ b')' ∷ []) (absent-Lacks 10 (b'V' ∷ b'(' ∷ []) refl)
      (c, (λ e. omega arith, tt)),
  omega arith,
)

pub fgets_of_line :
    (f : File) (s rest : List ℕ)
    → f.eof ≡ false
    → fgets_of f (s ++ (10 ∷ []), rest, false) ≡ (
      some (s ++ (10 ∷ [])),
      record { rest = rest; eof = false; pos = f.pos + length (s ++ (10 ∷ [])) },
    )
fgets_of_line f [] rest e = rw e refl
fgets_of_line f (c ∷ s) rest e = rw e refl

fgets-body :
    (cmd : Command) (rest : List ℕ) (f : File)
    → IsCommand cmd
    → f.eof ≡ false
    → f.rest ≡ body cmd ++ (10 ∷ rest)
    → fgets 16 f ≡ (
      some (body cmd ++ (10 ∷ [])),
      record { rest = rest; eof = false; pos = f.pos + length (body cmd ++ (10 ∷ [])) },
    )
unfolding fgets
fgets-body cmd rest f h e at =
    let (l, short) = body_fits cmd h in
    ap (λ s. fgets_of f (take_line 15 s)) at
    ∙ ap (fgets_of f) (take_line-append 15 (body cmd) rest l short)
    ∙ fgets_of_line f (body cmd) rest e

fgets-empty :
    (f : File)
    → f.rest ≡ []
    → fgets 16 f ≡ (none, record { rest = []; eof = f.eof || true; pos = f.pos })
unfolding fgets take_line
fgets-empty f e = ap (λ s. fgets_of f (take_line 15 s)) e

-- The size never stops the loop.
size_passes : (i : ℕ) → leb (u32 (code_size + (2 ^ 32 - 1))) (u32 (i * 16)) ≡ false
size_passes i = ground arith

round_lem :
    (rounds i : ℕ) (it : List Instruction) (f : File)
    → f.eof ≡ false
    → load_loop (suc rounds) i it f ≡ read_next (load_loop rounds) i it (fgets 16 f)
unfolding load_loop
round_lem rounds i it f e =
    branch-false f.eof _ _ e
    ∙ branch-false (leb (u32 (code_size + (2 ^ 32 - 1))) (u32 (i * 16))) _ _ (size_passes i)

round_reads :
    (rounds i : ℕ) (it : List Instruction) (f f' : File) (aux : List ℕ) (old c : Instruction)
    → f.eof ≡ false
    → fgets 16 f ≡ (some aux, f')
    → get_elem? it i ≡ some old
    → decode aux f'.pos old ≡ ok c
    → load_loop (suc rounds) i it f ≡ load_loop rounds (i + 1) (set it i c) f'
round_reads rounds i it f f' aux old c e got at run =
    round_lem rounds i it f e
    ∙ ap (read_next (load_loop rounds) i it) got
    ∙ read (get_elem? it i) at
  where
    read :
        (o : Option Instruction)
        → o ≡ some old
        → (deref o >>= λ old.
            decode aux f'.pos old >>= λ c. load_loop rounds (i + 1) (set it i c) f')
          ≡ load_loop rounds (i + 1) (set it i c) f'
    read o h = rw (h) (rw (run) refl)

round_ends :
    (rounds i : ℕ) (it : List Instruction) (f f' : File)
    → f.eof ≡ false
    → fgets 16 f ≡ (none, f')
    → load_loop (suc rounds) i it f ≡ ok (some i, it, f')
round_ends rounds i it f f' e got =
    round_lem rounds i it f e ∙ ap (read_next (load_loop rounds) i it) got

-- What the cells hold after the commands from cell `i` on have been read.
abbrev pub Read : ℕ → List Command → List Instruction → List Instruction → Type 0
Read i cmds it it' =
    ((j : ℕ) → j < i → get_elem? it' j ≡ get_elem? it j)
    × ((k : ℕ) (cmd : Command)
        → get_elem? cmds k ≡ some cmd
        → (pos : ℕ) × (old : Instruction) × (get_elem? it' (i + k) ≡ some (meaning cmd pos old)))

abbrev pub AllCommands : List Command → Type 0
AllCommands [] = Unit {0}
AllCommands (cmd ∷ cmds) = IsCommand cmd × AllCommands cmds

Read-cons :
    (i pos : ℕ) (cmd : Command) (cmds : List Command) (it it' : List Instruction)
    (old : Instruction)
    → i < length it
    → Read (i + 1) cmds (set it i (meaning cmd pos old)) it'
    → Read i (cmd ∷ cmds) it it'
Read-cons i pos cmd cmds it it' old lt (before, after) = (earlier, later)
  where
    earlier : (j : ℕ) → j < i → get_elem? it' j ≡ get_elem? it j
    earlier j h = before j (omega arith) ∙ get_elem?-set_ne it i j _ (λ e. omega arith)

    later :
        (k : ℕ) (c : Command)
        → get_elem? (cmd ∷ cmds) k ≡ some c
        → (pos : ℕ) × (old : Instruction) × (get_elem? it' (i + k) ≡ some (meaning c pos old))
    later zero c e = (
      pos,
      old,
      ap (get_elem? it') (add-zero i)
          ∙ before i (omega arith)
          ∙ get_elem?-set_self it i _ lt
          ∙ ap (λ c. some (meaning c pos old)) (some-injective e),
    )
    later (suc k) c e =
        let (p, o, at) = after k c e in (p, o, ap (get_elem? it') (omega arith) ∙ at)

pub load_loop-Read :
    (cmds : List Command) (rounds i : ℕ) (it : List Instruction) (f : File)
    → AllCommands cmds
    → f.eof ≡ false
    → f.rest ≡ text cmds
    → length cmds < rounds
    → i + length cmds ≤ length it
    → (it' : List Instruction) × (f' : File) × (load_loop rounds i it f
        ≡ ok (some (i + length cmds), it', f'))
      × Read i cmds it it'
unfolding text
load_loop-Read cmds zero i it f all e at lt room = absurd (omega arith)
load_loop-Read [] (suc rounds) i it f all e at lt room = (
  it,
  record { rest = []; eof = f.eof || true; pos = f.pos },
  round_ends rounds i it f _ e (fgets-empty f at)
      ∙ ap (λ n. ok (some n, it, record { rest = []; eof = f.eof || true; pos = f.pos }))
          (sym (add-zero i)),
  (λ j h. refl, λ k cmd e. cc),
)
load_loop-Read (cmd ∷ cmds) (suc rounds) i it f (is, all) e at lt room =
    let (old, found) = get_elem?-lt it i (omega arith) in
    let pos = f.pos + length (body cmd ++ (10 ∷ [])) in
    let c = meaning cmd pos old in
    let (it', f', run, done) =
      load_loop-Read cmds rounds (i + 1) (set it i c)
        (record { rest = text cmds; eof = false; pos = pos }) all refl refl (omega arith)
        (omega (arith, length-set it i c)) in
    (
      it',
      f',
      round_reads rounds i it f _ _ old c e (fgets-body cmd (text cmds) f is e at) found
            (decode-body cmd pos old is)
          ∙ run
          ∙ ap (λ n. ok (some n, it', f')) (omega arith),
      Read-cons i pos cmd cmds it it' old (omega arith) done,
    )

-- ===== src/Code/Commands.antt =====
-- The commands of a process's file, as text and as instructions.
use chic_os.Base.{
  ℕ, ◌^◌, ◌≤◌, ◌<◌, ◌≡◌, ◌≢◌, refl, Bool, true, false, some, List, [], ◌∷◌, ◌++◌, arith, ◌==◌,
  ==_iff, length, ok,
}
use chic_os.Process.{
  Event, process_interrupt, process_create, process_kill, disk_finish, mem_load_req,
  mem_load_finish, semaphore_p, semaphore_v, print_finish, disk_request, print_request,
  process_exec, Instruction,
}
use chic_os.Stdio.{strtok, cut, digits}
use chic_os.Code.{
  retrieve_event, exec_word, write_word, read_word, print_word, on_semaphore, timed, name_of,
  decode,
}
use chic_os.Code.Line.{Lacks, Digits, decode_timed_lem, strtok-word, strtok-all, cut-word}

-- The numbers are the bytes of their digits, and a semaphore has one byte for its name.
pub data Command : Type 0 where
  exec write read print : List ℕ → Command
  lock unlock : ℕ → Command

-- A line of the file without its end.
abbrev pub body : Command → List ℕ
body (exec ds) = exec_word ++ (b' ' ∷ ds)
body (write ds) = write_word ++ (b' ' ∷ ds)
body (read ds) = read_word ++ (b' ' ∷ ds)
body (print ds) = print_word ++ (b' ' ∷ ds)
body (lock n) = b'P' ∷ b'(' ∷ n ∷ b')' ∷ []
body (unlock n) = b'V' ∷ b'(' ∷ n ∷ b')' ∷ []

-- The instruction that a command stands for, in a cell that held `old`.
abbrev pub meaning : Command → ℕ → Instruction → Instruction
meaning (exec ds) pos old = record old {
  e = process_exec;
  fp_pos = pos;
  remaining_time = digits 0 ds;
}
meaning (write ds) pos old = record old {
  e = disk_request;
  fp_pos = pos;
  remaining_time = digits 0 ds;
}
meaning (read ds) pos old = record old {
  e = disk_request;
  fp_pos = pos;
  remaining_time = digits 0 ds;
}
meaning (print ds) pos old = record old {
  e = print_request;
  fp_pos = pos;
  remaining_time = digits 0 ds;
}
meaning (lock n) pos old = record old { e = semaphore_p; fp_pos = pos; sem_name = n }
meaning (unlock n) pos old = record old { e = semaphore_v; fp_pos = pos; sem_name = n }

-- At least one digit, a number that an `int` holds, and at most 14 bytes to the line.
abbrev pub IsNumber : List ℕ → Type 0
IsNumber [] = ⊥
IsNumber (d ∷ s) = Digits (d ∷ s) × (digits 0 (d ∷ s) < 2 ^ 31) × (length (d ∷ s) ≤ 8)

abbrev pub IsName : ℕ → Type 0
IsName n = (n ≢ b'(') × (n ≢ b')') × (n ≢ 10)

abbrev pub IsCommand : Command → Type 0
IsCommand (exec ds) = IsNumber ds
IsCommand (write ds) = IsNumber ds
IsCommand (read ds) = IsNumber ds
IsCommand (print ds) = IsNumber ds
IsCommand (lock n) = IsName n
IsCommand (unlock n) = IsName n

not_timed : (e : Event) → on_semaphore e ≡ true → timed e ≡ false
not_timed process_interrupt h = refl
not_timed process_create h = refl
not_timed process_kill h = refl
not_timed disk_finish h = refl
not_timed mem_load_req h = refl
not_timed mem_load_finish h = refl
not_timed semaphore_p h = refl
not_timed semaphore_v h = refl
not_timed print_finish h = refl
not_timed disk_request h = cc
not_timed print_request h = cc
not_timed process_exec h = cc

-- `Lacks`, as a test.
unfoldable pub absent : ℕ → List ℕ → Bool
absent d [] = true
absent d (c ∷ s) = let rest = absent d s in elim (c == d) [ true ↦ false | false ↦ rest ]

pub absent-Lacks : (d : ℕ) (s : List ℕ) → absent d s ≡ true → Lacks d s
unfolding absent
absent-Lacks d [] h = tt
absent-Lacks d (c ∷ s) h = go (c == d) (λ e. (==_iff c d).1 e) (absent-Lacks d s) h
  where
    go :
        (b : Bool)
        → (c ≡ d → b ≡ true)
        → (absent d s ≡ true → Lacks d s)
        → (elim b [ true ↦ false | false ↦ absent d s ]) ≡ true
        → (c ≢ d) × Lacks d s
    go true is rest h = cc
    go false is rest h = (λ e. cc (is e), rest h)

name_of_lem :
    (c n : ℕ) → c ≢ b'(' → n ≢ b'(' → n ≢ b')' → name_of (c ∷ b'(' ∷ n ∷ b')' ∷ 10 ∷ []) ≡ ok n
unfolding name_of
name_of_lem c n paren open_ne close_ne =
    rw (strtok-word b'(' c [] (n ∷ b')' ∷ 10 ∷ []) (paren, tt)) (
      rw (strtok-all b'(' n (b')' ∷ 10 ∷ []) (open_ne, (λ e. omega arith, (λ e. omega arith, tt))))
        (rw (strtok-word b')' n [] (10 ∷ []) (close_ne, tt)) refl))

decode_name_lem :
    (c n pos : ℕ) (old : Instruction)
    → c ≢ b'('
    → c ≢ b' '
    → on_semaphore (retrieve_event (c ∷ [])) ≡ true
    → n ≢ b'('
    → n ≢ b')'
    → decode (c ∷ b'(' ∷ n ∷ b')' ∷ 10 ∷ []) pos old
      ≡ ok (record old { e = retrieve_event (c ∷ []); fp_pos = pos; sem_name = n })
unfolding decode
decode_name_lem c n pos old paren space is open_ne close_ne =
    rw (front) (rw (command) (rw (timed_not, is) (rw (name) refl)))
  where
    front : cut b'(' (c ∷ b'(' ∷ n ∷ b')' ∷ 10 ∷ []) ≡ c ∷ []
    front = cut-word b'(' c [] (n ∷ b')' ∷ 10 ∷ []) (paren, tt)

    command : strtok b' ' (c ∷ []) ≡ some (c ∷ [], [])
    command = strtok-all b' ' c [] (space, tt)

    timed_not : timed (retrieve_event (c ∷ [])) ≡ false
    timed_not = not_timed (retrieve_event (c ∷ [])) is

    name : name_of (c ∷ b'(' ∷ n ∷ b')' ∷ 10 ∷ []) ≡ ok n
    name = name_of_lem c n paren open_ne close_ne

-- A line with a command is read as the instruction that the command stands for: its event, and its
-- number or the name of its semaphore. The field that it has no use for keeps what it held.
pub decode-body :
    (cmd : Command) (pos : ℕ) (old : Instruction)
    → IsCommand cmd
    → decode (body cmd ++ (10 ∷ [])) pos old ≡ ok (meaning cmd pos old)
unfolding retrieve_event absent
decode-body (exec []) pos old h = elim h [ ]
decode-body (write []) pos old h = elim h [ ]
decode-body (read []) pos old h = elim h [ ]
decode-body (print []) pos old h = elim h [ ]
decode-body (exec (d ∷ s)) pos old (ds, small, short) =
    decode_timed_lem b'e' d pos (b'x' ∷ b'e' ∷ b'c' ∷ []) s old (absent-Lacks b'(' exec_word refl)
      (absent-Lacks b' ' exec_word refl) refl ds small
decode-body (write (d ∷ s)) pos old (ds, small, short) =
    decode_timed_lem b'w' d pos (b'r' ∷ b'i' ∷ b't' ∷ b'e' ∷ []) s old
      (absent-Lacks b'(' write_word refl) (absent-Lacks b' ' write_word refl) refl ds small
decode-body (read (d ∷ s)) pos old (ds, small, short) =
    decode_timed_lem b'r' d pos (b'e' ∷ b'a' ∷ b'd' ∷ []) s old (absent-Lacks b'(' read_word refl)
      (absent-Lacks b' ' read_word refl) refl ds small
decode-body (print (d ∷ s)) pos old (ds, small, short) =
    decode_timed_lem b'p' d pos (b'r' ∷ b'i' ∷ b'n' ∷ b't' ∷ []) s old
      (absent-Lacks b'(' print_word refl) (absent-Lacks b' ' print_word refl) refl ds small
decode-body (lock n) pos old (a, b, c) =
    decode_name_lem b'P' n pos old (λ e. omega arith) (λ e. omega arith) refl a b
decode-body (unlock n) pos old (a, b, c) =
    decode_name_lem b'V' n pos old (λ e. omega arith) (λ e. omega arith) refl a b

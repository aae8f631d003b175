-- ===== src/Scheduler/Shift.antt =====
-- `scheduler_kill_process`: its loops on a table with one more cell in front.
use native.Mathlib.Numerals.{add-one}
use chic_os.Base.{
  ℕ, zero, suc, ◌+◌, ◌-◌, ◌≡◌, refl, Bool, true, false, Option, none, some, List, [], ◌∷◌, arith,
  length, get_elem?, set, Outcome, ok, ◌>>=◌, waits, fault, exits, unfinished, u8, deref, sem_wait,
}
use chic_os.Process.{Process, Pcb}
use chic_os.Scheduler.{is_kill, shift_over, kill_loop}

abbrev pub table : Pcb → List Process → ℕ → Pcb
table t stack last = record t { process_stack = stack; last = last }

-- What is left of a shift: each cell takes the next one's process, and the last keeps its own.
unfoldable pub shifted : Process → List Process → List Process
shifted p [] = p ∷ []
shifted p (q ∷ qs) = q ∷ shifted q qs

back : (j : ℕ) → suc j - 1 ≡ j
back j = omega arith

shift_over-cons :
    (n j : ℕ) (x : Process) (stack : List Process)
    → shift_over n (suc (suc j)) (x ∷ stack) ≡ (shift_over n (suc j) stack >>= λ s. ok (x ∷ s))
unfolding shift_over
shift_over-cons zero j x stack = refl
shift_over-cons (suc n) j x stack =
    go (get_elem? stack (suc j)) (λ p. shift_over-cons n (suc j) x (set stack j p))
  where
    go :
        (o : Option Process)
        → ((p : Process)
            → shift_over n (suc (suc (suc j))) (x ∷ set stack j p)
              ≡ (shift_over n (suc (suc j)) (set stack j p) >>= λ s. ok (x ∷ s)))
        → (deref o >>= λ p. shift_over n (suc (suc j) + 1) (set (x ∷ stack) (suc (suc j) - 1) p))
          ≡ ((deref o >>= λ p. shift_over n (suc j + 1) (set stack (suc j - 1) p)) >>= λ s.
              ok (x ∷ s))
    go none rec = refl
    go (some p) rec = rw (add-one (suc j), add-one (suc (suc j)), back j, back (suc j)) (rec p)

pub shift_over-shifted :
    (p : Process) (ps : List Process) → shift_over (length ps) 1 (p ∷ ps) ≡ ok (shifted p ps)
unfolding shift_over shifted
shift_over-shifted p [] = refl
shift_over-shifted p (q ∷ qs) =
    rw (shift_over-cons (length qs) 0 q (q ∷ qs)) (rw (shift_over-shifted q qs) refl)

-- The rest of the pass after a shift.
abbrev killed_rest : ℕ → ℕ → ℕ → ℕ → Pcb → Outcome (List Process) → Outcome Pcb
killed_rest n next s last t shift = shift >>= λ stack.
    kill_loop n next (record t { process_stack = stack; last = u8 (last + 255); pcb_s = suc s })

abbrev pub lifted : Process → Pcb → Outcome Pcb
lifted x r = ok (table r (x ∷ r.process_stack) r.last)

-- One round on a table with a cell more in front, from the same for the rounds that are left.
module _ (n i : ℕ) (x : Process) (stack : List Process) (last : ℕ) (t : Pcb)
    (rec : (stack : List Process) (last : ℕ) (t : Pcb)
      → kill_loop n (suc (suc i)) (table t (x ∷ stack) last)
        ≡ (kill_loop n (suc i) (table t stack last) >>= lifted x)) where
  shift-cons :
      (s : ℕ) (o : Outcome (List Process))
      → killed_rest n (suc (suc i)) s last t (o >>= λ s. ok (x ∷ s))
        ≡ (killed_rest n (suc i) s last t o >>= lifted x)
  shift-cons s (ok stack') = (rec stack' (u8 (last + 255)) (record t { pcb_s = suc s }))
  shift-cons s waits = refl
  shift-cons s fault = refl
  shift-cons s exits = refl
  shift-cons s unfinished = refl

  lock-cons :
      (s : ℕ)
      → (sem_wait s >>= λ s.
          killed_rest n (suc i + 1) s last t (shift_over n (suc i + 1) (x ∷ stack)))
        ≡ ((sem_wait s >>= λ s. killed_rest n (i + 1) s last t (shift_over n (i + 1) stack))
            >>= lifted x)
  lock-cons zero = refl
  lock-cons (suc s) =
      rw (add-one i, add-one (suc i), shift_over-cons n i x stack)
        (shift-cons s (shift_over n (suc i) stack))

  round-cons :
      kill_loop (suc n) (suc i) (table t (x ∷ stack) last)
      ≡ (kill_loop (suc n) i (table t stack last) >>= lifted x)
  unfolding kill_loop
  round-cons = cell (get_elem? stack i)
    where
      body : ℕ → List Process → Process → Outcome Pcb
      body i stack p = elim (is_kill p.status) [
        | false ↦ kill_loop n (i + 1) (table t stack last)
        | true ↦
            sem_wait t.pcb_s >>= λ s. killed_rest n (i + 1) s last t (shift_over n (i + 1) stack)
      ]

      killed :
          (b : Bool)
          → (elim b [
            | false ↦ kill_loop n (suc i + 1) (table t (x ∷ stack) last)
            | true ↦ sem_wait t.pcb_s >>= λ s.
                killed_rest n (suc i + 1) s last t (shift_over n (suc i + 1) (x ∷ stack))
          ])
            ≡ ((elim b [
              | false ↦ kill_loop n (i + 1) (table t stack last)
              | true ↦ sem_wait t.pcb_s >>= λ s.
                  killed_rest n (i + 1) s last t (shift_over n (i + 1) stack)
            ])
                >>= lifted x)
      killed false = rw (add-one i, add-one (suc i)) (rec stack last t)
      killed true = lock-cons t.pcb_s

      cell :
          (o : Option Process)
          → (deref o >>= body (suc i) (x ∷ stack)) ≡ ((deref o >>= body i stack) >>= lifted x)
      cell none = refl
      cell (some p) = killed (is_kill p.status)

pub kill_loop-cons :
    (n i : ℕ) (x : Process) (stack : List Process) (last : ℕ) (t : Pcb)
    → kill_loop n (suc i) (table t (x ∷ stack) last)
      ≡ (kill_loop n i (table t stack last) >>= lifted x)
unfolding kill_loop
kill_loop-cons zero i x stack last t = refl
kill_loop-cons (suc n) i x stack last t = round-cons n i x stack last t (kill_loop-cons n (suc i) x)

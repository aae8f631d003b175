-- ===== src/Scheduler/Pass.antt =====
-- `scheduler_kill_process` as a whole.
use chic_os.Base.{
  ℕ, zero, suc, ◌+◌, ◌≤◌, ◌<◌, ◌≡◌, refl, ◌∙◌, ap, subst, true, false, List, [], ◌∷◌, some, arith,
  length, get_elem?, take, ok, Bool-cases, inl, inr, Bool,
}
use chic_os.Process.{Process, Pcb}
use chic_os.Scheduler.{is_kill, scheduler_kill_process, kill_loop}
use chic_os.Scheduler.Shift.{table, shifted}
use chic_os.Scheduler.Reap.{
  AliveFrom, reap, Reaped, Reaped-all, Reaped-kept, Reaped-killed_last, Reaped-killed,
  length-shifted, AliveFrom-shifted,
}

pass-Reaped :
    (n s base k : ℕ) (stack : List Process) (t : Pcb)
    → t.pcb_s ≡ suc s
    → length stack ≡ n
    → k < n
    → base + k < 256
    → AliveFrom k stack
    → Reaped t stack base k
pass-Reaped zero s base k stack t lock len lt small alive = absurd (omega arith)
pass-Reaped (suc n) s base zero stack t lock len lt small alive = Reaped-all stack base t alive
pass-Reaped (suc n) s base (suc k) [] t lock len lt small alive = absurd (omega arith)
pass-Reaped (suc n) s base (suc k) (p ∷ []) t lock len lt small alive = absurd (omega arith)
pass-Reaped (suc n) s base (suc k) (p ∷ q ∷ qs) t lock len lt small alive =
    elim (Bool-cases (is_kill p.status)) [
      | inr kept ↦ Reaped-kept base k p (q ∷ qs) t kept (
          pass-Reaped n s (base + 1) k (q ∷ qs) t lock (omega arith) (omega arith) (omega arith)
            (λ j r le. alive (suc j) r (omega arith)))
      | inl killed ↦
          killed_case k lt small alive killed
            (λ k. pass-Reaped n s (base + 1) k (shifted q qs) t lock)
    ]
  where
    killed_case :
        (k : ℕ)
        → suc k < suc n
        → base + suc k < 256
        → AliveFrom (suc k) (p ∷ q ∷ qs)
        → is_kill p.status ≡ true
        → ((k : ℕ)
            → length (shifted q qs) ≡ n
            → k < n
            → base + 1 + k < 256
            → AliveFrom k (shifted q qs)
            → Reaped t (shifted q qs) (base + 1) k)
        → Reaped t (p ∷ q ∷ qs) base (suc k)
    killed_case zero lt small alive h rec =
        Reaped-killed_last s base p q qs t lock (omega arith) h
          (λ j r le. alive (suc j) r (omega arith))
    killed_case (suc k) lt small alive h rec =
        Reaped-killed s base k p q qs t lock (omega arith) h (omega arith) (
          rec k (omega (arith, length-shifted q qs)) (omega arith) (omega arith)
            (AliveFrom-shifted k q qs (omega arith) (λ j r le. alive (suc j) r (omega arith))))

-- On a table of 11 cells with at most 10 in use, and no killed process beyond those, one pass of
-- `scheduler_kill_process` goes through and leaves `reap` of the processes in use: a killed
-- process is dropped, and the one after it is kept unseen, so that a killed one stays.
pub scheduler_kill_process-reap :
    (s : ℕ) (t : Pcb)
    → t.pcb_s ≡ suc s
    → length t.process_stack ≡ 11
    → t.last ≤ 10
    → AliveFrom t.last t.process_stack
    → (stack' : List Process) × (last' : ℕ) × (scheduler_kill_process t ≡ ok (table t stack' last'))
      × (take last' stack' ≡ reap (take t.last t.process_stack))
unfolding scheduler_kill_process
scheduler_kill_process-reap s t lock len few alive =
    let (k', stack', last', run, count, same) =
      pass-Reaped 11 s 0 t.last t.process_stack t lock len (omega arith) (omega arith) alive t.last
        (omega arith) in
    (
      stack',
      last',
      subst (λ n. kill_loop n 0 (table t t.process_stack t.last) ≡ ok (table t stack' last')) len
          run,
      ap (λ n. take n stack') (omega arith) ∙ same,
    )

-- The processes that are not killed.
unfoldable pub survivors : List Process → List Process
survivors [] = []
survivors (p ∷ ps) =
    let rest = survivors ps in elim (is_kill p.status) [ true ↦ rest | false ↦ p ∷ rest ]

-- No two killed processes in a row.
abbrev pub Spread : List Process → Type 0
Spread stack =
    (j : ℕ) (p q : Process)
    → get_elem? stack j ≡ some p
    → get_elem? stack (suc j) ≡ some q
    → is_kill p.status ≡ true
    → is_kill q.status ≡ false

reap-survivors : (stack : List Process) → Spread stack → reap stack ≡ survivors stack
unfolding reap survivors
reap-survivors [] h = refl
reap-survivors (p ∷ []) h = refl
reap-survivors (p ∷ q ∷ qs) h =
    go (is_kill p.status) (is_kill q.status) (h 0 p q refl refl)
      (reap-survivors (q ∷ qs) (λ j. h (suc j))) (reap-survivors qs (λ j. h (suc (suc j))))
  where
    kept : Bool → List Process
    kept c = elim c [ true ↦ survivors qs | false ↦ q ∷ survivors qs ]

    go :
        (b c : Bool)
        → (b ≡ true → c ≡ false)
        → reap (q ∷ qs) ≡ kept c
        → reap qs ≡ survivors qs
        → (elim b [ true ↦ q ∷ reap qs | false ↦ p ∷ reap (q ∷ qs) ])
          ≡ (elim b [ true ↦ kept c | false ↦ p ∷ kept c ])
    go false c spread next later = ap (λ xs. p ∷ xs) next
    go true false spread next later = ap (λ xs. q ∷ xs) later
    go true true spread next later = absurd (cc (spread refl))

-- If moreover no two processes in use that follow each other are killed, one pass removes exactly
-- the killed processes, and leaves the others in their order.
pub scheduler_kill_process_removes :
    (s : ℕ) (t : Pcb)
    → t.pcb_s ≡ suc s
    → length t.process_stack ≡ 11
    → t.last ≤ 10
    → AliveFrom t.last t.process_stack
    → Spread (take t.last t.process_stack)
    → (stack' : List Process) × (last' : ℕ) × (scheduler_kill_process t ≡ ok (table t stack' last'))
      × (take last' stack' ≡ survivors (take t.last t.process_stack))
scheduler_kill_process_removes s t lock len few alive spread =
    let (stack', last', run, same) = scheduler_kill_process-reap s t lock len few alive in
    (stack', last', run, same ∙ reap-survivors (take t.last t.process_stack) spread)

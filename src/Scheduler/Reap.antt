-- ===== src/Scheduler/Reap.antt =====
-- What one pass of `scheduler_kill_process` removes.
use chic_os.Base.{
  branch-false, branch-true, ℕ, zero, suc, ◌+◌, ◌-◌, ◌≤◌, ◌<◌, ◌≡◌, refl, ◌∙◌, sym, ap, subst, true,
  false, some, List, [], ◌∷◌, arith, length, get_elem?, get_elem?-lt, take, Outcome, ok, u8,
}
use chic_os.Process.{Process, Pcb}
use chic_os.Scheduler.{is_kill, kill_loop, shift_over}
use chic_os.Scheduler.Shift.{table, shifted, shift_over-shifted, kill_loop-cons}

-- The processes that a pass leaves: the one after a killed process takes its cell when the loop has
-- already looked there, so it stays, killed or not.
unfoldable pub reap : List Process → List Process
reap [] = []
reap (p ∷ []) = elim (is_kill p.status) [ true ↦ [] | false ↦ p ∷ [] ]
reap (p ∷ q ∷ qs) = elim (is_kill p.status) [ true ↦ q ∷ reap qs | false ↦ p ∷ reap (q ∷ qs) ]

reap-alive :
    (p : Process) (ps : List Process) → is_kill p.status ≡ false → reap (p ∷ ps) ≡ p ∷ reap ps
unfolding reap
reap-alive p [] h = rw (h, reap) refl
reap-alive p (q ∷ qs) h = rw (h, reap) refl

-- No process from cell `k` on is killed.
abbrev pub AliveFrom : ℕ → List Process → Type 0
AliveFrom k stack =
    (j : ℕ) (p : Process) → k ≤ j → get_elem? stack j ≡ some p → is_kill p.status ≡ false

pub length-shifted : (p : Process) (ps : List Process) → length (shifted p ps) ≡ suc (length ps)
unfolding shifted
length-shifted p [] = refl
length-shifted p (q ∷ qs) = ap suc (length-shifted q qs)

take-shifted :
    (k : ℕ) (p : Process) (ps : List Process) → k ≤ length ps → take k (shifted p ps) ≡ take k ps
unfolding shifted
take-shifted zero p ps h = refl
take-shifted (suc k) p [] h = absurd (omega arith)
take-shifted (suc k) p (q ∷ qs) h = ap (λ xs. q ∷ xs) (take-shifted k q qs (omega arith))

-- Where a process of the shifted cells stood before.
shifted_from :
    (j : ℕ) (p r : Process) (ps : List Process)
    → get_elem? (shifted p ps) j ≡ some r
    → (i : ℕ) × (get_elem? (p ∷ ps) i ≡ some r)
      × (j ≤ i)
      × (j < length ps → i ≡ suc j)
      × (length ps ≤ j → i ≡ length ps)
unfolding shifted
shifted_from zero p r [] e = (0, e, omega arith, λ lt. absurd (omega arith), λ le. refl)
shifted_from (suc j) p r [] e = cc
shifted_from zero p r (q ∷ qs) e = (1, e, omega arith, λ lt. refl, λ le. absurd (omega arith))
shifted_from (suc j) p r (q ∷ qs) e =
    let (i, at, le, near, far) = shifted_from j q r qs e in
    (suc i, at, omega arith, λ lt. ap suc (near (omega arith)), λ le. ap suc (far (omega arith)))

pub AliveFrom-shifted :
    (k : ℕ) (p : Process) (ps : List Process)
    → k < length ps
    → AliveFrom (suc k) (p ∷ ps)
    → AliveFrom k (shifted p ps)
AliveFrom-shifted k p ps lt alive j r le e =
    let (i, at, after, near, far) = shifted_from j p r ps e in
    alive i r (ground (arith, near, far)) at

AliveFrom-shifted_all :
    (p : Process) (ps : List Process) → AliveFrom 0 (p ∷ ps) → AliveFrom 0 (shifted p ps)
AliveFrom-shifted_all p ps alive j r le e =
    let (i, at, after, near, far) = shifted_from j p r ps e in alive i r (omega arith) at

round-alive :
    (n i last : ℕ) (stack : List Process) (t : Pcb) (p : Process)
    → get_elem? stack i ≡ some p
    → is_kill p.status ≡ false
    → kill_loop (suc n) i (table t stack last) ≡ kill_loop n (i + 1) (table t stack last)
unfolding kill_loop
round-alive n i last stack t p at h = rw (at) (branch-false (is_kill p.status) _ _ h)

-- A pass over cells of which none is killed.
kill_loop-alive :
    (n i last : ℕ) (stack : List Process) (t : Pcb)
    → i + n ≤ length stack
    → AliveFrom i stack
    → kill_loop n i (table t stack last) ≡ ok (table t stack last)
unfolding kill_loop
kill_loop-alive zero i last stack t h alive = refl
kill_loop-alive (suc n) i last stack t h alive =
    let (p, at) = get_elem?-lt stack i (omega arith) in
    round-alive n i last stack t p at (alive i p (omega arith) at)
    ∙ kill_loop-alive n (i + 1) last stack t (omega arith) (λ j q le. alive j q (omega arith))

round-kept :
    (n last : ℕ) (p : Process) (ps : List Process) (t r : Pcb)
    → is_kill p.status ≡ false
    → kill_loop n 0 (table t ps last) ≡ ok r
    → kill_loop (suc n) 0 (table t (p ∷ ps) last) ≡ ok (table r (p ∷ r.process_stack) r.last)
round-kept n last p ps t r h run =
    round-alive n 0 last (p ∷ ps) t p refl h ∙ kill_loop-cons n 0 p ps last t ∙ rw run refl

round-killed :
    (n s last : ℕ) (p q : Process) (ps qs : List Process) (t r : Pcb)
    → t.pcb_s ≡ suc s
    → is_kill p.status ≡ true
    → shift_over n 1 (p ∷ ps) ≡ ok (q ∷ qs)
    → kill_loop n 0 (table t qs (u8 (last + 255))) ≡ ok r
    → kill_loop (suc n) 0 (table t (p ∷ ps) last) ≡ ok (table r (q ∷ r.process_stack) r.last)
unfolding kill_loop
round-killed n s last p q ps qs t r lock h shift run =
    step ∙ kill_loop-cons n 0 q qs (u8 (last + 255)) t ∙ rw run refl
  where
    step :
        kill_loop (suc n) 0 (table t (p ∷ ps) last)
        ≡ kill_loop n 1 (table t (q ∷ qs) (u8 (last + 255)))
    step = branch-true (is_kill p.status) _ _ h ∙ rw (lock) (rw (shift) refl)

-- What a pass over the cells of `stack`, the first `k` of them in use, comes to, if `base` cells
-- lie before them.
abbrev pub Reaped : Pcb → List Process → ℕ → ℕ → Type 0
Reaped t stack base k =
    (last : ℕ)
    → last ≡ base + k
    → (k' : ℕ) × (stack' : List Process) × (last' : ℕ) × (kill_loop (length stack) 0
          (table t stack last)
        ≡ ok (table t stack' last'))
      × (last' ≡ base + k')
      × (take k' stack' ≡ reap (take k stack))

pub Reaped-all :
    (stack : List Process) (base : ℕ) (t : Pcb) → AliveFrom 0 stack → Reaped t stack base 0
unfolding reap
Reaped-all stack base t alive last e =
    (0, stack, last, kill_loop-alive (length stack) 0 last stack t (omega arith) alive, e, refl)

-- The process in front is not killed.
pub Reaped-kept :
    (base k : ℕ) (p : Process) (ps : List Process) (t : Pcb)
    → is_kill p.status ≡ false
    → Reaped t ps (base + 1) k
    → Reaped t (p ∷ ps) base (suc k)
Reaped-kept base k p ps t h rest last e =
    let (k', stack', last', run, count, same) = rest last (omega arith) in
    (
      suc k',
      p ∷ stack',
      last',
      round-kept (length ps) last p ps t (table t stack' last') h run,
      omega arith,
      ap (λ xs. p ∷ xs) same ∙ sym (reap-alive p (take k ps) h),
    )

shift-front :
    (p q : Process) (qs : List Process)
    → shift_over (suc (length qs)) 1 (p ∷ q ∷ qs) ≡ ok (q ∷ shifted q qs)
unfolding shifted
shift-front p q qs = shift_over-shifted p (q ∷ qs)

reap-killed :
    (p q : Process) (qs : List Process) → is_kill p.status ≡ true → reap (p ∷ q ∷ qs) ≡ q ∷ reap qs
unfolding reap
reap-killed p q qs h = rw (h, reap) refl

reap-single : (p : Process) → is_kill p.status ≡ true → reap (p ∷ []) ≡ []
unfolding reap
reap-single p h = rw (h, reap) refl

loop_length :
    (p : Process) (ps stack : List Process) (last : ℕ) (t : Pcb) (o : Outcome Pcb)
    → kill_loop (length (shifted p ps)) 0 (table t stack last) ≡ o
    → kill_loop (suc (length ps)) 0 (table t stack last) ≡ o
loop_length p ps stack last t o =
    subst (λ n. kill_loop n 0 (table t stack last) ≡ o) (length-shifted p ps)

less_one : (last : ℕ) → 0 < last → last < 256 → u8 (last + 255) ≡ last - 1
less_one last pos small = omega arith

-- The process in front is killed, and the last cell in use is the front one.
pub Reaped-killed_last :
    (s base : ℕ) (p q : Process) (qs : List Process) (t : Pcb)
    → t.pcb_s ≡ suc s
    → base + 1 < 256
    → is_kill p.status ≡ true
    → AliveFrom 0 (q ∷ qs)
    → Reaped t (p ∷ q ∷ qs) base 1
Reaped-killed_last s base p q qs t lock small h alive last e = (
  0,
  q ∷ shifted q qs,
  base,
  round-killed (suc (length qs)) s last p q (q ∷ qs) (shifted q qs) t (table t (shifted q qs) base)
      lock h (shift-front p q qs) run,
  omega arith,
  sym (reap-single p h),
)
  where
    run :
        kill_loop (suc (length qs)) 0 (table t (shifted q qs) (u8 (last + 255)))
        ≡ ok (table t (shifted q qs) base)
    run =
        ap (λ n. kill_loop (suc (length qs)) 0 (table t (shifted q qs) n)) (omega arith)
        ∙ loop_length q qs (shifted q qs) base t _ (
            kill_loop-alive (length (shifted q qs)) 0 base (shifted q qs) t (omega arith)
              (AliveFrom-shifted_all q qs alive))

-- The process in front is killed, and another one takes its cell.
pub Reaped-killed :
    (s base k : ℕ) (p q : Process) (qs : List Process) (t : Pcb)
    → t.pcb_s ≡ suc s
    → base + suc (suc k) < 256
    → is_kill p.status ≡ true
    → k ≤ length qs
    → Reaped t (shifted q qs) (base + 1) k
    → Reaped t (p ∷ q ∷ qs) base (suc (suc k))
Reaped-killed s base k p q qs t lock small h le rest last e =
    let (k', stack', last', run, count, same) = rest (u8 (last + 255)) (omega arith) in
    (
      suc k',
      q ∷ stack',
      last',
      round-killed (suc (length qs)) s last p q (q ∷ qs) (shifted q qs) t (table t stack' last')
          lock h (shift-front p q qs) (loop_length q qs (shifted q qs) (u8 (last + 255)) t _ run),
      omega arith,
      ap (λ xs. q ∷ xs) (same ∙ ap reap (take-shifted k q qs le))
          ∙ sym (reap-killed p q (take k qs) h),
    )

-- ===== src/Scheduler/Select.antt =====
-- Which process `scheduler_get_process` picks.
use native.Mathlib.Nat.{add-zero}
use chic_os.Base.{
  ℕ, zero, suc, ◌+◌, ◌^◌, ◌<◌, ◌≡◌, refl, ◌∙◌, sym, ap, subst, inl, inr, Bool, true, false, Option,
  none, some, List, arith, get_elem?, modify, Outcome, ok, if◌then◌else◌, Bool-cases, ℕ_discrete,
  some-injective, ok-injective, ◌==◌, ◌>>=◌,
}
use chic_os.Process.{Process, Pcb, SyntBuffer}
use chic_os.Scheduler.{
  is_held, preferred, choose, select, dispatched, dispatch, scheduler_get_process,
}
use chic_os.Scheduler.Preferred.{
  Before, IsScheduled, Picked, preferred-Before, preferred-not_Before, choose_lem,
}

-- One round.
abbrev advance : ℕ → Process → Option ℕ → List Process → Outcome (Option ℕ)
advance i c selected stack = if is_held c.status then ok selected else choose i c selected stack

select_go :
    (n rounds i : ℕ) (selected selected' : Option ℕ) (c : Process) (stack : List Process)
    → get_elem? stack i ≡ some c
    → advance i c selected stack ≡ ok selected'
    → select (suc rounds) i selected (suc n) stack ≡ select rounds (i + 1) selected' (suc n) stack
unfolding select
select_go n rounds i selected selected' c stack at run = rw (at) (go (is_held c.status) run)
  where
    go :
        (b : Bool)
        → (if b then ok selected else choose i c selected stack) ≡ ok selected'
        → (elim b [
          | true ↦ select rounds (i + 1) selected (suc n) stack
          | false ↦ do
            chosen ← choose i c selected stack
            select rounds (i + 1) chosen (suc n) stack
        ])
          ≡ select rounds (i + 1) selected' (suc n) stack
    go true e = ap (λ o. select rounds (i + 1) o (suc n) stack) (ok-injective e)
    go false e = rw (e) refl

-- The cell at the border is the only new one.
at_border {ℓ} :
    (P : Process → Type ℓ) (i j : ℕ) (c q : Process) (stack : List Process)
    → get_elem? stack i ≡ some c
    → P c
    → (j < i → P q)
    → j < i + 1
    → get_elem? stack j ≡ some q
    → P q
at_border P i j c q stack at here earlier lt found = elim (ℕ_discrete i j) [
  | yes same ↦ subst P (some-injective (sym at ∙ ap (get_elem? stack) same ∙ found)) here
  | no ne ↦ earlier (omega arith)
]

Picked-none :
    (i : ℕ) (c : Process) (stack : List Process)
    → get_elem? stack i ≡ some c
    → is_held c.status ≡ false
    → Picked stack i none
    → Picked stack (i + 1) (some i)
Picked-none i c stack at free held =
    (c, omega arith, at, free, all, λ j q lt found runs. cc (held j q lt found, runs))
  where
    all :
        (j : ℕ) (q : Process)
        → j < i + 1
        → get_elem? stack j ≡ some q
        → is_held q.status ≡ false
        → ¬ Before q c
    all j q lt found =
        at_border (λ q. is_held q.status ≡ false → ¬ Before q c) i j c q stack at
          (λ runs. ground arith) (λ near runs. cc (held j q near found, runs)) lt found

Picked-held :
    (i : ℕ) (c : Process) (selected : Option ℕ) (stack : List Process)
    → get_elem? stack i ≡ some c
    → is_held c.status ≡ true
    → Picked stack i selected
    → Picked stack (i + 1) selected
Picked-held i c none stack at held h = λ j q lt found.
    at_border (λ q. is_held q.status ≡ true) i j c q stack at held (λ near. h j q near found) lt
      found
Picked-held i c (some k) stack at held (p, lt, found, free, all, earlier) =
    (p, omega arith, found, free, more, earlier)
  where
    more :
        (j : ℕ) (q : Process)
        → j < i + 1
        → get_elem? stack j ≡ some q
        → is_held q.status ≡ false
        → ¬ Before q p
    more j q lt found =
        at_border (λ q. is_held q.status ≡ false → ¬ Before q p) i j c q stack at
          (λ runs. cc (held, runs)) (λ near. all j q near found) lt found

module _ (i k : ℕ) (c p : Process) (stack : List Process) (at : get_elem? stack i ≡ some c)
    (runs : is_held c.status ≡ false) (lt : k < i) (found : get_elem? stack k ≡ some p)
    (free : is_held p.status ≡ false)
    (all : (j : ℕ) (q : Process)
      → j < i
      → get_elem? stack j ≡ some q
      → is_held q.status ≡ false
      → ¬ Before q p)
    (earlier : (j : ℕ) (q : Process)
      → j < k
      → get_elem? stack j ≡ some q
      → is_held q.status ≡ false
      → Before p q) where
  Picked-better : Before c p → Picked stack (i + 1) (some i)
  Picked-better b = (c, omega arith, at, runs, more, first)
    where
      more :
          (j : ℕ) (q : Process)
          → j < i + 1
          → get_elem? stack j ≡ some q
          → is_held q.status ≡ false
          → ¬ Before q c
      more j q lt found =
          at_border (λ q. is_held q.status ≡ false → ¬ Before q c) i j c q stack at
            (λ runs. ground arith) (λ near free' worse. all j q near found free' (ground arith)) lt
            found

      first :
          (j : ℕ) (q : Process)
          → j < i
          → get_elem? stack j ≡ some q
          → is_held q.status ≡ false
          → Before c q
      first j q lt found free' = let worst = all j q lt found free' in ground arith

  Picked-stays : ¬ Before c p → Picked stack (i + 1) (some k)
  Picked-stays b = (p, omega arith, found, free, more, earlier)
    where
      more :
          (j : ℕ) (q : Process)
          → j < i + 1
          → get_elem? stack j ≡ some q
          → is_held q.status ≡ false
          → ¬ Before q p
      more j q lt found =
          at_border (λ q. is_held q.status ≡ false → ¬ Before q p) i j c q stack at (λ runs. b)
            (λ near. all j q near found) lt found

choose-Picked :
    (i last : ℕ) (c : Process) (h : SyntBuffer) (o : Option ℕ) (stack : List Process)
    → IsScheduled stack last
    → i < last
    → get_elem? stack i ≡ some c
    → c.fb ≡ some h
    → h.h.rw_count < 2 ^ 31
    → is_held c.status ≡ false
    → Picked stack i o
    → (o' : Option ℕ) × (choose i c o stack ≡ ok o') × Picked stack (i + 1) o'
unfolding choose
choose-Picked i last c h none stack s inside at head small runs p =
    (some i, refl, Picked-none i c stack at runs p)
choose-Picked i last c h (some k) stack s inside at head small runs
      (p, lt, found, able, all, earlier) =
    let (q, g, found', head', small') = s.cell k (omega arith) in
    let same = some-injective (sym found' ∙ found) in
    let head_p = subst (λ (x : Process). x.fb ≡ some g) same head' in
    let older = s.ordered k i p c lt inside found at in
    let e = choose_lem i k c p h g stack found head head_p in
    elim (Bool-cases (preferred c h.h.rw_count p g.h.rw_count)) [
      | inl better ↦ (
        some i,
        e ∙ rw better refl,
        Picked-better i k c p stack at runs lt found able all earlier
            (preferred-Before c p h g head head_p small small' older better),
      )
      | inr worse ↦ (
        some k,
        e ∙ rw worse refl,
        Picked-stays i k c p stack at runs lt found able all earlier
            (preferred-not_Before c p h g head head_p small small' older worse),
      )
    ]

-- One round of the loop.
advance-Picked :
    (i last : ℕ) (c : Process) (h : SyntBuffer) (selected : Option ℕ) (stack : List Process)
    → IsScheduled stack last
    → i < last
    → get_elem? stack i ≡ some c
    → c.fb ≡ some h
    → h.h.rw_count < 2 ^ 31
    → Picked stack i selected
    → (selected' : Option ℕ) × (advance i c selected stack ≡ ok selected')
      × Picked stack (i + 1) selected'
advance-Picked i last c h selected stack s inside at head small picked =
    elim (Bool-cases (is_held c.status)) [
      | inl held ↦ (selected, rw held refl, Picked-held i c selected stack at held picked)
      | inr runs ↦
          (let (o, run, p) =
              choose-Picked i last c h selected stack s inside at head small runs picked in
            (o, rw runs run, p))
    ]

select-Picked :
    (n rounds i : ℕ) (selected : Option ℕ) (stack : List Process)
    → IsScheduled stack (i + rounds)
    → Picked stack i selected
    → (selected' : Option ℕ) × (select rounds i selected (suc n) stack ≡ ok (selected', suc n))
      × Picked stack (i + rounds) selected'
unfolding select
select-Picked n zero i selected stack s p =
    (selected, refl, subst (λ k. Picked stack k selected) (sym (add-zero i)) p)
select-Picked n (suc rounds) i selected stack s p =
    let (c, h, at, head, small) = s.cell i (omega arith) in
    let (next, run, picked) =
      advance-Picked i (i + suc rounds) c h selected stack s (omega arith) at head small p in
    let (end, runs, done) =
      select-Picked n rounds (i + 1) next stack (subst (IsScheduled stack) (omega arith) s)
        picked in
    (
      end,
      select_go n rounds i selected next c stack at run ∙ runs,
      subst (λ k. Picked stack k end) (omega arith) done,
    )

-- The table after the choice.
abbrev pub after : Option ℕ → Pcb → Pcb
after none t = t
after (some i) t = record t { process_stack = modify dispatched i t.process_stack }

get_process_lem :
    (n : ℕ) (o : Option ℕ) (t : Pcb)
    → t.pcb_s ≡ suc n
    → (t.last == 0) ≡ false
    → select t.last 0 none (suc n) t.process_stack ≡ ok (o, suc n)
    → scheduler_get_process t ≡ ok (o, after o t)
unfolding scheduler_get_process dispatch
get_process_lem n none t lock some_cell run = rw (some_cell) (rw (lock) (rw (run) refl))
get_process_lem n (some i) t lock some_cell run = rw (some_cell) (rw (lock) (rw (run) refl))

get_process_empty : (t : Pcb) → (t.last == 0) ≡ true → scheduler_get_process t ≡ ok (none, t)
unfolding scheduler_get_process
get_process_empty t empty = rw (empty) refl

-- `scheduler_get_process` returns a process that is neither blocked nor waiting, least in reads and
-- writes and, among those, in the time it has used, and the earliest one of these in the table.
-- It returns NULL exactly if every process is held. The process that it returns runs for a whole
-- time slice; nothing else changes.
pub scheduler_get_process-Picked :
    (n : ℕ) (t : Pcb)
    → t.pcb_s ≡ suc n
    → IsScheduled t.process_stack t.last
    → (o : Option ℕ) × (scheduler_get_process t ≡ ok (o, after o t))
      × Picked t.process_stack t.last o
scheduler_get_process-Picked n t lock s = elim (Bool-cases (t.last == 0)) [
  | inl empty ↦ (none, get_process_empty t empty, λ j q lt found. absurd (ground arith))
  | inr cells ↦
      (let (o, run, picked) =
          select-Picked n t.last 0 none t.process_stack
            (subst (IsScheduled t.process_stack) (omega arith) s)
            (λ j q lt found. absurd (omega arith)) in
        (
          o,
          get_process_lem n o t lock cells run,
          subst (λ n. Picked t.process_stack n o) (omega arith) picked,
        ))
]

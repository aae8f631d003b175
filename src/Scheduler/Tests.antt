-- ===== src/Scheduler/Tests.antt =====
-- scheduler.c on tables with three processes.
use chic_os.Base.{
  ℕ, zero, suc, ◌^◌, ◌<◌, ◌≡◌, refl, subst, false, Option, some, List, [], ◌∷◌, arith, replicate,
  get_elem?, take, ok, some-injective,
}
use chic_os.Process.{Process, Pcb, SyntBuffer, blank, ready, blocked, kill}
use chic_os.Scheduler.{
  is_kill, no_running, scheduler_no_running, preferred, choose, select, dispatch,
  scheduler_get_process, scheduler_kill_process,
}
use chic_os.Scheduler.Preferred.{IsScheduled, Picked}
use chic_os.Scheduler.Select.{after, scheduler_get_process-Picked}
use chic_os.Scheduler.Shift.{table}
use chic_os.Scheduler.Reap.{AliveFrom, reap}
use chic_os.Scheduler.Pass.{
  survivors, Spread, scheduler_kill_process-reap, scheduler_kill_process_removes,
}

abbrev header : ℕ → SyntBuffer
header n = record {
  fp = record { rest = []; eof = false; pos = 0 };
  content = [];
  h = record { name = []; priority = 0; rw_count = n; seg_flag = 0; seg_size = 0; semaphores = [] };
  address = [];
  block = 8;
  h_block = 16;
}

abbrev busy : Process
busy = record blank { pid = 1; fb = some (header 4) }

abbrev held : Process
held = record blank { pid = 2; status = blocked; fb = some (header 0) }

abbrev light : Process
light = record blank { pid = 3; status = ready; fb = some (header 1) }

abbrev dead : Process
dead = record blank { pid = 4; status = kill; fb = some (header 2) }

abbrev pcb_of : List Process → ℕ → Pcb
pcb_of stack n = record { process_stack = stack; curr = n; last = n; last_pid = n; pcb_s = 1 }

abbrev mixed : Pcb
mixed = pcb_of (busy ∷ held ∷ light ∷ replicate 8 blank) 3

abbrev one_dead : Pcb
one_dead = pcb_of (busy ∷ dead ∷ light ∷ replicate 8 blank) 3

abbrev two_dead : Pcb
two_dead = pcb_of (dead ∷ dead ∷ light ∷ replicate 8 blank) 3

get_process_runs : (t : Pcb) × (scheduler_get_process mixed ≡ ok (some 2, t))
unfolding scheduler_get_process select dispatch choose preferred
get_process_runs = (_, refl)

no_running_runs :
    scheduler_no_running mixed
    ≡ ok (pcb_of (record busy { status = ready } ∷ held ∷ light ∷ replicate 8 blank) 3)
unfolding scheduler_no_running no_running
no_running_runs = refl

-- The killed process behind a killed one survives the pass.
two_dead_runs :
    scheduler_kill_process two_dead
    ≡ ok (record (pcb_of (dead ∷ light ∷ replicate 9 blank) 2) { curr = 3; last_pid = 3 })
unfolding scheduler_kill_process
two_dead_runs = refl

mixed-IsScheduled : IsScheduled mixed.process_stack 3
mixed-IsScheduled = record { cell = cell; ordered = ordered }
  where
    cell :
        (j : ℕ)
        → j < 3
        → (p : Process) × (h : SyntBuffer) × (get_elem? mixed.process_stack j ≡ some p)
          × (p.fb ≡ some h)
          × (h.h.rw_count < 2 ^ 31)
    cell zero lt = (busy, header 4, refl, refl, omega arith)
    cell (suc zero) lt = (held, header 0, refl, refl, omega arith)
    cell (suc (suc zero)) lt = (light, header 1, refl, refl, omega arith)
    cell (suc (suc (suc j))) lt = absurd (omega arith)

    pid_at :
        (j : ℕ) (p : Process) → j < 3 → get_elem? mixed.process_stack j ≡ some p → p.pid ≡ suc j
    pid_at zero p lt e = subst (λ (r : Process). r.pid ≡ 1) (some-injective e) refl
    pid_at (suc zero) p lt e = subst (λ (r : Process). r.pid ≡ 2) (some-injective e) refl
    pid_at (suc (suc zero)) p lt e = subst (λ (r : Process). r.pid ≡ 3) (some-injective e) refl
    pid_at (suc (suc (suc j))) p lt e = absurd (omega arith)

    ordered :
        (i j : ℕ) (p q : Process)
        → i < j
        → j < 3
        → get_elem? mixed.process_stack i ≡ some p
        → get_elem? mixed.process_stack j ≡ some q
        → p.pid < q.pid
    ordered i j p q lt inside e f = omega (arith, pid_at i p (omega arith) e, pid_at j q inside f)

blank_alive :
    (n j : ℕ) (p : Process) → get_elem? (replicate n blank) j ≡ some p → is_kill p.status ≡ false
blank_alive zero j p e = cc
blank_alive (suc n) zero p e =
    subst (λ (r : Process). is_kill r.status ≡ false) (some-injective e) refl
blank_alive (suc n) (suc j) p e = blank_alive n j p e

three_alive : (p q r : Process) → AliveFrom 3 (p ∷ q ∷ r ∷ replicate 8 blank)
three_alive p q r zero s le e = absurd (omega arith)
three_alive p q r (suc zero) s le e = absurd (omega arith)
three_alive p q r (suc (suc zero)) s le e = absurd (omega arith)
three_alive p q r (suc (suc (suc j))) s le e = blank_alive 8 j s e

one_dead-Spread : Spread (busy ∷ dead ∷ light ∷ [])
one_dead-Spread zero p q e f h =
    absurd (cc (subst (λ (r : Process). is_kill r.status ≡ false) (some-injective e) refl, h))
one_dead-Spread (suc zero) p q e f h =
    subst (λ (r : Process). is_kill r.status ≡ false) (some-injective f) refl
one_dead-Spread (suc (suc zero)) p q e f h = cc
one_dead-Spread (suc (suc (suc j))) p q e f h = cc

scheduler_get_process-Picked_example :
    (o : Option ℕ) × (scheduler_get_process mixed ≡ ok (o, after o mixed))
    × Picked mixed.process_stack 3 o
scheduler_get_process-Picked_example = scheduler_get_process-Picked 0 mixed refl mixed-IsScheduled

scheduler_kill_process-reap_example :
    (stack : List Process) × (last : ℕ) × (scheduler_kill_process two_dead
      ≡ ok (table two_dead stack last))
    × (take last stack ≡ reap (dead ∷ dead ∷ light ∷ []))
scheduler_kill_process-reap_example =
    scheduler_kill_process-reap 0 two_dead refl refl (omega arith) (three_alive dead dead light)

scheduler_kill_process_removes_example :
    (stack : List Process) × (last : ℕ) × (scheduler_kill_process one_dead
      ≡ ok (table one_dead stack last))
    × (take last stack ≡ survivors (busy ∷ dead ∷ light ∷ []))
scheduler_kill_process_removes_example =
    scheduler_kill_process_removes 0 one_dead refl refl (omega arith) (three_alive busy dead light)
      one_dead-Spread

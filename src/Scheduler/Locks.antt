-- ===== src/Scheduler/Locks.antt =====
-- The table's semaphore is as it was when the scheduler returns.
use chic_os.Base.{
  ℕ, zero, suc, ◌+◌, Option, none, some, List, ◌≡◌, sym, ◌∙◌, ◌==◌, deref, get_elem?, Keeps,
  any-Keeps, then-Keeps, wait-Keeps, ok-Keeps, if_Keeps, split-Keeps,
}
use chic_os.Process.{Process, Pcb}
use chic_os.Scheduler.{
  is_kill, no_running, scheduler_no_running, select, choose, is_held, dispatch,
  scheduler_get_process, shift_over, kill_loop, scheduler_kill_process,
}

no_running-Keeps :
    (rounds i n : ℕ) (t : Pcb)
    → t.pcb_s ≡ n
    → Keeps (λ (t' : Pcb). t'.pcb_s ≡ n) (no_running rounds i t)
unfolding no_running
no_running-Keeps zero i n t e = ok-Keeps t e
no_running-Keeps (suc rounds) i n t e = wait-Keeps t.pcb_s _ λ k h.
    any-Keeps (deref (get_elem? t.process_stack i)) _
      λ p. no_running-Keeps rounds (i + 1) n _ (sym h ∙ e)

pub scheduler_no_running-Keeps :
    (n : ℕ) (t : Pcb) → t.pcb_s ≡ n → Keeps (λ (t' : Pcb). t'.pcb_s ≡ n) (scheduler_no_running t)
unfolding scheduler_no_running
scheduler_no_running-Keeps n t e = no_running-Keeps t.last 0 n t e

kill_loop-Keeps :
    (rounds i n : ℕ) (t : Pcb)
    → t.pcb_s ≡ n
    → Keeps (λ (t' : Pcb). t'.pcb_s ≡ n) (kill_loop rounds i t)
unfolding kill_loop
kill_loop-Keeps zero i n t e = ok-Keeps t e
kill_loop-Keeps (suc rounds) i n t e = any-Keeps (deref (get_elem? t.process_stack i)) _ λ p.
    split-Keeps (is_kill p.status) _ _
      (wait-Keeps t.pcb_s _ λ k h.
        any-Keeps (shift_over rounds (i + 1) t.process_stack) _
          λ stack. kill_loop-Keeps rounds (i + 1) n _ (sym h ∙ e))
      (kill_loop-Keeps rounds (i + 1) n t e)

pub scheduler_kill_process-Keeps :
    (n : ℕ) (t : Pcb) → t.pcb_s ≡ n → Keeps (λ (t' : Pcb). t'.pcb_s ≡ n) (scheduler_kill_process t)
unfolding scheduler_kill_process
scheduler_kill_process-Keeps n t e = kill_loop-Keeps 11 0 n t e

select-Keeps :
    (rounds i n : ℕ) (selected : Option ℕ) (pcb_s : ℕ) (stack : List Process)
    → pcb_s ≡ n
    → Keeps (λ (r : Option ℕ × ℕ). r.1 ≡ n) (select rounds i selected pcb_s stack)
unfolding select
select-Keeps zero i n selected pcb_s stack e = ok-Keeps _ e
select-Keeps (suc rounds) i n selected pcb_s stack e = wait-Keeps pcb_s _ λ k h.
    any-Keeps (deref (get_elem? stack i)) _ λ c.
      split-Keeps (is_held c.status) _ _
        (select-Keeps rounds (i + 1) n selected (suc k) stack (sym h ∙ e))
        (any-Keeps (choose i c selected stack) _
          λ o. select-Keeps rounds (i + 1) n o (suc k) stack (sym h ∙ e))

dispatch-Keeps :
    (n : ℕ) (o : Option ℕ) (t : Pcb)
    → t.pcb_s ≡ n
    → Keeps (λ (r : Option ℕ × Pcb). r.1.pcb_s ≡ n) (dispatch o t)
unfolding dispatch
dispatch-Keeps n none t e = ok-Keeps _ e
dispatch-Keeps n (some i) t e = wait-Keeps t.pcb_s _ λ k h. ok-Keeps _ (sym h ∙ e)

pub scheduler_get_process-Keeps :
    (n : ℕ) (t : Pcb)
    → t.pcb_s ≡ n
    → Keeps (λ (r : Option ℕ × Pcb). r.1.pcb_s ≡ n) (scheduler_get_process t)
unfolding scheduler_get_process
scheduler_get_process-Keeps n t e = if_Keeps (t.last == 0) _ _ (ok-Keeps (none, t) e) (
    then-Keeps _ _ (select-Keeps t.last 0 n none t.pcb_s t.process_stack e)
      λ (o, s) h. dispatch-Keeps n o (record t { pcb_s = s }) h)

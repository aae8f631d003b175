-- ===== src/Process/Locks.antt =====
-- The table's semaphore is as it was when an operation on the table returns.
use chic_os.Base.{
  ℕ, Option, none, some, ◌≡◌, sym, ◌∙◌, Keeps, any-Keeps, wait-Keeps, ok-Keeps, ok, deref,
  get_elem?,
}
use chic_os.Memory.{Memory}
use chic_os.Process.{Process, Pcb, update_found, p_find, p_kill, kill_at, dealloc_if}

pub update_found-Keeps :
    (f : Process → Process) (found : Option ℕ) (t : Pcb) (n : ℕ)
    → t.pcb_s ≡ n
    → Keeps (λ (t' : Pcb). t'.pcb_s ≡ n) (update_found f found t)
unfolding update_found
update_found-Keeps f found t n e =
    wait-Keeps t.pcb_s _ λ k h. any-Keeps (deref found) _ λ i. ok-Keeps _ (sym h ∙ e)

kill_at-Keeps :
    (i n : ℕ) (t : Pcb) (m : Memory)
    → t.pcb_s ≡ n
    → Keeps (λ (r : Pcb × Memory). r.0.pcb_s ≡ n) (kill_at i t m)
unfolding kill_at
kill_at-Keeps i n t m e = wait-Keeps t.pcb_s _ λ k h.
    any-Keeps (deref (get_elem? t.process_stack i)) _
      λ p. any-Keeps (dealloc_if p.address_space m) _ λ m'. ok-Keeps _ (sym h ∙ e)

pub p_kill-Keeps :
    (pid n : ℕ) (t : Pcb) (m : Memory)
    → t.pcb_s ≡ n
    → Keeps (λ (r : Pcb × Memory). r.0.pcb_s ≡ n) (p_kill pid t m)
unfolding p_kill
p_kill-Keeps pid n t m e = at (p_find pid t)
  where
    at :
        (o : Option ℕ)
        → Keeps
            (λ (r : Pcb × Memory). r.0.pcb_s ≡ n)
            (elim o [ none ↦ ok (t, m) | some i ↦ kill_at i t m ])
    at none = ok-Keeps _ e
    at (some i) = kill_at-Keeps i n t m e

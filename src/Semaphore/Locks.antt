-- ===== src/Semaphore/Locks.antt =====
-- The table's semaphore is as it was when an operation on a semaphore returns.
use chic_os.Base.{
  ℕ, ◌+◌, Option, none, some, ◌≡◌, Outcome, deref, sem_wait, get_elem?, ltb, Keeps, then-Keeps,
  any-Keeps, ok-Keeps, if_Keeps, u8,
}
use chic_os.Process.{Pcb, p_find, as_ready}
use chic_os.Process.Locks.{update_found-Keeps}
use chic_os.Semaphore.{
  Semaphore, SemaphoreList, waiter_push, waiter_pop, get_waiters_size, as_waiting, wait_on, signal,
  under_mutex, semaphore_p, semaphore_v,
}

wait_on-Keeps :
    (pid n : ℕ) (s : Semaphore) (t : Pcb)
    → t.pcb_s ≡ n
    → Keeps (λ (r : Semaphore × Pcb). r.1.pcb_s ≡ n) (wait_on pid s t)
unfolding wait_on
wait_on-Keeps pid n s t e = if_Keeps (ltb (u8 (s.value + 255)) 128) _ _ (ok-Keeps _ e) (
    any-Keeps (waiter_push pid (record s { value = u8 (s.value + 255) })) _ λ s'.
      then-Keeps _ _ (update_found-Keeps as_waiting (p_find pid t) t n e) λ t' h. ok-Keeps _ h)

signal-Keeps :
    (n : ℕ) (s : Semaphore) (t : Pcb)
    → t.pcb_s ≡ n
    → Keeps (λ (r : Semaphore × Pcb). r.1.pcb_s ≡ n) (signal s t)
unfolding signal
signal-Keeps n s t e =
    if_Keeps (ltb 0 (get_waiters_size (record s { value = u8 (s.value + 1) }))) _ _
      (any-Keeps (waiter_pop (record s { value = u8 (s.value + 1) })) _
        λ r. then-Keeps _ _ (update_found-Keeps as_ready (p_find r.0 t) t n e) λ t' h. ok-Keeps _ h)
      (ok-Keeps _ e)

under_mutex-Keeps :
    (i n : ℕ) (step : Semaphore → Pcb → Outcome (Semaphore × Pcb)) (sl : SemaphoreList) (t : Pcb)
    → ((s : Semaphore) → Keeps (λ (r : Semaphore × Pcb). r.1.pcb_s ≡ n) (step s t))
    → Keeps (λ (r : SemaphoreList × Pcb). r.1.pcb_s ≡ n) (under_mutex i step sl t)
unfolding under_mutex
under_mutex-Keeps i n step sl t h = any-Keeps (sem_wait sl.mutex) _ λ k.
    any-Keeps (deref (get_elem? sl.l i)) _ λ s. then-Keeps (step s t) _ (h s) λ r k. ok-Keeps _ k

pub semaphore_p-Keeps :
    (sem : Option ℕ) (pid n : ℕ) (sl : SemaphoreList) (t : Pcb)
    → t.pcb_s ≡ n
    → Keeps (λ (r : SemaphoreList × Pcb). r.1.pcb_s ≡ n) (semaphore_p sem pid sl t)
unfolding semaphore_p
semaphore_p-Keeps none pid n sl t e = ok-Keeps _ e
semaphore_p-Keeps (some i) pid n sl t e =
    under_mutex-Keeps i n (wait_on pid) sl t λ s. wait_on-Keeps pid n s t e

pub semaphore_v-Keeps :
    (sem : Option ℕ) (n : ℕ) (sl : SemaphoreList) (t : Pcb)
    → t.pcb_s ≡ n
    → Keeps (λ (r : SemaphoreList × Pcb). r.1.pcb_s ≡ n) (semaphore_v sem sl t)
unfolding semaphore_v
semaphore_v-Keeps none n sl t e = ok-Keeps _ e
semaphore_v-Keeps (some i) n sl t e = under_mutex-Keeps i n signal sl t λ s. signal-Keeps n s t e

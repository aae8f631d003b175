-- ===== src/Semaphore/Counting.antt =====
-- `semaphoreP` and `semaphoreV`: the count and the processes that wait.
use chic_os.Base.{
  ℕ, suc, ◌+◌, ◌<◌, ◌≡◌, ◌≢◌, refl, ◌∙◌, sym, ap, ◌⊎◌, inl, inr, some, List, [], ◌∷◌, ◌++◌, arith,
  get_elem?, set, modify, Outcome, ok, ltb, Bool-cases, true, false, u8,
}
use chic_os.Process.{Process, Pcb, p_find, update_found, as_ready}
use chic_os.Process.Lookup.{FirstWith, p_find_found}
use chic_os.Semaphore.{
  Semaphore, SemaphoreList, get_waiters_size, waiter_push, waiter_pop, as_waiting, wait_on, signal,
  under_mutex, semaphore_p, semaphore_v,
}
use chic_os.Semaphore.Waiters.{queue, IsRing, waiter_push-Pushed, waiter_pop-Popped}

-- The value says how many wait: none, where it is not negative, and otherwise as many as it is
-- below 0.
abbrev pub IsBalanced : Semaphore → Type 0
IsBalanced s =
    ((s.value < 128) × (get_waiters_size s ≡ 0))
    ⊎ ((0 < get_waiters_size s) × (s.value + get_waiters_size s ≡ 256))

-- A process with the pid is in the table, and it is the first one.
abbrev pub At : ℕ → Pcb → ℕ → Type 0
At pid t j = FirstWith pid t.process_stack (some j)

under_mutex_lem :
    (i n : ℕ) (s s' : Semaphore) (sl : SemaphoreList) (t t' : Pcb)
    (step : Semaphore → Pcb → Outcome (Semaphore × Pcb))
    → sl.mutex ≡ suc n
    → get_elem? sl.l i ≡ some s
    → step s t ≡ ok (s', t')
    → under_mutex i step sl t ≡ ok (record sl { l = set sl.l i s' }, t')
unfolding under_mutex
under_mutex_lem i n s s' sl t t' step lock at run = rw (lock) (rw (at) (rw (run) refl))

update_found_lem :
    (f : Process → Process) (pid n j : ℕ) (t : Pcb)
    → t.pcb_s ≡ suc n
    → At pid t j
    → update_found f (p_find pid t) t ≡ ok (record t { process_stack = modify f j t.process_stack })
unfolding update_found
update_found_lem f pid n j t lock first = rw (p_find_found pid j t first, lock) refl

-- One less, and one more.
abbrev lowered : Semaphore → Semaphore
lowered s = record s { value = u8 (s.value + 255) }

abbrev raised : Semaphore → Semaphore
raised s = record s { value = u8 (s.value + 1) }

wait_on_free :
    (pid : ℕ) (s : Semaphore) (t : Pcb)
    → ltb (lowered s).value 128 ≡ true
    → wait_on pid s t ≡ ok (lowered s, t)
unfolding wait_on
wait_on_free pid s t h = rw (h) refl

wait_on_held :
    (pid : ℕ) (s s' : Semaphore) (t t' : Pcb)
    → ltb (lowered s).value 128 ≡ false
    → waiter_push pid (lowered s) ≡ ok s'
    → update_found as_waiting (p_find pid t) t ≡ ok t'
    → wait_on pid s t ≡ ok (s', t')
unfolding wait_on
wait_on_held pid s s' t t' h push run = rw (h) (rw (push) (rw (run) refl))

signal_free :
    (s : Semaphore) (t : Pcb)
    → ltb 0 (get_waiters_size (raised s)) ≡ false
    → signal s t ≡ ok (raised s, t)
unfolding signal
signal_free s t h = rw (h) refl

signal_wakes :
    (q : ℕ) (s s' : Semaphore) (t t' : Pcb)
    → ltb 0 (get_waiters_size (raised s)) ≡ true
    → waiter_pop (raised s) ≡ ok (q, s')
    → update_found as_ready (p_find q t) t ≡ ok t'
    → signal s t ≡ ok (s', t')
unfolding signal
signal_wakes q s s' t t' h pop run = rw (h) (rw (pop) (rw (run) refl))

size-lowered : (s : Semaphore) → get_waiters_size (lowered s) ≡ get_waiters_size s
unfolding get_waiters_size
size-lowered s = refl

size-raised : (s : Semaphore) → get_waiters_size (raised s) ≡ get_waiters_size s
unfolding get_waiters_size
size-raised s = refl

queue-lowered : (s : Semaphore) → queue (lowered s) ≡ queue s
unfolding queue
queue-lowered s = refl

queue-raised : (s : Semaphore) → queue (raised s) ≡ queue s
unfolding queue
queue-raised s = refl

IsRing-lowered : (s : Semaphore) → IsRing s → IsRing (lowered s)
IsRing-lowered s r = record {
  array = r.array;
  waiters = r.waiters;
  long = r.long;
  tail = r.tail;
  head = r.head;
}

IsRing-raised : (s : Semaphore) → IsRing s → IsRing (raised s)
IsRing-raised s r = record {
  array = r.array;
  waiters = r.waiters;
  long = r.long;
  tail = r.tail;
  head = r.head;
}

-- What `semaphoreP` makes of a semaphore and the table: the process takes one, or it waits.
abbrev pub Waited : ℕ → ℕ → Semaphore → Pcb → Semaphore → Pcb → Type 0
Waited pid j s t s' t' =
    IsRing s'
    × IsBalanced s'
    × (((0 < s.value)
          × (s.value < 128)
          × (s'.value + 1 ≡ s.value)
          × (queue s' ≡ queue s)
          × (t' ≡ t))
        ⊎ (((s.value ≡ 0) ⊎ (128 < s.value))
            × (queue s' ≡ queue s ++ (pid ∷ []))
            × (t' ≡ record t { process_stack = modify as_waiting j t.process_stack })))

-- What `semaphoreV` makes of them: the oldest waiter becomes ready, or nobody waits.
abbrev pub Signalled : Semaphore → Pcb → Semaphore → Pcb → Type 0
Signalled s t s' t' =
    IsRing s'
    × IsBalanced s'
    × (((queue s ≡ []) × (queue s' ≡ []) × (s'.value ≡ s.value + 1) × (t' ≡ t))
        ⊎ ((q : ℕ) × (j : ℕ) × (queue s ≡ q ∷ queue s')
            × At q t j
            × (t' ≡ record t { process_stack = modify as_ready j t.process_stack })))

wait_on-Waited :
    (pid n j : ℕ) (s : Semaphore) (t : Pcb)
    → t.pcb_s ≡ suc n
    → At pid t j
    → IsRing s
    → IsBalanced s
    → get_waiters_size s < 63
    → (s' : Semaphore) × (t' : Pcb) × (wait_on pid s t ≡ ok (s', t')) × Waited pid j s t s' t'
wait_on-Waited pid n j s t lock first r b room = elim (Bool-cases (ltb (lowered s).value 128)) [
  | inl free ↦ (
    lowered s,
    t,
    wait_on_free pid s t free,
    (
      IsRing-lowered s r,
      inl (ground arith, ground (arith, size-lowered s)),
      inl (ground arith, ground arith, ground arith, queue-lowered s, refl),
    ),
  )
  | inr held ↦ elim (waiter_push-Pushed pid (lowered s) (IsRing-lowered s r)) [
    | inl (full, run) ↦ absurd (omega (arith, size-lowered s))
    | inr (s', run, (appended, ring, longer, same)) ↦ (
      s',
      record t { process_stack = modify as_waiting j t.process_stack },
      wait_on_held pid s s' t _ held run (update_found_lem as_waiting pid n j t lock first),
      (
        ring,
        inr (omega arith, ground (arith, size-lowered s)),
        inr (ground arith, appended ∙ ap (λ xs. xs ++ (pid ∷ [])) (queue-lowered s), refl),
      ),
    )
  ]
]

signal-Signalled :
    (n : ℕ) (s : Semaphore) (t : Pcb)
    → t.pcb_s ≡ suc n
    → ((q : ℕ) (rest : List ℕ) → queue s ≡ q ∷ rest → (j : ℕ) × At q t j)
    → IsRing s
    → IsBalanced s
    → s.value ≢ 127
    → (s' : Semaphore) × (t' : Pcb) × (signal s t ≡ ok (s', t')) × Signalled s t s' t'
signal-Signalled n s t lock known r b room =
    elim (waiter_pop-Popped (raised s) (IsRing-raised s r)) [
      | inl (nobody, zero_size, run) ↦ (
        raised s,
        t,
        signal_free s t (ground arith),
        (
          IsRing-raised s r,
          inl (ground (arith, size-raised s), zero_size),
          inl (sym (queue-raised s) ∙ nobody, nobody, ground (arith, size-raised s), refl),
        ),
      )
      | inr (q, s', run, (oldest, ring, fewer, same)) ↦
          (let (j, first) = known q (queue s') (sym (queue-raised s) ∙ oldest) in
            (
              s',
              record t { process_stack = modify as_ready j t.process_stack },
              signal_wakes q s s' t _ (ground arith) run
                  (update_found_lem as_ready q n j t lock first),
              (
                ring,
                ground (arith, size-raised s),
                inr (q, j, sym (queue-raised s) ∙ oldest, first, refl),
              ),
            ))
    ]

-- With both semaphores of the program free, a semaphore in balance, fewer than 63 that wait, and
-- the process in the table, `semaphoreP` goes through and keeps the balance. It takes one where the
-- value is positive. Otherwise the pid goes to the end of the queue and the process waits.
pub semaphore_p-Waited :
    (i k n pid j : ℕ) (s : Semaphore) (sl : SemaphoreList) (t : Pcb)
    → sl.mutex ≡ suc k
    → t.pcb_s ≡ suc n
    → get_elem? sl.l i ≡ some s
    → At pid t j
    → IsRing s
    → IsBalanced s
    → get_waiters_size s < 63
    → (s' : Semaphore) × (t' : Pcb) × (semaphore_p (some i) pid sl t
        ≡ ok (record sl { l = set sl.l i s' }, t'))
      × Waited pid j s t s' t'
unfolding semaphore_p
semaphore_p-Waited i k n pid j s sl t mutex lock at first r b room =
    let (s', t', run, w) = wait_on-Waited pid n j s t lock first r b room in
    (s', t', under_mutex_lem i k s s' sl t t' (wait_on pid) mutex at run, w)

-- With both free, a semaphore in balance, a value that is not the greatest, and the oldest waiter,
-- if there is one, in the table, `semaphoreV` goes through and keeps the balance. The oldest waiter
-- leaves the queue and is ready, or nobody waits and the value is one more.
pub semaphore_v-Signalled :
    (i k n : ℕ) (s : Semaphore) (sl : SemaphoreList) (t : Pcb)
    → sl.mutex ≡ suc k
    → t.pcb_s ≡ suc n
    → get_elem? sl.l i ≡ some s
    → ((q : ℕ) (rest : List ℕ) → queue s ≡ q ∷ rest → (j : ℕ) × At q t j)
    → IsRing s
    → IsBalanced s
    → s.value ≢ 127
    → (s' : Semaphore) × (t' : Pcb) × (semaphore_v (some i) sl t
        ≡ ok (record sl { l = set sl.l i s' }, t'))
      × Signalled s t s' t'
unfolding semaphore_v
semaphore_v-Signalled i k n s sl t mutex lock at known r b room =
    let (s', t', run, w) = signal-Signalled n s t lock known r b room in
    (s', t', under_mutex_lem i k s s' sl t t' signal mutex at run, w)

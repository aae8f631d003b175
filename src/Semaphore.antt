-- ===== src/Semaphore.antt =====
-- src/modules/semaphore/semaphore.c: the semaphores that the simulated processes use.
-- A pointer to a semaphore is its index in the list; `none` is a null pointer.
mod Waiters
mod Counting
mod Names
pub mod Locks
mod Tests
use chic_os.Base.{
  ℕ, zero, suc, ◌+◌, ◌-◌, ◌*◌, ◌%◌, ◌^◌, Bool, true, false, Option, none, some, List, [], ◌∷◌, map,
  ltb, leb, ◌==◌, if◌then◌else◌, length, get_elem?, set, Outcome, ok, fault, exits, ◌>>=◌, deref,
  sem_wait, sem_post, u8, u16, u32,
}
use chic_os.Memory.{Memory, c_alloc}
use chic_os.Process.{Process, Pcb, waiting, p_find, update_found, as_ready}

abbrev pub max_size_semaphores : ℕ
max_size_semaphores = 32

abbrev pub default_waiters_num : ℕ
default_waiters_num = 64

-- `value` is the bit pattern of an `i8`.
pub record Semaphore : Type 0 where
  pub id : ℕ
  pub name : ℕ
  pub waiters : Option (List ℕ)
  pub tail : ℕ
  pub head : ℕ
  pub value : ℕ

pub record SemaphoreList : Type 0 where
  pub l : List Semaphore
  pub max : ℕ
  pub last : ℕ
  pub mutex : ℕ

unfoldable pub waiter_push : ℕ → Semaphore → Outcome Semaphore
waiter_push pid s = if (s.tail + 1) % default_waiters_num == s.head then ok s else (do
  w ← deref s.waiters
  let s' = record s { waiters = some (set w s.tail pid); tail = (s.tail + 1) % default_waiters_num }
  if ltb s.tail (length w) then ok s' else fault)

-- An empty queue gives -1 as a `u32`.
unfoldable pub waiter_pop : Semaphore → Outcome (ℕ × Semaphore)
waiter_pop s = if s.head == s.tail then ok (2 ^ 32 - 1, s) else (do
  w ← deref s.waiters
  pid ← deref (get_elem? w s.head)
  ok (pid, record s { head = (s.head + 1) % default_waiters_num }))

-- `head` is always a remainder, so that the difference is not negative.
unfoldable pub get_waiters_size : Semaphore → ℕ
get_waiters_size s = (s.tail + default_waiters_num - s.head) % default_waiters_num

abbrev pub as_waiting : Process → Process
as_waiting p = record p { status = waiting; time_to_run = 0 }

-- What `semaphoreP` does with the semaphore and the process, under the mutex of the list.
unfoldable pub wait_on : ℕ → Semaphore → Pcb → Outcome (Semaphore × Pcb)
wait_on pid s t =
    let s1 = record s { value = u8 (s.value + 255) } in
    if ltb s1.value 128
    then ok (s1, t)
    else (do s2 ← waiter_push pid s1; t' ← update_found as_waiting (p_find pid t) t; ok (s2, t'))

-- The same for `semaphoreV`.
unfoldable pub signal : Semaphore → Pcb → Outcome (Semaphore × Pcb)
signal s t =
    let s1 = record s { value = u8 (s.value + 1) } in
    if ltb 0 (get_waiters_size s1)
    then (do (pid, s2) ← waiter_pop s1; t' ← update_found as_ready (p_find pid t) t; ok (s2, t'))
    else ok (s1, t)

-- A step on the semaphore at `i` with the mutex held.
unfoldable pub under_mutex :
    ℕ
    → (Semaphore → Pcb → Outcome (Semaphore × Pcb))
    → SemaphoreList
    → Pcb
    → Outcome (SemaphoreList × Pcb)
under_mutex i step sl t = do
  n ← sem_wait sl.mutex
  s ← deref (get_elem? sl.l i)
  (s', t') ← step s t
  ok (record sl { l = set sl.l i s'; mutex = sem_post n }, t')

unfoldable pub semaphore_p : Option ℕ → ℕ → SemaphoreList → Pcb → Outcome (SemaphoreList × Pcb)
semaphore_p none pid sl t = ok (sl, t)
semaphore_p (some i) pid sl t = under_mutex i (wait_on pid) sl t

unfoldable pub semaphore_v : Option ℕ → SemaphoreList → Pcb → Outcome (SemaphoreList × Pcb)
semaphore_v none sl t = ok (sl, t)
semaphore_v (some i) sl t = under_mutex i signal sl t

abbrev pub cleared : Semaphore → Semaphore
cleared s = record s { id = 0; name = 0; waiters = none }

-- `raw` is what the memory holds that `c_alloc` returns; its `mutex` is never initialised. 816 is
-- the size of the list in bytes.
unfoldable pub init_semaphore_list : SemaphoreList → Memory → Outcome (SemaphoreList × Memory)
init_semaphore_list raw m = do
  (ptr, m') ← c_alloc 816 m
  elim ptr [
    | none ↦ exits
    | some a ↦ ok (record raw { l = map cleared raw.l; max = 0; last = 0 }, m')
  ]

-- The loop of `get_semaphore_by_name`, from cell `i` on.
unfoldable pub find_name : ℕ → ℕ → List Semaphore → Option ℕ
find_name name i [] = none
find_name name i (s ∷ l) = if s.name == name then some i else find_name name (i + 1) l

unfoldable pub get_semaphore_by_name : ℕ → SemaphoreList → Option ℕ
unfolding find_name
get_semaphore_by_name name sl = find_name name 0 sl.l

-- The semaphore that is written at `last`; 24 is its size in bytes, and `raw` is what the memory
-- holds that its waiters get.
unfoldable pub add_semaphore :
    List ℕ → ℕ → ℕ → SemaphoreList → Memory → Outcome (Bool × SemaphoreList × Memory)
add_semaphore raw name value sl m = do
  (ptr, m1) ← c_alloc 24 m
  sem ← deref ptr
  (waiters, m2) ← c_alloc (u32 (4 * u32 (default_waiters_num + value))) m1
  ok (
    true,
    record sl {
      l = set sl.l sl.last (record {
        id = u16 (sl.max + 1);
        name = name;
        waiters = elim waiters [ none ↦ none | some a ↦ some raw ];
        tail = 0;
        head = 0;
        value = u8 value;
      });
      max = sl.max + 1;
      last = sl.last + 1;
    },
    m2,
  )

-- `false` is the result -1.
unfoldable pub init_semaphore :
    List ℕ → ℕ → ℕ → SemaphoreList → Memory → Outcome (Bool × SemaphoreList × Memory)
init_semaphore raw name value sl m = elim (get_semaphore_by_name name sl) [
  | some i ↦ ok (false, sl, m)
  | none ↦
      if leb max_size_semaphores sl.last
      then ok (false, sl, m)
      else add_semaphore raw name value sl m
]

-- ===== src/Semaphore/Tests.antt =====
-- semaphore.c on a list with one semaphore in use.
use chic_os.Base.{
  ℕ, ◌+◌, ◌*◌, ◌<◌, ◌≡◌, refl, subst, inl, inr, ◌⊎◌, true, false, none, some, List, [], ◌∷◌, arith,
  replicate, get_elem?, set, ok,
}
use chic_os.Memory.{Memory, fresh_page, take_page, c_alloc, make_room, place}
use chic_os.Memory.Tests.{half}
use chic_os.Process.{Pcb, blank, ready, p_find, update_found}
use chic_os.Process.Tests.{three, first, second, second-FirstWith}
use chic_os.Semaphore.{
  Semaphore, SemaphoreList, waiter_push, waiter_pop, get_waiters_size, wait_on, signal, under_mutex,
  semaphore_p, semaphore_v, init_semaphore_list, init_semaphore, get_semaphore_by_name,
}
use chic_os.Semaphore.Waiters.{queue, IsRing, Pushed, waiter_push-Pushed, ring}
use chic_os.Semaphore.Counting.{
  IsBalanced, At, Waited, Signalled, semaphore_p-Waited, semaphore_v-Signalled,
}
use chic_os.Semaphore.Names.{init_semaphore-get_semaphore_by_name}

abbrev unused : Semaphore
unused = record { id = 0; name = 0; waiters = none; tail = 0; head = 0; value = 0 }

-- Free, with the name `A`.
abbrev open_one : Semaphore
open_one = record {
  id = 1;
  name = b'A';
  waiters = some (replicate 65 9);
  tail = 0;
  head = 0;
  value = 1;
}

-- Process 2 waits.
abbrev held_one : Semaphore
held_one = record open_one { waiters = some (2 ∷ replicate 64 9); tail = 1; value = 255 }

abbrev list_of : Semaphore → SemaphoreList
list_of s = record { l = s ∷ replicate 31 unused; max = 1; last = 1; mutex = 1 }

-- A second `semaphoreP` waits, and `semaphoreV` wakes that process again.
two_take :
    (sl : SemaphoreList) × (t : Pcb) × (semaphore_p
        (some 0)
        2
        (list_of (record open_one { value = 0 }))
        three
      ≡ ok (sl, t))
    × (semaphore_v (some 0) sl t
        ≡ ok (
          list_of (record open_one {
            waiters = some (2 ∷ replicate 64 9);
            head = 1;
            tail = 1;
            value = 0;
          }),
          record t {
            process_stack =
                first ∷ record second { status = ready; time_to_run = 0 } ∷ replicate 9 blank;
          },
        ))
unfolding semaphore_p semaphore_v under_mutex wait_on signal waiter_push waiter_pop get_waiters_size
    update_found p_find
two_take = (_, _, refl, refl)

open-IsRing : IsRing open_one
open-IsRing = record {
  array = replicate 65 9;
  waiters = refl;
  long = omega arith;
  tail = omega arith;
  head = omega arith;
}

held-IsRing : IsRing held_one
held-IsRing = record {
  array = 2 ∷ replicate 64 9;
  waiters = refl;
  long = omega arith;
  tail = omega arith;
  head = omega arith;
}

open-IsBalanced : IsBalanced open_one
unfolding get_waiters_size
open-IsBalanced = inl (omega arith, refl)

held-IsBalanced : IsBalanced held_one
unfolding get_waiters_size
held-IsBalanced = inr (omega arith, refl)

held_room : get_waiters_size held_one < 63
unfolding get_waiters_size
held_room = omega arith

held_known : (q : ℕ) (rest : List ℕ) → queue held_one ≡ q ∷ rest → (j : ℕ) × At q three j
unfolding queue ring get_waiters_size
held_known q rest e = (1, subst (λ q. At q three 1) (cc e) second-FirstWith)

abbrev third_taken : Memory
third_taken = record half {
  free_page_num = 1;
  pages =
      take_page (fresh_page 0)
      ∷ take_page (fresh_page 1)
      ∷ take_page (fresh_page 2)
      ∷ fresh_page 3
      ∷ [];
  headers = set half.headers 2 (record { id = 2; page_num = 1 });
}

abbrev all_taken : Memory
all_taken = record third_taken {
  free_page_num = 0;
  pages =
      take_page (fresh_page 0)
      ∷ take_page (fresh_page 1)
      ∷ take_page (fresh_page 2)
      ∷ take_page (fresh_page 3)
      ∷ [];
  headers = set third_taken.headers 3 (record { id = 3; page_num = 1 });
}

third_runs : c_alloc 24 half ≡ ok (some 2056, third_taken)
unfolding c_alloc make_room place
third_runs = refl

fourth_runs : c_alloc (4 * (64 + 1)) third_taken ≡ ok (some 3080, all_taken)
unfolding c_alloc make_room place
fourth_runs = refl

-- The mutex stays what the memory held.
init_list_runs :
    (m : Memory) × (sl : SemaphoreList) × (init_semaphore_list
        (record (list_of held_one) { mutex = 0 })
        half
      ≡ ok (sl, m))
    × (sl.mutex ≡ 0)
unfolding init_semaphore_list c_alloc make_room place
init_list_runs = (_, _, refl, refl)

waiter_push-Pushed_example :
    ((get_waiters_size held_one ≡ 63) × (waiter_push 7 held_one ≡ ok held_one))
    ⊎ ((s : Semaphore) × (waiter_push 7 held_one ≡ ok s) × Pushed 7 held_one s)
waiter_push-Pushed_example = waiter_push-Pushed 7 held_one held-IsRing

semaphore_p-Waited_example :
    (s : Semaphore) × (t : Pcb) × (semaphore_p (some 0) 2 (list_of held_one) three
      ≡ ok (list_of s, t))
    × Waited 2 1 held_one three s t
semaphore_p-Waited_example =
    semaphore_p-Waited 0 0 0 2 1 held_one (list_of held_one) three refl refl refl second-FirstWith
      held-IsRing held-IsBalanced held_room

semaphore_v-Signalled_example :
    (s : Semaphore) × (t : Pcb) × (semaphore_v (some 0) (list_of held_one) three
      ≡ ok (list_of s, t))
    × Signalled held_one three s t
semaphore_v-Signalled_example =
    semaphore_v-Signalled 0 0 0 held_one (list_of held_one) three refl refl refl held_known
      held-IsRing held-IsBalanced (λ e. omega arith)

init_semaphore-get_semaphore_by_name_example :
    (s : Semaphore) × (sl : SemaphoreList) × (init_semaphore
        (replicate 65 9)
        b'B'
        1
        (list_of open_one)
        half
      ≡ ok (true, sl, all_taken))
    × (get_semaphore_by_name b'B' sl ≡ some 1)
    × (get_elem? sl.l 1 ≡ some s)
    × IsRing s
    × (queue s ≡ [])
    × IsBalanced s
    × (init_semaphore (replicate 65 9) b'B' 4 sl half ≡ ok (false, sl, half))
unfolding get_semaphore_by_name
init_semaphore-get_semaphore_by_name_example =
    init_semaphore-get_semaphore_by_name (replicate 65 9) b'B' 1 2056 3080 4 (list_of open_one) half
      third_taken all_taken half refl (omega arith) (omega arith) (omega arith) refl third_runs
      fourth_runs

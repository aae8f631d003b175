-- ===== src/Semaphore/Waiters.antt =====
-- The waiters of a semaphore: a ring of 64 cells in which at most 63 pids stand.
use chic_os.Base.{
  ℕ, zero, suc, ◌+◌, ◌-◌, ◌%◌, ◌^◌, ◌≤◌, ◌<◌, ◌≡◌, refl, ◌∙◌, sym, ap, subst, ◌⊎◌, inl, inr, Option,
  none, some, List, [], ◌∷◌, ◌++◌, arith, length, get_elem?, set, get_elem?-set_self,
  get_elem?-set_ne, length-set, ok, ltb, ◌==◌, Bool-cases, true, false, ap₂, get_elem?-lt,
}
use chic_os.Semaphore.{Semaphore, waiter_push, waiter_pop, get_waiters_size}

-- The pid in a cell that is there.
abbrev pub pid_at : List ℕ → ℕ → ℕ
pid_at w i = elim (get_elem? w i) [ none ↦ 0 | some pid ↦ pid ]

-- The pids in `n` cells from `h` on, round the ring.
unfoldable pub ring : ℕ → ℕ → List ℕ → List ℕ
ring zero h w = []
ring (suc n) h w = pid_at w h ∷ ring n ((h + 1) % 64) w

abbrev pub cells : Option (List ℕ) → List ℕ
cells none = []
cells (some w) = w

-- The pids that wait, the oldest first.
unfoldable pub queue : Semaphore → List ℕ
unfolding ring get_waiters_size
queue s = ring (get_waiters_size s) s.head (cells s.waiters)

pub record IsRing (s : Semaphore) : Type 0 where
  pub array : List ℕ
  pub waiters : s.waiters ≡ some array
  pub long : 64 ≤ length array
  pub tail : s.tail < 64
  pub head : s.head < 64

ring-set :
    (n h t pid : ℕ) (w : List ℕ)
    → h < 64
    → n < 64
    → 64 ≤ length w
    → t ≡ (h + n) % 64
    → ring (suc n) h (set w t pid) ≡ ring n h w ++ (pid ∷ [])
unfolding ring
ring-set zero h t pid w hh hn long e =
    subst (λ i. ring 1 h (set w i pid) ≡ pid ∷ []) (omega arith)
      (ap (λ o. (elim o [ none ↦ 0 | some pid ↦ pid ]) ∷ [])
        (get_elem?-set_self w h pid (omega arith)))
ring-set (suc n) h t pid w hh hn long e =
    ap₂ (λ x xs. x ∷ xs)
      (ap (λ o. elim o [ none ↦ 0 | some pid ↦ pid ])
        (get_elem?-set_ne w t h pid (λ p. omega arith)))
      (ring-set n ((h + 1) % 64) t pid w (omega arith) (omega arith) long (omega arith))

-- What a push does.
abbrev pub Pushed : ℕ → Semaphore → Semaphore → Type 0
Pushed pid s s' =
    (queue s' ≡ queue s ++ (pid ∷ []))
    × IsRing s'
    × (get_waiters_size s' ≡ suc (get_waiters_size s))
    × (s'.value ≡ s.value)

module _ (pid : ℕ) (s : Semaphore) (w : List ℕ) (e : s.waiters ≡ some w) where
  pushed : Semaphore
  pushed = record s { waiters = some (set w s.tail pid); tail = (s.tail + 1) % 64 }

  push_room :
      ((s.tail + 1) % 64 == s.head) ≡ false
      → ltb s.tail (length w) ≡ true
      → waiter_push pid s ≡ ok pushed
  unfolding waiter_push pushed
  push_room room inside = rw (room) (rw (e) (rw (inside) refl))

  push_full : ((s.tail + 1) % 64 == s.head) ≡ true → waiter_push pid s ≡ ok s
  unfolding waiter_push
  push_full full = rw (full) refl

  size-pushed :
      s.tail < 64
      → s.head < 64
      → ((s.tail + 1) % 64 == s.head) ≡ false
      → get_waiters_size pushed ≡ suc (get_waiters_size s)
  unfolding pushed get_waiters_size
  size-pushed tail head room = ground arith

  tail_after : s.tail < 64 → s.head < 64 → s.tail ≡ (s.head + get_waiters_size s) % 64
  unfolding get_waiters_size
  tail_after tail head = omega arith

  size_small : get_waiters_size s < 64
  unfolding get_waiters_size
  size_small = omega arith

  pushed-Pushed :
      64 ≤ length w
      → s.tail < 64
      → s.head < 64
      → ((s.tail + 1) % 64 == s.head) ≡ false
      → Pushed pid s pushed
  unfolding pushed queue
  pushed-Pushed long tail head room = (
    (ap (λ n. ring n s.head (set w s.tail pid)) (size-pushed tail head room)
        ∙ ring-set (get_waiters_size s) s.head s.tail pid w head size_small long
            (tail_after tail head)
        ∙ ap (λ o. ring (get_waiters_size s) s.head (cells o) ++ (pid ∷ [])) (sym e)),
    record {
      array = set w s.tail pid;
      waiters = refl;
      long = omega (arith, length-set w s.tail pid);
      tail = omega arith;
      head = head;
    },
    size-pushed tail head room,
    refl,
  )

-- A pid goes to the end of the queue while fewer than 63 wait. After that it is dropped.
pub waiter_push-Pushed :
    (pid : ℕ) (s : Semaphore)
    → IsRing s
    → ((get_waiters_size s ≡ 63) × (waiter_push pid s ≡ ok s))
      ⊎ ((s' : Semaphore) × (waiter_push pid s ≡ ok s') × Pushed pid s s')
unfolding get_waiters_size
waiter_push-Pushed pid s r = elim (Bool-cases ((s.tail + 1) % 64 == s.head)) [
  | inl full ↦ inl (ground (arith, r.tail, r.head), push_full pid s r.array r.waiters full)
  | inr room ↦ inr (
    pushed pid s r.array r.waiters,
    push_room pid s r.array r.waiters room (ground (arith, r.tail, r.long)),
    pushed-Pushed pid s r.array r.waiters r.long r.tail r.head room,
  )
]

-- What a pop of `q` does.
abbrev pub Popped : ℕ → Semaphore → Semaphore → Type 0
Popped q s s' =
    (queue s ≡ q ∷ queue s')
    × IsRing s'
    × (get_waiters_size s ≡ suc (get_waiters_size s'))
    × (s'.value ≡ s.value)

module _ (s : Semaphore) (r : IsRing s) where
  popped : Semaphore
  popped = record s { head = (s.head + 1) % 64 }

  pop_none :
      (s.head == s.tail) ≡ true
      → (queue s ≡ []) × (get_waiters_size s ≡ 0) × (waiter_pop s ≡ ok (2 ^ 32 - 1, s))
  unfolding waiter_pop queue get_waiters_size
  pop_none empty = (ap (λ n. ring n s.head (cells s.waiters)) none_left, none_left, rw (empty) refl)
    where
      none_left : (s.tail + 64 - s.head) % 64 ≡ 0
      none_left = ground (arith, r.tail, r.head)

  pop_run :
      (q : ℕ)
      → (s.head == s.tail) ≡ false
      → get_elem? r.array s.head ≡ some q
      → waiter_pop s ≡ ok (q, popped)
  unfolding waiter_pop popped
  pop_run q full at = rw (full) (rw (r.waiters) (rw (at) refl))

  size-popped : (s.head == s.tail) ≡ false → get_waiters_size s ≡ suc (get_waiters_size popped)
  unfolding popped get_waiters_size
  size-popped full = ground (arith, r.tail, r.head)

  popped-Popped :
      (q : ℕ) → (s.head == s.tail) ≡ false → get_elem? r.array s.head ≡ some q → Popped q s popped
  unfolding popped queue
  popped-Popped q full at = (
    ap (λ n. ring n s.head (cells s.waiters)) (size-popped full)
        ∙ ap (λ x. x ∷ ring (get_waiters_size popped) ((s.head + 1) % 64) (cells s.waiters))
            (ap (λ o. pid_at (cells o) s.head) r.waiters
              ∙ ap (λ o. elim o [ none ↦ 0 | some pid ↦ pid ]) at),
    record {
      array = r.array;
      waiters = r.waiters;
      long = r.long;
      tail = r.tail;
      head = omega arith;
    },
    size-popped full,
    refl,
  )

-- The oldest pid leaves the queue. An empty queue stays as it is, and gives -1.
pub waiter_pop-Popped :
    (s : Semaphore)
    → IsRing s
    → ((queue s ≡ []) × (get_waiters_size s ≡ 0) × (waiter_pop s ≡ ok (2 ^ 32 - 1, s)))
      ⊎ ((q : ℕ) × (s' : Semaphore) × (waiter_pop s ≡ ok (q, s')) × Popped q s s')
waiter_pop-Popped s r = elim (Bool-cases (s.head == s.tail)) [
  | inl empty ↦ inl (pop_none s r empty)
  | inr full ↦
      (let (q, at) = get_elem?-lt r.array s.head (omega (arith, r.head, r.long)) in
        inr (q, popped s r, pop_run s r q full at, popped-Popped s r q full at))
]

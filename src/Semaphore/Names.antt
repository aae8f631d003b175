-- ===== src/Semaphore/Names.antt =====
-- `init_semaphore` and `get_semaphore_by_name`.
use native.Mathlib.Nat.{add-zero}
use chic_os.Base.{
  ℕ, zero, suc, ◌+◌, ◌*◌, ◌≤◌, ◌<◌, ◌≡◌, refl, ◌∙◌, sym, ap, inl, none, some, List, [], ◌∷◌, arith,
  length, get_elem?, get_elem?-set_self, set, ok, leb, ◌==◌, Bool, true, false, u8, u16, u32,
  ==_iff, if◌then◌else◌,
}
use chic_os.Memory.{Memory, c_alloc}
use chic_os.Semaphore.{
  Semaphore, SemaphoreList, find_name, get_semaphore_by_name, add_semaphore, init_semaphore,
}
use chic_os.Semaphore.Waiters.{IsRing, queue}
use chic_os.Semaphore.Counting.{IsBalanced}

find_name_miss :
    (name i : ℕ) (x : Semaphore) (l : List Semaphore)
    → find_name name i (x ∷ l) ≡ none
    → ((x.name == name) ≡ false) × (find_name name (i + 1) l ≡ none)
unfolding find_name
find_name_miss name i x l h = go (x.name == name) h
  where
    go :
        (b : Bool)
        → (if b then some i else find_name name (i + 1) l) ≡ none
        → (b ≡ false) × (find_name name (i + 1) l ≡ none)
    go true h = cc
    go false h = (refl, h)

find_name-set :
    (name i k : ℕ) (l : List Semaphore) (s : Semaphore)
    → k < length l
    → s.name ≡ name
    → find_name name i l ≡ none
    → find_name name i (set l k s) ≡ some (i + k)
unfolding find_name
find_name-set name i k [] s lt named absent = absurd (omega arith)
find_name-set name i zero (x ∷ l) s lt named absent =
    rw ((==_iff s.name name).1 named) (ap some (sym (add-zero i)))
find_name-set name i (suc k) (x ∷ l) s lt named absent =
    let (other, rest) = find_name_miss name i x l absent in
    rw (other) (find_name-set name (i + 1) k l s (omega arith) named rest ∙ ap some (omega arith))

-- A semaphore as `init_semaphore` makes it.
abbrev pub made : List ℕ → ℕ → ℕ → SemaphoreList → Semaphore
made raw name value sl = record {
  id = u16 (sl.max + 1);
  name = name;
  waiters = some raw;
  tail = 0;
  head = 0;
  value = u8 value;
}

add_semaphore_lem :
    (raw : List ℕ) (name value a b : ℕ) (sl : SemaphoreList) (m m1 m2 : Memory)
    → c_alloc 24 m ≡ ok (some a, m1)
    → c_alloc (u32 (4 * u32 (64 + value))) m1 ≡ ok (some b, m2)
    → add_semaphore raw name value sl m
      ≡ ok (
        true,
        record sl {
          l = set sl.l sl.last (made raw name value sl);
          max = sl.max + 1;
          last = sl.last + 1;
        },
        m2,
      )
unfolding add_semaphore
add_semaphore_lem raw name value a b sl m m1 m2 e1 e2 = rw (e1) (rw (e2) refl)

init_semaphore_new :
    (raw : List ℕ) (name value : ℕ) (sl : SemaphoreList) (m : Memory)
    → get_semaphore_by_name name sl ≡ none
    → leb 32 sl.last ≡ false
    → init_semaphore raw name value sl m ≡ add_semaphore raw name value sl m
unfolding init_semaphore
init_semaphore_new raw name value sl m absent room = rw (absent, init_semaphore) (rw (room) refl)

init_semaphore_known :
    (raw : List ℕ) (name value i : ℕ) (sl : SemaphoreList) (m : Memory)
    → get_semaphore_by_name name sl ≡ some i
    → init_semaphore raw name value sl m ≡ ok (false, sl, m)
unfolding init_semaphore
init_semaphore_known raw name value i sl m known = rw (known, init_semaphore) refl

-- A name that is new, with a cell left, a value below 128, and memory for the semaphore and its
-- waiters, makes a semaphore: `get_semaphore_by_name` finds it, nobody waits for it and it is in
-- balance. The same name a second time gives -1 and changes nothing.
pub init_semaphore-get_semaphore_by_name :
    (raw : List ℕ) (name value a b v : ℕ) (sl : SemaphoreList) (m m1 m2 m3 : Memory)
    → length sl.l ≡ 32
    → sl.last < 32
    → value < 128
    → 64 ≤ length raw
    → get_semaphore_by_name name sl ≡ none
    → c_alloc 24 m ≡ ok (some a, m1)
    → c_alloc (4 * (64 + value)) m1 ≡ ok (some b, m2)
    → (s : Semaphore) × (sl' : SemaphoreList) × (init_semaphore raw name value sl m
        ≡ ok (true, sl', m2))
      × (get_semaphore_by_name name sl' ≡ some sl.last)
      × (get_elem? sl'.l sl.last ≡ some s)
      × IsRing s
      × (queue s ≡ [])
      × IsBalanced s
      × (init_semaphore raw name v sl' m3 ≡ ok (false, sl', m3))
unfolding get_semaphore_by_name queue
init_semaphore-get_semaphore_by_name raw name value a b v sl m m1 m2 m3 len room small long absent
      e1 e2 =
    (
      made raw name value sl,
      sl',
      init_semaphore_new raw name value sl m absent (ground arith)
          ∙ add_semaphore_lem raw name value a b sl m m1 m2 e1
              (ap (λ n. c_alloc n m1) (omega arith) ∙ e2),
      found,
      get_elem?-set_self sl.l sl.last (made raw name value sl) (omega arith),
      record { array = raw; waiters = refl; long = long; tail = omega arith; head = omega arith },
      refl,
      inl (omega arith, refl),
      init_semaphore_known raw name v sl.last sl' m3 found,
    )
  where
    sl' : SemaphoreList
    sl' = record sl {
      l = set sl.l sl.last (made raw name value sl);
      max = sl.max + 1;
      last = sl.last + 1;
    }

    found : get_semaphore_by_name name sl' ≡ some sl.last
    found =
        find_name-set name 0 sl.last sl.l (made raw name value sl) (omega arith) refl absent
        ∙ ap some (omega arith)

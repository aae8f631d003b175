-- ===== src/Memory/Alloc.antt =====
-- `c_alloc` and `c_dealloc`, where there are enough free pages: what a block is, and how blocks come
-- and go.
use chic_os.Base.{
  ℕ, ◌+◌, ◌-◌, ◌*◌, ◌≤◌, ◌<◌, ◌^◌, ◌%◌, ◌≢◌, ◌≡◌, refl, ◌∙◌, sym, subst, false, some, Option, none,
  arith, length-set, get_elem?, set, get_elem?-set_self, get_elem?-set_ne, Outcome, ok, exits, ltb,
  leb, ◌==◌, ◌||◌, inl, inr, ◌⊎◌,
}
use chic_os.Memory.{
  Memory, header_size, page_size, find_run, take_pages, place, num_pages, make_room, c_alloc,
}
use chic_os.Memory.Pages.{
  count_free-le, IsRun, IsTaken, length-take_pages, take_pages_outside, take_pages_inside,
  count_free-take_pages,
}
use chic_os.Memory.Search.{FirstRun, find_run-FirstRun}
use chic_os.Memory.Invariant.{Inv}

-- `n` pages from page `i` on are allocated together, under a header at the first of them.
pub record Block (m : Memory) (i n : ℕ) : Type 0 where
  pub some_pages : 0 < n
  pub within : i + n ≤ m.len
  pub header : get_elem? m.headers i ≡ some (record { id = i; page_num = n })
  pub taken : IsTaken m.pages i n

-- What an allocation of `n` pages at page `i` has done.
pub record Placed (m : Memory) (i n : ℕ) (m' : Memory) : Type 0 where
  pub was_free : IsRun m.pages i n
  pub block : Block m' i n
  pub outside : (j : ℕ) → (i ≤ j → i + n ≤ j) → get_elem? m'.pages j ≡ get_elem? m.pages j
  pub other_headers : (j : ℕ) → i ≢ j → get_elem? m'.headers j ≡ get_elem? m.headers j
  pub same_len : m'.len ≡ m.len
  pub fewer : m'.free_page_num + n ≡ m.free_page_num
  pub inv : Inv m'

-- Either the pages are found at the first place that there is, or there is no place and the
-- program exits.
abbrev pub Allocated : Memory → ℕ → Outcome (Option ℕ × Memory) → Type 0
Allocated m n o =
    ((i : ℕ) × (m' : Memory) × (o ≡ ok (some (i * page_size + header_size), m'))
      × Placed m i n m'
      × ((j : ℕ) → j < i → ¬ IsRun m.pages j n))
    ⊎ ((o ≡ exits) × ((j : ℕ) → j + n ≤ m.len → ¬ IsRun m.pages j n))

module _ (m : Memory) (v : Inv m) (n : ℕ) (pos : 0 < n) (enough : n ≤ m.free_page_num) where
  placed : ℕ → Memory
  placed i = record m {
    free_page_num = (m.free_page_num + 2 ^ 32 - n) % 2 ^ 32;
    pages = take_pages n i m.pages;
    headers = set m.headers i (record { id = i; page_num = n });
    memory_s = 1;
  }

  placed-Placed : (i : ℕ) → i + n ≤ m.len → IsRun m.pages i n → Placed m i n (placed i)
  unfolding placed
  placed-Placed i hi r = record {
    was_free = r;
    block = record {
      some_pages = pos;
      within = hi;
      header = get_elem?-set_self m.headers i _ (omega (arith, v.header_table));
      taken = take_pages_inside n i m.pages;
    };
    outside = λ j h. take_pages_outside n i j m.pages h;
    other_headers = λ j ne. get_elem?-set_ne m.headers i j _ ne;
    same_len = refl;
    fewer = omega (arith, count_free-le m.pages, v);
    inv = record {
      lock = refl;
      table = length-take_pages n i m.pages ∙ v.table;
      header_table = length-set m.headers i _ ∙ v.header_table;
      stack = v.stack;
      top = v.top;
      small = v.small;
      counted = omega (arith, count_free-take_pages n i m.pages r, count_free-le m.pages, v);
      hand = v.hand;
    };
  }

  place-Allocated : Allocated m n (place n m)
  unfolding place placed
  place-Allocated =
      go (find_run m.len 0 n m.len m.pages) refl
        (find_run-FirstRun m.len 0 n m.len m.pages pos (omega arith))
    where
      go :
          (o : Option ℕ)
          → find_run m.len 0 n m.len m.pages ≡ o
          → FirstRun 0 n m.len m.pages o
          → Allocated m n (place n m)
      go none e h = inr (rw (v.lock, place, e) refl, λ j hi. h j (omega arith) hi)
      go (some i) e (lo, hi, r, first) = inl (
        i,
        placed i,
        rw (v.lock, place, e) refl,
        placed-Placed i hi r,
        λ j lt. first j (omega arith) lt,
      )

-- With the invariant, and as many free pages as the request takes, `c_alloc` either places the block
-- at the first run of free pages that is long enough, or exits, and then there is no such run.
-- Placing it takes exactly those pages, writes one header, and keeps the invariant.
pub c_alloc-Allocated :
    (m : Memory) (bytes : ℕ)
    → Inv m
    → 0 < bytes
    → bytes < m.size
    → num_pages bytes ≤ m.free_page_num
    → Allocated m (num_pages bytes) (c_alloc bytes m)
unfolding c_alloc make_room
c_alloc-Allocated m bytes v pos fits enough =
    subst (Allocated m (num_pages bytes)) (sym step)
      (place-Allocated m v (num_pages bytes) (omega arith) enough)
  where
    sized : (bytes == 0 || leb m.size bytes) ≡ false
    sized = ground arith

    room : (ltb m.free_page_num (num_pages bytes) || ltb m.len (num_pages bytes)) ≡ false
    room = ground (arith, v, count_free-le m.pages)

    step : c_alloc bytes m ≡ place (num_pages bytes) m
    step = rw (sized, room) refl

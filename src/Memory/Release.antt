-- ===== src/Memory/Release.antt =====
-- `c_dealloc` of a block that is allocated.
use chic_os.Base.{
  ℕ, zero, suc, ◌+◌, ◌-◌, ◌*◌, ◌/◌, ◌%◌, ◌≤◌, ◌<◌, ◌≡◌, refl, ◌∙◌, ap, subst, true, false, some,
  arith, length, length-set, get_elem?, set, get_elem?-set_self, get_elem?-set_ne, get_elem?-lt, ok,
  ℕ_discrete, u32, ltb, ◌==◌, sym,
}
use chic_os.Memory.{
  Page, Memory, AllocHeader, header_size, page_size, is_free, page_free, push_free_stack,
  free_pages, get_header, release_block, c_dealloc,
}
use chic_os.Memory.Pages.{count_free, count_free-le, count_free-set, free_page, IsRun, IsTaken}
use chic_os.Memory.Invariant.{Inv}
use chic_os.Memory.Alloc.{Block}

-- What freeing `n` pages from page `i` on has done to the table.
record FreedRange (n i : ℕ) (m m' : Memory) : Type 0 where
  same_len : m'.len ≡ m.len
  same_lock : m'.memory_s ≡ m.memory_s
  same_size : m'.size ≡ m.size
  same_headers : m'.headers ≡ m.headers
  same_clock : m'.clock ≡ m.clock
  same_count : m'.free_page_num ≡ m.free_page_num
  same_table : length m'.pages ≡ length m.pages
  same_stack : length m'.free_stack ≡ length m.free_stack
  top_grows : m.free_stack_top ≤ m.len → m'.free_stack_top ≤ m.len
  inside : IsRun m'.pages i n
  outside : (j : ℕ) → (i ≤ j → i + n ≤ j) → get_elem? m'.pages j ≡ get_elem? m.pages j
  more : count_free m'.pages ≡ count_free m.pages + n

-- One round of the loop.
abbrev freed_once : ℕ → Page → Memory → Memory
freed_once i p m = push_free_stack i (record m { pages = set m.pages i (free_page p) })

pages-push_free_stack : (i : ℕ) (m : Memory) → (push_free_stack i m).pages ≡ m.pages
unfolding push_free_stack
pages-push_free_stack i m = ground arith

module _ (n i : ℕ) (m m' : Memory) (p : Page) (e : get_elem? m.pages i ≡ some p)
    (t : is_free m.pages i ≡ false) (lt : i < length m.pages)
    (f : FreedRange n (i + 1) (freed_once i p m) m') where
  pages-freed_once : (freed_once i p m).pages ≡ set m.pages i (free_page p)
  pages-freed_once = pages-push_free_stack i (record m { pages = set m.pages i (free_page p) })

  inside-next : IsRun m'.pages i (suc n)
  inside-next j lo hi = elim (ℕ_discrete i j) [
    | yes here ↦
        subst (λ k. is_free m'.pages k ≡ true) here
          (ap page_free (f.outside i (λ p. absurd (omega arith)))
            ∙ ap (λ ps. is_free ps i) pages-freed_once
            ∙ ap page_free (get_elem?-set_self m.pages i (free_page p) lt))
    | no ne ↦ f.inside j (omega arith) (omega arith)
  ]

  outside-next : (j : ℕ) → (i ≤ j → i + suc n ≤ j) → get_elem? m'.pages j ≡ get_elem? m.pages j
  outside-next j h =
      f.outside j (λ p. omega (arith, h))
      ∙ ap (λ ps. get_elem? ps j) pages-freed_once
      ∙ get_elem?-set_ne m.pages i j (free_page p) (λ q. omega (arith, h))

  more-next : count_free m'.pages ≡ count_free m.pages + suc n
  more-next = omega (arith, f.more, ap count_free pages-freed_once, count_free-set i m.pages p e t)

  FreedRange-next : FreedRange (suc n) i m m'
  unfolding push_free_stack
  FreedRange-next = record {
    same_len = ground (arith, f.same_len);
    same_lock = ground (arith, f.same_lock);
    same_size = ground (arith, f.same_size);
    same_headers = ground (arith, f.same_headers);
    same_clock = ground (arith, f.same_clock);
    same_count = ground (arith, f.same_count);
    same_table = f.same_table ∙ ap length pages-freed_once ∙ length-set m.pages i (free_page p);
    same_stack = ground (arith, f.same_stack, length-set m.free_stack m.free_stack_top i);
    top_grows = ground (arith, f.top_grows);
    inside = inside-next;
    outside = outside-next;
    more = more-next;
  }

freed_once-within :
    (n i : ℕ) (p : Page) (m : Memory)
    → i + suc n ≤ length m.pages
    → i + 1 + n ≤ length (freed_once i p m).pages
freed_once-within n i p m h = omega (
  arith,
  ap length (pages-push_free_stack i (record m { pages = set m.pages i (free_page p) })),
  length-set m.pages i (free_page p),
)

freed_once-IsTaken :
    (n i : ℕ) (p : Page) (m : Memory)
    → IsTaken m.pages i (suc n)
    → IsTaken (freed_once i p m).pages (i + 1) n
freed_once-IsTaken n i p m t j lo hi =
    ap (λ ps. is_free ps j)
      (pages-push_free_stack i (record m { pages = set m.pages i (free_page p) }))
    ∙ ap page_free (get_elem?-set_ne m.pages i j (free_page p) (omega arith))
    ∙ t j (omega arith) (omega arith)

free_pages-FreedRange :
    (n i : ℕ) (m : Memory)
    → i + n ≤ length m.pages
    → IsTaken m.pages i n
    → (m' : Memory) × (free_pages n i m ≡ ok m') × FreedRange n i m m'
unfolding free_pages
free_pages-FreedRange zero i m h t = (
  m,
  refl,
  record {
    same_len = refl;
    same_lock = refl;
    same_size = refl;
    same_headers = refl;
    same_clock = refl;
    same_count = refl;
    same_table = refl;
    same_stack = refl;
    top_grows = λ h. h;
    inside = λ j lo hi. absurd (omega arith);
    outside = λ j h. refl;
    more = omega arith;
  },
)
free_pages-FreedRange (suc n) i m h t =
    first (get_elem?-lt m.pages i (omega arith))
      (λ p. free_pages-FreedRange n (i + 1) (freed_once i p m))
  where
    Rest : Page → Type 0
    Rest p =
        i + 1 + n ≤ length (freed_once i p m).pages
        → IsTaken (freed_once i p m).pages (i + 1) n
        → (m' : Memory) × (free_pages n (i + 1) (freed_once i p m) ≡ ok m')
          × FreedRange n (i + 1) (freed_once i p m) m'

    first :
        (p : Page) × (get_elem? m.pages i ≡ some p)
        → ((p : Page) → Rest p)
        → (m' : Memory) × (free_pages (suc n) i m ≡ ok m') × FreedRange (suc n) i m m'
    first (p, e) rest =
        let (m', run, f) = rest p (freed_once-within n i p m h) (freed_once-IsTaken n i p m t) in
        (
          m',
          rw e run,
          FreedRange-next n i m m' p e (t i (omega arith) (omega arith)) (omega arith) f,
        )

-- What `c_dealloc` of the block at page `i` has done.
pub record Freed (m : Memory) (i n : ℕ) (m' : Memory) : Type 0 where
  pub inside : IsRun m'.pages i n
  pub outside : (j : ℕ) → (i ≤ j → i + n ≤ j) → get_elem? m'.pages j ≡ get_elem? m.pages j
  pub same_headers : m'.headers ≡ m.headers
  pub same_len : m'.len ≡ m.len
  pub same_size : m'.size ≡ m.size
  pub more : m'.free_page_num ≡ m.free_page_num + n
  pub inv : Inv m'

-- The address that `c_alloc` gives out for a block at page `i`.
abbrev pub block_address : ℕ → ℕ
block_address i = i * page_size + header_size

pub get_header_lem :
    (i : ℕ) (m : Memory) (h : AllocHeader)
    → get_elem? m.headers i ≡ some h
    → get_header (block_address i) m ≡ ok h
unfolding get_header
get_header_lem i m h e = rw (past, whole, page) (rw e refl)
  where
    past : ltb (block_address i) header_size ≡ false
    past = ground arith

    whole : ((block_address i - header_size) % page_size == 0) ≡ true
    whole = ground arith

    page : (block_address i - header_size) / page_size ≡ i
    page = omega arith

release_block_lem :
    (i n : ℕ) (m r : Memory)
    → i + n ≤ 4096
    → get_elem? m.headers i ≡ some (record { id = i; page_num = n })
    → free_pages n i m ≡ ok r
    → release_block (block_address i) m
      ≡ ok (record r { free_page_num = u32 (r.free_page_num + n); memory_s = suc r.memory_s })
unfolding release_block
release_block_lem i n m r small e run = rw (get_header_lem i m _ e) (rw (width) (rw run refl))
  where
    width : u32 (i + n) - i ≡ n
    width = omega arith

-- Deallocating an allocated block goes through. It frees exactly the pages of the block, counts
-- them as free, leaves all other pages and every header alone, and keeps the invariant.
pub c_dealloc-Freed :
    (m : Memory) (i n : ℕ)
    → Inv m
    → Block m i n
    → (m' : Memory) × (c_dealloc (some (block_address i)) m ≡ ok m') × Freed m i n m'
unfolding c_dealloc
c_dealloc-Freed m i n v b =
    let (r, run, f) =
      free_pages-FreedRange n i (record m { memory_s = 0 }) (omega (arith, v)) b.taken in
    (
      record r { free_page_num = u32 (r.free_page_num + n); memory_s = suc r.memory_s },
      rw v.lock (release_block_lem i n (record m { memory_s = 0 }) r (omega arith) b.header run),
      record {
        inside = f.inside;
        outside = f.outside;
        same_headers = f.same_headers;
        same_len = f.same_len;
        same_size = f.same_size;
        more = omega (arith, f.more, f.same_count, count_free-le r.pages, f.same_table);
        inv = record {
          lock = omega (arith, f.same_lock);
          table = omega (arith, f.same_table, f.same_len);
          header_table = ap length f.same_headers ∙ v.header_table ∙ sym f.same_len;
          stack = omega (arith, f.same_stack, f.same_len);
          top = omega (arith, f.top_grows v.top, f.same_len);
          small = omega (arith, f.same_len);
          counted = omega (arith, f.more, f.same_count, count_free-le r.pages, f.same_table);
          hand = omega (arith, f.same_clock, f.same_len);
        };
      },
    )

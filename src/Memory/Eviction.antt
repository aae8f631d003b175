-- ===== src/Memory/Eviction.antt =====
-- src/modules/memory/mem.c: what evicting a page changes.
use chic_os.Base.{
  ℕ, zero, suc, ◌+◌, ◌<◌, ◌≡◌, refl, sym, ◌∙◌, ap, ◌⊎◌, inl, inr, true, none, some, arith, length,
  length-set, get_elem?, set, get_elem?-lt, ok, Option-cases, u32,
}
use mathlib.Core.Bool.{false≢true}
use chic_os.Memory.{Page, Memory, is_free, page_free, push_free_stack, evict_page}
use chic_os.Memory.Pages.{count_free, free_page, count_free-le, count_free-refree}
use chic_os.Memory.Invariant.{Inv}

-- What the loops need of a table. The count of free pages need not be right.
pub record Table (m : Memory) : Type 0 where
  pub unlocked : 0 < m.memory_s
  pub table : length m.pages ≡ m.len
  pub hand : m.clock < m.len

-- What `c_alloc` does with a page that `second_chance` names.
pub record Evicted (m m' : Memory) : Type 0 where
  pub same_len : m'.len ≡ m.len
  pub same_size : m'.size ≡ m.size
  pub same_lock : m'.memory_s ≡ m.memory_s
  pub same_clock : m'.clock ≡ m.clock
  pub same_table : length m'.pages ≡ length m.pages
  pub one_more : m'.free_page_num ≡ u32 (m.free_page_num + 1)

pub evict_page-Evicted :
    (v : ℕ) (m : Memory)
    → 0 < m.memory_s
    → v < length m.pages
    → (m' : Memory) × (evict_page v m ≡ ok m') × Evicted m m'
unfolding evict_page
evict_page-Evicted v m pos lt = go m.memory_s refl (get_elem?-lt m.pages v lt)
  where
    go :
        (s : ℕ)
        → m.memory_s ≡ s
        → (p : Page) × (get_elem? m.pages v ≡ some p)
        → (m' : Memory) × (evict_page v m ≡ ok m') × Evicted m m'
    go zero e f = absurd (omega arith)
    go (suc s) e (p, f) = (
      push_free_stack v (record m {
        pages = set m.pages v (free_page p);
        free_page_num = u32 (m.free_page_num + 1);
        memory_s = suc s;
      }),
      rw e (rw f refl),
      ground (arith, length-set m.pages v (free_page p)),
    )

-- The code counts a page that it evicts as a free one more, also where the page is free already: then
-- the count is one above the number of free pages.
pub evict_page_miscounts :
    (m : Memory) (v : ℕ)
    → Inv m
    → is_free m.pages v ≡ true
    → (m' : Memory) × (evict_page v m ≡ ok m') × (m'.free_page_num ≡ count_free m'.pages + 1)
unfolding evict_page
evict_page_miscounts m v i f = go (Option-cases (get_elem? m.pages v))
  where
    go :
        (get_elem? m.pages v ≡ none) ⊎ ((p : Page) × (get_elem? m.pages v ≡ some p))
        → (m' : Memory) × (evict_page v m ≡ ok m') × (m'.free_page_num ≡ count_free m'.pages + 1)
    go (inl e) = absurd (false≢true (sym (ap page_free e) ∙ f))
    go (inr (p, e)) = (
      push_free_stack v (record m {
        pages = set m.pages v (free_page p);
        free_page_num = u32 (m.free_page_num + 1);
        memory_s = 1;
      }),
      rw i.lock (rw e refl),
      ground (arith, i, count_free-le m.pages, count_free-refree v m.pages p e f),
    )

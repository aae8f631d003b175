-- ===== src/Memory/Blocks.antt =====
-- Blocks beside one another: what an allocation or a deallocation does to the others.
use chic_os.Base.{
  ℕ, ◌+◌, ◌≤◌, ◌<◌, ◌≢◌, ◌≡◌, sym, ◌∙◌, ap, ◌⊎◌, inl, inr, Option, some, arith, ok, dec_lt,
  get_elem?, subst, ok-injective, ok-ne-exits,
}
use mathlib.Core.Bool.{false≢true}
use chic_os.Memory.{Memory, is_free, page_free, num_pages, c_alloc, c_dealloc}
use chic_os.Memory.Invariant.{Inv}
use chic_os.Memory.Alloc.{Block, Placed, Allocated, c_alloc-Allocated}
use chic_os.Memory.Release.{Freed, c_dealloc-Freed}

-- The page ranges have no page in common.
abbrev pub Apart : ℕ → ℕ → ℕ → ℕ → Type 0
Apart i n j k = (i + n ≤ j) ⊎ (j + k ≤ i)

-- A page of the one range and a page of the other.
Apart-of_disjoint :
    (i n j k : ℕ)
    → 0 < n
    → 0 < k
    → ((x : ℕ) → i ≤ x → x < i + n → j ≤ x → x < j + k → ⊥)
    → Apart i n j k
Apart-of_disjoint i n j k pn pk h = elim (dec_lt j (i + n)) [
  | yes a ↦ elim (dec_lt i (j + k)) [
    | yes b ↦ elim (dec_lt i j) [
      | yes c ↦ absurd (h j (omega arith) (omega arith) (omega arith) (omega arith))
      | no c ↦ absurd (h i (omega arith) (omega arith) (omega arith) (omega arith))
    ]
    | no b ↦ inr (omega arith)
  ]
  | no a ↦ inl (omega arith)
]

-- A block that is placed takes no page of a block that is there already, and leaves it a block.
pub Placed-Block :
    (m m' : Memory) (i n j k : ℕ) → Placed m i n m' → Block m j k → Block m' j k × Apart i n j k
Placed-Block m m' i n j k p b = (
  record {
    some_pages = b.some_pages;
    within = omega (arith, b.within, p.same_len);
    header = p.other_headers j differ ∙ b.header;
    taken = λ x lo hi. ap page_free (p.outside x (outside x lo hi)) ∙ b.taken x lo hi;
  },
  apart,
)
  where
    clash : (x : ℕ) → i ≤ x → x < i + n → j ≤ x → x < j + k → ⊥
    clash x a b' c d = false≢true (sym (b.taken x c d) ∙ p.was_free x a b')

    apart : Apart i n j k
    apart = Apart-of_disjoint i n j k p.block.some_pages b.some_pages clash

    differ : i ≢ j
    differ e =
        clash i (omega arith) (omega (arith, p.block.some_pages)) (omega arith)
          (omega (arith, b.some_pages))

    outside : (x : ℕ) → j ≤ x → x < j + k → i ≤ x → i + n ≤ x
    outside x c d a = omega (arith, apart)

-- Deallocating one block leaves another that is apart from it a block.
pub Freed-Block :
    (m m' : Memory) (i n j k : ℕ) → Freed m i n m' → Block m j k → Apart i n j k → Block m' j k
Freed-Block m m' i n j k f b apart = record {
  some_pages = b.some_pages;
  within = omega (arith, b.within, f.same_len);
  header = ap (λ hs. get_elem? hs j) f.same_headers ∙ b.header;
  taken = λ x lo hi. ap page_free (f.outside x (λ a. omega (arith, apart))) ∙ b.taken x lo hi;
}

restored :
    (m m' m'' : Memory) (i n : ℕ)
    → Placed m i n m'
    → Freed m' i n m''
    → (j : ℕ) → is_free m''.pages j ≡ is_free m.pages j
restored m m' m'' i n p f j = elim (dec_lt j i) [
  | yes before ↦ same (λ a. absurd (omega arith))
  | no past ↦ elim (dec_lt j (i + n)) [
    | yes inside ↦ f.inside j (omega arith) inside ∙ sym (p.was_free j (omega arith) inside)
    | no after ↦ same (λ a. omega arith)
  ]
]
  where
    same : (i ≤ j → i + n ≤ j) → is_free m''.pages j ≡ is_free m.pages j
    same h = ap page_free (f.outside j h) ∙ ap page_free (p.outside j h)

-- A block that is allocated and deallocated again leaves no trace in the table: the same pages are
-- free as before, and as many are counted.
pub c_alloc-c_dealloc :
    (m m' : Memory) (bytes a : ℕ)
    → Inv m
    → 0 < bytes
    → bytes < m.size
    → num_pages bytes ≤ m.free_page_num
    → c_alloc bytes m ≡ ok (some a, m')
    → (m'' : Memory) × (c_dealloc (some a) m' ≡ ok m'')
      × Inv m''
      × ((j : ℕ) → is_free m''.pages j ≡ is_free m.pages j)
      × (m''.free_page_num ≡ m.free_page_num)
c_alloc-c_dealloc m m' bytes a v pos fits enough e =
    go (c_alloc-Allocated m bytes v pos fits enough)
  where
    Result : Option ℕ × Memory → Type 0
    Result (ptr, held) =
        (m'' : Memory) × (c_dealloc ptr held ≡ ok m'')
        × Inv m''
        × ((j : ℕ) → is_free m''.pages j ≡ is_free m.pages j)
        × (m''.free_page_num ≡ m.free_page_num)

    go : Allocated m (num_pages bytes) (c_alloc bytes m) → Result (some a, m')
    go (inr (ex, none_fits)) = absurd (ok-ne-exits (sym e ∙ ex))
    go (inl (i, held, at, p, first)) =
        let (m'', run, f) = c_dealloc-Freed held i (num_pages bytes) p.inv p.block in
        subst Result (ok-injective (sym at ∙ e)) (
          m'',
          run,
          f.inv,
          restored m held m'' i (num_pages bytes) p f,
          omega (arith, f.more, p.fewer),
        )

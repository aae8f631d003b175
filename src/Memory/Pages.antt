-- ===== src/Memory/Pages.antt =====
-- The page list of mem.c: which pages a loop over a range of pages changes, and how many are free.
use chic_os.Base.{
  ℕ, zero, suc, ◌+◌, ◌≤◌, ◌<◌, ◌≡◌, refl, ◌∙◌, ap, subst, true, false, List, [], ◌∷◌, some, set,
  arith, length, get_elem?, modify, length-modify, get_elem?-modify_ne, ℕ_discrete, if◌then◌else◌,
}
use chic_os.Memory.{Page, page_free, is_free, take_page, take_pages}

-- How many pages are free.
unfoldable pub count_free : List Page → ℕ
count_free [] = 0
count_free (p ∷ ps) = (if p.free then 1 else 0) + count_free ps

pub count_free-le : (ps : List Page) → count_free ps ≤ length ps
unfolding count_free
count_free-le [] = omega arith
count_free-le (p ∷ ps) = ground (arith, count_free-le ps)

-- Every page of the range is free.
abbrev pub IsRun : List Page → ℕ → ℕ → Type 0
IsRun ps i n = (j : ℕ) → i ≤ j → j < i + n → is_free ps j ≡ true

-- No page of the range is free.
abbrev pub IsTaken : List Page → ℕ → ℕ → Type 0
IsTaken ps i n = (j : ℕ) → i ≤ j → j < i + n → is_free ps j ≡ false

pub length-take_pages : (n i : ℕ) (ps : List Page) → length (take_pages n i ps) ≡ length ps
unfolding take_pages
length-take_pages zero i ps = refl
length-take_pages (suc n) i ps =
    length-take_pages n (i + 1) (modify take_page i ps) ∙ length-modify take_page i ps

-- Pages outside the range stay as they are.
pub take_pages_outside :
    (n i j : ℕ) (ps : List Page)
    → (i ≤ j → i + n ≤ j)
    → get_elem? (take_pages n i ps) j ≡ get_elem? ps j
unfolding take_pages
take_pages_outside zero i j ps h = refl
take_pages_outside (suc n) i j ps h =
    take_pages_outside n (i + 1) j (modify take_page i ps) (λ p. omega (arith, h))
    ∙ get_elem?-modify_ne take_page i j ps (λ e. omega (arith, h))

is_free-modify_self : (i : ℕ) (ps : List Page) → is_free (modify take_page i ps) i ≡ false
is_free-modify_self i [] = refl
is_free-modify_self zero (p ∷ ps) = refl
is_free-modify_self (suc i) (p ∷ ps) = is_free-modify_self i ps

-- Pages of the range are taken afterwards.
pub take_pages_inside : (n i : ℕ) (ps : List Page) → IsTaken (take_pages n i ps) i n
unfolding take_pages
take_pages_inside zero i ps j lo hi = absurd (omega arith)
take_pages_inside (suc n) i ps j lo hi = elim (ℕ_discrete i j) [
  | yes e ↦
      subst (λ k. is_free (take_pages n (i + 1) (modify take_page i ps)) k ≡ false) e
        (ap page_free
            (take_pages_outside n (i + 1) i (modify take_page i ps) (λ p. absurd (omega arith)))
          ∙ is_free-modify_self i ps)
  | no ne ↦ take_pages_inside n (i + 1) (modify take_page i ps) j (omega arith) (omega arith)
]

count_free-modify :
    (i : ℕ) (ps : List Page)
    → is_free ps i ≡ true
    → count_free (modify take_page i ps) + 1 ≡ count_free ps
unfolding count_free
count_free-modify i [] h = cc
count_free-modify zero (p ∷ ps) h = ground arith
count_free-modify (suc i) (p ∷ ps) h = omega (arith, count_free-modify i ps h)

-- Taking a run of `n` free pages leaves `n` fewer of them.
pub count_free-take_pages :
    (n i : ℕ) (ps : List Page) → IsRun ps i n → count_free (take_pages n i ps) + n ≡ count_free ps
unfolding take_pages
count_free-take_pages zero i ps h = omega arith
count_free-take_pages (suc n) i ps h = omega (
  arith,
  count_free-take_pages n (i + 1) (modify take_page i ps) (λ j lo hi.
      ap page_free (get_elem?-modify_ne take_page i j ps (omega arith))
      ∙ h j (omega arith) (omega arith)),
  count_free-modify i ps (h i (omega arith) (omega arith)),
)

-- Where every page is free, all are counted.
pub count_free-all :
    (ps : List Page) → ((j : ℕ) → j < length ps → is_free ps j ≡ true) → count_free ps ≡ length ps
unfolding count_free
count_free-all [] h = refl
count_free-all (p ∷ ps) h =
    ground (arith, h 0 (omega arith), count_free-all ps (λ j lt. h (suc j) (omega arith)))

abbrev pub free_page : Page → Page
free_page p = record p { free = true }

-- Freeing a taken page adds one.
pub count_free-set :
    (i : ℕ) (ps : List Page) (p : Page)
    → get_elem? ps i ≡ some p
    → is_free ps i ≡ false
    → count_free (set ps i (free_page p)) ≡ count_free ps + 1
unfolding count_free
count_free-set i [] p e h = cc
count_free-set zero (q ∷ ps) p e h = ground arith
count_free-set (suc i) (q ∷ ps) p e h = omega (arith, count_free-set i ps p e h)

-- Lists with the same free pages have as many.
pub count_free-ext :
    (ps qs : List Page)
    → length ps ≡ length qs
    → ((j : ℕ) → is_free ps j ≡ is_free qs j)
    → count_free ps ≡ count_free qs
unfolding count_free
count_free-ext [] [] e h = refl
count_free-ext [] (q ∷ qs) e h = absurd (omega arith)
count_free-ext (p ∷ ps) [] e h = absurd (omega arith)
count_free-ext (p ∷ ps) (q ∷ qs) e h =
    ground (arith, h 0, count_free-ext ps qs (omega arith) (λ j. h (suc j)))

-- Freeing a free page changes no count.
pub count_free-refree :
    (i : ℕ) (ps : List Page) (p : Page)
    → get_elem? ps i ≡ some p
    → is_free ps i ≡ true
    → count_free (set ps i (free_page p)) ≡ count_free ps
unfolding count_free
count_free-refree i [] p e h = refl
count_free-refree zero (q ∷ ps) p e h = ground arith
count_free-refree (suc i) (q ∷ ps) p e h = omega (arith, count_free-refree i ps p e h)

-- ===== src/Memory/Cleared.antt =====
-- src/modules/memory/mem.c: what a step of second_chance changes, and when its loop ends.
use chic_os.Base.{
  ℕ, zero, suc, ◌+◌, ◌%◌, ◌≤◌, ◌<◌, ◌≢◌, ◌≡◌, sym, ◌∙◌, ap, subst, ◌⊎◌, inl, inr, Bool, true, false,
  Option, none, some, List, arith, length, get_elem?, set, get_elem?-set_self, get_elem?-set_ne,
  ℕ_discrete, dec_lt,
}
use mathlib.Core.Bool.{false≢true}
use native.Mathlib.Nat.{mod-eq_of_lt}
use chic_os.Memory.{Page, Memory, is_free, page_free}

abbrev pub page_used : Option Page → Bool
page_used none = true
page_used (some p) = p.used

-- `pages[j].used`
abbrev pub is_used : List Page → ℕ → Bool
is_used ps j = page_used (get_elem? ps j)

abbrev pub clear_used : Page → Page
clear_used p = record p { used = false }

-- What a sweep has done: it has cleared flags `used` and moved the hand.
pub record Swept (m : Memory) (v : Option ℕ) (m' : Memory) : Type 0 where
  pub same_len : m'.len ≡ m.len
  pub same_size : m'.size ≡ m.size
  pub same_headers : m'.headers ≡ m.headers
  pub same_stack : m'.free_stack ≡ m.free_stack
  pub same_top : m'.free_stack_top ≡ m.free_stack_top
  pub same_count : m'.free_page_num ≡ m.free_page_num
  pub same_table : length m'.pages ≡ length m.pages
  pub same_free : (j : ℕ) → is_free m'.pages j ≡ is_free m.pages j
  pub posted : m'.memory_s ≡ suc m.memory_s
  pub hand : m'.clock < m.len
  pub named : (v ≡ none) ⊎ (v ≡ some m'.clock)

-- Why a sweep at page `curr` ends within so many rounds: this page is unused; the hand is at 0 and
-- the first lap is under way; the page before the hand lies ahead, in this lap or in the next.
pub data Ends (rounds curr : ℕ) (m : Memory) : Type 0 where
  unused : is_used m.pages curr ≡ false → 0 < rounds → Ends rounds curr m
  first_lap :
      m.clock ≡ 0
      → m.len + 1 ≤ rounds + curr
      → (curr ≡ 0) ⊎ (is_used m.pages 0 ≡ false)
      → Ends rounds curr m
  ahead : curr + 1 < m.clock → m.clock ≤ rounds + curr + 1 → Ends rounds curr m
  next_lap : 0 < m.clock → m.clock ≤ curr → m.len + m.clock ≤ rounds + curr + 1 → Ends rounds curr m

-- One page whose flag is cleared.
abbrev pub cleared : ℕ → Page → Memory → Memory
cleared curr p m = record m { pages = set m.pages curr (clear_used p) }

pub is_used-cleared :
    (curr : ℕ) (p : Page) (m : Memory)
    → curr < length m.pages
    → is_used (cleared curr p m).pages curr ≡ false
is_used-cleared curr p m lt = ap page_used (get_elem?-set_self m.pages curr (clear_used p) lt)

zero-cleared :
    (curr : ℕ) (p : Page) (m : Memory)
    → curr < length m.pages
    → (curr ≡ 0) ⊎ (is_used m.pages 0 ≡ false)
    → is_used (cleared curr p m).pages 0 ≡ false
zero-cleared zero p m lt h = is_used-cleared 0 p m lt
zero-cleared (suc curr) p m lt (inl e) = absurd (omega arith)
zero-cleared (suc curr) p m lt (inr h) =
    ap page_used (get_elem?-set_ne m.pages (suc curr) 0 (clear_used p) (omega arith)) ∙ h

pub is_free-cleared :
    (curr j : ℕ) (p : Page) (m : Memory)
    → get_elem? m.pages curr ≡ some p
    → curr < length m.pages
    → is_free (cleared curr p m).pages j ≡ is_free m.pages j
is_free-cleared curr j p m e lt = elim (ℕ_discrete curr j) [
  | yes here ↦
      subst (λ k. is_free (cleared curr p m).pages k ≡ is_free m.pages k) here
        (ap page_free (get_elem?-set_self m.pages curr (clear_used p) lt) ∙ sym (ap page_free e))
  | no ne ↦ ap page_free (get_elem?-set_ne m.pages curr j (clear_used p) ne)
]

pub Ends-pos : {curr : ℕ} {m : Memory} → Ends 0 curr m → curr < m.len → m.clock < m.len → ⊥
Ends-pos (unused h pos) lt hand = omega arith
Ends-pos (first_lap z enough h) lt hand = omega arith
Ends-pos (ahead before enough) lt hand = omega arith
Ends-pos (next_lap pos past enough) lt hand = omega arith

-- A round that goes on has a reason to end as well.
pub Ends-next :
    (rounds curr : ℕ) (p : Page) (m : Memory)
    → length m.pages ≡ m.len
    → curr < m.len
    → m.clock < m.len
    → get_elem? m.pages curr ≡ some p
    → p.used ≡ true
    → ((curr + 1) % m.len + 1) ≢ m.clock
    → Ends (suc rounds) curr m
    → Ends rounds ((curr + 1) % m.len) (cleared curr p m)
Ends-next rounds curr p m table lt hand e u go (unused free pos) =
    absurd (false≢true (sym free ∙ ap page_used e ∙ u))
Ends-next rounds curr p m table lt hand e u go (first_lap z enough zero_clear) =
    elim (dec_lt (curr + 1) m.len) [
      | yes inside ↦
          first_lap z (grind arith) (inr (zero-cleared curr p m (omega arith) zero_clear))
      | no last ↦
          let wrap : 0 ≡ (curr + 1) % m.len = grind arith in
          unused
            (subst (λ k. is_used (cleared curr p m).pages k ≡ false) wrap
              (zero-cleared curr p m (omega arith) zero_clear))
            (omega arith)
    ]
Ends-next rounds curr p m table lt hand e u go (ahead before enough) =
    let here : (curr + 1) % m.len ≡ curr + 1 = mod-eq_of_lt (omega arith) in
    ahead (omega arith) (omega arith)
Ends-next rounds curr p m table lt hand e u go (next_lap pos past enough) =
    elim (dec_lt (curr + 1) m.len) [
      | yes inside ↦
          let here : (curr + 1) % m.len ≡ curr + 1 = mod-eq_of_lt inside in
          next_lap pos (omega arith) (omega arith)
      | no last ↦
          let wrap : (curr + 1) % m.len ≡ 0 = grind arith in ahead (omega arith) (omega arith)
    ]

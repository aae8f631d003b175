-- ===== src/Memory/Victim.antt =====
-- `second_chance` over used pages: which page it names, and which flags it clears.
use native.Mathlib.Nat.{mod-eq_of_lt}
use chic_os.Base.{
  ℕ, zero, suc, ◌+◌, ◌%◌, ◌≤◌, ◌<◌, ◌≡◌, sym, ◌∙◌, ap, ◌⊎◌, inl, inr, true, false, some, arith,
  length, length-set, get_elem?, get_elem?-lt, get_elem?-set_ne, ok, ◌==◌, dec_lt, subst,
}
use chic_os.Memory.{Page, Memory, sweep, second_chance}
use chic_os.Memory.Invariant.{Inv}
use chic_os.Memory.Cleared.{is_used, page_used, cleared, is_used-cleared}
use chic_os.Memory.Replace.{sweep_finds, sweep_goes}

-- What a sweep from page `curr` has done that went over `k` used pages to an unused one.
record Found (curr k : ℕ) (m m' : Memory) : Type 0 where
  named : m'.clock ≡ (curr + k + 1) % m.len
  passed : (j : ℕ) → curr ≤ j → j ≤ curr + k → is_used m'.pages j ≡ false
  others : (j : ℕ) → (j < curr) ⊎ (curr + k < j) → get_elem? m'.pages j ≡ get_elem? m.pages j

module _ (curr : ℕ) (p : Page) (m : Memory) (inside : curr < length m.pages) where
  Found-here :
      Found curr 0 m
        (record (cleared curr p m) { clock = (curr + 1) % m.len; memory_s = suc m.memory_s })
  Found-here = record {
    named = ap (λ n. (n + 1) % m.len) (omega arith);
    passed = λ j lo hi.
        subst (λ i. is_used (cleared curr p m).pages i ≡ false) (omega arith)
          (is_used-cleared curr p m inside);
    others = λ j away. get_elem?-set_ne m.pages curr j _ (λ e. omega (arith, apart j away e));
  }
    where
      apart : (j : ℕ) → (j < curr) ⊎ (curr + 0 < j) → curr ≡ j → ⊥
      apart j (inl l) e = omega arith
      apart j (inr l) e = omega arith

  Found-later :
      (k : ℕ) (m' : Memory) → Found (curr + 1) k (cleared curr p m) m' → Found curr (suc k) m m'
  Found-later k m' f = record {
    named = f.named ∙ ap (λ n. (n + 1) % m.len) (omega arith);
    passed = λ j lo hi. elim (dec_lt curr j) [
      | yes later ↦ f.passed j (omega arith) (omega arith)
      | no here ↦
          ap page_used (f.others j (inl (omega arith)))
          ∙ subst (λ i. is_used (cleared curr p m).pages i ≡ false) (omega arith)
              (is_used-cleared curr p m inside)
    ];
    others = λ j away. elim away [
      | inl before ↦
          f.others j (inl (omega arith)) ∙ get_elem?-set_ne m.pages curr j _ (λ e. omega arith)
      | inr behind ↦
          f.others j (inr (omega arith)) ∙ get_elem?-set_ne m.pages curr j _ (λ e. omega arith)
    ];
  }

sweep-Found :
    (k rounds curr : ℕ) (m : Memory)
    → k < rounds
    → length m.pages ≡ m.len
    → m.clock ≤ curr
    → curr + k < m.len
    → ((j : ℕ) → curr ≤ j → j < curr + k → is_used m.pages j ≡ true)
    → is_used m.pages (curr + k) ≡ false
    → (m' : Memory) × (sweep rounds curr m ≡ ok (some ((curr + k + 1) % m.len), m'))
      × Found curr k m m'
sweep-Found k zero curr m enough table past inside used unused = absurd (omega arith)
sweep-Found zero (suc rounds) curr m enough table past inside used unused =
    let (p, e) = get_elem?-lt m.pages curr (omega arith) in
    (
      _,
      sweep_finds rounds curr p m e
            (sym (ap page_used e) ∙ ap (is_used m.pages) (omega arith) ∙ unused)
          ∙ ap
              (λ n. ok (
                some ((n + 1) % m.len),
                record (cleared curr p m) { clock = (curr + 1) % m.len; memory_s = suc m.memory_s },
              ))
              (omega arith),
      Found-here curr p m (omega arith),
    )
sweep-Found (suc k) (suc rounds) curr m enough table past inside used unused =
    let (p, e) = get_elem?-lt m.pages curr (omega arith) in
    let next : (curr + 1) % m.len ≡ curr + 1 = mod-eq_of_lt (omega arith) in
    let apart : (j : ℕ) → curr < j → is_used (cleared curr p m).pages j ≡ is_used m.pages j =
      λ j later. ap page_used (get_elem?-set_ne m.pages curr j _ (λ e. omega arith)) in
    let (m', run, found) =
      sweep-Found k rounds (curr + 1) (cleared curr p m) (omega arith)
        (length-set m.pages curr _ ∙ table) (omega arith) (omega arith)
        (λ j lo hi. apart j (omega arith) ∙ used j (omega arith) (omega arith))
        (apart (curr + 1 + k) (omega arith) ∙ ap (is_used m.pages) (omega arith) ∙ unused) in
    (
      m',
      sweep_goes rounds curr p m e (sym (ap page_used e) ∙ used curr (omega arith) (omega arith))
            (going next)
          ∙ ap (λ n. sweep rounds n (cleared curr p m)) next
          ∙ run
          ∙ ap (λ n. ok (some ((n + 1) % m.len), m')) (omega arith),
      Found-later curr p m (omega arith) k m' found,
    )
  where
    going : (curr + 1) % m.len ≡ curr + 1 → (((curr + 1) % m.len) + 1 == m.clock) ≡ false
    going e = ground arith

-- With the invariant, and from the hand on `k` used pages and then an unused one before the end of the
-- table, `second_chance` names the page after the unused one, whatever that page is in use for, and
-- moves the hand there. It takes the mark of use from the pages up to the unused one, and leaves all
-- other pages as they are.
pub second_chance_passes :
    (m : Memory) (k : ℕ)
    → Inv m
    → m.clock + k < m.len
    → ((j : ℕ) → m.clock ≤ j → j < m.clock + k → is_used m.pages j ≡ true)
    → is_used m.pages (m.clock + k) ≡ false
    → (m' : Memory) × (second_chance m ≡ ok (some ((m.clock + k + 1) % m.len), m'))
      × (m'.clock ≡ (m.clock + k + 1) % m.len)
      × ((j : ℕ) → m.clock ≤ j → j ≤ m.clock + k → is_used m'.pages j ≡ false)
      × ((j : ℕ) → (j < m.clock) ⊎ (m.clock + k < j) → get_elem? m'.pages j ≡ get_elem? m.pages j)
unfolding second_chance
second_chance_passes m k i inside used unused =
    let (m', run, found) =
      sweep-Found k (m.len + 1) m.clock (record m { memory_s = 0 }) (omega arith) i.table
        (omega arith) inside used unused in
    (m', rw (i.lock) run, found.named, found.passed, found.others)

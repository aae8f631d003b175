-- ===== src/Memory/Replace.antt =====
-- `second_chance`: its sweep ends, and what it leaves alone.
use chic_os.Base.{
  ℕ, zero, suc, ◌+◌, ◌%◌, ◌<◌, ◌≡◌, refl, sym, ◌∙◌, ap, ◌⊎◌, inl, inr, true, false, Option, none,
  some, arith, length, length-set, get_elem?, get_elem?-lt, Outcome, ok, ◌==◌, Bool-cases,
}
use native.Mathlib.Nat.{mod-lt}
use chic_os.Memory.{Page, Memory, is_free, sweep, second_chance}
use chic_os.Memory.Pages.{count_free-ext}
use chic_os.Memory.Invariant.{Inv}
use chic_os.Memory.Cleared.{
  next_lap, first_lap, clear_used, Swept, Ends, cleared, is_free-cleared, Ends-pos, Ends-next,
}

Swept-cleared :
    (curr : ℕ) (p : Page) (m m' : Memory) (v : Option ℕ)
    → get_elem? m.pages curr ≡ some p
    → curr < length m.pages
    → Swept (cleared curr p m) v m'
    → Swept m v m'
Swept-cleared curr p m m' v e lt s = record {
  same_len = s.same_len;
  same_size = s.same_size;
  same_headers = s.same_headers;
  same_stack = s.same_stack;
  same_top = s.same_top;
  same_count = s.same_count;
  same_table = s.same_table ∙ length-set m.pages curr (clear_used p);
  same_free = λ j. s.same_free j ∙ is_free-cleared curr j p m e lt;
  posted = s.posted;
  hand = s.hand;
  named = s.named;
}

-- The two ways in which the loop stops at page `curr`.
Swept-stop :
    (curr next : ℕ) (p : Page) (m : Memory) (v : Option ℕ)
    → get_elem? m.pages curr ≡ some p
    → curr < length m.pages
    → next < m.len
    → (v ≡ none) ⊎ (v ≡ some next)
    → Swept m v (record (cleared curr p m) { clock = next; memory_s = suc m.memory_s })
Swept-stop curr next p m v e lt inside named = record {
  same_len = refl;
  same_size = refl;
  same_headers = refl;
  same_stack = refl;
  same_top = refl;
  same_count = refl;
  same_table = length-set m.pages curr (clear_used p);
  same_free = λ j. is_free-cleared curr j p m e lt;
  posted = refl;
  hand = inside;
  named = named;
}

module _ (rounds curr : ℕ) (p : Page) (m : Memory) (e : get_elem? m.pages curr ≡ some p) where
  pub sweep_finds :
      p.used ≡ false
      → sweep (suc rounds) curr m
        ≡ ok (
          some ((curr + 1) % m.len),
          record (cleared curr p m) { clock = (curr + 1) % m.len; memory_s = suc m.memory_s },
        )
  unfolding sweep
  sweep_finds u = rw e (rw u refl)

  sweep_stops :
      p.used ≡ true
      → ((curr + 1) % m.len + 1 == m.clock) ≡ true
      → sweep (suc rounds) curr m
        ≡ ok (
          none,
          record (cleared curr p m) {
            clock = ((curr + 1) % m.len + 1) % m.len;
            memory_s = suc m.memory_s;
          },
        )
  unfolding sweep
  sweep_stops u stop = rw e (rw u (rw stop refl))

  pub sweep_goes :
      p.used ≡ true
      → ((curr + 1) % m.len + 1 == m.clock) ≡ false
      → sweep (suc rounds) curr m ≡ sweep rounds ((curr + 1) % m.len) (cleared curr p m)
  unfolding sweep
  sweep_goes u go = rw e (rw u (rw go refl))

-- Within a table, a sweep that has a reason to end ends.
sweep-Swept :
    (rounds curr : ℕ) (m : Memory)
    → length m.pages ≡ m.len
    → curr < m.len
    → m.clock < m.len
    → Ends rounds curr m
    → (v : Option ℕ) × (m' : Memory) × (sweep rounds curr m ≡ ok (v, m')) × Swept m v m'
sweep-Swept zero curr m table lt hand ends = absurd (Ends-pos ends lt hand)
sweep-Swept (suc rounds) curr m table lt hand ends =
    first (get_elem?-lt m.pages curr (omega arith))
      (λ p. sweep-Swept rounds next (cleared curr p m))
  where
    next : ℕ
    next = (curr + 1) % m.len

    next_in : (k : ℕ) → k % m.len < m.len
    next_in k = mod-lt k (omega arith)

    Result : Outcome (Option ℕ × Memory) → Type 0
    Result o = (v : Option ℕ) × (m' : Memory) × (o ≡ ok (v, m')) × Swept m v m'

    Rest : Page → Type 0
    Rest p =
        length (cleared curr p m).pages ≡ m.len
        → next < m.len
        → m.clock < m.len
        → Ends rounds next (cleared curr p m)
        → (v : Option ℕ) × (m' : Memory) × (sweep rounds next (cleared curr p m) ≡ ok (v, m'))
          × Swept (cleared curr p m) v m'

    first :
        (p : Page) × (get_elem? m.pages curr ≡ some p)
        → ((p : Page) → Rest p)
        → Result (sweep (suc rounds) curr m)
    first (p, e) rest = elim (Bool-cases p.used) [
      | inl u ↦ elim (Bool-cases (next + 1 == m.clock)) [
        | inl stop ↦ (
          none,
          record (cleared curr p m) { clock = (next + 1) % m.len; memory_s = suc m.memory_s },
          sweep_stops rounds curr p m e u stop,
          Swept-stop curr ((next + 1) % m.len) p m none e (omega arith) (next_in (next + 1))
              (inl refl),
        )
        | inr go ↦
            let (v, m', run, s) =
              rest p (length-set m.pages curr (clear_used p) ∙ table) (next_in (curr + 1)) hand
                (Ends-next rounds curr p m table lt hand e u (ground arith) ends) in
            (
              v,
              m',
              sweep_goes rounds curr p m e u go ∙ run,
              Swept-cleared curr p m m' v e (omega arith) s,
            )
      ]
      | inr free ↦ (
        some next,
        record (cleared curr p m) { clock = next; memory_s = suc m.memory_s },
        sweep_finds rounds curr p m e free,
        Swept-stop curr next p m (some next) e (omega arith) (next_in (curr + 1)) (inr refl),
      )
    ]

pub Swept-named :
    {m m' : Memory} {v : Option ℕ}
    → Swept m v m'
    → (v ≡ none) ⊎ ((w : ℕ) × (v ≡ some w) × (w < m.len))
Swept-named {m'} s = elim s.named [ inl e ↦ inl e | inr e ↦ inr (m'.clock, e, s.hand) ]

Swept-Inv :
    (m m' : Memory) (v : Option ℕ)
    → Inv m
    → 0 < m.len
    → Swept (record m { memory_s = 0 }) v m'
    → Inv m'
Swept-Inv m m' v i pos s = record {
  lock = s.posted;
  table = s.same_table ∙ i.table ∙ sym s.same_len;
  header_table = ap length s.same_headers ∙ i.header_table ∙ sym s.same_len;
  stack = ap length s.same_stack ∙ i.stack ∙ sym s.same_len;
  top = omega (arith, s.same_top, i.top, s.same_len);
  small = omega (arith, s.same_len, i.small);
  counted =
      s.same_count ∙ i.counted ∙ sym (count_free-ext m'.pages m.pages s.same_table s.same_free);
  hand = omega (arith, s.hand, s.same_len);
}

-- From the hand, `second_chance` ends after one lap and one page at most.
pub second_chance-Swept :
    (m : Memory) (s : ℕ)
    → m.memory_s ≡ suc s
    → length m.pages ≡ m.len
    → m.clock < m.len
    → (v : Option ℕ) × (m' : Memory) × (second_chance m ≡ ok (v, m'))
      × Swept (record m { memory_s = s }) v m'
unfolding second_chance
second_chance-Swept m s lock table hand =
    let (v, m', run, swept) =
      sweep-Swept (m.len + 1) m.clock (record m { memory_s = s }) table hand hand
        (start m.clock refl) in
    (v, m', rw lock run, swept)
  where
    start : (c : ℕ) → m.clock ≡ c → Ends (m.len + 1) m.clock (record m { memory_s = s })
    start zero e = first_lap e (omega arith) (inl e)
    start (suc c) e = next_lap (omega arith) (omega arith) (omega arith)

-- With the invariant and at least one page, `second_chance` comes to an end, after one lap and one
-- page at most. It names a page of the table or none, leaves every `free` flag and the count of free
-- pages as they are, and keeps the invariant.
pub second_chance_ends :
    (m : Memory)
    → Inv m
    → 0 < m.len
    → (v : Option ℕ) × (m' : Memory) × (second_chance m ≡ ok (v, m'))
      × ((v ≡ none) ⊎ ((w : ℕ) × (v ≡ some w) × (w < m.len)))
      × ((j : ℕ) → is_free m'.pages j ≡ is_free m.pages j)
      × (m'.free_page_num ≡ m.free_page_num)
      × Inv m'
second_chance_ends m i some_pages =
    let (v, m', run, s) = second_chance-Swept m 0 i.lock i.table (omega (arith, i.hand)) in
    (v, m', run, Swept-named s, s.same_free, s.same_count, Swept-Inv m m' v i some_pages s)

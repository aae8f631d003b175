-- ===== src/Memory/Room.antt =====
-- The `while` of `c_alloc` over `second_chance`, in any table: it ends, and so does `c_alloc`.
use chic_os.Base.{
  ℕ, zero, suc, ◌+◌, ◌-◌, ◌*◌, ◌^◌, ◌≤◌, ◌<◌, ◌≡◌, refl, sym, ◌∙◌, ap, ◌⊎◌, inl, inr, Bool, true,
  false, Option, none, some, arith, set, ok, exits, Bool-cases, Option-cases, ltb, leb, ◌==◌, ◌||◌,
  u32,
}
use chic_os.Memory.{
  Memory, second_chance, evict_page, replace_pages, find_run, place, make_room, num_pages,
  take_pages, page_size, header_size, c_alloc,
}
use chic_os.Memory.Pages.{length-take_pages}
use chic_os.Memory.Cleared.{Swept}
use chic_os.Memory.Replace.{Swept-named, second_chance-Swept}
use chic_os.Memory.Eviction.{Table, Evicted, evict_page-Evicted}

-- How the loop leaves the table: with room for the request, or, with no page to evict, with the
-- semaphore one too high.
pub record Roomy (num : ℕ) (m : Memory) (room : Bool) (m' : Memory) : Type 0 where
  pub table : Table m'
  pub same_len : m'.len ≡ m.len
  pub same_size : m'.size ≡ m.size
  pub outcome :
      ((room ≡ true) × (num ≤ m'.free_page_num) × (m'.memory_s ≡ m.memory_s))
      ⊎ ((room ≡ false) × (m'.memory_s ≡ suc m.memory_s))

pos_suc : (n : ℕ) → 0 < n → (k : ℕ) × (n ≡ suc k)
pos_suc zero h = absurd (omega arith)
pos_suc (suc k) h = (k, refl)

module _ (rounds num : ℕ) (m : Memory) where
  replace_pages_enough :
      ltb m.free_page_num num ≡ false → replace_pages (suc rounds) num m ≡ ok (true, m)
  unfolding replace_pages
  replace_pages_enough e = rw (e, replace_pages) refl

  replace_pages_fails :
      (m' : Memory)
      → ltb m.free_page_num num ≡ true
      → second_chance m ≡ ok (none, m')
      → replace_pages (suc rounds) num m ≡ ok (false, record m' { memory_s = suc m'.memory_s })
  unfolding replace_pages
  replace_pages_fails m' e run = rw (e, replace_pages) (rw (run) refl)

  replace_pages_goes :
      (m' m'' : Memory) (w : ℕ)
      → ltb m.free_page_num num ≡ true
      → second_chance m ≡ ok (some w, m')
      → evict_page w m' ≡ ok m''
      → replace_pages (suc rounds) num m ≡ replace_pages rounds num m''
  unfolding replace_pages
  replace_pages_goes m' m'' w e run evict = rw (e, replace_pages) (rw (run) (rw (evict) refl))

Roomy-back :
    (num : ℕ) (m m' m'' : Memory) (room : Bool)
    → m'.len ≡ m.len
    → m'.size ≡ m.size
    → m'.memory_s ≡ m.memory_s
    → Roomy num m' room m''
    → Roomy num m room m''
Roomy-back num m m' m'' room len size lock r = record {
  table = r.table;
  same_len = r.same_len ∙ len;
  same_size = r.same_size ∙ size;
  outcome = elim r.outcome [
    | inl (e, enough, l) ↦ inl (e, enough, l ∙ lock)
    | inr (e, l) ↦ inr (e, l ∙ ap suc lock)
  ];
}

Table-post : (m : Memory) → Table m → Table (record m { memory_s = suc m.memory_s })
Table-post m t = record { unlocked = omega arith; table = t.table; hand = t.hand }

Swept-Table :
    (m m' : Memory) (v : Option ℕ) (s : ℕ)
    → Table m
    → Swept (record m { memory_s = s }) v m'
    → Table m'
Swept-Table m m' v s t swept = record {
  unlocked = omega (arith, swept.posted);
  table = swept.same_table ∙ t.table ∙ sym swept.same_len;
  hand = omega (arith, swept.hand, swept.same_len);
}

Evicted-Table : (m m' : Memory) → Table m → Evicted m m' → Table m'
Evicted-Table m m' t e = record {
  unlocked = omega (arith, e.same_lock, t.unlocked);
  table = e.same_table ∙ t.table ∙ sym e.same_len;
  hand = omega (arith, e.same_clock, e.same_len, t.hand);
}

-- With a round for each page that is missing, the loop of `c_alloc` ends.
pub replace_pages-Roomy :
    (rounds num : ℕ) (m : Memory)
    → Table m
    → num < 2 ^ 32
    → num ≤ m.free_page_num + rounds
    → (room : Bool) × (m' : Memory) × (replace_pages rounds num m ≡ ok (room, m'))
      × Roomy num m room m'
unfolding replace_pages
replace_pages-Roomy zero num m t small enough = (
  true,
  m,
  rw (test, replace_pages) refl,
  record { table = t; same_len = refl; same_size = refl; outcome = inl (refl, omega arith, refl) },
)
  where
    test : ltb m.free_page_num num ≡ false
    test = ground arith
replace_pages-Roomy (suc rounds) num m t small enough =
    go (Bool-cases (ltb m.free_page_num num)) (λ (m'' : Memory). replace_pages-Roomy rounds num m'')
  where
    Result : Type 0
    Result =
        (room : Bool) × (m' : Memory) × (replace_pages (suc rounds) num m ≡ ok (room, m'))
        × Roomy num m room m'

    Rest : Type 0
    Rest =
        (m'' : Memory)
        → Table m''
        → num < 2 ^ 32
        → num ≤ m''.free_page_num + rounds
        → (room : Bool) × (m' : Memory) × (replace_pages rounds num m'' ≡ ok (room, m'))
          × Roomy num m'' room m'

    go : (ltb m.free_page_num num ≡ true) ⊎ (ltb m.free_page_num num ≡ false) → Rest → Result
    go (inr e) rest = (
      true,
      m,
      replace_pages_enough rounds num m e,
      record {
        table = t;
        same_len = refl;
        same_size = refl;
        outcome = inl (refl, ground arith, refl);
      },
    )
    go (inl e) rest =
        let (s, lock) = pos_suc m.memory_s t.unlocked in
        let (v, m1, run, swept) = second_chance-Swept m s lock t.table t.hand in
        elim (Swept-named swept) [
          | inl no_page ↦ (
            false,
            record m1 { memory_s = suc m1.memory_s },
            replace_pages_fails rounds num m m1 e (run ∙ ap (λ (o : Option ℕ). ok (o, m1)) no_page),
            record {
              table = Table-post m1 (Swept-Table m m1 v s t swept);
              same_len = swept.same_len;
              same_size = swept.same_size;
              outcome = inr (refl, ap suc (swept.posted ∙ sym lock));
            },
          )
          | inr (w, named, inside) ↦
              let t1 = Swept-Table m m1 v s t swept in
              let (m2, run2, ev) =
                evict_page-Evicted w m1 t1.unlocked (omega (arith, t1.table, swept.same_len)) in
              let (room, m', run3, r) =
                rest m2 (Evicted-Table m1 m2 t1 ev) small
                  (ground (arith, ev.one_more, swept.same_count)) in
              (
                room,
                m',
                replace_pages_goes rounds num m m1 m2 w e
                      (run ∙ ap (λ (o : Option ℕ). ok (o, m1)) named) run2
                    ∙ run3,
                Roomy-back num m m2 m' room (ev.same_len ∙ swept.same_len)
                    (ev.same_size ∙ swept.same_size) (ev.same_lock ∙ swept.posted ∙ sym lock) r,
              )
        ]

place-Table :
    (num : ℕ) (m : Memory)
    → Table m
    → (place num m ≡ exits)
      ⊎ ((a : ℕ) × (m' : Memory) × (place num m ≡ ok (some a, m'))
          × Table m'
          × (m'.memory_s ≡ m.memory_s))
unfolding place
place-Table num m t =
    go (pos_suc m.memory_s t.unlocked) (Option-cases (find_run m.len 0 num m.len m.pages))
  where
    go :
        (s : ℕ) × (m.memory_s ≡ suc s)
        → (find_run m.len 0 num m.len m.pages ≡ none)
          ⊎ ((i : ℕ) × (find_run m.len 0 num m.len m.pages ≡ some i))
        → (place num m ≡ exits)
          ⊎ ((a : ℕ) × (m' : Memory) × (place num m ≡ ok (some a, m'))
              × Table m'
              × (m'.memory_s ≡ m.memory_s))
    go (s, lock) (inl e) = inl (rw (lock, place) (rw (e) refl))
    go (s, lock) (inr (i, e)) = inr (
      i * page_size + header_size,
      record m {
        free_page_num = u32 (m.free_page_num + 2 ^ 32 - num);
        pages = take_pages num i m.pages;
        headers = set m.headers i (record { id = i; page_num = num });
        memory_s = suc s;
      },
      rw (lock, place) (rw (e) refl),
      record {
        unlocked = omega arith;
        table = length-take_pages num i m.pages ∙ t.table;
        hand = t.hand;
      },
      sym lock,
    )

module _ (m : Memory) (bytes : ℕ) where
  c_alloc_refuses : (bytes == 0 || leb m.size bytes) ≡ true → c_alloc bytes m ≡ ok (none, m)
  unfolding c_alloc
  c_alloc_refuses e = rw (e) refl

  c_alloc_places :
      (m' : Memory)
      → (bytes == 0 || leb m.size bytes) ≡ false
      → make_room (num_pages bytes) m ≡ ok (true, m')
      → c_alloc bytes m ≡ place (num_pages bytes) m'
  unfolding c_alloc
  c_alloc_places m' e room = rw (e) (rw (room) refl)

  c_alloc_fails :
      (m' : Memory)
      → (bytes == 0 || leb m.size bytes) ≡ false
      → make_room (num_pages bytes) m ≡ ok (false, m')
      → c_alloc bytes m ≡ ok (none, m')
  unfolding c_alloc
  c_alloc_fails m' e room = rw (e) (rw (room) refl)

make_room-Roomy :
    (num : ℕ) (m : Memory)
    → Table m
    → num < 2 ^ 32
    → (room : Bool) × (m' : Memory) × (make_room num m ≡ ok (room, m')) × Roomy num m room m'
unfolding make_room
make_room-Roomy num m t small = elim (Bool-cases (ltb m.free_page_num num || ltb m.len num)) [
  | inl e ↦
      let (room, m', run, r) = replace_pages-Roomy num num m t small (omega arith) in
      (room, m', rw (e) run, r)
  | inr e ↦ (
    true,
    m,
    rw (e) refl,
    record {
      table = t;
      same_len = refl;
      same_size = refl;
      outcome = inl (refl, ground arith, refl);
    },
  )
]

-- In any table that is not locked, with at least one page, `c_alloc` ends for every request: the
-- program exits, or the semaphore is left as it was, or NULL is returned with the semaphore one too
-- high, since that path posts what it has not waited for.
pub c_alloc_ends :
    (m : Memory) (bytes : ℕ)
    → Table m
    → bytes < 2 ^ 32
    → (c_alloc bytes m ≡ exits)
      ⊎ ((ptr : Option ℕ) × (m' : Memory) × (c_alloc bytes m ≡ ok (ptr, m'))
          × Table m'
          × ((m'.memory_s ≡ m.memory_s) ⊎ ((ptr ≡ none) × (m'.memory_s ≡ suc m.memory_s))))
c_alloc_ends m bytes t small = elim (Bool-cases (bytes == 0 || leb m.size bytes)) [
  | inl e ↦ inr (none, m, c_alloc_refuses m bytes e, t, inl refl)
  | inr e ↦
      let (room, m', run, r) = make_room-Roomy (num_pages bytes) m t (omega arith) in
      elim r.outcome [
        | inl (yes_room, enough, lock) ↦
            let step = c_alloc_places m bytes m' e (run ∙ ap (λ (b : Bool). ok (b, m')) yes_room) in
            elim (place-Table (num_pages bytes) m' r.table) [
              | inl ex ↦ inl (step ∙ ex)
              | inr (a, m'', placed, t', lock') ↦
                  inr (some a, m'', step ∙ placed, t', inl (lock' ∙ lock))
            ]
        | inr (no_room, lock) ↦ inr (
          none,
          m',
          c_alloc_fails m bytes m' e (run ∙ ap (λ (b : Bool). ok (b, m')) no_room),
          r.table,
          inr (refl, lock),
        )
      ]
]

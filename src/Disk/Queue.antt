-- ===== src/Disk/Queue.antt =====
-- The requests in the queue of disk.c, oldest first but for the first place, and what the operations
-- on the array do to them.
use native.Mathlib.Numerals.{add-one}
use chic_os.Base.{
  ℕ, zero, suc, ◌+◌, ◌-◌, ◌%◌, ◌^◌, ◌≤◌, ◌<◌, ◌≡◌, refl, sym, ◌∙◌, ap, subst, true, false, some,
  List, [], ◌∷◌, ◌++◌, arith, length, length-set, get_elem?, set, take, get_elem?-lt,
  get_elem?-set_self, get_elem?-set_ne, take-ext, ℕ_discrete, Outcome, ok, ltb, ◌==◌,
}
use chic_os.Disk.{IoReq, Disk, q_put, q_remove, shift_down, simulate_io, disk_slice, total_tracks}

-- The cells are there, and the arm's semaphore is free.
pub record IsValid (d : Disk) : Type 0 where
  pub cells : length d.queue ≡ 11
  pub fits : d.len ≤ 11
  pub free : d.disk_s ≡ 1

abbrev pub requests : Disk → List IoReq
requests d = take d.len d.queue

take-set_end :
    (n : ℕ) (xs : List IoReq) (r : IoReq)
    → n < length xs
    → take (suc n) (set xs n r) ≡ take n xs ++ (r ∷ [])
take-set_end n [] r h = absurd (omega arith)
take-set_end zero (x ∷ xs) r h = refl
take-set_end (suc n) (x ∷ xs) r h = ap (λ l. x ∷ l) (take-set_end n xs r (omega arith))

-- A request to a track that there is goes to the end of the queue, with a full slice, while there is
-- a cell left for it; the queue stays valid.
pub simulate_io_appends :
    (pid track : ℕ) (d : Disk)
    → IsValid d
    → d.len < 11
    → track ≤ total_tracks
    → (d' : Disk) × (simulate_io pid track d ≡ ok d')
      × IsValid d'
      × (requests d'
          ≡ requests d ++ (record { id = pid; time_to_run = disk_slice; track = track } ∷ []))
unfolding simulate_io q_put
simulate_io_appends pid track d v room exists = (
  record d { queue = set d.queue d.len new; len = suc d.len },
  rw (there) (rw (space) (rw (count) refl)),
  record { cells = length-set d.queue d.len new ∙ v.cells; fits = omega arith; free = v.free },
  take-set_end d.len d.queue new (omega (arith, v.cells)),
)
  where
    new : IoReq
    new = record { id = pid; time_to_run = disk_slice; track = track }

    there : ltb total_tracks track ≡ false
    there = ground arith

    space : ltb d.len (length d.queue) ≡ true
    space = ground (arith, v.cells)

    count : (d.len + 1) % 2 ^ 8 ≡ suc d.len
    count = omega arith

-- The loop of `q_remove` moves the cells of its range down by one.
shift_down_lem :
    (n i : ℕ) (q : List IoReq)
    → i + n < length q
    → (q' : List IoReq) × (shift_down n i q ≡ ok q')
      × (length q' ≡ length q)
      × ((j : ℕ) → i ≤ j → j < i + n → get_elem? q' j ≡ get_elem? q (suc j))
      × ((j : ℕ) → (i ≤ j → i + n ≤ j) → get_elem? q' j ≡ get_elem? q j)
unfolding shift_down
shift_down_lem zero i q h = (q, refl, refl, λ j lo hi. absurd (omega arith), λ j out. refl)
shift_down_lem (suc n) i q h =
    go (get_elem?-lt q (i + 1) (omega arith)) (λ r. shift_down_lem n (i + 1) (set q i r))
  where
    Result : List IoReq → Outcome (List IoReq) → ℕ → ℕ → Type 0
    Result q o i n =
        (q' : List IoReq) × (o ≡ ok q')
        × (length q' ≡ length q)
        × ((j : ℕ) → i ≤ j → j < i + n → get_elem? q' j ≡ get_elem? q (suc j))
        × ((j : ℕ) → (i ≤ j → i + n ≤ j) → get_elem? q' j ≡ get_elem? q j)

    go :
        (r : IoReq) × (get_elem? q (i + 1) ≡ some r)
        → ((r : IoReq)
            → i + 1 + n < length (set q i r)
            → Result (set q i r) (shift_down n (i + 1) (set q i r)) (i + 1) n)
        → Result q (shift_down (suc n) i q) i (suc n)
    go (r, e) rest =
        let (q', run, len, moved, kept) = rest r (omega (arith, length-set q i r)) in
        (
          q',
          rw e run,
          len ∙ length-set q i r,
          λ j lo hi. elim (ℕ_discrete i j) [
            | yes here ↦
                subst (λ k. get_elem? q' k ≡ get_elem? q (suc k)) here
                  (kept i (λ a. absurd (omega arith))
                    ∙ get_elem?-set_self q i r (omega arith)
                    ∙ sym (subst (λ k. get_elem? q k ≡ some r) (add-one i) e))
            | no later ↦
                moved j (omega arith) (omega arith) ∙ get_elem?-set_ne q i (suc j) r (omega arith)
          ],
          λ j out.
              kept j (λ a. omega (arith, out)) ∙ get_elem?-set_ne q i j r (λ a. omega (arith, out)),
        )

take-uncons :
    (n : ℕ) (q q' : List IoReq) (r : IoReq)
    → get_elem? q 0 ≡ some r
    → ((j : ℕ) → j < n → get_elem? q' j ≡ get_elem? q (suc j))
    → take (suc n) q ≡ r ∷ take n q'
take-uncons n [] q' r e h = cc
take-uncons n (x ∷ q) q' r e h = let rest = take-ext n q' q h in cc (rest, e)

-- Removing the first request leaves the others in their order; the queue stays valid.
pub q_remove_lem :
    (d : Disk)
    → IsValid d
    → 0 < d.len
    → (r : IoReq) × (d' : Disk) × (get_elem? d.queue 0 ≡ some r)
      × (q_remove d ≡ ok d')
      × IsValid d'
      × (requests d ≡ r ∷ requests d')
      × (d'.current_track ≡ d.current_track)
unfolding q_remove
q_remove_lem d v some_request =
    let (r, e) = get_elem?-lt d.queue 0 (omega (arith, v.cells)) in
    let (q, run, len, moved, kept) =
      shift_down_lem (d.len - 1) 0 d.queue (omega (arith, v.cells, v.fits)) in
    (
      r,
      record d { queue = set q (d.len - 1) blank; len = d.len - 1 },
      e,
      rw (some_left) (rw (run) refl),
      record {
        cells = length-set q (d.len - 1) blank ∙ len ∙ v.cells;
        fits = omega (arith, v.fits);
        free = v.free;
      },
      subst (λ n. take n d.queue ≡ r ∷ take (d.len - 1) (set q (d.len - 1) blank)) one_more
          (take-uncons (d.len - 1) d.queue _ r e (λ j lt.
            get_elem?-set_ne q (d.len - 1) j blank (omega arith)
            ∙ moved j (omega arith) (omega arith))),
      refl,
    )
  where
    blank : IoReq
    blank = record { id = 0; time_to_run = 0; track = 0 }

    some_left : (d.len == 0) ≡ false
    some_left = ground arith

    one_more : suc (d.len - 1) ≡ d.len
    one_more = omega arith

-- ===== src/Disk/Nearest.antt =====
-- `sort_disk` brings a request nearest to the arm to the front of the queue.
use mathlib.Core.List.{Perm}
use mathlib.Core.List.Perm
use chic_os.Base.{
  ℕ, zero, suc, ◌+◌, ◌-◌, ◌≤◌, ◌<◌, ◌≡◌, ◌≢◌, refl, sym, ◌∙◌, ap, subst, inl, inr, false, some,
  List, [], ◌∷◌, arith, length, length-set, get_elem?, set, take, get_elem?-lt, get_elem?-set_self,
  get_elem?-set_ne, ℕ_discrete, ok, ltb, ◌==◌, Bool-cases, ltb→lt, ltb-false, some-injective,
  ==_iff,
}
use chic_os.Utils.{abs_diff}
use chic_os.Disk.{IoReq, Disk, track_of, track_at, closest, swap_first, sort_disk}
use chic_os.Disk.Queue.{IsValid, requests}

-- How far the arm at `base` is from the request in cell `i`.
abbrev pub distance : ℕ → List IoReq → ℕ → ℕ
distance base q i = abs_diff base (track_at q i)

-- What the loop of `sort_disk` ends with: an index of the range, or the one that it started with, and
-- no request of the range is nearer.
module _ (base : ℕ) (q : List IoReq) where
  closest-le :
      (n i best : ℕ)
      → ((j : ℕ) → j < i → distance base q best ≤ distance base q j)
      → (j : ℕ) → j < i + n
      → distance base q (closest n i base q best (distance base q best)) ≤ distance base q j
  unfolding closest
  closest-le zero i best h j lt = h j (omega arith)
  closest-le (suc n) i best h j lt =
      elim (Bool-cases (ltb (distance base q i) (distance base q best))) [
        | inl nearer ↦ rw nearer (
            closest-le n (i + 1) i
              (λ k lk. elim (ℕ_discrete i k) [
                | yes e ↦ omega (arith, ap (distance base q) e)
                | no ne ↦ omega (
                  arith,
                  ltb→lt (distance base q i) (distance base q best) nearer,
                  h k (omega arith),
                )
              ])
              j (omega arith))
        | inr not_nearer ↦ rw not_nearer (
            closest-le n (i + 1) best
              (λ k lk. elim (ℕ_discrete i k) [
                | yes e ↦ omega (
                  arith,
                  ap (distance base q) e,
                  ltb-false (distance base q i) (distance base q best) not_nearer,
                )
                | no ne ↦ h k (omega arith)
              ])
              j (omega arith))
      ]

  closest-lt :
      (n i best : ℕ) → best < i + n → closest n i base q best (distance base q best) < i + n
  unfolding closest
  closest-lt zero i best h = h
  closest-lt (suc n) i best h = elim (Bool-cases (ltb (distance base q i) (distance base q best))) [
    | inl nearer ↦ rw nearer (omega (arith, closest-lt n (i + 1) i (omega arith)))
    | inr not_nearer ↦ rw not_nearer (omega (arith, closest-lt n (i + 1) best (omega arith)))
  ]

  -- The first request stays where it is, unless another is strictly nearer.
  pub closest_stays :
      (n i best : ℕ)
      → ((j : ℕ) → j < i + n → distance base q best ≤ distance base q j)
      → closest n i base q best (distance base q best) ≡ best
  unfolding closest
  closest_stays zero i best h = refl
  closest_stays (suc n) i best h =
      rw (far) (closest_stays n (i + 1) best (λ j lt. h j (omega arith)))
    where
      far : ltb (distance base q i) (distance base q best) ≡ false
      far = ground (arith, h i (omega arith))

-- No request in the queue is nearer to the arm than the first.
abbrev pub IsNearest : Disk → Type 0
IsNearest d =
    (j : ℕ) → j < d.len → distance d.current_track d.queue 0 ≤ distance d.current_track d.queue j

swap-perm :
    (k n : ℕ) (x y : IoReq) (xs : List IoReq)
    → get_elem? xs k ≡ some y
    → k < n
    → Perm (y ∷ take n (set xs k x)) (x ∷ take n xs)
swap-perm k n x y [] e lt = cc
swap-perm zero zero x y (z ∷ xs) e lt = absurd (omega arith)
swap-perm zero (suc n) x y (z ∷ xs) e lt =
    subst (λ w. Perm (y ∷ x ∷ take n xs) (x ∷ w ∷ take n xs)) (some-injective (sym e))
      (Perm.swap x y (take n xs))
swap-perm (suc k) zero x y (z ∷ xs) e lt = absurd (omega arith)
swap-perm (suc k) (suc n) x y (z ∷ xs) e lt =
    Perm.trans (Perm.swap z y _)
      (Perm.trans (Perm.cons z (swap-perm k n x y xs e (omega arith))) (Perm.swap x z _))

swap-requests :
    (i n : ℕ) (q : List IoReq) (first r : IoReq)
    → get_elem? q 0 ≡ some first
    → get_elem? q i ≡ some r
    → 0 < i
    → i < n
    → Perm (take n (set (set q 0 r) i first)) (take n q)
swap-requests i n [] first r e1 e2 pos lt = cc
swap-requests zero n (x ∷ xs) first r e1 e2 pos lt = absurd (omega arith)
swap-requests (suc k) zero (x ∷ xs) first r e1 e2 pos lt = absurd (omega arith)
swap-requests (suc k) (suc n) (x ∷ xs) first r e1 e2 pos lt =
    subst (λ f. Perm (r ∷ take n (set xs k f)) (x ∷ take n xs)) (some-injective e1)
      (swap-perm k n x r xs e2 (omega arith))

-- What `sort_disk` leaves behind.
pub record Sorted (d d' : Disk) : Type 0 where
  pub valid : IsValid d'
  pub same_len : d'.len ≡ d.len
  pub same_track : d'.current_track ≡ d.current_track
  pub nearest : IsNearest d'
  pub same_requests : Perm (requests d') (requests d)
  pub origin : (j : ℕ) × (j < d.len) × (track_at d'.queue 0 ≡ track_at d.queue j)
  pub nearest_before :
      (j : ℕ) → j < d.len → distance d.current_track d'.queue 0 ≤ distance d.current_track d.queue j

-- After the request in cell `c` and the first one have changed places, nobody is nearer than the first.
module _ (base c : ℕ) (q : List IoReq) (first r : IoReq) (e1 : get_elem? q 0 ≡ some first)
    (e2 : get_elem? q c ≡ some r) (pos : 0 < c) (inside : c < length q) where
  abbrev swapped : List IoReq
  swapped = set (set q 0 r) c first

  swapped-zero : track_at swapped 0 ≡ track_at q c
  swapped-zero = ap track_of (
      get_elem?-set_ne (set q 0 r) c 0 first (omega arith)
      ∙ get_elem?-set_self q 0 r (omega arith)
      ∙ sym e2)

  swapped_self : track_at swapped c ≡ track_at q 0
  swapped_self =
      ap track_of
        (get_elem?-set_self (set q 0 r) c first (omega (arith, length-set q 0 r)) ∙ sym e1)

  swapped-ne : (j : ℕ) → 0 ≢ j → c ≢ j → track_at swapped j ≡ track_at q j
  swapped-ne j z ne =
      ap track_of (get_elem?-set_ne (set q 0 r) c j first ne ∙ get_elem?-set_ne q 0 j r z)

  swapped-nearest :
      (n : ℕ)
      → ((j : ℕ) → j < n → distance base q c ≤ distance base q j)
      → 0 < n
      → (j : ℕ) → j < n
      → distance base swapped 0 ≤ distance base swapped j
  swapped-nearest n h some_cell j lt = elim (ℕ_discrete 0 j) [
    | yes z ↦ omega (arith, ap (distance base swapped) z)
    | no z ↦ elim (ℕ_discrete c j) [
      | yes e ↦ omega (
        arith,
        ap (distance base swapped) e,
        ap (abs_diff base) swapped-zero,
        ap (abs_diff base) swapped_self,
        h 0 some_cell,
      )
      | no ne ↦
          omega
            (arith, ap (abs_diff base) swapped-zero, ap (abs_diff base) (swapped-ne j z ne), h j lt)
    ]
  ]

swap_first_lem :
    (c : ℕ) (d : Disk) (first r : IoReq)
    → get_elem? d.queue 0 ≡ some first
    → get_elem? d.queue c ≡ some r
    → swap_first c d ≡ ok (record d { queue = set (set d.queue 0 r) c first })
unfolding swap_first
swap_first_lem c d first r e1 e2 = rw (e1) (rw (e2) refl)

-- On a valid queue with a request, `sort_disk` goes through and brings a nearest request to the front.
-- It is a rearrangement: the same requests stay in the queue.
pub sort_disk-Sorted :
    (d : Disk)
    → IsValid d
    → 0 < d.len
    → (d' : Disk) × (sort_disk d.current_track d ≡ ok d') × Sorted d d'
unfolding sort_disk
sort_disk-Sorted d v some_request = elim (Bool-cases (c == 0)) [
  | inl z ↦ (
    d,
    rw (z) refl,
    record {
      valid = v;
      same_len = refl;
      same_track = refl;
      nearest = λ j lt.
          subst (λ k. distance base d.queue k ≤ distance base d.queue j) ((==_iff c 0).0 z)
            (c-le j lt);
      same_requests = Perm.refl (requests d);
      origin = (0, some_request, refl);
      nearest_before = λ j lt.
          subst (λ k. distance base d.queue k ≤ distance base d.queue j) ((==_iff c 0).0 z)
            (c-le j lt);
    },
  )
  | inr nz ↦
      let (first, e1) = get_elem?-lt d.queue 0 (omega (arith, v)) in
      let (r, e2) = get_elem?-lt d.queue c (omega (arith, v, c-lt)) in
      (
        record d { queue = set (set d.queue 0 r) c first },
        rw (nz) (swap_first_lem c d first r e1 e2),
        record {
          valid = record {
            cells = length-set (set d.queue 0 r) c first ∙ length-set d.queue 0 r ∙ v.cells;
            fits = v.fits;
            free = v.free;
          };
          same_len = refl;
          same_track = refl;
          nearest =
              swapped-nearest base c d.queue first r e1 e2 (ground arith) (omega (arith, v, c-lt))
                d.len c-le some_request;
          same_requests = swap-requests c d.len d.queue first r e1 e2 (ground arith) c-lt;
          origin = (
            c,
            c-lt,
            swapped-zero base c d.queue first r e1 e2 (ground arith) (omega (arith, v, c-lt)),
          );
          nearest_before = λ j lt. omega (
            arith,
            ap (abs_diff base)
                (swapped-zero base c d.queue first r e1 e2 (ground arith) (omega (arith, v, c-lt))),
            c-le j lt,
          );
        },
      )
]
  where
    base : ℕ
    base = d.current_track

    c : ℕ
    c = closest (d.len - 1) 1 base d.queue 0 (distance base d.queue 0)

    c-lt : c < d.len
    c-lt = omega (arith, closest-lt base d.queue (d.len - 1) 1 0 (omega arith))

    zero_of_lt : (k : ℕ) → k < 1 → k ≡ 0
    zero_of_lt k lk = omega arith

    c-le : (j : ℕ) → j < d.len → distance base d.queue c ≤ distance base d.queue j
    c-le j lt =
        closest-le base d.queue (d.len - 1) 1 0
          (λ k lk. omega (arith, ap (distance base d.queue) (zero_of_lt k lk))) j (omega arith)

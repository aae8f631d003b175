-- ===== src/Disk/Service.antt =====
-- `disk_loop` serves the nearest request: how many rounds that takes.
use mathlib.Core.List.{Perm}
use mathlib.Core.List.Perm
use chic_os.Base.{
  ℕ, zero, suc, ◌+◌, ◌-◌, ◌≤◌, ◌<◌, ◌≡◌, ◌≢◌, refl, sym, ◌∙◌, ap, subst, inl, inr, false, Option,
  none, some, List, [], ◌∷◌, arith, length-set, get_elem?, set, take, get_elem?-lt,
  get_elem?-set_self, ℕ_discrete, ok, ltb, Bool-cases, some-injective, ok-injective,
}
use chic_os.Utils.{abs_diff}
use chic_os.Disk.{
  IoReq, Disk, total_tracks, track_of, track_at, sort_disk, step_toward, disk_round, disk_rounds,
}
use chic_os.Disk.Queue.{IsValid, requests, q_remove_lem}
use chic_os.Disk.Nearest.{distance, IsNearest, Sorted, sort_disk-Sorted}
use chic_os.Disk.Rounds.{
  step_nearer, step_bound, step_in, sort_stays, disk_round_served, serve_moves, serve_waits,
  serve_ends, rounds_go, rounds_end,
}

-- No interrupt is raised before so many rounds are over.
abbrev pub IsSilent : ℕ → Disk → Type 0
IsSilent rounds d = (k : ℕ) → k < rounds → (d' : Disk) × (disk_rounds k d ≡ ok (none, d'))

IsSilent-suc :
    (rounds : ℕ) (d d' : Disk)
    → disk_round d ≡ ok (none, d')
    → IsSilent rounds d'
    → IsSilent (suc rounds) d
unfolding disk_rounds
IsSilent-suc rounds d d' run quiet zero lt = (d, refl)
IsSilent-suc rounds d d' run quiet (suc k) lt =
    let (end, runs) = quiet k (omega arith) in (end, rounds_go k d d' run ∙ runs)

-- The end of the service of the request `r`, which is in the last of so many rounds.
abbrev pub Served : ℕ → Disk → IoReq → Type 0
Served rounds d r =
    (d' : Disk) × (disk_rounds rounds d ≡ ok (some r.id, d'))
    × IsValid d'
    × (requests d ≡ r ∷ requests d')
    × (d'.current_track ≡ r.track)
    × IsSilent rounds d

take-set_head :
    (n : ℕ) (q rest : List IoReq) (r r' : IoReq)
    → get_elem? q 0 ≡ some r
    → take n (set q 0 r') ≡ r' ∷ rest
    → take n q ≡ r ∷ rest
take-set_head zero q rest r r' e h = cc
take-set_head (suc n) [] rest r r' e h = cc
take-set_head (suc n) (x ∷ q) rest r r' e h = cc

abs_diff-pos : (a b : ℕ) → a ≢ b → 0 < abs_diff a b
unfolding abs_diff
abs_diff-pos a b ne = ground arith

abs_diff_self : (a b : ℕ) → a ≡ b → abs_diff a b ≡ 0
unfolding abs_diff
abs_diff_self a b e = ground arith

module _ (k : ℕ) (d : Disk) (r : IoReq) (v : IsValid d) (near : IsNearest d)
    (some_request : 0 < d.len) (e : get_elem? d.queue 0 ≡ some r) where
  over-Served : k ≡ 0 → r.track ≡ d.current_track → r.time_to_run ≡ 0 → Served (suc k) d r
  unfolding disk_rounds
  over-Served at_once here over =
      let (r', d', e', run, v', rest, at) = q_remove_lem d v some_request in
      (
        d',
        rounds_end k d d' r.id
            (disk_round_served d r near some_request e ∙ serve_ends d r v d' here over run),
        v',
        rest ∙ ap (λ (x : IoReq). x ∷ requests d') (some-injective (sym e' ∙ e)),
        at ∙ sym here,
        silent,
      )
    where
      silent : IsSilent (suc k) d
      silent zero lt = (d, refl)
      silent (suc j) lt = absurd (omega arith)

  abbrev moved : Disk
  moved = record d { current_track = step_toward r.track d.current_track }

  away-Served : r.track ≢ d.current_track → Served k moved r → Served (suc k) d r
  away-Served away (d', run, v', rest, at, silent) =
      let round = disk_round_served d r near some_request e ∙ serve_moves d r v away in
      (d', rounds_go k d moved round ∙ run, v', rest, at, IsSilent-suc k d moved round silent)

  moved-IsNearest :
      r.track ≢ d.current_track
      → r.track ≤ total_tracks
      → d.current_track ≤ total_tracks
      → IsNearest moved
  moved-IsNearest away small_r small_d j lt = omega (
    arith,
    step_nearer r.track d.current_track small_r small_d away,
    step_bound r.track d.current_track (track_at d.queue j) small_r small_d,
    near j lt,
    ap (λ (o : Option IoReq). abs_diff d.current_track (track_of o)) e,
    ap (λ (o : Option IoReq). abs_diff moved.current_track (track_of o)) e,
  )

  abbrev waited : IoReq
  waited = record r { time_to_run = r.time_to_run - 1 }

  abbrev waiting : Disk
  waiting = record d { queue = set d.queue 0 waited; current_track = r.track }

  left-Served :
      r.track ≡ d.current_track → 0 < r.time_to_run → Served k waiting waited → Served (suc k) d r
  left-Served here pos (d', run, v', rest, at, silent) =
      let round = disk_round_served d r near some_request e ∙ serve_waits d r v here pos in
      (
        d',
        rounds_go k d waiting round ∙ run,
        v',
        take-set_head d.len d.queue (requests d') r waited e rest,
        at,
        IsSilent-suc k d waiting round silent,
      )

  waiting-IsNearest : r.track ≡ d.current_track → IsNearest waiting
  waiting-IsNearest here j lt = omega (
    arith,
    ap (λ (o : Option IoReq). abs_diff r.track (track_of o))
        (get_elem?-set_self d.queue 0 waited (omega (arith, v.cells))),
    abs_diff_self r.track r.track refl,
  )

Served-Served :
    (k : ℕ) (d : Disk) (r : IoReq)
    → IsValid d
    → IsNearest d
    → 0 < d.len
    → get_elem? d.queue 0 ≡ some r
    → r.track ≤ total_tracks
    → d.current_track ≤ total_tracks
    → abs_diff d.current_track r.track + r.time_to_run ≡ k
    → Served (suc k) d r
Served-Served zero d r v near some_request e small_r small_d count =
    over-Served 0 d r v near some_request e refl here (omega arith)
  where
    here : r.track ≡ d.current_track
    here = elim (ℕ_discrete r.track d.current_track) [
      | yes same ↦ same
      | no away ↦ absurd (omega (arith, abs_diff-pos d.current_track r.track (λ q. away (sym q))))
    ]
Served-Served (suc k) d r v near some_request e small_r small_d count =
    elim (ℕ_discrete r.track d.current_track) [
      | no away ↦ away-Served (suc k) d r v near some_request e away (
          Served-Served k (moved k d r v near some_request e) r
            (record { cells = v.cells; fits = v.fits; free = v.free })
            (moved-IsNearest k d r v near some_request e away small_r small_d) some_request e
            small_r (step_in r.track d.current_track small_r small_d)
            (omega (arith, step_nearer r.track d.current_track small_r small_d away)))
      | yes here ↦ elim (ℕ_discrete r.time_to_run 0) [
        | yes over ↦ absurd (omega (arith, abs_diff_self d.current_track r.track (sym here)))
        | no left ↦ left-Served (suc k) d r v near some_request e here (omega arith) (
            Served-Served k (waiting k d r v near some_request e)
              (waited k d r v near some_request e)
              (record { cells = length-set d.queue 0 _ ∙ v.cells; fits = v.fits; free = v.free })
              (waiting-IsNearest k d r v near some_request e here) some_request
              (get_elem?-set_self d.queue 0 _ (omega (arith, v.cells))) small_r small_r
              (omega (
                arith,
                abs_diff_self r.track r.track refl,
                abs_diff_self d.current_track r.track (sym here),
              )))
      ]
    ]

-- A round on an unsorted queue is a round on the sorted one.
disk_round-Sorted :
    (d d' : Disk)
    → sort_disk d.current_track d ≡ ok d'
    → Sorted d d'
    → 0 < d.len
    → disk_round d ≡ disk_round d'
unfolding disk_round
disk_round-Sorted d d' run s some_request = elim (Bool-cases (ltb 1 d.len)) [
  | inl several ↦ rw (several) (
      rw (run) (
        rw (ap (ltb 1) s.same_len ∙ several)
          (rw (sort_stays d' s.nearest (omega (arith, s.same_len))) refl)))
  | inr single ↦
      ap disk_round (ok-injective (sym (sort_stays d (only_one single) some_request) ∙ run))
]
  where
    only_one : ltb 1 d.len ≡ false → IsNearest d
    only_one single zero lt = omega arith
    only_one single (suc j) lt = absurd (ground arith)

rounds_same :
    (n : ℕ) (d d' : Disk)
    → disk_round d ≡ disk_round d'
    → disk_rounds (suc n) d ≡ disk_rounds (suc n) d'
unfolding disk_rounds
rounds_same n d d' e = rw (e) refl

IsSilent-same : (n : ℕ) (d d' : Disk) → disk_round d ≡ disk_round d' → IsSilent n d' → IsSilent n d
unfolding disk_rounds
IsSilent-same n d d' e quiet zero lt = (d, refl)
IsSilent-same n d d' e quiet (suc k) lt =
    let (end, runs) = quiet (suc k) lt in (end, rounds_same k d d' e ∙ runs)

-- The arm and the requests stand at tracks that there are.
abbrev pub IsOnDisk : Disk → Type 0
IsOnDisk d =
    (d.current_track ≤ total_tracks) × ((j : ℕ) → j < d.len → track_at d.queue j ≤ total_tracks)

-- With a request in the queue, the loop serves one that is nearest to the arm: it raises the interrupt
-- for that request in the round after as many rounds as there are tracks to go and milliseconds to
-- run, and none in those rounds. The arm stands at its track then, and the other requests are still in the queue.
pub disk_serves_nearest :
    (d : Disk)
    → IsValid d
    → IsOnDisk d
    → 0 < d.len
    → (r : IoReq) × (d' : Disk) × (disk_rounds
          (suc (abs_diff d.current_track r.track + r.time_to_run))
          d
        ≡ ok (some r.id, d'))
      × Perm (requests d) (r ∷ requests d')
      × ((j : ℕ)
          → j < d.len
          → abs_diff d.current_track r.track ≤ distance d.current_track d.queue j)
      × IsValid d'
      × (d'.current_track ≡ r.track)
      × ((k : ℕ)
          → k ≤ abs_diff d.current_track r.track + r.time_to_run
          → (d'' : Disk) × (disk_rounds k d ≡ ok (none, d'')))
disk_serves_nearest d v on some_request =
    let (d1, run1, s) = sort_disk-Sorted d v some_request in
    let (r, e) = get_elem?-lt d1.queue 0 (omega (arith, s.valid)) in
    let (d', run, v', rest, at, silent) = first_served d1 run1 s r e in
    (
      r,
      d',
      run,
      Perm.trans (Perm.symm s.same_requests) (subst (λ l. Perm (requests d1) l) rest (Perm.refl _)),
      λ j lt. omega (arith, track_r d1 r e, s.nearest_before j lt),
      v',
      at,
      λ k le. silent k (omega arith),
    )
  where
    track_r :
        (d1 : Disk) (r : IoReq)
        → get_elem? d1.queue 0 ≡ some r
        → distance d.current_track d1.queue 0 ≡ abs_diff d.current_track r.track
    track_r d1 r e = ap (λ (o : Option IoReq). abs_diff d.current_track (track_of o)) e

    track_small :
        (d1 : Disk)
        → Sorted d d1
        → (r : IoReq) → get_elem? d1.queue 0 ≡ some r
        → r.track ≤ total_tracks
    track_small d1 s r e =
        let (j, lt, same) = s.origin in omega (arith, ap track_of e, same, on.1 j lt)

    first_served :
        (d1 : Disk)
        → sort_disk d.current_track d ≡ ok d1
        → Sorted d d1
        → (r : IoReq) → get_elem? d1.queue 0 ≡ some r
        → (d' : Disk) × (disk_rounds (suc (abs_diff d.current_track r.track + r.time_to_run)) d
            ≡ ok (some r.id, d'))
          × IsValid d'
          × (requests d1 ≡ r ∷ requests d')
          × (d'.current_track ≡ r.track)
          × IsSilent (suc (abs_diff d.current_track r.track + r.time_to_run)) d
    first_served d1 run1 s r e =
        let (d', run, v', rest, at, silent) =
          Served-Served (abs_diff d.current_track r.track + r.time_to_run) d1 r s.valid s.nearest
            (omega (arith, s.same_len)) e (track_small d1 s r e) (omega (arith, s.same_track, on))
            (ap (λ t. abs_diff t r.track + r.time_to_run) s.same_track) in
        let same = disk_round-Sorted d d1 run1 s some_request in
        (d', rounds_same _ d d1 same ∙ run, v', rest, at, IsSilent-same _ d d1 same silent)

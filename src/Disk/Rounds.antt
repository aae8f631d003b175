-- ===== src/Disk/Rounds.antt =====
-- src/modules/io/disk.c: one round of the disk's thread, and a round before others.
use chic_os.Base.{
  ℕ, suc, ◌+◌, ◌-◌, ◌≤◌, ◌<◌, ◌≡◌, ◌≢◌, refl, inl, inr, true, false, none, some, arith, get_elem?,
  set, ok, ltb, ◌==◌, Bool-cases,
}
use chic_os.Utils.{abs_diff}
use chic_os.Disk.{
  IoReq, Disk, total_tracks, sort_disk, step_toward, move_header, exec_io, q_remove, serve,
  serve_first, disk_round, disk_rounds,
}
use chic_os.Disk.Queue.{IsValid}
use chic_os.Disk.Nearest.{IsNearest, closest_stays}

-- A step toward a track that is not reached brings the arm one track nearer to it.
pub step_nearer :
    (target track : ℕ)
    → target ≤ total_tracks
    → track ≤ total_tracks
    → target ≢ track
    → abs_diff (step_toward target track) target + 1 ≡ abs_diff track target
unfolding step_toward abs_diff
step_nearer target track h h' ne = ground arith

-- No track comes nearer by more than one.
pub step_bound :
    (target track other : ℕ)
    → target ≤ total_tracks
    → track ≤ total_tracks
    → abs_diff track other ≤ abs_diff (step_toward target track) other + 1
unfolding step_toward abs_diff
step_bound target track other h h' = ground arith

pub step_in :
    (target track : ℕ)
    → target ≤ total_tracks
    → track ≤ total_tracks
    → step_toward target track ≤ total_tracks
unfolding step_toward
step_in target track h h' = ground arith

pub sort_stays : (d : Disk) → IsNearest d → 0 < d.len → sort_disk d.current_track d ≡ ok d
unfolding sort_disk
sort_stays d near some_request =
    rw (closest_stays d.current_track d.queue (d.len - 1) 1 0 (λ j lt. near j (omega arith))) refl

serve_first_lem : (d : Disk) (r : IoReq) → get_elem? d.queue 0 ≡ some r → serve_first d ≡ serve r d
unfolding serve_first
serve_first_lem d r e = rw (e) refl

pub disk_round_served :
    (d : Disk) (r : IoReq)
    → IsNearest d
    → 0 < d.len
    → get_elem? d.queue 0 ≡ some r
    → disk_round d ≡ serve r d
unfolding disk_round
disk_round_served d r near some_request e = elim (Bool-cases (ltb 1 d.len)) [
  | inl several ↦
      rw (several) (rw (sort_stays d near some_request) (rw (busy) (serve_first_lem d r e)))
  | inr single ↦ rw (single) (rw (busy) (serve_first_lem d r e))
]
  where
    busy : ltb 0 d.len ≡ true
    busy = ground arith

-- The three things that a round does with the first request.
module _ (d : Disk) (r : IoReq) (v : IsValid d) where
  pub serve_moves :
      r.track ≢ d.current_track
      → serve r d ≡ ok (none, record d { current_track = step_toward r.track d.current_track })
  unfolding serve move_header
  serve_moves away = rw (off) (rw v.free refl)
    where
      off : (r.track == d.current_track) ≡ false
      off = ground arith

  pub serve_waits :
      r.track ≡ d.current_track
      → 0 < r.time_to_run
      → serve r d
        ≡ ok (
          none,
          record d {
            queue = set d.queue 0 (record r { time_to_run = r.time_to_run - 1 });
            current_track = r.track;
          },
        )
  unfolding serve exec_io
  serve_waits here pos = rw (on) (rw (left) refl)
    where
      on : (r.track == d.current_track) ≡ true
      on = ground arith

      left : ltb 0 r.time_to_run ≡ true
      left = ground arith

  pub serve_ends :
      (d' : Disk)
      → r.track ≡ d.current_track
      → r.time_to_run ≡ 0
      → q_remove d ≡ ok d'
      → serve r d ≡ ok (some r.id, d')
  unfolding serve exec_io
  serve_ends d' here over run = rw (on) (rw (none_left) (rw (run) refl))
    where
      on : (r.track == d.current_track) ≡ true
      on = ground arith

      none_left : ltb 0 r.time_to_run ≡ false
      none_left = ground arith

pub rounds_go :
    (n : ℕ) (d d' : Disk) → disk_round d ≡ ok (none, d') → disk_rounds (suc n) d ≡ disk_rounds n d'
unfolding disk_rounds
rounds_go n d d' run = rw (run) refl

pub rounds_end :
    (n : ℕ) (d d' : Disk) (pid : ℕ)
    → disk_round d ≡ ok (some pid, d')
    → disk_rounds (suc n) d ≡ ok (some pid, d')
unfolding disk_rounds
rounds_end n d d' pid run = rw (run) refl

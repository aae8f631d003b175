-- ===== src/Disk/Tests.antt =====
-- disk.c on a queue of two requests.
use mathlib.Core.List.{Perm}
use chic_os.Base.{
  ℕ, zero, suc, ◌+◌, ◌≤◌, ◌<◌, ◌≡◌, refl, none, some, [], ◌∷◌, ◌++◌, arith, replicate, ok,
}
use chic_os.Utils.{abs_diff}
use chic_os.Disk.{
  IoReq, Disk, total_tracks, track_at, simulate_io, sort_disk, closest, swap_first, disk_rounds,
  disk_round, serve_first, serve, exec_io, move_header, step_toward, q_remove, shift_down,
}
use chic_os.Disk.Queue.{IsValid, requests, simulate_io_appends}
use chic_os.Disk.Nearest.{distance, Sorted, sort_disk-Sorted}
use chic_os.Disk.Service.{IsOnDisk, disk_serves_nearest}

abbrev far : IoReq
far = record { id = 1; time_to_run = 2; track = 30 }

abbrev near : IoReq
near = record { id = 2; time_to_run = 1; track = 12 }

abbrev no_req : IoReq
no_req = record { id = 0; time_to_run = 0; track = 0 }

abbrev two : Disk
two = record { queue = far ∷ near ∷ replicate 9 no_req; len = 2; disk_s = 1; current_track = 10 }

two-IsValid : IsValid two
two-IsValid = omega arith

two-IsOnDisk : IsOnDisk two
two-IsOnDisk = (omega arith, tracks)
  where
    tracks : (j : ℕ) → j < 2 → track_at two.queue j ≤ total_tracks
    tracks zero lt = omega arith
    tracks (suc zero) lt = omega arith
    tracks (suc (suc j)) lt = absurd (omega arith)

-- The request at track 12 is served first: two tracks to go, one millisecond, and one round.
rounds_run :
    disk_rounds 4 two
    ≡ ok (
      some 2,
      record { queue = far ∷ no_req ∷ replicate 9 no_req; len = 1; disk_s = 1; current_track = 12 },
    )
unfolding disk_rounds disk_round serve_first serve exec_io move_header step_toward q_remove
    shift_down sort_disk closest swap_first abs_diff
rounds_run = refl

simulate_io_appends_example :
    (d : Disk) × (simulate_io 3 20 two ≡ ok d)
    × IsValid d
    × (requests d ≡ (far ∷ near ∷ []) ++ (record { id = 3; time_to_run = 4000; track = 20 } ∷ []))
simulate_io_appends_example = simulate_io_appends 3 20 two two-IsValid (omega arith) (omega arith)

sort_disk-Sorted_example : (d : Disk) × (sort_disk 10 two ≡ ok d) × Sorted two d
sort_disk-Sorted_example = sort_disk-Sorted two two-IsValid (omega arith)

disk_serves_nearest_example :
    (r : IoReq) × (d : Disk) × (disk_rounds (suc (abs_diff 10 r.track + r.time_to_run)) two
      ≡ ok (some r.id, d))
    × Perm (far ∷ near ∷ []) (r ∷ requests d)
    × ((j : ℕ) → j < 2 → abs_diff 10 r.track ≤ distance 10 two.queue j)
    × IsValid d
    × (d.current_track ≡ r.track)
    × ((k : ℕ)
        → k ≤ abs_diff 10 r.track + r.time_to_run
        → (d' : Disk) × (disk_rounds k two ≡ ok (none, d')))
disk_serves_nearest_example = disk_serves_nearest two two-IsValid two-IsOnDisk (omega arith)

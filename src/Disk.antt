-- ===== src/Disk.antt =====
-- src/modules/io/disk.c: the queue of disk requests, the arm, and the loop that serves the request
-- nearest to it.
pub mod Queue
mod Nearest
pub mod Rounds
pub mod Service
mod Tests
use chic_os.Base.{
  ℕ, zero, suc, ◌+◌, ◌-◌, Option, none, some, List, ltb, ◌==◌, if◌then◌else◌, length, get_elem?,
  set, Outcome, ok, fault, exits, ◌>>=◌, deref, sem_wait, sem_post, u8, u32,
}
use chic_os.Utils.{abs_diff}

abbrev pub disk_slice : ℕ
disk_slice = 4000

abbrev pub total_tracks : ℕ
total_tracks = 20000

pub record IoReq : Type 0 where
  pub id : ℕ
  pub time_to_run : ℕ
  pub track : ℕ

-- `queue` holds the MAX_PCB cells of the array, of which the first `len` are in use.
pub record Disk : Type 0 where
  pub queue : List IoReq
  pub len : ℕ
  pub disk_s : ℕ
  pub current_track : ℕ

unfoldable pub init_disk : Disk → Disk
init_disk d = record d { len = 0; disk_s = 1; current_track = 0 }

abbrev pub track_of : Option IoReq → ℕ
track_of none = 0
track_of (some r) = r.track

-- `queue[i].track`; the callers keep `i` within the array.
abbrev pub track_at : List IoReq → ℕ → ℕ
track_at queue i = track_of (get_elem? queue i)

-- The loop of `sort_disk` at index `i` with so many rounds left.
unfoldable pub closest : ℕ → ℕ → ℕ → List IoReq → ℕ → ℕ → ℕ
closest zero i base queue closest_idx min_diff = closest_idx
closest (suc rounds) i base queue closest_idx min_diff =
    let current_diff = abs_diff base (track_at queue i) in
    let nearer = ltb current_diff min_diff in
    closest rounds (i + 1) base queue (if nearer then i else closest_idx)
      (if nearer then current_diff else min_diff)

unfoldable pub swap_first : ℕ → Disk → Outcome Disk
swap_first i d = do
  first ← deref (get_elem? d.queue 0)
  r ← deref (get_elem? d.queue i)
  ok (record d { queue = set (set d.queue 0 r) i first })

unfoldable pub sort_disk : ℕ → Disk → Outcome Disk
sort_disk base d =
    let closest_idx = closest (d.len - 1) 1 base d.queue 0 (abs_diff base (track_at d.queue 0)) in
    if closest_idx == 0 then ok d else swap_first closest_idx d

-- One step up, or one step down.
unfoldable pub step_toward : ℕ → ℕ → ℕ
step_toward target track =
    let up = if ltb track target then u32 (track + 1) else track in
    if ltb target up then up - 1 else up

unfoldable pub move_header : ℕ → Disk → Outcome Disk
unfolding step_toward
move_header target d = do
  s ← sem_wait d.disk_s
  ok (record d { current_track = step_toward target d.current_track; disk_s = sem_post s })

-- A write at `len` past the array is a fault.
unfoldable pub q_put : IoReq → Disk → Outcome Disk
q_put r d =
    if ltb d.len (length d.queue)
    then ok (record d { queue = set d.queue d.len r; len = u8 (d.len + 1) })
    else fault

-- The loop of `q_remove` at index `i` with so many rounds left.
unfoldable pub shift_down : ℕ → ℕ → List IoReq → Outcome (List IoReq)
shift_down zero i queue = ok queue
shift_down (suc rounds) i queue = do
  r ← deref (get_elem? queue (i + 1))
  shift_down rounds (i + 1) (set queue i r)

-- At a `len` of 0 the write goes to index 255, past the array.
unfoldable pub q_remove : Disk → Outcome Disk
unfolding shift_down
q_remove d = if d.len == 0 then fault else (do
  queue ← shift_down (d.len - 1) 0 d.queue
  ok (record d {
    queue = set queue (d.len - 1) (record { id = 0; time_to_run = 0; track = 0 });
    len = d.len - 1;
  }))

-- `c_crit_error` ends the program at a track that is not there.
unfoldable pub simulate_io : ℕ → ℕ → Disk → Outcome Disk
simulate_io pid track d =
    if ltb total_tracks track
    then exits
    else q_put (record { id = pid; time_to_run = disk_slice; track = track }) d

-- On the first request; `some id` is the interrupt `disk_finish` for that process.
unfoldable pub exec_io : IoReq → Disk → Outcome (Option ℕ × Disk)
exec_io r d =
    if ltb 0 r.time_to_run
    then (ok (
      none,
      record d {
        queue = set d.queue 0 (record r { time_to_run = r.time_to_run - 1 });
        current_track = r.track;
      },
    ))
    else (do d' ← q_remove d; ok (some r.id, d'))

unfoldable pub serve : IoReq → Disk → Outcome (Option ℕ × Disk)
serve r d =
    if r.track == d.current_track
    then exec_io r d
    else (do d' ← move_header r.track d; ok (none, d'))

unfoldable pub serve_first : Disk → Outcome (Option ℕ × Disk)
serve_first d = do r ← deref (get_elem? d.queue 0); serve r d

-- One round of `disk_loop`.
unfoldable pub disk_round : Disk → Outcome (Option ℕ × Disk)
disk_round d = do
  d' ← if ltb 1 d.len then sort_disk d.current_track d else ok d
  if ltb 0 d'.len then serve_first d' else ok (none, d')

-- Rounds of `disk_loop` up to the first interrupt that it raises, at most so many.
unfoldable pub disk_rounds : ℕ → Disk → Outcome (Option ℕ × Disk)
disk_rounds zero d = ok (none, d)
disk_rounds (suc rounds) d = do
  (done, d') ← disk_round d
  elim done [ none ↦ disk_rounds rounds d' | some pid ↦ ok (some pid, d') ]

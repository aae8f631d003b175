-- ===== src/Render/Panels.antt =====
-- src/modules/render/render.c: what the panels show. The fixed texts are names here, and a number is
-- its value, without its padding.
use chic_os.Base.{
  ℕ, zero, suc, ◌+◌, ◌-◌, ◌/◌, ◌%◌, true, false, Option, none, some, List, [], ◌∷◌, ◌++◌, leb, ltb,
  ◌==◌, if◌then◌else◌, take, get_elem?, Outcome, ok, unfinished, ◌>>=◌, deref,
}
use chic_os.Process.{Status, Process, Pcb, max_pcb}
use chic_os.Semaphore.{Semaphore, SemaphoreList, default_waiters_num}
use chic_os.Disk.{Disk, IoReq}
use chic_os.Printer.{Printer, get_print_time}

-- The texts.
pub data Label : Type 0 where
  cpu_title name_head pid_head status_head time_head rw_head no_process_line pcb_full : Label
  semaphore_head sid_head value_head waiters_head no_semaphore_line : Label
  disk_title id_head track_head run_head blank_line no_request_line position_title : Label
  printer_title printer_empty : Label
  debug_mode memory_title ram_usage usage input_title path_hint goodbye : Label

-- An inactive process is shown as `IDLE`.
pub data Shown : Type 0 where
  label : Label → Shown
  word : List ℕ → Shown
  num : ℕ → Shown
  byte : ℕ → Shown
  state : Status → Shown
  bar : ℕ → Shown
  filled_bar : ℕ → ℕ → Shown
  head : Shown
  printing : ℕ → ℕ → Shown

-- `mvwprintw` at a line and a column of the panel.
pub record Draw : Type 0 where
  pub y : ℕ
  pub x : ℕ
  pub what : Shown

abbrev pub at : ℕ → ℕ → Shown → Draw
at y x what = record { y = y; x = x; what = what }

abbrev pub col_name_x : ℕ
col_name_x = 2

abbrev pub col_pid_x : ℕ
col_pid_x = 20

abbrev pub col_status_x : ℕ
col_status_x = 28

abbrev pub col_time_x : ℕ
col_time_x = 37

abbrev pub col_rw_count : ℕ
col_rw_count = 54

abbrev pub process_line : ℕ → Process → ℕ → List Draw
process_line row p rw_count =
    at row col_name_x (word (take 15 p.name))
    ∷ at row col_pid_x (num p.pid)
    ∷ at row col_status_x (state p.status)
    ∷ at row col_time_x (num p.time_to_run)
    ∷ at row col_rw_count (num rw_count)
    ∷ []

-- The loop over the processes from cell `i` on, at its line.
unfoldable pub process_rows : ℕ → ℕ → ℕ → List Process → Outcome (List Draw)
process_rows zero i row stack = ok []
process_rows (suc rounds) i row stack = do
  p ← deref (get_elem? stack i)
  b ← deref p.fb
  below ← process_rows rounds (i + 1) (row + 1) stack
  ok (process_line row p b.h.rw_count ++ below)

-- The loop over the waiters from index `k` on, as far as they fit in half the screen.
unfoldable pub waiter_cells : ℕ → ℕ → ℕ → ℕ → ℕ → ℕ → Option (List ℕ) → Outcome (List Draw)
waiter_cells zero cols row k tail j waiters = unfinished
waiter_cells (suc rounds) cols row k tail j waiters = elim (k == tail) [
  | true ↦ ok []
  | false ↦ do
    shown ←
        if ltb (j + 1) (cols / 2)
        then (do w ← deref waiters; pid ← deref (get_elem? w k); ok (at row j (num pid) ∷ []))
        else ok []
    after ← waiter_cells rounds cols row ((k + 1) % default_waiters_num) tail (j + 2) waiters
    ok (shown ++ after)
]

-- A lap of the ring is enough for the waiters.
unfoldable pub semaphore_rows : ℕ → ℕ → ℕ → ℕ → List Semaphore → Outcome (List Draw)
semaphore_rows zero cols i row l = ok []
semaphore_rows (suc rounds) cols i row l = do
  s ← deref (get_elem? l i)
  waiters ← waiter_cells 65 cols row s.head s.tail col_time_x s.waiters
  below ← semaphore_rows rounds cols (i + 1) (row + 1) l
  ok (
      at row col_name_x (byte s.name)
        ∷ at row col_pid_x (num s.id)
        ∷ at row col_status_x (num s.value)
        ∷ waiters
      ++ below)

-- Texts at a line.
abbrev pub line_of : ℕ → List (ℕ × Shown) → List Draw
line_of row [] = []
line_of row ((x, what) ∷ rest) = at row x what ∷ line_of row rest

unfoldable pub render_left_panel : ℕ → ℕ → Pcb → SemaphoreList → Outcome (List Draw)
render_left_panel cols quantum_time t sl = do
  processes ← process_rows t.last 0 3 t.process_stack
  semaphores ← semaphore_rows sl.last cols 0 (max_pcb + 5) sl.l
  ok (
      at 0 1 (label cpu_title)
        ∷ at 0 1 (num quantum_time)
        ∷ line_of 2 (
            (col_name_x, label name_head)
            ∷ (col_pid_x, label pid_head)
            ∷ (col_status_x, label status_head)
            ∷ (col_time_x, label time_head)
            ∷ (col_rw_count, label rw_head)
            ∷ [])
      ++ (processes
          ++ ((if t.last == 0
                then line_of 3 (
                    (col_name_x, label no_process_line)
                    ∷ (col_pid_x, label no_process_line)
                    ∷ (col_status_x, label no_process_line)
                    ∷ (col_time_x, label no_process_line)
                    ∷ (col_rw_count, label no_process_line)
                    ∷ [])
                else [])
              ++ ((if t.last == max_pcb - 1 then at (2 + max_pcb) 2 (label pcb_full) ∷ [] else [])
                  ++ (line_of (max_pcb + 4) (
                        (col_name_x, label semaphore_head)
                        ∷ (col_pid_x, label sid_head)
                        ∷ (col_status_x, label value_head)
                        ∷ (col_time_x, label waiters_head)
                        ∷ [])
                      ++ (semaphores
                          ++ (if sl.last == 0
                              then line_of (max_pcb + 5) (
                                  (col_name_x, label no_semaphore_line)
                                  ∷ (col_pid_x, label no_semaphore_line)
                                  ∷ (col_status_x, label no_semaphore_line)
                                  ∷ (col_time_x, label no_semaphore_line)
                                  ∷ [])
                              else [])))))))

-- `get_print_time` takes the printer's semaphore; the node is read without it.
unfoldable pub print_event : Printer → Outcome (List Draw × Printer)
print_event p = do
  (buff, p') ← get_print_time p
  if p'.active
      then (elim buff [
        | none ↦ ok (at 2 2 (label printer_empty) ∷ [], p')
        | some a ↦ do node ← deref (p'.nodes a); ok (at 2 2 (printing node.pid node.time) ∷ [], p')
      ])
      else ok (at 2 2 (label printer_empty) ∷ [], p')

-- The position of the arm in a bar of `barw` cells, where the float computation gives `scaled`.
unfoldable pub track_pos : ℕ → ℕ → ℕ
track_pos barw scaled = if leb barw scaled then barw - 1 else scaled

-- On a panel of `y` lines and `x` columns; below 7 columns nothing is drawn, and there are at least 3
-- lines.
unfoldable pub draw_disk_status : ℕ → ℕ → (ℕ → ℕ → ℕ) → ℕ → List Draw
draw_disk_status y x scale current_track =
    if ltb x 7
    then []
    else (let barw = x - 5 in
        at (y - 3) 1 (label position_title)
        ∷ at (y - 3) 1 (num current_track)
        ∷ at (y - 2) 2 (bar barw)
        ∷ at (y - 2) (3 + track_pos barw (scale current_track barw)) head
        ∷ [])

abbrev pub request_line : ℕ → IoReq → List Draw
request_line row r = line_of row ((2, num r.id) ∷ (10, num r.track) ∷ (20, num r.time_to_run) ∷ [])

unfoldable pub request_rows : ℕ → ℕ → ℕ → List IoReq → Outcome (List Draw)
request_rows zero i row queue = ok []
request_rows (suc rounds) i row queue = do
  r ← deref (get_elem? queue i)
  below ← request_rows rounds (i + 1) (row + 1) queue
  ok (request_line row r ++ below)

unfoldable pub blank_rows : ℕ → ℕ → List Draw
blank_rows zero row = []
blank_rows (suc rounds) row =
    line_of row ((2, label blank_line) ∷ (10, label blank_line) ∷ (20, label blank_line) ∷ [])
    ++ blank_rows rounds (row + 1)

unfoldable pub render_right_mid_panel : ℕ → ℕ → (ℕ → ℕ → ℕ) → Disk → Outcome (List Draw)
render_right_mid_panel y x scale d = do
  requests ← request_rows d.len 0 2 d.queue
  ok (
      at 0 1 (label disk_title)
        ∷ at 0 1 (num d.len)
        ∷ line_of 1 ((2, label id_head) ∷ (10, label track_head) ∷ (20, label run_head) ∷ [])
      ++ (requests
          ++ (blank_rows (max_pcb - d.len) (2 + d.len)
              ++ ((if d.len == 0
                    then line_of 2 (
                        (2, label no_request_line)
                        ∷ (10, label no_request_line)
                        ∷ (20, label no_request_line)
                        ∷ [])
                    else [])
                  ++ draw_disk_status y x scale d.current_track))))

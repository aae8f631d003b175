-- ===== src/Render/Tests.antt =====
-- render.c on small inputs.
use chic_os.Base.{
  ℕ, ◌<◌, ◌≡◌, refl, Bool, true, false, none, some, List, [], ◌∷◌, ◌++◌, arith, length, ok, waits,
}
use chic_os.Memory.{Memory, c_alloc, c_dealloc, make_room, place}
use chic_os.Stdio.{same_bytes}
use chic_os.Synt.{valid_path}
use chic_os.Printer.{get_print_time}
use chic_os.Synt.Tests.{sixteen}
use chic_os.User.{Accounts, trim_whitespace, trim_end, trim_start}
use chic_os.User.Login.{logged_in}
use chic_os.Cpu.Tests.{world, system_of, one, idle}
use chic_os.Syscall.{System}
use chic_os.Render.{
  Machine, init_renderer, path_keys, path_key, drop_last, read_path, open_path, login_flow,
}
use chic_os.Render.Screens.{
  Ui, Round, init_render, bootstrap_ui, start_session, render_loop, resize_if, render_round,
  status_bar, render_right_top_panel, render_right_bottom_panel, clear_renderer,
}
use chic_os.Render.Panels.{
  Draw, print_event, render_left_panel, process_rows, semaphore_rows, at, label, num, bar, head,
  position_title, draw_disk_status, track_pos, render_right_mid_panel, request_rows, blank_rows,
}
use chic_os.Render.Layout.{Fits, windows_at, init_renderer-tiles}
use chic_os.Render.Input.{login_flow-creates}

-- A key is taken back, and Escape leaves the loop.
path_runs :
    (path_keys (some b'a' ∷ none ∷ some 127 ∷ some b'b' ∷ some 10 ∷ []) [] ≡ ok (some (b'b' ∷ [])))
    × (path_keys (some b'a' ∷ some 27 ∷ []) [] ≡ ok none)
    × (path_keys (some b'a' ∷ []) [] ≡ waits)
unfolding path_keys path_key drop_last
path_runs = (refl, refl, refl)

-- A path that is not there changes nothing.
no_path_runs :
    read_path world (λ p. false) (some b'a' ∷ some 10 ∷ []) (system_of one)
    ≡ ok (true, system_of one)
unfolding read_path path_keys path_key open_path valid_path
no_path_runs = refl

-- The head stays in the bar, also where the float computation gives its length.
disk_status_runs :
    (draw_disk_status 10 20 (λ t b. b) 20000
      ≡ at 7 1 (label position_title) ∷ at 7 1 (num 20000) ∷ at 8 2 (bar 15) ∷ at 8 17 head ∷ [])
    × (draw_disk_status 10 6 (λ t b. b) 20000 ≡ [])
unfolding draw_disk_status track_pos
disk_status_runs = (refl, refl)

-- Twelve lines of requests or blanks, whatever the queue holds.
idle_panel_runs :
    (ds : List Draw) × (render_right_mid_panel 20 40 (λ t b. 0) idle ≡ ok ds) × (length ds ≡ 45)
unfolding render_right_mid_panel request_rows blank_rows draw_disk_status track_pos
idle_panel_runs = (_, refl, refl)

init_renderer-tiles_example :
    (Fits (init_renderer 13 80).status_win 24 80
      × Fits (init_renderer 13 80).left_panel 24 80
      × Fits (init_renderer 13 80).left_bottom 24 80
      × Fits (init_renderer 13 80).right_top 24 80
      × Fits (init_renderer 13 80).right_mid 24 80
      × Fits (init_renderer 13 80).right_bottom 24 80)
    × ((y x : ℕ) → y < 24 → x < 80 → windows_at (init_renderer 13 80) y x ≡ 1)
init_renderer-tiles_example = init_renderer-tiles 13 80 (omega arith) (omega arith)

abbrev machine : Machine
machine = record {
  hash = λ p. some (b'$' ∷ p);
  verify = λ h p. same_bytes h (b'$' ∷ p);
  writable = true;
  memory = true;
}

abbrev nobody : Accounts
nobody = record { files = λ p. none; log = [] }

abbrev name : List ℕ
name = b'a' ∷ b'n' ∷ b'n' ∷ []

name_trimmed : trim_whitespace name ≡ name
unfolding trim_whitespace trim_end trim_start
name_trimmed = refl

login_flow-creates_example :
    (m : Memory) × ((a : Accounts) × (login_flow machine
          ((name, (b'p' ∷ b'w' ∷ []) ++ (10 ∷ [])) ∷ [])
          nobody
          sixteen
        ≡ ok (logged_in name (b'$' ∷ b'p' ∷ b'w' ∷ []), a, m)))
unfolding c_alloc make_room place c_dealloc same_bytes
login_flow-creates_example = (
  _,
  login_flow-creates machine name (b'p' ∷ b'w' ∷ []) (b'$' ∷ b'p' ∷ b'w' ∷ []) [] 8 nobody sixteen _
      _ refl refl refl refl refl (refl, (refl, (refl, tt))) (omega arith)
      (λ e. omega arith, (λ e. omega arith, (λ e. omega arith, tt))) (omega arith) name_trimmed
      (omega arith, omega arith, (omega arith, omega arith, tt)) (omega arith) refl refl,
)

abbrev quiet_round : Bool → Round
quiet_round resized = record {
  resized = resized;
  key = none;
  keys = [];
  scaled = λ barw. some 3;
  scale = λ track barw. 1;
}

-- The thread from its start to its end, for debugging, in two rounds.
render_runs :
    (u : Ui) × (s : System) × (init_render world machine
        (λ p. true)
        true
        13
        80
        []
        (quiet_round false ∷ quiet_round false ∷ [])
        nobody
        (system_of one)
      ≡ ok (u, nobody, s))
    × (u.active ≡ false)
    × (s.mem.free_page_num ≡ 16)
unfolding init_render bootstrap_ui start_session render_loop resize_if render_round status_bar
    render_left_panel process_rows semaphore_rows render_right_top_panel render_right_mid_panel
    request_rows blank_rows draw_disk_status track_pos render_right_bottom_panel print_event
    get_print_time clear_renderer c_alloc make_room place c_dealloc init_renderer
render_runs = (_, _, refl, refl, refl)

-- After a resize the first buffer is never given back and the second one twice: all pages are
-- counted as free.
resize_runs :
    (u : Ui) × (s : System) × (init_render world machine
        (λ p. true)
        true
        13
        80
        []
        (quiet_round true ∷ [])
        nobody
        (system_of one)
      ≡ ok (u, nobody, s))
    × (s.mem.free_page_num ≡ 16)
unfolding init_render bootstrap_ui start_session render_loop resize_if render_round status_bar
    render_left_panel process_rows semaphore_rows render_right_top_panel render_right_mid_panel
    request_rows blank_rows draw_disk_status track_pos render_right_bottom_panel print_event
    get_print_time clear_renderer c_alloc make_room place c_dealloc init_renderer
resize_runs = (_, _, refl, refl)

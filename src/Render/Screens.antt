-- ===== src/Render/Screens.antt =====
-- src/modules/render/render.c: the other panels, and the terminal's thread from its start to its end.
use chic_os.Base.{
  ℕ, ◌+◌, ◌-◌, ◌/◌, Bool, true, false, ◌||◌, Option, none, some, List, [], ◌∷◌, ltb, ◌==◌,
  if◌then◌else◌, length, Outcome, ok, fault, ◌>>=◌, deref, sem_wait, sem_post,
}
use chic_os.Memory.{Memory, c_alloc, c_dealloc}
use chic_os.User.{User, Accounts}
use chic_os.Syscall.{System, World}
use chic_os.Render.{Renderer, Machine, init_renderer, read_path, login_flow}
use chic_os.Render.Panels.{
  Draw, at, label, word, bar, filled_bar, printer_title, debug_mode, memory_title, ram_usage, usage,
  input_title, path_hint, goodbye, render_left_panel, print_event, render_right_mid_panel,
}

-- What `renderer` holds besides its windows.
pub record Ui : Type 0 where
  pub active : Bool
  pub output_buff : Option ℕ
  pub output : List ℕ
  pub renderer_s : ℕ

-- The text that `bootstrap_ui` puts into the buffer, which it does not test for null.
abbrev pub init_text : List ℕ
init_text = b'i' ∷ b'n' ∷ b'i' ∷ b't' ∷ []

unfoldable pub bootstrap_ui : Memory → Outcome (Ui × Memory)
bootstrap_ui m = do
  (ptr, m') ← c_alloc 4096 m
  a ← deref ptr
  ok (record { active = true; output_buff = some a; output = init_text; renderer_s = 1 }, m')

-- The text has to fit in the 4096 bytes of the buffer.
unfoldable pub render_log : List ℕ → Ui → Outcome Ui
render_log statement u = do
  n ← sem_wait u.renderer_s
  u' ← elim u.output_buff [
    | none ↦ ok u
    | some a ↦ if ltb (length statement) 4096 then ok (record u { output = statement }) else fault
  ]
  ok (record u' { renderer_s = sem_post n })

-- The windows are given back, but for `right_mid`, and then the buffer.
unfoldable pub clear_renderer : Bool → ℕ → ℕ → Ui → Memory → Outcome (List Draw × Ui × Memory)
clear_renderer debug lines cols u m = do
  m' ← c_dealloc u.output_buff m
  ok (
    if debug then [] else at (lines / 2) ((cols - 10) / 2) (label goodbye) ∷ [],
    record u { active = false },
    m',
  )

unfoldable pub status_bar : Bool → Option User → Outcome (List Draw)
status_bar true user = ok (at 0 0 (label debug_mode) ∷ [])
status_bar false user = do u ← deref user; ok (at 0 0 (word u.username) ∷ [])

-- On a panel of `x` columns. `scaled` is the float computation of the part of the bar that is filled;
-- none is a negative one, for which `memset` is not defined.
unfoldable pub render_right_top_panel : ℕ → (ℕ → Option ℕ) → Outcome (List Draw)
render_right_top_panel x scaled = if ltb x 4 then fault else (do
  let barw = x - 4
  part ← deref (scaled barw)
  let filled = if ltb barw part then barw else part
  ok (
      at 0 1 (label memory_title)
      ∷ at 2 1 (label ram_usage)
      ∷ at 3 1 (filled_bar filled barw)
      ∷ at 3 2 (bar filled)
      ∷ at 5 1 (label usage)
      ∷ []))

-- The key `p` starts the input of a path. What `read_path` shows meanwhile is left out.
unfoldable pub render_right_bottom_panel :
    World → (List ℕ → Bool) → Option ℕ → List (Option ℕ) → System → Outcome (List Draw × System)
render_right_bottom_panel w access key keys s = do
  (cancel, s') ← elim key [
    | none ↦ ok (false, s)
    | some ch ↦ if ch == b'p' || ch == b'P' then read_path w access keys s else ok (false, s)
  ]
  ok (at 0 1 (label input_title) ∷ at 1 2 (label path_hint) ∷ [], s')

-- What a round of the loop finds of the terminal: whether it has been resized, a key for the panel,
-- the keys that follow, and the two float computations.
pub record Round : Type 0 where
  pub resized : Bool
  pub key : Option ℕ
  pub keys : List (Option ℕ)
  pub scaled : ℕ → Option ℕ
  pub scale : ℕ → ℕ → ℕ

-- On a resize the interface is set up, cleared again, and only its windows are made anew.
unfoldable pub resize_if : Bool → Bool → ℕ → ℕ → Ui → Memory → Outcome (Ui × Memory)
resize_if false debug lines cols u m = ok (u, m)
resize_if true debug lines cols u m = do
  (u1, m1) ← bootstrap_ui m
  (bye, u2, m2) ← clear_renderer debug lines cols u1 m1
  ok (u2, m2)

-- The panels of one round of `render_loop`, with what each panel shows, in their order.
unfoldable pub render_round :
    World
    → (List ℕ → Bool)
    → Bool
    → Option User
    → ℕ
    → Renderer
    → Round
    → System
    → Outcome (List (List Draw) × System)
render_round w access debug user cols r round s = do
  status ← status_bar debug user
  left ← render_left_panel cols s.quantum_time s.pcb s.semaphores
  top ← render_right_top_panel r.right_top.w round.scaled
  mid ← render_right_mid_panel r.right_mid.h r.right_mid.w round.scale s.disk
  (bottom, s1) ← render_right_bottom_panel w access round.key round.keys s
  (printing, p) ← print_event s1.printer
  ok (
    status ∷ left ∷ top ∷ mid ∷ bottom ∷ (at 0 1 (label printer_title) ∷ printing) ∷ [],
    record s1 { printer = p },
  )

-- The loop over the rounds up to the stop, on a terminal of eleven lines and `more`.
unfoldable pub render_loop :
    World
    → (List ℕ → Bool)
    → Bool
    → Option User
    → ℕ
    → ℕ
    → List Round
    → Ui
    → System
    → Outcome (Ui × System)
render_loop w access debug user more cols [] u s = ok (u, s)
render_loop w access debug user more cols (round ∷ rounds) u s = do
  (u', m) ← resize_if round.resized debug (more + 11) cols u s.mem
  (shown, s') ←
      render_round w access debug user cols (init_renderer more cols) round (record s { mem = m })
  render_loop w access debug user more cols rounds u' s'

-- The login, where the program does not run for debugging.
unfoldable pub start_session :
    Machine
    → Bool
    → List (List ℕ × List ℕ)
    → Accounts
    → Memory
    → Outcome (Option User × Accounts × Memory)
start_session v true logins a m = ok (none, a, m)
start_session v false logins a m = do (u, a', m') ← login_flow v logins a m; ok (some u, a', m')

-- `init_render` on a terminal of eleven lines and `more`; the welcome screen in between only shows.
unfoldable pub init_render :
    World
    → Machine
    → (List ℕ → Bool)
    → Bool
    → ℕ
    → ℕ
    → List (List ℕ × List ℕ)
    → List Round
    → Accounts
    → System
    → Outcome (Ui × Accounts × System)
init_render w v access debug more cols logins rounds a s = do
  (u, m1) ← bootstrap_ui s.mem
  (user, a', m2) ← start_session v debug logins a m1
  (u1, s') ← render_loop w access debug user more cols rounds u (record s { mem = m2 })
  (bye, u2, m3) ← clear_renderer debug (more + 11) cols u1 s'.mem
  ok (u2, a', record s' { mem = m3 })

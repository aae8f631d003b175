-- ===== src/Render.antt =====
-- src/modules/render/render.c: the windows, what is typed in, and the login. Drawing is left to the
-- terminal's library; keys are their codes, and `none` is no key.
pub mod Panels
mod Screens
pub mod Layout
pub mod Input
mod Tests
use chic_os.Base.{
  ℕ, zero, suc, ◌+◌, ◌-◌, ◌*◌, ◌/◌, Bool, true, false, ◌&&◌, ◌||◌, Option, none, some, List, [],
  ◌∷◌, ◌++◌, leb, ltb, ◌==◌, if◌then◌else◌, length, take, Outcome, ok, waits, ◌>>=◌,
}
use chic_os.Memory.{Memory}
use chic_os.Process
use chic_os.Synt.{valid_path}
use chic_os.User.{User, Accounts, retrieve_addr, write_login_data, read_login_data}
use chic_os.Syscall.{System, World, Args, interrupt_control}
use chic_os.Cpu.{no_args}

pub record Window : Type 0 where
  pub h : ℕ
  pub w : ℕ
  pub y : ℕ
  pub x : ℕ

-- On a screen of so many lines and columns. `newwin` makes a window of no lines or columns as large
-- as the screen is from its corner on.
abbrev pub create_newwin : ℕ → ℕ → ℕ → ℕ → ℕ → ℕ → Window
create_newwin lines cols h w y x = record {
  h = if h == 0 then lines - y else h;
  w = if w == 0 then cols - x else w;
  y = y;
  x = x;
}

pub record Renderer : Type 0 where
  pub status_win : Window
  pub left_panel : Window
  pub right_top : Window
  pub right_mid : Window
  pub right_bottom : Window
  pub left_bottom : Window

-- On a terminal with eleven lines and `more`, and `cols` columns. With fewer lines the heights are
-- negative and the library makes no window.
unfoldable pub init_renderer : ℕ → ℕ → Renderer
init_renderer more cols =
    let lines = more + 11 in
    let left_panel_height = lines - 11 in
    let left_bottom_height : ℕ = 10 in
    let width = cols / 2 in
    let remaining_height = lines - 1 - 6 in
    let height_top = remaining_height / 2 in
    let height_mid = remaining_height - height_top in
    record {
      status_win = create_newwin lines cols 1 cols 0 0;
      left_panel = create_newwin lines cols left_panel_height (cols / 2) 1 0;
      left_bottom =
          create_newwin lines cols left_bottom_height (cols / 2) (1 + left_panel_height) 0;
      right_top = create_newwin lines cols height_top width 1 (cols / 2);
      right_mid = create_newwin lines cols height_mid width (1 + height_top) (cols / 2);
      right_bottom = create_newwin lines cols 6 width (1 + height_top + height_mid) (cols / 2);
    }

-- The library's code for the key.
abbrev pub key_backspace : ℕ
key_backspace = 263

abbrev pub is_back : ℕ → Bool
is_back ch = ch == key_backspace || (ch == 127 || ch == 8)

abbrev pub is_print : ℕ → Bool
is_print ch = leb 32 ch && leb ch 126

-- The string without its last byte.
unfoldable pub drop_last : List ℕ → List ℕ
drop_last [] = []
drop_last (c ∷ []) = []
drop_last (c ∷ d ∷ s) = c ∷ drop_last (d ∷ s)

-- One key of `read_path` that does not end it; the buffer has 4096 bytes.
unfoldable pub path_key : ℕ → List ℕ → List ℕ
path_key ch buffer =
    if is_back ch
    then drop_last buffer
    else (if ltb (length buffer) 4095 && is_print ch then buffer ++ (ch ∷ []) else buffer)

-- The loop of `read_path` over the keys. The result is the path, or none where Escape is typed.
unfoldable pub path_keys : List (Option ℕ) → List ℕ → Outcome (Option (List ℕ))
path_keys [] buffer = waits
path_keys (none ∷ keys) buffer = path_keys keys buffer
path_keys (some ch ∷ keys) buffer = elim (ch == b'\n') [
  | true ↦ ok (some buffer)
  | false ↦ elim (ch == 27) [ true ↦ ok none | false ↦ path_keys keys (path_key ch buffer) ]
]

-- What `read_path` does with the path; the first word of it is what `interrupt_control` reads.
unfoldable pub open_path : World → (List ℕ → Bool) → List ℕ → System → Outcome System
open_path w access path s =
    if valid_path access (some path)
    then interrupt_control w Process.process_create (record no_args { path = path }) s
    else ok s

-- `read_path`; the result 0 is false.
unfoldable pub read_path :
    World → (List ℕ → Bool) → List (Option ℕ) → System → Outcome (Bool × System)
read_path w access keys s = do
  typed ← path_keys keys []
  elim typed [ none ↦ ok (false, s) | some path ↦ do s' ← open_path w access path s; ok (true, s') ]

-- One key of the password; its field has 128 bytes.
unfoldable pub password_key : ℕ → List ℕ → List ℕ
password_key ch password =
    if is_back ch && ltb 0 (length password)
    then drop_last password
    else (if is_print ch && ltb (length password) 127 then password ++ (ch ∷ []) else password)

unfoldable pub password_keys : List ℕ → List ℕ → Outcome (List ℕ)
password_keys [] password = waits
password_keys (ch ∷ keys) password = elim (ch == b'\n') [
  | true ↦ ok password
  | false ↦ password_keys keys (password_key ch password)
]

-- `username` is the line that the library reads, of which 255 bytes are kept.
unfoldable pub get_credentials : List ℕ → List ℕ → Outcome User
get_credentials username keys = do
  password ← password_keys keys []
  ok (record { username = take 255 username; password = password; logged = false })

-- What libsodium gives `login_flow`, and what it finds of the machine.
pub record Machine : Type 0 where
  pub hash : List ℕ → Option (List ℕ)
  pub verify : List ℕ → List ℕ → Bool
  pub writable : Bool
  pub memory : Bool

abbrev pub is_some {ℓ} : {A : Type ℓ} → Option A → Bool
is_some none = false
is_some (some a) = true

-- One round of `login_flow` with what was typed in.
unfoldable pub login_round :
    Machine → User → Accounts → Memory → Outcome (Option User × Accounts × Memory)
login_round v login a m = do
  let file_exists = is_some (a.files (retrieve_addr login 4096))
  (usr, a1, m1) ← read_login_data v.verify login a m
  elim file_exists [
    | true ↦ ok (usr, a1, m1)
    | false ↦ do
      a2 ← write_login_data v.writable v.memory v.hash login a1
      read_login_data v.verify login a2 m1
  ]

-- `login_flow` over the user names and keys that are typed in, one pair a round. The result is the
-- user who is logged in.
unfoldable pub login_flow :
    Machine → List (List ℕ × List ℕ) → Accounts → Memory → Outcome (User × Accounts × Memory)
login_flow v [] a m = waits
login_flow v ((username, keys) ∷ rounds) a m = do
  login ← get_credentials username keys
  (usr, a', m') ← login_round v login a m
  elim usr [ some u ↦ ok (u, a', m') | none ↦ login_flow v rounds a' m' ]

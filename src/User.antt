-- ===== src/User.antt =====
-- src/modules/user/user.c: the accounts and their files. The hash of a password and its check are
-- libsodium's, and stand here as functions.
mod Trim
pub mod Login
mod Tests
use chic_os.Base.{
  ℕ, zero, suc, ◌+◌, ◌-◌, Bool, true, false, ◌&&◌, Option, none, some, List, [], ◌∷◌, ◌++◌, ◌==◌,
  if◌then◌else◌, length, take, drop, Outcome, ok, exits, unfinished, ◌>>=◌,
}
use chic_os.Memory.{Memory, c_alloc, c_dealloc}
use chic_os.Stdio.{File, is_space, fgets, same_bytes}
use chic_os.Stdio.Scan.{from_start}

abbrev pub keep_end : ℕ → List ℕ → List ℕ
keep_end c [] = if is_space c then [] else c ∷ []
keep_end c (d ∷ s) = c ∷ d ∷ s

-- The first loop, with the NUL that is written behind it.
unfoldable pub trim_end : List ℕ → List ℕ
trim_end [] = []
trim_end (c ∷ s) = keep_end c (trim_end s)

-- The second loop, with the move to the front.
unfoldable pub trim_start : List ℕ → List ℕ
trim_start [] = []
trim_start (c ∷ s) = let rest = trim_start s in if is_space c then rest else c ∷ s

unfoldable pub trim_whitespace : List ℕ → List ℕ
trim_whitespace str = trim_start (trim_end str)

pub record User : Type 0 where
  pub username : List ℕ
  pub password : List ℕ
  pub logged : Bool

-- What goes to `auth.log`.
pub data AuthEvent : Type 0 where
  file_create_fail user_created file_not_found invalid_file_format : AuthEvent
  login_success login_failure login_fail criptografia : AuthEvent

-- The files by their paths, and the log's lines, each with what it names, the last one first.
pub record Accounts : Type 0 where
  pub files : List ℕ → Option (List ℕ)
  pub log : List (AuthEvent × List ℕ)

unfoldable pub log_event : AuthEvent → List ℕ → Accounts → Accounts
log_event event username a = record a { log = (event, username) ∷ a.log }

-- `resources/data/`
abbrev pub data_dir : List ℕ
data_dir =
    b'r' ∷ b'e' ∷ b's' ∷ b'o' ∷ b'u' ∷ b'r' ∷ b'c' ∷ b'e' ∷ b's' ∷ b'/' ∷ b'd' ∷ b'a' ∷ b't' ∷ b'a'
    ∷ b'/' ∷ []

-- `snprintf` keeps what fits in front of its NUL.
unfoldable pub retrieve_addr : User → ℕ → List ℕ
retrieve_addr u addr_sz = take (addr_sz - 1) (data_dir ++ (u.username ++ (b'.' ∷ b'u' ∷ b's' ∷ [])))

-- `memory` is whether `malloc` returns memory, and `hash` gives none where it fails.
unfoldable pub encrypt : Bool → (List ℕ → Option (List ℕ)) → List ℕ → Outcome (Option (List ℕ))
encrypt false hash password = ok none
encrypt true hash password = elim (hash password) [ none ↦ exits | some h ↦ ok (some h) ]

unfoldable pub decrypt : (List ℕ → List ℕ → Bool) → List ℕ → List ℕ → Bool
decrypt verify stored provided = verify stored provided

-- `USERNAME: `
abbrev pub username_key : List ℕ
username_key = b'U' ∷ b'S' ∷ b'E' ∷ b'R' ∷ b'N' ∷ b'A' ∷ b'M' ∷ b'E' ∷ b':' ∷ b' ' ∷ []

-- `PASSWORD: `
abbrev pub password_key : List ℕ
password_key = b'P' ∷ b'A' ∷ b'S' ∷ b'S' ∷ b'W' ∷ b'O' ∷ b'R' ∷ b'D' ∷ b':' ∷ b' ' ∷ []

abbrev pub account_text : List ℕ → Option (List ℕ) → List ℕ
account_text username none = []
account_text username (some h) =
    username_key ++ (username ++ (10 ∷ password_key ++ (h ++ (10 ∷ []))))

abbrev pub put_file : List ℕ → List ℕ → Accounts → Accounts
put_file path content a = record a {
  files = λ p. if same_bytes p path then some content else a.files p;
}

-- `writable` is whether `fopen` opens the file.
unfoldable pub write_login_data :
    Bool → Bool → (List ℕ → Option (List ℕ)) → User → Accounts → Outcome Accounts
write_login_data false memory hash u a = exits
write_login_data true memory hash u a = do
  hashed ← encrypt memory hash u.password
  ok (
      log_event user_created u.username
        (put_file (retrieve_addr u 4096) (account_text u.username hashed) a))

-- `strncmp` with the ten bytes of a key.
unfoldable pub starts_with : List ℕ → List ℕ → Bool
starts_with [] line = true
starts_with (k ∷ key) [] = false
starts_with (k ∷ key) (c ∷ line) = let rest = starts_with key line in c == k && rest

-- One line of the file: the account so far, and how many fields have been found. 256 and 128 are
-- the sizes of the fields.
unfoldable pub read_field : List ℕ → User → ℕ → User × ℕ
read_field line u found =
    if starts_with username_key line
    then (record u { username = trim_whitespace (take 255 (drop 10 line)) }, found + 1)
    else (if starts_with password_key line
        then (record u { password = trim_whitespace (take 127 (drop 10 line)) }, found + 1)
        else (u, found))

abbrev pub next_field :
    (File → User × ℕ → Outcome (User × ℕ)) → User × ℕ → Option (List ℕ) × File → Outcome (User × ℕ)
next_field next (u, found) (none, f) = ok (u, found)
next_field next (u, found) (some line, f) = next f (read_field line u found)

-- The loop for at most so many rounds, each of which takes a byte or is the last one.
unfoldable pub read_account : ℕ → File → User × ℕ → Outcome (User × ℕ)
read_account zero f r = unfinished
read_account (suc rounds) f r = next_field (read_account rounds) r (fgets 256 f)

abbrev pub no_user : User
no_user = record { username = []; password = []; logged = false }

-- What is logged of a login that fails, both passwords included.
unfoldable pub log_failure : (List ℕ → List ℕ → Bool) → User → User → Accounts → Accounts
log_failure verify u local a =
    let a1 = log_event login_failure local.password a in
    let a2 = log_event login_fail u.username a1 in
    let a3 = log_event login_fail local.username a2 in
    let a4 = log_event login_fail u.password a3 in
    let a5 = log_event login_fail local.password a4 in
    if decrypt verify local.password u.password
    then log_event criptografia local.password a5
    else a5

-- What `read_login_data` does with the account that it has read, in its memory at `at`.
unfoldable pub check_login :
    (List ℕ → List ℕ → Bool)
    → User
    → ℕ
    → User × ℕ
    → Accounts
    → Memory
    → Outcome (Option User × Accounts × Memory)
check_login verify u at (local, found) a m =
    if found == 2
    then (if same_bytes local.username u.username && decrypt verify local.password u.password
        then ok (some (record local { logged = true }), log_event login_success u.username a, m)
        else (do m' ← c_dealloc (some at) m; ok (none, log_failure verify u local a, m')))
    else (do m' ← c_dealloc (some at) m; ok (none, log_event invalid_file_format u.username a, m'))

-- The account's file from its start, with its length as the rounds; 385 is the size of a user.
unfoldable pub read_login_data :
    (List ℕ → List ℕ → Bool) → User → Accounts → Memory → Outcome (Option User × Accounts × Memory)
read_login_data verify u a m = elim (a.files (retrieve_addr u 4096)) [
  | none ↦ ok (none, log_event file_not_found u.username a, m)
  | some content ↦ do
    (ptr, m') ← c_alloc 385 m
    elim ptr [
      | none ↦ ok (none, a, m')
      | some at ↦ do
        r ← read_account (suc (length content)) (from_start content) (no_user, 0)
        check_login verify u at r a m'
    ]
]

-- ===== src/User/Login.antt =====
-- An account that is written, and a login with it.
use chic_os.Base.{
  ℕ, suc, ◌+◌, ◌≤◌, ◌<◌, ◌≡◌, refl, ◌∙◌, ap, ap₂, Bool, true, false, ◌&&◌, Option, none, some, List,
  [], ◌∷◌, ◌++◌, arith, ◌==◌, length, length-append, take, take_all, ok, dec_lt,
}
use chic_os.Memory.{Memory, c_alloc, c_dealloc}
use chic_os.Stdio.{File, take_line, fgets_of, fgets, same_bytes}
use chic_os.Stdio.Scan.{from_start}
use chic_os.Stdio.Scanned.{Stands, Solid}
use chic_os.Code.Line.{Lacks}
use chic_os.Code.Commands.{absent, absent-Lacks}
use chic_os.Code.Load.{take_line-append, fgets_of_line}
use chic_os.User.{
  User, AuthEvent, Accounts, keep_end, trim_end, trim_start, trim_whitespace, username_key,
  password_key, account_text, put_file, retrieve_addr, encrypt, decrypt, log_event, log_failure,
  login_success, user_created, write_login_data, starts_with, read_field, read_account, no_user,
  check_login, read_login_data,
}

same_bytes_refl : (s : List ℕ) → same_bytes s s ≡ true
unfolding same_bytes
same_bytes_refl [] = refl
same_bytes_refl (c ∷ s) = ap₂ (λ a b. a && b) same (same_bytes_refl s)
  where
    same : (c == c) ≡ true
    same = ground arith

trim_end-newline : (s : List ℕ) → trim_end (s ++ (10 ∷ [])) ≡ trim_end s
unfolding trim_end
trim_end-newline [] = refl
trim_end-newline (c ∷ s) = ap (keep_end c) (trim_end-newline s)

trim_newline : (s : List ℕ) → trim_whitespace (s ++ (10 ∷ [])) ≡ trim_whitespace s
unfolding trim_whitespace
trim_newline s = ap trim_start (trim_end-newline s)

trim_end-Solid : (s : List ℕ) → Solid s → trim_end s ≡ s
unfolding trim_end
trim_end-Solid [] h = refl
trim_end-Solid (c ∷ s) (ns, h) = ap (keep_end c) (trim_end-Solid s h) ∙ kept s
  where
    kept : (t : List ℕ) → keep_end c t ≡ c ∷ t
    kept [] = rw (ns) refl
    kept (d ∷ t) = refl

trim_start-Solid : (s : List ℕ) → Solid s → trim_start s ≡ s
unfolding trim_start
trim_start-Solid [] h = refl
trim_start-Solid (c ∷ s) (ns, h) = rw (ns) refl

trim-Solid : (s : List ℕ) → Solid s → trim_whitespace s ≡ s
unfolding trim_whitespace
trim-Solid s h = ap trim_start (trim_end-Solid s h) ∙ trim_start-Solid s h

take-length : (s t : List ℕ) → take (length s) (s ++ t) ≡ s
take-length [] t = refl
take-length (c ∷ s) t = ap (λ r. c ∷ r) (take-length s t)

-- A line of a field as it is kept: `n` bytes of it, without the white space.
kept_field :
    (n : ℕ) (s : List ℕ)
    → length s ≤ n
    → trim_whitespace (take n (s ++ (10 ∷ []))) ≡ trim_whitespace s
kept_field n s fits = elim (dec_lt (length s) n) [
  | yes lt ↦
      ap trim_whitespace (take_all n (s ++ (10 ∷ [])) (omega (arith, length-append s (10 ∷ []))))
      ∙ trim_newline s
  | no ge ↦
      ap trim_whitespace (ap (λ k. take k (s ++ (10 ∷ []))) (omega arith) ∙ take-length s (10 ∷ []))
]

Solid-Lacks : (s : List ℕ) → Solid s → Lacks 10 s
Solid-Lacks [] h = tt
Solid-Lacks (c ∷ s) (ns, h) = (λ e. ground arith, Solid-Lacks s h)

fgets-line :
    (s rest : List ℕ) (f : File)
    → Lacks 10 s
    → length s < 255
    → Stands (s ++ (10 ∷ rest)) f
    → (f' : File) × (fgets 256 f ≡ (some (s ++ (10 ∷ [])), f')) × Stands rest f'
unfolding fgets
fgets-line s rest f l short (at, e) = (
  record { rest = rest; eof = false; pos = f.pos + length (s ++ (10 ∷ [])) },
  ap (λ s. fgets_of f (take_line 255 s)) at
      ∙ ap (fgets_of f) (take_line-append 255 s rest l short)
      ∙ fgets_of_line f s rest e,
  (refl, refl),
)

fgets-end : (f : File) → Stands [] f → (f' : File) × (fgets 256 f ≡ (none, f'))
unfolding fgets take_line
fgets-end f (at, e) = (_, ap (λ s. fgets_of f (take_line 255 s)) at)

account_line :
    (n k : ℕ) (line : List ℕ) (u : User) (f f' : File)
    → fgets 256 f ≡ (some line, f')
    → read_account (suc n) f (u, k) ≡ read_account n f' (read_field line u k)
unfolding read_account
account_line n k line u f f' e = rw (e) refl

account_end :
    (n k : ℕ) (u : User) (f f' : File)
    → fgets 256 f ≡ (none, f')
    → read_account (suc n) f (u, k) ≡ ok (u, k)
unfolding read_account
account_end n k u f f' e = rw (e) refl

read_username :
    (s : List ℕ) (u : User) (k : ℕ)
    → length s < 255
    → read_field (username_key ++ (s ++ (10 ∷ []))) u k
      ≡ (record u { username = trim_whitespace s }, k + 1)
unfolding read_field starts_with
read_username s u k short =
    ap (λ n. (record u { username = n }, k + 1)) (kept_field 255 s (omega arith))

read_password :
    (s : List ℕ) (u : User) (k : ℕ)
    → length s ≤ 127
    → read_field (password_key ++ (s ++ (10 ∷ []))) u k
      ≡ (record u { password = trim_whitespace s }, k + 1)
unfolding read_field starts_with
read_password s u k short = ap (λ n. (record u { password = n }, k + 1)) (kept_field 127 s short)

-- The file of an account is read back.
read_account-text :
    (name h : List ℕ) (n : ℕ)
    → Lacks 10 name
    → length name ≤ 244
    → Solid h
    → length h ≤ 127
    → read_account (suc (suc (suc n))) (from_start (account_text name (some h))) (no_user, 0)
      ≡ ok (
        record { username = trim_whitespace name; password = trim_whitespace h; logged = false },
        2,
      )
unfolding absent
read_account-text name h n l short solid fits =
    let (f1, e1, at1) =
      fgets-line (username_key ++ name) (password_key ++ (h ++ (10 ∷ [])))
        (from_start (account_text name (some h))) (keyed username_key name key1 l) (omega arith)
        (refl, refl) in
    let (f2, e2, at2) =
      fgets-line (password_key ++ h) [] f1 (keyed password_key h key2 (Solid-Lacks h solid))
        (omega arith) at1 in
    let (f3, e3) = fgets-end f2 at2 in
    account_line (suc (suc n)) 0 _ no_user _ f1 e1
    ∙ ap (read_account (suc (suc n)) f1) (read_username name no_user 0 (omega arith))
    ∙ account_line (suc n) 1 _ (record no_user { username = trim_whitespace name }) f1 f2 e2
    ∙ ap (read_account (suc n) f2)
        (read_password h (record no_user { username = trim_whitespace name }) 1 fits)
    ∙ account_end n 2 _ f2 f3 e3
  where
    keyed : (key s : List ℕ) → Lacks 10 key → Lacks 10 s → Lacks 10 (key ++ s)
    keyed [] s k l = l
    keyed (c ∷ key) s (ne, k) l = (ne, keyed key s k l)

    key1 : Lacks 10 username_key
    key1 = absent-Lacks 10 username_key refl

    key2 : Lacks 10 password_key
    key2 = absent-Lacks 10 password_key refl

-- The account once its file has been read.
abbrev pub logged_in : List ℕ → List ℕ → User
logged_in name h = record { username = name; password = h; logged = true }

check_right :
    (verify : List ℕ → List ℕ → Bool) (u : User) (h : List ℕ) (at : ℕ) (a : Accounts) (m : Memory)
    → verify h u.password ≡ true
    → check_login verify u at
        (record { username = u.username; password = h; logged = false }, 2)
        a
        m
      ≡ ok (some (logged_in u.username h), log_event login_success u.username a, m)
unfolding check_login decrypt
check_right verify u h at a m right = rw (same_bytes_refl u.username) (rw (right) refl)

check_wrong :
    (verify : List ℕ → List ℕ → Bool) (u : User) (h : List ℕ) (at : ℕ) (a : Accounts)
    (m m' : Memory)
    → verify h u.password ≡ false
    → c_dealloc (some at) m ≡ ok m'
    → (a' : Accounts) × (check_login verify u at
          (record { username = u.username; password = h; logged = false }, 2)
          a
          m
        ≡ ok (none, a', m'))
unfolding check_login decrypt
check_wrong verify u h at a m m' wrong freed = (
  log_failure verify u (record { username = u.username; password = h; logged = false }) a,
  rw (same_bytes_refl u.username) (rw (wrong) (rw (freed) refl)),
)

write_lem :
    (hash : List ℕ → Option (List ℕ)) (u : User) (h : List ℕ) (a : Accounts)
    → hash u.password ≡ some h
    → write_login_data true true hash u a
      ≡ ok (
          log_event user_created u.username
            (put_file (retrieve_addr u 4096) (account_text u.username (some h)) a))
unfolding write_login_data encrypt
write_lem hash u h a e = rw (e, write_login_data, encrypt) refl

read_lem :
    (verify : List ℕ → List ℕ → Bool) (u local : User) (content : List ℕ) (at found : ℕ)
    (a : Accounts) (m m1 : Memory)
    → a.files (retrieve_addr u 4096) ≡ some content
    → c_alloc 385 m ≡ ok (some at, m1)
    → read_account (suc (length content)) (from_start content) (no_user, 0) ≡ ok (local, found)
    → read_login_data verify u a m ≡ check_login verify u at (local, found) a m1
unfolding read_login_data
read_lem verify u local content at found a m m1 e1 e2 e3 =
    rw (e1, read_login_data) (rw (e2) (rw (e3) refl))

-- The file that has just been written is there.
put_file_there :
    (path content : List ℕ) (a : Accounts) (event : AuthEvent) (name : List ℕ)
    → (log_event event name (put_file path content a)).files path ≡ some content
unfolding log_event
put_file_there path content a event name = rw (same_bytes_refl path) refl

-- An account is written with a hash that has no white space in it and at most 127 bytes, for a user
-- name of one line that is trimmed and has at most 244 bytes. Then, with memory for the account, a
-- login under that name with a password that the hash is verified for succeeds and returns the
-- account, logged in, and one with a password that it is not verified for fails and frees the memory.
pub write_login_data-read_login_data :
    (hash : List ℕ → Option (List ℕ)) (verify : List ℕ → List ℕ → Bool) (u : User) (h : List ℕ)
    (at : ℕ) (a : Accounts) (m m1 m2 : Memory)
    → hash u.password ≡ some h
    → Solid h
    → length h ≤ 127
    → Lacks 10 u.username
    → length u.username ≤ 244
    → trim_whitespace u.username ≡ u.username
    → c_alloc 385 m ≡ ok (some at, m1)
    → c_dealloc (some at) m1 ≡ ok m2
    → (a' : Accounts) × (write_login_data true true hash u a ≡ ok a')
      × ((given : List ℕ)
          → verify h given ≡ true
          → (a'' : Accounts) × (read_login_data verify (record u { password = given }) a' m
              ≡ ok (some (logged_in u.username h), a'', m1)))
      × ((given : List ℕ)
          → verify h given ≡ false
          → (a'' : Accounts) × (read_login_data verify (record u { password = given }) a' m
              ≡ ok (none, a'', m2)))
unfolding retrieve_addr
write_login_data-read_login_data hash verify u h at a m m1 m2 hashed solid fits line short trimmed
      got freed =
    let content = account_text u.username (some h) in
    let a' = log_event user_created u.username (put_file (retrieve_addr u 4096) content a) in
    (
      a',
      write_lem hash u h a hashed,
      λ given right. (
        _,
        read_lem verify (record u { password = given }) _ content at 2 a' m m1 there got back
            ∙ check_right verify (record u { password = given }) h at a' m1 right,
      ),
      λ given wrong.
          let (a'', run) =
            check_wrong verify (record u { password = given }) h at a' m1 m2 wrong freed in
          (
            a'',
            read_lem verify (record u { password = given }) _ content at 2 a' m m1 there got back
                ∙ run,
          ),
    )
  where
    there :
        (log_event user_created u.username
            (put_file (retrieve_addr u 4096) (account_text u.username (some h)) a)).files
          (retrieve_addr u 4096)
        ≡ some (account_text u.username (some h))
    there = put_file_there (retrieve_addr u 4096) _ a user_created u.username

    back :
        read_account
          (suc (length (account_text u.username (some h))))
          (from_start (account_text u.username (some h)))
          (no_user, 0)
        ≡ ok (record { username = u.username; password = h; logged = false }, 2)
    back =
        read_account-text u.username h _ line short solid fits
        ∙ ap₂ (λ n k. ok (record { username = n; password = k; logged = false }, 2)) trimmed
            (trim-Solid h solid)

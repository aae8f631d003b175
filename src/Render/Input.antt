-- ===== src/Render/Input.antt =====
-- From the keys that are typed to a user who is logged in.
use chic_os.Base.{
  ℕ, ◌+◌, ◌≤◌, ◌<◌, ◌≡◌, refl, sym, ◌∙◌, ap, ap₂, Bool, true, false, ◌&&◌, none, some, List, [],
  ◌∷◌, ◌++◌, arith, ltb, ◌==◌, length, take_all, append_cons, append_nil, length-snoc, ok,
  branch-false,
}
use chic_os.Memory.{Memory, c_alloc, c_dealloc}
use chic_os.Stdio.Scanned.{Solid}
use chic_os.Code.Line.{Lacks}
use chic_os.User.{
  User, Accounts, file_not_found, log_event, trim_whitespace, retrieve_addr, write_login_data,
  read_login_data,
}
use chic_os.User.Login.{logged_in, write_login_data-read_login_data}
use chic_os.Render.{
  is_back, is_print, password_key, password_keys, get_credentials, Machine, login_round, login_flow,
}

abbrev pub Printable : List ℕ → Type 0
Printable [] = Unit {0}
Printable (c ∷ s) = (32 ≤ c) × (c ≤ 126) × Printable s

password_key-adds :
    (c : ℕ) (pre : List ℕ)
    → 32 ≤ c
    → c ≤ 126
    → length pre < 127
    → password_key c pre ≡ pre ++ (c ∷ [])
unfolding password_key
password_key-adds c pre lo hi short = rw (not_back, kept) refl
  where
    not_back : is_back c ≡ false
    not_back = ground arith

    kept : (is_print c && ltb (length pre) 127) ≡ true
    kept = ground arith

keys_step :
    (c : ℕ) (keys pre : List ℕ)
    → (c == 10) ≡ false
    → password_keys (c ∷ keys) pre ≡ password_keys keys (password_key c pre)
unfolding password_keys
keys_step c keys pre e = branch-false (c == 10) _ _ e

keys_end : (pre : List ℕ) → password_keys (10 ∷ []) pre ≡ ok pre
unfolding password_keys
keys_end pre = refl

-- Printable keys and a newline are the password, as far as the field holds them.
password_keys-typed :
    (s pre : List ℕ)
    → Printable s
    → length pre + length s ≤ 127
    → password_keys (s ++ (10 ∷ [])) pre ≡ ok (pre ++ s)
password_keys-typed [] pre h short = keys_end pre ∙ ap ok (sym (append_nil pre))
password_keys-typed (c ∷ s) pre (lo, hi, h) short =
    keys_step c (s ++ (10 ∷ [])) pre (ground arith)
    ∙ ap (password_keys (s ++ (10 ∷ []))) (password_key-adds c pre lo hi (omega arith))
    ∙ password_keys-typed s (pre ++ (c ∷ [])) h (omega (arith, length-snoc pre c))
    ∙ ap ok (append_cons pre c s)

get_credentials_lem :
    (username keys password : List ℕ)
    → length username ≤ 255
    → password_keys keys [] ≡ ok password
    → get_credentials username keys
      ≡ ok (record { username = username; password = password; logged = false })
unfolding get_credentials
get_credentials_lem username keys password short e = rw (e) (
    ap (λ n. ok (record { username = n; password = password; logged = false }))
      (take_all 255 username short))

read_none :
    (verify : List ℕ → List ℕ → Bool) (u : User) (a : Accounts) (m : Memory)
    → a.files (retrieve_addr u 4096) ≡ none
    → read_login_data verify u a m ≡ ok (none, log_event file_not_found u.username a, m)
unfolding read_login_data
read_none verify u a m e = rw (e, read_login_data) refl

round_new :
    (v : Machine) (u r : User) (a a' a'' : Accounts) (m m' : Memory)
    → a.files (retrieve_addr u 4096) ≡ none
    → read_login_data v.verify u a m ≡ ok (none, log_event file_not_found u.username a, m)
    → write_login_data v.writable v.memory v.hash u (log_event file_not_found u.username a) ≡ ok a'
    → read_login_data v.verify u a' m ≡ ok (some r, a'', m')
    → login_round v u a m ≡ ok (some r, a'', m')
unfolding login_round
round_new v u r a a' a'' m m' e1 e2 e3 e4 = rw (e2) (rw (e1) (rw (e3) (rw (e4) refl)))

flow_done :
    (v : Machine) (username keys : List ℕ) (rounds : List (List ℕ × List ℕ)) (u r : User)
    (a a' : Accounts) (m m' : Memory)
    → get_credentials username keys ≡ ok u
    → login_round v u a m ≡ ok (some r, a', m')
    → login_flow v ((username, keys) ∷ rounds) a m ≡ ok (r, a', m')
unfolding login_flow
flow_done v username keys rounds u r a a' m m' e1 e2 = rw (e1) (rw (e2) refl)

-- Someone without an account types a name of one line, trimmed and of at most 244 bytes, and a
-- password of at most 127 printable keys. On a machine with memory that can write the file, whose
-- hash for the password has no white space and at most 127 bytes and is verified for it, the account is
-- created and `login_flow` returns it in the first round, logged in.
pub login_flow-creates :
    (v : Machine) (name password h : List ℕ) (rounds : List (List ℕ × List ℕ)) (at : ℕ)
    (a : Accounts) (m m1 m2 : Memory)
    → a.files (retrieve_addr (record { username = name; password = password; logged = false }) 4096)
      ≡ none
    → v.writable ≡ true
    → v.memory ≡ true
    → v.hash password ≡ some h
    → v.verify h password ≡ true
    → Solid h
    → length h ≤ 127
    → Lacks 10 name
    → length name ≤ 244
    → trim_whitespace name ≡ name
    → Printable password
    → length password ≤ 127
    → c_alloc 385 m ≡ ok (some at, m1)
    → c_dealloc (some at) m1 ≡ ok m2
    → (a' : Accounts) × (login_flow v ((name, password ++ (10 ∷ [])) ∷ rounds) a m
        ≡ ok (logged_in name h, a', m1))
login_flow-creates v name password h rounds at a m m1 m2 absent can_write has_memory hashed right
      solid fits line short trimmed prints small got freed =
    let u : User = record { username = name; password = password; logged = false } in
    let (a', written, ok_login, bad_login) =
      write_login_data-read_login_data v.hash v.verify u h at (log_event file_not_found name a) m m1
        m2 hashed solid fits line short trimmed got freed in
    let (a'', back) = ok_login password right in
    (
      a'',
      flow_done v name _ rounds u (logged_in name h) a a'' m m1
          (get_credentials_lem name _ password (omega arith)
            (password_keys-typed password [] prints (omega arith)))
          (round_new v u (logged_in name h) a a' a'' m m1 absent (read_none v.verify u a m absent)
            (ap₂ (λ x y. write_login_data x y v.hash u (log_event file_not_found name a)) can_write
                has_memory
              ∙ written)
            back),
    )

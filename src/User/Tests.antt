-- ===== src/User/Tests.antt =====
-- A name that is typed with blanks round it, and an account.
use chic_os.Base.{
  ℕ, ◌≡◌, refl, Bool, true, false, Option, none, some, List, [], ◌∷◌, ◌++◌, arith, ok,
}
use chic_os.Memory.{Memory, c_alloc, c_dealloc, make_room, place}
use chic_os.Stdio.{same_bytes}
use chic_os.Synt.Tests.{sixteen}
use chic_os.User.{
  User, Accounts, file_not_found, trim_end, trim_start, trim_whitespace, log_event,
  write_login_data, read_login_data,
}
use chic_os.User.Login.{logged_in, write_login_data-read_login_data}
use chic_os.User.Trim.{AllSpace, StartsWell, EndsWell, trim_whitespace-trims}

abbrev typed : List ℕ
typed = 32 ∷ b'a' ∷ 32 ∷ b'b' ∷ 10 ∷ []

trim_runs : trim_whitespace typed ≡ b'a' ∷ 32 ∷ b'b' ∷ []
unfolding trim_whitespace trim_end trim_start
trim_runs = refl

trim_whitespace-trims_example :
    (front : List ℕ) × (back : List ℕ) × (typed ≡ (front ++ trim_whitespace typed) ++ back)
    × AllSpace front
    × AllSpace back
    × StartsWell (trim_whitespace typed)
    × EndsWell (trim_whitespace typed)
trim_whitespace-trims_example = trim_whitespace-trims typed

abbrev ann : User
ann = record { username = b'a' ∷ b'n' ∷ b'n' ∷ []; password = b'p' ∷ b'w' ∷ []; logged = false }

-- A stand-in for the library: the hash of a password is the password behind a `$`.
abbrev hash : List ℕ → Option (List ℕ)
hash p = some (b'$' ∷ p)

abbrev verify : List ℕ → List ℕ → Bool
verify h p = same_bytes h (b'$' ∷ p)

abbrev empty : Accounts
empty = record { files = λ p. none; log = [] }

-- A login before there is an account.
no_account_runs :
    read_login_data verify ann empty sixteen
    ≡ ok (none, record empty { log = (file_not_found, ann.username) ∷ [] }, sixteen)
unfolding read_login_data log_event
no_account_runs = refl

ann_trimmed : trim_whitespace ann.username ≡ ann.username
unfolding trim_whitespace trim_end trim_start
ann_trimmed = refl

write_login_data-read_login_data_example :
    (m1 : Memory) × (m2 : Memory) × ((a' : Accounts) × (write_login_data true true hash ann empty
        ≡ ok a')
      × ((given : List ℕ)
          → verify (b'$' ∷ b'p' ∷ b'w' ∷ []) given ≡ true
          → (a'' : Accounts) × (read_login_data verify (record ann { password = given }) a' sixteen
              ≡ ok (some (logged_in ann.username (b'$' ∷ b'p' ∷ b'w' ∷ [])), a'', m1)))
      × ((given : List ℕ)
          → verify (b'$' ∷ b'p' ∷ b'w' ∷ []) given ≡ false
          → (a'' : Accounts) × (read_login_data verify (record ann { password = given }) a' sixteen
              ≡ ok (none, a'', m2))))
unfolding c_alloc make_room place c_dealloc
write_login_data-read_login_data_example = (
  _,
  _,
  write_login_data-read_login_data hash verify ann (b'$' ∷ b'p' ∷ b'w' ∷ []) 8 empty sixteen _ _
      refl (refl, (refl, (refl, tt))) (omega arith)
      (λ e. omega arith, (λ e. omega arith, (λ e. omega arith, tt))) (omega arith) ann_trimmed refl
      refl,
)

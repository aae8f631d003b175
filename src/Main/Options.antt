-- ===== src/Main/Options.antt =====
-- What the program makes of well-formed arguments.
use chic_os.Base.{
  ℕ, ◌-◌, ◌*◌, ◌^◌, ◌≤◌, ◌<◌, ◌≡◌, refl, sym, ◌∙◌, ap, ap₂, Bool, true, false, not, List, [], ◌∷◌,
  arith, leb, ltb, ◌==◌, ◌||◌, ◌&&◌, if◌then◌else◌, set, ok, exits,
}
use chic_os.Utils.{valid_int}
use chic_os.Stdio.{same_bytes, is_space, digits, signed, atoi}
use chic_os.Stdio.Scanned.{Numerals}
use chic_os.Memory.{mb}
use chic_os.Main.{
  is_help, is_size, is_quiet, long_size, short_size, long_quiet, short_quiet, size_arg, args_loop,
  handle_args, options,
}

-- An argument: a size, by its digits, or that nothing is rendered; `true` is its long form.
pub data Flag : Type 0 where
  size : Bool → List ℕ → Flag
  quiet : Bool → Flag

-- The flags as they are typed.
abbrev pub typed : List Flag → List (List ℕ)
typed [] = []
typed (size long ds ∷ flags) = (if long then long_size else short_size) ∷ ds ∷ typed flags
typed (quiet long ∷ flags) = (if long then long_quiet else short_quiet) ∷ typed flags

-- A size above 0 and below four megabytes.
abbrev pub IsFlag : Flag → Type 0
IsFlag (size long []) = ⊥
IsFlag (size long (d ∷ ds)) =
    Numerals (d ∷ ds) × (0 < digits 0 (d ∷ ds)) × (digits 0 (d ∷ ds) < 4 * mb)
IsFlag (quiet long) = Unit {0}

abbrev pub AllFlags : List Flag → Type 0
AllFlags [] = Unit {0}
AllFlags (f ∷ flags) = IsFlag f × AllFlags flags

-- The last size that is given, and otherwise `old`.
abbrev pub last_size : ℕ → List Flag → ℕ
last_size old [] = old
last_size old (size long ds ∷ flags) = last_size (digits 0 ds) flags
last_size old (quiet long ∷ flags) = last_size old flags

abbrev pub any_quiet : List Flag → Bool
any_quiet [] = false
any_quiet (size long ds ∷ flags) = any_quiet flags
any_quiet (quiet long ∷ flags) = true

-- What the cell of the array comes to.
abbrev quiet_cell : ℕ → List Flag → ℕ
quiet_cell old [] = old
quiet_cell old (size long ds ∷ flags) = quiet_cell old flags
quiet_cell old (quiet long ∷ flags) = quiet_cell 1 flags

atoi-Numerals :
    (d : ℕ) (ds : List ℕ)
    → Numerals (d ∷ ds)
    → digits 0 (d ∷ ds) < 2 ^ 31
    → atoi (d ∷ ds) ≡ ok (digits 0 (d ∷ ds))
unfolding atoi
atoi-Numerals d ds (lo, hi, rest) small = rw (space, minus, plus) (fits (digits 0 (d ∷ ds)) small)
  where
    space : is_space d ≡ false
    space = ground arith

    minus : (d == b'-') ≡ false
    minus = ground arith

    plus : (d == b'+') ≡ false
    plus = ground arith

    fits : (n : ℕ) → n < 2 ^ 31 → signed false n ≡ ok n
    fits n lt = rw (below, signed) refl
      where
        below : ltb n (2 ^ 31) ≡ true
        below = ground arith

-- A number is no flag.
number_is_none :
    (d : ℕ) (ds : List ℕ)
    → 48 ≤ d
    → (is_help (d ∷ ds) ≡ false) × (is_size (d ∷ ds) ≡ false) × (is_quiet (d ∷ ds) ≡ false)
unfolding is_help is_size is_quiet same_bytes
number_is_none d ds lo = (rw (minus) refl, rw (minus) refl, rw (minus) refl)
  where
    minus : (d == b'-') ≡ false
    minus = ground arith

loop_number :
    (d : ℕ) (ds : List ℕ) (rest : List (List ℕ)) (args : List ℕ)
    → 48 ≤ d
    → args_loop ((d ∷ ds) ∷ rest) args ≡ args_loop rest args
unfolding args_loop
loop_number d ds rest args lo =
    let (h, s, q) = number_is_none d ds lo in rw (h, args_loop) (rw (s) (rw (q) refl))

size_is_size :
    (long : Bool)
    → (is_help (if long then long_size else short_size) ≡ false)
      × (is_size (if long then long_size else short_size) ≡ true)
      × (is_quiet (if long then long_size else short_size) ≡ false)
unfolding is_help is_size is_quiet same_bytes
size_is_size true = (refl, refl, refl)
size_is_size false = (refl, refl, refl)

quiet_is_quiet :
    (long : Bool)
    → (is_help (if long then long_quiet else short_quiet) ≡ false)
      × (is_size (if long then long_quiet else short_quiet) ≡ false)
      × (is_quiet (if long then long_quiet else short_quiet) ≡ true)
unfolding is_help is_size is_quiet same_bytes
quiet_is_quiet true = (refl, refl, refl)
quiet_is_quiet false = (refl, refl, refl)

size_arg-number :
    (d : ℕ) (ds : List ℕ) (rest : List (List ℕ)) (args : List ℕ)
    → Numerals (d ∷ ds)
    → 0 < digits 0 (d ∷ ds)
    → digits 0 (d ∷ ds) < 4 * mb
    → size_arg ((d ∷ ds) ∷ rest) args ≡ ok (set args 1 (digits 0 (d ∷ ds)))
unfolding size_arg
size_arg-number d ds rest args num pos less =
    rw (atoi-Numerals d ds num (omega arith)) (passes (digits 0 (d ∷ ds)) pos less)
  where
    passes :
        (n : ℕ)
        → 0 < n
        → n < 4 * mb
        → (if n == 0 || leb (4 * mb) n then exits else ok (set args 1 n)) ≡ ok (set args 1 n)
    passes n pos less = rw (test) refl
      where
        test : (n == 0 || leb (4 * mb) n) ≡ false
        test = ground arith

size_step :
    (s : List ℕ) (rest : List (List ℕ)) (args args' : List ℕ)
    → is_help s ≡ false
    → is_size s ≡ true
    → is_quiet s ≡ false
    → size_arg rest args ≡ ok args'
    → args_loop (s ∷ rest) args ≡ args_loop rest args'
unfolding args_loop
size_step s rest args args' h k q run = rw (h, args_loop) (rw (k) (rw (run) (rw (q) refl)))

loop_size :
    (long : Bool) (d : ℕ) (ds : List ℕ) (rest : List (List ℕ)) (args : List ℕ)
    → Numerals (d ∷ ds)
    → 0 < digits 0 (d ∷ ds)
    → digits 0 (d ∷ ds) < 4 * mb
    → args_loop ((if long then long_size else short_size) ∷ (d ∷ ds) ∷ rest) args
      ≡ args_loop rest (set args 1 (digits 0 (d ∷ ds)))
loop_size long d ds rest args num pos less =
    let (h, s, q) = size_is_size long in
    size_step _ _ args _ h s q (size_arg-number d ds rest args num pos less)
    ∙ loop_number d ds rest _ num.0

loop_quiet :
    (long : Bool) (rest : List (List ℕ)) (args : List ℕ)
    → args_loop ((if long then long_quiet else short_quiet) ∷ rest) args
      ≡ args_loop rest (set args 2 1)
unfolding args_loop
loop_quiet long rest args =
    let (h, s, q) = quiet_is_quiet long in rw (h, args_loop) (rw (s) (rw (q) refl))

loop_end : (args : List ℕ) → args_loop [] args ≡ ok args
unfolding args_loop
loop_end args = refl

args_loop-typed :
    (flags : List Flag) (a b : ℕ) (others : List ℕ)
    → AllFlags flags
    → args_loop (typed flags) (0 ∷ a ∷ b ∷ others)
      ≡ ok (0 ∷ last_size a flags ∷ quiet_cell b flags ∷ others)
args_loop-typed [] a b others h = loop_end (0 ∷ a ∷ b ∷ others)
args_loop-typed (size long [] ∷ flags) a b others (h, hs) = absurd h
args_loop-typed (size long (d ∷ ds) ∷ flags) a b others ((num, pos, less), hs) =
    loop_size long d ds (typed flags) _ num pos less ∙ args_loop-typed flags _ b others hs
args_loop-typed (quiet long ∷ flags) a b others (h, hs) =
    loop_quiet long (typed flags) _ ∙ args_loop-typed flags a 1 others hs

-- What `main` makes of the two cells of the array.
abbrev chosen : ℕ → ℕ
chosen a = if not (a == 0) && valid_int a then a else mb

abbrev renders : ℕ → Bool
renders b = not (not (b == 0) && valid_int b)

chosen_given : (n : ℕ) → 0 < n → n < 4 * mb → chosen n ≡ n
unfolding valid_int
chosen_given n pos less = rw (valid) refl
  where
    valid : (not (n == 0) && (ltb 0 n && ltb n (2 ^ 31 - 1))) ≡ true
    valid = ground arith

chosen_last :
    (flags : List Flag) (a : ℕ)
    → AllFlags flags
    → chosen (last_size a flags) ≡ last_size (chosen a) flags
chosen_last [] a h = refl
chosen_last (size long [] ∷ flags) a (h, hs) = absurd h
chosen_last (size long (d ∷ ds) ∷ flags) a ((num, pos, less), hs) =
    chosen_last flags (digits 0 (d ∷ ds)) hs
    ∙ ap (λ n. last_size n flags) (chosen_given (digits 0 (d ∷ ds)) pos less)
chosen_last (quiet long ∷ flags) a (h, hs) = chosen_last flags a hs

quiet_stays : (flags : List Flag) → quiet_cell 1 flags ≡ 1
quiet_stays [] = refl
quiet_stays (size long ds ∷ flags) = quiet_stays flags
quiet_stays (quiet long ∷ flags) = quiet_stays flags

renders-any_quiet : (flags : List Flag) → renders (quiet_cell 0 flags) ≡ not (any_quiet flags)
unfolding valid_int
renders-any_quiet [] = refl
renders-any_quiet (size long ds ∷ flags) = renders-any_quiet flags
renders-any_quiet (quiet long ∷ flags) = ap renders (quiet_stays flags)

options_read :
    (args others : List ℕ) (a b : ℕ) (s : List ℕ) (argv : List (List ℕ))
    → args_loop (s ∷ argv) args ≡ ok (0 ∷ a ∷ b ∷ others)
    → options args (s ∷ argv) ≡ ok (chosen a, renders b)
unfolding options handle_args
options_read args others a b s argv run = rw (run) refl

no_args : (others : List ℕ) → options (0 ∷ 0 ∷ 0 ∷ others) [] ≡ ok (mb, true)
unfolding options
no_args others = refl

-- On an array of zeros and arguments that are flags, each size being above 0 and below four
-- megabytes, `main` goes on with the last size that is given, or one megabyte where none is, and
-- renders exactly if no flag says otherwise.
pub options-typed :
    (flags : List Flag) (others : List ℕ)
    → AllFlags flags
    → options (0 ∷ 0 ∷ 0 ∷ others) (typed flags) ≡ ok (last_size mb flags, not (any_quiet flags))
options-typed flags others h = go flags h
  where
    read :
        (flags : List Flag) (s : List ℕ) (argv : List (List ℕ))
        → AllFlags flags
        → typed flags ≡ s ∷ argv
        → options (0 ∷ 0 ∷ 0 ∷ others) (typed flags)
          ≡ ok (last_size mb flags, not (any_quiet flags))
    read flags s argv h e =
        ap (options (0 ∷ 0 ∷ 0 ∷ others)) e
        ∙ options_read (0 ∷ 0 ∷ 0 ∷ others) others _ _ s argv (
            ap (λ argv. args_loop argv (0 ∷ 0 ∷ 0 ∷ others)) (sym e)
            ∙ args_loop-typed flags 0 0 others h)
        ∙ ap₂ (λ n b. ok (n, b)) (chosen_last flags 0 h) (renders-any_quiet flags)

    go :
        (flags : List Flag)
        → AllFlags flags
        → options (0 ∷ 0 ∷ 0 ∷ others) (typed flags)
          ≡ ok (last_size mb flags, not (any_quiet flags))
    go [] h = no_args others
    go (size long ds ∷ flags) h = read (size long ds ∷ flags) _ _ h refl
    go (quiet long ∷ flags) h = read (quiet long ∷ flags) _ _ h refl

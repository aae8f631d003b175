-- ===== src/Stdio/Scan.antt =====
-- What the sources use of `fscanf`, `fgetc` and `fseek`.
use chic_os.Base.{
  ℕ, ◌+◌, ◌-◌, Bool, true, false, ◌||◌, Option, none, some, List, [], ◌∷◌, ◌==◌, if◌then◌else◌,
  length, Outcome, ok, ◌>>=◌,
}
use chic_os.Stdio.{File, is_space, is_digit, digits, signed}

abbrev pub is_end : List ℕ → Bool
is_end [] = true
is_end (c ∷ s) = false

-- The file after a read that leaves these bytes. A read that takes all of them has met the end,
-- where it does not stop at a byte.
abbrev pub left : List ℕ → File → File
left rest f = record {
  rest = rest;
  eof = f.eof || is_end rest;
  pos = f.pos + (length f.rest - length rest);
}

unfoldable pub skip_spaces : List ℕ → List ℕ
skip_spaces [] = []
skip_spaces (c ∷ s) = let after = skip_spaces s in if is_space c then after else c ∷ s

-- The bytes up to the first white space, and those from it on.
unfoldable pub word_of : List ℕ → List ℕ × List ℕ
word_of [] = ([], [])
word_of (c ∷ s) = let (w, rest) = word_of s in if is_space c then ([], c ∷ s) else (c ∷ w, rest)

abbrev pub word_read : File → List ℕ × List ℕ → Option (List ℕ) × File
word_read f ([], rest) = (none, left rest f)
word_read f (c ∷ w, rest) = (some (c ∷ w), left rest f)

-- `fscanf` with `%s`; `none` is a file that ends before a word.
unfoldable pub scan_word : File → Option (List ℕ) × File
scan_word f = word_read f (word_of (skip_spaces f.rest))

unfoldable pub after_digits : List ℕ → List ℕ
after_digits [] = []
after_digits (c ∷ s) = let after = after_digits s in if is_digit c then after else c ∷ s

-- The number at the front, where its digits start, and what follows. Without a digit nothing is
-- read but the sign.
abbrev pub number_read : Bool → List ℕ → File → Outcome (Option ℕ × File)
number_read minus [] f = ok (none, left [] f)
number_read minus (c ∷ s) f =
    if is_digit c
    then (signed minus (digits 0 (c ∷ s)) >>= λ n. ok (some n, left (after_digits (c ∷ s)) f))
    else ok (none, left (c ∷ s) f)

abbrev pub signed_read : List ℕ → File → Outcome (Option ℕ × File)
signed_read [] f = ok (none, left [] f)
signed_read (c ∷ s) f =
    if c == b'-'
    then number_read true s f
    else (if c == b'+' then number_read false s f else number_read false (c ∷ s) f)

-- `fscanf` with `%d`: `none` leaves its variable as it was. A number out of `int` is not defined.
unfoldable pub scan_int : File → Outcome (Option ℕ × File)
unfolding after_digits digits signed
scan_int f = signed_read (skip_spaces f.rest) f

-- `EOF` as a `char` is 255.
unfoldable pub fgetc : File → ℕ × File
fgetc f = elim f.rest [
  | [] ↦ (255, record f { eof = true })
  | c ∷ rest ↦ (c, record { rest = rest; eof = f.eof; pos = f.pos + 1 })
]

-- `fopen`, and `fseek` to the start.
abbrev pub from_start : List ℕ → File
from_start content = record { rest = content; eof = false; pos = 0 }

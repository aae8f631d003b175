-- ===== src/Stdio.antt =====
-- What the sources use of C's library for files and strings. A file is what is left of its bytes; a
-- string is its bytes without the NUL at its end, and the bytes of a file are taken to hold no NUL.
pub mod Scan
pub mod Scanned
use chic_os.Base.{
  ℕ, zero, suc, ◌+◌, ◌-◌, ◌*◌, ◌^◌, Bool, true, false, ◌&&◌, ◌||◌, Option, none, some, List, [],
  ◌∷◌, ◌++◌, ltb, leb, ◌==◌, if◌then◌else◌, length, Outcome, ok, fault, ◌>>=◌, u32,
}

-- `eof` is what `feof` reads: a read has come to the end. `pos` is what `ftell` gives.
pub record File : Type 0 where
  pub rest : List ℕ
  pub eof : Bool
  pub pos : ℕ

-- What `fgets` takes from the bytes, at most so many: the line, and whether the end was met.
unfoldable pub take_line : ℕ → List ℕ → List ℕ × List ℕ × Bool
take_line zero bytes = ([], bytes, false)
take_line (suc n) [] = ([], [], true)
take_line (suc n) (c ∷ bytes) =
    if c == b'\n'
    then (c ∷ [], bytes, false)
    else (let (line, rest, ended) = take_line n bytes in (c ∷ line, rest, ended))

abbrev pub fgets_of : File → List ℕ × List ℕ × Bool → Option (List ℕ) × File
fgets_of f ([], rest, ended) = (none, record { rest = rest; eof = f.eof || ended; pos = f.pos })
fgets_of f (c ∷ line, rest, ended) =
    (some (c ∷ line), record { rest = rest; eof = f.eof || ended; pos = f.pos + length (c ∷ line) })

-- `fgets` into a buffer of `n` bytes; `none` is its NULL.
unfoldable pub fgets : ℕ → File → Option (List ℕ) × File
fgets n f = fgets_of f (take_line (n - 1) f.rest)

-- The bytes up to the first `d`, and those behind it.
unfoldable pub split_at : ℕ → List ℕ → List ℕ × List ℕ
split_at d [] = ([], [])
split_at d (c ∷ s) =
    if c == d then ([], s) else (let (token, rest) = split_at d s in (c ∷ token, rest))

-- The delimiters at the front, and what follows.
unfoldable pub skip : ℕ → List ℕ → List ℕ × List ℕ
skip d [] = ([], [])
skip d (c ∷ s) = if c == d then (let (front, rest) = skip d s in (c ∷ front, rest)) else ([], c ∷ s)

abbrev pub token_of : ℕ → List ℕ × List ℕ → Option (List ℕ × List ℕ)
token_of d (front, []) = none
token_of d (front, c ∷ cs) = some (split_at d (c ∷ cs))

-- `strtok` with the one delimiter `d`: the token and what is saved for the next call, or NULL.
unfoldable pub strtok : ℕ → List ℕ → Option (List ℕ × List ℕ)
strtok d s = token_of d (skip d s)

abbrev pub cut_of : ℕ → List ℕ → List ℕ × List ℕ → List ℕ
cut_of d s (front, []) = s
cut_of d s (front, c ∷ cs) = front ++ (split_at d (c ∷ cs)).0

-- What stands in the buffer after that call: it is cut behind the token.
unfoldable pub cut : ℕ → List ℕ → List ℕ
cut d s = cut_of d s (skip d s)

unfoldable pub same_bytes : List ℕ → List ℕ → Bool
same_bytes [] [] = true
same_bytes [] (d ∷ t) = false
same_bytes (c ∷ s) [] = false
same_bytes (c ∷ s) (d ∷ t) = let rest = same_bytes s t in c == d && rest

abbrev pub is_space : ℕ → Bool
is_space c = c == 32 || (leb 9 c && leb c 13)

abbrev pub is_digit : ℕ → Bool
is_digit c = leb 48 c && leb c 57

-- The value of the digits at the front, on top of `n`.
unfoldable pub digits : ℕ → List ℕ → ℕ
digits n [] = n
digits n (c ∷ s) = let rest = digits (n * 10 + (c - 48)) s in if is_digit c then rest else n

-- A number out of `int` is not defined for `atoi`. The result is a bit pattern.
unfoldable pub signed : Bool → ℕ → Outcome ℕ
signed false n = if ltb n (2 ^ 31) then ok n else fault
signed true n = if leb n (2 ^ 31) then ok (u32 (2 ^ 32 - n)) else fault

unfoldable pub atoi : List ℕ → Outcome ℕ
unfolding digits signed
atoi [] = ok 0
atoi (c ∷ s) =
    let after = atoi s in
    if is_space c
    then after
    else (if c == b'-'
        then signed true (digits 0 s)
        else (if c == b'+' then signed false (digits 0 s) else signed false (digits 0 (c ∷ s))))

-- ===== src/Stdio/Scanned.antt =====
-- What the scanning functions make of a line.
use chic_os.Base.{
  ℕ, ◌+◌, ◌-◌, ◌*◌, ◌^◌, ◌≤◌, ◌<◌, ◌≡◌, refl, ◌∙◌, ap, true, false, some, List, [], ◌∷◌, ◌++◌,
  arith, ltb, ◌==◌, ok,
}
use chic_os.Stdio.{File, is_space, is_digit, digits, signed}
use chic_os.Stdio.Scan.{
  left, skip_spaces, word_of, word_read, scan_word, after_digits, number_read, signed_read,
  scan_int, fgetc,
}

-- The file stands before these bytes, and its end has not been met.
abbrev pub Stands : List ℕ → File → Type 0
Stands rest f = (f.rest ≡ rest) × (f.eof ≡ false)

-- Bytes that are no white space.
abbrev pub Solid : List ℕ → Type 0
Solid [] = Unit {0}
Solid (c ∷ s) = (is_space c ≡ false) × Solid s

abbrev pub Numerals : List ℕ → Type 0
Numerals [] = Unit {0}
Numerals (c ∷ s) = (48 ≤ c) × (c ≤ 57) × Numerals s

-- The digits of a number that an `int` holds.
abbrev pub IsInt : List ℕ → Type 0
IsInt [] = ⊥
IsInt (c ∷ s) = Numerals (c ∷ s) × (digits 0 (c ∷ s) < 2 ^ 31)

pub fgetc-Stands :
    (c : ℕ) (rest : List ℕ) (f : File)
    → Stands (c ∷ rest) f
    → (f' : File) × (fgetc f ≡ (c, f')) × Stands rest f'
unfolding fgetc
fgetc-Stands c rest f (e, open_yet) =
    (record { rest = rest; eof = f.eof; pos = f.pos + 1 }, rw (e) refl, (refl, open_yet))

word_of-append : (w rest : List ℕ) → Solid w → word_of (w ++ (10 ∷ rest)) ≡ (w, 10 ∷ rest)
unfolding word_of
word_of-append [] rest s = refl
word_of-append (c ∷ w) rest (ns, s) = rw (ns) (rw (word_of-append w rest s) refl)

skip_spaces-solid : (c : ℕ) (s : List ℕ) → is_space c ≡ false → skip_spaces (c ∷ s) ≡ c ∷ s
unfolding skip_spaces
skip_spaces-solid c s ns = rw (ns) refl

left-Stands :
    (c : ℕ) (rest : List ℕ) (f : File) → f.eof ≡ false → Stands (c ∷ rest) (left (c ∷ rest) f)
left-Stands c rest f e = (refl, rw (e) refl)

pub scan_word-Stands :
    (c : ℕ) (w rest : List ℕ) (f : File)
    → Solid (c ∷ w)
    → Stands (c ∷ w ++ (10 ∷ rest)) f
    → (f' : File) × (scan_word f ≡ (some (c ∷ w), f')) × Stands (10 ∷ rest) f'
unfolding scan_word
scan_word-Stands c w rest f (ns, s) (e, open_yet) = (
  left (10 ∷ rest) f,
  ap (λ s. word_read f (word_of (skip_spaces s))) e
      ∙ ap (λ s. word_read f (word_of s)) (skip_spaces-solid c (w ++ (10 ∷ rest)) ns)
      ∙ ap (word_read f) (word_of-append (c ∷ w) rest (ns, s)),
  left-Stands 10 rest f open_yet,
)

digits-append : (n : ℕ) (s rest : List ℕ) → Numerals s → digits n (s ++ (10 ∷ rest)) ≡ digits n s
unfolding digits
digits-append n [] rest d = refl
digits-append n (c ∷ s) rest (lo, hi, d) = rw (is) (digits-append (n * 10 + (c - 48)) s rest d)
  where
    is : is_digit c ≡ true
    is = ground arith

after_digits-append : (s rest : List ℕ) → Numerals s → after_digits (s ++ (10 ∷ rest)) ≡ 10 ∷ rest
unfolding after_digits
after_digits-append [] rest d = refl
after_digits-append (c ∷ s) rest (lo, hi, d) = rw (is) (after_digits-append s rest d)
  where
    is : is_digit c ≡ true
    is = ground arith

signed_fits : (n : ℕ) → n < 2 ^ 31 → signed false n ≡ ok n
unfolding signed
signed_fits n lt = rw (fits) refl
  where
    fits : ltb n (2 ^ 31) ≡ true
    fits = ground arith

skip_spaces-line : (s : List ℕ) → skip_spaces (10 ∷ s) ≡ skip_spaces s
unfolding skip_spaces
skip_spaces-line s = refl

number_read-digits :
    (c : ℕ) (s rest : List ℕ) (f : File)
    → IsInt (c ∷ s)
    → number_read false (c ∷ s ++ (10 ∷ rest)) f ≡ ok (some (digits 0 (c ∷ s)), left (10 ∷ rest) f)
number_read-digits c s rest f ((lo, hi, d), small) = rw (is) (
    rw (digits-append 0 (c ∷ s) rest (lo, hi, d)) (
      rw (signed_fits (digits 0 (c ∷ s)) small)
        (rw (after_digits-append (c ∷ s) rest (lo, hi, d)) refl)))
  where
    is : is_digit c ≡ true
    is = ground arith

signed_read-digits :
    (c : ℕ) (s : List ℕ) (f : File) → 48 ≤ c → signed_read (c ∷ s) f ≡ number_read false (c ∷ s) f
signed_read-digits c s f lo = rw (minus, plus) refl
  where
    minus : (c == b'-') ≡ false
    minus = ground arith

    plus : (c == b'+') ≡ false
    plus = ground arith

pub scan_int-Stands :
    (ds rest : List ℕ) (f : File)
    → IsInt ds
    → Stands (10 ∷ ds ++ (10 ∷ rest)) f
    → (f' : File) × (scan_int f ≡ ok (some (digits 0 ds), f')) × Stands (10 ∷ rest) f'
unfolding scan_int
scan_int-Stands [] rest f h at = absurd h
scan_int-Stands (c ∷ s) rest f ((lo, hi, d), small) (e, open_yet) = (
  left (10 ∷ rest) f,
  ap (λ s. signed_read (skip_spaces s) f) e
      ∙ ap (λ s. signed_read s f)
          (skip_spaces-line (c ∷ s ++ (10 ∷ rest)) ∙ skip_spaces-solid c _ solid)
      ∙ signed_read-digits c (s ++ (10 ∷ rest)) f lo
      ∙ number_read-digits c s rest f ((lo, hi, d), small),
  left-Stands 10 rest f open_yet,
)
  where
    solid : is_space c ≡ false
    solid = ground arith

-- ===== src/Code/Line.antt =====
-- A line of a process's file and the instruction that it stands for.
use chic_os.Base.{
  ℕ, ◌+◌, ◌-◌, ◌*◌, ◌^◌, ◌≤◌, ◌<◌, ◌≡◌, ◌≢◌, refl, ◌∙◌, sym, ap, true, false, some, List, [], ◌∷◌,
  ◌++◌, arith, ltb, ◌==◌, ok,
}
use chic_os.Process.{Instruction}
use chic_os.Stdio.{
  split_at, skip, token_of, strtok, cut_of, cut, is_space, is_digit, digits, signed, atoi,
}
use chic_os.Code.{retrieve_event, timed, decode}

-- No byte of the string is `d`.
abbrev pub Lacks : ℕ → List ℕ → Type 0
Lacks d [] = Unit {0}
Lacks d (c ∷ s) = (c ≢ d) × Lacks d s

-- All bytes are digits.
abbrev pub Digits : List ℕ → Type 0
Digits [] = Unit {0}
Digits (c ∷ s) = (48 ≤ c) × (c ≤ 57) × Digits s

pub differs : (c d : ℕ) → c ≢ d → (c == d) ≡ false
differs c d ne = ground arith

split_at-append : (d : ℕ) (w rest : List ℕ) → Lacks d w → split_at d (w ++ (d ∷ rest)) ≡ (w, rest)
unfolding split_at
split_at-append d [] rest l = rw (same) refl
  where
    same : (d == d) ≡ true
    same = ground arith
split_at-append d (c ∷ w) rest (ne, l) = rw (differs c d ne) (rw (split_at-append d w rest l) refl)

split_at-all : (d : ℕ) (s : List ℕ) → Lacks d s → split_at d s ≡ (s, [])
unfolding split_at
split_at-all d [] l = refl
split_at-all d (c ∷ s) (ne, l) = rw (differs c d ne) (rw (split_at-all d s l) refl)

skip_none : (d c : ℕ) (s : List ℕ) → c ≢ d → skip d (c ∷ s) ≡ ([], c ∷ s)
unfolding skip
skip_none d c s ne = rw (differs c d ne) refl

pub strtok-word :
    (d c : ℕ) (w rest : List ℕ)
    → Lacks d (c ∷ w)
    → strtok d (c ∷ w ++ (d ∷ rest)) ≡ some (c ∷ w, rest)
unfolding strtok
strtok-word d c w rest (ne, l) =
    ap (token_of d) (skip_none d c (w ++ (d ∷ rest)) ne)
    ∙ ap some (split_at-append d (c ∷ w) rest (ne, l))

pub strtok-all : (d c : ℕ) (s : List ℕ) → Lacks d (c ∷ s) → strtok d (c ∷ s) ≡ some (c ∷ s, [])
unfolding strtok
strtok-all d c s (ne, l) =
    ap (token_of d) (skip_none d c s ne) ∙ ap some (split_at-all d (c ∷ s) (ne, l))

cut-all : (d c : ℕ) (s : List ℕ) → Lacks d (c ∷ s) → cut d (c ∷ s) ≡ c ∷ s
unfolding cut
cut-all d c s (ne, l) =
    ap (cut_of d (c ∷ s)) (skip_none d c s ne) ∙ ap (λ p. p.0) (split_at-all d (c ∷ s) (ne, l))

pub cut-word : (d c : ℕ) (w rest : List ℕ) → Lacks d (c ∷ w) → cut d (c ∷ w ++ (d ∷ rest)) ≡ c ∷ w
unfolding cut
cut-word d c w rest (ne, l) =
    ap (cut_of d (c ∷ w ++ (d ∷ rest))) (skip_none d c (w ++ (d ∷ rest)) ne)
    ∙ ap (λ p. p.0) (split_at-append d (c ∷ w) rest (ne, l))

digits-end : (n : ℕ) (s : List ℕ) → Digits s → digits n (s ++ (10 ∷ [])) ≡ digits n s
unfolding digits
digits-end n [] d = refl
digits-end n (c ∷ s) (lo, hi, d) = rw (is) (digits-end (n * 10 + (c - 48)) s d)
  where
    is : is_digit c ≡ true
    is = ground arith

signed_small : (n : ℕ) → n < 2 ^ 31 → signed false n ≡ ok n
unfolding signed
signed_small n lt = rw (fits) refl
  where
    fits : ltb n (2 ^ 31) ≡ true
    fits = ground arith

atoi-digits :
    (c : ℕ) (s : List ℕ)
    → Digits (c ∷ s)
    → digits 0 (c ∷ s) < 2 ^ 31
    → atoi (c ∷ s ++ (10 ∷ [])) ≡ ok (digits 0 (c ∷ s))
unfolding atoi
atoi-digits c s (lo, hi, d) small =
    rw (space, minus, plus)
      (ap (signed false) (digits-end 0 (c ∷ s) (lo, hi, d)) ∙ signed_small (digits 0 (c ∷ s)) small)
  where
    space : is_space c ≡ false
    space = ground arith

    minus : (c == b'-') ≡ false
    minus = ground arith

    plus : (c == b'+') ≡ false
    plus = ground arith

pub Lacks-append : (d : ℕ) (s t : List ℕ) → Lacks d s → Lacks d t → Lacks d (s ++ t)
Lacks-append d [] t l k = k
Lacks-append d (c ∷ s) t (ne, l) k = (ne, Lacks-append d s t l k)

pub Digits-Lacks : (d : ℕ) (s : List ℕ) → d < 48 → Digits s → Lacks d s
Digits-Lacks d [] lt ds = tt
Digits-Lacks d (c ∷ s) lt (lo, hi, ds) = (λ e. omega arith, Digits-Lacks d s lt ds)

-- `exec 20` and the like: the word, a space and a number that an `int` holds.
pub decode_timed_lem :
    (c d pos : ℕ) (w s : List ℕ) (old : Instruction)
    → Lacks b'(' (c ∷ w)
    → Lacks b' ' (c ∷ w)
    → timed (retrieve_event (c ∷ w)) ≡ true
    → Digits (d ∷ s)
    → digits 0 (d ∷ s) < 2 ^ 31
    → decode (c ∷ w ++ (b' ' ∷ d ∷ s ++ (10 ∷ []))) pos old
      ≡ ok (record {
        e = retrieve_event (c ∷ w);
        remaining_time = digits 0 (d ∷ s);
        fp_pos = pos;
        sem_name = old.sem_name;
      })
unfolding decode
decode_timed_lem c d pos w s old paren space is ds small =
    rw (whole) (rw (word) (rw (is) (rw (number) (rw (value) refl))))
  where
    arg_lacks : (x : ℕ) → x < 48 → x ≢ 10 → Lacks x (d ∷ s ++ (10 ∷ []))
    arg_lacks x lt ne =
        Lacks-append x (d ∷ s) (10 ∷ []) (Digits-Lacks x (d ∷ s) lt ds) (λ e. ne (sym e), tt)

    whole : cut b'(' (c ∷ w ++ (b' ' ∷ d ∷ s ++ (10 ∷ []))) ≡ c ∷ w ++ (b' ' ∷ d ∷ s ++ (10 ∷ []))
    whole = cut-all b'(' c _ (
        Lacks-append b'(' (c ∷ w) _ paren
          (λ e. omega arith, arg_lacks b'(' (omega arith) (λ e. omega arith)))

    word : strtok b' ' (c ∷ w ++ (b' ' ∷ d ∷ s ++ (10 ∷ []))) ≡ some (c ∷ w, d ∷ s ++ (10 ∷ []))
    word = strtok-word b' ' c w _ space

    number : strtok b' ' (d ∷ s ++ (10 ∷ [])) ≡ some (d ∷ s ++ (10 ∷ []), [])
    number = strtok-all b' ' d _ (arg_lacks b' ' (omega arith) (λ e. omega arith))

    value : atoi (d ∷ s ++ (10 ∷ [])) ≡ ok (digits 0 (d ∷ s))
    value = atoi-digits d s ds small

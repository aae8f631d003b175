-- ===== src/User/Trim.antt =====
-- What `trim_whitespace` takes off.
use chic_os.Base.{ℕ, ◌≡◌, refl, ◌∙◌, ap, List, [], ◌∷◌, ◌++◌, true, false, Bool-cases, inl, inr}
use chic_os.Stdio.{is_space}
use chic_os.User.{keep_end, trim_end, trim_start, trim_whitespace}

abbrev pub AllSpace : List ℕ → Type 0
AllSpace [] = Unit {0}
AllSpace (c ∷ s) = (is_space c ≡ true) × AllSpace s

-- The last byte, if there is one, is no white space, and neither is the first.
abbrev pub EndsWell : List ℕ → Type 0
EndsWell [] = Unit {0}
EndsWell (c ∷ []) = is_space c ≡ false
EndsWell (c ∷ d ∷ s) = EndsWell (d ∷ s)

abbrev pub StartsWell : List ℕ → Type 0
StartsWell [] = Unit {0}
StartsWell (c ∷ s) = is_space c ≡ false

-- What one more byte in front does.
keep_end-EndsWell :
    (c : ℕ) (s t back : List ℕ)
    → s ≡ t ++ back
    → AllSpace back
    → EndsWell t
    → (back' : List ℕ) × (c ∷ s ≡ keep_end c t ++ back') × AllSpace back' × EndsWell (keep_end c t)
keep_end-EndsWell c s [] back e sp well = elim (Bool-cases (is_space c)) [
  | inl space ↦ rw space (c ∷ back, ap (λ xs. c ∷ xs) e, (space, sp), tt)
  | inr other ↦ rw other (back, ap (λ xs. c ∷ xs) e, sp, other)
]
keep_end-EndsWell c s (d ∷ t) back e sp well = (back, ap (λ xs. c ∷ xs) e, sp, well)

trim_end-EndsWell :
    (s : List ℕ)
    → (back : List ℕ) × (s ≡ trim_end s ++ back) × AllSpace back × EndsWell (trim_end s)
unfolding trim_end
trim_end-EndsWell [] = ([], refl, tt, tt)
trim_end-EndsWell (c ∷ s) =
    let (back, e, sp, well) = trim_end-EndsWell s in
    keep_end-EndsWell c s (trim_end s) back e sp well

EndsWell-tail : (c : ℕ) (s : List ℕ) → EndsWell (c ∷ s) → EndsWell s
EndsWell-tail c [] h = tt
EndsWell-tail c (d ∷ s) h = h

trim_start-StartsWell :
    (s : List ℕ)
    → EndsWell s
    → (front : List ℕ) × (s ≡ front ++ trim_start s)
      × AllSpace front
      × StartsWell (trim_start s)
      × EndsWell (trim_start s)
unfolding trim_start
trim_start-StartsWell [] well = ([], refl, tt, tt, tt)
trim_start-StartsWell (c ∷ s) well = elim (Bool-cases (is_space c)) [
  | inl space ↦
      (let (front, e, sp, first, last) = trim_start-StartsWell s (EndsWell-tail c s well) in
        rw space (c ∷ front, ap (λ xs. c ∷ xs) e, (space, sp), first, last))
  | inr other ↦ rw other ([], refl, tt, other, well)
]

-- `trim_whitespace` takes off white space at both ends and nothing else, and what is left neither
-- starts nor ends with white space.
pub trim_whitespace-trims :
    (s : List ℕ)
    → (front : List ℕ) × (back : List ℕ) × (s ≡ (front ++ trim_whitespace s) ++ back)
      × AllSpace front
      × AllSpace back
      × StartsWell (trim_whitespace s)
      × EndsWell (trim_whitespace s)
unfolding trim_whitespace
trim_whitespace-trims s =
    let (back, e, sp, well) = trim_end-EndsWell s in
    let (front, f, spaces, first, last) = trim_start-StartsWell (trim_end s) well in
    (front, back, e ∙ ap (λ xs. xs ++ back) f, spaces, sp, first, last)

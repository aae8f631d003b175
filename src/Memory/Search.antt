-- ===== src/Memory/Search.antt =====
-- The search of `c_alloc` for contiguous free pages: it finds the first run that there is.
use chic_os.Base.{
  ℕ, zero, suc, ◌+◌, ◌≤◌, ◌<◌, ◌≡◌, refl, ◌∙◌, sym, subst, true, List, Option, none, some, inl, inr,
  arith, ℕ_discrete, Bool-cases, ltb,
}
use mathlib.Core.Bool.{false≢true}
use chic_os.Memory.{Page, is_free, run_free, find_run}
use chic_os.Memory.Pages.{IsRun}

pub run_free-IsRun : (n i : ℕ) (ps : List Page) → run_free n i ps ≡ true → IsRun ps i n
unfolding run_free
run_free-IsRun zero i ps h j lo hi = absurd (omega arith)
run_free-IsRun (suc n) i ps h j lo hi = elim (ℕ_discrete i j) [
  | yes e ↦ subst (λ k. is_free ps k ≡ true) e (ground arith)
  | no ne ↦ run_free-IsRun n (i + 1) ps (ground arith) j (omega arith) (omega arith)
]

pub IsRun-run_free : (n i : ℕ) (ps : List Page) → IsRun ps i n → run_free n i ps ≡ true
unfolding run_free
IsRun-run_free zero i ps h = refl
IsRun-run_free (suc n) i ps h = ground (
  arith,
  h i (omega arith) (omega arith),
  IsRun-run_free n (i + 1) ps (λ j lo hi. h j (omega arith) (omega arith)),
)

-- What the search comes to: the first run, or the proof that there is none.
abbrev pub FirstRun : ℕ → ℕ → ℕ → List Page → Option ℕ → Type 0
FirstRun i num len ps none = (j : ℕ) → i ≤ j → j + num ≤ len → ¬ IsRun ps j num
FirstRun i num len ps (some k) =
    (i ≤ k) × (k + num ≤ len) × IsRun ps k num × ((j : ℕ) → i ≤ j → j < k → ¬ IsRun ps j num)

-- A place that is no run can be put in front.
FirstRun-skip :
    (i num len : ℕ) (ps : List Page) (o : Option ℕ)
    → ¬ IsRun ps i num
    → FirstRun (i + 1) num len ps o
    → FirstRun i num len ps o
FirstRun-skip i num len ps none here h = λ j lo hi r. elim (ℕ_discrete i j) [
  | yes e ↦ here (subst (λ k. IsRun ps k num) (sym e) r)
  | no ne ↦ h j (omega arith) hi r
]
FirstRun-skip i num len ps (some k) here (lo', hi', r', before) = (
  omega arith,
  hi',
  r',
  λ j lo hi r. elim (ℕ_discrete i j) [
    | yes e ↦ here (subst (λ k. IsRun ps k num) (sym e) r)
    | no ne ↦ before j (omega arith) hi r
  ],
)

pub find_run-FirstRun :
    (rounds i num len : ℕ) (ps : List Page)
    → 0 < num
    → len ≤ i + rounds
    → FirstRun i num len ps (find_run rounds i num len ps)
unfolding find_run
find_run-FirstRun zero i num len ps pos h = λ j lo hi r. omega arith
find_run-FirstRun (suc k) i num len ps pos h = elim (Bool-cases (ltb len (i + num))) [
  | inl past ↦ rw past (λ j lo hi r. ground arith)
  | inr within ↦ rw within (elim (Bool-cases (run_free num i ps)) [
    | inl free ↦
        rw free (omega arith, ground arith, run_free-IsRun num i ps free, λ j lo hi r. omega arith)
    | inr taken ↦ rw taken (
        FirstRun-skip i num len ps (find_run k (i + 1) num len ps)
          (λ r. false≢true (sym taken ∙ IsRun-run_free num i ps r))
          (find_run-FirstRun k (i + 1) num len ps pos (omega arith)))
  ])
]

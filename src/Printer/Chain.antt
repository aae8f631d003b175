-- ===== src/Printer/Chain.antt =====
-- The linked list of the printer, as the list of requests that it holds.
use chic_os.Base.{
  ℕ, ◌≡◌, ◌≢◌, refl, ◌∙◌, sym, subst, Option, none, some, List, [], ◌∷◌, ◌++◌, arith, ◌==◌,
  some-injective, ==_iff, false,
}
use chic_os.Printer.{PrintList, Nodes, write}

-- From the pointer `h` on stand nodes at these addresses, with these times and pids, and the last
-- one points nowhere.
abbrev pub Chain : Nodes → Option ℕ → List ℕ → List (ℕ × ℕ) → Type 0
Chain nodes h [] [] = h ≡ none
Chain nodes h [] (job ∷ jobs) = ⊥
Chain nodes h (a ∷ xs) [] = ⊥
Chain nodes h (a ∷ xs) (job ∷ jobs) =
    (node : PrintList) × (h ≡ some a)
    × (nodes a ≡ some node)
    × ((node.time, node.pid) ≡ job)
    × Chain nodes node.prox xs jobs

-- The address is none of these.
abbrev pub Fresh : ℕ → List ℕ → Type 0
Fresh a [] = Unit {0}
Fresh a (b ∷ xs) = (a ≢ b) × Fresh a xs

abbrev pub Distinct : List ℕ → Type 0
Distinct [] = Unit {0}
Distinct (a ∷ xs) = Fresh a xs × Distinct xs

abbrev pub last_of : List ℕ → Option ℕ
last_of [] = none
last_of (a ∷ []) = some a
last_of (a ∷ b ∷ xs) = last_of (b ∷ xs)

pub write_self : (a : ℕ) (node : PrintList) (nodes : Nodes) → write a node nodes a ≡ some node
write_self a node nodes = rw ((==_iff a a).1 refl) refl

pub write_ne : (a b : ℕ) (node : PrintList) (nodes : Nodes) → b ≢ a → write a node nodes b ≡ nodes b
write_ne a b node nodes ne = rw (differ) refl
  where
    differ : (b == a) ≡ false
    differ = ground arith

-- A write to another address leaves the list.
pub Chain-write :
    (a : ℕ) (node : PrintList) (nodes : Nodes) (h : Option ℕ) (xs : List ℕ) (jobs : List (ℕ × ℕ))
    → Fresh a xs
    → Chain nodes h xs jobs
    → Chain (write a node nodes) h xs jobs
Chain-write a node nodes h [] [] f c = c
Chain-write a node nodes h [] (job ∷ jobs) f c = c
Chain-write a node nodes h (b ∷ xs) [] f c = c
Chain-write a node nodes h (b ∷ xs) (job ∷ jobs) (ne, f) (n, at, found, same, rest) = (
  n,
  at,
  write_ne a b node nodes (λ e. ne (sym e)) ∙ found,
  same,
  Chain-write a node nodes n.prox xs jobs f rest,
)

Fresh-last : (b z : ℕ) (xs : List ℕ) → Fresh b xs → last_of xs ≡ some z → b ≢ z
Fresh-last b z [] f e = cc
Fresh-last b z (c ∷ []) (ne, f) e = subst (λ x. b ≢ x) (some-injective e) ne
Fresh-last b z (c ∷ d ∷ xs) (ne, f) e = Fresh-last b z (d ∷ xs) f e

link_end :
    (a b : ℕ) (node last : PrintList) (nodes : Nodes) (h : Option ℕ) (job : ℕ × ℕ)
    → a ≢ b
    → h ≡ some b
    → nodes b ≡ some last
    → (last.time, last.pid) ≡ job
    → nodes a ≡ some node
    → node.prox ≡ none
    → Chain
        (write b (record last { prox = some a }) nodes)
        h
        (b ∷ a ∷ [])
        (job ∷ (node.time, node.pid) ∷ [])
link_end a b node last nodes h job ne here found same at stop = (
  record last { prox = some a },
  here,
  write_self b (record last { prox = some a }) nodes,
  same,
  (node, refl, write_ne b a (record last { prox = some a }) nodes ne ∙ at, refl, stop),
)

-- The last node is made to point to a new one.
pub Chain-link :
    (a z : ℕ) (node last : PrintList) (nodes : Nodes) (h : Option ℕ) (xs : List ℕ)
    (jobs : List (ℕ × ℕ))
    → Distinct xs
    → Fresh a xs
    → last_of xs ≡ some z
    → nodes a ≡ some node
    → node.prox ≡ none
    → nodes z ≡ some last
    → Chain nodes h xs jobs
    → Chain
        (write z (record last { prox = some a }) nodes)
        h
        (xs ++ (a ∷ []))
        (jobs ++ ((node.time, node.pid) ∷ []))
Chain-link a z node last nodes h [] jobs d f end at stop there c = cc
Chain-link a z node last nodes h (b ∷ xs) [] d f end at stop there c = elim c [ ]
Chain-link a z node last nodes h (b ∷ []) (job ∷ []) d (ne, f) end at stop there
      (n, here, found, same, rest) =
    let e = some-injective end in
    let there_b = subst (λ x. nodes x ≡ some last) (sym e) there in
    let same_b =
      subst (λ (x : PrintList). (x.time, x.pid) ≡ job) (some-injective (sym found ∙ there_b))
        same in
    subst
      (λ x.
        Chain (write x (record last { prox = some a }) nodes) h (b ∷ a ∷ [])
          (job ∷ (node.time, node.pid) ∷ []))
      e (link_end a b node last nodes h job ne here there_b same_b at stop)
Chain-link a z node last nodes h (b ∷ []) (job ∷ job' ∷ jobs) d (ne, f) end at stop there
      (n, here, found, same, rest) =
    elim rest [ ]
Chain-link a z node last nodes h (b ∷ c ∷ xs) (job ∷ jobs) (apart, d) (ne, f) end at stop there
      (n, here, found, same, rest) =
    (
      n,
      here,
      write_ne z b (record last { prox = some a }) nodes (Fresh-last b z (c ∷ xs) apart end)
          ∙ found,
      same,
      Chain-link a z node last nodes n.prox (c ∷ xs) jobs d f end at stop there rest,
    )

-- ===== src/Printer/Jobs.antt =====
-- The print queue over the allocator: requests go in at the end and come out at the front.
use chic_os.Base.{ℕ, ◌≡◌, ◌≢◌, refl, ◌∙◌, sym, Option, none, some, List, [], ◌∷◌, ◌++◌, ok}
use chic_os.Memory.{Memory}
use chic_os.Memory.Alloc.{Block}
use chic_os.Memory.Release.{block_address}
use chic_os.Printer.{PrintList, Nodes, write, Printer, link}
use chic_os.Printer.Chain.{Chain, Chain-link, Fresh, Distinct, last_of}

-- The printer's list holds these requests at these addresses.
pub record IsQueue (p : Printer) (cells : List ℕ) (jobs : List (ℕ × ℕ)) : Type 0 where
  pub chain : Chain p.nodes p.head cells jobs
  pub distinct : Distinct cells
  pub tail : p.tail ≡ last_of cells

-- Each of the addresses is an allocated block of one page.
abbrev pub Stored : Memory → List ℕ → Type 0
Stored m [] = Unit {0}
Stored m (a ∷ cells) = ((i : ℕ) × (a ≡ block_address i) × Block m i 1) × Stored m cells

Distinct-snoc :
    (a : ℕ) (cells : List ℕ) → Fresh a cells → Distinct cells → Distinct (cells ++ (a ∷ []))
Distinct-snoc a [] f d = (tt, tt)
Distinct-snoc a (b ∷ cells) (ne, f) (g, d) =
    (Fresh-snoc b a cells (λ e. ne (sym e)) g, Distinct-snoc a cells f d)
  where
    Fresh-snoc : (b a : ℕ) (cells : List ℕ) → b ≢ a → Fresh b cells → Fresh b (cells ++ (a ∷ []))
    Fresh-snoc b a [] ne f = (ne, tt)
    Fresh-snoc b a (c ∷ cells) ne (other, f) = (other, Fresh-snoc b a cells ne f)

last_of-snoc : (a : ℕ) (cells : List ℕ) → last_of (cells ++ (a ∷ [])) ≡ some a
last_of-snoc a [] = refl
last_of-snoc a (b ∷ []) = refl
last_of-snoc a (b ∷ c ∷ cells) = last_of-snoc a (c ∷ cells)

-- The last node of a list that is not empty.
last_node :
    (nodes : Nodes) (h : Option ℕ) (a : ℕ) (cells : List ℕ) (jobs : List (ℕ × ℕ))
    → Chain nodes h (a ∷ cells) jobs
    → (z : ℕ) × (node : PrintList) × (last_of (a ∷ cells) ≡ some z) × (nodes z ≡ some node)
last_node nodes h a cells [] c = elim c [ ]
last_node nodes h a [] (job ∷ jobs) (n, here, found, same, rest) = (a, n, refl, found)
last_node nodes h a (b ∷ cells) (job ∷ jobs) (n, here, found, same, rest) =
    last_node nodes n.prox b cells jobs rest

link_lem :
    (a h z : ℕ) (last : PrintList) (p : Printer)
    → p.head ≡ some h
    → p.tail ≡ some z
    → p.nodes z ≡ some last
    → link a p
      ≡ ok (record p { nodes = write z (record last { prox = some a }) p.nodes; tail = some a })
unfolding link
link_lem a h z last p e1 e2 e3 = rw (e1) (rw (e2) (rw (e3) refl))

-- Linking a new node in.
pub link-IsQueue :
    (a time pid : ℕ) (p : Printer) (cells : List ℕ) (jobs : List (ℕ × ℕ))
    → Fresh a cells
    → p.nodes a ≡ some (record { time = time; pid = pid; prox = none })
    → IsQueue p cells jobs
    → (p' : Printer) × (link a p ≡ ok p')
      × (p'.printer_buffer ≡ p.printer_buffer)
      × IsQueue p' (cells ++ (a ∷ [])) (jobs ++ ((time, pid) ∷ []))
unfolding link
link-IsQueue a time pid p [] [] f at q = (
  record p { head = some a; tail = some a },
  rw (q.chain) refl,
  refl,
  record {
    chain = (record { time = time; pid = pid; prox = none }, refl, at, refl, refl);
    distinct = (tt, tt);
    tail = refl;
  },
)
link-IsQueue a time pid p [] (job ∷ jobs) f at q = elim q.chain [ ]
link-IsQueue a time pid p (b ∷ cells) [] f at q = elim q.chain [ ]
link-IsQueue a time pid p (b ∷ cells) (job ∷ jobs) f at q =
    let (z, last, end, there) = last_node p.nodes p.head b cells (job ∷ jobs) q.chain in
    let (n, here, found, same, rest) = q.chain in
    (
      record p { nodes = write z (record last { prox = some a }) p.nodes; tail = some a },
      link_lem a b z last p here (q.tail ∙ end) there,
      refl,
      record {
        chain =
            Chain-link a z _ last p.nodes p.head (b ∷ cells) (job ∷ jobs) q.distinct f end at refl
              there q.chain;
        distinct = Distinct-snoc a (b ∷ cells) f q.distinct;
        tail = sym (last_of-snoc a (b ∷ cells));
      },
    )

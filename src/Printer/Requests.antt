-- ===== src/Printer/Requests.antt =====
-- `add_to_print_queue`, `pop_from_print_queue` and the loop of the printer.
use chic_os.Base.{
  ℕ, zero, suc, ◌+◌, ◌≤◌, ◌<◌, ◌≡◌, refl, sym, ap₂, ◌⊎◌, inl, inr, Option, none, some, List, [],
  ◌∷◌, ◌++◌, arith, length, true, Bool-cases, ok,
}
use chic_os.Memory.{Memory, Page, c_alloc}
use chic_os.Memory.Pages.{count_free, IsRun}
use chic_os.Memory.Invariant.{Inv}
use chic_os.Memory.Alloc.{Block, Placed, c_alloc-Allocated}
use chic_os.Memory.Release.{block_address}
use chic_os.Memory.Blocks.{Placed-Block}
use chic_os.Printer.{
  PrintList, Nodes, write, Printer, link, tail_after, add_to_print_queue, pop_from_print_queue,
}
use chic_os.Printer.Chain.{Chain, Chain-write, Fresh, last_of, write_self}
use chic_os.Printer.Jobs.{IsQueue, Stored, link-IsQueue}

-- A block that is placed is none of those that are there.
Fresh-of_Placed :
    (m m' : Memory) (i : ℕ) (cells : List ℕ)
    → Placed m i 1 m'
    → Stored m cells
    → Fresh (block_address i) cells × Stored m' cells
Fresh-of_Placed m m' i [] p s = (tt, tt)
Fresh-of_Placed m m' i (a ∷ cells) p ((j, e, b), s) =
    let (b', apart) = Placed-Block m m' i 1 j 1 p b in
    let (f, s') = Fresh-of_Placed m m' i cells p s in
    ((λ same. omega (arith, apart), f), ((j, e, b'), s'))

Stored-snoc :
    (m : Memory) (i : ℕ) (cells : List ℕ)
    → Block m i 1
    → Stored m cells
    → Stored m (cells ++ (block_address i ∷ []))
Stored-snoc m i [] b s = ((i, refl, b), tt)
Stored-snoc m i (a ∷ cells) b (here, s) = (here, Stored-snoc m i cells b s)

some_free : (ps : List Page) → ((j : ℕ) → j + 1 ≤ length ps → ¬ IsRun ps j 1) → count_free ps ≡ 0
unfolding count_free
some_free [] h = refl
some_free (p ∷ ps) h = elim (Bool-cases p.free) [
  | inl free ↦ absurd (h 0 (omega arith) (front free))
  | inr taken ↦
      rw taken (omega (arith, some_free ps (λ j hi r. h (suc j) (omega arith) (behind j r))))
]
  where
    front : p.free ≡ true → IsRun (p ∷ ps) 0 1
    front free zero lo hi = free
    front free (suc j) lo hi = absurd (omega arith)

    behind : (j : ℕ) → IsRun ps j 1 → IsRun (p ∷ ps) (suc j) 1
    behind j r zero lo hi = absurd (omega arith)
    behind j r (suc k) lo hi = r k (omega arith) (omega arith)

add_lem :
    (time pid n a : ℕ) (p p' : Printer) (m m' : Memory)
    → p.printer_s ≡ suc n
    → c_alloc 16 m ≡ ok (some a, m')
    → link a (record p { nodes = write a (record { time = time; pid = pid; prox = none }) p.nodes })
      ≡ ok p'
    → add_to_print_queue time pid p m ≡ ok (record p' { printer_s = suc n }, m')
unfolding add_to_print_queue link
add_lem time pid n a p p' m m' lock alloc run = rw (lock) (rw (alloc) (rw (run) refl))

pub IsQueue-unlocked :
    (p : Printer) (s : ℕ) (cells : List ℕ) (jobs : List (ℕ × ℕ))
    → IsQueue p cells jobs
    → IsQueue (record p { printer_s = s }) cells jobs
IsQueue-unlocked p s cells jobs q = record { chain = q.chain; distinct = q.distinct; tail = q.tail }

pub IsQueue-write :
    (a : ℕ) (node : PrintList) (p : Printer) (cells : List ℕ) (jobs : List (ℕ × ℕ))
    → Fresh a cells
    → IsQueue p cells jobs
    → IsQueue (record p { nodes = write a node p.nodes }) cells jobs
IsQueue-write a node p cells jobs f q = record {
  chain = Chain-write a node p.nodes p.head cells jobs f q.chain;
  distinct = q.distinct;
  tail = q.tail;
}

-- With the printer's semaphore free, the memory's invariant, a page free, and the queue's nodes
-- in blocks of their own, a request goes to the end of the queue, in a block of its own, and the
-- memory keeps its invariant.
pub add_to_print_queue-IsQueue :
    (time pid n : ℕ) (p : Printer) (m : Memory) (cells : List ℕ) (jobs : List (ℕ × ℕ))
    → p.printer_s ≡ suc n
    → Inv m
    → 16 < m.size
    → 0 < m.free_page_num
    → Stored m cells
    → IsQueue p cells jobs
    → (a : ℕ) × (p' : Printer) × (m' : Memory) × (add_to_print_queue time pid p m ≡ ok (p', m'))
      × IsQueue p' (cells ++ (a ∷ [])) (jobs ++ ((time, pid) ∷ []))
      × Stored m' (cells ++ (a ∷ []))
      × Inv m'
      × (p'.printer_s ≡ p.printer_s)
      × (p'.printer_buffer ≡ p.printer_buffer)
add_to_print_queue-IsQueue time pid n p m cells jobs lock v fits page stored q =
    elim (c_alloc-Allocated m 16 v (omega arith) fits (omega arith)) [
      | inr (ex, none_fits) ↦ absurd (
          omega
            (arith, v.counted, some_free m.pages (λ j hi. none_fits j (omega (arith, v.table)))))
      | inl (i, m', run, placed, first) ↦
          (let node : PrintList = record { time = time; pid = pid; prox = none } in
            let (fresh, kept) = Fresh-of_Placed m m' i cells placed stored in
            let (p', linked, buffer, q') =
              link-IsQueue (block_address i) time pid
                (record p { nodes = write (block_address i) node p.nodes }) cells jobs fresh
                (write_self (block_address i) node p.nodes)
                (IsQueue-write (block_address i) node p cells jobs fresh q) in
            (
              block_address i,
              record p' { printer_s = suc n },
              m',
              add_lem time pid n (block_address i) p p' m m' lock run linked,
              IsQueue-unlocked p' (suc n) _ _ q',
              Stored-snoc m' i cells placed.block kept,
              placed.inv,
              sym lock,
              buffer,
            ))
    ]

pop_lem :
    (n h : ℕ) (node : PrintList) (p : Printer)
    → p.printer_s ≡ suc n
    → p.head ≡ some h
    → p.nodes h ≡ some node
    → pop_from_print_queue p
      ≡ ok (some h, record p { head = node.prox; tail = tail_after node.prox p.tail })
unfolding pop_from_print_queue
pop_lem n h node p lock e1 e2 = rw (lock) (rw (e1) (rw (e2) refl))

tail_next :
    (x tail : Option ℕ) (a : ℕ) (cells : List ℕ) (jobs : List (ℕ × ℕ)) (nodes : Nodes)
    → Chain nodes x cells jobs
    → tail ≡ last_of (a ∷ cells)
    → tail_after x tail ≡ last_of cells
tail_next x tail a [] [] nodes c e = rw c refl
tail_next x tail a [] (job ∷ jobs) nodes c e = elim c [ ]
tail_next x tail a (b ∷ cells) [] nodes c e = elim c [ ]
tail_next x tail a (b ∷ cells) (job ∷ jobs) nodes (node, here, found, same, rest) e = rw here e

pop_empty :
    (n : ℕ) (p : Printer)
    → p.printer_s ≡ suc n
    → p.head ≡ none
    → pop_from_print_queue p ≡ ok (none, p)
unfolding pop_from_print_queue
pop_empty n p lock e =
    simp (lock, e) (ap₂ (λ s h. ok (none, record p { printer_s = s; head = h })) (sym lock) (sym e))

-- With the printer's semaphore free, `pop_from_print_queue` returns the node of the oldest request,
-- and leaves the others in their order. From an empty queue it returns NULL and changes nothing.
pub pop_from_print_queue-IsQueue :
    (n : ℕ) (p : Printer) (cells : List ℕ) (jobs : List (ℕ × ℕ))
    → p.printer_s ≡ suc n
    → IsQueue p cells jobs
    → ((jobs ≡ []) × (pop_from_print_queue p ≡ ok (none, p)))
      ⊎ ((a : ℕ) × (rest : List ℕ) × (job : ℕ × ℕ) × (later : List (ℕ × ℕ)) × (p' : Printer)
          × (node : PrintList) × (cells ≡ a ∷ rest)
          × (jobs ≡ job ∷ later)
          × (pop_from_print_queue p ≡ ok (some a, p'))
          × IsQueue p' rest later
          × (p'.nodes a ≡ some node)
          × ((node.time, node.pid) ≡ job))
pop_from_print_queue-IsQueue n p [] [] lock q = inl (refl, pop_empty n p lock q.chain)
pop_from_print_queue-IsQueue n p [] (job ∷ jobs) lock q = elim q.chain [ ]
pop_from_print_queue-IsQueue n p (a ∷ cells) [] lock q = elim q.chain [ ]
pop_from_print_queue-IsQueue n p (a ∷ cells) (job ∷ jobs) lock q =
    let (node, here, found, same, rest) = q.chain in
    inr (
      a,
      cells,
      job,
      jobs,
      record p { head = node.prox; tail = tail_after node.prox p.tail },
      node,
      refl,
      refl,
      pop_lem n a node p lock here found,
      record {
        chain = rest;
        distinct = q.distinct.1;
        tail = tail_next node.prox p.tail a cells jobs p.nodes rest q.tail;
      },
      found,
      same,
    )

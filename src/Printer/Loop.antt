-- ===== src/Printer/Loop.antt =====
-- A round of the printer's loop while a request is printed.
use chic_os.Base.{
  ℕ, suc, ◌-◌, ◌≤◌, ◌<◌, ◌≡◌, refl, ◌∙◌, ap, ◌⊎◌, inl, inr, Option, none, some, List, [], ◌∷◌,
  arith, true, false, Bool-cases, ok, ◌==◌, ◌≢◌, sym, subst, Keeps, wait-Keeps, any-Keeps, ok-Keeps,
  deref, sem_post, Outcome, ◌>>=◌,
}
use chic_os.Memory.{Memory, c_dealloc}
use chic_os.Memory.Invariant.{Inv}
use chic_os.Memory.Alloc.{Block}
use chic_os.Memory.Release.{Freed, block_address, c_dealloc-Freed}
use chic_os.Printer.{
  PrintList, write, Printer, pop_from_print_queue, pop_print, pop_if, print_node, print_current,
  print_next, printer_round, Nodes, tail_after,
}
use chic_os.Printer.Chain.{Fresh, write_self, write_ne}
use chic_os.Printer.Jobs.{IsQueue}
use chic_os.Printer.Requests.{IsQueue-write, pop_from_print_queue-IsQueue}

-- The printer after a millisecond of the node at `a`.
abbrev ticked : ℕ → PrintList → Printer → Printer
ticked a node p = record p { nodes = write a (record node { time = node.time - 1 }) p.nodes }

abbrev idle : ℕ → PrintList → Printer → Printer
idle a node p = record (ticked a node p) { printer_buffer = none }

print_node_goes :
    (a : ℕ) (node : PrintList) (p : Printer) (m : Memory)
    → p.nodes a ≡ some node
    → (node.time - 1 == 0) ≡ false
    → print_node a p m ≡ ok (ticked a node p, m)
unfolding print_node
print_node_goes a node p m at more = rw (at) (rw (more) refl)

print_node_ends :
    (a : ℕ) (node : PrintList) (p : Printer) (m m' : Memory)
    → p.nodes a ≡ some node
    → (node.time - 1 == 0) ≡ true
    → c_dealloc (some a) m ≡ ok m'
    → print_node a p m ≡ ok (idle a node p, m')
unfolding print_node
print_node_ends a node p m m' at done run = rw (at) (rw (done, run) refl)

take_some :
    {A : Type 0} (o : Option ℕ) (x : A) (f : ℕ → A) (a : ℕ)
    → o ≡ some a
    → (elim o [ none ↦ x | some a ↦ f a ]) ≡ f a
take_some o x f a e = rw e refl

take_none :
    {A : Type 0} (o : Option ℕ) (x : A) (f : ℕ → A)
    → o ≡ none
    → (elim o [ none ↦ x | some a ↦ f a ]) ≡ x
take_none o x f e = rw e refl

print_current_lem :
    (a : ℕ) (p : Printer) (m : Memory)
    → p.printer_buffer ≡ some a
    → print_current p m ≡ print_node a p m
unfolding print_current
print_current_lem a p m e = take_some p.printer_buffer _ _ a e

print_next_busy : (c a : ℕ) (p : Printer) → p.printer_buffer ≡ some a → print_next c p ≡ ok (c, p)
unfolding print_next
print_next_busy c a p e = take_some p.printer_buffer _ _ a e

print_next_free :
    (c : ℕ) (p : Printer) (o : Option ℕ)
    → p.printer_buffer ≡ none
    → p.head ≡ o
    → print_next c p ≡ pop_if o c p
unfolding print_next
print_next_free c p o e h = take_none p.printer_buffer _ _ e ∙ ap (λ o. pop_if o c p) h

round_lem :
    (c c' : ℕ) (p p1 p2 : Printer) (m m1 : Memory)
    → print_current p m ≡ ok (p1, m1)
    → print_next c p1 ≡ ok (c', p2)
    → printer_round c p m ≡ ok (c', p2, m1)
unfolding printer_round
round_lem c c' p p1 p2 m m1 e f = rw (e) (rw (f) refl)

pop_print_lem :
    (p p' : Printer) (o : Option ℕ)
    → pop_from_print_queue p ≡ ok (o, p')
    → pop_print p ≡ ok (record p' { printer_buffer = o })
unfolding pop_print
pop_print_lem p p' o e = rw (e) refl

IsQueue-buffer :
    (p : Printer) (o : Option ℕ) (cells : List ℕ) (jobs : List (ℕ × ℕ))
    → IsQueue p cells jobs
    → IsQueue (record p { printer_buffer = o }) cells jobs
IsQueue-buffer p o cells jobs q = record { chain = q.chain; distinct = q.distinct; tail = q.tail }

-- What an interrupt leaves alone.
record Kept (p p' : Printer) : Type 0 where
  lock : p'.printer_s ≡ p.printer_s
  same_active : p'.active ≡ p.active
  same_nodes : p'.nodes ≡ p.nodes

pop-Keeps : (p : Printer) → Keeps (λ (r : Option ℕ × Printer). Kept p r.1) (pop_from_print_queue p)
unfolding pop_from_print_queue
pop-Keeps p = wait-Keeps p.printer_s _ λ s e. from s e p.head
  where
    from :
        (s : ℕ)
        → p.printer_s ≡ suc s
        → (head : Option ℕ)
        → Keeps
            (λ (r : Option ℕ × Printer). Kept p r.1)
            (elim head [
              | none ↦ ok (none, record p { printer_s = sem_post s })
              | some h ↦ do
                first ← deref (p.nodes h)
                ok (
                  some h,
                  record p {
                    head = first.prox;
                    tail = tail_after first.prox p.tail;
                    printer_s = sem_post s;
                  },
                )
            ])
    from s e none = ok-Keeps _ (record { lock = sym e; same_active = refl; same_nodes = refl })
    from s e (some h) =
        any-Keeps (deref (p.nodes h)) _
          λ first. ok-Keeps _ (record { lock = sym e; same_active = refl; same_nodes = refl })

pop-Kept : (p p' : Printer) (o : Option ℕ) → pop_from_print_queue p ≡ ok (o, p') → Kept p p'
pop-Kept p p' o e = (subst (Keeps (λ (r : Option ℕ × Printer). Kept p r.1)) e (pop-Keeps p)).holds

-- What follows on a printer that is done: nothing is left, or the next request is printed.
abbrev pub Next : List ℕ → List (ℕ × ℕ) → Printer → Type 0
Next cells jobs p =
    ((jobs ≡ []) × (p.printer_buffer ≡ none))
    ⊎ ((a : ℕ) × (rest : List ℕ) × (job : ℕ × ℕ) × (later : List (ℕ × ℕ)) × (node : PrintList)
        × (cells ≡ a ∷ rest)
        × (jobs ≡ job ∷ later)
        × (p.printer_buffer ≡ some a)
        × (p.nodes a ≡ some node)
        × ((node.time, node.pid) ≡ job)
        × IsQueue p rest later)

print_next-Next :
    (k n : ℕ) (p : Printer) (cells : List ℕ) (jobs : List (ℕ × ℕ))
    → p.printer_s ≡ suc n
    → p.printer_buffer ≡ none
    → IsQueue p cells jobs
    → (p' : Printer) × (print_next (suc k) p ≡ ok (suc k, p')) × Next cells jobs p' × Kept p p'
print_next-Next k n p [] [] lock e q = (
  p,
  print_next_free (suc k) p none e q.chain,
  inl (refl, e),
  record { lock = refl; same_active = refl; same_nodes = refl },
)
print_next-Next k n p [] (job ∷ jobs) lock e q = elim q.chain [ ]
print_next-Next k n p (a ∷ cells) [] lock e q = elim q.chain [ ]
print_next-Next k n p (a ∷ cells) (job ∷ jobs) lock e q =
    elim (pop_from_print_queue-IsQueue n p (a ∷ cells) (job ∷ jobs) lock q) [
      | inl (none_left, run) ↦ cc none_left
      | inr (b, rest, first, later, p', node, e1, e2, run, q', found, same) ↦
          (let (head_node, here, at, same_job, behind) = q.chain in
            (
              record p' { printer_buffer = some b },
              print_next_free (suc k) p (some a) e here
                  ∙ ap (λ (o : Outcome Printer). do q ← o; ok (suc k, q))
                      (pop_print_lem p p' (some b) run),
              inr (
                b,
                rest,
                first,
                later,
                node,
                e1,
                e2,
                refl,
                found,
                same,
                IsQueue-buffer p' (some b) rest later q',
              ),
              (let kept = pop-Kept p p' (some b) run in
                  record {
                    lock = kept.lock;
                    same_active = kept.same_active;
                    same_nodes = kept.same_nodes;
                  }),
            ))
    ]

-- With the CPU's and the printer's semaphores free, while a node of the printer's own, outside the queue and in a block of one page, is printed, a
-- round takes one millisecond of it and nothing else happens as long as some are left. Otherwise
-- its block is freed and the oldest request of the queue, if there is one, is printed next; no other
-- node changes, nor the semaphores, nor whether the printer is active.
pub printer_round-Next :
    (k n i : ℕ) (node : PrintList) (p : Printer) (m : Memory) (cells : List ℕ) (jobs : List (ℕ × ℕ))
    → p.printer_s ≡ suc n
    → p.printer_buffer ≡ some (block_address i)
    → p.nodes (block_address i) ≡ some node
    → Fresh (block_address i) cells
    → IsQueue p cells jobs
    → Inv m
    → Block m i 1
    → ((1 < node.time)
        × (p' : Printer) × (printer_round (suc k) p m ≡ ok (suc k, p', m))
        × IsQueue p' cells jobs
        × (p'.printer_buffer ≡ some (block_address i))
        × (p'.nodes (block_address i) ≡ some (record node { time = node.time - 1 }))
        × ((b : ℕ) → b ≢ block_address i → p'.nodes b ≡ p.nodes b)
        × (p'.head ≡ p.head)
        × (p'.tail ≡ p.tail)
        × (p'.printer_s ≡ p.printer_s)
        × (p'.active ≡ p.active))
      ⊎ ((node.time ≤ 1)
          × (p' : Printer) × (m' : Memory) × (printer_round (suc k) p m ≡ ok (suc k, p', m'))
          × Next cells jobs p'
          × Freed m i 1 m'
          × ((b : ℕ) → b ≢ block_address i → p'.nodes b ≡ p.nodes b)
          × (p'.printer_s ≡ p.printer_s)
          × (p'.active ≡ p.active))
printer_round-Next k n i node p m cells jobs lock busy at fresh q v b =
    elim (Bool-cases (node.time - 1 == 0)) [
      | inr more ↦ inl (
        ground arith,
        ticked a node p,
        round_lem (suc k) (suc k) p (ticked a node p) (ticked a node p) m m
            (print_current_lem a p m busy ∙ print_node_goes a node p m at more)
            (print_next_busy (suc k) a (ticked a node p) busy),
        q',
        busy,
        write_self a (record node { time = node.time - 1 }) p.nodes,
        others,
        refl,
        refl,
        refl,
        refl,
      )
      | inl done ↦
          (let (m', run, freed) = c_dealloc-Freed m i 1 v b in
            let (p', next, result, kept) =
              print_next-Next k n (idle a node p) cells jobs lock refl
                (IsQueue-buffer (ticked a node p) none cells jobs q') in
            inr (
              ground arith,
              p',
              m',
              round_lem (suc k) (suc k) p (idle a node p) p' m m'
                  (print_current_lem a p m busy ∙ print_node_ends a node p m m' at done run) next,
              result,
              freed,
              λ b ne. ap (λ (nodes : Nodes). nodes b) kept.same_nodes ∙ others b ne,
              kept.lock,
              kept.same_active,
            ))
    ]
  where
    a : ℕ
    a = block_address i

    others : (b : ℕ) → b ≢ a → (ticked a node p).nodes b ≡ p.nodes b
    others b ne = write_ne a b (record node { time = node.time - 1 }) p.nodes ne

    q' : IsQueue (ticked a node p) cells jobs
    q' = IsQueue-write a (record node { time = node.time - 1 }) p cells jobs fresh q

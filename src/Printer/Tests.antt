-- ===== src/Printer/Tests.antt =====
-- printer.c over a pool of four pages.
use chic_os.Base.{
  ℕ, zero, suc, ◌+◌, ◌≤◌, ◌<◌, ◌≡◌, ◌≢◌, refl, ◌⊎◌, true, false, none, some, List, [], ◌∷◌, arith,
  ok,
}
use chic_os.Memory.{Memory, fresh_page, take_page, is_free, c_alloc, c_dealloc, make_room, place}
use chic_os.Memory.Invariant.{Inv}
use chic_os.Memory.Alloc.{Block}
use chic_os.Memory.Release.{Freed}
use chic_os.Memory.Pages.{count_free}
use chic_os.Memory.Tests.{no_header, four, four-Inv}
use chic_os.Printer.{
  PrintList, Nodes, Printer, write, init_printer, link, add_to_print_queue, pop_from_print_queue,
  pop_print, print_node, print_current, print_next, printer_round,
}
use chic_os.Printer.Jobs.{IsQueue, Stored}
use chic_os.Printer.Requests.{add_to_print_queue-IsQueue, pop_from_print_queue-IsQueue}
use chic_os.Printer.Loop.{Next, printer_round-Next}

abbrev no_nodes : Nodes
no_nodes a = none

abbrev fresh_printer : Printer
fresh_printer = record {
  printer_s = 1;
  head = none;
  tail = none;
  printer_buffer = none;
  active = true;
  nodes = no_nodes;
}

init_runs : init_printer (record fresh_printer { printer_s = 0; active = false }) ≡ fresh_printer
unfolding init_printer
init_runs = refl

-- Process 4 wants two milliseconds, and process 5 one.
abbrev two_nodes : Nodes
two_nodes =
    write 8 (record { time = 2; pid = 4; prox = some 1032 })
      (write 1032 (record { time = 1; pid = 5; prox = none }) no_nodes)

abbrev two_jobs : Printer
two_jobs = record fresh_printer { head = some 8; tail = some 1032; nodes = two_nodes }

two-IsQueue : IsQueue two_jobs (8 ∷ 1032 ∷ []) ((2, 4) ∷ (1, 5) ∷ [])
two-IsQueue = record {
  chain = (
    record { time = 2; pid = 4; prox = some 1032 },
    refl,
    refl,
    refl,
    (record { time = 1; pid = 5; prox = none }, refl, refl, refl, refl),
  );
  distinct = ((λ e. omega arith, tt), (tt, tt));
  tail = refl;
}

-- Both are queued, and the printer takes the first one and then the second.
both_run :
    (p1 : Printer) × (m1 : Memory) × (p2 : Printer) × (m2 : Memory) × (p3 : Printer)
    × (add_to_print_queue 1 4 fresh_printer four ≡ ok (p1, m1))
    × (add_to_print_queue 1 5 p1 m1 ≡ ok (p2, m2))
    × (pop_print p2 ≡ ok p3)
    × ((p4 : Printer) × (m4 : Memory) × (printer_round 1 p3 m2 ≡ ok (1, p4, m4))
        × (p4.printer_buffer ≡ some 1032)
        × (m4.free_page_num ≡ 3))
unfolding add_to_print_queue link c_alloc make_room place pop_print pop_from_print_queue
    printer_round print_current print_node print_next c_dealloc
both_run = (_, _, _, _, _, refl, refl, refl, (_, _, refl, refl, refl))

empty-IsQueue : IsQueue fresh_printer [] []
empty-IsQueue = record { chain = refl; distinct = tt; tail = refl }

-- The node of process 4 is printed, and that of process 5 is left in the queue.
abbrev printing : Printer
printing = record fresh_printer {
  head = some 1032;
  tail = some 1032;
  printer_buffer = some 8;
  nodes =
      write 8 (record { time = 2; pid = 4; prox = none })
        (write 1032 (record { time = 1; pid = 5; prox = none }) no_nodes);
}

printing-IsQueue : IsQueue printing (1032 ∷ []) ((1, 5) ∷ [])
printing-IsQueue = record {
  chain = (record { time = 1; pid = 5; prox = none }, refl, refl, refl, refl);
  distinct = (tt, tt);
  tail = refl;
}

-- The node at the address 8 has a page.
abbrev one : Memory
one = record four {
  free_page_num = 3;
  pages = take_page (fresh_page 0) ∷ fresh_page 1 ∷ fresh_page 2 ∷ fresh_page 3 ∷ [];
  headers = record { id = 0; page_num = 1 } ∷ no_header ∷ no_header ∷ no_header ∷ [];
}

one-Inv : Inv one
unfolding count_free
one-Inv = omega arith

one_taken : (j : ℕ) → 0 ≤ j → j < 0 + 1 → is_free one.pages j ≡ false
one_taken zero lo hi = refl
one_taken (suc j) lo hi = absurd (omega arith)

one-Block : Block one 0 1
one-Block = record {
  some_pages = omega arith;
  within = omega arith;
  header = refl;
  taken = one_taken;
}

add_to_print_queue-IsQueue_example :
    (a : ℕ) × (p : Printer) × (m : Memory) × (add_to_print_queue 7 3 fresh_printer four ≡ ok (p, m))
    × IsQueue p (a ∷ []) ((7, 3) ∷ [])
    × Stored m (a ∷ [])
    × Inv m
    × (p.printer_s ≡ 1)
    × (p.printer_buffer ≡ none)
add_to_print_queue-IsQueue_example =
    add_to_print_queue-IsQueue 7 3 0 fresh_printer four [] [] refl four-Inv (omega arith)
      (omega arith) tt empty-IsQueue

abbrev jobs_two : List (ℕ × ℕ)
jobs_two = (2, 4) ∷ (1, 5) ∷ []

pop_from_print_queue-IsQueue_example :
    ((jobs_two ≡ []) × (pop_from_print_queue two_jobs ≡ ok (none, two_jobs)))
    ⊎ ((a : ℕ) × (rest : List ℕ) × (job : ℕ × ℕ) × (later : List (ℕ × ℕ)) × (p : Printer)
        × (node : PrintList) × (8 ∷ 1032 ∷ [] ≡ a ∷ rest)
        × (jobs_two ≡ job ∷ later)
        × (pop_from_print_queue two_jobs ≡ ok (some a, p))
        × IsQueue p rest later
        × (p.nodes a ≡ some node)
        × ((node.time, node.pid) ≡ job))
pop_from_print_queue-IsQueue_example =
    pop_from_print_queue-IsQueue 0 two_jobs (8 ∷ 1032 ∷ []) jobs_two refl two-IsQueue

printer_round-Next_example :
    ((1 < 2)
      × (p : Printer) × (printer_round 1 printing one ≡ ok (1, p, one))
      × IsQueue p (1032 ∷ []) ((1, 5) ∷ [])
      × (p.printer_buffer ≡ some 8)
      × (p.nodes 8 ≡ some (record { time = 1; pid = 4; prox = none }))
      × ((b : ℕ) → b ≢ 8 → p.nodes b ≡ printing.nodes b)
      × (p.head ≡ some 1032)
      × (p.tail ≡ some 1032)
      × (p.printer_s ≡ 1)
      × (p.active ≡ true))
    ⊎ ((2 ≤ 1)
        × (p : Printer) × (m : Memory) × (printer_round 1 printing one ≡ ok (1, p, m))
        × Next (1032 ∷ []) ((1, 5) ∷ []) p
        × Freed one 0 1 m
        × ((b : ℕ) → b ≢ 8 → p.nodes b ≡ printing.nodes b)
        × (p.printer_s ≡ 1)
        × (p.active ≡ true))
printer_round-Next_example =
    printer_round-Next 0 0 0 (record { time = 2; pid = 4; prox = none }) printing one (1032 ∷ [])
      ((1, 5) ∷ []) refl refl refl (λ e. omega arith, tt) printing-IsQueue one-Inv one-Block

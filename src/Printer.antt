-- ===== src/Printer.antt =====
-- src/modules/io/printer.c: the queue of print requests, a linked list of nodes that `c_alloc`
-- gives out, and the loop that prints them.
mod Chain
mod Jobs
mod Requests
mod Loop
mod Tests
use chic_os.Base.{
  ℕ, zero, suc, ◌-◌, Bool, true, false, Option, none, some, ltb, ◌==◌, if◌then◌else◌, Outcome, ok,
  ◌>>=◌, deref, sem_wait, sem_post,
}
use chic_os.Memory.{Memory, c_alloc, c_dealloc}

-- `print_list`
pub record PrintList : Type 0 where
  pub time : ℕ
  pub pid : ℕ
  pub prox : Option ℕ

-- The nodes in the pool by their address.
abbrev pub Nodes : Type 0
Nodes = ℕ → Option PrintList

abbrev pub write : ℕ → PrintList → Nodes → Nodes
write a node nodes x = if x == a then some node else nodes x

pub record Printer : Type 0 where
  pub printer_s : ℕ
  pub head : Option ℕ
  pub tail : Option ℕ
  pub printer_buffer : Option ℕ
  pub active : Bool
  pub nodes : Nodes

unfoldable pub init_printer : Printer → Printer
init_printer p = record p {
  printer_s = 1;
  head = none;
  tail = none;
  active = true;
  printer_buffer = none;
}

-- The list with the node at `a` at its end.
unfoldable pub link : ℕ → Printer → Outcome Printer
link a p = elim p.head [
  | none ↦ ok (record p { head = some a; tail = some a })
  | some h ↦ do
    t ← deref p.tail
    last ← deref (p.nodes t)
    ok (record p { nodes = write t (record last { prox = some a }) p.nodes; tail = some a })
]

-- 16 is the size of a node in bytes.
unfoldable pub add_to_print_queue : ℕ → ℕ → Printer → Memory → Outcome (Printer × Memory)
add_to_print_queue time pid p m = do
  s ← sem_wait p.printer_s
  (ptr, m') ← c_alloc 16 m
  a ← deref ptr
  let node : PrintList = record { time = time; pid = pid; prox = none }
  p' ← link a (record p { nodes = write a node p.nodes })
  ok (record p' { printer_s = sem_post s }, m')

abbrev pub tail_after : Option ℕ → Option ℕ → Option ℕ
tail_after none tail = none
tail_after (some h) tail = tail

unfoldable pub pop_from_print_queue : Printer → Outcome (Option ℕ × Printer)
pop_from_print_queue p = do
  s ← sem_wait p.printer_s
  elim p.head [
    | none ↦ ok (none, record p { printer_s = sem_post s })
    | some h ↦ do
      first ← deref (p.nodes h)
      ok (
        some h,
        record p { head = first.prox; tail = tail_after first.prox p.tail; printer_s = sem_post s },
      )
  ]

unfoldable pub get_print_time : Printer → Outcome (Option ℕ × Printer)
get_print_time p = do
  s ← sem_wait p.printer_s
  ok (p.printer_buffer, record p { printer_s = sem_post s })

unfoldable pub pop_print : Printer → Outcome Printer
pop_print p = do
  (to_print, p') ← pop_from_print_queue p
  ok (record p' { printer_buffer = to_print })

-- A millisecond of the node that is printed.
unfoldable pub print_node : ℕ → Printer → Memory → Outcome (Printer × Memory)
print_node a p m = do
  node ← deref (p.nodes a)
  let time = node.time - 1
  let p' = record p { nodes = write a (record node { time = time }) p.nodes }
  if time == 0
      then (do m' ← c_dealloc (some a) m; ok (record p' { printer_buffer = none }, m'))
      else ok (p', m)

-- The two halves of a round of `printer_loop`. The interrupt `print_finish` is `pop_print`.
unfoldable pub print_current : Printer → Memory → Outcome (Printer × Memory)
print_current p m = elim p.printer_buffer [ none ↦ ok (p, m) | some a ↦ print_node a p m ]

-- With the count of the CPU's semaphore, which `interrupt_control` holds for the interrupt.
abbrev pub pop_if : Option ℕ → ℕ → Printer → Outcome (ℕ × Printer)
pop_if none cpu_s p = ok (cpu_s, p)
pop_if (some h) cpu_s p = do n ← sem_wait cpu_s; p' ← pop_print p; ok (sem_post n, p')

unfoldable pub print_next : ℕ → Printer → Outcome (ℕ × Printer)
print_next cpu_s p = elim p.printer_buffer [ none ↦ pop_if p.head cpu_s p | some a ↦ ok (cpu_s, p) ]

-- One round of `printer_loop`.
unfoldable pub printer_round : ℕ → Printer → Memory → Outcome (ℕ × Printer × Memory)
printer_round cpu_s p m = do
  (p1, m1) ← print_current p m
  (cpu_s', p2) ← print_next cpu_s p1
  ok (cpu_s', p2, m1)

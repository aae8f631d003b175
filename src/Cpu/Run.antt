-- ===== src/Cpu/Run.antt =====
-- `exec_process` on an instruction that takes time.
use chic_os.Base.{
  length, length-modify, ℕ, zero, suc, ◌+◌, ◌-◌, ◌^◌, ◌≤◌, ◌<◌, ◌≡◌, ◌≢◌, refl, sym, ◌∙◌, ap, Bool,
  true, false, some, arith, ltb, ◌==◌, if◌then◌else◌, get_elem?, get_elem?-modify_self,
  get_elem?-modify_ne, get_elem?-set_self, set, modify-set, ok, u8, u32,
}
use chic_os.Utils.{sleep_ms_with_time}
use chic_os.Process
use chic_os.Process.{Process, Instruction, Event}
use chic_os.Scheduler.{time_slice}
use chic_os.Syscall.{System, World, holding_cpu, max_time_more_pages}
use chic_os.Cpu.{
  holding_pcb, current, counted, more_pages, sleep_step, exec_branch, exec_instruction, advance_if,
  advanced, exec_process,
}
use chic_os.Cpu.Cell.{
  with_process, IsFree, with_process-same, holding_pcb-with, holding_cpu-with, current-with,
}

sleep_counts : (n : ℕ) → n < 2 ^ 32 → sleep_ms_with_time n n ≡ 0
unfolding sleep_ms_with_time
sleep_counts zero lt = refl
sleep_counts (suc n) lt = ap (sleep_ms_with_time n) (wraps) ∙ sleep_counts n (omega arith)
  where
    wraps : u32 (suc n + (2 ^ 32 - 1)) ≡ n
    wraps = ground arith

-- For how long the process runs: the rest of the instruction, where that is less than a slice.
abbrev pub slice : Process → Instruction → ℕ
slice p x = if ltb x.remaining_time time_slice then x.remaining_time else p.time_to_run

-- The process when it has run for `time`.
abbrev pub ran : ℕ → Process → Process
ran time p = counted time (record p { time_to_run = 0 })

module _ (w : World) (i : ℕ) (s : System) (free : IsFree i s) where
  sliced :
      (p : Process) (x : Instruction)
      → (if ltb x.remaining_time time_slice
          then holding_pcb (λ p. record p { time_to_run = x.remaining_time }) i (with_process p i s)
          else ok (with_process p i s))
        ≡ ok (with_process (record p { time_to_run = slice p x }) i s)
  sliced p x = go (ltb x.remaining_time time_slice)
    where
      go :
          (b : Bool)
          → (if b
              then holding_pcb
                  (λ p. record p { time_to_run = x.remaining_time })
                  i
                  (with_process p i s)
              else ok (with_process p i s))
            ≡ ok (
                with_process
                  (record p { time_to_run = if b then x.remaining_time else p.time_to_run })
                  i
                  s)
      go true = holding_pcb-with (λ p. record p { time_to_run = x.remaining_time }) p i s free
      go false = refl

  slept :
      (p : Process)
      → p.time_to_run < 2 ^ 32
      → holding_cpu (sleep_step i p.time_to_run) (with_process p i s)
        ≡ ok (with_process (record p { time_to_run = 0 }) i s)
  unfolding sleep_step
  slept p lt =
      holding_cpu-with (sleep_step i p.time_to_run) p (record p { time_to_run = 0 }) i s free
        (ap (λ ps. ok (record s { cpu_s = free.c; pcb = record s.pcb { process_stack = ps } }))
            (modify-set
              (λ (q : Process). record q {
                time_to_run = sleep_ms_with_time p.time_to_run q.time_to_run;
              })
              s.pcb.process_stack i p)
          ∙ ap
              (λ n. ok (record s {
                cpu_s = free.c;
                pcb = record s.pcb {
                  process_stack = set s.pcb.process_stack i (record p { time_to_run = n });
                };
              }))
              (sleep_counts p.time_to_run lt))

  no_more_pages : (time : ℕ) (s' : System) → time < 1000 → more_pages w i time s' ≡ ok s'
  unfolding more_pages
  no_more_pages time s' lt = rw (few) refl
    where
      few : ltb time max_time_more_pages ≡ true
      few = ground arith

  branch_lem :
      (x x1 x2 : Instruction) (p1 p2 : Process) (s0 s1 s2 s3 : System)
      → (if ltb x.remaining_time time_slice
          then holding_pcb (λ p. record p { time_to_run = x.remaining_time }) i s0
          else ok s0)
        ≡ ok s1
      → current i s1 ≡ ok (p1, x1)
      → holding_cpu (sleep_step i p1.time_to_run) s1 ≡ ok s2
      → holding_pcb (counted p1.time_to_run) i s2 ≡ ok s3
      → more_pages w i p1.time_to_run s3 ≡ ok s3
      → current i s3 ≡ ok (p2, x2)
      → exec_branch w i x s0 ≡ ok (x2.remaining_time == 0, s3)
  unfolding exec_branch
  branch_lem x x1 x2 p1 p2 s0 s1 s2 s3 e1 e2 e3 e4 e5 e6 =
      rw (e1) (rw (e2) (rw (e3) (rw (e4) (rw (e5) (rw (e6) refl)))))

  module _ (p : Process) (x : Instruction) (at : get_elem? p.c.it p.c.pc ≡ some x)
      (less : x.remaining_time < 2 ^ 32) (fits : slice p x ≤ x.remaining_time)
      (short : slice p x < 1000) where
    counted-at :
        get_elem? (ran (slice p x) p).c.it p.c.pc
        ≡ some (record x { remaining_time = x.remaining_time - slice p x })
    counted-at =
        get_elem?-modify_self _ p.c.pc p.c.it at
        ∙ ap (λ n. some (record x { remaining_time = n }))
            (takes x.remaining_time (slice p x) fits less)
      where
        takes : (a b : ℕ) → b ≤ a → a < 2 ^ 32 → u32 (a + (2 ^ 32 - b)) ≡ a - b
        takes a b le lt = ground arith

    exec_branch-ran :
        exec_branch w i x (with_process p i s)
        ≡ ok ((x.remaining_time - slice p x) == 0, with_process (ran (slice p x) p) i s)
    exec_branch-ran =
        branch_lem x x _ (record p { time_to_run = slice p x }) (ran (slice p x) p)
          (with_process p i s) _ _ _ (sliced p x)
          (current-with (record p { time_to_run = slice p x }) i s x free at)
          (slept (record p { time_to_run = slice p x }) (omega arith))
          (holding_pcb-with (counted (slice p x)) (record p { time_to_run = 0 }) i s free)
          (no_more_pages (slice p x) _ short)
          (current-with (ran (slice p x) p) i s _ free counted-at)

  pub advance_if-with :
      (b : Bool) (p : Process)
      → advance_if i b (with_process p i s) ≡ with_process (if b then advanced p else p) i s
  advance_if-with true p =
      ap (λ ps. record s { pcb = record s.pcb { process_stack = ps } })
        (modify-set advanced s.pcb.process_stack i p)
  advance_if-with false p = refl

  -- `exec_process` on a process that has time and is not at its end.
  pub exec_process-runs :
      (p : Process) (x : Instruction) (next : Bool) (s' : System)
      → (p.time_to_run == 0) ≡ false
      → (p.c.pc == p.c.last) ≡ false
      → get_elem? p.c.it p.c.pc ≡ some x
      → exec_instruction w i p x x.e (with_process p i s) ≡ ok (next, s')
      → exec_process w i (with_process p i s) ≡ ok (advance_if i next s')
  unfolding exec_process
  exec_process-runs p x next s' time inside at run =
      rw (get_elem?-set_self s.pcb.process_stack i p free.within)
        (rw (time) (rw (inside) (rw (current-with p i s x free at) (rw (run) refl))))

-- What an `exec` does with its process: it runs for its slice, which its time and the instruction
-- lose, and goes on to the next instruction when nothing is left of this one. All else stays.
pub record Ran (p q : Process) (x : Instruction) : Type 0 where
  pub time : q.time_to_run ≡ 0
  pub used : q.h_used ≡ u8 (p.h_used + 1)
  pub left :
      get_elem? q.c.it p.c.pc ≡ some (record x { remaining_time = x.remaining_time - slice p x })
  pub other_code : (j : ℕ) → p.c.pc ≢ j → get_elem? q.c.it j ≡ get_elem? p.c.it j
  pub pc : q.c.pc ≡ (if slice p x == x.remaining_time then u32 (p.c.pc + 1) else p.c.pc)
  pub last : q.c.last ≡ p.c.last
  pub size : q.c.size ≡ p.c.size
  pub lengths : length q.c.it ≡ length p.c.it
  pub same : (q.pid ≡ p.pid) × (q.name ≡ p.name) × (q.status ≡ p.status)
  pub same_space : q.address_space ≡ p.address_space
  pub same_file : q.fb ≡ p.fb

exec_is_branch :
    (w : World) (i : ℕ) (p : Process) (x : Instruction) (s : System)
    → x.e ≡ Process.process_exec
    → exec_instruction w i p x x.e s ≡ exec_branch w i x s
unfolding exec_instruction
exec_is_branch w i p x s is = ap (λ e. exec_instruction w i p x e s) is

-- The process at its next instruction, or where it was.
abbrev moved : Bool → Process → Process
moved b p = record p { c = record p.c { pc = if b then u32 (p.c.pc + 1) else p.c.pc } }

moved_lem : (b : Bool) (p : Process) → (if b then advanced p else p) ≡ moved b p
moved_lem true p = refl
moved_lem false p = refl

same_test : (a b : ℕ) → b ≤ a → ((a - b) == 0) ≡ (b == a)
same_test a b le = ground arith

slice_fits : (p : Process) (x : Instruction) → slice p x < 1000 → slice p x ≤ x.remaining_time
slice_fits p x short = ground arith

-- With both semaphores free, a process that has time and is not at its end, and an `exec` whose
-- slice is shorter than the time that brings more pages, `exec_process` runs the process for that
-- slice: it uses up its time, takes the slice off the instruction, and goes to the next one exactly
-- if the instruction is done. Nothing else of the system changes.
pub exec_process-Ran :
    (w : World) (i : ℕ) (s : System) (p : Process) (x : Instruction)
    → IsFree i s
    → get_elem? s.pcb.process_stack i ≡ some p
    → p.time_to_run ≢ 0
    → p.c.pc ≢ p.c.last
    → get_elem? p.c.it p.c.pc ≡ some x
    → x.e ≡ Process.process_exec
    → x.remaining_time < 2 ^ 32
    → slice p x < 1000
    → (q : Process) × (exec_process w i s ≡ ok (with_process q i s)) × Ran p q x
exec_process-Ran w i s p x free there time inside at is less short =
    let fits = slice_fits p x short in
    let r = ran (slice p x) p in
    let done : Bool = (x.remaining_time - slice p x) == 0 in
    let q = moved done r in
    (
      q,
      ap (exec_process w i) (sym (with_process-same p i s there))
          ∙ exec_process-runs w i s free p x done (with_process r i s) (ground arith) (ground arith)
              at
              (exec_is_branch w i p x (with_process p i s) is
                ∙ exec_branch-ran w i s free p x at less fits short)
          ∙ ap ok (
              advance_if-with w i s free done r
              ∙ ap (λ (q : Process). with_process q i s) (moved_lem done r)),
      record {
        time = refl;
        used = refl;
        left = counted-at w i s free p x at less fits short;
        other_code = λ j ne. get_elem?-modify_ne _ p.c.pc j p.c.it ne;
        pc =
            ap (λ b. if b then u32 (p.c.pc + 1) else p.c.pc)
              (same_test x.remaining_time (slice p x) fits);
        last = refl;
        size = refl;
        lengths = length-modify _ p.c.pc p.c.it;
        same = (refl, refl, refl);
        same_space = refl;
        same_file = refl;
      },
    )

-- ===== src/Cpu/Cell.antt =====
-- One process of the table, in its cell, over the steps of `exec_process`.
use chic_os.Base.{
  ℕ, suc, ◌<◌, ◌≡◌, refl, ap, some, length, get_elem?, get_elem?-set_self, set, set_same,
  modify-set, Outcome, ok,
}
use chic_os.Process.{Process, Instruction}
use chic_os.Syscall.{System, holding_cpu}
use chic_os.Cpu.{holding_pcb, current}

-- The system with the process `p` in cell `i`.
abbrev pub with_process : Process → ℕ → System → System
with_process p i s = record s { pcb = record s.pcb { process_stack = set s.pcb.process_stack i p } }

-- Both semaphores are free, and `i` is a cell of the table.
pub record IsFree (i : ℕ) (s : System) : Type 0 where
  pub c : ℕ
  pub k : ℕ
  pub cpu : s.cpu_s ≡ suc c
  pub table : s.pcb.pcb_s ≡ suc k
  pub within : i < length s.pcb.process_stack

pub with_process-same :
    (p : Process) (i : ℕ) (s : System)
    → get_elem? s.pcb.process_stack i ≡ some p
    → with_process p i s ≡ s
with_process-same p i s e =
    ap (λ ps. record s { pcb = record s.pcb { process_stack = ps } })
      (set_same s.pcb.process_stack i e)

pub holding_pcb-with :
    (f : Process → Process) (p : Process) (i : ℕ) (s : System)
    → IsFree i s
    → holding_pcb f i (with_process p i s) ≡ ok (with_process (f p) i s)
unfolding holding_pcb
holding_pcb-with f p i s free = rw (free.table) (
    rw (get_elem?-set_self s.pcb.process_stack i p free.within) (
      ap (λ ps. ok (record s { pcb = record s.pcb { process_stack = ps; pcb_s = suc free.k } }))
        (modify-set f s.pcb.process_stack i p)))

pub holding_cpu-with :
    (step : System → Outcome System) (p q : Process) (i : ℕ) (s : System)
    → (free : IsFree i s)
    → step (record (with_process p i s) { cpu_s = free.c })
      ≡ ok (record (with_process q i s) { cpu_s = free.c })
    → holding_cpu step (with_process p i s) ≡ ok (with_process q i s)
unfolding holding_cpu
holding_cpu-with step p q i s free run = rw (free.cpu) (rw (run) refl)

pub current-with :
    (p : Process) (i : ℕ) (s : System) (x : Instruction)
    → IsFree i s
    → get_elem? p.c.it p.c.pc ≡ some x
    → current i (with_process p i s) ≡ ok (p, x)
unfolding current
current-with p i s x free e =
    rw (get_elem?-set_self s.pcb.process_stack i p free.within) (rw (e) refl)

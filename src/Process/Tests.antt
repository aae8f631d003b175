-- ===== src/Process/Tests.antt =====
-- process.c on a table with three processes.
use chic_os.Base.{
  ℕ, zero, suc, ◌<◌, ◌≡◌, ◌≢◌, refl, none, some, ◌∷◌, set, ◌>>=◌, arith, replicate, get_elem?,
  modify, subst, ok, fault, some-injective,
}
use chic_os.Memory.{Memory, c_dealloc}
use chic_os.Memory.Release.{Freed}
use chic_os.Memory.Tests.{half, half-Inv, half-Block}
use chic_os.Process.{
  Process, Pcb, blank, blocked, ready, waiting, as_killed, p_find, p_interrupt, p_block, p_unblock,
  p_kill, init_pcb, clear_pcb,
}
use chic_os.Process.Lookup.{FirstWith, p_find-FirstWith, missing_pid, p_block-p_unblock}
use chic_os.Process.Kill.{p_kill-Freed}

abbrev pub first : Process
first = record blank { pid = 1; status = ready; address_space = some 8 }

abbrev pub second : Process
second = record blank { pid = 2; status = waiting; time_to_run = 700 }

abbrev pub three : Pcb
three = record {
  process_stack = first ∷ second ∷ replicate 9 blank;
  curr = 2;
  last = 2;
  last_pid = 2;
  pcb_s = 1;
}

-- A pid of 0 finds the first unused cell.
find_runs : (p_find 2 three ≡ some 1) × (p_find 7 three ≡ none) × (p_find 0 three ≡ some 2)
unfolding p_find
find_runs = (refl, refl, refl)

clear_runs : (m : Memory) × (clear_pcb three.process_stack half ≡ ok m) × (m.free_page_num ≡ 4)
unfolding clear_pcb c_dealloc
clear_runs = (_, refl, refl)

init_runs : init_pcb three ≡ record three { curr = 0; last = 0; last_pid = 0 }
unfolding init_pcb
init_runs = refl

pub second-FirstWith : FirstWith 2 three.process_stack (some 1)
second-FirstWith = (second, refl, refl, before)
  where
    before : (j : ℕ) (q : Process) → j < 1 → get_elem? three.process_stack j ≡ some q → q.pid ≢ 2
    before zero q lt e = subst (λ (r : Process). r.pid ≢ 2) (some-injective e) (λ h. omega arith)
    before (suc j) q lt e = absurd (omega arith)

first-FirstWith : FirstWith 1 three.process_stack (some 0)
first-FirstWith = (first, refl, refl, λ j q lt e. absurd (omega arith))

seven_missing : FirstWith 7 three.process_stack none
unfolding p_find
seven_missing = p_find-FirstWith 7 three

p_find-FirstWith_example : FirstWith 2 three.process_stack (p_find 2 three)
p_find-FirstWith_example = p_find-FirstWith 2 three

missing_pid_example :
    (p_kill 7 three half ≡ ok (three, half))
    × (p_interrupt 7 three ≡ fault)
    × (p_block 7 three ≡ fault)
    × (p_unblock 7 three ≡ fault)
missing_pid_example = missing_pid 7 0 three half refl seven_missing

p_block-p_unblock_example :
    (p_interrupt 2 three
      ≡ ok (record three {
        process_stack = set three.process_stack 1 (record second { time_to_run = 0 });
      }))
    × (p_block 2 three
        ≡ ok (record three {
          process_stack =
              set three.process_stack 1 (record second { status = blocked; time_to_run = 0 });
        }))
    × (p_unblock 2 three
        ≡ ok (record three {
          process_stack = set three.process_stack 1 (record second { status = ready });
        }))
    × (p_block 2 three >>= p_unblock 2
        ≡ ok (record three {
          process_stack =
              set three.process_stack 1 (record second { status = ready; time_to_run = 0 });
        }))
p_block-p_unblock_example = p_block-p_unblock 2 0 1 second three refl second-FirstWith refl

p_kill-Freed_example :
    (m : Memory) × (p_kill 1 three half
      ≡ ok (record three { process_stack = modify as_killed 0 three.process_stack }, m))
    × Freed half 0 2 m
p_kill-Freed_example =
    p_kill-Freed 1 0 0 0 2 three half refl first-FirstWith
      (λ p e. subst (λ (r : Process). r.address_space ≡ some 8) (some-injective e) refl) half-Inv
      half-Block

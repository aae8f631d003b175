-- ===== src/Scheduler/Preferred.antt =====
-- src/modules/scheduler/scheduler.c: which of two processes is preferred.
use chic_os.Base.{
  ℕ, ◌^◌, ◌<◌, ◌≡◌, refl, ◌⊎◌, true, false, Option, none, some, List, arith, get_elem?, ok,
  if◌then◌else◌,
}
use chic_os.Process.{Process, SyntBuffer}
use chic_os.Scheduler.{is_held, preferred, choose}

-- The reads and writes of a process's header.
abbrev pub rw_of : Process → ℕ
rw_of p = elim p.fb [ none ↦ 0 | some h ↦ h.h.rw_count ]

-- The order of the queue: fewer reads and writes, then less time used.
abbrev pub Before : Process → Process → Type 0
Before p q = (rw_of p < rw_of q) ⊎ ((rw_of p ≡ rw_of q) × (p.h_used < q.h_used))

-- What the first `last` cells hold: every process has its header, with a count that is not negative
-- as an `i32`, and the pids grow, which is how `get_pid` gives them out.
pub record IsScheduled (stack : List Process) (last : ℕ) : Type 0 where
  pub cell :
      (j : ℕ)
      → j < last
      → (p : Process) × (h : SyntBuffer) × (get_elem? stack j ≡ some p)
        × (p.fb ≡ some h)
        × (h.h.rw_count < 2 ^ 31)
  pub ordered :
      (i j : ℕ) (p q : Process)
      → i < j
      → j < last
      → get_elem? stack i ≡ some p
      → get_elem? stack j ≡ some q
      → p.pid < q.pid

-- Nothing can run, or the cell that is picked can run, no cell that can run is before it, and it is
-- before those that stand earlier in the table.
abbrev pub Picked : List Process → ℕ → Option ℕ → Type 0
Picked stack n none =
    (j : ℕ) (q : Process) → j < n → get_elem? stack j ≡ some q → is_held q.status ≡ true
Picked stack n (some i) =
    (p : Process) × (i < n)
    × (get_elem? stack i ≡ some p)
    × (is_held p.status ≡ false)
    × ((j : ℕ) (q : Process)
        → j < n
        → get_elem? stack j ≡ some q
        → is_held q.status ≡ false
        → ¬ Before q p)
    × ((j : ℕ) (q : Process)
        → j < i
        → get_elem? stack j ≡ some q
        → is_held q.status ≡ false
        → Before p q)

preferred_yes :
    (c s : Process) (rc rs : ℕ)
    → rc < 2 ^ 31
    → rs < 2 ^ 31
    → s.pid < c.pid
    → preferred c rc s rs ≡ true
    → (rc < rs) ⊎ ((rc ≡ rs) × (c.h_used < s.h_used))
unfolding preferred
preferred_yes c s rc rs lc ls lt h = ground arith

preferred_no :
    (c s : Process) (rc rs : ℕ)
    → rc < 2 ^ 31
    → rs < 2 ^ 31
    → s.pid < c.pid
    → preferred c rc s rs ≡ false
    → ¬ ((rc < rs) ⊎ ((rc ≡ rs) × (c.h_used < s.h_used)))
unfolding preferred
preferred_no c s rc rs lc ls lt h = ground arith

module _ (c s : Process) (hc hs : SyntBuffer) (fc : c.fb ≡ some hc) (fs : s.fb ≡ some hs)
    (lc : hc.h.rw_count < 2 ^ 31) (ls : hs.h.rw_count < 2 ^ 31) (lt : s.pid < c.pid) where
  pub preferred-Before : preferred c hc.h.rw_count s hs.h.rw_count ≡ true → Before c s
  preferred-Before h = rw (fc, fs) (preferred_yes c s hc.h.rw_count hs.h.rw_count lc ls lt h)

  pub preferred-not_Before : preferred c hc.h.rw_count s hs.h.rw_count ≡ false → ¬ Before c s
  preferred-not_Before h = rw (fc, fs) (preferred_no c s hc.h.rw_count hs.h.rw_count lc ls lt h)

pub choose_lem :
    (i j : ℕ) (c s : Process) (hc hs : SyntBuffer) (stack : List Process)
    → get_elem? stack j ≡ some s
    → c.fb ≡ some hc
    → s.fb ≡ some hs
    → choose i c (some j) stack
      ≡ ok (if preferred c hc.h.rw_count s hs.h.rw_count then some i else some j)
unfolding choose
choose_lem i j c s hc hs stack at fc fs = rw (at) (rw (fc, fs) refl)

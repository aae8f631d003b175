-- ===== src/Process/Lookup.antt =====
-- `p_find`, and the operations that use what it returns.
use native.Mathlib.Nat.{add-zero}
use chic_os.Base.{
  ℕ, zero, suc, ◌+◌, ◌<◌, ◌≡◌, ◌≢◌, refl, sym, ◌∙◌, ap, subst, dec_lt, ◌⊎◌, inl, inr, false, Option,
  none, some, List, [], ◌∷◌, arith, get_elem?, ==_iff, ◌==◌, Bool-cases, ok, fault, modify,
  some-injective, set, get_elem?-set_self, get_elem?-set_ne, lt_of_get_elem?, modify_at, modify-set,
  ◌>>=◌,
}
use chic_os.Process.{
  ready, blocked, Process, Pcb, find_pid, find_retry, p_find, update_found, interrupted, as_blocked,
  as_ready, p_interrupt, p_block, p_unblock, p_kill,
}
use chic_os.Memory.{Memory}

-- What a search for `pid` may come to: no process has it, or the first one that has it.
abbrev pub FirstWith : ℕ → List Process → Option ℕ → Type 0
FirstWith pid stack none = (j : ℕ) (q : Process) → get_elem? stack j ≡ some q → q.pid ≢ pid
FirstWith pid stack (some i) =
    (p : Process) × (get_elem? stack i ≡ some p)
    × (p.pid ≡ pid)
    × ((j : ℕ) (q : Process) → j < i → get_elem? stack j ≡ some q → q.pid ≢ pid)

none-cons :
    (pid : ℕ) (p : Process) (ps : List Process)
    → p.pid ≢ pid
    → FirstWith pid ps none
    → FirstWith pid (p ∷ ps) none
none-cons pid p ps ne h zero q e = subst (λ (r : Process). r.pid ≢ pid) (some-injective e) ne
none-cons pid p ps ne h (suc j) q e = h j q e

before-cons :
    (pid k : ℕ) (p : Process) (ps : List Process)
    → p.pid ≢ pid
    → ((j : ℕ) (q : Process) → j < k → get_elem? ps j ≡ some q → q.pid ≢ pid)
    → (j : ℕ) (q : Process) → j < suc k
    → get_elem? (p ∷ ps) j ≡ some q
    → q.pid ≢ pid
before-cons pid k p ps ne h zero q lt e = subst (λ (r : Process). r.pid ≢ pid) (some-injective e) ne
before-cons pid k p ps ne h (suc j) q lt e = h j q (omega arith) e

FirstWith-cons :
    (pid k : ℕ) (p : Process) (ps : List Process)
    → p.pid ≢ pid
    → FirstWith pid ps (some k)
    → FirstWith pid (p ∷ ps) (some (suc k))
FirstWith-cons pid k p ps ne (q, at, same, before) = (q, at, same, before-cons pid k p ps ne before)

pid_differs : (p : Process) (pid : ℕ) → (p.pid == pid) ≡ false → p.pid ≢ pid
pid_differs p pid miss = ground arith

-- The search from cell `i` on; the result is an offset from there.
find_pid_offset :
    (pid i : ℕ) (ps : List Process)
    → ((find_pid pid i ps ≡ none) × FirstWith pid ps none)
      ⊎ ((k : ℕ) × (find_pid pid i ps ≡ some (i + k)) × FirstWith pid ps (some k))
unfolding find_pid
find_pid_offset pid i [] = inl (refl, λ j q e. cc)
find_pid_offset pid i (p ∷ ps) = elim (Bool-cases (p.pid == pid)) [
  | inl hit ↦ inr (
    0,
    rw hit (ap some (sym (add-zero i))),
    (p, refl, (==_iff p.pid pid).0 hit, λ j q lt at. absurd (omega arith)),
  )
  | inr miss ↦ elim (find_pid_offset pid (i + 1) ps) [
    | inl (e, others) ↦ inl (rw miss e, none-cons pid p ps (pid_differs p pid miss) others)
    | inr (k, e, others) ↦ inr (
      suc k,
      rw miss (e ∙ ap some (omega arith)),
      FirstWith-cons pid k p ps (pid_differs p pid miss) others,
    )
  ]
]

find_retry_found :
    (n pid i : ℕ) (stack : List Process)
    → find_pid pid 0 stack ≡ some i
    → find_retry (suc n) pid stack ≡ some i
unfolding find_retry
find_retry_found n pid i stack e = rw (e, find_retry) refl

find_retry_missing :
    (n pid : ℕ) (stack : List Process) → find_pid pid 0 stack ≡ none → find_retry n pid stack ≡ none
unfolding find_retry
find_retry_missing zero pid stack e = refl
find_retry_missing (suc n) pid stack e = rw (e, find_retry) (find_retry_missing n pid stack e)

-- `p_find` returns the first process with that pid, and NULL exactly if there is none.
pub p_find-FirstWith : (pid : ℕ) (t : Pcb) → FirstWith pid t.process_stack (p_find pid t)
unfolding p_find
p_find-FirstWith pid t = elim (find_pid_offset pid 0 t.process_stack) [
  | inl (e, h) ↦
      subst (FirstWith pid t.process_stack) (sym (find_retry_missing 5 pid t.process_stack e)) h
  | inr (k, e, h) ↦
      subst (FirstWith pid t.process_stack)
        (sym (find_retry_found 4 pid k t.process_stack (e ∙ ap some (omega arith)))) h
]

p_find_missing : (pid : ℕ) (t : Pcb) → FirstWith pid t.process_stack none → p_find pid t ≡ none
p_find_missing pid t absent = go (p_find pid t) (p_find-FirstWith pid t)
  where
    go : (o : Option ℕ) → FirstWith pid t.process_stack o → o ≡ none
    go none h = refl
    go (some i) (p, at, same, before) = absurd (absent i p at same)

pub p_find_found :
    (pid i : ℕ) (t : Pcb) → FirstWith pid t.process_stack (some i) → p_find pid t ≡ some i
p_find_found pid i t (p, at, same, before) = go (p_find pid t) (p_find-FirstWith pid t)
  where
    go : (o : Option ℕ) → FirstWith pid t.process_stack o → o ≡ some i
    go none absent = absurd (absent i p at same)
    go (some k) (q, found, named, earlier) = ap some (elim (dec_lt k i) [
      | yes lt ↦ absurd (before k q lt found named)
      | no ge ↦ elim (dec_lt i k) [ yes lt ↦ absurd (earlier i p lt at same) | no le ↦ omega arith ]
    ])

-- For a pid that no process has, `p_kill` changes nothing, while `p_interrupt`, `p_block` and
-- `p_unblock` use the null pointer.
pub missing_pid :
    (pid n : ℕ) (t : Pcb) (m : Memory)
    → t.pcb_s ≡ suc n
    → FirstWith pid t.process_stack none
    → (p_kill pid t m ≡ ok (t, m))
      × (p_interrupt pid t ≡ fault)
      × (p_block pid t ≡ fault)
      × (p_unblock pid t ≡ fault)
unfolding p_kill p_interrupt p_block p_unblock update_found
missing_pid pid n t m lock absent =
    let e = p_find_missing pid t absent in
    (rw (e, p_kill) refl, rw (e, lock) refl, rw (e, lock) refl, rw (e, lock) refl)

-- The three operations change the process that `p_find` returns.
pub found_pid :
    (pid n i : ℕ) (t : Pcb)
    → t.pcb_s ≡ suc n
    → FirstWith pid t.process_stack (some i)
    → (p_interrupt pid t ≡ ok (record t { process_stack = modify interrupted i t.process_stack }))
      × (p_block pid t ≡ ok (record t { process_stack = modify as_blocked i t.process_stack }))
      × (p_unblock pid t ≡ ok (record t { process_stack = modify as_ready i t.process_stack }))
unfolding p_interrupt p_block p_unblock update_found
found_pid pid n i t lock first =
    let e = p_find_found pid i t first in
    (
      rw (e, lock, update_found) refl,
      rw (e, lock, update_found) refl,
      rw (e, lock, update_found) refl,
    )

-- The first process with the pid keeps its place in the table when it changes and keeps its pid.
FirstWith-modify :
    (pid i : ℕ) (p q : Process) (stack : List Process)
    → FirstWith pid stack (some i)
    → get_elem? stack i ≡ some p
    → q.pid ≡ p.pid
    → FirstWith pid (set stack i q) (some i)
FirstWith-modify pid i p q stack (r, found, is, before) there same = (
  q,
  get_elem?-set_self stack i q (lt_of_get_elem? stack i there),
  same ∙ ap (λ (x : Process). x.pid) (some-injective (sym there ∙ found)) ∙ is,
  λ j x lt at. before j x lt (sym (get_elem?-set_ne stack i j q (λ e. omega arith)) ∙ at),
)

abbrev with_cell : ℕ → Process → Pcb → Pcb
with_cell i p t = record t { process_stack = set t.process_stack i p }

-- For a process in the table, the first one with the pid, `p_interrupt` takes its time, `p_block` its
-- time and its turn, and `p_unblock` makes it ready; `p_unblock` after `p_block` does both. Nothing
-- else of the process or of the table changes.
pub p_block-p_unblock :
    (pid n i : ℕ) (p : Process) (t : Pcb)
    → t.pcb_s ≡ suc n
    → FirstWith pid t.process_stack (some i)
    → get_elem? t.process_stack i ≡ some p
    → (p_interrupt pid t
        ≡ ok (record t { process_stack = set t.process_stack i (record p { time_to_run = 0 }) }))
      × (p_block pid t
          ≡ ok (record t {
            process_stack = set t.process_stack i (record p { status = blocked; time_to_run = 0 });
          }))
      × (p_unblock pid t
          ≡ ok (record t { process_stack = set t.process_stack i (record p { status = ready }) }))
      × (p_block pid t >>= p_unblock pid
          ≡ ok (record t {
            process_stack = set t.process_stack i (record p { status = ready; time_to_run = 0 });
          }))
p_block-p_unblock pid n i p t lock first there =
    let (interrupt, block, unblock) = found_pid pid n i t lock first in
    let (b, b', ready_again) =
      found_pid pid n i (with_cell i (as_blocked p) t) lock
        (FirstWith-modify pid i p (as_blocked p) t.process_stack first there refl) in
    (
      interrupt ∙ changed interrupted,
      block ∙ changed as_blocked,
      unblock ∙ changed as_ready,
      ap (λ o. o >>= p_unblock pid) (block ∙ changed as_blocked)
          ∙ ready_again
          ∙ ap (λ ps. ok (record t { process_stack = ps }))
              (modify-set as_ready t.process_stack i (as_blocked p)),
    )
  where
    changed :
        (f : Process → Process)
        → ok (record t { process_stack = modify f i t.process_stack }) ≡ ok (with_cell i (f p) t)
    changed f =
        ap (λ ps. ok (record t { process_stack = ps })) (modify_at f t.process_stack i there)

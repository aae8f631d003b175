-- ===== src/Create/Locks.antt =====
-- The table's semaphore is as it was when a process has been made or given memory.
use chic_os.Base.{
  ℕ, ◌+◌, ◌-◌, ◌*◌, ◌^◌, Bool, true, false, Option, none, some, List, ◌≡◌, sym, ◌∙◌, deref,
  get_elem?, leb, length, u16, u32, Keeps, then-Keeps, any-Keeps, wait-Keeps, ok-Keeps, if_Keeps,
  fault-Keeps,
}
use chic_os.Memory.{Memory, page_size, header_size, get_header, c_alloc, c_dealloc}
use chic_os.Process.{Process, Pcb, max_pcb}
use chic_os.Process.Locks.{p_kill-Keeps}
use chic_os.Semaphore.{SemaphoreList}
use chic_os.Synt.{Contents, max_address_size, open_file, read_header}
use chic_os.Stdio.Scan.{from_start}
use chic_os.Code.{init_code_section}
use chic_os.Create.{
  kill_call, kill_if, cells_of, memory_load_req, started, enter, create_at, process_name, p_create,
  restore, realloc_at, p_realloc,
}

kill_if-Keeps :
    (b : Bool) (cpu_s pid n : ℕ) (t : Pcb) (m : Memory)
    → t.pcb_s ≡ n
    → Keeps (λ (r : Pcb × Memory). r.0.pcb_s ≡ n) (kill_if b cpu_s pid t m)
unfolding kill_call
kill_if-Keeps false cpu_s pid n t m e = ok-Keeps _ e
kill_if-Keeps true cpu_s pid n t m e = wait-Keeps cpu_s _ λ k h. p_kill-Keeps pid n t m e

enter-Keeps :
    (p : Process) (n : ℕ) (t : Pcb) → t.pcb_s ≡ n → Keeps (λ (t' : Pcb). t'.pcb_s ≡ n) (enter p t)
unfolding enter
enter-Keeps p n t e =
    wait-Keeps t.pcb_s _
      λ k h. any-Keeps (deref (get_elem? t.process_stack t.curr)) _ λ old. ok-Keeps _ (sym h ∙ e)

module _ (fopen : List ℕ → Option (List ℕ)) (w : Contents) (cpu_s : ℕ) where
  create_at-Keeps :
      (address : List ℕ) (name : Option (List ℕ)) (p : Process) (n : ℕ) (t : Pcb)
      (sl : SemaphoreList) (m : Memory)
      → t.pcb_s ≡ n
      → Keeps
          (λ (r : Pcb × SemaphoreList × Memory). r.0.pcb_s ≡ n)
          (create_at fopen w cpu_s address name p t sl m)
  unfolding create_at
  create_at-Keeps address name p n t sl m e = any-Keeps (memory_load_req 1024 p m) _ λ (p1, m1).
      any-Keeps (deref name) _ λ called.
        any-Keeps (open_file fopen w (some address) sl m1) _ λ (fb, sl', m2).
          any-Keeps (deref fb) _ λ b. any-Keeps (cells_of w p1.address_space m1) _ λ space.
            any-Keeps (init_code_section (some b.fp) space p1.c) _ λ (kills, c, fp).
              then-Keeps _ _ (kill_if-Keeps kills cpu_s p1.pid n t m2 e) λ (t', m3) e'.
                any-Keeps (deref fp) _
                  λ end. then-Keeps _ _ (enter-Keeps _ n t' e') λ t'' e''. ok-Keeps _ e''

  pub p_create-Keeps :
      (address : List ℕ) (n : ℕ) (t : Pcb) (sl : SemaphoreList) (m : Memory)
      → t.pcb_s ≡ n
      → Keeps
          (λ (r : ℕ × Pcb × SemaphoreList × Memory). r.1.pcb_s ≡ n)
          (p_create fopen w cpu_s address t sl m)
  unfolding p_create
  p_create-Keeps address n t sl m e =
      if_Keeps (leb max_address_size (length address)) _ _ fault-Keeps (
        any-Keeps (process_name address) _ λ name.
          if_Keeps (leb (max_pcb - 1) t.curr) _ _ (ok-Keeps (2 ^ 32 - 1, t, sl, m) e) (
            then-Keeps _ _
              (create_at-Keeps address name (started t.last_pid) n
                (record t { last_pid = u16 (t.last_pid + 1) }) sl m e)
              λ (t', sl', m') e'. ok-Keeps _ e'))

module _ (w : Contents) (cpu_s : ℕ) where
  realloc_at-Keeps :
      (a bytes i n : ℕ) (p : Process) (t : Pcb) (sl : SemaphoreList) (m : Memory)
      → t.pcb_s ≡ n
      → Keeps
          (λ (r : Pcb × SemaphoreList × Memory). r.0.pcb_s ≡ n)
          (realloc_at w cpu_s a bytes i p t sl m)
  unfolding realloc_at
  realloc_at-Keeps a bytes i n p t sl m e = any-Keeps (c_alloc 16 m) _ λ (it, m1).
      any-Keeps (deref (get_elem? p.c.it p.c.pc)) _ λ saved. any-Keeps (deref it) _ λ copy.
        any-Keeps (deref p.fb) _ λ b.
          any-Keeps (read_header w (record b { fp = from_start b.content }) sl m1) _
            λ (b', sl', m2). any-Keeps (c_dealloc (some a) m2) _ λ m3.
              any-Keeps (c_alloc bytes m3) _ λ (buffer, m4).
                any-Keeps (cells_of w buffer m4) _ λ space.
                  any-Keeps (init_code_section (some b'.fp) space p.c) _ λ (kills, c, fp).
                    any-Keeps (deref fp) _ λ end.
                      then-Keeps _ _ (kill_if-Keeps kills cpu_s p.pid n _ m4 e) λ (t', m5) e'.
                        any-Keeps (deref (get_elem? t'.process_stack i)) _ λ p2.
                          any-Keeps (restore p.c saved c) _
                            λ c'. any-Keeps (c_dealloc (some copy) m5) _ λ m6. ok-Keeps _ e'

  pub p_realloc-Keeps :
      (region : Option ℕ) (bytes i n : ℕ) (t : Pcb) (sl : SemaphoreList) (m : Memory)
      → t.pcb_s ≡ n
      → Keeps
          (λ (r : Pcb × SemaphoreList × Memory). r.0.pcb_s ≡ n)
          (p_realloc w cpu_s region bytes i t sl m)
  unfolding p_realloc
  p_realloc-Keeps none bytes i n t sl m e = ok-Keeps _ e
  p_realloc-Keeps (some a) bytes i n t sl m e = any-Keeps (get_header a m) _ λ h.
      any-Keeps (deref (get_elem? t.process_stack i)) _ λ p.
        realloc_at-Keeps a (u32 (u32 (h.page_num * page_size + (2 ^ 32 - header_size)) + bytes)) i n
          p t sl m e

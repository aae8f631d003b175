-- ===== src/Cpu/Locks.antt =====
-- The semaphores of the CPU and of the process table over the operations of cpu.c.
use chic_os.Base.{
  ℕ, zero, suc, ◌+◌, ◌*◌, Bool, true, false, Option, none, some, ◌≡◌, subst, refl, sym, ◌∙◌, ap,
  Outcome, ok, ◌==◌, ◌&&◌, ◌>>=◌, deref, get_elem?, ltb, leb, u32, Keeps, then-Keeps, any-Keeps,
  wait-Keeps, ok-Keeps, if_Keeps,
}
use chic_os.Process
use chic_os.Process.{
  Event, Process, Pcb, Instruction, p_find, p_kill, p_block, p_unblock, p_interrupt, interrupted,
  as_blocked, as_ready,
}
use chic_os.Scheduler.{time_slice}
use chic_os.Scheduler.Locks.{
  scheduler_no_running-Keeps, scheduler_kill_process-Keeps, scheduler_get_process-Keeps,
}
use chic_os.Create.{log_process}
use chic_os.Create.Locks.{p_realloc-Keeps}
use chic_os.Syscall.{
  System, World, Args, serve_call, serve_interrupt, holding_cpu, sys_call, interrupt_control,
  max_time_more_pages,
}
use chic_os.Cpu.{
  holding_pcb, no_args, current, counted, more_pages, sleep_step, exec_branch, count_rw,
  exec_instruction, advance_if, exec_process, run_found, resource, debug_create, cpu_round,
  cpu_rounds,
}
use chic_os.Syscall.Locks.{Locks, serve_call-Keeps, serve_interrupt-Keeps}

holding_cpu-Keeps :
    (c p : ℕ) (step : System → Outcome System) (s : System)
    → ((k : ℕ) (s' : System) → Locks k p s' → Keeps (Locks k p) (step s'))
    → Locks c p s
    → Keeps (Locks c p) (holding_cpu step s)
unfolding holding_cpu
holding_cpu-Keeps c p step s h (ec, ep) = wait-Keeps s.cpu_s _ λ k e.
    then-Keeps (step (record s { cpu_s = k })) _ (h k _ (refl, ep))
      λ s' (ec', ep'). ok-Keeps _ (ap suc ec' ∙ sym e ∙ ec, ep')

module _ (w : World) (c p : ℕ) where
  pub sys_call-Keeps :
      (e : Event) (a : Args) (s : System) → Locks c p s → Keeps (Locks c p) (sys_call w e a s)
  unfolding sys_call
  sys_call-Keeps e a s held =
      holding_cpu-Keeps c p (serve_call w e a) s (λ k s' held'. serve_call-Keeps k p s' held' w e a)
        held

  pub interrupt_control-Keeps :
      (e : Event) (a : Args) (s : System)
      → Locks c p s
      → Keeps (Locks c p) (interrupt_control w e a s)
  unfolding interrupt_control
  interrupt_control-Keeps e a s held =
      holding_cpu-Keeps c p (serve_interrupt w e a) s
        (λ k s' held'. serve_interrupt-Keeps k p s' held' w e a) held

  holding_pcb-Keeps :
      (f : Process → Process) (i : ℕ) (s : System)
      → Locks c p s
      → Keeps (Locks c p) (holding_pcb f i s)
  unfolding holding_pcb
  holding_pcb-Keeps f i s (ec, ep) =
      wait-Keeps s.pcb.pcb_s _ λ k e.
        any-Keeps (deref (get_elem? s.pcb.process_stack i)) _ λ q. ok-Keeps _ (ec, sym e ∙ ep)

  more_pages-Keeps :
      (i time : ℕ) (s : System) → Locks c p s → Keeps (Locks c p) (more_pages w i time s)
  unfolding more_pages
  more_pages-Keeps i time s (ec, ep) =
      if_Keeps (ltb time max_time_more_pages) _ _ (ok-Keeps s (ec, ep)) (
        wait-Keeps s.pcb.pcb_s _ λ k e. any-Keeps (deref (get_elem? s.pcb.process_stack i)) _ λ q.
          then-Keeps _ _
            (p_realloc-Keeps w.contents s.cpu_s q.address_space (u32 (8 + 24 * time)) i k
              (record s.pcb { pcb_s = k }) s.semaphores s.mem refl)
            λ (t, sl, m) e'. ok-Keeps _ (ec, ap suc e' ∙ sym e ∙ ep))

  exec_branch-Keeps :
      (i : ℕ) (x : Instruction) (s : System)
      → Locks c p s
      → Keeps (λ (r : Bool × System). Locks c p r.1) (exec_branch w i x s)
  unfolding exec_branch sleep_step
  exec_branch-Keeps i x s held =
      then-Keeps _ _
        (if_Keeps {Q = Locks c p} (ltb x.remaining_time time_slice) _ _
          (holding_pcb-Keeps (λ q. record q { time_to_run = x.remaining_time }) i s held)
          (ok-Keeps s held))
        λ s1 h1. any-Keeps (current i s1) _ λ (q, x1).
          then-Keeps _ _
            (holding_cpu-Keeps c p (sleep_step i q.time_to_run) s1 (λ k s' held'. ok-Keeps _ held')
              h1)
            λ s2 h2. then-Keeps _ _ (holding_pcb-Keeps (counted q.time_to_run) i s2 h2) λ s3 h3.
              then-Keeps _ _ (more_pages-Keeps i q.time_to_run s3 h3)
                λ s4 h4. any-Keeps (current i s4) _ λ r. ok-Keeps _ h4

  called-Keeps :
      (e : Event) (a : Args) (s : System)
      → Locks c p s
      → Keeps (λ (r : Bool × System). Locks c p r.1) (do s' ← sys_call w e a s; ok (true, s'))
  called-Keeps e a s held =
      then-Keeps (sys_call w e a s) _ (sys_call-Keeps e a s held) λ s' h. ok-Keeps _ h

  count_rw-Keeps : (i k : ℕ) (s : System) → Locks k p s → Keeps (Locks k p) (count_rw i s)
  unfolding count_rw
  count_rw-Keeps i k s held =
      any-Keeps (deref (get_elem? s.pcb.process_stack i)) _
        λ q. any-Keeps (deref q.fb) _ λ b. ok-Keeps _ held

  exec_instruction-Keeps :
      (i : ℕ) (q : Process) (x : Instruction) (e : Event) (s : System)
      → Locks c p s
      → Keeps (λ (r : Bool × System). Locks c p r.1) (exec_instruction w i q x e s)
  unfolding exec_instruction
  exec_instruction-Keeps i q x Process.semaphore_p s held =
      called-Keeps Process.semaphore_p (record no_args { sem = x.sem_name; pid = q.pid }) s held
  exec_instruction-Keeps i q x Process.semaphore_v s held =
      called-Keeps Process.semaphore_v (record no_args { sem = x.sem_name; pid = q.pid }) s held
  exec_instruction-Keeps i q x Process.process_exec s held = exec_branch-Keeps i x s held
  exec_instruction-Keeps i q x Process.disk_request s held =
      then-Keeps _ _ (holding_cpu-Keeps c p (count_rw i) s (count_rw-Keeps i) held) λ s1 h1.
        called-Keeps Process.disk_request (record no_args { pid = q.pid; time = x.remaining_time })
          s1 h1
  exec_instruction-Keeps i q x Process.print_request s held =
      called-Keeps Process.print_request (record no_args { pid = q.pid; time = x.remaining_time }) s
        held
  exec_instruction-Keeps i q x Process.process_interrupt s held = ok-Keeps _ held
  exec_instruction-Keeps i q x Process.process_create s held = ok-Keeps _ held
  exec_instruction-Keeps i q x Process.process_kill s held = ok-Keeps _ held
  exec_instruction-Keeps i q x Process.disk_finish s held = ok-Keeps _ held
  exec_instruction-Keeps i q x Process.mem_load_req s held = ok-Keeps _ held
  exec_instruction-Keeps i q x Process.mem_load_finish s held = ok-Keeps _ held
  exec_instruction-Keeps i q x Process.print_finish s held = ok-Keeps _ held

  advance_if-Locks : (i : ℕ) (b : Bool) (s : System) → Locks c p s → Locks c p (advance_if i b s)
  advance_if-Locks i false s held = held
  advance_if-Locks i true s held = held

  exec_process-Keeps : (i : ℕ) (s : System) → Locks c p s → Keeps (Locks c p) (exec_process w i s)
  unfolding exec_process
  exec_process-Keeps i s held = any-Keeps (deref (get_elem? s.pcb.process_stack i)) _ λ q.
      if_Keeps (q.time_to_run == 0) _ _
        (sys_call-Keeps Process.process_interrupt (record no_args { pid = q.pid }) s held)
        (then-Keeps _ _
          (if_Keeps {Q = Locks c p} (q.c.pc == q.c.last) _ _
            (sys_call-Keeps Process.process_kill (record no_args { pid = q.pid }) s held)
            (ok-Keeps s held))
          λ s1 h1. any-Keeps (current i s1) _ λ (q1, x).
            then-Keeps _ _ (exec_instruction-Keeps i q1 x x.e s1 h1)
              λ (next, s2) h2. ok-Keeps _ (advance_if-Locks i next s2 h2))

  run_found-Keeps : (o : Option ℕ) (s : System) → Locks c p s → Keeps (Locks c p) (run_found w o s)
  run_found-Keeps none s held = ok-Keeps s held
  run_found-Keeps (some i) s held = then-Keeps _ _ (exec_process-Keeps i s held) λ s' h.
      any-Keeps (deref (get_elem? s'.pcb.process_stack i)) _
        λ q. any-Keeps (log_process q.pid s'.pcb) _ λ report. ok-Keeps s' h

  debug_create-Keeps :
      (debug : Bool) (s : System) → Locks c p s → Keeps (Locks c p) (debug_create w debug s)
  unfolding debug_create
  debug_create-Keeps debug s held =
      if_Keeps (debug && (ltb 0 s.quantum_time && leb s.quantum_time 4)) _ _
        (interrupt_control-Keeps Process.process_create
          (record no_args { path = resource s.quantum_time }) s held)
        (ok-Keeps s held)

  cpu_round-Keeps :
      (debug : Bool) (s : System) → Locks c p s → Keeps (Locks c p) (cpu_round w debug s)
  unfolding cpu_round
  cpu_round-Keeps debug s (ec, ep) = then-Keeps _ _ (scheduler_no_running-Keeps p s.pcb ep) λ t1 e1.
      then-Keeps _ _ (scheduler_kill_process-Keeps p t1 e1) λ t2 e2.
        then-Keeps _ _ (scheduler_get_process-Keeps p t2 e2) λ (found, t3) e3.
          then-Keeps _ _ (run_found-Keeps found _ (ec, e3)) λ s1 h1. debug_create-Keeps debug s1 h1

  cpu_rounds-Keeps :
      (n : ℕ) (debug : Bool) (s : System) → Locks c p s → Keeps (Locks c p) (cpu_rounds n w debug s)
  unfolding cpu_rounds
  cpu_rounds-Keeps zero debug s held = ok-Keeps s held
  cpu_rounds-Keeps (suc n) debug s held =
      then-Keeps _ _ (cpu_round-Keeps debug s held) λ s' h. cpu_rounds-Keeps n debug s' h

  -- However many rounds the CPU's loop has run for, and whatever the processes did, the semaphores of
  -- the CPU and of the process table are as they were at first: each wait has its post.
  pub cpu_rounds-Locks :
      (n : ℕ) (debug : Bool) (s s' : System)
      → Locks c p s
      → cpu_rounds n w debug s ≡ ok s'
      → Locks c p s'
  cpu_rounds-Locks n debug s s' held run =
      (subst (Keeps (Locks c p)) run (cpu_rounds-Keeps n debug s held)).holds

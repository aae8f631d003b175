-- ===== src/Syscall/Locks.antt =====
-- The calls of src/modules/cpu/cpu.c give both semaphores back.
use chic_os.Base.{ℕ, List, ◌≡◌, Outcome, deref, get_elem?, Keeps, then-Keeps, any-Keeps, ok-Keeps}
use chic_os.Process
use chic_os.Process.{
  Event, Process, Pcb, Instruction, p_find, p_kill, p_block, p_unblock, p_interrupt, interrupted,
  as_blocked, as_ready,
}
use chic_os.Process.Locks.{update_found-Keeps, p_kill-Keeps}
use chic_os.Semaphore.{get_semaphore_by_name}
use chic_os.Semaphore.Locks.{semaphore_p-Keeps, semaphore_v-Keeps}
use chic_os.Disk.{simulate_io}
use chic_os.Printer.{add_to_print_queue, pop_print}
use chic_os.Stdio.Scan.{scan_word, from_start}
use chic_os.Create.{memory_load_req, log_process}
use chic_os.Create.Locks.{p_create-Keeps}
use chic_os.Syscall.{
  System, World, Args, on_pcb, call_kill, call_create, call_disk, call_load, name_read, call_p,
  call_v, call_print, call_pop, serve_call, serve_interrupt,
}

-- The counts of the two semaphores.
abbrev pub Locks : ℕ → ℕ → System → Type 0
Locks c p s = (s.cpu_s ≡ c) × (s.pcb.pcb_s ≡ p)

on_pcb-Keeps :
    (c p : ℕ) (run : Outcome Pcb) (s : System)
    → s.cpu_s ≡ c
    → Keeps (λ (t : Pcb). t.pcb_s ≡ p) run
    → Keeps (Locks c p) (on_pcb run s)
on_pcb-Keeps c p run s e h = then-Keeps run _ h λ t e'. ok-Keeps _ (e, e')

module _ (c p : ℕ) (s : System) (held : Locks c p s) where
  call_kill-Keeps : (pid : ℕ) → Keeps (Locks c p) (call_kill pid s)
  unfolding call_kill
  call_kill-Keeps pid =
      then-Keeps (p_kill pid s.pcb s.mem) _ (p_kill-Keeps pid p s.pcb s.mem held.1)
        λ r e. ok-Keeps _ (held.0, e)

  call_create-Keeps : (w : World) (path : List ℕ) → Keeps (Locks c p) (call_create w path s)
  unfolding call_create
  call_create-Keeps w path = any-Keeps (deref (scan_word (from_start path)).0) _ λ address.
      then-Keeps _ _
        (p_create-Keeps w.fopen w.contents s.cpu_s address p s.pcb s.semaphores s.mem held.1)
        λ (pid, t, sl, m) e. any-Keeps (log_process pid t) _ λ report. ok-Keeps _ (held.0, e)

  call_disk-Keeps : (pid track : ℕ) → Keeps (Locks c p) (call_disk pid track s)
  unfolding call_disk p_block
  call_disk-Keeps pid track =
      then-Keeps (p_block pid s.pcb) _
        (update_found-Keeps as_blocked (p_find pid s.pcb) s.pcb p held.1)
        λ t e. any-Keeps (simulate_io pid track s.disk) _ λ d. ok-Keeps _ (held.0, e)

  call_load-Keeps : (i bytes : ℕ) → Keeps (Locks c p) (call_load i bytes s)
  unfolding call_load
  call_load-Keeps i bytes =
      any-Keeps (deref (get_elem? s.pcb.process_stack i)) _
        λ q. any-Keeps (memory_load_req bytes q s.mem) _ λ r. ok-Keeps _ held

  call_p-Keeps : (name pid : ℕ) → Keeps (Locks c p) (call_p name pid s)
  unfolding call_p
  call_p-Keeps name pid = any-Keeps (name_read name) _ λ sem.
      then-Keeps _ _
        (semaphore_p-Keeps (get_semaphore_by_name sem s.semaphores) pid p s.semaphores s.pcb held.1)
        λ r e. ok-Keeps _ (held.0, e)

  call_v-Keeps : (name : ℕ) → Keeps (Locks c p) (call_v name s)
  unfolding call_v
  call_v-Keeps name = any-Keeps (name_read name) _ λ sem.
      then-Keeps _ _
        (semaphore_v-Keeps (get_semaphore_by_name sem s.semaphores) p s.semaphores s.pcb held.1)
        λ r e. ok-Keeps _ (held.0, e)

  call_print-Keeps : (time pid : ℕ) → Keeps (Locks c p) (call_print time pid s)
  unfolding call_print
  call_print-Keeps time pid =
      any-Keeps (add_to_print_queue time pid s.printer s.mem) _ λ r. ok-Keeps _ held

  call_pop-Keeps : Keeps (Locks c p) (call_pop s)
  unfolding call_pop
  call_pop-Keeps = any-Keeps (pop_print s.printer) _ λ r. ok-Keeps _ held

  interrupt-Keeps : (pid : ℕ) → Keeps (Locks c p) (on_pcb (p_interrupt pid s.pcb) s)
  unfolding p_interrupt
  interrupt-Keeps pid =
      on_pcb-Keeps c p (p_interrupt pid s.pcb) s held.0
        (update_found-Keeps interrupted (p_find pid s.pcb) s.pcb p held.1)

  unblock-Keeps : (pid : ℕ) → Keeps (Locks c p) (on_pcb (p_unblock pid s.pcb) s)
  unfolding p_unblock
  unblock-Keeps pid =
      on_pcb-Keeps c p (p_unblock pid s.pcb) s held.0
        (update_found-Keeps as_ready (p_find pid s.pcb) s.pcb p held.1)

  pub serve_call-Keeps : (w : World) (e : Event) (a : Args) → Keeps (Locks c p) (serve_call w e a s)
  unfolding serve_call
  serve_call-Keeps w Process.disk_request a = call_disk-Keeps a.pid a.time
  serve_call-Keeps w Process.process_interrupt a = interrupt-Keeps a.pid
  serve_call-Keeps w Process.process_create a = call_create-Keeps w a.path
  serve_call-Keeps w Process.process_kill a = call_kill-Keeps a.pid
  serve_call-Keeps w Process.mem_load_req a = call_load-Keeps a.process a.bytes
  serve_call-Keeps w Process.semaphore_p a = call_p-Keeps a.sem a.pid
  serve_call-Keeps w Process.semaphore_v a = call_v-Keeps a.sem
  serve_call-Keeps w Process.print_request a = call_print-Keeps a.time a.pid
  serve_call-Keeps w Process.print_finish a = call_pop-Keeps
  serve_call-Keeps w Process.disk_finish a = ok-Keeps s held
  serve_call-Keeps w Process.mem_load_finish a = ok-Keeps s held
  serve_call-Keeps w Process.process_exec a = ok-Keeps s held

  pub serve_interrupt-Keeps :
      (w : World) (e : Event) (a : Args) → Keeps (Locks c p) (serve_interrupt w e a s)
  unfolding serve_interrupt
  serve_interrupt-Keeps w Process.disk_finish a = unblock-Keeps a.pid
  serve_interrupt-Keeps w Process.process_interrupt a = interrupt-Keeps a.pid
  serve_interrupt-Keeps w Process.process_create a = call_create-Keeps w a.path
  serve_interrupt-Keeps w Process.process_kill a = call_kill-Keeps a.pid
  serve_interrupt-Keeps w Process.mem_load_finish a = ok-Keeps s held
  serve_interrupt-Keeps w Process.print_request a = call_print-Keeps a.time a.pid
  serve_interrupt-Keeps w Process.print_finish a = call_pop-Keeps
  serve_interrupt-Keeps w Process.disk_request a = ok-Keeps s held
  serve_interrupt-Keeps w Process.mem_load_req a = ok-Keeps s held
  serve_interrupt-Keeps w Process.semaphore_p a = ok-Keeps s held
  serve_interrupt-Keeps w Process.semaphore_v a = ok-Keeps s held
  serve_interrupt-Keeps w Process.process_exec a = ok-Keeps s held

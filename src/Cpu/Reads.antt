-- ===== src/Cpu/Reads.antt =====
-- A process that reads or writes: from `exec_process` over the disk's loop to its interrupt.
use native.Mathlib.Nat.{ℕ_set}
use mathlib.Core.List.{Perm, mem-singleton, mem-cons_self}
use mathlib.Core.List.Perm
use chic_os.Base.{
  ℕ, suc, ◌+◌, ◌≤◌, ◌<◌, ◌≡◌, ◌≢◌, refl, sym, ◌∙◌, ap, subst, true, false, Option, some, List, [],
  ◌∷◌, arith, ltb, length, length-set, get_elem?, get_elem?-set_self, get_elem?-set_ne,
  lt_of_get_elem?, set, take, modify, modify-set, Outcome, ok, u32,
}
use chic_os.Process
use chic_os.Process.{
  Process, Pcb, Instruction, SyntBuffer, Status, blocked, ready, p_block, p_unblock, as_blocked,
  as_ready,
}
use chic_os.Process.Lookup.{FirstWith, found_pid}
use chic_os.Disk.{
  Disk, IoReq, track_of, disk_slice, total_tracks, track_at, simulate_io, q_put, disk_rounds,
}
use chic_os.Disk.Queue.{IsValid, requests}
use chic_os.Disk.Service.{disk_serves_nearest}
use chic_os.Syscall.{
  System, World, sys_call, interrupt_control, serve_call, serve_interrupt, call_disk, holding_cpu,
}
use chic_os.Cpu.{no_args, count_rw, counted_buffer, exec_instruction, advanced, exec_process}
use chic_os.Cpu.Cell.{with_process, IsFree, with_process-same, holding_cpu-with}
use chic_os.Cpu.Run.{exec_process-runs, advance_if-with}

-- A step with the CPU's semaphore held, that may change anything but its count.
holding_cpu-frees :
    (step : System → Outcome System) (s s' : System) (c : ℕ)
    → s.cpu_s ≡ suc c
    → step (record s { cpu_s = c }) ≡ ok (record s' { cpu_s = c })
    → s'.cpu_s ≡ s.cpu_s
    → holding_cpu step s ≡ ok s'
unfolding holding_cpu
holding_cpu-frees step s s' c e run same =
    rw (e) (rw (run) (ap (λ n. ok (record s' { cpu_s = n })) (sym e ∙ sym same)))

FirstWith-set :
    (pid i : ℕ) (stack : List Process) (q : Process)
    → q.pid ≡ pid
    → FirstWith pid stack (some i)
    → FirstWith pid (set stack i q) (some i)
FirstWith-set pid i stack q e (p, at, same, before) = (
  q,
  get_elem?-set_self stack i q (lt_of_get_elem? stack i at),
  e,
  λ j r lt found. before j r lt (sym (get_elem?-set_ne stack i j q (λ h. omega arith)) ∙ found),
)

module _ (w : World) (i : ℕ) (s : System) (free : IsFree i s) where
  count_rw-with :
      (p : Process) (b : SyntBuffer)
      → p.fb ≡ some b
      → holding_cpu (count_rw i) (with_process p i s)
        ≡ ok (with_process (record p { fb = some (counted_buffer b) }) i s)
  unfolding count_rw
  count_rw-with p b e =
      holding_cpu-with (count_rw i) p (record p { fb = some (counted_buffer b) }) i s free
        (rw (get_elem?-set_self s.pcb.process_stack i p free.within) (
          rw (e) (
            ap (λ ps. ok (record s { cpu_s = free.c; pcb = record s.pcb { process_stack = ps } }))
              (modify-set (λ (q : Process). record q { fb = some (counted_buffer b) })
                s.pcb.process_stack i (record p { fb = some b })))))

  disk_call-with :
      (p : Process) (track : ℕ) (d : Disk)
      → FirstWith p.pid s.pcb.process_stack (some i)
      → simulate_io p.pid track s.disk ≡ ok d
      → sys_call w Process.disk_request
          (record no_args { pid = p.pid; time = track })
          (with_process p i s)
        ≡ ok (with_process (as_blocked p) i (record s { disk = d }))
  unfolding sys_call serve_call call_disk
  disk_call-with p track d first put =
      holding_cpu-frees _ (with_process p i s)
        (with_process (as_blocked p) i (record s { disk = d })) free.c free.cpu
        (rw (blocks) (
          rw (put) (
            ap
              (λ ps.
                ok (record s {
                  cpu_s = free.c;
                  pcb = record s.pcb { process_stack = ps };
                  disk = d;
                }))
              (modify-set as_blocked s.pcb.process_stack i p))))
        refl
    where
      t : Pcb
      t = record s.pcb { process_stack = set s.pcb.process_stack i p }

      blocks :
          p_block p.pid t ≡ ok (record t { process_stack = modify as_blocked i t.process_stack })
      blocks =
          (found_pid p.pid free.k i t free.table
            (FirstWith-set p.pid i s.pcb.process_stack p refl first)).1

  unblock-with :
      (p : Process)
      → FirstWith p.pid s.pcb.process_stack (some i)
      → interrupt_control w Process.disk_finish
          (record no_args { pid = p.pid })
          (with_process p i s)
        ≡ ok (with_process (as_ready p) i s)
  unfolding interrupt_control serve_interrupt
  unblock-with p first =
      holding_cpu-frees _ (with_process p i s) (with_process (as_ready p) i s) free.c free.cpu
        (rw (unblocks) (
          ap (λ ps. ok (record s { cpu_s = free.c; pcb = record s.pcb { process_stack = ps } }))
            (modify-set as_ready s.pcb.process_stack i p)))
        refl
    where
      t : Pcb
      t = record s.pcb { process_stack = set s.pcb.process_stack i p }

      unblocks :
          p_unblock p.pid t ≡ ok (record t { process_stack = modify as_ready i t.process_stack })
      unblocks =
          (found_pid p.pid free.k i t free.table
            (FirstWith-set p.pid i s.pcb.process_stack p refl first)).2

  -- The switch of `exec_process` on `disk_request`.
  exec_instruction-disk :
      (p : Process) (x : Instruction) (b : SyntBuffer) (d : Disk)
      → x.e ≡ Process.disk_request
      → p.fb ≡ some b
      → FirstWith p.pid s.pcb.process_stack (some i)
      → simulate_io p.pid x.remaining_time s.disk ≡ ok d
      → exec_instruction w i p x x.e (with_process p i s)
        ≡ ok (
          true,
          with_process
              (as_blocked (record p { fb = some (counted_buffer b) }))
              i
              (record s { disk = d }),
        )
  unfolding exec_instruction
  exec_instruction-disk p x b d is has first put =
      ap (λ e. exec_instruction w i p x e (with_process p i s)) is
      ∙ rw (count_rw-with p b has) (
          rw
            (disk_call-with (record p { fb = some (counted_buffer b) }) x.remaining_time d first
              put)
            refl)

-- The disk that had no request, with this one.
abbrev put_first : ℕ → ℕ → Disk → Disk
put_first pid track d = record d {
  queue = set d.queue 0 (record { id = pid; time_to_run = disk_slice; track = track });
  len = 1;
}

simulate_io-first :
    (pid track : ℕ) (d : Disk)
    → IsValid d
    → d.len ≡ 0
    → track ≤ total_tracks
    → simulate_io pid track d ≡ ok (put_first pid track d)
unfolding simulate_io q_put
simulate_io-first pid track d v none_yet exists = rw (there) (rw (space) (rw (none_yet) refl))
  where
    there : ltb total_tracks track ≡ false
    there = ground arith

    space : ltb d.len (length d.queue) ≡ true
    space = ground (arith, v.cells, none_yet)

take-set_first :
    (q : List IoReq) (r : IoReq)
    → 0 < length q
    → (take 1 (set q 0 r) ≡ r ∷ []) × (get_elem? (set q 0 r) 0 ≡ some r)
take-set_first [] r h = absurd (omega arith)
take-set_first (x ∷ q) r h = (refl, refl)

only_id : (r r' : IoReq) (rest : List IoReq) → Perm (r ∷ []) (r' ∷ rest) → r'.id ≡ r.id
only_id r r' rest p =
    (mem-singleton ℕ_set).0 ((Perm.mem_iff (Perm.map (λ (x : IoReq). x.id) p)).1 mem-cons_self)

-- The disk that had no request raises the interrupt for this one.
put_first_served :
    (pid track : ℕ) (d : Disk)
    → IsValid d
    → d.current_track ≤ total_tracks
    → track ≤ total_tracks
    → (n : ℕ) × (d' : Disk) × (disk_rounds n (put_first pid track d) ≡ ok (some pid, d'))
put_first_served pid track d v on exists =
    let new : IoReq = record { id = pid; time_to_run = disk_slice; track = track } in
    let d1 = put_first pid track d in
    let (only, first) = take-set_first d.queue new (omega (arith, v.cells)) in
    let (r, d', run, same, nearest, v', at, silent) =
      disk_serves_nearest d1
        (record { cells = length-set d.queue 0 new ∙ v.cells; fits = omega arith; free = v.free })
        (
          on,
          λ j lt.
              subst (λ k. track_at d1.queue k ≤ total_tracks) (omega arith)
                (subst (λ (o : Option IoReq). track_of o ≤ total_tracks) (sym first) exists),
        )
        (omega arith) in
    let named = only_id new r (requests d') (subst (λ l. Perm l (r ∷ requests d')) only same) in
    (_, d', run ∙ ap (λ id. ok (some id, d')) named)

-- A process that reads or writes on an idle disk. With both semaphores free, a process that has
-- time, is the first with its pid and stands at a read or a write of a track that there is,
-- `exec_process` blocks it, counts the access in its header and goes to its next instruction, and
-- some number of rounds of the disk's loop later the disk raises the interrupt for it, on which
-- `interrupt_control` makes it ready.
pub disk_request_completes :
    (w : World) (i : ℕ) (s : System) (p : Process) (x : Instruction) (b : SyntBuffer)
    → IsFree i s
    → FirstWith p.pid s.pcb.process_stack (some i)
    → get_elem? s.pcb.process_stack i ≡ some p
    → p.time_to_run ≢ 0
    → p.c.pc ≢ p.c.last
    → get_elem? p.c.it p.c.pc ≡ some x
    → x.e ≡ Process.disk_request
    → x.remaining_time ≤ total_tracks
    → p.fb ≡ some b
    → IsValid s.disk
    → s.disk.len ≡ 0
    → s.disk.current_track ≤ total_tracks
    → (q : Process) × (d : Disk) × (n : ℕ) × (d' : Disk) × (exec_process w i s
        ≡ ok (with_process q i (record s { disk = d })))
      × (q.status ≡ blocked)
      × (q.c.pc ≡ u32 (p.c.pc + 1))
      × (q.fb ≡ some (counted_buffer b))
      × (disk_rounds n d ≡ ok (some p.pid, d'))
      × (interrupt_control w Process.disk_finish
            (record no_args { pid = p.pid })
            (with_process q i (record s { disk = d' }))
          ≡ ok (with_process (as_ready q) i (record s { disk = d' })))
disk_request_completes w i s p x b free first there time inside at is exists has v none_yet on =
    let d = put_first p.pid x.remaining_time s.disk in
    let (n, d', served) = put_first_served p.pid x.remaining_time s.disk v on exists in
    let q = advanced (as_blocked (record p { fb = some (counted_buffer b) })) in
    let put = simulate_io-first p.pid x.remaining_time s.disk v none_yet exists in
    (
      q,
      d,
      n,
      d',
      ap (exec_process w i) (sym (with_process-same p i s there))
          ∙ exec_process-runs w i s free p x true _ (ground arith) (ground arith) at
              (exec_instruction-disk w i s free p x b d is has first put)
          ∙ ap ok (
              advance_if-with w i (record s { disk = d }) (still_free d) true
                (as_blocked (record p { fb = some (counted_buffer b) }))),
      refl,
      refl,
      refl,
      served,
      unblock-with w i (record s { disk = d' }) (still_free d') q first,
    )
  where
    still_free : (d : Disk) → IsFree i (record s { disk = d })
    still_free d = record {
      c = free.c;
      k = free.k;
      cpu = free.cpu;
      table = free.table;
      within = free.within;
    }

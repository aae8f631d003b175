-- ===== src/Create/Realloc.antt =====
-- `p_realloc` on a process that was made from a well-formed file.
use chic_os.Base.{
  ℕ, ◌+◌, ◌-◌, ◌*◌, ◌^◌, ◌≤◌, ◌<◌, ◌≡◌, ◌≢◌, refl, sym, ◌∙◌, ap, false, some, List, ◌∷◌, ◌++◌,
  arith, length, get_elem?, get_elem?-lt, tabulate, length-tabulate, lt_of_get_elem?,
  get_elem?-set_self, get_elem?-set_ne, set, set-set, ok, u32,
}
use chic_os.Memory.{Memory, AllocHeader, page_size, header_size, get_header, c_alloc, c_dealloc}
use chic_os.Stdio.{File}
use chic_os.Stdio.Scan.{from_start}
use chic_os.Process.{Process, Pcb, SyntBuffer, CodeSection, Instruction}
use chic_os.Semaphore.{SemaphoreList}
use chic_os.Synt.{Contents, read_header}
use chic_os.Synt.Header.{
  HeaderText, IsHeader, written, header_of, unspaced, init_all, read_header-written,
}
use chic_os.Code.{init_code_section}
use chic_os.Code.Line.{Lacks}
use chic_os.Code.Commands.{Command, meaning}
use chic_os.Code.Load.{text, AllCommands}
use chic_os.Code.Section.{init_code_section-Read}
use chic_os.Create.{restore, realloc_at, p_realloc, cells_of, room_in}

module _ (w : Contents) (cpu_s a bytes i : ℕ) where
  realloc_at_lem :
      (it buffer : ℕ) (p : Process) (saved there : Instruction) (b b' : SyntBuffer)
      (block : AllocHeader) (c : CodeSection) (end : File) (t : Pcb) (sl sl' : SemaphoreList)
      (m m1 m2 m3 m4 m5 : Memory)
      → i < length t.process_stack
      → c_alloc 16 m ≡ ok (some it, m1)
      → get_elem? p.c.it p.c.pc ≡ some saved
      → p.fb ≡ some b
      → read_header w (record b { fp = from_start b.content }) sl m1 ≡ ok (b', sl', m2)
      → c_dealloc (some a) m2 ≡ ok m3
      → c_alloc bytes m3 ≡ ok (some buffer, m4)
      → get_header buffer m4 ≡ ok block
      → init_code_section
          (some b'.fp)
          (some (tabulate (room_in block.page_num) (w.cells buffer)))
          p.c
        ≡ ok (false, c, some end)
      → get_elem? c.it p.c.pc ≡ some there
      → c_dealloc (some it) m4 ≡ ok m5
      → realloc_at w cpu_s a bytes i p t sl m
        ≡ ok (
          record t {
            process_stack = set t.process_stack i (record p {
              address_space = some buffer;
              fb = some (record b' { fp = end });
              c = record {
                it = set c.it p.c.pc saved;
                pc = p.c.pc;
                size = p.c.size;
                last = p.c.last;
              };
            });
          },
          sl',
          m5,
        )
  unfolding realloc_at restore cells_of
  realloc_at_lem it buffer p saved there b b' block c end t sl sl' m m1 m2 m3 m4 m5 lt e1 e2 e3 e4
        e5 e6 eh e7 e8 e9 =
      rw (e1) (
        rw (e2) (
          rw (e3) (
            rw (e4) (
              rw (e5) (
                rw (e6) (
                  rw (eh) (
                    rw (e7) (
                      rw
                        (get_elem?-set_self t.process_stack i
                          (record p {
                            address_space = some buffer;
                            fb = some (record b' { fp = end });
                          })
                          lt)
                        (rw (e8) (
                          rw (e9) (
                            ap (λ ps. ok (record t { process_stack = ps }, sl', m5))
                              (set-set t.process_stack i _ _))))))))))))

  p_realloc_lem :
      (h : AllocHeader) (more : ℕ) (p : Process) (t t' : Pcb) (sl sl' : SemaphoreList)
      (m m' : Memory)
      → get_header a m ≡ ok h
      → get_elem? t.process_stack i ≡ some p
      → bytes ≡ u32 (u32 (h.page_num * page_size + (2 ^ 32 - header_size)) + more)
      → realloc_at w cpu_s a bytes i p t sl m ≡ ok (t', sl', m')
      → p_realloc w cpu_s (some a) more i t sl m ≡ ok (t', sl', m')
  unfolding p_realloc
  p_realloc_lem h more p t t' sl sl' m m' e1 e2 e3 e4 =
      rw (e1) (rw (e2) (ap (λ n. realloc_at w cpu_s a n i p t sl m) (sym e3) ∙ e4))

-- What `p_realloc` makes of the process `p` that runs these commands.
pub record Restored (p q : Process) (buffer : ℕ) (saved : Instruction) (h : HeaderText)
    (cmds : List Command) : Type 0 where
  pub b : SyntBuffer
  pub file : q.fb ≡ some b
  pub header : b.h ≡ header_of h
  pub space : q.address_space ≡ some buffer
  pub place : (q.c.pc ≡ p.c.pc) × (q.c.last ≡ p.c.last) × (q.c.size ≡ p.c.size)
  pub current : get_elem? q.c.it p.c.pc ≡ some saved
  pub others :
      (k : ℕ) (cmd : Command)
      → p.c.pc ≢ k
      → get_elem? cmds k ≡ some cmd
      → (pos : ℕ) × (old : Instruction) × (get_elem? q.c.it k ≡ some (meaning cmd pos old))
  pub same : (q.pid ≡ p.pid) × (q.status ≡ p.status) × (q.time_to_run ≡ p.time_to_run)

-- For a process whose file holds a well-formed header, one line that is skipped and commands, and
-- which stands at one of them, with the memory that the calls ask for and room for the commands in the new block, `p_realloc` moves the process
-- to a new block: it stands at the same instruction, with what is left of that one, the others are
-- the file's commands again, and the header is the file's again, so that no reads and writes are
-- counted any more. The other processes stay.
pub p_realloc-Restored :
    (w : Contents) (cpu_s a more i it buffer hd : ℕ) (ah bh : AllocHeader) (p : Process)
    (saved : Instruction) (b : SyntBuffer) (s : List ℕ) (h : HeaderText) (cmds : List Command)
    (t : Pcb) (sl sl' : SemaphoreList) (m m1 m2 m3 m4 m5 m6 : Memory)
    → get_elem? t.process_stack i ≡ some p
    → get_elem? p.c.it p.c.pc ≡ some saved
    → p.fb ≡ some b
    → b.content ≡ written h (s ++ (10 ∷ text cmds))
    → get_header a m ≡ ok ah
    → c_alloc 16 m ≡ ok (some it, m1)
    → c_alloc 400 m1 ≡ ok (some hd, m2)
    → init_all w.waiters (unspaced h.semaphores) sl m2 ≡ ok (sl', m3)
    → c_dealloc (some a) m3 ≡ ok m4
    → c_alloc (u32 (u32 (ah.page_num * page_size + (2 ^ 32 - header_size)) + more)) m4
      ≡ ok (some buffer, m5)
    → get_header buffer m5 ≡ ok bh
    → c_dealloc (some it) m5 ≡ ok m6
    → IsHeader h
    → Lacks 10 s
    → length s < 15
    → AllCommands cmds
    → length cmds ≤ room_in bh.page_num
    → p.c.pc < length cmds
    → (q : Process) × (p_realloc w cpu_s (some a) more i t sl m
        ≡ ok (record t { process_stack = set t.process_stack i q }, sl', m6))
      × Restored p q buffer saved h cmds
p_realloc-Restored w cpu_s a more i it buffer hd ah bh p saved b s h cmds t sl sl' m m1 m2 m3 m4 m5
      m6 there now file content head got1 got2 run freed1 got3 blocked freed2 ish l line all cells
      inside =
    let bytes = u32 (u32 (ah.page_num * page_size + (2 ^ 32 - header_size)) + more) in
    let (fp, read, (at, open_yet)) =
      read_header-written w (record b { fp = from_start b.content }) h (s ++ (10 ∷ text cmds)) sl
        sl' m1 m2 m3 hd ish (content, refl) got2 run in
    let (c, end, loaded, is_last, is_pc, (before, code)) =
      init_code_section-Read s cmds fp (tabulate (room_in bh.page_num) (w.cells buffer)) p.c l line
        all open_yet at
        (omega (arith, cells, length-tabulate (room_in bh.page_num) (w.cells buffer))) in
    let (cmd, is_cmd) = get_elem?-lt cmds p.c.pc inside in
    let (pos, old, found) = code p.c.pc cmd is_cmd in
    let found' : get_elem? c.it p.c.pc ≡ some (meaning cmd pos old) =
      ap (get_elem? c.it) (omega arith) ∙ found in
    (
      _,
      p_realloc_lem w cpu_s a bytes i ah more p t _ sl sl' m m6 head there refl (
          realloc_at_lem w cpu_s a bytes i it buffer p saved (meaning cmd pos old) b _ bh c end t sl
            sl' m m1 m3 m4 m5 m6 (lt_of_get_elem? t.process_stack i there) got1 now file read freed1
            got3 blocked loaded found' freed2),
      record {
        b = _;
        file = refl;
        header = refl;
        space = refl;
        place = (refl, refl, refl);
        current = get_elem?-set_self c.it p.c.pc saved (lt_of_get_elem? c.it p.c.pc found');
        others = λ k cmd ne e.
            let (pos, old, at_k) = code k cmd e in
            (
              pos,
              old,
              get_elem?-set_ne c.it p.c.pc k saved ne ∙ ap (get_elem? c.it) (omega arith) ∙ at_k,
            );
        same = (refl, refl, refl);
      },
    )

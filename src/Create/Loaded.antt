-- ===== src/Create/Loaded.antt =====
-- `p_create` on a well-formed file.
use chic_os.Base.{
  ℕ, suc, ◌+◌, ◌-◌, ◌≤◌, ◌<◌, ◌≡◌, ◌≢◌, refl, sym, ◌∙◌, subst, inl, inr, false, Option, none, some,
  tabulate, length-tabulate, Outcome, exits, fault, ok-injective, List, ◌∷◌, ◌++◌, arith, leb,
  length, get_elem?, get_elem?-lt, get_elem?-set_self, get_elem?-set_ne, set, ok, u8, u16,
}
use chic_os.Memory.{Memory, AllocHeader, c_alloc, get_header}
use chic_os.Memory.Invariant.{Inv}
use chic_os.Memory.Alloc.{c_alloc-Allocated}
use chic_os.Memory.Release.{get_header_lem}
use chic_os.Stdio.{File}
use chic_os.Stdio.Scan.{from_start}
use chic_os.Process.{Process, Pcb, SyntBuffer, CodeSection, Instruction, new, max_pcb}
use chic_os.Scheduler.{time_slice}
use chic_os.Semaphore.{SemaphoreList}
use chic_os.Synt.{Contents, max_address_size, read_header, open_at, open_file}
use chic_os.Synt.Header.{
  HeaderText, IsHeader, written, header_of, unspaced, init_all, read_header-written,
}
use chic_os.Code.{init_code_section}
use chic_os.Code.Line.{Lacks}
use chic_os.Code.Commands.{Command}
use chic_os.Code.Load.{text, AllCommands, Read}
use chic_os.Code.Section.{init_code_section-Read}
use chic_os.Create.{
  started, memory_load_req, enter, process_name, create_at, p_create, cells_of, room_in,
}

module _ (fopen : List ℕ → Option (List ℕ)) (w : Contents) (address : List ℕ) where
  open_file-opens :
      (content : List ℕ) (block : ℕ) (b : SyntBuffer) (sl sl' : SemaphoreList) (m m1 m' : Memory)
      → length address < 4096
      → c_alloc 4120 m ≡ ok (some block, m1)
      → fopen address ≡ some content
      → read_header w
          (record {
            fp = from_start content;
            content = content;
            h = w.header;
            address = address;
            block = block;
            h_block = 0;
          })
          sl
          m1
        ≡ ok (b, sl', m')
      → open_file fopen w (some address) sl m ≡ ok (some b, sl', m')
  unfolding open_file open_at
  open_file-opens content block b sl sl' m m1 m' short got opened read =
      rw (got) (rw (fits) (rw (opened, open_at) (rw (read) refl)))
    where
      fits : leb max_address_size (length address) ≡ false
      fits = ground arith

  create_at-enters :
      (cpu_s a k : ℕ) (name : List ℕ) (p old : Process) (t : Pcb) (sl sl' : SemaphoreList)
      (m m1 m2 : Memory) (b : SyntBuffer) (block : AllocHeader) (c : CodeSection) (end : File)
      → c_alloc 1024 m ≡ ok (some a, m1)
      → open_file fopen w (some address) sl m1 ≡ ok (some b, sl', m2)
      → get_header a m1 ≡ ok block
      → init_code_section (some b.fp) (some (tabulate (room_in block.page_num) (w.cells a))) p.c
        ≡ ok (false, c, some end)
      → t.pcb_s ≡ suc k
      → get_elem? t.process_stack t.curr ≡ some old
      → create_at fopen w cpu_s address (some name) p t sl m
        ≡ ok (
          record t {
            process_stack = set t.process_stack t.curr (record p {
              name = name;
              address_space = some a;
              fb = some (record b { fp = end });
              c = c;
            });
            curr = u8 (t.curr + 1);
            last = u8 (t.last + 1);
            pcb_s = suc k;
          },
          sl',
          m2,
        )
  unfolding create_at memory_load_req enter cells_of
  create_at-enters cpu_s a k name p old t sl sl' m m1 m2 b block c end e1 e2 eh e3 e4 e5 =
      rw (e1) (rw (e2) (rw (eh) (rw (e3) (rw (e4) (rw (e5) refl)))))

  p_create-enters :
      (cpu_s : ℕ) (name : List ℕ) (t t' : Pcb) (sl sl' : SemaphoreList) (m m' : Memory)
      → length address < 4096
      → process_name address ≡ ok (some name)
      → t.curr < 10
      → create_at fopen w cpu_s address
          (some name)
          (started t.last_pid)
          (record t { last_pid = u16 (t.last_pid + 1) })
          sl
          m
        ≡ ok (t', sl', m')
      → p_create fopen w cpu_s address t sl m ≡ ok (t.last_pid, t', sl', m')
  unfolding p_create
  p_create-enters cpu_s name t t' sl sl' m m' short called room run =
      rw (fits) (rw (called) (rw (free) (rw (run) refl)))
    where
      fits : leb max_address_size (length address) ≡ false
      fits = ground arith

      free : leb (max_pcb - 1) t.curr ≡ false
      free = ground arith

-- What `p_create` does with the table, for a file with this header and these commands.
pub record Created (t t' : Pcb) (name : List ℕ) (a : ℕ) (cells : List Instruction) (h : HeaderText)
    (cmds : List Command) : Type 0 where
  pub p : Process
  pub b : SyntBuffer
  pub entered : get_elem? t'.process_stack t.curr ≡ some p
  pub others : (j : ℕ) → t.curr ≢ j → get_elem? t'.process_stack j ≡ get_elem? t.process_stack j
  pub pid : p.pid ≡ t.last_pid
  pub status : p.status ≡ new
  pub called : p.name ≡ name
  pub time : p.time_to_run ≡ time_slice
  pub space : p.address_space ≡ some a
  pub buffer : p.fb ≡ some b
  pub header : b.h ≡ header_of h
  pub pc : p.c.pc ≡ 0
  pub last : p.c.last ≡ length cmds
  pub code : Read 0 cmds cells p.c.it
  pub counts : (t'.curr ≡ u8 (t.curr + 1)) × (t'.last ≡ u8 (t.last + 1))
  pub next_pid : t'.last_pid ≡ u16 (t.last_pid + 1)
  pub lock : t'.pcb_s ≡ t.pcb_s

-- The block for a process has two pages.
process_block :
    (m m1 : Memory) (a : ℕ)
    → Inv m
    → 1024 < m.size
    → 2 ≤ m.free_page_num
    → c_alloc 1024 m ≡ ok (some a, m1)
    → (id : ℕ) × (get_header a m1 ≡ ok (record { id = id; page_num = 2 }))
process_block m m1 a v fits enough got =
    elim (c_alloc-Allocated m 1024 v (omega arith) fits enough) [
      | inl (i, m', run, placed, first) ↦
          (let same = ok-injective (sym run ∙ got) in
            (
              i,
              subst
                  (λ (r : Option ℕ × Memory).
                    get_header_at r ≡ ok (record { id = i; page_num = 2 }))
                  same (get_header_lem i m' _ placed.block.header),
            ))
      | inr (ends, none_fits) ↦ absurd (not_ok (sym ends ∙ got))
    ]
  where
    get_header_at : Option ℕ × Memory → Outcome AllocHeader
    get_header_at (none, m) = fault
    get_header_at (some a, m) = get_header a m

    not_ok : {r : Option ℕ × Memory} → exits ≡ ok r → ⊥
    not_ok e = cc

-- With the memory's invariant, room in the table, its semaphore free, and memory for the process, its
-- buffer, its header and its semaphores, `p_create` on a path of less than 4096 bytes, each of its
-- parts of less than 16 and the last one with a name, to a file that holds a well-formed header, one
-- line of at most 14 bytes that is skipped, and at most 127 commands, a line each, enters a new
-- process at `curr`: it has the next pid, the header of the file, and the commands as its code in its
-- block of two pages, from the first on. The other cells stay.
pub p_create-Created :
    (fopen : List ℕ → Option (List ℕ)) (w : Contents) (cpu_s k a block hd : ℕ)
    (address name s : List ℕ) (h : HeaderText) (cmds : List Command) (t : Pcb)
    (sl sl' : SemaphoreList) (m m1 m2 m3 m4 : Memory)
    → length address < 4096
    → process_name address ≡ ok (some name)
    → t.curr < 10
    → t.curr < length t.process_stack
    → t.pcb_s ≡ suc k
    → Inv m
    → 1024 < m.size
    → 2 ≤ m.free_page_num
    → c_alloc 1024 m ≡ ok (some a, m1)
    → c_alloc 4120 m1 ≡ ok (some block, m2)
    → fopen address ≡ some (written h (s ++ (10 ∷ text cmds)))
    → c_alloc 400 m2 ≡ ok (some hd, m3)
    → init_all w.waiters (unspaced h.semaphores) sl m3 ≡ ok (sl', m4)
    → IsHeader h
    → Lacks 10 s
    → length s < 15
    → AllCommands cmds
    → length cmds ≤ 127
    → (t' : Pcb) × (p_create fopen w cpu_s address t sl m ≡ ok (t.last_pid, t', sl', m4))
      × Created t t' name a (tabulate 127 (w.cells a)) h cmds
p_create-Created fopen w cpu_s k a block hd address name s h cmds t sl sl' m m1 m2 m3 m4 short
      called room within free v fits enough got1 got2 opened got3 run ish l line all cells =
    let content = written h (s ++ (10 ∷ text cmds)) in
    let (fp, read, (at, open_yet)) =
      read_header-written w
        (record {
          fp = from_start content;
          content = content;
          h = w.header;
          address = address;
          block = block;
          h_block = 0;
        })
        h (s ++ (10 ∷ text cmds)) sl sl' m2 m3 m4 hd ish (refl, refl) got3 run in
    let (c, end, loaded, is_last, is_pc, code) =
      init_code_section-Read s cmds fp (tabulate 127 (w.cells a)) (started t.last_pid).c l line all
        open_yet at (omega (arith, cells, length-tabulate 127 (w.cells a))) in
    let (id, blocked) = process_block m m1 a v fits enough got1 in
    let (old, there) = get_elem?-lt t.process_stack t.curr within in
    (
      _,
      p_create-enters fopen w address cpu_s name t _ sl sl' m m4 short called room (
          create_at-enters fopen w address cpu_s a k name (started t.last_pid) old
            (record t { last_pid = u16 (t.last_pid + 1) }) sl sl' m m1 m4 _
            (record { id = id; page_num = 2 }) c end got1
            (open_file-opens fopen w address content block _ sl sl' m1 m2 m4 short got2 opened read)
            blocked loaded free there),
      record {
        p = _;
        b = _;
        entered = get_elem?-set_self t.process_stack t.curr _ within;
        others = λ j ne. get_elem?-set_ne t.process_stack t.curr j _ ne;
        pid = refl;
        status = refl;
        called = refl;
        time = refl;
        space = refl;
        buffer = refl;
        header = refl;
        pc = is_pc;
        last = is_last;
        code = code;
        counts = (refl, refl);
        next_pid = refl;
        lock = sym free;
      },
    )

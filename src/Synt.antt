-- ===== src/Synt.antt =====
-- src/modules/fs/synt.c: the files that processes are made from, and their headers.
-- The file system is a function from paths to contents.
pub mod Header
pub mod Tests
use chic_os.Base.{
  ℕ, zero, suc, ◌+◌, Bool, true, false, ◌&&◌, Option, none, some, List, [], ◌∷◌, ◌++◌, ltb, leb,
  ◌==◌, if◌then◌else◌, length, take, Outcome, ok, fault, unfinished, ◌>>=◌, deref,
}
use chic_os.Memory.{Memory, c_alloc, c_dealloc}
use chic_os.Stdio.{File}
use chic_os.Stdio.Scan.{scan_word, scan_int, fgetc, from_start}
use chic_os.Process.{Instruction, SyntHeader, SyntBuffer}
use chic_os.Semaphore.{SemaphoreList, init_semaphore}

abbrev pub max_address_size : ℕ
max_address_size = 4096

-- What the memory holds that `c_alloc` returns: as a header, as waiters, and, from an address on,
-- as instructions by their index.
pub record Contents : Type 0 where
  pub header : SyntHeader
  pub waiters : List ℕ
  pub cells : ℕ → ℕ → Instruction

-- `access` is a function too.
unfoldable pub valid_path : (List ℕ → Bool) → Option (List ℕ) → Bool
valid_path access none = false
valid_path access (some path) = leb (length path) max_address_size && access path

-- The word in a buffer of 256 bytes, and what is kept of it.
unfoldable pub header_name : Option (List ℕ) → Outcome (List ℕ)
header_name none = fault
header_name (some aux) = if ltb (length aux) 256 then ok (take 127 aux) else fault

abbrev pub kept : ℕ → Option ℕ → ℕ
kept old none = old
kept old (some n) = n

-- The loop of `read_header` with the byte `c` just read and the names so far, for at most so many
-- rounds. There are 256 bytes for the names.
unfoldable pub read_names :
    ℕ
    → List ℕ
    → ℕ × File
    → List ℕ
    → SemaphoreList
    → Memory
    → Outcome (List ℕ × File × SemaphoreList × Memory)
read_names zero raw (c, f) names sl m = unfinished
read_names (suc rounds) raw (c, f) names sl m = elim (c == b'\n') [
  | true ↦ if ltb (length names) 256 then ok (names, f, sl, m) else fault
  | false ↦ elim (c == b' ') [
    | true ↦ read_names rounds raw (fgetc f) names sl m
    | false ↦ elim (ltb (length names) 256) [
      | false ↦ fault
      | true ↦ do
        (made, sl', m') ← init_semaphore raw c 1 sl m
        read_names rounds raw (fgetc f) (names ++ (c ∷ [])) sl' m'
    ]
  ]
]

-- What is read before the names: the header, its place, and the file.
unfoldable pub read_fields : Contents → File → Outcome (SyntHeader × File)
unfolding header_name
read_fields w f = do
  let (word, f1) = scan_word f
  name ← header_name word
  (seg_flag, f2) ← scan_int f1
  (priority, f3) ← scan_int f2
  (seg_size, f4) ← scan_int f3
  ok (
    record w.header {
      name = name;
      seg_flag = kept w.header.seg_flag seg_flag;
      priority = kept w.header.priority priority;
      seg_size = kept w.header.seg_size seg_size;
    },
    f4,
  )

-- At the end of the file `fgetc` goes on for ever, until the names are full; each other round takes
-- a byte.
abbrev pub name_rounds : File → ℕ
name_rounds f = length f.rest + 300

-- 400 is the size of a header in bytes.
unfoldable pub read_header :
    Contents → SyntBuffer → SemaphoreList → Memory → Outcome (SyntBuffer × SemaphoreList × Memory)
read_header w b sl m = do
  (ptr, m1) ← c_alloc 400 m
  a ← deref ptr
  (h, f) ← read_fields w b.fp
  let (c0, f') = fgetc f
  (names, end, sl', m') ← read_names (name_rounds f) w.waiters (fgetc f') [] sl m1
  ok (
    record b { fp = end; h = record h { semaphores = names; rw_count = 0 }; h_block = a },
    sl',
    m',
  )

-- The rest of `open_file` at the path, with the memory for the buffer.
unfoldable pub open_at :
    (List ℕ → Option (List ℕ))
    → Contents
    → List ℕ
    → ℕ
    → SemaphoreList
    → Memory
    → Outcome (Option SyntBuffer × SemaphoreList × Memory)
open_at fopen w path block sl m = elim (fopen path) [
  | none ↦ ok (none, sl, m)
  | some content ↦ do
    (b, sl', m') ←
        read_header w
          (record {
            fp = from_start content;
            content = content;
            h = w.header;
            address = path;
            block = block;
            h_block = 0;
          })
          sl m
    ok (some b, sl', m')
]

-- 4120 is the size of the buffer in bytes.
unfoldable pub open_file :
    (List ℕ → Option (List ℕ))
    → Contents
    → Option (List ℕ)
    → SemaphoreList
    → Memory
    → Outcome (Option SyntBuffer × SemaphoreList × Memory)
open_file fopen w address sl m = do
  (ptr, m') ← c_alloc 4120 m
  elim address [
    | none ↦ ok (none, sl, m')
    | some path ↦
        if leb max_address_size (length path)
        then ok (none, sl, m')
        else (do block ← deref ptr; open_at fopen w path block sl m')
  ]

unfoldable pub close_file : SyntBuffer → Memory → Outcome Memory
close_file b m = do m' ← c_dealloc (some b.h_block) m; c_dealloc (some b.block) m'

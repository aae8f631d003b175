-- ===== src/Synt/Tests.antt =====
-- synt.c on a small file.
use chic_os.Base.{◌≡◌, refl, true, false, none, some, [], ◌∷◌, arith, replicate, ok}
use chic_os.Memory.{AllocHeader, Memory, fresh_page, c_alloc, make_room, place}
use chic_os.Stdio.{File, digits, signed}
use chic_os.Stdio.Scan.{from_start, scan_word, scan_int, fgetc, skip_spaces, word_of, after_digits}
use chic_os.Stdio.Scanned.{Stands}
use chic_os.Process.{Instruction, SyntHeader, SyntBuffer, process_interrupt}
use chic_os.Semaphore.{
  SemaphoreList, init_semaphore, add_semaphore, find_name, get_semaphore_by_name,
}
use chic_os.Synt.{
  Contents, read_header, read_fields, read_names, header_name, valid_path, open_file,
}
use chic_os.Synt.Header.{HeaderText, IsHeader, written, header_of, init_all, read_header-written}

abbrev pub no_header : AllocHeader
no_header = record { id = 0; page_num = 0 }

-- Sixteen pages, all free.
abbrev pub sixteen : Memory
sixteen = record {
  memory_s = 1;
  size = 17000;
  len = 16;
  free_page_num = 16;
  free_stack = replicate 16 0;
  free_stack_top = 16;
  pages =
      fresh_page 0
      ∷ fresh_page 1
      ∷ fresh_page 2
      ∷ fresh_page 3
      ∷ fresh_page 4
      ∷ fresh_page 5
      ∷ fresh_page 6
      ∷ fresh_page 7
      ∷ fresh_page 8
      ∷ fresh_page 9
      ∷ fresh_page 10
      ∷ fresh_page 11
      ∷ fresh_page 12
      ∷ fresh_page 13
      ∷ fresh_page 14
      ∷ fresh_page 15
      ∷ [];
  headers = replicate 16 no_header;
  clock = 0;
}

abbrev pub junk : SyntHeader
junk = record { name = []; priority = 9; rw_count = 9; seg_flag = 9; seg_size = 9; semaphores = [] }

abbrev pub old : Instruction
old = record { e = process_interrupt; remaining_time = 9; fp_pos = 9; sem_name = 9 }

abbrev pub contents : Contents
contents = record { header = junk; waiters = replicate 65 9; cells = λ a i. old }

abbrev pub no_semaphores : SemaphoreList
no_semaphores = record {
  l = replicate 32 (record { id = 0; name = 0; waiters = none; tail = 0; head = 0; value = 0 });
  max = 0;
  last = 0;
  mutex = 1;
}

-- `p1`, 2, 1, 42 and the semaphore `s`
abbrev pub small : HeaderText
small = record {
  name = b'p' ∷ b'1' ∷ [];
  seg_flag = b'2' ∷ [];
  priority = b'1' ∷ [];
  seg_size = b'4' ∷ b'2' ∷ [];
  semaphores = b's' ∷ b' ' ∷ [];
}

pub small-IsHeader : IsHeader small
unfolding digits
small-IsHeader = record {
  name = ((refl, (refl, tt)), omega arith);
  seg_flag = ((omega arith, omega arith, tt), omega arith);
  priority = ((omega arith, omega arith, tt), omega arith);
  seg_size = ((omega arith, omega arith, (omega arith, omega arith, tt)), omega arith);
  semaphores = (λ e. omega arith, (λ e. omega arith, tt));
  few = omega arith;
}

abbrev buffer : SyntBuffer
buffer = record {
  fp = from_start (written small (b'x' ∷ []));
  content = written small (b'x' ∷ []);
  h = junk;
  address = [];
  block = 8;
  h_block = 0;
}

header_runs :
    (sl : SemaphoreList) × (m : Memory) × (read_header contents buffer no_semaphores sixteen
      ≡ ok (
        record buffer {
          fp = record { rest = b'x' ∷ []; eof = false; pos = 13 };
          h = record {
            name = b'p' ∷ b'1' ∷ [];
            priority = 1;
            rw_count = 0;
            seg_flag = 2;
            seg_size = 42;
            semaphores = b's' ∷ [];
          };
          h_block = 8;
        },
        sl,
        m,
      ))
unfolding read_header read_fields read_names header_name scan_word scan_int fgetc skip_spaces
    word_of after_digits digits signed init_semaphore add_semaphore find_name get_semaphore_by_name
    c_alloc make_room place
header_runs = (_, _, refl)

-- A path of 4096 bytes is valid and cannot be opened.
long_path_runs :
    (valid_path (λ p. true) (some (replicate 4096 b'a')) ≡ true)
    × ((m : Memory) × (open_file
            (λ p. some [])
            contents
            (some (replicate 4096 b'a'))
            no_semaphores
            sixteen
          ≡ ok (none, no_semaphores, m)))
unfolding valid_path open_file c_alloc make_room place
long_path_runs = (refl, (_, refl))

read_header-written_example :
    (sl : SemaphoreList) × (m : Memory) × ((end : File) × (read_header contents buffer no_semaphores
          sixteen
        ≡ ok (record buffer { fp = end; h = header_of small; h_block = 8 }, sl, m))
      × Stands (b'x' ∷ []) end)
unfolding init_all init_semaphore add_semaphore find_name get_semaphore_by_name c_alloc make_room
    place
read_header-written_example = (
  _,
  _,
  read_header-written contents buffer small (b'x' ∷ []) no_semaphores _ sixteen _ _ 8 small-IsHeader
      (refl, refl) refl refl,
)

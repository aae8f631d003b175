-- ===== src/Memory/Invariant.antt =====
-- The invariant of the page table of mem.c.
use chic_os.Base.{◌-◌, ◌≤◌, ◌≡◌, length}
use chic_os.Memory.{Memory}
use chic_os.Memory.Pages.{count_free}

pub record Inv (m : Memory) : Type 0 where
  pub lock : m.memory_s ≡ 1
  pub table : length m.pages ≡ m.len
  pub header_table : length m.headers ≡ m.len
  pub stack : length m.free_stack ≡ m.len
  pub top : m.free_stack_top ≤ m.len
  pub small : m.len ≤ 4096
  pub counted : m.free_page_num ≡ count_free m.pages
  pub hand : m.clock ≤ m.len - 1

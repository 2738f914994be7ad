-- ===== src/Paging.antt =====
-- student-distrib/paging.c: the page directory and the two page tables, and what an address is
-- translated to. The addresses of the two tables are the linker's and are parameters.
pub mod Init
use ece391os.Prelude.{ℕ, zero, suc, ◌+◌, ◌*◌, ◌/◌, ◌^◌, bit_and, bit_or, update}

pub record Paging : Type 0 where
  pub page_directory : ℕ → ℕ
  pub first_page_table : ℕ → ℕ
  pub second_page_table : ℕ → ℕ

abbrev pub table_entries : ℕ
table_entries = 1024

abbrev pub page_size : ℕ
page_size = 4096

abbrev pub video_mem_addr : ℕ
video_mem_addr = 0xb8000

abbrev pub user_video_mem : ℕ
user_video_mem = 0x4500000

abbrev pub first_shell : ℕ
first_shell = video_mem_addr + page_size

abbrev pub second_shell : ℕ
second_shell = video_mem_addr + 2 * page_size

abbrev pub third_shell : ℕ
third_shell = video_mem_addr + 3 * page_size

abbrev pub kernel_addr : ℕ
kernel_addr = 0x400000

abbrev pub user_prog : ℕ
user_prog = 0x8000000

abbrev pub rw_not_present : ℕ
rw_not_present = 0x02

abbrev pub rw_present : ℕ
rw_present = 0x03

abbrev pub user_mode : ℕ
user_mode = 0x07

-- `virtual >> PD_OFFSET` and `(virtual >> PT_OFFSET) & PAGE_INDEX`, on non-negative addresses.
abbrev pub directory_index : ℕ → ℕ
directory_index virtual = virtual / 2 ^ 22

abbrev pub table_index : ℕ → ℕ
table_index virtual = bit_and (virtual / 2 ^ 12) 0x3ff

unfoldable pub set_page_dir_entry : Paging → ℕ → ℕ → Paging
set_page_dir_entry p virtual physical = record p {
  page_directory = update p.page_directory (directory_index virtual) (bit_or physical 0x087);
}

unfoldable pub set_page_table1_entry : Paging → ℕ → ℕ → Paging
set_page_table1_entry p virtual physical = record p {
  first_page_table = update p.first_page_table (table_index virtual) (bit_or physical user_mode);
}

unfoldable pub set_page_table2_entry : Paging → ℕ → ℕ → Paging
set_page_table2_entry p virtual physical = record p {
  second_page_table = update p.second_page_table (table_index virtual) (bit_or physical user_mode);
}

unfoldable pub disable_page_entry : Paging → ℕ → Paging
disable_page_entry p virtual = record p {
  second_page_table =
      update p.second_page_table (table_index virtual)
        (bit_and (p.second_page_table (table_index virtual)) 0xffff_fffe);
}

unfoldable pub get_dir : Paging → ℕ → ℕ
get_dir p i = p.page_directory i

unfoldable pub get_page : Paging → ℕ → ℕ
get_page p i = p.first_page_table i

-- The loops over the entries from `i` on, with the rounds that are left.
unfoldable pub clear_directory : ℕ → ℕ → (ℕ → ℕ) → ℕ → ℕ
clear_directory zero i f = f
clear_directory (suc n) i f = clear_directory n (i + 1) (update f i rw_not_present)

unfoldable pub init_page_directory : ℕ → ℕ → Paging → Paging
init_page_directory first_table second_table p =
    let d0 = clear_directory table_entries 0 p.page_directory in
    let d1 = update d0 0 (bit_or first_table rw_present) in
    let d2 = update d1 (directory_index kernel_addr) (bit_or kernel_addr 0x083) in
    record p {
      page_directory = update d2 (directory_index user_video_mem) (bit_or second_table user_mode);
    }

unfoldable pub fill_table : ℕ → ℕ → (ℕ → ℕ) → ℕ → ℕ
fill_table zero i f = f
fill_table (suc n) i f = fill_table n (i + 1) (update f i (bit_or (i * page_size) rw_not_present))

-- `first_page_table[a >> PT_OFFSET] |= RW_PRESENT`.
abbrev pub mark_present : (ℕ → ℕ) → ℕ → ℕ → ℕ
mark_present f a = update f (a / 2 ^ 12) (bit_or (f (a / 2 ^ 12)) rw_present)

unfoldable pub init_page_table : Paging → Paging
init_page_table p =
    let t0 = fill_table table_entries 0 p.first_page_table in
    let t1 = mark_present t0 video_mem_addr in
    let t2 = mark_present t1 first_shell in
    let t3 = mark_present t2 second_shell in
    record p {
      first_page_table = mark_present t3 third_shell;
      second_page_table = fill_table table_entries 0 p.second_page_table;
    }

-- `init_paging` up to `enable_paging`, which loads the processor's registers.
unfoldable pub init_paging : ℕ → ℕ → Paging → Paging
unfolding init_page_directory init_page_table
init_paging first_table second_table p =
    init_page_table (init_page_directory first_table second_table p)

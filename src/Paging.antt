-- ===== src/Paging.antt =====
-- The page tables that `initilize_paging` of filesIWorkedOn/kernel.c fills. `table_0`, `table_term` and
-- `table_vidmap` are the addresses of the three arrays.
pub mod Entries
use Prim.Native.Nat.{bit_or}
use cl_os.Prelude.{ℕ, zero, suc, ◌+◌, ◌/◌, ◌==◌, if◌then◌else◌}
use cl_os.Process.{num_process}

abbrev pub page_size : ℕ
page_size = 4096

abbrev pub num_pages : ℕ
num_pages = 1024

abbrev pub r_w_bit_enable : ℕ
r_w_bit_enable = 2

-- `page_dir` by process and entry, and the three page tables.
pub record Tables : Type 0 where
  pub page_dir : ℕ → ℕ → ℕ
  pub page_table_0 : ℕ → ℕ
  pub page_table_vidmap : ℕ → ℕ
  pub page_table_term : ℕ → ℕ

abbrev pub set_entry : (ℕ → ℕ) → ℕ → ℕ → ℕ → ℕ
set_entry table i v j = if j == i then v else table j

abbrev pub set_dir : (ℕ → ℕ → ℕ) → ℕ → ℕ → ℕ → ℕ → ℕ → ℕ
set_dir dir i j v p e = if p == i then set_entry (dir p) j v e else dir p e

-- `for(j=0;...) page_dir[i][j] = R_W_BIT_ENABLE`, from entry `j` on.
unfoldable pub clear_dir : ℕ → (ℕ → ℕ → ℕ) → ℕ → ℕ → ℕ → ℕ → ℕ
clear_dir i dir j zero = dir
clear_dir i dir j (suc k) = clear_dir i (set_dir dir i j r_w_bit_enable) (j + 1) k

-- The loop around it, over the processes from `i` on, with `n` entries each.
unfoldable pub clear_dirs : ℕ → (ℕ → ℕ → ℕ) → ℕ → ℕ → ℕ → ℕ → ℕ
unfolding clear_dir
clear_dirs n dir i zero = dir
clear_dirs n dir i (suc k) = clear_dirs n (clear_dir i dir 0 n) (i + 1) k

-- `page_table[i] = map_to_addr | R_W_BIT_ENABLE; map_to_addr += PAGE_SIZE`
unfoldable pub fill_table : (ℕ → ℕ) → ℕ → ℕ → ℕ → ℕ → ℕ
fill_table table map_to_addr i zero = table
fill_table table map_to_addr i (suc k) =
    fill_table (set_entry table i (bit_or map_to_addr r_w_bit_enable)) (map_to_addr + page_size)
      (i + 1) k

-- `page_dir[i][j] = v` for the processes from `i` on.
unfoldable pub set_dirs : ℕ → ℕ → (ℕ → ℕ → ℕ) → ℕ → ℕ → ℕ → ℕ → ℕ
set_dirs j v dir i zero = dir
set_dirs j v dir i (suc k) = set_dirs j v (set_dir dir i j v) (i + 1) k

-- The loop that sets the entries 0 and 34 is two loops here.
unfoldable pub initilize_paging : ℕ → ℕ → Tables → Tables
unfolding clear_dirs fill_table set_dirs
initilize_paging table_0 table_term s =
    let d = clear_dirs num_pages s.page_dir 0 num_process in
    let d' =
      set_dirs 34 (bit_or table_term 7) (set_dirs 0 (bit_or table_0 7) d 0 num_process) 0
        num_process in
    let term = fill_table s.page_table_term 0x2400000 0 num_pages in
    record {
      page_dir = set_dirs 1 0x400183 d' 0 num_process;
      page_table_0 = set_entry (fill_table s.page_table_0 0 0 num_pages) 184 (bit_or 0xb8000 7);
      page_table_vidmap =
          set_entry (fill_table s.page_table_vidmap 0x2400000 0 num_pages) 0 (bit_or 0xb8000 7);
      page_table_term =
          set_entry (set_entry (set_entry term 1 (bit_or 0x2401000 7)) 2 (bit_or 0x2402000 7)) 3
            (bit_or 0x2403000 7);
    }

-- `add_vidmap` for the process `pid`.
unfoldable pub add_vidmap : ℕ → ℕ → ℕ → Tables → Tables
add_vidmap table_vidmap pid virt_vmem s = record s {
  page_dir = set_dir s.page_dir pid (virt_vmem / 0x400000) (bit_or table_vidmap 7);
}

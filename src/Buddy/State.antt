-- ===== src/Buddy/State.antt =====
-- The state of src/memory/buddy.rs: the allocator's fields and the static arrays beside them.
use rynex.Prelude.{
  ℕ, ◌+◌, ◌-◌, ◌*◌, ◌/◌, ◌%◌, ◌^◌, Bool, ◌&&◌, List, [], false, leb, ltb, if◌then◌else◌,
}

abbrev pub page_size : ℕ
page_size = 4096

abbrev pub max_order : ℕ
max_order = 10

abbrev pub max_reserved : ℕ
max_reserved = 2048

abbrev pub magic_value : ℕ
magic_value = 0xDEADBEEF

-- The bound of every per-page array: 8 GiB.
abbrev pub max_refc_pages : ℕ
max_refc_pages = 2 ^ 21

abbrev pub page_type_free : ℕ
page_type_free = 0

abbrev pub page_type_pte : ℕ
page_type_pte = 1

abbrev pub page_type_data : ℕ
page_type_data = 2

-- The words at the start of a page that a free block keeps there; the link to the next block is
-- the order of the list that the block stands in.
pub record Header : Type 0 where
  pub magic : ℕ
  pub order : ℕ

-- What is recorded of the last free of a page.
pub record FreeSite : Type 0 where
  pub caller : ℕ
  pub tick : ℕ
  pub order : ℕ

-- Static arrays are functions of the index. A bitmap is read by word and bit.
pub record Buddy : Type 0 where
  pub base : ℕ
  pub pages : ℕ
  pub free_lists : ℕ → List ℕ
  pub header : ℕ → Header
  pub reserved : List ℕ
  pub used_bmp : ℕ → ℕ → Bool
  pub freed_bmp : ℕ → ℕ → Bool
  pub page_type : ℕ → ℕ
  pub pte_refc : ℕ → ℕ
  pub quarantine : ℕ → ℕ
  pub quarantine_cap : ℕ
  pub quarantine_head : ℕ
  pub quarantine_count : ℕ
  pub quarantine_full_count : ℕ
  pub df_last : ℕ → FreeSite
  pub audit_counter : ℕ
  pub audit_active : Bool
  pub owned_by : ℕ → ℕ

-- `new`, with the statics as they are at boot and `init` run.
abbrev pub init : ℕ → ℕ → Buddy
init base pages = record {
  base = base;
  pages = pages;
  free_lists = λ _. [];
  header = λ _. record { magic = 0; order = 0 };
  reserved = [];
  used_bmp = λ _ _. false;
  freed_bmp = λ _ _. false;
  page_type = λ _. 0;
  pte_refc = λ _. 0;
  quarantine = λ _. 0;
  quarantine_cap = 1024;
  quarantine_head = 0;
  quarantine_count = 0;
  quarantine_full_count = 0;
  df_last = λ _. record { caller = 0; tick = 0; order = 0 };
  audit_counter = 0;
  audit_active = false;
  owned_by = λ _. 0;
}

abbrev pub block_size : ℕ → ℕ
block_size order = page_size * 2 ^ order

-- `u64::MAX` for an address below the base.
abbrev pub phys_to_idx : Buddy → ℕ → ℕ
phys_to_idx s phys = if ltb phys s.base then 2 ^ 64 - 1 else (phys - s.base) / 4096

-- The subtraction wraps.
abbrev pub page_index : Buddy → ℕ → ℕ
page_index s addr = (addr + 2 ^ 64 - s.base) % 2 ^ 64 / page_size

abbrev pub is_managed : Buddy → ℕ → Bool
is_managed s addr =
    leb s.base addr
    && leb ((addr + page_size) % 2 ^ 64) ((s.base + s.pages * page_size % 2 ^ 64) % 2 ^ 64)

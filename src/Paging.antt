-- ===== src/Paging.antt =====
-- kernel/mem/paging.c and paging.h: the page directory and the tables of the pool. A table pointer is
-- its physical address; table `k` of the pool stands at `pool + 4096 * k`, where `pool` is the address
-- of g_table_pool, a parameter. What is printed and the `invlpg` and control register instructions are
-- left out: they do not change the tables.
pub mod Identity
pub mod Map
pub mod Pages
pub mod Tables
mod Tests
use Prim.Native.Nat.{bit_and, bit_or}
use ronin_os.Base.{
  ℕ, zero, suc, ◌+◌, ◌-◌, ◌*◌, ◌/◌, ◌%◌, ◌^◌, Bool, true, false, not, ◌&&◌, ◌||◌, Option, none,
  some, ◌==◌, leb, ltb, if◌then◌else◌, add32, sub32,
}
use ronin_os.Pmm.{frame_size}

abbrev pub page_present : ℕ
page_present = 1

abbrev pub page_write : ℕ
page_write = 2

abbrev pub max_bootstrap_tables : ℕ
max_bootstrap_tables = 256

pub record Paging : Type 0 where
  pub directory : ℕ → ℕ
  pub tables : ℕ → ℕ → ℕ
  pub tables_used : ℕ
  pub enabled : Bool

-- `table[i] = v`, in the table of index `k`.
abbrev pub write_entry : Paging → (k i v : ℕ) → Paging
write_entry p k i v = record p {
  tables = λ k' i'. if k' == k && i' == i then v else p.tables k' i';
}

-- The framebuffer that the console reports, if there is one.
pub record Framebuffer : Type 0 where
  pub fb_addr : ℕ
  pub fb_pitch : ℕ
  pub fb_height : ℕ

module _ (pool : ℕ) where
  -- The index of the table at an address.
  abbrev pub table_at : ℕ → ℕ
  table_at addr = (addr - pool) / 4096

  -- `none` is a panic.
  pub alloc_table : Paging → Option (Paging × ℕ)
  alloc_table p =
      if leb max_bootstrap_tables p.tables_used
      then none
      else some (
        record p {
          tables = λ k' i'. if k' == p.tables_used then 0 else p.tables k' i';
          tables_used = p.tables_used + 1;
        },
        pool + p.tables_used * 4096,
      )

  abbrev pub pd_index : ℕ → ℕ
  pd_index virt = bit_and (virt / 2 ^ 22) 0x3ff

  abbrev pub pt_index : ℕ → ℕ
  pt_index virt = bit_and (virt / 2 ^ 12) 0x3ff

  -- The table's address, or 0.
  pub get_table : Paging → ℕ → Bool → Option (Paging × ℕ)
  get_table p virt create =
      if bit_and (p.directory (pd_index virt)) page_present == 0
      then (if not create then some (p, 0) else elim (alloc_table p) [
        | none ↦ none
        | some (p', table) ↦ some (
          record p' {
            directory = λ d.
                if d == pd_index virt
                then bit_or (bit_or table page_present) page_write
                else p'.directory d;
          },
          table,
        )
      ])
      else some (p, bit_and (p.directory (pd_index virt)) 0xffff_f000)

  -- `none` is a panic; else whether 0 is returned.
  pub map_page : Paging → (virt phys flags : ℕ) → Option (Paging × Bool)
  map_page p virt phys flags =
      if not (bit_and virt 0xfff == 0) || not (bit_and phys 0xfff == 0)
      then some (p, false)
      else elim (get_table p virt true) [
        | none ↦ none
        | some (p', table) ↦ some (
          write_entry p' (table_at table) (pt_index virt)
              (bit_or (bit_or (bit_and phys 0xffff_f000) (bit_and flags 0xfff)) page_present),
          true,
        )
      ]

  pub unmap_page : Paging → ℕ → Option Paging
  unmap_page p virt =
      if not (bit_and virt 0xfff == 0) then some p else elim (get_table p virt false) [
        | none ↦ none
        | some (p', table) ↦
            if table == 0 then some p' else some (write_entry p' (table_at table) (pt_index virt) 0)
      ]

  pub translate : Paging → ℕ → Option ℕ
  translate p virt = elim (get_table p virt false) [
    | none ↦ none
    | some (p', table) ↦
        if table == 0
        then some 0
        else let entry = p'.tables (table_at table) (pt_index virt) in
          if bit_and entry page_present == 0
          then some 0
          else some (bit_or (bit_and entry 0xffff_f000) (bit_and virt 0xfff))
  ]

  -- The loop of map_range_identity with the rounds that are left; without one it has no answer, to
  -- which 2 ^ 20 rounds never come.
  pub identity_loop : ℕ → Paging → (addr end flags : ℕ) → Option (Paging × Bool)
  identity_loop zero p addr end flags = none
  identity_loop (suc rounds) p addr end flags =
      if not (ltb addr end) then some (p, true) else elim (map_page p addr addr flags) [
        | none ↦ none
        | some (p', done) ↦
            if not done
            then some (p', false)
            else identity_loop rounds p' (add32 addr frame_size) end flags
      ]

  -- There are 2 ^ 20 pages.
  pub map_range_identity : Paging → (phys_start bytes flags : ℕ) → Option (Paging × Bool)
  map_range_identity p phys_start bytes flags =
      if bytes == 0
      then some (p, true)
      else let start = bit_and phys_start 0xffff_f000 in
        let end = bit_and (add32 (add32 phys_start bytes) 0xfff) 0xffff_f000 in
        if ltb end start then some (p, false) else identity_loop (2 ^ 20) p start end flags

  abbrev pub no_tables : Paging → Paging
  no_tables p = record p { directory = λ d. 0; tables_used = 0 }

  abbrev pub map_framebuffer : Paging → Option Framebuffer → Option Paging
  map_framebuffer p none = some p
  map_framebuffer p (some fb) =
      let fb_bytes64 = fb.fb_pitch * fb.fb_height in
      if ltb 0xffff_ffff fb.fb_addr || ltb 0xffff_ffff fb_bytes64
      then some p
      else elim (map_range_identity p fb.fb_addr fb_bytes64 page_write) [
        | none ↦ none
        | some (p', done) ↦ if done then some p' else none
      ]

  -- `none` is a panic.
  pub paging_init : Paging → ℕ → Option Framebuffer → Option Paging
  paging_init p phys_limit fb = elim (map_range_identity (no_tables p) 0 phys_limit page_write) [
    | none ↦ none
    | some (p1, done) ↦ if not done then none else elim (map_framebuffer p1 fb) [
      | none ↦ none
      | some p2 ↦ some (record p2 { enabled = true })
    ]
  ]

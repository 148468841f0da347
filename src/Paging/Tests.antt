-- ===== src/Paging/Tests.antt =====
-- The page tables with the pool at 1 MB.
use ronin_os.Base.{
  ℕ, ◌/◌, ◌^◌, ◌<◌, ◌≡◌, refl, false, Option, none, some, arith, ◌==◌, if◌then◌else◌,
}
use ronin_os.Paging.{
  Paging, get_table, alloc_table, map_page, unmap_page, translate, paging_init, page_write,
}
use ronin_os.Paging.Tables.{IsValid}
use ronin_os.Paging.Map.{Mapping}
use ronin_os.Paging.Pages.{map_page-Mapping, unmap_page-translate}
use ronin_os.Paging.Identity.{paging_init-translate}

abbrev empty : Paging
empty = record { directory = λ d. 0; tables = λ k t. 0; tables_used = 0; enabled = false }

empty-IsValid : IsValid 0x10_0000 empty
empty-IsValid = record {
  aligned = refl;
  positive = omega arith;
  pool_in = omega arith;
  used_in = omega arith;
  words = λ k t. omega arith;
  present = λ d. refl;
  in_use = λ d k e. cc;
  single = λ d e k a b. cc;
}

-- A page of the heap at the frame of 2 MB.
mapped_once : Option Paging
mapped_once = elim (map_page 0x10_0000 empty 0x1800_0000 0x20_0000 page_write) [
  | none ↦ none
  | some (p, b) ↦ some p
]

translated :
    elim mapped_once [ none ↦ none | some p ↦ translate 0x10_0000 p 0x1800_0123 ] ≡ some 0x20_0123
unfolding map_page get_table alloc_table translate mapped_once
translated = refl

map_page-Mapping_example :
    Mapping 0x10_0000 empty 0x1800_0000 0x20_0000
      (map_page 0x10_0000 empty 0x1800_0000 0x20_0000 page_write)
map_page-Mapping_example =
    map_page-Mapping empty-IsValid 0x1800_0000 0x20_0000 page_write (omega arith) (omega arith) refl
      refl

unmap_page-translate_instance :
    (p' : Paging) × (unmap_page 0x10_0000 empty 0x1800_0000 ≡ some p')
    × IsValid 0x10_0000 p'
    × ((w : ℕ)
        → w < 2 ^ 32
        → translate 0x10_0000 p' w
          ≡ (if w / 4096 == 0x1_8000 then some 0 else translate 0x10_0000 empty w))
unmap_page-translate_instance = unmap_page-translate empty-IsValid 0x1800_0000 (omega arith) refl

paging_init-translate_example :
    (p' : Paging) × (paging_init 0x10_0000 empty 0x2000_0000 none ≡ some p')
    × IsValid 0x10_0000 p'
    × ((w : ℕ) → w < 0x2000_0000 → translate 0x10_0000 p' w ≡ some w)
paging_init-translate_example =
    paging_init-translate 0x10_0000 empty 0x2000_0000 refl (omega arith) (omega arith)
      (λ k t. omega arith) (omega arith) (omega arith)

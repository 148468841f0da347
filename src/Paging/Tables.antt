-- ===== src/Paging/Tables.antt =====
-- The page tables of kernel/mem/paging.c as a map from pages to entries.
use Prim.Native.Nat.{bit_and, bit_or}
use ronin_os.Base.{
  ℕ, ◌+◌, ◌-◌, ◌*◌, ◌/◌, ◌%◌, ◌^◌, ◌≤◌, ◌<◌, ◌≡◌, refl, ◌∙◌, ap, sym, Bool, false, Option, none,
  some, arith, ◌==◌, if◌then◌else◌, Bool-cases, Option-cases, inl, inr, max,
}
use ronin_os.Base.Bits.{
  bit_and_low1, bit_and_low10, bit_and_low12, bit_and_pages, bit_or-add, bit_or-zero, bit_or_step,
}
use ronin_os.Paging.{Paging, table_at, pd_index, pt_index, get_table, translate}

-- The directory entry of a slot: the table of index `k`, present and writable, or nothing.
abbrev pub of_slot : ℕ → Option ℕ → ℕ
of_slot pool none = 0
of_slot pool (some k) = pool + k * 4096 + 3

-- The slot that a directory entry holds.
abbrev pub slot_of : ℕ → Paging → ℕ → Option ℕ
slot_of pool p d = if p.directory d == 0 then none else some ((p.directory d - pool) / 4096)

-- The pool is aligned and lies below 4 GB, each present directory entry is a table of it that is in
-- use, and no table serves two entries.
pub record IsValid (pool : ℕ) (p : Paging) : Type 0 where
  pub aligned : pool % 4096 ≡ 0
  pub positive : 0 < pool
  pub pool_in : pool + 256 * 4096 ≤ 2 ^ 32
  pub used_in : p.tables_used ≤ 256
  pub words : (k t : ℕ) → p.tables k t < 2 ^ 32
  pub present : (d : ℕ) → p.directory d ≡ of_slot pool (slot_of pool p d)
  pub in_use : (d k : ℕ) → slot_of pool p d ≡ some k → k < p.tables_used
  pub single : (d e k : ℕ) → slot_of pool p d ≡ some k → slot_of pool p e ≡ some k → d ≡ e

-- The entry of a page, 0 if its table is missing.
abbrev pub entry_in : Paging → Option ℕ → ℕ → ℕ
entry_in p none t = 0
entry_in p (some k) t = p.tables k t

abbrev pub entry_of : ℕ → Paging → ℕ → ℕ
entry_of pool p virt = entry_in p (slot_of pool p (virt / 2 ^ 22)) (virt / 4096 % 1024)

-- The address that an entry gives a virtual address, 0 if it is not present.
abbrev pub target : ℕ → ℕ → ℕ
target entry virt = if entry % 2 == 0 then 0 else entry - entry % 4096 + virt % 4096

pub pd_index-lt : (pool virt : ℕ) → virt < 2 ^ 32 → pd_index pool virt ≡ virt / 2 ^ 22
pd_index-lt pool virt l = bit_and_low10 (virt / 2 ^ 22) ∙ omega arith

pub pt_index-mod : (pool virt : ℕ) → pt_index pool virt ≡ virt / 4096 % 1024
pt_index-mod pool virt = bit_and_low10 (virt / 2 ^ 12)

module _ {pool : ℕ} {p : Paging} (v : IsValid pool p) where
  pub slot_value :
      (k : ℕ)
      → k < 256
      → (bit_and (pool + k * 4096 + 3) 1 ≡ 1)
        × (bit_and (pool + k * 4096 + 3) 0xffff_f000 ≡ pool + k * 4096)
        × (table_at pool (pool + k * 4096) ≡ k)
        × (0 < pool + k * 4096)
        × (bit_or (bit_or (pool + k * 4096) 1) 2 ≡ pool + k * 4096 + 3)
  slot_value k l =
      let a = v.aligned in
      let b = v.pool_in in
      let c = v.positive in
      let q = pool / 4096 + k in
      let whole : pool + k * 4096 ≡ q * 2 ^ 12 = omega arith in
      let one : bit_or (pool + k * 4096) 1 ≡ q * 4096 + 1 =
        ap (λ x. bit_or x 1) whole ∙ bit_or-add 12 q 1 (omega arith) in
      let half : (q * 4096 + 1) / 2 ≡ q * 2 ^ 11 = omega arith in
      let two : bit_or (q * 4096 + 1) 2 ≡ q * 4096 + 3 =
        bit_or_step (q * 4096 + 1) 2
        ∙ ap (λ x. bit_or x 1 * 2 + max ((q * 4096 + 1) % 2) 0) half
        ∙ omega (arith, bit_or-add 11 q 1 (omega arith)) in
      (
        bit_and_low1 (pool + k * 4096 + 3) ∙ omega arith,
        bit_and_pages (pool + k * 4096 + 3) (omega arith) ∙ omega arith,
        omega arith,
        omega arith,
        ap (λ x. bit_or x 2) one ∙ two ∙ omega arith,
      )

  -- get_table for a page whose table is there.
  pub get_table-some :
      (virt k : ℕ) (create : Bool)
      → virt < 2 ^ 32
      → slot_of pool p (virt / 2 ^ 22) ≡ some k
      → get_table pool p virt create ≡ some (p, pool + k * 4096)
  unfolding get_table
  get_table-some virt k create l e =
      let s =
        slot_value k (let u = v.in_use (virt / 2 ^ 22) k e in let w = v.used_in in omega arith) in
      let dir : p.directory (pd_index pool virt) ≡ pool + k * 4096 + 3 =
        ap p.directory (pd_index-lt pool virt l)
        ∙ v.present (virt / 2 ^ 22)
        ∙ ap (of_slot pool) e in
      rw dir (rw (s.0, s.1) refl)

  pub get_table-none :
      (virt : ℕ)
      → virt < 2 ^ 32
      → slot_of pool p (virt / 2 ^ 22) ≡ none
      → get_table pool p virt false ≡ some (p, 0)
  unfolding get_table
  get_table-none virt l e =
      let dir : p.directory (pd_index pool virt) ≡ 0 =
        ap p.directory (pd_index-lt pool virt l)
        ∙ v.present (virt / 2 ^ 22)
        ∙ ap (of_slot pool) e in
      rw dir refl

target_bits :
    (en virt : ℕ)
    → en < 2 ^ 32
    → (if bit_and en 1 == 0
        then some 0
        else some (bit_or (bit_and en 0xffff_f000) (bit_and virt 0xfff)))
      ≡ some (target en virt)
target_bits en virt l =
    let frame : bit_and en 0xffff_f000 ≡ en / 4096 * 2 ^ 12 = bit_and_pages en l ∙ omega arith in
    let low = bit_and_low12 virt in
    let sum : bit_or (bit_and en 0xffff_f000) (bit_and virt 0xfff) ≡ en - en % 4096 + virt % 4096 =
      ap (λ x. bit_or x (bit_and virt 0xfff)) frame
      ∙ bit_or-add 12 (en / 4096) (bit_and virt 0xfff) (omega arith)
      ∙ omega arith in
    rw (bit_and_low1 en)
      (elim (Bool-cases (en % 2 == 0)) [ inl e ↦ rw e refl | inr e ↦ rw e (ap some sum) ])

-- translate reads the entry of the page.
pub translate-entry :
    {pool : ℕ} {p : Paging} (v : IsValid pool p) (virt : ℕ)
    → virt < 2 ^ 32
    → translate pool p virt ≡ some (target (entry_of pool p virt) virt)
unfolding translate
translate-entry {pool} {p} v virt l = elim (Option-cases (slot_of pool p (virt / 2 ^ 22))) [
  | inl e ↦ rw (get_table-none v virt l e, translate) (rw e refl)
  | inr (k, e) ↦
      let s =
        slot_value v k (let u = v.in_use (virt / 2 ^ 22) k e in let w = v.used_in in omega arith) in
      let there : (pool + k * 4096 == 0) ≡ false = (let q = s.3 in ground arith) in
      rw (get_table-some v virt k false l e, translate)
        (rw there (
          rw (s.2, pt_index-mod pool virt)
            (target_bits (p.tables k (virt / 4096 % 1024)) virt (v.words k (virt / 4096 % 1024))
              ∙ ap (λ o. some (target (entry_in p o (virt / 4096 % 1024)) virt)) (sym e))))
]

-- The entry that map_page writes.
abbrev pub mapped : ℕ → ℕ → ℕ
mapped phys flags = bit_or (bit_or (bit_and phys 0xffff_f000) (bit_and flags 0xfff)) 1

-- It is present and gives the frame, whatever the flags.
pub mapped-target :
    (phys flags virt : ℕ)
    → phys < 2 ^ 32
    → phys % 4096 ≡ 0
    → (target (mapped phys flags) virt ≡ phys + virt % 4096) × (mapped phys flags < 2 ^ 32)
mapped-target phys flags virt l a =
    let f = bit_and_low12 flags in
    let frame : bit_and phys 0xffff_f000 ≡ phys / 4096 * 2 ^ 12 =
      bit_and_pages phys l ∙ omega arith in
    let both : bit_or (bit_and phys 0xffff_f000) (bit_and flags 0xfff) ≡ phys + flags % 4096 =
      ap (λ x. bit_or x (bit_and flags 0xfff)) frame
      ∙ bit_or-add 12 (phys / 4096) (bit_and flags 0xfff) (omega arith)
      ∙ omega arith in
    let z = bit_or-zero ((phys + flags % 4096) / 2) in
    let all : mapped phys flags ≡ (phys + flags % 4096) / 2 * 2 + 1 =
      ap (λ x. bit_or x 1) both ∙ bit_or_step (phys + flags % 4096) 1 ∙ omega (arith, z) in
    (ground (arith, all), omega arith)

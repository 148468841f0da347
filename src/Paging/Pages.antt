-- ===== src/Paging/Pages.antt =====
-- What map_page and unmap_page of kernel/mem/paging.c promise.
use Prim.Native.Nat.{bit_and}
use ronin_os.Base.{
  ℕ, ◌+◌, ◌*◌, ◌/◌, ◌%◌, ◌^◌, ◌<◌, ◌≡◌, refl, ◌∙◌, ap, sym, true, false, not, ◌&&◌, ◌||◌, none,
  some, arith, ◌==◌, ==_iff, ==_self, leb, if◌then◌else◌, Bool-cases, Option-cases, inl, inr,
  is_some,
}
use ronin_os.Base.Bits.{bit_and_low12}
use ronin_os.Paging.{Paging, write_entry, map_page, unmap_page, translate}
use ronin_os.Paging.Tables.{
  IsValid, slot_of, target, pt_index-mod, slot_value, get_table-some, get_table-none,
  translate-entry, mapped,
}
use ronin_os.Paging.Map.{
  with_table, with_table-IsValid, with_table-slot, with_table-entry, write_entry-IsValid,
  write_entry-entry, Mapping, pool_empty, done, written, get_table-new, get_table-full,
}

aligned_guard :
    (a b : ℕ)
    → a % 4096 ≡ 0
    → b % 4096 ≡ 0
    → (not (bit_and a 0xfff == 0) || not (bit_and b 0xfff == 0)) ≡ false
aligned_guard a b h k = (let l = bit_and_low12 a in let m = bit_and_low12 b in ground arith)

-- map_page of a page to a frame makes the page translate to the frame and no other address translate
-- otherwise, whatever the flags; it panics only if the page has no table and the pool is empty.
pub map_page-Mapping :
    {pool : ℕ} {p : Paging} (v : IsValid pool p) (virt phys flags : ℕ)
    → virt < 2 ^ 32
    → phys < 2 ^ 32
    → virt % 4096 ≡ 0
    → phys % 4096 ≡ 0
    → Mapping pool p virt phys (map_page pool p virt phys flags)
unfolding map_page
map_page-Mapping {pool} {p} v virt phys flags l m a b =
    rw (aligned_guard virt phys a b) (elim (Option-cases (slot_of pool p (virt / 2 ^ 22))) [
      | inr (k, e) ↦
          let s =
            slot_value v k
              (let u = v.in_use (virt / 2 ^ 22) k e in let w = v.used_in in omega arith) in
          let r = written v v virt phys flags k l m b e (λ w. refl) in
          rw (get_table-some v virt k true l e) (
            rw (s.2, pt_index-mod pool virt)
              (done (write_entry p k (virt / 4096 % 1024) (mapped phys flags)) refl (record {
                valid = r.0;
                translates = r.1;
                slots = λ d. old_slots d k e;
                used = rw e refl;
              })))
      | inl e ↦ elim (Bool-cases (leb 256 p.tables_used)) [
        | inl full ↦
            rw (get_table-full v virt l e (ground arith))
              (pool_empty e (let u = v.used_in in ground arith) refl)
        | inr room ↦
            let left : p.tables_used < 256 = ground arith in
            let v1 = with_table-IsValid v (virt / 2 ^ 22) e left in
            let slot = with_table-slot v (virt / 2 ^ 22) e left in
            let s = slot_value v p.tables_used left in
            let r =
              written v v1 virt phys flags p.tables_used l m b
                (slot (virt / 2 ^ 22) ∙ rw (==_self (virt / 2 ^ 22)) refl)
                (with_table-entry v (virt / 2 ^ 22) e left) in
            rw (get_table-new v virt l e left) (
              rw (s.2, pt_index-mod pool virt)
                (done
                  (write_entry (with_table pool p (virt / 2 ^ 22)) p.tables_used
                    (virt / 4096 % 1024) (mapped phys flags))
                  refl
                  (record {
                    valid = r.0;
                    translates = r.1;
                    slots = λ d. ap is_some (slot d) ∙ new_slots d;
                    used = rw e refl;
                  })))
      ]
    ])
  where
    old_slots :
        (d k : ℕ)
        → slot_of pool p (virt / 2 ^ 22) ≡ some k
        → is_some (slot_of pool p d)
          ≡ (if d == virt / 2 ^ 22 then true else is_some (slot_of pool p d))
    old_slots d k e = elim (Bool-cases (d == virt / 2 ^ 22)) [
      | inl q ↦
          rw q
            (ap (λ x. is_some (slot_of pool p x)) ((==_iff d (virt / 2 ^ 22)).0 q) ∙ ap is_some e)
      | inr q ↦ rw q refl
    ]

    new_slots :
        (d : ℕ)
        → is_some (if d == virt / 2 ^ 22 then some p.tables_used else slot_of pool p d)
          ≡ (if d == virt / 2 ^ 22 then true else is_some (slot_of pool p d))
    new_slots d = elim (Bool-cases (d == virt / 2 ^ 22)) [ inl q ↦ rw q refl | inr q ↦ rw q refl ]

-- unmap_page of a page makes its addresses translate to 0, and no other address otherwise.
pub unmap_page-translate :
    {pool : ℕ} {p : Paging} (v : IsValid pool p) (virt : ℕ)
    → virt < 2 ^ 32
    → virt % 4096 ≡ 0
    → (p' : Paging) × (unmap_page pool p virt ≡ some p')
      × IsValid pool p'
      × ((w : ℕ)
          → w < 2 ^ 32
          → translate pool p' w ≡ (if w / 4096 == virt / 4096 then some 0 else translate pool p w))
unfolding unmap_page
unmap_page-translate {pool} {p} v virt l a =
    let guard : not (bit_and virt 0xfff == 0) ≡ false =
      (let q = bit_and_low12 virt in ground arith) in
    elim (Option-cases (slot_of pool p (virt / 2 ^ 22))) [
      | inl e ↦ (
        p,
        rw guard (rw (get_table-none v virt l e) refl),
        v,
        λ w lw. elim (Bool-cases (w / 4096 == virt / 4096)) [
          | inl q ↦
              let same : slot_of pool p (w / 2 ^ 22) ≡ none =
                ap (slot_of pool p) (let d : w / 2 ^ 22 ≡ virt / 2 ^ 22 = ground arith in d) ∙ e in
              rw q (translate-entry v w lw ∙ rw same refl)
          | inr q ↦ rw q refl
        ],
      )
      | inr (k, e) ↦
          let s =
            slot_value v k
              (let u = v.in_use (virt / 2 ^ 22) k e in let w = v.used_in in omega arith) in
          let there : (pool + k * 4096 == 0) ≡ false = (let q = s.3 in ground arith) in
          let v' = write_entry-IsValid v (virt / 2 ^ 22) k (virt / 4096 % 1024) 0 e (omega arith) in
          (
            write_entry p k (virt / 4096 % 1024) 0,
            rw guard (
                rw (get_table-some v virt k false l e)
                  (rw there (rw (s.2, pt_index-mod pool virt) refl))),
            v',
            λ w lw.
                translate-entry v' w lw
                ∙ ap (λ x. some (target x w))
                    (write_entry-entry v (virt / 2 ^ 22) k (virt / 4096 % 1024) 0 e (omega arith) w)
                ∙ elim (Bool-cases (w / 4096 == virt / 4096)) [
                  | inl q ↦
                      let here : (w / 2 ^ 22 == virt / 2 ^ 22
                            && w / 4096 % 1024 == virt / 4096 % 1024)
                          ≡ true =
                        ground arith in
                      rw (q, here) refl
                  | inr q ↦
                      let apart : (w / 2 ^ 22 == virt / 2 ^ 22
                            && w / 4096 % 1024 == virt / 4096 % 1024)
                          ≡ false =
                        ground arith in
                      rw (q, apart) (sym (translate-entry v w lw))
                ],
          )
    ]

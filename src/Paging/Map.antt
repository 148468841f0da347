-- ===== src/Paging/Map.antt =====
-- map_page and unmap_page of kernel/mem/paging.c against translate.
use ronin_os.Base.{
  ℕ, ◌+◌, ◌-◌, ◌*◌, ◌/◌, ◌%◌, ◌^◌, ◌≤◌, ◌<◌, ◌≡◌, refl, ◌∙◌, ap, sym, subst, Bool, true, false,
  ◌&&◌, Option, none, some, arith, ◌==◌, ==_iff, ==_self, leb, if◌then◌else◌, Bool-cases, if_both,
  inl, inr, ◌⊎◌, is_some,
}
use ronin_os.Paging.{Paging, write_entry, alloc_table, pd_index, get_table, translate}
use ronin_os.Paging.Tables.{
  IsValid, of_slot, slot_of, entry_in, entry_of, target, pd_index-lt, slot_value, translate-entry,
  mapped, mapped-target,
}

-- The tables with a new, empty one for directory entry `d0`.
abbrev pub with_table : ℕ → Paging → ℕ → Paging
with_table pool p d0 = record p {
  tables = λ k' i'. if k' == p.tables_used then 0 else p.tables k' i';
  tables_used = p.tables_used + 1;
  directory = λ d. if d == d0 then pool + p.tables_used * 4096 + 3 else p.directory d;
}

some_inj : (a b : ℕ) → some a ≡ some b → a ≡ b
some_inj a b e = cc

module _ {pool : ℕ} {p : Paging} (v : IsValid pool p) (d0 : ℕ) (fresh : slot_of pool p d0 ≡ none)
    (room : p.tables_used < 256) where
  pub with_table-slot :
      (d : ℕ)
      → slot_of pool (with_table pool p d0) d
        ≡ (if d == d0 then some p.tables_used else slot_of pool p d)
  with_table-slot d = elim (Bool-cases (d == d0)) [
    | inl q ↦
        let there : (pool + p.tables_used * 4096 + 3 == 0) ≡ false = ground arith in
        let index : (pool + p.tables_used * 4096 + 3 - pool) / 4096 ≡ p.tables_used = omega arith in
        rw q (rw (there, index) refl)
    | inr q ↦ rw q refl
  ]

  slot_cases :
      (d k : ℕ)
      → slot_of pool (with_table pool p d0) d ≡ some k
      → ((d ≡ d0) × (k ≡ p.tables_used)) ⊎ ((slot_of pool p d ≡ some k) × (k < p.tables_used))
  slot_cases d k e = elim (Bool-cases (d == d0)) [
    | inl q ↦
        inl (
          (==_iff d d0).0 q,
          sym (some_inj p.tables_used k (rw q at (sym (with_table-slot d) ∙ e))),
        )
    | inr q ↦
        let h : slot_of pool p d ≡ some k = rw q at (sym (with_table-slot d) ∙ e) in
        inr (h, v.in_use d k h)
  ]

  pub with_table-IsValid : IsValid pool (with_table pool p d0)
  with_table-IsValid = record {
    aligned = v.aligned;
    positive = v.positive;
    pool_in = v.pool_in;
    used_in = omega arith;
    words = λ k t. if_both (λ x. x < 2 ^ 32) (k == p.tables_used) (omega arith) (v.words k t);
    present = λ d. elim (Bool-cases (d == d0)) [
      | inl q ↦
          let there : slot_of pool (with_table pool p d0) d ≡ some p.tables_used =
            with_table-slot d ∙ rw q refl in
          subst (λ o. (with_table pool p d0).directory d ≡ of_slot pool o) (sym there) (rw q refl)
      | inr q ↦
          let same : slot_of pool (with_table pool p d0) d ≡ slot_of pool p d =
            with_table-slot d ∙ rw q refl in
          subst (λ o. (with_table pool p d0).directory d ≡ of_slot pool o) (sym same)
            (rw q (v.present d))
    ];
    in_use = λ d k e. elim (slot_cases d k e) [
      | inl q ↦ omega (arith, q.1)
      | inr q ↦ omega (arith, q.1)
    ];
    single = λ d e k a b. elim (slot_cases d k a) [
      | inl q ↦ elim (slot_cases e k b) [
        | inl r ↦ q.0 ∙ sym r.0
        | inr r ↦ absurd (omega (arith, q.1, r.1))
      ]
      | inr q ↦ elim (slot_cases e k b) [
        | inl r ↦ absurd (omega (arith, q.1, r.1))
        | inr r ↦ v.single d e k q.0 r.0
      ]
    ];
  }

  -- No entry has changed: those of the new table are 0.
  pub with_table-entry : (w : ℕ) → entry_of pool (with_table pool p d0) w ≡ entry_of pool p w
  with_table-entry w = elim (Bool-cases (w / 2 ^ 22 == d0)) [
    | inl q ↦
        let there : slot_of pool (with_table pool p d0) (w / 2 ^ 22) ≡ some p.tables_used =
          with_table-slot (w / 2 ^ 22) ∙ rw q refl in
        let gone : slot_of pool p (w / 2 ^ 22) ≡ none =
          ap (slot_of pool p) ((==_iff (w / 2 ^ 22) d0).0 q) ∙ fresh in
        ap (λ o. entry_in (with_table pool p d0) o (w / 4096 % 1024)) there
        ∙ rw (==_self p.tables_used) refl
        ∙ ap (λ o. entry_in p o (w / 4096 % 1024)) (sym gone)
    | inr q ↦
        let same : slot_of pool (with_table pool p d0) (w / 2 ^ 22) ≡ slot_of pool p (w / 2 ^ 22) =
          with_table-slot (w / 2 ^ 22) ∙ rw q refl in
        ap (λ o. entry_in (with_table pool p d0) o (w / 4096 % 1024)) same
        ∙ kept w (slot_of pool p (w / 2 ^ 22)) refl
  ]
    where
      kept :
          (w : ℕ) (o : Option ℕ)
          → slot_of pool p (w / 2 ^ 22) ≡ o
          → entry_in (with_table pool p d0) o (w / 4096 % 1024) ≡ entry_in p o (w / 4096 % 1024)
      kept w none e = refl
      kept w (some k) e =
          let other : (k == p.tables_used) ≡ false =
            (let u = v.in_use (w / 2 ^ 22) k e in ground arith) in
          rw other refl

-- An entry that is written in the table of directory entry `d0`.
module _ {pool : ℕ} {p : Paging} (v : IsValid pool p) (d0 k t en : ℕ)
    (held : slot_of pool p d0 ≡ some k) (word : en < 2 ^ 32) where
  pub write_entry-IsValid : IsValid pool (write_entry p k t en)
  write_entry-IsValid = record {
    aligned = v.aligned;
    positive = v.positive;
    pool_in = v.pool_in;
    used_in = v.used_in;
    words = λ k' t'. if_both (λ x. x < 2 ^ 32) (k' == k && t' == t) word (v.words k' t');
    present = v.present;
    in_use = v.in_use;
    single = v.single;
  }

  pub write_entry-entry :
      (w : ℕ)
      → entry_of pool (write_entry p k t en) w
        ≡ (if w / 2 ^ 22 == d0 && w / 4096 % 1024 == t then en else entry_of pool p w)
  write_entry-entry w = elim (Bool-cases (w / 2 ^ 22 == d0)) [
    | inl q ↦
        let there : slot_of pool p (w / 2 ^ 22) ≡ some k =
          ap (slot_of pool p) ((==_iff (w / 2 ^ 22) d0).0 q) ∙ held in
        ap (λ o. entry_in (write_entry p k t en) o (w / 4096 % 1024)) there
        ∙ rw (==_self k) refl
        ∙ ap (λ o. if w / 4096 % 1024 == t then en else entry_in p o (w / 4096 % 1024)) (sym there)
        ∙ rw q refl
    | inr q ↦ rw q (kept (slot_of pool p (w / 2 ^ 22)) refl q)
  ]
    where
      kept :
          (o : Option ℕ)
          → slot_of pool p (w / 2 ^ 22) ≡ o
          → (w / 2 ^ 22 == d0) ≡ false
          → entry_in (write_entry p k t en) o (w / 4096 % 1024) ≡ entry_in p o (w / 4096 % 1024)
      kept none e q = refl
      kept (some k') e q = elim (Bool-cases (k' == k)) [
        | inr r ↦ rw r refl
        | inl r ↦
            let same : w / 2 ^ 22 ≡ d0 =
              v.single (w / 2 ^ 22) d0 k (e ∙ ap some ((==_iff k' k).0 r)) held in
            let clash = (==_iff (w / 2 ^ 22) d0).1 same in cc
      ]

-- The page of `virt` is at `phys`, and every other address translates as before; a table has been
-- taken from the pool if there was none for the page.
pub record Mapped (pool : ℕ) (p p' : Paging) (virt phys : ℕ) : Type 0 where
  pub valid : IsValid pool p'
  pub translates :
      (w : ℕ)
      → w < 2 ^ 32
      → translate pool p' w
        ≡ (if w / 4096 == virt / 4096 then some (phys + w % 4096) else translate pool p w)
  pub slots :
      (d : ℕ)
      → is_some (slot_of pool p' d)
        ≡ (if d == virt / 2 ^ 22 then true else is_some (slot_of pool p d))
  pub used :
      p'.tables_used
      ≡ (if is_some (slot_of pool p (virt / 2 ^ 22)) then p.tables_used else p.tables_used + 1)

-- How map_page ends on a page and a frame: it panics if the pool is empty, else it returns 0.
pub data Mapping (pool : ℕ) (p : Paging) (virt phys : ℕ) (r : Option (Paging × Bool)) : Type 0 where
  pool_empty :
      slot_of pool p (virt / 2 ^ 22) ≡ none
      → p.tables_used ≡ 256
      → r ≡ none
      → Mapping pool p virt phys r
  done :
      (p' : Paging) → r ≡ some (p', true) → Mapped pool p p' virt phys → Mapping pool p virt phys r

-- From the tables with the table of the page in place.
pub written :
    {pool : ℕ} {p p1 : Paging} (v : IsValid pool p) (v1 : IsValid pool p1) (virt phys flags k : ℕ)
    → virt < 2 ^ 32
    → phys < 2 ^ 32
    → phys % 4096 ≡ 0
    → slot_of pool p1 (virt / 2 ^ 22) ≡ some k
    → ((w : ℕ) → entry_of pool p1 w ≡ entry_of pool p w)
    → let p' = write_entry p1 k (virt / 4096 % 1024) (mapped phys flags) in
      IsValid pool p'
      × ((w : ℕ)
          → w < 2 ^ 32
          → translate pool p' w
            ≡ (if w / 4096 == virt / 4096 then some (phys + w % 4096) else translate pool p w))
written {pool} {p} {p1} v v1 virt phys flags k l m a h same =
    let en = mapped phys flags in
    let word = (mapped-target phys flags 0 m a).1 in
    let v' = write_entry-IsValid v1 (virt / 2 ^ 22) k (virt / 4096 % 1024) en h word in
    (
      v',
      λ w lw.
          let e = write_entry-entry v1 (virt / 2 ^ 22) k (virt / 4096 % 1024) en h word w in
          translate-entry v' w lw
          ∙ ap (λ x. some (target x w)) e
          ∙ elim (Bool-cases (w / 4096 == virt / 4096)) [
            | inl q ↦
                let here : (w / 2 ^ 22 == virt / 2 ^ 22 && w / 4096 % 1024 == virt / 4096 % 1024)
                    ≡ true =
                  ground arith in
                rw (q, here) (ap some (mapped-target phys flags w m a).0)
            | inr q ↦
                let there : (w / 2 ^ 22 == virt / 2 ^ 22 && w / 4096 % 1024 == virt / 4096 % 1024)
                    ≡ false =
                  ground arith in
                rw (q, there) (ap (λ x. some (target x w)) (same w) ∙ sym (translate-entry v w lw))
          ],
    )

pub get_table-new :
    {pool : ℕ} {p : Paging} (v : IsValid pool p) (virt : ℕ)
    → virt < 2 ^ 32
    → slot_of pool p (virt / 2 ^ 22) ≡ none
    → p.tables_used < 256
    → get_table pool p virt true
      ≡ some (with_table pool p (virt / 2 ^ 22), pool + p.tables_used * 4096)
unfolding get_table alloc_table
get_table-new {pool} {p} v virt l e room =
    let dir : p.directory (pd_index pool virt) ≡ 0 =
      ap p.directory (pd_index-lt pool virt l) ∙ v.present (virt / 2 ^ 22) ∙ ap (of_slot pool) e in
    let left : leb 256 p.tables_used ≡ false = ground arith in
    rw dir (rw left (rw ((slot_value v p.tables_used room).4, pd_index-lt pool virt l) refl))

pub get_table-full :
    {pool : ℕ} {p : Paging} (v : IsValid pool p) (virt : ℕ)
    → virt < 2 ^ 32
    → slot_of pool p (virt / 2 ^ 22) ≡ none
    → 256 ≤ p.tables_used
    → get_table pool p virt true ≡ none
unfolding get_table alloc_table
get_table-full {pool} {p} v virt l e full =
    let dir : p.directory (pd_index pool virt) ≡ 0 =
      ap p.directory (pd_index-lt pool virt l) ∙ v.present (virt / 2 ^ 22) ∙ ap (of_slot pool) e in
    let none_left : leb 256 p.tables_used ≡ true = ground arith in rw dir (rw none_left refl)

-- ===== src/Paging/Identity.antt =====
-- paging_init of kernel/mem/paging.c maps the memory below its limit to itself.
use Prim.Native.Nat.{bit_and}
use ronin_os.Base.{
  ℕ, zero, suc, ◌+◌, ◌-◌, ◌*◌, ◌/◌, ◌%◌, ◌^◌, ◌≤◌, ◌<◌, ◌≡◌, refl, ◌∙◌, ap, sym, subst, true, false,
  none, some, arith, ◌==◌, ltb, Bool-cases, inl, inr, is_some, add32,
}
use ronin_os.Base.Bits.{bit_and_pages}
use ronin_os.Paging.{Paging, translate, identity_loop, map_range_identity, no_tables, paging_init}
use ronin_os.Paging.Tables.{IsValid, slot_of, translate-entry}
use ronin_os.Paging.Map.{Mapped, pool_empty, done}
use ronin_os.Paging.Pages.{map_page-Mapping}

-- The directory entries that `n` pages from address 0 need.
abbrev entries : ℕ → ℕ
entries n = (n + 1023) / 1024

-- The first `n` pages are mapped to themselves, with no more tables than they need.
record IsIdentity (pool : ℕ) (p : Paging) (n : ℕ) : Type 0 where
  valid : IsValid pool p
  slots : (d : ℕ) → is_some (slot_of pool p d) ≡ ltb d (entries n)
  used : p.tables_used ≡ entries n
  maps : (w : ℕ) → w < n * 4096 → translate pool p w ≡ some w

after_page :
    {pool : ℕ} {p p' : Paging} (n : ℕ)
    → n < 2 ^ 18
    → IsIdentity pool p n
    → Mapped pool p p' (n * 4096) (n * 4096)
    → IsIdentity pool p' (n + 1)
after_page {pool} {p} {p'} n l h q =
    let dir : n * 4096 / 2 ^ 22 ≡ n / 1024 = omega arith in
    let slot = h.slots (n * 4096 / 2 ^ 22) in
    record {
      valid = q.valid;
      slots = λ d. ground (arith, q.slots d, h.slots d, dir);
      used = ground (arith, q.used, h.used, slot, dir);
      maps = λ w lw.
          q.translates w (omega arith) ∙ elim (Bool-cases (w / 4096 == n * 4096 / 4096)) [
            | inl e ↦ rw e (ap some (ground arith))
            | inr e ↦ rw e (h.maps w (ground arith))
          ];
    }

identity_loop-IsIdentity :
    (rounds pool : ℕ) (p : Paging) (n m flags : ℕ)
    → IsIdentity pool p n
    → n ≤ m
    → m ≤ 2 ^ 18
    → m - n < rounds
    → (p' : Paging) × (identity_loop pool rounds p (n * 4096) (m * 4096) flags ≡ some (p', true))
      × IsIdentity pool p' m
unfolding identity_loop
identity_loop-IsIdentity zero pool p n m flags h le ms r = absurd (omega arith)
identity_loop-IsIdentity (suc rounds) pool p n m flags h le ms r =
    elim (Bool-cases (ltb (n * 4096) (m * 4096))) [
      | inr stop ↦
          let same : n ≡ m = ground arith in (p, rw stop refl, subst (IsIdentity pool p) same h)
      | inl go ↦
          let l : n < m = ground arith in
          elim (map_page-Mapping h.valid (n * 4096) (n * 4096) flags (omega arith) (omega arith)
            (omega arith) (omega arith)) [
              | pool_empty e full _ ↦
                  let slot : false ≡ ltb (n * 4096 / 2 ^ 22) (entries n) =
                    sym (ap is_some e) ∙ h.slots (n * 4096 / 2 ^ 22) in
                  let u = h.used in absurd (ground arith)
              | done p' e q ↦
                  let next : add32 (n * 4096) 4096 ≡ (n + 1) * 4096 = omega arith in
                  let (p2, f, g) =
                    identity_loop-IsIdentity rounds pool p' (n + 1) m flags
                      (after_page n (omega arith) h q) (omega arith) ms (omega arith) in
                  (
                    p2,
                    rw go
                        (rw e (ap (λ x. identity_loop pool rounds p' x (m * 4096) flags) next ∙ f)),
                    g,
                  )
            ]
    ]

no_tables-IsIdentity :
    (pool : ℕ) (p : Paging)
    → pool % 4096 ≡ 0
    → 0 < pool
    → pool + 256 * 4096 ≤ 2 ^ 32
    → ((k t : ℕ) → p.tables k t < 2 ^ 32)
    → IsIdentity pool (no_tables pool p) 0
no_tables-IsIdentity pool p a b c words = record {
  valid = record {
    aligned = a;
    positive = b;
    pool_in = c;
    used_in = omega arith;
    words = words;
    present = λ d. refl;
    in_use = λ d k e. cc;
    single = λ d e k q r. cc;
  };
  slots = λ d. ground arith;
  used = refl;
  maps = λ w l. absurd (omega arith);
}

enabled-IsValid :
    (pool : ℕ) (p : Paging) → IsValid pool p → IsValid pool (record p { enabled = true })
enabled-IsValid pool p v = record {
  aligned = v.aligned;
  positive = v.positive;
  pool_in = v.pool_in;
  used_in = v.used_in;
  words = v.words;
  present = v.present;
  in_use = v.in_use;
  single = v.single;
}

enabled-translate :
    (pool : ℕ) (p : Paging) (w : ℕ)
    → IsValid pool p
    → w < 2 ^ 32
    → translate pool (record p { enabled = true }) w ≡ translate pool p w
enabled-translate pool p w v l =
    translate-entry (enabled-IsValid pool p v) w l ∙ sym (translate-entry v w l)

range_from_zero :
    (pool : ℕ) (p : Paging) (limit flags : ℕ)
    → 0 < limit
    → limit ≤ 2 ^ 30
    → map_range_identity pool p 0 limit flags
      ≡ identity_loop pool (2 ^ 20) p 0 ((limit + 4095) / 4096 * 4096) flags
unfolding map_range_identity
range_from_zero pool p limit flags low high =
    let m = (limit + 4095) / 4096 in
    let some_bytes : (limit == 0) ≡ false = ground arith in
    let end : bit_and (add32 (add32 0 limit) 0xfff) 0xffff_f000 ≡ m * 4096 =
      bit_and_pages (add32 (add32 0 limit) 0xfff) (omega arith) ∙ omega arith in
    let zero_page : bit_and 0 0xffff_f000 ≡ 0 = bit_and_pages 0 (omega arith) in
    let order : ltb (m * 4096) 0 ≡ false = ground arith in
    rw (some_bytes, map_range_identity) (rw end (rw zero_page (rw order refl)))

-- paging_init, of a pool that is aligned and lies below 4 GB and with no framebuffer, does not panic
-- and maps every address below its limit, of at most 1 GB, to itself.
pub paging_init-translate :
    (pool : ℕ) (p : Paging) (limit : ℕ)
    → pool % 4096 ≡ 0
    → 0 < pool
    → pool + 256 * 4096 ≤ 2 ^ 32
    → ((k t : ℕ) → p.tables k t < 2 ^ 32)
    → 0 < limit
    → limit ≤ 2 ^ 30
    → (p' : Paging) × (paging_init pool p limit none ≡ some p')
      × IsValid pool p'
      × ((w : ℕ) → w < limit → translate pool p' w ≡ some w)
unfolding paging_init
paging_init-translate pool p limit a b c words low high =
    let m = (limit + 4095) / 4096 in
    let (p', e, h) =
      identity_loop-IsIdentity (2 ^ 20) pool (no_tables pool p) 0 m 2
        (no_tables-IsIdentity pool p a b c words) (omega arith) (omega arith) (omega arith) in
    (
      record p' { enabled = true },
      rw (range_from_zero pool (no_tables pool p) limit 2 low high ∙ e, paging_init) refl,
      enabled-IsValid pool p' h.valid,
      λ w l. enabled-translate pool p' w h.valid (omega arith) ∙ h.maps w (omega arith),
    )

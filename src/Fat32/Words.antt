-- ===== src/Fat32/Words.antt =====
-- The words and entries that kernel/fs/fat32.c writes to a sector buffer, read back.
use ronin_os.Base.{ℕ, ◌+◌, ◌-◌, ◌/◌, ◌%◌, ◌^◌, ◌≤◌, ◌<◌, ◌≡◌, ◌∙◌, ap, ◌⊎◌, inl, arith}
use ronin_os.Fat32.{Sector, attr_archive}
use ronin_os.Fat32.Bytes.{rd16, rd32, wr16, wr32, put8, put_bytes, zero_bytes}
use ronin_os.Fat32.Files.{put_entry, cluster_in}

pub rd32-wr32 : (p : Sector) (i v : ℕ) → v < 2 ^ 32 → rd32 (wr32 p i v) i ≡ v
unfolding rd32 wr32
rd32-wr32 p i v l = ground arith

pub wr32_ne : (p : Sector) (i v j : ℕ) → (j < i) ⊎ (i + 4 ≤ j) → wr32 p i v j ≡ p j
unfolding wr32
wr32_ne p i v j h = ground arith

-- A word at another place, both at multiples of four.
pub rd32-wr32_ne :
    (p : Sector) (i v j : ℕ) → (j + 4 ≤ i) ⊎ (i + 4 ≤ j) → rd32 (wr32 p i v) j ≡ rd32 p j
unfolding rd32
rd32-wr32_ne p i v j h =
    ground
      (arith, wr32_ne p i v j, wr32_ne p i v (j + 1), wr32_ne p i v (j + 2), wr32_ne p i v (j + 3))

-- A half word.
pub rd16-wr16 : (p : Sector) (i v : ℕ) → v < 2 ^ 16 → rd16 (wr16 p i v) i ≡ v
unfolding rd16 wr16
rd16-wr16 p i v l = ground arith

wr16_ne : (p : Sector) (i v j : ℕ) → (j < i) ⊎ (i + 2 ≤ j) → wr16 p i v j ≡ p j
unfolding wr16
wr16_ne p i v j h = ground arith

rd16-wr16_ne : (p : Sector) (i v j : ℕ) → (j + 2 ≤ i) ⊎ (i + 2 ≤ j) → rd16 (wr16 p i v) j ≡ rd16 p j
unfolding rd16
rd16-wr16_ne p i v j h = ground (arith, wr16_ne p i v j, wr16_ne p i v (j + 1))

rd16-wr32_ne : (p : Sector) (i v j : ℕ) → (j + 2 ≤ i) ⊎ (i + 4 ≤ j) → rd16 (wr32 p i v) j ≡ rd16 p j
unfolding rd16
rd16-wr32_ne p i v j h = ground (arith, wr32_ne p i v j, wr32_ne p i v (j + 1))

module _ (sec : Sector) (off : ℕ) (name : ℕ → ℕ) (cluster len : ℕ) where
  pub put_entry_ne :
      (j : ℕ) → (j < off) ⊎ (off + 32 ≤ j) → put_entry sec off name cluster len j ≡ sec j
  unfolding put_entry put_bytes zero_bytes wr16
  put_entry_ne j h = ground (
    arith,
    wr32_ne
        (wr16
          (wr16 (put8 (put_bytes (zero_bytes sec off 32) off name 11) (off + 11) attr_archive)
            (off + 20) (cluster / 2 ^ 16 % 2 ^ 16))
          (off + 26) (cluster % 2 ^ 16))
        (off + 28) len j,
  )

  pub put_entry-name : (k : ℕ) → k < 11 → put_entry sec off name cluster len (off + k) ≡ name k
  unfolding put_entry put_bytes zero_bytes wr16
  put_entry-name k l =
      (let back : off + k - off ≡ k = omega arith in
        ground (
          arith,
          wr32_ne
              (wr16
                (wr16 (put8 (put_bytes (zero_bytes sec off 32) off name 11) (off + 11) attr_archive)
                  (off + 20) (cluster / 2 ^ 16 % 2 ^ 16))
                (off + 26) (cluster % 2 ^ 16))
              (off + 28) len (off + k),
          ap name back,
        ))

  pub put_entry-attr : put_entry sec off name cluster len (off + 11) ≡ attr_archive
  unfolding put_entry put_bytes zero_bytes wr16 wr32
  put_entry-attr = ground arith

  pub put_entry-cluster :
      cluster < 2 ^ 32 → cluster_in (put_entry sec off name cluster len) off ≡ cluster
  unfolding put_entry
  put_entry-cluster l =
      let start = put8 (put_bytes (zero_bytes sec off 32) off name 11) (off + 11) attr_archive in
      let high = cluster / 2 ^ 16 % 2 ^ 16 in
      let low = cluster % 2 ^ 16 in
      let with_high = wr16 start (off + 20) high in
      let with_both = wr16 with_high (off + 26) low in
      let upper : rd16 (wr32 with_both (off + 28) len) (off + 20) ≡ high =
        rd16-wr32_ne with_both (off + 28) len (off + 20) (inl (omega arith))
        ∙ rd16-wr16_ne with_high (off + 26) low (off + 20) (inl (omega arith))
        ∙ rd16-wr16 start (off + 20) high (omega arith) in
      let lower : rd16 (wr32 with_both (off + 28) len) (off + 26) ≡ low =
        rd16-wr32_ne with_both (off + 28) len (off + 26) (inl (omega arith))
        ∙ rd16-wr16 with_high (off + 26) low (omega arith) in
      omega (arith, upper, lower)

  pub put_entry-len : len < 2 ^ 32 → rd32 (put_entry sec off name cluster len) (off + 28) ≡ len
  unfolding put_entry
  put_entry-len l = rd32-wr32 _ (off + 28) len l

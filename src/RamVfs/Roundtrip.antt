-- ===== src/RamVfs/Roundtrip.antt =====
-- vfs_write and vfs_read of kernel/fs/vfs.c on a file of kernel/fs/ramfs.c.
use Prim.Native.Nat.{bit_and}
use ronin_os.Base.{
  ℕ, ◌+◌, ◌-◌, ◌≤◌, ◌<◌, ◌≡◌, refl, ◌≢◌, ◌∙◌, ap, true, false, not, ◌&&◌, ◌||◌, Option, some, arith,
  ◌==◌, leb, ltb, if◌then◌else◌,
}
use ronin_os.Text.{pos}
use ronin_os.Vfs.{Vfs, o_wronly, o_rdwr}
use ronin_os.Vfs.Files.{advance, vfs_read, vfs_write}
use ronin_os.Vfs.Descriptors.{vfs_read_lem, vfs_write_lem}
use ronin_os.Ramfs.{Nodes, fs_read, fs_write}
use ronin_os.Ramfs.Content.{fs_read-fs_write}
use ronin_os.RamVfs.{Ram, ram_read, ram_write, ramfs_ops}

-- The descriptor is open on the entry `f` of the file system in memory.
pub record OpenOn (rounds : ℕ) (v : Vfs Ram (Option ℕ)) (i f : ℕ) : Type 0 where
  pub below : i < 32
  pub used : (v.fds i).used ≡ true
  pub ops : (v.fds i).ops ≡ ramfs_ops rounds
  pub node : (v.fds i).node ≡ some f

-- What the file system does, on a buffer that is not NULL.
ram_write_lem :
    (w : Ram) (f offset buf n k : ℕ) (s : Nodes)
    → (buf == 0) ≡ false
    → fs_write w.nodes (some f) offset (some (λ q. w.memory (buf + q))) n ≡ some (s, k)
    → ram_write w (some f) offset buf n ≡ (record w { nodes = s }, pos k)
ram_write_lem w f offset buf n k s real e = rw (real, ram_write) (rw e refl)

ram_read_lem :
    (w : Ram) (f offset buf n k : ℕ) (got : ℕ → ℕ)
    → (buf == 0) ≡ false
    → fs_read w.nodes (some f) offset (some (λ q. w.memory (buf + q))) n ≡ some (got, k)
    → ram_read w (some f) offset buf n
      ≡ (record w { memory = λ a. if leb buf a then got (a - buf) else w.memory a }, pos k)
ram_read_lem w f offset buf n k got real e = rw (real, ram_read) (rw e refl)

module _ {rounds : ℕ} {v : Vfs Ram (Option ℕ)} {i f : ℕ} (h : OpenOn rounds v i f) where
  guard : (leb 32 i || not (v.fds i).used) ≡ false
  guard = (let a = h.below in let b = h.used in ground arith)

  write_step :
      (w : Ram) (buf n k : ℕ) (s : Nodes)
      → (bit_and (v.fds i).flags o_wronly == 0 && not (bit_and (v.fds i).flags o_rdwr == o_rdwr))
        ≡ false
      → (buf == 0) ≡ false
      → fs_write w.nodes (some f) (v.fds i).pos (some (λ q. w.memory (buf + q))) n ≡ some (s, k)
      → vfs_write v w (pos i) buf n ≡ (advance v i (pos k), record w { nodes = s }, pos k)
  write_step w buf n k s flags real e =
      vfs_write_lem v w i buf n (pos k) _ _ guard (ap (λ o. o.write) h.ops) flags (
        ap (λ x. ram_write w x (v.fds i).pos buf n) h.node
        ∙ ram_write_lem w f (v.fds i).pos buf n k s real e)

  read_step :
      (w : Ram) (buf n k : ℕ) (got : ℕ → ℕ)
      → (bit_and (v.fds i).flags o_wronly == o_wronly) ≡ false
      → (buf == 0) ≡ false
      → fs_read w.nodes (some f) (v.fds i).pos (some (λ q. w.memory (buf + q))) n ≡ some (got, k)
      → vfs_read v w (pos i) buf n ≡ (
        advance v i (pos k),
        record w { memory = λ a. if leb buf a then got (a - buf) else w.memory a },
        pos k,
      )
  read_step w buf n k got flags real e =
      vfs_read_lem v w i buf n (pos k) _ _ guard (ap (λ o. o.read) h.ops) flags (
        ap (λ x. ram_read w x (v.fds i).pos buf n) h.node
        ∙ ram_read_lem w f (v.fds i).pos buf n k got real e)

-- The same descriptor after another one has moved.
moved-OpenOn :
    {rounds : ℕ} {v : Vfs Ram (Option ℕ)} {j f : ℕ} (i k : ℕ)
    → (j == i) ≡ false
    → OpenOn rounds v j f
    → OpenOn rounds (advance v i (pos k)) j f
moved-OpenOn i k ne h = record {
  below = h.below;
  used = rw ne h.used;
  ops = rw ne h.ops;
  node = rw ne h.node;
}

-- What vfs_write writes, from a buffer that is not NULL, through a descriptor that may be written
-- and stands inside a file of at most 512 bytes of the file system in memory, vfs_read through
-- another descriptor of the file, which may be read and stands at the same place, reads into a
-- buffer that is not NULL: as many bytes, and the same.
pub vfs_read-vfs_write :
    (rounds : ℕ) (v : Vfs Ram (Option ℕ)) (w : Ram) (i j f from to n : ℕ)
    → OpenOn rounds v i f
    → OpenOn rounds v j f
    → j ≢ i
    → (v.fds j).pos ≡ (v.fds i).pos
    → (bit_and (v.fds i).flags o_wronly == 0 && not (bit_and (v.fds i).flags o_rdwr == o_rdwr))
      ≡ false
    → (bit_and (v.fds j).flags o_wronly == o_wronly) ≡ false
    → from ≢ 0
    → to ≢ 0
    → (w.nodes f).is_dir ≡ false
    → (w.nodes f).size ≤ 512
    → (v.fds i).pos ≤ (w.nodes f).size
    → (v1 : Vfs Ram (Option ℕ)) × (w1 : Ram) × (k : ℕ) × (vfs_write v w (pos i) from n
        ≡ (v1, w1, pos k))
      × (v2 : Vfs Ram (Option ℕ)) × (w2 : Ram) × (vfs_read v1 w1 (pos j) to k ≡ (v2, w2, pos k))
      × ((q : ℕ) → q < k → w2.memory (to + q) ≡ w.memory (from + q))
vfs_read-vfs_write rounds v w i j f from to n hi hj ne same writes reads a b d m o =
    let (s, k, e, got, g, bytes) =
      fs_read-fs_write w.nodes f (v.fds i).pos (λ q. w.memory (from + q)) (λ q. w.memory (to + q)) n
        d m o in
    let other : (j == i) ≡ false = ground arith in
    let v1 = advance v i (pos k) in
    let place : (v1.fds j).pos ≡ (v.fds i).pos = rw other same in
    let read_flags : (bit_and (v1.fds j).flags o_wronly == o_wronly) ≡ false = rw other reads in
    let w1 : Ram = record w { nodes = s } in
    (
      v1,
      w1,
      k,
      write_step hi w from n k s writes (ground arith) e,
      advance v1 j (pos k),
      record w1 { memory = λ x. if leb to x then got (x - to) else w1.memory x },
      read_step (moved-OpenOn {rounds = rounds} {v = v} {j = j} {f = f} i k other hj) w1 to k k got
          read_flags (ground arith)
          (ap (λ x. fs_read s (some f) x (some (λ q. w.memory (to + q))) k) place ∙ g),
      λ q l.
          let here : leb to (to + q) ≡ true = ground arith in
          let back : to + q - to ≡ q = omega arith in
          let inside : ltb q k ≡ true = ground arith in rw (here, back) (bytes q ∙ rw inside refl),
    )

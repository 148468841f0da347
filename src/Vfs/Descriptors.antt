-- ===== src/Vfs/Descriptors.antt =====
-- The descriptors of kernel/fs/vfs.c.
use Prim.Native.Nat.{bit_and}
use ronin_os.Base.{
  ℕ, zero, suc, ◌+◌, ◌≤◌, ◌<◌, ◌≡◌, refl, ◌∙◌, ap, sym, true, false, not, ◌||◌, ◌&&◌, Option, none,
  some, List, arith, ◌==◌, ==_iff, ==_self, leb, Bool-cases, Option-cases, inl, inr,
}
use ronin_os.Text.{ℤ, pos}
use ronin_os.Vfs.{Vfs, Fd, FsOps, o_wronly, o_rdwr}
use ronin_os.Vfs.Files.{failed, open_file, with_fd, fd_loop, vfs_open, vfs_read, vfs_write, advance}

module _ {W N : Type 0} where
  abbrev InUse : Vfs W N → (from to : ℕ) → Type 0
  InUse v from to = (j : ℕ) → from ≤ j → j < to → (v.fds j).used ≡ true

  -- A search for a free descriptor from `from` up to `to`.
  data Slot (v : Vfs W N) (fd : Fd W N) (from to : ℕ) (r : Vfs W N × ℤ) : Type 0 where
    no_slot : InUse v from to → r ≡ (v, failed) → Slot v fd from to r
    slot :
        (i : ℕ)
        → from ≤ i
        → i < to
        → (v.fds i).used ≡ false
        → InUse v from i
        → r ≡ (with_fd v i fd, pos i)
        → Slot v fd from to r

  extend : (v : Vfs W N) (i k : ℕ) → (v.fds i).used ≡ true → InUse v (i + 1) k → InUse v i k
  extend v i k u h j a b = elim (Bool-cases (i == j)) [
    | inl e ↦ (let q = ap (λ n. (v.fds n).used) ((==_iff i j).0 e) in sym q ∙ u)
    | inr e ↦ h j (ground arith) b
  ]

  fd_loop-Slot :
      (rounds : ℕ) (v : Vfs W N) (i : ℕ) (fd : Fd W N)
      → Slot v fd i (i + rounds) (fd_loop rounds v i fd)
  unfolding fd_loop
  fd_loop-Slot zero v i fd = no_slot (λ j a b. absurd (omega arith)) refl
  fd_loop-Slot (suc rounds) v i fd = elim (Bool-cases (v.fds i).used) [
    | inr u ↦ rw u (slot i (omega arith) (omega arith) u (λ j a b. absurd (omega arith)) refl)
    | inl u ↦
        let next : i + suc rounds ≡ i + 1 + rounds = omega arith in
        rw (u, next)
          (elim (fd_loop-Slot rounds v (i + 1) fd) [
            | no_slot h q ↦ no_slot (extend v i _ u h) q
            | slot k a b c h q ↦ slot k (omega arith) b c (extend v i k u h) q
          ])
  ]

  -- How vfs_open ends: the state, what the file systems keep, and the result.
  pub data Opening (v : Vfs W N) (flags : ℕ) (file : W × Option (FsOps W N × N))
      (r : Vfs W N × W × ℤ) : Type 0 where
    no_file : file.1 ≡ none → r ≡ (v, file.0, failed) → Opening v flags file r
    table_full :
        ((j : ℕ) → j < 32 → (v.fds j).used ≡ true)
        → r ≡ (v, file.0, failed)
        → Opening v flags file r
    opened :
        (i : ℕ) (ops : FsOps W N) (node : N)
        → file.1 ≡ some (ops, node)
        → i < 32
        → (v.fds i).used ≡ false
        → ((j : ℕ) → j < i → (v.fds j).used ≡ true)
        → r ≡ (
          with_fd v i (record { used = true; flags = flags; ops = ops; node = node; pos = 0 }),
          file.0,
          pos i,
        )
        → Opening v flags file r

  -- vfs_open, once the file is found or created, takes the free descriptor of the lowest number for it,
  -- at its start; it returns -1 and leaves the descriptors alone if there is no file or none is free.
  pub vfs_open-Opening :
      (v : Vfs W N) (w : W) (path : Option (List ℕ)) (flags : ℕ)
      → Opening v flags (open_file v w path flags) (vfs_open v w path flags)
  unfolding vfs_open
  vfs_open-Opening v w path flags = elim (Option-cases (open_file v w path flags).1) [
    | inl e ↦ no_file e (rw (e, vfs_open) refl)
    | inr ((ops, node), e) ↦
        elim (fd_loop-Slot 32 v 0
          (record { used = true; flags = flags; ops = ops; node = node; pos = 0 })) [
            | no_slot h q ↦ table_full (λ j l. h j (omega arith) l) (rw (e, vfs_open) (rw q refl))
            | slot i a l u h q ↦
                opened i ops node e l u (λ j k. h j (omega arith) k) (rw (e, vfs_open) (rw q refl))
          ]
  ]

  read_refused :
      (v : Vfs W N) (u : W) (i buf n : ℕ)
      → bit_and (v.fds i).flags o_wronly ≡ o_wronly
      → vfs_read v u (pos i) buf n ≡ (v, u, failed)
  unfolding vfs_read
  read_refused v u i buf n b =
      let refused : (bit_and (v.fds i).flags o_wronly == o_wronly) ≡ true = (==_iff _ _).1 b in
      elim (Bool-cases (leb 32 i || not (v.fds i).used)) [
        | inl closed ↦ rw (closed, vfs_read) refl
        | inr valid ↦ elim (Option-cases (v.fds i).ops.read) [
          | inl e ↦ rw (valid, vfs_read) (rw e refl)
          | inr (read, e) ↦ rw (valid, vfs_read) (rw e (rw refused refl))
        ]
      ]

  -- A descriptor that vfs_open has opened with the bit of VFS_O_WRONLY, which VFS_O_RDWR has too, cannot
  -- be read: vfs_read of it returns -1 and changes nothing.
  pub vfs_read-vfs_open :
      (v v' : Vfs W N) (w w' u : W) (path : Option (List ℕ)) (flags i buf n : ℕ)
      → vfs_open v w path flags ≡ (v', w', pos i)
      → bit_and flags o_wronly ≡ o_wronly
      → vfs_read v' u (pos i) buf n ≡ (v', u, failed)
  unfolding vfs_read
  vfs_read-vfs_open v v' w w' u path flags i buf n e b = elim (vfs_open-Opening v w path flags) [
    | no_file _ q ↦ absurd (let k = sym e ∙ q in cc)
    | table_full _ q ↦ absurd (let k = sym e ∙ q in cc)
    | opened k ops node _ l _ _ q ↦
        let r = sym e ∙ q in
        let state : v'
            ≡ with_fd v k (record { used = true; flags = flags; ops = ops; node = node; pos = 0 }) =
          ap (λ x. x.0) r in
        let same : i ≡ k = cc in
        let kept : (v'.fds i).flags ≡ flags =
          ap (λ x. (x.fds i).flags) state ∙ rw (same, ==_self k) refl in
        read_refused v' u i buf n (ap (λ f. bit_and f o_wronly) kept ∙ b)
  ]

  -- vfs_write and vfs_read of an open descriptor are the calls of its file system, and then the step of
  -- its position.
  pub vfs_write_lem :
      (v : Vfs W N) (w : W) (i buf n : ℕ) (rc : ℤ) (w' : W)
      (write : W → N → (offset buf n : ℕ) → W × ℤ)
      → (leb 32 i || not (v.fds i).used) ≡ false
      → (v.fds i).ops.write ≡ some write
      → (bit_and (v.fds i).flags o_wronly == 0 && not (bit_and (v.fds i).flags o_rdwr == o_rdwr))
        ≡ false
      → write w (v.fds i).node (v.fds i).pos buf n ≡ (w', rc)
      → vfs_write v w (pos i) buf n ≡ (advance v i rc, w', rc)
  unfolding vfs_write
  vfs_write_lem v w i buf n rc w' write valid e flags q =
      rw (valid, vfs_write) (rw e (rw flags (ap (λ (r : W × ℤ). (advance v i r.1, r.0, r.1)) q)))

  pub vfs_read_lem :
      (v : Vfs W N) (w : W) (i buf n : ℕ) (rc : ℤ) (w' : W)
      (read : W → N → (offset buf n : ℕ) → W × ℤ)
      → (leb 32 i || not (v.fds i).used) ≡ false
      → (v.fds i).ops.read ≡ some read
      → (bit_and (v.fds i).flags o_wronly == o_wronly) ≡ false
      → read w (v.fds i).node (v.fds i).pos buf n ≡ (w', rc)
      → vfs_read v w (pos i) buf n ≡ (advance v i rc, w', rc)
  unfolding vfs_read
  vfs_read_lem v w i buf n rc w' read valid e flags q =
      rw (valid, vfs_read) (rw e (rw flags (ap (λ (r : W × ℤ). (advance v i r.1, r.0, r.1)) q)))

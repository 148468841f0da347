-- ===== src/Fat32/Reliable.antt =====
-- A block device that keeps what is written: what kernel/fs/fat32.c relies on, below the device's size.
use ronin_os.Base.{
  ℕ, ◌<◌, ◌≡◌, ◌≢◌, refl, ◌∙◌, ap, Bool, true, false, Option, some, arith, ◌==◌, ==_self,
  if◌then◌else◌,
}
use ronin_os.Fat32.{Sector, Device, Store, ok, Message, on_error, io_read, io_write}
use ronin_os.Fat32.Steps.{on_error-ok}

-- `sector d lba` is the sector that the device holds.
pub record Reliable {D : Type 0} (dev : Device D) (sector : D → ℕ → Sector) : Type 0 where
  pub read : D → (lba count : ℕ) → Option Sector
  pub write : D → (lba count : ℕ) → Sector → D × Bool
  pub reads : dev.ops.read ≡ some read
  pub writes : dev.ops.write ≡ some write
  pub read_is : (d : D) (lba : ℕ) → lba < dev.total_sectors → read d lba 1 ≡ some (sector d lba)
  pub write_done :
      (d : D) (lba : ℕ) (b : Sector) → lba < dev.total_sectors → (write d lba 1 b).1 ≡ true
  pub write_is :
      (d : D) (lba : ℕ) (b : Sector) (l : ℕ)
      → lba < dev.total_sectors
      → sector (write d lba 1 b).0 l ≡ (if l == lba then b else sector d l)

eq_ne : (a b : ℕ) → a ≢ b → (a == b) ≡ false
eq_ne a b n = ground arith

module _ {D : Type 0} {dev : Device D} {sector : D → ℕ → Sector} (h : Reliable dev sector) where
  abbrev pub put : D → ℕ → Sector → D
  put d lba b = (h.write d lba 1 b).0

  pub io_read-ok :
      (lba : ℕ) (s : Store D)
      → lba < dev.total_sectors
      → io_read dev lba 1 s ≡ (ok (sector s.disk lba), s)
  unfolding io_read
  io_read-ok lba s l = rw (h.reads, io_read) (rw (h.read_is s.disk lba l) refl)

  pub io_write-ok :
      (lba : ℕ) (b : Sector) (s : Store D)
      → lba < dev.total_sectors
      → io_write dev lba 1 b s ≡ (ok tt, record s { disk = put s.disk lba b })
  unfolding io_write
  io_write-ok lba b s l = rw (h.writes, io_write) (rw (h.write_done s.disk lba b l) refl)

  pub put_self :
      (d : D) (lba : ℕ) (b : Sector) → lba < dev.total_sectors → sector (put d lba b) lba ≡ b
  put_self d lba b l =
      h.write_is d lba b lba l ∙ ap (λ c. if c then b else sector d lba) (==_self lba)

  pub put_ne :
      (d : D) (lba : ℕ) (b : Sector) (j : ℕ)
      → lba < dev.total_sectors
      → j ≢ lba
      → sector (put d lba b) j ≡ sector d j
  put_ne d lba b j l n =
      h.write_is d lba b j l ∙ ap (λ c. if c then b else sector d j) (eq_ne j lba n)

  pub read_or :
      (lba : ℕ) (e : Message) (s : Store D)
      → lba < dev.total_sectors
      → on_error (io_read dev lba 1) e s ≡ (ok (sector s.disk lba), s)
  read_or lba e s l = on_error-ok (io_read dev lba 1) e (io_read-ok lba s l)

  pub write_or :
      (lba : ℕ) (b : Sector) (e : Message) (s : Store D)
      → lba < dev.total_sectors
      → on_error (io_write dev lba 1 b) e s ≡ (ok tt, record s { disk = put s.disk lba b })
  write_or lba b e s l = on_error-ok (io_write dev lba 1 b) e (io_write-ok lba b s l)

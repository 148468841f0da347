-- ===== src/Devices.antt =====
-- kernel/block/blockdev.c and blockdev.h: the registry of block devices. A device's functions and its
-- context are opaque words, 0 for NULL; its name is the text in `name[8]`.
pub mod Names
mod Tests
use ronin_os.Base.{
  ℕ, zero, suc, ◌+◌, ◌-◌, Bool, true, false, not, ◌&&◌, ◌||◌, Option, none, some, List, [], ◌∷◌,
  ◌==◌, leb, ltb, if◌then◌else◌, get_or,
}
use ronin_os.Text.Strings.{text_eq}

abbrev pub blockdev_max : ℕ
blockdev_max = 8

pub record BlockDevice : Type 0 where
  pub name : List ℕ
  pub kind : ℕ
  pub sector_size : ℕ
  pub sector_count : ℕ
  pub read : ℕ
  pub write : ℕ
  pub ctx : ℕ

pub record Registry : Type 0 where
  pub devices : ℕ → BlockDevice
  pub count : ℕ

abbrev pub zero_device : BlockDevice
zero_device = record {
  name = [];
  kind = 0;
  sector_size = 0;
  sector_count = 0;
  read = 0;
  write = 0;
  ctx = 0;
}

pub block_init : Registry
block_init = record { devices = λ i. zero_device; count = 0 }

-- The new registry, and whether 0 is returned.
pub block_register : Registry → Option BlockDevice → Registry × Bool
block_register r none = (r, false)
block_register r (some dev) =
    if dev.read == 0 || dev.sector_size == 0 || dev.sector_count == 0
    then (r, false)
    else if leb blockdev_max r.count
    then (r, false)
    else (
      record r { devices = λ i. if i == r.count then dev else r.devices i; count = r.count + 1 },
      true,
    )

pub block_count : Registry → ℕ
block_count r = r.count

-- The index of the entry that the pointer points to.
pub block_get : Registry → ℕ → Option ℕ
block_get r index = if leb r.count index then none else some index

-- The loop of block_find with the rounds that are left.
pub find_from : ℕ → Registry → ℕ → List ℕ → Option ℕ
find_from zero r i name = none
find_from (suc rounds) r i name =
    let rest = find_from rounds r (i + 1) name in
    if text_eq (r.devices i).name name then some i else rest

pub block_find : Registry → Option (List ℕ) → Option ℕ
block_find r none = none
block_find r (some name) = find_from r.count r 0 name

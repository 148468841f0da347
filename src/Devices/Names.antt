-- ===== src/Devices/Names.antt =====
-- Looking up the devices of kernel/block/blockdev.c by name.
use ronin_os.Base.{
  ℕ, zero, suc, ◌+◌, ◌<◌, ◌≡◌, refl, ◌≢◌, ◌∙◌, ap, true, false, ◌||◌, none, some, List, arith, ◌==◌,
  leb, if◌then◌else◌, Bool-cases, inl, inr,
}
use ronin_os.Text.Strings.{text_eq}
use ronin_os.Devices.{BlockDevice, Registry, block_register, find_from, block_find}

-- A device that block_register accepts.
pub record Accepted (r : Registry) (dev : BlockDevice) : Type 0 where
  pub readable : dev.read ≢ 0
  pub sized : dev.sector_size ≢ 0
  pub counted : dev.sector_count ≢ 0
  pub room : r.count < 8

abbrev pub added : Registry → BlockDevice → Registry
added r dev = record r {
  devices = λ i. if i == r.count then dev else r.devices i;
  count = r.count + 1;
}

find_from-added :
    (rounds : ℕ) (r : Registry) (dev : BlockDevice) (i : ℕ) (name : List ℕ)
    → i + rounds ≡ r.count
    → find_from (suc rounds) (added r dev) i name ≡ elim (find_from rounds r i name) [
      | some j ↦ some j
      | none ↦ if text_eq dev.name name then some r.count else none
    ]
unfolding find_from
find_from-added zero r dev i name e =
    let last : (i == r.count) ≡ true = ground arith in
    let at : i ≡ r.count = omega arith in
    rw last (ap (λ k. if text_eq dev.name name then some k else none) at)
find_from-added (suc rounds) r dev i name e =
    let inside : (i == r.count) ≡ false = ground arith in
    let ih = find_from-added rounds r dev (i + 1) name (omega arith) in
    elim (Bool-cases (text_eq (r.devices i).name name)) [
      | inl h ↦ rw inside (rw h refl)
      | inr h ↦ rw inside (rw h ih)
    ]

-- block_register of a device with a read function and sectors, while there is room, adds it: a name
-- that was found is found as before, and another name is now found exactly if it is the new device's.
pub block_find-block_register :
    (r : Registry) (dev : BlockDevice) (name : List ℕ)
    → Accepted r dev
    → ((block_register r (some dev)).1 ≡ true)
      × (block_find (block_register r (some dev)).0 (some name) ≡ elim (block_find r (some name)) [
        | some j ↦ some j
        | none ↦ if text_eq dev.name name then some r.count else none
      ])
unfolding block_register block_find
block_find-block_register r dev name a =
    let fine : (dev.read == 0 || dev.sector_size == 0 || dev.sector_count == 0) ≡ false =
      (let x = a.readable in let y = a.sized in let z = a.counted in ground arith) in
    let room : leb 8 r.count ≡ false = (let x = a.room in ground arith) in
    let one_more : r.count + 1 ≡ suc r.count = omega arith in
    rw fine (
      rw room (
        refl,
        ap (λ n. find_from n (added r dev) 0 name) one_more
            ∙ find_from-added r.count r dev 0 name (omega arith),
      ))

-- ===== src/Fs/Cache.antt =====
-- kernel/fs/basefs/backend/io_x86.c: a disk behind a write-back cache of one sector. The fields of
-- FSDeviceContext that only this file uses are a record of their own.
pub mod Content
pub mod Bytes
pub mod Sync
pub mod Clean
use avr_kernel.Base.{
  ℕ, zero, suc, ◌+◌, ◌-◌, ◌/◌, ◌%◌, ◌^◌, Bool, true, false, not, ◌&&◌, Option, none, some,
  if◌then◌else◌, ◌==◌, ◌!=◌, add32, upd,
}

-- The drive: its sectors, how often it was accessed, and which accesses succeed. The commands of the
-- two drivers read or write a whole sector; one that fails changes nothing.
pub record Drive : Type 0 where
  pub sectors : ℕ → ℕ → ℕ
  pub accesses : ℕ
  pub works : ℕ → Bool

-- `window` has the bytes at `device_address`, and `ports` the signatures of the AHCI ports.
pub record Cache : Type 0 where
  pub device_type : ℕ
  pub sector_frame : ℕ
  pub sector_dirty : Bool
  pub window : ℕ → ℕ
  pub drive : Drive
  pub ports : ℕ → Option ℕ

abbrev pub sector_bytes : ℕ
sector_bytes = 512

abbrev pub no_sector : ℕ
no_sector = 2 ^ 32 - 1

abbrev pub device_ata : ℕ
device_ata = 0

abbrev pub device_ahci : ℕ
device_ahci = 1

abbrev pub ahci_dev_sata : ℕ
ahci_dev_sata = 0x101

-- The drivers' commands.
pub write_sector : (sector : ℕ) → Cache → Bool × Cache
write_sector sector c =
    let d = c.drive in
    let tried = record d { accesses = d.accesses + 1 } in
    if d.works d.accesses
    then (true, record c { drive = record tried { sectors = upd d.sectors sector c.window } })
    else (false, record c { drive = tried })

pub read_sector : (sector : ℕ) → Cache → Bool × Cache
read_sector sector c =
    let d = c.drive in
    let tried = record d { accesses = d.accesses + 1 } in
    if d.works d.accesses
    then (true, record c { window = d.sectors sector; drive = tried })
    else (false, record c { drive = tried })

pub flush_drive : Cache → Bool × Cache
flush_drive c =
    let d = c.drive in
    (d.works d.accesses, record c { drive = record d { accesses = d.accesses + 1 } })

-- The first of 32 ports with a SATA disk.
pub ahci_get_active_port : (rounds i : ℕ) → (ℕ → Option ℕ) → Option ℕ
ahci_get_active_port zero i ports = none
ahci_get_active_port (suc rounds) i ports =
    let rest = ahci_get_active_port rounds (i + 1) ports in
    elim (ports i) [
      | none ↦ rest
      | some signature ↦ if signature == ahci_dev_sata then some i else rest
    ]

-- The write-back of a dirty sector, and whether it was done.
pub write_dirty : Cache → Bool × Cache
write_dirty c =
    let (done, c') = write_sector c.sector_frame c in
    if c.sector_dirty && c.sector_frame != no_sector
    then (done, if done then record c' { sector_dirty = false } else c')
    else (true, c)

-- What both kinds of drive do at a miss.
pub load_sector : (target_sector : ℕ) → Cache → Bool × Cache
load_sector target_sector c =
    let (written, c') = write_dirty c in
    let (loaded, c'') = read_sector target_sector c' in
    if written
    then (loaded, if loaded then record c'' { sector_frame = target_sector } else c'')
    else (false, c')

pub fs_cache_flush_and_fetch : (target_sector : ℕ) → Cache → Bool × Cache
fs_cache_flush_and_fetch target_sector c =
    if c.sector_frame == target_sector
    then (true, c)
    else if c.device_type == device_ata
    then load_sector target_sector c
    else if c.device_type == device_ahci
    then elim (ahci_get_active_port 32 0 c.ports) [
      | none ↦ (false, c)
      | some port ↦ load_sector target_sector c
    ]
    else (true, c)

-- The write-back without a look at the driver's answer.
pub write_out : Cache → Cache
write_out c =
    if c.sector_dirty && c.sector_frame != no_sector
    then record (write_sector c.sector_frame c).1 { sector_dirty = false }
    else c

pub fs_cache_sync : Cache → Cache
fs_cache_sync c =
    if c.device_type == device_ata
    then write_out c
    else if c.device_type == device_ahci
    then elim (ahci_get_active_port 32 0 c.ports) [ none ↦ c | some port ↦ write_out c ]
    else c

pub fs_cache_flush : Cache → Bool × Cache
fs_cache_flush c =
    let c' = fs_cache_sync c in
    if c'.sector_dirty
    then (false, c')
    else if c'.device_type == device_ahci
    then elim (ahci_get_active_port 32 0 c'.ports) [
      | none ↦ (false, c')
      | some port ↦ flush_drive c'
    ]
    else (true, c')

pub fs_readb : (address : ℕ) → Cache → ℕ × Cache
fs_readb address c =
    let (loaded, c') = fs_cache_flush_and_fetch (address / sector_bytes) c in
    (if loaded then c'.window (address % sector_bytes) else 0, c')

pub fs_writeb : (address byte : ℕ) → Cache → Cache
fs_writeb address byte c =
    let (loaded, c') = fs_cache_flush_and_fetch (address / sector_bytes) c in
    if loaded
    then record c' { window = upd c'.window (address % sector_bytes) byte; sector_dirty = true }
    else c'

-- The loops: the bytes left and the index of the next one. A buffer is a function.
pub fs_mem_read : (size i address : ℕ) → (destination : ℕ → ℕ) → Cache → (ℕ → ℕ) × Cache
fs_mem_read zero i address destination c = (destination, c)
fs_mem_read (suc size) i address destination c =
    let (b, c') = fs_readb (add32 address i) c in
    fs_mem_read size (i + 1) address (upd destination i b) c'

pub fs_mem_write : (size i address : ℕ) → (source : ℕ → ℕ) → Cache → Cache
fs_mem_write zero i address source c = c
fs_mem_write (suc size) i address source c =
    fs_mem_write size (i + 1) address source (fs_writeb (add32 address i) (source i) c)

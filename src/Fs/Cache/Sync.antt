-- ===== src/Fs/Cache/Sync.antt =====
-- What stands on the drive after a synchronisation, and what a failed one reports.
use avr_kernel.Base.{
  ℕ, ◌/◌, ◌%◌, ◌≡◌, ◌∙◌, ap, refl, arith, inl, inr, Bool, true, false, ◌==◌, ◌≢◌, Bool-cases,
}
use avr_kernel.Fs.Cache.{
  Cache, sector_bytes, no_sector, device_ata, device_ahci, write_sector, write_out, fs_cache_sync,
  fs_cache_flush, flush_drive,
}
use avr_kernel.Fs.Cache.Content.{
  content, dirty, IsReady, Fetched, Fetched-refl, written-Fetched, tried,
}

-- `d` is `c` with everything on the drive.
pub record IsSynced (c d : Cache) : Type 0 where
  pub fetched : Fetched c d
  pub written : d.sector_dirty ≡ false
  pub on_drive : (a : ℕ) → d.drive.sectors (a / sector_bytes) (a % sector_bytes) ≡ content c a

clean-IsSynced : (c d : Cache) → Fetched c d → d.sector_dirty ≡ false → IsSynced c d
unfolding content
clean-IsSynced c d f e = record {
  fetched = f;
  written = e;
  on_drive = λ a. ground (arith, e, f.same a);
}

write_out-IsSynced : (c : Cache) → IsReady c → IsSynced c (write_out c)
unfolding write_out write_sector
write_out-IsSynced c v = elim (Bool-cases (dirty c)) [
  | inl e ↦
      rw (e, v.working c.drive.accesses, write_out, write_sector)
        (clean-IsSynced c _ (written-Fetched c v.coherent e) refl)
  | inr e ↦
      rw e
        (clean-IsSynced c c (Fetched-refl c v.coherent) (ground (arith, e, v.coherent.none_clean)))
]

-- On a drive that does not fail, fs_cache_sync leaves no dirty sector, and every byte on the drive is
-- what the disk held through the cache before, which it still holds.
pub fs_cache_sync-IsSynced : (c : Cache) → IsReady c → IsSynced c (fs_cache_sync c)
unfolding fs_cache_sync
fs_cache_sync-IsSynced c v = elim v.coherent.backed [
  | inl ata ↦
      let t : (c.device_type == device_ata) ≡ true = ground (arith, ata) in
      rw t (write_out-IsSynced c v)
  | inr (ahci, port, found) ↦
      let t : (c.device_type == device_ata) ≡ false = ground (arith, ahci) in
      let u : (c.device_type == device_ahci) ≡ true = ground (arith, ahci) in
      rw (t, u, found) (write_out-IsSynced c v)
]

write_out_failed :
    (c : Cache)
    → dirty c ≡ true
    → c.drive.works c.drive.accesses ≡ false
    → write_out c ≡ record (tried c) { sector_dirty = false }
unfolding write_out write_sector
write_out_failed c e fails = rw (e, fails, write_out, write_sector) refl

-- On an ATA drive, when the write of a dirty sector fails, fs_cache_flush reports success all the same,
-- the sector counts as clean, and the drive has its old bytes.
pub fs_cache_flush_failed :
    (c : Cache)
    → c.device_type ≡ device_ata
    → c.sector_dirty ≡ true
    → c.sector_frame ≢ no_sector
    → c.drive.works c.drive.accesses ≡ false
    → ((fs_cache_flush c).0 ≡ true)
      × ((fs_cache_flush c).1.sector_dirty ≡ false)
      × ((fs_cache_flush c).1.drive.sectors ≡ c.drive.sectors)
unfolding fs_cache_flush fs_cache_sync
fs_cache_flush_failed c ata d ne fails =
    let t : (c.device_type == device_ata) ≡ true = ground (arith, ata) in
    let e : dirty c ≡ true = ground (arith, d, ne) in
    let out : write_out c ≡ record (tried c) { sector_dirty = false } =
      write_out_failed c e fails in
    let u : (c.device_type == device_ahci) ≡ false = ground (arith, ata) in
    rw (t, out, u) (refl, refl, refl)

pub fs_cache_flush-sectors :
    (c : Cache)
    → IsReady c
    → ((fs_cache_flush c).0 ≡ true)
      × ((fs_cache_flush c).1.sector_dirty ≡ false)
      × ((fs_cache_flush c).1.drive.sectors ≡ (fs_cache_sync c).drive.sectors)
unfolding fs_cache_flush flush_drive
fs_cache_flush-sectors c v =
    let s = fs_cache_sync-IsSynced c v in
    let d = fs_cache_sync c in
    elim s.fetched.coherent.backed [
      | inl ata ↦
          let t : (d.device_type == device_ahci) ≡ false = ground (arith, ata) in
          rw (s.written, t) (refl, refl, refl)
      | inr (ahci, port, found) ↦
          let t : (d.device_type == device_ahci) ≡ true = ground (arith, ahci) in
          rw (s.written, t, found)
            (
              ap (λ (w : ℕ → Bool). w d.drive.accesses) s.fetched.works
                  ∙ v.working d.drive.accesses,
              s.written,
              refl,
            )
    ]

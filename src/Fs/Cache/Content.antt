-- ===== src/Fs/Cache/Content.antt =====
-- What the cached disk holds, as one memory: the dirty window stands before the drive.
use avr_kernel.Base.{
  ℕ, ◌+◌, ◌/◌, ◌%◌, ◌^◌, ◌<◌, ◌≡◌, ◌≢◌, refl, ap, ◌∙◌, arith, ◌⊎◌, inl, inr, Bool, true, false,
  ◌&&◌, some, if◌then◌else◌, ◌==◌, ◌!=◌, upd, Bool-cases,
}
use avr_kernel.Fs.Cache.{
  Cache, sector_bytes, no_sector, device_ata, device_ahci, write_sector, read_sector,
  ahci_get_active_port, write_dirty, load_sector, fs_cache_flush_and_fetch, fs_readb, fs_writeb,
}

unfoldable pub content : Cache → (address : ℕ) → ℕ
content c a =
    if c.sector_dirty && a / sector_bytes == c.sector_frame
    then c.window (a % sector_bytes)
    else c.drive.sectors (a / sector_bytes) (a % sector_bytes)

-- The drive is one of the two kinds, and an AHCI drive has a port.
abbrev pub IsBacked : Cache → Type 0
IsBacked c =
    (c.device_type ≡ device_ata)
    ⊎ ((c.device_type ≡ device_ahci) × (port : ℕ) × (ahci_get_active_port 32 0 c.ports ≡ some port))

pub record IsCoherent (c : Cache) : Type 0 where
  pub backed : IsBacked c
  pub none_clean : c.sector_frame ≡ no_sector → c.sector_dirty ≡ false
  pub clean :
      c.sector_dirty ≡ false
      → c.sector_frame ≢ no_sector
      → (b : ℕ) → b < sector_bytes
      → c.window b ≡ c.drive.sectors c.sector_frame b

-- `d` is `c` after an access that leaves what the disk holds alone.
pub record Fetched (c d : Cache) : Type 0 where
  pub coherent : IsCoherent d
  pub same : (a : ℕ) → content d a ≡ content c a
  pub works : d.drive.works ≡ c.drive.works

abbrev pub dirty : Cache → Bool
dirty c = c.sector_dirty && c.sector_frame != no_sector

-- After an access that failed.
abbrev pub tried : Cache → Cache
tried c = record c { drive = record c.drive { accesses = c.drive.accesses + 1 } }

abbrev pub written : Cache → Cache
written c = record c {
  drive = record c.drive {
    accesses = c.drive.accesses + 1;
    sectors = upd c.drive.sectors c.sector_frame c.window;
  };
  sector_dirty = false;
}

abbrev loaded : (target_sector : ℕ) → Cache → Cache
loaded target_sector c = record (tried c) {
  window = c.drive.sectors target_sector;
  sector_frame = target_sector;
}

pub Fetched-refl : (c : Cache) → IsCoherent c → Fetched c c
Fetched-refl c v = record { coherent = v; same = λ a. refl; works = refl }

Fetched-trans : (c d e : Cache) → Fetched c d → Fetched d e → Fetched c e
Fetched-trans c d e p q = record {
  coherent = q.coherent;
  same = λ a. q.same a ∙ p.same a;
  works = q.works ∙ p.works;
}

tried-Fetched : (c : Cache) → IsCoherent c → Fetched c (tried c)
unfolding content
tried-Fetched c v = record {
  coherent = record { backed = v.backed; none_clean = v.none_clean; clean = v.clean };
  same = λ a. refl;
  works = refl;
}

pub written-Fetched : (c : Cache) → IsCoherent c → dirty c ≡ true → Fetched c (written c)
unfolding content
written-Fetched c v e = record {
  coherent = record {
    backed = v.backed;
    none_clean = λ h. refl;
    clean = λ h ne b lt. ground arith;
  };
  same = λ a. ground (arith, e);
  works = refl;
}

loaded-Fetched :
    (target_sector : ℕ) (c : Cache)
    → IsCoherent c
    → c.sector_dirty ≡ false
    → Fetched c (loaded target_sector c)
unfolding content
loaded-Fetched target_sector c v e = record {
  coherent = record { backed = v.backed; none_clean = λ h. e; clean = λ h ne b lt. refl };
  same = λ a. ground (arith, e);
  works = refl;
}

-- A load that fails, at the write or at the read, loses nothing; one that succeeds has the sector.
pub record IsFetch (target_sector : ℕ) (c : Cache) (r : Bool × Cache) : Type 0 where
  pub fetched : Fetched c r.1
  pub frame : r.0 ≡ true → r.1.sector_frame ≡ target_sector
  pub done : ((n : ℕ) → c.drive.works n ≡ true) → r.0 ≡ true

read_sector-IsFetch :
    (target_sector : ℕ) (c : Cache)
    → IsCoherent c
    → c.sector_dirty ≡ false
    → (let (done, d) = read_sector target_sector c in
        IsFetch target_sector c
          (done, if done then record d { sector_frame = target_sector } else d))
unfolding read_sector
read_sector-IsFetch target_sector c v e = elim (Bool-cases (c.drive.works c.drive.accesses)) [
  | inl w ↦
      rw (w, read_sector)
        (record {
          fetched = loaded-Fetched target_sector c v e;
          frame = λ h. refl;
          done = λ h. refl;
        })
  | inr w ↦
      rw (w, read_sector)
        (record {
          fetched = tried-Fetched c v;
          frame = λ h. cc;
          done = λ h. cc (h c.drive.accesses);
        })
]

record IsWritten (c : Cache) (r : Bool × Cache) : Type 0 where
  fetched : Fetched c r.1
  clean : r.0 ≡ true → r.1.sector_dirty ≡ false
  done : ((n : ℕ) → c.drive.works n ≡ true) → r.0 ≡ true

write_dirty-IsWritten : (c : Cache) → IsCoherent c → IsWritten c (write_dirty c)
unfolding write_dirty write_sector
write_dirty-IsWritten c v = elim (Bool-cases (dirty c)) [
  | inl e ↦ elim (Bool-cases (c.drive.works c.drive.accesses)) [
    | inl w ↦
        rw (e, w, write_dirty, write_sector)
          (record { fetched = written-Fetched c v e; clean = λ h. refl; done = λ h. refl })
    | inr w ↦
        rw (e, w, write_dirty, write_sector)
          (record {
            fetched = tried-Fetched c v;
            clean = λ h. cc;
            done = λ h. cc (h c.drive.accesses);
          })
  ]
  | inr e ↦ rw e (record {
    fetched = Fetched-refl c v;
    clean = λ h. ground (arith, e, v.none_clean);
    done = λ h. refl;
  })
]

load_sector-IsFetch :
    (target_sector : ℕ) (c : Cache)
    → IsCoherent c
    → IsFetch target_sector c (load_sector target_sector c)
unfolding load_sector
load_sector-IsFetch target_sector c v =
    let b = write_dirty-IsWritten c v in
    elim (Bool-cases (write_dirty c).0) [
      | inl e ↦
          let l =
            read_sector-IsFetch target_sector (write_dirty c).1 b.fetched.coherent (b.clean e) in
          rw e (record {
            fetched = Fetched-trans c (write_dirty c).1 _ b.fetched l.fetched;
            frame = l.frame;
            done = λ h. l.done (λ n. ap (λ (w : ℕ → Bool). w n) b.fetched.works ∙ h n);
          })
      | inr e ↦ rw e (record { fetched = b.fetched; frame = λ h. cc; done = λ h. cc (b.done h, e) })
    ]

pub fs_cache_flush_and_fetch-IsFetch :
    (target_sector : ℕ) (c : Cache)
    → IsCoherent c
    → IsFetch target_sector c (fs_cache_flush_and_fetch target_sector c)
unfolding fs_cache_flush_and_fetch
fs_cache_flush_and_fetch-IsFetch target_sector c v =
    elim (Bool-cases (c.sector_frame == target_sector)) [
      | inl e ↦
          rw e (record {
            fetched = Fetched-refl c v;
            frame = λ h. ground (arith, e);
            done = λ h. refl;
          })
      | inr e ↦ elim v.backed [
        | inl ata ↦
            let t : (c.device_type == device_ata) ≡ true = ground (arith, ata) in
            rw (e, t) (load_sector-IsFetch target_sector c v)
        | inr (ahci, port, found) ↦
            let t : (c.device_type == device_ata) ≡ false = ground (arith, ahci) in
            let u : (c.device_type == device_ahci) ≡ true = ground (arith, ahci) in
            rw (e, t, u, found) (load_sector-IsFetch target_sector c v)
      ]
    ]

-- A coherent cache whose drive does not fail.
-- A coherent cache of a drive that never fails.
pub record IsReady (c : Cache) : Type 0 where
  pub coherent : IsCoherent c
  pub working : (n : ℕ) → c.drive.works n ≡ true

pub Fetched-IsReady : (c d : Cache) → IsReady c → Fetched c d → IsReady d
Fetched-IsReady c d v f = record {
  coherent = f.coherent;
  working = λ n. ap (λ (w : ℕ → Bool). w n) f.works ∙ v.working n;
}

-- A byte of the loaded sector, from the window.
window-content :
    (c : Cache) (address : ℕ)
    → IsCoherent c
    → c.sector_frame ≡ address / sector_bytes
    → c.sector_frame ≢ no_sector
    → c.window (address % sector_bytes) ≡ content c address
unfolding content
window-content c address v e ne = elim (Bool-cases c.sector_dirty) [
  | inl d ↦ ground (arith, d, e)
  | inr d ↦
      let here : c.window (address % sector_bytes)
          ≡ c.drive.sectors c.sector_frame (address % sector_bytes) =
        v.clean d ne (address % sector_bytes) (omega arith) in
      rw (d, ← e) here
]

pub fs_readb-content :
    (address : ℕ) (c : Cache)
    → IsReady c
    → address < 2 ^ 32
    → (fs_readb address c).0 ≡ content c address
unfolding fs_readb
fs_readb-content address c v lt =
    let r = fs_cache_flush_and_fetch-IsFetch (address / sector_bytes) c v.coherent in
    let d = (fs_cache_flush_and_fetch (address / sector_bytes) c).1 in
    let t = r.done v.working in
    rw t (
      window-content d address r.fetched.coherent (r.frame t) (λ h. omega (arith, r.frame t))
      ∙ r.fetched.same address)

pub fs_readb-Fetched : (address : ℕ) (c : Cache) → IsCoherent c → Fetched c (fs_readb address c).1
unfolding fs_readb
fs_readb-Fetched address c v =
    (fs_cache_flush_and_fetch-IsFetch (address / sector_bytes) c v).fetched

-- `d` is `c` with the byte `v` written at `a`.
pub record IsPut (a v : ℕ) (c d : Cache) : Type 0 where
  pub ready : IsReady d
  pub here : (x : ℕ) → content d x ≡ upd (content c) a v x

window-IsPut :
    (address byte : ℕ) (c : Cache)
    → IsReady c
    → c.sector_frame ≡ address / sector_bytes
    → address < 2 ^ 32
    → IsPut address byte c
        (record c { window = upd c.window (address % sector_bytes) byte; sector_dirty = true })
unfolding content
window-IsPut address byte c v e lt = record {
  ready = record {
    coherent = record {
      backed = v.coherent.backed;
      none_clean = λ h. absurd (omega arith);
      clean = λ h. cc;
    };
    working = v.working;
  };
  here = λ x. elim (Bool-cases (x / sector_bytes == c.sector_frame)) [
    | inl s ↦
        ground (arith, s, e, window-content c x v.coherent (ground (arith, s)) (λ h. omega arith))
    | inr s ↦ ground (arith, s, e)
  ];
}

pub fs_writeb-IsPut :
    (address byte : ℕ) (c : Cache)
    → IsReady c
    → address < 2 ^ 32
    → IsPut address byte c (fs_writeb address byte c)
unfolding fs_writeb
fs_writeb-IsPut address byte c v lt =
    let r = fs_cache_flush_and_fetch-IsFetch (address / sector_bytes) c v.coherent in
    let d = (fs_cache_flush_and_fetch (address / sector_bytes) c).1 in
    let t = r.done v.working in
    let p = window-IsPut address byte d (Fetched-IsReady c d v r.fetched) (r.frame t) lt in
    rw t (record { ready = p.ready; here = λ x. ground (arith, p.here x, r.fetched.same x) })

-- ===== src/Fs/File/Handle.antt =====
-- A regular file on the disk: what fs_file_check and fs_file_get_size answer on it.
use avr_kernel.Base.{
  ℕ, ◌+◌, ◌-◌, ◌^◌, ◌<◌, ◌≤◌, ◌≡◌, refl, arith, true, false, List, ltb, ◌==◌, sub32, get32, bit_and,
}
use avr_kernel.Fs.Bitmap.{Context}
use avr_kernel.Fs.Device.{fs_null, read_struct, read_header}
use avr_kernel.Fs.File.{
  file_header_size, attribute_directory, FileHandle, fs_file_check, fs_file_get_size,
  struct_is_valid,
}
use avr_kernel.Fs.File.Chain.{
  IsChain, chain_size, Holds, read_struct-Holds, read_header-Holds, word-eq,
}

-- The file at `address` has the extents `chain`, which hold at least its size.
pub record IsFile (m : ℕ → ℕ) (address : ℕ) (chain : List (ℕ × ℕ)) : Type 0 where
  pub low : 4 ≤ address
  pub high : address + file_header_size < 2 ^ 32
  pub room : file_header_size ≤ get32 m (address - 4)
  pub regular : bit_and (m (address + 16)) attribute_directory ≡ 0
  pub chained : IsChain m (get32 m (address + 36)) chain
  pub covered : get32 m (address + 32) ≤ chain_size chain
  pub small : chain_size chain < 2 ^ 32

abbrev pub file_size : (m : ℕ → ℕ) (address : ℕ) → ℕ
file_size m address = get32 m (address + 32)

module _ (m : ℕ → ℕ) (address : ℕ) (chain : List (ℕ × ℕ)) (f : IsFile m address chain) where
  pub header_word :
      (place : ℕ) (c : Context)
      → place + 4 ≤ file_header_size
      → Holds m c
      → get32 (read_struct file_header_size address c).0 place ≡ get32 m (address + place)
  header_word place c le v =
      let (h, bytes) = read_struct-Holds file_header_size address m c v (omega (arith, f.high)) in
      word-eq place (address + place) m (read_struct file_header_size address c).0
        (λ k lt. ground (arith, bytes (place + k), lt, le))

  pub header-Holds : (c : Context) → Holds m c → Holds m (read_struct file_header_size address c).1
  header-Holds c v = (read_struct-Holds file_header_size address m c v (omega (arith, f.high))).0

  pub fs_file_check-Holds :
      (c : Context)
      → Holds m c
      → ((fs_file_check address c).0 ≡ true) × Holds m (fs_file_check address c).1
  unfolding fs_file_check
  fs_file_check-Holds c v =
      let at : sub32 address 4 ≡ address - 4 = omega (arith, f.low, f.high) in
      let (h, size) = read_header-Holds (address - 4) m c v (omega (arith, f.high)) in
      let c' = (read_header (address - 4) c).1 in
      let (h', bytes) = read_struct-Holds file_header_size address m c' h (omega (arith, f.high)) in
      let valid : (address == fs_null) ≡ false = ground (arith, f.high) in
      let enough : ltb (read_header (address - 4) c).0 file_header_size ≡ false =
        ground (arith, size, f.room) in
      rw (at, valid, enough) (rw (bytes 16 (omega arith), f.regular) refl, h')

  pub fs_file_get_size-Holds :
      (c : Context)
      → Holds m c
      → ((fs_file_get_size address c).0 ≡ file_size m address)
        × Holds m (fs_file_get_size address c).1
  unfolding fs_file_get_size
  fs_file_get_size-Holds c v =
      let (valid, h) = fs_file_check-Holds c v in
      let c' = (fs_file_check address c).1 in
      rw valid (header_word 32 c' (omega arith) h, header-Holds c' h)

  pub struct_is_valid-Holds :
      (g : FileHandle) (c : Context)
      → g.is_open ≡ true
      → g.address ≡ address
      → Holds m c
      → ((struct_is_valid g c).0 ≡ true) × Holds m (struct_is_valid g c).1
  unfolding struct_is_valid
  struct_is_valid-Holds g c open_now at v = rw (open_now, at) (fs_file_check-Holds c v)

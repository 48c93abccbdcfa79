-- ===== src/Fs/File/Tests.antt =====
-- The theorems on files at a concrete disk, with a file of five bytes at 516 and its extent at 1028.
use avr_kernel.Base.{
  ℕ, ◌+◌, ◌*◌, ◌/◌, ◌%◌, ◌≤◌, ◌<◌, ◌≡◌, ◌≢◌, refl, ap, arith, ◌⊎◌, inl, true, false, none, [], ◌∷◌,
  if◌then◌else◌, ltb, ◌==◌, u8, put32, get32, upd, bit_and,
}
use avr_kernel.Fs.Cache.{no_sector}
use avr_kernel.Fs.Cache.Content.{content}
use avr_kernel.Fs.Bitmap.{Context, no_frame}
use avr_kernel.Fs.Bitmap.Frame.{IsFramed}
use avr_kernel.Fs.File.{
  name_length, FileHandle, fs_file_read, fs_file_get_name, fs_file_set_name,
  fs_file_get_certificate, fs_file_set_certificate, fs_file_get_security_flag,
  fs_file_set_security_flag, fs_file_get_permissions, fs_file_get_attributes,
}
use avr_kernel.Fs.File.Header.{IsPlaced, fs_file_get_certificate-set, fs_file_get_security_flag-set}
use avr_kernel.Fs.File.Names.{fs_file_get_name-set}
use avr_kernel.Fs.File.Chain.{Holds}
use avr_kernel.Fs.File.Handle.{IsFile}
use avr_kernel.Fs.File.Read.{IsReadOut, fs_file_read-IsReadOut}

abbrev header : ℕ → ℕ
header = put32 (put32 (upd (put32 (λ i. 0) 512 44) 533 6) 548 5) 552 1028

abbrev image : ℕ → ℕ
image = upd (put32 (put32 (put32 header 1024 17) 1028 0xffff_ffff) 1036 5) 1041 b'e'

abbrev disk : Context
disk = record {
  is_open = true;
  sector_size = 512;
  pool_size = 8192;
  block_count = 16;
  bitmap_size = 2;
  reserved_blocks = 1;
  frame_offset = no_frame;
  frame_bitmap = λ k. 0;
  frame_dirty = false;
  cache = record {
    device_type = 0;
    sector_frame = no_sector;
    sector_dirty = false;
    window = λ b. 0;
    drive = record { sectors = λ s b. image (s * 512 + b); accesses = 0; works = λ n. true };
    ports = λ i. none;
  };
}

disk-IsFramed : IsFramed disk
disk-IsFramed = record {
  ready = record {
    coherent = record {
      backed = inl refl;
      none_clean = λ h. refl;
      clean = λ h ne b lt. absurd (ne refl);
    };
    working = λ n. refl;
  };
  size = refl;
  small = omega arith;
  none_clean = λ h. refl;
  place = inl refl;
  clean = λ k h lt inside. absurd (omega arith);
}

disk-Holds : Holds image disk
unfolding content
disk-Holds = record {
  framed = disk-IsFramed;
  same = λ x. let e : x / 512 * 512 + x % 512 ≡ x = omega arith in ap image e;
}

disk-IsPlaced : IsPlaced 516 disk
disk-IsPlaced = record { framed = disk-IsFramed; low = omega arith; high = omega arith }

image-IsFile : IsFile image 516 ((1028, 5) ∷ [])
unfolding get32 put32
image-IsFile = record {
  low = omega arith;
  high = omega arith;
  room = omega arith;
  regular = refl;
  chained = (refl, omega arith, omega arith, omega arith, refl, refl);
  covered = omega arith;
  small = omega arith;
}

abbrev handle : FileHandle
handle = record { address = 516; position = 1; mode = 1; is_open = true }

fs_file_read-IsReadOut_example :
    IsReadOut image ((1028, 5) ∷ []) 3 (λ i. 0) handle (fs_file_read 2 3 (λ i. 0) handle disk)
unfolding get32 put32
fs_file_read-IsReadOut_example =
    fs_file_read-IsReadOut image ((1028, 5) ∷ []) handle image-IsFile 2 3 (λ i. 0) disk
      (omega arith) refl (λ h. absurd (omega (arith, h))) (omega arith) disk-Holds

abbrev certificate : ℕ
certificate = 7

fs_file_get_certificate-set_example :
    (((certificate ≡ 0) ⊎ (certificate ≡ 0xffff_ffff))
      × (fs_file_set_certificate 516 7 disk ≡ (false, disk)))
    ⊎ (((fs_file_set_certificate 516 7 disk).0 ≡ true)
        × ((fs_file_get_certificate 516 (fs_file_set_certificate 516 7 disk).1).0 ≡ 7)
        × ((fs_file_get_permissions 516 (fs_file_set_certificate 516 7 disk).1).0
            ≡ (fs_file_get_permissions 516 disk).0)
        × ((fs_file_get_attributes 516 (fs_file_set_certificate 516 7 disk).1).0
            ≡ (fs_file_get_attributes 516 disk).0))
fs_file_get_certificate-set_example =
    fs_file_get_certificate-set 516 7 disk disk-IsPlaced (omega arith)

fs_file_get_security_flag-set_example :
    (fs_file_get_security_flag 516 (fs_file_set_security_flag 516 3 disk)).0
    ≡ u8 (fs_file_get_certificate 516 disk).0
fs_file_get_security_flag-set_example = fs_file_get_security_flag-set 516 3 disk disk-IsPlaced

abbrev two_letters : ℕ → ℕ
two_letters = upd (upd (λ i. 0) 0 b'o') 1 b'k'

abbrev letters : ℕ
letters = name_length 16 0 two_letters

writable : bit_and (content disk.cache 533) 4 ≢ 0
unfolding content put32
writable h = absurd (omega (arith, h))

fs_file_get_name-set_example :
    ((letters ≡ 0 ⊎ 15 < letters) × (fs_file_set_name 516 two_letters disk ≡ (false, disk)))
    ⊎ ((1 ≤ letters)
        × (letters ≤ 15)
        × ((fs_file_set_name 516 two_letters disk).0 ≡ true)
        × ((j : ℕ)
            → (fs_file_get_name 516 (λ i. 0) (fs_file_set_name 516 two_letters disk).1).1 j ≡ (
                if ltb j letters
                then two_letters j
                else if j == letters
                then 0
                else upd (λ i. 0) 0 0 j)))
fs_file_get_name-set_example =
    fs_file_get_name-set 516 two_letters (λ i. 0) disk disk-IsPlaced writable

-- ===== src/Fs/File/Header.antt =====
-- The fields of a file's header: what is set is what is got, and the others stay.
use avr_kernel.Base.{
  ℕ, ◌+◌, ◌%◌, ◌^◌, ◌<◌, ◌≤◌, ◌≡◌, refl, ap, ◌∙◌, sym, arith, ◌⊎◌, inl, inr, Bool-cases, true,
  false, ◌||◌, ◌==◌, u8, get32, put32, get32-put32,
}
use avr_kernel.Fs.Cache.Content.{content}
use avr_kernel.Fs.Bitmap.{Context}
use avr_kernel.Fs.Bitmap.Frame.{IsFramed}
use avr_kernel.Fs.Device.{read_struct, write_struct}
use avr_kernel.Fs.Device.Words.{read_struct-Kept, write_struct-IsWritten}
use avr_kernel.Fs.File.{
  file_header_size, get_header_word, set_header_word, get_header_byte, fs_file_get_certificate,
  fs_file_set_certificate, fs_file_get_security_flag, fs_file_set_security_flag,
  fs_file_get_permissions, fs_file_get_attributes,
}

-- The header at `address` lies on the disk, behind the bitmap. The drive never fails.
pub record IsPlaced (address : ℕ) (c : Context) : Type 0 where
  pub framed : IsFramed c
  pub low : 48 + c.bitmap_size ≤ address
  pub high : address + file_header_size < 2 ^ 32

-- `d` is `c` with the bytes `header` at `address`.
pub record IsReplaced (address : ℕ) (header : ℕ → ℕ) (c d : Context) : Type 0 where
  pub placed : IsPlaced address d
  pub bytes : (k : ℕ) → k < file_header_size → content d.cache (address + k) ≡ header k
  pub rest :
      (x : ℕ)
      → (x < address) ⊎ (address + file_header_size ≤ x)
      → content d.cache x ≡ content c.cache x

pub replace-IsReplaced :
    (address : ℕ) (header : ℕ → ℕ) (c : Context)
    → IsPlaced address c
    → IsReplaced address header c
        (write_struct file_header_size address header (read_struct file_header_size address c).1)
replace-IsReplaced address header c v =
    let (k, b, same) =
      read_struct-Kept file_header_size address c v.framed (omega (arith, v.high)) in
    let w =
      write_struct-IsWritten file_header_size address header
        (read_struct file_header_size address c).1 k.framed (omega (arith, v.low, k.sizes))
        (omega (arith, v.high)) in
    record {
      placed = record {
        framed = w.framed;
        low = omega (arith, v.low, k.sizes, w.sizes);
        high = v.high;
      };
      bytes = λ i lt. ground (arith, w.bytes (address + i));
      rest = λ x away. ground (arith, w.bytes x, away, same x);
    }

-- The bytes of the header, as they are read.
pub header_byte :
    (address k : ℕ) (c : Context)
    → IsPlaced address c
    → k < file_header_size
    → (read_struct file_header_size address c).0 k ≡ content c.cache (address + k)
header_byte address k c v lt =
    (read_struct-Kept file_header_size address c v.framed (omega (arith, v.high))).1 k lt

get_header_word-content :
    (place address : ℕ) (c : Context)
    → IsPlaced address c
    → place + 4 ≤ file_header_size
    → (get_header_word place address c).0 ≡ get32 (λ k. content c.cache (address + k)) place
unfolding get_header_word get32
get_header_word-content place address c v le = omega (
  arith,
  header_byte address place c v,
  header_byte address (place + 1) c v,
  header_byte address (place + 2) c v,
  header_byte address (place + 3) c v,
)

get_header_byte-content :
    (place address : ℕ) (c : Context)
    → IsPlaced address c
    → place < file_header_size
    → (get_header_byte place address c).0 ≡ content c.cache (address + place)
unfolding get_header_byte
get_header_byte-content place address c v lt = header_byte address place c v lt

get32-eq :
    (place : ℕ) (m m' : ℕ → ℕ)
    → ((k : ℕ) → place ≤ k → k < place + 4 → m' k ≡ m k)
    → get32 m' place ≡ get32 m place
unfolding get32
get32-eq place m m' h = omega (arith, h place, h (place + 1), h (place + 2), h (place + 3))

put32-away :
    (place value k : ℕ) (m : ℕ → ℕ) → (k < place) ⊎ (place + 4 ≤ k) → put32 m place value k ≡ m k
unfolding put32
put32-away place value k m away = ground (arith, away)

-- A word that is set in the header is got back, and a word or byte beside it stays.
record HasField (place address value : ℕ) (c d : Context) : Type 0 where
  placed : IsPlaced address d
  here : (get_header_word place address d).0 ≡ value % 2 ^ 32
  words :
      (q : ℕ)
      → q + 4 ≤ file_header_size
      → (q + 4 ≤ place) ⊎ (place + 4 ≤ q)
      → (get_header_word q address d).0 ≡ (get_header_word q address c).0
  bytes :
      (q : ℕ)
      → q < file_header_size
      → (q < place) ⊎ (place + 4 ≤ q)
      → (get_header_byte q address d).0 ≡ (get_header_byte q address c).0

set_header_word-HasField :
    (place address value : ℕ) (c : Context)
    → IsPlaced address c
    → place + 4 ≤ file_header_size
    → HasField place address value c (set_header_word place address value c)
unfolding set_header_word
set_header_word-HasField place address value c v le = record {
  placed = r.placed;
  here =
      get_header_word-content place address d r.placed le
      ∙ get32-eq place (put32 old place value) (λ k. content d.cache (address + k))
          (λ k lo hi. r.bytes k (omega (arith, hi)))
      ∙ get32-put32 old place value;
  words = λ q le_q away.
      get_header_word-content q address d r.placed le_q
      ∙ get32-eq q (λ k. content c.cache (address + k)) (λ k. content d.cache (address + k))
          (λ k lo hi. kept k (omega (arith, hi)) (ground (arith, away, lo, hi)))
      ∙ sym (get_header_word-content q address c v le_q);
  bytes = λ q lt away.
      get_header_byte-content q address d r.placed lt
      ∙ kept q lt away
      ∙ sym (get_header_byte-content q address c v lt);
}
  where
    old : ℕ → ℕ
    old = (read_struct file_header_size address c).0

    d : Context
    d = set_header_word place address value c

    r : IsReplaced address (put32 old place value) c d
    r = replace-IsReplaced address (put32 old place value) c v

    kept :
        (k : ℕ)
        → k < file_header_size
        → (k < place) ⊎ (place + 4 ≤ k)
        → content d.cache (address + k) ≡ content c.cache (address + k)
    kept k lt away = r.bytes k lt ∙ put32-away place value k old away ∙ header_byte address k c v lt

-- On a header that lies behind the bitmap and ends below 2^32, and a drive that never fails:
-- fs_file_set_certificate refuses 0 and 0xffffffff and then changes nothing; any other certificate
-- below 2^32 is stored, and is what fs_file_get_certificate answers, while permissions and
-- attributes stay.
pub fs_file_get_certificate-set :
    (address cert : ℕ) (c : Context)
    → IsPlaced address c
    → cert < 2 ^ 32
    → (((cert ≡ 0) ⊎ (cert ≡ 0xffff_ffff)) × (fs_file_set_certificate address cert c ≡ (false, c)))
      ⊎ (((fs_file_set_certificate address cert c).0 ≡ true)
          × ((fs_file_get_certificate address (fs_file_set_certificate address cert c).1).0 ≡ cert)
          × ((fs_file_get_permissions address (fs_file_set_certificate address cert c).1).0
              ≡ (fs_file_get_permissions address c).0)
          × ((fs_file_get_attributes address (fs_file_set_certificate address cert c).1).0
              ≡ (fs_file_get_attributes address c).0))
unfolding fs_file_set_certificate fs_file_get_certificate fs_file_get_permissions
    fs_file_get_attributes
fs_file_get_certificate-set address cert c v lt =
    let s = set_header_word-HasField 28 address cert c v (omega arith) in
    elim (Bool-cases (cert == 0 || cert == 0xffff_ffff)) [
      | inl e ↦ inl (ground (arith, e), rw e refl)
      | inr e ↦ inr (
        rw e refl,
        rw e (omega (arith, s.here)),
        rw e (s.bytes 17 (omega arith) (inl (omega arith))),
        rw e (s.bytes 16 (omega arith) (inl (omega arith))),
      )
    ]

-- On a header that lies behind the bitmap and ends below 2^32, and a drive that never fails:
-- what fs_file_get_security_flag answers after fs_file_set_security_flag does not depend on the flag
-- that was set: it is the low byte of the certificate.
pub fs_file_get_security_flag-set :
    (address security : ℕ) (c : Context)
    → IsPlaced address c
    → (fs_file_get_security_flag address (fs_file_set_security_flag address security c)).0
      ≡ u8 (fs_file_get_certificate address c).0
unfolding fs_file_get_security_flag fs_file_set_security_flag fs_file_get_certificate
fs_file_get_security_flag-set address security c v =
    let s = set_header_word-HasField 24 address security c v (omega arith) in
    ap (λ (x : ℕ). u8 x) (s.words 28 (omega arith) (inr (omega arith)))

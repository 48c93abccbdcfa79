-- ===== src/Fs/File/Names.antt =====
-- The name of a file: what fs_file_set_name stores, fs_file_get_name reads.
use avr_kernel.Base.{
  ℕ, zero, suc, ◌+◌, ◌<◌, ◌≤◌, ◌≡◌, ◌≢◌, refl, ◌∙◌, arith, ◌⊎◌, inl, inr, Bool-cases, true, false,
  ◌||◌, if◌then◌else◌, ltb, ◌==◌, upd, bit_and,
}
use avr_kernel.Fs.Cache.Content.{content}
use avr_kernel.Fs.Bitmap.{Context}
use avr_kernel.Fs.Device.{fs_null, read_struct, write_struct}
use avr_kernel.Fs.Device.Words.{read_struct-Kept}
use avr_kernel.Fs.File.{
  name_length_max, file_header_size, permission_write, name_length, copy_characters, put_name,
  fs_file_get_name, fs_file_set_name,
}
use avr_kernel.Fs.File.Header.{IsPlaced, IsReplaced, replace-IsReplaced, header_byte}

-- The characters before the end are not 0.
name_length-le : (n i : ℕ) (name : ℕ → ℕ) → name_length n i name ≤ n
unfolding name_length
name_length-le zero i name = omega arith
name_length-le (suc n) i name = ground (arith, name_length-le n (i + 1) name)

name_length-ne :
    (n i : ℕ) (name : ℕ → ℕ) (j : ℕ) → i ≤ j → j < i + name_length n i name → name j ≢ 0
unfolding name_length
name_length-ne zero i name j lo hi = absurd (omega arith)
name_length-ne (suc n) i name j lo hi = elim (Bool-cases (name i == 0)) [
  | inl e ↦ absurd (ground (arith, e))
  | inr e ↦ elim (Bool-cases (j == i)) [
    | inl here ↦ ground (arith, e, here)
    | inr there ↦ name_length-ne n (i + 1) name j (ground (arith, there)) (ground (arith, e))
  ]
]

-- A name that ends at `i + l` has `l` characters from `i` on.
name_length-eq :
    (n i l : ℕ) (name : ℕ → ℕ)
    → l ≤ n
    → ((j : ℕ) → i ≤ j → j < i + l → name j ≢ 0)
    → name (i + l) ≡ 0
    → name_length n i name ≡ l
unfolding name_length
name_length-eq zero i l name le text stop = omega arith
name_length-eq (suc n) i zero name le text stop = ground (arith, stop)
name_length-eq (suc n) i (suc l) name le text stop =
    let next : i + 1 + l ≡ i + suc l = omega arith in
    let rest =
      name_length-eq n (i + 1) l name (omega arith) (λ j lo hi. text j (omega arith) (omega arith))
        (rw next stop) in
    ground (arith, text i (omega arith) (omega arith), rest)

copy_characters_lem :
    (n i : ℕ) (name buffer : ℕ → ℕ) (j : ℕ)
    → copy_characters n i name buffer j ≡ (
        if ltb j i
        then buffer j
        else if ltb j (i + name_length n i name)
        then name j
        else if j == i + name_length n i name
        then 0
        else buffer j)
unfolding copy_characters name_length
copy_characters_lem zero i name buffer j = ground arith
copy_characters_lem (suc n) i name buffer j =
    ground (arith, copy_characters_lem n (i + 1) name (upd buffer i (name i)) j)

-- The name in a header that was replaced.
stored_byte :
    (address n k : ℕ) (filename old : ℕ → ℕ) (c d : Context)
    → IsReplaced address (put_name n filename old) c d
    → k < 16
    → (read_struct 32 address d).0 k ≡ (if ltb k n then filename k else 0)
unfolding put_name
stored_byte address n k filename old c d r lt =
    let (_, bytes, _) =
      read_struct-Kept 32 address d r.placed.framed (omega (arith, r.placed.high)) in
    ground (arith, bytes k, r.bytes k, lt)

stored_name :
    (address n : ℕ) (filename old : ℕ → ℕ) (c d : Context)
    → IsReplaced address (put_name n filename old) c d
    → n ≤ 15
    → ((j : ℕ) → j < n → filename j ≢ 0)
    → name_length 15 0 (read_struct 32 address d).0 ≡ n
stored_name address n filename old c d r le text =
    name_length-eq 15 0 n (read_struct 32 address d).0 le
      (λ j lo hi e.
        text j (omega arith) (ground (arith, stored_byte address n j filename old c d r, e, hi)))
      (ground (arith, stored_byte address n n filename old c d r, le))

-- What fs_file_set_name does with a name of 1 to 15 characters in a header that may be written, lies
-- behind the bitmap and ends below 2^32, on a drive that never fails: it answers true, and fs_file_get_name then reads these characters and a terminator behind them, whatever
-- name stood there before, and leaves the rest of the buffer but its first place alone. An empty or a
-- longer name is refused, and nothing changes.
pub fs_file_get_name-set :
    (address : ℕ) (filename buffer : ℕ → ℕ) (c : Context)
    → IsPlaced address c
    → bit_and (content c.cache (address + 17)) permission_write ≢ 0
    → (let n = name_length name_length_max 0 filename in
        ((n ≡ 0 ⊎ 15 < n) × (fs_file_set_name address filename c ≡ (false, c)))
        ⊎ ((1 ≤ n)
            × (n ≤ 15)
            × ((fs_file_set_name address filename c).0 ≡ true)
            × ((j : ℕ)
                → (fs_file_get_name address buffer (fs_file_set_name address filename c).1).1 j
                  ≡ (if ltb j n then filename j else if j == n then 0 else upd buffer 0 0 j))))
unfolding fs_file_set_name fs_file_get_name
fs_file_get_name-set address filename buffer c v writable =
    let n = name_length name_length_max 0 filename in
    let valid : (address == fs_null) ≡ false = ground (arith, v.high) in
    let old = (read_struct file_header_size address c).0 in
    let d =
      write_struct file_header_size address (put_name n filename old)
        (read_struct file_header_size address c).1 in
    elim (Bool-cases (n == 0 || ltb 15 n)) [
      | inl bad ↦ inl (ground (arith, bad), ground (arith, valid, bad))
      | inr good ↦
          let done : fs_file_set_name address filename c ≡ (true, d) =
            ground (arith, valid, good, header_byte address 17 c v, writable) in
          let r = replace-IsReplaced address (put_name n filename old) c v in
          let le : n ≤ 15 = ground (arith, good) in
          let stored =
            stored_name address n filename old c d r le
              (λ j lt. name_length-ne 16 0 filename j (omega arith) (omega arith)) in
          inr (
            ground (arith, good),
            ground (arith, good),
            rw done refl,
            λ j.
                rw (done, valid)
                  (copy_characters_lem 15 0 (read_struct 32 address d).0 (upd buffer 0 0) j
                    ∙ ground (arith, stored, le, stored_byte address n j filename old c d r)),
          )
    ]

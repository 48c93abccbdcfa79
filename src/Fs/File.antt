-- ===== src/Fs/File.antt =====
-- kernel/fs/basefs/file.c and cryptography.c: the header of a file, open files, and reading. A header has
-- its name at 0, attributes at 16, permissions at 17, security at 24, certificate at 28, size at 32 and
-- its first extent at 36, 44 bytes in all; an extent has the next one at 0 and its length at 8, and its
-- data behind these 12 bytes.
pub mod Header
pub mod Names
pub mod Chain
pub mod Handle
pub mod Read
mod Tests
use avr_kernel.Base.{
  ℕ, zero, suc, ◌+◌, ◌-◌, ◌/◌, ◌%◌, ◌^◌, Bool, true, false, not, ◌&&◌, ◌||◌, Option, none, some,
  if◌then◌else◌, ltb, leb, ◌==◌, ◌!=◌, u8, add32, sub32, upd, get32, put32, bit_and,
}
use avr_kernel.Fs.Bitmap.{Context}
use avr_kernel.Fs.Device.{fs_null, read_struct, write_struct, read_header}

abbrev pub name_length_max : ℕ
name_length_max = 16

abbrev pub file_header_size : ℕ
file_header_size = 44

abbrev pub file_extent_size : ℕ
file_extent_size = 12

-- `FS_FILE_MODE_READ` and the other flags.
abbrev pub mode_read : ℕ
mode_read = 0x01

abbrev pub mode_write : ℕ
mode_write = 0x02

abbrev pub mode_append : ℕ
mode_append = 0x04

abbrev pub permission_read : ℕ
permission_read = 0x02

abbrev pub permission_write : ℕ
permission_write = 0x04

abbrev pub attribute_directory : ℕ
attribute_directory = 0x02

pub fs_file_check : (address : ℕ) → Context → Bool × Context
fs_file_check address c =
    let (size, c') = read_header (sub32 address 4) c in
    let (file, c'') = read_struct file_header_size address c' in
    if address == fs_null
    then (false, c)
    else if ltb size file_header_size
    then (false, c')
    else (bit_and (file 16) attribute_directory == 0, c'')

pub fs_file_get_size : (address : ℕ) → Context → ℕ × Context
fs_file_get_size address c =
    let (valid, c') = fs_file_check address c in
    let (file, c'') = read_struct file_header_size address c' in
    if valid then (get32 file 32, c'') else (0, c')

-- The first `n` characters up to a terminator, and the terminator.
pub copy_characters : (n i : ℕ) → (name filename : ℕ → ℕ) → ℕ → ℕ
copy_characters zero i name filename = upd filename i 0
copy_characters (suc n) i name filename =
    let rest = copy_characters n (i + 1) name (upd filename i (name i)) in
    if name i == 0 then upd filename i 0 else rest

-- The bytes of the name, into a buffer.
pub fs_file_get_name : (address : ℕ) → (filename : ℕ → ℕ) → Context → Bool × (ℕ → ℕ) × Context
fs_file_get_name address filename c =
    let cleared = upd filename 0 0 in
    let (block, c') = read_struct 32 address c in
    if address == fs_null
    then (false, cleared, c)
    else (true, copy_characters (name_length_max - 1) 0 block cleared, c')

-- `strnlen`
pub name_length : (n i : ℕ) → (ℕ → ℕ) → ℕ
name_length zero i name = 0
name_length (suc n) i name = if name i == 0 then 0 else suc (name_length n (i + 1) name)

-- The header with a new name of `length` characters.
pub put_name : (length : ℕ) → (filename header : ℕ → ℕ) → ℕ → ℕ
put_name length filename header i =
    if ltb i name_length_max then if ltb i length then filename i else 0 else header i

pub fs_file_set_name : (address : ℕ) → (filename : ℕ → ℕ) → Context → Bool × Context
fs_file_set_name address filename c =
    let length = name_length name_length_max 0 filename in
    let (header, c') = read_struct file_header_size address c in
    if address == fs_null || length == 0 || ltb (name_length_max - 1) length
    then (false, c)
    else if bit_and (header 17) permission_write == 0
    then (false, c')
    else (true, write_struct file_header_size address (put_name length filename header) c')

-- A field of one byte, and one of four, in a header that is read and written back as a whole.
pub get_header_byte : (place address : ℕ) → Context → ℕ × Context
get_header_byte place address c =
    let (header, c') = read_struct file_header_size address c in (header place, c')

pub set_header_byte : (place address value : ℕ) → Context → Context
set_header_byte place address value c =
    let (header, c') = read_struct file_header_size address c in
    write_struct file_header_size address (upd header place value) c'

pub get_header_word : (place address : ℕ) → Context → ℕ × Context
get_header_word place address c =
    let (header, c') = read_struct file_header_size address c in (get32 header place, c')

pub set_header_word : (place address value : ℕ) → Context → Context
set_header_word place address value c =
    let (header, c') = read_struct file_header_size address c in
    write_struct file_header_size address (put32 header place value) c'

pub fs_file_get_permissions : (address : ℕ) → Context → ℕ × Context
fs_file_get_permissions address c = get_header_byte 17 address c

pub fs_file_set_permissions : (address permissions : ℕ) → Context → Context
fs_file_set_permissions address permissions c = set_header_byte 17 address permissions c

pub fs_file_get_attributes : (address : ℕ) → Context → ℕ × Context
fs_file_get_attributes address c = get_header_byte 16 address c

pub fs_file_set_attributes : (address attributes : ℕ) → Context → Context
fs_file_set_attributes address attributes c = set_header_byte 16 address attributes c

pub fs_file_get_certificate : (address : ℕ) → Context → ℕ × Context
fs_file_get_certificate address c = get_header_word 28 address c

pub fs_file_set_certificate : (address cert : ℕ) → Context → Bool × Context
fs_file_set_certificate address cert c =
    if cert == 0 || cert == 0xffff_ffff
    then (false, c)
    else (true, set_header_word 28 address cert c)

-- The getter reads the certificate.
pub fs_file_get_security_flag : (address : ℕ) → Context → ℕ × Context
fs_file_get_security_flag address c =
    let (certificate, c') = get_header_word 28 address c in (u8 certificate, c')

pub fs_file_set_security_flag : (address security : ℕ) → Context → Context
fs_file_set_security_flag address security c = set_header_word 24 address security c

-- `FileHandle`; the device is the one at hand.
pub record FileHandle : Type 0 where
  pub address : ℕ
  pub position : ℕ
  pub mode : ℕ
  pub is_open : Bool

abbrev pub no_file : FileHandle
no_file = record { address = 0; position = 0; mode = 0; is_open = false }

-- Whether the file is open, and the handle.
pub fs_file_open : (address mode : ℕ) → Context → Bool × FileHandle × Context
fs_file_open address mode c =
    let (valid, c1) = fs_file_check address c in
    let (header, c2) = read_struct file_header_size address c1 in
    let (size, c3) = fs_file_get_size address c2 in
    let opened : FileHandle = record {
      address = address;
      position = 0;
      mode = mode;
      is_open = true;
    } in
    if not valid
    then (false, no_file, c1)
    else if bit_and mode mode_read != 0 && bit_and (header 17) permission_read == 0
    then (false, no_file, c2)
    else if bit_and mode mode_write != 0 && bit_and (header 17) permission_write == 0
    then (false, no_file, c2)
    else if bit_and mode mode_append != 0
    then (true, record opened { position = size }, c3)
    else (true, opened, c2)

pub fs_file_close : FileHandle → FileHandle
fs_file_close f = record { address = fs_null; position = 0; mode = 0; is_open = false }

pub struct_is_valid : FileHandle → Context → Bool × Context
struct_is_valid f c = if f.is_open then fs_file_check f.address c else (false, c)

pub fs_file_seek : (position : ℕ) → FileHandle → Context → ℕ × FileHandle × Context
fs_file_seek position f c =
    let (valid, c') = struct_is_valid f c in
    let (size, c'') = fs_file_get_size f.address c' in
    let place = if ltb size position then size else position in
    if valid then (place, record f { position = place }, c'') else (fs_null, f, c')

pub fs_file_tell : FileHandle → ℕ
fs_file_tell f = if f.is_open then f.position else fs_null

pub fs_file_get_address : FileHandle → ℕ
fs_file_get_address f = if f.is_open then f.address else fs_null

-- An extent's 12 bytes, if its allocation has room for them.
pub extent_read : (address : ℕ) → Context → Option (ℕ → ℕ) × Context
extent_read address c =
    let (size, c') = read_header (sub32 address 4) c in
    let (extent, c'') = read_struct file_extent_size address c' in
    if address == fs_null
    then (none, c)
    else if ltb size file_extent_size
    then (none, c')
    else (some extent, c'')

-- `fs_mem_read` of `size` bytes into a buffer, from the index `cursor` on.
pub read_into : (size address cursor : ℕ) → (destination : ℕ → ℕ) → Context → (ℕ → ℕ) × Context
read_into size address cursor destination c =
    let (bytes, c') = read_struct size address c in
    (λ j. if leb cursor j && ltb j (cursor + size) then bytes (j - cursor) else destination j, c')

-- The variables of the loop of `fs_file_read`.
pub record Progress : Type 0 where
  pub read_offset : ℕ
  pub cursor : ℕ
  pub remaining : ℕ
  pub boundary : ℕ
  pub destination : ℕ → ℕ

-- The body of the loop at an extent of `length` bytes.
pub read_extent : (extent length : ℕ) → Progress → Context → Progress × Context
read_extent extent length p c =
    let inside = sub32 p.read_offset p.boundary in
    let available = sub32 length inside in
    let chunk = if ltb available p.remaining then available else p.remaining in
    let (filled, c') =
      read_into chunk (add32 (add32 extent file_extent_size) inside) p.cursor p.destination c in
    let passed = add32 p.boundary length in
    if leb p.boundary p.read_offset && ltb p.read_offset (add32 p.boundary length)
    then (
      record {
        read_offset = add32 p.read_offset chunk;
        cursor = p.cursor + chunk;
        remaining = p.remaining - chunk;
        boundary = passed;
        destination = filled;
      },
      c',
    )
    else (record p { boundary = passed }, c)

-- The loop over the extents; `none` when the rounds are used up.
pub read_loop : (rounds current : ℕ) → Progress → Context → Option (Progress × Context)
read_loop zero current p c = none
read_loop (suc rounds) current p c =
    let (read, c') = extent_read current c in
    let rest : Option (Progress × Context) = elim read [
      | none ↦ some (p, c')
      | some e ↦
          let (p', c'') = read_extent current (get32 e 8) p c' in
          read_loop rounds (get32 e 0) p' c''
    ] in
    if current == fs_null || p.remaining == 0 then some (p, c) else rest

-- The last part of `fs_file_read`: `wanted` bytes from the position on.
pub read_range :
    (rounds wanted : ℕ)
    → (destination : ℕ → ℕ) → FileHandle
    → Context
    → Option (ℕ × FileHandle × (ℕ → ℕ) × Context)
read_range rounds wanted destination f c =
    let (header, c') = read_struct file_header_size f.address c in
    let start : Progress = record {
      read_offset = f.position;
      cursor = 0;
      remaining = wanted;
      boundary = 0;
      destination = destination;
    } in
    elim (read_loop rounds (get32 header 36) start c') [
      | none ↦ none
      | some (p, c'') ↦
          let n = wanted - p.remaining in
          some (n, record f { position = add32 f.position n }, p.destination, c'')
    ]

-- The number of bytes read, the handle and the buffer.
pub fs_file_read :
    (rounds size : ℕ)
    → (destination : ℕ → ℕ) → FileHandle
    → Context
    → Option (ℕ × FileHandle × (ℕ → ℕ) × Context)
fs_file_read rounds size destination f c =
    let (valid, c1) = struct_is_valid f c in
    let (file_size, c2) = fs_file_get_size f.address c1 in
    if not valid || bit_and f.mode mode_read == 0 || size == 0
    then some (0, f, destination, c1)
    else if leb file_size f.position
    then some (0, f, destination, c2)
    else read_range rounds
        (if ltb file_size (add32 f.position size) then file_size - f.position else size) destination
        f c2

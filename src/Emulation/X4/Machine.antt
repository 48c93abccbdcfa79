-- ===== src/Emulation/X4/Machine.antt =====
-- The state of an emulated thread: `struct X4CpuRegisters` as the 33 bytes of the packed struct, which
-- the instructions index by a register number, and the memory behind the bus.
use avr_kernel.Base.{
  ℕ, ◌%◌, ◌^◌, List, Option, none, some, Bool, if◌then◌else◌, ltb, add32, upd, get32, put32,
  bit_set, bit_clear, bit_test,
}

-- What a service routine sends to the display driver.
pub data Output : Type 0 where
  put_char : ℕ → Output
  newline : Output
  clear_display : Output
  cursor_home : Output

pub record Machine : Type 0 where
  pub cache : ℕ → ℕ  -- the bytes of `struct X4CpuRegisters`
  pub mem : ℕ → ℕ  -- the memory behind the bus, by its 24-bit address
  pub heap_begin : ℕ  -- `__KMALLOC_HEAP_BEGIN__`
  pub out : List Output  -- newest first
  pub last_character : ℕ
  pub polls : ℕ  -- calls of `kb_get_current_char` so far

-- The size of the packed struct: eight registers, six words and the flags.
abbrev pub cache_size : ℕ
cache_size = 33

-- The offset of each field in the packed struct.
abbrev pub off_ah : ℕ
off_ah = 1

abbrev pub off_bl : ℕ
off_bl = 2

abbrev pub off_ep : ℕ
off_ep = 8

abbrev pub off_bp : ℕ
off_bp = 12

abbrev pub off_sp : ℕ
off_sp = 16

abbrev pub off_state : ℕ
off_state = 20

abbrev pub off_cs : ℕ
off_cs = 21

abbrev pub off_ss : ℕ
off_ss = 29

abbrev pub word : ℕ → Machine → ℕ
word off t = get32 t.cache off

abbrev pub set_word : ℕ → ℕ → Machine → Machine
set_word off v t = record t { cache = put32 t.cache off v }

abbrev pub set_byte : ℕ → ℕ → Machine → Machine
set_byte off v t = record t { cache = upd t.cache off v }

-- `X4EMM_FLAG_...`, by the number of the bit.
abbrev pub flag_interrupt : ℕ
flag_interrupt = 0

abbrev pub flag_zero : ℕ
flag_zero = 1

abbrev pub flag_equal : ℕ
flag_equal = 2

abbrev pub flag_greater : ℕ
flag_greater = 3

abbrev pub flag_less : ℕ
flag_less = 4

abbrev pub flag_dirty : ℕ
flag_dirty = 5

abbrev pub flag : ℕ → Machine → Bool
flag k t = bit_test (t.cache off_state) k

abbrev pub raise : ℕ → Machine → Machine
raise k t = set_byte off_state (bit_set (t.cache off_state) k) t

abbrev pub lower : ℕ → Machine → Machine
lower k t = set_byte off_state (bit_clear (t.cache off_state) k) t

-- `((uint8_t*)&thread->cache)[i]`. Past the struct the access is undefined: `none`.
unfoldable pub read_reg : ℕ → Machine → Option ℕ
read_reg i t = if ltb i cache_size then some (t.cache i) else none

unfoldable pub write_reg : ℕ → ℕ → Machine → Option Machine
write_reg i v t = if ltb i cache_size then some (set_byte i v t) else none

-- `mmio_readb` and `mmio_writeb`: the three address ports carry the low 24 bits.
unfoldable pub readb : ℕ → Machine → ℕ
readb address t = t.mem (address % 2 ^ 24)

unfoldable pub writeb : ℕ → ℕ → Machine → Machine
writeb address v t = record t { mem = upd t.mem (address % 2 ^ 24) v }

-- `kmem_read` of one byte: an offset into the heap.
unfoldable pub kmem_read8 : ℕ → Machine → ℕ
kmem_read8 address t = readb (add32 t.heap_begin address) t

-- `thread->cache.ep += n`
unfoldable pub advance : ℕ → Machine → Machine
advance n t = set_word off_ep (add32 (word off_ep t) n) t

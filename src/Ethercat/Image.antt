-- ===== src/Ethercat/Image.antt =====
-- The process image and the EC_READ_*/EC_WRITE_* macros of <ecrt.h>, which is not part of the
-- repository: an interface with what its documentation promises, and bytes that meet it.
use zero_force_controller.Common.{
  ℕ, ◌+◌, ◌-◌, ◌*◌, ◌/◌, ◌%◌, ◌^◌, ◌≤◌, ◌<◌, ◌≡◌, ◌⊎◌, Bool, arith, ◌==◌, ltb, if◌then◌else◌,
}
use zero_force_controller.Common.Int.{ℤ, pos, negsuc, pos_part, neg_part, ◌≤ℤ◌}

-- the types that the macros read and write
pub data Kind : Type 0 where
  u8 s8 u16 s16 u32 s32 : Kind

abbrev pub size : Kind → ℕ
size u8 = 1
size s8 = 1
size u16 = 2
size s16 = 2
size u32 = 4
size s32 = 4

abbrev pub modulus : Kind → ℕ
modulus k = 2 ^ (8 * size k)

abbrev pub Fits : Kind → ℤ → Type 0
Fits u8 v = (pos 0 ≤ℤ v) × (v ≤ℤ pos 0xff)
Fits u16 v = (pos 0 ≤ℤ v) × (v ≤ℤ pos 0xffff)
Fits u32 v = (pos 0 ≤ℤ v) × (v ≤ℤ pos 0xffff_ffff)
Fits s8 v = (negsuc 0x7f ≤ℤ v) × (v ≤ℤ pos 0x7f)
Fits s16 v = (negsuc 0x7fff ≤ℤ v) × (v ≤ℤ pos 0x7fff)
Fits s32 v = (negsuc 0x7fff_ffff ≤ℤ v) × (v ≤ℤ pos 0x7fff_ffff)

pub record Ecrt (Image : Type 0) : Type 0 where
  pub read : Kind → Image → ℕ → ℤ
  pub read_bit : Image → ℕ → ℕ → Bool
  pub write : Kind → Image → ℕ → ℤ → Image

-- Entries at these offsets share no byte.
abbrev pub Apart : Kind → ℕ → Kind → ℕ → Type 0
Apart k o k' o' = (o + size k ≤ o') ⊎ (o' + size k' ≤ o)

pub record IsMemory (Image : Type 0) ⦃e : Ecrt Image⦄ : Type 0 where
  pub read-write_self :
      (k : Kind) (m : Image) (o : ℕ) (v : ℤ) → Fits k v → e.read k (e.write k m o v) o ≡ v
  pub read-write_apart :
      (k k' : Kind) (m : Image) (o o' : ℕ) (v : ℤ)
      → Apart k o k' o'
      → e.read k' (e.write k m o v) o' ≡ e.read k' m o'

-- Little-endian bytes, by address.
abbrev pub Bytes : Type 0
Bytes = ℕ → ℕ

abbrev put : Bytes → ℕ → ℕ → Bytes
put m o b a = if a == o then b % 256 else m a

-- the two's complement of `v` in `w`
abbrev encode : ℕ → ℤ → ℕ
encode w v = (pos_part v + (w - neg_part v)) % w

abbrev decode : ℕ → ℕ → ℤ
decode w n = if ltb n (w / 2) then pos n else negsuc (w - n - 1)

abbrev word_16 : Bytes → ℕ → ℕ
word_16 m o = m o + 256 * m (o + 1)

abbrev word_32 : Bytes → ℕ → ℕ
word_32 m o = m o + 256 * m (o + 1) + 65_536 * m (o + 2) + 16_777_216 * m (o + 3)

unfoldable pub read_bytes : Kind → Bytes → ℕ → ℤ
read_bytes u8 m o = pos (m o)
read_bytes s8 m o = decode 256 (m o)
read_bytes u16 m o = pos (word_16 m o)
read_bytes s16 m o = decode 65_536 (word_16 m o)
read_bytes u32 m o = pos (word_32 m o)
read_bytes s32 m o = decode 4_294_967_296 (word_32 m o)

abbrev put_16 : Bytes → ℕ → ℕ → Bytes
put_16 m o n = put (put m o n) (o + 1) (n / 256)

abbrev put_32 : Bytes → ℕ → ℕ → Bytes
put_32 m o n = put (put (put_16 m o n) (o + 2) (n / 65_536)) (o + 3) (n / 16_777_216)

unfoldable pub write_bytes : Kind → Bytes → ℕ → ℤ → Bytes
write_bytes u8 m o v = put m o (encode 256 v)
write_bytes s8 m o v = put m o (encode 256 v)
write_bytes u16 m o v = put_16 m o (encode 65_536 v)
write_bytes s16 m o v = put_16 m o (encode 65_536 v)
write_bytes u32 m o v = put_32 m o (encode 4_294_967_296 v)
write_bytes s32 m o v = put_32 m o (encode 4_294_967_296 v)

instance abbrev pub bytes_ecrt : Ecrt Bytes
bytes_ecrt = record {
  read = read_bytes;
  read_bit = λ m o b. (m o / 2 ^ b) % 2 == 1;
  write = write_bytes;
}

read-write_bytes :
    (k : Kind) (m : Bytes) (o : ℕ) (v : ℤ) → Fits k v → read_bytes k (write_bytes k m o v) o ≡ v
unfolding read_bytes write_bytes
read-write_bytes u8 m o v h = ground arith
read-write_bytes s8 m o v h = ground arith
read-write_bytes u16 m o v h = ground arith
read-write_bytes s16 m o v h = ground arith
read-write_bytes u32 m o v h = ground arith
read-write_bytes s32 m o v h = ground arith

-- what a write leaves alone
write_bytes_apart :
    (k : Kind) (m : Bytes) (o : ℕ) (v : ℤ) (a : ℕ)
    → (a < o) ⊎ (o + size k ≤ a)
    → write_bytes k m o v a ≡ m a
unfolding write_bytes
write_bytes_apart u8 m o v a h = ground arith
write_bytes_apart s8 m o v a h = ground arith
write_bytes_apart u16 m o v a h = ground arith
write_bytes_apart s16 m o v a h = ground arith
write_bytes_apart u32 m o v a h = ground arith
write_bytes_apart s32 m o v a h = ground arith

read-Apart :
    (k k' : Kind) (m : Bytes) (o o' : ℕ) (v : ℤ)
    → Apart k o k' o'
    → read_bytes k' (write_bytes k m o v) o' ≡ read_bytes k' m o'
unfolding read_bytes
read-Apart k u8 m o o' v h = rw (write_bytes_apart k m o v o' (omega arith))
read-Apart k s8 m o o' v h = rw (write_bytes_apart k m o v o' (omega arith))
read-Apart k u16 m o o' v h =
    rw
      (write_bytes_apart k m o v o' (omega arith), write_bytes_apart k m o v (o' + 1) (omega arith))
read-Apart k s16 m o o' v h =
    rw
      (write_bytes_apart k m o v o' (omega arith), write_bytes_apart k m o v (o' + 1) (omega arith))
read-Apart k u32 m o o' v h = rw (
  write_bytes_apart k m o v o' (omega arith),
  write_bytes_apart k m o v (o' + 1) (omega arith),
  write_bytes_apart k m o v (o' + 2) (omega arith),
  write_bytes_apart k m o v (o' + 3) (omega arith),
)
read-Apart k s32 m o o' v h = rw (
  write_bytes_apart k m o v o' (omega arith),
  write_bytes_apart k m o v (o' + 1) (omega arith),
  write_bytes_apart k m o v (o' + 2) (omega arith),
  write_bytes_apart k m o v (o' + 3) (omega arith),
)

pub Bytes-IsMemory : IsMemory Bytes
Bytes-IsMemory = record { read-write_self = read-write_bytes; read-write_apart = read-Apart }

-- ===== src/Protocol/Wire.antt =====
-- encoding/binary in big-endian order, as validator.go uses it: fixed-width unsigned integers
-- written to a growing buffer, and read from a bytes.Reader.
use linux_application_develo.Shared.{
  ℕ, zero, suc, ◌+◌, ◌-◌, ◌*◌, ◌/◌, ◌%◌, ◌^◌, ◌≤◌, ◌<◌, ◌≡◌, refl, inl, inr, [], ◌∷◌, ◌++◌, length,
  take, drop, length-drop, drop-All, All, ltb, if◌then◌else◌, Bool-cases, arith,
}
use linux_application_develo.Protocol.{Bytes, IsByte}

-- The `k` bytes of an unsigned integer of 8 * k bits.
unfoldable pub put_uint : ℕ → ℕ → Bytes
put_uint zero n = []
put_uint (suc k) n = (n / 256 ^ k % 256) ∷ put_uint k n

-- The integer that bytes spell, behind the digits `acc`.
unfoldable pub get_uint : ℕ → Bytes → ℕ
get_uint acc [] = acc
get_uint acc (b ∷ bs) = get_uint (acc * 256 + b) bs

-- binary.Read of a k-byte field: the value and what the reader has left. A short reader is used up,
-- the call fails, and the field keeps its zero value.
unfoldable pub read_uint : ℕ → Bytes → ℕ × Bytes
read_uint k r = if ltb (length r) k then (0, []) else (get_uint 0 (take k r), drop k r)

pub length-put_uint : (k n : ℕ) → length (put_uint k n) ≡ k
unfolding put_uint
length-put_uint zero n = refl
length-put_uint (suc k) n = omega (arith, length-put_uint k n)

pub put_uint-IsByte : (k n : ℕ) → All IsByte (put_uint k n)
unfolding put_uint
put_uint-IsByte zero n = tt
put_uint-IsByte (suc k) n = (omega arith, put_uint-IsByte k n)

-- Reading back the four widths of the header's fields.
pub read-put_u8 :
    (n : ℕ) (rest : Bytes) → n < 2 ^ 8 → read_uint 1 (put_uint 1 n ++ rest) ≡ (n, rest)
unfolding read_uint put_uint get_uint
read-put_u8 n rest h = ground arith

pub read-put_u16 :
    (n : ℕ) (rest : Bytes) → n < 2 ^ 16 → read_uint 2 (put_uint 2 n ++ rest) ≡ (n, rest)
unfolding read_uint put_uint get_uint
read-put_u16 n rest h = ground arith

pub read-put_u32 :
    (n : ℕ) (rest : Bytes) → n < 2 ^ 32 → read_uint 4 (put_uint 4 n ++ rest) ≡ (n, rest)
unfolding read_uint put_uint get_uint
read-put_u32 n rest h = ground arith

pub read-put_u64 :
    (n : ℕ) (rest : Bytes) → n < 2 ^ 64 → read_uint 8 (put_uint 8 n ++ rest) ≡ (n, rest)
unfolding read_uint put_uint get_uint
read-put_u64 n rest h = ground arith

-- What reading leaves.
pub length-read_uint : (k : ℕ) (r : Bytes) → length (read_uint k r).1 ≡ length r - k
unfolding read_uint
length-read_uint k r = ground (arith, length-drop k r)

pub read_uint-IsByte : (k : ℕ) (r : Bytes) → All IsByte r → All IsByte (read_uint k r).1
unfolding read_uint
read_uint-IsByte k r h = elim (Bool-cases (ltb (length r) k)) [
  | inl short ↦ rw short tt
  | inr long ↦ rw long (drop-All IsByte k r h)
]

-- Writing back what was read, for the four widths of the header's fields.
abbrev pub WritesBack : ℕ → Bytes → Type 0
WritesBack k r = put_uint k (read_uint k r).0 ++ (read_uint k r).1 ≡ r

pub put-read_u8 : (r : Bytes) → All IsByte r → 1 ≤ length r → WritesBack 1 r
unfolding read_uint put_uint get_uint
put-read_u8 (b ∷ r) h l = ground arith
put-read_u8 [] h l = absurd (omega arith)

pub put-read_u16 : (r : Bytes) → All IsByte r → 2 ≤ length r → WritesBack 2 r
unfolding read_uint put_uint get_uint
put-read_u16 (b₀ ∷ b₁ ∷ r) h l = ground arith
put-read_u16 _ h l = absurd (omega arith)

pub put-read_u32 : (r : Bytes) → All IsByte r → 4 ≤ length r → WritesBack 4 r
unfolding read_uint put_uint get_uint
put-read_u32 (b₀ ∷ b₁ ∷ b₂ ∷ b₃ ∷ r) h l = ground arith
put-read_u32 _ h l = absurd (omega arith)

pub put-read_u64 : (r : Bytes) → All IsByte r → 8 ≤ length r → WritesBack 8 r
unfolding read_uint put_uint get_uint
put-read_u64 (b₀ ∷ b₁ ∷ b₂ ∷ b₃ ∷ b₄ ∷ b₅ ∷ b₆ ∷ b₇ ∷ r) h l = ground arith
put-read_u64 _ h l = absurd (omega arith)

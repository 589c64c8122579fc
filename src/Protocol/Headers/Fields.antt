-- ===== src/Protocol/Headers/Fields.antt =====
-- The fields of a header by their offsets, as against the reads of ValidateHeader one after the other.
use linux_application_develo.Shared.{
  ℕ, zero, suc, ◌+◌, ◌*◌, ◌^◌, ◌≤◌, ◌≡◌, refl, [], ◌∷◌, length, take, arith,
}
use linux_application_develo.Protocol.{Bytes, Header}
use linux_application_develo.Protocol.Wire.{read_uint, get_uint}
use linux_application_develo.Protocol.Headers.{parse_fields}

-- The byte at an offset, 0 behind the end.
unfoldable pub byte_at : ℕ → Bytes → ℕ
byte_at i [] = 0
byte_at zero (b ∷ bs) = b
byte_at (suc i) (b ∷ bs) = byte_at i bs

-- The big-endian numbers of two and of four bytes from an offset on.
abbrev pub u16_at : ℕ → Bytes → ℕ
u16_at i input = byte_at i input * 2 ^ 8 + byte_at (i + 1) input

abbrev pub u32_at : ℕ → Bytes → ℕ
u32_at i input = u16_at i input * 2 ^ 16 + u16_at (i + 2) input

-- The layout of a header, by the offset and the width of each field.
abbrev pub header_at_front : Bytes → Header
header_at_front input = record {
  magic = u32_at 0 input;
  version = u16_at 4 input;
  type = byte_at 6 input;
  flags = byte_at 7 input;
  length = u32_at 8 input;
  sequence = u32_at 12 input;
  timestamp = u32_at 16 input * 2 ^ 32 + u32_at 20 input;
}

read_u8-front : (a : ℕ) (r : Bytes) → read_uint 1 (a ∷ r) ≡ (a, r)
unfolding read_uint get_uint
read_u8-front a r = ground arith

read_u16-front : (a b : ℕ) (r : Bytes) → read_uint 2 (a ∷ b ∷ r) ≡ (a * 2 ^ 8 + b, r)
unfolding read_uint get_uint
read_u16-front a b r = ground arith

read_u32-front :
    (a b c d : ℕ) (r : Bytes)
    → read_uint 4 (a ∷ b ∷ c ∷ d ∷ r) ≡ ((a * 2 ^ 8 + b) * 2 ^ 16 + (c * 2 ^ 8 + d), r)
unfolding read_uint get_uint
read_u32-front a b c d r = ground arith

read_u64-front :
    (a b c d e g h i : ℕ) (r : Bytes)
    → read_uint 8 (a ∷ b ∷ c ∷ d ∷ e ∷ g ∷ h ∷ i ∷ r) ≡ (
      ((a * 2 ^ 8 + b) * 2 ^ 16 + (c * 2 ^ 8 + d)) * 2 ^ 32
          + ((e * 2 ^ 8 + g) * 2 ^ 16 + (h * 2 ^ 8 + i)),
      r,
    )
unfolding read_uint get_uint
read_u64-front a b c d e g h i r = ground arith

-- The reads of ValidateHeader, one after the other, take the fields at their offsets.
pub parse_fields-header_at_front :
    (input : Bytes) → 24 ≤ length input → parse_fields input ≡ header_at_front input
unfolding parse_fields byte_at
parse_fields-header_at_front
      (m₀ ∷ m₁ ∷ m₂ ∷ m₃ ∷ v₀ ∷ v₁ ∷ t ∷ g ∷ l₀ ∷ l₁ ∷ l₂ ∷ l₃ ∷ s₀ ∷ s₁ ∷ s₂ ∷ s₃ ∷ c₀ ∷ c₁ ∷ c₂
        ∷ c₃ ∷ c₄ ∷ c₅ ∷ c₆ ∷ c₇ ∷ r)
      h =
    rw (read_u32-front m₀ m₁ m₂ m₃ _) (
      rw (read_u16-front v₀ v₁ _) (
        rw (read_u8-front t _) (
          rw (read_u8-front g _) (
            rw (read_u32-front l₀ l₁ l₂ l₃ _) (
              rw (read_u32-front s₀ s₁ s₂ s₃ _)
                (rw (read_u64-front c₀ c₁ c₂ c₃ c₄ c₅ c₆ c₇ r) refl))))))
parse_fields-header_at_front _ h = absurd (omega arith)

-- The fields stand in the first 24 bytes.
pub header_at_front-take :
    (input : Bytes) → 24 ≤ length input → header_at_front (take 24 input) ≡ header_at_front input
unfolding byte_at
header_at_front-take
      (_ ∷ _ ∷ _ ∷ _ ∷ _ ∷ _ ∷ _ ∷ _ ∷ _ ∷ _ ∷ _ ∷ _ ∷ _ ∷ _ ∷ _ ∷ _ ∷ _ ∷ _ ∷ _ ∷ _ ∷ _ ∷ _ ∷ _ ∷ _
        ∷ r)
      h =
    refl
header_at_front-take _ h = absurd (omega arith)

-- ===== src/Prelude/Crates.antt =====
-- What the program takes from crates: big-endian words (byteorder), a hash (twox_hash).
use Prim.Native.Nat.{ℕ, ◌+◌, ◌*◌, ◌/◌, ◌%◌, ◌^◌}
use mathlib.Core.Path.{◌≡◌}
use mathlib.Core.Option.{Option, some}
use mathlib.Core.List.{List, [], ◌∷◌}
use tunshell.Prelude.Words.{IsU16, IsU32}

-- byteorder's `ReadBytesExt` and `WriteBytesExt` at `BigEndian`, on a cursor over a slice: a read
-- gives the value and what follows it. The laws are the crate's documentation: big-endian order.
pub record ByteOrder : Type 0 where
  pub read_u8 : List ℕ → Option (ℕ × List ℕ)
  pub read_u16 : List ℕ → Option (ℕ × List ℕ)
  pub read_u32 : List ℕ → Option (ℕ × List ℕ)
  pub write_u16 : ℕ → List ℕ
  pub write_u32 : ℕ → List ℕ
  pub read_u8-cons : (a : ℕ) (rest : List ℕ) → read_u8 (a ∷ rest) ≡ some (a, rest)
  pub read_u16-cons : (a b : ℕ) (rest : List ℕ) → read_u16 (a ∷ b ∷ rest) ≡ some (a * 256 + b, rest)
  pub read_u32-cons :
      (a b c d : ℕ) (rest : List ℕ)
      → read_u32 (a ∷ b ∷ c ∷ d ∷ rest) ≡ some (((a * 256 + b) * 256 + c) * 256 + d, rest)
  pub write_u16-bytes : (n : ℕ) → IsU16 n → write_u16 n ≡ n / 256 ∷ n % 256 ∷ []
  pub write_u32-bytes :
      (n : ℕ)
      → IsU32 n
      → write_u32 n ≡ n / 2 ^ 24 ∷ n / 2 ^ 16 % 256 ∷ n / 2 ^ 8 % 256 ∷ n % 256 ∷ []

-- One call of `Hasher::write_*`.
pub data HashWrite : Type 0 where
  write_u8 write_u16 write_u32 : ℕ → HashWrite
  write : List ℕ → HashWrite

-- twox_hash's `XxHash32`: from the calls made on a fresh hasher to what `finish` returns.
abbrev pub XxHash : Type 0
XxHash = List HashWrite → ℕ

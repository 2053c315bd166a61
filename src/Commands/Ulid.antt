-- ===== src/Commands/Ulid.antt =====
-- src/ros_mcp/commands/ulid.py: the identifiers of commands. A text is the list of its characters, the
-- clock and `os.urandom` are arguments, and a byte is a number below 256.
pub mod Decoded
use ros2_mcp_server.Base.{
  ℕ, zero, suc, ◌+◌, ◌*◌, ◌/◌, ◌%◌, ◌^◌, ◌<◌, ◌≤◌, ◌≡◌, refl, sym, ap, ◌∙◌, Bool, true, false, ◌&&◌,
  ◌==ℕ◌, ltb, if◌then◌else◌, String, ◌==◌, List, [], ◌∷◌, ◌++◌, Option, none, some, length, arith,
  All,
}

-- _CROCKFORD_ALPHABET
abbrev pub crockford_alphabet : List String
crockford_alphabet =
    "0" ∷ "1" ∷ "2" ∷ "3" ∷ "4" ∷ "5" ∷ "6" ∷ "7" ∷ "8" ∷ "9" ∷ "A" ∷ "B" ∷ "C" ∷ "D" ∷ "E" ∷ "F"
    ∷ "G" ∷ "H" ∷ "J" ∷ "K" ∷ "M" ∷ "N" ∷ "P" ∷ "Q" ∷ "R" ∷ "S" ∷ "T" ∷ "V" ∷ "W" ∷ "X" ∷ "Y" ∷ "Z"
    ∷ []

-- xs[i], for an index in range.
abbrev pub char_at : List String → ℕ → String
char_at [] i = ""
char_at (c ∷ cs) zero = c
char_at (c ∷ cs) (suc i) = char_at cs i

-- int.from_bytes(data, byteorder="big"), after the bytes of `value`.
abbrev pub from_bytes : ℕ → List ℕ → ℕ
from_bytes value [] = value
from_bytes value (b ∷ bs) = from_bytes (value * 256 + b) bs

-- The loop's characters once they are reversed: each round puts one in front of those before it.
unfoldable pub base32_chars : ℕ → ℕ → List String
base32_chars zero value = []
base32_chars (suc k) value =
    base32_chars k (value / 32) ++ char_at crockford_alphabet (value % 32) ∷ []

unfoldable pub encode_base32 : List ℕ → List String
encode_base32 bytes = base32_chars 26 (from_bytes 0 bytes)

-- value.to_bytes(k, byteorder="big"), for a value in range.
unfoldable pub to_bytes : ℕ → ℕ → List ℕ
to_bytes zero value = []
to_bytes (suc k) value = to_bytes k (value / 256) ++ value % 256 ∷ []

-- `milliseconds` is int(time.time() * 1000); `& 0xFFFFFFFFFFFF` keeps its lower 48 bits.
unfoldable pub new_ulid : ℕ → List ℕ → List String
new_ulid milliseconds randomness =
    encode_base32 (to_bytes 6 (milliseconds % 281474976710656) ++ randomness)

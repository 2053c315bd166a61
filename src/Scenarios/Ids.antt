-- ===== src/Scenarios/Ids.antt =====
-- An identifier at a given time with given random bytes.
use ros2_mcp_server.Base.{ℕ, ◌/◌, ◌%◌, ◌≡◌, refl, [], ◌∷◌, List, arith}
use ros2_mcp_server.Commands.Ulid.{new_ulid, encode_base32, from_bytes, base32_chars, to_bytes}
use ros2_mcp_server.Commands.Ulid.Decoded.{decode, decode-new_ulid, power}

abbrev randomness : List ℕ
randomness = 1 ∷ 2 ∷ 3 ∷ 4 ∷ 5 ∷ 6 ∷ 7 ∷ 8 ∷ 9 ∷ 255 ∷ []

ulid_text :
    new_ulid 1700000000000 randomness
    ≡ "0" ∷ "1" ∷ "H" ∷ "F" ∷ "7" ∷ "Y" ∷ "A" ∷ "T" ∷ "0" ∷ "0" ∷ "0" ∷ "4" ∷ "1" ∷ "0" ∷ "6" ∷ "1"
      ∷ "0" ∷ "5" ∷ "0" ∷ "R" ∷ "3" ∷ "G" ∷ "G" ∷ "2" ∷ "F" ∷ "Z" ∷ []
unfolding new_ulid encode_base32 base32_chars to_bytes
ulid_text = refl

decode-new_ulid_example :
    (decode 0 (new_ulid 1700000000000 randomness) / power 2 80 ≡ 1700000000000 % power 2 48)
    × (decode 0 (new_ulid 1700000000000 randomness) % power 2 80 ≡ from_bytes 0 randomness)
decode-new_ulid_example = decode-new_ulid 1700000000000 randomness refl (
  omega arith,
  (
    omega arith,
    (
      omega arith,
      (
        omega arith,
        (
          omega arith,
          (omega arith, (omega arith, (omega arith, (omega arith, (omega arith, tt))))),
        ),
      ),
    ),
  ),
)

-- ===== src/Commands/Ulid/Decoded.antt =====
-- The identifiers of commands/ulid.py read back: base 32 digits, most significant first, of a number
-- whose upper bits are the time.
use ros2_mcp_server.Commands.Ulid.{
  crockford_alphabet, char_at, from_bytes, base32_chars, encode_base32, to_bytes, new_ulid,
}
use ros2_mcp_server.Base.{
  ℕ, zero, suc, ◌+◌, ◌*◌, ◌/◌, ◌%◌, ◌<◌, ◌≡◌, refl, ap, subst, ◌∙◌, Bool, true, false, ◌&&◌, ◌==ℕ◌,
  if◌then◌else◌, String, ◌==◌, List, [], ◌∷◌, ◌++◌, length, arith, All, Bool-cases, inl, inr,
}

-- The place of a character in the alphabet.
abbrev pub index_of : List String → String → ℕ
index_of [] s = 0
index_of (c ∷ cs) s = let rest = index_of cs s in if c == s then 0 else suc rest

-- The number that base 32 digits denote, after those of `value`.
abbrev pub decode : ℕ → List String → ℕ
decode value [] = value
decode value (c ∷ cs) = decode (value * 32 + index_of crockford_alphabet c) cs

decode-append :
    (value : ℕ) (cs : List String) (c : String)
    → decode value (cs ++ c ∷ []) ≡ decode value cs * 32 + index_of crockford_alphabet c
decode-append value [] c = refl
decode-append value (d ∷ ds) c = decode-append (value * 32 + index_of crockford_alphabet d) ds c

from_bytes-append :
    (value : ℕ) (bs : List ℕ) (b : ℕ)
    → from_bytes value (bs ++ b ∷ []) ≡ from_bytes value bs * 256 + b
from_bytes-append value [] b = refl
from_bytes-append value (a ∷ bs) b = from_bytes-append (value * 256 + a) bs b

abbrev all_below : ℕ → (ℕ → Bool) → Bool
all_below zero p = true
all_below (suc k) p = p k && all_below k p

all_below-lt : (k : ℕ) (p : ℕ → Bool) (r : ℕ) → all_below k p ≡ true → r < k → p r ≡ true
all_below-lt zero p r h l = absurd (omega arith)
all_below-lt (suc k) p r h l = elim (Bool-cases (p k)) [
  | inr e ↦ absurd (let no : false ≡ true = rw e at h in cc)
  | inl e ↦ elim (Bool-cases (r ==ℕ k)) [
    | inl q ↦ let same : r ≡ k = ground arith in rw same e
    | inr q ↦ all_below-lt k p r (rw e at h) (ground arith)
  ]
]

index_of-char_at : (r : ℕ) → r < 32 → index_of crockford_alphabet (char_at crockford_alphabet r) ≡ r
index_of-char_at r l =
    let found : (index_of crockford_alphabet (char_at crockford_alphabet r) ==ℕ r) ≡ true =
      all_below-lt 32 (λ i. index_of crockford_alphabet (char_at crockford_alphabet i) ==ℕ i) r refl
        l in
    same_of _ r found
  where
    same_of : (a b : ℕ) → (a ==ℕ b) ≡ true → a ≡ b
    same_of a b h = ground arith

-- b ^ k
abbrev pub power : ℕ → ℕ → ℕ
power b zero = 1
power b (suc k) = b * power b k

-- The k digits of a number that has no more are those of the number.
decode-base32_chars : (k v : ℕ) → v < power 32 k → decode 0 (base32_chars k v) ≡ v
unfolding base32_chars
decode-base32_chars zero v l = omega arith
decode-base32_chars (suc k) v l =
    let upper = decode-base32_chars k (v / 32) (omega arith) in
    let digit = index_of-char_at (v % 32) (omega arith) in
    decode-append 0 (base32_chars k (v / 32)) (char_at crockford_alphabet (v % 32))
    ∙ rw (upper, digit) (omega arith)

from_bytes-to_bytes : (k v : ℕ) → v < power 256 k → from_bytes 0 (to_bytes k v) ≡ v
unfolding to_bytes
from_bytes-to_bytes zero v l = omega arith
from_bytes-to_bytes (suc k) v l =
    let upper = from_bytes-to_bytes k (v / 256) (omega arith) in
    from_bytes-append 0 (to_bytes k (v / 256)) (v % 256) ∙ rw upper (omega arith)

abbrev pub IsByte : ℕ → Type 0
IsByte b = b < 256

-- Bytes after a number shift it and stay below the next.
from_bytes-bound :
    (value bound : ℕ) (bs : List ℕ)
    → All IsByte bs
    → value < bound
    → from_bytes value bs < bound * power 256 (length bs)
from_bytes-bound value bound [] h l = omega arith
from_bytes-bound value bound (b ∷ bs) h l =
    let above = from_bytes-bound (value * 256 + b) (bound * 256) bs h.1 (omega (arith, h.0)) in
    grind arith

from_bytes-shift :
    (value : ℕ) (bs : List ℕ)
    → from_bytes value bs ≡ value * power 256 (length bs) + from_bytes 0 bs
from_bytes-shift value [] = omega arith
from_bytes-shift value (b ∷ bs) =
    let above = from_bytes-shift (value * 256 + b) bs in
    let low = from_bytes-shift (0 + b) bs in grind arith

from_bytes-concat :
    (value : ℕ) (cs bs : List ℕ) → from_bytes value (cs ++ bs) ≡ from_bytes (from_bytes value cs) bs
from_bytes-concat value [] bs = refl
from_bytes-concat value (a ∷ cs) bs = from_bytes-concat (value * 256 + a) cs bs

-- What the characters of an identifier denote, of the time and of the random bytes.
abbrev ulid_value : ℕ → List ℕ → ℕ
ulid_value milliseconds randomness =
    milliseconds % 281474976710656 * power 256 10 + from_bytes 0 randomness

ulid_bytes-value :
    (milliseconds : ℕ) (randomness : List ℕ)
    → length randomness ≡ 10
    → from_bytes 0 (to_bytes 6 (milliseconds % 281474976710656) ++ randomness)
      ≡ ulid_value milliseconds randomness
ulid_bytes-value t rs l =
    from_bytes-concat 0 (to_bytes 6 (t % 281474976710656)) rs
    ∙ ap (λ v. from_bytes v rs) (from_bytes-to_bytes 6 (t % 281474976710656) (omega arith))
    ∙ from_bytes-shift (t % 281474976710656) rs
    ∙ ap (λ k. t % 281474976710656 * power 256 k + from_bytes 0 rs) l

-- An identifier of ten random bytes, read as base 32 digits, is the time in milliseconds, modulo
-- 2 ^ 48, followed by the 80 random bits: both can be read back.
pub decode-new_ulid :
    (milliseconds : ℕ) (randomness : List ℕ)
    → length randomness ≡ 10
    → All IsByte randomness
    → (decode 0 (new_ulid milliseconds randomness) / power 2 80 ≡ milliseconds % power 2 48)
      × (decode 0 (new_ulid milliseconds randomness) % power 2 80 ≡ from_bytes 0 randomness)
unfolding new_ulid encode_base32
decode-new_ulid t rs l h =
    let low : from_bytes 0 rs < 1 * power 256 (length rs) =
      from_bytes-bound 0 1 rs h (omega arith) in
    let small : from_bytes 0 rs < 1208925819614629174706176 =
      subst (λ k. from_bytes 0 rs < 1 * power 256 k) l low in
    let value = ulid_bytes-value t rs l in
    let read : decode 0 (new_ulid t rs) ≡ ulid_value t rs =
      decode-base32_chars 26 _ (omega arith) ∙ value in
    (rw read (omega arith), rw read (omega arith))

-- ===== src/External/Sample.antt =====
-- A concrete library that behaves as documented; its hash is a fixed value.
use trustflow.Base.{
  ℕ, ◌+◌, ◌-◌, ◌*◌, ◌/◌, ◌%◌, ◌<◌, ◌≡◌, refl, ap₂, [], ◌∷◌, arith, Bytes, Str, codes, str_eq,
  str_eq_iff, length, length-replicate, replicate, map, ltb, IsByte, All, if◌then◌else◌,
}
use trustflow.External.{External, IsExternal, lower}

hex_digit : ℕ → ℕ
hex_digit n = if ltb n 10 then 48 + n else 87 + n

hex_value : ℕ → ℕ
hex_value c = if ltb c 58 then c - 48 else c - 87

unfoldable pub to_hex : Bytes → Str
unfolding hex_digit
to_hex [] = []
to_hex (b ∷ bs) = hex_digit (b / 16) ∷ hex_digit (b % 16) ∷ to_hex bs

unfoldable pub from_hex : Str → Bytes
unfolding hex_value
from_hex [] = []
from_hex (c ∷ []) = []
from_hex (c ∷ d ∷ s) = (16 * hex_value c + hex_value d) ∷ from_hex s

abbrev pub sample : External
sample = record {
  equals_ignore_case = λ s t. str_eq (map lower s) (map lower t);
  bytes_to_hex_string = to_hex;
  hex_string_to_bytes = from_hex;
  sha256 = λ b. replicate 32 7;
  format = λ template arguments. codes template;
  join = λ parts separator. [];
}

length-to_hex : (b : Bytes) → length (to_hex b) ≡ 2 * length b
unfolding to_hex
length-to_hex [] = refl
length-to_hex (b ∷ bs) = omega (arith, length-to_hex bs)

digits_back :
    (b : ℕ) → b < 256 → 16 * hex_value (hex_digit (b / 16)) + hex_value (hex_digit (b % 16)) ≡ b
unfolding hex_digit hex_value
digits_back b h = ground arith

from_hex-to_hex : (b : Bytes) → All IsByte b → from_hex (to_hex b) ≡ b
unfolding to_hex from_hex
from_hex-to_hex [] h = refl
from_hex-to_hex (b ∷ bs) (hb, hs) = ap₂ ◌∷◌ (digits_back b hb) (from_hex-to_hex bs hs)

length-from_hex : (s : Str) → length (from_hex s) ≡ length s / 2
unfolding from_hex
length-from_hex [] = omega arith
length-from_hex (c ∷ []) = omega arith
length-from_hex (c ∷ d ∷ s) = omega (arith, length-from_hex s)

pub sample-IsExternal : IsExternal sample
sample-IsExternal = record {
  equals_ignore_case_iff = λ s t. str_eq_iff (map lower s) (map lower t);
  length-bytes_to_hex_string = length-to_hex;
  hex_string_to_bytes-bytes_to_hex_string = from_hex-to_hex;
  length-hex_string_to_bytes = length-from_hex;
  length-sha256 = λ b. length-replicate {A = ℕ} 32 7;
}

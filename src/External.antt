-- ===== src/External.antt =====
-- What the attestation code takes from absl, yacl and fmt, and what it relies on.
pub mod Sample
use trustflow.Base.{
  ℕ, ◌+◌, ◌*◌, ◌/◌, ◌≡◌, ◌↔◌, String, true, Bool, List, ◌++◌, Bytes, Str, IsByte, All, length, map,
  leb, ◌&&◌, if◌then◌else◌,
}
use trustflow.Error.{Arg}

pub record External : Type 0 where
  -- absl
  pub equals_ignore_case : Str → Str → Bool
  pub bytes_to_hex_string : Bytes → Str
  pub hex_string_to_bytes : Str → Bytes
  -- yacl
  pub sha256 : Bytes → Bytes
  -- fmt
  pub format : String → List Arg → Str
  pub join : List Str → String → Str

-- ASCII letters in lower case.
abbrev pub lower : ℕ → ℕ
lower c = if leb 65 c && leb c 90 then c + 32 else c

-- The documented behaviour.
pub record IsExternal (X : External) : Type 0 where
  -- "whether given ASCII strings are equal, ignoring case in the comparison"
  pub equals_ignore_case_iff :
      (s t : Str) → (X.equals_ignore_case s t ≡ true) ↔ (map lower s ≡ map lower t)
  pub length-bytes_to_hex_string : (b : Bytes) → length (X.bytes_to_hex_string b) ≡ 2 * length b
  pub hex_string_to_bytes-bytes_to_hex_string :
      (b : Bytes) → All IsByte b → X.hex_string_to_bytes (X.bytes_to_hex_string b) ≡ b
  pub length-hex_string_to_bytes : (s : Str) → length (X.hex_string_to_bytes s) ≡ length s / 2
  pub length-sha256 : (b : Bytes) → length (X.sha256 b) ≡ 32

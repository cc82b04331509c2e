-- ===== src/Generation.antt =====
-- trustflow/attestation/generation: reports on the platform that the code runs on.
pub mod Intel
pub mod Csv
pub mod Wrapper
pub mod Laws
pub mod SampleMain
mod Tests
use trustflow.Base.{
  ℕ, ◌+◌, ◌*◌, ◌-◌, ◌==◌, leb, Bool, true, false, ◌||◌, not, Option, [], ◌∷◌, ◌++◌, Bytes, Str,
  str_eq, is_empty, length, take, drop, replicate, if◌then◌else◌,
}
use trustflow.Error.{Result, ok, undefined, text, number, enforce, ◌>>=◌, ◌>>◌}
use trustflow.External.{External}
use trustflow.Attestation.{report_type_bgcheck, report_type_passport}

-- `UnifiedAttestationGenerationParams` and its `report_params`
pub record GenParams : Type 0 where
  pub report_type : Str
  pub report_hex_nonce : Str
  pub hex_user_data : Str
  pub pem_public_key : Str

-- `memcpy(buf + offset, src, size of src)`; to write past the end is undefined.
unfoldable pub memcpy : Bytes → ℕ → Bytes → Result Bytes
memcpy buf offset src =
    if leb (offset + length src) (length buf)
    then ok (take offset buf ++ src ++ drop (offset + length src) buf)
    else undefined

-- Copied only if there is something.
unfoldable pub memcpy_some : Bool → Bytes → ℕ → Bytes → Result Bytes
memcpy_some true buf offset src = ok buf
memcpy_some false buf offset src = memcpy buf offset src

-- The tests that all three generators begin with, on the bytes that a nonce and user data may have.
unfoldable pub check_params : ℕ → ℕ → GenParams → Result (Unit {0})
check_params nonce_size hash_size p = do
  enforce (leb (length p.report_hex_nonce) (nonce_size * 2))
      "report_hex_nonce length should not be greater than {}, got {}"
      (number (nonce_size * 2) ∷ number (length p.report_hex_nonce) ∷ [])
  enforce (leb (length p.hex_user_data) (hash_size * 2))
      "hex_user_data length should not be greater than {}, got {}"
      (number (hash_size * 2) ∷ number (length p.hex_user_data) ∷ [])
  enforce (is_empty p.report_hex_nonce || is_empty p.hex_user_data)
      "Not support both nonce and user data" []

-- Report data of `data_size` bytes: nonce or user data, and then the hash of the key at `hash_size`.
unfoldable pub fill_report_data : External → ℕ → ℕ → GenParams → Result Bytes
fill_report_data X hash_size data_size p = do
  d ←
      memcpy_some (is_empty p.report_hex_nonce) (replicate data_size 0) 0
        (X.hex_string_to_bytes p.report_hex_nonce)
  d ← memcpy_some (is_empty p.hex_user_data) d 0 (X.hex_string_to_bytes p.hex_user_data)
  memcpy_some (is_empty p.pem_public_key) d hash_size
      (X.sha256 (X.hex_string_to_bytes p.pem_public_key))

-- `PrepareSgxReportData` and `PrepareTdxReportData`.
unfoldable pub prepare_report_data : External → ℕ → ℕ → GenParams → Result Bytes
prepare_report_data X hash_size data_size p = do
  check_params hash_size hash_size p
  fill_report_data X hash_size data_size p

unfoldable pub check_report_type : GenParams → Result (Unit {0})
check_report_type p =
    enforce (str_eq p.report_type report_type_bgcheck || str_eq p.report_type report_type_passport)
      "Unsupport report_type: {}" (text p.report_type ∷ [])

-- ===== src/Evidence.antt =====
-- trustflow/attestation as a whole: a report that generation/sgx2 makes, at verification/wrapper.
pub mod Made
pub mod Judged
pub mod Verified
pub mod Tdx
mod Sample
mod Tests
mod TdxTests
use trustflow.Base.{ℕ, ◌+◌, ◌≤◌, ◌≡◌, ◌++◌, Bytes, Str, length, replicate, is_empty, false, some}
use trustflow.Error.{ok}
use trustflow.Attestation.{Collateral}
use trustflow.Verification.Dcap.{DcapReport, DcapCodec}
use trustflow.Verification.Sgx2.{Layout}
use trustflow.Generation.Intel.{DcapEncoder, SgxDevice}

-- What protobuf and base 64 encode is decoded again; a message is never the empty text.
pub record IsCodec (E : DcapEncoder) (C : DcapCodec) : Type 0 where
  pub report_of_json-to_json :
      (r : DcapReport) (s : Str) → E.report_to_json r ≡ some s → C.report_of_json s ≡ some r
  pub collateral_of_json-to_json :
      (c : Collateral) (s : Str)
      → E.collateral_to_json c ≡ some s
      → (is_empty s ≡ false) × (C.collateral_of_json s ≡ some c)
  pub base64_decode-encode : (b : Bytes) → C.base64_decode (E.base64_encode b) ≡ ok b

-- The platform puts the report data at its place in a quote, in a buffer of the size that it asked for; what
-- it leaves in `quote_len` may be less.
pub record IsDevice (D : SgxDevice) (L : Layout) : Type 0 where
  pub quoted :
      (d quote : Bytes) (size quote_len : ℕ)
      → length d ≡ 64
      → D.gen_dcap_quote d size (replicate size 0) ≡ (0, quote_len, quote)
      → (length quote ≡ size)
        × (front : Bytes) × (back : Bytes) × (quote ≡ front ++ (d ++ back))
        × (length front ≡ L.report_data)
        × (L.quote3_size ≤ length quote)

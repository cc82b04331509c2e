-- ===== src/Verification/Tdx/Laws.antt =====
-- Which quotes of TDX are parsed.
use trustflow.Base.{ℕ, ◌≤◌, ◌≡◌, ◌⊎◌, arith, leb→le, Bytes, length}
use trustflow.Error.{ok, with_value}
use trustflow.External.{External}
use trustflow.Attestation.{view}
use trustflow.CryptoUtil.Word.{join_bytes}
use trustflow.Verification.Attributes.{Attributes}
use trustflow.Verification.Dcap.{DcapVerifier, Qvl}
use trustflow.Verification.Tdx.{Layout, find_report_body, tdx_check_quote, tdx_parse_unified_report}

body_lem :
    (L : Layout) (n : ℕ) {base : ℕ}
    → find_report_body L n ≡ ok base
    → ((n ≡ 4) × (base ≡ L.report_body)) ⊎ ((n ≡ 5) × (base ≡ L.body))
unfolding find_report_body
body_lem L n h = ground arith

-- A quote whose header is of TDX; `base` is where its report body starts.
pub record IsTdxQuote (L : Layout) (quote : Bytes) (base : ℕ) : Type 0 where
  pub quote4_fits : L.quote4_size ≤ length quote
  pub quote5_fits : L.quote5_size ≤ length quote
  pub tee_type : Bytes
  pub tee_type_read : view quote L.tee_type.offset L.tee_type.size ≡ ok tee_type
  pub tee_type_tdx : join_bytes 4 tee_type ≡ 0x81
  pub version : Bytes
  pub version_read : view quote L.version.offset L.version.size ≡ ok version
  pub version_base :
      ((join_bytes 2 version ≡ 4) × (base ≡ L.report_body))
      ⊎ ((join_bytes 2 version ≡ 5) × (base ≡ L.body))

pub check_lem :
    (L : Layout) (quote : Bytes) (base : ℕ)
    → tdx_check_quote L quote ≡ ok base
    → IsTdxQuote L quote base
unfolding tdx_check_quote
check_lem L quote base h =
    with_value (view quote L.tee_type.offset L.tee_type.size) (λ x e. ground arith)
      (λ e. ground arith)
      λ t e1.
        with_value (view quote L.version.offset L.version.size) (λ x e. ground arith)
          (λ e. ground arith)
          λ n e2. record {
            quote4_fits = leb→le L.quote4_size (length quote) (ground arith);
            quote5_fits = leb→le L.quote5_size (length quote) (ground arith);
            tee_type = t;
            tee_type_read = e1;
            tee_type_tdx = ground arith;
            version = n;
            version_read = e2;
            version_base = body_lem L (join_bytes 2 n) (ground arith);
          }

-- A quote is parsed only if it is as long as the structs of versions 4 and 5 both, its header names
-- TDX as the kind of TEE, and its version is 4 or 5.
pub tdx_parse_unified_report_checked :
    (L : Layout) (X : External) (Q : Qvl) (v : DcapVerifier) (attrs a : Attributes)
    → tdx_parse_unified_report L X Q v attrs ≡ ok a
    → (base : ℕ) × IsTdxQuote L v.quote base
unfolding tdx_parse_unified_report
tdx_parse_unified_report_checked L X Q v attrs a h =
    with_value (tdx_check_quote L v.quote) (λ x e. ground arith) (λ e. ground arith)
      λ base e. (base, check_lem L v.quote base e)

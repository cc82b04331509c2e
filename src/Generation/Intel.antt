-- ===== src/Generation/Intel.antt =====
-- generation/sgx2/sgx2_generator.cc and generation/tdx/tdx_generator.cc.
use trustflow.Base.{
  ℕ, ◌==◌, Bool, Option, none, some, [], ◌∷◌, Bytes, Str, codes, str_eq, length, replicate,
  if◌then◌else◌,
}
use trustflow.Error.{Result, ok, text, number, enforce, yacl_throw, ◌>>=◌, ◌>>◌}
use trustflow.External.{External}
use trustflow.Attestation.{
  Report, report_version, report_type_passport, platform_sgx_dcap, platform_tdx, Collateral,
  pb2json,
}
use trustflow.Verification.Dcap.{DcapReport}
use trustflow.Collateral.{IntelQv, get_intel_collateral}
use trustflow.Generation.{GenParams, prepare_report_data, check_report_type}

-- The encoders of protobuf and cppcodec.
pub record DcapEncoder : Type 0 where
  pub report_to_json : DcapReport → Option Str
  pub collateral_to_json : Collateral → Option Str
  pub base64_encode : Bytes → Str

-- The SGX driver: whether it opens, and the codes and results of its two requests. The second one is given
-- report data, `quote_len` and the buffer, and leaves the last two changed.
pub record SgxDevice : Type 0 where
  pub opens : Bool
  pub get_dcap_quote_size : ℕ × ℕ
  pub gen_dcap_quote : Bytes → ℕ → Bytes → ℕ × ℕ × Bytes

-- `tdx_att_get_quote`: its code, and the buffer with its size if the pointer is not null.
pub record TdxDevice : Type 0 where
  pub success : ℕ
  pub tdx_att_get_quote : Bytes → ℕ × Option Bytes

-- `SGX_HASH_SIZE`, and the size of the report data.
pub record Sizes : Type 0 where
  pub sgx_hash_size : ℕ
  pub report_data_size : ℕ

module _ (X : External) (S : Sizes) (E : DcapEncoder) (Q : IntelQv) where
  -- The collateral is there only in a report of type passport.
  unfoldable pub collateral_json : Str → Bytes → ℕ → Result Str
  collateral_json report_type quote quote_size =
      if str_eq report_type report_type_passport
      then (do
        collateral ← get_intel_collateral Q quote quote_size
        pb2json E.collateral_to_json collateral)
      else ok []

  -- The report on a quote, of which both generators end with their own copy.
  unfoldable pub make_report : Str → Str → Bytes → ℕ → Result Report
  make_report platform report_type quote quote_size = do
    json_collateral ← collateral_json report_type quote quote_size
    json_report ←
        pb2json E.report_to_json
          (record { b64_quote = E.base64_encode quote; json_collateral = json_collateral })
    ok record {
      str_report_version = report_version;
      str_report_type = report_type;
      str_tee_platform = platform;
      json_report = json_report;
    }

  -- `PrepareSgxReportData`, which is `PrepareTdxReportData` with the sizes of SGX.
  unfoldable pub prepare_sgx_report_data : GenParams → Result Bytes
  prepare_sgx_report_data p = prepare_report_data X S.sgx_hash_size S.report_data_size p

  unfoldable pub sgx2_generate_report : SgxDevice → GenParams → Result Report
  sgx2_generate_report D p = do
    check_report_type p
    enforce D.opens "Fail to open {}" (text (codes "/dev/sgx") ∷ [])
    let (size_ret, quote_size) = D.get_dcap_quote_size
    enforce (size_ret == 0) "Fail to get quote size, errno = {}" []
    report_data ← prepare_sgx_report_data p
    let (ret, quote_len, quote) = D.gen_dcap_quote report_data quote_size (replicate quote_size 0)
    enforce (ret == 0) "Fail to get quote, errno = {}" []
    make_report platform_sgx_dcap p.report_type quote quote_len

  -- The quote, if the call succeeds and gives one.
  unfoldable pub got_quote : ℕ → Bool → Option Bytes → Result Bytes
  got_quote ret good none = yacl_throw "tdx_att_get_quote err: {:#x}" (number ret ∷ [])
  got_quote ret good (some quote) = do
    enforce good "tdx_att_get_quote err: {:#x}" (number ret ∷ [])
    ok quote

  unfoldable pub tdx_generate_report : TdxDevice → GenParams → Result Report
  tdx_generate_report D p = do
    check_report_type p
    report_data ← prepare_report_data X S.sgx_hash_size S.report_data_size p
    let (ret, p_quote_buf) = D.tdx_att_get_quote report_data
    quote ← got_quote ret (ret == D.success) p_quote_buf
    make_report platform_tdx p.report_type quote (length quote)

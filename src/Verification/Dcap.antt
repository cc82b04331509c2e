-- ===== src/Verification/Dcap.antt =====
-- What verification/sgx2/sgx2_verifier.cc and verification/tdx/tdx_verifier.cc share word by word:
-- the state, `Init`, the collateral, `VerifyPlatform` and the halves of the report data.
pub mod Laws
mod Tests
use trustflow.Base.{
  ℕ, ◌+◌, ◌%◌, ◌^◌, ◌/◌, ◌*◌, ◌==◌, bit_and, true, false, not, Bool, String, Option, [], ◌∷◌, Bytes,
  Str, codes, str_eq, is_empty, length, if◌then◌else◌,
}
use trustflow.Error.{Result, ok, text, number, enforce, yacl_throw, ◌>>=◌, ◌>>◌}
use trustflow.External.{External}
use trustflow.Attestation.{
  Report, report_version, report_type_passport, Collateral, no_collateral, json2pb, view,
}

-- `DcapReport`
pub record DcapReport : Type 0 where
  pub b64_quote : Str
  pub json_collateral : Str

-- The decoders of protobuf and cppcodec.
pub record DcapCodec : Type 0 where
  pub report_of_json : Str → Option DcapReport
  pub collateral_of_json : Str → Option Collateral
  pub base64_decode : Str → Result Bytes

pub record DcapVerifier : Type 0 where
  pub report : Report
  pub quote : Bytes
  pub collateral : Collateral

-- `sgx_ql_qve_collateral_t`: what each pointer is to, with the size next to it. Its `tee_type` is
-- never set.
pub record CollateralData : Type 0 where
  pub version : ℕ
  pub pck_crl_issuer_chain : Str × ℕ
  pub root_ca_crl : Str × ℕ
  pub pck_crl : Str × ℕ
  pub tcb_info_issuer_chain : Str × ℕ
  pub tcb_info : Str × ℕ
  pub qe_identity_issuer_chain : Str × ℕ
  pub qe_identity : Str × ℕ

-- `sgx_ql_qv_result_t`
pub data QvResult : Type 0 where
  result_ok : QvResult
  config_needed : QvResult
  out_of_date : QvResult
  out_of_date_config_needed : QvResult
  sw_hardening_needed : QvResult
  config_and_sw_hardening_needed : QvResult
  invalid_signature : QvResult
  revoked : QvResult
  unspecified : QvResult
  other : QvResult

-- Intel's quote verification library; the first component of a result is the returned code.
pub record Qvl : Type 0 where
  pub success : ℕ
  pub supplemental_size : ℕ
  pub flags_debug : ℕ
  pub report_data_size : ℕ
  pub get_quote_supplemental_data_size : ℕ × ℕ
  pub verify_quote : Bytes → CollateralData → ℕ → ℕ → ℕ × QvResult
  pub result_number : QvResult → ℕ

unfoldable pub set_collateral : Str → Str → Result (Str × ℕ)
set_collateral name value = do
  enforce (not (is_empty value)) "Invlaid collateral data: {}" (text name ∷ [])
  ok (value, (length value + 1) % 2 ^ 32)

unfoldable pub initialize_collateral_data : Collateral → Result CollateralData
initialize_collateral_data c = do
  pck_crl_issuer_chain ← set_collateral (codes "pck_crl_issuer_chain") c.pck_crl_issuer_chain
  root_ca_crl ← set_collateral (codes "root_ca_crl") c.root_ca_crl
  pck_crl ← set_collateral (codes "pck_crl") c.pck_crl
  tcb_info_issuer_chain ← set_collateral (codes "tcb_info_issuer_chain") c.tcb_info_issuer_chain
  tcb_info ← set_collateral (codes "tcb_info") c.tcb_info
  qe_identity_issuer_chain ←
      set_collateral (codes "qe_identity_issuer_chain") c.qe_identity_issuer_chain
  qe_identity ← set_collateral (codes "qe_identity") c.qe_identity
  ok record {
    version = c.version;
    pck_crl_issuer_chain = pck_crl_issuer_chain;
    root_ca_crl = root_ca_crl;
    pck_crl = pck_crl;
    tcb_info_issuer_chain = tcb_info_issuer_chain;
    tcb_info = tcb_info;
    qe_identity_issuer_chain = qe_identity_issuer_chain;
    qe_identity = qe_identity;
  }

unfoldable pub check_report : Str → Report → Result (Unit {0})
check_report platform report = do
  enforce (str_eq report.str_report_version report_version) "Only version {} is supported, but {}"
      (text report_version ∷ text report.str_report_version ∷ [])
  enforce (str_eq report.str_report_type report_type_passport) "Only {} is supported now, but {}"
      (text report_type_passport ∷ text report.str_report_type ∷ [])
  enforce (str_eq report.str_tee_platform platform) "It's not {} platfrom, input platform is {}"
      (text platform ∷ text report.str_tee_platform ∷ [])

-- The collateral stays empty if the report has none.
unfoldable pub parse_collateral : DcapCodec → Str → Result Collateral
parse_collateral C json_collateral =
    if is_empty json_collateral
    then ok no_collateral
    else json2pb C.collateral_of_json json_collateral

-- `Init` of the verifier of `platform`, which the constructor calls.
unfoldable pub init : Str → DcapCodec → Report → Result DcapVerifier
init platform C report = do
  check_report platform report
  dcap_report ← json2pb C.report_of_json report.json_report
  quote ← C.base64_decode dcap_report.b64_quote
  collateral ← parse_collateral C dcap_report.json_collateral
  ok record { report = report; quote = quote; collateral = collateral }

-- The `switch` over the result.
unfoldable pub check_result : Qvl → QvResult → Result (Unit {0})
check_result Q result = elim result [
  | result_ok ↦ ok tt
  | config_needed ↦ ok tt
  | out_of_date ↦ ok tt
  | out_of_date_config_needed ↦ ok tt
  | sw_hardening_needed ↦ ok tt
  | config_and_sw_hardening_needed ↦ ok tt
  | bad ↦
      yacl_throw "Fail to verify dcap quote, quote verification result: {}"
        (number (Q.result_number bad) ∷ [])
]

-- `VerifyPlatform` at the time `current_time`.
unfoldable pub verify_platform : Qvl → ℕ → DcapVerifier → Result (Unit {0})
verify_platform Q current_time v = do
  collateral_data ← initialize_collateral_data v.collateral
  let (size_ret, supplemental_data_size) = Q.get_quote_supplemental_data_size
  enforce (size_ret == Q.success) "Fail to get supplemental data size, error code: {}"
      (number size_ret ∷ [])
  enforce (supplemental_data_size == Q.supplemental_size)
      "Size is not same with header definition in SGX SDK, please make sure you are using same version of SGX SDK and DCAP QVL."
      []
  let (dcap_ret, result) =
      Q.verify_quote v.quote collateral_data current_time supplemental_data_size
  enforce (dcap_ret == Q.success) "Fail to verify dcap quote, error code: {0:#x}"
      (number dcap_ret ∷ [])
  check_result Q result

abbrev pub report_data_size : ℕ
report_data_size = 64

-- The two halves of the report data at `offset`, in hexadecimal: user data and public key hash.
unfoldable pub halves : External → Qvl → Bytes → ℕ → Result (Str × Str)
halves X Q quote offset = do
  enforce (report_data_size == Q.report_data_size) "Report data size is not {}"
      (number report_data_size ∷ [])
  user_data ← view quote offset (report_data_size / 2)
  public_key_hash ← view quote (offset + report_data_size / 2) (report_data_size / 2)
  ok (X.bytes_to_hex_string user_data, X.bytes_to_hex_string public_key_hash)

unfoldable pub debug_disabled : Qvl → ℕ → Str
debug_disabled Q flags =
    if bit_and flags Q.flags_debug == Q.flags_debug then codes "false" else codes "true"

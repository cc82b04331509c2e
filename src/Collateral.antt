-- ===== src/Collateral.antt =====
-- trustflow/attestation/collateral: what a verifier needs besides the quote.
pub mod Laws
mod Tests
use trustflow.Base.{
  ℕ, ◌+◌, ◌-◌, ◌%◌, ◌^◌, ◌==◌, Bool, Option, none, some, [], ◌∷◌, ◌++◌, Bytes, Str, codes, str_eq,
  length, take, drop, not, if◌then◌else◌,
}
use trustflow.Error.{Result, ok, text, number, enforce, yacl_throw, ◌>>=◌, ◌>>◌}
use trustflow.Attestation.{Collateral, view}
use trustflow.Verification.Dcap.{CollateralData}
use trustflow.Verification.Csv.Report.{HygonCsvCertChain}

-- The bytes behind `buf`, as far as the object goes; `buf_len - 1` wraps around 32 bits.
unfoldable pub char_array_2_string : Bytes → ℕ → Result Str
char_array_2_string buf buf_len = do
  let last_index = (buf_len + (2 ^ 32 - 1)) % 2 ^ 32
  last ← view buf last_index 1
  if str_eq last (0 ∷ []) then view buf 0 last_index else view buf 0 buf_len

-- Intel's library: the code that `tee_qv_get_collateral` returns, and what the pointer is to, with
-- its `tee_type`.
pub record IntelQv : Type 0 where
  pub success : ℕ
  pub tee_qv_get_collateral : Bytes → ℕ → ℕ × Option (CollateralData × ℕ)

-- The pointer, if it is not null.
unfoldable pub got_collateral : ℕ → Bool → Option (CollateralData × ℕ) → Result (CollateralData × ℕ)
got_collateral ret good none = yacl_throw "tee_qv_get_collateral err: {:#x}" (number ret ∷ [])
got_collateral ret good (some c) = do
  enforce good "tee_qv_get_collateral err: {:#x}" (number ret ∷ [])
  ok c

unfoldable pub get_intel_collateral : IntelQv → Bytes → ℕ → Result Collateral
get_intel_collateral Q quote quote_size = do
  let (ret, p_quote_collateral) = Q.tee_qv_get_collateral quote quote_size
  (p_collateral_t, tee_type) ← got_collateral ret (ret == Q.success) p_quote_collateral
  pck_crl_issuer_chain ←
      char_array_2_string p_collateral_t.pck_crl_issuer_chain.0
        p_collateral_t.pck_crl_issuer_chain.1
  root_ca_crl ← char_array_2_string p_collateral_t.root_ca_crl.0 p_collateral_t.root_ca_crl.1
  pck_crl ← char_array_2_string p_collateral_t.pck_crl.0 p_collateral_t.pck_crl.1
  tcb_info_issuer_chain ←
      char_array_2_string p_collateral_t.tcb_info_issuer_chain.0
        p_collateral_t.tcb_info_issuer_chain.1
  tcb_info ← char_array_2_string p_collateral_t.tcb_info.0 p_collateral_t.tcb_info.1
  qe_identity_issuer_chain ←
      char_array_2_string p_collateral_t.qe_identity_issuer_chain.0
        p_collateral_t.qe_identity_issuer_chain.1
  qe_identity ← char_array_2_string p_collateral_t.qe_identity.0 p_collateral_t.qe_identity.1
  ok record {
    version = p_collateral_t.version;
    tee_type = tee_type;
    pck_crl_issuer_chain = pck_crl_issuer_chain;
    root_ca_crl = root_ca_crl;
    pck_crl = pck_crl;
    tcb_info_issuer_chain = tcb_info_issuer_chain;
    tcb_info = tcb_info;
    qe_identity_issuer_chain = qe_identity_issuer_chain;
    qe_identity = qe_identity;
  }

-- brpc over HTTP, and base 64: whether the channel is set up, and the body that a GET of the path on
-- the server gives, or the code and the text of the failure.
pub record Http : Type 0 where
  pub channel_init : Str → Bool
  pub get : Str → Result Bytes
  pub base64_encode : Bytes → Str

abbrev pub hygon_cert_url : Str
hygon_cert_url = codes "https://cert.hygon.cn"

abbrev pub hygon_hsk_cek_sub_url : Str
hygon_hsk_cek_sub_url = codes "/hsk_cek?snumber="

-- The sizes are those of `CHIP_ROOT_CERT_t` and `CSV_CERT_t`.
unfoldable pub get_hygon_csv_collateral : Http → ℕ → ℕ → Str → Result HygonCsvCertChain
get_hygon_csv_collateral H chip_root_cert_size csv_cert_size chip_id = do
  enforce (H.channel_init hygon_cert_url) "hygon cert server channel init failed" []
  response_body ← H.get (hygon_hsk_cek_sub_url ++ chip_id)
  enforce (length response_body == chip_root_cert_size + csv_cert_size)
      "hsk and cek length should be {}, but got {}"
      (number (chip_root_cert_size + csv_cert_size) ∷ number (length response_body) ∷ [])
  hsk_cert ← view response_body 0 chip_root_cert_size
  cek_cert ← view response_body chip_root_cert_size csv_cert_size
  ok record { b64_hsk_cert = H.base64_encode hsk_cert; b64_cek_cert = H.base64_encode cek_cert }

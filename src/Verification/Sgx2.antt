-- ===== src/Verification/Sgx2.antt =====
-- verification/sgx2/sgx2_verifier.cc: `Sgx2AttestationVerifier`.
pub mod Laws
use trustflow.Base.{ℕ, ◌+◌, leb, [], ◌∷◌, Bytes, Str, length}
use trustflow.Base.Decimal.{to_string}
use trustflow.Error.{Result, ok, number, enforce, ◌>>=◌, ◌>>◌}
use trustflow.External.{External}
use trustflow.Attestation.{Report, platform_sgx_dcap, Collateral, Field, view}
use trustflow.CryptoUtil.Word.{join_bytes}
use trustflow.Verification.Attributes.{Attributes}
use trustflow.Verification.Factory.{Verifier, Creator}
use trustflow.Verification.Dcap.{
  DcapCodec, DcapVerifier, CollateralData, Qvl, initialize_collateral_data, init, verify_platform,
  halves, debug_disabled,
}

-- Offsets in `sgx_quote3_t`, from the headers of the SGX SDK.
pub record Layout : Type 0 where
  pub quote3_size : ℕ
  pub mr_enclave : Field
  pub mr_signer : Field
  pub isv_prod_id : Field
  pub isv_svn : Field
  pub report_data : ℕ
  pub flags : Field

abbrev pub sgx2_set_up : DcapCodec → Report → Result DcapVerifier
unfolding init
sgx2_set_up = init platform_sgx_dcap

module _ (L : Layout) (X : External) (Q : Qvl) where
  unfoldable pub sgx2_parse_unified_report : DcapVerifier → Attributes → Result Attributes
  sgx2_parse_unified_report v attrs = do
    enforce (leb L.quote3_size (length v.quote)) "quote size:{} is less than sgx_quote3_t:{}"
        (number (length v.quote) ∷ number L.quote3_size ∷ [])
    mr_enclave ← view v.quote L.mr_enclave.offset L.mr_enclave.size
    mr_signer ← view v.quote L.mr_signer.offset L.mr_signer.size
    prod_id ← view v.quote L.isv_prod_id.offset L.isv_prod_id.size
    svn ← view v.quote L.isv_svn.offset L.isv_svn.size
    (hex_user_data, hex_public_key_hash) ← halves X Q v.quote L.report_data
    flags ← view v.quote L.flags.offset L.flags.size
    ok (record attrs {
      str_tee_platform = v.report.str_tee_platform;
      hex_ta_measurement = X.bytes_to_hex_string mr_enclave;
      hex_signer = X.bytes_to_hex_string mr_signer;
      hex_prod_id = to_string (join_bytes 2 prod_id);
      str_min_isvsvn = to_string (join_bytes 2 svn);
      hex_user_data = hex_user_data;
      hex_hash_or_pem_pubkey = hex_public_key_hash;
      bool_debug_disabled = debug_disabled Q (join_bytes 8 flags);
    })

  -- The two functions of a verifier that is set up, at the time `current_time`.
  abbrev pub sgx2_verifier : ℕ → DcapVerifier → Verifier
  sgx2_verifier current_time v = record {
    verify_platform = verify_platform Q current_time v;
    parse_unified_report = sgx2_parse_unified_report v;
  }

  -- `Create`
  unfoldable pub sgx2_create : DcapCodec → ℕ → Creator
  sgx2_create C current_time report = do v ← sgx2_set_up C report; ok (sgx2_verifier current_time v)

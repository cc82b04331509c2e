-- ===== src/Verification/Tdx.antt =====
-- verification/tdx/tdx_verifier.cc: `TdxAttestationVerifier`.
pub mod Laws
pub mod Shown
use trustflow.Base.{ℕ, ◌+◌, ◌*◌, ◌==◌, leb, [], ◌∷◌, ◌++◌, Bytes, Str, length, if◌then◌else◌}
use trustflow.Error.{Result, ok, number, enforce, yacl_throw, ◌>>=◌, ◌>>◌}
use trustflow.External.{External}
use trustflow.Attestation.{Report, platform_tdx, Field, view, Collateral}
use trustflow.CryptoUtil.Word.{join_bytes}
use trustflow.Verification.Attributes.{Attributes}
use trustflow.Verification.Factory.{Verifier, Creator}
use trustflow.Verification.Dcap.{
  DcapCodec, DcapVerifier, Qvl, init, halves, debug_disabled, CollateralData,
  initialize_collateral_data, verify_platform,
}

-- `sgx_report2_body_t`: offsets in it, and the size of a `tee_measurement_t`.
pub record Body : Type 0 where
  pub measurement_size : ℕ
  pub mr_seam : ℕ
  pub mrsigner_seam : ℕ
  pub mr_td : ℕ
  pub mr_config_id : ℕ
  pub mr_owner : ℕ
  pub mr_owner_config : ℕ
  pub rt_mr : ℕ
  pub report_data : ℕ
  pub td_attributes : ℕ

-- `sgx_quote4_t` and `sgx_quote5_t`: sizes, header fields and where the body is.
pub record Layout : Type 0 where
  pub quote4_size : ℕ
  pub quote5_size : ℕ
  pub tee_type : Field
  pub version : Field
  pub report_body : ℕ
  pub body : ℕ
  pub report2_body : Body

-- Intel SGX SDK specifies that the quote type must be 0x00000081 (TDX).
abbrev pub intel_tee_type_tdx : ℕ
intel_tee_type_tdx = 0x81

abbrev pub tdx_set_up : DcapCodec → Report → Result DcapVerifier
unfolding init
tdx_set_up = init platform_tdx

module _ (X : External) (B : Body) where
  unfoldable pub get_mr_hex : Bytes → ℕ → Result Str
  get_mr_hex quote mr = do m ← view quote mr B.measurement_size; ok (X.bytes_to_hex_string m)

  unfoldable pub parse_report_body_pf_measurements : Bytes → ℕ → Result Str
  parse_report_body_pf_measurements quote report_body = do
    mr_seam ← get_mr_hex quote (report_body + B.mr_seam)
    mrsigner_seam ← get_mr_hex quote (report_body + B.mrsigner_seam)
    mr_td ← get_mr_hex quote (report_body + B.mr_td)
    mr_config_id ← get_mr_hex quote (report_body + B.mr_config_id)
    mr_owner ← get_mr_hex quote (report_body + B.mr_owner)
    mr_owner_config ← get_mr_hex quote (report_body + B.mr_owner_config)
    ok (mr_seam ++ mrsigner_seam ++ mr_td ++ mr_config_id ++ mr_owner ++ mr_owner_config)

  -- Where `rt_mr[i]` is.
  abbrev pub rt_mr_at : ℕ → ℕ → ℕ
  rt_mr_at report_body i = report_body + B.rt_mr + i * B.measurement_size

  unfoldable pub parse_report_body_boot_measurements : Bytes → ℕ → Result Str
  parse_report_body_boot_measurements quote report_body = do
    rt_mr0 ← get_mr_hex quote (rt_mr_at report_body 0)
    rt_mr1 ← get_mr_hex quote (rt_mr_at report_body 1)
    ok (rt_mr0 ++ rt_mr1)

  unfoldable pub parse_report_body_ta_measurements : Bytes → ℕ → Result Str
  parse_report_body_ta_measurements quote report_body = do
    rt_mr2 ← get_mr_hex quote (rt_mr_at report_body 2)
    rt_mr3 ← get_mr_hex quote (rt_mr_at report_body 3)
    ok (rt_mr2 ++ rt_mr3)

module _ (L : Layout) where
  -- The place of the report body: it depends on the version of the quote.
  unfoldable pub find_report_body : ℕ → Result ℕ
  find_report_body quote_version =
      if quote_version == 4
      then ok L.report_body
      else if quote_version == 5
      then ok L.body
      else yacl_throw "Error version in TDX quote: {}" (number quote_version ∷ [])

  unfoldable pub tdx_check_quote : Bytes → Result ℕ
  tdx_check_quote quote = do
    enforce (leb L.quote4_size (length quote)) "quote size:{} is less than sgx_quote4_t:{}"
        (number (length quote) ∷ number L.quote4_size ∷ [])
    enforce (leb L.quote5_size (length quote)) "quote size:{} is less than sgx_quote5_t:{}"
        (number (length quote) ∷ number L.quote5_size ∷ [])
    tee_type ← view quote L.tee_type.offset L.tee_type.size
    enforce (join_bytes 4 tee_type == intel_tee_type_tdx) "Error tee_type in quote: {0:#X}"
        (number (join_bytes 4 tee_type) ∷ [])
    version ← view quote L.version.offset L.version.size
    find_report_body (join_bytes 2 version)

module _ (L : Layout) (X : External) (Q : Qvl) where
  unfoldable pub tdx_parse_unified_report : DcapVerifier → Attributes → Result Attributes
  tdx_parse_unified_report v attrs = do
    report_body ← tdx_check_quote L v.quote
    platform_measurement ← parse_report_body_pf_measurements X L.report2_body v.quote report_body
    boot_measurement ← parse_report_body_boot_measurements X L.report2_body v.quote report_body
    ta_measurement ← parse_report_body_ta_measurements X L.report2_body v.quote report_body
    (hex_user_data, hex_public_key_hash) ←
        halves X Q v.quote (report_body + L.report2_body.report_data)
    flags ← view v.quote (report_body + L.report2_body.td_attributes) 8
    ok (record attrs {
      str_tee_platform = v.report.str_tee_platform;
      hex_platform_measurement = platform_measurement;
      hex_boot_measurement = boot_measurement;
      hex_ta_measurement = ta_measurement;
      hex_user_data = hex_user_data;
      hex_hash_or_pem_pubkey = hex_public_key_hash;
      bool_debug_disabled = debug_disabled Q (join_bytes 8 flags);
    })

-- The file's own copies of `InitializeCollateralData` and `VerifyPlatform`, over the calls for TDX.
unfoldable pub tdx_initialize_collateral_data : Collateral → Result CollateralData
tdx_initialize_collateral_data c = initialize_collateral_data c

unfoldable pub tdx_verify_platform : Qvl → ℕ → DcapVerifier → Result (Unit {0})
tdx_verify_platform Q current_time v = verify_platform Q current_time v

module _ (L : Layout) (X : External) (Q : Qvl) where
  -- The two functions of a verifier that is set up, at the time `current_time`.
  abbrev pub tdx_verifier : ℕ → DcapVerifier → Verifier
  tdx_verifier current_time v = record {
    verify_platform = tdx_verify_platform Q current_time v;
    parse_unified_report = tdx_parse_unified_report L X Q v;
  }

  -- `Create`
  unfoldable pub tdx_create : DcapCodec → ℕ → Creator
  tdx_create C current_time report = do v ← tdx_set_up C report; ok (tdx_verifier current_time v)

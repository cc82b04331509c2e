-- ===== src/Verification/Dcap/Tests.antt =====
-- The theorems on reports of Intel's platforms at concrete quotes.
use trustflow.Base.{
  ℕ, ◌+◌, ◌≤◌, ◌≡◌, ◌↔◌, refl, arith, [], ◌∷◌, ◌++◌, Str, codes, length, replicate,
}
use trustflow.Error.{ok}
use trustflow.External.Sample.{sample}
use trustflow.Attestation.{Field, report_version, report_type_passport, platform_tdx, view}
use trustflow.CryptoUtil.Word.{join_bytes}
use trustflow.Verification.Attributes.{Attributes, no_attributes}
use trustflow.Verification.Dcap.{
  DcapVerifier, Qvl, result_ok, verify_platform, halves, debug_disabled,
}
use trustflow.Verification.Dcap.Laws.{IsComplete, Passes, verify_platform-Passes}
use trustflow.Verification.Sgx2.{sgx2_parse_unified_report}
use trustflow.Verification.Sgx2.Laws.{IsLayout, sgx2_parse_unified_report_iff}
use trustflow.Verification.Tdx.{
  tdx_parse_unified_report, tdx_check_quote, find_report_body, get_mr_hex,
  parse_report_body_pf_measurements, parse_report_body_boot_measurements,
  parse_report_body_ta_measurements,
}
use trustflow.Verification.Tdx.Laws.{IsTdxQuote}
use trustflow.Verification.Tdx.Shown.{IsBody, tdx_shown, tdx_parse_unified_report_iff}
use trustflow.Verification.Sgx2
use trustflow.Verification.Tdx

abbrev qvl : Qvl
qvl = record {
  success = 0;
  supplemental_size = 8;
  flags_debug = 2;
  report_data_size = 64;
  get_quote_supplemental_data_size = (0, 8);
  verify_quote = λ quote collateral time size. (0, result_ok);
  result_number = λ r. 0;
}

abbrev state : DcapVerifier
state = record {
  report = record {
    str_report_version = report_version;
    str_report_type = report_type_passport;
    str_tee_platform = platform_tdx;
    json_report = [];
  };
  quote = (0x81 ∷ 4 ∷ []) ++ replicate 78 1;
  collateral = record {
    version = 3;
    tee_type = 0;
    pck_crl_issuer_chain = codes "a";
    root_ca_crl = codes "b";
    pck_crl = codes "c";
    tcb_info_issuer_chain = codes "d";
    tcb_info = codes "e";
    qe_identity_issuer_chain = codes "f";
    qe_identity = codes "g";
  };
}

verify_platform-Passes_example :
    (verify_platform qvl 0 state ≡ ok tt) ↔ (IsComplete state.collateral × Passes qvl 0 state)
verify_platform-Passes_example = verify_platform-Passes qvl 0 state

abbrev at : ℕ → ℕ → Field
at o n = record { offset = o; size = n }

abbrev sgx_layout : Sgx2.Layout
sgx_layout = record {
  quote3_size = 80;
  mr_enclave = at 0 2;
  mr_signer = at 2 2;
  isv_prod_id = at 4 2;
  isv_svn = at 6 2;
  report_data = 16;
  flags = at 8 8;
}

sgx_layout-IsLayout : IsLayout sgx_layout qvl
sgx_layout-IsLayout = record {
  mr_enclave_inside = omega arith;
  mr_signer_inside = omega arith;
  isv_prod_id_inside = omega arith;
  isv_svn_inside = omega arith;
  report_data_inside = omega arith;
  flags_inside = omega arith;
  report_data_size_64 = refl;
}

sgx2_parse_unified_report_iff_example :
    ((a : Attributes) × (sgx2_parse_unified_report sgx_layout sample qvl state no_attributes
        ≡ ok a))
    ↔ (80 ≤ length state.quote)
sgx2_parse_unified_report_iff_example =
    sgx2_parse_unified_report_iff sgx_layout sample qvl state no_attributes sgx_layout-IsLayout

abbrev tdx_layout : Tdx.Layout
tdx_layout = record {
  quote4_size = 80;
  quote5_size = 10;
  tee_type = at 0 1;
  version = at 1 1;
  report_body = 2;
  body = 4;
  report2_body = record {
    measurement_size = 1;
    mr_seam = 0;
    mrsigner_seam = 1;
    mr_td = 2;
    mr_config_id = 3;
    mr_owner = 4;
    mr_owner_config = 5;
    rt_mr = 6;
    report_data = 14;
    td_attributes = 6;
  };
}

abbrev hex1 : Str
hex1 = sample.bytes_to_hex_string (1 ∷ [])

abbrev tdx_attributes : Attributes
tdx_attributes = record no_attributes {
  str_tee_platform = platform_tdx;
  hex_platform_measurement = hex1 ++ hex1 ++ hex1 ++ hex1 ++ hex1 ++ hex1;
  hex_boot_measurement = hex1 ++ hex1;
  hex_ta_measurement = hex1 ++ hex1;
  hex_user_data = sample.bytes_to_hex_string (replicate 32 1);
  hex_hash_or_pem_pubkey = sample.bytes_to_hex_string (replicate 32 1);
  bool_debug_disabled = codes "true";
}

tdx_parsed : tdx_parse_unified_report tdx_layout sample qvl state no_attributes ≡ ok tdx_attributes
unfolding tdx_parse_unified_report tdx_check_quote find_report_body get_mr_hex
    parse_report_body_pf_measurements parse_report_body_boot_measurements
    parse_report_body_ta_measurements halves debug_disabled join_bytes view
tdx_parsed = refl

tdx_layout-IsBody : IsBody tdx_layout.report2_body 78
tdx_layout-IsBody = record {
  mr_seam_inside = omega arith;
  mrsigner_seam_inside = omega arith;
  mr_td_inside = omega arith;
  mr_config_id_inside = omega arith;
  mr_owner_inside = omega arith;
  mr_owner_config_inside = omega arith;
  rt_mr_inside = omega arith;
  td_attributes_inside = omega arith;
  report_data_last = refl;
}

tdx_parse_unified_report_iff_example :
    (tdx_parse_unified_report tdx_layout sample qvl state no_attributes ≡ ok tdx_attributes) ↔ (
      (base : ℕ) × IsTdxQuote tdx_layout state.quote base
      × (base + 78 ≤ length state.quote)
      × (tdx_attributes ≡ tdx_shown tdx_layout sample qvl state no_attributes base))
tdx_parse_unified_report_iff_example =
    tdx_parse_unified_report_iff tdx_layout sample qvl state no_attributes tdx_attributes 78
      tdx_layout-IsBody refl

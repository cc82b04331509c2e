-- ===== src/Verification/Sgx2/Laws.antt =====
-- Which quotes of SGX are parsed.
use trustflow.Base.{◌+◌, ◌≤◌, ◌≡◌, ◌↔◌, arith, le→leb, leb→le, Bytes, length, take, drop}
use trustflow.Error.{ok}
use trustflow.External.{External}
use trustflow.Attestation.{Field}
use trustflow.Verification.Attributes.{Attributes}
use trustflow.Base.Decimal.{to_string}
use trustflow.CryptoUtil.Word.{join_bytes}
use trustflow.Verification.Dcap.{DcapVerifier, Qvl, debug_disabled}
use trustflow.Verification.Dcap.Laws.{view_inside, halves_inside}
use trustflow.Verification.Sgx2.{Layout, sgx2_parse_unified_report}

-- The fields are in the struct, as the compiler lays it out, and report data has 64 bytes.
pub record IsLayout (L : Layout) (Q : Qvl) : Type 0 where
  pub mr_enclave_inside : L.mr_enclave.offset + L.mr_enclave.size ≤ L.quote3_size
  pub mr_signer_inside : L.mr_signer.offset + L.mr_signer.size ≤ L.quote3_size
  pub isv_prod_id_inside : L.isv_prod_id.offset + L.isv_prod_id.size ≤ L.quote3_size
  pub isv_svn_inside : L.isv_svn.offset + L.isv_svn.size ≤ L.quote3_size
  pub report_data_inside : L.report_data + 64 ≤ L.quote3_size
  pub flags_inside : L.flags.offset + L.flags.size ≤ L.quote3_size
  pub report_data_size_64 : Q.report_data_size ≡ 64

large :
    (L : Layout) (X : External) (Q : Qvl) (v : DcapVerifier) (attrs a : Attributes)
    → sgx2_parse_unified_report L X Q v attrs ≡ ok a
    → L.quote3_size ≤ length v.quote
unfolding sgx2_parse_unified_report
large L X Q v attrs a h = leb→le L.quote3_size (length v.quote) (ground arith)

-- The bytes of a field.
abbrev pub at_field : Bytes → Field → Bytes
at_field b f = take f.size (drop f.offset b)

-- What a quote that is long enough shows.
abbrev pub shown : Layout → External → Qvl → DcapVerifier → Attributes → Attributes
shown L X Q v attrs = record attrs {
  str_tee_platform = v.report.str_tee_platform;
  hex_ta_measurement = X.bytes_to_hex_string (at_field v.quote L.mr_enclave);
  hex_signer = X.bytes_to_hex_string (at_field v.quote L.mr_signer);
  hex_prod_id = to_string (join_bytes 2 (at_field v.quote L.isv_prod_id));
  str_min_isvsvn = to_string (join_bytes 2 (at_field v.quote L.isv_svn));
  hex_user_data = X.bytes_to_hex_string (take 32 (drop L.report_data v.quote));
  hex_hash_or_pem_pubkey = X.bytes_to_hex_string (take 32 (drop (L.report_data + 32) v.quote));
  bool_debug_disabled = debug_disabled Q (join_bytes 8 (at_field v.quote L.flags));
}

pub parsed :
    (L : Layout) (X : External) (Q : Qvl) (v : DcapVerifier) (attrs : Attributes)
    → IsLayout L Q
    → L.quote3_size ≤ length v.quote
    → sgx2_parse_unified_report L X Q v attrs ≡ ok (shown L X Q v attrs)
unfolding sgx2_parse_unified_report
parsed L X Q v attrs i h = rw (
  le→leb L.quote3_size (length v.quote) h,
  view_inside v.quote L.mr_enclave.offset L.mr_enclave.size (omega (arith, i.mr_enclave_inside)),
  view_inside v.quote L.mr_signer.offset L.mr_signer.size (omega (arith, i.mr_signer_inside)),
  view_inside v.quote L.isv_prod_id.offset L.isv_prod_id.size (omega (arith, i.isv_prod_id_inside)),
  view_inside v.quote L.isv_svn.offset L.isv_svn.size (omega (arith, i.isv_svn_inside)),
  halves_inside X Q v.quote L.report_data i.report_data_size_64
      (omega (arith, i.report_data_inside)),
  view_inside v.quote L.flags.offset L.flags.size (omega (arith, i.flags_inside)),
)

-- A quote is parsed if and only if it is at least as long as an `sgx_quote3_t`: with the fields laid
-- out inside that struct and report data of 64 bytes, none is read out of bounds.
pub sgx2_parse_unified_report_iff :
    (L : Layout) (X : External) (Q : Qvl) (v : DcapVerifier) (attrs : Attributes)
    → IsLayout L Q
    → ((a : Attributes) × (sgx2_parse_unified_report L X Q v attrs ≡ ok a))
      ↔ (L.quote3_size ≤ length v.quote)
sgx2_parse_unified_report_iff L X Q v attrs i =
    (λ (a, h). large L X Q v attrs a h, λ h. (shown L X Q v attrs, parsed L X Q v attrs i h))

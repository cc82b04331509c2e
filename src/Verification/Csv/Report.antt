-- ===== src/Verification/Csv/Report.antt =====
-- csv_verifier.cc: `CsvAttestationVerifier`, its `Init` and `ParseUnifiedReport`.
pub mod Init
pub mod Laws
use trustflow.Base.{
  ℕ, ◌==◌, bit_xor, String, Option, [], ◌∷◌, Bytes, Str, str_eq, length, drop, take,
}
use trustflow.Error.{Result, ok, text, number, enforce, ◌>>=◌, ◌>>◌}
use trustflow.External.{External}
use trustflow.Attestation.{
  Report, report_version, report_type_passport, platform_csv, json2pb, Field, part, view,
}
use trustflow.CryptoUtil.Word.{int_to_bytes}
use trustflow.Verification.Attributes.{Attributes, no_attributes}
use trustflow.Verification.Csv.Layout.{Layout, Openssl}
use trustflow.Verification.Csv.Mask.{retrieve_csv_quote_plain_data}
use trustflow.Verification.Csv.Chain.{u32}

-- `HygonCsvReport` and `HygonCsvCertChain`
pub record HygonCsvReport : Type 0 where
  pub b64_quote : Str
  pub json_cert_chain : Str

pub record HygonCsvCertChain : Type 0 where
  pub b64_hsk_cert : Str
  pub b64_cek_cert : Str

-- The decoders of protobuf and cppcodec; the one of base 64 throws on a wrong input.
pub record Codec : Type 0 where
  pub csv_report_of_json : Str → Option HygonCsvReport
  pub csv_cert_chain_of_json : Str → Option HygonCsvCertChain
  pub base64_decode : Str → Result Bytes

pub record CsvVerifier : Type 0 where
  pub report : Report
  pub quote : Bytes
  pub hsk_cert : Bytes
  pub cek_cert : Bytes

-- `YACL_ENFORCE_EQ` on the three fields of the report.
unfoldable pub check_report : Report → Result (Unit {0})
check_report report = do
  enforce (str_eq report.str_report_version report_version)
      "Ua report version not match, expect {}, got {}"
      (text report_version ∷ text report.str_report_version ∷ [])
  enforce (str_eq report.str_report_type report_type_passport)
      "Unsupport Ua report type: {}, only {} is supported"
      (text report.str_report_type ∷ text report_type_passport ∷ [])
  enforce (str_eq report.str_tee_platform platform_csv)
      "Ua report platform not match, expect {}, got {}"
      (text platform_csv ∷ text report.str_tee_platform ∷ [])

-- Base 64 of a struct of `size` bytes.
unfoldable pub decode_struct : (Str → Result Bytes) → Str → ℕ → String → Result Bytes
decode_struct decode b64 size template = do
  bytes ← decode b64
  enforce (length bytes == size) template (number size ∷ number (length bytes) ∷ [])
  ok bytes

-- The constructor calls `Init`, which fills the state.
unfoldable pub init : Layout → Codec → Report → Result CsvVerifier
init L C report = do
  check_report report
  hygon_csv_report ← json2pb C.csv_report_of_json report.json_report
  quote ←
      decode_struct C.base64_decode hygon_csv_report.b64_quote L.report_size
        "Csv quote size err, expect {}, got {}"
  hygon_csv_cert_chain ← json2pb C.csv_cert_chain_of_json hygon_csv_report.json_cert_chain
  hsk_cert ←
      decode_struct C.base64_decode hygon_csv_cert_chain.b64_hsk_cert L.chip_root_cert_size
        "Csv hsk cert size err, expect {}, got {}"
  cek_cert ←
      decode_struct C.base64_decode hygon_csv_cert_chain.b64_cek_cert L.csv_cert_size
        "Csv cek cert size err, expect {}, got {}"
  ok record { report = report; quote = quote; hsk_cert = hsk_cert; cek_cert = cek_cert }

module _ (L : Layout) (X : External) (v : CsvVerifier) where
  -- `count` elements of `size` bytes from the address of a field on, unmasked.
  abbrev pub unmask : Bytes → ℕ → ℕ → Result Bytes
  unmask src size count = retrieve_csv_quote_plain_data src size count (u32 v.quote L.anonce)

  -- What is set before the last statement, and the vector `user_data` that this reads.
  unfoldable pub parse_fields : Attributes → Result (Attributes × Bytes)
  parse_fields attrs = do
    vm_id ← unmask (part v.quote L.vm_id) 1 L.vm_id_size
    vm_version ← unmask (part v.quote L.vm_version) 1 L.vm_version_size
    user_data ← unmask (part v.quote L.user_data) 1 L.hash_len
    public_key_hash ← unmask (drop L.hash_len (part v.quote L.user_data)) 1 L.hash_len
    mnonce ← unmask (part v.quote L.mnonce) 1 L.guest_attestation_nonce_size
    measure ← unmask (part v.quote L.measure) L.measure.size 1
    let policy = bit_xor (u32 v.quote L.policy) (u32 v.quote L.anonce)
    ok (
        (
          record attrs {
            str_tee_platform = v.report.str_tee_platform;
            hex_prod_id = X.bytes_to_hex_string vm_id;
            hex_platform_sw_version = X.bytes_to_hex_string vm_version;
            hex_user_data = X.bytes_to_hex_string user_data;
            hex_hash_or_pem_pubkey = X.bytes_to_hex_string public_key_hash;
            hex_nonce = X.bytes_to_hex_string mnonce;
            hex_boot_measurement = X.bytes_to_hex_string measure;
            hex_secure_flags = X.bytes_to_hex_string (int_to_bytes 4 policy);
          },
          user_data,
        ))

  unfoldable pub parse_unified_report : Attributes → Result Attributes
  parse_unified_report attrs = do
    (attrs, user_data) ← parse_fields attrs
    tail ← view user_data L.hash_len L.hash_len
    ok (record attrs { hex_hash_or_pem_pubkey = X.bytes_to_hex_string tail })

-- ===== src/Generation/Csv.antt =====
-- generation/csv/csv_generator.cc: reports of Hygon CSV.
use trustflow.Base.{
  ℕ, ◌==◌, ltb, leb, Bool, Option, [], ◌∷◌, ◌++◌, Bytes, Str, codes, str_eq, take, replicate,
  if◌then◌else◌,
}
use trustflow.Error.{Result, ok, text, number, enforce, ◌>>=◌, ◌>>◌}
use trustflow.External.{External}
use trustflow.Attestation.{
  Report, report_version, report_type_passport, platform_csv, pb2json, Field, part,
}
use trustflow.Collateral.{Http, get_hygon_csv_collateral}
use trustflow.Verification.Csv.Mask.{xor_words}
use trustflow.Verification.Csv.Chain.{u32}
use trustflow.Verification.Csv.Report.{HygonCsvReport, HygonCsvCertChain}
use trustflow.Generation.{GenParams, memcpy, check_params, fill_report_data, check_report_type}

-- Sizes and fields of `csv_attestation_user_data` and `csv_attestation_report`, from Hygon's header.
pub record GenLayout : Type 0 where
  pub hash_len : ℕ
  pub guest_attestation_data_size : ℕ
  pub guest_attestation_nonce_size : ℕ
  pub user_data_size : ℕ
  pub report_size : ℕ
  pub chip_root_cert_size : ℕ
  pub csv_cert_size : ℕ
  pub pek_cert : Field
  pub sn : Field
  pub reserved2 : Field
  pub mac : Field
  pub anonce : Field

-- yacl's SM3 and random bytes, the driver of the guest, and the encoders.
pub record CsvDevice : Type 0 where
  pub sm3 : Bytes → Bytes
  pub hmac_sm3 : Bytes → Bytes → Bytes
  pub fill_rand : ℕ → Bytes
  pub opens : Bool
  pub get_attestation_report : Bytes → ℕ × Bytes
  pub report_to_json : HygonCsvReport → Str → Option Str
  pub cert_chain_to_json : HygonCsvCertChain → Option Str
  pub base64_encode : Bytes → Str

-- `csv_attestation_user_data`
pub record UserData : Type 0 where
  pub data_bytes : Bytes
  pub mnonce : Bytes
  pub hash : Bytes

abbrev pub page_size : ℕ
page_size = 4096

abbrev pub user_data_bytes : UserData → Bytes
user_data_bytes u = u.data_bytes ++ u.mnonce ++ u.hash

module _ (X : External) (L : GenLayout) (D : CsvDevice) where
  unfoldable pub prepare_csv_user_data : GenParams → Result UserData
  prepare_csv_user_data p = do
    check_params L.guest_attestation_nonce_size L.hash_len p
    d ← fill_report_data X L.hash_len L.guest_attestation_data_size p
    let mnonce = D.fill_rand L.guest_attestation_nonce_size
    ok (record { data_bytes = d; mnonce = mnonce; hash = D.sm3 (d ++ mnonce) })

  -- From the copy of the user data into a page of zeros to the MAC under the nonce.
  unfoldable pub get_quote : UserData → Result Bytes
  get_quote user_data = do
    enforce D.opens "Fail to open {}" (text (codes "/dev/csv-guest") ∷ [])
    enforce (ltb L.user_data_size L.report_size)
        "csv_attestation_report's size(got {}) should be greater than csv_attestation_user_data's size(got {})"
        (number L.report_size ∷ number L.user_data_size ∷ [])
    page ← memcpy (replicate page_size 0) 0 (user_data_bytes user_data)
    let (ret, quote) = D.get_attestation_report page
    enforce (ret == 0) "Csv ioctl GET_ATTESTATION_REPORT failed, errno = {}" []
    enforce
        (str_eq
          (take L.hash_len (
            D.hmac_sm3 user_data.mnonce
              (part quote L.pek_cert ++ part quote L.sn ++ part quote L.reserved2)))
          (part quote L.mac))
        "PEK cert and chip id hmac verify failed" []
    memcpy quote L.reserved2.offset (replicate L.reserved2.size 0)

  -- The words of the serial number, unmasked.
  unfoldable pub chip_id : Bytes → Bytes
  chip_id quote = xor_words (u32 quote L.anonce) (part quote L.sn)

  unfoldable pub cert_chain_json : Http → Str → Str → Result Str
  cert_chain_json H report_type chip_id =
      if str_eq report_type report_type_passport
      then (do
        chain ← get_hygon_csv_collateral H L.chip_root_cert_size L.csv_cert_size chip_id
        pb2json D.cert_chain_to_json chain)
      else ok []

  unfoldable pub csv_generate_report : Http → GenParams → Result Report
  csv_generate_report H p = do
    check_report_type p
    enforce (leb L.report_size page_size) "csv report size should not be greater than PAGESIZE({})"
        (number page_size ∷ [])
    user_data ← prepare_csv_user_data p
    quote ← get_quote user_data
    json_cert_chain ← cert_chain_json H p.report_type (chip_id quote)
    json_report ←
        pb2json (λ r. D.report_to_json r (chip_id quote))
          (record {
            b64_quote = D.base64_encode (take L.report_size quote);
            json_cert_chain = json_cert_chain;
          })
    ok record {
      str_report_version = report_version;
      str_report_type = p.report_type;
      str_tee_platform = platform_csv;
      json_report = json_report;
    }

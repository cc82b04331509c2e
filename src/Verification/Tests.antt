-- ===== src/Verification/Tests.antt =====
-- The theorems on verifiers at concrete reports: a small layout, keys that are checked by length, and
-- a library that accepts every quote.
use trustflow.Base.{
  ℕ, ◌≡◌, ◌≢◌, ◌↔◌, refl, arith, true, some, [], ◌∷◌, ◌++◌, Bytes, length, leb, replicate,
}
use trustflow.Error.{ok, throw, error}
use trustflow.External.Sample.{sample}
use trustflow.Attestation.{view, Field, report_version, report_type_passport, platform_csv}
use trustflow.Verification.Attributes.{no_attributes}
use trustflow.Verification.Csv.Layout.{Layout, Openssl}
use trustflow.Verification.Csv.Mask.{xor_words, retrieve_csv_quote_plain_data}
use trustflow.Verification.Csv.Chain.{
  verify_platform, verify_hsk_cert_with_hrk_pubkey, verify_cek_cert_with_hsk_cert,
  verify_pek_cert_with_cek_cert, verify_quote_signature, verify_signed, import_hygon_sm2_pubkey,
  made_pkey, import_hygon_sm2_sig, sm2_verify, user_id_bytes, hrk_pubkey, ecc_pubkey,
}
use trustflow.CryptoUtil.Word.{join_bytes, int_to_bytes}
use trustflow.Verification.Csv.Chain.Signed.{IsReady}
use trustflow.Verification.Csv.Chain.Laws.{IsTrusted, verify_platform-IsTrusted}
use trustflow.Verification.Csv.Report.{CsvVerifier, Codec, init, check_report, decode_struct}
use trustflow.Verification.Csv.Report.Init.{IsSetUp, init-IsSetUp}
use trustflow.Attestation.{json2pb}
use trustflow.Base.{str_eq, some}
use trustflow.Verification.Factory.{Verifier, Creator, verify_report}
use trustflow.Verification.Factory.Laws.{csv_verifier, csv_report_never_verified}

abbrev at : ℕ → ℕ → Field
at o n = record { offset = o; size = n }

-- A quote of 40 bytes: the unmasked ones are those of the mask.
abbrev small : Layout
small = record {
  hash_len = 4;
  vm_id_size = 4;
  vm_version_size = 4;
  guest_attestation_nonce_size = 4;
  key_usage_type_hsk = 0x13;
  key_usage_type_cek = 0x1004;
  key_usage_type_pek = 0x1002;
  report_size = 40;
  vm_id = at 0 4;
  vm_version = at 4 4;
  user_data = at 8 8;
  mnonce = at 16 4;
  measure = at 20 4;
  policy = at 24 4;
  anonce = at 28 4;
  report_message = 28;
  report_sig1 = at 0 2;
  pek_cert = at 32 8;
  chip_root_cert_size = 8;
  hsk_message = 6;
  key_usage = at 0 4;
  hsk_pubkey = at 4 2;
  hsk_sig = at 6 2;
  csv_cert_size = 8;
  csv_message = 6;
  pubkey_usage = at 0 4;
  sig1_usage = at 4 4;
  csv_pubkey = at 4 2;
  csv_sig1 = at 6 2;
  qx = at 0 1;
  qy = at 1 1;
  user_id = at 0 1;
  sig_r = at 0 1;
  sig_s = at 1 1;
  uid_len = at 0 0;
  uid = 0;
}

abbrev openssl : Openssl
openssl = record {
  Pkey = Bytes;
  call = λ name. true;
  pkey_fromdata = λ b. some b;
  i2d_ecdsa_sig = λ r s. 0x30 ∷ (r ++ s);
  digest_verify = λ pkey id message sig. leb 6 (length message);
}

openssl-IsReady : IsReady openssl
openssl-IsReady = record { call_ok = λ name. refl; some_der = λ r s. refl }

abbrev small_quote : Bytes
small_quote = replicate 32 7 ++ (5 ∷ 0x17 ∷ 7 ∷ 7 ∷ 3 ∷ 0x17 ∷ 7 ∷ 7 ∷ [])

abbrev small_hsk : Bytes
small_hsk = 0x13 ∷ 0 ∷ 0 ∷ 0 ∷ 0 ∷ 0 ∷ 0 ∷ 0 ∷ []

abbrev small_cek : Bytes
small_cek = 0x04 ∷ 0x10 ∷ 0 ∷ 0 ∷ 0x13 ∷ 0 ∷ 0 ∷ 0 ∷ []

verify_platform-IsTrusted_example :
    (verify_platform small openssl small_quote small_hsk small_cek ≡ ok tt)
    ↔ IsTrusted small openssl small_quote small_hsk small_cek
verify_platform-IsTrusted_example =
    verify_platform-IsTrusted small openssl openssl-IsReady small_quote small_hsk small_cek

-- The chain is accepted.
chain_accepted : verify_platform small openssl small_quote small_hsk small_cek ≡ ok tt
unfolding verify_platform verify_hsk_cert_with_hrk_pubkey verify_cek_cert_with_hsk_cert
    verify_pek_cert_with_cek_cert verify_quote_signature verify_signed import_hygon_sm2_pubkey
    made_pkey import_hygon_sm2_sig sm2_verify join_bytes retrieve_csv_quote_plain_data xor_words
    int_to_bytes view user_id_bytes hrk_pubkey ecc_pubkey
chain_accepted = refl

abbrev csv_state : CsvVerifier
csv_state = record {
  report = record {
    str_report_version = report_version;
    str_report_type = report_type_passport;
    str_tee_platform = platform_csv;
    json_report = [];
  };
  quote = small_quote;
  hsk_cert = small_hsk;
  cek_cert = small_cek;
}

csv_report_never_verified_example :
    verify_report sample (csv_verifier small openssl sample csv_state) (no_attributes ∷ []) ≢ ok tt
csv_report_never_verified_example =
    csv_report_never_verified small openssl sample csv_state (no_attributes ∷ []) (omega arith)

-- A verifier that accepts, with no attributes.
abbrev accepting : Verifier
accepting = record { verify_platform = ok tt; parse_unified_report = λ attrs. ok attrs }

abbrev accept_all : Creator
accept_all report = ok accepting

abbrev reject_all : Creator
reject_all report = throw (error "" [])

-- Structs that are written as they are.
abbrev plain : Codec
plain = record {
  csv_report_of_json = λ s. some (record { b64_quote = small_quote; json_cert_chain = s });
  csv_cert_chain_of_json =
      λ s. some (record { b64_hsk_cert = small_hsk; b64_cek_cert = small_cek });
  base64_decode = λ b. ok b;
}

csv_set_up : init small plain csv_state.report ≡ ok csv_state
unfolding init check_report decode_struct json2pb str_eq
csv_set_up = refl

init-IsSetUp_example : IsSetUp small csv_state.report csv_state
init-IsSetUp_example = init-IsSetUp small plain csv_state.report csv_state csv_set_up

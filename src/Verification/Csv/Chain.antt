-- ===== src/Verification/Csv/Chain.antt =====
-- csv_verifier.cc: Hygon's root key signs the HSK, which signs the CEK, which signs the PEK, which
-- signs the quote.
pub mod Signed
pub mod Laws
use trustflow.Base.{
  ℕ, ◌-◌, ◌==◌, Bool, true, false, not, Option, none, some, [], ◌∷◌, ◌++◌, reverse, Bytes, is_empty,
  length, take, drop, replicate,
}
use trustflow.Error.{Result, ok, number, enforce, yacl_throw, ◌>>=◌, ◌>>◌}
use trustflow.Attestation.{Field, part, view}
use trustflow.CryptoUtil.Word.{int_to_bytes, join_bytes}
use trustflow.Verification.Csv.Layout.{Layout, Openssl}
use trustflow.Verification.Csv.Mask.{retrieve_csv_quote_plain_data}

-- `ecc_pubkey_t` and `ecc_signature_t`, less the curve's id.
pub record EccPubkey : Type 0 where
  pub qx : Bytes
  pub qy : Bytes
  pub user_id : Bytes

pub record EccSignature : Type 0 where
  pub sig_r : Bytes
  pub sig_s : Bytes

-- A `uint32_t` of a struct.
abbrev pub u32 : Bytes → Field → ℕ
u32 b f = join_bytes 4 (part b f)

module _ (L : Layout) where
  unfoldable pub ecc_pubkey : Bytes → EccPubkey
  ecc_pubkey b = record { qx = part b L.qx; qy = part b L.qy; user_id = part b L.user_id }

  -- The bytes `uid[0 .. len)` of a `userid_u`: a length that passes the field is undefined behaviour.
  unfoldable pub user_id_bytes : Bytes → Result Bytes
  user_id_bytes user_id = view user_id L.uid (join_bytes L.uid_len.size (part user_id L.uid_len))

  unfoldable pub ecc_signature : Bytes → EccSignature
  ecc_signature b = record { sig_r = part b L.sig_r; sig_s = part b L.sig_s }

  -- `kHrkPubkey`; what an array's initializer does not name is zero.
  unfoldable pub hrk_pubkey : EccPubkey
  hrk_pubkey = record {
    qx =
        int_to_bytes 4 0x92c2f62d
        ++ int_to_bytes 4 0x2af5f21d
        ++ int_to_bytes 4 0x85cd1f50
        ++ int_to_bytes 4 0xc80935e7
        ++ int_to_bytes 4 0x09563a75
        ++ int_to_bytes 4 0xf3d702db
        ++ int_to_bytes 4 0x62a4f14c
        ++ int_to_bytes 4 0xbe62e14d
        ++ replicate (L.qx.size - 32) 0;
    qy =
        int_to_bytes 4 0xb41eb946
        ++ int_to_bytes 4 0x38744d68
        ++ int_to_bytes 4 0xb9be8847
        ++ int_to_bytes 4 0x4a640c10
        ++ int_to_bytes 4 0x164e9538
        ++ int_to_bytes 4 0x584f8b97
        ++ int_to_bytes 4 0x57bb7015
        ++ int_to_bytes 4 0x3bab123a
        ++ replicate (L.qy.size - 32) 0;
    user_id =
        int_to_bytes 4 0x5948000d
        ++ int_to_bytes 4 0x2d4e4f47
        ++ int_to_bytes 4 0x2d445353
        ++ int_to_bytes 4 0x004b5248
        ++ replicate (L.user_id.size - 16) 0;
  }

-- The uncompressed point: the coordinates turn to big-endian.
abbrev pub point : EccPubkey → Bytes
point k = 4 ∷ reverse k.qx ++ reverse k.qy

module _ (O : Openssl) where
  -- `EVP_PKEY_fromdata` and the test of the key that it makes.
  unfoldable pub made_pkey : Option O.Pkey → Result O.Pkey
  made_pkey (some pkey) = ok pkey
  made_pkey none = yacl_throw "EVP_PKEY_fromdata err" []

  unfoldable pub import_hygon_sm2_pubkey : EccPubkey → Result O.Pkey
  import_hygon_sm2_pubkey hygon_pubkey = do
    enforce (O.call "EVP_PKEY_CTX_new_id") "UniquePkeyCtx init err" []
    enforce (O.call "OSSL_PARAM_BLD_new") "UniqueParamBld init err" []
    enforce (O.call "OSSL_PARAM_BLD_push_utf8_string") "OSSL_PARAM_BLD: SM2 group name push err" []
    enforce (O.call "OSSL_PARAM_BLD_push_octet_string") "OSSL_PARAM_BLD: public key push err" []
    enforce (O.call "OSSL_PARAM_BLD_to_param") "OSSL_PARAM_BLD_to_param err" []
    enforce (O.call "EVP_PKEY_fromdata_init") "" []
    made_pkey (O.pkey_fromdata (point hygon_pubkey))

  -- The signature in ASN.1 DER.
  abbrev pub sig_der : EccSignature → Bytes
  sig_der s = O.i2d_ecdsa_sig (reverse s.sig_r) (reverse s.sig_s)

  unfoldable pub import_hygon_sm2_sig : EccSignature → Result Bytes
  import_hygon_sm2_sig hygon_sig = do
    enforce (O.call "BN_bin2bn") "r, s to BIGNUM err" []
    enforce (O.call "ECDSA_SIG_new") "ECDSA_SIG init err" []
    enforce (O.call "ECDSA_SIG_set0") "BIGNUM r, s to ECDSA err" []
    enforce (not (is_empty (sig_der hygon_sig))) "get i2d_ECDSA_SIG length err" []
    enforce (O.call "i2d_ECDSA_SIG") "i2d_ECDSA_SIG err" []
    ok (sig_der hygon_sig)

  unfoldable pub sm2_verify : Bytes → Bytes → O.Pkey → Bytes → Result (Unit {0})
  sm2_verify message signature pk user_id = do
    enforce (O.call "EVP_PKEY_CTX_new") "UniquePkeyCtx init err" []
    enforce (O.call "EVP_PKEY_CTX_set1_id") "EVP_PKEY_CTX_set1_id err" []
    enforce (O.call "EVP_MD_CTX_new") "UniqueMdCtx init err" []
    enforce (O.call "EVP_DigestVerifyInit") "EVP_DigestVerifyInit err" []
    enforce (O.call "EVP_DigestVerifyUpdate") "EVP_DigestVerifyUpdate err" []
    enforce (O.digest_verify pk user_id message signature) "Sm2 verify failed" []

module _ (L : Layout) (O : Openssl) where
  -- The three calls that the four functions below end with.
  unfoldable pub verify_signed : EccPubkey → EccSignature → Bytes → Result (Unit {0})
  verify_signed key sig message = do
    pkey ← import_hygon_sm2_pubkey O key
    der ← import_hygon_sm2_sig O sig
    user_id ← user_id_bytes L key.user_id
    sm2_verify O message der pkey user_id

  unfoldable pub verify_hsk_cert_with_hrk_pubkey : Bytes → Result (Unit {0})
  verify_hsk_cert_with_hrk_pubkey hsk_cert = do
    enforce (u32 hsk_cert L.key_usage == L.key_usage_type_hsk)
        "HSK cert usage type err, expect {}, got {}"
        (number L.key_usage_type_hsk ∷ number (u32 hsk_cert L.key_usage) ∷ [])
    verify_signed (hrk_pubkey L) (ecc_signature L (part hsk_cert L.hsk_sig))
        (take L.hsk_message hsk_cert)

  unfoldable pub verify_cek_cert_with_hsk_cert : Bytes → Bytes → Result (Unit {0})
  verify_cek_cert_with_hsk_cert cek_cert hsk_cert = do
    enforce (u32 cek_cert L.pubkey_usage == L.key_usage_type_cek)
        "CEK cert pubkey_usage type err, expect {}, got {}"
        (number L.key_usage_type_cek ∷ number (u32 cek_cert L.pubkey_usage) ∷ [])
    enforce (u32 cek_cert L.sig1_usage == L.key_usage_type_hsk)
        "CEK cert sig1 usage type err, expect {}, got {}"
        (number L.key_usage_type_hsk ∷ number (u32 cek_cert L.sig1_usage) ∷ [])
    verify_signed (ecc_pubkey L (part hsk_cert L.hsk_pubkey))
        (ecc_signature L (part cek_cert L.csv_sig1)) (take L.csv_message cek_cert)

  unfoldable pub verify_pek_cert_with_cek_cert : Bytes → Bytes → Result (Unit {0})
  verify_pek_cert_with_cek_cert pek_cert cek_cert = do
    enforce (u32 pek_cert L.pubkey_usage == L.key_usage_type_pek)
        "PEK cert pubkey_usage type err, expect {}, got {}"
        (number L.key_usage_type_pek ∷ number (u32 pek_cert L.pubkey_usage) ∷ [])
    enforce (u32 pek_cert L.sig1_usage == L.key_usage_type_cek)
        "PEK cert sig1 usage type err, expect {}, got {}"
        (number L.key_usage_type_cek ∷ number (u32 pek_cert L.sig1_usage) ∷ [])
    verify_signed (ecc_pubkey L (part cek_cert L.csv_pubkey))
        (ecc_signature L (part pek_cert L.csv_sig1)) (take L.csv_message pek_cert)

  unfoldable pub verify_quote_signature : Bytes → Bytes → Result (Unit {0})
  verify_quote_signature quote pek_cert =
      verify_signed (ecc_pubkey L (part pek_cert L.csv_pubkey))
        (ecc_signature L (part quote L.report_sig1)) (take L.report_message quote)

  -- `VerifyPlatform` on `quote_`, `hsk_cert_` and `cek_cert_`.
  unfoldable pub verify_platform : Bytes → Bytes → Bytes → Result (Unit {0})
  verify_platform quote hsk_cert cek_cert = do
    verify_hsk_cert_with_hrk_pubkey hsk_cert
    verify_cek_cert_with_hsk_cert cek_cert hsk_cert
    pek_cert ←
        retrieve_csv_quote_plain_data (drop L.pek_cert.offset quote) L.csv_cert_size 1
          (u32 quote L.anonce)
    verify_pek_cert_with_cek_cert pek_cert cek_cert
    verify_quote_signature quote pek_cert

-- ===== src/Verification/Csv/Layout.antt =====
-- Hygon's `attestation.h`, and the calls of OpenSSL.
use trustflow.Base.{ℕ, Bool, Option, Bytes, String}
use trustflow.Attestation.{Field}

-- `sizeof`, field offsets and constants.
pub record Layout : Type 0 where
  pub hash_len : ℕ
  pub vm_id_size : ℕ
  pub vm_version_size : ℕ
  pub guest_attestation_nonce_size : ℕ
  pub key_usage_type_hsk : ℕ
  pub key_usage_type_cek : ℕ
  pub key_usage_type_pek : ℕ
  -- `csv_attestation_report`
  pub report_size : ℕ
  pub vm_id : Field
  pub vm_version : Field
  pub user_data : Field
  pub mnonce : Field
  pub measure : Field
  pub policy : Field
  pub anonce : Field
  -- the sum of the sizes of the fields that are signed
  pub report_message : ℕ
  pub report_sig1 : Field
  pub pek_cert : Field
  -- `CHIP_ROOT_CERT_t`, and the sum of the sizes of its fields before the signature
  pub chip_root_cert_size : ℕ
  pub hsk_message : ℕ
  pub key_usage : Field
  pub hsk_pubkey : Field
  pub hsk_sig : Field
  -- `CSV_CERT_t`
  pub csv_cert_size : ℕ
  pub csv_message : ℕ
  pub pubkey_usage : Field
  pub sig1_usage : Field
  pub csv_pubkey : Field
  pub csv_sig1 : Field
  -- `ecc_pubkey_t`, `ecc_signature_t`, and `len` and the offset of `uid` in a `userid_u`; the
  -- coordinates and the two numbers have `ECC_LEN` bytes
  pub qx : Field
  pub qy : Field
  pub user_id : Field
  pub sig_r : Field
  pub sig_s : Field
  pub uid_len : Field
  pub uid : ℕ

-- `call name` tells whether a call that allocates or sets up an object succeeds.
pub record Openssl : Type 1 where
  pub Pkey : Type 0
  pub call : String → Bool
  -- `EVP_PKEY_fromdata` on an uncompressed point of the curve SM2
  pub pkey_fromdata : Bytes → Option Pkey
  -- `i2d_ECDSA_SIG` on the numbers r and s, given as big-endian bytes
  pub i2d_ecdsa_sig : Bytes → Bytes → Bytes
  -- `EVP_DigestVerify...` with SM3: key, user id, message and signature
  pub digest_verify : Pkey → Bytes → Bytes → Bytes → Bool

-- ===== src/Verification/Csv/Chain/Signed.antt =====
-- A signature is verified exactly if the key's point and the signature are right.
use trustflow.Base.{
  ◌≡◌, true, false, Option, none, some, [], Bytes, String, arith, is_empty, reverse,
}
use trustflow.Error.{ok, with_value, enforce}
use trustflow.Verification.Csv.Layout.{Layout, Openssl}
use trustflow.Verification.Csv.Chain.{
  EccPubkey, EccSignature, point, made_pkey, import_hygon_sm2_pubkey, sig_der, import_hygon_sm2_sig,
  sm2_verify, user_id_bytes, verify_signed,
}

-- The calls that allocate succeed, and a signature is never encoded by nothing.
pub record IsReady (O : Openssl) : Type 0 where
  pub call_ok : (name : String) → O.call name ≡ true
  pub some_der : (r s : Bytes) → is_empty (O.i2d_ecdsa_sig r s) ≡ false

-- The key's point is on the curve, its user id is as long as its field allows, and the signature of the message
-- under the key and the id is right.
abbrev pub IsSigned : Layout → Openssl → EccPubkey → EccSignature → Bytes → Type 0
IsSigned L O key sig message =
    (pkey : O.Pkey) × (O.pkey_fromdata (point key) ≡ some pkey)
    × (id : Bytes) × (user_id_bytes L key.user_id ≡ ok id)
    × (O.digest_verify pkey id message (sig_der O sig) ≡ true)

module _ (L : Layout) (O : Openssl) (ready : IsReady O) where
  import_pubkey_ready :
      (k : EccPubkey) → import_hygon_sm2_pubkey O k ≡ made_pkey O (O.pkey_fromdata (point k))
  unfolding import_hygon_sm2_pubkey
  import_pubkey_ready k = rw (
    ready.call_ok "EVP_PKEY_CTX_new_id",
    ready.call_ok "OSSL_PARAM_BLD_new",
    ready.call_ok "OSSL_PARAM_BLD_push_utf8_string",
    ready.call_ok "OSSL_PARAM_BLD_push_octet_string",
    ready.call_ok "OSSL_PARAM_BLD_to_param",
    ready.call_ok "EVP_PKEY_fromdata_init",
  )

  import_sig_ready : (s : EccSignature) → import_hygon_sm2_sig O s ≡ ok (sig_der O s)
  unfolding import_hygon_sm2_sig
  import_sig_ready s = rw (
    ready.call_ok "BN_bin2bn",
    ready.call_ok "ECDSA_SIG_new",
    ready.call_ok "ECDSA_SIG_set0",
    ready.some_der (reverse s.sig_r) (reverse s.sig_s),
    ready.call_ok "i2d_ECDSA_SIG",
  )

  sm2_verify_ready :
      (m s : Bytes) (pk : O.Pkey) (id : Bytes)
      → sm2_verify O m s pk id ≡ enforce (O.digest_verify pk id m s) "Sm2 verify failed" []
  unfolding sm2_verify
  sm2_verify_ready m s pk id = rw (
    ready.call_ok "EVP_PKEY_CTX_new",
    ready.call_ok "EVP_PKEY_CTX_set1_id",
    ready.call_ok "EVP_MD_CTX_new",
    ready.call_ok "EVP_DigestVerifyInit",
    ready.call_ok "EVP_DigestVerifyUpdate",
  )

  made_pkey_of : {pk : O.Pkey} (o : Option O.Pkey) → o ≡ some pk → made_pkey O o ≡ ok pk
  unfolding made_pkey
  made_pkey_of o h = rw h

  pub verify_signed_complete :
      (k : EccPubkey) (s : EccSignature) (m : Bytes)
      → IsSigned L O k s m
      → verify_signed L O k s m ≡ ok tt
  unfolding verify_signed
  verify_signed_complete k s m (pk, found, id, its, right) = rw (
    import_pubkey_ready k,
    made_pkey_of _ found,
    import_sig_ready s,
    its,
    sm2_verify_ready m (sig_der O s) pk id,
    right,
  )

module _ (L : Layout) (O : Openssl) where
  made_pkey-some : {pk : O.Pkey} (o : Option O.Pkey) → made_pkey O o ≡ ok pk → o ≡ some pk
  unfolding made_pkey
  made_pkey-some (some a) h = cc
  made_pkey-some none h = cc

  import_pubkey-some :
      (k : EccPubkey) {pk : O.Pkey}
      → import_hygon_sm2_pubkey O k ≡ ok pk
      → O.pkey_fromdata (point k) ≡ some pk
  unfolding import_hygon_sm2_pubkey
  import_pubkey-some k h = made_pkey-some _ (ground arith)

  import_sig-der :
      (s : EccSignature) {der : Bytes} → import_hygon_sm2_sig O s ≡ ok der → der ≡ sig_der O s
  unfolding import_hygon_sm2_sig
  import_sig-der s h = ground arith

  sm2_verify-true :
      (m s : Bytes) (pk : O.Pkey) (id : Bytes)
      → sm2_verify O m s pk id ≡ ok tt
      → O.digest_verify pk id m s ≡ true
  unfolding sm2_verify
  sm2_verify-true m s pk id h = ground arith

  pub verify_signed_sound :
      (k : EccPubkey) (s : EccSignature) (m : Bytes)
      → verify_signed L O k s m ≡ ok tt
      → IsSigned L O k s m
  unfolding verify_signed
  verify_signed_sound k s m h =
      with_value (import_hygon_sm2_pubkey O k) (λ x e. ground arith) (λ e. ground arith)
        λ pk e1.
          with_value (import_hygon_sm2_sig O s) (λ x e. ground arith) (λ e. ground arith)
            λ der e2.
              with_value (user_id_bytes L k.user_id) (λ x e. ground arith) (λ e. ground arith)
                λ id e3.
                  let right = sm2_verify-true m der pk id (ground arith) in
                  (pk, import_pubkey-some k e1, id, e3, cc (import_sig-der s e2, right))

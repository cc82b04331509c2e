-- ===== src/Verification/Csv/Chain/Laws.antt =====
-- A platform is accepted exactly if every link of the chain is signed.
use trustflow.Base.{◌≡◌, ◌↔◌, ==_iff, Bytes, arith, take, drop}
use trustflow.Error.{ok, with_value}
use trustflow.Attestation.{part}
use trustflow.Verification.Csv.Layout.{Layout, Openssl}
use trustflow.Verification.Csv.Mask.{retrieve_csv_quote_plain_data}
use trustflow.Verification.Csv.Chain.{
  u32, ecc_pubkey, ecc_signature, hrk_pubkey, verify_hsk_cert_with_hrk_pubkey,
  verify_cek_cert_with_hsk_cert, verify_pek_cert_with_cek_cert, verify_quote_signature,
  verify_platform,
}
use trustflow.Verification.Csv.Chain.Signed.{
  IsReady, IsSigned, verify_signed_complete, verify_signed_sound,
}

-- Every link of the chain, with what each certificate is to be used for; the PEK's certificate is
-- taken out of the quote and unmasked.
pub record IsTrusted (L : Layout) (O : Openssl) (quote hsk_cert cek_cert : Bytes) : Type 0 where
  pub hsk_usage : u32 hsk_cert L.key_usage ≡ L.key_usage_type_hsk
  pub hsk_signed :
      IsSigned L O
        (hrk_pubkey L)
        (ecc_signature L (part hsk_cert L.hsk_sig))
        (take L.hsk_message hsk_cert)
  pub cek_usage : u32 cek_cert L.pubkey_usage ≡ L.key_usage_type_cek
  pub cek_signer : u32 cek_cert L.sig1_usage ≡ L.key_usage_type_hsk
  pub cek_signed :
      IsSigned L O
        (ecc_pubkey L (part hsk_cert L.hsk_pubkey))
        (ecc_signature L (part cek_cert L.csv_sig1))
        (take L.csv_message cek_cert)
  pub pek_cert : Bytes
  pub pek_unmasked :
      retrieve_csv_quote_plain_data
        (drop L.pek_cert.offset quote)
        L.csv_cert_size
        1
        (u32 quote L.anonce)
      ≡ ok pek_cert
  pub pek_usage : u32 pek_cert L.pubkey_usage ≡ L.key_usage_type_pek
  pub pek_signer : u32 pek_cert L.sig1_usage ≡ L.key_usage_type_cek
  pub pek_signed :
      IsSigned L O
        (ecc_pubkey L (part cek_cert L.csv_pubkey))
        (ecc_signature L (part pek_cert L.csv_sig1))
        (take L.csv_message pek_cert)
  pub quote_signed :
      IsSigned L O
        (ecc_pubkey L (part pek_cert L.csv_pubkey))
        (ecc_signature L (part quote L.report_sig1))
        (take L.report_message quote)

module _ (L : Layout) (O : Openssl) (ready : IsReady O) where
  hsk_complete :
      (hsk : Bytes)
      → u32 hsk L.key_usage ≡ L.key_usage_type_hsk
      → IsSigned L O (hrk_pubkey L) (ecc_signature L (part hsk L.hsk_sig)) (take L.hsk_message hsk)
      → verify_hsk_cert_with_hrk_pubkey L O hsk ≡ ok tt
  unfolding verify_hsk_cert_with_hrk_pubkey
  hsk_complete hsk u s = rw ((==_iff _ _).1 u) (verify_signed_complete L O ready _ _ _ s)

  cek_complete :
      (cek hsk : Bytes)
      → u32 cek L.pubkey_usage ≡ L.key_usage_type_cek
      → u32 cek L.sig1_usage ≡ L.key_usage_type_hsk
      → IsSigned L O
          (ecc_pubkey L (part hsk L.hsk_pubkey))
          (ecc_signature L (part cek L.csv_sig1))
          (take L.csv_message cek)
      → verify_cek_cert_with_hsk_cert L O cek hsk ≡ ok tt
  unfolding verify_cek_cert_with_hsk_cert
  cek_complete cek hsk u v s =
      rw ((==_iff _ _).1 u, (==_iff _ _).1 v) (verify_signed_complete L O ready _ _ _ s)

  pek_complete :
      (pek cek : Bytes)
      → u32 pek L.pubkey_usage ≡ L.key_usage_type_pek
      → u32 pek L.sig1_usage ≡ L.key_usage_type_cek
      → IsSigned L O
          (ecc_pubkey L (part cek L.csv_pubkey))
          (ecc_signature L (part pek L.csv_sig1))
          (take L.csv_message pek)
      → verify_pek_cert_with_cek_cert L O pek cek ≡ ok tt
  unfolding verify_pek_cert_with_cek_cert
  pek_complete pek cek u v s =
      rw ((==_iff _ _).1 u, (==_iff _ _).1 v) (verify_signed_complete L O ready _ _ _ s)

  complete :
      (quote hsk cek : Bytes)
      → IsTrusted L O quote hsk cek
      → verify_platform L O quote hsk cek ≡ ok tt
  unfolding verify_platform verify_quote_signature
  complete quote hsk cek t = rw (
    hsk_complete hsk t.hsk_usage t.hsk_signed,
    cek_complete cek hsk t.cek_usage t.cek_signer t.cek_signed,
    t.pek_unmasked,
    pek_complete t.pek_cert cek t.pek_usage t.pek_signer t.pek_signed,
    verify_signed_complete L O ready (ecc_pubkey L (part t.pek_cert L.csv_pubkey))
        (ecc_signature L (part quote L.report_sig1)) _ t.quote_signed,
  )

module _ (L : Layout) (O : Openssl) where
  hsk_sound :
      (hsk : Bytes)
      → verify_hsk_cert_with_hrk_pubkey L O hsk ≡ ok tt
      → (u32 hsk L.key_usage ≡ L.key_usage_type_hsk)
        × IsSigned L O
            (hrk_pubkey L)
            (ecc_signature L (part hsk L.hsk_sig))
            (take L.hsk_message hsk)
  unfolding verify_hsk_cert_with_hrk_pubkey
  hsk_sound hsk h = (
    ground arith,
    verify_signed_sound L O (hrk_pubkey L) (ecc_signature L (part hsk L.hsk_sig)) _ (ground arith),
  )

  cek_sound :
      (cek hsk : Bytes)
      → verify_cek_cert_with_hsk_cert L O cek hsk ≡ ok tt
      → (u32 cek L.pubkey_usage ≡ L.key_usage_type_cek)
        × (u32 cek L.sig1_usage ≡ L.key_usage_type_hsk)
        × IsSigned L O
            (ecc_pubkey L (part hsk L.hsk_pubkey))
            (ecc_signature L (part cek L.csv_sig1))
            (take L.csv_message cek)
  unfolding verify_cek_cert_with_hsk_cert
  cek_sound cek hsk h = (
    ground arith,
    ground arith,
    verify_signed_sound L O (ecc_pubkey L (part hsk L.hsk_pubkey))
        (ecc_signature L (part cek L.csv_sig1)) _ (ground arith),
  )

  pek_sound :
      (pek cek : Bytes)
      → verify_pek_cert_with_cek_cert L O pek cek ≡ ok tt
      → (u32 pek L.pubkey_usage ≡ L.key_usage_type_pek)
        × (u32 pek L.sig1_usage ≡ L.key_usage_type_cek)
        × IsSigned L O
            (ecc_pubkey L (part cek L.csv_pubkey))
            (ecc_signature L (part pek L.csv_sig1))
            (take L.csv_message pek)
  unfolding verify_pek_cert_with_cek_cert
  pek_sound pek cek h = (
    ground arith,
    ground arith,
    verify_signed_sound L O (ecc_pubkey L (part cek L.csv_pubkey))
        (ecc_signature L (part pek L.csv_sig1)) _ (ground arith),
  )

  sound :
      (quote hsk cek : Bytes)
      → verify_platform L O quote hsk cek ≡ ok tt
      → IsTrusted L O quote hsk cek
  unfolding verify_platform verify_quote_signature
  sound quote hsk cek h =
      with_value (verify_hsk_cert_with_hrk_pubkey L O hsk) (λ x e. ground arith) (λ e. ground arith)
        λ _ e1.
          with_value (verify_cek_cert_with_hsk_cert L O cek hsk) (λ x e. ground arith)
            (λ e. ground arith)
            λ _ e2.
              with_value
                (retrieve_csv_quote_plain_data (drop L.pek_cert.offset quote) L.csv_cert_size 1
                  (u32 quote L.anonce))
                (λ x e. ground arith) (λ e. ground arith)
                λ pek e3.
                  with_value (verify_pek_cert_with_cek_cert L O pek cek) (λ x e. ground arith)
                    (λ e. ground arith)
                    λ _ e4.
                      let (hsk_u, hsk_s) = hsk_sound hsk e1 in
                      let (cek_u, cek_v, cek_s) = cek_sound cek hsk e2 in
                      let (pek_u, pek_v, pek_s) = pek_sound pek cek e4 in
                      record {
                        hsk_usage = hsk_u;
                        hsk_signed = hsk_s;
                        cek_usage = cek_u;
                        cek_signer = cek_v;
                        cek_signed = cek_s;
                        pek_cert = pek;
                        pek_unmasked = e3;
                        pek_usage = pek_u;
                        pek_signer = pek_v;
                        pek_signed = pek_s;
                        quote_signed =
                            verify_signed_sound L O (ecc_pubkey L (part pek L.csv_pubkey))
                              (ecc_signature L (part quote L.report_sig1)) _ (ground arith);
                      }

-- With OpenSSL at work, the platform of a quote is accepted if and only if Hygon's root key signed
-- the HSK, that the CEK, that the PEK in the quote once it is unmasked, and that the quote, each
-- under the user id of the signer, whose length its field allows, over the bytes before the signature and with the
-- declared usage.
pub verify_platform-IsTrusted :
    (L : Layout) (O : Openssl)
    → IsReady O
    → (quote hsk_cert cek_cert : Bytes)
    → (verify_platform L O quote hsk_cert cek_cert ≡ ok tt) ↔ IsTrusted L O quote hsk_cert cek_cert
verify_platform-IsTrusted L O ready quote hsk cek =
    (sound L O quote hsk cek, complete L O ready quote hsk cek)

-- ===== src/Evidence/Verified.antt =====
-- `AttestationReportVerify` of a report that `Sgx2AttestationGenerator` made.
use trustflow.Base.{
  replicate, ℕ, ◌<◌, ◌≡◌, ◌↔◌, refl, ap, ◌∙◌, some, List, [], Bytes, Str, length, str_eq, All,
  IsByte,
}
use trustflow.Error.{ok}
use trustflow.External.{External, IsExternal}
use trustflow.Attestation.{Report, report_type_passport, platform_sgx_dcap}
use trustflow.Verification.Attributes.{Attributes, no_attributes}
use trustflow.Verification.Attributes.Laws.{Accepts}
use trustflow.Verification.Dcap.{DcapCodec, DcapVerifier, Qvl, init}
use trustflow.Verification.Dcap.Laws.{IsComplete, Passes}
use trustflow.Verification.Sgx2.{Layout, sgx2_set_up, sgx2_verifier, sgx2_create}
use trustflow.Verification.Sgx2.Laws.{IsLayout, shown, parsed}
use trustflow.Verification.Factory.{creator_of, register}
use trustflow.Verification.Wrapper.{
  Texts, Backend, success_status, create_factory, attestation_report_verify,
}
use trustflow.Collateral.{IntelQv, get_intel_collateral}
use trustflow.Generation.{GenParams}
use trustflow.Generation.Intel.{
  DcapEncoder, SgxDevice, Sizes, prepare_sgx_report_data, sgx2_generate_report,
}
use trustflow.Evidence.{IsCodec, IsDevice}
use trustflow.Evidence.Judged.{wrapper_judges, prepared, filled_size, halves_shown}
use trustflow.Evidence.Made.{sgx2_report_made, report_set_up}

-- The verifiers of the wrapper, with that of SGX.
abbrev pub with_sgx2 : Layout → External → Qvl → DcapCodec → ℕ → Backend → Backend
with_sgx2 L X V C time B = record B { sgx2 = sgx2_create L X V C time }

sgx2_found :
    (L : Layout) (X : External) (V : Qvl) (C : DcapCodec) (time : ℕ) (B : Backend)
    → creator_of (create_factory (with_sgx2 L X V C time B)) platform_sgx_dcap
      ≡ some (sgx2_create L X V C time)
unfolding create_factory creator_of register str_eq
sgx2_found L X V C time B = refl

sgx2_made :
    (L : Layout) (X : External) (V : Qvl) (C : DcapCodec) (time : ℕ) (v : DcapVerifier)
    → sgx2_set_up C v.report ≡ ok v
    → sgx2_create L X V C time v.report ≡ ok (sgx2_verifier L X V time v)
unfolding sgx2_create
sgx2_made L X V C time v e = rw e

module _ (X : External) (x : IsExternal X) (T : Texts) (B : Backend) (S : Sizes) (E : DcapEncoder)
    (Q : IntelQv) (D : SgxDevice) (C : DcapCodec) (I : IsCodec E C) (L : Layout) (V : Qvl)
    (i : IsLayout L V) (H : IsDevice D L) (time : ℕ) where
  -- The wrapper's verdict on a report, and what the policy is compared with.
  abbrev pub IsJudged : Str → Str → List Attributes → GenParams → DcapVerifier → Type 0
  IsJudged json policy_json policy p v =
      ((attestation_report_verify X T (with_sgx2 L X V C time B) json policy_json
          ≡ some success_status)
        ↔ (IsComplete v.collateral
            × Passes V time v
            × Accepts X (shown L X V v no_attributes) policy))
      × ((shown L X V v no_attributes).hex_user_data ≡ p.hex_user_data)
      × ((shown L X V v no_attributes).hex_hash_or_pem_pubkey
          ≡ X.bytes_to_hex_string (X.sha256 (X.hex_string_to_bytes p.pem_public_key)))

  -- With codecs that decode what they encoded, and a device that puts the report data at its place in a quote that is
  -- long enough: a report of type passport that the SGX generator made, with 32 bytes of user data in hexadecimal, no nonce and a public
  -- key, comes with the whole buffer
  -- that the driver filled as its quote, and with the collateral that Intel's library gives for this buffer and the
  -- length that the driver left. The wrapper finds the report good
  -- exactly if the collateral is complete, the platform passes the check of this quote with this collateral, and the
  -- policy accepts what the quote shows: the user data that went in, and among it the hash of what `HexStringToBytes`
  -- makes of the PEM text of the key.
  pub generated_report_verified :
      (u : Bytes) (p : GenParams) (report : Report) (json policy_json : Str)
      (policy : List Attributes)
      → S.sgx_hash_size ≡ 32
      → S.report_data_size ≡ 64
      → All IsByte u
      → length u ≡ 32
      → p.report_hex_nonce ≡ []
      → p.hex_user_data ≡ X.bytes_to_hex_string u
      → 0 < length p.pem_public_key
      → p.report_type ≡ report_type_passport
      → sgx2_generate_report X S E Q D p ≡ ok report
      → B.report_of_json json ≡ some report
      → B.policy_of_json policy_json ≡ some policy
      → (v : DcapVerifier) × (d : Bytes) × (quote_len : ℕ) × (v.report ≡ report)
        × (prepare_sgx_report_data X S E Q p ≡ ok d)
        × (D.gen_dcap_quote d D.get_dcap_quote_size.1 (replicate D.get_dcap_quote_size.1 0)
            ≡ (0, quote_len, v.quote))
        × (get_intel_collateral Q v.quote quote_len ≡ ok v.collateral)
        × IsJudged json policy_json policy p v
  unfolding init prepare_sgx_report_data
  generated_report_verified u p report json policy_json policy hash_size data_size bs len nonce
        data_eq key passport made e1 e2 =
      let (d, quote_len, quote, collateral, e3, e4, on) =
        sgx2_report_made X S E Q D p report passport made in
      let v : DcapVerifier = record { report = report; quote = quote; collateral = collateral } in
      let ready = prepared X S p d hash_size data_size e3 in
      let size = filled_size X x u p bs len nonce data_eq key d ready in
      let (whole_buffer, front, back, whole, place, large) =
        H.quoted d quote D.get_dcap_quote_size.1 quote_len size e4 in
      let (cs, rs, collected, t1, t2, is_report) = on in
      let set_up =
        report_set_up X S E Q C I platform_sgx_dcap quote quote_len collateral report on in
      let found =
        ap (creator_of (create_factory (with_sgx2 L X V C time B)))
          (ap (λ (r : Report). r.str_tee_platform) is_report)
        ∙ sgx2_found L X V C time B in
      let (user_shown, hash_shown) =
        halves_shown X x u p bs len nonce data_eq key d front back quote L.report_data ready whole
          place in
      (
        v,
        d,
        quote_len,
        refl,
        e3,
        e4,
        collected,
        (
          wrapper_judges X x V time v (sgx2_verifier L X V time v) (shown L X V v no_attributes)
              refl (parsed L X V v no_attributes i large) policy T (with_sgx2 L X V C time B)
              (sgx2_create L X V C time) json policy_json found (sgx2_made L X V C time v set_up) e1
              e2,
          user_shown,
          hash_shown,
        ),
      )

-- ===== src/Evidence/Tdx.antt =====
-- `AttestationReportVerify` of a report that `TdxAttestationGenerator` made.
use trustflow.Base.{
  ℕ, ◌+◌, ◌<◌, ◌≤◌, ◌≡◌, ◌↔◌, refl, ap, ◌∙◌, some, List, [], ◌++◌, Bytes, Str, length, str_eq, All,
  IsByte,
}
use trustflow.Error.{ok}
use trustflow.External.{External, IsExternal}
use trustflow.Attestation.{Report, report_type_passport, platform_tdx}
use trustflow.Verification.Attributes.{Attributes, no_attributes}
use trustflow.Verification.Attributes.Laws.{Accepts}
use trustflow.Verification.Dcap.{DcapCodec, DcapVerifier, Qvl, init}
use trustflow.Verification.Dcap.Laws.{IsComplete, Passes}
use trustflow.Verification.Tdx.{Layout, tdx_set_up, tdx_verify_platform, tdx_verifier, tdx_create}
use trustflow.Verification.Tdx.Laws.{IsTdxQuote}
use trustflow.Verification.Tdx.Shown.{IsBody, tdx_shown, parsed}
use trustflow.Verification.Factory.{creator_of, register}
use trustflow.Verification.Wrapper.{
  Texts, Backend, success_status, create_factory, attestation_report_verify,
}
use trustflow.Collateral.{IntelQv, get_intel_collateral}
use trustflow.Generation.{GenParams}
use trustflow.Generation.Intel.{DcapEncoder, TdxDevice, Sizes, tdx_generate_report}
use trustflow.Evidence.{IsCodec}
use trustflow.Evidence.Made.{tdx_report_made, report_set_up}
use trustflow.Evidence.Judged.{wrapper_judges, prepared, filled_size, halves_shown}

-- The platform gives quotes of TDX, with the report data at its place in the report body.
pub record IsTdxDevice (D : TdxDevice) (L : Layout) (body_size : ℕ) : Type 0 where
  pub quoted :
      (d quote : Bytes)
      → length d ≡ 64
      → D.tdx_att_get_quote d ≡ (D.success, some quote)
      → (base : ℕ) × (front : Bytes) × (back : Bytes) × IsTdxQuote L quote base
        × (base + body_size ≤ length quote)
        × (quote ≡ front ++ (d ++ back))
        × (length front ≡ base + L.report2_body.report_data)

-- The verifiers of the wrapper, with that of TDX.
abbrev pub with_tdx : Layout → External → Qvl → DcapCodec → ℕ → Backend → Backend
with_tdx L X V C time B = record B { tdx = tdx_create L X V C time }

tdx_found :
    (L : Layout) (X : External) (V : Qvl) (C : DcapCodec) (time : ℕ) (B : Backend)
    → creator_of (create_factory (with_tdx L X V C time B)) platform_tdx
      ≡ some (tdx_create L X V C time)
unfolding create_factory creator_of register str_eq
tdx_found L X V C time B = refl

tdx_made :
    (L : Layout) (X : External) (V : Qvl) (C : DcapCodec) (time : ℕ) (v : DcapVerifier)
    → tdx_set_up C v.report ≡ ok v
    → tdx_create L X V C time v.report ≡ ok (tdx_verifier L X V time v)
unfolding tdx_create
tdx_made L X V C time v e = rw e

module _ (X : External) (x : IsExternal X) (T : Texts) (B : Backend) (S : Sizes) (E : DcapEncoder)
    (Q : IntelQv) (D : TdxDevice) (C : DcapCodec) (I : IsCodec E C) (L : Layout) (V : Qvl)
    (body_size : ℕ) (i : IsBody L.report2_body body_size) (size64 : V.report_data_size ≡ 64)
    (H : IsTdxDevice D L body_size) (time : ℕ) where
  -- The wrapper's verdict on a report whose quote has its report body at `base`, and what the policy is compared with.
  abbrev pub IsJudged : Str → Str → List Attributes → GenParams → DcapVerifier → ℕ → Type 0
  IsJudged json policy_json policy p v base =
      ((attestation_report_verify X T (with_tdx L X V C time B) json policy_json
          ≡ some success_status)
        ↔ (IsComplete v.collateral
            × Passes V time v
            × Accepts X (tdx_shown L X V v no_attributes base) policy))
      × ((tdx_shown L X V v no_attributes base).hex_user_data ≡ p.hex_user_data)
      × ((tdx_shown L X V v no_attributes base).hex_hash_or_pem_pubkey
          ≡ X.bytes_to_hex_string (X.sha256 (X.hex_string_to_bytes p.pem_public_key)))

  -- With codecs that decode what they encoded, and a device that puts the report data at its place in a quote that is
  -- long enough: a report of type passport that the TDX generator made, with 32 bytes of user data in hexadecimal, no nonce and a public
  -- key, comes with a quote of TDX and with the collateral that Intel's library gives for it. The wrapper finds the report
  -- good exactly if the collateral is complete, the platform passes the check of this quote with this collateral, and the
  -- policy accepts what the report body shows: the user data that went in, and among it the hash of what
  -- `HexStringToBytes` makes of the PEM text of the key.
  pub tdx_report_verified :
      (u : Bytes) (p : GenParams) (report : Report) (json policy_json : Str)
      (policy : List Attributes)
      → S.sgx_hash_size ≡ 32
      → S.report_data_size ≡ 64
      → All IsByte u
      → length u ≡ 32
      → p.report_hex_nonce ≡ []
      → p.hex_user_data ≡ X.bytes_to_hex_string u
      → 0 < length p.pem_public_key
      → p.report_type ≡ report_type_passport
      → tdx_generate_report X S E Q D p ≡ ok report
      → B.report_of_json json ≡ some report
      → B.policy_of_json policy_json ≡ some policy
      → (v : DcapVerifier) × (base : ℕ) × (v.report ≡ report)
        × IsTdxQuote L v.quote base
        × (get_intel_collateral Q v.quote (length v.quote) ≡ ok v.collateral)
        × IsJudged json policy_json policy p v base
  unfolding init tdx_verify_platform
  tdx_report_verified u p report json policy_json policy hash_size data_size bs len nonce data_eq
        key passport made e1 e2 =
      let (d, quote, collateral, e3, e4, on) = tdx_report_made X S E Q D p report passport made in
      let v : DcapVerifier = record { report = report; quote = quote; collateral = collateral } in
      let ready = prepared X S p d hash_size data_size e3 in
      let size = filled_size X x u p bs len nonce data_eq key d ready in
      let (base, front, back, is_tdx, inside, whole, place) = H.quoted d quote size e4 in
      let (cs, rs, collected, t1, t2, is_report) = on in
      let set_up =
        report_set_up X S E Q C I platform_tdx quote (length quote) collateral report on in
      let found =
        ap (creator_of (create_factory (with_tdx L X V C time B)))
          (ap (λ (r : Report). r.str_tee_platform) is_report)
        ∙ tdx_found L X V C time B in
      let (user_shown, hash_shown) =
        halves_shown X x u p bs len nonce data_eq key d front back quote
          (base + L.report2_body.report_data) ready whole place in
      (
        v,
        base,
        refl,
        is_tdx,
        collected,
        (
          wrapper_judges X x V time v (tdx_verifier L X V time v)
              (tdx_shown L X V v no_attributes base) refl
              (parsed L X V v no_attributes body_size i size64 base is_tdx inside) policy T
              (with_tdx L X V C time B) (tdx_create L X V C time) json policy_json found
              (tdx_made L X V C time v set_up) e1 e2,
          user_shown,
          hash_shown,
        ),
      )

-- ===== src/Verification/Tdx/Shown.antt =====
-- What a quote of TDX shows, and when all of it lies inside the quote.
use trustflow.Base.{
  ℕ, ◌+◌, ◌*◌, ◌≤◌, ◌≡◌, ◌↔◌, ◌⊎◌, ◌++◌, sym, ap, ◌∙◌, arith, le→leb, leb→le, Bytes, Str, length,
  take, drop,
}
use trustflow.Error.{ok, with_value}
use trustflow.External.{External}
use trustflow.Attestation.{view}
use trustflow.CryptoUtil.Word.{join_bytes}
use trustflow.Verification.Attributes.{Attributes}
use trustflow.Verification.Dcap.{DcapVerifier, Qvl, debug_disabled, halves}
use trustflow.Verification.Dcap.Laws.{view_inside, halves_inside}
use trustflow.Verification.Tdx.{
  Body, Layout, rt_mr_at, get_mr_hex, parse_report_body_pf_measurements,
  parse_report_body_boot_measurements, parse_report_body_ta_measurements, find_report_body,
  tdx_check_quote, tdx_parse_unified_report,
}
use trustflow.Verification.Tdx.Laws.{IsTdxQuote, check_lem}

-- The fields of a report body are in the struct, whose last one is report data of 64 bytes.
pub record IsBody (B : Body) (body_size : ℕ) : Type 0 where
  pub mr_seam_inside : B.mr_seam + B.measurement_size ≤ body_size
  pub mrsigner_seam_inside : B.mrsigner_seam + B.measurement_size ≤ body_size
  pub mr_td_inside : B.mr_td + B.measurement_size ≤ body_size
  pub mr_config_id_inside : B.mr_config_id + B.measurement_size ≤ body_size
  pub mr_owner_inside : B.mr_owner + B.measurement_size ≤ body_size
  pub mr_owner_config_inside : B.mr_owner_config + B.measurement_size ≤ body_size
  pub rt_mr_inside : B.rt_mr + 4 * B.measurement_size ≤ body_size
  pub td_attributes_inside : B.td_attributes + 8 ≤ body_size
  pub report_data_last : B.report_data + 64 ≡ body_size

view-inside : (b v : Bytes) (offset size : ℕ) → view b offset size ≡ ok v → offset + size ≤ length b
unfolding view
view-inside b v offset size h = leb→le (offset + size) (length b) (ground arith)

-- The measurement at a place of a quote.
abbrev pub mr : External → Body → Bytes → ℕ → Str
mr X B quote place = X.bytes_to_hex_string (take B.measurement_size (drop place quote))

module _ (X : External) (B : Body) (quote : Bytes) (base body_size : ℕ) (i : IsBody B body_size)
    (fits : base + body_size ≤ length quote) where
  mr_inside :
      (place : ℕ)
      → place + B.measurement_size ≤ length quote
      → get_mr_hex X B quote place ≡ ok (mr X B quote place)
  unfolding get_mr_hex
  mr_inside place h = rw (view_inside quote place B.measurement_size h)

  pf_measurements :
      parse_report_body_pf_measurements X B quote base
      ≡ ok (
          mr X B quote (base + B.mr_seam)
          ++ mr X B quote (base + B.mrsigner_seam)
          ++ mr X B quote (base + B.mr_td)
          ++ mr X B quote (base + B.mr_config_id)
          ++ mr X B quote (base + B.mr_owner)
          ++ mr X B quote (base + B.mr_owner_config))
  unfolding parse_report_body_pf_measurements
  pf_measurements = rw (
    mr_inside (base + B.mr_seam) (omega (arith, i.mr_seam_inside)),
    mr_inside (base + B.mrsigner_seam) (omega (arith, i.mrsigner_seam_inside)),
    mr_inside (base + B.mr_td) (omega (arith, i.mr_td_inside)),
    mr_inside (base + B.mr_config_id) (omega (arith, i.mr_config_id_inside)),
    mr_inside (base + B.mr_owner) (omega (arith, i.mr_owner_inside)),
    mr_inside (base + B.mr_owner_config) (omega (arith, i.mr_owner_config_inside)),
  )

  boot_measurements :
      parse_report_body_boot_measurements X B quote base
      ≡ ok (mr X B quote (rt_mr_at X B base 0) ++ mr X B quote (rt_mr_at X B base 1))
  unfolding parse_report_body_boot_measurements
  boot_measurements = rw (
    mr_inside (rt_mr_at X B base 0) (omega (arith, i.rt_mr_inside)),
    mr_inside (rt_mr_at X B base 1) (omega (arith, i.rt_mr_inside)),
  )

  ta_measurements :
      parse_report_body_ta_measurements X B quote base
      ≡ ok (mr X B quote (rt_mr_at X B base 2) ++ mr X B quote (rt_mr_at X B base 3))
  unfolding parse_report_body_ta_measurements
  ta_measurements = rw (
    mr_inside (rt_mr_at X B base 2) (omega (arith, i.rt_mr_inside)),
    mr_inside (rt_mr_at X B base 3) (omega (arith, i.rt_mr_inside)),
  )

-- The attributes of a quote whose report body starts at `base`.
abbrev pub tdx_shown : Layout → External → Qvl → DcapVerifier → Attributes → ℕ → Attributes
tdx_shown L X Q v attrs base =
    let B = L.report2_body in
    record attrs {
      str_tee_platform = v.report.str_tee_platform;
      hex_platform_measurement =
          mr X B v.quote (base + B.mr_seam)
          ++ mr X B v.quote (base + B.mrsigner_seam)
          ++ mr X B v.quote (base + B.mr_td)
          ++ mr X B v.quote (base + B.mr_config_id)
          ++ mr X B v.quote (base + B.mr_owner)
          ++ mr X B v.quote (base + B.mr_owner_config);
      hex_boot_measurement =
          mr X B v.quote (rt_mr_at X B base 0) ++ mr X B v.quote (rt_mr_at X B base 1);
      hex_ta_measurement =
          mr X B v.quote (rt_mr_at X B base 2) ++ mr X B v.quote (rt_mr_at X B base 3);
      hex_user_data = X.bytes_to_hex_string (take 32 (drop (base + B.report_data) v.quote));
      hex_hash_or_pem_pubkey =
          X.bytes_to_hex_string (take 32 (drop (base + B.report_data + 32) v.quote));
      bool_debug_disabled =
          debug_disabled Q (join_bytes 8 (take 8 (drop (base + B.td_attributes) v.quote)));
    }

found :
    (L : Layout) (n : ℕ) {base : ℕ}
    → ((n ≡ 4) × (base ≡ L.report_body)) ⊎ ((n ≡ 5) × (base ≡ L.body))
    → find_report_body L n ≡ ok base
unfolding find_report_body
found L n h = ground arith

checked_quote :
    (L : Layout) (quote : Bytes) (base : ℕ)
    → IsTdxQuote L quote base
    → tdx_check_quote L quote ≡ ok base
unfolding tdx_check_quote
checked_quote L quote base q = rw (
  le→leb L.quote4_size (length quote) q.quote4_fits,
  le→leb L.quote5_size (length quote) q.quote5_fits,
  q.tee_type_read,
  q.tee_type_tdx,
  q.version_read,
  found L (join_bytes 2 q.version) q.version_base,
)

halves-inside :
    (X : External) (Q : Qvl) (quote : Bytes) (offset : ℕ) (h : Str × Str)
    → halves X Q quote offset ≡ ok h
    → offset + 64 ≤ length quote
unfolding halves
halves-inside X Q quote offset h e =
    with_value (view quote offset 32) (λ x f. ground arith) (λ f. ground arith)
      λ user e1.
        with_value (view quote (offset + 32) 32) (λ x f. ground arith) (λ f. ground arith)
          λ hash e2. omega (arith, view-inside quote hash (offset + 32) 32 e2)

module _ (L : Layout) (X : External) (Q : Qvl) (v : DcapVerifier) (attrs : Attributes)
    (body_size : ℕ) (i : IsBody L.report2_body body_size) (size : Q.report_data_size ≡ 64)
    (base : ℕ) where
  pub parsed :
      IsTdxQuote L v.quote base
      → base + body_size ≤ length v.quote
      → tdx_parse_unified_report L X Q v attrs ≡ ok (tdx_shown L X Q v attrs base)
  unfolding tdx_parse_unified_report
  parsed q fits =
      let B = L.report2_body in
      rw (
        checked_quote L v.quote base q,
        pf_measurements X B v.quote base body_size i fits,
        boot_measurements X B v.quote base body_size i fits,
        ta_measurements X B v.quote base body_size i fits,
        halves_inside X Q v.quote (base + B.report_data) size (omega (arith, i.report_data_last)),
        view_inside v.quote (base + B.td_attributes) 8 (omega (arith, i.td_attributes_inside)),
      )

module _ (L : Layout) (X : External) (Q : Qvl) (v : DcapVerifier) (attrs a : Attributes) where
  -- A quote that is parsed is one of TDX, and its report data was read.
  tdx_parsed :
      tdx_parse_unified_report L X Q v attrs ≡ ok a
      → (base : ℕ) × IsTdxQuote L v.quote base
        × (base + L.report2_body.report_data + 64 ≤ length v.quote)
  unfolding tdx_parse_unified_report
  tdx_parsed h =
      let B = L.report2_body in
      with_value (tdx_check_quote L v.quote) (λ x e. ground arith) (λ e. ground arith)
        λ base e.
          with_value (parse_report_body_pf_measurements X B v.quote base) (λ x e1. ground arith)
            (λ e1. ground arith)
            λ pf e1.
              with_value (parse_report_body_boot_measurements X B v.quote base)
                (λ x e2. ground arith) (λ e2. ground arith)
                λ boot e2.
                  with_value (parse_report_body_ta_measurements X B v.quote base)
                    (λ x e3. ground arith) (λ e3. ground arith)
                    λ ta e3.
                      with_value (halves X Q v.quote (base + B.report_data)) (λ x e4. ground arith)
                        (λ e4. ground arith)
                        λ hs e4. (
                          base,
                          check_lem L v.quote base e,
                          halves-inside X Q v.quote (base + B.report_data) hs e4,
                        )

-- With the fields of a report body laid out inside that struct, which ends with report data of 64 bytes: a quote is
-- parsed if and only if it is as long as the structs of versions 4 and 5 both, its header names TDX as the kind of TEE
-- and 4 or 5 as the version, and the report body at that version's place lies inside the quote. The
-- attributes are then those that this report body shows.
pub tdx_parse_unified_report_iff :
    (L : Layout) (X : External) (Q : Qvl) (v : DcapVerifier) (attrs a : Attributes) (body_size : ℕ)
    → IsBody L.report2_body body_size
    → Q.report_data_size ≡ 64
    → (tdx_parse_unified_report L X Q v attrs ≡ ok a) ↔ (
        (base : ℕ) × IsTdxQuote L v.quote base
        × (base + body_size ≤ length v.quote)
        × (a ≡ tdx_shown L X Q v attrs base))
tdx_parse_unified_report_iff L X Q v attrs a body_size i size = (
  λ h.
      (let (base, q, fits) = tdx_parsed L X Q v attrs a h in
        let inside : base + body_size ≤ length v.quote = omega (arith, i.report_data_last) in
        let run = parsed L X Q v attrs body_size i size base q inside in
        (base, q, inside, cc (h, run))),
  λ (base, q, inside, e). parsed L X Q v attrs body_size i size base q inside ∙ ap ok (sym e),
)

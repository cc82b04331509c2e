-- ===== src/Verification/Factory/Laws.antt =====
-- The map of creators, and when a report is verified.
use trustflow.Base.{
  ◌<◌, ◌≡◌, ◌≢◌, ◌↔◌, arith, some, List, [], ◌∷◌, Str, str_eq, str_eq_iff, str_eq_refl,
  str_eq_of_ne, Bool-cases, inl, inr,
}
use trustflow.Error.{ok, with_value}
use trustflow.External.{External}
use trustflow.Verification.Attributes.{Attributes, no_attributes, verify_attributes}
use trustflow.Verification.Factory.{Verifier, Creator, Factory, register, creator_of, verify_report}
use trustflow.Verification.Csv.Layout.{Layout, Openssl}
use trustflow.Verification.Csv.Report.{CsvVerifier, parse_fields, parse_unified_report}
use trustflow.Verification.Csv.Report.Laws.{parse_unified_report_undefined}
use trustflow.Verification.Csv.Chain.{verify_platform}

found :
    (creators : Factory) (name : Str) (creator : Creator)
    → creator_of (register creators name creator) name ≡ some creator
unfolding register creator_of
found [] name creator = rw (str_eq_refl name)
found ((n, c) ∷ creators) name creator = elim (Bool-cases (str_eq n name)) [
  | inl e ↦ rw (e, str_eq_refl name)
  | inr e ↦ rw (e, e) (found creators name creator)
]

kept :
    (creators : Factory) (name other : Str) (creator : Creator)
    → name ≢ other
    → creator_of (register creators name creator) other ≡ creator_of creators other
unfolding register creator_of
kept [] name other creator ne = rw (str_eq_of_ne name other ne)
kept ((n, c) ∷ creators) name other creator ne = elim (Bool-cases (str_eq n name)) [
  | inl e ↦
      let same : n ≡ name = (str_eq_iff n name).0 e in
      rw (e, str_eq_of_ne name other ne, same, str_eq_of_ne name other ne)
  | inr e ↦ rw (e, kept creators name other creator ne)
]

-- A platform that is registered gets the creator given last, and no other platform's changes.
pub creator_of-register :
    (creators : Factory) (name : Str) (creator : Creator)
    → (creator_of (register creators name creator) name ≡ some creator)
      × ((other : Str)
          → name ≢ other
          → creator_of (register creators name creator) other ≡ creator_of creators other)
creator_of-register creators name creator =
    (found creators name creator, λ other ne. kept creators name other creator ne)

-- A report is verified if and only if its platform is, its attributes can be parsed, and they match
-- the policy.
pub verify_report_iff :
    (X : External) (v : Verifier) (policy : List Attributes)
    → (verify_report X v policy ≡ ok tt) ↔ (
        (v.verify_platform ≡ ok tt)
        × ((attrs : Attributes) × (v.parse_unified_report no_attributes ≡ ok attrs)
            × (verify_attributes X attrs policy ≡ ok tt)))
unfolding verify_report
verify_report_iff X v policy = (
  λ h.
      with_value v.verify_platform (λ x e. ground arith) (λ e. ground arith)
        λ _ e1.
          with_value (v.parse_unified_report no_attributes) (λ x e. ground arith)
            (λ e. ground arith) λ attrs e2. (ground arith, (attrs, e2, ground arith)),
  λ (p, (attrs, q, r)). rw (p, q, r),
)

-- `CsvAttestationVerifier` behind the interface.
abbrev pub csv_verifier : Layout → Openssl → External → CsvVerifier → Verifier
csv_verifier L O X v = record {
  verify_platform = verify_platform L O v.quote v.hsk_cert v.cek_cert;
  parse_unified_report = parse_unified_report L X v;
}

csv_parse_never_ok :
    (L : Layout) (X : External) (v : CsvVerifier) (attrs a : Attributes)
    → 0 < L.hash_len
    → parse_unified_report L X v attrs ≡ ok a
    → ⊥
unfolding parse_unified_report
csv_parse_never_ok L X v attrs a pos h =
    with_value (parse_fields L X v attrs) (λ x e. ground arith) (λ e. ground arith)
      λ r e. cc (parse_unified_report_undefined L X v pos attrs r e, h)

-- If `HASH_LEN` is positive, `VerifyReport` of the CSV verifier never ends well, whatever the report
-- and the policy: the attributes are parsed with a read past the end of a vector.
pub csv_report_never_verified :
    (L : Layout) (O : Openssl) (X : External) (v : CsvVerifier) (policy : List Attributes)
    → 0 < L.hash_len
    → verify_report X (csv_verifier L O X v) policy ≢ ok tt
csv_report_never_verified L O X v policy pos h =
    let (p, (attrs, q, r)) = (verify_report_iff X (csv_verifier L O X v) policy).0 h in
    csv_parse_never_ok L X v no_attributes attrs pos q

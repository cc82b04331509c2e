-- ===== src/Verification/Factory.antt =====
-- verification/interface/verifier.h, verifier_factory.h and verifier.cc's `VerifyReport`: which
-- verifier a report gets, and what it does.
pub mod Laws
use trustflow.Base.{
  ℕ, Bool, true, false, ◌||◌, Option, none, some, List, [], ◌∷◌, map, Str, str_eq, if◌then◌else◌,
}
use trustflow.Error.{Result, ok, text, enforce, yacl_throw, ◌>>=◌, ◌>>◌}
use trustflow.External.{External}
use trustflow.Attestation.{Report, json2pb}
use trustflow.Verification.Attributes.{Attributes, no_attributes, verify_attributes}

-- The two virtual functions of an `AttestationVerifier` that is set up.
pub record Verifier : Type 0 where
  pub verify_platform : Result (Unit {0})
  pub parse_unified_report : Attributes → Result Attributes

-- A creator: the constructor, which may throw.
abbrev pub Creator : Type 0
Creator = Report → Result Verifier

-- `creators_`
abbrev pub Factory : Type 0
Factory = List (Str × Creator)

-- `creators_[name] = creator`
unfoldable pub register : Factory → Str → Creator → Factory
register [] name creator = (name, creator) ∷ []
register ((n, c) ∷ creators) name creator =
    let rest = register creators name creator in
    if str_eq n name then (name, creator) ∷ creators else (n, c) ∷ rest

unfoldable pub creator_of : Factory → Str → Option Creator
creator_of [] name = none
creator_of ((n, c) ∷ creators) name =
    let rest = creator_of creators name in if str_eq n name then some c else rest

unfoldable pub create : External → (Str → Option Report) → Factory → Str → Result Verifier
create X of_json creators report_json_str = do
  report ← json2pb of_json report_json_str
  elim (creator_of creators report.str_tee_platform) [
    | some creator ↦ creator report
    | none ↦
        yacl_throw "Supported platform list: {}, but not include {}"
          (text (X.join (map (λ c. c.0) creators) ", ") ∷ text report.str_tee_platform ∷ [])
  ]

-- `VerifyReport`: the platform first, then the attributes.
unfoldable pub verify_report : External → Verifier → List Attributes → Result (Unit {0})
verify_report X v policy = do
  v.verify_platform
  attrs ← v.parse_unified_report no_attributes
  verify_attributes X attrs policy

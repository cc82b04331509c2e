-- ===== src/Evidence/Sample.antt =====
-- A codec, Intel's library and the parameters of a report, for the runs of both platforms.
use trustflow.Base.{
  ℕ, zero, suc, ◌≡◌, refl, ap, ◌∙◌, arith, Option, some, none, List, [], ◌∷◌, ◌++◌, Str, codes,
  length, take, drop, take-append, drop-append, replicate, All, IsByte, is_empty, false, sym,
}
use trustflow.Error.{ok}
use trustflow.External.Sample.{sample}
use trustflow.Attestation.{report_type_passport, Collateral, Field}
use trustflow.Verification.Dcap.{DcapReport, DcapCodec, CollateralData, Qvl, result_ok}
use trustflow.Verification.Factory.{Creator}
use trustflow.Verification.Wrapper.{Texts}
use trustflow.Collateral.{IntelQv}
use trustflow.Generation.{GenParams}
use trustflow.Generation.Intel.{DcapEncoder, Sizes}
use trustflow.Evidence.{IsCodec}

-- Texts one after another, each with its length in front.
abbrev pub pack : List Str → Str
pack [] = []
pack (s ∷ ss) = length s ∷ (s ++ pack ss)

abbrev unpack : ℕ → Str → List Str
unpack zero s = []
unpack (suc n) [] = []
unpack (suc n) (l ∷ s) = take l s ∷ unpack n (drop l s)

unpack-pack : (ss : List Str) → unpack (length ss) (pack ss) ≡ ss
unpack-pack [] = refl
unpack-pack (s ∷ ss) = rw (take-append s (pack ss), drop-append s (pack ss), unpack-pack ss)

abbrev report_of : List Str → Option DcapReport
report_of (q ∷ c ∷ []) = some record { b64_quote = q; json_collateral = c }
report_of _ = none

abbrev collateral_of : ℕ → ℕ → List Str → Option Collateral
collateral_of v t (a ∷ b ∷ c ∷ d ∷ e ∷ f ∷ g ∷ []) = some record {
  version = v;
  tee_type = t;
  pck_crl_issuer_chain = a;
  root_ca_crl = b;
  pck_crl = c;
  tcb_info_issuer_chain = d;
  tcb_info = e;
  qe_identity_issuer_chain = f;
  qe_identity = g;
}
collateral_of v t _ = none

abbrev pub members : Collateral → List Str
members c =
    c.pck_crl_issuer_chain ∷ c.root_ca_crl ∷ c.pck_crl ∷ c.tcb_info_issuer_chain ∷ c.tcb_info
    ∷ c.qe_identity_issuer_chain ∷ c.qe_identity ∷ []

abbrev pub encoder : DcapEncoder
encoder = record {
  report_to_json = λ r. some (pack (r.b64_quote ∷ r.json_collateral ∷ []));
  collateral_to_json = λ c. some (c.version ∷ c.tee_type ∷ pack (members c));
  base64_encode = λ b. b;
}

abbrev parse_collateral_text : Str → Option Collateral
parse_collateral_text (v ∷ t ∷ s) = collateral_of v t (unpack 7 s)
parse_collateral_text _ = none

abbrev pub decoder : DcapCodec
decoder = record {
  report_of_json = λ s. report_of (unpack 2 s);
  collateral_of_json = parse_collateral_text;
  base64_decode = ok;
}

report_back :
    (r : DcapReport) (s : Str)
    → encoder.report_to_json r ≡ some s
    → decoder.report_of_json s ≡ some r
report_back r s e =
    let same : pack (r.b64_quote ∷ r.json_collateral ∷ []) ≡ s = cc in
    rw (← same, unpack-pack (r.b64_quote ∷ r.json_collateral ∷ []))

collateral_back :
    (c : Collateral) (s : Str)
    → encoder.collateral_to_json c ≡ some s
    → (is_empty s ≡ false) × (decoder.collateral_of_json s ≡ some c)
collateral_back c s e =
    let same : c.version ∷ c.tee_type ∷ pack (members c) ≡ s = cc in
    (
      rw (← same),
      ap decoder.collateral_of_json (sym same)
          ∙ ap (collateral_of c.version c.tee_type) (unpack-pack (members c)),
    )

pub decoder-IsCodec : IsCodec encoder decoder
decoder-IsCodec = record {
  report_of_json-to_json = report_back;
  collateral_of_json-to_json = collateral_back;
  base64_decode-encode = λ b. refl;
}

-- A terminated text with its size.
abbrev text : Str × ℕ
text = (codes "x" ++ (0 ∷ []), 2)

abbrev collateral_data : CollateralData
collateral_data = record {
  version = 3;
  pck_crl_issuer_chain = text;
  root_ca_crl = text;
  pck_crl = text;
  tcb_info_issuer_chain = text;
  tcb_info = text;
  qe_identity_issuer_chain = text;
  qe_identity = text;
}

abbrev pub intel : IntelQv
intel = record { success = 0; tee_qv_get_collateral = λ quote size. (0, some (collateral_data, 0)) }

abbrev pub at : ℕ → ℕ → Field
at o n = record { offset = o; size = n }

abbrev pub qvl : Qvl
qvl = record {
  success = 0;
  supplemental_size = 8;
  flags_debug = 2;
  report_data_size = 64;
  get_quote_supplemental_data_size = (0, 8);
  verify_quote = λ quote collateral time size. (0, result_ok);
  result_number = λ r. 0;
}

abbrev pub sizes : Sizes
sizes = record { sgx_hash_size = 32; report_data_size = 64 }

pub fives : (n : ℕ) → All IsByte (replicate n 5)
fives zero = tt
fives (suc n) = (omega arith, fives n)

abbrev pub params : GenParams
params = record {
  report_type = report_type_passport;
  report_hex_nonce = [];
  hex_user_data = sample.bytes_to_hex_string (replicate 32 5);
  pem_public_key = codes "0102";
}

abbrev pub collateral : Collateral
collateral = record {
  version = 3;
  tee_type = 0;
  pck_crl_issuer_chain = codes "x";
  root_ca_crl = codes "x";
  pck_crl = codes "x";
  tcb_info_issuer_chain = codes "x";
  tcb_info = codes "x";
  qe_identity_issuer_chain = codes "x";
  qe_identity = codes "x";
}

abbrev pub texts : Texts
texts = record { what = λ x. codes "wrong"; stack_trace = λ x. codes "main" }

abbrev pub none_set_up : Creator
none_set_up r = ok record { verify_platform = ok tt; parse_unified_report = λ attrs. ok attrs }

-- ===== src/Attestation.antt =====
-- What all verifiers and generators share: trustflow/attestation/common/constants.h, the messages of
-- the `ual` API, and the JSON conversions of trustflow/attestation/utils/json2pb.h.
use trustflow.Base.{
  ℕ, ◌+◌, Option, none, some, [], ◌∷◌, Bytes, Str, codes, length, take, drop, leb, if◌then◌else◌,
  ◌≡◌, arith,
}
use trustflow.Error.{Result, ok, undefined, text, yacl_throw}

abbrev pub report_version : Str
report_version = codes "1.0"

abbrev pub report_max_size : ℕ
report_max_size = 40960

abbrev pub attribute_max_size : ℕ
attribute_max_size = 40960

abbrev pub report_type_bgcheck : Str
report_type_bgcheck = codes "BackgroundCheck"

abbrev pub report_type_passport : Str
report_type_passport = codes "Passport"

abbrev pub platform_sgx_dcap : Str
platform_sgx_dcap = codes "SGX_DCAP"

abbrev pub platform_tdx : Str
platform_tdx = codes "TDX"

abbrev pub platform_csv : Str
platform_csv = codes "CSV"

-- `UnifiedAttestationReport`
pub record Report : Type 0 where
  pub str_report_version : Str
  pub str_report_type : Str
  pub str_tee_platform : Str
  pub json_report : Str

-- `SgxQlQveCollateral`
pub record Collateral : Type 0 where
  pub version : ℕ
  pub tee_type : ℕ
  pub pck_crl_issuer_chain : Str
  pub root_ca_crl : Str
  pub pck_crl : Str
  pub tcb_info_issuer_chain : Str
  pub tcb_info : Str
  pub qe_identity_issuer_chain : Str
  pub qe_identity : Str

abbrev pub no_collateral : Collateral
no_collateral = record {
  version = 0;
  tee_type = 0;
  pck_crl_issuer_chain = [];
  root_ca_crl = [];
  pck_crl = [];
  tcb_info_issuer_chain = [];
  tcb_info = [];
  qe_identity_issuer_chain = [];
  qe_identity = [];
}

-- `JSON2PB(jsonstr, p_pbmsg)` and `PB2JSON(pbmsg, p_jsonstr)` over a converter of protobuf.
unfoldable pub json2pb : {M : Type 0} → (Str → Option M) → Str → Result M
json2pb convert jsonstr = elim (convert jsonstr) [
  | some m ↦ ok m
  | none ↦ yacl_throw "Parsing json to pb message failed, json: {}, error: {}" (text jsonstr ∷ [])
]

unfoldable pub pb2json : {M : Type 0} → (M → Option Str) → M → Result Str
pb2json convert m = elim (convert m) [
  | some s ↦ ok s
  | none ↦ yacl_throw "Parsing pb message to json failed, error: {}" []
]

pub converted :
    {M : Type 0} (convert : M → Option Str) (m : M) (s : Str)
    → pb2json convert m ≡ ok s
    → convert m ≡ some s
unfolding pb2json
converted convert m s h = ground arith

-- A field of a C struct.
pub record Field : Type 0 where
  pub offset : ℕ
  pub size : ℕ

-- The bytes `[offset, offset + size)` behind a pointer to `b`; to read past the end is undefined.
unfoldable pub view : Bytes → ℕ → ℕ → Result Bytes
view b offset size =
    if leb (offset + size) (length b) then ok (take size (drop offset b)) else undefined

abbrev pub field : Bytes → Field → Result Bytes
field b f = view b f.offset f.size

-- A member of a struct, which lies inside it.
abbrev pub part : Bytes → Field → Bytes
part b f = take f.size (drop f.offset b)

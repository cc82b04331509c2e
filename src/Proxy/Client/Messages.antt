-- ===== src/Proxy/Client/Messages.antt =====
-- The messages of the capsule manager, and what the client makes of them.
use trustflow.Base.{
  ℕ, ◌==◌, Bool, true, false, Option, none, some, List, [], ◌∷◌, ◌++◌, Bytes, Str, String,
}
use trustflow.Error.{Result, ok, text, number, enforce, ◌>>=◌, ◌>>◌}
use trustflow.External.{External}
use trustflow.Attestation.{Report}
use trustflow.Generation.Wrapper.{Generator}
use trustflow.CryptoUtil.Platform.{Platform}
use trustflow.Proxy.{RpcStatus, code_ok}
use trustflow.Proxy.Ra.{gen_ra_report}
use trustflow.Proxy.Jwe.{
  Jose, EncryptedRequest, EncryptedResponse, Randomness, parse_encrypted_response,
}
use trustflow.Proxy.Jwe.Cert.{Pem, not_null}

-- `capsule_manager::ResourceRequest`
pub record Resource : Type 0 where
  pub resource_uri : Str
  pub columns : List Str
  pub attrs : Str

pub record ResourceRequest : Type 0 where
  pub initiator_party_id : Str
  pub scope : Str
  pub op_name : Str
  pub resources : List Resource
  pub env : Str
  pub global_attrs : Str

pub record DataKey : Type 0 where
  pub resource_uri : Str
  pub data_key_b64 : Str

-- `CreateResultDataKeyRequest::Body`
pub record Body : Type 0 where
  pub scope : Str
  pub resource_uri : Str
  pub data_key_b64 : Str
  pub ancestor_uuids : List Str

-- `TlsAsset`, and the default.
pub record TlsAsset : Type 0 where
  pub cert : Str
  pub private_key : Str

abbrev pub no_asset : TlsAsset
no_asset = record { cert = []; private_key = [] }

-- `GetDataKeysRequest` and `GetTlsAssetRequest`, and `CreateResultDataKeyRequest`.
pub record KeyRequest : Type 0 where
  pub attestation_report : Option Report
  pub cert : Str
  pub resource_request : ResourceRequest

pub record CreateRequest : Type 0 where
  pub attestation_report : Option Report
  pub body : Body

-- The answer of `GetRaCert`.
pub record CmCert : Type 0 where
  pub attestation_report : Option Report
  pub status : RpcStatus
  pub cert : Str

-- `grpc::Status`
pub record GrpcStatus : Type 0 where
  pub is_ok : Bool
  pub error_code : ℕ
  pub error_message : Str

-- What the calls answer, of the service behind an endpoint, and the random values. `S` is the state of everything.
pub record Remote (S : Type 0) : Type 0 where
  pub rand_bytes : ℕ → S → Bytes × S
  pub randomness : S → Randomness × S
  pub get_ra_cert : Str → Str → S → (GrpcStatus × CmCert) × S
  pub get_data_keys : Str → EncryptedRequest → S → (GrpcStatus × EncryptedResponse) × S
  pub get_tls_asset : Str → EncryptedRequest → S → (GrpcStatus × EncryptedResponse) × S
  pub create_result_data_key : Str → EncryptedRequest → S → (GrpcStatus × EncryptedResponse) × S

-- The conversions of protobuf.
pub record Codec : Type 0 where
  pub serialize_request : ResourceRequest → Option Bytes
  pub serialize_body : Body → Option Bytes
  pub get_data_keys_to_json : KeyRequest → Option Str
  pub get_tls_asset_to_json : KeyRequest → Option Str
  pub create_to_json : CreateRequest → Option Str
  pub data_keys_of_json : Str → Option (List DataKey)
  pub tls_asset_of_json : Str → Option TlsAsset

-- All that the client is built on. `fuel` bounds the rounds that read a certificate.
pub record Env : Type 1 where
  pub platform : Platform
  pub pem : Pem
  pub fuel : ℕ
  pub jose : Jose
  pub external : External
  pub tee : Option Generator
  pub codec : Codec
  pub remote : Remote platform.Fs

unfoldable pub verify_sf_response_status : RpcStatus → Result (Unit {0})
verify_sf_response_status status =
    enforce (status.code == code_ok) "Call service failed, error code: {}, message: {}"
      (number status.code ∷ text status.message ∷ [])

module _ (E : Env) where
  -- The report over what is serialized with a text in front, unless the platform is simulated.
  unfoldable pub attach : Bool → Str → Option Bytes → String → Result (Option Report)
  attach true front serialized template = ok none
  attach false front serialized template = do
    s ← not_null serialized template
    report ← gen_ra_report E.external E.tee (front ++ s)
    ok (some report)

  -- The answer is decrypted, and its status is tested.
  unfoldable pub receive : {T : Type 0} → (Str → Option T) → T → Str → EncryptedResponse → Result T
  receive of_json empty private_key enc_res = do
    (res_status, response) ←
        parse_encrypted_response E.platform E.jose of_json empty enc_res private_key
    verify_sf_response_status res_status
    ok response

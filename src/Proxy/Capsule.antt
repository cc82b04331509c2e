-- ===== src/Proxy/Capsule.antt =====
-- data_capsule_proxy/data_capsule_proxy.cc: data is fetched and decrypted, and results are encrypted
-- and put away.
pub mod Laws
pub mod Results
pub mod RoundTrip
pub mod Uploaded
pub mod Downloaded
mod Tests
mod StoreTests
use trustflow.Base.{
  ℕ, ltb, Bool, true, false, not, Option, none, some, List, [], ◌∷◌, Bytes, Str, codes, is_empty,
  length, if◌then◌else◌,
}
use trustflow.Error.{Result, ok, throw, undefined}
use trustflow.Action.{Action, pure, lift, call, enforce, yacl_throw, ◌>>=◌, ◌>>◌}
use trustflow.CryptoUtil.Disk.{Disk}
use trustflow.CryptoUtil.Tasks.{Step}
use trustflow.CryptoUtil.Directory.{encrypt_to_dir, decrypt_to_dir}
use trustflow.Proxy.{RpcStatus, success_status, Reply, caught}
use trustflow.Proxy.Jwe.{generate_party_id}
use trustflow.Proxy.Client.Messages.{Resource, ResourceRequest, DataKey, Body, Env}
use trustflow.Proxy.Client.{Client, new_client, get_data_keys, create_result_data_key}
use trustflow.Proxy.Oss.{Oss, S3Config, download_from_oss, upload_to_oss}

pub record CmResourceConfig : Type 0 where
  pub endpoint : Str
  pub scope : Str
  pub op_name : Str
  pub resource_uri : Str
  pub columns : List Str
  pub global_attrs : Str

pub record CmResultConfig : Type 0 where
  pub endpoint : Str
  pub scope : Str
  pub resource_uri : Str
  pub ancestor_uuids : List Str

-- A message that may be absent is an option; of the configurations, only the path is kept where
-- there is nothing else.
pub record GetInputDataRequest : Type 0 where
  pub dest_path : Str
  pub data_key_b64 : Option Str
  pub cm_resource_config : Option CmResourceConfig
  pub s3_config : Option S3Config
  pub local_fs_path : Option Str

pub record PutResultDataRequest : Type 0 where
  pub src_path : Str
  pub data_key_b64 : Str
  pub s3_config : Option S3Config
  pub local_fs_path : Option Str
  pub cm_result_config : CmResultConfig

-- `DataCapsuleProxyImpl`
pub record CapsuleProxy : Type 0 where
  pub cm_endpoint : Str
  pub plat : Str
  pub cert : Str
  pub private_key : Str

-- What the handlers are built on: `schedule` says when the threads of a call on a
-- directory end, `rand` gives the values for blocks.
pub record World : Type 1 where
  pub env : Env
  pub disk : Disk env.platform
  pub oss : Oss env.platform.Fs
  pub schedule : Str → List Step
  pub rand : Str → ℕ → Bytes

-- `kKeyBytes`
abbrev pub key_bytes : ℕ
key_bytes = 16

abbrev pub temp_dir : Str
temp_dir = codes "/tmp"

-- The endpoint of the configuration, or the proxy's.
abbrev pub endpoint_or : Str → Str → Str
endpoint_or endpoint cm_endpoint = if is_empty endpoint then cm_endpoint else endpoint

module _ (W : World) (M : CapsuleProxy) where
  unfoldable pub gen_temp_dir : Str → Str
  gen_temp_dir path = W.disk.join temp_dir (W.env.jose.base64_encode (W.env.external.sha256 path))

  unfoldable pub gen_resource_request : CmResourceConfig → Result ResourceRequest
  gen_resource_request c = elim (generate_party_id W.env.external W.env.jose M.cert) [
    | ok party_id ↦ ok record {
      initiator_party_id = party_id;
      scope = c.scope;
      op_name = c.op_name;
      resources = record { resource_uri = c.resource_uri; columns = c.columns; attrs = [] } ∷ [];
      env = [];
      global_attrs = c.global_attrs;
    }
    | throw x ↦ throw x
    | undefined ↦ undefined
  ]

  -- The first of the keys.
  unfoldable pub first_key : List DataKey → Action W.env.platform.Fs Bytes
  first_key [] = yacl_throw "Data keys empty" []
  first_key (k ∷ keys) = lift (W.env.jose.base64_decode k.data_key_b64)

  unfoldable pub key_from_manager : CmResourceConfig → Action W.env.platform.Fs Bytes
  key_from_manager c = do
    resource_request ← lift (gen_resource_request c)
    client ← new_client W.env (endpoint_or c.endpoint M.cm_endpoint)
    data_keys ← get_data_keys W.env client M.plat M.cert M.private_key resource_request
    first_key data_keys

  -- The key of the request, or else the capsule manager's.
  unfoldable pub input_key : Option Str → Option CmResourceConfig → Action W.env.platform.Fs Bytes
  input_key (some data_key_b64) cm = lift (W.env.jose.base64_decode data_key_b64)
  input_key none (some c) = key_from_manager c
  input_key none none = yacl_throw "Data key config not found in request" []

  unfoldable pub fetch_s3 : S3Config → Str → Bytes → Action W.env.platform.Fs (Unit {0})
  fetch_s3 c dest_path data_key = do
    let download_temp_path = gen_temp_dir dest_path
    W.disk.remove_all download_temp_path
    download_from_oss W.env.platform W.disk W.oss c download_temp_path
    decrypt_to_dir W.env.platform W.disk (W.schedule download_temp_path) download_temp_path
        dest_path data_key
    W.disk.remove_all download_temp_path

  unfoldable pub fetch :
      Option S3Config → Option Str → Str → Bytes → Action W.env.platform.Fs (Unit {0})
  fetch (some c) path dest_path data_key = fetch_s3 c dest_path data_key
  fetch none (some path) dest_path data_key =
      decrypt_to_dir W.env.platform W.disk (W.schedule path) path dest_path data_key
  fetch none none dest_path data_key = yacl_throw "Source config not found" []

  -- The body of `try` of `GetInputData`, and the handler.
  unfoldable pub run_get_input_data : GetInputDataRequest → Action W.env.platform.Fs RpcStatus
  run_get_input_data request = do
    data_key ← input_key request.data_key_b64 request.cm_resource_config
    fetch request.s3_config request.local_fs_path request.dest_path data_key
    pure success_status

  unfoldable pub get_input_data : GetInputDataRequest → Action W.env.platform.Fs (Reply RpcStatus)
  get_input_data request s = let (r, s) = run_get_input_data request s in (caught r, s)

  unfoldable pub result_key : Str → Action W.env.platform.Fs Bytes
  result_key data_key_b64 s =
      if is_empty data_key_b64
      then call (W.env.remote.rand_bytes key_bytes) s
      else lift (W.env.jose.base64_decode data_key_b64) s

  unfoldable pub put_s3 : S3Config → Str → Bytes → Action W.env.platform.Fs (Unit {0})
  put_s3 c src_path data_key = do
    let enc_temp_path = gen_temp_dir src_path
    encrypt_to_dir W.env.platform W.disk (W.schedule src_path) W.rand src_path enc_temp_path
        data_key
    upload_to_oss W.env.platform W.disk W.oss c enc_temp_path
    W.disk.remove_all enc_temp_path

  unfoldable pub put :
      Option S3Config → Option Str → Str → Bytes → Action W.env.platform.Fs (Unit {0})
  put (some c) path src_path data_key = put_s3 c src_path data_key
  put none (some path) src_path data_key =
      encrypt_to_dir W.env.platform W.disk (W.schedule src_path) W.rand src_path path data_key
  put none none src_path data_key = yacl_throw "Dest config not found" []

  unfoldable pub make_body : CmResultConfig → Bytes → Body
  make_body c data_key = record {
    scope = c.scope;
    resource_uri = c.resource_uri;
    data_key_b64 = W.env.jose.base64_encode data_key;
    ancestor_uuids = c.ancestor_uuids;
  }

  unfoldable pub register_key : CmResultConfig → Bytes → Action W.env.platform.Fs (Unit {0})
  register_key c data_key = do
    client ← new_client W.env (endpoint_or c.endpoint M.cm_endpoint)
    enforce (not (is_empty c.scope)) "scope can not be empty" []
    enforce (not (is_empty c.resource_uri)) "resource_uri can not be empty" []
    enforce (ltb 0 (length c.ancestor_uuids)) "ancestor_uuids can not be empty" []
    create_result_data_key W.env client M.plat M.cert M.private_key (make_body c data_key)

  -- Only a result with a resource URI is registered.
  unfoldable pub register_result : CmResultConfig → Bytes → Action W.env.platform.Fs (Unit {0})
  register_result c data_key s =
      if is_empty c.resource_uri then (ok tt, s) else register_key c data_key s

  -- The body of `try` of `PutResultData`, and the handler.
  unfoldable pub run_put_result_data : PutResultDataRequest → Action W.env.platform.Fs RpcStatus
  run_put_result_data request = do
    data_key ← result_key request.data_key_b64
    put request.s3_config request.local_fs_path request.src_path data_key
    register_result request.cm_result_config data_key
    pure success_status

  unfoldable pub put_result_data : PutResultDataRequest → Action W.env.platform.Fs (Reply RpcStatus)
  put_result_data request s = let (r, s) = run_put_result_data request s in (caught r, s)

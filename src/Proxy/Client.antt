-- ===== src/Proxy/Client.antt =====
-- data_capsule_proxy/capsule_manager_client.cc: the calls of the capsule manager.
pub mod Messages
pub mod Laws
pub mod Exchange
pub mod Answers
mod Tests
use trustflow.Base.{ℕ, ltb, true, List, [], ◌∷◌, ◌++◌, Str, String, codes, str_eq, length, Option}
use trustflow.Error.{text, number}
use trustflow.Action.{Action, pure, lift, call, enforce, ◌>>=◌, ◌>>◌}
use trustflow.Proxy.{tee_plat_sim}
use trustflow.Proxy.Jwe.{EncryptedRequest, EncryptedResponse, gen_encrypted_request}
use Messages.{
  TlsAsset, no_asset, ResourceRequest, DataKey, Body, GrpcStatus, Env, verify_sf_response_status,
  attach, receive,
}

-- The endpoint of the stub, and `capsule_manager_cert_`.
pub record Client : Type 0 where
  pub endpoint : Str
  pub capsule_manager_cert : Str

-- `kNonceBytes`
abbrev pub nonce_bytes : ℕ
nonce_bytes = 16

module _ (E : Env) where
  -- `CapsuleManagerClient::GetRaCert`
  unfoldable pub get_ra_cert : Client → Action E.platform.Fs Client
  get_ra_cert c = do
    nonce ← call (E.remote.rand_bytes nonce_bytes)
    (status, response) ← call (E.remote.get_ra_cert c.endpoint (E.jose.base64_url_encode nonce))
    enforce status.is_ok "Calling GetRaCert failed, error code: {}, message: {}"
        (number status.error_code ∷ text status.error_message ∷ [])
    lift (verify_sf_response_status response.status)
    pure (record c { capsule_manager_cert = response.cert })

  -- The constructor.
  unfoldable pub new_client : Str → Action E.platform.Fs Client
  new_client endpoint = get_ra_cert (record { endpoint = endpoint; capsule_manager_cert = [] })

  -- The request is signed, encrypted for the capsule manager and sent.
  unfoldable pub send :
      {T : Type 0}
      → (T → Option Str)
      → (EncryptedRequest → E.platform.Fs → (GrpcStatus × EncryptedResponse) × E.platform.Fs)
      → String
      → Client
      → Str
      → Str
      → T
      → Action E.platform.Fs EncryptedResponse
  send to_json stub template c cert private_key request = do
    R ← call E.remote.randomness
    enc_req ← lift (
        gen_encrypted_request E.platform E.pem E.fuel E.jose to_json R request private_key cert
          c.capsule_manager_cert true)
    (status, enc_res) ← call (stub enc_req)
    enforce status.is_ok template (number status.error_code ∷ text status.error_message ∷ [])
    pure enc_res

  unfoldable pub has_cert : Client → Action E.platform.Fs (Unit {0})
  has_cert c =
      enforce (ltb 0 (length c.capsule_manager_cert))
        "capsule_manager_cert not found. you should call GetRaCert() before other capsule_manager's interface"
        []

  unfoldable pub get_data_keys :
      Client → Str → Str → Str → ResourceRequest → Action E.platform.Fs (List DataKey)
  get_data_keys c plat cert private_key resource_req = do
    has_cert c
    report ← lift (
        attach E (str_eq plat tee_plat_sim) (cert ++ codes ".")
          (E.codec.serialize_request resource_req) "Serializing resource_req failed")
    enc_res ←
        send E.codec.get_data_keys_to_json (E.remote.get_data_keys c.endpoint)
          "Calling GetDataKeys failed, error code: {}, message: {}" c cert private_key
          (record { attestation_report = report; cert = cert; resource_request = resource_req })
    lift (receive E E.codec.data_keys_of_json [] private_key enc_res)

  unfoldable pub get_tls_asset :
      Client → Str → Str → Str → ResourceRequest → Action E.platform.Fs TlsAsset
  get_tls_asset c plat cert private_key resource_req = do
    has_cert c
    report ← lift (
        attach E (str_eq plat tee_plat_sim) (cert ++ codes ".")
          (E.codec.serialize_request resource_req) "Serializing resource_req failed")
    enc_res ←
        send E.codec.get_tls_asset_to_json (E.remote.get_tls_asset c.endpoint)
          "Calling GetDataKeys failed, error code: {}, message: {}" c cert private_key
          (record { attestation_report = report; cert = cert; resource_request = resource_req })
    lift (receive E E.codec.tls_asset_of_json no_asset private_key enc_res)

  unfoldable pub create_result_data_key :
      Client → Str → Str → Str → Body → Action E.platform.Fs (Unit {0})
  create_result_data_key c plat cert private_key body = do
    has_cert c
    report ← lift (
        attach E (str_eq plat tee_plat_sim) [] (E.codec.serialize_body body)
          "Serializing CreateResultDataKeyRequest body failed")
    enc_res ←
        send E.codec.create_to_json (E.remote.create_result_data_key c.endpoint)
          "Calling CreateResultDataKey failed, error code: {}, message: {}" c cert private_key
          (record { attestation_report = report; body = body })
    lift (verify_sf_response_status enc_res.status)

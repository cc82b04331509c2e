-- ===== src/Proxy/Client/Exchange.antt =====
-- `GetDataKeys` and `GetTlsAsset`: what was sent if something is returned.
use trustflow.Base.{
  ◌≡◌, ◌≢◌, arith, ◌++◌, [], Bytes, Str, codes, length, ltb, List, Option, some, Bool-cases, inl,
  inr, str_eq,
}
use trustflow.Error.{ok, with_value}
use trustflow.Action.{Action, lift, with_run, ◌>>=◌, ◌>>◌}
use trustflow.Attestation.{Report}
use trustflow.CryptoUtil.Platform.{IsGcm}
use trustflow.Generation.Wrapper.{Generator}
use trustflow.Proxy.{code_ok, tee_plat_sim}
use trustflow.Proxy.Ra.{ra_params}
use trustflow.Proxy.Jwe.{EncryptedRequest, EncryptedResponse, open_message}
use trustflow.Proxy.Jwe.Laws.{IsJose}
use trustflow.Proxy.Jwe.RoundTrip.{IsSealed}
use trustflow.Proxy.Client.Messages.{
  TlsAsset, no_asset, ResourceRequest, KeyRequest, DataKey, GrpcStatus, Env, attach, receive,
}
use trustflow.Proxy.Client.{Client, has_cert, send, get_data_keys, get_tls_asset}
use trustflow.Proxy.Client.Laws.{IsParty, received, sent-IsSealed, attached}

module _ (E : Env) {T : Type 0} (to_json : KeyRequest → Option Str)
    (stub : Client
      → EncryptedRequest
      → E.platform.Fs
      → (GrpcStatus × EncryptedResponse) × E.platform.Fs)
    (of_json : Str → Option T) (empty : T) (c : Client) (plat cert private_key : Str)
    (req : ResourceRequest) where
  -- What the two calls have in common.
  abbrev ask : Action E.platform.Fs T
  ask = do
    has_cert E c
    report ← lift (
        attach E (str_eq plat tee_plat_sim) (cert ++ codes ".") (E.codec.serialize_request req)
          "Serializing resource_req failed")
    enc_res ←
        send E to_json (stub c) "Calling GetDataKeys failed, error code: {}, message: {}" c cert
          private_key (record { attestation_report = report; cert = cert; resource_request = req })
    lift (receive E of_json empty private_key enc_res)

  asked :
      (s s' : E.platform.Fs) (response : T)
      → ask s ≡ (ok response, s')
      → (report : Option Report) × (enc_res : EncryptedResponse) × (attach E
            (str_eq plat tee_plat_sim)
            (cert ++ codes ".")
            (E.codec.serialize_request req)
            "Serializing resource_req failed"
          ≡ ok report)
        × (send E to_json
              (stub c)
              "Calling GetDataKeys failed, error code: {}, message: {}"
              c
              cert
              private_key
              (record { attestation_report = report; cert = cert; resource_request = req })
              s
            ≡ (ok enc_res, s'))
        × (receive E of_json empty private_key enc_res ≡ ok response)
  unfolding has_cert
  asked s s' response h = elim (Bool-cases (ltb 0 (length c.capsule_manager_cert))) [
    | inl there ↦
        with_value
          (attach E (str_eq plat tee_plat_sim) (cert ++ codes ".") (E.codec.serialize_request req)
            "Serializing resource_req failed")
          (λ x e. ground arith) (λ e. ground arith)
          λ report e.
            (with_run
              (send E to_json (stub c) "Calling GetDataKeys failed, error code: {}, message: {}" c
                cert private_key
                (record { attestation_report = report; cert = cert; resource_request = req }) s)
              (λ x t f. ground arith) (λ t f. ground arith)
              λ enc_res t f. (report, enc_res, e, ground arith, ground arith))
    | inr missing ↦ absurd (ground arith)
  ]

module _ (E : Env) (gcm : IsGcm 16 E.platform.aes128_encrypt E.platform.aes128_decrypt)
    (L : IsJose E.jose) where
  -- What a call that returned this response did.
  abbrev pub IsExchange :
      {T : Type 0} (to_json : KeyRequest → Option Str)
      (stub : Client
        → EncryptedRequest
        → E.platform.Fs
        → (GrpcStatus × EncryptedResponse) × E.platform.Fs)
      (of_json : Str → Option T) (c : Client) (cert private_key cm_private_key : Str)
      (req : ResourceRequest) (s s' : E.platform.Fs) (response : T)
      → IsParty E.jose L cert private_key
      → Type 0
  IsExchange to_json stub of_json c cert private_key cm_private_key req s s' response me =
      (generate : Generator) × (report : Report) × (serialized : Bytes)
      × (enc_req : EncryptedRequest) × (status : GrpcStatus) × (enc_res : EncryptedResponse)
      × (plain : Str) × (E.tee ≡ some generate)
      × (E.codec.serialize_request req ≡ some serialized)
      × (generate (ra_params E.external ((cert ++ codes ".") ++ serialized)) ≡ ok report)
      × IsSealed E.platform E.jose L to_json
          (record { attestation_report = some report; cert = cert; resource_request = req })
          cm_private_key me.public enc_req
      × (stub c enc_req (E.remote.randomness s).1 ≡ ((status, enc_res), s'))
      × (enc_res.status.code ≡ code_ok)
      × (open_message E.platform E.jose enc_res.message private_key ≡ ok plain)
      × (of_json plain ≡ some response)

  exchanged :
      {T : Type 0} (to_json : KeyRequest → Option Str)
      (stub : Client
        → EncryptedRequest
        → E.platform.Fs
        → (GrpcStatus × EncryptedResponse) × E.platform.Fs)
      (of_json : Str → Option T) (empty : T) (c : Client)
      (plat cert private_key cm_private_key : Str) (req : ResourceRequest) (s s' : E.platform.Fs)
      (response : T) (me : IsParty E.jose L cert private_key)
      (cm : IsParty E.jose L c.capsule_manager_cert cm_private_key)
      → length (E.remote.randomness s).0.cek ≡ 16
      → plat ≢ tee_plat_sim
      → ask E to_json stub of_json empty c plat cert private_key req s ≡ (ok response, s')
      → IsExchange to_json stub of_json c cert private_key cm_private_key req s s' response me
  exchanged to_json stub of_json empty c plat cert private_key cm_private_key req s s' response me
        cm size real h =
      let (report, enc_res, e1, e2, e3) =
        asked E to_json stub of_json empty c plat cert private_key req s s' response h in
      let (generate, made_report, text, g1, g2, g3, g4) =
        attached E gcm L (cert ++ codes ".") (E.codec.serialize_request req) _ plat report real
          e1 in
      let (enc_req, status, sealed, called) =
        sent-IsSealed E gcm L to_json (stub c) _ c cert private_key cm_private_key
          (record { attestation_report = some made_report; cert = cert; resource_request = req }) s
          s' enc_res me cm size (rw g1 at e2) in
      let (plain, r1, r2, r3) = received E gcm L of_json empty response private_key enc_res e3 in
      (
        generate, made_report, text, enc_req, status, enc_res, plain, g2, g3, g4, sealed, called,
        r1, r2, r3,
      )

  abbrev pub IsKeyExchange :
      (c : Client) (cert private_key cm_private_key : Str) (req : ResourceRequest)
      (s s' : E.platform.Fs) (keys : List DataKey)
      → IsParty E.jose L cert private_key
      → Type 0
  IsKeyExchange =
      IsExchange E.codec.get_data_keys_to_json (λ c. E.remote.get_data_keys c.endpoint)
        E.codec.data_keys_of_json

  abbrev pub IsTlsExchange :
      (c : Client) (cert private_key cm_private_key : Str) (req : ResourceRequest)
      (s s' : E.platform.Fs) (asset : TlsAsset)
      → IsParty E.jose L cert private_key
      → Type 0
  IsTlsExchange =
      IsExchange E.codec.get_tls_asset_to_json (λ c. E.remote.get_tls_asset c.endpoint)
        E.codec.tls_asset_of_json

  -- If data keys are returned on a platform that is not simulated, then this was sent to the
  -- capsule manager: a request that opens with its private key, is signed with the sender's, and holds
  -- the resource request, the sender's certificate and a report over the hash of the two. The answer
  -- had status OK and opened with the sender's private key to the data keys.
  pub get_data_keys_sealed :
      (c : Client) (plat cert private_key cm_private_key : Str) (req : ResourceRequest)
      (s s' : E.platform.Fs) (keys : List DataKey) (me : IsParty E.jose L cert private_key)
      (cm : IsParty E.jose L c.capsule_manager_cert cm_private_key)
      → length (E.remote.randomness s).0.cek ≡ 16
      → plat ≢ tee_plat_sim
      → get_data_keys E c plat cert private_key req s ≡ (ok keys, s')
      → IsKeyExchange c cert private_key cm_private_key req s s' keys me
  unfolding get_data_keys
  get_data_keys_sealed c plat cert private_key cm_private_key req s s' keys me cm size real h =
      exchanged E.codec.get_data_keys_to_json (λ c. E.remote.get_data_keys c.endpoint)
        E.codec.data_keys_of_json [] c plat cert private_key cm_private_key req s s' keys me cm size
        real h

  -- If a TLS asset is returned on a platform that is not simulated, then a request was sent that the capsule
  -- manager's private key opens, that is signed with the sender's, and that holds the resource request, the sender's
  -- certificate and a report over the hash of the two. The answer had status OK and opened with the sender's private
  -- key to the asset.
  pub get_tls_asset_sealed :
      (c : Client) (plat cert private_key cm_private_key : Str) (req : ResourceRequest)
      (s s' : E.platform.Fs) (asset : TlsAsset) (me : IsParty E.jose L cert private_key)
      (cm : IsParty E.jose L c.capsule_manager_cert cm_private_key)
      → length (E.remote.randomness s).0.cek ≡ 16
      → plat ≢ tee_plat_sim
      → get_tls_asset E c plat cert private_key req s ≡ (ok asset, s')
      → IsTlsExchange c cert private_key cm_private_key req s s' asset me
  unfolding get_tls_asset
  get_tls_asset_sealed c plat cert private_key cm_private_key req s s' asset me cm size real h =
      exchanged E.codec.get_tls_asset_to_json (λ c. E.remote.get_tls_asset c.endpoint)
        E.codec.tls_asset_of_json no_asset c plat cert private_key cm_private_key req s s' asset me
        cm size real h

-- ===== src/Proxy/Client/Answers.antt =====
-- The client comes to an end with what the capsule manager answers.
use trustflow.Base.{
  ◌<◌, ◌≡◌, ◌++◌, [], arith, Bytes, Str, codes, length, ltb, lt→ltb, List, Option, some, true,
  false, str_eq, Bool-cases, inl, inr, ◌≢◌,
}
use trustflow.Error.{ok, with_value}
use trustflow.Action.{with_run}
use trustflow.Attestation.{Report}
use trustflow.CryptoUtil.Platform.{IsGcm}
use trustflow.Generation.Wrapper.{Generator}
use trustflow.Proxy.{RpcStatus, code_ok, tee_plat_sim}
use trustflow.Proxy.Ra.{ra_params}
use trustflow.Proxy.Jwe.{EncryptedRequest, EncryptedResponse, Randomness, gen_encrypted_request}
use trustflow.Proxy.Jwe.Laws.{IsJose}
use trustflow.Proxy.Jwe.RoundTrip.{IsSealed, parse_encrypted_response-gen_encrypted_request}
use trustflow.Proxy.Client.Messages.{
  ResourceRequest, DataKey, Body, GrpcStatus, Env, verify_sf_response_status, attach, receive,
}
use trustflow.Proxy.Client.Laws.{IsParty, attached, sent-IsSealed}
use trustflow.Proxy.Client.{Client, has_cert, send, get_data_keys, create_result_data_key}

module _ (E : Env) (gcm : IsGcm 16 E.platform.aes128_encrypt E.platform.aes128_decrypt)
    (L : IsJose E.jose) where
  -- If the client has the capsule manager's certificate, the request can be made, and the capsule
  -- manager answers with status OK and the data keys encrypted for the sender's certificate, then
  -- `GetDataKeys` returns these keys.
  pub get_data_keys_answered :
      (c : Client) (plat cert private_key cm_private_key cm_cert : Str) (req : ResourceRequest)
      (s s' : E.platform.Fs) (report : Option Report) (enc_req answer : EncryptedRequest)
      (grpc : GrpcStatus) (status : RpcStatus) (keys : List DataKey) (R : Randomness)
      (keys_to_json : List DataKey → Option Str) (me : IsParty E.jose L cert private_key)
      → 0 < length c.capsule_manager_cert
      → attach E
          (str_eq plat tee_plat_sim)
          (cert ++ codes ".")
          (E.codec.serialize_request req)
          "Serializing resource_req failed"
        ≡ ok report
      → gen_encrypted_request E.platform E.pem E.fuel E.jose E.codec.get_data_keys_to_json
          (E.remote.randomness s).0
          (record { attestation_report = report; cert = cert; resource_request = req })
          private_key
          cert
          c.capsule_manager_cert
          true
        ≡ ok enc_req
      → E.remote.get_data_keys c.endpoint enc_req (E.remote.randomness s).1
        ≡ ((grpc, record { status = status; message = answer.message }), s')
      → grpc.is_ok ≡ true
      → status.code ≡ code_ok
      → length R.cek ≡ 16
      → ((text : Str) → keys_to_json keys ≡ some text → E.codec.data_keys_of_json text ≡ some keys)
      → gen_encrypted_request E.platform E.pem E.fuel E.jose keys_to_json R keys cm_private_key
          cm_cert cert false
        ≡ ok answer
      → get_data_keys E c plat cert private_key req s ≡ (ok keys, s')
  unfolding get_data_keys has_cert send receive verify_sf_response_status
  get_data_keys_answered c plat cert private_key cm_private_key cm_cert req s s' report enc_req
        answer grpc status keys R keys_to_json me there e1 e2 e3 good good' size back e4 =
      let parsed =
        parse_encrypted_response-gen_encrypted_request E.platform gcm E.pem E.fuel E.jose L
          keys_to_json R keys cm_private_key cm_cert cert private_key me.public me.private
          E.codec.data_keys_of_json [] answer status back good' size me.loads_public
          me.loads_private me.is_pair e4 in
      let has = lt→ltb 0 (length c.capsule_manager_cert) there in
      simp (has, e1, e2, e3, good, parsed, good')

  created_parts :
      (c : Client) (plat cert private_key : Str) (body : Body) (s s' : E.platform.Fs)
      → create_result_data_key E c plat cert private_key body s ≡ (ok tt, s')
      → (report : Option Report) × (enc_res : EncryptedResponse) × (attach E
            (str_eq plat tee_plat_sim)
            []
            (E.codec.serialize_body body)
            "Serializing CreateResultDataKeyRequest body failed"
          ≡ ok report)
        × (send E E.codec.create_to_json
              (E.remote.create_result_data_key c.endpoint)
              "Calling CreateResultDataKey failed, error code: {}, message: {}"
              c
              cert
              private_key
              (record { attestation_report = report; body = body })
              s
            ≡ (ok enc_res, s'))
        × (enc_res.status.code ≡ code_ok)
  unfolding create_result_data_key has_cert verify_sf_response_status
  created_parts c plat cert private_key body s s' h =
      elim (Bool-cases (ltb 0 (length c.capsule_manager_cert))) [
        | inl there ↦
            with_value
              (attach E (str_eq plat tee_plat_sim) [] (E.codec.serialize_body body)
                "Serializing CreateResultDataKeyRequest body failed")
              (λ x e. ground arith) (λ e. ground arith)
              λ report e.
                (with_run
                  (send E E.codec.create_to_json (E.remote.create_result_data_key c.endpoint)
                    "Calling CreateResultDataKey failed, error code: {}, message: {}" c cert
                    private_key (record { attestation_report = report; body = body }) s)
                  (λ x t f. ground arith) (λ t f. ground arith)
                  λ enc_res t f. (report, enc_res, e, ground arith, ground arith))
        | inr missing ↦ absurd (ground arith)
      ]

  -- What a call that registered the key of the body did.
  abbrev pub IsKeyCreation :
      (c : Client) (cert private_key cm_private_key : Str) (body : Body) (s s' : E.platform.Fs)
      → IsParty E.jose L cert private_key
      → Type 0
  IsKeyCreation c cert private_key cm_private_key body s s' me =
      (generate : Generator) × (report : Report) × (serialized : Bytes)
      × (enc_req : EncryptedRequest) × (grpc : GrpcStatus) × (enc_res : EncryptedResponse) × (E.tee
          ≡ some generate)
      × (E.codec.serialize_body body ≡ some serialized)
      × (generate (ra_params E.external serialized) ≡ ok report)
      × IsSealed E.platform E.jose L E.codec.create_to_json
          (record { attestation_report = some report; body = body }) cm_private_key me.public
          enc_req
      × (E.remote.create_result_data_key c.endpoint enc_req (E.remote.randomness s).1
          ≡ ((grpc, enc_res), s'))
      × (enc_res.status.code ≡ code_ok)

  -- If `CreateResultDataKey` succeeds on a platform that is not simulated, then this was sent to the
  -- capsule manager: a request that opens with its private key, is signed with the sender's, and
  -- holds the body and a report over the hash of the body. The answer had status OK.
  pub create_result_data_key_sealed :
      (c : Client) (plat cert private_key cm_private_key : Str) (body : Body) (s s' : E.platform.Fs)
      (me : IsParty E.jose L cert private_key)
      (cm : IsParty E.jose L c.capsule_manager_cert cm_private_key)
      → length (E.remote.randomness s).0.cek ≡ 16
      → plat ≢ tee_plat_sim
      → create_result_data_key E c plat cert private_key body s ≡ (ok tt, s')
      → IsKeyCreation c cert private_key cm_private_key body s s' me
  create_result_data_key_sealed c plat cert private_key cm_private_key body s s' me cm size real h =
      let (report, enc_res, e1, e2, e3) = created_parts c plat cert private_key body s s' h in
      let (generate, made_report, text, g1, g2, g3, g4) =
        attached E gcm L [] (E.codec.serialize_body body) _ plat report real e1 in
      let (enc_req, grpc, sealed, called) =
        sent-IsSealed E gcm L E.codec.create_to_json (E.remote.create_result_data_key c.endpoint) _
          c cert private_key cm_private_key
          (record { attestation_report = some made_report; body = body }) s s' enc_res me cm size
          (rw g1 at e2) in
      (generate, made_report, text, enc_req, grpc, enc_res, g2, g3, g4, sealed, called, e3)

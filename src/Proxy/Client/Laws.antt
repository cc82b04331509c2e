-- ===== src/Proxy/Client/Laws.antt =====
-- What leaves the client, and what it gives back.
use trustflow.Base.{
  ◌≡◌, ◌≢◌, refl, arith, ◌++◌, Bytes, Str, String, length, Option, some, none, true, ◌==◌,
  Bool-cases, inl, inr, str_eq, str_eq_of_ne,
}
use trustflow.Error.{ok, with_value}
use trustflow.Attestation.{Report, json2pb}
use trustflow.CryptoUtil.Platform.{IsGcm}
use trustflow.Generation.Wrapper.{Generator}
use trustflow.Proxy.{code_ok, tee_plat_sim}
use trustflow.Proxy.Ra.{ra_params, gen_ra_report}
use trustflow.Proxy.Ra.Laws.{made}
use trustflow.Proxy.Jwe.{
  Jose, EncryptedRequest, EncryptedResponse, open_message, gen_encrypted_request,
  parse_encrypted_response,
}
use trustflow.Proxy.Jwe.Cert.{not_null}
use trustflow.Proxy.Jwe.Laws.{IsJose}
use trustflow.Proxy.Jwe.RoundTrip.{IsSealed, signed_request_opened}
use trustflow.Proxy.Client.Messages.{GrpcStatus, Env, verify_sf_response_status, attach, receive}
use trustflow.Proxy.Client.{Client, send}

json_parsed :
    {M : Type 0} (convert : Str → Option M) (m : M) (s : Str)
    → json2pb convert s ≡ ok m
    → convert s ≡ some m
unfolding json2pb
json_parsed convert m s h = ground arith

-- A certificate and the private key of its public key.
pub record IsParty (J : Jose) (L : IsJose J) (cert private_key : Str) : Type 0 where
  pub public : J.PublicKey
  pub private : J.PrivateKey
  pub loads_public : J.load_cert_public_key cert ≡ ok public
  pub loads_private : J.load_pem_key private_key ≡ ok private
  pub is_pair : L.IsPair public private

module _ {T : Type 0} (E : Env) (to_json : T → Option Str)
    (stub : EncryptedRequest → E.platform.Fs → (GrpcStatus × EncryptedResponse) × E.platform.Fs)
    (template : String) (c : Client) (cert private_key : Str) (request : T)
    (s : E.platform.Fs) where
  -- What is sent is the encrypted request, and the call succeeds.
  sent :
      (enc_res : EncryptedResponse) (s' : E.platform.Fs)
      → send E to_json stub template c cert private_key request s ≡ (ok enc_res, s')
      → (enc_req : EncryptedRequest) × (status : GrpcStatus) × (gen_encrypted_request E.platform
            E.pem E.fuel E.jose to_json
            (E.remote.randomness s).0
            request
            private_key
            cert
            c.capsule_manager_cert
            true
          ≡ ok enc_req)
        × (stub enc_req (E.remote.randomness s).1 ≡ ((status, enc_res), s'))
  unfolding send
  sent enc_res s' h =
      with_value
        (gen_encrypted_request E.platform E.pem E.fuel E.jose to_json (E.remote.randomness s).0
          request private_key cert c.capsule_manager_cert true)
        (λ x e. ground arith) (λ e. ground arith)
        λ enc_req e. (enc_req, (stub enc_req (E.remote.randomness s).1).0.0, e, ground arith)

module _ (E : Env) (gcm : IsGcm 16 E.platform.aes128_encrypt E.platform.aes128_decrypt)
    (L : IsJose E.jose) where
  -- An answer is received if its status is OK, it opens, and its text is that of a response.
  pub received :
      {T : Type 0} (of_json : Str → Option T) (empty response : T) (private_key : Str)
      (enc_res : EncryptedResponse)
      → receive E of_json empty private_key enc_res ≡ ok response
      → (plain : Str) × (enc_res.status.code ≡ code_ok)
        × (open_message E.platform E.jose enc_res.message private_key ≡ ok plain)
        × (of_json plain ≡ some response)
  unfolding receive parse_encrypted_response verify_sf_response_status
  received of_json empty response private_key enc_res h =
      elim (Bool-cases (enc_res.status.code == 0)) [
        | inl good ↦
            with_value (open_message E.platform E.jose enc_res.message private_key)
              (λ x e. ground arith) (λ e. ground arith)
              λ plain e.
                (with_value (json2pb of_json plain) (λ x f. ground arith) (λ f. ground arith)
                  λ answer f.
                    (plain, ground arith, e, json_parsed of_json response plain (ground arith)))
        | inr bad ↦ absurd (ground arith)
      ]

  -- What is sent is sealed for the capsule manager.
  pub sent-IsSealed :
      {T : Type 0} (to_json : T → Option Str)
      (stub : EncryptedRequest → E.platform.Fs → (GrpcStatus × EncryptedResponse) × E.platform.Fs)
      (template : String) (c : Client) (cert private_key cm_private_key : Str) (request : T)
      (s s' : E.platform.Fs) (enc_res : EncryptedResponse) (me : IsParty E.jose L cert private_key)
      (cm : IsParty E.jose L c.capsule_manager_cert cm_private_key)
      → length (E.remote.randomness s).0.cek ≡ 16
      → send E to_json stub template c cert private_key request s ≡ (ok enc_res, s')
      → (enc_req : EncryptedRequest) × (status : GrpcStatus) × IsSealed E.platform E.jose L to_json
          request cm_private_key me.public enc_req
        × (stub enc_req (E.remote.randomness s).1 ≡ ((status, enc_res), s'))
  sent-IsSealed to_json stub template c cert private_key cm_private_key request s s' enc_res me cm
        size h =
      let (enc_req, status, e, f) =
        sent E to_json stub template c cert private_key request s enc_res s' h in
      (
        enc_req,
        status,
        signed_request_opened E.platform gcm E.pem E.fuel E.jose L to_json (E.remote.randomness s).0
            request private_key cert c.capsule_manager_cert cm_private_key cm.public cm.private
            me.public me.private enc_req size cm.loads_public cm.loads_private cm.is_pair
            me.loads_private me.is_pair e,
        f,
      )

  -- The report that is attached on a real platform.
  pub attached :
      (front : Str) (serialized : Option Bytes) (template : String) (plat : Str)
      (report : Option Report)
      → plat ≢ tee_plat_sim
      → attach E (str_eq plat tee_plat_sim) front serialized template ≡ ok report
      → (generate : Generator) × (made_report : Report) × (text : Bytes) × (report
          ≡ some made_report)
        × (E.tee ≡ some generate)
        × (serialized ≡ some text)
        × (generate (ra_params E.external (front ++ text)) ≡ ok made_report)
  unfolding attach not_null
  attached front none template plat report real h =
      let not_sim = str_eq_of_ne plat tee_plat_sim real in absurd (ground arith)
  attached front (some text) template plat report real h =
      let not_sim = str_eq_of_ne plat tee_plat_sim real in
      with_value (gen_ra_report E.external E.tee (front ++ text)) (λ x e. ground arith)
        (λ e. ground arith)
        λ made_report e.
          (let (generate, t, g) = made E.external E.tee (front ++ text) made_report e in
            (generate, made_report, text, ground arith, t, refl, g))

-- ===== src/Proxy/Jwe/RoundTrip.antt =====
-- What is encrypted for a party is read by it.
use trustflow.Base.{
  ℕ, ◌≡◌, ◌++◌, Bool, true, false, Option, some, [], ◌∷◌, Bytes, Str, length, arith,
}
use trustflow.Error.{ok, with_value}
use trustflow.Attestation.{json2pb, pb2json}
use trustflow.CryptoUtil.Platform.{Platform, IsGcm}
use trustflow.Proxy.{RpcStatus, code_ok}
use trustflow.Proxy.Jwe.{
  Jose, Jws, rs256, EncryptedRequest, Randomness, make_jws, plain_text, gen_encrypted_request,
  open_message, parse_encrypted_response, jws_concat_delimiter,
}
use trustflow.Proxy.Jwe.Cert.{Pem, x509_cert_pem_to_der}
use trustflow.Proxy.Jwe.Laws.{IsJose, json_made, json_read, opened, generated}

module _ (P : Platform) (C : Pem) (fuel : ℕ) (J : Jose) (L : IsJose J)
    (request_str private_key cert : Str) where
  jws_signed :
      (sender : J.PublicKey) (sender_private : J.PrivateKey) (jws : Jws)
      → J.load_pem_key private_key ≡ ok sender_private
      → L.IsPair sender sender_private
      → make_jws P C fuel J request_str private_key cert ≡ ok jws
      → (sig : Bytes) × (J.base64_url_decode jws.payload ≡ ok request_str)
        × (J.base64_url_decode jws.signature ≡ ok sig)
        × L.IsSignature sender (jws.protected_header ++ (jws_concat_delimiter ++ jws.payload)) sig
  unfolding make_jws
  jws_signed sender sender_private jws e3 own h =
      with_value (x509_cert_pem_to_der C fuel cert) (λ x e. ground arith) (λ e. ground arith)
        λ der d1.
          with_value
            (pb2json J.jws_header_to_json (record { alg = rs256; x5c = J.base64_encode der ∷ [] }))
            (λ x e. ground arith) (λ e. ground arith)
            λ header d2.
              with_value
                (J.rsa_sign sender_private (
                  J.base64_url_encode header
                  ++ (jws_concat_delimiter ++ J.base64_url_encode request_str)))
                (λ x e. ground arith) (λ e. ground arith)
                λ sig d3.
                  (let payload : jws.payload ≡ J.base64_url_encode request_str = ground arith in
                    let front : jws.protected_header ≡ J.base64_url_encode header = ground arith in
                    let signature : jws.signature ≡ J.base64_url_encode sig = ground arith in
                    (
                      sig,
                      rw payload (L.base64_url_decode-encode request_str),
                      rw signature (L.base64_url_decode-encode sig),
                      rw (payload, front)
                          (L.rsa_sign-IsSignature sender sender_private _ sig own d3),
                    ))

-- Whoever has the private key finds the request, signed with the sender's key, in the message.
abbrev pub IsSealed :
    {T : Type 0} (P : Platform) (J : Jose) (L : IsJose J)
    → (T → Option Str)
    → T
    → Str
    → J.PublicKey
    → EncryptedRequest
    → Type 0
IsSealed P J L to_json request private_key sender enc_req =
    (request_str : Str) × (jws_str : Str) × (jws : Jws) × (sig : Bytes) × (to_json request
      ≡ some request_str)
    × (open_message P J enc_req.message private_key ≡ ok jws_str)
    × (J.jws_to_json jws ≡ some jws_str)
    × (J.base64_url_decode jws.payload ≡ ok request_str)
    × (J.base64_url_decode jws.signature ≡ ok sig)
    × L.IsSignature sender (jws.protected_header ++ (jws_concat_delimiter ++ jws.payload)) sig

module _ {T : Type 0} (P : Platform) (gcm : IsGcm 16 P.aes128_encrypt P.aes128_decrypt) (C : Pem)
    (fuel : ℕ) (J : Jose) (L : IsJose J) (to_json : T → Option Str) (R : Randomness) (request : T)
    (private_key cert peer_cert : Str) (peer_private_key : Str) (peer : J.PublicKey)
    (peer_private : J.PrivateKey) where
  -- The owner of the peer's private key opens the message, to what was encrypted.
  pub open_message-gen_encrypted_request :
      (has_signature : Bool) (r : EncryptedRequest)
      → length R.cek ≡ 16
      → J.load_cert_public_key peer_cert ≡ ok peer
      → J.load_pem_key peer_private_key ≡ ok peer_private
      → L.IsPair peer peer_private
      → gen_encrypted_request P C fuel J to_json R request private_key cert peer_cert has_signature
        ≡ ok r
      → (request_str : Str) × (plain : Str) × (to_json request ≡ some request_str)
        × (plain_text P C fuel J has_signature request_str private_key cert ≡ ok plain)
        × (open_message P J r.message peer_private_key ≡ ok plain)
  open_message-gen_encrypted_request has_signature r size e1 e2 pair h =
      let (request_str, header, plain, peer', encrypted_key, g1, g2, g3, g4, g5, g6) =
        generated P C fuel J to_json R request private_key cert peer_cert has_signature r h in
      let same : peer' ≡ peer = ground arith in
      (
        request_str,
        plain,
        json_made to_json request request_str g1,
        g5,
        rw g6 (
            opened P gcm J L R header peer peer_private peer_private_key encrypted_key plain size
              (json_made _ _ header g2) (rw same at g4) e2 pair),
      )

  -- A request without a signature: a response with the same message and status OK is parsed to the
  -- request.
  pub parse_encrypted_response-gen_encrypted_request :
      (of_json : Str → Option T) (empty : T) (r : EncryptedRequest) (status : RpcStatus)
      → ((s : Str) → to_json request ≡ some s → of_json s ≡ some request)
      → status.code ≡ code_ok
      → length R.cek ≡ 16
      → J.load_cert_public_key peer_cert ≡ ok peer
      → J.load_pem_key peer_private_key ≡ ok peer_private
      → L.IsPair peer peer_private
      → gen_encrypted_request P C fuel J to_json R request private_key cert peer_cert false ≡ ok r
      → parse_encrypted_response P J of_json empty
          (record { status = status; message = r.message })
          peer_private_key
        ≡ ok (status, request)
  unfolding parse_encrypted_response plain_text
  parse_encrypted_response-gen_encrypted_request of_json empty r status back good size e1 e2 pair
        h =
      let (request_str, plain, g1, g2, g3) =
        open_message-gen_encrypted_request false r size e1 e2 pair h in
      let same : request_str ≡ plain = ground arith in
      let read : json2pb of_json plain ≡ ok request =
        json_read of_json request plain (back plain (rw same at g1)) in
      simp (good, g3, read)

  -- A signed request: the peer finds the JSON text of the request as the payload of a JWS whose
  -- signature over header, dot and payload verifies with the sender's public key.
  pub signed_request_opened :
      (sender : J.PublicKey) (sender_private : J.PrivateKey) (r : EncryptedRequest)
      → length R.cek ≡ 16
      → J.load_cert_public_key peer_cert ≡ ok peer
      → J.load_pem_key peer_private_key ≡ ok peer_private
      → L.IsPair peer peer_private
      → J.load_pem_key private_key ≡ ok sender_private
      → L.IsPair sender sender_private
      → gen_encrypted_request P C fuel J to_json R request private_key cert peer_cert true ≡ ok r
      → IsSealed P J L to_json request peer_private_key sender r
  unfolding plain_text
  signed_request_opened sender sender_private r size e1 e2 pair e3 own h =
      let (request_str, plain, g1, g2, g3) =
        open_message-gen_encrypted_request true r size e1 e2 pair h in
      with_value (make_jws P C fuel J request_str private_key cert) (λ x e. ground arith)
        (λ e. ground arith)
        λ jws e.
          (let (sig, s1, s2, s3) =
              jws_signed P C fuel J L request_str private_key cert sender sender_private jws e3 own
                e in
            (
              request_str,
              plain,
              jws,
              sig,
              g1,
              g3,
              json_made J.jws_to_json jws plain (ground arith),
              s1,
              s2,
              s3,
            ))

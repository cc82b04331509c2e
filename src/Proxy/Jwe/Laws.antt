-- ===== src/Proxy/Jwe/Laws.antt =====
-- What is taken from the libraries, and the parts of an encrypted request.
use trustflow.Base.{ℕ, ◌≡◌, Bool, Option, some, [], Bytes, Str, length, arith}
use trustflow.Error.{ok, with_value}
use trustflow.Attestation.{json2pb, pb2json}
use trustflow.CryptoUtil.Platform.{Platform, IsGcm}
use trustflow.Proxy.Jwe.{
  Jose, JweHeader, Jwe, EncryptedRequest, Randomness, rsa_oaep, aes128_gcm, plain_text,
  gen_encrypted_request, open_message,
}
use trustflow.Proxy.Jwe.Cert.{Pem}

-- The documented behaviour.
pub record IsJose (J : Jose) : Type 1 where
  pub base64_url_decode-encode : (b : Bytes) → J.base64_url_decode (J.base64_url_encode b) ≡ ok b
  pub base64_url_encode_empty : J.base64_url_encode [] ≡ []
  -- A public key and its private key.
  pub IsPair : J.PublicKey → J.PrivateKey → Type 0
  pub rsa_decrypt-encrypt :
      (padding : Bytes) (k : J.PublicKey) (p : J.PrivateKey) (text cipher : Bytes)
      → IsPair k p
      → J.rsa_encrypt padding k text ≡ ok cipher
      → J.rsa_decrypt p cipher ≡ ok text
  -- A signature that verifies.
  pub IsSignature : J.PublicKey → Bytes → Bytes → Type 0
  pub rsa_sign-IsSignature :
      (k : J.PublicKey) (p : J.PrivateKey) (text sig : Bytes)
      → IsPair k p
      → J.rsa_sign p text ≡ ok sig
      → IsSignature k text sig
  pub jwe_header_of_json-to_json :
      (h : JweHeader) (s : Str) → J.jwe_header_to_json h ≡ some s → J.jwe_header_of_json s ≡ some h

pub json_made :
    {M : Type 0} (convert : M → Option Str) (m : M) (s : Str)
    → pb2json convert m ≡ ok s
    → convert m ≡ some s
unfolding pb2json
json_made convert m s h = ground arith

pub json_read :
    {M : Type 0} (convert : Str → Option M) (m : M) (s : Str)
    → convert s ≡ some m
    → json2pb convert s ≡ ok m
unfolding json2pb
json_read convert m s h = ground arith

-- The message that has these parts.
abbrev pub sealed_message : Platform → (J : Jose) → Randomness → Str → Bytes → Str → Jwe
sealed_message P J R header encrypted_key plain = record {
  protected_header = J.base64_url_encode header;
  encrypted_key = J.base64_url_encode encrypted_key;
  iv = J.base64_url_encode R.iv;
  ciphertext = J.base64_url_encode (P.aes128_encrypt R.cek R.iv plain (J.base64_url_encode [])).0;
  tag = J.base64_url_encode (P.aes128_encrypt R.cek R.iv plain (J.base64_url_encode [])).1;
  aad = J.base64_url_encode [];
}

module _ (P : Platform) (gcm : IsGcm 16 P.aes128_encrypt P.aes128_decrypt) (J : Jose)
    (L : IsJose J) where
  -- A message that is made of encrypted parts is opened with the private key.
  pub opened :
      (R : Randomness) (header : Str) (peer : J.PublicKey) (private : J.PrivateKey)
      (private_key : Str) (encrypted_key : Bytes) (plain : Str)
      → length R.cek ≡ 16
      → J.jwe_header_to_json (record { alg = rsa_oaep; enc = aes128_gcm }) ≡ some header
      → J.rsa_encrypt R.padding peer R.cek ≡ ok encrypted_key
      → J.load_pem_key private_key ≡ ok private
      → L.IsPair peer private
      → open_message P J (sealed_message P J R header encrypted_key plain) private_key ≡ ok plain
  unfolding open_message
  opened R header peer private private_key encrypted_key plain size e1 e2 e3 pair =
      let back = L.base64_url_decode-encode in
      let head : json2pb J.jwe_header_of_json header
          ≡ ok record { alg = rsa_oaep; enc = aes128_gcm } =
        json_read J.jwe_header_of_json _ header (L.jwe_header_of_json-to_json _ header e1) in
      let cek = L.rsa_decrypt-encrypt R.padding peer private R.cek encrypted_key pair e2 in
      simp (back, head, e3, cek)
        (rw L.base64_url_encode_empty (gcm.decrypt-encrypt R.cek R.iv plain [] size))

module _ {T : Type 0} (P : Platform) (C : Pem) (fuel : ℕ) (J : Jose) (to_json : T → Option Str)
    (R : Randomness) (request : T) (private_key cert peer_cert : Str) (has_signature : Bool) where
  -- The parts of a request.
  pub generated :
      (r : EncryptedRequest)
      → gen_encrypted_request P C fuel J to_json R request private_key cert peer_cert has_signature
        ≡ ok r
      → (request_str : Str) × (header : Str) × (plain : Str) × (peer : J.PublicKey)
        × (encrypted_key : Bytes) × (pb2json to_json request ≡ ok request_str)
        × (pb2json J.jwe_header_to_json (record { alg = rsa_oaep; enc = aes128_gcm }) ≡ ok header)
        × (J.load_cert_public_key peer_cert ≡ ok peer)
        × (J.rsa_encrypt R.padding peer R.cek ≡ ok encrypted_key)
        × (plain_text P C fuel J has_signature request_str private_key cert ≡ ok plain)
        × (r.message ≡ sealed_message P J R header encrypted_key plain)
  unfolding gen_encrypted_request
  generated r h =
      with_value (pb2json to_json request) (λ x e. ground arith) (λ e. ground arith)
        λ request_str e1.
          with_value (pb2json J.jwe_header_to_json (record { alg = rsa_oaep; enc = aes128_gcm }))
            (λ x e. ground arith) (λ e. ground arith)
            λ header e2.
              with_value (J.load_cert_public_key peer_cert) (λ x e. ground arith)
                (λ e. ground arith)
                λ peer e3.
                  with_value (J.rsa_encrypt R.padding peer R.cek) (λ x e. ground arith)
                    (λ e. ground arith)
                    λ encrypted_key e4.
                      with_value (plain_text P C fuel J has_signature request_str private_key cert)
                        (λ x e. ground arith) (λ e. ground arith)
                        λ plain e5. (
                          request_str,
                          header,
                          plain,
                          peer,
                          encrypted_key,
                          e1,
                          e2,
                          e3,
                          e4,
                          e5,
                          ground arith,
                        )

-- ===== src/Proxy/Jwe.antt =====
-- utils/crypto_util.h: requests and responses of the capsule manager, encrypted as JWE.
pub mod Cert
pub mod Laws
pub mod RoundTrip
use trustflow.Base.{
  ℕ, ◌==◌, not, Bool, true, false, Option, List, [], ◌∷◌, ◌++◌, Bytes, Str, codes, if◌then◌else◌,
}
use trustflow.Error.{Result, ok, ◌>>=◌, ◌>>◌}
use trustflow.External.{External}
use trustflow.Attestation.{json2pb, pb2json}
use trustflow.CryptoUtil.Platform.{Platform}
use trustflow.Proxy.{RpcStatus, code_ok}
use Cert.{Pem, x509_cert_pem_to_der}

-- `secretflowapis::v2::sdc::Jwe` and its `JoseHeader`
pub record JweHeader : Type 0 where
  pub alg : Str
  pub enc : Str

pub record Jwe : Type 0 where
  pub protected_header : Str
  pub encrypted_key : Str
  pub iv : Str
  pub ciphertext : Str
  pub tag : Str
  pub aad : Str

-- `secretflowapis::v2::sdc::Jws` and its `JoseHeader`
pub record JwsHeader : Type 0 where
  pub alg : Str
  pub x5c : List Str

pub record Jws : Type 0 where
  pub protected_header : Str
  pub payload : Str
  pub signature : Str

-- The header of a request is left as it is made.
pub record EncryptedRequest : Type 0 where
  pub has_signature : Bool
  pub message : Jwe

pub record EncryptedResponse : Type 0 where
  pub status : RpcStatus
  pub message : Jwe

abbrev pub rs256 : Str
rs256 = codes "RS256"

abbrev pub rsa_oaep : Str
rsa_oaep = codes "RSA-OAEP"

abbrev pub aes128_gcm : Str
aes128_gcm = codes "A128GCM"

abbrev pub jws_concat_delimiter : Str
jws_concat_delimiter = codes "."

-- What is taken from cppcodec, from yacl (keys and RSA) and from protobuf.
pub record Jose : Type 1 where
  pub base64_url_encode : Bytes → Str
  pub base64_url_decode : Str → Result Bytes
  pub base64_encode : Bytes → Str
  pub base64_decode : Str → Result Bytes
  pub PublicKey : Type 0
  pub PrivateKey : Type 0
  pub load_cert_public_key : Str → Result PublicKey
  pub load_pem_key : Str → Result PrivateKey
  -- `RsaEncryptor` with the randomness of its padding.
  pub rsa_encrypt : Bytes → PublicKey → Bytes → Result Bytes
  pub rsa_decrypt : PrivateKey → Bytes → Result Bytes
  pub rsa_sign : PrivateKey → Bytes → Result Bytes
  -- `ExportPublicKeyToDerBuf` and `base32_rfc4648_unpadded`
  pub public_key_to_der : PublicKey → Result Bytes
  pub base32_encode : Bytes → Str
  pub jwe_header_to_json : JweHeader → Option Str
  pub jwe_header_of_json : Str → Option JweHeader
  pub jws_header_to_json : JwsHeader → Option Str
  pub jws_to_json : Jws → Option Str

-- The calls of `RandBytes` for the content key and the initialization vector, and the padding's.
pub record Randomness : Type 0 where
  pub cek : Bytes
  pub iv : Bytes
  pub padding : Bytes

-- crypto_util.cc: the identity of the party that has the certificate.
unfoldable pub generate_party_id : External → Jose → Str → Result Str
generate_party_id X J pem_cert = do
  public_key ← J.load_cert_public_key pem_cert
  public_key_der ← J.public_key_to_der public_key
  ok (J.base32_encode (X.sha256 public_key_der))

module _ (P : Platform) (C : Pem) (fuel : ℕ) (J : Jose) where
  -- The signature over the request, with the certificate of the signer.
  unfoldable pub make_jws : Str → Str → Str → Result Jws
  make_jws request_str private_key cert = do
    der ← x509_cert_pem_to_der C fuel cert
    jws_header_str ←
        pb2json J.jws_header_to_json (record { alg = rs256; x5c = J.base64_encode der ∷ [] })
    let protected_header = J.base64_url_encode jws_header_str
    let payload = J.base64_url_encode request_str
    key ← J.load_pem_key private_key
    sig ← J.rsa_sign key (protected_header ++ (jws_concat_delimiter ++ payload))
    ok record {
      protected_header = protected_header;
      payload = payload;
      signature = J.base64_url_encode sig;
    }

  -- What is encrypted: the request, or its signature that holds it.
  unfoldable pub plain_text : Bool → Str → Str → Str → Result Str
  plain_text false request_str private_key cert = ok request_str
  plain_text true request_str private_key cert = do
    jws ← make_jws request_str private_key cert
    pb2json J.jws_to_json jws

  unfoldable pub gen_encrypted_request :
      {T : Type 0}
      → (T → Option Str)
      → Randomness
      → T
      → Str
      → Str
      → Str
      → Bool
      → Result EncryptedRequest
  gen_encrypted_request to_json R request private_key cert peer_cert has_signature = do
    request_str ← pb2json to_json request
    jwe_header_str ← pb2json J.jwe_header_to_json (record { alg = rsa_oaep; enc = aes128_gcm })
    peer_key ← J.load_cert_public_key peer_cert
    encrypted_key ← J.rsa_encrypt R.padding peer_key R.cek
    let aad_b64 = J.base64_url_encode []
    plain ← plain_text has_signature request_str private_key cert
    let (cipher, tag) = P.aes128_encrypt R.cek R.iv plain aad_b64
    ok record {
      has_signature = has_signature;
      message = record {
        protected_header = J.base64_url_encode jwe_header_str;
        encrypted_key = J.base64_url_encode encrypted_key;
        iv = J.base64_url_encode R.iv;
        ciphertext = J.base64_url_encode cipher;
        tag = J.base64_url_encode tag;
        aad = aad_b64;
      };
    }

module _ (P : Platform) (J : Jose) where
  -- The text inside a message, for the owner of the private key.
  unfoldable pub open_message : Jwe → Str → Result Str
  open_message jwe private_key = do
    header ← J.base64_url_decode jwe.protected_header
    jwe_header ← json2pb J.jwe_header_of_json header
    encrypted_key ← J.base64_url_decode jwe.encrypted_key
    iv ← J.base64_url_decode jwe.iv
    cipher ← J.base64_url_decode jwe.ciphertext
    tag ← J.base64_url_decode jwe.tag
    aad ← J.base64_url_decode jwe.aad
    key ← J.load_pem_key private_key
    cek ← J.rsa_decrypt key encrypted_key
    P.aes128_decrypt cek iv cipher aad tag

  -- `empty` is the response as it is constructed.
  unfoldable pub parse_encrypted_response :
      {T : Type 0} → (Str → Option T) → T → EncryptedResponse → Str → Result (RpcStatus × T)
  parse_encrypted_response of_json empty enc_res private_key =
      let opened = (do
        plain ← open_message enc_res.message private_key
        response ← json2pb of_json plain
        ok (enc_res.status, response)) in
      if enc_res.status.code == code_ok then opened else ok (enc_res.status, empty)

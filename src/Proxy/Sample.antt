-- ===== src/Proxy/Sample.antt =====
-- Concrete libraries that behave as documented: texts are their own encoding, a key fits every lock.
use trustflow.Base.{
  true, ◌≡◌, refl, sym, ap, arith, Option, some, none, List, [], ◌∷◌, ◌++◌, Bytes, Str, codes,
  length, take, drop, replicate, take-append-drop, length-take, take-append, drop-append,
}
use trustflow.Error.{ok}
use trustflow.External.Sample.{sample}
use trustflow.Attestation.{Report}
use trustflow.CryptoUtil.Platform.{Platform}
use trustflow.Proxy.{success_status}
use trustflow.Proxy.Client.Messages.{no_asset, DataKey, GrpcStatus, Remote, Codec, Env}
use trustflow.Proxy.Jwe.{Jose, Randomness, JweHeader, Jwe}
use trustflow.Proxy.Jwe.Laws.{IsJose}
use trustflow.Proxy.Jwe.Cert.{Pem, IsPem}

abbrev pub plain_pem : Pem
plain_pem = record {
  X509 = Str;
  Bio = Bytes;
  bio_new_mem_buf = some;
  pem_read_bio_x509 = some;
  bio_new = some [];
  i2d_x509_bio = λ b cert. some cert;
  bio_read = λ b n. (take n b, drop n b);
}

abbrev pub plain_pem-IsPem : IsPem plain_pem
plain_pem-IsPem = record {
  Holds = λ text b. b ≡ text;
  bio_read-holds = λ b text size e. (
    drop size b,
    rw (← e) (sym (take-append-drop size b)),
    omega (arith, length-take size b),
    refl,
    λ room there. omega (arith, length-take size b, ap length e),
  );
}

-- The two texts, with the length of the first in front.
abbrev header_text : JweHeader → Option Str
header_text h = some (length h.alg ∷ (h.alg ++ h.enc))

abbrev header_of : Str → Option JweHeader
header_of [] = none
header_of (n ∷ s) = some record { alg = take n s; enc = drop n s }

header_back : (h : JweHeader) → header_of (length h.alg ∷ (h.alg ++ h.enc)) ≡ some h
header_back h = rw (take-append h.alg h.enc, drop-append h.alg h.enc)

pub header_of-header_text :
    (h : JweHeader) (s : Str) → header_text h ≡ some s → header_of s ≡ some h
header_of-header_text h s e =
    let same : length h.alg ∷ (h.alg ++ h.enc) ≡ s = cc in rw (← same) (header_back h)

abbrev pub plain_jose : Jose
plain_jose = record {
  base64_url_encode = λ b. b;
  base64_url_decode = ok;
  base64_encode = λ b. b;
  base64_decode = ok;
  PublicKey = Str;
  PrivateKey = Str;
  load_cert_public_key = ok;
  load_pem_key = ok;
  rsa_encrypt = λ padding k text. ok text;
  rsa_decrypt = λ p cipher. ok cipher;
  rsa_sign = λ p text. ok text;
  public_key_to_der = ok;
  base32_encode = λ b. b;
  jwe_header_to_json = header_text;
  jwe_header_of_json = header_of;
  jws_header_to_json = λ h. some h.alg;
  jws_to_json = λ jws. some jws.payload;
}

abbrev pub plain_jose-IsJose : IsJose plain_jose
plain_jose-IsJose = record {
  base64_url_decode-encode = λ b. refl;
  base64_url_encode_empty = refl;
  IsPair = λ k p. Unit;
  rsa_decrypt-encrypt = λ padding k p text cipher pair e. sym e;
  IsSignature = λ k text sig. sig ≡ text;
  rsa_sign-IsSignature = λ k p text sig pair e. cc;
  jwe_header_of_json-to_json = header_of-header_text;
}

abbrev pub random : Randomness
random = record { cek = replicate 16 5; iv = replicate 12 6; padding = [] }

abbrev pub report : Report
report = record {
  str_report_version = [];
  str_report_type = [];
  str_tee_platform = [];
  json_report = [];
}

abbrev pub keys : List DataKey
keys = record { resource_uri = codes "r"; data_key_b64 = replicate 16 7 } ∷ []

-- The message with a text inside.
abbrev pub message_with : Str → Jwe
message_with text = record {
  protected_header = 8 ∷ codes "RSA-OAEPA128GCM";
  encrypted_key = replicate 16 5;
  iv = replicate 12 6;
  ciphertext = text;
  tag = replicate 16 0;
  aad = [];
}

abbrev pub fine : GrpcStatus
fine = record { is_ok = true; error_code = 0; error_message = [] }

-- The capsule manager: it answers all requests for keys with the same keys.
abbrev pub manager : {S : Type 0} → Remote S
manager = record {
  rand_bytes = λ n s. (replicate n 1, s);
  randomness = λ s. (random, s);
  get_ra_cert = λ endpoint nonce s.
      ((fine, record { attestation_report = none; status = success_status; cert = codes "cm" }), s);
  get_data_keys = λ endpoint req s.
      ((fine, record { status = success_status; message = message_with (codes "keys") }), s);
  get_tls_asset =
      λ endpoint req s. ((fine, record { status = success_status; message = message_with [] }), s);
  create_result_data_key =
      λ endpoint req s. ((fine, record { status = success_status; message = message_with [] }), s);
}

abbrev pub plain_codec : Codec
plain_codec = record {
  serialize_request = λ r. some r.scope;
  serialize_body = λ b. some b.scope;
  get_data_keys_to_json = λ r. some r.cert;
  get_tls_asset_to_json = λ r. some r.cert;
  create_to_json = λ r. some r.body.scope;
  data_keys_of_json = λ text. some keys;
  tls_asset_of_json = λ text. some no_asset;
}

-- On a platform with the manager as the only service.
abbrev pub env_of : Platform → Env
env_of P = record {
  platform = P;
  pem = plain_pem;
  fuel = 10;
  jose = plain_jose;
  external = sample;
  tee = some λ p. ok report;
  codec = plain_codec;
  remote = manager;
}

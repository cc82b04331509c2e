-- ===== src/Proxy/Client/Tests.antt =====
-- The calls of the capsule manager, answered by a fixed one.
use trustflow.Base.{
  ◌≡◌, ◌≢◌, refl, arith, Option, some, true, false, [], ◌∷◌, ◌++◌, Str, codes, str_eq, str_eq_iff,
  replicate, List,
}
use trustflow.Error.{ok}
use trustflow.Attestation.{json2pb, pb2json}
use trustflow.CryptoUtil.Sample.{memory, mask-IsGcm}
use trustflow.Generation.Wrapper.{create_attestation_generator}
use trustflow.Proxy.{success_status, tee_plat_sim}
use trustflow.Proxy.Ra.{gen_ra_report}
use trustflow.Proxy.Jwe.{
  EncryptedRequest, make_jws, plain_text, gen_encrypted_request, open_message,
  parse_encrypted_response,
}
use trustflow.Proxy.Jwe.Cert.{not_null, read_all, x509_cert_pem_to_der}
use trustflow.Proxy.Client.Messages.{
  ResourceRequest, Body, DataKey, Env, verify_sf_response_status, attach, receive,
}
use trustflow.Proxy.Client.{Client, has_cert, send, get_data_keys, create_result_data_key}
use trustflow.Proxy.Client.Laws.{IsParty}
use trustflow.Proxy.Client.Exchange.{
  IsKeyExchange, IsTlsExchange, get_data_keys_sealed, get_tls_asset_sealed,
}
use trustflow.Proxy.Client.{get_tls_asset}
use trustflow.Proxy.Client.Messages.{no_asset}
use trustflow.Proxy.Client.Answers.{
  IsKeyCreation, get_data_keys_answered, create_result_data_key_sealed,
}
use trustflow.Proxy.Sample.{
  plain_pem, plain_jose, plain_jose-IsJose, random, report, keys, message_with, fine, env_of,
}

abbrev env : Env
env = env_of memory

abbrev client : Client
client = record { endpoint = codes "e"; capsule_manager_cert = codes "cm" }

abbrev request : ResourceRequest
request = record {
  initiator_party_id = [];
  scope = codes "s";
  op_name = [];
  resources = [];
  env = [];
  global_attrs = [];
}

abbrev body : Body
body = record {
  scope = codes "s";
  resource_uri = codes "r";
  data_key_b64 = replicate 16 7;
  ancestor_uuids = codes "a" ∷ [];
}

abbrev party : (cert private_key : Str) → IsParty plain_jose plain_jose-IsJose cert private_key
party cert private_key = record {
  public = cert;
  private = private_key;
  loads_public = refl;
  loads_private = refl;
  is_pair = tt;
}

not_simulated : codes "tdx" ≢ tee_plat_sim
unfolding str_eq
not_simulated e =
    let same : str_eq (codes "tdx") tee_plat_sim ≡ true =
      (str_eq_iff (codes "tdx") tee_plat_sim).1 e in
    ground arith

got : get_data_keys env client (codes "tdx") (codes "c") (codes "k") request [] ≡ (ok keys, [])
unfolding get_data_keys has_cert attach gen_ra_report create_attestation_generator str_eq send
    gen_encrypted_request plain_text make_jws x509_cert_pem_to_der not_null read_all pb2json json2pb
    receive parse_encrypted_response open_message verify_sf_response_status
got = refl

created :
    create_result_data_key env client (codes "tdx") (codes "c") (codes "k") body [] ≡ (ok tt, [])
unfolding create_result_data_key has_cert attach gen_ra_report create_attestation_generator str_eq
    send gen_encrypted_request plain_text make_jws x509_cert_pem_to_der not_null read_all pb2json
    verify_sf_response_status
created = refl

get_data_keys_sealed_example :
    IsKeyExchange env
      (mask-IsGcm 16)
      plain_jose-IsJose
      client
      (codes "c")
      (codes "k")
      (codes "cm")
      request
      []
      []
      keys
      (party (codes "c") (codes "k"))
get_data_keys_sealed_example =
    get_data_keys_sealed env (mask-IsGcm 16) plain_jose-IsJose client (codes "tdx") (codes "c")
      (codes "k") (codes "cm") request [] [] keys (party (codes "c") (codes "k"))
      (party (codes "cm") (codes "cm")) refl not_simulated got

create_result_data_key_sealed_example :
    IsKeyCreation env
      (mask-IsGcm 16)
      plain_jose-IsJose
      client
      (codes "c")
      (codes "k")
      (codes "cm")
      body
      []
      []
      (party (codes "c") (codes "k"))
create_result_data_key_sealed_example =
    create_result_data_key_sealed env (mask-IsGcm 16) plain_jose-IsJose client (codes "tdx")
      (codes "c") (codes "k") (codes "cm") body [] [] (party (codes "c") (codes "k"))
      (party (codes "cm") (codes "cm")) refl not_simulated created

abbrev asked : EncryptedRequest
asked = record { has_signature = true; message = message_with (codes "c") }

abbrev answer : EncryptedRequest
answer = record { has_signature = false; message = message_with (codes "keys") }

reported :
    attach env
      (str_eq (codes "tdx") tee_plat_sim)
      (codes "c" ++ codes ".")
      (some (codes "s"))
      "Serializing resource_req failed"
    ≡ ok (some report)
unfolding attach gen_ra_report create_attestation_generator str_eq not_null
reported = refl

asked_made :
    gen_encrypted_request memory plain_pem 10 plain_jose env.codec.get_data_keys_to_json random
      (record { attestation_report = some report; cert = codes "c"; resource_request = request })
      (codes "k")
      (codes "c")
      (codes "cm")
      true
    ≡ ok asked
unfolding gen_encrypted_request plain_text pb2json make_jws x509_cert_pem_to_der not_null read_all
asked_made = refl

abbrev keys_text : List DataKey → Option Str
keys_text k = some (codes "keys")

answer_made :
    gen_encrypted_request memory plain_pem 10 plain_jose keys_text random keys
      (codes "cm")
      (codes "cm")
      (codes "c")
      false
    ≡ ok answer
unfolding gen_encrypted_request plain_text pb2json
answer_made = refl

get_data_keys_answered_example :
    get_data_keys env client (codes "tdx") (codes "c") (codes "k") request [] ≡ (ok keys, [])
get_data_keys_answered_example =
    get_data_keys_answered env (mask-IsGcm 16) plain_jose-IsJose client (codes "tdx") (codes "c")
      (codes "k") (codes "cm") (codes "cm") request [] [] (some report) asked answer fine
      success_status keys random keys_text (party (codes "c") (codes "k")) (omega arith) reported
      asked_made refl refl refl refl (λ text e. refl) answer_made

asset_got :
    get_tls_asset env client (codes "tdx") (codes "c") (codes "k") request [] ≡ (ok no_asset, [])
unfolding get_tls_asset has_cert attach gen_ra_report create_attestation_generator str_eq send
    gen_encrypted_request plain_text make_jws x509_cert_pem_to_der not_null read_all pb2json json2pb
    receive parse_encrypted_response open_message verify_sf_response_status
asset_got = refl

get_tls_asset_sealed_example :
    IsTlsExchange env
      (mask-IsGcm 16)
      plain_jose-IsJose
      client
      (codes "c")
      (codes "k")
      (codes "cm")
      request
      []
      []
      no_asset
      (party (codes "c") (codes "k"))
get_tls_asset_sealed_example =
    get_tls_asset_sealed env (mask-IsGcm 16) plain_jose-IsJose client (codes "tdx") (codes "c")
      (codes "k") (codes "cm") request [] [] no_asset (party (codes "c") (codes "k"))
      (party (codes "cm") (codes "cm")) refl not_simulated asset_got

-- ===== src/Proxy/Main/Tests.antt =====
-- A start that fetches a TLS asset.
use trustflow.Base.{◌≡◌, refl, true, false, [], ◌∷◌, Str, codes, str_eq}
use trustflow.Base.Int.{pos}
use trustflow.Error.{ok}
use trustflow.Attestation.{json2pb, pb2json}
use trustflow.CryptoUtil.Sample.{Files, shelf, shelf_disk, shelf_disk-IsDisk}
use trustflow.Generation.Wrapper.{create_attestation_generator}
use trustflow.Proxy.Ra.{gen_ra_report}
use trustflow.Proxy.Jwe.{
  generate_party_id, make_jws, plain_text, gen_encrypted_request, open_message,
  parse_encrypted_response,
}
use trustflow.Proxy.Jwe.Cert.{not_null, read_all, x509_cert_pem_to_der}
use trustflow.Proxy.Client.Messages.{verify_sf_response_status, attach, receive}
use trustflow.Proxy.Client.{has_cert, send, get_ra_cert, new_client, get_tls_asset}
use trustflow.Proxy.Main.Config.{Yaml, strings, resources_of, request_of_config}
use trustflow.Proxy.Main.{write_file, Flags, Host, init_tls}
use trustflow.Proxy.Main.Laws.{IsInstalled, init_tls-files}
use trustflow.Proxy.Sample.{env_of}

-- A document in which each key stands for itself.
abbrev plain_yaml : Yaml Files
plain_yaml = record {
  Node = Str;
  load_file = λ path s. ok path;
  get = λ n key. key;
  as_string = λ n. ok n;
  is_sequence = λ n. true;
  items = λ n. [];
}

abbrev host : Host
host = record {
  env = env_of shelf;
  disk = shelf_disk;
  yaml = plain_yaml;
  open_sink = λ path. ok tt;
}

abbrev flags : Flags
flags = record {
  plat = codes "tdx";
  port = 8010;
  idle_timeout_s = pos 0;
  cert_path = codes "app.crt";
  log = record {
    app_log_path = [];
    monitor_log_path = [];
    log_level = codes "info";
    enable_console_logger = false;
  };
  private_key_path = codes "app.key";
  cm_endpoint = codes "cm";
  cm_init_config = codes "c";
}

abbrev installed : Files
installed = (codes "tls_key_path", []) ∷ (codes "tls_cert_path", []) ∷ []

started : init_tls host flags (codes "c") (codes "k") [] ≡ (ok tt, installed)
unfolding init_tls new_client get_ra_cert request_of_config generate_party_id resources_of strings
    get_tls_asset has_cert attach gen_ra_report create_attestation_generator str_eq send
    gen_encrypted_request plain_text make_jws x509_cert_pem_to_der not_null read_all pb2json json2pb
    receive parse_encrypted_response open_message verify_sf_response_status write_file
started = refl

init_tls-files_example :
    IsInstalled host shelf_disk-IsDisk flags (codes "c") (codes "k") [] installed
init_tls-files_example =
    init_tls-files host shelf_disk-IsDisk flags (codes "c") (codes "k") [] installed started

-- ===== src/Proxy/Main.antt =====
-- data_capsule_proxy/main.cc and ra_proxy/main.cc, with utils/io_util.cc: how the servers start.
pub mod Config
pub mod Laws
mod Tests
use trustflow.Base.{
  ℕ, not, Bool, true, false, Option, none, some, List, [], ◌∷◌, Bytes, Str, codes, is_empty,
  if◌then◌else◌,
}
use trustflow.Base.Int.{ℤ, pos, negsuc}
use trustflow.Error.{Result, ok, throw, undefined}
use trustflow.Action.{Action, pure, lift, call, enforce, ◌>>=◌, ◌>>◌}
use trustflow.CryptoUtil.Platform.{Platform}
use trustflow.CryptoUtil.Disk.{Disk}
use trustflow.Proxy.Main.Config.{Yaml, read_file, request_of_config}
use trustflow.Proxy.Client.Messages.{Env}
use trustflow.Proxy.Client.{new_client, get_tls_asset}
use trustflow.Proxy.Capsule.{CapsuleProxy}
use trustflow.Proxy.Log.{LogOptions, Loggers, log_setup}

module _ (P : Platform) where
  unfoldable pub write_file : Disk P → Str → Bytes → Action P.Fs (Unit {0})
  write_file D file_path content s = elim (P.open_out s file_path) [
    | ok u ↦ (ok tt, D.write file_path content s)
    | throw x ↦ (throw x, s)
    | undefined ↦ (undefined, s)
  ]

-- The calls of a `brpc::Server`: whether a service is added, whether the server starts, and its run.
pub record Server (S : Type 0) : Type 0 where
  pub add_service : S → Bool × S
  pub start : ℕ → ℤ → S → Bool × S
  pub run_until_asked_to_quit : S → S

-- The flags; the RA proxy has no use for the last four.
pub record Flags : Type 0 where
  pub plat : Str
  pub port : ℕ
  pub idle_timeout_s : ℤ
  pub cert_path : Str
  pub log : LogOptions
  pub private_key_path : Str
  pub cm_endpoint : Str
  pub cm_init_config : Str

-- What a process is started on.
pub record Host : Type 1 where
  pub env : Env
  pub disk : Disk env.platform
  pub yaml : Yaml env.platform.Fs
  pub open_sink : Str → Result (Unit {0})

abbrev pub no_loggers : Loggers
no_loggers = record { registered = []; default_logger = none }

module _ (H : Host) where
  -- The TLS asset is fetched and written to two files.
  unfoldable pub init_tls : Flags → Bytes → Bytes → Action H.env.platform.Fs (Unit {0})
  init_tls F cert private_key s =
      (do
        config ← lift (H.yaml.load_file F.cm_init_config s)
        client ← new_client H.env F.cm_endpoint
        resource_request ← lift (request_of_config H.env.external H.env.jose H.yaml config cert)
        tls_asset ← get_tls_asset H.env client F.plat cert private_key resource_request
        cert_path ← lift (H.yaml.as_string (H.yaml.get config (codes "tls_cert_path")))
        write_file H.env.platform H.disk cert_path tls_asset.cert
        key_path ← lift (H.yaml.as_string (H.yaml.get config (codes "tls_key_path")))
        write_file H.env.platform H.disk key_path tls_asset.private_key)
        s

  unfoldable pub init_tls_if : Flags → Bytes → Bytes → Action H.env.platform.Fs (Unit {0})
  init_tls_if F cert private_key s =
      if is_empty F.cm_init_config then (ok tt, s) else init_tls F cert private_key s

  -- The service is added and the server runs; the exit code.
  unfoldable pub serve : Server H.env.platform.Fs → Flags → Action H.env.platform.Fs ℤ
  serve server F s =
      let (added, s) = server.add_service s in
      let (started, s') = server.start F.port F.idle_timeout_s s in
      if not added
      then (ok (negsuc 0), s)
      else if not started
      then (ok (negsuc 0), s')
      else (ok (pos 0), server.run_until_asked_to_quit s')

  -- The two bodies of `try`. `service` makes the server with its implementation.
  unfoldable pub run_capsule_main :
      (CapsuleProxy → Server H.env.platform.Fs) → Flags → Action H.env.platform.Fs ℤ
  run_capsule_main service F s =
      (do
        loggers ← lift (log_setup H.open_sink F.log no_loggers)
        cert ← lift (read_file H.env.platform F.cert_path s)
        private_key ← lift (read_file H.env.platform F.private_key_path s)
        init_tls_if F cert private_key
        serve
            (service (record {
              cm_endpoint = F.cm_endpoint;
              plat = F.plat;
              cert = cert;
              private_key = private_key;
            }))
            F)
        s

  unfoldable pub run_ra_main :
      (Str → Str → Server H.env.platform.Fs) → Flags → Action H.env.platform.Fs ℤ
  run_ra_main service F s =
      (do
        loggers ← lift (log_setup H.open_sink F.log no_loggers)
        cert ← lift (read_file H.env.platform F.cert_path s)
        serve (service F.plat cert) F)
        s

-- `catch (const std::exception& e) { return -1; }`
unfoldable pub exit_code : {S : Type 0} → Result ℤ × S → Result ℤ × S
exit_code (ok code, s) = (ok code, s)
exit_code (throw x, s) = (ok (negsuc 0), s)
exit_code (undefined, s) = (undefined, s)

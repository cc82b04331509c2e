-- ===== src/Proxy/Main/Laws.antt =====
-- What a start of the data capsule proxy leaves on the disk.
use trustflow.Base.{◌≡◌, ◌≢◌, ◌∙◌, arith, some, Bytes, Str, codes, str_eq_refl, str_eq_of_ne}
use trustflow.Error.{ok, with_value}
use trustflow.Action.{with_run}
use trustflow.CryptoUtil.Platform.{Platform}
use trustflow.CryptoUtil.Disk.{Disk, IsDisk}
use trustflow.Proxy.Client.Messages.{ResourceRequest, TlsAsset}
use trustflow.Proxy.Client.{Client, new_client, get_tls_asset}
use trustflow.Proxy.Main.Config.{request_of_config}
use trustflow.Proxy.Main.{write_file, Flags, Host, init_tls}

file_written :
    (P : Platform) (D : Disk P) (path : Str) (b : Bytes) (s s' : P.Fs)
    → write_file P D path b s ≡ (ok tt, s')
    → D.write path b s ≡ s'
unfolding write_file
file_written P D path b s s' h =
    with_value (P.open_out s path) (λ x e. ground arith) (λ e. ground arith) λ u e. ground arith

module _ (H : Host) (L : IsDisk H.env.platform H.disk) where
  -- The steps of the start, and what stands in the two files then.
  abbrev pub IsInstalled : Flags → Bytes → Bytes → H.env.platform.Fs → H.env.platform.Fs → Type 0
  IsInstalled F cert private_key s s' =
      (config : H.yaml.Node) × (client : Client) × (t : H.env.platform.Fs) × (req : ResourceRequest)
      × (asset : TlsAsset) × (u : H.env.platform.Fs) × (cert_path : Str) × (key_path : Str)
      × (H.yaml.load_file F.cm_init_config s ≡ ok config)
      × (new_client H.env F.cm_endpoint s ≡ (ok client, t))
      × (request_of_config H.env.external H.env.jose H.yaml config cert ≡ ok req)
      × (get_tls_asset H.env client F.plat cert private_key req t ≡ (ok asset, u))
      × (H.yaml.as_string (H.yaml.get config (codes "tls_cert_path")) ≡ ok cert_path)
      × (H.yaml.as_string (H.yaml.get config (codes "tls_key_path")) ≡ ok key_path)
      × (L.content s' key_path ≡ some asset.private_key)
      × (key_path ≢ cert_path → L.content s' cert_path ≡ some asset.cert)

  -- If the start with a configuration fetches a TLS asset, then it is the one that the capsule manager gives for the
  -- configured resources, and its certificate and private key stand in the two configured files, if these are not the same.
  pub init_tls-files :
      (F : Flags) (cert private_key : Bytes) (s s' : H.env.platform.Fs)
      → init_tls H F cert private_key s ≡ (ok tt, s')
      → IsInstalled F cert private_key s s'
  unfolding init_tls
  init_tls-files F cert private_key s s' h =
      with_value (H.yaml.load_file F.cm_init_config s) (λ x e. ground arith) (λ e. ground arith)
        λ config e1.
          with_run (new_client H.env F.cm_endpoint s) (λ x t e. ground arith) (λ t e. ground arith)
            λ client t e2.
              with_value (request_of_config H.env.external H.env.jose H.yaml config cert)
                (λ x e. ground arith) (λ e. ground arith)
                λ req e3.
                  with_run (get_tls_asset H.env client F.plat cert private_key req t)
                    (λ x u e. ground arith) (λ u e. ground arith)
                    λ asset u e4.
                      with_value (H.yaml.as_string (H.yaml.get config (codes "tls_cert_path")))
                        (λ x e. ground arith) (λ e. ground arith)
                        λ cert_path e5.
                          with_run (write_file H.env.platform H.disk cert_path asset.cert u)
                            (λ x v e. ground arith) (λ v e. ground arith)
                            λ d v e6.
                              with_value
                                (H.yaml.as_string (H.yaml.get config (codes "tls_key_path")))
                                (λ x e. ground arith) (λ e. ground arith)
                                λ key_path e7.
                                  (let e8 : write_file H.env.platform H.disk key_path
                                          asset.private_key v
                                        ≡ (ok tt, s') =
                                      ground arith in
                                    let f1 =
                                      file_written H.env.platform H.disk cert_path asset.cert u v
                                        e6 in
                                    let f2 =
                                      file_written H.env.platform H.disk key_path asset.private_key
                                        v s' e8 in
                                    (
                                      config,
                                      client,
                                      t,
                                      req,
                                      asset,
                                      u,
                                      cert_path,
                                      key_path,
                                      e1,
                                      e2,
                                      e3,
                                      e4,
                                      e5,
                                      e7,
                                      rw (← f2) (
                                          L.content-write key_path key_path asset.private_key v
                                          ∙ rw (str_eq_refl key_path)),
                                      λ ne. rw (← f2) (
                                          L.content-write key_path cert_path asset.private_key v
                                          ∙ rw (str_eq_of_ne key_path cert_path ne, ← f1)
                                              (L.content-write cert_path cert_path asset.cert u
                                                ∙ rw (str_eq_refl cert_path))),
                                    ))

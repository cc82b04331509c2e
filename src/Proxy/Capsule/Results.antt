-- ===== src/Proxy/Capsule/Results.antt =====
-- What a success of `PutResultData` means.
use trustflow.Base.{
  ◌<◌, ◌≡◌, ◌↔◌, arith, ltb, lt→ltb, true, false, Bool-cases, inl, inr, Option, none, some, [], ◌∷◌,
  Bytes, Str, is_empty, length,
}
use trustflow.Error.{ok}
use trustflow.Action.{with_run}
use trustflow.CryptoUtil.Directory.{encrypt_to_dir}
use trustflow.Proxy.{RpcStatus, success_status, success, caught}
use trustflow.Proxy.Client.{Client, new_client, create_result_data_key}
use trustflow.Proxy.Oss.{S3Config, upload_to_oss}
use trustflow.Proxy.Capsule.{
  CmResultConfig, PutResultDataRequest, CapsuleProxy, World, endpoint_or, gen_temp_dir, result_key,
  put_s3, put, make_body, register_key, register_result, run_put_result_data, put_result_data,
  key_bytes,
}

module _ (W : World) (M : CapsuleProxy) where
  -- The key of the request, or 16 random bytes if it is empty.
  abbrev pub ResultKey : Str → W.env.platform.Fs → Bytes → W.env.platform.Fs → Type 0
  ResultKey [] s key s' = W.env.remote.rand_bytes key_bytes s ≡ (key, s')
  ResultKey (b ∷ bs) s key s' = (W.env.jose.base64_decode (b ∷ bs) ≡ ok key) × (s' ≡ s)

  -- The files are encrypted to a temporary directory that is uploaded and removed, or to the local path.
  abbrev pub Stored :
      Option S3Config → Option Str → Str → Bytes → W.env.platform.Fs → W.env.platform.Fs → Type 0
  Stored (some c) path src key s s' =
      (s1 : W.env.platform.Fs) × (s2 : W.env.platform.Fs) × (encrypt_to_dir W.env.platform W.disk
          (W.schedule src) W.rand src (gen_temp_dir W M src) key s
        ≡ (ok tt, s1))
      × (upload_to_oss W.env.platform W.disk W.oss c (gen_temp_dir W M src) s1 ≡ (ok tt, s2))
      × (W.disk.remove_all (gen_temp_dir W M src) s2 ≡ (ok tt, s'))
  Stored none (some path) src key s s' =
      encrypt_to_dir W.env.platform W.disk (W.schedule src) W.rand src path key s ≡ (ok tt, s')
  Stored none none src key s s' = ⊥

  -- Without a resource URI nothing happens. Otherwise the key, in base 64, is registered under the URI, with a scope
  -- and with ancestors.
  abbrev pub Registered : CmResultConfig → Bytes → W.env.platform.Fs → W.env.platform.Fs → Type 0
  Registered c key s s' =
      (is_empty c.resource_uri ≡ true → s ≡ s')
      × (is_empty c.resource_uri ≡ false
          → (is_empty c.scope ≡ false)
            × (0 < length c.ancestor_uuids)
            × (client : Client) × (t : W.env.platform.Fs) × (new_client W.env
                  (endpoint_or c.endpoint M.cm_endpoint) s
                ≡ (ok client, t))
            × (create_result_data_key W.env client M.plat M.cert M.private_key (make_body W M c key)
                  t
                ≡ (ok tt, s')))

  result_key_from :
      (b64 : Str) (s s' : W.env.platform.Fs) (key : Bytes)
      → (result_key W M b64 s ≡ (ok key, s')) ↔ ResultKey b64 s key s'
  unfolding result_key
  result_key_from [] s s' key = (λ h. ground arith, λ e. ground arith)
  result_key_from (b ∷ bs) s s' key = ground arith

  stored :
      (c : Option S3Config) (path : Option Str) (src : Str) (key : Bytes) (s s' : W.env.platform.Fs)
      → (put W M c path src key s ≡ (ok tt, s')) ↔ Stored c path src key s s'
  unfolding put put_s3
  stored (some c) path src key s s' = (
    λ h.
        with_run
          (encrypt_to_dir W.env.platform W.disk (W.schedule src) W.rand src (gen_temp_dir W M src)
            key s)
          (λ x t e. ground arith) (λ t e. ground arith)
          λ u s1 e1.
            with_run (upload_to_oss W.env.platform W.disk W.oss c (gen_temp_dir W M src) s1)
              (λ x t e. ground arith) (λ t e. ground arith)
              λ u2 s2 e2. (s1, s2, e1, e2, ground arith),
    λ (s1, s2, e1, e2, e3). simp (e1, e2, e3),
  )
  stored none (some path) src key s s' = ground arith
  stored none none src key s s' = ground arith

  -- The four tests and the call, if there is a resource URI.
  registered_key :
      (c : CmResultConfig) (key : Bytes) (s s' : W.env.platform.Fs)
      → is_empty c.resource_uri ≡ false
      → register_key W M c key s ≡ (ok tt, s')
      → (is_empty c.scope ≡ false)
        × (0 < length c.ancestor_uuids)
        × (client : Client) × (t : W.env.platform.Fs) × (new_client W.env
              (endpoint_or c.endpoint M.cm_endpoint)
              s
            ≡ (ok client, t))
        × (create_result_data_key W.env client M.plat M.cert M.private_key (make_body W M c key) t
            ≡ (ok tt, s'))
  unfolding register_key
  registered_key c key s s' there h =
      with_run (new_client W.env (endpoint_or c.endpoint M.cm_endpoint) s) (λ x t e. ground arith)
        (λ t e. ground arith)
        λ client t e1. elim (Bool-cases (is_empty c.scope)) [
          | inl missing ↦ absurd (ground arith)
          | inr scope ↦ (elim (Bool-cases (ltb 0 (length c.ancestor_uuids))) [
            | inr none_there ↦ absurd (ground arith)
            | inl ancestors ↦ (scope, ground arith, client, t, e1, ground arith)
          ])
        ]

  registered :
      (c : CmResultConfig) (key : Bytes) (s s' : W.env.platform.Fs)
      → (register_result W M c key s ≡ (ok tt, s')) ↔ Registered c key s s'
  unfolding register_result register_key
  registered c key s s' = elim (Bool-cases (is_empty c.resource_uri)) [
    | inl empty ↦ (
      λ h. (λ _. ground arith, λ no. absurd (ground arith)),
      λ (f, g). (let same = f empty in ground arith),
    )
    | inr there ↦ (
      λ h. (λ yes. absurd (ground arith), λ _. registered_key c key s s' there (ground arith)),
      λ (f, g).
          (let (scope, ancestors, client, t, e1, e2) = g there in
            let has = lt→ltb 0 (length c.ancestor_uuids) ancestors in
            simp (there, e1, scope, has, e2)),
    )
  ]

  -- The files are stored with a key, and the key is registered.
  abbrev pub PutsResult :
      PutResultDataRequest → RpcStatus → W.env.platform.Fs → W.env.platform.Fs → Type 0
  PutsResult request status s s' =
      (status ≡ success_status)
      × (key : Bytes) × (t : W.env.platform.Fs) × (u : W.env.platform.Fs) × ResultKey
          request.data_key_b64 s key t
      × Stored request.s3_config request.local_fs_path request.src_path key t u
      × Registered request.cm_result_config key u s'

  -- `PutResultData` replies with success exactly if the files are encrypted with a key and stored,
  -- and the key is registered if the result has a resource URI: the key of the request, or else 16
  -- random bytes.
  pub put_result_data_iff :
      (request : PutResultDataRequest) (status : RpcStatus) (s s' : W.env.platform.Fs)
      → (put_result_data W M request s ≡ (ok (success status), s')) ↔ PutsResult request status s s'
  unfolding put_result_data run_put_result_data caught
  put_result_data_iff request status s s' = (
    λ h.
        with_run (result_key W M request.data_key_b64 s) (λ x t e. ground arith)
          (λ t e. ground arith)
          λ key t e1.
            with_run (put W M request.s3_config request.local_fs_path request.src_path key t)
              (λ x t e. ground arith) (λ t e. ground arith)
              λ u v e2.
                with_run (register_result W M request.cm_result_config key v)
                  (λ x t e. ground arith) (λ t e. ground arith)
                  λ u2 v2 e3.
                    (let same : v2 ≡ s' = ground arith in
                      (
                        ground arith,
                        key,
                        t,
                        v,
                        (result_key_from request.data_key_b64 s t key).0 e1,
                        (stored request.s3_config request.local_fs_path request.src_path key t v).0
                            e2,
                        (registered request.cm_result_config key v s').0 (rw same at e3),
                      )),
    λ (good, key, t, u, from, files, known).
        let e1 = (result_key_from request.data_key_b64 s t key).1 from in
        let e2 =
          (stored request.s3_config request.local_fs_path request.src_path key t u).1 files in
        let e3 = (registered request.cm_result_config key u s').1 known in simp (e1, e2, e3, good),
  )

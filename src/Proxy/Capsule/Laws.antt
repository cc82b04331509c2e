-- ===== src/Proxy/Capsule/Laws.antt =====
-- What a reply without failure means.
use trustflow.Base.{◌≡◌, ◌↔◌, refl, arith, Option, none, some, List, [], ◌∷◌, Bytes, Str}
use trustflow.Error.{ok, with_value}
use trustflow.Action.{with_run}
use trustflow.CryptoUtil.Directory.{decrypt_to_dir}
use trustflow.Proxy.{RpcStatus, success_status, success, caught}
use trustflow.Proxy.Client.Messages.{ResourceRequest, DataKey}
use trustflow.Proxy.Client.{Client, new_client, get_data_keys}
use trustflow.Proxy.Oss.{S3Config, download_from_oss}
use trustflow.Proxy.Capsule.{
  CmResourceConfig, GetInputDataRequest, CapsuleProxy, World, endpoint_or, gen_temp_dir,
  gen_resource_request, first_key, key_from_manager, input_key, fetch_s3, fetch, run_get_input_data,
  get_input_data,
}

module _ (W : World) (M : CapsuleProxy) where
  -- The key of the request; if there is none, the first of the capsule manager's.
  abbrev pub KeyFrom :
      Option Str → Option CmResourceConfig → W.env.platform.Fs → Bytes → W.env.platform.Fs → Type 0
  KeyFrom (some b64) cm s key s' = (W.env.jose.base64_decode b64 ≡ ok key) × (s' ≡ s)
  KeyFrom none (some c) s key s' =
      (req : ResourceRequest) × (client : Client) × (t : W.env.platform.Fs) × (k : DataKey)
      × (keys : List DataKey) × (gen_resource_request W M c ≡ ok req)
      × (new_client W.env (endpoint_or c.endpoint M.cm_endpoint) s ≡ (ok client, t))
      × (get_data_keys W.env client M.plat M.cert M.private_key req t ≡ (ok (k ∷ keys), s'))
      × (W.env.jose.base64_decode k.data_key_b64 ≡ ok key)
  KeyFrom none none s key s' = ⊥

  -- The files of the object store by way of a temporary directory, or those of a local path, are
  -- decrypted with the key.
  abbrev pub Fetched :
      Option S3Config → Option Str → Str → Bytes → W.env.platform.Fs → W.env.platform.Fs → Type 0
  Fetched (some c) path dest key s s' =
      (s1 : W.env.platform.Fs) × (s2 : W.env.platform.Fs) × (s3 : W.env.platform.Fs)
      × (W.disk.remove_all (gen_temp_dir W M dest) s ≡ (ok tt, s1))
      × (download_from_oss W.env.platform W.disk W.oss c (gen_temp_dir W M dest) s1 ≡ (ok tt, s2))
      × (decrypt_to_dir W.env.platform W.disk (W.schedule (gen_temp_dir W M dest))
            (gen_temp_dir W M dest) dest key s2
          ≡ (ok tt, s3))
      × (W.disk.remove_all (gen_temp_dir W M dest) s3 ≡ (ok tt, s'))
  Fetched none (some path) dest key s s' =
      decrypt_to_dir W.env.platform W.disk (W.schedule path) path dest key s ≡ (ok tt, s')
  Fetched none none dest key s s' = ⊥

  first_of :
      (keys : List DataKey) (s s' : W.env.platform.Fs) (key : Bytes)
      → first_key W M keys s ≡ (ok key, s')
      → (k : DataKey) × (rest : List DataKey) × (keys ≡ k ∷ rest)
        × (W.env.jose.base64_decode k.data_key_b64 ≡ ok key)
        × (s ≡ s')
  unfolding first_key
  first_of [] s s' key h = absurd (ground arith)
  first_of (k ∷ rest) s s' key h = (k, rest, refl, ground arith, ground arith)

  from_manager :
      (c : CmResourceConfig) (s s' : W.env.platform.Fs) (key : Bytes)
      → (key_from_manager W M c s ≡ (ok key, s')) ↔ KeyFrom none (some c) s key s'
  unfolding key_from_manager first_key
  from_manager c s s' key = (
    λ h.
        with_value (gen_resource_request W M c) (λ x e. ground arith) (λ e. ground arith)
          λ req e1.
            (with_run (new_client W.env (endpoint_or c.endpoint M.cm_endpoint) s)
              (λ x t e. ground arith) (λ t e. ground arith)
              λ client t e2.
                (with_run (get_data_keys W.env client M.plat M.cert M.private_key req t)
                  (λ x u e. ground arith) (λ u e. ground arith)
                  λ keys u e3.
                    (let (k, rest, f1, f2, f3) = first_of keys u s' key (ground arith) in
                      (req, client, t, k, rest, e1, e2, rw (← f1, ← f3) e3, f2)))),
    λ (req, client, t, k, keys, e1, e2, e3, e4). simp (e1, e2, e3, e4),
  )

  key_from :
      (b64 : Option Str) (cm : Option CmResourceConfig) (s s' : W.env.platform.Fs) (key : Bytes)
      → (input_key W M b64 cm s ≡ (ok key, s')) ↔ KeyFrom b64 cm s key s'
  unfolding input_key
  key_from (some b) cm s s' key = ground arith
  key_from none (some c) s s' key = from_manager c s s' key
  key_from none none s s' key = ground arith

  fetched :
      (c : Option S3Config) (path : Option Str) (dest : Str) (key : Bytes)
      (s s' : W.env.platform.Fs)
      → (fetch W M c path dest key s ≡ (ok tt, s')) ↔ Fetched c path dest key s s'
  unfolding fetch fetch_s3
  fetched (some c) path dest key s s' = (
    λ h.
        with_run (W.disk.remove_all (gen_temp_dir W M dest) s) (λ x t e. ground arith)
          (λ t e. ground arith)
          λ u s1 e1.
            with_run (download_from_oss W.env.platform W.disk W.oss c (gen_temp_dir W M dest) s1)
              (λ x t e. ground arith) (λ t e. ground arith)
              λ u2 s2 e2.
                with_run
                  (decrypt_to_dir W.env.platform W.disk (W.schedule (gen_temp_dir W M dest))
                    (gen_temp_dir W M dest) dest key s2)
                  (λ x t e. ground arith) (λ t e. ground arith)
                  λ u3 s3 e3. (s1, s2, s3, e1, e2, e3, ground arith),
    λ (s1, s2, s3, e1, e2, e3, e4). simp (e1, e2, e3, e4),
  )
  fetched none (some path) dest key s s' = ground arith
  fetched none none dest key s s' = ground arith

  -- A key is there, and the files are fetched with it.
  abbrev pub GetsInput :
      GetInputDataRequest → RpcStatus → W.env.platform.Fs → W.env.platform.Fs → Type 0
  GetsInput request status s s' =
      (status ≡ success_status)
      × (key : Bytes) × (t : W.env.platform.Fs) × KeyFrom request.data_key_b64
          request.cm_resource_config s key t
      × Fetched request.s3_config request.local_fs_path request.dest_path key t s'

  -- `GetInputData` replies with success exactly if there is a key, and with this key the files are
  -- fetched and decrypted: the key of the request (the capsule manager is not asked then), or else
  -- the first of those that the capsule manager gives for the resource; files from the object store, by way of a temporary
  -- directory that is removed before and after, or else from the local path.
  pub get_input_data_iff :
      (request : GetInputDataRequest) (status : RpcStatus) (s s' : W.env.platform.Fs)
      → (get_input_data W M request s ≡ (ok (success status), s')) ↔ GetsInput request status s s'
  unfolding get_input_data run_get_input_data caught
  get_input_data_iff request status s s' = (
    λ h.
        with_run (input_key W M request.data_key_b64 request.cm_resource_config s)
          (λ x t e. ground arith) (λ t e. ground arith)
          λ key t e1.
            with_run (fetch W M request.s3_config request.local_fs_path request.dest_path key t)
              (λ x t e. ground arith) (λ t e. ground arith)
              λ u v e2.
                (let same : v ≡ s' = ground arith in
                  (
                    ground arith,
                    key,
                    t,
                    (key_from request.data_key_b64 request.cm_resource_config s t key).0 e1,
                    (fetched request.s3_config request.local_fs_path request.dest_path key t s').0
                        (rw same at e2),
                  )),
    λ (good, key, t, from, files).
        let e1 = (key_from request.data_key_b64 request.cm_resource_config s t key).1 from in
        let e2 =
          (fetched request.s3_config request.local_fs_path request.dest_path key t s').1 files in
        simp (e1, e2, good),
  )

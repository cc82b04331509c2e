-- ===== src/Proxy/Capsule/Uploaded.antt =====
-- What `PutResultData` leaves in the object store.
use mathlib.Core.List.{Memᴰ}
use trustflow.Base.{ℕ, ◌≡◌, ◌⊎◌, inr, refl, ap, ◌∙◌, true, some, List, Bytes, Str, length}
use trustflow.Error.{ok}
use trustflow.CryptoUtil.Platform.{IsPlatform}
use trustflow.CryptoUtil.Disk.{IsDisk}
use trustflow.CryptoUtil.Tasks.{Task, Loop}
use trustflow.CryptoUtil.Block.Laws.{IsKey}
use trustflow.CryptoUtil.File.Laws.{sealed_file}
use trustflow.CryptoUtil.Directory.{encrypt_item, encrypt_loop, encrypt_directory}
use trustflow.CryptoUtil.Directory.Safe.{IsSafe}
use trustflow.CryptoUtil.Directory.RoundTrip.{IsReady, all_sealed}
use trustflow.Proxy.{success_status, success}
use trustflow.Proxy.Oss.{S3Config, get_oss_client, upload_to_oss}
use trustflow.Proxy.Oss.Store.{IsStore}
use trustflow.Proxy.Oss.Sent.{sent, upload_to_oss-Arrives}
use trustflow.Proxy.Capsule.{
  PutResultDataRequest, CapsuleProxy, World, gen_temp_dir, put_result_data,
}
use trustflow.Proxy.Capsule.Results.{ResultKey, Stored, Registered, put_result_data_iff}
use trustflow.Proxy.Capsule.RoundTrip.{IsDir, encrypt_dir, done}

module _ (W : World) (M : CapsuleProxy) (Q : IsPlatform W.env.platform)
    (L : IsDisk W.env.platform W.disk) (I : IsStore W.env.platform W.disk L W.oss) (key : Bytes)
    (k : IsKey key) (fresh : (path : Str) (i : ℕ) → length (W.rand path i) ≡ 12)
    (opens : (path : Str) (c : Bytes) (s : W.env.platform.Fs)
      → L.content s path ≡ some c
      → (input : W.env.platform.In) × (W.env.platform.open_in s path ≡ ok input)
        × Q.At (length c) c input) where
  -- The loop of the call, and the state in which the temporary directory has the encrypted files.
  abbrev pub enc_loop : PutResultDataRequest → W.env.platform.Fs → Loop W.env.platform.Fs
  enc_loop put s =
      encrypt_loop W.env.platform W.disk (W.schedule put.src_path) W.rand put.src_path
        (gen_temp_dir W M put.src_path) key s

  abbrev pub encrypted : PutResultDataRequest → W.env.platform.Fs → W.env.platform.Fs
  encrypted put s =
      (encrypt_directory W.env.platform W.disk (W.schedule put.src_path) W.rand put.src_path
        (gen_temp_dir W M put.src_path) key s).1

  abbrev pub sent_state : PutResultDataRequest → S3Config → W.env.platform.Fs → W.env.platform.Fs
  sent_state put c s =
      (upload_to_oss W.env.platform W.disk W.oss c (gen_temp_dir W M put.src_path)
        (encrypted put s)).1

  -- A directory of results is put into the object store, with a key of the request or a random one, which is
  -- registered if the result has a URI. The loop over the directory launches threads for files that can be
  -- encrypted and does not throw, loop and threads keep out of each other's way, and the temporary directory is there
  -- when they have ended. It is removed after the upload, the key is registered, and neither changes the object
  -- of a name. Then the request succeeds, whenever the threads end; and if the name is one that only the file which
  -- one thread encrypted is sent to, then in the state that the request leaves, the store has under this name
  -- that file, encrypted with the key.
  pub put_result_data_uploaded :
      (put : PutResultDataRequest) (c : S3Config) (s s0 s3 s' : W.env.platform.Fs)
      (pairs : List (Str × Str)) (a : Task) (name : Str) (content : Bytes)
      → put.s3_config ≡ some c
      → ResultKey W M put.data_key_b64 s key s0
      → IsDir W.env.platform W.disk s0 put.src_path
      → IsSafe W.env.platform W.disk L
          (encrypt_item W.env.platform W.disk put.src_path (gen_temp_dir W M put.src_path))
          (W.disk.visits s0 put.src_path)
          pairs
      → (enc_loop put s0).ended ≡ ok tt
      → ((p : Str × Str)
          → Memᴰ p pairs
          → IsReady W.env.platform Q W.disk L key k W.rand fresh opens s0 p)
      → W.disk.exists (encrypted put s0) (gen_temp_dir W M put.src_path) ≡ true
      → (W.disk.is_regular_file (encrypted put s0) (gen_temp_dir W M put.src_path) ≡ true)
        ⊎ (W.disk.is_directory (encrypted put s0) (gen_temp_dir W M put.src_path) ≡ true)
      → W.disk.remove_all (gen_temp_dir W M put.src_path) (sent_state put c s0) ≡ (ok tt, s3)
      → Registered W M put.cm_result_config key s3 s'
      → I.object (get_oss_client c) c.bucket name s'
        ≡ I.object (get_oss_client c) c.bucket name (sent_state put c s0)
      → Memᴰ a (enc_loop put s0).launched
      → L.content s0 a.source ≡ some content
      → Memᴰ
          (a.dest, name)
          (sent W.env.platform W.disk (encrypted put s0) (gen_temp_dir W M put.src_path) c.path)
      → ((i : Str)
          → Memᴰ
              (i, name)
              (sent W.env.platform W.disk (encrypted put s0) (gen_temp_dir W M put.src_path) c.path)
          → i ≡ a.dest)
      → (put_result_data W M put s ≡ (ok (success success_status), s'))
        × (I.object (get_oss_client c) c.bucket name s'
            ≡ some (sealed_file W.env.platform key (W.rand a.dest) content))
  put_result_data_uploaded put c s s0 s3 s' pairs a name content s3_there from dir safe good ready
        there kind removed known kept m e sends only =
      let P = W.env.platform in
      let temp = gen_temp_dir W M put.src_path in
      let schedule = W.schedule put.src_path in
      let s2 = encrypted put s0 in
      let client = get_oss_client c in
      let (ran, files) =
        all_sealed P Q W.disk L key k W.rand fresh opens schedule put.src_path temp s0 pairs safe
          good ready in
      let stored =
        encrypt_dir P W.disk schedule put.src_path temp key s0 dir W.rand
        ∙ done (encrypt_directory P W.disk schedule W.rand put.src_path temp key s0) ran in
      let (t, up, arrives) = upload_to_oss-Arrives P W.disk L W.oss I c temp s2 there kind in
      let here : sent_state put c s0 ≡ t = ap (λ r. r.1) up in
      let written = files a content m e in
      let put_there : Stored W M put.s3_config put.local_fs_path put.src_path key s0 s3 =
        rw s3_there (s2, t, stored, up, rw here at removed) in
      (
        (put_result_data_iff W M put success_status s s').1
            (refl, key, s0, s3, from, put_there, known),
        kept
            ∙ rw here (
                arrives name (sealed_file P key (W.rand a.dest) content)
                  (λ i n. rw (only i n) written) (inr (a.dest, sends))),
      )

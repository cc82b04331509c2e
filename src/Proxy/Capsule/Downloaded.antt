-- ===== src/Proxy/Capsule/Downloaded.antt =====
-- What `GetInputData` makes of an encrypted file of the object store.
use mathlib.Core.List.{Memᴰ}
use trustflow.Base.{ℕ, ◌<◌, ◌^◌, ◌≡◌, refl, ◌∙◌, some, List, Bytes, Str, length}
use trustflow.Error.{ok}
use trustflow.CryptoUtil.Platform.{IsPlatform}
use trustflow.CryptoUtil.Disk.{IsDisk}
use trustflow.CryptoUtil.Tasks.{Task, Loop, join_all}
use trustflow.CryptoUtil.Block.Laws.{IsKey}
use trustflow.CryptoUtil.File.{decrypt_file}
use trustflow.CryptoUtil.File.Laws.{sealed_file}
use trustflow.CryptoUtil.Directory.{decrypt_item, decrypt_loop, decrypt_directory}
use trustflow.CryptoUtil.Directory.Safe.{IsSafe}
use trustflow.CryptoUtil.Directory.Decrypted.{decrypted_loop}
use trustflow.CryptoUtil.Directory.RoundTrip.{opened_task, all_succeed}
use trustflow.Proxy.{success_status, success}
use trustflow.Proxy.Oss.{S3Config, get_oss_client, download_path, download_from_oss}
use trustflow.Proxy.Oss.Store.{IsStore}
use trustflow.Proxy.Oss.RoundTrip.{download_from_oss-Lands}
use trustflow.Proxy.Capsule.{GetInputDataRequest, CapsuleProxy, World, gen_temp_dir, get_input_data}
use trustflow.Proxy.Capsule.Laws.{KeyFrom, Fetched, get_input_data_iff}
use trustflow.Proxy.Capsule.RoundTrip.{IsDir, decrypt_dir, done}

module _ (W : World) (M : CapsuleProxy) (Q : IsPlatform W.env.platform)
    (L : IsDisk W.env.platform W.disk) (I : IsStore W.env.platform W.disk L W.oss) (key : Bytes)
    (k : IsKey key) (fresh : (path : Str) (i : ℕ) → length (W.rand path i) ≡ 12)
    (opens : (path : Str) (c : Bytes) (s : W.env.platform.Fs)
      → L.content s path ≡ some c
      → (input : W.env.platform.In) × (W.env.platform.open_in s path ≡ ok input)
        × Q.At (length c) c input) where
  -- The state in which the temporary directory has the files of the store.
  abbrev pub arrived : GetInputDataRequest → S3Config → W.env.platform.Fs → W.env.platform.Fs
  arrived get c s =
      (download_from_oss W.env.platform W.disk W.oss c (gen_temp_dir W M get.dest_path) s).1

  -- The loop over the temporary directory, and the state that it and its threads leave.
  abbrev pub dec_loop : GetInputDataRequest → W.env.platform.Fs → Loop W.env.platform.Fs
  dec_loop get s =
      decrypt_loop W.env.platform W.disk (W.schedule (gen_temp_dir W M get.dest_path))
        (gen_temp_dir W M get.dest_path) get.dest_path key s

  abbrev pub dec_state : GetInputDataRequest → W.env.platform.Fs → W.env.platform.Fs
  dec_state get s =
      (decrypt_directory W.env.platform W.disk (W.schedule (gen_temp_dir W M get.dest_path))
        (gen_temp_dir W M get.dest_path) get.dest_path key s).1

  -- Files of the object store are got, with a key of the request or of the capsule manager. The temporary directory is
  -- removed before and after; one of the objects on the page that is listed was encrypted with the key, from a content
  -- that is not empty and below 2 ^ 62 bytes, and no other key of the page shares its path. The loop over
  -- the temporary directory does not throw, loop and threads keep out of each other's way, each thread can
  -- decrypt its file, and one of them is for the file of this object. Then the request succeeds, whenever the
  -- threads end, and the content is at that thread's destination.
  pub get_input_data_downloaded :
      (get : GetInputDataRequest) (c : S3Config) (v t t1 t4 : W.env.platform.Fs)
      (pairs : List (Str × Str)) (b : Task) (name sealed_to : Str) (content : Bytes)
      → get.s3_config ≡ some c
      → KeyFrom W M get.data_key_b64 get.cm_resource_config v key t
      → W.disk.remove_all (gen_temp_dir W M get.dest_path) t ≡ (ok tt, t1)
      → I.object (get_oss_client c) c.bucket name t1
        ≡ some (sealed_file W.env.platform key (W.rand sealed_to) content)
      → 0 < length content
      → length content < 2 ^ 62
      → Memᴰ name (I.listed (get_oss_client c) c.bucket c.path t1)
      → ((j : Str)
          → Memᴰ j (I.listed (get_oss_client c) c.bucket c.path t1)
          → download_path W.env.platform W.disk t1 c.path (gen_temp_dir W M get.dest_path) j
            ≡ download_path W.env.platform W.disk t1 c.path (gen_temp_dir W M get.dest_path) name
          → j ≡ name)
      → IsDir W.env.platform W.disk (arrived get c t1) (gen_temp_dir W M get.dest_path)
      → IsSafe W.env.platform W.disk L
          (decrypt_item W.env.platform W.disk (gen_temp_dir W M get.dest_path) get.dest_path)
          (W.disk.visits (arrived get c t1) (gen_temp_dir W M get.dest_path))
          pairs
      → (dec_loop get (arrived get c t1)).ended ≡ ok tt
      → ((u : Task)
          → Memᴰ u (dec_loop get (arrived get c t1)).launched
          → (w : Bytes) × (decrypt_file W.env.platform
                (dec_state get (arrived get c t1))
                u.source
                u.dest
                key
              ≡ ok w))
      → Memᴰ b (dec_loop get (arrived get c t1)).launched
      → b.source
        ≡ download_path W.env.platform W.disk t1 c.path (gen_temp_dir W M get.dest_path) name
      → W.disk.remove_all (gen_temp_dir W M get.dest_path) (dec_state get (arrived get c t1))
        ≡ (ok tt, t4)
      → L.content t4 b.dest ≡ L.content (dec_state get (arrived get c t1)) b.dest
      → (get_input_data W M get v ≡ (ok (success success_status), t4))
        × (L.content t4 b.dest ≡ some content)
  unfolding decrypt_directory join_all
  get_input_data_downloaded get c v t t1 t4 pairs b name sealed_to content s3 from removed stored
        pos small page alone dir safe good all m at removed' kept =
      let P = W.env.platform in
      let temp = gen_temp_dir W M get.dest_path in
      let schedule = W.schedule temp in
      let t2 = arrived get c t1 in
      let whole = sealed_file P key (W.rand sealed_to) content in
      let (ran, lands) =
        download_from_oss-Lands P W.disk L W.oss I c temp name whole t1 stored page alone in
      let (r, tasks, files, rest) =
        decrypted_loop P W.disk L schedule temp get.dest_path key t2 pairs safe in
      let (pair, same, o) = tasks b m in
      let there : L.content (dec_loop get t2).state b.source ≡ some whole = same ∙ rw at lands in
      let opened =
        opened_task P Q W.disk L key k W.rand fresh opens (dec_loop get t2).state sealed_to b
          content (safe.independent (b.source, b.dest) (b.source, b.dest) pair pair).0 pos small o
          there in
      let ended =
        r good
        ∙ all_succeed (λ s src dest. decrypt_file P s src dest key) (dec_loop get t2).state
            (dec_loop get t2).launched all in
      let got =
        decrypt_dir P W.disk schedule temp get.dest_path key t2 dir
        ∙ done (decrypt_directory P W.disk schedule temp get.dest_path key t2) ended in
      let fetched : Fetched W M get.s3_config get.local_fs_path get.dest_path key t t4 = rw s3 (
        t1,
        t2,
        dec_state get t2,
        removed,
        done (download_from_oss P W.disk W.oss c temp t1) ran,
        got,
        removed',
      ) in
      (
        (get_input_data_iff W M get success_status v t4).1 (refl, key, t, from, fetched),
        kept ∙ files b content m opened,
      )

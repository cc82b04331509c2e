-- ===== src/Proxy/Capsule/StoreTests.antt =====
-- A directory of one file that goes to a store in memory, and comes back.
use mathlib.Core.List.{Memᴰ}
use trustflow.Base.{
  ◌≡◌, ◌≢◌, ◌⊎◌, Bool-cases, refl, ap, true, inl, inr, none, some, arith, [], ◌∷◌, ◌++◌, Bytes, sym,
  Str, codes, str_eq, str_eq_iff, replicate,
}
use trustflow.Error.{ok}
use trustflow.CryptoUtil.Sample.{
  platform_of-IsPlatform, open_path, opens_path, key, content, written,
}
use trustflow.CryptoUtil.Word.{int_to_bytes, bytes_to_int, join_bytes}
use trustflow.CryptoUtil.Block.{
  encrypt_data_block, encrypt_with_key, block_writes, decrypt_data_block, decrypt_with_key,
}
use trustflow.CryptoUtil.File.{
  encrypt_file, packets, header_writes, encrypt_blocks, decrypt_file, read_header, read_blocks,
  check_header, decrypt_blocks,
}
use trustflow.CryptoUtil.File.Laws.{sealed_file}
use trustflow.CryptoUtil.File.RoundTrip.{encrypt_file-sealed_file}
use trustflow.CryptoUtil.Tasks.{
  Task, start, emplace, after_round, task_at, has_ended, end_thread, one_round, end_at, step, steps,
  rounds, wait, run_loop, get, get_all, join_all,
}
use trustflow.CryptoUtil.Directory.{
  written_to, make_parent, encrypt_item, encrypt_loop, decrypt_loop, decrypt_item,
  decrypt_directory, encrypt_directory,
}
use trustflow.CryptoUtil.Directory.RoundTrip.{IsReady}
use trustflow.CryptoUtil.Directory.Sample.{schedule, one-IsSafe}
use trustflow.CryptoUtil.Directory.Safe.{IsSafe}
use trustflow.Proxy.{success_status, success}
use trustflow.Proxy.Sample.{env_of}
use trustflow.Proxy.Oss.{
  S3Config, get_oss_client, succeeded, upload_to_oss, upload_items, upload_file, download_from_oss,
  download_objects, download_path,
}
use trustflow.Proxy.Oss.Sample.{
  Both, machine, machine_disk, machine_disk-IsDisk, machine_store, machine_store-IsStore,
}
use trustflow.Proxy.Capsule.{
  GetInputDataRequest, get_input_data, PutResultDataRequest, CapsuleProxy, World, gen_temp_dir,
  put_result_data,
}
use trustflow.Proxy.Capsule.Downloaded.{get_input_data_downloaded}
use trustflow.Proxy.Capsule.Uploaded.{put_result_data_uploaded}

abbrev world : World
world = record {
  env = env_of machine;
  disk = machine_disk;
  oss = machine_store;
  schedule = λ source. schedule;
  rand = λ dest i. replicate 12 i;
}

abbrev proxy : CapsuleProxy
proxy = record {
  cm_endpoint = codes "cm";
  plat = codes "tdx";
  cert = codes "c";
  private_key = codes "k";
}

abbrev config : S3Config
config = record {
  endpoint = codes "e";
  bucket = codes "b";
  path = codes "d";
  access_key_id = [];
  access_key_secret = [];
  sts_token = [];
}

abbrev request : PutResultDataRequest
request = record {
  src_path = codes "in";
  data_key_b64 = replicate 16 7;
  s3_config = some config;
  local_fs_path = none;
  cm_result_config = record { endpoint = []; scope = []; resource_uri = []; ancestor_uuids = [] };
}

-- The temporary directory, after the digest of the source path.
abbrev temp : Str
temp = codes "/tmp/" ++ replicate 32 7

abbrev to_temp : Task
to_temp = record { index = 0; source = codes "in/a"; dest = temp ++ codes "/a.enc" }

abbrev before : Both
before = ((codes "in/a", content) ∷ [], [])

abbrev sealed : Both
sealed = ((temp ++ codes "/a.enc", written) ∷ before.0, [])

abbrev after : Both
after = (before.0, (codes "d/a.enc", written) ∷ [])

in-ne-temp : temp ++ codes "/a.enc" ≢ codes "in/a"
unfolding str_eq
in-ne-temp e =
    let same : str_eq (temp ++ codes "/a.enc") (codes "in/a") ≡ true =
      (str_eq_iff (temp ++ codes "/a.enc") (codes "in/a")).1 e in
    ground arith

machine_parent : (p : Str) (s : Both) → make_parent machine machine_disk p s ≡ (ok tt, s)
unfolding make_parent
machine_parent p s = ground arith

enc_round :
    (s : Both)
    → (encrypt_item machine machine_disk (codes "in") temp (codes "in/a") s
        ≡ (ok (some (codes "in/a", temp ++ codes "/a.enc")), s))
      ⊎ (encrypt_item machine machine_disk (codes "in") temp (codes "in/a") s ≡ (ok none, s))
unfolding encrypt_item
enc_round s = elim (Bool-cases (machine_disk.is_regular_file s (codes "in/a"))) [
  | inl file ↦ inl (rw (file, machine_parent (temp ++ codes "/a.enc") s))
  | inr other ↦ inr (rw other)
]

enc-IsSafe :
    IsSafe machine machine_disk machine_disk-IsDisk
      (encrypt_item machine machine_disk (codes "in") temp)
      (codes "in/a" ∷ [])
      ((codes "in/a", temp ++ codes "/a.enc") ∷ [])
enc-IsSafe =
    one-IsSafe machine machine_disk machine_disk-IsDisk
      (encrypt_item machine machine_disk (codes "in") temp) (codes "in/a") (temp ++ codes "/a.enc")
      (λ s. refl) in-ne-temp enc_round

ready :
    (p : Str × Str)
    → Memᴰ p ((codes "in/a", temp ++ codes "/a.enc") ∷ [])
    → IsReady machine
        (platform_of-IsPlatform {Files = Both} λ s path. open_path s.0 path)
        machine_disk
        machine_disk-IsDisk
        key
        (inl refl)
        world.rand
        (λ path i. refl)
        (λ p c s e. opens_path p c s.0 e)
        before
        p
unfolding str_eq
ready p (Memᴰ.head e) = rw e (content, refl, omega arith, omega arith)
ready p (Memᴰ.tail n) = elim n [ ]

only_one :
    (i : Str)
    → Memᴰ {A = Str × Str} (i, codes "d/a.enc") ((temp ++ codes "/a.enc", codes "d/a.enc") ∷ [])
    → i ≡ temp ++ codes "/a.enc"
only_one i (Memᴰ.head e) = ap (λ (p : Str × Str). p.0) e
only_one i (Memᴰ.tail n) = elim n [ ]

put_result_data_uploaded_example :
    (put_result_data world proxy request before ≡ (ok (success success_status), after))
    × (machine_store-IsStore.object (get_oss_client config) (codes "b") (codes "d/a.enc") after
        ≡ some (sealed_file machine key (world.rand (temp ++ codes "/a.enc")) content))
unfolding gen_temp_dir encrypt_directory encrypt_loop encrypt_item make_parent str_eq run_loop start
    steps step one_round after_round emplace task_at end_at end_thread has_ended rounds wait get
    get_all join_all written_to encrypt_file packets header_writes int_to_bytes encrypt_blocks
    encrypt_data_block encrypt_with_key block_writes upload_to_oss upload_items upload_file
    succeeded get_oss_client
put_result_data_uploaded_example =
    put_result_data_uploaded world proxy
      (platform_of-IsPlatform {Files = Both} λ s path. open_path s.0 path) machine_disk-IsDisk
      machine_store-IsStore key (inl refl) (λ path i. refl) (λ p c s e. opens_path p c s.0 e)
      request config before before after after ((codes "in/a", temp ++ codes "/a.enc") ∷ []) to_temp
      (codes "d/a.enc") content refl (refl, refl) (refl, refl, refl) enc-IsSafe refl ready refl
      (inr refl) refl (λ _. refl, λ no. cc no) refl (Memᴰ.head refl) refl (Memᴰ.head refl) only_one

abbrev get_request : GetInputDataRequest
get_request = record {
  dest_path = codes "out";
  data_key_b64 = some (replicate 16 7);
  cm_resource_config = none;
  s3_config = some config;
  local_fs_path = none;
}

abbrev stored : Both
stored = ([], after.1)

abbrev fetched : Both
fetched = ((temp ++ codes "/a.enc", written) ∷ [], after.1)

abbrev restored : Both
restored = ((codes "out/a", content) ∷ [], after.1)

abbrev to_out : Task
to_out = record { index = 0; source = temp ++ codes "/a.enc"; dest = codes "out/a" }

temp-ne-out : codes "out/a" ≢ temp ++ codes "/a.enc"
unfolding str_eq
temp-ne-out e =
    let same : str_eq (codes "out/a") (temp ++ codes "/a.enc") ≡ true =
      (str_eq_iff (codes "out/a") (temp ++ codes "/a.enc")).1 e in
    ground arith

dec_round :
    (s : Both)
    → (decrypt_item machine machine_disk temp (codes "out") (temp ++ codes "/a.enc") s
        ≡ (ok (some (temp ++ codes "/a.enc", codes "out/a")), s))
      ⊎ (decrypt_item machine machine_disk temp (codes "out") (temp ++ codes "/a.enc") s
          ≡ (ok none, s))
unfolding decrypt_item str_eq
dec_round s = elim (Bool-cases (machine_disk.is_regular_file s (temp ++ codes "/a.enc"))) [
  | inl file ↦ inl (rw (file, machine_parent (codes "out/a.enc") s))
  | inr other ↦ inr (rw other)
]

dec-IsSafe :
    IsSafe machine machine_disk machine_disk-IsDisk
      (decrypt_item machine machine_disk temp (codes "out"))
      ((temp ++ codes "/a.enc") ∷ [])
      ((temp ++ codes "/a.enc", codes "out/a") ∷ [])
dec-IsSafe =
    one-IsSafe machine machine_disk machine_disk-IsDisk
      (decrypt_item machine machine_disk temp (codes "out")) (temp ++ codes "/a.enc")
      (codes "out/a") (λ s. refl) temp-ne-out dec_round

-- The files once the thread has ended: it can decrypt its file again.
abbrev both : Both
both = ((codes "out/a", content) ∷ fetched.0, after.1)

decrypted :
    (u : Task)
    → Memᴰ u (to_out ∷ [])
    → (w : Bytes) × (decrypt_file machine both u.source u.dest key ≡ ok w)
unfolding str_eq decrypt_file read_header read_blocks bytes_to_int join_bytes check_header
    decrypt_blocks decrypt_data_block decrypt_with_key
decrypted u (Memᴰ.head e) = rw e (content, refl)
decrypted u (Memᴰ.tail n) = elim n [ ]

only_listed : (j : Str) → Memᴰ j (codes "d/a.enc" ∷ []) → j ≡ codes "d/a.enc"
only_listed j (Memᴰ.head e) = e
only_listed j (Memᴰ.tail n) = elim n [ ]

written_is : sealed_file machine key (world.rand (codes "enc")) content ≡ written
unfolding str_eq encrypt_file packets header_writes int_to_bytes encrypt_blocks encrypt_data_block
    encrypt_with_key block_writes
written_is =
    let made : ok written ≡ ok (sealed_file machine key (world.rand (codes "enc")) content) =
      encrypt_file-sealed_file machine
        (platform_of-IsPlatform {Files = Both} λ s path. open_path s.0 path) key (inl refl)
        (world.rand (codes "enc")) (λ i. refl) before (codes "in/a") (temp ++ codes "/a.enc")
        content (3, content) (λ e. in-ne-temp (sym e)) refl refl refl (omega arith) in
    cc

get_input_data_downloaded_example :
    (get_input_data world proxy get_request stored ≡ (ok (success success_status), restored))
    × (machine_disk-IsDisk.content restored (codes "out/a") ≡ some content)
unfolding gen_temp_dir download_from_oss download_objects download_path decrypt_directory
    decrypt_loop decrypt_item make_parent str_eq run_loop start steps step one_round after_round
    emplace task_at end_at end_thread has_ended rounds wait get get_all join_all written_to
    decrypt_file read_header read_blocks bytes_to_int join_bytes check_header decrypt_blocks
    decrypt_data_block decrypt_with_key succeeded get_oss_client int_to_bytes header_writes packets
    block_writes
get_input_data_downloaded_example =
    get_input_data_downloaded world proxy
      (platform_of-IsPlatform {Files = Both} λ s path. open_path s.0 path) machine_disk-IsDisk
      machine_store-IsStore key (inl refl) (λ path i. refl) (λ p c s e. opens_path p c s.0 e)
      get_request config stored stored stored restored
      ((temp ++ codes "/a.enc", codes "out/a") ∷ []) to_out (codes "d/a.enc") (codes "enc") content
      refl (refl, refl) refl (rw written_is) (omega arith) (omega arith) (Memᴰ.head refl)
      (λ j m _. only_listed j m) (refl, refl, refl) dec-IsSafe refl decrypted (Memᴰ.head refl) refl
      refl refl

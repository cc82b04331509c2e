-- ===== src/Proxy/Capsule/Tests.antt =====
-- Requests to the proxy at a disk of two files.
use trustflow.Base.{inl, ◌≡◌, ap, ◌↔◌, refl, some, none, [], ◌∷◌, codes, str_eq, replicate}
use trustflow.Error.{ok}
use trustflow.CryptoUtil.Sample.{Files, shelf, shelf_disk}
use trustflow.CryptoUtil.Tasks.{
  start, emplace, after_round, task_at, has_ended, end_thread, one_round, end_at, step, steps,
  rounds, wait, run_loop, get, get_all, join_all,
}
use trustflow.CryptoUtil.Directory.{
  make_parent, decrypt_item, decrypt_loop, decrypt_directory, by_kind, decrypt_to_dir,
}
use trustflow.Proxy.{success_status, success, caught}
use trustflow.Proxy.Oss.{Oss, OssOutcome}
use trustflow.Proxy.Capsule.{
  GetInputDataRequest, PutResultDataRequest, CapsuleProxy, World, input_key, fetch,
  run_get_input_data, get_input_data, put_result_data,
}
use trustflow.Proxy.Capsule.Results.{PutsResult, put_result_data_iff}
use trustflow.Proxy.Capsule.{run_put_result_data, result_key, put, register_result}
use trustflow.Proxy.Capsule.RoundTrip.{get_input_data-put_result_data}
use trustflow.CryptoUtil.Directory.{encrypt_to_dir}
use trustflow.CryptoUtil.Directory.Sample.{
  plain, sealed, schedule, to_enc, to_out, enc-IsSafe, out-IsSafe, enc_good, out_good, enc_launched,
  out_launched, copied, encrypted, plain-IsReady, sealed-IsCopy,
}
use trustflow.CryptoUtil.Sample.{
  open_path, shelf_disk-IsDisk, platform_of-IsPlatform, opens_path, key, content,
}
use trustflow.Proxy.Sample.{env_of}

-- An object store that is empty, and keeps nothing.
abbrev no_store : Oss Files
no_store = record {
  list_objects = λ client bucket prefix s. (OssOutcome.success [], s);
  download_object = λ client bucket key dest s. (OssOutcome.success tt, s);
  upload_object = λ client bucket key src s. (OssOutcome.success tt, s);
}

abbrev world : World
world = record {
  env = env_of shelf;
  disk = shelf_disk;
  oss = no_store;
  schedule = λ source. schedule;
  rand = λ dest i. replicate 12 i;
}

abbrev proxy : CapsuleProxy
proxy = record {
  cm_endpoint = codes "cm";
  plat = codes "tdx";
  cert = codes "c";
  private_key = codes "k";
}

abbrev files : Files
files = (codes "in/a", codes "A") ∷ (codes "in/b", codes "B") ∷ []

abbrev decrypted : Files
decrypted = (codes "out/b", codes "B") ∷ (codes "out/a", codes "A") ∷ files

abbrev get_request : GetInputDataRequest
get_request = record {
  dest_path = codes "out";
  data_key_b64 = some (replicate 16 7);
  cm_resource_config = none;
  s3_config = none;
  local_fs_path = some (codes "in");
}

-- Files without the suffix are copied.
plain_copied :
    get_input_data world proxy get_request files ≡ (ok (success success_status), decrypted)
unfolding get_input_data run_get_input_data input_key fetch decrypt_to_dir by_kind decrypt_directory
    decrypt_loop decrypt_item make_parent run_loop start steps step one_round after_round emplace
    task_at end_at end_thread has_ended rounds wait get get_all join_all str_eq caught
plain_copied = refl

abbrev put_request : PutResultDataRequest
put_request = record {
  src_path = codes "in";
  data_key_b64 = replicate 16 7;
  s3_config = none;
  local_fs_path = some (codes "enc");
  cm_result_config = record { endpoint = []; scope = []; resource_uri = []; ancestor_uuids = [] };
}

put_there : put_result_data world proxy put_request plain ≡ (ok (success success_status), sealed)
unfolding put_result_data run_put_result_data result_key put register_result encrypt_to_dir by_kind
    str_eq caught
put_there = rw encrypted

put_result_data_iff_example :
    (put_result_data world proxy put_request plain ≡ (ok (success success_status), sealed))
    ↔ PutsResult world proxy put_request success_status plain sealed
put_result_data_iff_example =
    put_result_data_iff world proxy put_request success_status plain sealed

abbrev back_request : GetInputDataRequest
back_request = record {
  dest_path = codes "out";
  data_key_b64 = some (replicate 16 7);
  cm_resource_config = none;
  s3_config = none;
  local_fs_path = some (codes "enc");
}

get_input_data-put_result_data_example :
    (put_result_data world proxy put_request plain ≡ (ok (success success_status), sealed))
    × ((get_input_data world proxy back_request sealed).0 ≡ ok (success success_status))
    × (shelf_disk-IsDisk.content (get_input_data world proxy back_request sealed).1 (codes "out/a")
        ≡ some content)
unfolding str_eq
get_input_data-put_result_data_example =
    get_input_data-put_result_data world proxy (platform_of-IsPlatform open_path) shelf_disk-IsDisk
      key (inl refl) (λ path i. refl) opens_path put_request back_request (codes "enc")
      (codes "enc") plain plain sealed sealed sealed ((codes "in/a", codes "enc/a.enc") ∷ [])
      ((codes "enc/a.enc", codes "out/a") ∷ []) to_enc to_out content enc-IsSafe enc_good
      plain-IsReady refl refl refl refl (refl, refl) (refl, refl, refl)
      (λ _. ap (λ r. r.1) encrypted, λ no. cc no) (refl, refl) (refl, refl, refl) out-IsSafe
      out_good sealed-IsCopy enc_launched out_launched copied refl

-- ===== src/Proxy/Oss.antt =====
-- data_capsule_proxy/oss_client.cc: files to and from an object store.
pub mod Store
pub mod Sent
pub mod RoundTrip
pub mod Sample
mod Tests
use trustflow.Base.{
  Option, none, some, List, [], ◌∷◌, Str, String, codes, str_eq, is_empty, if◌then◌else◌, not,
}
use trustflow.Error.{text}
use trustflow.Action.{Action, pure, call, enforce, yacl_throw, ◌>>=◌, ◌>>◌}
use trustflow.CryptoUtil.Platform.{Platform}
use trustflow.CryptoUtil.Disk.{Disk}
use trustflow.CryptoUtil.Directory.{make_parent}

-- `AlibabaCloud::OSS::OssClient`, by the arguments of its constructor.
pub record OssClient : Type 0 where
  pub endpoint : Str
  pub ak : Str
  pub sk : Str
  pub sts_token : Option Str

-- What a call of the SDK gives: a result, or an error's code and message.
pub data OssOutcome (A : Type 0) : Type 0 where
  success : A → OssOutcome A
  failure : Str → Str → OssOutcome A

-- The calls of the SDK: bucket and prefix, or bucket, key and path of the file.
pub record Oss (S : Type 0) : Type 0 where
  pub list_objects : OssClient → Str → Str → S → OssOutcome (List Str) × S
  pub download_object : OssClient → Str → Str → Str → S → OssOutcome (Unit {0}) × S
  pub upload_object : OssClient → Str → Str → Str → S → OssOutcome (Unit {0}) × S

-- `S3Config`
pub record S3Config : Type 0 where
  pub endpoint : Str
  pub bucket : Str
  pub path : Str
  pub access_key_id : Str
  pub access_key_secret : Str
  pub sts_token : Str

unfoldable pub get_oss_client : S3Config → OssClient
get_oss_client c = record {
  endpoint = c.endpoint;
  ak = c.access_key_id;
  sk = c.access_key_secret;
  sts_token = if is_empty c.sts_token then none else some c.sts_token;
}

-- `YACL_ENFORCE(outcome.isSuccess(), ...)`, and the result.
unfoldable pub succeeded : {S A : Type 0} → String → OssOutcome A → Action S A
succeeded template (success a) = pure a
succeeded template (failure code message) = yacl_throw template (text code ∷ text message ∷ [])

module _ (P : Platform) (D : Disk P) where
  -- Where an object goes: an object that is `src_path` itself keeps its file name.
  unfoldable pub download_path : P.Fs → Str → Str → Str → Str
  download_path s src_path dest_path key =
      let relative_path = D.relative s key src_path in
      if str_eq relative_path (codes ".")
      then D.join dest_path (D.filename key)
      else D.join dest_path relative_path

module _ (P : Platform) (D : Disk P) (O : Oss P.Fs) where
  unfoldable pub download_objects : OssClient → Str → Str → Str → List Str → Action P.Fs (Unit {0})
  download_objects client bucket src_path dest_path [] s = pure tt s
  download_objects client bucket src_path dest_path (key ∷ keys) s =
      let dest_object_path = download_path P D s src_path dest_path key in
      (do
        make_parent P D dest_object_path
        outcome ← call (O.download_object client bucket key dest_object_path)
        succeeded "oss download object failed, error {}: {}" outcome
        download_objects client bucket src_path dest_path keys)
        s

  unfoldable pub download_from_oss : S3Config → Str → Action P.Fs (Unit {0})
  download_from_oss c dest_path = do
    let client = get_oss_client c
    outcome ← call (O.list_objects client c.bucket c.path)
    keys ← succeeded "oss list object failed, error {}: {}" outcome
    enforce (not (is_empty keys)) "no object found in {}" (text c.path ∷ [])
    download_objects client c.bucket c.path dest_path keys

  unfoldable pub upload_file : OssClient → Str → Str → Str → Action P.Fs (Unit {0})
  upload_file client bucket path dest_object_path = do
    outcome ← call (O.upload_object client bucket dest_object_path path)
    succeeded "oss upload object failed, error {}: {}" outcome

  unfoldable pub upload_items : OssClient → Str → Str → Str → List Str → Action P.Fs (Unit {0})
  upload_items client bucket src_path dest_path [] s = pure tt s
  upload_items client bucket src_path dest_path (item ∷ items) s =
      let dest_object_path = D.join dest_path (D.relative s item src_path) in
      let uploaded =
        if D.is_regular_file s item
        then upload_file client bucket item dest_object_path
        else pure tt in
      (uploaded >> upload_items client bucket src_path dest_path items) s

  unfoldable pub upload_to_oss : S3Config → Str → Action P.Fs (Unit {0})
  upload_to_oss c src_path s =
      let client = get_oss_client c in
      let dest_object_path = D.join c.path (D.filename src_path) in
      let uploaded =
        if D.is_regular_file s src_path
        then upload_file client c.bucket src_path dest_object_path
        else if D.is_directory s src_path
        then upload_items client c.bucket src_path c.path (D.visits s src_path)
        else yacl_throw "src_path is not a file or directory" [] in
      (enforce (D.exists s src_path) "src_path {} not exists" (text src_path ∷ []) >> uploaded) s

-- ===== src/Proxy/Oss/Tests.antt =====
-- A store with one object, and a directory that goes to a store and back.
use mathlib.Core.List.{Memᴰ}
use trustflow.Proxy.Oss.Sample.{
  Both, machine, machine_disk, machine_disk-IsDisk, machine_store, machine_store-IsStore,
}
use trustflow.CryptoUtil.Sample.{content_of}
use trustflow.Proxy.Oss.{upload_to_oss, upload_items, upload_file}
use trustflow.Proxy.Oss.RoundTrip.{download_from_oss-upload_to_oss}
use trustflow.Base.{some, arith, Str, List, ap, inr, ◌≡◌, refl, [], ◌∷◌, codes, str_eq}
use trustflow.Error.{ok}
use trustflow.CryptoUtil.Sample.{Files, shelf, shelf_disk}
use trustflow.CryptoUtil.Directory.{make_parent}
use trustflow.Proxy.Oss.{
  OssOutcome, Oss, S3Config, get_oss_client, succeeded, download_path, download_objects,
  download_from_oss,
}

abbrev store : Oss Files
store = record {
  list_objects = λ client bucket prefix s. (OssOutcome.success (codes "d/a" ∷ []), s);
  download_object = λ client bucket key dest s. (OssOutcome.success tt, (dest, codes "A") ∷ s);
  upload_object = λ client bucket key src s. (OssOutcome.success tt, s);
}

abbrev config : S3Config
config = record {
  endpoint = codes "e";
  bucket = codes "b";
  path = codes "d";
  access_key_id = [];
  access_key_secret = [];
  sts_token = [];
}

abbrev fetched : Files
fetched = (codes "t/a", codes "A") ∷ []

done : download_from_oss shelf shelf_disk store config (codes "t") [] ≡ (ok tt, fetched)
unfolding download_from_oss get_oss_client succeeded download_objects download_path make_parent
    str_eq
done = refl

-- Three files, one of them not under the directory.
abbrev machine_files : Both
machine_files = (
  (codes "in/a", codes "A") ∷ (codes "in/b", codes "B") ∷ (codes "i", codes "C") ∷ [],
  (codes "d/a", codes "old") ∷ [],
)

-- The new object is put in front of the old one.
abbrev uploaded_files : Both
uploaded_files =
    (machine_files.0, (codes "d/b", codes "B") ∷ (codes "d/a", codes "A") ∷ machine_files.1)

uploaded :
    upload_to_oss machine machine_disk machine_store config (codes "in") machine_files
    ≡ (ok tt, uploaded_files)
unfolding upload_to_oss upload_items upload_file succeeded get_oss_client str_eq
uploaded = refl

abbrev listed : List Str
listed = codes "d/b" ∷ codes "d/a" ∷ codes "d/a" ∷ []

only_a :
    (i : Str)
    → Memᴰ {A = Str × Str}
        (i, codes "d/a")
        ((codes "in/a", codes "d/a") ∷ (codes "in/b", codes "d/b") ∷ [])
    → content_of machine_files.0 i ≡ some (codes "A")
unfolding str_eq
only_a i (Memᴰ.head e) = rw (ap (λ (p : Str × Str). p.0) e)
only_a i (Memᴰ.tail (Memᴰ.head e)) = absurd (ground (arith, ap (λ (p : Str × Str). p.1) e))
only_a i (Memᴰ.tail (Memᴰ.tail n)) = elim n [ ]

apart :
    (j : Str)
    → Memᴰ j listed
    → download_path machine machine_disk uploaded_files (codes "d") (codes "t") j
      ≡ download_path machine machine_disk uploaded_files (codes "d") (codes "t") (codes "d/a")
    → j ≡ codes "d/a"
unfolding download_path str_eq
apart j (Memᴰ.head e) same = absurd (ground (arith, rw e at same))
apart j (Memᴰ.tail (Memᴰ.head e)) same = e
apart j (Memᴰ.tail (Memᴰ.tail (Memᴰ.head e))) same = e
apart j (Memᴰ.tail (Memᴰ.tail (Memᴰ.tail n))) same = elim n [ ]

download_from_oss-upload_to_oss_example :
    ((upload_to_oss machine machine_disk machine_store config (codes "in") machine_files).0 ≡ ok tt)
    × ((download_from_oss machine machine_disk machine_store config
          (codes "t")
          (upload_to_oss machine machine_disk machine_store config (codes "in") machine_files).1).0
        ≡ ok tt)
    × (content_of
          (download_from_oss machine machine_disk machine_store config
            (codes "t")
            (upload_to_oss machine machine_disk machine_store config
              (codes "in")
              machine_files).1).1.0
          (download_path machine machine_disk
            (upload_to_oss machine machine_disk machine_store config (codes "in") machine_files).1
            (codes "d")
            (codes "t")
            (codes "d/a"))
        ≡ some (codes "A"))
unfolding str_eq
download_from_oss-upload_to_oss_example =
    download_from_oss-upload_to_oss machine machine_disk machine_disk-IsDisk machine_store
      machine_store-IsStore config (codes "in") (codes "t") (codes "in/a") (codes "d/a") (codes "A")
      machine_files refl (inr refl) (Memᴰ.head refl) only_a
      (rw uploaded (Memᴰ.tail (Memᴰ.head refl))) (rw uploaded apart)

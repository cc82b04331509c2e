-- ===== src/Proxy/Oss/Sample.antt =====
-- A disk and an object store in memory, side by side.
use mathlib.Core.List.{Memᴰ}
use trustflow.Base.{
  true, ◌≡◌, ◌≢◌, refl, Option, some, none, [], ◌∷◌, Bytes, Str, str_eq, str_eq_refl, str_eq_of_ne,
  Bool-cases, inl, inr, arith,
}
use trustflow.Error.{ok}
use trustflow.CryptoUtil.Platform.{Platform}
use trustflow.CryptoUtil.Disk.{Disk, IsDisk}
use trustflow.CryptoUtil.Sample.{
  Files, open_path, open_path-content, platform_of, under, has_file, content_of, copy_file,
  starts_with, shelf_disk,
}
use trustflow.Proxy.Oss.{OssOutcome, Oss}
use trustflow.Proxy.Oss.Store.{IsStore}

-- The files, and the objects of all buckets.
abbrev pub Both : Type 0
Both = Files × Files

abbrev pub machine : Platform
machine = platform_of {Files = Both} λ s path. open_path s.0 path

abbrev pub machine_disk : Disk machine
machine_disk = record {
  exists = λ s p. shelf_disk.exists s.0 p;
  is_regular_file = λ s p. has_file s.0 p;
  is_directory = λ s p. shelf_disk.is_directory s.0 p;
  visits = λ s p. under p s.0;
  create_directories = λ p s. (ok tt, s);
  copy = λ p to s.
      ((copy_file (content_of s.0 p) to s.0).0, ((copy_file (content_of s.0 p) to s.0).1, s.1));
  remove_all = λ p s. (ok tt, ((shelf_disk.remove_all p s.0).1, s.1));
  relative = λ s p base. shelf_disk.relative s.0 p base;
  join = shelf_disk.join;
  filename = shelf_disk.filename;
  parent_path = shelf_disk.parent_path;
  extension = shelf_disk.extension;
  remove_extension = shelf_disk.remove_extension;
  write = λ p b s. ((p, b) ∷ s.0, s.1);
  abandon = λ p s. s;
}

abbrev pub machine_disk-IsDisk : IsDisk machine machine_disk
machine_disk-IsDisk = record {
  content = λ s p. content_of s.0 p;
  content-write = λ p q b s. refl;
  content-abandon = λ p q s ne. refl;
  open_in-content = λ p s t e. open_path-content s.0 p t.0 e;
  open_out-write = λ p q b s. refl;
  open_out-abandon = λ p q s. refl;
}

abbrev upload : Str → Option Bytes → Both → OssOutcome (Unit {0}) × Both
upload key none s = (OssOutcome.failure [] [], s)
upload key (some w) s = (OssOutcome.success tt, (s.0, (key, w) ∷ s.1))

abbrev download : Str → Option Bytes → Both → OssOutcome (Unit {0}) × Both
download path none s = (OssOutcome.failure [] [], s)
download path (some w) s = (OssOutcome.success tt, ((path, w) ∷ s.0, s.1))

abbrev pub machine_store : Oss Both
machine_store = record {
  list_objects = λ c b prefix s. (OssOutcome.success (under prefix s.1), s);
  download_object = λ c b key path s. download path (content_of s.1 key) s;
  upload_object = λ c b key path s. upload key (content_of s.0 path) s;
}

pub written_self : (p : Str) (w : Bytes) (s : Files) → content_of ((p, w) ∷ s) p ≡ some w
written_self p w s = rw (str_eq_refl p)

pub written_other :
    (p q : Str) (w : Bytes) (s : Files) → p ≢ q → content_of ((p, w) ∷ s) q ≡ content_of s q
written_other p q w s ne = rw (str_eq_of_ne p q ne)

pub has_file-content :
    (s : Files) (p : Str) → has_file s p ≡ true → (w : Bytes) × (content_of s p ≡ some w)
has_file-content [] p h = absurd (ground arith)
has_file-content ((q, b) ∷ s) p h = elim (Bool-cases (str_eq q p)) [
  | inl same ↦ (b, rw same)
  | inr other ↦ let (w, e) = has_file-content s p (rw other at h) in (w, rw other e)
]

has_file-cons :
    (p k : Str) (b : Bytes) (s : Files) → has_file s k ≡ true → has_file ((p, b) ∷ s) k ≡ true
has_file-cons p k b s h = ground (arith)

pub under-has_file :
    (base : Str) (s : Files) (k : Str) → Memᴰ k (under base s) → has_file s k ≡ true
under-has_file base [] k m = elim m [ ]
under-has_file base ((p, b) ∷ s) k m = elim (Bool-cases (starts_with p base)) [
  | inl inside ↦
      let m' : Memᴰ k (p ∷ under base s) = rw inside at m in
      elim m' [
        | Memᴰ.head e ↦ rw (e, str_eq_refl p)
        | Memᴰ.tail n ↦ has_file-cons p k b s (under-has_file base s k n)
      ]
  | inr outside ↦
      let m' : Memᴰ k (under base s) = rw outside at m in
      has_file-cons p k b s (under-has_file base s k m')
]

abbrev pub machine_store-IsStore : IsStore machine machine_disk machine_disk-IsDisk machine_store
machine_store-IsStore = record {
  object = λ c b k s. content_of s.1 k;
  listed = λ c b prefix s. under prefix s.1;
  list_objects-listed = λ c b p s. refl;
  listed-object = λ c b p s k m. has_file-content s.1 k (under-has_file p s.1 k m);
  uploads = λ c b k p s w e. (
    (s.0, (k, w) ∷ s.1),
    rw e,
    written_self k w s.1,
    λ j ne. written_other k j w s.1 ne,
    λ q base. refl,
    (λ q. refl, λ q. refl),
  );
  downloads = λ c b k p s w e. (
    ((p, w) ∷ s.0, s.1),
    rw e,
    written_self p w s.0,
    λ q ne. written_other p q w s.0 ne,
    λ q base. refl,
    λ j. refl,
  );
  creates = λ p s. (s, refl, λ q. refl, λ q base. refl, λ c b j. refl);
  regular-content = λ s p h. has_file-content s.0 p h;
}

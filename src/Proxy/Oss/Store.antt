-- ===== src/Proxy/Oss/Store.antt =====
-- An object store at work, and the disk beside it, as their documents say.
use mathlib.Core.List.{Memᴰ}
use trustflow.Base.{true, ◌≡◌, ◌≢◌, refl, ◌∙◌, Option, some, List, Bytes, Str, Bool-cases, inl, inr}
use trustflow.Error.{ok}
use trustflow.CryptoUtil.Platform.{Platform}
use trustflow.CryptoUtil.Disk.{Disk, IsDisk}
use trustflow.CryptoUtil.Directory.{make_parent}
use trustflow.Proxy.Oss.{OssClient, OssOutcome, Oss}

module _ (P : Platform) (D : Disk P) (L : IsDisk P D) where
  -- Paths are resolved as before: no symbolic link is made.
  abbrev pub SamePaths : P.Fs → P.Fs → Type 0
  SamePaths s t = (p base : Str) → D.relative t p base ≡ D.relative s p base

  abbrev pub SameFiles : P.Fs → P.Fs → Type 0
  SameFiles s t =
      ((q : Str) → L.content t q ≡ L.content s q)
      × ((q : Str) → D.is_regular_file t q ≡ D.is_regular_file s q)

-- `listed` are the keys of the page that a call lists.
pub record IsStore (P : Platform) (D : Disk P) (L : IsDisk P D) (O : Oss P.Fs) : Type 0 where
  pub object : OssClient → Str → Str → P.Fs → Option Bytes
  pub listed : OssClient → Str → Str → P.Fs → List Str
  pub list_objects-listed :
      (c : OssClient) (b p : Str) (s : P.Fs)
      → O.list_objects c b p s ≡ (OssOutcome.success (listed c b p s), s)
  pub listed-object :
      (c : OssClient) (b p : Str) (s : P.Fs) (k : Str)
      → Memᴰ k (listed c b p s)
      → (w : Bytes) × (object c b k s ≡ some w)
  -- A file can be uploaded, which changes one object and no file.
  pub uploads :
      (c : OssClient) (b k p : Str) (s : P.Fs) (w : Bytes)
      → L.content s p ≡ some w
      → (t : P.Fs) × (O.upload_object c b k p s ≡ (OssOutcome.success tt, t))
        × (object c b k t ≡ some w)
        × ((j : Str) → k ≢ j → object c b j t ≡ object c b j s)
        × SamePaths P D L s t
        × SameFiles P D L s t
  -- An object can be downloaded, which changes one file and no object.
  pub downloads :
      (c : OssClient) (b k p : Str) (s : P.Fs) (w : Bytes)
      → object c b k s ≡ some w
      → (t : P.Fs) × (O.download_object c b k p s ≡ (OssOutcome.success tt, t))
        × (L.content t p ≡ some w)
        × ((q : Str) → p ≢ q → L.content t q ≡ L.content s q)
        × SamePaths P D L s t
        × ((j : Str) → object c b j t ≡ object c b j s)
  -- Directories can be made, which changes no file and no object.
  pub creates :
      (p : Str) (s : P.Fs)
      → (t : P.Fs) × (D.create_directories p s ≡ (ok tt, t))
        × ((q : Str) → L.content t q ≡ L.content s q)
        × SamePaths P D L s t
        × ((c : OssClient) (b j : Str) → object c b j t ≡ object c b j s)
  pub regular-content :
      (s : P.Fs) (p : Str) → D.is_regular_file s p ≡ true → (w : Bytes) × (L.content s p ≡ some w)

module _ (P : Platform) (D : Disk P) (L : IsDisk P D) (O : Oss P.Fs) (I : IsStore P D L O) where
  -- The directory of a file is there, or it is made.
  pub parent_made :
      (p : Str) (s : P.Fs)
      → (t : P.Fs) × (make_parent P D p s ≡ (ok tt, t))
        × ((q : Str) → L.content t q ≡ L.content s q)
        × SamePaths P D L s t
        × ((c : OssClient) (b j : Str) → I.object c b j t ≡ I.object c b j s)
  unfolding make_parent
  parent_made p s = elim (Bool-cases (D.exists s (D.parent_path p))) [
    | inl there ↦ (s, rw there, λ q. refl, λ q base. refl, λ c b j. refl)
    | inr missing ↦
        let (t, e, files, paths, objects) = I.creates (D.parent_path p) s in
        (t, rw missing e, files, paths, objects)
  ]

  -- One object goes to its path.
  pub received :
      (c : OssClient) (b k p : Str) (s : P.Fs) (w : Bytes)
      → I.object c b k s ≡ some w
      → (t : P.Fs) × (u : P.Fs) × (make_parent P D p s ≡ (ok tt, t))
        × (O.download_object c b k p t ≡ (OssOutcome.success tt, u))
        × (L.content u p ≡ some w)
        × ((q : Str) → p ≢ q → L.content u q ≡ L.content s q)
        × SamePaths P D L s u
        × ((j : Str) → I.object c b j u ≡ I.object c b j s)
  received c b k p s w e =
      let (t, made, files, paths, objects) = parent_made p s in
      let (u, done, there, others, paths', objects') =
        I.downloads c b k p t w (objects c b k ∙ e) in
      (
        t,
        u,
        made,
        done,
        there,
        λ q ne. others q ne ∙ files q,
        λ q base. paths' q base ∙ paths q base,
        λ j. objects' j ∙ objects c b j,
      )

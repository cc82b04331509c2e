-- ===== src/Proxy/Oss/RoundTrip.antt =====
-- `DownloadFromOss` after `UploadToOss`.
use mathlib.Core.List.{Memᴰ}
use trustflow.Base.{
  true, false, ◌≡◌, ◌≢◌, refl, sym, ap, ◌∙◌, ◌⊎◌, inl, inr, Bool-cases, some, List, [], ◌∷◌, Bytes,
  Str, str_eq, str_eq_iff, is_empty, arith,
}
use trustflow.Error.{ok}
use trustflow.CryptoUtil.Platform.{Platform}
use trustflow.CryptoUtil.Disk.{Disk, IsDisk}
use trustflow.Proxy.Oss.{
  OssClient, Oss, S3Config, get_oss_client, succeeded, download_path, download_objects,
  download_from_oss, upload_to_oss,
}
use trustflow.Proxy.Oss.Store.{IsStore, SamePaths, received}
use trustflow.Proxy.Oss.Sent.{sent, OnlySent, upload_to_oss-Arrives}

module _ (P : Platform) (D : Disk P) (L : IsDisk P D) (O : Oss P.Fs) (I : IsStore P D L O) where
  module _ (c : OssClient) (b src dest : Str) where
    -- No other key goes to the path of this one.
    abbrev IsAlone : P.Fs → List Str → Str → Type 0
    IsAlone s keys k =
        (j : Str)
        → Memᴰ j keys
        → download_path P D s src dest j ≡ download_path P D s src dest k
        → j ≡ k

    -- An object that is among the keys, or whose file is there, has its file at the end.
    abbrev Lands : P.Fs → P.Fs → List Str → Type 0
    Lands s t keys =
        (k : Str) (w : Bytes)
        → I.object c b k s ≡ some w
        → IsAlone s keys k
        → (L.content s (download_path P D s src dest k) ≡ some w) ⊎ Memᴰ k keys
        → L.content t (download_path P D s src dest k) ≡ some w

    same_path :
        (s t : P.Fs) (k : Str)
        → SamePaths P D L s t
        → download_path P D t src dest k ≡ download_path P D s src dest k
    unfolding download_path
    same_path s t k paths = rw (paths k src)

    Lands-cons :
        (s u t : P.Fs) (key : Str) (w : Bytes) (keys : List Str)
        → I.object c b key s ≡ some w
        → L.content u (download_path P D s src dest key) ≡ some w
        → ((q : Str) → download_path P D s src dest key ≢ q → L.content u q ≡ L.content s q)
        → SamePaths P D L s u
        → ((j : Str) → I.object c b j u ≡ I.object c b j s)
        → Lands u t keys
        → Lands s t (key ∷ keys)
    Lands-cons s u t key w keys e there others paths objects more k v has alone from =
        let path = download_path P D s src dest k in
        let same = same_path s u k paths in
        let alone' : IsAlone u keys k =
          λ j m q. alone j (Memᴰ.tail m) (sym (same_path s u j paths) ∙ q ∙ same) in
        let from' : (L.content u (download_path P D u src dest k) ≡ some v) ⊎ Memᴰ k keys =
          elim (Bool-cases (str_eq (download_path P D s src dest key) path)) [
            | inl eq ↦
                let at = (str_eq_iff (download_path P D s src dest key) path).0 eq in
                let one : key ≡ k = alone key (Memᴰ.head refl) at in
                let value : some w ≡ some v = sym e ∙ ap (λ j. I.object c b j s) one ∙ has in
                inl (rw same (rw (← at) (there ∙ value)))
            | inr ne ↦
                let apart : download_path P D s src dest key ≢ path =
                  λ q. ground (arith, str_eq_iff (download_path P D s src dest key) path) in
                elim from [
                  | inl old ↦ inl (rw same (others path apart ∙ old))
                  | inr (Memᴰ.head q) ↦ absurd (apart (ap (download_path P D s src dest) (sym q)))
                  | inr (Memᴰ.tail m) ↦ inr m
                ]
          ] in
        rw (← same) (more k v (objects k ∙ has) alone' from')

    all_received :
        (keys : List Str) (s : P.Fs)
        → ((k : Str) → Memᴰ k keys → (w : Bytes) × (I.object c b k s ≡ some w))
        → (t : P.Fs) × (download_objects P D O c b src dest keys s ≡ (ok tt, t)) × Lands s t keys
    unfolding download_objects succeeded
    all_received [] s objects =
        (s, refl, λ k w has alone from. elim from [ inl old ↦ old | inr m ↦ elim m [ ] ])
    all_received (key ∷ keys) s objects =
        let (w, e) = objects key (Memᴰ.head refl) in
        let path = download_path P D s src dest key in
        let (t, u, made, done, there, others, paths, kept) =
          received P D L O I c b key path s w e in
        let (v, run, lands) =
          all_received keys u
            λ k m. (let (w', e') = objects k (Memᴰ.tail m) in (w', kept k ∙ e')) in
        (v, simp (made, done, run), Lands-cons s u v key w keys e there others paths kept lands)

  not_empty : (keys : List Str) (k : Str) → Memᴰ k keys → is_empty keys ≡ false
  not_empty [] k m = elim m [ ]
  not_empty (j ∷ keys) k m = refl

  -- An object on the page that is listed, which no other key of that page shares its path with, is at this path.
  pub download_from_oss-Lands :
      (c : S3Config) (dest key : Str) (w : Bytes) (s : P.Fs)
      → I.object (get_oss_client c) c.bucket key s ≡ some w
      → Memᴰ key (I.listed (get_oss_client c) c.bucket c.path s)
      → ((j : Str)
          → Memᴰ j (I.listed (get_oss_client c) c.bucket c.path s)
          → download_path P D s c.path dest j ≡ download_path P D s c.path dest key
          → j ≡ key)
      → ((download_from_oss P D O c dest s).0 ≡ ok tt)
        × (L.content (download_from_oss P D O c dest s).1 (download_path P D s c.path dest key)
            ≡ some w)
  unfolding download_from_oss succeeded
  download_from_oss-Lands c dest key w s stored page alone =
      let client = get_oss_client c in
      let keys = I.listed client c.bucket c.path s in
      let (u, down, lands) =
        all_received client c.bucket c.path dest keys s
          (I.listed-object client c.bucket c.path s) in
      let list = I.list_objects-listed client c.bucket c.path s in
      let run : download_from_oss P D O c dest s ≡ (ok tt, u) =
        rw (list, not_empty keys key page) down in
      (rw run, rw run (lands key w stored alone (inr page)))

  -- With the store at work, a file or a directory is uploaded and then downloaded with the same configuration. A file that was
  -- sent, that no other content was sent to the key of, whose key is on the page that the store lists, and which no
  -- other key of that page shares its path with, is at this path.
  pub download_from_oss-upload_to_oss :
      (c : S3Config) (src dest item key : Str) (w : Bytes) (s : P.Fs)
      → D.exists s src ≡ true
      → (D.is_regular_file s src ≡ true) ⊎ (D.is_directory s src ≡ true)
      → Memᴰ (item, key) (sent P D s src c.path)
      → OnlySent P D L O I (get_oss_client c) c.bucket s (sent P D s src c.path) key w
      → Memᴰ key (I.listed (get_oss_client c) c.bucket c.path (upload_to_oss P D O c src s).1)
      → ((j : Str)
          → Memᴰ j (I.listed (get_oss_client c) c.bucket c.path (upload_to_oss P D O c src s).1)
          → download_path P D (upload_to_oss P D O c src s).1 c.path dest j
            ≡ download_path P D (upload_to_oss P D O c src s).1 c.path dest key
          → j ≡ key)
      → ((upload_to_oss P D O c src s).0 ≡ ok tt)
        × ((download_from_oss P D O c dest (upload_to_oss P D O c src s).1).0 ≡ ok tt)
        × (L.content
              (download_from_oss P D O c dest (upload_to_oss P D O c src s).1).1
              (download_path P D (upload_to_oss P D O c src s).1 c.path dest key)
            ≡ some w)
  download_from_oss-upload_to_oss c src dest item key w s there kind m only page alone =
      let client = get_oss_client c in
      let (t, up, arrives) = upload_to_oss-Arrives P D L O I c src s there kind in
      let t' = (upload_to_oss P D O c src s).1 in
      let here : t' ≡ t = rw up in
      let stored : I.object client c.bucket key t' ≡ some w =
        rw here (arrives key w only (inr (item, m))) in
      let (done, lands) = download_from_oss-Lands c dest key w t' stored page alone in
      (rw up, done, lands)

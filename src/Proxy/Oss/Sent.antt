-- ===== src/Proxy/Oss/Sent.antt =====
-- What `UploadToOss` sends, and where it is then.
use mathlib.Core.List.{Memᴰ}
use trustflow.Base.{
  true, ◌≡◌, ◌≢◌, refl, sym, ap, ◌∙◌, ◌⊎◌, inl, inr, Bool-cases, some, List, [], ◌∷◌, Bytes, Str,
  str_eq, str_eq_iff, if◌then◌else◌, arith,
}
use trustflow.Error.{ok}
use trustflow.CryptoUtil.Platform.{Platform}
use trustflow.CryptoUtil.Disk.{Disk, IsDisk}
use trustflow.Proxy.Oss.{
  OssClient, Oss, S3Config, get_oss_client, succeeded, upload_file, upload_items, upload_to_oss,
}
use trustflow.Proxy.Oss.Store.{IsStore, SamePaths, SameFiles}

module _ (P : Platform) (D : Disk P) where
  -- The regular files among the items, each with its key.
  abbrev pub sent_items : P.Fs → Str → Str → List Str → List (Str × Str)
  sent_items s src dest [] = []
  sent_items s src dest (item ∷ items) =
      let rest = sent_items s src dest items in
      if D.is_regular_file s item then (item, D.join dest (D.relative s item src)) ∷ rest else rest

  -- A single file, or the files of a directory.
  abbrev pub sent : P.Fs → Str → Str → List (Str × Str)
  sent s src dest =
      if D.is_regular_file s src
      then (src, D.join dest (D.filename src)) ∷ []
      else sent_items s src dest (D.visits s src)

module _ (P : Platform) (D : Disk P) (L : IsDisk P D) (O : Oss P.Fs) (I : IsStore P D L O)
    (c : OssClient) (b : Str) where
  sent_items-kept :
      (src dest : Str) (items : List Str) (s t : P.Fs)
      → SamePaths P D L s t
      → SameFiles P D L s t
      → sent_items P D t src dest items ≡ sent_items P D s src dest items
  sent_items-kept src dest [] s t paths files = refl
  sent_items-kept src dest (item ∷ items) s t paths files =
      rw (files.1 item, paths item src, sent_items-kept src dest items s t paths files)

  -- Whatever is sent to the key has this content.
  abbrev pub OnlySent : P.Fs → List (Str × Str) → Str → Bytes → Type 0
  OnlySent s pairs k w = (i : Str) → Memᴰ (i, k) pairs → L.content s i ≡ some w

  -- An object that is there, or that is sent, is there at the end.
  abbrev pub Arrives : P.Fs → P.Fs → List (Str × Str) → Type 0
  Arrives s t pairs =
      (k : Str) (w : Bytes)
      → OnlySent s pairs k w
      → (I.object c b k s ≡ some w) ⊎ ((i : Str) × Memᴰ (i, k) pairs)
      → I.object c b k t ≡ some w

  Arrives-cons :
      (s u t : P.Fs) (item key : Str) (w : Bytes) (pairs : List (Str × Str))
      → L.content s item ≡ some w
      → I.object c b key u ≡ some w
      → ((j : Str) → key ≢ j → I.object c b j u ≡ I.object c b j s)
      → ((q : Str) → L.content u q ≡ L.content s q)
      → Arrives u t pairs
      → Arrives s t ((item, key) ∷ pairs)
  Arrives-cons s u t item key w pairs e there others files more k v only from =
      let only' : OnlySent u pairs k v = λ i m. files i ∙ only i (Memᴰ.tail m) in
      elim (Bool-cases (str_eq key k)) [
        | inl same ↦
            let one : key ≡ k = (str_eq_iff key k).0 same in
            let eq : some w ≡ some v = sym e ∙ only item (Memᴰ.head (rw one)) in
            more k v only' (inl (rw (← one) (there ∙ eq)))
        | inr other ↦
            let ne : key ≢ k = λ q. ground (arith, str_eq_iff key k) in
            more k v only' (elim from [
              | inl old ↦ inl (others k ne ∙ old)
              | inr (i, Memᴰ.head q) ↦ absurd (ne (sym (ap (λ (p : Str × Str). p.1) q)))
              | inr (i, Memᴰ.tail m) ↦ inr (i, m)
            ])
      ]

  uploaded :
      (item key : Str) (s : P.Fs) (w : Bytes)
      → L.content s item ≡ some w
      → (t : P.Fs) × (upload_file P D O c b item key s ≡ (ok tt, t))
        × (I.object c b key t ≡ some w)
        × ((j : Str) → key ≢ j → I.object c b j t ≡ I.object c b j s)
        × SamePaths P D L s t
        × SameFiles P D L s t
  unfolding upload_file succeeded
  uploaded item key s w e =
      let (t, done, there, others, paths, files) = I.uploads c b key item s w e in
      (t, rw done, there, others, paths, files)

  all_sent :
      (src dest : Str) (items : List Str) (s : P.Fs)
      → (t : P.Fs) × (upload_items P D O c b src dest items s ≡ (ok tt, t))
        × Arrives s t (sent_items P D s src dest items)
  unfolding upload_items
  all_sent src dest [] s =
      (s, refl, λ k w only from. elim from [ inl old ↦ old | inr (i, m) ↦ elim m [ ] ])
  all_sent src dest (item ∷ items) s = elim (Bool-cases (D.is_regular_file s item)) [
    | inr other ↦ let (t, e, a) = all_sent src dest items s in (t, rw other e, rw other a)
    | inl file ↦
        let (w, there) = I.regular-content s item file in
        let key = D.join dest (D.relative s item src) in
        let (u, e, stored, others, paths, files) = uploaded item key s w there in
        let (t, e', a) = all_sent src dest items u in
        (
          t,
          rw (file, e) e',
          rw file (
              Arrives-cons s u t item key w (sent_items P D s src dest items) there stored others
                files.0 (rw (← sent_items-kept src dest items s u paths files) a)),
        )
  ]

module _ (P : Platform) (D : Disk P) (L : IsDisk P D) (O : Oss P.Fs) (I : IsStore P D L O) where
  -- With the store at work, a file or a directory that exists is uploaded, and each file that is sent is found under its key.
  pub upload_to_oss-Arrives :
      (c : S3Config) (src : Str) (s : P.Fs)
      → D.exists s src ≡ true
      → (D.is_regular_file s src ≡ true) ⊎ (D.is_directory s src ≡ true)
      → (t : P.Fs) × (upload_to_oss P D O c src s ≡ (ok tt, t))
        × Arrives P D L O I (get_oss_client c) c.bucket s t (sent P D s src c.path)
  unfolding upload_to_oss
  upload_to_oss-Arrives c src s there kind =
      let client = get_oss_client c in
      let key = D.join c.path (D.filename src) in
      elim (Bool-cases (D.is_regular_file s src)) [
        | inl file ↦
            let (w, e) = I.regular-content s src file in
            let (t, done, stored, others, paths, files) =
              uploaded P D L O I client c.bucket src key s w e in
            (
              t,
              rw (there, file) done,
              rw file (
                  Arrives-cons P D L O I client c.bucket s t t src key w [] e stored others files.0
                    λ k v only from. elim from [ inl old ↦ old | inr (i, m) ↦ elim m [ ] ]),
            )
        | inr other ↦
            let dir : D.is_directory s src ≡ true = elim kind [
              | inl file ↦ absurd (ground arith)
              | inr dir ↦ dir
            ] in
            let (t, e, a) = all_sent P D L O I client c.bucket src c.path (D.visits s src) s in
            (t, rw (there, other, dir) e, rw other a)
      ]

-- ===== src/Proxy/Capsule/RoundTrip.antt =====
-- What `PutResultData` puts away, `GetInputData` brings back.
use mathlib.Core.List.{Memᴰ}
use trustflow.Base.{ℕ, ◌≡◌, refl, ap, ◌∙◌, true, false, none, some, List, Bytes, Str, length}
use trustflow.Error.{Result, ok}
use trustflow.CryptoUtil.Platform.{Platform, IsPlatform}
use trustflow.CryptoUtil.Disk.{Disk, IsDisk}
use trustflow.CryptoUtil.Tasks.{Task, Step, Loop}
use trustflow.CryptoUtil.Block.Laws.{IsKey}
use trustflow.CryptoUtil.Directory.{
  encrypt_item, decrypt_item, encrypt_loop, decrypt_loop, encrypt_directory, decrypt_directory,
  by_kind, encrypt_to_dir, decrypt_to_dir,
}
use trustflow.CryptoUtil.Directory.Safe.{IsSafe}
use trustflow.CryptoUtil.Directory.RoundTrip.{IsReady, IsCopy, decrypt_directory-restores}
use trustflow.Proxy.{success_status, success}
use trustflow.Proxy.Capsule.{
  GetInputDataRequest, PutResultDataRequest, CapsuleProxy, World, get_input_data, put_result_data,
}
use trustflow.Proxy.Capsule.Laws.{KeyFrom, Fetched, get_input_data_iff}
use trustflow.Proxy.Capsule.Results.{ResultKey, Stored, Registered, put_result_data_iff}

-- A path that is a directory.
abbrev pub IsDir : (P : Platform) → Disk P → P.Fs → Str → Type 0
IsDir P D s path =
    (D.exists s path ≡ true) × (D.is_regular_file s path ≡ false) × (D.is_directory s path ≡ true)

module _ (P : Platform) (D : Disk P) (schedule : List Step) (src dest : Str) (key : Bytes)
    (s : P.Fs) (dir : IsDir P D s src) where
  pub encrypt_dir :
      (rand : Str → ℕ → Bytes)
      → encrypt_to_dir P D schedule rand src dest key s
        ≡ encrypt_directory P D schedule rand src dest key s
  unfolding encrypt_to_dir by_kind
  encrypt_dir rand = rw (dir.0, dir.1, dir.2)

  pub decrypt_dir :
      decrypt_to_dir P D schedule src dest key s ≡ decrypt_directory P D schedule src dest key s
  unfolding decrypt_to_dir by_kind
  decrypt_dir = rw (dir.0, dir.1, dir.2)

pub done : {S : Type 0} (r : Result (Unit {0}) × S) → r.0 ≡ ok tt → r ≡ (ok tt, r.1)
done (r, s) e = ap (λ x. (x, s)) e

module _ (W : World) (M : CapsuleProxy) (Q : IsPlatform W.env.platform)
    (L : IsDisk W.env.platform W.disk) (key : Bytes) (k : IsKey key)
    (fresh : (path : Str) (i : ℕ) → length (W.rand path i) ≡ 12)
    (opens : (path : Str) (c : Bytes) (s : W.env.platform.Fs)
      → L.content s path ≡ some c
      → (input : W.env.platform.In) × (W.env.platform.open_in s path ≡ ok input)
        × Q.At (length c) c input) where
  -- The loops of the two calls.
  abbrev pub enc_loop_of : Str → Str → W.env.platform.Fs → Loop W.env.platform.Fs
  enc_loop_of src enc s = encrypt_loop W.env.platform W.disk (W.schedule src) W.rand src enc key s

  abbrev pub dec_loop_of : Str → Str → W.env.platform.Fs → Loop W.env.platform.Fs
  dec_loop_of src dest s = decrypt_loop W.env.platform W.disk (W.schedule src) src dest key s

  abbrev pub enc_state : Str → Str → W.env.platform.Fs → W.env.platform.Fs
  enc_state src enc s =
      (encrypt_directory W.env.platform W.disk (W.schedule src) W.rand src enc key s).1

  abbrev pub dec_state : Str → Str → W.env.platform.Fs → W.env.platform.Fs
  dec_state src dest s = (decrypt_directory W.env.platform W.disk (W.schedule src) src dest key s).1

  abbrev pub IsSafeEnc : Str → Str → W.env.platform.Fs → List (Str × Str) → Type 0
  IsSafeEnc src enc s pairs =
      IsSafe W.env.platform W.disk L (encrypt_item W.env.platform W.disk src enc)
        (W.disk.visits s src) pairs

  abbrev pub IsSafeDec : Str → Str → W.env.platform.Fs → List (Str × Str) → Type 0
  IsSafeDec src dest s pairs =
      IsSafe W.env.platform W.disk L (decrypt_item W.env.platform W.disk src dest)
        (W.disk.visits s src) pairs

  -- A directory of results is put into a local directory, with a key of the request or a random one, which is
  -- registered if the result has a URI. Later a request gets the files of a local directory, and the same key, from the
  -- request or from the capsule manager. The loop of the first call launches threads for files that can be
  -- encrypted, that of the second one for copies of what the first one wrote; neither loop throws, and in both calls
  -- loop and threads keep out of each other's way. Then both requests succeed, whenever the threads end, and the
  -- files come back.
  pub get_input_data-put_result_data :
      (put : PutResultDataRequest) (get : GetInputDataRequest) (enc enc' : Str)
      (s s0 s' v t : W.env.platform.Fs) (pairs pairs' : List (Str × Str)) (a b : Task) (c : Bytes)
      (safe : IsSafeEnc put.src_path enc s0 pairs)
      (good : (enc_loop_of put.src_path enc s0).ended ≡ ok tt)
      (ready : (p : Str × Str)
        → Memᴰ p pairs
        → IsReady W.env.platform Q W.disk L key k W.rand fresh opens s0 p)
      → put.s3_config ≡ none
      → put.local_fs_path ≡ some enc
      → get.s3_config ≡ none
      → get.local_fs_path ≡ some enc'
      → ResultKey W M put.data_key_b64 s key s0
      → IsDir W.env.platform W.disk s0 put.src_path
      → Registered W M put.cm_result_config key (enc_state put.src_path enc s0) s'
      → KeyFrom W M get.data_key_b64 get.cm_resource_config v key t
      → IsDir W.env.platform W.disk t enc'
      → IsSafeDec enc' get.dest_path t pairs'
      → (dec_loop_of enc' get.dest_path t).ended ≡ ok tt
      → ((p : Str × Str)
          → Memᴰ p pairs'
          → IsCopy W.env.platform Q W.disk L key k W.rand fresh opens
              (W.schedule put.src_path)
              put.src_path
              enc
              s0
              pairs
              safe
              good
              ready
              t
              p.0)
      → Memᴰ a (enc_loop_of put.src_path enc s0).launched
      → Memᴰ b (dec_loop_of enc' get.dest_path t).launched
      → L.content t b.source ≡ L.content (enc_state put.src_path enc s0) a.dest
      → L.content s0 a.source ≡ some c
      → (put_result_data W M put s ≡ (ok (success success_status), s'))
        × ((get_input_data W M get v).0 ≡ ok (success success_status))
        × (L.content (get_input_data W M get v).1 b.dest ≡ some c)
  get_input_data-put_result_data put get enc enc' s s0 s' v t pairs pairs' a b c safe good ready
        no_s3 local no_s3' local' from dir known from' dir' safe' good' copies m n copy e =
      let P = W.env.platform in
      let (sealed, opened, there) =
        decrypt_directory-restores P Q W.disk L key k W.rand fresh opens (W.schedule put.src_path)
          put.src_path enc s0 pairs safe good ready (W.schedule enc') enc' get.dest_path t pairs'
          safe' a b c good' copies m n copy e in
      let stored =
        encrypt_dir P W.disk (W.schedule put.src_path) put.src_path enc key s0 dir W.rand
        ∙ done (encrypt_directory P W.disk (W.schedule put.src_path) W.rand put.src_path enc key s0)
            sealed in
      let got =
        decrypt_dir P W.disk (W.schedule enc') enc' get.dest_path key t dir'
        ∙ done (decrypt_directory P W.disk (W.schedule enc') enc' get.dest_path key t) opened in
      let fetched : Fetched W M get.s3_config get.local_fs_path get.dest_path key t
          (dec_state enc' get.dest_path t) =
        rw (no_s3', local') got in
      let put_there : Stored W M put.s3_config put.local_fs_path put.src_path key s0
          (enc_state put.src_path enc s0) =
        rw (no_s3, local) stored in
      let run =
        (get_input_data_iff W M get success_status v (dec_state enc' get.dest_path t)).1
          (refl, key, t, from', fetched) in
      (
        (put_result_data_iff W M put success_status s s').1
            (refl, key, s0, enc_state put.src_path enc s0, from, put_there, known),
        ap (λ r. r.0) run,
        rw run there,
      )

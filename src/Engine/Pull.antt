-- ===== src/Engine/Pull.antt =====
-- The three parts of a pull together: `RetrieveTorrents`, `DownloadTorrents` and `LoadImage` of Docker.
pub mod Docker
pub mod Assertions
use quayctl.Base.Int.{ℤ}
use quayctl.Base.{
  Option, Str, str_eq, ℕ, suc, ◌≡◌, refl, sym, Bool, true, false, List, [], ◌∷◌, some, ◌==◌, length,
  ok, panic, type_assertion, get_elem?, contains, Distinct, arith, ==→≡, Bool-cases, inl, inr, ap,
}
use quayctl.Base.Dict.{Dict}
use quayctl.Engine.{
  ids, TorrentInfo, DownloadInfo, DockerContext, nil, docker, LayersOption, missing_layers, Named,
  SignedManifest, signed,
}
use quayctl.Engine.Torrent.{State, Reach, info_of}
use quayctl.Engine.Torrent.Safety.{downloaded_recorded}
use quayctl.Engine.Docker.{Services, load, retrieve}
use quayctl.Engine.Docker.Retrieve.{retrieve-Loadable, retrieve_none_missing}
use quayctl.Engine.Docker.Load.{IsReady, IsSound, IsComplete, load-Loadable, load-nil}

-- An element of a list has a position.
pub position :
    (xs : List Str) (b : Str) → contains xs b ≡ true → (i : ℕ) × (get_elem? xs i ≡ some b)
unfolding contains
position [] b h = cc
position (x ∷ xs) b h = elim (Bool-cases (b == x)) [
  | inl here ↦ (0, ap some (sym (==→≡ b x here)))
  | inr there ↦ let (i, e) = position xs b (ground arith) in (suc i, e)
]

-- Every torrent has been downloaded.
abbrev pub AllDownloaded : List TorrentInfo → State → Type 0
AllDownloaded torrents s = (b : Str) → contains (ids torrents) b ≡ true → s.downloaded b ≡ true

module _ (torrents : List TorrentInfo) (seeds : Option ℤ) (bars : Bool) where
  ready :
      Distinct (ids torrents)
      → (s : State) → Reach torrents seeds s
      → AllDownloaded torrents s
      → (b : Str) → contains (ids torrents) b ≡ true
      → IsReady (info_of torrents bars s) b
  unfolding info_of
  ready distinct s r all b h =
      let (i, at) = position (ids torrents) b h in
      let (p, e) = downloaded_recorded torrents seeds distinct r i b at (all b h) in
      record { closed = ground (arith, all b h); path = p; recorded = e }

module _ (svc : Services) (image : Str) (insecure : Bool) (option : LayersOption)
    (local_ip : Str) where
  -- If `RetrieveTorrents` returns the context of an image whose manifest has a blob for each history
  -- entry, then in every state that `DownloadTorrents` reaches for the returned torrents with all of them
  -- downloaded, `LoadImage` neither waits nor panics before its call of `DockerLoad`, which gets the path
  -- of the blob of each layer, and no path but those of `TorrentPaths`.
  pub pull_loads :
      (torrents : List TorrentInfo) (c : DockerContext)
      → retrieve svc false image insecure option ≡ ok (torrents, docker c)
      → length c.v1_manifest.history ≡ length c.v1_manifest.fs_layers
      → (seeds : Option ℤ) (bars : Bool) (s : State) → Reach torrents seeds s
      → AllDownloaded torrents s
      → let info = info_of torrents bars s in
        (d : Dict Str) × (load svc false local_ip info (docker c)
          ≡ svc.docker_load c.named c.v1_manifest d local_ip)
        × IsSound svc c.v1_manifest info d
        × IsComplete svc c.v1_manifest info c.layers d
  pull_loads torrents c e aligned seeds bars s r all =
      let l = retrieve-Loadable svc image insecure option torrents c e aligned in
      load-Loadable svc local_ip (info_of torrents bars s) torrents c l
        (ready torrents seeds bars l.distinct s r all)

module _ (svc : Services) (image : Str) (insecure : Bool) (local_ip : Str) where
  -- If only the missing layers are wanted and Docker has the blob at the top of the manifest, then
  -- `RetrieveTorrents` succeeds with no torrents and no context, and `LoadImage` panics on that context,
  -- whatever the state of the downloads.
  pub nothing_missing_panics :
      (named : Named) (m : SignedManifest) (top : Str) (history below : List Str) (blob : Str)
      → svc.download_manifest image insecure ≡ ok (named, signed m)
      → m.history ≡ top ∷ history
      → m.fs_layers ≡ blob ∷ below
      → (svc.has_image blob).0 ≡ true
      → (info : DownloadInfo)
      → (retrieve svc false image insecure missing_layers ≡ ok ([], nil))
        × (load svc false local_ip info nil ≡ panic type_assertion)
  nothing_missing_panics named m top history below blob found eh ef here info = (
    retrieve_none_missing svc image insecure missing_layers named m top history below blob found eh
        ef here refl,
    load-nil svc local_ip info,
  )

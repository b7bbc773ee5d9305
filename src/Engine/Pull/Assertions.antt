-- ===== src/Engine/Pull/Assertions.antt =====
-- `LoadImage` of engine/docker.go in any state of the downloads: the assertions on the types of its context
-- and of the paths.
use quayctl.Base.Int.{ℤ}
use quayctl.Base.{
  Option, Str, str_eq, ◌≡◌, Bool, true, false, List, ok, blocked, ◌⊎◌, inl, inr, length, contains,
  arith, Distinct, Bool-cases,
}
use quayctl.Base.Dict.{Dict}
use quayctl.Engine.{
  ids, TorrentInfo, DownloadInfo, DockerContext, docker, LayersOption, open_channel,
}
use quayctl.Engine.Torrent.{State, Reach, info_of}
use quayctl.Engine.Torrent.Safety.{downloaded_recorded}
use quayctl.Engine.Docker.{Services, load, retrieve}
use quayctl.Engine.Docker.Load.{IsReady}
use quayctl.Engine.Docker.Retrieve.{retrieve-Loadable}
use quayctl.Engine.Docker.Waiting.{load_either}
use quayctl.Engine.Pull.{position}

module _ (svc : Services) (torrents : List TorrentInfo) (seeds : Option ℤ) (bars : Bool)
    (s : State) where
  abbrev info : DownloadInfo
  info = info_of torrents bars s

  -- The torrent of a blob is awaited, or it is there.
  awaited_or_ready :
      Distinct (ids torrents)
      → Reach torrents seeds s
      → (b : Str) → contains (ids torrents) b ≡ true
      → (info.downloaded b ≡ open_channel) ⊎ IsReady info b
  unfolding info_of
  awaited_or_ready distinct r b there = elim (Bool-cases (s.downloaded b)) [
    | inl closed ↦
        let (i, at) = position (ids torrents) b there in
        let (p, e) = downloaded_recorded torrents seeds distinct r i b at closed in
        inr (record { closed = ground (arith, closed, there); path = p; recorded = e })
    | inr open_ ↦ inl (ground (arith, open_, there))
  ]

module _ (svc : Services) (image : Str) (insecure : Bool) (option : LayersOption)
    (local_ip : Str) where
  -- `LoadImage`, with what `RetrieveTorrents` returned, in any state of the downloads.
  pub retrieved_either :
      (torrents : List TorrentInfo) (c : DockerContext)
      → retrieve svc false image insecure option ≡ ok (torrents, docker c)
      → length c.v1_manifest.history ≡ length c.v1_manifest.fs_layers
      → (seeds : Option ℤ) (bars : Bool) (s : State) → Reach torrents seeds s
      → let info = info_of torrents bars s in
        (load svc false local_ip info (docker c) ≡ blocked)
        ⊎ ((d : Dict Str) × (load svc false local_ip info (docker c)
              ≡ svc.docker_load c.named c.v1_manifest d local_ip))
  retrieved_either torrents c e aligned seeds bars s r =
      let l = retrieve-Loadable svc image insecure option torrents c e aligned in
      load_either svc local_ip (info_of torrents bars s) c (λ i layer h.
        let (b, found, there) = l.covered i layer h in
        (b, found, awaited_or_ready svc torrents seeds bars s l.distinct r b there))

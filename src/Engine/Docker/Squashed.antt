-- ===== src/Engine/Docker/Squashed.antt =====
-- A pull of a squashed image: the path of engine/docker.go under the flag `--squashed`.
use quayctl.Base.Int.{ℤ}
use quayctl.Base.{
  Option, Str, text, str_eq, ◌≡◌, refl, sym, ap, Bool, true, List, [], ◌∷◌, some, ok, ◌>>=◌,
  >>=-eq-ok, contains, Distinct,
}
use quayctl.Base.Dict.{lookup}
use quayctl.Engine.{ids, TorrentInfo, Context, LayersOption}
use quayctl.Engine.Torrent.{State, Reach, info_of, id_at}
use quayctl.Engine.Torrent.Safety.{complete_all}
use quayctl.Engine.Docker.{
  Services, await, retrieve_torrents_for_squashed, retrieve, load_squashed_image, load,
}

module _ (svc : Services) (image : Str) (insecure : Bool) (option : LayersOption) where
  -- The one torrent of a squashed image.
  retrieve-squashed :
      (torrents : List TorrentInfo) (ctx : Context)
      → retrieve svc true image insecure option ≡ ok (torrents, ctx)
      → (t : TorrentInfo) × (torrents ≡ t ∷ []) × (t.id ≡ text "squashed")
  unfolding retrieve retrieve_torrents_for_squashed
  retrieve-squashed torrents ctx e =
      let (named, parsed, r) = >>=-eq-ok (svc.parse_named image) _ e in
      (_, ap (λ x. elim x [ ok (ts, c) ↦ ts | _ ↦ [] ]) (sym r), refl)

  -- If `RetrieveTorrents` of a squashed image succeeds, then in every state that `DownloadTorrents`
  -- reaches for what it returned with `CompleteChannel` closed, `LoadImage` neither waits nor panics
  -- before its calls: it opens the path in `TorrentPaths`, and hands the file to `DockerLoadTar`.
  pub squashed_pull_loads :
      (torrents : List TorrentInfo) (ctx : Context)
      → retrieve svc true image insecure option ≡ ok (torrents, ctx)
      → (seeds : Option ℤ) (bars : Bool) (s : State) → Reach torrents seeds s
      → s.complete ≡ true
      → (local_ip : Str)
      → (path : Str) × (lookup (text "squashed") s.torrent_paths ≡ some path)
        × (load svc true local_ip (info_of torrents bars s) ctx
            ≡ (svc.open_file path >>= svc.docker_load_tar))
  unfolding load load_squashed_image await info_of
  squashed_pull_loads torrents ctx e seeds bars s r done local_ip =
      let (t, one, named) = retrieve-squashed torrents ctx e in
      let distinct : Distinct (ids torrents) = rw one (unfold contains in (refl, tt)) in
      let here : id_at torrents seeds 0 ≡ some (text "squashed") = rw one (ap some named) in
      let (_, _, _, (path, found)) =
        complete_all torrents seeds distinct r done 0 (text "squashed") here in
      (path, found, rw (done, found) refl)

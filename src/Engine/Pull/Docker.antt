-- ===== src/Engine/Pull/Docker.antt =====
-- A pull with dockerclient/ in the place of its interface.
use quayctl.Base.Int.{ℤ}
use quayctl.Base.{
  Str, str_eq, ◌≡◌, ◌≢◌, sym, ap, ◌∙◌, Bool, false, List, Option, none, some, Outcome, ok, err,
  length,
}
use quayctl.Base.Dict.{Dict}
use quayctl.Engine.{TorrentInfo, LayersOption, DockerContext, docker}
use quayctl.Engine.Torrent.{State, Reach, info_of}
use quayctl.Engine.Docker.{Services, retrieve, load}
use quayctl.Engine.Docker.Load.{IsComplete}
use quayctl.Engine.Pull.{AllDownloaded, pull_loads}
use quayctl.Dockerclient.Load.{Environment, Platform, has_image, docker_load, local_name}
use quayctl.Dockerclient.Load.Names.{IsDocker, name_of, docker_load-named}

-- `found, err := HasImage(…)`
abbrev pub answered : Outcome Str Bool → Bool × Option Str
answered (ok found) = (found, none)
answered (err e) = (false, some e)
answered _ = (false, none)

module _ {D : Type 0} (p : Platform D) (env : Environment) (d : D) where
  -- The handler with the Docker client that dockerclient/ implements, on a state of the daemon.
  abbrev pub with_docker : Services → Services
  with_docker svc = record svc {
    has_image = λ b. answered (has_image p env b d);
    docker_load = λ named m paths ip. (docker_load p env named m paths ip d).0;
  }

  -- If Docker does with names what it documents, `RetrieveTorrents` returns the context of an image whose
  -- manifest has a blob for each history entry, all the returned torrents have been downloaded, and
  -- `LoadImage` succeeds in a state that `DownloadTorrents` reaches, and the name of the image is not that
  -- in the local registry, then the load was of the downloaded files of the layers, and it left the name
  -- of the image with an image in Docker, and the name in the local registry with none.
  pub pull_names :
      (svc : Services) (laws : IsDocker p) (image : Str) (insecure : Bool) (option : LayersOption)
      (local_ip : Str) (torrents : List TorrentInfo) (c : DockerContext)
      → retrieve (with_docker svc) false image insecure option ≡ ok (torrents, docker c)
      → length c.v1_manifest.history ≡ length c.v1_manifest.fs_layers
      → (seeds : Option ℤ) (bars : Bool) (s : State) → Reach torrents seeds s
      → AllDownloaded torrents s
      → load (with_docker svc) false local_ip (info_of torrents bars s) (docker c) ≡ ok tt
      → name_of c.named ≢ local_name p env c.named local_ip
      → (paths : Dict Str) × (d' : D) × (docker_load p env c.named c.v1_manifest paths local_ip d
          ≡ (ok tt, d'))
        × IsComplete (with_docker svc) c.v1_manifest (info_of torrents bars s) c.layers paths
        × ((i : Str) × (laws.images d' (name_of c.named) ≡ some i))
        × (laws.images d' (local_name p env c.named local_ip) ≡ none)
  pull_names svc laws image insecure option local_ip torrents c e aligned seeds bars s r all loaded
        apart =
      let (paths, same, sound, complete) =
        pull_loads (with_docker svc) image insecure option local_ip torrents c e aligned seeds bars
          s r all in
      let d' : D = (docker_load p env c.named c.v1_manifest paths local_ip d).1 in
      let success : docker_load p env c.named c.v1_manifest paths local_ip d ≡ (ok tt, d') =
        ap (λ x. (x, d')) (sym same ∙ loaded) in
      let (there, gone) =
        docker_load-named p env c.named c.v1_manifest paths local_ip laws apart d d' success in
      (paths, d', success, complete, there, gone)

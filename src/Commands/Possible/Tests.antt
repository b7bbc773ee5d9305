-- ===== src/Commands/Possible/Tests.antt =====
-- A pull for Docker, and one for rkt.
use quayctl.Base.{
  some, ◌++◌, wrap_error, ◌>>◌, Str, text, str_eq, nat_eq, ◌≡◌, refl, true, false, [], ◌∷◌,
}
use quayctl.Base.Dict.{Dict, lookup}
use quayctl.Base.Int.{pos}
use quayctl.Engine.Torrent.{no_seed, info_of}
use quayctl.Engine.Torrent.Tests.{two, aci_torrent}
use quayctl.Engine.Docker.Load.{IsComplete}
use quayctl.Engine.Docker.Tests as Docker
use quayctl.Engine.Download.{Joint, Reach}
use quayctl.Engine.Download.Tests.{path_of}
use quayctl.Commands.{docker_handler, log_fatal, torrent_pull_run}
use quayctl.Commands.Whole.{found_in}
use quayctl.Commands.Possible.{docker_can_pull, rkt_can_pull}
use quayctl.Commands.Aci.{rkt_handler}
use quayctl.Engine.Rkt.{download_file, fetch}
use quayctl.Engine.Rkt.Tests as Rkt

docker_can_pull_example :
    (j : Joint) × Reach two no_seed (pos 0) path_of j
    × ((paths : Dict Str) × (torrent_pull_run
            (docker_handler Docker.services false (text "localhost"))
            (found_in true (λ _. j))
            false
            (text "quay/app" ∷ [])
          ≡ log_fatal
              (Docker.services.docker_load Docker.app Docker.manifest paths (text "localhost")))
        × IsComplete Docker.services Docker.manifest
            (info_of two true j.engine)
            Docker.context.layers
            paths)
docker_can_pull_example =
    docker_can_pull (text "quay/app") false true (pos 0) path_of Docker.services (text "localhost")
      two Docker.context Docker.retrieve-run refl

rkt_can_pull_example :
    (j : Joint) × Reach (aci_torrent ∷ []) no_seed (pos 0) path_of j
    × ((path : Str) × (lookup (text "aci") j.engine.torrent_paths ≡ some path)
        × (torrent_pull_run
              (rkt_handler Rkt.services)
              (found_in true (λ _. j))
              true
              (text "quay/app" ∷ [])
            ≡ log_fatal (
                wrap_error
                  (λ e.
                    text "Could not download signature for image "
                    ++ (text "quay/app" ++ (text ": " ++ e)))
                  (download_file Rkt.services Rkt.context.signature_url (path ++ text ".aci.asc"))
                >> fetch Rkt.services (text "quay/app") path)))
rkt_can_pull_example =
    rkt_can_pull (text "quay/app") true true (pos 0) path_of Rkt.services (aci_torrent ∷ [])
      Rkt.context Rkt.retrieve-run

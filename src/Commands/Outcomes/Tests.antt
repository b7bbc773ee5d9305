-- ===== src/Commands/Outcomes/Tests.antt =====
-- A pull for Docker whose downloads are over.
use quayctl.Base.{
  text, str_eq, nat_eq, ◌≡◌, refl, true, false, [], ◌∷◌, blocked, ◌⊎◌, panic, type_assertion,
}
use quayctl.Base.{Str}
use quayctl.Base.Dict.{Dict}
use quayctl.Base.Int.{pos}
use quayctl.Engine.{DockerContext, docker, nil}
use quayctl.Engine.Torrent.{no_seed}
use quayctl.Engine.Torrent.Tests.{two}
use quayctl.Engine.Docker.Tests.{services, app, manifest, context, retrieve-run}
use quayctl.Engine.Download.{begin, initially}
use quayctl.Engine.Download.Tests.{path_of, script, play, play-Reach}
use quayctl.Commands.{docker_handler, log_fatal, torrent_pull_run}
use quayctl.Commands.Whole.{found_in}
use quayctl.Commands.Outcomes.{docker_pull_outcomes}

docker_pull_outcomes_example :
    let run =
      torrent_pull_run
        (docker_handler services false (text "localhost"))
        (found_in true (λ torrents. play no_seed torrents script begin))
        false
        (text "quay/app" ∷ []) in
    ((two ≡ []) × (docker context ≡ nil) × (run ≡ panic type_assertion))
    ⊎ ((c : DockerContext) × (docker context ≡ docker c)
        × ((run ≡ blocked)
            ⊎ ((paths : Dict Str) × (run
                  ≡ log_fatal (services.docker_load app manifest paths (text "localhost"))))))
docker_pull_outcomes_example =
    docker_pull_outcomes (text "quay/app") false true (pos 0) path_of
      (λ torrents. play no_seed torrents script begin)
      (λ torrents. play-Reach no_seed torrents script begin initially) services (text "localhost")
      app manifest refl refl two (docker context) retrieve-run

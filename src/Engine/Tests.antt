-- ===== src/Engine/Tests.antt =====
-- A whole pull of an image of which Docker has the lowest layer.
use quayctl.Base.{none, Str, text, str_eq, ◌≡◌, refl, true, false, [], ◌∷◌}
use quayctl.Base.Dict.{Dict}
use quayctl.Engine.{docker, missing_layers}
use quayctl.Engine.Torrent.{info_of}
use quayctl.Engine.Torrent.Tests.{two, final, final-Reach, final_downloaded}
use quayctl.Engine.Docker.{load}
use quayctl.Engine.Docker.Load.{IsSound, IsComplete}
use quayctl.Engine.Docker.Tests.{app, manifest, services, context, top, last, retrieve-run}
use quayctl.Engine.Pull.{pull_loads}

pull_loads_example :
    let info = info_of two true final in
    (d : Dict Str) × (load services false (text "10.0.0.1") info (docker context)
      ≡ services.docker_load app manifest d (text "10.0.0.1"))
    × IsSound services manifest info d
    × IsComplete services manifest info (top ∷ last ∷ []) d
pull_loads_example =
    pull_loads services (text "quay/app") false missing_layers (text "10.0.0.1") two context
      retrieve-run refl none true final final-Reach final_downloaded

-- ===== src/Commands/Seeds/Tests.antt =====
-- The seeding of an image of three layers.
use quayctl.Base.{text, str_eq, ◌≡◌, refl, false, true, List, [], ◌∷◌, ok, blocked}
use quayctl.Base.Int.{pos}
use quayctl.Engine.{TorrentInfo}
use quayctl.Engine.Pull.{AllDownloaded}
use quayctl.Engine.Torrent.{seed_after_pull}
use quayctl.Engine.Torrent.Tests.{torrent}
use quayctl.Engine.Docker.Tests.{services, context_of_all, retrieve_all}
use quayctl.Engine.Download.{Joint, Reach, begin, initially}
use quayctl.Engine.Download.Tests.{path_of, script, play, play-Reach}
use quayctl.Commands.{docker_handler, torrent_seed_run}
use quayctl.Commands.Whole.{found_in}
use quayctl.Commands.Seeds.{seed_blocks, seed_can_return}

abbrev three : List TorrentInfo
three = torrent (text "a") ∷ torrent (text "b") ∷ torrent (text "c") ∷ []

-- The state after two of the downloads.
abbrev states : List TorrentInfo → Joint
states torrents = play seed_after_pull torrents script begin

seed_blocks_example :
    torrent_seed_run
      (docker_handler services false (text "localhost"))
      (found_in true states)
      false
      (text "quay/app" ∷ [])
    ≡ blocked
seed_blocks_example =
    seed_blocks services (text "quay/app") (text "localhost") false (pos 0) path_of true states
      (λ torrents. play-Reach seed_after_pull torrents script begin initially) (torrent (text "a"))
      (torrent (text "b") ∷ torrent (text "c") ∷ []) context_of_all retrieve_all refl

seed_can_return_example :
    (j : Joint) × Reach three seed_after_pull (pos 60) path_of j
    × (torrent_seed_run
          (docker_handler services false (text "localhost"))
          (found_in true (λ _. j))
          false
          (text "quay/app" ∷ [])
        ≡ ok tt)
    × AllDownloaded three j.engine
    × (j.client.torrents ≡ [])
seed_can_return_example =
    seed_can_return services (text "quay/app") (text "localhost") false (pos 60) path_of true three
      context_of_all retrieve_all refl

-- ===== src/Commands/Tree/Tests.antt =====
-- The tree of commands.
use quayctl.Base.{Str, List, ℕ, ◌≡◌, map, refl, text, [], ◌∷◌, err, ok}
use quayctl.Engine.{nil}
use quayctl.Commands.{TorrentHandler}
use quayctl.Commands.Tree.{
  Run, usage, show_version, pull, seed, Command, commands, add_engine_commands, add_engines,
  add_torrent_commands, add_command, new_command,
}

-- A handler that has no images, and one that finds nothing to load.
abbrev rkt_torrents : TorrentHandler
rkt_torrents = record {
  retrieve_torrents = λ image insecure option. err (text "no image");
  load_image = λ image info ctx. ok tt;
}

abbrev docker_torrents : TorrentHandler
docker_torrents = record {
  retrieve_torrents = λ image insecure option. ok ([], nil);
  load_image = λ image info ctx. ok tt;
}

abbrev parts : Command → Str × (Run × List ℕ)
parts c = (c.use_text, (c.run, c.children))

-- The tree with both engines: what each command runs, and the places of those below it.
commands_test :
    map parts (commands rkt_torrents docker_torrents)
    ≡ (text "quayctl", (usage, 2 ∷ 6 ∷ 1 ∷ []))
      ∷ (text "version", (show_version, []))
      ∷ (text "rkt", (usage, 3 ∷ []))
      ∷ (text "torrent", (usage, 5 ∷ 4 ∷ []))
      ∷ (text "pull", (pull rkt_torrents, []))
      ∷ (text "seed", (seed rkt_torrents, []))
      ∷ (text "docker", (usage, 7 ∷ []))
      ∷ (text "torrent", (usage, 9 ∷ 8 ∷ []))
      ∷ (text "pull", (pull docker_torrents, []))
      ∷ (text "seed", (seed docker_torrents, []))
      ∷ []
unfolding commands add_engine_commands add_engines add_torrent_commands add_command new_command
commands_test = refl

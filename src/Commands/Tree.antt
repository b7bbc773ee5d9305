-- ===== src/Commands/Tree.antt =====
-- cmd/quayctl/main.go, version.go and `addTorrentCommands` of torrentcmd.go: the tree of commands. A
-- `cobra.Command` is a pointer, so a command is told by its place among those that have been made, and
-- what is added to it later is seen under the commands that it was added to before. The flags are those of
-- `Flags` in Commands/Config.antt; the texts of `Short` and `Long` are left out. The handlers of the engines
-- are parameters, which Engine/Docker.antt and Engine/Rkt.antt fill.
mod Tests
use quayctl.Base.{
  Str, text, str_eq, ℕ, zero, suc, List, [], ◌∷◌, ◌++◌, Option, none, some, ◌==◌, if◌then◌else◌,
  get_elem?, length,
}
use quayctl.Commands.{TorrentHandler}

-- `ContainerEngine` of engine/containerengine.go.
pub record ContainerEngine : Type 0 where
  pub name : Str
  pub title : Str
  pub torrent_handler : TorrentHandler

-- `RktEngine` and `DockerEngine`.
abbrev pub rkt_engine : TorrentHandler → ContainerEngine
rkt_engine handler = record {
  name = text "rkt";
  title = text "Commands for pulling images into rkt from Quay";
  torrent_handler = handler;
}

abbrev pub docker_engine : TorrentHandler → ContainerEngine
docker_engine handler = record {
  name = text "docker";
  title = text "Commands for pulling images into Docker from Quay";
  torrent_handler = handler;
}

-- What the program does for a command: `cmd.Usage()` and the exit with 1, `showVersion`, or `torrentPullRun`
-- and `torrentSeedRun` with the handler of an engine.
pub data Run : Type 0 where
  usage show_version : Run
  pull seed : TorrentHandler → Run

-- What `showVersion` prints, of the two strings that are set at linking.
pub version_text : Str → Str → Str
version_text githash buildtime =
    text "Build " ++ (githash ++ (text " (" ++ (buildtime ++ text ")\n")))

pub record Command : Type 0 where
  pub use_text : Str
  pub run : Run
  pub children : List ℕ

abbrev pub Store : Type 0
Store = List Command

-- `&cobra.Command{…}`: its place, and the store with it.
pub new_command : Str → Run → Store → ℕ × Store
new_command use_text run s =
    (length s, s ++ (record { use_text = use_text; run = run; children = [] } ∷ []))

-- `parent.AddCommand(child)`
pub add_command : ℕ → ℕ → Store → Store
add_command parent child [] = []
add_command zero child (c ∷ s) = record c { children = c.children ++ (child ∷ []) } ∷ s
add_command (suc parent) child (c ∷ s) = c ∷ add_command parent child s

pub add_torrent_commands : ContainerEngine → ℕ → Store → Store
unfolding new_command add_command
add_torrent_commands engine engine_command s =
    let (torrent_command, s1) = new_command (text "torrent") usage s in
    let (torrent_pull_command, s2) = new_command (text "pull") (pull engine.torrent_handler) s1 in
    let (torrent_seed_command, s3) = new_command (text "seed") (seed engine.torrent_handler) s2 in
    add_command engine_command torrent_command (
      add_command torrent_command torrent_pull_command
        (add_command torrent_command torrent_seed_command s3))

-- The loop of `addEngineCommands` over the engines.
pub add_engines : ℕ → List ContainerEngine → Store → Store
unfolding add_torrent_commands
add_engines root [] s = s
add_engines root (engine ∷ engines) s =
    let (engine_command, s1) = new_command engine.name usage s in
    add_engines root engines
      (add_torrent_commands engine engine_command (add_command root engine_command s1))

module _ (rkt_handler docker_handler : TorrentHandler) where
  pub add_engine_commands : ℕ → Store → Store
  unfolding add_engines
  add_engine_commands root s =
      add_engines root (rkt_engine rkt_handler ∷ docker_engine docker_handler ∷ []) s

  -- The commands once the package has been initialized: `rootCommand` and `versionCommand` are made first.
  pub commands : Store
  unfolding add_engine_commands
  commands =
      let (root_command, s1) = new_command (text "quayctl") usage [] in
      let (version_command, s2) = new_command (text "version") show_version s1 in
      add_command root_command version_command (add_engine_commands root_command s2)

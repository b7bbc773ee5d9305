-- ===== src/Lib.antt =====
-- quayctl pulls container images from a registry over BitTorrent and loads them into a container
-- engine. This library models its engines, and what the parts promise to each other.
--
-- The parts and how they interact. The command `docker torrent pull` (cmd/quayctl/torrentcmd.go) asks
-- the engine which torrents an image needs (`RetrieveTorrents`), starts their downloads
-- (`DownloadTorrents`), and has the engine load the image (`LoadImage`), which waits on the channels of
-- the downloads and hands the downloaded files to Docker. Docker gets them by pulling from a registry
-- that quayctl runs on a storage driver of its own, and its log of the pull is shown as progress bars.
--
-- The files, and the code they are about:
--   Base and below      shared helpers: Go strings as lists of bytes, lists, maps as association lists,
--                       integers, and the ways a Go call ends (a value, an error, a panic, `log.Fatal`,
--                       or a wait on a channel that nobody has closed)
--   Engine              the types of engine/containerengine.go, engine/torrent.go and engine/docker.go
--                       that the parts share
--   Engine/Docker       engine/docker.go: one definition for each method and for each loop in it;
--     Layers, Torrents    the choice of layers and blobs, the torrents of the blobs,
--     Retrieve, Load,     what RetrieveTorrents returns, what LoadImage does with it,
--     Loaded, Waiting,    what a load that succeeds has done, a load while some torrents are awaited,
--     Squashed            and both under the flag --squashed
--   Engine/Rkt          engine/rkt.go: `RetrieveTorrents`, the loops over the credentials, `LoadImage`;
--     Pull                the pull of an ACI image, and which credentials its URLs get
--   Engine/Goroutines   engine/torrent.go: where the goroutines of `DownloadTorrents` stand, the state that
--                       they share, and the actions on it;
--   Engine/Torrent      one function for each action, which is a stretch of code between two accesses to
--                       the state, their runs, and the call itself;
--     Invariant           the invariant of the reachable states (with the children Defs, Workers
--                         and Waiting)
--     Safety, Progress,   what follows from it, for single states
--     Termination,        the work that is left, and runs to the end
--     Completion,
--     Paths, Unended      the actions that change the map of paths, and workers whose seeding does not end
--   Engine/Torrent/Display   the progress bars of engine/torrent.go and the goroutines that refresh them;
--     Shown               which bar shows which torrent
--   Engine/Download     the goroutines of `DownloadTorrents` and the client that they call as one system;
--     Finished, Forever,  the paths that they record, the seeding without an end,
--     Schedule,           a run of one download after the other (with the children Download and Work),
--     Completion          and its end
--   Engine/Pull         the three steps of the pull together,
--     Docker, Assertions  with the Docker client below in the place of its interface, and in any state of
--                       the downloads
--   Dockerclient/RegistryDriver   dockerclient/registrydriver.go and registrydriverfactory.go: the
--                       storage driver, with `Create` and the methods that read;
--     Paths, Layers,      the shapes of its paths, the loop over the layers,
--     Serve, Streams,     what it serves, the readers it returns,
--     Digests             and maps of files by digests
--   Dockerclient/PullWriter   dockerclient/pullwriter.go: the writer that shows Docker's log;
--     Stream, Chunks,     what the decoder is supposed to do, the log in pieces,
--     Bars                and the bars of the layers
--   Dockerclient/Load   dockerclient/dockerclient.go and dockerload.go: the client of the daemon, and
--                       `DockerLoad` as calls on a daemon whose state is of any type;
--     Names               the names that it leaves in Docker
--   Bittorrent/Goroutines  bittorrent/bittorrent.go: where the calls of `Download`, the consumer of
--                       libtorrent's alerts and the goroutines that seed stand, the state that they and
--                       `Stop` share, and the actions on it;
--   Bittorrent/Client   one function for each action, which is a stretch of code between two accesses to
--                       the state, and their runs;
--     Removal, Invariant  the removal of torrents, the invariant of the reachable states,
--     Alerts, Seeding,    the alerts and the calls, the end of the seeding,
--     Stop, Lost          `Stop`, and the calls that it leaves behind,
--     Listed, Returned    the torrents in the map, as long as nobody calls `Stop`; calls that have returned
--   Bittorrent/Client/Order   the ranges over the map of the torrents, whose entries come in any order;
--     Alike, Steps, Runs  states that differ in the order, the actions on them, and runs
--   Bittorrent/Prepare  the part of `Download` that makes the parameters for libtorrent;
--     Cleared             what it hands over
--   Bittorrent/Status   `GetStatus` and the states of a torrent
--   Bittorrent/Settings `NewClient` and `Start`, and `initBitTorrentClient` of engine/torrent.go: the
--                       settings of libtorrent's session
--   Bittorrent/File     bittorrent/torrentfile.go: the removal of keys from a torrent file;
--     Keys                the keys that are left
--   Commands            cmd/quayctl/torrentcmd.go: `torrent pull` and `torrent seed`, with what
--                       DownloadTorrents returns as a parameter;
--     Present             the pull of an image that Docker has,
--     Config, Limits      the flags, the configurations made of them, and the limits of the session
--     Whole, Aci, Seeds   `docker torrent pull`, `rkt torrent pull` and both commands `torrent seed` on
--                       the program's own packages,
--     Possible, Outcomes, what a pull comes to, what it can end with,
--     Served              and what the local registry serves to Docker
--   Commands/Tree       cmd/quayctl/main.go and `addTorrentCommands` of torrentcmd.go: the tree of commands
--   Dockerdist          dockerdist/dockerdist.go: the client of a registry, the digest of an image, its
--                       manifest, the credentials;
--     Manifests           what DownloadManifest returns
-- The modules called Tests run the definitions on small inputs.
--
-- How the code is modelled. A method with a receiver that it changes is a function from the old
-- state to the new one. The goroutines of `DownloadTorrents` are a step function `act` from an
-- action and a state to the next state or to none, and `Reach` and `run` take any interleaving; a
-- channel is a Boolean that says whether it is closed, told by the key that the code looks it up
-- with. The flags `--squashed` and `--local-ip`, global variables of the program, are arguments.
-- What the parts call is a parameter: the record `Services` for the packages dockerdist and
-- dockerclient, `url.URL.String` and `os.Open`, the record `RktServices` for the discovery of
-- images, the rkt commands, files and HTTP, and the three records called `Platform` for SHA-256,
-- JSON, files, the percentage in floating point, and the Docker daemon. Engine/Pull/Docker fills the
-- fields `has_image` and `docker_load` of `Services`, and Commands/Whole those of dockerdist. The
-- theorem on a log in pieces supposes that the JSON decoder reads a stream (`IsStream`), those on the
-- names in Docker that the daemon does with names what it documents (`IsDocker`). The registry that
-- `DockerLoad` starts is taken to serve, or to fail to listen, while the caller sleeps.
--
-- The goroutines of the BitTorrent client are another step function of the same kind: a call of
-- `Download` is told by a number, a torrent by the order in which the torrents were made, and a
-- panic on the second close of a channel ends the run; one in the preparation has no state after
-- it. libtorrent, bencode, HTTP and the files are parameters there. Some theorems on the client
-- suppose what libtorrent documents of the alert that a torrent is finished, that it comes once for
-- each handle.
--
-- Fuel and bounds. The loop of `Write` over the responses takes fuel, one more than the bytes of the
-- input, which is enough where each response takes at least a byte. No other definition takes fuel.
-- The products of flags are taken modulo 2 ^ w, for an `int` of w bits: 64, or 32 on linux-x86 and
-- linux-arm. The conversion to a byte is taken modulo 2 ^ 8. The other
-- numbers of the code that are modelled are positions, lengths and file sizes; they are natural
-- numbers without a bound, and no code here computes with them so that they could wrap.
--
-- The commands are kept in a list in the order in which they are made, and a pointer to one is its
-- place; how cobra finds the command of some arguments is not modelled. A bar is told by its place
-- in the pool, and the goroutines that refresh the bars take what `GetStatus` says as a function of
-- the path. A Go map is a list of entries; where the client ranges over one, the order is any, and
-- Bittorrent/Client/Order is about that.
--
-- Not modelled: the registration of the storage driver under a name and the level of the log
-- (dockerclient/dockerload.go); the texts of usage (cmd/quayctl/); the types of
-- rkt's configuration that no code reads (engine/rkt.go); and the drawing of the bars, which is the
-- pool's. In the model of `DownloadTorrents` alone the call of `Download` is an action that yields
-- some path or an error, and the end of its seeding is an action too, possible without a seeding or
-- with one for a positive duration. Of the client, a second call of `Start`, which no
-- code makes, the error code that `Download` never hands to `AddTorrent`, the removal of temporary
-- files and what libtorrent does after its session is deleted are left out. Vendored packages are
-- not modelled.
pub mod Base
pub mod Engine
pub mod Dockerclient
pub mod Commands
pub mod Dockerdist
pub mod Bittorrent

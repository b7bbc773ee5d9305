-- ===== src/Commands.antt =====
-- cmd/quayctl/torrentcmd.go: the commands `torrent pull` and `torrent seed` of an engine. What
-- `DownloadTorrents` returns, as it is found when it is read, is a parameter, and so are the flags.
pub mod Present
pub mod Config
pub mod Limits
pub mod Whole
pub mod Seeds
pub mod Aci
pub mod Possible
pub mod Served
pub mod Outcomes
pub mod Tree
mod Tests
use quayctl.Base.{
  Str, text, Bool, List, [], ◌∷◌, Outcome, ok, err, panic, fatal, blocked, ◌>>=◌, ◌>>◌,
}
use quayctl.Engine.{
  LayersOption, all_layers, missing_layers, TorrentInfo, Context, DownloadInfo, Channel, absent,
  open_channel, closed_channel,
}
use quayctl.Engine.Torrent.{SeedOption, no_seed, seed_after_pull}
use quayctl.Engine.Docker.{Services}
use quayctl.Engine.Docker as Docker

-- The methods of `engineTorrentHandler` that the commands call.
pub record TorrentHandler : Type 0 where
  pub retrieve_torrents : Str → Bool → LayersOption → Outcome Str (List TorrentInfo × Context)
  pub load_image : Str → DownloadInfo → Context → Outcome Str (Unit {0})

-- The handler of Docker, with its flags `--squashed` and `--local-ip`.
abbrev pub docker_handler : Services → Bool → Str → TorrentHandler
docker_handler svc squashed local_ip = record {
  retrieve_torrents = λ image insecure option. Docker.retrieve svc squashed image insecure option;
  load_image = λ image info ctx. Docker.load svc squashed local_ip info ctx;
}

-- `if err != nil { log.Fatal(err) }`
pub log_fatal : {A : Type 0} → Outcome Str A → Outcome Str A
log_fatal (ok a) = ok a
log_fatal (err e) = fatal e
log_fatal (panic p) = panic p
log_fatal (fatal e) = fatal e
log_fatal blocked = blocked

module _ (handler : TorrentHandler)
    (download : List TorrentInfo → SeedOption → Outcome Str DownloadInfo) (insecure : Bool) where
  pub torrent_pull_run : List Str → Outcome Str (Unit {0})
  unfolding log_fatal
  torrent_pull_run (image ∷ []) = do
    found ← log_fatal (handler.retrieve_torrents image insecure missing_layers)
    info ← download found.0 no_seed
    log_fatal (handler.load_image image info found.1)
  torrent_pull_run _ = fatal (text "failed to specify one image to be pulled")

  -- `<-downloadInfo.CompleteChannel`
  pub await_seeding : Channel → Outcome Str (Unit {0})
  await_seeding closed_channel = ok tt
  await_seeding open_channel = blocked
  await_seeding absent = blocked

  pub torrent_seed_run : List Str → Outcome Str (Unit {0})
  unfolding log_fatal await_seeding
  torrent_seed_run (image ∷ []) = do
    found ← log_fatal (handler.retrieve_torrents image insecure all_layers)
    info ← download found.0 seed_after_pull
    await_seeding info.complete
  torrent_seed_run _ = fatal (text "failed to specify one image to be seeded")

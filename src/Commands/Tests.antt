-- ===== src/Commands/Tests.antt =====
-- The commands on an image of one layer, which Docker has.
use quayctl.Base.{
  text, str_eq, str_beq, ◌≡◌, refl, false, true, arith, ◌↔◌, none, some, [], ◌∷◌, ok, blocked,
  fatal, panic, type_assertion,
}
use quayctl.Engine.{nil, DownloadInfo, SignedManifest, signed, absent, open_channel}
use quayctl.Engine.Docker.{Services}
use quayctl.Engine.Docker.Tests.{app, services}
use quayctl.Commands.{
  TorrentHandler, docker_handler, log_fatal, await_seeding, torrent_pull_run, torrent_seed_run,
}
use quayctl.Commands.Config.{Flags, default_flags, client_config}
use quayctl.Commands.Limits.{InRange, client-InRange}
use quayctl.Bittorrent.Settings.{SessionConstants, Client, init_bit_torrent_client}
use quayctl.Bittorrent.Client.{new, start_client}
use quayctl.Commands.Present.{pull_present_panics}

abbrev lowest : SignedManifest
lowest = record { fs_layers = text "c" ∷ []; history = text "1" ∷ [] }

abbrev with_lowest : Services
with_lowest = record services { download_manifest = λ image insecure. ok (app, signed lowest) }

abbrev no_downloads : DownloadInfo
no_downloads = record {
  downloaded = λ b. absent;
  complete = open_channel;
  has_progress_bars = false;
  torrent_paths = [];
}

pull_present_panics_example :
    torrent_pull_run
      (docker_handler with_lowest false (text "localhost"))
      (λ torrents option. ok no_downloads)
      false
      (text "quay/app" ∷ [])
    ≡ panic type_assertion
unfolding text str_beq
pull_present_panics_example =
    pull_present_panics with_lowest (λ torrents option. ok no_downloads) false (text "quay/app")
      (text "localhost") app lowest (text "1") [] [] (text "c") refl refl refl refl no_downloads
      refl

-- The seeding is awaited.
abbrev seeding : TorrentHandler
seeding = record {
  retrieve_torrents = λ image insecure option. ok ([], nil);
  load_image = λ image info ctx. ok tt;
}

seed_test :
    torrent_seed_run seeding (λ torrents option. ok no_downloads) false (text "quay/app" ∷ [])
    ≡ blocked
unfolding torrent_seed_run log_fatal await_seeding
seed_test = refl

no_image_test :
    torrent_pull_run seeding (λ torrents option. ok no_downloads) false []
    ≡ fatal (text "failed to specify one image to be pulled")
unfolding torrent_pull_run
no_image_test = refl

abbrev session_constants : SessionConstants
session_constants = record {
  add_default_plugins = 1;
  both_levels = 3;
  status_notification = 64;
  error_notification = 1;
  all_categories = 2147483647;
}

-- The default flags with a download rate of 500 kB/s.
abbrev limited : Flags
limited = record default_flags { download_rate = 500 }

limited-InRange : InRange 32 limited
unfolding default_flags
limited-InRange = record {
  connections = ground arith;
  download = ground arith;
  upload = ground arith;
  encryption = ground arith;
}

client-InRange_example :
    (client : Client) × (init_bit_torrent_client 32 session_constants
        (λ lower upper. none)
        none
        (client_config 32 limited)
      ≡ ok client)
    × (start_client true new ≡ some client.state)
    × (client.session.download_rate_limit ≡ 512000)
    × (client.session.upload_rate_limit ≡ 0)
    × ((client.session.download_rate_limit ≡ 0) ↔ (limited.download_rate ≡ 0))
    × ((client.session.upload_rate_limit ≡ 0) ↔ (limited.upload_rate ≡ 0))
    × (client.session.connection_speed ≡ 200)
    × (client.session.torrent_connect_boost ≡ 2000)
    × (client.session.out_enc_policy ≡ 0)
    × (client.session.in_enc_policy ≡ 0)
unfolding default_flags
client-InRange_example =
    client-InRange session_constants (λ lower upper. none) 32 limited limited-InRange refl

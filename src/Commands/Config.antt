-- ===== src/Commands/Config.antt =====
-- cmd/quayctl/torrentcmd.go: the flags of the torrent commands and the configurations that
-- `torrentPullRun` and `torrentSeedRun` make of them. The type `Flags` stands for the variables of the
-- file; an `int` is a number below 2 ^ w for words of w bits, as in Bittorrent/Settings.antt.
use quayctl.Base.{Str, text, ◌++◌, ℕ, Bool, false, List, []}
use quayctl.Base.Int.{ℤ, pos}
use quayctl.Bittorrent.{DownloadConfig}
use quayctl.Bittorrent.Settings.{ClientFingerprint, ClientConfig, forced, mul_int}

pub record Flags : Type 0 where
  pub lower_port : ℕ
  pub upper_port : ℕ
  pub connections_per_second : ℕ
  pub download_rate : ℕ
  pub upload_rate : ℕ
  pub encryption_mode : ℕ
  pub debug : Bool
  pub insecure : Bool
  pub skip_web_seed : Bool
  pub trackers : List Str
  pub duration : ℤ

-- The values of the flags that the command line leaves out.
unfoldable pub default_flags : Flags
default_flags = record {
  lower_port = 6881;
  upper_port = 6889;
  connections_per_second = 200;
  download_rate = 0;
  upload_rate = 0;
  encryption_mode = forced;
  debug = false;
  insecure = false;
  skip_web_seed = false;
  trackers = [];
  duration = pos 0;
}

abbrev pub torrent_fingerprint : ClientFingerprint
torrent_fingerprint = record { id = text "QU"; major = 0; minor = 1; revision = 0; tag = 0 }

-- The folder of the torrents, from `os.TempDir()`.
unfoldable pub torrent_folder : Str → Str
torrent_folder temp_dir = temp_dir ++ text "/quayctl/torrents"

-- `word` is the width of an `int`: 64, or 32 on linux-x86 and linux-arm.
unfoldable pub client_config : ℕ → Flags → ClientConfig
client_config word flags = record {
  fingerprint = torrent_fingerprint;
  lower_listen_port = flags.lower_port;
  upper_listen_port = flags.upper_port;
  connections_per_second = flags.connections_per_second;
  max_download_rate = mul_int word flags.download_rate 1024;
  max_upload_rate = mul_int word flags.upload_rate 1024;
  encryption = flags.encryption_mode;
  debug = flags.debug;
}

unfoldable pub download_config : Flags → DownloadConfig
download_config flags = record {
  skip_webseed = flags.skip_web_seed;
  custom_trackers = flags.trackers;
}

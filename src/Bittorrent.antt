-- ===== src/Bittorrent.antt =====
-- bittorrent/: the client of libtorrent, and the preparation of torrent files.
pub mod File
pub mod Prepare
pub mod Goroutines
pub mod Client
pub mod Status
pub mod Settings
use quayctl.Base.{Str, Bool, List}

-- What a caller of `Download` may ask for.
pub record DownloadConfig : Type 0 where
  pub skip_webseed : Bool
  pub custom_trackers : List Str

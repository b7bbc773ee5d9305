-- ===== src/Engine.antt =====
-- The types of engine/containerengine.go and engine/torrent.go that the engines share, and
-- the structures of engine/docker.go and engine/rkt.go that go through `interface{}`.
pub mod Docker
pub mod Goroutines
pub mod Torrent
pub mod Download
pub mod Pull
pub mod Rkt
mod Tests
use quayctl.Base.{Str, Bool, ℕ, List, Option, map}
use quayctl.Base.Dict.{Dict}

-- Whether all layers are wanted, or those only that the engine lacks.
pub data LayersOption : Type 0 where
  all_layers missing_layers : LayersOption

pub record TorrentInfo : Type 0 where
  pub id : Str
  pub torrent_path : Str
  pub title : Str

-- The ids of some torrents, in their order.
abbrev pub ids : List TorrentInfo → List Str
ids = map (λ (t : TorrentInfo). t.id)

-- The fields of `url.URL` that the program sets; `user` is `url.UserPassword(name, password)`.
pub record Url : Type 0 where
  pub scheme : Str
  pub user : Option (Str × Str)
  pub host : Str
  pub path : Str

-- What the program reads of a `reference.Named`: its methods, and the tag and the digest if it
-- is a `NamedTagged` or a `Canonical`.
pub record Named : Type 0 where
  pub hostname : Str
  pub remote_name : Str
  pub full_name : Str
  pub tag : Option Str
  pub digest : Option Str

-- What the program reads of a `schema1.SignedManifest`: the digests in `FSLayers` and the
-- `V1Compatibility` strings in `History`.
pub record SignedManifest : Type 0 where
  pub fs_layers : List Str
  pub history : List Str

-- A `distribution.Manifest`, as the type switches of the program tell it apart.
pub data Manifest : Type 0 where
  signed : SignedManifest → Manifest
  other : Manifest

pub record V1LayerInfo : Type 0 where
  pub id : Str

pub record LayerInfo : Type 0 where
  pub info : V1LayerInfo
  pub layer : Str
  pub index : ℕ
  pub parent_info : Option V1LayerInfo

pub record DockerContext : Type 0 where
  pub v1_manifest : SignedManifest
  pub layers : List LayerInfo
  pub named : Named

pub record RktContext : Type 0 where
  pub signature_url : Url

-- The value that `RetrieveTorrents` hands to `LoadImage` as an `interface{}`.
pub data Context : Type 0 where
  nil : Context
  docker : DockerContext → Context
  rkt : RktContext → Context

pub record AuthConfig : Type 0 where
  pub username : Str
  pub password : Str

-- What `LoadImage` reads of a `downloadTorrentInfo`: which channels exist, which are closed, and
-- the paths of the torrents.
pub data Channel : Type 0 where
  absent open_channel closed_channel : Channel

pub record DownloadInfo : Type 0 where
  pub downloaded : Str → Channel
  pub complete : Channel
  pub has_progress_bars : Bool
  pub torrent_paths : Dict Str

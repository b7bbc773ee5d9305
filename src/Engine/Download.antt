-- ===== src/Engine/Download.antt =====
-- engine/torrent.go with bittorrent/bittorrent.go: the goroutines of `DownloadTorrents` on the client that
-- they call. Worker and call of `Download` have the number of the torrent.
pub mod Finished
pub mod Forever
pub mod Schedule
pub mod Completion
pub mod Tests
use quayctl.Base.{
  Str, text, str_eq, nat_eq, ℕ, ◌==◌, Bool, true, false, not, ◌&&◌, List, Option, none, some,
  get_elem?, contains, ◌≡◌, if◌then◌else◌,
}
use quayctl.Base.Int.{ℤ}
use quayctl.Engine.{TorrentInfo}
use quayctl.Engine.Torrent as Torrent
use quayctl.Engine.Torrent.{
  SeedOption, local_seed_duration, download_ok, download_failed, end_of_seeding, stop_client,
  running, panicked, exited,
}
use quayctl.Bittorrent.Client as Client
use quayctl.Bittorrent.Client.{Request, Phase, returned, failed}

pub record Joint : Type 0 where
  pub engine : Torrent.State
  pub client : Client.State

pub data Action : Type 0 where
  of_worker : Torrent.Action → Action
  of_client : Client.Action → Action

unfoldable pub begin : Joint
begin = record { engine = Torrent.init; client = Client.new }

-- `path.Clean(downloadPath + "/" + handle.TorrentFile().Name())` by the handle is a parameter.
module _ (torrents : List TorrentInfo) (option : SeedOption) (duration : ℤ)
    (path_of : ℕ → Str) where
  -- The arguments with which the goroutine of a torrent calls `Download`.
  unfoldable pub request_of : ℕ → Request
  request_of i = record {
    source_path = elim (get_elem? torrents i) [ none ↦ text "" | some t ↦ t.torrent_path ];
    seed_duration = local_seed_duration option duration;
  }

  -- The path that a call has returned, if it has.
  unfoldable pub answer_of : Client.State → ℕ → Option Str
  answer_of c i = elim (c.calls i) [ returned t ↦ some (path_of (c.handles t)) | _ ↦ none ]

  -- Whether a call has returned an error.
  unfoldable pub has_failed : Phase → Bool
  has_failed (failed e) = true
  has_failed _ = false

  -- Whether the client lets a goroutine go on: the call of a worker has to return a path or an error, its
  -- channel has to be closed at the end of the seeding, and `Stop` has to return.
  unfoldable pub allows : Client.State → Torrent.Action → Bool
  unfolding answer_of has_failed
  allows c (download_ok i path) = elim (answer_of c i) [ none ↦ false | some p ↦ p == path ]
  allows c (download_failed i) = has_failed (c.calls i)
  allows c (end_of_seeding i) = c.keep_seeding i
  allows c stop_client = not c.running && c.stops == 0
  allows c _ = true

  -- A panic of the client ends the goroutines of the engine too.
  unfoldable pub worker_acts : Torrent.Action → Joint → Option Joint
  unfolding allows
  worker_acts a j =
      if allows j.client a && not j.client.panicked
      then elim (Torrent.act torrents (local_seed_duration option duration) a j.engine) [
        | none ↦ none
        | some s ↦ some (record j { engine = s })
      ]
      else none

  -- The end of the process ends those of the client.
  unfoldable pub client_acts : Client.Action → Joint → Option Joint
  unfolding request_of
  client_acts a j = elim j.engine.status [
    | running ↦ elim (Client.act request_of a j.client) [
      | none ↦ none
      | some c ↦ some (record j { client = c })
    ]
    | _ ↦ none
  ]

  unfoldable pub joint_act : Action → Joint → Option Joint
  unfolding worker_acts client_acts
  joint_act (of_worker a) j = worker_acts a j
  joint_act (of_client a) j = client_acts a j

  abbrev pub Documented : Joint → Action → Type 0
  Documented j (of_client a) = Client.Documented request_of j.client a
  Documented j (of_worker a) = Unit

  pub data Reach : Joint → Type 0 where
    initially : Reach begin
    next : {j k : Joint} (a : Action) → Reach j → Documented j a → joint_act a j ≡ some k → Reach k

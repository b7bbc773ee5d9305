-- ===== src/Engine/Goroutines.antt =====
-- engine/torrent.go: where the goroutines that `DownloadTorrents` starts stand, the state that they share,
-- and their actions, which Engine/Torrent.antt gives. A worker is the goroutine of one torrent, the waiter
-- is the one that awaits all of them.
use quayctl.Base.{Str, str_eq, ℕ, Bool, true, false, [], ◌==◌, nat_eq, if◌then◌else◌}
use quayctl.Base.Dict.{Dict}

pub data SeedOption : Type 0 where
  no_seed seed_after_pull : SeedOption

-- Where a worker stands: in `bt.Download`, after `torrentPaths.Set`, after the close of the downloaded
-- channel, after the wait for the seeding, and at its end.
pub data Worker : Type 0 where
  downloading stored announced seeded done : Worker

-- Where the waiter stands: at the channel of the torrent at a position, before `bt.Stop`, before the
-- close of `completed`, and at its end.
pub data Waiter : Type 0 where
  awaits : ℕ → Waiter
  stopping closing ended : Waiter

-- The process runs, or a goroutine has panicked, or it has exited.
pub data Status : Type 0 where
  running panicked exited : Status

-- A channel is told by its key and is `true` once it is closed. All channels are made before the first
-- worker starts, so workers with the same key share a channel.
pub record State : Type 0 where
  pub workers : ℕ → Worker
  pub downloaded : Str → Bool
  pub completed : Str → Bool
  pub keep_seeding : ℕ → Bool
  pub torrent_paths : Dict Str
  pub waiter : Waiter
  pub client_stopped : Bool
  pub complete : Bool
  pub status : Status

abbrev pub update : (ℕ → Worker) → ℕ → Worker → ℕ → Worker
update f i w j = if i == j then w else f j

-- `close(c)` for the channel of a key.
abbrev pub close : (Str → Bool) → Str → Str → Bool
close c k j = if k == j then true else c j

pub data Action : Type 0 where
  download_ok : ℕ → Str → Action
  download_failed announce end_of_seeding go_on finish : ℕ → Action
  await_next stop_client close_complete signal : Action

-- All channels are open and every goroutine stands at its beginning.
unfoldable pub init : State
init = record {
  workers = λ _. downloading;
  downloaded = λ _. false;
  completed = λ _. false;
  keep_seeding = λ _. false;
  torrent_paths = [];
  waiter = awaits 0;
  client_stopped = false;
  complete = false;
  status = running;
}

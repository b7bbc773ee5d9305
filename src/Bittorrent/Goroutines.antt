-- ===== src/Bittorrent/Goroutines.antt =====
-- bittorrent/bittorrent.go: where the goroutines of the client stand, the state that they share, and the
-- actions that they take on it, which are those of Bittorrent/Client.antt.
use quayctl.Base.{Outcome, Str, ℕ, Bool, false, List, [], Option, ◌==◌, nat_eq, if◌then◌else◌}
use quayctl.Base.Dict.{Dict}
use quayctl.Base.Int.{ℤ}

-- The arguments of a call that the client looks at. `seed_duration` is nil for no seeding.
pub record Request : Type 0 where
  pub source_path : Str
  pub seed_duration : Option ℤ

pub data DownloadError : Type 0 where
  not_started already_downloading : DownloadError
  not_prepared : Str → DownloadError

-- Where a call stands, by what it does next: the test of `Running`, the two looks at the torrents with
-- the preparation between them, the wait for the torrent, and the seeding. A torrent is told by its
-- pointer. The last two are its ends.
pub data Phase : Type 0 where
  at_running at_first_check at_prepare at_add : Phase
  at_wait at_seed : ℕ → Phase
  returned : ℕ → Phase
  failed : DownloadError → Phase

-- Where the consumer stands: not started, before the test of `Running`, in the wait for an alert, before
-- the close of a torrent's channel, and at its end.
pub data Consumer : Type 0 where
  unstarted at_loop at_alert : Consumer
  at_close : ℕ → Consumer
  stopped : Consumer

-- `handles` and `finished` are the fields of the torrents, a channel being `true` once it is closed, and
-- `made` is how many there are. `keep_seeding` are the channels that the calls return, `seeders` the
-- goroutines that sleep for a call, `stops` the calls of `Stop` that have not come to the torrents.
-- `removed` are the handles that were removed from libtorrent's session, and `alerted` those for which it
-- has posted that they are finished. `panicked` says that a goroutine has closed a channel a second time.
pub record State : Type 0 where
  pub running : Bool
  pub torrents : Dict ℕ
  pub handles : ℕ → ℕ
  pub finished : ℕ → Bool
  pub made : ℕ
  pub calls : ℕ → Phase
  pub keep_seeding : ℕ → Bool
  pub seeders : ℕ → Bool
  pub consumer : Consumer
  pub stops : ℕ
  pub removed : List ℕ
  pub alerted : List ℕ
  pub panicked : Bool

abbrev pub set : {A : Type 0} → (ℕ → A) → ℕ → A → ℕ → A
set f i a j = if i == j then a else f j

pub data Action : Type 0 where
  start : Bool → Action
  check_running check_first : ℕ → Action
  prepare : ℕ → Outcome Str (Unit {0}) → Action
  add : ℕ → ℕ → Action
  receive seed wake : ℕ → Action
  test_running no_alert close_finished : Action
  finished_alert : ℕ → Action
  stop_running stop_torrents : Action

-- `NewClient`
unfoldable pub new : State
new = record {
  running = false;
  torrents = [];
  handles = λ _. 0;
  finished = λ _. false;
  made = 0;
  calls = λ _. at_running;
  keep_seeding = λ _. false;
  seeders = λ _. false;
  consumer = unstarted;
  stops = 0;
  removed = [];
  alerted = [];
  panicked = false;
}

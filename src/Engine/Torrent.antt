-- ===== src/Engine/Torrent.antt =====
-- engine/torrent.go: the goroutines that `DownloadTorrents` starts, as actions on the state that they
-- share. An action is what one goroutine does between two accesses to that state.
pub mod Invariant
pub mod Safety
pub mod Paths
pub mod Display
pub mod Progress
pub mod Termination
pub mod Completion
pub mod Unended
pub mod Tests
use quayctl.Base.Int.{ℤ, is_positive}
use quayctl.Base.{
  Str, str_eq, ℕ, zero, suc, ◌+◌, ◌-◌, ◌≡◌, Bool, true, false, not, ◌&&◌, ◌||◌, List, [], ◌∷◌,
  Option, none, some, map, ◌==◌, nat_eq, ltb, if◌then◌else◌, get_elem?, length, take, contains,
  Outcome, ok, err, panic, fatal, blocked, could_not_initialize, ◌>>=◌,
}
use quayctl.Base.Dict.{Dict, insert}
use quayctl.Engine.{ids, TorrentInfo, DownloadInfo, Channel, absent, open_channel, closed_channel}
pub use quayctl.Engine.Goroutines.{
  SeedOption, no_seed, seed_after_pull, Worker, downloading, stored, announced, seeded, done,
  Waiter, awaits, stopping, closing, ended, Status, running, panicked, exited, State, update, close,
  Action, download_ok, download_failed, announce, end_of_seeding, go_on, finish, await_next,
  stop_client, close_complete, signal,
}
unfoldable pub use quayctl.Engine.Goroutines.{init}

-- `close(torrentDownloadedChannels[torrent.id])`
unfoldable pub close_downloaded : ℕ → Str → State → State
close_downloaded i k s =
    if s.downloaded k
    then record s { status = panicked }
    else record s { downloaded = close s.downloaded k; workers = update s.workers i announced }

-- `close(torrentCompletedChannels[torrent.id])`
unfoldable pub close_completed : ℕ → Str → State → State
close_completed i k s =
    if s.completed k
    then record s { status = panicked }
    else record s { completed = close s.completed k; workers = update s.workers i done }

-- `localSeedDuration` of `DownloadTorrents`: nil for no seeding.
unfoldable pub local_seed_duration : SeedOption → ℤ → Option ℤ
local_seed_duration no_seed duration = none
local_seed_duration seed_after_pull duration = some duration

-- Whether the client closes the channel that `bt.Download` returns: without a seeding, or after a positive
-- duration.
abbrev pub closes : Option ℤ → Bool
closes none = true
closes (some duration) = is_positive duration

-- `localSeedDuration == nil`
abbrev pub is_nil : Option ℤ → Bool
is_nil none = true
is_nil (some duration) = false

-- `seeds` is `localSeedDuration`.
module _ (torrents : List TorrentInfo) (seeds : Option ℤ) where
  -- The id of the torrent at a position.
  abbrev pub id_at : ℕ → Option Str
  id_at i = get_elem? (ids torrents) i

  -- `bt.Download` has returned a path, and `torrentPaths.Set` records it.
  unfoldable pub store_path : ℕ → Str → State → Option State
  store_path i path s = elim (id_at i) [
    | none ↦ none
    | some k ↦ elim (s.workers i) [
      | downloading ↦ some (record s {
        torrent_paths = insert k path s.torrent_paths;
        workers = update s.workers i stored;
      })
      | _ ↦ none
    ]
  ]

  -- `bt.Download` has returned an error: `log.Fatal`.
  pub fail : ℕ → State → Option State
  fail i s = elim (id_at i) [
    | none ↦ none
    | some k ↦ elim (s.workers i) [ downloading ↦ some (record s { status = exited }) | _ ↦ none ]
  ]

  unfoldable pub mark_downloaded : ℕ → State → Option State
  unfolding close_downloaded
  mark_downloaded i s = elim (id_at i) [
    | none ↦ none
    | some k ↦ elim (s.workers i) [ stored ↦ some (close_downloaded i k s) | _ ↦ none ]
  ]

  -- The client closes the channel that `bt.Download` returned, at the end of the seeding if there is one.
  unfoldable pub end_seeding : ℕ → State → Option State
  end_seeding i s = elim (id_at i) [
    | none ↦ none
    | some k ↦ elim (s.workers i) [
      | announced ↦
          if s.keep_seeding i || not (closes seeds)
          then none
          else some (record s { keep_seeding = λ j. if i == j then true else s.keep_seeding j })
      | _ ↦ none
    ]
  ]

  -- `if localSeedDuration != nil { <-keepSeeding }`
  unfoldable pub pass_seeding : ℕ → State → Option State
  pass_seeding i s = elim (id_at i) [
    | none ↦ none
    | some k ↦ elim (s.workers i) [
      | announced ↦
          if is_nil seeds || s.keep_seeding i
          then some (record s { workers = update s.workers i seeded })
          else none
      | _ ↦ none
    ]
  ]

  unfoldable pub mark_completed : ℕ → State → Option State
  unfolding close_completed
  mark_completed i s = elim (id_at i) [
    | none ↦ none
    | some k ↦ elim (s.workers i) [ seeded ↦ some (close_completed i k s) | _ ↦ none ]
  ]

  -- The loop of the waiter over the torrents.
  unfoldable pub await_torrent : State → Option State
  await_torrent s = elim s.waiter [
    | awaits k ↦ elim (id_at k) [
      | none ↦ some (record s { waiter = stopping })
      | some b ↦ if s.completed b then some (record s { waiter = awaits (k + 1) }) else none
    ]
    | _ ↦ none
  ]

  -- `bt.Stop()`
  unfoldable pub stop : State → Option State
  stop s = elim s.waiter [
    | stopping ↦ some (record s { client_stopped = true; waiter = closing })
    | _ ↦ none
  ]

  -- `close(completed)`
  unfoldable pub close_complete_channel : State → Option State
  close_complete_channel s = elim s.waiter [
    | closing ↦ some (
        if s.complete
        then record s { status = panicked }
        else record s { complete = true; waiter = ended })
    | _ ↦ none
  ]

  -- `catchShutdownSignals` after the signal.
  pub shutdown : State → Option State
  shutdown s = some (record s { client_stopped = true; status = exited })

  unfoldable pub dispatch : Action → State → Option State
  unfolding store_path fail mark_downloaded end_seeding pass_seeding mark_completed await_torrent
      stop close_complete_channel shutdown
  dispatch (download_ok i path) s = store_path i path s
  dispatch (download_failed i) s = fail i s
  dispatch (announce i) s = mark_downloaded i s
  dispatch (end_of_seeding i) s = end_seeding i s
  dispatch (go_on i) s = pass_seeding i s
  dispatch (finish i) s = mark_completed i s
  dispatch await_next s = await_torrent s
  dispatch stop_client s = stop s
  dispatch close_complete s = close_complete_channel s
  dispatch signal s = shutdown s

  -- An action that is not possible gives `none`, as does every action once the process has ended.
  unfoldable pub act : Action → State → Option State
  unfolding dispatch
  act a s = elim s.status [ running ↦ dispatch a s | _ ↦ none ]

  pub run : List Action → State → Option State
  run [] s = some s
  run (a ∷ rest) s = elim (act a s) [ none ↦ none | some t ↦ run rest t ]

  pub data Reach : State → Type 0 where
    start : Reach init
    later : {s t : State} (a : Action) → Reach s → act a s ≡ some t → Reach t

module _ (torrents : List TorrentInfo) where
  -- What `LoadImage` sees of a state.
  unfoldable pub info_of : Bool → State → DownloadInfo
  info_of bars s = record {
    downloaded = λ k.
        if contains (ids torrents) k
        then (if s.downloaded k then closed_channel else open_channel)
        else absent;
    complete = if s.complete then closed_channel else open_channel;
    has_progress_bars = bars;
    torrent_paths = s.torrent_paths;
  }

-- The call itself: `clientConfig.Debug`, whether the pool of progress bars started, what `pool.Stop()` does
-- to it, and the result of `initBitTorrentClient` decide how it begins. `Stop` is called for debugging, also
-- on a pool that has not started.
pub download_torrents :
    Bool
    → Bool
    → (Bool → Outcome Str (Unit {0}))
    → Outcome Str (Unit {0})
    → Outcome Str (Bool × State)
download_torrents debug pool_started stop_pool client = do
  _ ← (if debug then stop_pool pool_started else ok tt)
  _ ← init_client client
  ok (pool_started && not debug, init)
  where
    init_client : Outcome Str (Unit {0}) → Outcome Str (Unit {0})
    init_client (err e) = panic could_not_initialize
    init_client r = r

unfoldable pub shorten_name : Str → Str
shorten_name name = if ltb 19 (length name) then take 19 name else name

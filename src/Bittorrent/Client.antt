-- ===== src/Bittorrent/Client.antt =====
-- bittorrent/bittorrent.go: the client as actions of its goroutines on the state that they share. An
-- action is a stretch of code under the lock, or between two accesses to the shared state. A call is one
-- call of `Download`, told by a number; the consumer is the goroutine that handles libtorrent's alerts,
-- which `Start` starts.
pub mod Removal
pub mod Invariant
pub mod Alerts
pub mod Stop
pub mod Lost
pub mod Seeding
pub mod Listed
pub mod Returned
pub mod Order
mod Tests
pub use quayctl.Bittorrent.Goroutines.{
  Request, DownloadError, not_started, already_downloading, not_prepared, Phase, at_running,
  at_first_check, at_prepare, at_add, at_wait, at_seed, returned, failed, Consumer, unstarted,
  at_loop, at_alert, at_close, stopped, State, set, Action, start, check_running, check_first,
  prepare, add, receive, seed, wake, test_running, no_alert, close_finished, finished_alert,
  stop_running, stop_torrents,
}
unfoldable pub use quayctl.Bittorrent.Goroutines.{new}
use quayctl.Base.{
  Str, str_eq, ℕ, suc, ◌+◌, ◌-◌, Bool, true, false, not, List, [], ◌∷◌, Option, none, some, ◌==◌,
  nat_eq, if◌then◌else◌, Outcome, ok, err, panic, fatal, blocked, map, contains, ◌≡◌,
}
use quayctl.Base.Dict.{Dict, lookup, insert, erase, keys}
use quayctl.Base.Int.{ℤ, is_positive}

-- `findTorrent`, on the torrents in the order of the range.
unfoldable pub find_torrent : (ℕ → ℕ) → ℕ → Dict ℕ → Option ℕ
find_torrent handles h [] = none
find_torrent handles h ((source, t) ∷ rest) =
    if h == handles t then some t else find_torrent handles h rest

-- The first half of `deleteTorrent`.
unfoldable pub remove_torrent : Str → State → State
remove_torrent source s = elim (lookup source s.torrents) [
  | none ↦ s
  | some t ↦ record s { torrents = erase source s.torrents; removed = s.handles t ∷ s.removed }
]

-- `close(keepSeedingChan)` for the channel of a call.
unfoldable pub close_keep_seeding : ℕ → State → State
close_keep_seeding i s =
    if s.keep_seeding i
    then record s { panicked = true }
    else record s { keep_seeding = set s.keep_seeding i true }

-- `deleteTorrent`, with the channel of a call or nil.
unfoldable pub delete_torrent : Str → Option ℕ → State → State
unfolding remove_torrent close_keep_seeding
delete_torrent source none s = remove_torrent source s
delete_torrent source (some i) s = close_keep_seeding i (remove_torrent source s)

-- The loop of `Stop`.
unfoldable pub delete_all : List Str → State → State
unfolding delete_torrent
delete_all [] s = s
delete_all (source ∷ rest) s = delete_all rest (delete_torrent source none s)

-- `Start`, the first call of it: whether libtorrent listens decides how it ends.
unfoldable pub start_client : Bool → State → Option State
start_client listens s = elim s.consumer [
  | unstarted ↦ some (if listens then record s { running = true; consumer = at_loop } else s)
  | _ ↦ none
]

-- `for bt.Running`
unfoldable pub test_loop : State → Option State
test_loop s = elim s.consumer [
  | at_loop ↦ some (record s { consumer = if s.running then at_alert else stopped })
  | _ ↦ none
]

-- No alert in the interval, or one of another type.
pub ignore_alert : State → Option State
ignore_alert s = elim s.consumer [ at_alert ↦ some (record s { consumer = at_loop }) | _ ↦ none ]

-- The alert that the torrent of a handle is finished.
unfoldable pub handle_alert : ℕ → State → Option State
unfolding find_torrent
handle_alert h s = elim s.consumer [
  | at_alert ↦ some (record s {
    consumer = elim (find_torrent s.handles h s.torrents) [ none ↦ at_loop | some t ↦ at_close t ];
    alerted = h ∷ s.alerted;
  })
  | _ ↦ none
]

-- `close(torrent.isFinished)`
unfoldable pub close_is_finished : State → Option State
close_is_finished s = elim s.consumer [
  | at_close t ↦ some (
      if s.finished t
      then record s { panicked = true }
      else record s { finished = set s.finished t true; consumer = at_loop })
  | _ ↦ none
]

-- `bt.Running = false` of `Stop`.
unfoldable pub stop_client : State → Option State
stop_client s = some (record s { running = false; stops = suc s.stops })

-- "Stop torrents."
unfoldable pub stop_all : State → Option State
unfolding delete_all keys
stop_all s =
    if s.stops == 0
    then none
    else some (delete_all (keys s.torrents) (record s { stops = s.stops - 1 }))

module _ (requests : ℕ → Request) where
  abbrev pub source_of : ℕ → Str
  source_of i = (requests i).source_path

  abbrev pub go_to : ℕ → Phase → State → State
  go_to i phase s = record s { calls = set s.calls i phase }

  -- `if !bt.Running`
  unfoldable pub check_if_running : ℕ → State → Option State
  check_if_running i s = elim (s.calls i) [
    | at_running ↦ some (go_to i (if s.running then at_first_check else failed not_started) s)
    | _ ↦ none
  ]

  -- "Verify that the torrent is unique first"
  unfoldable pub check_unique : ℕ → State → Option State
  check_unique i s = elim (s.calls i) [
    | at_first_check ↦ some (elim (lookup (source_of i) s.torrents) [
      | none ↦ go_to i at_prepare s
      | some t ↦ go_to i (failed already_downloading) s
    ])
    | _ ↦ none
  ]

  -- The preparation, by how it ends. A panic of it, on a torrent file that is no dictionary, ends the
  -- process, so no state follows.
  unfoldable pub prepare_call : ℕ → Outcome Str (Unit {0}) → State → Option State
  prepare_call i r s = elim (s.calls i) [
    | at_prepare ↦ elim r [
      | ok _ ↦ some (go_to i at_add s)
      | err e ↦ some (go_to i (failed (not_prepared e)) s)
      | _ ↦ none
    ]
    | _ ↦ none
  ]

  -- "Add torrent to the Bittorrent client": `h` is the handle that libtorrent gives.
  unfoldable pub add_torrent : ℕ → ℕ → State → Option State
  add_torrent i h s = elim (s.calls i) [
    | at_add ↦ some (elim (lookup (source_of i) s.torrents) [
      | some t ↦ go_to i (failed already_downloading) s
      | none ↦ record s {
        torrents = insert (source_of i) s.made s.torrents;
        handles = set s.handles s.made h;
        made = suc s.made;
        calls = set s.calls i (at_wait s.made);
      }
    ])
    | _ ↦ none
  ]

  -- `<-torrent.isFinished`
  unfoldable pub receive_finished : ℕ → State → Option State
  receive_finished i s = elim (s.calls i) [
    | at_wait t ↦ if s.finished t then some (go_to i (at_seed t) s) else none
    | _ ↦ none
  ]

  -- "Seed for the specified duration", and the return.
  unfoldable pub seed_torrent : ℕ → State → Option State
  unfolding delete_torrent
  seed_torrent i s = elim (s.calls i) [
    | at_seed t ↦ some (
        go_to i (returned t) (elim (requests i).seed_duration [
          | none ↦ delete_torrent (source_of i) (some i) s
          | some d ↦ if is_positive d then record s { seeders = set s.seeders i true } else s
        ]))
    | _ ↦ none
  ]

  -- The goroutine of a call that seeds, after its sleep.
  unfoldable pub wake_seeder : ℕ → State → Option State
  unfolding delete_torrent
  wake_seeder i s =
      if s.seeders i
      then some
          (delete_torrent (source_of i) (some i) (record s { seeders = set s.seeders i false }))
      else none

  unfoldable pub dispatch : Action → State → Option State
  unfolding start_client check_if_running check_unique prepare_call add_torrent receive_finished
      seed_torrent wake_seeder test_loop ignore_alert handle_alert close_is_finished stop_client
      stop_all
  dispatch (start listens) s = start_client listens s
  dispatch (check_running i) s = check_if_running i s
  dispatch (check_first i) s = check_unique i s
  dispatch (prepare i r) s = prepare_call i r s
  dispatch (add i h) s = add_torrent i h s
  dispatch (receive i) s = receive_finished i s
  dispatch (seed i) s = seed_torrent i s
  dispatch (wake i) s = wake_seeder i s
  dispatch test_running s = test_loop s
  dispatch no_alert s = ignore_alert s
  dispatch (finished_alert h) s = handle_alert h s
  dispatch close_finished s = close_is_finished s
  dispatch stop_running s = stop_client s
  dispatch stop_torrents s = stop_all s

  -- After a panic nothing happens.
  unfoldable pub act : Action → State → Option State
  unfolding dispatch
  act a s = elim s.panicked [ true ↦ none | false ↦ dispatch a s ]

  pub run : List Action → State → Option State
  run [] s = some s
  run (a ∷ rest) s = elim (act a s) [ none ↦ none | some t ↦ run rest t ]

  -- "It will only be generated once per torrent", says libtorrent of the alert that one is finished.
  abbrev pub Documented : State → Action → Type 0
  Documented s (finished_alert h) = contains s.alerted h ≡ false
  Documented s _ = Unit

  pub data Reach : State → Type 0 where
    initially : Reach new
    next : {s t : State} (a : Action) → Reach s → Documented s a → act a s ≡ some t → Reach t

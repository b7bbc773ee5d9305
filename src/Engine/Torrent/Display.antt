-- ===== src/Engine/Torrent/Display.antt =====
-- engine/torrent.go: the progress bars of `DownloadTorrents`, and the goroutines that show the status of the
-- torrents. A bar is told by its place in the pool; `bt.GetStatus` is a parameter, which
-- Bittorrent/Status.antt fills, and so are the floating-point numbers and `humanize.Bytes`.
pub mod Shown
pub mod Tests
use quayctl.Base.{
  Str, text, str_eq, ℕ, zero, suc, ◌+◌, Bool, true, false, if◌then◌else◌, List, [], ◌∷◌, ◌++◌,
  Option, none, some, Outcome, ok, err, map,
}
use quayctl.Base.Dict.{Dict, lookup, insert}
use quayctl.Base.Int.{ℤ, pos}
use quayctl.Engine.{TorrentInfo}
use quayctl.Engine.Torrent.{shorten_name}
use quayctl.Bittorrent.Status.{Status, print_torrent_state}

-- What the program sets of a `pb.ProgressBar`; `is_shown` are the four flags of its parts.
pub record Bar : Type 0 where
  pub prefix : Str
  pub postfix : Str
  pub value : ℤ
  pub is_shown : Bool

-- `pb.New(100).Prefix(…).Postfix(…)`
unfoldable pub new_bar : TorrentInfo → Bar
unfolding shorten_name
new_bar torrent = record {
  prefix = shorten_name torrent.title;
  postfix = text " Initializing";
  value = pos 0;
  is_shown = true;
}

-- The loop that makes the bars: those of the pool, and `pbMap`.
unfoldable pub bars_of : List TorrentInfo → List Bar
unfolding new_bar
bars_of torrents = map new_bar torrents

unfoldable pub pb_map_from : ℕ → List TorrentInfo → Dict ℕ → Dict ℕ
pb_map_from n [] m = m
pb_map_from n (torrent ∷ torrents) m = pb_map_from (n + 1) torrents (insert torrent.id n m)

unfoldable pub pb_map : List TorrentInfo → Dict ℕ
unfolding pb_map_from
pb_map torrents = pb_map_from 0 torrents []

-- A change of the bar at a place.
unfoldable pub change_bar : ℕ → (Bar → Bar) → List Bar → List Bar
change_bar i f [] = []
change_bar zero f (bar ∷ bars) = f bar ∷ bars
change_bar (suc i) f (bar ∷ bars) = bar ∷ change_bar i f bars

-- The bar of a torrent, once it has been downloaded.
unfoldable pub completed_bar : Bar → Bar
completed_bar bar = record bar { is_shown = false; postfix = text " Completed"; value = pos 100 }

-- What a worker does to its bar once `Download` has returned.
unfoldable pub complete_bar : Dict ℕ → Str → List Bar → List Bar
unfolding change_bar completed_bar
complete_bar m id bars = elim (lookup id m) [
  | none ↦ bars
  | some i ↦ change_bar i completed_bar bars
]

module _ {F : Type 0} (to_int : F → ℤ) (bytes : F → Str)
    (get_status : Str → Outcome Str (Status F)) where
  -- The rates of a status, `" %s DL%v/s UL%v/s"`; `bytes` takes the rate in kB.
  unfoldable pub print_status : Status F → Str
  unfolding print_torrent_state
  print_status status =
      text " "
      ++ (print_torrent_state status.status
          ++ (text " DL"
              ++ (bytes status.download_rate
                  ++ (text "/s UL" ++ (bytes status.upload_rate ++ text "/s")))))

  -- The bar of a torrent after its status has been asked for.
  unfoldable pub refresh : Outcome Str (Status F) → Bar → Bar
  unfolding print_status
  refresh (ok status) bar = record bar {
    value = to_int status.progress;
    postfix = print_status status;
  }
  refresh _ bar = bar

  -- The loop over the torrents, every 250 milliseconds.
  unfoldable pub refresh_bars : Dict ℕ → List TorrentInfo → List Bar → List Bar
  unfolding change_bar refresh
  refresh_bars m [] bars = bars
  refresh_bars m (torrent ∷ torrents) bars = elim (lookup torrent.id m) [
    | none ↦ refresh_bars m torrents bars
    | some i ↦
        refresh_bars m torrents (change_bar i (refresh (get_status torrent.torrent_path)) bars)
  ]

  -- The lines that are logged every 30 seconds where there are no bars.
  unfoldable pub log_statuses : List TorrentInfo → List Str
  unfolding print_status shorten_name
  log_statuses [] = []
  log_statuses (torrent ∷ torrents) = elim (get_status torrent.torrent_path) [
    | ok status ↦
        (text "Torrent " ++ (shorten_name torrent.title ++ (text ":" ++ print_status status)))
        ∷ log_statuses torrents
    | _ ↦ log_statuses torrents
  ]

  -- The step of a goroutine that shows the status: `completed` ends it.
  unfoldable pub show_step : Dict ℕ → List TorrentInfo → Bool → List Bar → Option (List Bar)
  unfolding refresh_bars
  show_step m torrents completed bars =
      if completed then none else some (refresh_bars m torrents bars)

  -- The step of the goroutine that logs the status instead: what it logs.
  unfoldable pub log_step : List TorrentInfo → Bool → Option (List Str)
  unfolding log_statuses
  log_step torrents completed = if completed then none else some (log_statuses torrents)

-- ===== src/Engine/Torrent/Paths.antt =====
-- Which actions of engine/torrent.go change the map of paths.
use quayctl.Base.Int.{ℤ}
use quayctl.Base.{Option, Str, str_eq, nat_eq, ◌≡◌, inl, inr, List, some, arith, Option-cases}
use quayctl.Base.Dict.{insert}
use quayctl.Engine.{TorrentInfo}
use quayctl.Engine.Torrent.{
  State, Action, download_ok, download_failed, announce, end_of_seeding, go_on, finish, await_next,
  stop_client, close_complete, signal, close_downloaded, close_completed, id_at, store_path, fail,
  mark_downloaded, end_seeding, pass_seeding, mark_completed, await_torrent, stop,
  close_complete_channel, shutdown, dispatch, act,
}

module _ (torrents : List TorrentInfo) (seeds : Option ℤ) where
  -- What an action does to the paths.
  abbrev pub PathsOf : Action → State → State → Type 0
  PathsOf (download_ok i path) s t =
      (k : Str) × (id_at torrents seeds i ≡ some k)
      × (t.torrent_paths ≡ insert k path s.torrent_paths)
  PathsOf _ s t = t.torrent_paths ≡ s.torrent_paths

  pub act-PathsOf : (a : Action) (s t : State) → act torrents seeds a s ≡ some t → PathsOf a s t
  unfolding act dispatch store_path fail mark_downloaded end_seeding pass_seeding mark_completed
      await_torrent stop close_complete_channel shutdown close_downloaded close_completed
  act-PathsOf (download_ok i path) s t e = elim (Option-cases (id_at torrents seeds i)) [
    | inl unknown ↦ absurd (ground (arith, unknown))
    | inr (k, known) ↦ (k, known, ground (arith, known))
  ]
  act-PathsOf (download_failed i) s t e = ground arith
  act-PathsOf (announce i) s t e = ground arith
  act-PathsOf (end_of_seeding i) s t e = ground arith
  act-PathsOf (go_on i) s t e = ground arith
  act-PathsOf (finish i) s t e = ground arith
  act-PathsOf await_next s t e = ground arith
  act-PathsOf stop_client s t e = ground arith
  act-PathsOf close_complete s t e = ground arith
  act-PathsOf signal s t e = ground arith

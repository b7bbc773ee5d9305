-- ===== src/Bittorrent/Client/Returned.antt =====
-- What the actions on the client of bittorrent/bittorrent.go leave to a call that has returned.
use quayctl.Base.{str_eq, ℕ, ◌-◌, ◌≡◌, false, some, nat_eq, arith}
use quayctl.Base.Dict.{keys}
use quayctl.Bittorrent.Client.{
  Request, returned, State, set, Action, add, seed, wake, stop_torrents, close_keep_seeding,
  delete_torrent, start_client, source_of, check_if_running, check_unique, prepare_call,
  add_torrent, receive_finished, seed_torrent, wake_seeder, test_loop, ignore_alert, handle_alert,
  close_is_finished, stop_client, stop_all, dispatch, act,
}
use quayctl.Bittorrent.Client.Invariant.{Inv}
use quayctl.Bittorrent.Client.Removal.{remove_torrent-Removed, delete_all-Removed}

module _ (requests : ℕ → Request) where
  dispatch-returned :
      (a : Action) (i p : ℕ) (s t : State)
      → Inv s
      → s.calls i ≡ returned p
      → dispatch requests a s ≡ some t
      → (t.calls i ≡ returned p) × (t.handles p ≡ s.handles p)
  unfolding dispatch start_client check_if_running check_unique prepare_call receive_finished
      test_loop ignore_alert close_is_finished stop_client add_torrent handle_alert seed_torrent
      wake_seeder stop_all delete_torrent close_keep_seeding
  dispatch-returned (add j h) i p s t inv done e =
      (ground arith, ground (arith, inv.each i, inv.closed p))
  dispatch-returned (seed j) i p s t inv done e =
      let r = remove_torrent-Removed (source_of requests j) s in
      (ground (arith, r.same), ground (arith, r.same))
  dispatch-returned (wake j) i p s t inv done e =
      let r =
        remove_torrent-Removed (source_of requests j)
          (record s { seeders = set s.seeders j false }) in
      (ground (arith, r.same), ground (arith, r.same))
  dispatch-returned stop_torrents i p s t inv done e =
      let r = delete_all-Removed (keys s.torrents) (record s { stops = s.stops - 1 }) in
      (ground (arith, r.same), ground (arith, r.same))
  dispatch-returned a i p s t inv done e = (ground arith, ground arith)

  pub act-returned :
      (a : Action) (i p : ℕ) (s t : State)
      → Inv s
      → s.calls i ≡ returned p
      → act requests a s ≡ some t
      → (t.calls i ≡ returned p) × (t.handles p ≡ s.handles p)
  unfolding act
  act-returned a i p s t inv done e =
      dispatch-returned a i p s t inv done (ground (arith, inv.fine))

-- ===== src/Bittorrent/Client/Lost.antt =====
-- The calls of `Download` in bittorrent/bittorrent.go that wait for a torrent which `Stop` has removed.
use quayctl.Base.{
  str_eq, ℕ, ◌<◌, ◌-◌, ◌≡◌, ◌≢◌, refl, true, false, List, [], ◌∷◌, some, nat_eq, contains, arith,
  Option-cases, inl, inr,
}
use quayctl.Base.Dict.{insert, keys}
use quayctl.Bittorrent.Client.{
  Request, at_wait, at_close, State, set, Action, start, check_running, check_first, prepare, add,
  receive, seed, wake, test_running, no_alert, close_finished, finished_alert, stop_running,
  stop_torrents, close_keep_seeding, delete_torrent, delete_all, start_client, source_of,
  check_if_running, check_unique, prepare_call, add_torrent, receive_finished, seed_torrent,
  wake_seeder, test_loop, ignore_alert, handle_alert, close_is_finished, stop_client, stop_all,
  dispatch, act, run, Reach,
}
use quayctl.Bittorrent.Client.Invariant.{Reach-Inv, is_simple}
use quayctl.Bittorrent.Client.Removal.{
  values, find_torrent-handle, contains-values-erase, remove_torrent-Removed, delete_all-Removed,
}
use quayctl.Bittorrent.Client.Stop.{delete_all_empties}

-- The torrent is no longer in the map, its channel is open, and the consumer is not about to close it.
record Lost (p : ℕ) (s : State) : Type 0 where
  made : p < s.made
  pending : s.finished p ≡ false
  absent : contains (values s.torrents) p ≡ false
  unseen : s.consumer ≢ at_close p

Lost-of :
    (p : ℕ) (s t : State)
    → Lost p s
    → t.made ≡ s.made
    → t.finished ≡ s.finished
    → t.consumer ≡ s.consumer
    → (contains (values t.torrents) p ≡ true → contains (values s.torrents) p ≡ true)
    → Lost p t
Lost-of p s t lost m f c fewer = record {
  made = ground (arith, lost.made);
  pending = ground (arith, lost.pending);
  absent = ground (arith, lost.absent, fewer);
  unseen = ground (arith, lost.unseen);
}

module _ (requests : ℕ → Request) where
  simple-Lost :
      (a : Action) (p : ℕ) (s t : State)
      → Lost p s
      → is_simple a ≡ true
      → dispatch requests a s ≡ some t
      → Lost p t
  unfolding dispatch start_client check_if_running check_unique prepare_call receive_finished
      test_loop ignore_alert close_is_finished stop_client
  simple-Lost a p s t lost simple e = record {
    made = ground (arith, lost.made);
    pending = ground (arith, lost.pending, lost.unseen);
    absent = ground (arith, lost.absent);
    unseen = ground (arith, lost.unseen);
  }

  dispatch-Lost :
      (a : Action) (p : ℕ) (s t : State) → Lost p s → dispatch requests a s ≡ some t → Lost p t
  unfolding dispatch add_torrent insert values contains handle_alert seed_torrent wake_seeder
      stop_all delete_torrent close_keep_seeding
  dispatch-Lost (add i h) p s t lost e =
      let kept = contains-values-erase (source_of requests i) s.torrents p in
      record {
        made = ground (arith, lost.made);
        pending = ground (arith, lost.pending);
        absent = ground (arith, lost.absent, lost.made, kept);
        unseen = ground (arith, lost.unseen);
      }
  dispatch-Lost (finished_alert h) p s t lost e =
      let found = find_torrent-handle s.handles h s.torrents p in
      record {
        made = ground (arith, lost.made);
        pending = ground (arith, lost.pending);
        absent = ground (arith, lost.absent);
        unseen = ground (arith, lost.unseen, lost.absent, found);
      }
  dispatch-Lost (seed i) p s t lost e =
      let r = remove_torrent-Removed (source_of requests i) s in
      Lost-of p s t lost (ground (arith, r.same)) (ground (arith, r.same)) (ground (arith, r.same))
        (ground (arith, r.same, r.fewer p))
  dispatch-Lost (wake i) p s t lost e =
      let r =
        remove_torrent-Removed (source_of requests i)
          (record s { seeders = set s.seeders i false }) in
      Lost-of p s t lost (ground (arith, r.same)) (ground (arith, r.same)) (ground (arith, r.same))
        (ground (arith, r.same, r.fewer p))
  dispatch-Lost stop_torrents p s t lost e =
      let r = delete_all-Removed (keys s.torrents) (record s { stops = s.stops - 1 }) in
      Lost-of p s t lost (ground (arith, r.same)) (ground (arith, r.same)) (ground (arith, r.same))
        (ground (arith, r.same, r.fewer p))
  dispatch-Lost (start l) p s t lost e = simple-Lost (start l) p s t lost refl e
  dispatch-Lost (check_running i) p s t lost e = simple-Lost (check_running i) p s t lost refl e
  dispatch-Lost (check_first i) p s t lost e = simple-Lost (check_first i) p s t lost refl e
  dispatch-Lost (prepare i r) p s t lost e = simple-Lost (prepare i r) p s t lost refl e
  dispatch-Lost (receive i) p s t lost e = simple-Lost (receive i) p s t lost refl e
  dispatch-Lost test_running p s t lost e = simple-Lost test_running p s t lost refl e
  dispatch-Lost no_alert p s t lost e = simple-Lost no_alert p s t lost refl e
  dispatch-Lost close_finished p s t lost e = simple-Lost close_finished p s t lost refl e
  dispatch-Lost stop_running p s t lost e = simple-Lost stop_running p s t lost refl e

  dispatch-waits :
      (a : Action) (i p : ℕ) (s t : State)
      → s.calls i ≡ at_wait p
      → s.finished p ≡ false
      → dispatch requests a s ≡ some t
      → t.calls i ≡ at_wait p
  unfolding dispatch start_client check_if_running check_unique prepare_call receive_finished
      test_loop ignore_alert close_is_finished stop_client add_torrent handle_alert seed_torrent
      wake_seeder stop_all delete_torrent close_keep_seeding
  dispatch-waits (seed j) i p s t waits pending e =
      let r = remove_torrent-Removed (source_of requests j) s in ground (arith, r.same)
  dispatch-waits (wake j) i p s t waits pending e =
      let r =
        remove_torrent-Removed (source_of requests j)
          (record s { seeders = set s.seeders j false }) in
      ground (arith, r.same)
  dispatch-waits stop_torrents i p s t waits pending e =
      let r = delete_all-Removed (keys s.torrents) (record s { stops = s.stops - 1 }) in
      ground (arith, r.same)
  dispatch-waits a i p s t waits pending e = ground arith

  run-waits :
      (actions : List Action) (i p : ℕ) (s t : State)
      → Lost p s
      → s.calls i ≡ at_wait p
      → run requests actions s ≡ some t
      → t.calls i ≡ at_wait p
  unfolding run act
  run-waits [] i p s t lost waits e = ground arith
  run-waits (a ∷ rest) i p s t lost waits e = elim (Option-cases (act requests a s)) [
    | inl none_done ↦ ground (arith, none_done)
    | inr (s', done) ↦
        let step : dispatch requests a s ≡ some s' = ground (arith, done) in
        run-waits rest i p s' t (dispatch-Lost a p s s' lost step)
          (dispatch-waits a i p s s' waits lost.pending step) (ground (arith, done))
  ]

  -- If a call waits for a torrent whose channel is open and that the consumer is not about to close, and
  -- then both halves of `Stop` run, the call waits for that torrent after every sequence of actions that
  -- follows.
  pub stopped_waits :
      {s : State}
      → Reach requests s
      → (i p : ℕ) → s.calls i ≡ at_wait p
      → s.finished p ≡ false
      → s.consumer ≢ at_close p
      → (actions : List Action) (u : State)
      → run requests (stop_running ∷ stop_torrents ∷ actions) s ≡ some u
      → u.calls i ≡ at_wait p
  unfolding run act dispatch stop_client stop_all values contains
  stopped_waits {s} reach i p waits pending unseen actions u e =
      let inv = Reach-Inv requests reach in
      let b = record s { running = false; stops = s.stops } in
      let b' = delete_all (keys s.torrents) b in
      let r = delete_all-Removed (keys s.torrents) b in
      let empty = delete_all_empties (keys s.torrents) b (λ j h. h) in
      let lost : Lost p b' = record {
        made = ground (arith, inv.each i, r.same);
        pending = ground (arith, r.same);
        absent = ground (arith, empty);
        unseen = ground (arith, r.same);
      } in
      run-waits actions i p b' u lost (ground (arith, r.same)) (ground (arith, inv.fine))

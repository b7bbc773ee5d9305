-- ===== src/Bittorrent/Client/Listed.antt =====
-- The calls of `Download` in bittorrent/bittorrent.go and the torrents in the map, as long as nobody
-- calls `Stop`.
use quayctl.Base.{
  Str, str_eq, str_beq_iff, ℕ, ◌<◌, ◌≡◌, ◌≢◌, refl, subst, Bool, true, false, List, [], ◌∷◌, Option,
  none, some, nat_eq, if◌then◌else◌, arith, Option-cases, inl, inr, ok,
}
use quayctl.Base.Dict.{erase, lookup, insert, lookup-erase, lookup-insert}
use quayctl.Bittorrent.Client.{
  Request, Phase, at_wait, at_seed, returned, State, set, Action, add, seed, wake, stop_running,
  stop_torrents, new, close_keep_seeding, delete_torrent, start_client, check_if_running,
  check_unique, prepare_call, add_torrent, receive_finished, seed_torrent, wake_seeder, test_loop,
  ignore_alert, handle_alert, close_is_finished, dispatch, act, run,
}
use quayctl.Bittorrent.Client.Removal.{remove_torrent-Removed}
use quayctl.Bittorrent.Client.Stop.{remove_torrent-torrents}
use quayctl.Bittorrent.Status.{StateConstants, Floats, TorrentStatus, status_of_handle, get_status}

-- The torrent that a call has added.
unfoldable pub owned : Phase → Option ℕ
owned (at_wait t) = some t
owned (at_seed t) = some t
owned (returned t) = some t
owned _ = none

unfoldable pub is_returned : Phase → Bool
is_returned (returned t) = true
is_returned _ = false

-- Whether the torrent of a call is still to be removed from the map by it or by its goroutine.
unfoldable pub is_live : Bool → Phase → Bool
is_live seeder (at_wait t) = true
is_live seeder (at_seed t) = true
is_live seeder (returned t) = seeder
is_live seeder _ = false

abbrev pub is_stop : Action → Bool
is_stop stop_running = true
is_stop stop_torrents = true
is_stop _ = false

unfoldable pub never_stops : List Action → Bool
never_stops [] = true
never_stops (a ∷ rest) = if is_stop a then false else never_stops rest

module _ (requests : ℕ → Request) where
  record Listed (s : State) : Type 0 where
    below : (i t : ℕ) → owned (s.calls i) ≡ some t → t < s.made
    unique : (i j : ℕ) → owned (s.calls i) ≢ none → owned (s.calls i) ≡ owned (s.calls j) → i ≡ j
    seeds : (i : ℕ) → s.seeders i ≡ true → is_returned (s.calls i) ≡ true
    listed :
        (i : ℕ)
        → is_live (s.seeders i) (s.calls i) ≡ true
        → lookup (requests i).source_path s.torrents ≡ owned (s.calls i)

  -- The removal of the torrent of a call leaves those of the other calls.
  Listed-erase :
      (s : State) (i j : ℕ)
      → Listed s
      → i ≢ j
      → is_live (s.seeders i) (s.calls i) ≡ true
      → is_live (s.seeders j) (s.calls j) ≡ true
      → lookup (requests j).source_path (erase (requests i).source_path s.torrents)
        ≡ owned (s.calls j)
  unfolding owned is_live
  Listed-erase s i j inv apart live_i live_j = ground (
    arith,
    inv.listed i,
    inv.listed j,
    inv.unique i j,
    lookup-erase (requests i).source_path (requests j).source_path s.torrents,
    str_beq_iff (requests i).source_path (requests j).source_path,
  )

  add_torrent-Listed :
      (i h : ℕ) (s t : State) → Listed s → add_torrent requests i h s ≡ some t → Listed t
  unfolding add_torrent insert owned is_live is_returned
  add_torrent-Listed i h s t inv e = record {
    below = λ j p o. ground (arith, inv.below j p);
    unique = λ j k o o'. ground (arith, inv.unique j k, inv.below j s.made, inv.below k s.made);
    seeds = λ j m. ground (arith, inv.seeds j);
    listed = λ j l. ground (
      arith,
      inv.listed j,
      inv.seeds j,
      lookup-insert (requests i).source_path (requests j).source_path s.made s.torrents,
      str_beq_iff (requests i).source_path (requests j).source_path,
    );
  }

  seed_torrent-Listed :
      (i : ℕ) (s t : State) → Listed s → seed_torrent requests i s ≡ some t → Listed t
  unfolding seed_torrent delete_torrent close_keep_seeding owned is_live is_returned
  seed_torrent-Listed i s t inv e =
      let r = remove_torrent-Removed (requests i).source_path s in
      let rest = remove_torrent-torrents (requests i).source_path s in
      elim (Option-cases (requests i).seed_duration) [
        | inl e' ↦ record {
          below = λ j p o. ground (arith, e', inv.below j p, r.same);
          unique = λ j k o o'. ground (arith, e', inv.unique j k, r.same);
          seeds = λ j m. ground (arith, e', inv.seeds j, r.same);
          listed = λ j l. ground (arith, e', Listed-erase s i j inv, inv.seeds i, r.same, rest);
        }
        | inr (d, e') ↦ record {
          below = λ j p o. ground (arith, e', inv.below j p);
          unique = λ j k o o'. ground (arith, e', inv.unique j k);
          seeds = λ j m. ground (arith, e', inv.seeds j);
          listed = λ j l. ground (arith, e', inv.listed j, inv.listed i);
        }
      ]

  wake_seeder-Listed :
      (i : ℕ) (s t : State) → Listed s → wake_seeder requests i s ≡ some t → Listed t
  unfolding wake_seeder delete_torrent close_keep_seeding owned is_live is_returned
  wake_seeder-Listed i s t inv e =
      let b = record s { seeders = set s.seeders i false } in
      let r = remove_torrent-Removed (requests i).source_path b in
      let rest = remove_torrent-torrents (requests i).source_path b in
      record {
        below = λ j p o. ground (arith, inv.below j p, r.same);
        unique = λ j k o o'. ground (arith, inv.unique j k, r.same);
        seeds = λ j m. ground (arith, inv.seeds j, r.same);
        listed =
            λ j l. ground (arith, Listed-erase s i j inv, inv.listed j, inv.seeds i, r.same, rest);
      }

  dispatch-Listed :
      (a : Action) (s t : State)
      → Listed s
      → is_stop a ≡ false
      → dispatch requests a s ≡ some t
      → Listed t
  unfolding dispatch start_client check_if_running check_unique prepare_call receive_finished
      test_loop ignore_alert close_is_finished handle_alert owned is_live is_returned
  dispatch-Listed (add i h) s t inv quiet e = add_torrent-Listed i h s t inv e
  dispatch-Listed (seed i) s t inv quiet e = seed_torrent-Listed i s t inv e
  dispatch-Listed (wake i) s t inv quiet e = wake_seeder-Listed i s t inv e
  dispatch-Listed a s t inv quiet e = record {
    below = λ j p o. ground (arith, inv.below j p);
    unique = λ j k o o'. ground (arith, inv.unique j k);
    seeds = λ j m. ground (arith, inv.seeds j);
    listed = λ j l. ground (arith, inv.listed j, inv.seeds j);
  }

  run-Listed :
      (actions : List Action) (s t : State)
      → Listed s
      → never_stops actions ≡ true
      → run requests actions s ≡ some t
      → Listed t
  unfolding run act never_stops
  run-Listed [] s t inv quiet e = subst Listed (ground (arith, e)) inv
  run-Listed (a ∷ rest) s t inv quiet e = elim (Option-cases (act requests a s)) [
    | inl none_done ↦ absurd (ground (arith, none_done))
    | inr (s', done) ↦
        run-Listed rest s' t (dispatch-Listed a s s' inv (ground arith) (ground (arith, done)))
          (ground arith) (ground (arith, done))
  ]

  new-Listed : Listed new
  unfolding new owned is_live
  new-Listed = record {
    below = λ i t o. cc;
    unique = λ i j o o'. absurd (o refl);
    seeds = λ i m. cc;
    listed = λ i l. cc;
  }

  -- After a run from `NewClient` without `Stop`, the source of a call that waits for a torrent leads in
  -- the map to this torrent, so `GetStatus` of the source tells what libtorrent says of its handle.
  pub waiting_has_status :
      {F : Type 0} (c : StateConstants) (floats : Floats F) (name_of : ℕ → Str)
      (status_of : ℕ → TorrentStatus F) (actions : List Action) (s : State)
      → never_stops actions ≡ true
      → run requests actions new ≡ some s
      → (i t : ℕ) → s.calls i ≡ at_wait t
      → (lookup (requests i).source_path s.torrents ≡ some t)
        × (get_status c floats name_of status_of s (requests i).source_path
            ≡ ok (status_of_handle c floats name_of status_of (s.handles t)))
  unfolding get_status owned is_live
  waiting_has_status c floats name_of status_of actions s quiet e i t waits =
      let inv = run-Listed actions new s new-Listed quiet e in
      let there : lookup (requests i).source_path s.torrents ≡ some t =
        ground (arith, inv.listed i, waits) in
      (there, rw (there, get_status) refl)

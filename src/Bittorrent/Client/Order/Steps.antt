-- ===== src/Bittorrent/Client/Order/Steps.antt =====
-- The actions of bittorrent/bittorrent.go on maps whose entries come in another order.
use quayctl.Base.{
  str_eq, ℕ, ◌-◌, ◌≡◌, refl, ◌∙◌, subst, Bool, true, false, List, some, inl, inr, nat_eq, arith,
  Option-cases, Bool-cases,
}
use quayctl.Base.Dict.{Dict, lookup, insert, keys}
use quayctl.Bittorrent.Client.{
  Request, State, set, Action, start, check_running, check_first, prepare, add, receive, seed, wake,
  test_running, no_alert, close_finished, finished_alert, stop_running, stop_torrents,
  delete_torrent, delete_all, start_client, source_of, check_if_running, check_unique, prepare_call,
  add_torrent, receive_finished, seed_torrent, wake_seeder, test_loop, ignore_alert, handle_alert,
  close_is_finished, stop_client, stop_all, dispatch, act,
}
use quayctl.Bittorrent.Client.Removal.{delete_all-Removed}
use quayctl.Bittorrent.Client.Invariant.{call_of}
use quayctl.Bittorrent.Client.Stop.{delete_all_empties}
use quayctl.Bittorrent.Client.Order.Alike.{
  reordered, Alike, Follows, Alike-of, delete_torrent-Deletes, delete_all_same, Alike-stop,
}
use quayctl.Bittorrent.Client.Order.{SameMap, HandlesApart, insert-SameMap, find_torrent-SameMap}

-- The actions that leave the map as it is.
abbrev leaves_map : Action → Bool
leaves_map (add i h) = false
leaves_map (seed i) = false
leaves_map (wake i) = false
leaves_map (finished_alert h) = false
leaves_map stop_torrents = false
leaves_map _ = true

module _ (requests : ℕ → Request) where
  leaves_map-Follows :
      (a : Action) (s u : State) (d : Dict ℕ) (r : List ℕ)
      → Alike s d r
      → leaves_map a ≡ true
      → dispatch requests a s ≡ some u
      → Follows (dispatch requests a) s u d r
  unfolding dispatch start_client check_if_running check_unique prepare_call receive_finished
      test_loop ignore_alert close_is_finished stop_client
  leaves_map-Follows a s u d r alike leaves e = record {
    torrents = d;
    removed = r;
    stepped = ground (arith, e, alike.same_map.lookups (source_of requests (call_of a)));
    alike = Alike-of s u d r (ground (arith, e)) (ground (arith, e)) alike;
  }

  add_torrent-Follows :
      (i h : ℕ) (s u : State) (d : Dict ℕ) (r : List ℕ)
      → Alike s d r
      → add_torrent requests i h s ≡ some u
      → Follows (add_torrent requests i h) s u d r
  unfolding add_torrent
  add_torrent-Follows i h s u d r alike e =
      elim (Option-cases (lookup (source_of requests i) s.torrents)) [
        | inl absent ↦ record {
          torrents = insert (source_of requests i) s.made d;
          removed = r;
          stepped = ground (arith, e, absent, alike.same_map.lookups (source_of requests i));
          alike = record {
            same_map =
                subst (λ x. SameMap x (insert (source_of requests i) s.made d))
                  (ground (arith, e, absent))
                  (insert-SameMap (source_of requests i) s.made s.torrents d alike.same_map);
            same_removed = λ j. ground (arith, e, absent, alike.same_removed j);
          };
        }
        | inr (p, there) ↦ record {
          torrents = d;
          removed = r;
          stepped = ground (arith, e, there, alike.same_map.lookups (source_of requests i));
          alike = Alike-of s u d r (ground (arith, e, there)) (ground (arith, e, there)) alike;
        }
      ]

module _ (requests : ℕ → Request) where
  seed_torrent-Follows :
      (i : ℕ) (s u : State) (d : Dict ℕ) (r : List ℕ)
      → Alike s d r
      → seed_torrent requests i s ≡ some u
      → Follows (seed_torrent requests i) s u d r
  unfolding seed_torrent
  seed_torrent-Follows i s u d r alike e = elim (Option-cases (requests i).seed_duration) [
    | inl no_seeding ↦
        let del = delete_torrent-Deletes (source_of requests i) i s d r alike in
        record {
          torrents = del.torrents;
          removed = del.removed;
          stepped = ground (arith, e, no_seeding, del.same);
          alike =
              Alike-of (delete_torrent (source_of requests i) (some i) s) u del.torrents del.removed
                (ground (arith, e, no_seeding)) (ground (arith, e, no_seeding)) del.alike;
        }
    | inr (n, duration) ↦ record {
      torrents = d;
      removed = r;
      stepped = ground (arith, e, duration);
      alike = Alike-of s u d r (ground (arith, e, duration)) (ground (arith, e, duration)) alike;
    }
  ]

  wake_seeder-Follows :
      (i : ℕ) (s u : State) (d : Dict ℕ) (r : List ℕ)
      → Alike s d r
      → wake_seeder requests i s ≡ some u
      → Follows (wake_seeder requests i) s u d r
  unfolding wake_seeder
  wake_seeder-Follows i s u d r alike e =
      let asleep : State = record s { seeders = set s.seeders i false } in
      let del =
        delete_torrent-Deletes (source_of requests i) i asleep d r
          (Alike-of s asleep d r refl refl alike) in
      record {
        torrents = del.torrents;
        removed = del.removed;
        stepped = ground (arith, e, del.same);
        alike =
            Alike-of (delete_torrent (source_of requests i) (some i) asleep) u del.torrents
              del.removed (ground (arith, e)) (ground (arith, e)) del.alike;
      }

handle_alert-Follows :
    (h : ℕ) (s u : State) (d : Dict ℕ) (r : List ℕ)
    → Alike s d r
    → HandlesApart s.handles s.torrents
    → handle_alert h s ≡ some u
    → Follows (handle_alert h) s u d r
unfolding handle_alert
handle_alert-Follows h s u d r alike apart e =
    let found = find_torrent-SameMap s.handles h s.torrents d alike.same_map apart in
    record {
      torrents = d;
      removed = r;
      stepped = ground (arith, e, found);
      alike = Alike-of s u d r (ground (arith, e)) (ground (arith, e)) alike;
    }

stop_all-Follows :
    (s u : State) (d : Dict ℕ) (r : List ℕ)
    → Alike s d r
    → stop_all s ≡ some u
    → Follows stop_all s u d r
unfolding stop_all
stop_all-Follows s u d r alike e =
    let b : State = record s { stops = s.stops - 1 } in
    let c : State = reordered d r b in
    let left = delete_all-Removed (keys s.torrents) b in
    let right = delete_all-Removed (keys d) c in
    let b_alike : Alike b d r = Alike-of s b d r refl refl alike in
    let now_u : u.torrents ≡ (delete_all (keys s.torrents) b).torrents = ground (arith, e) in
    record {
      torrents = right.torrents;
      removed = right.removed;
      stepped = ground (arith, e, left.same, right.same);
      alike =
          Alike-stop u right.torrents right.removed
            (now_u ∙ delete_all_empties (keys s.torrents) b (λ j m. m))
            (ground (arith, right.same, delete_all_empties (keys d) c (λ j m. m)))
            (λ h. ground (arith, e, right.same, delete_all_same b d r h b_alike));
    }

module _ (requests : ℕ → Request) where
  dispatch-Follows :
      (a : Action) (s u : State) (d : Dict ℕ) (r : List ℕ)
      → Alike s d r
      → HandlesApart s.handles s.torrents
      → dispatch requests a s ≡ some u
      → Follows (dispatch requests a) s u d r
  unfolding dispatch
  dispatch-Follows (add i h) s u d r alike apart e =
      add_torrent-Follows requests i h s u d r alike e
  dispatch-Follows (seed i) s u d r alike apart e = seed_torrent-Follows requests i s u d r alike e
  dispatch-Follows (wake i) s u d r alike apart e = wake_seeder-Follows requests i s u d r alike e
  dispatch-Follows (finished_alert h) s u d r alike apart e =
      handle_alert-Follows h s u d r alike apart e
  dispatch-Follows stop_torrents s u d r alike apart e = stop_all-Follows s u d r alike e
  dispatch-Follows (start l) s u d r alike apart e =
      leaves_map-Follows requests (start l) s u d r alike refl e
  dispatch-Follows (check_running i) s u d r alike apart e =
      leaves_map-Follows requests (check_running i) s u d r alike refl e
  dispatch-Follows (check_first i) s u d r alike apart e =
      leaves_map-Follows requests (check_first i) s u d r alike refl e
  dispatch-Follows (prepare i o) s u d r alike apart e =
      leaves_map-Follows requests (prepare i o) s u d r alike refl e
  dispatch-Follows (receive i) s u d r alike apart e =
      leaves_map-Follows requests (receive i) s u d r alike refl e
  dispatch-Follows test_running s u d r alike apart e =
      leaves_map-Follows requests test_running s u d r alike refl e
  dispatch-Follows no_alert s u d r alike apart e =
      leaves_map-Follows requests no_alert s u d r alike refl e
  dispatch-Follows close_finished s u d r alike apart e =
      leaves_map-Follows requests close_finished s u d r alike refl e
  dispatch-Follows stop_running s u d r alike apart e =
      leaves_map-Follows requests stop_running s u d r alike refl e

  -- An action on a state whose entries come in another order.
  pub act-Follows :
      (a : Action) (s u : State) (d : Dict ℕ) (r : List ℕ)
      → Alike s d r
      → HandlesApart s.handles s.torrents
      → act requests a s ≡ some u
      → Follows (act requests a) s u d r
  unfolding act
  act-Follows a s u d r alike apart e = elim (Bool-cases s.panicked) [
    | inl down ↦ absurd (ground (arith, down, e))
    | inr up ↦
        let f = dispatch-Follows a s u d r alike apart (ground (arith, up, e)) in
        record {
          torrents = f.torrents;
          removed = f.removed;
          stepped = ground (arith, up, f.stepped);
          alike = f.alike;
        }
  ]

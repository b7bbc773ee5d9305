-- ===== src/Bittorrent/Client/Invariant.antt =====
-- The invariant of the client in bittorrent/bittorrent.go.
use quayctl.Base.{
  str_eq, ℕ, ◌<◌, ◌-◌, ◌≡◌, refl, Bool, true, false, ◌&&◌, some, nat_eq, contains, arith,
  Option-cases, inl, inr,
}
use quayctl.Base.Dict.{insert, keys}
use quayctl.Bittorrent.Client.{
  Request, Phase, at_wait, at_seed, returned, Consumer, at_close, State, set, Action, start,
  check_running, check_first, prepare, add, receive, seed, wake, test_running, no_alert,
  close_finished, finished_alert, stop_running, stop_torrents, new, find_torrent,
  close_keep_seeding, delete_torrent, start_client, source_of, check_if_running, check_unique,
  prepare_call, add_torrent, receive_finished, seed_torrent, wake_seeder, test_loop, ignore_alert,
  handle_alert, close_is_finished, stop_client, stop_all, dispatch, act, Documented, Reach,
  initially, next,
}
use quayctl.Bittorrent.Client.Removal.{
  values, contains-values-erase, find_torrent-handle, remove_torrent-Removed, delete_all-Removed,
}

-- What holds of a call, by its channel, its seeder and its phase.
abbrev pub PhaseOk : State → Bool → Bool → Phase → Type 0
PhaseOk s keep seeder (at_wait t) = (t < s.made) × (keep ≡ false) × (seeder ≡ false)
PhaseOk s keep seeder (at_seed t) = (s.finished t ≡ true) × (keep ≡ false) × (seeder ≡ false)
PhaseOk s keep seeder (returned t) = (s.finished t ≡ true) × ((keep && seeder) ≡ false)
PhaseOk s keep seeder _ = (keep ≡ false) × (seeder ≡ false)

abbrev pub ConsumerOk : State → Consumer → Type 0
ConsumerOk s (at_close t) =
    (t < s.made) × (s.finished t ≡ false) × (contains s.alerted (s.handles t) ≡ true)
ConsumerOk s _ = Unit

pub record Inv (s : State) : Type 0 where
  pub known : (t : ℕ) → contains (values s.torrents) t ≡ true → t < s.made
  pub closed :
      (t : ℕ) → s.finished t ≡ true → (t < s.made) × (contains s.alerted (s.handles t) ≡ true)
  pub consumes : ConsumerOk s s.consumer
  pub each : (i : ℕ) → PhaseOk s (s.keep_seeding i) (s.seeders i) (s.calls i)
  pub fine : s.panicked ≡ false

new-Inv : Inv new
unfolding new values contains
new-Inv = record {
  known = λ t h. cc;
  closed = λ t h. cc;
  consumes = tt;
  each = λ i. (refl, refl);
  fine = refl;
}

-- The call that an action is of, if it is of one.
abbrev pub call_of : Action → ℕ
call_of (check_running i) = i
call_of (check_first i) = i
call_of (prepare i r) = i
call_of (add i h) = i
call_of (receive i) = i
call_of (seed i) = i
call_of (wake i) = i
call_of _ = 0

-- The actions that neither add nor remove torrents nor look for one.
abbrev pub is_simple : Action → Bool
is_simple (add i h) = false
is_simple (seed i) = false
is_simple (wake i) = false
is_simple (finished_alert h) = false
is_simple stop_torrents = false
is_simple _ = true

module _ (requests : ℕ → Request) where
  simple-Inv :
      (a : Action) (s t : State)
      → Inv s
      → is_simple a ≡ true
      → dispatch requests a s ≡ some t
      → Inv t
  unfolding dispatch start_client check_if_running check_unique prepare_call receive_finished
      test_loop ignore_alert close_is_finished stop_client
  simple-Inv a s t inv simple e = record {
    known = λ p h. ground (arith, inv.known p, inv.consumes);
    closed = λ p h. ground (arith, inv.closed p, inv.consumes);
    consumes = ground (arith, inv.consumes);
    each = λ j. ground (arith, inv.each j, inv.each (call_of a), inv.consumes);
    fine = ground (arith, inv.fine, inv.consumes);
  }

  add_torrent-Inv : (i h : ℕ) (s t : State) → Inv s → add_torrent requests i h s ≡ some t → Inv t
  unfolding add_torrent insert values contains
  add_torrent-Inv i h s t inv e =
      let kept = λ (p : ℕ). contains-values-erase (source_of requests i) s.torrents p in
      record {
        known = λ p m. ground (arith, inv.known p, kept p);
        closed = λ p m. ground (arith, inv.closed p);
        consumes = ground (arith, inv.consumes);
        each = λ j. ground (arith, inv.each j, inv.each i, inv.closed s.made);
        fine = ground (arith, inv.fine);
      }

  seed_torrent-Inv : (i : ℕ) (s t : State) → Inv s → seed_torrent requests i s ≡ some t → Inv t
  unfolding seed_torrent delete_torrent close_keep_seeding
  seed_torrent-Inv i s t inv e =
      let r = remove_torrent-Removed (source_of requests i) s in
      record {
        known = λ p m. ground (arith, inv.known p, r.same, r.fewer p, inv.each i);
        closed = λ p m. ground (arith, inv.closed p, r.same, inv.each i);
        consumes = ground (arith, inv.consumes, r.same, inv.each i);
        each = λ j. ground (arith, inv.each j, inv.each i, r.same);
        fine = ground (arith, inv.fine, inv.each i, r.same);
      }

  wake_seeder-Inv : (i : ℕ) (s t : State) → Inv s → wake_seeder requests i s ≡ some t → Inv t
  unfolding wake_seeder delete_torrent close_keep_seeding
  wake_seeder-Inv i s t inv e =
      let s' = record s { seeders = set s.seeders i false } in
      let r = remove_torrent-Removed (source_of requests i) s' in
      record {
        known = λ p m. ground (arith, inv.known p, r.same, r.fewer p, inv.each i);
        closed = λ p m. ground (arith, inv.closed p, r.same, inv.each i);
        consumes = ground (arith, inv.consumes, r.same, inv.each i);
        each = λ j. ground (arith, inv.each j, inv.each i, r.same);
        fine = ground (arith, inv.fine, inv.each i, r.same);
      }

-- libtorrent posts the alert for the torrent of a handle once.
handle_alert-Inv :
    (h : ℕ) (s t : State) → Inv s → contains s.alerted h ≡ false → handle_alert h s ≡ some t → Inv t
unfolding handle_alert contains
handle_alert-Inv h s t inv once e =
    let found = find_torrent-handle s.handles h s.torrents in
    record {
      known = λ p m. ground (arith, inv.known p);
      closed = λ p m. ground (arith, inv.closed p);
      consumes = elim (Option-cases (find_torrent s.handles h s.torrents)) [
        | inl none_found ↦ ground (arith, inv.consumes, none_found)
        | inr (p, e') ↦ ground (arith, found p e', inv.known p, inv.closed p, e')
      ];
      each = λ j. ground (arith, inv.each j);
      fine = ground (arith, inv.fine);
    }

stop_all-Inv : (s t : State) → Inv s → stop_all s ≡ some t → Inv t
unfolding stop_all
stop_all-Inv s t inv e =
    let r = delete_all-Removed (keys s.torrents) (record s { stops = s.stops - 1 }) in
    record {
      known = λ p m. ground (arith, inv.known p, r.same, r.fewer p);
      closed = λ p m. ground (arith, inv.closed p, r.same);
      consumes = ground (arith, inv.consumes, r.same);
      each = λ j. ground (arith, inv.each j, r.same);
      fine = ground (arith, inv.fine, r.same);
    }

module _ (requests : ℕ → Request) where
  dispatch-Inv :
      (a : Action) (s t : State)
      → Inv s
      → Documented requests s a
      → dispatch requests a s ≡ some t
      → Inv t
  unfolding dispatch
  dispatch-Inv (add i h) s t inv d e = add_torrent-Inv requests i h s t inv e
  dispatch-Inv (finished_alert h) s t inv d e = handle_alert-Inv h s t inv d e
  dispatch-Inv (seed i) s t inv d e = seed_torrent-Inv requests i s t inv e
  dispatch-Inv (wake i) s t inv d e = wake_seeder-Inv requests i s t inv e
  dispatch-Inv stop_torrents s t inv d e = stop_all-Inv s t inv e
  dispatch-Inv (start l) s t inv d e = simple-Inv requests (start l) s t inv refl e
  dispatch-Inv (check_running i) s t inv d e = simple-Inv requests (check_running i) s t inv refl e
  dispatch-Inv (check_first i) s t inv d e = simple-Inv requests (check_first i) s t inv refl e
  dispatch-Inv (prepare i r) s t inv d e = simple-Inv requests (prepare i r) s t inv refl e
  dispatch-Inv (receive i) s t inv d e = simple-Inv requests (receive i) s t inv refl e
  dispatch-Inv test_running s t inv d e = simple-Inv requests test_running s t inv refl e
  dispatch-Inv no_alert s t inv d e = simple-Inv requests no_alert s t inv refl e
  dispatch-Inv close_finished s t inv d e = simple-Inv requests close_finished s t inv refl e
  dispatch-Inv stop_running s t inv d e = simple-Inv requests stop_running s t inv refl e

  pub Reach-Inv : {s : State} → Reach requests s → Inv s
  unfolding act
  Reach-Inv initially = new-Inv
  Reach-Inv (next {s} {t} a r d e) =
      dispatch-Inv a s t (Reach-Inv r) d (ground (arith, (Reach-Inv r).fine))

-- ===== src/Bittorrent/Client/Alerts.antt =====
-- What the alerts of libtorrent do to the calls of `Download` in bittorrent/bittorrent.go.
use quayctl.Base.{str_eq, ℕ, ◌≡◌, refl, Bool, true, false, [], ◌∷◌, some, contains, nat_eq, arith}
use quayctl.Base.Dict.{Dict}
use quayctl.Bittorrent.Client.{
  Request, Phase, at_wait, at_seed, returned, at_loop, at_alert, State, set, receive,
  finished_alert, close_finished, find_torrent, receive_finished, handle_alert, close_is_finished,
  dispatch, act, run, Reach,
}
use quayctl.Bittorrent.Client.Invariant.{Inv, Reach-Inv}
use quayctl.Bittorrent.Client.Removal.{values}

find_torrent-single :
    (handles : ℕ → ℕ) (d : Dict ℕ) (t : ℕ)
    → contains (values d) t ≡ true
    → ((u : ℕ) → contains (values d) u ≡ true → handles u ≡ handles t → u ≡ t)
    → find_torrent handles (handles t) d ≡ some t
unfolding find_torrent values contains
find_torrent-single handles [] t there single = cc
find_torrent-single handles ((k, v) ∷ rest) t there single =
    let later = λ (h : contains (values rest) t ≡ true).
      find_torrent-single handles rest t h (λ u m e. single u (ground (arith, m)) e) in
    ground (arith, later, single v)

-- What a call in a phase has to show, by its channel for the end of the seeding.
abbrev pub Answered : State → Bool → Phase → Type 0
Answered s keep (at_seed t) =
    (s.finished t ≡ true) × (contains s.alerted (s.handles t) ≡ true) × (keep ≡ false)
Answered s keep (returned t) = (s.finished t ≡ true) × (contains s.alerted (s.handles t) ≡ true)
Answered s keep _ = keep ≡ false

answered :
    (s : State) (i : ℕ) (phase : Phase)
    → s.calls i ≡ phase
    → Inv s
    → Answered s (s.keep_seeding i) phase
answered s i (at_seed t) e inv = ground (arith, inv.each i, inv.closed t)
answered s i (returned t) e inv = ground (arith, inv.each i, inv.closed t)
answered s i _ e inv = ground (arith, inv.each i)

module _ (requests : ℕ → Request) where
  -- If libtorrent posts that a torrent is finished once for each handle, then in no state that the client
  -- reaches has a goroutine panicked by closing a channel a second time. A call that has returned a path,
  -- or is about to, has the channel of its torrent closed, and libtorrent has posted that the torrent's
  -- handle is finished. The channel for the end of the seeding of a call that has not returned is open.
  pub answers_are_finished :
      {s : State}
      → Reach requests s
      → (i : ℕ) → (s.panicked ≡ false) × Answered s (s.keep_seeding i) (s.calls i)
  answers_are_finished {s} reach i =
      let inv = Reach-Inv requests reach in (inv.fine, answered s i (s.calls i) refl inv)

  -- If the consumer waits for an alert, a call waits for a torrent that is in the map, whose channel is
  -- open and whose handle no other torrent in the map has, then the alert that this handle is finished,
  -- the close of the channel and the receive of the call are possible one after the other, and the call
  -- goes on to the seeding.
  pub alert_wakes :
      (s : State) (i t : ℕ)
      → s.panicked ≡ false
      → s.consumer ≡ at_alert
      → s.calls i ≡ at_wait t
      → contains (values s.torrents) t ≡ true
      → s.finished t ≡ false
      → ((u : ℕ) → contains (values s.torrents) u ≡ true → s.handles u ≡ s.handles t → u ≡ t)
      → (s' : State) × (run requests
            (finished_alert (s.handles t) ∷ close_finished ∷ receive i ∷ [])
            s
          ≡ some s')
        × (s'.calls i ≡ at_seed t)
  unfolding run act dispatch handle_alert close_is_finished receive_finished
  alert_wakes s i t up waits calls there open_ single =
      let found = find_torrent-single s.handles s.torrents t there single in
      (
        record s {
          consumer = at_loop;
          alerted = s.handles t ∷ s.alerted;
          finished = set s.finished t true;
          calls = set s.calls i (at_seed t);
        },
        ground (arith, up, waits, calls, open_, found),
        ground arith,
      )

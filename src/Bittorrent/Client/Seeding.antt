-- ===== src/Bittorrent/Client/Seeding.antt =====
-- The end of the seeding of a call of `Download` in bittorrent/bittorrent.go.
use quayctl.Base.{
  Str, str_eq, str_beq_iff, ℕ, ◌-◌, ◌≡◌, refl, Bool, true, false, List, [], ◌∷◌, none, some, nat_eq,
  arith, Option-cases, inl, inr,
}
use quayctl.Base.Dict.{lookup, keys, lookup-erase}
use quayctl.Base.Int.{ℤ, is_positive}
use quayctl.Bittorrent.Client.{
  Request, at_seed, returned, State, set, Action, seed, wake, stop_torrents, new, remove_torrent,
  close_keep_seeding, delete_torrent, start_client, check_if_running, check_unique, prepare_call,
  add_torrent, receive_finished, seed_torrent, wake_seeder, test_loop, ignore_alert, handle_alert,
  close_is_finished, stop_client, stop_all, dispatch, act, run, Reach, initially, next,
}
use quayctl.Bittorrent.Client.Invariant.{Reach-Inv}
use quayctl.Bittorrent.Client.Removal.{remove_torrent-Removed, delete_all-Removed}

lookup-remove_torrent : (k : Str) (s : State) → lookup k (remove_torrent k s).torrents ≡ none
unfolding remove_torrent
lookup-remove_torrent k s = ground (arith, lookup-erase k k s.torrents, str_beq_iff k k)

module _ (requests : ℕ → Request) where
  -- Whether the request of a call asks for a seeding that ends.
  abbrev pub seeding_is_finite : ℕ → Bool
  seeding_is_finite i = elim (requests i).seed_duration [ none ↦ true | some d ↦ is_positive d ]

  -- What a call does once its torrent is finished, the goroutine that seeds for it included.
  abbrev pub end_of_seeding : ℕ → List Action
  end_of_seeding i = elim (requests i).seed_duration [
    | none ↦ seed i ∷ []
    | some d ↦ seed i ∷ wake i ∷ []
  ]

  -- If libtorrent posts that a torrent is finished once for each handle, and a call whose torrent is
  -- finished asks for no seeding or for a positive duration, then its last actions are possible one
  -- after the other, and after them it has returned, its channel is closed and its source is not in the
  -- map.
  pub seeding_ends :
      {s : State}
      → Reach requests s
      → (i t : ℕ) → s.calls i ≡ at_seed t
      → seeding_is_finite i ≡ true
      → (u : State) × (run requests (end_of_seeding i) s ≡ some u)
        × (u.calls i ≡ returned t)
        × (u.keep_seeding i ≡ true)
        × (lookup (requests i).source_path u.torrents ≡ none)
  unfolding run act dispatch seed_torrent wake_seeder delete_torrent close_keep_seeding
  seeding_ends {s} reach i t seeds finite =
      let inv = Reach-Inv requests reach in
      let closed = λ (b : State). record (remove_torrent (requests i).source_path b) {
        calls = set s.calls i (returned t);
        keep_seeding = set s.keep_seeding i true;
      } in
      let asleep = record s {
        calls = set s.calls i (returned t);
        seeders = set (set s.seeders i true) i false;
      } in
      elim (Option-cases (requests i).seed_duration) [
        | inl e ↦
            let r = remove_torrent-Removed (requests i).source_path s in
            (
              closed s,
              ground (arith, e, seeds, inv.fine, inv.each i, r.same),
              ground arith,
              ground arith,
              lookup-remove_torrent (requests i).source_path s,
            )
        | inr (d, e) ↦
            let r = remove_torrent-Removed (requests i).source_path asleep in
            (
              closed asleep,
              ground (arith, e, seeds, inv.fine, inv.each i, r.same),
              ground arith,
              ground arith,
              lookup-remove_torrent (requests i).source_path asleep,
            )
      ]

  record Open (i : ℕ) (s : State) : Type 0 where
    channel : s.keep_seeding i ≡ false
    seeder : s.seeders i ≡ false

  dispatch-Open :
      (i : ℕ) (d : ℤ)
      → (requests i).seed_duration ≡ some d
      → is_positive d ≡ false
      → (a : Action) (s t : State) → Open i s
      → dispatch requests a s ≡ some t
      → Open i t
  unfolding dispatch start_client check_if_running check_unique prepare_call receive_finished
      test_loop ignore_alert close_is_finished stop_client add_torrent handle_alert seed_torrent
      wake_seeder stop_all delete_torrent close_keep_seeding
  dispatch-Open i d asks forever (seed j) s t open_ e =
      let r = remove_torrent-Removed (requests j).source_path s in
      record {
        channel = ground (arith, asks, forever, open_.channel, open_.seeder, r.same);
        seeder = ground (arith, asks, forever, open_.channel, open_.seeder, r.same);
      }
  dispatch-Open i d asks forever (wake j) s t open_ e =
      let r =
        remove_torrent-Removed (requests j).source_path
          (record s { seeders = set s.seeders j false }) in
      record {
        channel = ground (arith, open_.channel, open_.seeder, r.same);
        seeder = ground (arith, open_.channel, open_.seeder, r.same);
      }
  dispatch-Open i d asks forever stop_torrents s t open_ e =
      let r = delete_all-Removed (keys s.torrents) (record s { stops = s.stops - 1 }) in
      record {
        channel = ground (arith, open_.channel, r.same);
        seeder = ground (arith, open_.seeder, r.same);
      }
  dispatch-Open i d asks forever a s t open_ e = record {
    channel = ground (arith, open_.channel);
    seeder = ground (arith, open_.seeder);
  }

  Reach-Open :
      (i : ℕ) (d : ℤ)
      → (requests i).seed_duration ≡ some d
      → is_positive d ≡ false
      → {s : State} → Reach requests s
      → Open i s
  unfolding new act
  Reach-Open i d asks forever initially = record { channel = refl; seeder = refl }
  Reach-Open i d asks forever (next {s} {t} a r doc e) =
      dispatch-Open i d asks forever a s t (Reach-Open i d asks forever r) (ground (arith, e))

  -- The channel that a call returns is closed in no state that the client reaches, `Stop` or not, when
  -- the call asks for a duration of 0 or less.
  pub seeding_forever :
      {s : State}
      → Reach requests s
      → (i : ℕ) (d : ℤ) → (requests i).seed_duration ≡ some d
      → is_positive d ≡ false
      → s.keep_seeding i ≡ false
  seeding_forever reach i d asks forever = (Reach-Open i d asks forever reach).channel

-- ===== src/Engine/Download/Schedule/Download.antt =====
-- One download of engine/torrent.go on bittorrent/bittorrent.go whose seeding ends, from its call to the
-- close of the channel that the call returns.
use quayctl.Engine.Torrent.{local_seed_duration}
use quayctl.Base.{
  ok, Str, str_eq, str_beq_iff, nat_eq, ℕ, suc, ◌+◌, ◌≡◌, refl, true, List, ◌∷◌, none, some, false,
  arith, contains, Option-cases, inl, inr,
}
use quayctl.Base.Dict.{insert, erase, lookup}
use quayctl.Base.Int.{ℤ}
use quayctl.Engine.{TorrentInfo}
use quayctl.Engine.Torrent as Torrent
use quayctl.Engine.Torrent.{SeedOption, running}
use quayctl.Bittorrent.Client as Client
use quayctl.Bittorrent.Client.{
  at_first_check, at_prepare, at_add, at_wait, at_seed, returned, at_alert, at_close, at_loop, set,
  go_to, source_of, check_running, check_first, prepare, add, receive, seed, wake, test_running,
  close_finished, finished_alert,
}
use quayctl.Engine.Download.{request_of, Reach}
use quayctl.Engine.Download.Schedule.{Idle, ends, client_next}

module _ (torrents : List TorrentInfo) (option : SeedOption) (duration : ℤ) (path_of : ℕ → Str)
    (k : ℕ) (c : Client.State) (idle : Idle k c) where
  abbrev requests : ℕ → Client.Request
  requests = request_of torrents option duration path_of

  abbrev source : Str
  source = source_of requests k

  abbrev checked : Client.State
  checked = go_to requests k at_prepare (go_to requests k at_first_check c)

  -- The torrent has the handle of the number of its call.
  abbrev added : Client.State
  added = record checked {
    torrents = insert source c.made c.torrents;
    handles = set c.handles c.made k;
    made = suc c.made;
    calls = set (go_to requests k at_add checked).calls k (at_wait c.made);
  }

  abbrev alerted : Client.State
  alerted = record added { consumer = at_close c.made; alerted = k ∷ c.alerted }

  abbrev closed : Client.State
  closed = record alerted { finished = set c.finished c.made true; consumer = at_loop }

  abbrev pub answered : Client.State
  answered = record closed {
    torrents = erase source closed.torrents;
    removed = k ∷ c.removed;
    keep_seeding = set c.keep_seeding k true;
    calls = set (set closed.calls k (at_seed c.made)) k (returned c.made);
    seeders = elim (local_seed_duration option duration) [
      | none ↦ c.seeders
      | some d ↦ set (set c.seeders k true) k false
    ];
  }

  pub answered-Idle : Idle (k + 1) answered
  unfolding insert erase contains
  answered-Idle = record {
    running = idle.running;
    consumer = refl;
    stops = idle.stops;
    fine = idle.fine;
    torrents = ground (arith, idle.torrents, str_beq_iff source source);
    calls = λ i later. ground (arith, idle.calls i, later);
    channels = λ i later. ground (arith, idle.channels i, later);
    alerts = λ i later. ground (arith, idle.alerts i, later);
    unfinished = λ t new. ground (arith, idle.unfinished t, new);
  }

  module _ (e : Torrent.State) (up : e.status ≡ running) where
    abbrev At : Client.State → Type 0
    At d = Reach torrents option duration path_of (record { engine = e; client = d })

    reach_added : At c → At added
    unfolding Client.act Client.dispatch Client.check_if_running Client.check_unique
        Client.prepare_call Client.add_torrent lookup
    reach_added r =
        let r1 =
          client_next torrents option duration path_of e c (go_to requests k at_first_check c)
            (check_running k) r up tt (ground (arith, idle.running, idle.fine, idle.calls k)) in
        let r2 =
          client_next torrents option duration path_of e (go_to requests k at_first_check c) checked
            (check_first k) r1 up tt (ground (arith, idle.torrents, idle.fine)) in
        let r3 =
          client_next torrents option duration path_of e checked (go_to requests k at_add checked)
            (prepare k (ok tt)) r2 up tt (ground (arith, idle.fine)) in
        client_next torrents option duration path_of e (go_to requests k at_add checked) added
          (add k k) r3 up tt (ground (arith, idle.torrents, idle.fine))

    reach_closed : At added → At closed
    unfolding Client.act Client.dispatch Client.test_loop Client.handle_alert
        Client.close_is_finished Client.find_torrent insert erase
    reach_closed r =
        let r1 =
          client_next torrents option duration path_of e added
            (record added { consumer = at_alert }) test_running r up tt
            (ground (arith, idle.running, idle.fine, idle.consumer)) in
        let r2 =
          client_next torrents option duration path_of e (record added { consumer = at_alert })
            alerted (finished_alert k) r1 up (idle.alerts k (omega arith))
            (ground (arith, idle.fine, idle.torrents)) in
        client_next torrents option duration path_of e alerted closed close_finished r2 up tt
          (ground (arith, idle.fine, idle.unfinished c.made))

    reach_answered : ends option duration ≡ true → At closed → At answered
    unfolding Client.act Client.dispatch Client.receive_finished Client.seed_torrent
        Client.wake_seeder Client.delete_torrent Client.remove_torrent Client.close_keep_seeding
        lookup insert erase request_of ends
    reach_answered finite r =
        let r1 =
          client_next torrents option duration path_of e closed
            (go_to requests k (at_seed c.made) closed) (receive k) r up tt
            (ground (arith, idle.fine)) in
        elim (Option-cases (local_seed_duration option duration)) [
          | inl unseeded ↦
              client_next torrents option duration path_of e
                (go_to requests k (at_seed c.made) closed) answered (seed k) r1 up tt
                (ground (
                  arith,
                  unseeded,
                  idle.fine,
                  idle.torrents,
                  idle.channels k,
                  str_beq_iff source source,
                ))
          | inr (d, seeds) ↦
              let asleep : Client.State = record (go_to requests k (at_seed c.made) closed) {
                calls = set (set closed.calls k (at_seed c.made)) k (returned c.made);
                seeders = set c.seeders k true;
              } in
              let r2 =
                client_next torrents option duration path_of e
                  (go_to requests k (at_seed c.made) closed) asleep (seed k) r1 up tt
                  (ground (arith, seeds, finite, idle.fine)) in
              client_next torrents option duration path_of e asleep answered (wake k) r2 up tt (
                ground (
                  arith,
                  seeds,
                  idle.fine,
                  idle.torrents,
                  idle.channels k,
                  str_beq_iff source source,
                ))
        ]

    pub reach_download : ends option duration ≡ true → At c → At answered
    reach_download finite r = reach_answered finite (reach_closed (reach_added r))

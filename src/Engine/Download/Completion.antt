-- ===== src/Engine/Download/Completion.antt =====
-- The end of the downloads of engine/torrent.go on the client of bittorrent/bittorrent.go.
use quayctl.Base.{
  Str, str_eq, nat_eq, ℕ, zero, suc, ◌+◌, ◌-◌, ◌≡◌, refl, subst, true, false, List, [], none, some,
  arith, length, get_elem?, get_elem?_of_lt, lt_of_get_elem?, Distinct, Option-cases, inl, inr,
  contains,
}
use quayctl.Base.Dict.{keys}
use quayctl.Base.Int.{ℤ}
use quayctl.Engine.{TorrentInfo, ids}
use quayctl.Engine.Torrent as Torrent
use quayctl.Engine.Torrent.{
  SeedOption, local_seed_duration, running, awaits, stopping, closing, ended, await_next,
  stop_client, close_complete,
}
use quayctl.Engine.Torrent.Invariant.{Reach-Inv}
use quayctl.Engine.Torrent.Safety.{complete_all}
use quayctl.Engine.Pull.{AllDownloaded, position}
use quayctl.Bittorrent.Client as Client
use quayctl.Bittorrent.Client.{at_running, at_loop, start, stop_running, stop_torrents}
use quayctl.Engine.Download.{Joint, begin, answer_of, allows, Reach, initially}
use quayctl.Engine.Download.Finished.{engine-Reach}
use quayctl.Engine.Download.Schedule.{Idle, AtTorrent, ends, client_next, worker_next}
use quayctl.Engine.Download.Schedule.Download.{answered, reach_download, answered-Idle}
use quayctl.Engine.Download.Schedule.Work.{worked, worked-AtTorrent, reach_worked}

module _ (torrents : List TorrentInfo) (option : SeedOption) (duration : ℤ) (path_of : ℕ → Str)
    (finite : ends option duration ≡ true) (distinct : Distinct (ids torrents)) where
  -- A state that is reached when the torrents before a number have been downloaded.
  record Reached (k : ℕ) : Type 0 where
    engine : Torrent.State
    client : Client.State
    at_torrent : AtTorrent k engine
    idle : Idle k client
    reach : Reach torrents option duration path_of (record { engine = engine; client = client })

  begun : Reached 0
  unfolding begin Torrent.init Client.new Client.act Client.dispatch Client.start_client contains
  begun =
      let started : Client.State = record Client.new { running = true; consumer = at_loop } in
      record {
        engine = Torrent.init;
        client = started;
        at_torrent = record {
          up = refl;
          waits = refl;
          workers = λ i later. refl;
          channels = λ i later. refl;
        };
        idle = record {
          running = refl;
          consumer = refl;
          stops = refl;
          fine = refl;
          torrents = refl;
          calls = λ i later. refl;
          channels = λ i later. refl;
          alerts = λ i later. refl;
          unfinished = λ t new. refl;
        };
        reach =
            client_next torrents option duration path_of Torrent.init Client.new started
              (start true) initially refl tt refl;
      }

  one_more : (k : ℕ) (b : Str) → get_elem? (ids torrents) k ≡ some b → Reached k → Reached (k + 1)
  unfolding answer_of
  one_more k b at_k r = record {
    engine = worked torrents option duration path_of k b at_k r.engine r.at_torrent;
    client = answered torrents option duration path_of k r.client r.idle;
    at_torrent = worked-AtTorrent torrents option duration path_of k b at_k r.engine r.at_torrent;
    idle = answered-Idle torrents option duration path_of k r.client r.idle;
    reach =
        reach_worked torrents option duration path_of k b at_k r.engine r.at_torrent
          (answered torrents option duration path_of k r.client r.idle) r.idle.fine (ground arith)
          (ground arith) finite distinct
          (reach_download torrents option duration path_of k r.client r.idle r.engine
            r.at_torrent.up finite r.reach);
  }

  -- The torrents that are left, one after the other.
  all_of : (n k : ℕ) → k + n ≡ length (ids torrents) → Reached k → Reached (length (ids torrents))
  all_of zero k e r = subst Reached (omega (arith, e)) r
  all_of (suc n) k e r =
      let (b, at_k) = get_elem?_of_lt (ids torrents) k (omega (arith, e)) in
      all_of n (k + 1) (omega (arith, e)) (one_more k b at_k r)

  -- Past the last torrent, the waiter stops the client and closes the channel.
  abbrev End : Type 0
  End =
      (j : Joint) × Reach torrents option duration path_of j
      × (j.engine.complete ≡ true)
      × (j.engine.status ≡ running)
      × (j.client.torrents ≡ [])

  reach_end : Reached (length (ids torrents)) → End
  unfolding allows Torrent.act Torrent.dispatch Torrent.await_torrent Torrent.stop
      Torrent.close_complete_channel Client.act Client.dispatch Client.stop_client Client.stop_all
      Client.delete_all keys local_seed_duration
  reach_end r =
      let e = r.engine in
      let c = r.client in
      let over : get_elem? (ids torrents) (length (ids torrents)) ≡ none =
        elim (Option-cases (get_elem? (ids torrents) (length (ids torrents)))) [
          | inl h ↦ h
          | inr (b, h) ↦
              absurd (omega (arith, lt_of_get_elem? (ids torrents) (length (ids torrents)) b h))
        ] in
      let inv =
        Reach-Inv torrents (local_seed_duration option duration) distinct
          (engine-Reach torrents option duration path_of r.reach) in
      let unended : e.complete ≡ false = (rw r.at_torrent.waits at inv.waits).1 in
      let e1 : Torrent.State = record e { waiter = stopping } in
      let e2 : Torrent.State = record e1 { client_stopped = true; waiter = closing } in
      let e3 : Torrent.State = record e2 { complete = true; waiter = ended } in
      let c1 : Client.State = record c { running = false; stops = suc c.stops } in
      let c2 : Client.State = record c1 { stops = c1.stops - 1 } in
      let r1 =
        worker_next torrents option duration path_of e e1 c await_next r.reach refl r.idle.fine
          (ground (arith, over, r.at_torrent.up, r.at_torrent.waits)) in
      let r2 =
        client_next torrents option duration path_of e1 c c1 stop_running r1 r.at_torrent.up tt
          (ground (arith, r.idle.fine)) in
      let r3 =
        client_next torrents option duration path_of e1 c1 c2 stop_torrents r2 r.at_torrent.up tt
          (ground (arith, r.idle.fine, r.idle.torrents)) in
      let r4 =
        worker_next torrents option duration path_of e1 e2 c2 stop_client r3
          (ground (arith, r.idle.stops)) r.idle.fine (ground (arith, r.at_torrent.up)) in
      let r5 =
        worker_next torrents option duration path_of e2 e3 c2 close_complete r4 refl r.idle.fine
          (ground (arith, r.at_torrent.up, unended)) in
      (
        record { engine = e3; client = c2 },
        r5,
        refl,
        r.at_torrent.up,
        ground (arith, r.idle.torrents),
      )

  -- If no id occurs twice, then the goroutines of `DownloadTorrents`, when they do not seed or seed for a
  -- positive duration, and those of the client reach together a state in which `CompleteChannel` is closed, the process runs, each torrent
  -- has been downloaded, and the client has no torrent in its map.
  pub can_download :
      (j : Joint) × Reach torrents option duration path_of j
      × (j.engine.complete ≡ true)
      × (j.engine.status ≡ running)
      × AllDownloaded torrents j.engine
      × (j.client.torrents ≡ [])
  can_download =
      let (j, r, complete, up, none_left) =
        reach_end (all_of (length (ids torrents)) 0 (omega arith) begun) in
      (
        j,
        r,
        complete,
        up,
        λ b there.
            let (i, at_i) = position (ids torrents) b there in
            (complete_all torrents (local_seed_duration option duration) distinct
              (engine-Reach torrents option duration path_of r) complete i b at_i).1,
        none_left,
      )

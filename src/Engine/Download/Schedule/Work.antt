-- ===== src/Engine/Download/Schedule/Work.antt =====
-- The worker of one torrent of engine/torrent.go, once its download has returned and the seeding is over.
use quayctl.Base.{
  Str, str_eq, str_beq_iff, nat_eq, ℕ, ◌+◌, ◌==◌, if◌then◌else◌, ◌≡◌, refl, false, true, List, some,
  arith, get_elem?, Distinct, subst,
}
use quayctl.Base.Dict.{insert}
use quayctl.Base.Int.{ℤ}
use quayctl.Engine.{TorrentInfo, ids}
use quayctl.Engine.Torrent as Torrent
use quayctl.Engine.Torrent.{
  SeedOption, local_seed_duration, running, awaits, stored, announced, seeded, done, downloading,
  update, close, download_ok, announce, end_of_seeding, go_on, finish, await_next, id_at,
}
use quayctl.Engine.Torrent.Invariant.{WorkerOk, Reach-Inv}
use quayctl.Bittorrent.Client as Client
use quayctl.Engine.Download.{answer_of, allows, Reach}
use quayctl.Engine.Download.Finished.{engine-Reach}
use quayctl.Engine.Download.Schedule.{AtTorrent, ends, worker_next}

module _ (torrents : List TorrentInfo) (option : SeedOption) (duration : ℤ) (path_of : ℕ → Str)
    (k : ℕ) (b : Str) (at_k : get_elem? (ids torrents) k ≡ some b) (e : Torrent.State)
    (here : AtTorrent k e) where
  abbrev recorded : Torrent.State
  recorded = record e {
    torrent_paths = insert b (path_of k) e.torrent_paths;
    workers = update e.workers k stored;
  }

  abbrev told : Torrent.State
  told = record recorded {
    downloaded = close e.downloaded b;
    workers = update recorded.workers k announced;
  }

  abbrev heard : Torrent.State
  heard = record told { keep_seeding = λ j. if k == j then true else e.keep_seeding j }

  abbrev passed : Torrent.State
  passed = record heard { workers = update told.workers k seeded }

  abbrev ended : Torrent.State
  ended = record passed { completed = close e.completed b; workers = update passed.workers k done }

  abbrev pub worked : Torrent.State
  worked = record ended { waiter = awaits (k + 1) }

  pub worked-AtTorrent : AtTorrent (k + 1) worked
  worked-AtTorrent = record {
    up = here.up;
    waits = refl;
    workers = λ i later. ground (arith, here.workers i, later);
    channels = λ i later. ground (arith, here.channels i, later);
  }

  module _ (c : Client.State) (fine : c.panicked ≡ false)
      (answer : answer_of torrents option duration path_of c k ≡ some (path_of k))
      (over : c.keep_seeding k ≡ true) (finite : ends option duration ≡ true) where
    abbrev At : Torrent.State → Type 0
    At f = Reach torrents option duration path_of (record { engine = f; client = c })

    -- The channels of the torrent are open.
    opened : Distinct (ids torrents) → At e → (e.downloaded b ≡ false) × (e.completed b ≡ false)
    opened distinct r =
        let inv =
          Reach-Inv torrents (local_seed_duration option duration) distinct
            (engine-Reach torrents option duration path_of r) in
        subst (WorkerOk e b) (here.workers k (omega arith)) (inv.each k b at_k)

    pub reach_worked : Distinct (ids torrents) → At e → At worked
    unfolding allows Torrent.act Torrent.dispatch Torrent.store_path Torrent.mark_downloaded
        Torrent.close_downloaded Torrent.end_seeding Torrent.pass_seeding Torrent.mark_completed
        Torrent.close_completed Torrent.await_torrent ends
    reach_worked distinct r =
        let (down, compl) = opened distinct r in
        let r1 =
          worker_next torrents option duration path_of e recorded c (download_ok k (path_of k)) r
            (ground (arith, answer, str_beq_iff (path_of k) (path_of k))) fine
            (ground (arith, at_k, here.up, here.workers k)) in
        let r2 =
          worker_next torrents option duration path_of recorded told c (announce k) r1 refl fine
            (ground (arith, at_k, here.up, down)) in
        let r3 =
          worker_next torrents option duration path_of told heard c (end_of_seeding k) r2 over fine
            (ground (arith, at_k, here.up, here.channels k, finite)) in
        let r4 =
          worker_next torrents option duration path_of heard passed c (go_on k) r3 refl fine
            (ground (arith, at_k, here.up)) in
        let r5 =
          worker_next torrents option duration path_of passed ended c (finish k) r4 refl fine
            (ground (arith, at_k, here.up, compl)) in
        worker_next torrents option duration path_of ended worked c await_next r5 refl fine
          (ground (arith, at_k, here.up, here.waits, str_beq_iff b b))

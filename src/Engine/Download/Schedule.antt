-- ===== src/Engine/Download/Schedule.antt =====
-- A run of the goroutines of engine/torrent.go and bittorrent/bittorrent.go in which the torrents are
-- downloaded one after the other.
pub mod Download
pub mod Work
use quayctl.Base.{
  Str, text, str_eq, nat_eq, ℕ, suc, ◌+◌, ◌≤◌, ◌≡◌, refl, Bool, true, false, List, [], ◌∷◌, Option,
  none, some, arith, contains, not, ◌&&◌, if◌then◌else◌, ◌==◌,
}
use quayctl.Base.Int.{ℤ, is_positive}
use quayctl.Engine.{TorrentInfo, ids}
use quayctl.Engine.Torrent as Torrent
use quayctl.Engine.Torrent.{SeedOption, closes, local_seed_duration, downloading, running, awaits}
use quayctl.Bittorrent.Client as Client
use quayctl.Bittorrent.Client.{at_running, at_loop}
use quayctl.Engine.Download.{
  Joint, of_worker, of_client, begin, request_of, allows, worker_acts, client_acts, joint_act,
  Reach, initially, next,
}

-- The client between two downloads: the calls from a number on have not begun.
pub record Idle (n : ℕ) (c : Client.State) : Type 0 where
  pub running : c.running ≡ true
  pub consumer : c.consumer ≡ at_loop
  pub stops : c.stops ≡ 0
  pub fine : c.panicked ≡ false
  pub torrents : c.torrents ≡ []
  pub calls : (i : ℕ) → n ≤ i → c.calls i ≡ at_running
  pub channels : (i : ℕ) → n ≤ i → c.keep_seeding i ≡ false
  pub alerts : (i : ℕ) → n ≤ i → contains c.alerted i ≡ false
  pub unfinished : (t : ℕ) → c.made ≤ t → c.finished t ≡ false

-- The workers from a number on have not gone on, their channels are open, and the waiter is at that
-- number.
pub record AtTorrent (n : ℕ) (e : Torrent.State) : Type 0 where
  pub up : e.status ≡ running
  pub waits : e.waiter ≡ awaits n
  pub workers : (i : ℕ) → n ≤ i → e.workers i ≡ downloading
  pub channels : (i : ℕ) → n ≤ i → e.keep_seeding i ≡ false

-- Whether the seeding of a download ends: there is none, or it has a positive duration.
unfoldable pub ends : SeedOption → ℤ → Bool
unfolding local_seed_duration
ends option duration = closes (local_seed_duration option duration)

module _ (torrents : List TorrentInfo) (option : SeedOption) (duration : ℤ)
    (path_of : ℕ → Str) where
  pub client_next :
      (e : Torrent.State) (c d : Client.State) (a : Client.Action)
      → Reach torrents option duration path_of (record { engine = e; client = c })
      → e.status ≡ running
      → Client.Documented (request_of torrents option duration path_of) c a
      → Client.act (request_of torrents option duration path_of) a c ≡ some d
      → Reach torrents option duration path_of (record { engine = e; client = d })
  unfolding joint_act client_acts
  client_next e c d a r up documented acted =
      next (of_client a) r documented (ground (arith, up, acted))

  pub worker_next :
      (e f : Torrent.State) (c : Client.State) (a : Torrent.Action)
      → Reach torrents option duration path_of (record { engine = e; client = c })
      → allows torrents option duration path_of c a ≡ true
      → c.panicked ≡ false
      → Torrent.act torrents (local_seed_duration option duration) a e ≡ some f
      → Reach torrents option duration path_of (record { engine = f; client = c })
  unfolding joint_act worker_acts
  worker_next e f c a r allowed fine acted =
      next (of_worker a) r tt (ground (arith, allowed, fine, acted))

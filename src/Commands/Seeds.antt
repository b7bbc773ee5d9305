-- ===== src/Commands/Seeds.antt =====
-- The commands `docker torrent seed` and `rkt torrent seed` with engine/torrent.go and bittorrent/ as its downloads.
mod Tests
use quayctl.Base.{
  Str, str_eq, nat_eq, ℕ, zero, ◌≡◌, refl, Bool, true, false, List, [], ◌∷◌, some, Outcome, ok,
  blocked, ◌>>=◌, arith, Distinct,
}
use quayctl.Base.Int.{ℤ, is_positive}
use quayctl.Engine.{ids, TorrentInfo, DockerContext, Context, docker, all_layers, open_channel}
use quayctl.Engine.Torrent.{seed_after_pull, local_seed_duration, info_of}
use quayctl.Engine.Docker.{Services}
use quayctl.Engine.Docker as Docker
use quayctl.Engine.Docker.Retrieve.{retrieve-Distinct}
use quayctl.Engine.Rkt.{RktServices}
use quayctl.Engine.Rkt as Rkt
use quayctl.Engine.Rkt.Pull as RktPull
use quayctl.Engine.Download.{Joint, Reach}
use quayctl.Engine.Download.Schedule.{ends}
use quayctl.Engine.Download.Completion.{can_download}
use quayctl.Engine.Download.Forever.{never_complete}
use quayctl.Engine.Pull.{AllDownloaded}
use quayctl.Commands.{TorrentHandler, docker_handler, log_fatal, await_seeding, torrent_seed_run}
use quayctl.Commands.Whole.{found_in}
use quayctl.Commands.Aci.{rkt_handler}

-- The command on the handler of an engine whose torrents have distinct ids.
module _ (handler : TorrentHandler) (image : Str) (insecure : Bool) (duration : ℤ)
    (path_of : ℕ → Str) (bars : Bool) (ctx : Context) where
  blocks_of :
      (states : List TorrentInfo → Joint)
      → ((torrents : List TorrentInfo)
          → Reach torrents seed_after_pull duration path_of (states torrents))
      → (torrent : TorrentInfo) (torrents : List TorrentInfo)
      → handler.retrieve_torrents image insecure all_layers ≡ ok (torrent ∷ torrents, ctx)
      → Distinct (ids (torrent ∷ torrents))
      → is_positive duration ≡ false
      → torrent_seed_run handler (found_in bars states) insecure (image ∷ []) ≡ blocked
  unfolding torrent_seed_run await_seeding log_fatal info_of local_seed_duration
  blocks_of states reached torrent torrents retrieved distinct forever =
      let open_ : (states (torrent ∷ torrents)).engine.complete ≡ false =
        never_complete (torrent ∷ torrents) duration path_of forever distinct
          (reached (torrent ∷ torrents)) 0 torrent.id refl in
      simp (retrieved, open_)

  can_return_of :
      (torrents : List TorrentInfo)
      → handler.retrieve_torrents image insecure all_layers ≡ ok (torrents, ctx)
      → Distinct (ids torrents)
      → is_positive duration ≡ true
      → (j : Joint) × Reach torrents seed_after_pull duration path_of j
        × (torrent_seed_run handler (found_in bars (λ _. j)) insecure (image ∷ []) ≡ ok tt)
        × AllDownloaded torrents j.engine
        × (j.client.torrents ≡ [])
  unfolding torrent_seed_run await_seeding log_fatal info_of ends
  can_return_of torrents retrieved distinct finite =
      let (j, r, complete, up, all, none_left) =
        can_download torrents seed_after_pull duration path_of finite distinct in
      (j, r, simp (retrieved, complete), all, none_left)

module _ (svc : Services) (image local_ip : Str) (insecure : Bool) (duration : ℤ)
    (path_of : ℕ → Str) (bars : Bool) where
  -- The command `docker torrent seed` without the flag `--duration`, or with a duration of 0 or less,
  -- of an image for which there is something to seed, does not return: in each state that the goroutines of
  -- `DownloadTorrents` and of the client reach together, it waits on a channel that is open.
  pub seed_blocks :
      (states : List TorrentInfo → Joint)
      → ((torrents : List TorrentInfo)
          → Reach torrents seed_after_pull duration path_of (states torrents))
      → (torrent : TorrentInfo) (torrents : List TorrentInfo) (c : DockerContext)
      → Docker.retrieve svc false image insecure all_layers ≡ ok (torrent ∷ torrents, docker c)
      → is_positive duration ≡ false
      → torrent_seed_run
          (docker_handler svc false local_ip)
          (found_in bars states)
          insecure
          (image ∷ [])
        ≡ blocked
  seed_blocks states reached torrent torrents c retrieved forever =
      blocks_of (docker_handler svc false local_ip) image insecure duration path_of bars (docker c)
        states reached torrent torrents retrieved
        (retrieve-Distinct svc image insecure all_layers (torrent ∷ torrents) c retrieved).0 forever

  -- If `RetrieveTorrents` of Docker returns a context and the flag `--duration` is positive, then the
  -- goroutines of `DownloadTorrents` and of the client reach together a state in which the command
  -- `docker torrent seed` of the image returns, each torrent has been downloaded, and the client has no
  -- torrent in its map.
  pub seed_can_return :
      (torrents : List TorrentInfo) (c : DockerContext)
      → Docker.retrieve svc false image insecure all_layers ≡ ok (torrents, docker c)
      → is_positive duration ≡ true
      → (j : Joint) × Reach torrents seed_after_pull duration path_of j
        × (torrent_seed_run
              (docker_handler svc false local_ip)
              (found_in bars (λ _. j))
              insecure
              (image ∷ [])
            ≡ ok tt)
        × AllDownloaded torrents j.engine
        × (j.client.torrents ≡ [])
  seed_can_return torrents c retrieved finite =
      can_return_of (docker_handler svc false local_ip) image insecure duration path_of bars
        (docker c) torrents retrieved
        (retrieve-Distinct svc image insecure all_layers torrents c retrieved).0 finite

module _ (svc : RktServices) (image : Str) (insecure : Bool) (duration : ℤ) (path_of : ℕ → Str)
    (bars : Bool) where
  -- The command `rkt torrent seed` without the flag `--duration`, or with a duration of 0 or less, does
  -- not return once `RetrieveTorrents` has: in each state that the goroutines of `DownloadTorrents` and
  -- of the client reach together, it waits on a channel that is open.
  pub rkt_seed_blocks :
      (states : List TorrentInfo → Joint)
      → ((torrents : List TorrentInfo)
          → Reach torrents seed_after_pull duration path_of (states torrents))
      → (torrents : List TorrentInfo) (ctx : Context)
      → Rkt.retrieve svc image insecure ≡ ok (torrents, ctx)
      → is_positive duration ≡ false
      → torrent_seed_run (rkt_handler svc) (found_in bars states) insecure (image ∷ []) ≡ blocked
  rkt_seed_blocks states reached [] ctx retrieved forever =
      absurd (ground (arith, (RktPull.retrieve-Distinct svc image insecure [] ctx retrieved).1))
  rkt_seed_blocks states reached (torrent ∷ torrents) ctx retrieved forever =
      blocks_of (rkt_handler svc) image insecure duration path_of bars ctx states reached torrent
        torrents retrieved
        (RktPull.retrieve-Distinct svc image insecure (torrent ∷ torrents) ctx retrieved).0 forever

  -- If `RetrieveTorrents` of rkt succeeds and the flag `--duration` is positive, then the goroutines of
  -- `DownloadTorrents` and of the client reach together a state in which the command `rkt torrent seed`
  -- of the image returns, each torrent has been downloaded, and the client has no torrent in its map.
  pub rkt_seed_can_return :
      (torrents : List TorrentInfo) (ctx : Context)
      → Rkt.retrieve svc image insecure ≡ ok (torrents, ctx)
      → is_positive duration ≡ true
      → (j : Joint) × Reach torrents seed_after_pull duration path_of j
        × (torrent_seed_run (rkt_handler svc) (found_in bars (λ _. j)) insecure (image ∷ [])
            ≡ ok tt)
        × AllDownloaded torrents j.engine
        × (j.client.torrents ≡ [])
  rkt_seed_can_return torrents ctx retrieved finite =
      can_return_of (rkt_handler svc) image insecure duration path_of bars ctx torrents retrieved
        (RktPull.retrieve-Distinct svc image insecure torrents ctx retrieved).0 finite

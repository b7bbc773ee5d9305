-- ===== src/Commands/Present.antt =====
-- `torrent pull` of an image that Docker has.
use quayctl.Base.{Str, ◌≡◌, Bool, true, false, List, [], ◌∷◌, Outcome, ok, panic, type_assertion}
use quayctl.Engine.{TorrentInfo, DownloadInfo, Named, SignedManifest, signed}
use quayctl.Engine.Torrent.{SeedOption, no_seed}
use quayctl.Engine.Docker.{Services}
use quayctl.Engine.Pull.{nothing_missing_panics}
use quayctl.Commands.{docker_handler, log_fatal, torrent_pull_run}

module _ (svc : Services) (download : List TorrentInfo → SeedOption → Outcome Str DownloadInfo)
    (insecure : Bool) (image local_ip : Str) where
  -- If Docker has the blob at the top of the image's manifest, and `DownloadTorrents` returns for no
  -- torrents, then the command `docker torrent pull` panics.
  pub pull_present_panics :
      (named : Named) (m : SignedManifest) (top : Str) (history below : List Str) (blob : Str)
      → svc.download_manifest image insecure ≡ ok (named, signed m)
      → m.history ≡ top ∷ history
      → m.fs_layers ≡ blob ∷ below
      → (svc.has_image blob).0 ≡ true
      → (info : DownloadInfo) → download [] no_seed ≡ ok info
      → torrent_pull_run (docker_handler svc false local_ip) download insecure (image ∷ [])
        ≡ panic type_assertion
  unfolding torrent_pull_run log_fatal
  pull_present_panics named m top history below blob found eh ef here info downloaded =
      let (retrieved, loaded) =
        nothing_missing_panics svc image insecure local_ip named m top history below blob found eh
          ef here info in
      simp (retrieved, downloaded, loaded)

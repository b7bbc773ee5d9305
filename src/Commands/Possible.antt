-- ===== src/Commands/Possible.antt =====
-- The commands `docker torrent pull` and `rkt torrent pull` do not only wait.
mod Tests
use quayctl.Base.{
  Str, text, str_eq, nat_eq, ℕ, ◌≡◌, refl, sym, ◌∙◌, ap, Bool, true, false, List, [], ◌∷◌, ◌++◌,
  some, Outcome, ok, ◌>>=◌, ◌>>◌, wrap_error, arith, length, get_elem?,
}
use quayctl.Base.Dict.{Dict, lookup}
use quayctl.Base.Int.{ℤ}
use quayctl.Engine.{
  ids, TorrentInfo, DockerContext, docker, missing_layers, Context, RktContext, rkt, Url,
}
use quayctl.Engine.Torrent.{no_seed, local_seed_duration, info_of}
use quayctl.Engine.Docker.{Services}
use quayctl.Engine.Docker as Docker
use quayctl.Engine.Docker.Load.{IsComplete}
use quayctl.Engine.Docker.Retrieve.{retrieve-Distinct}
use quayctl.Engine.Pull.{pull_loads}
use quayctl.Engine.Rkt.{RktServices, download_file, fetch}
use quayctl.Engine.Rkt as Rkt
use quayctl.Engine.Rkt.Pull as RktPull
use quayctl.Engine.Download.{Joint, Reach}
use quayctl.Engine.Download.Finished.{engine-Reach}
use quayctl.Engine.Download.Schedule.{ends}
use quayctl.Engine.Download.Completion.{can_download}
use quayctl.Commands.{docker_handler, log_fatal, torrent_pull_run}
use quayctl.Commands.Whole.{found_in}
use quayctl.Commands.Aci.{rkt_handler}

module _ (image : Str) (insecure bars : Bool) (duration : ℤ) (path_of : ℕ → Str) where
  -- If `RetrieveTorrents` returns the context of an image whose manifest has a blob for each history entry,
  -- then the goroutines of `DownloadTorrents` and of the client reach together a state in
  -- which `docker torrent pull` neither waits nor panics before its call of `DockerLoad`, but is that call, with
  -- the path of the blob of each layer, or the end of the program with its error.
  pub docker_can_pull :
      (svc : Services) (local_ip : Str) (torrents : List TorrentInfo) (c : DockerContext)
      → Docker.retrieve svc false image insecure missing_layers ≡ ok (torrents, docker c)
      → length c.v1_manifest.history ≡ length c.v1_manifest.fs_layers
      → (j : Joint) × Reach torrents no_seed duration path_of j
        × ((paths : Dict Str) × (torrent_pull_run
                (docker_handler svc false local_ip)
                (found_in bars (λ _. j))
                insecure
                (image ∷ [])
              ≡ log_fatal (svc.docker_load c.named c.v1_manifest paths local_ip))
            × IsComplete svc c.v1_manifest (info_of torrents bars j.engine) c.layers paths)
  unfolding torrent_pull_run log_fatal ends
  docker_can_pull svc local_ip torrents c retrieved aligned =
      let (distinct, _) =
        retrieve-Distinct svc image insecure missing_layers torrents c retrieved in
      let (j, r, complete, up, all, none_left) =
        can_download torrents no_seed duration path_of refl distinct in
      let (paths, same, sound, full) =
        pull_loads svc image insecure missing_layers local_ip torrents c retrieved aligned
          (local_seed_duration no_seed duration) bars j.engine
          (engine-Reach torrents no_seed duration path_of r) all in
      (j, r, (paths, simp (retrieved, same), full))

  -- If `RetrieveTorrents` of rkt succeeds, then the goroutines of `DownloadTorrents` and of the client reach together
  -- a state in which `rkt torrent pull` neither waits nor panics before its calls, but is the
  -- download of the signature and then the fetch of the path in `TorrentPaths`, or the end of the program with
  -- the error of one of them.
  pub rkt_can_pull :
      (svc : RktServices) (torrents : List TorrentInfo) (c : RktContext)
      → Rkt.retrieve svc image insecure ≡ ok (torrents, rkt c)
      → (j : Joint) × Reach torrents no_seed duration path_of j
        × ((path : Str) × (lookup (text "aci") j.engine.torrent_paths ≡ some path)
            × (torrent_pull_run (rkt_handler svc) (found_in bars (λ _. j)) insecure (image ∷ [])
                ≡ log_fatal (
                    wrap_error
                      (λ e.
                        text "Could not download signature for image "
                        ++ (image ++ (text ": " ++ e)))
                      (download_file svc c.signature_url (path ++ text ".aci.asc"))
                    >> fetch svc image path)))
  unfolding torrent_pull_run log_fatal ends
  rkt_can_pull svc torrents c retrieved =
      let (distinct, _) = RktPull.retrieve-Distinct svc image insecure torrents (rkt c) retrieved in
      let (j, r, complete, up, all, none_left) =
        can_download torrents no_seed duration path_of refl distinct in
      let (c', path, context, found, same) =
        RktPull.rkt_pull_loads svc image insecure torrents (rkt c) retrieved
          (local_seed_duration no_seed duration) bars j.engine
          (engine-Reach torrents no_seed duration path_of r) complete in
      let one : c' ≡ c = cc in
      let ran : torrent_pull_run (rkt_handler svc) (found_in bars (λ _. j)) insecure (image ∷ [])
          ≡ log_fatal (Rkt.load svc image (info_of torrents bars j.engine) (rkt c)) =
        simp retrieved in
      let with_signature : Url → Outcome Str (Unit {0}) = λ url.
        wrap_error
          (λ e. text "Could not download signature for image " ++ (image ++ (text ": " ++ e)))
          (download_file svc url (path ++ text ".aci.asc"))
        >> fetch svc image path in
      (
        j,
        r,
        (
          path,
          found,
          ran
              ∙ ap log_fatal same
              ∙ ap (λ (x : RktContext). log_fatal (with_signature x.signature_url)) one,
        ),
      )

-- ===== src/Commands/Outcomes.antt =====
-- How `docker torrent pull` can end once `RetrieveTorrents` has returned.
mod Tests
use quayctl.Base.{
  Str, text, str_eq, nat_eq, ℕ, ◌≡◌, refl, sym, ◌∙◌, ap, Bool, true, false, List, [], ◌∷◌, ◌++◌,
  some, Outcome, ok, panic, type_assertion, blocked, ◌>>=◌, ◌>>◌, wrap_error, arith, length, ◌⊎◌,
  inl, inr, Bool-cases,
}
use quayctl.Base.Dict.{Dict, lookup}
use quayctl.Base.Int.{ℤ}
use quayctl.Engine.{
  TorrentInfo, Named, SignedManifest, signed, Context, nil, DockerContext, docker, missing_layers,
  RktContext, rkt, Url,
}
use quayctl.Engine.Torrent.{no_seed, local_seed_duration, info_of}
use quayctl.Engine.Docker.{Services}
use quayctl.Engine.Docker as Docker
use quayctl.Engine.Docker.Retrieve.{retrieve-context, retrieve-Distinct}
use quayctl.Engine.Docker.Load.{load-nil}
use quayctl.Engine.Pull.Assertions.{retrieved_either}
use quayctl.Engine.Download.{Joint, Reach}
use quayctl.Engine.Download.Finished.{engine-Reach}
use quayctl.Commands.{docker_handler, log_fatal, torrent_pull_run}
use quayctl.Commands.Whole.{found_in}

module _ (image : Str) (insecure bars : Bool) (duration : ℤ) (path_of : ℕ → Str)
    (states : List TorrentInfo → Joint)
    (reached : (torrents : List TorrentInfo)
      → Reach torrents no_seed duration path_of (states torrents)) where
  -- If the manifest of the image has a blob for each history entry, and `RetrieveTorrents` of Docker
  -- succeeds, then in each state that the goroutines of `DownloadTorrents` and of the client reach together
  -- there are three cases. There are no torrents and the context is nil, and `docker torrent pull` panics
  -- with the failed assertion on its type. Or the context is one of Docker, and `docker torrent pull` waits. Or
  -- the context is one of Docker, and `docker torrent pull` is the call of `DockerLoad` with its name
  -- and manifest, or the end of the program with its error: no assertion on the type of a path fails, and no
  -- index of a blob is out of range.
  pub docker_pull_outcomes :
      (svc : Services) (local_ip : Str) (named : Named) (m : SignedManifest)
      → svc.download_manifest image insecure ≡ ok (named, signed m)
      → length m.history ≡ length m.fs_layers
      → (torrents : List TorrentInfo) (ctx : Context)
      → Docker.retrieve svc false image insecure missing_layers ≡ ok (torrents, ctx)
      → let run =
          torrent_pull_run
            (docker_handler svc false local_ip)
            (found_in bars states)
            insecure
            (image ∷ []) in
        ((torrents ≡ []) × (ctx ≡ nil) × (run ≡ panic type_assertion))
        ⊎ ((c : DockerContext) × (ctx ≡ docker c)
            × ((run ≡ blocked)
                ⊎ ((paths : Dict Str) × (run
                      ≡ log_fatal (svc.docker_load named m paths local_ip)))))
  unfolding torrent_pull_run log_fatal
  docker_pull_outcomes svc local_ip named m manifest aligned torrents ctx retrieved =
      let info = info_of torrents bars (states torrents).engine in
      elim (retrieve-context svc image insecure missing_layers torrents ctx retrieved) [
        | inl (no_torrents, no_context) ↦
            inl (no_torrents, no_context, simp (retrieved, no_context, load-nil svc local_ip info))
        | inr (c, context) ↦
            let at_c = rw context at retrieved in
            let (_, source) = retrieve-Distinct svc image insecure missing_layers torrents c at_c in
            let same_name : c.named ≡ named = cc in
            let same : c.v1_manifest ≡ m = cc in
            elim (retrieved_either svc image insecure missing_layers local_ip torrents c at_c
              (rw same aligned) (local_seed_duration no_seed duration) bars (states torrents).engine
              (engine-Reach torrents no_seed duration path_of (reached torrents))) [
                | inl waits ↦ inr (c, context, inl (simp (at_c, waits)))
                | inr (paths, loads) ↦
                    inr (c, context, inr (paths, simp (at_c, loads, same_name, same)))
              ]
      ]

-- ===== src/Commands/Aci.antt =====
-- The command `rkt torrent pull`, with engine/torrent.go and bittorrent/ as its downloads.
mod Tests
use quayctl.Base.{
  Str, text, str_eq, nat_eq, ℕ, ◌≡◌, sym, ◌∙◌, Bool, true, List, [], ◌∷◌, ◌++◌, some, Outcome, ok,
  ◌>>=◌, >>=-eq-ok, wrap_error, wrap_error-ok, contains, arith,
}
use quayctl.Base.Dict.{lookup}
use quayctl.Base.Int.{ℤ}
use quayctl.Engine.{TorrentInfo, RktContext, Context, rkt}
use quayctl.Engine.Torrent.{no_seed, local_seed_duration, info_of}
use quayctl.Engine.Torrent.Safety.{complete_all}
use quayctl.Engine.Rkt.{RktServices, download_file, fetch}
use quayctl.Engine.Rkt as Rkt
use quayctl.Engine.Rkt.Pull.{retrieve-Distinct, load-complete, rkt_pull_loads}
use quayctl.Engine.Download.{Joint, Reach}
use quayctl.Engine.Download.Finished.{engine-Reach, downloaded_finished}
use quayctl.Bittorrent.Client.{returned}
use quayctl.Commands.{TorrentHandler, torrent_pull_run}
use quayctl.Commands.Whole.{found_in, log_fatal-ok, log_fatal-ok_of}

-- `rktTorrentHandler`
abbrev pub rkt_handler : RktServices → TorrentHandler
rkt_handler svc = record {
  retrieve_torrents = λ image insecure option. Rkt.retrieve svc image insecure;
  load_image = λ image info ctx. Rkt.load svc image info ctx;
}

module _ (svc : RktServices) (image : Str) (insecure : Bool) (path_of : ℕ → Str) where
  -- What a pull has done: rkt has fetched a file that libtorrent has posted as finished, beside which the
  -- signature was put, and the client has been stopped.
  pub record Fetched (states : List TorrentInfo → Joint) : Type 0 where
    pub torrents : List TorrentInfo
    pub context : RktContext
    pub retrieved : Rkt.retrieve svc image insecure ≡ ok (torrents, rkt context)
    pub handle : ℕ
    pub path : Str
    pub is_path : path ≡ path_of handle
    pub finished : contains (states torrents).client.alerted handle ≡ true
    pub stopped : (states torrents).engine.client_stopped ≡ true
    pub signature : download_file svc context.signature_url (path ++ text ".aci.asc") ≡ ok tt
    pub fetched : fetch svc image path ≡ ok tt

  module _ (duration : ℤ) (bars : Bool) (states : List TorrentInfo → Joint)
      (reached : (torrents : List TorrentInfo)
        → Reach torrents no_seed duration path_of (states torrents)) where
    load-Fetched :
        (torrents : List TorrentInfo) (ctx : Context)
        → Rkt.retrieve svc image insecure ≡ ok (torrents, ctx)
        → Rkt.load svc image (info_of torrents bars (states torrents).engine) ctx ≡ ok tt
        → Fetched states
    load-Fetched torrents ctx retrieved loaded =
        let s = (states torrents).engine in
        let (distinct, here) = retrieve-Distinct svc image insecure torrents ctx retrieved in
        let complete =
          load-complete svc image insecure torrents ctx (local_seed_duration no_seed duration) bars
            s loaded in
        let r = engine-Reach torrents no_seed duration path_of (reached torrents) in
        let (stopped, closed, _, _) =
          complete_all torrents (local_seed_duration no_seed duration) distinct r complete 0
            (text "aci") here in
        let (c, path, context, recorded, same) =
          rkt_pull_loads svc image insecure torrents ctx retrieved
            (local_seed_duration no_seed duration) bars s r complete in
        let (t, answered, recorded_too, posted) =
          downloaded_finished torrents no_seed duration path_of distinct (reached torrents) 0
            (text "aci") here closed in
        let (u, signed, fetched) = >>=-eq-ok _ _ (sym same ∙ loaded) in
        record {
          torrents = torrents;
          context = c;
          retrieved = ground (arith, retrieved, context);
          handle = (states torrents).client.handles t;
          path = path;
          is_path = ground (arith, recorded, recorded_too);
          finished = posted;
          stopped = stopped;
          signature = wrap_error-ok _ _ u signed;
          fetched = fetched;
        }

    -- If the command `rkt torrent pull` succeeds, where the downloads of any torrents are found in a state that the
    -- goroutines of `DownloadTorrents` and of the client reach together, and libtorrent posts once for each handle that
    -- a torrent is finished, then the client has been stopped, the path that was fetched is that of a handle which
    -- libtorrent has posted as finished, the signature was downloaded beside it, and both calls have succeeded.
    pub pull-Fetched :
        torrent_pull_run (rkt_handler svc) (found_in bars states) insecure (image ∷ []) ≡ ok tt
        → Fetched states
    unfolding torrent_pull_run
    pull-Fetched e =
        let (found, retrieved, rest) = log_fatal-ok_of (Rkt.retrieve svc image insecure) _ tt e in
        load-Fetched found.0 found.1 retrieved (
          log_fatal-ok (Rkt.load svc image (info_of found.0 bars (states found.0).engine) found.1)
            tt rest)

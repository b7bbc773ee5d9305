-- ===== src/Commands/Whole.antt =====
-- The command `docker torrent pull` with the program's own packages: dockerdist/ and dockerclient/ in the
-- place of the interface of the engine, and engine/torrent.go with bittorrent/ as its downloads.
mod Tests
use quayctl.Base.{
  nat_eq, get_elem?, Str, text, str_eq, ℕ, ◌≡◌, ◌≢◌, refl, sym, ap, subst, ◌∙◌, Bool, true, false,
  List, [], ◌∷◌, Option, none, some, Outcome, ok, err, panic, fatal, blocked, ◌>>=◌, >>=-eq-ok,
  contains, arith, Distinct,
}
use quayctl.Base.Dict.{Dict, lookup}
use quayctl.Base.Int.{ℤ}
use quayctl.Engine.{
  ids, TorrentInfo, DownloadInfo, Named, SignedManifest, signed, Context, DockerContext, docker,
  missing_layers, closed_channel, LayerInfo,
}
use quayctl.Engine.Torrent.{SeedOption, no_seed, local_seed_duration, info_of, id_at}
use quayctl.Engine.Docker.{Services}
use quayctl.Engine.Docker as Docker
use quayctl.Engine.Docker.Load.{IsComplete}
use quayctl.Engine.Docker.Loaded.{Loaded, load-Loaded, DownloadedAt, AllDownloadedIn, OfBlobs}
use quayctl.Engine.Docker.Retrieve.{retrieve-Distinct}
use quayctl.Engine.Pull.{position}
use quayctl.Engine.Pull.Docker.{with_docker}
use quayctl.Engine.Download.{Joint, Reach}
use quayctl.Engine.Download.Finished.{downloaded_finished}
use quayctl.Bittorrent.Client.{returned}
use quayctl.Dockerclient.Load.{Environment, Platform, docker_load, local_name}
use quayctl.Dockerclient.Load.Names.{IsDocker, name_of, docker_load-named}
use quayctl.Dockerdist.{DistServices, Repository}
use quayctl.Dockerdist as Dockerdist
use quayctl.Dockerdist.Manifests.{IsClientOf, IsDigest, download_manifest-IsVerified}
use quayctl.Commands.{docker_handler, log_fatal, torrent_pull_run}

-- The handler with the registry access that dockerdist/ implements.
abbrev pub with_registry : DistServices → Services → Services
with_registry dist svc = record svc {
  get_auth_credentials = Dockerdist.get_auth_credentials dist;
  download_manifest = Dockerdist.download_manifest dist;
  parse_named = dist.parse_named;
}

-- What `DownloadTorrents` returns, as it is found in a state of the goroutines.
abbrev pub found_in :
    Bool → (List TorrentInfo → Joint) → List TorrentInfo → SeedOption → Outcome Str DownloadInfo
found_in bars states torrents option = ok (info_of torrents bars (states torrents).engine)

-- Every file of a map of paths is that of a torrent that libtorrent has posted as finished.
abbrev pub FinishedAt : (ℕ → Str) → Joint → Option Str → Type 0
FinishedAt path_of j none = Unit
FinishedAt path_of j (some p) =
    (t : ℕ) × (p ≡ path_of (j.client.handles t))
    × (contains j.client.alerted (j.client.handles t) ≡ true)

pub log_fatal-ok : {A : Type 0} (m : Outcome Str A) (a : A) → log_fatal m ≡ ok a → m ≡ ok a
unfolding log_fatal
log_fatal-ok (ok b) a e = cc
log_fatal-ok (err x) a e = cc
log_fatal-ok (panic x) a e = cc
log_fatal-ok (fatal x) a e = cc
log_fatal-ok blocked a e = cc

pub log_fatal-ok_of :
    {A : Type 0} {B : Type 0} (m : Outcome Str A) (next : A → Outcome Str B) (b : B)
    → (log_fatal m >>= next) ≡ ok b
    → (a : A) × (m ≡ ok a) × (next a ≡ ok b)
log_fatal-ok_of m next b e =
    let (a, found, rest) = >>=-eq-ok (log_fatal m) next e in (a, log_fatal-ok m a found, rest)

-- An entry that was downloaded has been finished by libtorrent.
module _ (torrents : List TorrentInfo) (duration : ℤ) (path_of : ℕ → Str) (bars : Bool) where
  finished :
      Distinct (ids torrents)
      → (j : Joint) → Reach torrents no_seed duration path_of j
      → (svc : Services) (m : SignedManifest) (k : Str) (o : Option Str)
      → DownloadedAt svc m (info_of torrents bars j.engine) k o
      → FinishedAt path_of j o
  unfolding info_of
  finished distinct j r svc m k none there = tt
  finished distinct j r svc m k (some p) (closed, recorded) =
      let (i, at) = position (ids torrents) k (ground (arith, closed)) in
      let (t, answered, path, posted) =
        downloaded_finished torrents no_seed duration path_of distinct r i k at
          (ground (arith, closed)) in
      (t, ground (arith, recorded, path), posted)

module _ {D : Type 0} (dist : DistServices) (p : Platform D) (env : Environment) (d : D)
    (svc : Services) where
  -- The interface of the Docker handler, filled by the packages of the program.
  abbrev pub program : Services
  program = with_docker p env d (with_registry dist svc)

module _ {D : Type 0} (dist : DistServices) (p : Platform D) (env : Environment) (d : D)
    (svc : Services) (laws : IsDocker p) (image : Str) (insecure : Bool) (local_ip : Str)
    (path_of : ℕ → Str) where
  abbrev whole : Services
  whole = program dist p env d svc

  -- What a pull has done: the manifest is the image's and has been verified, the files handed to Docker are
  -- the layers' and finished, and Docker has the image under its name alone.
  pub record Pulled (bars : Bool) (states : List TorrentInfo → Joint) : Type 0 where
    pub torrents : List TorrentInfo
    pub context : DockerContext
    pub named : dist.parse_named image ≡ ok context.named
    pub verified : dist.verify context.v1_manifest ≡ ok tt
    pub repository : Repository
    pub digest : Str
    pub client : IsClientOf dist repository context.named insecure
    pub digested : IsDigest dist repository context.named context.named.digest digest
    pub listed : dist.get_manifest repository digest ≡ ok (signed context.v1_manifest)
    pub paths : Dict Str
    pub complete :
        IsComplete whole context.v1_manifest
          (info_of torrents bars (states torrents).engine)
          context.layers
          paths
    pub present :
        (i : ℕ) (l : LayerInfo)
        → get_elem? context.layers i ≡ some l
        → (b : Str) × (get_elem? context.v1_manifest.fs_layers l.index ≡ some b)
          × ((path : Str) × (lookup b paths ≡ some path))
    pub of_blobs :
        OfBlobs whole context.v1_manifest (info_of torrents bars (states torrents).engine) paths
    pub finished : (k : Str) → FinishedAt path_of (states torrents) (lookup k paths)
    pub daemon : D
    pub loaded :
        docker_load p env context.named context.v1_manifest paths local_ip d ≡ (ok tt, daemon)
    pub id : Str
    pub there : laws.images daemon (name_of context.named) ≡ some id
    pub gone : laws.images daemon (local_name p env context.named local_ip) ≡ none

  module _ (duration : ℤ) (bars : Bool) (states : List TorrentInfo → Joint)
      (reached : (torrents : List TorrentInfo)
        → Reach torrents no_seed duration path_of (states torrents))
      (apart : (named : Named)
        → dist.parse_named image ≡ ok named
        → name_of named ≢ local_name p env named local_ip) where
    retrieve-Pulled :
        (torrents : List TorrentInfo) (ctx : Context)
        → Docker.retrieve whole false image insecure missing_layers ≡ ok (torrents, ctx)
        → Loaded whole local_ip (info_of torrents bars (states torrents).engine) ctx
        → Pulled bars states
    retrieve-Pulled torrents ctx retrieved l =
        let (distinct, manifest) =
          retrieve-Distinct whole image insecure missing_layers torrents l.context (
            subst
              (λ x. Docker.retrieve whole false image insecure missing_layers ≡ ok (torrents, x))
              l.is_context retrieved) in
        let (parsed, (repository, digest, client, digested, listed), verified) =
          download_manifest-IsVerified dist image insecure l.context.named
            (signed l.context.v1_manifest) manifest in
        let d' : D =
          (docker_load p env l.context.named l.context.v1_manifest l.paths local_ip d).1 in
        let success : docker_load p env l.context.named l.context.v1_manifest l.paths local_ip d
            ≡ (ok tt, d') =
          ap (λ x. (x, d')) l.called in
        let (there, gone) =
          docker_load-named p env l.context.named l.context.v1_manifest l.paths local_ip laws
            (apart l.context.named parsed) d d' success in
        record {
          torrents = torrents;
          context = l.context;
          named = parsed;
          verified = verified;
          repository = repository;
          digest = digest;
          client = client;
          digested = digested;
          listed = listed;
          paths = l.paths;
          complete = l.complete;
          present = l.present;
          of_blobs = l.of_blobs;
          finished = λ k.
              finished torrents duration path_of bars distinct (states torrents) (reached torrents)
                whole l.context.v1_manifest k (lookup k l.paths) (l.downloaded k);
          daemon = d';
          loaded = success;
          id = there.0;
          there = there.1;
          gone = gone;
        }

    -- If the command `docker torrent pull` with the program's own packages succeeds, where the downloads
    -- of any torrents are found in a state that the goroutines of `DownloadTorrents` and of the client
    -- reach together, Docker does with names what it documents, libtorrent posts once for each handle that
    -- a torrent is finished, and no name of the image is the one in the local registry, then the manifest
    -- is one that the registry has for the image, signed and verified; each file that was handed to Docker is that
    -- of a handle that libtorrent has posted as finished, and among them are those of all layers of the
    -- context; and Docker has an image under the name of the image and none under that in the local
    -- registry.
    pub pull-Pulled :
        torrent_pull_run
            (docker_handler whole false local_ip)
            (found_in bars states)
            insecure
            (image ∷ [])
          ≡ ok tt
        → Pulled bars states
    unfolding torrent_pull_run
    pull-Pulled e =
        let (found, retrieved, rest) =
          log_fatal-ok_of (Docker.retrieve whole false image insecure missing_layers) _ tt e in
        let info = info_of found.0 bars (states found.0).engine in
        retrieve-Pulled found.0 found.1 retrieved (
          load-Loaded whole local_ip info found.1
            (log_fatal-ok (Docker.load whole false local_ip info found.1) tt rest))

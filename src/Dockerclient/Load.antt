-- ===== src/Dockerclient/Load.antt =====
-- dockerclient/dockerclient.go and dockerload.go: the client of the Docker daemon, and the load of an
-- image by a pull from the local registry. The daemon, `url.Parse`, the files and the listener are
-- parameters; the daemon's state is of any type.
pub mod Names
pub mod Tests
use quayctl.Base.{
  Str, text, str_eq, bad_configuration, Bool, not, ◌&&◌, ◌||◌, [], ◌++◌, Option, none, some,
  Outcome, ok, err, panic, fatal, blocked, ◌>>=◌, ◌>>◌, ◌==◌, if◌then◌else◌,
}
use quayctl.Base.Dict.{Dict}
use quayctl.Engine.{Url, Named, SignedManifest}
use quayctl.Engine.Docker.{tag_or_latest}

-- The variables `DOCKER_HOST` and `DOCKER_CERT_PATH`, empty if they are not set.
pub record Environment : Type 0 where
  pub docker_host : Str
  pub docker_cert_path : Str

-- The transport that `buildTLSTransport` makes: the certificates of the authority, and the key pair.
pub record Transport : Type 0 where
  pub root_cas : Str
  pub certificate : Str

pub record Client : Type 0 where
  pub host : Str
  pub transport : Option Transport

-- The image that the local registry serves: the fields of `localServeDriverFactory`.
pub record Registry : Type 0 where
  pub image : Named
  pub manifest : SignedManifest
  pub layer_paths : Dict Str

-- `docker.PullImageOptions`, less the writer of the log.
pub record PullImageOptions : Type 0 where
  pub repository : Str
  pub registry : Str
  pub tag : Str

-- What the program reads of the configuration of docker/distribution: `HTTP.Net` and `HTTP.Addr`.
pub record HttpConfiguration : Type 0 where
  pub net : Str
  pub addr : Str

-- What the client calls. `new_client` checks an endpoint, and the calls of the daemon leave a new state
-- of it whether they succeed or not. `parse_configuration`, `new_listener` and
-- `new_app`, which makes the driver of the registry, are those of docker/distribution.
pub record Platform (D : Type 0) : Type 0 where
  pub parse_url : Str → Outcome Str Url
  pub url_string : Url → Str
  pub new_client : Str → Outcome Str (Unit {0})
  pub read_file : Str → Outcome Str Str
  pub load_key_pair : Str → Str → Outcome Str Str
  pub inspect_image : Client → Str → D → Outcome Str Str
  pub parse_configuration : Str → Outcome Str HttpConfiguration
  pub new_app : Registry → HttpConfiguration → Outcome Str (Unit {0})
  pub new_listener : Str → Str → Outcome Str (Unit {0})
  pub load_image : Client → Str → D → Outcome Str (Unit {0}) × D
  pub pull_image : Client → PullImageOptions → Registry → D → Outcome Str (Unit {0}) × D
  pub tag_image : Client → Str → Str → Str → D → Outcome Str (Unit {0}) × D
  pub remove_image : Client → Str → D → Outcome Str (Unit {0}) × D

abbrev pub docker_unix_socket : Str
docker_unix_socket = text "unix:///var/run/docker.sock"

-- The configuration that `runRegistry` parses.
abbrev pub registry_configuration : Str
registry_configuration =
    text
      "\nversion: 0.1\nlog:\n  level: error\n  formatter: text\nhttp:\n  addr: localhost:5000\nstorage:\n  localserve:\ncompatibility:\n  schema1:\n    disablesignaturestore: true\n"

-- The next call on the daemon, if the one before succeeded, and its error wrapped if not.
pub then_call :
    {D : Type 0}
    → Str
    → Outcome Str (Unit {0}) × D
    → (D → Outcome Str (Unit {0}) × D)
    → Outcome Str (Unit {0}) × D
then_call w (ok _, d) next = next d
then_call w (err e, d) next = (err (w ++ e), d)
then_call w (panic p, d) next = (panic p, d)
then_call w (fatal e, d) next = (fatal e, d)
then_call w (blocked, d) next = (blocked, d)

module _ {D : Type 0} (p : Platform D) (env : Environment) where
  pub is_local_docker_daemon : Bool
  is_local_docker_daemon = env.docker_host == [] || env.docker_host == docker_unix_socket

  -- The endpoint: the variable with the scheme changed, if there are certificates.
  unfoldable pub docker_endpoint : Outcome Str Str
  docker_endpoint = if env.docker_host == [] then ok docker_unix_socket else (do
    host ← p.parse_url env.docker_host
    ok (
        p.url_string
          (if env.docker_cert_path == [] then host else record host { scheme = text "https" })))

  pub build_tls_transport : Str → Outcome Str Transport
  build_tls_transport base_path = do
    pem_data ← p.read_file (base_path ++ text "/ca.pem")
    crt ← p.load_key_pair (base_path ++ text "/cert.pem") (base_path ++ text "/key.pem")
    ok (record { root_cas = pem_data; certificate = crt })

  unfoldable pub new_docker_client : Outcome Str Client
  unfolding docker_endpoint build_tls_transport
  new_docker_client = do
    docker_host ← docker_endpoint
    p.new_client docker_host
    if env.docker_cert_path == [] then ok (record { host = docker_host; transport = none }) else (do
      transport ← build_tls_transport env.docker_cert_path
      ok (record { host = docker_host; transport = some transport }))

  unfoldable pub has_image : Str → D → Outcome Str Bool
  unfolding new_docker_client
  has_image image_id d = do
    client ← new_docker_client
    found ← p.inspect_image client image_id d
    ok (found == image_id)

  -- `DockerLoadTar` of what a file holds.
  pub docker_load_tar : Str → D → Outcome Str (Unit {0}) × D
  unfolding new_docker_client
  docker_load_tar contents d = elim new_docker_client [
    | ok client ↦
        then_call (text "Could not perform docker-load: ") (p.load_image client contents d)
          (λ d'. (ok tt, d'))
    | err e ↦ (err (text "Could not connect to Docker: " ++ e), d)
    | panic q ↦ (panic q, d)
    | fatal e ↦ (fatal e, d)
    | blocked ↦ (blocked, d)
  ]

  pub local_repository : Named → Str → Str
  local_repository image local_ip = local_ip ++ (text ":5000/" ++ image.remote_name)

  -- `localName`
  pub local_name : Named → Str → Str
  unfolding local_repository
  local_name image local_ip =
      local_repository image local_ip ++ (text ":" ++ tag_or_latest image.tag)

  abbrev pub pull_options : Named → Str → PullImageOptions
  pull_options image local_ip = record {
    repository = local_repository image local_ip;
    registry = local_ip ++ text ":5000";
    tag = tag_or_latest image.tag;
  }

  -- "Untag the image with its temporary name."
  pub untag : Client → Named → Str → D → Outcome Str (Unit {0}) × D
  unfolding then_call
  untag client image local_ip d =
      then_call (text "Error removing older tag in Docker: ")
        (p.remove_image client (local_name image local_ip) d) (λ d'. (ok tt, d'))

  -- "Tag the image to the name expected."
  pub retag : Client → Named → Str → D → Outcome Str (Unit {0}) × D
  unfolding then_call untag
  retag client image local_ip d =
      then_call (text "Error re-tagging image in Docker: ")
        (p.tag_image client (local_name image local_ip) image.full_name (tag_or_latest image.tag) d)
        (untag client image local_ip)

  pub pull_and_tag : Client → Registry → Str → D → Outcome Str (Unit {0}) × D
  unfolding then_call retag
  pull_and_tag client registry local_ip d =
      then_call (text "Error pulling image into Docker: ")
        (p.pull_image client (pull_options registry.image local_ip) registry d)
        (retag client registry.image local_ip)

  -- `runRegistry`, up to `server.Serve`, which serves as long as the program runs.
  unfoldable pub run_registry : Registry → Outcome Str (Unit {0})
  run_registry registry = elim (p.parse_configuration registry_configuration) [
    | ok config ↦ do p.new_app registry config; p.new_listener config.net config.addr
    | err e ↦ panic bad_configuration
    | panic q ↦ panic q
    | fatal e ↦ fatal e
    | blocked ↦ blocked
  ]

  -- The goroutine of the registry runs while the caller sleeps: if it cannot listen, it ends the program.
  pub serve_and_pull : Client → Registry → Str → D → Outcome Str (Unit {0}) × D
  unfolding run_registry pull_and_tag
  serve_and_pull client registry local_ip d = elim (run_registry registry) [
    | ok _ ↦ pull_and_tag client registry local_ip d
    | err e ↦ (fatal (text "Error running local registry: " ++ e), d)
    | panic q ↦ (panic q, d)
    | fatal e ↦ (fatal e, d)
    | blocked ↦ (blocked, d)
  ]

  pub docker_load : Named → SignedManifest → Dict Str → Str → D → Outcome Str (Unit {0}) × D
  unfolding is_local_docker_daemon new_docker_client serve_and_pull
  docker_load image manifest layer_paths local_ip d =
      let registry : Registry = record {
        image = image;
        manifest = manifest;
        layer_paths = layer_paths;
      } in
      if not is_local_docker_daemon && local_ip == text "localhost"
      then (err (text "The `--local-ip` flag is required for non-local Docker daemon"), d)
      else elim new_docker_client [
        | ok client ↦ serve_and_pull client registry local_ip d
        | err e ↦ (err (text "Could not connect to Docker: " ++ e), d)
        | panic q ↦ (panic q, d)
        | fatal e ↦ (fatal e, d)
        | blocked ↦ (blocked, d)
      ]

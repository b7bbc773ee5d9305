-- ===== src/Engine/Docker/Tests.antt =====
-- The Docker handler on an image of three layers, of which Docker has the lowest one.
use quayctl.Base.{
  Str, text, str_eq, str_beq, ℕ, ◌≡◌, refl, true, false, List, [], ◌∷◌, ◌==◌, none, some, map, ok,
  contains,
}
use quayctl.Base.Dict.{lookup}
use quayctl.Base.Nub.{nub}
use quayctl.Engine.{
  DockerContext, docker, missing_layers, Named, SignedManifest, signed, LayerInfo, all_layers,
  TorrentInfo,
}
use quayctl.Commands.Whole.{program}
use quayctl.Dockerdist.{
  DistServices, get_auth_credentials, download_manifest, get_repository_client, get_digest, of_tag,
  verify_signed,
}
use quayctl.Dockerclient.Load.{has_image, new_docker_client, docker_endpoint}
use quayctl.Dockerclient.Load.Tests.{platform, environment, with_blob}
use quayctl.Engine.{nil}
use quayctl.Base.{◌>>=◌}
use quayctl.Engine.Torrent.{info_of}
use quayctl.Engine.Docker.{retrieve_torrents_for_squashed, squashed_url}
use quayctl.Engine.Docker.Squashed.{squashed_pull_loads}
use quayctl.Engine.Torrent.Tests.{
  torrent, squashed_torrent, final_of, squashed-Reach, squashed_complete, two,
}
use quayctl.Engine.Docker.{
  Services, get_layer_info, parent_info, load_layers_from, load_layer_info, missing_loop,
  required_layers_and_blobs, build_torrent_info_for_blob, url_user, url_scheme, torrent_url,
  build_loop, torrents_of_layers, retrieve_from_manifest, retrieve_torrents, retrieve, load,
}
use quayctl.Engine.Docker.Layers.{
  first_layers, missing_count, required_missing, DescribesLayer, load_layer_info-DescribesLayer,
}
use quayctl.Engine.Docker.Torrents.{torrent_of, build_torrent_info-nub}

abbrev pub app : Named
app = record {
  hostname = text "quay";
  remote_name = text "app";
  full_name = text "quay/app";
  tag = none;
  digest = none;
}

abbrev pub manifest : SignedManifest
manifest = record {
  fs_layers = text "a" ∷ text "b" ∷ text "c" ∷ [];
  history = text "3" ∷ text "2" ∷ text "1" ∷ [];
}

-- Docker has the blob `c`, and the id of a layer is its history entry.
abbrev pub services : Services
services = record {
  get_auth_credentials = λ image. (record { username = []; password = [] }, none);
  download_manifest = λ image insecure. ok (app, signed manifest);
  has_image = λ blob. (blob == text "c", none);
  docker_load = λ named m paths ip. ok tt;
  docker_load_tar = λ file. ok tt;
  parse_named = λ image. ok app;
  url_string = λ u. u.path;
  unmarshal_id = λ entry. some entry;
  open_file = λ path. ok path;
}

-- The context that `RetrieveTorrents` returns for the missing layers.
abbrev pub layer : Str → ℕ → Str → LayerInfo
layer entry i parent = record {
  info = record { id = entry };
  layer = entry;
  index = i;
  parent_info = some (record { id = parent });
}

abbrev pub top : LayerInfo
top = layer (text "3") 0 (text "2")

abbrev pub last : LayerInfo
last = record { info = record { id = text "2" }; layer = text "2"; index = 1; parent_info = none }

abbrev pub context : DockerContext
context = record { v1_manifest = manifest; layers = top ∷ last ∷ []; named = app }

pub retrieve-run :
    retrieve services false (text "quay/app") false missing_layers ≡ ok (two, docker context)
unfolding get_layer_info parent_info load_layers_from load_layer_info missing_loop
    required_layers_and_blobs build_torrent_info_for_blob url_user url_scheme torrent_url build_loop
    torrents_of_layers retrieve_from_manifest retrieve_torrents retrieve text str_beq contains
retrieve-run = refl

abbrev pub lowest : LayerInfo
lowest = record { info = record { id = text "1" }; layer = text "1"; index = 2; parent_info = none }

-- The context for all the layers.
abbrev pub context_of_all : DockerContext
context_of_all = record {
  v1_manifest = manifest;
  layers = top ∷ layer (text "2") 1 (text "1") ∷ lowest ∷ [];
  named = app;
}

pub retrieve_all :
    retrieve services false (text "quay/app") false all_layers
    ≡ ok (torrent (text "a") ∷ torrent (text "b") ∷ torrent (text "c") ∷ [], docker context_of_all)
unfolding get_layer_info parent_info load_layers_from load_layer_info missing_loop
    required_layers_and_blobs build_torrent_info_for_blob url_user url_scheme torrent_url build_loop
    torrents_of_layers retrieve_from_manifest retrieve_torrents retrieve text str_beq contains
retrieve_all = refl

required_missing_example :
    required_layers_and_blobs services manifest missing_layers
    ≡ first_layers services manifest (missing_count services manifest.fs_layers)
required_missing_example = required_missing services manifest refl

describes_run : load_layer_info services (text "3" ∷ text "2" ∷ []) ≡ ok (top ∷ last ∷ [])
unfolding get_layer_info parent_info load_layers_from load_layer_info
describes_run = refl

load_layer_info-DescribesLayer_example : DescribesLayer services (text "3" ∷ text "2" ∷ []) 0 0 top
load_layer_info-DescribesLayer_example =
    load_layer_info-DescribesLayer services (text "3" ∷ text "2" ∷ []) (top ∷ last ∷ [])
      describes_run 0 top refl

build_torrent_info-nub_example :
    build_torrent_info_for_blob services app
      (text "a" ∷ text "b" ∷ text "a" ∷ [])
      (record { username = []; password = [] })
      false
    ≡ map
        (torrent_of services app (record { username = []; password = [] }) false)
        (nub (text "a" ∷ text "b" ∷ text "a" ∷ []))
build_torrent_info-nub_example =
    build_torrent_info-nub services app (record { username = []; password = [] }) false
      (text "a" ∷ text "b" ∷ text "a" ∷ [])

-- A registry with the image, and a configuration of Docker without credentials for it.
abbrev pub registry : DistServices
registry = record {
  parse_named = λ image. ok app;
  print_named = λ named. named.full_name;
  parse_url = λ url. ok (record { scheme = text "https"; user = none; host = url; path = [] });
  new_repository = λ repo. ok tt;
  get_tag = λ repo tag. ok (text "sha256:12");
  manifests = λ repo. ok tt;
  get_manifest = λ repo digest. ok (signed manifest);
  verify = λ m. ok tt;
  parse_search_index_info = λ image. ok image;
  load_config = ok (text "config");
  resolve_auth_config = λ config index. record { username = []; password = [] };
}

pub retrieve-program :
    retrieve
      (program registry platform environment with_blob services)
      false
      (text "quay/app")
      false
      missing_layers
    ≡ ok (two, docker context)
unfolding get_layer_info parent_info load_layers_from load_layer_info missing_loop
    required_layers_and_blobs build_torrent_info_for_blob url_user url_scheme torrent_url build_loop
    torrents_of_layers retrieve_from_manifest retrieve_torrents retrieve text str_beq contains
    has_image new_docker_client docker_endpoint lookup get_auth_credentials download_manifest
    get_repository_client get_digest of_tag verify_signed
retrieve-program = refl

-- An image of two layers with digests of SHA-256, of which Docker has none.
abbrev pub digest_manifest : SignedManifest
digest_manifest = record {
  fs_layers = text "sha256:aa" ∷ text "sha256:bb" ∷ [];
  history = text "2" ∷ text "1" ∷ [];
}

abbrev pub digest_registry : DistServices
digest_registry = record registry { get_manifest = λ repo digest. ok (signed digest_manifest) }

abbrev pub digest_context : DockerContext
digest_context = record {
  v1_manifest = digest_manifest;
  layers =
      layer (text "2") 0 (text "1")
      ∷ record { info = record { id = text "1" }; layer = text "1"; index = 1; parent_info = none }
      ∷ [];
  named = app;
}

abbrev pub digest_two : List TorrentInfo
digest_two = torrent (text "sha256:aa") ∷ torrent (text "sha256:bb") ∷ []

pub retrieve-digests :
    retrieve
      (program digest_registry platform environment with_blob services)
      false
      (text "quay/app")
      false
      missing_layers
    ≡ ok (digest_two, docker digest_context)
unfolding get_layer_info parent_info load_layers_from load_layer_info missing_loop
    required_layers_and_blobs build_torrent_info_for_blob url_user url_scheme torrent_url build_loop
    torrents_of_layers retrieve_from_manifest retrieve_torrents retrieve text str_beq contains
    has_image new_docker_client docker_endpoint lookup get_auth_credentials download_manifest
    get_repository_client get_digest of_tag verify_signed
retrieve-digests = refl

squashed-run :
    retrieve services true (text "quay/app") false missing_layers ≡ ok (squashed_torrent ∷ [], nil)
unfolding retrieve retrieve_torrents_for_squashed squashed_url url_user url_scheme text str_beq
squashed-run = refl

squashed_pull_loads_example :
    (path : Str) × (lookup (text "squashed") (final_of squashed_torrent).torrent_paths ≡ some path)
    × (load services true
          (text "localhost")
          (info_of (squashed_torrent ∷ []) true (final_of squashed_torrent))
          nil
        ≡ (services.open_file path >>= services.docker_load_tar))
squashed_pull_loads_example =
    squashed_pull_loads services (text "quay/app") false missing_layers (squashed_torrent ∷ []) nil
      squashed-run none true (final_of squashed_torrent) squashed-Reach squashed_complete
      (text "localhost")

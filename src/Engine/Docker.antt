-- ===== src/Engine/Docker.antt =====
-- engine/docker.go: which torrents an image needs, and how the downloaded image is loaded.
-- The flags `--squashed` and `--local-ip`, global variables there, are arguments here.
pub mod Layers
pub mod Torrents
pub mod Retrieve
pub mod Load
pub mod Loaded
pub mod Waiting
pub mod Squashed
pub mod Tests
use quayctl.Base.{
  Str, text, str_eq, ℕ, suc, ◌+◌, Bool, true, false, List, [], ◌∷◌, ◌++◌, Option, none, some,
  Outcome, ok, err, panic, fatal, blocked, ◌>>=◌, ◌>>◌, or_panic, index_out_of_range,
  type_assertion, wrap_error, ◌==◌, if◌then◌else◌, get_elem?, take, length, contains, not,
}
use quayctl.Base.Dict.{Dict, lookup, insert}
use quayctl.Engine.{
  LayersOption, all_layers, missing_layers, TorrentInfo, Url, Named, SignedManifest, Manifest,
  signed, other, V1LayerInfo, LayerInfo, DockerContext, Context, nil, docker, rkt, AuthConfig,
  Channel, absent, open_channel, closed_channel, DownloadInfo,
}

-- What the handler calls: the packages dockerdist and dockerclient of the program, `url.URL.String`,
-- `reference.ParseNamed`, the JSON decoding of a layer's `id`, and `os.Open`.
pub record Services : Type 0 where
  pub get_auth_credentials : Str → AuthConfig × Option Str
  pub download_manifest : Str → Bool → Outcome Str (Named × Manifest)
  pub has_image : Str → Bool × Option Str
  pub docker_load : Named → SignedManifest → Dict Str → Str → Outcome Str (Unit {0})
  pub docker_load_tar : Str → Outcome Str (Unit {0})
  pub parse_named : Str → Outcome Str Named
  pub url_string : Url → Str
  pub unmarshal_id : Str → Option Str
  pub open_file : Str → Outcome Str Str

abbrev pub tag_or_latest : Option Str → Str
tag_or_latest none = text "latest"
tag_or_latest (some t) = t

module _ (svc : Services) where
  open svc use {
    get_auth_credentials, download_manifest, has_image, docker_load, docker_load_tar, parse_named,
    url_string, unmarshal_id, open_file,
  }

  -- `dockerclient.GetLayerInfo`
  get_layer_info : Str → Outcome Str V1LayerInfo
  get_layer_info v1_compatibility = elim (unmarshal_id v1_compatibility) [
    | none ↦ fatal (text "Could not unmarshal V1 compatibility information")
    | some i ↦ ok (record { id = i })
  ]

  -- The parent of a layer is the next one in the history.
  parent_info : List Str → Outcome Str (Option V1LayerInfo)
  unfolding get_layer_info
  parent_info [] = ok none
  parent_info (parent ∷ rest) = do p ← get_layer_info parent; ok (some p)

  load_layers_from : ℕ → List Str → Outcome Str (List LayerInfo)
  unfolding parent_info
  load_layers_from index [] = ok []
  load_layers_from index (layer ∷ rest) = do
    parent ← parent_info rest
    info ← get_layer_info layer
    more ← load_layers_from (index + 1) rest
    ok (record { info = info; layer = layer; index = index; parent_info = parent } ∷ more)

  pub load_layer_info : List Str → Outcome Str (List LayerInfo)
  unfolding load_layers_from
  load_layer_info layers = load_layers_from 0 layers

  -- The loop over `manifest.History`; `rest` is what is left of it, `blobs` what was collected.
  missing_loop : SignedManifest → List Str → ℕ → List Str → Outcome Str (List LayerInfo × List Str)
  missing_loop manifest [] index blobs = do
    info ← load_layer_info manifest.history
    ok (info, manifest.fs_layers)
  missing_loop manifest (layer ∷ rest) index blobs = do
    blob ← or_panic index_out_of_range (get_elem? manifest.fs_layers index)
    if (has_image blob).0
        then (do info ← load_layer_info (take index manifest.history); ok (info, blobs))
        else missing_loop manifest rest (index + 1) (blobs ++ blob ∷ [])

  pub required_layers_and_blobs :
      SignedManifest → LayersOption → Outcome Str (List LayerInfo × List Str)
  unfolding missing_loop
  required_layers_and_blobs manifest all_layers = do
    info ← load_layer_info manifest.history
    ok (info, manifest.fs_layers)
  required_layers_and_blobs manifest missing_layers = missing_loop manifest manifest.history 0 []

  -- `User` is set only if the user name is not empty.
  url_user : AuthConfig → Option (Str × Str)
  url_user c = if c.username == [] then none else some (c.username, c.password)

  url_scheme : Bool → Str
  url_scheme insecure = if insecure then text "http" else text "https"

  pub torrent_url : Named → AuthConfig → Bool → Str → Url
  unfolding url_user url_scheme
  torrent_url named c insecure blob_sum = record {
    scheme = url_scheme insecure;
    user = url_user c;
    host = named.hostname;
    path = text "/c1/torrent/" ++ named.remote_name ++ text "/blobs/" ++ blob_sum;
  }

  -- The loop over the blobs; `seen` is `blobSet`.
  build_loop : Named → AuthConfig → Bool → List Str → List Str → List TorrentInfo
  unfolding torrent_url
  build_loop named c insecure [] seen = []
  build_loop named c insecure (blob ∷ blobs) seen =
      let skip = build_loop named c insecure blobs seen in
      let keep =
        record {
          id = blob;
          torrent_path = url_string (torrent_url named c insecure blob);
          title = blob;
        }
        ∷ build_loop named c insecure blobs (blob ∷ seen) in
      if contains seen blob then skip else keep

  pub build_torrent_info_for_blob : Named → List Str → AuthConfig → Bool → List TorrentInfo
  unfolding build_loop
  build_torrent_info_for_blob named blobs c insecure = build_loop named c insecure blobs []

  -- The log line and the test that stand between the manifest and the torrents.
  torrents_of_layers :
      Named
      → SignedManifest
      → AuthConfig
      → Bool
      → LayersOption
      → List LayerInfo × List Str
      → List TorrentInfo × Context
  torrents_of_layers named m c insecure missing_layers ([], blobs) = ([], nil)
  torrents_of_layers named m c insecure option (layers, blobs) = (
    build_torrent_info_for_blob named blobs c insecure,
    docker (record { v1_manifest = m; layers = layers; named = named }),
  )

  retrieve_from_manifest :
      AuthConfig → Bool → LayersOption → Named × Manifest → Outcome Str (List TorrentInfo × Context)
  unfolding torrents_of_layers
  retrieve_from_manifest c insecure option (named, other) =
      err (text "only v1 manifests are currently supported")
  retrieve_from_manifest c insecure option (named, signed m) = do
    required ← required_layers_and_blobs m option
    ok (torrents_of_layers named m c insecure option required)

  pub retrieve_torrents : Str → Bool → LayersOption → Outcome Str (List TorrentInfo × Context)
  unfolding retrieve_from_manifest
  retrieve_torrents image insecure option = do
    found ←
        wrap_error (λ e. text "Could not download image manifest: " ++ e)
          (download_manifest image insecure)
    retrieve_from_manifest (get_auth_credentials image).0 insecure option found

  squashed_url : Named → AuthConfig → Bool → Url
  unfolding url_user url_scheme
  squashed_url named c insecure = record {
    scheme = url_scheme insecure;
    user = url_user c;
    host = named.hostname;
    path = text "/c1/squash/" ++ named.remote_name ++ text "/" ++ tag_or_latest named.tag;
  }

  retrieve_torrents_for_squashed : Str → Bool → Outcome Str (List TorrentInfo × Context)
  unfolding squashed_url
  retrieve_torrents_for_squashed image insecure = do
    named ← parse_named image
    let c = (get_auth_credentials image).0
    let torrent : TorrentInfo = record {
      id = text "squashed";
      torrent_path = url_string (squashed_url named c insecure);
      title =
          named.hostname
          ++ text "/"
          ++ named.remote_name
          ++ text ":"
          ++ tag_or_latest named.tag
          ++ text ".squash";
    }
    ok (torrent ∷ [], nil)

  pub retrieve : Bool → Str → Bool → LayersOption → Outcome Str (List TorrentInfo × Context)
  unfolding retrieve_torrents_for_squashed retrieve_torrents
  retrieve squashed image insecure option =
      if squashed
      then retrieve_torrents_for_squashed image insecure
      else retrieve_torrents image insecure option

  -- `<-c`: a receive from a nil channel waits forever, one from a closed channel goes on.
  await : Channel → Outcome Str (Unit {0})
  await closed_channel = ok tt
  await open_channel = blocked
  await absent = blocked

  load_squashed_image : DownloadInfo → Outcome Str (Unit {0})
  unfolding await
  load_squashed_image info = do
    await info.complete
    path ← or_panic type_assertion (lookup (text "squashed") info.torrent_paths)
    file ← open_file path
    docker_load_tar file

  -- The loop that waits for the layers and collects `blobPaths`.
  pub gather : SignedManifest → DownloadInfo → List LayerInfo → Dict Str → Outcome Str (Dict Str)
  unfolding await
  gather m info [] blob_paths = ok blob_paths
  gather m info (layer ∷ layers) blob_paths = do
    blob_sum ← or_panic index_out_of_range (get_elem? m.fs_layers layer.index)
    await (info.downloaded blob_sum)
    blob_path ← or_panic type_assertion (lookup blob_sum info.torrent_paths)
    gather m info layers (insert blob_sum blob_path blob_paths)

  -- `ctx.(dockerContext)`
  docker_context : Context → Option DockerContext
  docker_context nil = none
  docker_context (docker c) = some c
  docker_context (rkt c) = none

  load_image : Str → DownloadInfo → Context → Outcome Str (Unit {0})
  unfolding gather docker_context
  load_image local_ip info ctx = do
    c ← or_panic type_assertion (docker_context ctx)
    blob_paths ← gather c.v1_manifest info c.layers []
    docker_load c.named c.v1_manifest blob_paths local_ip

  pub load : Bool → Str → DownloadInfo → Context → Outcome Str (Unit {0})
  unfolding load_squashed_image load_image
  load squashed local_ip info ctx =
      if squashed then load_squashed_image info else load_image local_ip info ctx

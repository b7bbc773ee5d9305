-- ===== src/Engine/Rkt.antt =====
-- engine/rkt.go: the torrent of an ACI image, and its load by `rkt fetch`. The discovery of images, the
-- rkt commands, the files and HTTP are parameters.
pub mod Pull
pub mod Tests
use quayctl.Base.{
  Str, text, str_eq, Bool, true, false, ◌&&◌, List, [], ◌∷◌, ◌++◌, Option, none, some, Outcome, ok,
  err, panic, fatal, blocked, ◌>>=◌, ◌>>◌, or_panic, wrap_error, index_out_of_range, type_assertion,
  ◌==◌, if◌then◌else◌,
}
use quayctl.Base.Dict.{Dict, lookup, insert}
use quayctl.Engine.{
  TorrentInfo, Url, RktContext, Context, nil, docker, rkt, DownloadInfo, Channel, absent,
  open_channel, closed_channel,
}

pub record RktCredentials : Type 0 where
  pub username : Str
  pub password : Str
  pub token : Str

-- `rktKindAuth` and `rktAuthBasic`, the constants of `rktKind` and `rktAuthType` that the handler looks for.
abbrev pub rkt_kind_auth : Str
rkt_kind_auth = text "auth"

abbrev pub rkt_auth_basic : Str
rkt_auth_basic = text "basic"

pub record Stage0Config : Type 0 where
  pub rkt_kind : Str
  pub domains : List Str
  pub auth_type : Str
  pub credentials : RktCredentials

-- What the handler reads of a `discovery.App` and of an endpoint.
pub record App : Type 0 where
  pub name : Str
  pub labels : Dict Str

pub record Endpoint : Type 0 where
  pub aci : Str
  pub asc : Str

-- What the handler calls: the package discovery, with whether plain HTTP is allowed, `url.Parse` and
-- `String`, the command `rkt config` and the decoding of what it prints, `os.Create`, `http.Get`,
-- `io.Copy`, and the three steps of the command `rkt fetch`.
pub record RktServices : Type 0 where
  pub goarch : Str
  pub goos : Str
  pub new_app_from_string : Str → Outcome Str App
  pub discover_aci_endpoints : App → Bool → Outcome Str (List Endpoint)
  pub app_string : App → Str
  pub parse_url : Str → Outcome Str Url
  pub url_string : Url → Str
  pub rkt_config : Outcome Str Str
  pub unmarshal_config : Str → Outcome Str (List Stage0Config)
  pub create_file : Str → Outcome Str (Unit {0})
  pub http_get : Str → Outcome Str Str
  pub copy_to : Str → Str → Outcome Str (Unit {0})
  pub stderr_pipe : Str → Outcome Str (Unit {0})
  pub start_fetch : Str → Outcome Str (Unit {0})
  pub wait_fetch : Str → Outcome Str (Unit {0})

-- `if _, ok := app.Labels[name]; !ok { app.Labels[name] = value }`
pub default_label : Str → Str → App → App
default_label name value app = elim (lookup name app.labels) [
  | some v ↦ app
  | none ↦ record app { labels = insert name value app.labels }
]

-- `url.UserPassword` of the credentials, set on both URLs.
pub set_user : RktCredentials → Url × Url → Url × Url
set_user c (aci, signature) = (
  record aci { user = some (c.username, c.password) },
  record signature { user = some (c.username, c.password) },
)

-- The loop over `config.Domains`.
pub domains_loop : RktCredentials → List Str → Url × Url → Url × Url
unfolding set_user
domains_loop c [] urls = urls
domains_loop c (domain ∷ rest) urls =
    domains_loop c rest (if domain == urls.0.host then set_user c urls else urls)

-- The loop over `topLevel.Stage0`.
pub credentials_loop : List Stage0Config → Url × Url → Url × Url
unfolding domains_loop
credentials_loop [] urls = urls
credentials_loop (config ∷ rest) urls = credentials_loop rest (
    if config.rkt_kind == rkt_kind_auth && config.auth_type == rkt_auth_basic
    then domains_loop config.credentials config.domains urls
    else urls)

pub set_scheme : Bool → Url → Url
set_scheme insecure url = if insecure then record url { scheme = text "http" } else url

module _ (svc : RktServices) where
  open svc use {
    goarch, goos, new_app_from_string, discover_aci_endpoints, app_string, parse_url, url_string,
    rkt_config, unmarshal_config, create_file, http_get, copy_to, stderr_pipe, start_fetch,
    wait_fetch,
  }

  could_not_download : App → Str → Str
  could_not_download app e = text "Could not download " ++ (app_string app ++ (text ": " ++ e))

  -- The two URLs of the first endpoint.
  pub endpoint_urls : App → Bool → List Endpoint → Outcome Str (Url × Url)
  unfolding could_not_download set_scheme
  endpoint_urls app insecure endpoints = do
    first ← or_panic index_out_of_range (elim endpoints [ [] ↦ none | e ∷ _ ↦ some e ])
    aci ← wrap_error (could_not_download app) (parse_url first.aci)
    signature ← wrap_error (could_not_download app) (parse_url first.asc)
    ok (set_scheme insecure aci, set_scheme insecure signature)

  pub stage0_configs : Outcome Str (List Stage0Config)
  stage0_configs = do
    data_ ← wrap_error (λ e. text "Could call rkt config: " ++ e) rkt_config
    wrap_error (λ e. text "Could unmarshal rkt config data: " ++ e) (unmarshal_config data_)

  pub retrieve : Str → Bool → Outcome Str (List TorrentInfo × Context)
  unfolding default_label endpoint_urls stage0_configs credentials_loop
  retrieve image insecure = do
    parsed ← new_app_from_string image
    let app = default_label (text "os") goos (default_label (text "arch") goarch parsed)
    endpoints ←
        wrap_error (λ e. text "Could not discover " ++ (app_string app ++ (text ": " ++ e)))
          (discover_aci_endpoints app insecure)
    urls ← endpoint_urls app insecure endpoints
    configs ← stage0_configs
    let signed_in = credentials_loop configs urls
    let torrent : TorrentInfo = record {
      id = text "aci";
      torrent_path = url_string signed_in.0;
      title = image;
    }
    ok (torrent ∷ [], rkt (record { signature_url = signed_in.1 }))

  pub download_file : Url → Str → Outcome Str (Unit {0})
  download_file url file_path = do
    create_file file_path
    body ← http_get (url_string url)
    copy_to file_path body

  could_not_load : Str → Str → Str
  could_not_load image e = text "Could not load image " ++ (image ++ (text " into rkt: " ++ e))

  -- `rkt fetch` of a local file.
  pub fetch : Str → Str → Outcome Str (Unit {0})
  unfolding could_not_load
  fetch image path =
      let url : Url = record { scheme = text "file"; user = none; host = []; path = path } in
      do
        wrap_error (could_not_load image) (stderr_pipe (url_string url))
        wrap_error (could_not_load image) (start_fetch (url_string url))
        wrap_error (could_not_load image) (wait_fetch (url_string url))

  -- `ctx.(rktContext)`
  pub rkt_context : Context → Option RktContext
  rkt_context nil = none
  rkt_context (docker c) = none
  rkt_context (rkt c) = some c

  -- `fmt.Sprintf("%s.aci.asc", aciPath)`, with what Go prints for a nil interface.
  pub signature_path : Option Str → Str
  signature_path none = text "%!s(<nil>).aci.asc"
  signature_path (some path) = path ++ text ".aci.asc"

  -- `<-downloadInfo.CompleteChannel`
  pub await_complete : Channel → Outcome Str (Unit {0})
  await_complete closed_channel = ok tt
  await_complete open_channel = blocked
  await_complete absent = blocked

  pub load : Str → DownloadInfo → Context → Outcome Str (Unit {0})
  unfolding await_complete rkt_context signature_path download_file fetch
  load image info ctx = do
    await_complete info.complete
    let aci_path = lookup (text "aci") info.torrent_paths
    c ← or_panic type_assertion (rkt_context ctx)
    wrap_error (λ e. text "Could not download signature for image " ++ (image ++ (text ": " ++ e)))
        (download_file c.signature_url (signature_path aci_path))
    path ← or_panic type_assertion aci_path
    fetch image path

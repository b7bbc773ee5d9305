-- ===== src/Engine/Rkt/Tests.antt =====
-- The rkt handler on an image with credentials.
use quayctl.Base.{
  Str, text, str_eq, str_beq, ◌≡◌, refl, true, List, [], ◌∷◌, ◌++◌, none, some, ok, wrap_error,
  ◌>>◌,
}
use quayctl.Base.Dict.{lookup, insert}
use quayctl.Engine.{Url, RktContext, rkt}
use quayctl.Engine.Torrent.{info_of}
use quayctl.Engine.Torrent.Tests.{aci_torrent, final_of, aci-Reach, aci_complete}
use quayctl.Engine.Rkt.{
  Stage0Config, RktServices, default_label, set_user, domains_loop, credentials_loop, set_scheme,
  endpoint_urls, stage0_configs, retrieve, download_file, fetch, load,
}
use quayctl.Engine.Rkt.Pull.{last_for, with_user, credentials_loop-last, rkt_pull_loads}

abbrev pub config : Str → List Str → Stage0Config
config name domains = record {
  rkt_kind = text "auth";
  domains = domains;
  auth_type = text "basic";
  credentials = record { username = name; password = text "pw"; token = [] };
}

-- The last entry is for another host.
abbrev pub configs : List Stage0Config
configs =
    config (text "first") (text "quay" ∷ [])
    ∷ config (text "second") (text "quay" ∷ text "other" ∷ [])
    ∷ config (text "third") (text "other" ∷ [])
    ∷ []

abbrev pub url : Str → Url
url path = record { scheme = text "https"; user = none; host = text "quay"; path = path }

abbrev pub services : RktServices
services = record {
  goarch = text "amd64";
  goos = text "linux";
  new_app_from_string = λ image. ok (record { name = image; labels = [] });
  discover_aci_endpoints =
      λ app insecure. ok (record { aci = text "/app.aci"; asc = text "/app.asc" } ∷ []);
  app_string = λ app. app.name;
  parse_url = λ s. ok (url s);
  url_string = λ u. u.scheme ++ (text "://" ++ (u.host ++ u.path));
  rkt_config = ok [];
  unmarshal_config = λ s. ok configs;
  create_file = λ name. ok tt;
  http_get = λ u. ok (text "body");
  copy_to = λ name body. ok tt;
  stderr_pipe = λ u. ok tt;
  start_fetch = λ u. ok tt;
  wait_fetch = λ u. ok tt;
}

abbrev pub context : RktContext
context = record {
  signature_url = record {
    scheme = text "http";
    user = some (text "second", text "pw");
    host = text "quay";
    path = text "/app.asc";
  };
}

pub retrieve-run : retrieve services (text "quay/app") true ≡ ok (aci_torrent ∷ [], rkt context)
unfolding retrieve default_label set_user domains_loop credentials_loop set_scheme endpoint_urls
    stage0_configs lookup insert text str_beq
retrieve-run = refl

pub fetch_succeeds :
    (c : RktContext) (path : Str) (w : Str → Str)
    → (wrap_error w (download_file services c.signature_url (path ++ text ".aci.asc"))
        >> fetch services (text "quay/app") path)
      ≡ ok tt
unfolding download_file fetch
fetch_succeeds c path w = refl

credentials_loop-last_example :
    credentials_loop configs (url (text "/app.aci"), url (text "/app.asc"))
    ≡ with_user (last_for (text "quay") configs) (url (text "/app.aci"), url (text "/app.asc"))
credentials_loop-last_example =
    credentials_loop-last configs (url (text "/app.aci")) (url (text "/app.asc"))

rkt_pull_loads_example :
    (c : RktContext) × (path : Str) × (rkt context ≡ rkt c)
    × (lookup (text "aci") (final_of aci_torrent).torrent_paths ≡ some path)
    × (load services
          (text "quay/app")
          (info_of (aci_torrent ∷ []) true (final_of aci_torrent))
          (rkt context)
        ≡ (wrap_error
              (λ e.
                text "Could not download signature for image "
                ++ (text "quay/app" ++ (text ": " ++ e)))
              (download_file services c.signature_url (path ++ text ".aci.asc"))
            >> fetch services (text "quay/app") path))
rkt_pull_loads_example =
    rkt_pull_loads services (text "quay/app") true (aci_torrent ∷ []) (rkt context) retrieve-run
      none true (final_of aci_torrent) aci-Reach aci_complete

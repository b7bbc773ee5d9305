-- ===== src/Dockerdist/Tests.antt =====
-- A registry with one image.
use quayctl.Base.{
  Str, text, str_eq, str_beq, ◌≡◌, refl, false, [], none, some, ok, err, ◌==◌, if◌then◌else◌,
}
use quayctl.Engine.{Named, Manifest, signed}
use quayctl.Dockerdist.{
  unexpected_response, Repository, get_repository_client, DistServices, tag_error, of_tag,
  get_digest, verify_signed, download_manifest, get_auth_credentials, no_credentials,
}
use quayctl.Dockerdist.Manifests.{IsClientOf, IsDigest, IsVerified, download_manifest-IsVerified}

abbrev app : Named
app = record {
  hostname = text "quay";
  remote_name = text "app";
  full_name = text "quay/app";
  tag = none;
  digest = none;
}

abbrev manifest : Manifest
manifest = signed (record { fs_layers = []; history = [] })

abbrev services : DistServices
services = record {
  parse_named = λ image. ok app;
  print_named = λ named. named.full_name;
  parse_url = λ url. ok (record { scheme = text "https"; user = none; host = url; path = [] });
  new_repository = λ repo. ok tt;
  get_tag = λ repo tag.
      if tag == text "latest"
      then ok (text "sha256:12")
      else err (unexpected_response (text "404"));
  manifests = λ repo. ok tt;
  get_manifest = λ repo digest. ok manifest;
  verify = λ m. ok tt;
  parse_search_index_info = λ image. ok image;
  load_config = ok (text "config");
  resolve_auth_config = λ config index. no_credentials;
}

download-run : download_manifest services (text "quay/app") false ≡ ok (app, manifest)
unfolding download_manifest get_repository_client get_digest of_tag verify_signed text str_beq
download-run = refl

download_manifest-IsVerified_example :
    (services.parse_named (text "quay/app") ≡ ok app)
    × ((repo : Repository) × (digest : Str) × IsClientOf services repo app false
        × IsDigest services repo app app.digest digest
        × (services.get_manifest repo digest ≡ ok manifest))
    × IsVerified services manifest
download_manifest-IsVerified_example =
    download_manifest-IsVerified services (text "quay/app") false app manifest download-run

credentials_test :
    get_auth_credentials
      (record services { load_config = err (text "no config") })
      (text "quay/app")
    ≡ (no_credentials, some (text "no config"))
unfolding get_auth_credentials
credentials_test = refl

abbrev client : Repository
client = record {
  name = app;
  index = [];
  url = record { scheme = text "https"; user = none; host = text "quay"; path = [] };
  auth = no_credentials;
  scopes = [];
}

unknown_tag_test :
    get_digest services client (record app { tag = some (text "1") })
    ≡ err (tag_error (unexpected_response (text "404")))
unfolding get_digest of_tag tag_error text str_beq
unknown_tag_test = refl

-- ===== src/Dockerdist.antt =====
-- dockerdist/dockerdist.go: the manifest of an image, and the credentials for its registry. The registry
-- client, the parsing of names and the configuration of Docker are parameters.
pub mod Manifests
mod Tests
use quayctl.Base.{
  Str, text, Bool, List, [], ◌∷◌, ◌++◌, if◌then◌else◌, Option, none, some, Outcome, ok, err, panic,
  fatal, blocked, ◌>>=◌, ◌>>◌,
}
use quayctl.Engine.{Url, Named, Manifest, SignedManifest, signed, other, AuthConfig}
use quayctl.Engine.Docker.{tag_or_latest}

-- An error of the tag service: an `UnexpectedHTTPResponseError`, or another one.
pub data TagError : Type 0 where
  unexpected_response other_error : Str → TagError

-- What `getRepositoryClient` hands to `distribution.NewV2Repository`: the name and its index information,
-- the URL of the endpoint, the credentials and the scopes. The rest of the endpoint is constant.
pub record Repository : Type 0 where
  pub name : Named
  pub index : Str
  pub url : Url
  pub auth : AuthConfig
  pub scopes : List Str

-- The index information and the configurations are kept as the strings that stand for them. A repository
-- client answers by what it was made of; `print_named` is the method `String` of a reference.
pub record DistServices : Type 0 where
  pub parse_named : Str → Outcome Str Named
  pub print_named : Named → Str
  pub parse_url : Str → Outcome Str Url
  pub new_repository : Repository → Outcome Str (Unit {0})
  pub get_tag : Repository → Str → Outcome TagError Str
  pub manifests : Repository → Outcome Str (Unit {0})
  pub get_manifest : Repository → Str → Outcome Str Manifest
  pub verify : SignedManifest → Outcome Str (Unit {0})
  pub parse_search_index_info : Str → Outcome Str Str
  pub load_config : Outcome Str Str
  pub resolve_auth_config : Str → Str → AuthConfig

-- `GetAuthCredentials` returns empty credentials with an error.
abbrev pub no_credentials : AuthConfig
no_credentials = record { username = text ""; password = text "" }

-- The error that `getDigest` returns for one of the tag service.
pub tag_error : TagError → Str
tag_error (unexpected_response e) =
    text
      "Received error when trying to fetch the specified tag: it might not exist or you do not have access"
tag_error (other_error e) = e

unfoldable pub of_tag : Outcome TagError Str → Outcome Str Str
unfolding tag_error
of_tag (ok digest) = ok digest
of_tag (err e) = err (tag_error e)
of_tag (panic p) = panic p
of_tag (fatal e) = fatal (tag_error e)
of_tag blocked = blocked

module _ (svc : DistServices) where
  -- The URL that is parsed for the endpoint of a registry.
  abbrev pub endpoint_url : Bool → Str → Str
  endpoint_url insecure hostname =
      (if insecure then text "http://" else text "https://") ++ hostname

  unfoldable pub get_repository_client : Named → Bool → List Str → Outcome Str Repository
  get_repository_client image insecure scopes = do
    index ← svc.parse_search_index_info (svc.print_named image)
    config ← svc.load_config
    url ← svc.parse_url (endpoint_url insecure image.hostname)
    new_v2_repository (record {
      name = image;
      index = index;
      url = url;
      auth = svc.resolve_auth_config config index;
      scopes = scopes;
    })
    where
      new_v2_repository : Repository → Outcome Str Repository
      new_v2_repository repo = svc.new_repository repo >> ok repo

  unfoldable pub get_digest : Repository → Named → Outcome Str Str
  unfolding of_tag
  get_digest repo image = elim image.digest [
    | some digest ↦ ok digest
    | none ↦ of_tag (svc.get_tag repo (tag_or_latest image.tag))
  ]

  -- The credentials, which are empty after an error.
  unfoldable pub get_auth_credentials : Str → AuthConfig × Option Str
  get_auth_credentials image =
      elim (do
        index ← svc.parse_search_index_info image
        config ← svc.load_config
        ok (svc.resolve_auth_config config index)) [
          | ok c ↦ (c, none)
          | err e ↦ (no_credentials, some e)
          | _ ↦ (no_credentials, none)
        ]

  -- "Verify the manifest if it's signed."
  unfoldable pub verify_signed : Manifest → Outcome Str (Unit {0})
  verify_signed (signed m) = svc.verify m
  verify_signed other = ok tt

  unfoldable pub download_manifest : Str → Bool → Outcome Str (Named × Manifest)
  unfolding get_repository_client get_digest verify_signed
  download_manifest image insecure = do
    named ← svc.parse_named image
    repo ← get_repository_client named insecure (text "pull" ∷ [])
    digest ← get_digest repo named
    svc.manifests repo
    manifest ← svc.get_manifest repo digest
    verify_signed manifest
    ok (named, manifest)

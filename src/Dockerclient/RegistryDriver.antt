-- ===== src/Dockerclient/RegistryDriver.antt =====
-- dockerclient/registrydriver.go and registrydriverfactory.go: a storage driver that holds the paths of
-- one image, and its construction. SHA-256, JSON and the file system are parameters.
pub mod Paths
pub mod Layers
pub mod Serve
pub mod Streams
pub mod Digests
pub mod Tests
use quayctl.Base.{
  Str, text, str_eq, ℕ, Bool, true, false, List, [], ◌∷◌, ◌++◌, Option, none, some, Outcome, ok,
  err, panic, fatal, blocked, wrap_error, ◌>>=◌, or_panic, index_out_of_range, not_supported,
  if◌then◌else◌, slice_from, slice_to, length,
}
use quayctl.Base.Dict.{Dict, lookup, insert}
use quayctl.Base.Int.{ℤ, lt_ℤ}
use quayctl.Engine.{Named, SignedManifest}

pub record LocalServeDriver : Type 0 where
  pub content_paths : Dict Str
  pub external_content_paths : Dict Str

-- The errors of the driver; `failed` is an error of the operating system.
pub data DriverError : Type 0 where
  unknown_file unsupported_method : DriverError
  path_not_found : Str → DriverError
  invalid_offset : Str → ℤ → DriverError
  failed : Str → DriverError

-- `os.OpenFile`: a file, an error that `os.IsNotExist` accepts, or another one.
pub data Opened : Type 0 where
  opened : Opened
  not_exist : Str → Opened
  not_opened : Str → Opened

-- What the driver calls: `hex.EncodeToString` of `sha256.Sum256`, and the files by their names.
pub record Platform : Type 0 where
  pub sha256_hex : Str → Str
  pub open_file : Str → Opened
  pub seek : Str → ℤ → Outcome Str ℤ
  pub file_size : Str → Outcome Str ℕ
  pub marshal_json : SignedManifest → Str

-- `/docker/registry/v2/repositories/%s/%s`
pub link_path : Str → Str → Str
link_path repository location =
    text "/docker/registry/v2/repositories/" ++ (repository ++ (text "/" ++ location))

-- `%s/sha256/%s/link`
pub digest_location : Str → Str → Str
digest_location prefix hex_sha = prefix ++ (text "/sha256/" ++ (hex_sha ++ text "/link"))

-- `/docker/registry/v2/blobs/sha256/%s/%s/data`
pub data_path : Str → Str → Str
data_path start hex_sha =
    text "/docker/registry/v2/blobs/sha256/" ++ (start ++ (text "/" ++ (hex_sha ++ text "/data")))

-- `_manifests/tags/%s/current/link`
pub tag_location : Str → Str
tag_location tag = text "_manifests/tags/" ++ (tag ++ text "/current/link")

pub add_link : Str → Str → Str → LocalServeDriver → LocalServeDriver
unfolding link_path
add_link repository location digest d = record d {
  content_paths = insert (link_path repository location) digest d.content_paths;
}

-- `digest[len("sha256:"):]`
pub hex_of : Str → Outcome DriverError Str
hex_of digest = or_panic index_out_of_range (slice_from 7 digest)

pub add_digest_link : Str → Str → Str → LocalServeDriver → Outcome DriverError LocalServeDriver
unfolding add_link hex_of digest_location
add_digest_link repository prefix digest d = do
  hex_sha ← hex_of digest
  ok (add_link repository (digest_location prefix hex_sha) digest d)

pub add_linked_file :
    Str → Str → Str → Str → LocalServeDriver → Outcome DriverError LocalServeDriver
unfolding add_digest_link data_path
add_linked_file repository prefix digest file_path d = do
  linked ← add_digest_link repository prefix digest d
  hex_sha ← hex_of digest
  start ← or_panic index_out_of_range (slice_to 2 hex_sha)
  ok (record linked {
    external_content_paths =
        insert (data_path start hex_sha) file_path linked.external_content_paths;
  })

-- `fileInfo`
pub record FileInfo : Type 0 where
  pub path : Str
  pub size : ℕ

module _ (p : Platform) where
  -- `fmt.Sprintf("sha256:%s", hexSha)`
  pub digest_of : Str → Str
  digest_of contents = text "sha256:" ++ p.sha256_hex contents

  pub add_linked_data :
      Str → Str → Str → LocalServeDriver → Outcome DriverError (LocalServeDriver × Str)
  unfolding digest_of add_digest_link data_path
  add_linked_data repository prefix contents d = do
    linked ← add_digest_link repository prefix (digest_of contents) d
    start ← or_panic index_out_of_range (slice_to 2 (p.sha256_hex contents))
    ok (
      record linked {
        content_paths =
            insert (data_path start (p.sha256_hex contents)) contents linked.content_paths;
      },
      digest_of contents,
    )

  pub get_content : LocalServeDriver → Str → Outcome DriverError Str
  get_content d path = elim (lookup path d.content_paths) [
    | some contents ↦ ok contents
    | none ↦ err unknown_file
  ]

  -- The name of the file that the returned reader reads, and the position it starts at.
  pub read_stream : LocalServeDriver → Str → ℤ → Outcome DriverError (Str × ℤ)
  read_stream d path offset = elim (lookup path d.external_content_paths) [
    | none ↦ err unknown_file
    | some location ↦ elim (p.open_file location) [
      | not_exist e ↦ err (path_not_found path)
      | not_opened e ↦ err (failed e)
      | opened ↦ elim (p.seek location offset) [
        | ok at ↦ if lt_ℤ at offset then err (invalid_offset path offset) else ok (location, at)
        | err e ↦ err (failed e)
        | panic q ↦ panic q
        | fatal e ↦ fatal (failed e)
        | blocked ↦ blocked
      ]
    ]
  ]

  -- `os.Open` and `Stat` of the file of an external path.
  stat_file : Str → Str → Outcome DriverError FileInfo
  stat_file path location = elim (p.open_file location) [
    | opened ↦ do
      size ← wrap_error failed (p.file_size location)
      ok (record { path = path; size = size })
    | not_exist e ↦ err (failed e)
    | not_opened e ↦ err (failed e)
  ]

  pub stat : LocalServeDriver → Str → Outcome DriverError FileInfo
  unfolding stat_file
  stat d path = elim (lookup path d.content_paths) [
    | some contents ↦ ok (record { path = path; size = length contents })
    | none ↦ elim (lookup path d.external_content_paths) [
      | some location ↦ stat_file path location
      | none ↦ err unknown_file
    ]
  ]

  -- The loop over `factory.layerPaths`.
  pub add_layers : Str → Dict Str → LocalServeDriver → Outcome DriverError LocalServeDriver
  unfolding add_linked_file
  add_layers repository [] d = ok d
  add_layers repository ((digest, location) ∷ rest) d = do
    d' ← add_linked_file repository (text "_layers") digest location d
    add_layers repository rest d'

  pub factory_tag : Named → Str
  factory_tag image = elim image.tag [ none ↦ text "latest" | some tag ↦ tag ]

  -- `localServeDriverFactory.Create`
  pub create : Named → SignedManifest → Dict Str → Outcome DriverError LocalServeDriver
  unfolding add_linked_data add_link tag_location add_layers factory_tag
  create image manifest layer_paths = do
    let empty : LocalServeDriver = record { content_paths = []; external_content_paths = [] }
    added ←
        add_linked_data image.remote_name (text "_manifests/revisions") (p.marshal_json manifest)
          empty
    let tagged = add_link image.remote_name (tag_location (factory_tag image)) added.1 added.0
    add_layers image.remote_name layer_paths tagged

-- The methods of the driver that panic, and `URLFor`.
pub data Unsupported : Type 0 where
  put_content write_stream list move delete url_for : Unsupported

pub call_unsupported : Unsupported → LocalServeDriver → Outcome DriverError LocalServeDriver
call_unsupported url_for d = err unsupported_method
call_unsupported _ d = panic not_supported

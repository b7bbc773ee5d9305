-- ===== src/Dockerclient/RegistryDriver/Tests.antt =====
-- The driver of an image of two layers.
use quayctl.Base.{
  Str, text, str_eq, str_beq, ◌≡◌, refl, [], ◌∷◌, none, ok, err, panic, not_supported, contains,
  arith,
}
use quayctl.Base.Dict.{Dict, lookup, keys}
use quayctl.Base.Int.{pos}
use quayctl.Engine.{Named, SignedManifest}
use quayctl.Dockerclient.RegistryDriver.{
  LocalServeDriver, Platform, opened, create, stat, stat_file, read_stream, call_unsupported,
  url_for, unsupported_method, list,
}
use quayctl.Dockerclient.RegistryDriver.Layers.{digests, layer_data}
use quayctl.Dockerclient.RegistryDriver.Serve.{Serves, create-Serves}
use quayctl.Dockerclient.RegistryDriver.Streams.{create-read_stream}

abbrev pub platform : Platform
platform = record {
  sha256_hex = λ contents. text "abcd";
  open_file = λ location. opened;
  seek = λ location offset. ok offset;
  file_size = λ location. ok 10;
  marshal_json = λ m. text "{}";
}

abbrev app : Named
app = record {
  hostname = text "quay";
  remote_name = text "app";
  full_name = text "quay/app";
  tag = none;
  digest = none;
}

abbrev manifest : SignedManifest
manifest = record { fs_layers = []; history = [] }

abbrev layer_files : Dict Str
layer_files = (text "12", text "/tmp/12") ∷ (text "34", text "/tmp/34") ∷ []

create-Serves_example :
    (d : LocalServeDriver) × (create platform app manifest (digests layer_files) ≡ ok d)
    × Serves platform app manifest layer_files d
unfolding text keys contains str_beq
create-Serves_example =
    create-Serves platform app manifest layer_files (omega arith) (omega arith, (omega arith, tt))
      (refl, (refl, tt))

abbrev one_file : LocalServeDriver
one_file = record {
  content_paths = (text "/link", text "sha256:12") ∷ [];
  external_content_paths = (text "/data", text "/tmp/12") ∷ [];
}

read_stream_run : read_stream platform one_file (text "/data") (pos 3) ≡ ok (text "/tmp/12", pos 3)
unfolding read_stream lookup text str_beq
read_stream_run = refl

create-read_stream_example :
    (d : LocalServeDriver) × (create platform app manifest (digests layer_files) ≡ ok d)
    × (read_stream platform d (layer_data (text "34")) (pos 3) ≡ ok (text "/tmp/34", pos 3))
unfolding text keys contains str_beq lookup
create-read_stream_example =
    create-read_stream platform app manifest layer_files (omega arith)
      (omega arith, (omega arith, tt)) (refl, (refl, tt)) (text "34") (text "/tmp/34") (pos 3)
      (pos 3) refl refl refl refl

stat_content_test :
    stat platform one_file (text "/link") ≡ ok (record { path = text "/link"; size = 9 })
unfolding stat lookup text str_beq
stat_content_test = refl

stat_file_test :
    stat platform one_file (text "/data") ≡ ok (record { path = text "/data"; size = 10 })
unfolding stat stat_file lookup text str_beq
stat_file_test = refl

url_for_test : call_unsupported url_for one_file ≡ err unsupported_method
unfolding call_unsupported
url_for_test = refl

list_test : call_unsupported list one_file ≡ panic not_supported
unfolding call_unsupported
list_test = refl

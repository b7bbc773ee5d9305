-- ===== src/Dockerclient/Load/Tests.antt =====
-- A load into a daemon that keeps a map from names to images.
use quayctl.Base.{
  Str, text, str_eq, str_beq, str_beq_iff, ◌≡◌, ◌≢◌, refl, sym, ap, ◌∙◌, Option-cases, inl, inr, [],
  ◌∷◌, ◌++◌, none, some, Outcome, ok, err, arith, false,
}
use quayctl.Base.Dict.{
  Dict, lookup, insert, erase, lookup-insert_self, lookup-insert_ne, lookup-erase,
}
use quayctl.Engine.{Named, SignedManifest}
use quayctl.Dockerclient.Load.{
  docker_load_tar, Environment, Platform, local_name, local_repository, docker_load,
  is_local_docker_daemon, new_docker_client, docker_endpoint, build_tls_transport, has_image,
  serve_and_pull, pull_and_tag, retag, untag, then_call,
}
use quayctl.Dockerclient.Load.Names.{with_tag, IsDocker, docker_load-others}

abbrev daemon_tag : Str → Str → Str → Dict Str → Outcome Str (Unit {0}) × Dict Str
daemon_tag name repository tag d = elim (lookup name d) [
  | none ↦ (err (text "no such image"), d)
  | some i ↦ (ok tt, insert (with_tag repository tag) i d)
]

abbrev pub platform : Platform (Dict Str)
platform = record {
  parse_url = λ s. ok (record { scheme = text "tcp"; user = none; host = s; path = [] });
  url_string = λ u. u.scheme ++ (text "://" ++ u.host);
  new_client = λ host. ok tt;
  read_file = λ name. ok name;
  load_key_pair = λ cert key. ok cert;
  inspect_image =
      λ c name d. elim (lookup name d) [ none ↦ err (text "no such image") | some i ↦ ok i ];
  parse_configuration = λ yaml. ok (record { net = []; addr = text "localhost:5000" });
  new_app = λ registry config. ok tt;
  new_listener = λ net addr. ok tt;
  load_image = λ c contents d. (ok tt, insert (text "loaded") contents d);
  pull_image = λ c o r d. (ok tt, insert (with_tag o.repository o.tag) (text "sha256:12") d);
  tag_image = λ c name repository tag d. daemon_tag name repository tag d;
  remove_image = λ c name d. (ok tt, erase name d);
}

pub daemon_tag-cases :
    (name repository tag : Str) (d d' : Dict Str)
    → daemon_tag name repository tag d ≡ (ok tt, d')
    → (i : Str) × (lookup name d ≡ some i) × (insert (with_tag repository tag) i d ≡ d')
daemon_tag-cases name repository tag d d' e = elim (Option-cases (lookup name d)) [
  | inl missing ↦ absurd (ground arith)
  | inr (i, found) ↦ (i, found, ground arith)
]

abbrev pub daemon_laws : IsDocker platform
daemon_laws = record {
  images = λ d n. lookup n d;
  pulled = λ c o r d d' e.
      let same : insert (with_tag o.repository o.tag) (text "sha256:12") d ≡ d' = ap (λ x. x.1) e in
      (
        text "sha256:12",
        ap (lookup (with_tag o.repository o.tag)) (sym same) ∙ lookup-insert_self _ _ d,
      );
  pulled_others = λ c o r d d' e n apart.
      let same : insert (with_tag o.repository o.tag) (text "sha256:12") d ≡ d' = ap (λ x. x.1) e in
      ap (lookup n) (sym same) ∙ lookup-insert_ne _ n _ d (λ x. apart (sym x));
  tagged = λ c name repository tag d d' e.
      let (i, found, same) = daemon_tag-cases name repository tag d d' e in
      ap (lookup (with_tag repository tag)) (sym same) ∙ (lookup-insert_self _ i d ∙ sym found);
  tagged_others = λ c name repository tag d d' e n apart.
      let (i, found, same) = daemon_tag-cases name repository tag d d' e in
      ap (lookup n) (sym same) ∙ lookup-insert_ne _ n i d (λ x. apart (sym x));
  removed = λ c name d d' e.
      let same : erase name d ≡ d' = ap (λ x. x.1) e in
      ap (lookup name) (sym same) ∙ ground (arith, lookup-erase name name d, str_beq_iff name name);
  removed_others = λ c name d d' e n apart.
      let same : erase name d ≡ d' = ap (λ x. x.1) e in
      ap (lookup n) (sym same) ∙ ground (arith, lookup-erase name n d, str_beq_iff name n);
}

abbrev pub environment : Environment
environment = record { docker_host = []; docker_cert_path = [] }

abbrev pub app : Named
app = record {
  hostname = text "quay";
  remote_name = text "app";
  full_name = text "quay/app";
  tag = none;
  digest = none;
}

abbrev manifest : SignedManifest
manifest = record { fs_layers = []; history = [] }

abbrev before : Dict Str
before = (text "old:1", text "sha256:34") ∷ []

abbrev pub local_ip : Str
local_ip = text "localhost"

after : Dict Str
unfolding docker_load is_local_docker_daemon new_docker_client docker_endpoint serve_and_pull
    pull_and_tag retag untag then_call local_name local_repository lookup insert erase text str_beq
after = (docker_load platform environment app manifest [] local_ip before).1

after-run : docker_load platform environment app manifest [] local_ip before ≡ (ok tt, after)
unfolding after docker_load is_local_docker_daemon new_docker_client docker_endpoint serve_and_pull
    pull_and_tag retag untag then_call local_name local_repository lookup insert erase text str_beq
after-run = refl

pub names-apart :
    with_tag (text "quay/app") (text "latest") ≢ local_name platform environment app local_ip
unfolding local_name local_repository text
names-apart e = absurd (ground arith)

docker_load-others_example : lookup (text "old:1") after ≡ lookup (text "old:1") before
unfolding local_name local_repository text lookup
docker_load-others_example =
    docker_load-others platform environment app manifest [] local_ip daemon_laws before after
      after-run (text "old:1") (λ e. absurd (ground arith)) (λ e. absurd (ground arith))

-- A name that is not the image's own identifier does not count.
has_image_test : has_image platform environment (text "old:1") before ≡ ok false
unfolding has_image new_docker_client docker_endpoint lookup text str_beq
has_image_test = refl

tls_test :
    new_docker_client platform (record { docker_host = text "h"; docker_cert_path = text "/c" })
    ≡ ok (record {
      host = text "https://h";
      transport = some (record { root_cas = text "/c/ca.pem"; certificate = text "/c/cert.pem" });
    })
unfolding new_docker_client docker_endpoint build_tls_transport text str_beq
tls_test = refl

-- The daemon has the blob `c` as an image.
abbrev pub with_blob : Dict Str
with_blob = (text "c", text "c") ∷ []

pub load_succeeds :
    (m : SignedManifest) (paths : Dict Str)
    → (docker_load platform environment app m paths local_ip with_blob).0 ≡ ok tt
unfolding docker_load is_local_docker_daemon new_docker_client docker_endpoint serve_and_pull
    pull_and_tag retag untag then_call local_name local_repository lookup insert erase text str_beq
load_succeeds m paths = refl

docker_load_tar_test :
    docker_load_tar platform environment (text "tar") with_blob
    ≡ (ok tt, insert (text "loaded") (text "tar") with_blob)
unfolding docker_load_tar new_docker_client docker_endpoint then_call str_beq
docker_load_tar_test = refl

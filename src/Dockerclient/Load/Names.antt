-- ===== src/Dockerclient/Load/Names.antt =====
-- The names that a load leaves in Docker.
use quayctl.Base.{
  Str, text, str_eq, ◌≡◌, ◌≢◌, refl, subst, ◌∙◌, ◌++◌, Option, none, some, Outcome, ok, err, panic,
  fatal, blocked, arith,
}
use quayctl.Base.Dict.{Dict}
use quayctl.Engine.{Named, SignedManifest}
use quayctl.Engine.Docker.{tag_or_latest}
use quayctl.Dockerclient.Load.{
  Environment, Client, Registry, PullImageOptions, Platform, then_call, local_name,
  new_docker_client, pull_and_tag, pull_options, retag, untag, serve_and_pull, docker_load,
}

-- `repository:tag`
abbrev pub with_tag : Str → Str → Str
with_tag repository tag = repository ++ (text ":" ++ tag)

-- What Docker does with names: a pull that succeeds names an image, a tag gives the image of one name
-- another name, a removal takes a name away, and none of them touches any other name.
pub record IsDocker {D : Type 0} (p : Platform D) : Type 0 where
  pub images : D → Str → Option Str
  pub pulled :
      (c : Client) (o : PullImageOptions) (r : Registry) (d d' : D)
      → p.pull_image c o r d ≡ (ok tt, d')
      → (i : Str) × (images d' (with_tag o.repository o.tag) ≡ some i)
  pub pulled_others :
      (c : Client) (o : PullImageOptions) (r : Registry) (d d' : D)
      → p.pull_image c o r d ≡ (ok tt, d')
      → (n : Str) → n ≢ with_tag o.repository o.tag
      → images d' n ≡ images d n
  pub tagged :
      (c : Client) (name repository tag : Str) (d d' : D)
      → p.tag_image c name repository tag d ≡ (ok tt, d')
      → images d' (with_tag repository tag) ≡ images d name
  pub tagged_others :
      (c : Client) (name repository tag : Str) (d d' : D)
      → p.tag_image c name repository tag d ≡ (ok tt, d')
      → (n : Str) → n ≢ with_tag repository tag
      → images d' n ≡ images d n
  pub removed :
      (c : Client) (name : Str) (d d' : D)
      → p.remove_image c name d ≡ (ok tt, d')
      → images d' name ≡ none
  pub removed_others :
      (c : Client) (name : Str) (d d' : D)
      → p.remove_image c name d ≡ (ok tt, d')
      → (n : Str) → n ≢ name
      → images d' n ≡ images d n

-- `repository:tag` of an image.
abbrev pub name_of : Named → Str
name_of image = with_tag image.full_name (tag_or_latest image.tag)

module _ {D : Type 0} where
  then_call-ok :
      (w : Str) (r : Outcome Str (Unit {0}) × D) (next : D → Outcome Str (Unit {0}) × D) (d' : D)
      → then_call w r next ≡ (ok tt, d')
      → (d1 : D) × (r ≡ (ok tt, d1)) × (next d1 ≡ (ok tt, d'))
  unfolding then_call
  then_call-ok w (ok tt, d) next d' e = (d, refl, e)
  then_call-ok w (err x, d) next d' e = absurd (ground arith)
  then_call-ok w (panic x, d) next d' e = absurd (ground arith)
  then_call-ok w (fatal x, d) next d' e = absurd (ground arith)
  then_call-ok w (blocked, d) next d' e = absurd (ground arith)

module _ {D : Type 0} (p : Platform D) (env : Environment) (image : Named)
    (manifest : SignedManifest) (layer_paths : Dict Str) (local_ip : Str) where
  abbrev registry : Registry
  registry = record { image = image; manifest = manifest; layer_paths = layer_paths }

  serve_and_pull-ok :
      (c : Client) (d d' : D)
      → serve_and_pull p env c registry local_ip d ≡ (ok tt, d')
      → pull_and_tag p env c registry local_ip d ≡ (ok tt, d')
  unfolding serve_and_pull
  serve_and_pull-ok c d d' e = ground arith

  docker_load-ok :
      (client : Outcome Str Client) (d d' : D)
      → new_docker_client p env ≡ client
      → docker_load p env image manifest layer_paths local_ip d ≡ (ok tt, d')
      → (c : Client) × (serve_and_pull p env c registry local_ip d ≡ (ok tt, d'))
  unfolding docker_load
  docker_load-ok (ok c) d d' made e = (c, ground arith)
  docker_load-ok (err x) d d' made e = absurd (ground arith)
  docker_load-ok (panic x) d d' made e = absurd (ground arith)
  docker_load-ok (fatal x) d d' made e = absurd (ground arith)
  docker_load-ok blocked d d' made e = absurd (ground arith)

  abbrev temporary : Str
  temporary = local_name p env image local_ip

  -- The three calls of a load that succeeds, and the states between them.
  record Calls (d d' : D) : Type 0 where
    client : Client
    d1 : D
    d2 : D
    pull : p.pull_image client (pull_options p env image local_ip) registry d ≡ (ok tt, d1)
    tag : p.tag_image client temporary image.full_name (tag_or_latest image.tag) d1 ≡ (ok tt, d2)
    remove : p.remove_image client temporary d2 ≡ (ok tt, d')

  docker_load-Calls :
      (d d' : D)
      → docker_load p env image manifest layer_paths local_ip d ≡ (ok tt, d')
      → Calls d d'
  unfolding pull_and_tag retag untag
  docker_load-Calls d d' e =
      let (c, served) = docker_load-ok (new_docker_client p env) d d' refl e in
      let (d1, pull, then_tag) =
        then_call-ok (text "Error pulling image into Docker: ")
          (p.pull_image c (pull_options p env image local_ip) registry d)
          (retag p env c image local_ip) d' (serve_and_pull-ok c d d' served) in
      let (d2, tag, then_remove) =
        then_call-ok (text "Error re-tagging image in Docker: ")
          (p.tag_image c temporary image.full_name (tag_or_latest image.tag) d1)
          (untag p env c image local_ip) d' then_tag in
      let (d3, remove, last) =
        then_call-ok (text "Error removing older tag in Docker: ") (p.remove_image c temporary d2)
          (λ d3. (ok tt, d3)) d' then_remove in
      let same : d3 ≡ d' = ground arith in
      record {
        client = c;
        d1 = d1;
        d2 = d2;
        pull = pull;
        tag = tag;
        remove = subst (λ x. p.remove_image c temporary d2 ≡ (ok tt, x)) same remove;
      }

  -- If `DockerLoad` succeeds, and the name of the image is not that in the local registry, then the name
  -- has an image in Docker, and the name in the local registry has none.
  pub docker_load-named :
      (docker : IsDocker p)
      → name_of image ≢ temporary
      → (d d' : D) → docker_load p env image manifest layer_paths local_ip d ≡ (ok tt, d')
      → ((i : Str) × (docker.images d' (name_of image) ≡ some i))
        × (docker.images d' temporary ≡ none)
  unfolding local_name
  docker_load-named docker apart d d' e =
      let calls = docker_load-Calls d d' e in
      let (i, found) =
        docker.pulled calls.client (pull_options p env image local_ip) registry d calls.d1
          calls.pull in
      let there =
        docker.tagged calls.client temporary image.full_name (tag_or_latest image.tag) calls.d1
          calls.d2 calls.tag in
      let kept = docker.removed_others calls.client temporary calls.d2 d' calls.remove in
      (
        (i, kept (name_of image) apart ∙ (there ∙ found)),
        docker.removed calls.client temporary calls.d2 d' calls.remove,
      )

  -- If `DockerLoad` succeeds, every name but that of the image and that in the local registry has the
  -- image in Docker that it had.
  pub docker_load-others :
      (docker : IsDocker p) (d d' : D)
      → docker_load p env image manifest layer_paths local_ip d ≡ (ok tt, d')
      → (n : Str) → n ≢ name_of image
      → n ≢ temporary
      → docker.images d' n ≡ docker.images d n
  unfolding local_name
  docker_load-others docker d d' e n other apart =
      let calls = docker_load-Calls d d' e in
      docker.removed_others calls.client temporary calls.d2 d' calls.remove n apart
      ∙ (docker.tagged_others calls.client temporary image.full_name (tag_or_latest image.tag)
            calls.d1 calls.d2 calls.tag n other
          ∙ docker.pulled_others calls.client (pull_options p env image local_ip) registry d
              calls.d1 calls.pull n apart)

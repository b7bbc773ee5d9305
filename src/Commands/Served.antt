-- ===== src/Commands/Served.antt =====
-- What the local registry of dockerclient/dockerload.go serves while `docker torrent pull` loads an image: the
-- driver of dockerclient/registrydriverfactory.go on the files of the downloads.
mod Tests
use quayctl.Base.{
  nat_eq, get_elem?, Str, str_eq, ℕ, ◌≤◌, ◌≡◌, ◌≢◌, refl, sym, ap, subst, ◌∙◌, Bool, true, List, [],
  some, ok, length, contains, contains-get_elem?, arith, Distinct,
}
use quayctl.Base.Dict.{Dict, lookup, keys}
use quayctl.Base.Int.{ℤ}
use quayctl.Engine.{TorrentInfo, LayerInfo, Named, SignedManifest}
use quayctl.Engine.Docker.{Services}
use quayctl.Engine.Download.{Joint}
use quayctl.Bittorrent.Client as Client
use quayctl.Dockerclient.Load.{Environment, Platform}
use quayctl.Dockerclient.Load.Names.{IsDocker}
use quayctl.Dockerclient.RegistryDriver as Driver
use quayctl.Dockerclient.RegistryDriver.{LocalServeDriver, create}
use quayctl.Dockerclient.RegistryDriver.Layers.{digests, layer_data}
use quayctl.Dockerclient.RegistryDriver.Serve.{manifest_hex, Serves, create-Serves}
use quayctl.Dockerclient.RegistryDriver.Paths.{sha256_prefix}
use quayctl.Dockerclient.RegistryDriver.Digests.{
  IsDigest, ByHex, keys-ByHex, digests-Distinct, lookup-digests,
}
use quayctl.Dockerdist.{DistServices}
use quayctl.Commands.Whole.{Pulled, FinishedAt}

-- The file that is served for a layer: the data of the layer's digest is a file that libtorrent has posted as finished.
pub record LayerServed (path_of : ℕ → Str) (j : Joint) (m : SignedManifest) (d : LocalServeDriver)
    (layer : LayerInfo) : Type 0 where
  pub blob : Str
  pub is_blob : get_elem? m.fs_layers layer.index ≡ some blob
  pub digest : IsDigest blob
  pub path : Str
  pub external : lookup (layer_data digest.hex) d.external_content_paths ≡ some path
  pub finished : FinishedAt path_of j (some path)

module _ {D : Type 0} (dist : DistServices) (p : Platform D) (env : Environment) (daemon : D)
    (svc : Services) (laws : IsDocker p) (image : Str) (insecure : Bool) (local_ip : Str)
    (path_of : ℕ → Str) (bars : Bool) (states : List TorrentInfo → Joint)
    (files : Driver.Platform) where
  -- If `docker torrent pull` has succeeded, the blobs of the manifest are digests of SHA-256, and so is the digest of
  -- the manifest itself, then the driver that the local registry of that load makes has
  -- for the data of each layer of the context the path of a file that libtorrent has posted as finished.
  pub pull_serves :
      (done : Pulled dist p env daemon svc laws image insecure local_ip path_of bars states)
      → ((b : Str) → contains done.context.v1_manifest.fs_layers b ≡ true → IsDigest b)
      → 2 ≤ length (manifest_hex files done.context.named done.context.v1_manifest)
      → (d : LocalServeDriver) × (create files done.context.named done.context.v1_manifest
            done.paths
          ≡ ok d)
        × ((i : ℕ) (layer : LayerInfo)
            → get_elem? done.context.layers i ≡ some layer
            → LayerServed path_of (states done.torrents) done.context.v1_manifest d layer)
  pull_serves done are_digests long_manifest =
      let by = keys-ByHex done.paths (λ k there. are_digests k (done.of_blobs.listed k there)) in
      let distinct =
        digests-Distinct by.hexes (subst (λ x. Distinct (keys x)) by.same done.of_blobs.distinct) in
      let (d, created, serves) =
        create-Serves files done.context.named done.context.v1_manifest by.hexes long_manifest
          by.long distinct in
      (
        d,
        ap (create files done.context.named done.context.v1_manifest) by.same ∙ created,
        λ i layer at.
            let (b, is_blob, (path, there)) = done.present i layer at in
            let digest =
              are_digests b
                (contains-get_elem? done.context.v1_manifest.fs_layers layer.index b is_blob) in
            let here : lookup digest.hex by.hexes ≡ some path =
              sym (lookup-digests by.hexes digest.hex)
              ∙ ap (λ k. lookup k (digests by.hexes)) (sym digest.same)
              ∙ ap (lookup b) (sym by.same)
              ∙ there in
            record {
              blob = b;
              is_blob = is_blob;
              digest = digest;
              path = path;
              external = (serves.layers digest.hex path here).1;
              finished = subst (FinishedAt path_of (states done.torrents)) there (done.finished b);
            },
      )

-- ===== src/Dockerclient/RegistryDriver/Serve.antt =====
-- What the driver that `Create` builds serves: the tag, the manifest and the layers of the image.
use quayctl.Base.{
  Str, text, str_eq, ◌≤◌, ◌≡◌, sym, ◌∙◌, [], ◌++◌, some, ok, length, take, All, Distinct,
}
use quayctl.Base.Dict.{Dict, lookup, insert, keys, lookup-insert_self, lookup-insert_ne}
use quayctl.Engine.{Named, SignedManifest}
use quayctl.Dockerclient.RegistryDriver.{
  LocalServeDriver, Platform, link_path, digest_location, data_path, tag_location, add_link,
  add_digest_link, digest_of, add_linked_data, add_layers, factory_tag, create, get_content,
}
use quayctl.Dockerclient.RegistryDriver.Paths.{
  sha256_prefix, link_path_inj, link_path-ne-data_path, revision-ne-tag, layer-ne-tag,
  layer-ne-revision, hex_of-digest, slice_to_two,
}
use quayctl.Dockerclient.RegistryDriver.Layers.{
  digests, layer_location, layer_data, IsLong, IsLong-lookup, Added, add_layers-Added,
}

module _ (p : Platform) (image : Named) (manifest : SignedManifest) where
  abbrev repository : Str
  repository = image.remote_name

  abbrev manifest_json : Str
  manifest_json = p.marshal_json manifest

  abbrev pub manifest_hex : Str
  manifest_hex = p.sha256_hex manifest_json

  abbrev revision : Str
  revision = digest_location (text "_manifests/revisions") manifest_hex

  -- The driver before the loop over the layers.
  abbrev with_manifest : LocalServeDriver
  with_manifest = record {
    content_paths =
        insert (link_path repository (tag_location (factory_tag p image)))
          (sha256_prefix ++ manifest_hex)
          (insert (data_path (take 2 manifest_hex) manifest_hex) manifest_json
            (insert (link_path repository revision) (sha256_prefix ++ manifest_hex) []));
    external_content_paths = [];
  }

  -- What the registry asks the driver for: the link of the tag and that of the revision hold the digest
  -- of the manifest, the data of that digest is the manifest, the link of each layer holds the digest of
  -- the layer, and the data of the layer is the downloaded file.
  pub record Serves (hs : Dict Str) (d : LocalServeDriver) : Type 0 where
    pub tag :
        get_content p d (link_path repository (tag_location (factory_tag p image)))
        ≡ ok (digest_of p manifest_json)
    pub revision_link :
        get_content p d (link_path repository revision) ≡ ok (digest_of p manifest_json)
    pub manifest_data :
        get_content p d (data_path (take 2 manifest_hex) manifest_hex) ≡ ok manifest_json
    pub layers :
        (h l : Str)
        → lookup h hs ≡ some l
        → (get_content p d (link_path repository (layer_location h)) ≡ ok (sha256_prefix ++ h))
          × (lookup (layer_data h) d.external_content_paths ≡ some l)

  create_lem :
      (layer_paths : Dict Str)
      → 2 ≤ length manifest_hex
      → create p image manifest layer_paths ≡ add_layers p repository layer_paths with_manifest
  unfolding create add_linked_data digest_of add_digest_link add_link
  create_lem layer_paths long = simp (hex_of-digest manifest_hex, slice_to_two manifest_hex long)

  get_content_of_lookup :
      (d : LocalServeDriver) (path c : Str)
      → lookup path d.content_paths ≡ some c
      → get_content p d path ≡ ok c
  unfolding get_content
  get_content_of_lookup d path c e = rw (e, get_content)

  Added-Serves :
      (hs : Dict Str) (d : LocalServeDriver)
      → All IsLong hs
      → Added repository hs with_manifest d
      → Serves hs d
  unfolding digest_of
  Added-Serves hs d long a = record {
    tag = get_content_of_lookup d _ _ (
        a.kept (tag_location (factory_tag p image)) (λ h. layer-ne-tag h _)
        ∙ lookup-insert_self _ _ _);
    revision_link = get_content_of_lookup d _ _ (
        a.kept revision (λ h. layer-ne-revision h _)
        ∙ (lookup-insert_ne _ _ _ _
              (λ e. revision-ne-tag _ _ (sym (link_path_inj repository _ _ e)))
            ∙ (lookup-insert_ne _ _ _ _ (λ e. link_path-ne-data_path _ _ _ _ (sym e))
                ∙ lookup-insert_self _ _ _)));
    manifest_data = get_content_of_lookup d _ _ (
        a.kept_data _ _
        ∙ (lookup-insert_ne _ _ _ _ (link_path-ne-data_path _ _ _ _) ∙ lookup-insert_self _ _ _));
    layers = λ h l e. (
      get_content_of_lookup d _ _ (a.links h ∙ rw e),
      a.files h (IsLong-lookup hs h l long e) ∙ rw e,
    );
  }

  -- If the hexadecimal SHA-256 of the manifest has at least two digits, and the layers are given
  -- by distinct digests of that form, then `Create` succeeds, and its driver holds the digest of
  -- the manifest at the links of the tag and of the revision, the manifest as the data of that
  -- digest, and for each layer its digest at its link and its file as its data.
  pub create-Serves :
      (hs : Dict Str)
      → 2 ≤ length manifest_hex
      → All IsLong hs
      → Distinct (keys hs)
      → (d : LocalServeDriver) × (create p image manifest (digests hs) ≡ ok d) × Serves hs d
  create-Serves hs long_manifest long distinct =
      let (d, same, a) = add_layers-Added repository p hs with_manifest long distinct in
      (d, create_lem (digests hs) long_manifest ∙ same, Added-Serves hs d long a)

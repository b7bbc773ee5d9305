-- ===== src/Engine/Docker/Retrieve.antt =====
-- What `retrieveTorrents` of engine/docker.go returns, as `loadImage` takes it.
use native.Mathlib.Nat.{zero-add}
use quayctl.Base.{
  ◌⊎◌, inl, inr, Str, str_eq, ℕ, ◌≤◌, ◌<◌, ◌≡◌, refl, sym, ap, ◌∙◌, Bool, true, false, List, [],
  ◌∷◌, some, map, Outcome, ok, ◌>>=◌, >>=-eq-ok, wrap_error, wrap_error-ok, get_elem?, take, length,
  contains, Distinct, contains-get_elem?, arith, get_elem?_of_lt, lt_of_get_elem?, get_elem?-take,
  length-take_of_le, take_all,
}
use quayctl.Base.Nub.{nub, contains-nub, nub-Distinct}
use quayctl.Engine.{
  ids, LayersOption, all_layers, missing_layers, TorrentInfo, Named, SignedManifest, Manifest,
  signed, other, LayerInfo, DockerContext, Context, nil, docker, AuthConfig,
}
use quayctl.Engine.Docker.{
  Services, load_layer_info, required_layers_and_blobs, missing_loop, torrents_of_layers,
  retrieve_from_manifest, retrieve_torrents, retrieve,
}
use quayctl.Engine.Docker.Layers.{
  missing_count, first_layers, required_missing, load_layer_info-DescribesLayer,
  length-load_layer_info,
}
use quayctl.Engine.Docker.Torrents.{torrent_of, build_torrent_info-nub}

ids-torrent_of :
    (svc : Services) (named : Named) (c : AuthConfig) (insecure : Bool) (bs : List Str)
    → ids (map (torrent_of svc named c insecure) bs) ≡ bs
ids-torrent_of svc named c insecure [] = refl
ids-torrent_of svc named c insecure (b ∷ bs) = ap (◌∷◌ b) (ids-torrent_of svc named c insecure bs)

missing_count-le : (svc : Services) (bs : List Str) → missing_count svc bs ≤ length bs
missing_count-le svc [] = omega arith
missing_count-le svc (b ∷ bs) = ground (arith, missing_count-le svc bs)

-- The blob of a layer, among the blobs to download.
abbrev pub HasBlob : SignedManifest → List Str → LayerInfo → Type 0
HasBlob m blobs l = (b : Str) × (get_elem? m.fs_layers l.index ≡ some b) × (contains blobs b ≡ true)

module _ (svc : Services) (m : SignedManifest)
    (aligned : length m.history ≡ length m.fs_layers) where
  required_first_layers :
      (option : LayersOption)
      → (n : ℕ) × (n ≤ length m.fs_layers)
        × (required_layers_and_blobs svc m option ≡ first_layers svc m n)
  unfolding required_layers_and_blobs
  required_first_layers all_layers = (
    length m.fs_layers,
    omega arith,
    rw (take_all m.fs_layers) (rw (← aligned) (rw (take_all m.history))),
  )
  required_first_layers missing_layers = (
    missing_count svc m.fs_layers,
    missing_count-le svc m.fs_layers,
    required_missing svc m aligned,
  )

  required-HasBlob :
      (option : LayersOption) (infos : List LayerInfo) (blobs : List Str)
      → required_layers_and_blobs svc m option ≡ ok (infos, blobs)
      → (i : ℕ) (l : LayerInfo) → get_elem? infos i ≡ some l
      → HasBlob m blobs l
  required-HasBlob option infos blobs e i l h =
      let (n, small, first) = required_first_layers option in
      let (infos', loaded, same) =
        >>=-eq-ok (load_layer_info svc (take n m.history)) _ (sym first ∙ e) in
      let infos_eq : infos' ≡ infos = cc in
      let here : i < n = omega (
        arith,
        lt_of_get_elem? infos i l h,
        length-load_layer_info svc (take n m.history) infos (loaded ∙ ap ok infos_eq),
        length-take_of_le n m.history,
      ) in
      let d =
        load_layer_info-DescribesLayer svc (take n m.history) infos (loaded ∙ ap ok infos_eq) i l
          h in
      let (b, found) = get_elem?_of_lt m.fs_layers i (omega arith) in
      let at_i : l.index ≡ i = d.index ∙ zero-add i in
      let blobs_eq : take n m.fs_layers ≡ blobs = cc in
      (
        b,
        rw at_i found,
        contains-get_elem? blobs i b
            (rw (← blobs_eq) (get_elem?-take n m.fs_layers i here ∙ found)),
      )

-- What `loadImage` relies on: the ids are distinct, and every layer that it loads has a blob in the
-- manifest whose digest is the id of a torrent.
pub record Loadable (torrents : List TorrentInfo) (c : DockerContext) : Type 0 where
  pub distinct : Distinct (ids torrents)
  pub covered :
      (i : ℕ) (l : LayerInfo)
      → get_elem? c.layers i ≡ some l
      → HasBlob c.v1_manifest (ids torrents) l

module _ (svc : Services) (image : Str) (insecure : Bool) (option : LayersOption) where
  abbrev credentials : AuthConfig
  credentials = (svc.get_auth_credentials image).0

  -- The parts of a successful `retrieveTorrents`.
  record Retrieved (torrents : List TorrentInfo) (ctx : Context) : Type 0 where
    named : Named
    manifest : SignedManifest
    infos : List LayerInfo
    blobs : List Str
    found : svc.download_manifest image insecure ≡ ok (named, signed manifest)
    required : required_layers_and_blobs svc manifest option ≡ ok (infos, blobs)
    result :
        torrents_of_layers svc named manifest credentials insecure option (infos, blobs)
        ≡ (torrents, ctx)

  retrieve_from-Retrieved :
      (r : Outcome Str (Named × Manifest)) (torrents : List TorrentInfo) (ctx : Context)
      → ((found : Named × Manifest)
          → r ≡ ok found
          → svc.download_manifest image insecure ≡ ok found)
      → (r >>= retrieve_from_manifest svc credentials insecure option) ≡ ok (torrents, ctx)
      → Retrieved torrents ctx
  unfolding retrieve_from_manifest
  retrieve_from-Retrieved (ok (named, signed m)) torrents ctx source h =
      let (found, required, same) = >>=-eq-ok (required_layers_and_blobs svc m option) _ h in
      record {
        named = named;
        manifest = m;
        infos = found.0;
        blobs = found.1;
        found = source (named, signed m) refl;
        required = required;
        result = cc;
      }
  retrieve_from-Retrieved (ok (named, other)) torrents ctx source h = cc
  retrieve_from-Retrieved _ torrents ctx source h = cc

  retrieve-Retrieved :
      (torrents : List TorrentInfo) (ctx : Context)
      → retrieve svc false image insecure option ≡ ok (torrents, ctx)
      → Retrieved torrents ctx
  unfolding retrieve retrieve_torrents
  retrieve-Retrieved torrents ctx =
      retrieve_from-Retrieved (wrap_error _ (svc.download_manifest image insecure)) torrents ctx
        (wrap_error-ok _ (svc.download_manifest image insecure))

  torrents_of_layers_docker :
      (option' : LayersOption) (named : Named) (m : SignedManifest) (infos : List LayerInfo)
      (blobs : List Str) (torrents : List TorrentInfo) (c : DockerContext)
      → torrents_of_layers svc named m credentials insecure option' (infos, blobs)
        ≡ (torrents, docker c)
      → (torrents ≡ map (torrent_of svc named credentials insecure) (nub blobs))
        × (c ≡ record { v1_manifest = m; layers = infos; named = named })
  unfolding torrents_of_layers
  torrents_of_layers_docker missing_layers named m [] blobs torrents c e = cc
  torrents_of_layers_docker missing_layers named m (i ∷ is) blobs torrents c e =
      ground (arith, build_torrent_info-nub svc named credentials insecure blobs)
  torrents_of_layers_docker all_layers named m infos blobs torrents c e =
      ground (arith, build_torrent_info-nub svc named credentials insecure blobs)

  torrents_of_layers-context :
      (option' : LayersOption) (named : Named) (m : SignedManifest) (infos : List LayerInfo)
      (blobs : List Str) (torrents : List TorrentInfo) (ctx : Context)
      → torrents_of_layers svc named m credentials insecure option' (infos, blobs) ≡ (torrents, ctx)
      → ((torrents ≡ []) × (ctx ≡ nil)) ⊎ ((c : DockerContext) × (ctx ≡ docker c))
  unfolding torrents_of_layers
  torrents_of_layers-context missing_layers named m [] blobs torrents ctx e = inl (cc, cc)
  torrents_of_layers-context missing_layers named m (i ∷ is) blobs torrents ctx e =
      inr (_, sym (ap (λ x. x.1) e))
  torrents_of_layers-context all_layers named m infos blobs torrents ctx e =
      inr (_, sym (ap (λ x. x.1) e))

  -- `retrieveTorrents` returns no torrents and a nil context, or a context of Docker.
  pub retrieve-context :
      (torrents : List TorrentInfo) (ctx : Context)
      → retrieve svc false image insecure option ≡ ok (torrents, ctx)
      → ((torrents ≡ []) × (ctx ≡ nil)) ⊎ ((c : DockerContext) × (ctx ≡ docker c))
  retrieve-context torrents ctx e =
      let r = retrieve-Retrieved torrents ctx e in
      torrents_of_layers-context option r.named r.manifest r.infos r.blobs torrents ctx r.result

  -- If `retrieveTorrents` returns a context, no id occurs twice among the torrents, and the context has the
  -- name and the manifest of the image.
  pub retrieve-Distinct :
      (torrents : List TorrentInfo) (c : DockerContext)
      → retrieve svc false image insecure option ≡ ok (torrents, docker c)
      → Distinct (ids torrents)
        × (svc.download_manifest image insecure ≡ ok (c.named, signed c.v1_manifest))
  retrieve-Distinct torrents c e =
      let r = retrieve-Retrieved torrents (docker c) e in
      let (built, context) =
        torrents_of_layers_docker option r.named r.manifest r.infos r.blobs torrents c r.result in
      let names : ids torrents ≡ nub r.blobs =
        rw built (ids-torrent_of svc r.named credentials insecure (nub r.blobs)) in
      (rw names (nub-Distinct r.blobs), ground (arith, r.found, context))

  -- If `retrieveTorrents` returns a context, and the manifest that the context holds has a blob for
  -- each history entry, then no id occurs twice among the torrents, and each layer of the context has
  -- a blob in the manifest that is the id of one of the torrents.
  pub retrieve-Loadable :
      (torrents : List TorrentInfo) (c : DockerContext)
      → retrieve svc false image insecure option ≡ ok (torrents, docker c)
      → length c.v1_manifest.history ≡ length c.v1_manifest.fs_layers
      → Loadable torrents c
  retrieve-Loadable torrents c e aligned =
      let r = retrieve-Retrieved torrents (docker c) e in
      let (built, context) =
        torrents_of_layers_docker option r.named r.manifest r.infos r.blobs torrents c r.result in
      let names : ids torrents ≡ nub r.blobs =
        rw built (ids-torrent_of svc r.named credentials insecure (nub r.blobs)) in
      let same : r.manifest ≡ c.v1_manifest = sym (ap DockerContext.v1_manifest context) in
      let layers : c.layers ≡ r.infos = ap DockerContext.layers context in
      record {
        distinct = rw names (nub-Distinct r.blobs);
        covered = λ i l h.
            let (b, found, wanted) =
              required-HasBlob svc r.manifest (rw same aligned) option r.infos r.blobs r.required i
                l (rw (← layers) h) in
            (b, rw (← same) found, rw names (contains-nub r.blobs b ∙ wanted));
      }

  -- The image whose layers Docker has already, from the top one down.
  pub retrieve_none_missing :
      (named : Named) (m : SignedManifest) (top : Str) (history below : List Str) (blob : Str)
      → svc.download_manifest image insecure ≡ ok (named, signed m)
      → m.history ≡ top ∷ history
      → m.fs_layers ≡ blob ∷ below
      → (svc.has_image blob).0 ≡ true
      → option ≡ missing_layers
      → retrieve svc false image insecure option ≡ ok ([], nil)
  unfolding retrieve retrieve_torrents retrieve_from_manifest required_layers_and_blobs missing_loop
      torrents_of_layers load_layer_info
  retrieve_none_missing named m top history below blob found eh ef here eo =
      simp (found, eo, eh, ef, here)

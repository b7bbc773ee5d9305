-- ===== src/Engine/Docker/Loaded.antt =====
-- A `LoadImage` of the Docker handler that succeeds: what it has waited for, and what it has handed on.
use quayctl.Base.{
  Distinct, true, contains, contains-get_elem?, ◌∙◌, Str, str_eq, str_beq_iff, ℕ, zero, suc, ◌≡◌,
  refl, subst, false, List, [], ◌∷◌, Option, none, some, ok, >>=-eq-ok, or_panic, or_panic-ok,
  index_out_of_range, type_assertion, get_elem?, arith, Bool-cases, ◌==◌, inl, inr,
}
use quayctl.Base.Dict.{
  Dict, lookup, insert, lookup-insert, keys, keys_erase-Distinct, erase_no_key, contains-keys-erase,
}
use quayctl.Engine.{
  SignedManifest, LayerInfo, DockerContext, Context, nil, docker, rkt, DownloadInfo, Channel,
  absent, open_channel, closed_channel,
}
use quayctl.Engine.Docker.{Services, await, gather, docker_context, load_image, load}
use quayctl.Engine.Docker.Load.{IsReady, IsComplete, gather-Gathered}

module _ (svc : Services) (m : SignedManifest) (info : DownloadInfo) where
  -- An entry of a map of paths is the path of a torrent that was downloaded.
  abbrev pub DownloadedAt : Str → Option Str → Type 0
  DownloadedAt k none = Unit
  DownloadedAt k (some p) =
      (info.downloaded k ≡ closed_channel) × (lookup k info.torrent_paths ≡ some p)

  await-closed : (c : Channel) (u : Unit {0}) → await svc c ≡ ok u → c ≡ closed_channel
  unfolding await
  await-closed closed_channel u e = refl
  await-closed open_channel u e = cc
  await-closed absent u e = cc

  -- The step of the loop for the first layer.
  record FirstLayer (layer : LayerInfo) (layers : List LayerInfo) (acc d : Dict Str) : Type 0 where
    blob : Str
    found : get_elem? m.fs_layers layer.index ≡ some blob
    ready : IsReady info blob
    rest : gather svc m info layers (insert blob ready.path acc) ≡ ok d

  gather-FirstLayer :
      (layer : LayerInfo) (layers : List LayerInfo) (acc d : Dict Str)
      → gather svc m info (layer ∷ layers) acc ≡ ok d
      → FirstLayer layer layers acc d
  unfolding gather
  gather-FirstLayer layer layers acc d e =
      let (b, found, r1) =
        >>=-eq-ok (or_panic index_out_of_range (get_elem? m.fs_layers layer.index)) _ e in
      let (u, waited, r2) = >>=-eq-ok (await svc (info.downloaded b)) _ r1 in
      let (p, there, r3) = >>=-eq-ok (or_panic type_assertion (lookup b info.torrent_paths)) _ r2 in
      record {
        blob = b;
        found = or_panic-ok index_out_of_range (get_elem? m.fs_layers layer.index) b found;
        ready = record {
          closed = await-closed (info.downloaded b) u waited;
          path = p;
          recorded = or_panic-ok type_assertion (lookup b info.torrent_paths) p there;
        };
        rest = r3;
      }

  -- The layer at a position is ready, if all the layers could be gathered.
  gather-IsReady :
      (layers : List LayerInfo) (acc d : Dict Str)
      → gather svc m info layers acc ≡ ok d
      → (i : ℕ) (l : LayerInfo) → get_elem? layers i ≡ some l
      → (b : Str) × (get_elem? m.fs_layers l.index ≡ some b) × IsReady info b
  gather-IsReady [] acc d e i l h = cc
  gather-IsReady (layer ∷ layers) acc d e zero l h =
      let f = gather-FirstLayer layer layers acc d e in
      let same : layer ≡ l = cc in (f.blob, rw (← same) f.found, f.ready)
  gather-IsReady (layer ∷ layers) acc d e (suc i) l h =
      let f = gather-FirstLayer layer layers acc d e in
      gather-IsReady layers (insert f.blob f.ready.path acc) d f.rest i l h

  -- All entries of a map of paths are those of torrents that were downloaded.
  abbrev pub AllDownloadedIn : Dict Str → Type 0
  AllDownloadedIn d = (k : Str) → DownloadedAt k (lookup k d)

  insert-AllDownloadedIn :
      (b : Str) (r : IsReady info b) (acc : Dict Str)
      → AllDownloadedIn acc
      → AllDownloadedIn (insert b r.path acc)
  insert-AllDownloadedIn b r acc all k = elim (Bool-cases (b == k)) [
    | inl same ↦
        let here : b ≡ k = (str_beq_iff b k).0 same in
        let now : some r.path ≡ lookup k (insert b r.path acc) =
          ground (arith, lookup-insert b k r.path acc, same) in
        subst (DownloadedAt k) now
          (subst (λ x. DownloadedAt x (some r.path)) here (r.closed, r.recorded))
    | inr other ↦
        let now : lookup k acc ≡ lookup k (insert b r.path acc) =
          ground (arith, lookup-insert b k r.path acc, other) in
        subst (DownloadedAt k) now (all k)
  ]

  gather-AllDownloadedIn :
      (layers : List LayerInfo) (acc d : Dict Str)
      → gather svc m info layers acc ≡ ok d
      → AllDownloadedIn acc
      → AllDownloadedIn d
  unfolding gather
  gather-AllDownloadedIn [] acc d e all = subst AllDownloadedIn (ground (arith, e)) all
  gather-AllDownloadedIn (layer ∷ layers) acc d e all =
      let f = gather-FirstLayer layer layers acc d e in
      gather-AllDownloadedIn layers (insert f.blob f.ready.path acc) d f.rest
        (insert-AllDownloadedIn f.blob f.ready acc all)

  -- A map of paths has each key once, and each of them is a blob of the manifest.
  pub record OfBlobs (d : Dict Str) : Type 0 where
    pub distinct : Distinct (keys d)
    pub listed : (k : Str) → contains (keys d) k ≡ true → contains m.fs_layers k ≡ true

  insert-OfBlobs :
      (b p : Str) (d : Dict Str)
      → contains m.fs_layers b ≡ true
      → OfBlobs d
      → OfBlobs (insert b p d)
  unfolding insert keys contains
  insert-OfBlobs b p d there of_blobs = record {
    distinct = (erase_no_key b d, keys_erase-Distinct b d of_blobs.distinct);
    listed =
        λ k h. ground (arith, str_beq_iff k b, there, contains-keys-erase b k d, of_blobs.listed k);
  }

  gather-OfBlobs :
      (layers : List LayerInfo) (acc d : Dict Str)
      → gather svc m info layers acc ≡ ok d
      → OfBlobs acc
      → OfBlobs d
  unfolding gather
  gather-OfBlobs [] acc d e of_blobs = subst OfBlobs (ground (arith, e)) of_blobs
  gather-OfBlobs (layer ∷ layers) acc d e of_blobs =
      let f = gather-FirstLayer layer layers acc d e in
      gather-OfBlobs layers (insert f.blob f.ready.path acc) d f.rest (
        insert-OfBlobs f.blob f.ready.path acc
          (contains-get_elem? m.fs_layers layer.index f.blob f.found) of_blobs)

module _ (svc : Services) (local_ip : Str) (info : DownloadInfo) where
  -- A load that succeeds: its context, and the files that it hands to `DockerLoad`.
  pub record Loaded (ctx : Context) : Type 0 where
    pub context : DockerContext
    pub is_context : ctx ≡ docker context
    pub paths : Dict Str
    pub downloaded : AllDownloadedIn svc context.v1_manifest info paths
    pub complete : IsComplete svc context.v1_manifest info context.layers paths
    -- Each layer has a blob, and the map a path for it.
    pub present :
        (i : ℕ) (l : LayerInfo)
        → get_elem? context.layers i ≡ some l
        → (b : Str) × (get_elem? context.v1_manifest.fs_layers l.index ≡ some b)
          × ((path : Str) × (lookup b paths ≡ some path))
    pub of_blobs : OfBlobs svc context.v1_manifest info paths
    pub called : svc.docker_load context.named context.v1_manifest paths local_ip ≡ ok tt

  -- If `LoadImage` without the flag succeeds, then its context is that of an image, all the entries of the
  -- map of paths are those of torrents that were downloaded, the map has the path of the blob of each
  -- layer, and the call of `DockerLoad` with it has succeeded.
  pub load-Loaded : (ctx : Context) → load svc false local_ip info ctx ≡ ok tt → Loaded ctx
  unfolding load load_image docker_context lookup keys contains
  load-Loaded nil e = cc
  load-Loaded (rkt c) e = cc
  load-Loaded (docker c) e =
      let (d, gathered, called) = >>=-eq-ok (gather svc c.v1_manifest info c.layers []) _ e in
      let (d', again, g) =
        gather-Gathered svc c.v1_manifest info c.layers []
          (gather-IsReady svc c.v1_manifest info c.layers [] d gathered) (λ k p h. cc) in
      let same : d' ≡ d = ground (arith, gathered, again) in
      record {
        context = c;
        is_context = refl;
        paths = d;
        downloaded = gather-AllDownloadedIn svc c.v1_manifest info c.layers [] d gathered (λ k. tt);
        present = λ i l h.
            let (b, found, ready) =
              gather-IsReady svc c.v1_manifest info c.layers [] d gathered i l h in
            (
              b,
              found,
              (
                ready.path,
                subst (IsComplete svc c.v1_manifest info c.layers) same g.complete i l b h found
                    ∙ ready.recorded,
              ),
            );
        of_blobs =
            gather-OfBlobs svc c.v1_manifest info c.layers [] d gathered
              (record { distinct = tt; listed = λ k h. cc });
        complete = subst (IsComplete svc c.v1_manifest info c.layers) same g.complete;
        called = called;
      }

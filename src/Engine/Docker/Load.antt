-- ===== src/Engine/Docker/Load.antt =====
-- `LoadImage` of the Docker handler, once the torrents are there and when there is no context.
use quayctl.Base.{
  Str, str_eq, str_beq_iff, ℕ, zero, suc, ◌≡◌, refl, sym, subst, ◌∙◌, true, false, List, [], ◌∷◌,
  some, ok, panic, type_assertion, get_elem?, contains, arith,
}
use quayctl.Base.Dict.{Dict, lookup, insert, lookup-insert}
use quayctl.Engine.{
  ids, SignedManifest, LayerInfo, DockerContext, nil, docker, TorrentInfo, DownloadInfo,
  closed_channel,
}
use quayctl.Engine.Docker.{Services, await, gather, docker_context, load_image, load}
use quayctl.Engine.Docker.Retrieve.{Loadable}

-- The torrent of a blob is there: its channel is closed and its path is recorded.
pub record IsReady (info : DownloadInfo) (b : Str) : Type 0 where
  pub closed : info.downloaded b ≡ closed_channel
  pub path : Str
  pub recorded : lookup b info.torrent_paths ≡ some path

module _ (svc : Services) (m : SignedManifest) (info : DownloadInfo) where
  -- Every entry of a map of paths is an entry of `TorrentPaths`.
  abbrev pub IsSound : Dict Str → Type 0
  IsSound d = (k p : Str) → lookup k d ≡ some p → lookup k info.torrent_paths ≡ some p

  -- The map has the path of the blob of each layer.
  abbrev pub IsComplete : List LayerInfo → Dict Str → Type 0
  IsComplete layers d =
      (i : ℕ) (l : LayerInfo) (b : Str)
      → get_elem? layers i ≡ some l
      → get_elem? m.fs_layers l.index ≡ some b
      → lookup b d ≡ lookup b info.torrent_paths

  insert-IsSound :
      (d : Dict Str) (b p : Str)
      → IsSound d
      → lookup b info.torrent_paths ≡ some p
      → IsSound (insert b p d)
  insert-IsSound d b p s e k q h = ground (arith, lookup-insert b k p d, str_beq_iff b k, s k q)

  pub record Gathered (layers : List LayerInfo) (acc d : Dict Str) : Type 0 where
    pub sound : IsSound d
    pub kept : (k p : Str) → lookup k acc ≡ some p → lookup k d ≡ some p
    pub complete : IsComplete layers d

  IsComplete-cons :
      (layer : LayerInfo) (layers : List LayerInfo) (d : Dict Str) (b : Str)
      → get_elem? m.fs_layers layer.index ≡ some b
      → lookup b d ≡ lookup b info.torrent_paths
      → IsComplete layers d
      → IsComplete (layer ∷ layers) d
  IsComplete-cons layer layers d b found here rest zero l b' h e =
      let same : layer ≡ l = cc in
      let same_b : b ≡ b' = let e' : some b ≡ some b' = sym found ∙ (rw same e) in cc in
      subst (λ x. lookup x d ≡ lookup x info.torrent_paths) same_b here
  IsComplete-cons layer layers d b found here rest (suc i) l b' h e = rest i l b' h e

  pub gather-Gathered :
      (layers : List LayerInfo) (acc : Dict Str)
      → ((i : ℕ) (l : LayerInfo)
          → get_elem? layers i ≡ some l
          → (b : Str) × (get_elem? m.fs_layers l.index ≡ some b) × IsReady info b)
      → IsSound acc
      → (d : Dict Str) × (gather svc m info layers acc ≡ ok d) × Gathered layers acc d
  unfolding gather await
  gather-Gathered [] acc ready s =
      (acc, refl, record { sound = s; kept = λ k p h. h; complete = λ i l b h e. cc })
  gather-Gathered (layer ∷ layers) acc ready s =
      let (b, found, r) = ready zero layer refl in
      let (d, same, g) =
        gather-Gathered layers (insert b r.path acc) (λ i. ready (suc i))
          (insert-IsSound acc b r.path s r.recorded) in
      let here : lookup b d ≡ lookup b info.torrent_paths =
        g.kept b r.path (ground (arith, lookup-insert b b r.path acc, str_beq_iff b b))
        ∙ sym r.recorded in
      (
        d,
        rw (found, r.closed, r.recorded) same,
        record {
          sound = g.sound;
          kept = λ k p h. ground (
            arith,
            lookup-insert b k r.path acc,
            str_beq_iff b k,
            s k p h,
            r.recorded,
            g.kept k p,
          );
          complete = IsComplete-cons layer layers d b found here g.complete;
        },
      )

module _ (svc : Services) (local_ip : Str) (info : DownloadInfo) where
  -- If the ids of the torrents are distinct, every layer of the context has a blob that is one of
  -- them, and every torrent has been downloaded, then loading the image waits for nothing and does
  -- not panic: it is the call of `DockerLoad` with a map that holds nothing but entries of
  -- `TorrentPaths`, and among them the path of the blob of each layer.
  pub load-Loadable :
      (torrents : List TorrentInfo) (c : DockerContext)
      → Loadable torrents c
      → ((b : Str) → contains (ids torrents) b ≡ true → IsReady info b)
      → (d : Dict Str) × (load svc false local_ip info (docker c)
          ≡ svc.docker_load c.named c.v1_manifest d local_ip)
        × IsSound svc c.v1_manifest info d
        × IsComplete svc c.v1_manifest info c.layers d
  unfolding load load_image docker_context
  load-Loadable torrents c l ready =
      let (d, same, g) =
        gather-Gathered svc c.v1_manifest info c.layers []
          (λ i layer h. let (b, found, wanted) = l.covered i layer h in (b, found, ready b wanted))
          (λ k p e. unfold lookup in cc) in
      (d, rw same, g.sound, g.complete)

  -- Without the context of an image the load panics, whatever was downloaded.
  pub load-nil : load svc false local_ip info nil ≡ panic type_assertion
  unfolding load load_image docker_context
  load-nil = refl

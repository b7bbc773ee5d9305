-- ===== src/Engine/Docker/Waiting.antt =====
-- `LoadImage` of the Docker handler in engine/docker.go, where some of the torrents may not be there yet.
use quayctl.Base.{
  Str, ℕ, zero, suc, ◌≡◌, refl, false, List, [], ◌∷◌, some, ok, blocked, ◌⊎◌, inl, inr, get_elem?,
}
use quayctl.Base.Dict.{Dict, insert}
use quayctl.Engine.{DownloadInfo, DockerContext, docker, LayerInfo, SignedManifest, open_channel}
use quayctl.Engine.Docker.{Services, await, gather, docker_context, load_image, load}
use quayctl.Engine.Docker.Load.{IsReady}

module _ (svc : Services) (m : SignedManifest) (info : DownloadInfo) where
  -- Each layer has a blob, of which the torrent is awaited or there.
  abbrev pub Expected : List LayerInfo → Type 0
  Expected layers =
      (i : ℕ) (l : LayerInfo)
      → get_elem? layers i ≡ some l
      → (b : Str) × (get_elem? m.fs_layers l.index ≡ some b)
        × ((info.downloaded b ≡ open_channel) ⊎ IsReady info b)

  gather_either :
      (layers : List LayerInfo) (acc : Dict Str)
      → Expected layers
      → (gather svc m info layers acc ≡ blocked)
        ⊎ ((d : Dict Str) × (gather svc m info layers acc ≡ ok d))
  unfolding gather await
  gather_either [] acc expected = inr (acc, refl)
  gather_either (layer ∷ layers) acc expected =
      let (b, found, state) = expected zero layer refl in
      elim state [
        | inl open_ ↦ inl (rw (found, open_) refl)
        | inr r ↦
            rw (found, r.closed, r.recorded)
              (gather_either layers (insert b r.path acc) (λ i. expected (suc i)))
      ]

module _ (svc : Services) (local_ip : Str) (info : DownloadInfo) where
  -- A load of an image waits, or it is the call of `DockerLoad`.
  pub load_either :
      (c : DockerContext)
      → Expected svc c.v1_manifest info c.layers
      → (load svc false local_ip info (docker c) ≡ blocked)
        ⊎ ((d : Dict Str) × (load svc false local_ip info (docker c)
              ≡ svc.docker_load c.named c.v1_manifest d local_ip))
  unfolding load load_image docker_context
  load_either c expected = elim (gather_either svc c.v1_manifest info c.layers [] expected) [
    | inl waits ↦ inl (rw waits refl)
    | inr (d, gathered) ↦ inr (d, rw gathered refl)
  ]

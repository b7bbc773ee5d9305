-- ===== src/Engine/Docker/Torrents.antt =====
-- The torrents of `buildTorrentInfoForBlob` in engine/docker.go.
use quayctl.Base.{
  Str, str_eq, ◌≡◌, refl, ap, ◌∙◌, Bool, List, [], ◌∷◌, map, contains, Bool-cases, inl, inr,
}
use quayctl.Base.Nub.{nub, without, without-nil, without-remove, without-cons_of_contains}
use quayctl.Engine.{TorrentInfo, Named, AuthConfig}
use quayctl.Engine.Docker.{Services, torrent_url, build_loop, build_torrent_info_for_blob}

module _ (svc : Services) (named : Named) (c : AuthConfig) (insecure : Bool) where
  -- The torrent of one blob.
  abbrev pub torrent_of : Str → TorrentInfo
  torrent_of blob = record {
    id = blob;
    torrent_path = svc.url_string (torrent_url svc named c insecure blob);
    title = blob;
  }

  build_loop_lem :
      (blobs seen : List Str)
      → build_loop svc named c insecure blobs seen ≡ map torrent_of (without seen (nub blobs))
  unfolding build_loop nub without
  build_loop_lem [] seen = refl
  build_loop_lem (b ∷ bs) seen = elim (Bool-cases (contains seen b)) [
    | inl old ↦
        rw (old, without-remove seen b (nub bs), without-cons_of_contains seen b (nub bs) old)
          (build_loop_lem bs seen)
    | inr new ↦
        rw (new, without-remove seen b (nub bs))
          (ap (◌∷◌ (torrent_of b)) (build_loop_lem bs (b ∷ seen)))
  ]

  -- The torrents that `buildTorrentInfoForBlob` returns are those of the distinct blobs, each at
  -- its first occurrence.
  pub build_torrent_info-nub :
      (blobs : List Str)
      → build_torrent_info_for_blob svc named blobs c insecure ≡ map torrent_of (nub blobs)
  unfolding build_torrent_info_for_blob
  build_torrent_info-nub blobs =
      build_loop_lem blobs [] ∙ ap (map torrent_of) (without-nil (nub blobs))

-- ===== src/Dockerclient/RegistryDriver/Layers.antt =====
-- The loop of `Create` over the layers: what it adds to a driver.
use quayctl.Base.{
  Str, text, str_eq, str_beq_iff, ◌≤◌, ◌≡◌, ◌≢◌, refl, subst, ◌∙◌, [], ◌∷◌, ◌++◌, none, some, ok,
  length, take, All, Distinct, arith, ◌==◌, Bool-cases, inl, inr, ==→≡,
}
use quayctl.Base.Dict.{
  Dict, lookup, insert, keys, lookup-insert, lookup-insert_ne, lookup_of_not_key,
}
use quayctl.Dockerclient.RegistryDriver.{
  LocalServeDriver, Platform, link_path, digest_location, data_path, add_link, add_digest_link,
  add_linked_file, add_layers,
}
use quayctl.Dockerclient.RegistryDriver.Paths.{
  sha256_prefix, link_path_inj, digest_location_inj, data_path_inj, link_path-ne-data_path,
  hex_of-digest, slice_to_two,
}

-- The map from digests to files, given by the hexadecimal parts of SHA-256 digests.
abbrev pub digests : Dict Str → Dict Str
digests [] = []
digests ((h, l) ∷ rest) = (sha256_prefix ++ h, l) ∷ digests rest

abbrev pub layer_location : Str → Str
layer_location h = digest_location (text "_layers") h

abbrev pub layer_data : Str → Str
layer_data h = data_path (take 2 h) h

-- The driver after one more layer.
abbrev with_layer : Str → Str → Str → LocalServeDriver → LocalServeDriver
with_layer r h l d = record {
  content_paths = insert (link_path r (layer_location h)) (sha256_prefix ++ h) d.content_paths;
  external_content_paths = insert (layer_data h) l d.external_content_paths;
}

add_linked_file_lem :
    (r h l : Str) (d : LocalServeDriver)
    → 2 ≤ length h
    → add_linked_file r (text "_layers") (sha256_prefix ++ h) l d ≡ ok (with_layer r h l d)
unfolding add_linked_file add_digest_link add_link
add_linked_file_lem r h l d e = simp (hex_of-digest h, slice_to_two h e)

-- The entry has a digest of two hexadecimal digits or more.
abbrev pub IsLong : Str × Str → Type 0
IsLong (h, l) = 2 ≤ length h

pub IsLong-lookup :
    (hs : Dict Str) (h l : Str) → All IsLong hs → lookup h hs ≡ some l → 2 ≤ length h
unfolding lookup
IsLong-lookup [] h l long e = cc
IsLong-lookup ((k, v) ∷ hs) h l long e = elim (Bool-cases (k == h)) [
  | inl here ↦ subst (λ x. 2 ≤ length x) (==→≡ k h here) long.0
  | inr there ↦ IsLong-lookup hs h l long.1 (ground arith)
]

module _ (r : Str) where
  -- What the loop over the layers adds to a driver, and what it leaves.
  pub record Added (hs : Dict Str) (d d' : LocalServeDriver) : Type 0 where
    pub kept :
        (location : Str)
        → ((h : Str) → layer_location h ≢ location)
        → lookup (link_path r location) d'.content_paths
          ≡ lookup (link_path r location) d.content_paths
    pub kept_data :
        (a b : Str)
        → lookup (data_path a b) d'.content_paths ≡ lookup (data_path a b) d.content_paths
    pub links :
        (h : Str)
        → lookup (link_path r (layer_location h)) d'.content_paths ≡ elim (lookup h hs) [
          | none ↦ lookup (link_path r (layer_location h)) d.content_paths
          | some l ↦ some (sha256_prefix ++ h)
        ]
    pub files :
        (h : Str)
        → 2 ≤ length h
        → lookup (layer_data h) d'.external_content_paths ≡ elim (lookup h hs) [
          | none ↦ lookup (layer_data h) d.external_content_paths
          | some l ↦ some l
        ]

  with_layer-Added :
      (h l : Str) (rest : Dict Str) (d d' : LocalServeDriver)
      → 2 ≤ length h
      → lookup h rest ≡ none
      → Added rest (with_layer r h l d) d'
      → Added ((h, l) ∷ rest) d d'
  unfolding lookup
  with_layer-Added h l rest d d' long new a = record {
    kept = λ location apart.
        a.kept location apart ∙ lookup-insert_ne _ _ _ _ (λ e. apart h (link_path_inj r _ _ e));
    kept_data = λ x y. a.kept_data x y ∙ lookup-insert_ne _ _ _ _ (link_path-ne-data_path r _ x y);
    links = λ k.
        let back : link_path r (layer_location h) ≡ link_path r (layer_location k) → h ≡ k =
          λ e. digest_location_inj _ h k (link_path_inj r _ _ e) in
        ground (
          arith,
          back,
          new,
          a.links k,
          lookup-insert (link_path r (layer_location h)) (link_path r (layer_location k))
              (sha256_prefix ++ h) d.content_paths,
          str_beq_iff h k,
          str_beq_iff (link_path r (layer_location h)) (link_path r (layer_location k)),
        );
    files = λ k long'.
        let back : layer_data h ≡ layer_data k → h ≡ k = data_path_inj h k long long' in
        ground (
          arith,
          back,
          new,
          a.files k long',
          lookup-insert (layer_data h) (layer_data k) l d.external_content_paths,
          str_beq_iff h k,
          str_beq_iff (layer_data h) (layer_data k),
        );
  }

  pub add_layers-Added :
      (p : Platform) (hs : Dict Str) (d : LocalServeDriver)
      → All IsLong hs
      → Distinct (keys hs)
      → (d' : LocalServeDriver) × (add_layers p r (digests hs) d ≡ ok d') × Added hs d d'
  unfolding add_layers keys
  add_layers-Added p [] d long distinct = (
    d,
    refl,
    record {
      kept = λ location apart. refl;
      kept_data = λ a b. refl;
      links = λ h. unfold lookup in refl;
      files = λ h long'. unfold lookup in refl;
    },
  )
  add_layers-Added p ((h, l) ∷ rest) d long distinct =
      let (d', same, a) = add_layers-Added p rest (with_layer r h l d) long.1 distinct.1 in
      (
        d',
        rw (add_linked_file_lem r h l d long.0) same,
        with_layer-Added h l rest d d' long.0 (lookup_of_not_key h rest distinct.0) a,
      )

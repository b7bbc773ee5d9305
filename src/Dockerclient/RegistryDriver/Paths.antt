-- ===== src/Dockerclient/RegistryDriver/Paths.antt =====
-- The shapes of the paths in dockerclient/registrydriver.go.
use mathlib.Core.List.{append_cancel_left, append_cancel_right}
use quayctl.Base.{
  Str, text, str_eq, ℕ, zero, suc, ◌≤◌, ◌≡◌, ◌≢◌, ap, [], ◌∷◌, ◌++◌, some, ok, length, take, drop,
  slice_from, slice_to, arith,
}
use quayctl.Dockerclient.RegistryDriver.{
  link_path, digest_location, data_path, tag_location, hex_of,
}

-- The byte at a position, by which two literals are told apart.
abbrev byte : ℕ → Str → ℕ
byte i [] = 0
byte zero (b ∷ s) = b
byte (suc i) (b ∷ s) = byte i s

abbrev pub sha256_prefix : Str
sha256_prefix = text "sha256:"

pub link_path_inj : (r a b : Str) → link_path r a ≡ link_path r b → a ≡ b
unfolding link_path
link_path_inj r a b e =
    append_cancel_left (text "/") a b
      (append_cancel_left r (text "/" ++ a) (text "/" ++ b) (append_cancel_left _ _ _ e))

pub digest_location_inj : (p a b : Str) → digest_location p a ≡ digest_location p b → a ≡ b
unfolding digest_location
digest_location_inj p a b e =
    append_cancel_right a b (text "/link")
      (append_cancel_left (text "/sha256/") _ _ (append_cancel_left p _ _ e))

pub data_path_inj :
    (a b : Str)
    → 2 ≤ length a
    → 2 ≤ length b
    → data_path (take 2 a) a ≡ data_path (take 2 b) b
    → a ≡ b
unfolding data_path
data_path_inj (x ∷ y ∷ a) (x' ∷ y' ∷ b) la lb e =
    let cut = append_cancel_left (text "/docker/registry/v2/blobs/sha256/") _ _ e in
    append_cancel_right (x ∷ y ∷ a) (x' ∷ y' ∷ b) (text "/data")
      (append_cancel_left (text "/") _ _ (ap (drop 2) cut))
data_path_inj (x ∷ []) b la lb e = absurd (omega arith)
data_path_inj [] b la lb e = absurd (omega arith)
data_path_inj a (x ∷ []) la lb e = absurd (omega arith)
data_path_inj a [] la lb e = absurd (omega arith)

pub link_path-ne-data_path : (r a b c : Str) → link_path r a ≢ data_path b c
unfolding link_path data_path text
link_path-ne-data_path r a b c e = absurd (omega (arith, ap (byte 20) e))

pub revision-ne-tag : (a b : Str) → digest_location (text "_manifests/revisions") a ≢ tag_location b
unfolding digest_location tag_location text
revision-ne-tag a b e = absurd (omega (arith, ap (byte 11) e))

pub layer-ne-tag : (a b : Str) → digest_location (text "_layers") a ≢ tag_location b
unfolding digest_location tag_location text
layer-ne-tag a b e = absurd (omega (arith, ap (byte 1) e))

pub layer-ne-revision :
    (a b : Str)
    → digest_location (text "_layers") a ≢ digest_location (text "_manifests/revisions") b
unfolding digest_location text
layer-ne-revision a b e = absurd (omega (arith, ap (byte 1) e))

pub hex_of-digest : (h : Str) → hex_of (sha256_prefix ++ h) ≡ ok h
unfolding hex_of slice_from text
hex_of-digest h = ground arith

pub slice_to_two : (h : Str) → 2 ≤ length h → slice_to 2 h ≡ some (take 2 h)
unfolding slice_to
slice_to_two h e = ground arith

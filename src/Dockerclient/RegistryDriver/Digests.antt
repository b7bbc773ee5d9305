-- ===== src/Dockerclient/RegistryDriver/Digests.antt =====
-- Maps of paths by SHA-256 digests, for the driver of dockerclient/registrydriverfactory.go.
use quayctl.Base.{
  Str, str_beq, text, str_eq, str_beq_iff, ◌≤◌, ◌≡◌, refl, sym, ap, ◌∙◌, true, [], ◌∷◌, ◌++◌,
  length, All, Distinct, contains, arith, ◌==◌,
}
use quayctl.Base.Dict.{Dict, lookup, keys}
use quayctl.Dockerclient.RegistryDriver.Paths.{sha256_prefix}
use quayctl.Dockerclient.RegistryDriver.Layers.{digests, IsLong}

-- A digest of SHA-256: its hexadecimal part has at least two digits.
pub record IsDigest (k : Str) : Type 0 where
  pub hex : Str
  pub same : k ≡ sha256_prefix ++ hex
  pub long : 2 ≤ length hex

prefix-beq : (g h : Str) → ((sha256_prefix ++ g) == (sha256_prefix ++ h)) ≡ (g == h)
unfolding text str_beq
prefix-beq g h = refl

contains-digests :
    (hs : Dict Str) (h : Str)
    → contains (keys (digests hs)) (sha256_prefix ++ h) ≡ contains (keys hs) h
unfolding keys contains
contains-digests [] h = refl
contains-digests ((g, l) ∷ hs) h =
    ground (arith, contains-digests hs h, prefix-beq g h, prefix-beq h g)

pub digests-Distinct : (hs : Dict Str) → Distinct (keys (digests hs)) → Distinct (keys hs)
unfolding keys
digests-Distinct [] distinct = tt
digests-Distinct ((h, l) ∷ hs) distinct =
    (sym (contains-digests hs h) ∙ distinct.0, digests-Distinct hs distinct.1)

pub lookup-digests :
    (hs : Dict Str) (h : Str) → lookup (sha256_prefix ++ h) (digests hs) ≡ lookup h hs
unfolding lookup
lookup-digests [] h = refl
lookup-digests ((g, l) ∷ hs) h = ground (arith, lookup-digests hs h, prefix-beq g h)

-- A map whose keys are digests is one by their hexadecimal parts.
pub record ByHex (d : Dict Str) : Type 0 where
  pub hexes : Dict Str
  pub same : d ≡ digests hexes
  pub long : All IsLong hexes

pub keys-ByHex : (d : Dict Str) → ((k : Str) → contains (keys d) k ≡ true → IsDigest k) → ByHex d
unfolding keys contains
keys-ByHex [] all = record { hexes = []; same = refl; long = tt }
keys-ByHex ((k, l) ∷ d) all =
    let digest = all k (ground (arith, str_beq_iff k k)) in
    let rest = keys-ByHex d (λ j there. all j (ground (arith, there))) in
    record {
      hexes = (digest.hex, l) ∷ rest.hexes;
      same =
          ap (λ x. (x, l) ∷ d) digest.same
          ∙ ap (λ x. (sha256_prefix ++ digest.hex, l) ∷ x) rest.same;
      long = (digest.long, rest.long);
    }

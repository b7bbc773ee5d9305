-- ===== src/Dockerclient/RegistryDriver/Streams.antt =====
-- The reader that `ReadStream` returns for the data of a layer.
use quayctl.Base.{Str, str_eq, ◌≡◌, ◌≤◌, false, some, ok, length, All, Distinct, arith}
use quayctl.Base.Dict.{Dict, lookup, keys}
use quayctl.Base.Int.{ℤ, lt_ℤ}
use quayctl.Engine.{Named, SignedManifest}
use quayctl.Dockerclient.RegistryDriver.{LocalServeDriver, Platform, opened, read_stream, create}
use quayctl.Dockerclient.RegistryDriver.Layers.{digests, IsLong, layer_data}
use quayctl.Dockerclient.RegistryDriver.Serve.{create-Serves, manifest_hex}

module _ (p : Platform) where
  -- If the hexadecimal SHA-256 of the manifest has at least two digits, the layers are given by distinct
  -- digests of that form, the file of one of them can be opened, and the seek to an offset does not end
  -- before it, then the driver that `Create` returns reads that file from there for the data of the layer.
  pub create-read_stream :
      (image : Named) (manifest : SignedManifest) (hs : Dict Str)
      → 2 ≤ length (manifest_hex p image manifest)
      → All IsLong hs
      → Distinct (keys hs)
      → (h l : Str) (offset at : ℤ) → lookup h hs ≡ some l
      → p.open_file l ≡ opened
      → p.seek l offset ≡ ok at
      → lt_ℤ at offset ≡ false
      → (d : LocalServeDriver) × (create p image manifest (digests hs) ≡ ok d)
        × (read_stream p d (layer_data h) offset ≡ ok (l, at))
  unfolding read_stream
  create-read_stream image manifest hs long_manifest long distinct h l offset at e there seek
        after =
      let (d, same, serves) = create-Serves p image manifest hs long_manifest long distinct in
      let found = serves.layers h l e in (d, same, ground (arith, found.1))

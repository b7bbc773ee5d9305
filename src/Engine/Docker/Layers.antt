-- ===== src/Engine/Docker/Layers.antt =====
-- Which layers and blobs `requiredLayersAndBlobs` picks, and what `loadLayerInfo` says of each layer.
use mathlib.Core.List.{append_assoc, append-nil}
use native.Mathlib.Nat.{add-zero, zero-add}
use quayctl.Base.{
  Str, ℕ, zero, suc, ◌+◌, ◌≡◌, refl, sym, ap, ◌∙◌, List, [], ◌∷◌, ◌++◌, Option, none, some, Outcome,
  ok, ◌>>=◌, if◌then◌else◌, get_elem?, take, drop, >>=-eq-ok, length, Bool-cases, inl, inr,
  length-append, take_all, take-append_self, get_elem?-middle, arith,
}
use quayctl.Engine.{SignedManifest, missing_layers, V1LayerInfo, LayerInfo}
use quayctl.Engine.Docker.{
  Services, get_layer_info, parent_info, load_layers_from, load_layer_info, missing_loop,
  required_layers_and_blobs,
}

-- How many blobs stand above the first one that Docker has.
abbrev pub missing_count : Services → List Str → ℕ
missing_count svc [] = 0
missing_count svc (b ∷ bs) = if (svc.has_image b).0 then 0 else suc (missing_count svc bs)

module _ (svc : Services) (m : SignedManifest) where
  abbrev pub first_layers : ℕ → Outcome Str (List LayerInfo × List Str)
  first_layers n = do info ← load_layer_info svc (take n m.history); ok (info, take n m.fs_layers)

  missing_loop_lem :
      (before rest above below : List Str)
      → m.history ≡ before ++ rest
      → m.fs_layers ≡ above ++ below
      → length before ≡ length above
      → length rest ≡ length below
      → missing_loop svc m rest (length above) above
        ≡ first_layers (length above + missing_count svc below)
  unfolding missing_loop
  missing_loop_lem before [] above [] eh ef el er =
      let history : take (length above) before ≡ before = rw (← el) (take_all before) in
      simp (eh, ef, append-nil, add-zero, take_all, history)
  missing_loop_lem before (layer ∷ rest) above [] eh ef el er = absurd (omega arith)
  missing_loop_lem before [] above (b ∷ below) eh ef el er = absurd (omega arith)
  missing_loop_lem before (layer ∷ rest) above (b ∷ below) eh ef el er =
      let here : get_elem? m.fs_layers (length above) ≡ some b =
        rw ef (get_elem?-middle above b below) in
      let above_b : length (above ++ b ∷ []) ≡ length above + 1 = length-append above (b ∷ []) in
      let later =
        missing_loop_lem (before ++ layer ∷ []) rest (above ++ b ∷ []) below
          (eh ∙ sym (append_assoc before (layer ∷ []) rest))
          (ef ∙ sym (append_assoc above (b ∷ []) below))
          (omega (arith, above_b, length-append before (layer ∷ []))) (omega arith) in
      elim (Bool-cases (svc.has_image b).0) [
        | inl found ↦ rw (here, found) (rw add-zero (rw (ef, take-append_self above (b ∷ below))))
        | inr missing ↦ rw (here, missing) ((rw above_b at later) ∙ ap first_layers (omega arith))
      ]

  -- If the manifest has a blob for each history entry, then the missing layers and blobs that are
  -- returned are those that stand above the first blob that Docker has, and all of them if it has none.
  pub required_missing :
      length m.history ≡ length m.fs_layers
      → required_layers_and_blobs svc m missing_layers
        ≡ first_layers (missing_count svc m.fs_layers)
  unfolding required_layers_and_blobs
  required_missing e =
      missing_loop_lem [] m.history [] m.fs_layers refl refl refl e ∙ ap first_layers (zero-add _)

module _ (svc : Services) where
  -- The parent of the top one of some layers comes from the entry below it.
  abbrev pub IsParent : List Str → Option V1LayerInfo → Type 0
  IsParent [] p = p ≡ none
  IsParent (below ∷ _) p = (v : V1LayerInfo) × (p ≡ some v) × (svc.unmarshal_id below ≡ some v.id)

  -- What `loadLayerInfo` says of the layer at position `i`: its index, its history entry, the id
  -- decoded from it, and as the parent the id of the next entry, if there is one.
  pub record DescribesLayer (history : List Str) (start i : ℕ) (l : LayerInfo) : Type 0 where
    pub index : l.index ≡ start + i
    pub layer : get_elem? history i ≡ some l.layer
    pub id : svc.unmarshal_id l.layer ≡ some l.info.id
    pub parent : IsParent (drop (suc i) history) l.parent_info

  parent_info-IsParent :
      (rest : List Str) (p : Option V1LayerInfo) → parent_info svc rest ≡ ok p → IsParent rest p
  unfolding parent_info get_layer_info
  parent_info-IsParent [] p e = ground arith
  parent_info-IsParent (below ∷ rest) p e = ground arith

  load_layers_from_cases :
      (layer : Str) (rest : List Str) (start : ℕ) (infos : List LayerInfo)
      → load_layers_from svc start (layer ∷ rest) ≡ ok infos
      → (l : LayerInfo) × (more : List LayerInfo) × (infos ≡ l ∷ more)
        × (load_layers_from svc (start + 1) rest ≡ ok more)
        × (l.index ≡ start)
        × (l.layer ≡ layer)
        × (svc.unmarshal_id layer ≡ some l.info.id)
        × IsParent rest l.parent_info
  unfolding load_layers_from parent_info get_layer_info
  load_layers_from_cases layer rest start infos e =
      let (parent, ep, e1) = >>=-eq-ok (parent_info svc rest) _ e in
      let (info, ei, e2) = >>=-eq-ok (get_layer_info svc layer) _ e1 in
      let (more, em, e3) = >>=-eq-ok (load_layers_from svc (start + 1) rest) _ e2 in
      (
        record { info = info; layer = layer; index = start; parent_info = parent },
        more,
        cc,
        em,
        refl,
        refl,
        ground arith,
        parent_info-IsParent rest parent ep,
      )

  load_layers_from-DescribesLayer :
      (history : List Str) (start : ℕ) (infos : List LayerInfo)
      → load_layers_from svc start history ≡ ok infos
      → (i : ℕ) (l : LayerInfo) → get_elem? infos i ≡ some l
      → DescribesLayer history start i l
  unfolding load_layers_from
  load_layers_from-DescribesLayer [] start infos e i l h = ground arith
  load_layers_from-DescribesLayer (layer ∷ rest) start infos e zero l h =
      let (top, more, split, _, at_start, entry, decoded, parent) =
        load_layers_from_cases layer rest start infos e in
      let same : top ≡ l = ground arith in
      record {
        index = omega (arith, ap LayerInfo.index same);
        layer = cc;
        id = cc;
        parent = rw (← same) parent;
      }
  load_layers_from-DescribesLayer (layer ∷ rest) start infos e (suc i) l h =
      let (top, more, split, later, _, _, _, _) = load_layers_from_cases layer rest start infos e in
      let d = load_layers_from-DescribesLayer rest (start + 1) more later i l (ground arith) in
      record { index = omega (arith, d.index); layer = d.layer; id = d.id; parent = d.parent }

  length-load_layers_from :
      (history : List Str) (start : ℕ) (infos : List LayerInfo)
      → load_layers_from svc start history ≡ ok infos
      → length infos ≡ length history
  unfolding load_layers_from
  length-load_layers_from [] start infos e = ground arith
  length-load_layers_from (layer ∷ rest) start infos e =
      let (top, more, split, later, _, _, _, _) = load_layers_from_cases layer rest start infos e in
      rw split (ap suc (length-load_layers_from rest (start + 1) more later))

  -- If `loadLayerInfo` returns some layers, each of them has its position as the index, the
  -- history entry at that position, the id decoded from the entry, and as the parent the id of the
  -- next entry, if there is one.
  pub load_layer_info-DescribesLayer :
      (history : List Str) (infos : List LayerInfo)
      → load_layer_info svc history ≡ ok infos
      → (i : ℕ) (l : LayerInfo) → get_elem? infos i ≡ some l
      → DescribesLayer history 0 i l
  unfolding load_layer_info
  load_layer_info-DescribesLayer history = load_layers_from-DescribesLayer history 0

  pub length-load_layer_info :
      (history : List Str) (infos : List LayerInfo)
      → load_layer_info svc history ≡ ok infos
      → length infos ≡ length history
  unfolding load_layer_info
  length-load_layer_info history = length-load_layers_from history 0

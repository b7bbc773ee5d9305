-- ===== src/Bittorrent/Client/Order/Runs.antt =====
-- Runs of the client of bittorrent/bittorrent.go in which each range over the torrents may take them in
-- another order.
use quayctl.Base.{str_eq, ℕ, ◌≡◌, refl, sym, ◌∙◌, List, [], ◌∷◌, some, nat_eq, arith}
use quayctl.Base.Dict.{Dict}
use quayctl.Bittorrent.Client.{Request, State, Action, act, run}
use quayctl.Bittorrent.Client.Order.{SameMap, HandlesApart}
use quayctl.Bittorrent.Client.Order.Alike.{reordered, Alike}
use quayctl.Bittorrent.Client.Order.Steps.{act-Follows}

-- Two orders of one state.
Alike-both :
    (s : State) (d e : Dict ℕ) (r q : List ℕ)
    → Alike s d r
    → Alike s e q
    → Alike (reordered d r s) e q
Alike-both s d e r q one two = record {
  same_map = record {
    left_distinct = one.same_map.right_distinct;
    right_distinct = two.same_map.right_distinct;
    lookups = λ k. sym (one.same_map.lookups k) ∙ two.same_map.lookups k;
  };
  same_removed = λ h. sym (one.same_removed h) ∙ two.same_removed h;
}

SameMap-HandlesApart :
    (handles : ℕ → ℕ) (d e : Dict ℕ) → SameMap d e → HandlesApart handles d → HandlesApart handles e
SameMap-HandlesApart handles d e same apart k j p q at_k at_j =
    apart k j p q (same.lookups k ∙ at_k) (same.lookups j ∙ at_j)

module _ (requests : ℕ → Request) where
  -- The runs of actions from a state to a state, where before each action the entries of the map, and the
  -- handles that were removed, may be put in another order, and no two torrents in the map have
  -- one handle.
  pub data ShuffledRun : State → List Action → State → Type 0 where
    done : {s : State} → ShuffledRun s [] s
    step :
        {s u t : State} {actions : List Action} (a : Action) (d : Dict ℕ) (r : List ℕ)
        → Alike s d r
        → HandlesApart s.handles s.torrents
        → act requests a (reordered d r s) ≡ some u
        → ShuffledRun u actions t
        → ShuffledRun s (a ∷ actions) t

  -- If, in a run of actions, the torrents come in any order each time, and no two torrents in the map ever
  -- have one handle, then `run` takes the same actions, from the first state or from it in another order,
  -- to the last state up to the order of the torrents and of the removed handles.
  pub ShuffledRun-run :
      (s t : State) (actions : List Action) (d : Dict ℕ) (r : List ℕ)
      → ShuffledRun s actions t
      → Alike s d r
      → (e : Dict ℕ) × (q : List ℕ) × (run requests actions (reordered d r s)
          ≡ some (reordered e q t))
        × Alike t e q
  unfolding run
  ShuffledRun-run s t [] d r done alike = (d, r, refl, alike)
  ShuffledRun-run s t (b ∷ actions) d r (step {u = u} a d1 r1 alike1 apart e rest) alike =
      let f =
        act-Follows requests a (reordered d1 r1 s) u d r (Alike-both s d1 d r1 r alike1 alike)
          (SameMap-HandlesApart s.handles s.torrents d1 alike1.same_map apart) e in
      let (e', q', ran, alike') = ShuffledRun-run u t actions f.torrents f.removed rest f.alike in
      (e', q', ground (arith, f.stepped, ran), alike')

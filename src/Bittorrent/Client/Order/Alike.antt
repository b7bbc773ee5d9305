-- ===== src/Bittorrent/Client/Order/Alike.antt =====
-- States of the client of bittorrent/bittorrent.go that differ in the order of their entries, and the
-- removal of torrents from them.
use quayctl.Base.{
  Str, str_eq, ℕ, ◌≡◌, refl, sym, ◌∙◌, ap, subst, Bool, true, List, [], ◌∷◌, Option, some, inl, inr,
  contains, nat_eq, arith, Option-cases,
}
use quayctl.Base.Dict.{Dict, lookup, erase, keys, lookup-contains-keys}
use quayctl.Bittorrent.Client.{
  State, remove_torrent, close_keep_seeding, delete_torrent, delete_all,
}
use quayctl.Bittorrent.Client.Stop.{delete_all_removes, delete_all-removed}
use quayctl.Bittorrent.Client.Order.{SameMap, erase-SameMap, delete_all-RemovedOf}

-- A state with its torrents and the removed handles in another order.
abbrev pub reordered : Dict ℕ → List ℕ → State → State
reordered d r s = record s { torrents = d; removed = r }

pub record Alike (s : State) (d : Dict ℕ) (r : List ℕ) : Type 0 where
  pub same_map : SameMap s.torrents d
  pub same_removed : (h : ℕ) → contains s.removed h ≡ contains r h

-- The step of the state in another order: it ends in the same state up to the order.
pub record Follows (step : State → Option State) (s u : State) (d : Dict ℕ) (r : List ℕ)
    : Type 0 where
  pub torrents : Dict ℕ
  pub removed : List ℕ
  pub stepped : step (reordered d r s) ≡ some (reordered torrents removed u)
  pub alike : Alike u torrents removed

pub Alike-of :
    (s u : State) (d : Dict ℕ) (r : List ℕ)
    → s.torrents ≡ u.torrents
    → s.removed ≡ u.removed
    → Alike s d r
    → Alike u d r
Alike-of s u d r same_torrents same_removed alike = record {
  same_map = subst (λ x. SameMap x d) same_torrents alike.same_map;
  same_removed = λ h. sym (ap (λ x. contains x h) same_removed) ∙ alike.same_removed h;
}

-- `remove_torrent` in another order.
record Removes (k : Str) (s : State) (d : Dict ℕ) (r : List ℕ) : Type 0 where
  torrents : Dict ℕ
  removed : List ℕ
  same : remove_torrent k (reordered d r s) ≡ reordered torrents removed (remove_torrent k s)
  alike : Alike (remove_torrent k s) torrents removed

remove_torrent-Removes :
    (k : Str) (s : State) (d : Dict ℕ) (r : List ℕ) → Alike s d r → Removes k s d r
unfolding remove_torrent contains
remove_torrent-Removes k s d r alike = elim (Option-cases (lookup k s.torrents)) [
  | inl e ↦ record {
    torrents = d;
    removed = r;
    same = ground (arith, e, alike.same_map.lookups k);
    alike = Alike-of s (remove_torrent k s) d r (ground (arith, e)) (ground (arith, e)) alike;
  }
  | inr (p, e) ↦ record {
    torrents = erase k d;
    removed = s.handles p ∷ r;
    same = ground (arith, e, alike.same_map.lookups k);
    alike = record {
      same_map =
          subst (λ x. SameMap x (erase k d)) (ground (arith, e))
            (erase-SameMap k s.torrents d alike.same_map);
      same_removed = λ h. ground (arith, e, alike.same_removed h);
    };
  }
]

removed_too :
    (s : State) (d : Dict ℕ) (r : List ℕ) (h : ℕ)
    → ((k : Str) → lookup k s.torrents ≡ lookup k d)
    → (contains s.removed h ≡ true → contains r h ≡ true)
    → contains (delete_all (keys s.torrents) s).removed h ≡ true
    → contains (delete_all (keys d) (reordered d r s)).removed h ≡ true
removed_too s d r h lookups before there = elim (delete_all-RemovedOf (keys s.torrents) s h there) [
  | inl m ↦ delete_all-removed (keys d) (reordered d r s) h (before m)
  | inr (k, p, found, same) ↦
      let in_d : lookup k d ≡ some p = sym (lookups k) ∙ found in
      subst (λ x. contains (delete_all (keys d) (reordered d r s)).removed x ≡ true) same
        (delete_all_removes (keys d) (reordered d r s) k p in_d (lookup-contains-keys k d p in_d))
]

bool_ext : (a b : Bool) → (a ≡ true → b ≡ true) → (b ≡ true → a ≡ true) → a ≡ b
bool_ext a b f g = ground (arith, f, g)

-- `delete_torrent` in another order.
pub record Deletes (k : Str) (o : Option ℕ) (s : State) (d : Dict ℕ) (r : List ℕ) : Type 0 where
  pub torrents : Dict ℕ
  pub removed : List ℕ
  pub same :
      delete_torrent k o (reordered d r s) ≡ reordered torrents removed (delete_torrent k o s)
  pub alike : Alike (delete_torrent k o s) torrents removed

pub delete_torrent-Deletes :
    (k : Str) (i : ℕ) (s : State) (d : Dict ℕ) (r : List ℕ) → Alike s d r → Deletes k (some i) s d r
unfolding delete_torrent close_keep_seeding
delete_torrent-Deletes k i s d r alike =
    let rem = remove_torrent-Removes k s d r alike in
    record {
      torrents = rem.torrents;
      removed = rem.removed;
      same = ap (close_keep_seeding i) rem.same ∙ ground arith;
      alike =
          Alike-of (remove_torrent k s) (delete_torrent k (some i) s) rem.torrents rem.removed
            (ground arith) (ground arith) rem.alike;
    }

-- The loop of `Stop` removes the same handles in each order of the torrents.
pub delete_all_same :
    (s : State) (d : Dict ℕ) (r : List ℕ) (h : ℕ)
    → Alike s d r
    → contains (delete_all (keys s.torrents) s).removed h
      ≡ contains (delete_all (keys d) (reordered d r s)).removed h
delete_all_same s d r h alike =
    bool_ext (contains (delete_all (keys s.torrents) s).removed h)
      (contains (delete_all (keys d) (reordered d r s)).removed h)
      (removed_too s d r h alike.same_map.lookups (λ m. sym (alike.same_removed h) ∙ m))
      (removed_too (reordered d r s) s.torrents s.removed h (λ k. sym (alike.same_map.lookups k))
        (λ m. alike.same_removed h ∙ m))

pub Alike-stop :
    (u : State) (d : Dict ℕ) (r : List ℕ)
    → u.torrents ≡ []
    → d ≡ []
    → ((h : ℕ) → contains u.removed h ≡ contains r h)
    → Alike u d r
unfolding keys
Alike-stop u d r u_empty d_empty same = record {
  same_map = subst (SameMap u.torrents) (sym d_empty) (
      subst (λ x. SameMap x []) (sym u_empty)
        (record { left_distinct = tt; right_distinct = tt; lookups = λ k. refl }));
  same_removed = same;
}

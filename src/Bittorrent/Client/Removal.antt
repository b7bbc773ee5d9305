-- ===== src/Bittorrent/Client/Removal.antt =====
-- The removal of torrents from the map in bittorrent/bittorrent.go.
use quayctl.Base.{
  Str, str_eq, ℕ, ◌≡◌, refl, ap, ◌∙◌, subst, true, List, [], ◌∷◌, some, nat_eq, contains, arith,
  Option-cases, inl, inr,
}
use quayctl.Base.Dict.{Dict, lookup, erase}
use quayctl.Bittorrent.Client.{State, find_torrent, remove_torrent, delete_torrent, delete_all}

-- The torrents of a map.
unfoldable pub values : Dict ℕ → List ℕ
values [] = []
values ((k, t) ∷ rest) = t ∷ values rest

pub contains-values-erase :
    (k : Str) (d : Dict ℕ) (t : ℕ)
    → contains (values (erase k d)) t ≡ true
    → contains (values d) t ≡ true
unfolding values erase contains
contains-values-erase k [] t h = h
contains-values-erase k ((j, u) ∷ rest) t h = ground (arith, contains-values-erase k rest t)

pub find_torrent-handle :
    (handles : ℕ → ℕ) (h : ℕ) (d : Dict ℕ) (t : ℕ)
    → find_torrent handles h d ≡ some t
    → (handles t ≡ h) × (contains (values d) t ≡ true)
unfolding find_torrent values contains
find_torrent-handle handles h [] t e = cc
find_torrent-handle handles h ((k, u) ∷ rest) t e =
    ground (arith, find_torrent-handle handles h rest t)

-- A state after torrents have been removed from the map: what else it has is as before.
pub record Removed (s t : State) : Type 0 where
  pub torrents : Dict ℕ
  pub removed : List ℕ
  pub same : t ≡ record s { torrents = torrents; removed = removed }
  pub fewer : (p : ℕ) → contains (values torrents) p ≡ true → contains (values s.torrents) p ≡ true

pub remove_torrent-Removed : (source : Str) (s : State) → Removed s (remove_torrent source s)
unfolding remove_torrent
remove_torrent-Removed source s = elim (Option-cases (lookup source s.torrents)) [
  | inl e ↦ record {
    torrents = s.torrents;
    removed = s.removed;
    same = rw (e, remove_torrent) refl;
    fewer = λ p h. h;
  }
  | inr (t, e) ↦ record {
    torrents = erase source s.torrents;
    removed = s.handles t ∷ s.removed;
    same = rw (e, remove_torrent) refl;
    fewer = contains-values-erase source s.torrents;
  }
]

pub delete_all-Removed : (sources : List Str) (s : State) → Removed s (delete_all sources s)
unfolding delete_all delete_torrent
delete_all-Removed [] s = record {
  torrents = s.torrents;
  removed = s.removed;
  same = refl;
  fewer = λ p h. h;
}
delete_all-Removed (source ∷ rest) s =
    let first = remove_torrent-Removed source s in
    let later = delete_all-Removed rest (remove_torrent source s) in
    record {
      torrents = later.torrents;
      removed = later.removed;
      same =
          later.same
          ∙ ap (λ (x : State). record x { torrents = later.torrents; removed = later.removed })
              first.same;
      fewer = λ p h. first.fewer p (
          subst (λ (x : State). contains (values x.torrents) p ≡ true) first.same
            (later.fewer p h));
    }

-- ===== src/Bittorrent/Client/Stop.antt =====
-- `Stop` of bittorrent/bittorrent.go, and what it leaves.
use quayctl.Base.{
  Str, str_eq, str_beq_iff, ℕ, ◌≡◌, refl, subst, Bool, true, false, List, [], ◌∷◌, none, some,
  contains, nat_eq, ◌==◌, arith, Option-cases, Bool-cases, inl, inr,
}
use quayctl.Base.Dict.{
  Dict, lookup, erase, keys, lookup-erase, contains-keys-erase, lookup-contains-keys,
}
use quayctl.Bittorrent.Client.{
  Request, State, stop_running, stop_torrents, remove_torrent, delete_torrent, delete_all,
  stop_client, stop_all, dispatch, act, run,
}
use quayctl.Bittorrent.Client.Removal.{delete_all-Removed}

erase_of_none : (k : Str) (d : Dict ℕ) → lookup k d ≡ none → erase k d ≡ d
unfolding lookup erase
erase_of_none k [] e = refl
erase_of_none k ((j, t) ∷ rest) e = ground (arith, erase_of_none k rest)

no_keys : (d : Dict ℕ) → ((j : Str) → contains (keys d) j ≡ true → false ≡ true) → d ≡ []
unfolding keys contains
no_keys [] h = refl
no_keys ((k, t) ∷ rest) h = cc (h k (ground (arith, str_beq_iff k k)))

pub remove_torrent-torrents :
    (k : Str) (s : State) → (remove_torrent k s).torrents ≡ erase k s.torrents
unfolding remove_torrent
remove_torrent-torrents k s = elim (Option-cases (lookup k s.torrents)) [
  | inl e ↦ ground (arith, erase_of_none k s.torrents, e)
  | inr (t, e) ↦ ground (arith, e)
]

pub delete_all_empties :
    (sources : List Str) (s : State)
    → ((j : Str) → contains (keys s.torrents) j ≡ true → contains sources j ≡ true)
    → (delete_all sources s).torrents ≡ []
unfolding delete_all delete_torrent contains
delete_all_empties [] s all = no_keys s.torrents all
delete_all_empties (k ∷ rest) s all = delete_all_empties rest (remove_torrent k s) (λ j h.
    let left = contains-keys-erase k j s.torrents (rw (remove_torrent-torrents k s) at h) in
    ground (arith, left, all j left.0, str_beq_iff j k))

remove_torrent-removed :
    (k : Str) (s : State) (h : ℕ)
    → contains s.removed h ≡ true
    → contains (remove_torrent k s).removed h ≡ true
unfolding remove_torrent contains
remove_torrent-removed k s h there = ground arith

pub delete_all-removed :
    (sources : List Str) (s : State) (h : ℕ)
    → contains s.removed h ≡ true
    → contains (delete_all sources s).removed h ≡ true
unfolding delete_all delete_torrent
delete_all-removed [] s h there = there
delete_all-removed (k ∷ rest) s h there =
    delete_all-removed rest (remove_torrent k s) h (remove_torrent-removed k s h there)

pub remove_torrent-handles : (k : Str) (s : State) → (remove_torrent k s).handles ≡ s.handles
unfolding remove_torrent
remove_torrent-handles k s = ground arith

remove_torrent_removes :
    (k : Str) (s : State) (t : ℕ)
    → lookup k s.torrents ≡ some t
    → contains (remove_torrent k s).removed (s.handles t) ≡ true
unfolding remove_torrent contains
remove_torrent_removes k s t found = ground arith

lookup_kept :
    (j k : Str) (s : State) (t : ℕ)
    → (k == j) ≡ false
    → lookup k s.torrents ≡ some t
    → lookup k (remove_torrent j s).torrents ≡ some t
lookup_kept j k s t other found =
    rw (remove_torrent-torrents j s)
      (ground (arith, lookup-erase j k s.torrents, str_beq_iff k j, str_beq_iff j k))

pub delete_all_removes :
    (sources : List Str) (s : State) (k : Str) (t : ℕ)
    → lookup k s.torrents ≡ some t
    → contains sources k ≡ true
    → contains (delete_all sources s).removed (s.handles t) ≡ true
unfolding delete_all delete_torrent contains
delete_all_removes [] s k t found there = cc
delete_all_removes (j ∷ rest) s k t found there = elim (Bool-cases (k == j)) [
  | inl same ↦
      delete_all-removed rest (remove_torrent j s) (s.handles t)
        (remove_torrent_removes j s t (ground (arith, str_beq_iff k j)))
  | inr other ↦
      let left =
        delete_all_removes rest (remove_torrent j s) k t (lookup_kept j k s t other found)
          (ground arith) in
      subst (λ f. contains (delete_all rest (remove_torrent j s)).removed (f t) ≡ true)
        (remove_torrent-handles j s) left
]

-- Whether the handle of the torrent to which a source leads, if it leads to one, has been removed from
-- the session in the second state.
abbrev pub is_removed : State → State → Str → Bool
is_removed s t source = elim (lookup source s.torrents) [
  | none ↦ true
  | some p ↦ contains t.removed (s.handles p)
]

delete_all-is_removed :
    (s : State) (k : Str) → is_removed s (delete_all (keys s.torrents) s) k ≡ true
delete_all-is_removed s k = elim (Option-cases (lookup k s.torrents)) [
  | inl e ↦ ground (arith, e)
  | inr (p, e) ↦ ground (
    arith,
    e,
    delete_all_removes (keys s.torrents) s k p e (lookup-contains-keys k s.torrents p e),
  )
]

module _ (requests : ℕ → Request) where
  -- `Stop`, when nothing comes between its two halves, ends with the client not running and no torrent
  -- in the map, and has removed from the session the handle of the torrent to which a source led.
  pub stop_clears :
      (s : State) (source : Str)
      → s.panicked ≡ false
      → (t : State) × (run requests (stop_running ∷ stop_torrents ∷ []) s ≡ some t)
        × (t.running ≡ false)
        × (t.torrents ≡ [])
        × (is_removed s t source ≡ true)
  unfolding run act dispatch stop_client stop_all
  stop_clears s source up =
      let b = record s { running = false; stops = s.stops } in
      let r = delete_all-Removed (keys s.torrents) b in
      (
        delete_all (keys s.torrents) b,
        ground (arith, up),
        ground (arith, r.same),
        delete_all_empties (keys s.torrents) b (λ j h. h),
        delete_all-is_removed b source,
      )

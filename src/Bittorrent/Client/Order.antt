-- ===== src/Bittorrent/Client/Order.antt =====
-- The loops over `bt.torrents` of bittorrent/bittorrent.go: a range over a Go map takes the entries in any
-- order. Two lists of entries are the same map when they have each key once and the same lookups.
pub mod Alike
pub mod Steps
pub mod Runs
mod Tests
use quayctl.Base.{
  Str, str_eq, str_beq_iff, ℕ, ◌≡◌, refl, sym, ◌∙◌, ap, subst, Bool, true, false, List, [], ◌∷◌,
  Option, none, some, ◌⊎◌, inl, inr, contains, Distinct, nat_eq, ◌==◌, if◌then◌else◌, arith,
  Option-cases, Bool-cases,
}
use quayctl.Base.Dict.{
  Dict, lookup, insert, erase, keys, lookup-erase, lookup-insert, lookup-contains-keys,
  keys_erase-Distinct, erase_no_key,
}
use quayctl.Bittorrent.Client.{State, find_torrent, remove_torrent, delete_torrent, delete_all}
use quayctl.Bittorrent.Client.Stop.{remove_torrent-torrents, remove_torrent-handles}

pub record SameMap (d e : Dict ℕ) : Type 0 where
  pub left_distinct : Distinct (keys d)
  pub right_distinct : Distinct (keys e)
  pub lookups : (k : Str) → lookup k d ≡ lookup k e

-- No two torrents of a map have one handle.
abbrev pub HandlesApart : (ℕ → ℕ) → Dict ℕ → Type 0
HandlesApart handles d =
    (k j : Str) (p q : ℕ)
    → lookup k d ≡ some p
    → lookup j d ≡ some q
    → handles p ≡ handles q
    → p ≡ q

pub erase-SameMap : (k : Str) (d e : Dict ℕ) → SameMap d e → SameMap (erase k d) (erase k e)
erase-SameMap k d e same = record {
  left_distinct = keys_erase-Distinct k d same.left_distinct;
  right_distinct = keys_erase-Distinct k e same.right_distinct;
  lookups = λ j. ground (arith, lookup-erase k j d, lookup-erase k j e, same.lookups j);
}

pub insert-SameMap :
    (k : Str) (p : ℕ) (d e : Dict ℕ) → SameMap d e → SameMap (insert k p d) (insert k p e)
unfolding insert keys
insert-SameMap k p d e same = record {
  left_distinct = (erase_no_key k d, keys_erase-Distinct k d same.left_distinct);
  right_distinct = (erase_no_key k e, keys_erase-Distinct k e same.right_distinct);
  lookups = λ j. ground (arith, lookup-insert k j p d, lookup-insert k j p e, same.lookups j);
}

-- A torrent that `findTorrent` finds has a key of its own.
find_torrent-lookup :
    (handles : ℕ → ℕ) (h : ℕ) (d : Dict ℕ) (p : ℕ)
    → Distinct (keys d)
    → find_torrent handles h d ≡ some p
    → (k : Str) × (lookup k d ≡ some p) × (handles p ≡ h)
unfolding find_torrent keys lookup
find_torrent-lookup handles h [] p distinct e = cc
find_torrent-lookup handles h ((j, q) ∷ rest) p distinct e = elim (Bool-cases (h == handles q)) [
  | inl here ↦ (j, ground (arith, here, e, str_beq_iff j j), ground (arith, here, e))
  | inr later ↦
      let (k, found, same) =
        find_torrent-lookup handles h rest p distinct.1 (ground (arith, later, e)) in
      (
        k,
        ground (arith, found, distinct.0, lookup-contains-keys k rest p found, str_beq_iff j k),
        same,
      )
]

find_torrent-none :
    (handles : ℕ → ℕ) (h : ℕ) (d : Dict ℕ) (k : Str) (p : ℕ)
    → find_torrent handles h d ≡ none
    → lookup k d ≡ some p
    → (h == handles p) ≡ false
unfolding find_torrent lookup
find_torrent-none handles h [] k p e found = cc
find_torrent-none handles h ((j, q) ∷ rest) k p e found =
    ground (arith, find_torrent-none handles h rest k p, e, found)

-- The torrent of a handle is found in any order of the entries.
pub find_torrent-SameMap :
    (handles : ℕ → ℕ) (h : ℕ) (d e : Dict ℕ)
    → SameMap d e
    → HandlesApart handles d
    → find_torrent handles h d ≡ find_torrent handles h e
find_torrent-SameMap handles h d e same apart = elim (Option-cases (find_torrent handles h d)) [
  | inl none_d ↦ elim (Option-cases (find_torrent handles h e)) [
    | inl none_e ↦ none_d ∙ sym none_e
    | inr (q, in_e) ↦
        let (j, at_j, same_q) = find_torrent-lookup handles h e q same.right_distinct in_e in
        absurd
          (ground (arith, find_torrent-none handles h d j q none_d (same.lookups j ∙ at_j), same_q))
  ]
  | inr (p, in_d) ↦
      let (k, at_k, same_p) = find_torrent-lookup handles h d p same.left_distinct in_d in
      elim (Option-cases (find_torrent handles h e)) [
        | inl none_e ↦ absurd (
            ground (
              arith,
              find_torrent-none handles h e k p none_e (sym (same.lookups k) ∙ at_k),
              same_p,
            ))
        | inr (q, in_e) ↦
            let (j, at_j, same_q) = find_torrent-lookup handles h e q same.right_distinct in_e in
            in_d
            ∙ ap some (apart k j p q at_k (same.lookups j ∙ at_j) (same_p ∙ sym same_q))
            ∙ sym in_e
      ]
]

-- A handle that is removed from the session is one that was removed before, or of a torrent.
abbrev pub RemovedOf : State → ℕ → Type 0
RemovedOf s h =
    (contains s.removed h ≡ true)
    ⊎ ((k : Str) × (p : ℕ) × (lookup k s.torrents ≡ some p) × (s.handles p ≡ h))

remove_torrent-RemovedOf :
    (k : Str) (s : State) (h : ℕ) → contains (remove_torrent k s).removed h ≡ true → RemovedOf s h
unfolding remove_torrent contains
remove_torrent-RemovedOf k s h before = elim (Option-cases (lookup k s.torrents)) [
  | inl e ↦ inl (ground (arith, e, before))
  | inr (p, e) ↦ elim (Bool-cases (h == s.handles p)) [
    | inl same ↦ inr (k, p, e, ground (arith, same))
    | inr apart ↦ inl (ground (arith, e, before, apart))
  ]
]

lookup-remove_torrent :
    (k j : Str) (s : State) (p : ℕ)
    → lookup j (remove_torrent k s).torrents ≡ some p
    → lookup j s.torrents ≡ some p
lookup-remove_torrent k j s p found =
    ground (
      arith,
      lookup-erase k j s.torrents,
      sym (ap (lookup j) (remove_torrent-torrents k s)) ∙ found,
    )

pub delete_all-RemovedOf :
    (sources : List Str) (s : State) (h : ℕ)
    → contains (delete_all sources s).removed h ≡ true
    → RemovedOf s h
unfolding delete_all delete_torrent
delete_all-RemovedOf [] s h there = inl there
delete_all-RemovedOf (k ∷ rest) s h there =
    elim (delete_all-RemovedOf rest (remove_torrent k s) h there) [
      | inl before ↦ remove_torrent-RemovedOf k s h before
      | inr (j, p, found, same) ↦ inr (
        j,
        p,
        lookup-remove_torrent k j s p found,
        sym (ap (λ (f : ℕ → ℕ). f p) (remove_torrent-handles k s)) ∙ same,
      )
    ]

-- ===== src/Engine/Torrent/Display/Shown.antt =====
-- What the progress bars of engine/torrent.go show.
use quayctl.Base.{
  Str, str_eq, str_beq_iff, nat_eq, ℕ, zero, suc, ◌+◌, ◌<◌, ◌≡◌, refl, sym, ◌∙◌, ap, false, List,
  [], ◌∷◌, some, Outcome, get_elem?, contains, Distinct, arith, ◌==◌, if◌then◌else◌,
}
use quayctl.Base.Dict.{Dict, lookup, insert, lookup-insert}
use quayctl.Base.Int.{ℤ}
use quayctl.Engine.{TorrentInfo, ids}
use quayctl.Bittorrent.Status.{Status}
use quayctl.Engine.Torrent.Display.{
  Bar, pb_map_from, pb_map, change_bar, refresh, refresh_bars, show_step,
}

lookup-pb_map_from-other :
    (ts : List TorrentInfo) (n : ℕ) (m : Dict ℕ) (k : Str)
    → contains (ids ts) k ≡ false
    → lookup k (pb_map_from n ts m) ≡ lookup k m
unfolding pb_map_from contains
lookup-pb_map_from-other [] n m k out = refl
lookup-pb_map_from-other (t ∷ ts) n m k out = ground (
  arith,
  lookup-pb_map_from-other ts (n + 1) (insert t.id n m) k,
  lookup-insert t.id k n m,
  str_beq_iff t.id k,
  str_beq_iff k t.id,
)

lookup-pb_map_from :
    (ts : List TorrentInfo) (n i : ℕ) (t : TorrentInfo) (m : Dict ℕ)
    → Distinct (ids ts)
    → get_elem? ts i ≡ some t
    → lookup t.id (pb_map_from n ts m) ≡ some (n + i)
unfolding pb_map_from contains
lookup-pb_map_from [] n i t m distinct e = cc
lookup-pb_map_from (u ∷ ts) n zero t m distinct e = ground (
  arith,
  lookup-pb_map_from-other ts (n + 1) (insert u.id n m) u.id distinct.0,
  lookup-insert u.id u.id n m,
  str_beq_iff u.id u.id,
)
lookup-pb_map_from (u ∷ ts) n (suc i) t m distinct e =
    ground (arith, lookup-pb_map_from ts (n + 1) i t (insert u.id n m) distinct.1 e)

get_elem?-change_bar :
    (i j : ℕ) (f : Bar → Bar) (bars : List Bar) (bar : Bar)
    → get_elem? bars j ≡ some bar
    → get_elem? (change_bar i f bars) j ≡ some (if i == j then f bar else bar)
unfolding change_bar
get_elem?-change_bar i j f [] bar e = cc
get_elem?-change_bar zero zero f (b ∷ bars) bar e = ground arith
get_elem?-change_bar zero (suc j) f (b ∷ bars) bar e = ground arith
get_elem?-change_bar (suc i) zero f (b ∷ bars) bar e = ground arith
get_elem?-change_bar (suc i) (suc j) f (b ∷ bars) bar e =
    ground (arith, get_elem?-change_bar i j f bars bar e)

module _ {F : Type 0} (to_int : F → ℤ) (bytes : F → Str)
    (get_status : Str → Outcome Str (Status F)) where
  abbrev status_bar : TorrentInfo → Bar → Bar
  status_bar t = refresh to_int bytes get_status (get_status t.torrent_path)

  -- The torrents from a position on, with the map of all.
  abbrev IsMapped : Dict ℕ → ℕ → List TorrentInfo → Type 0
  IsMapped m n ts =
      (i : ℕ) (t : TorrentInfo) → get_elem? ts i ≡ some t → lookup t.id m ≡ some (n + i)

  IsMapped-rest :
      (m : Dict ℕ) (n : ℕ) (t : TorrentInfo) (ts : List TorrentInfo)
      → IsMapped m n (t ∷ ts)
      → IsMapped m (n + 1) ts
  IsMapped-rest m n t ts mapped i u e = ground (arith, mapped (suc i) u)

  refresh_bars-cons :
      (m : Dict ℕ) (n : ℕ) (t : TorrentInfo) (ts : List TorrentInfo) (bars : List Bar)
      → lookup t.id m ≡ some n
      → refresh_bars to_int bytes get_status m (t ∷ ts) bars
        ≡ refresh_bars to_int bytes get_status m ts (change_bar n (status_bar t) bars)
  unfolding refresh_bars
  refresh_bars-cons m n t ts bars at_n = rw (at_n, refresh_bars) refl

  -- The bars before those of the torrents are left alone.
  refresh_bars-before :
      (m : Dict ℕ) (n : ℕ) (ts : List TorrentInfo) (bars : List Bar) (j : ℕ) (bar : Bar)
      → IsMapped m n ts
      → j < n
      → get_elem? bars j ≡ some bar
      → get_elem? (refresh_bars to_int bytes get_status m ts bars) j ≡ some bar
  unfolding refresh_bars
  refresh_bars-before m n [] bars j bar mapped before e = e
  refresh_bars-before m n (t ∷ ts) bars j bar mapped before e =
      let kept : get_elem? (change_bar n (status_bar t) bars) j ≡ some bar =
        ground (arith, get_elem?-change_bar n j (status_bar t) bars bar e) in
      ap (λ b. get_elem? b j) (refresh_bars-cons m n t ts bars (ground (arith, mapped zero t)))
      ∙ refresh_bars-before m (n + 1) ts (change_bar n (status_bar t) bars) j bar
          (IsMapped-rest m n t ts mapped) (omega (arith, before)) kept

  refresh_bars-from :
      (m : Dict ℕ) (n : ℕ) (ts : List TorrentInfo) (bars : List Bar) (i : ℕ) (t : TorrentInfo)
      (bar : Bar)
      → IsMapped m n ts
      → get_elem? ts i ≡ some t
      → get_elem? bars (n + i) ≡ some bar
      → get_elem? (refresh_bars to_int bytes get_status m ts bars) (n + i) ≡ some (status_bar t bar)
  unfolding refresh_bars
  refresh_bars-from m n [] bars i t bar mapped found e = cc
  refresh_bars-from m n (u ∷ ts) bars zero t bar mapped found e =
      let same : u ≡ t = ground (arith, found) in
      let shown : get_elem? (change_bar n (status_bar u) bars) (n + 0) ≡ some (status_bar u bar) =
        ground (arith, get_elem?-change_bar n (n + 0) (status_bar u) bars bar e) in
      ap (λ b. get_elem? b (n + 0))
        (refresh_bars-cons m n u ts bars (ground (arith, mapped zero u)))
      ∙ refresh_bars-before m (n + 1) ts (change_bar n (status_bar u) bars) (n + 0)
          (status_bar u bar) (IsMapped-rest m n u ts mapped) (omega arith) shown
      ∙ ap (λ v. some (status_bar v bar)) same
  refresh_bars-from m n (u ∷ ts) bars (suc i) t bar mapped found e =
      let index : n + suc i ≡ (n + 1) + i = omega arith in
      let kept : get_elem? (change_bar n (status_bar u) bars) ((n + 1) + i) ≡ some bar = ground (
        arith,
        get_elem?-change_bar n ((n + 1) + i) (status_bar u) bars bar
            (ap (get_elem? bars) (sym index) ∙ e),
      ) in
      ap (λ b. get_elem? b (n + suc i))
        (refresh_bars-cons m n u ts bars (ground (arith, mapped zero u)))
      ∙ ap
          (get_elem? (refresh_bars to_int bytes get_status m ts (change_bar n (status_bar u) bars)))
          index
      ∙ refresh_bars-from m (n + 1) ts (change_bar n (status_bar u) bars) i t bar
          (IsMapped-rest m n u ts mapped) found kept

  -- Once the status is asked for again, and the downloads are not over, then, for torrents of different ids,
  -- the bar at a torrent's place in the pool is its former bar with the status of that very torrent: a status
  -- that could not be had leaves it, and no other torrent's status is shown there.
  pub show_step-refresh :
      (torrents : List TorrentInfo) (bars after : List Bar) (i : ℕ) (torrent : TorrentInfo)
      (bar : Bar)
      → Distinct (ids torrents)
      → get_elem? torrents i ≡ some torrent
      → get_elem? bars i ≡ some bar
      → show_step to_int bytes get_status (pb_map torrents) torrents false bars ≡ some after
      → get_elem? after i
        ≡ some (refresh to_int bytes get_status (get_status torrent.torrent_path) bar)
  unfolding show_step pb_map
  show_step-refresh torrents bars after i torrent bar distinct found at_i step =
      let mapped : IsMapped (pb_map torrents) 0 torrents =
        λ j t e. lookup-pb_map_from torrents 0 j t [] distinct e in
      let same : refresh_bars to_int bytes get_status (pb_map torrents) torrents bars ≡ after =
        ground (arith, step) in
      let index : 0 + i ≡ i = omega arith in
      sym (ap (λ b. get_elem? b i) same)
      ∙ ap (get_elem? (refresh_bars to_int bytes get_status (pb_map torrents) torrents bars))
          (sym index)
      ∙ refresh_bars-from (pb_map torrents) 0 torrents bars i torrent bar mapped found
          (ap (get_elem? bars) index ∙ at_i)

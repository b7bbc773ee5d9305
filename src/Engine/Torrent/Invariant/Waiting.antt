-- ===== src/Engine/Torrent/Invariant/Waiting.antt =====
-- The actions of the waiter of `DownloadTorrents`, and the signal, keep the invariant.
use quayctl.Base.Int.{ℤ}
use quayctl.Engine.Torrent.Invariant.Defs.{WaiterOk, Inv}
use quayctl.Engine.Torrent.Invariant.Workers.{WaiterOk-mono}
use quayctl.Base.{
  Option, str_eq, ◌+◌, ◌≡◌, refl, true, List, some, Distinct, arith, lt_of_get_elem?-none,
  Option-cases, inl, inr, sym, subst,
}
use quayctl.Engine.{ids, TorrentInfo}
use quayctl.Engine.Torrent.{
  Waiter, awaits, stopping, closing, ended, exited, State, id_at, await_torrent, stop,
  close_complete_channel, shutdown,
}

module _ (torrents : List TorrentInfo) (seeds : Option ℤ) (distinct : Distinct (ids torrents)) where
  -- The waiter changes no worker and no channel of a torrent.
  module _ (s t : State) (inv : Inv torrents seeds s) where
    await_torrent-waits :
        (w : Waiter)
        → s.waiter ≡ w
        → WaiterOk torrents seeds s w
        → await_torrent torrents seeds s ≡ some t
        → WaiterOk torrents seeds t t.waiter
    unfolding await_torrent
    await_torrent-waits (awaits k) ew h e = elim (Option-cases (id_at torrents seeds k)) [
      | inl over ↦
          let stops : t ≡ record s { waiter = stopping } = ground arith in
          subst (λ x. WaiterOk torrents seeds x x.waiter) (sym stops)
            ((λ j b hj. h.0 j b (lt_of_get_elem?-none (ids torrents) j k b over hj) hj), h.1)
      | inr (a, here) ↦
          let moves : t ≡ record s { waiter = awaits (k + 1) } = ground arith in
          let closed : s.completed a ≡ true = ground arith in
          subst (λ x. WaiterOk torrents seeds x x.waiter) (sym moves)
            ((λ j b lt hj. grind (arith, h.0 j b)), h.1)
    ]
    await_torrent-waits stopping ew h e = ground arith
    await_torrent-waits _ ew h e = ground arith

    pub await_torrent-Inv : await_torrent torrents seeds s ≡ some t → Inv torrents seeds t
    unfolding await_torrent
    await_torrent-Inv e = record {
      each = λ i b h. ground (arith, inv.each i b h);
      waits = await_torrent-waits s.waiter refl inv.waits e;
      unfinished = ground (arith, inv.unfinished);
      fine = ground (arith, inv.fine);
    }

    stop-waits :
        (w : Waiter)
        → s.waiter ≡ w
        → WaiterOk torrents seeds s w
        → stop torrents seeds s ≡ some t
        → WaiterOk torrents seeds t t.waiter
    unfolding stop
    stop-waits stopping ew h e =
        let moves : t ≡ record s { client_stopped = true; waiter = closing } = ground arith in
        subst (λ x. WaiterOk torrents seeds x x.waiter) (sym moves) (h.0, refl, h.1)
    stop-waits _ ew h e = ground arith

    close_complete_channel-waits :
        (w : Waiter)
        → s.waiter ≡ w
        → WaiterOk torrents seeds s w
        → close_complete_channel torrents seeds s ≡ some t
        → WaiterOk torrents seeds t t.waiter
    unfolding close_complete_channel
    close_complete_channel-waits closing ew h e =
        let moves : t ≡ record s { complete = true; waiter = ended } = ground arith in
        subst (λ x. WaiterOk torrents seeds x x.waiter) (sym moves) (h.0, h.1, refl)
    close_complete_channel-waits _ ew h e = ground arith

    pub stop-Inv : stop torrents seeds s ≡ some t → Inv torrents seeds t
    unfolding stop
    stop-Inv e = record {
      each = λ i b h. ground (arith, inv.each i b h);
      waits = stop-waits s.waiter refl inv.waits e;
      unfinished = ground (arith, inv.unfinished);
      fine = ground (arith, inv.fine);
    }

    pub close_complete_channel-Inv :
        close_complete_channel torrents seeds s ≡ some t → Inv torrents seeds t
    unfolding close_complete_channel
    close_complete_channel-Inv e = record {
      each = λ i b h. ground (arith, inv.each i b h);
      waits = close_complete_channel-waits s.waiter refl inv.waits e;
      unfinished = ground (arith, inv.unfinished);
      fine = ground (arith, inv.fine, inv.unfinished);
    }

    pub shutdown-Inv : shutdown torrents seeds s ≡ some t → Inv torrents seeds t
    unfolding shutdown
    shutdown-Inv e =
        let after : State = record s { client_stopped = true; status = exited } in
        let moves : after ≡ t = ground arith in
        subst (Inv torrents seeds) moves (record {
          each = inv.each;
          waits =
              WaiterOk-mono torrents seeds distinct s after refl (λ b h. h) refl (λ _. refl)
                s.waiter inv.waits;
          unfinished = inv.unfinished;
          fine = λ h. cc;
        })

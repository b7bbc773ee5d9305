-- ===== src/Engine/Torrent/Progress.antt =====
-- The actions that the states of `DownloadTorrents` in engine/torrent.go allow.
use quayctl.Base.Int.{ℤ}
use quayctl.Base.{
  Option, Str, str_eq, ℕ, ◌≡◌, ◌≢◌, refl, Bool, true, false, List, [], none, some, ◌||◌, Distinct,
  arith, Option-cases, Bool-cases, inl, inr,
}
use quayctl.Engine.{ids, TorrentInfo}
use quayctl.Engine.Torrent.{
  Worker, downloading, stored, announced, seeded, done, Waiter, awaits, stopping, closing, ended,
  running, closes, is_nil, State, Action, download_ok, download_failed, announce, end_of_seeding,
  go_on, finish, await_next, stop_client, close_complete, signal, id_at, store_path,
  mark_downloaded, end_seeding, pass_seeding, mark_completed, await_torrent, stop,
  close_complete_channel, dispatch, act, Reach,
}
use quayctl.Engine.Torrent.Invariant.{Inv, Reach-Inv}

-- The actions of a run in which no download fails and no signal comes.
abbrev pub is_work : Action → Bool
is_work (download_failed i) = false
is_work signal = false
is_work _ = true

module _ (torrents : List TorrentInfo) (seeds : Option ℤ) (finite : closes seeds ≡ true) where
  -- An action that the state allows, and that is work.
  pub record Move (s : State) : Type 0 where
    pub action : Action
    pub works : is_work action ≡ true
    pub possible : act torrents seeds action s ≢ none

  worker-Move :
      (s : State) (k : ℕ) (b : Str) (w : Worker)
      → s.status ≡ running
      → id_at torrents seeds k ≡ some b
      → s.workers k ≡ w
      → w ≢ done
      → Move s
  unfolding act dispatch store_path mark_downloaded end_seeding pass_seeding mark_completed
  worker-Move s k b downloading r h e n = record {
    action = download_ok k [];
    works = refl;
    possible = λ z. ground arith;
  }
  worker-Move s k b stored r h e n = record {
    action = announce k;
    works = refl;
    possible = λ z. ground arith;
  }
  worker-Move s k b announced r h e n = elim (Bool-cases (is_nil seeds || s.keep_seeding k)) [
    | inl free ↦ record { action = go_on k; works = refl; possible = λ z. ground arith }
    | inr waits ↦
        let open_ : s.keep_seeding k ≡ false = ground arith in
        record { action = end_of_seeding k; works = refl; possible = λ z. ground arith }
  ]
  worker-Move s k b seeded r h e n = record {
    action = finish k;
    works = refl;
    possible = λ z. ground arith;
  }
  worker-Move s k b done r h e n = absurd (n refl)

  -- A worker that has not ended can move; when all above have ended, the waiter can.
  waiter-Move :
      (s : State) (w : Waiter)
      → Inv torrents seeds s
      → s.status ≡ running
      → s.complete ≡ false
      → s.waiter ≡ w
      → Move s
  unfolding act dispatch await_torrent stop close_complete_channel
  waiter-Move s (awaits k) inv r c e = elim (Option-cases (id_at torrents seeds k)) [
    | inl over ↦ record { action = await_next; works = refl; possible = λ z. ground arith }
    | inr (b, h) ↦ elim (Bool-cases (s.completed b)) [
      | inl closed ↦ record { action = await_next; works = refl; possible = λ z. ground arith }
      | inr waits ↦ worker-Move s k b (s.workers k) r h refl (λ d. ground (arith, inv.each k b h))
    ]
  ]
  waiter-Move s stopping inv r c e = record {
    action = stop_client;
    works = refl;
    possible = λ z. ground arith;
  }
  waiter-Move s closing inv r c e = record {
    action = close_complete;
    works = refl;
    possible = λ z. ground arith;
  }
  waiter-Move s ended inv r c e = let done_ = rw e at inv.waits in cc (done_.2)

  -- If no id occurs twice, and the downloads are not seeded, or seeded for a positive duration, then in every
  -- state that the goroutines reach, while the process runs and `CompleteChannel` is open, some action
  -- other than a failed download or a signal is possible.
  pub never_stuck :
      Distinct (ids torrents)
      → {s : State} → Reach torrents seeds s
      → s.status ≡ running
      → s.complete ≡ false
      → Move s
  never_stuck distinct {s} r up c =
      waiter-Move s s.waiter (Reach-Inv torrents seeds distinct r) up c refl

-- ===== src/Engine/Torrent/Unended.antt =====
-- The workers of `DownloadTorrents` in engine/torrent.go that seed, as long as no seeding has ended.
use quayctl.Base.{
  Str, str_eq, nat_eq, ℕ, ◌≡◌, refl, Bool, true, false, List, some, arith, Bool-cases, inl, inr,
  Distinct,
}
use quayctl.Base.Int.{ℤ}
use quayctl.Engine.{TorrentInfo, ids}
use quayctl.Engine.Torrent.{
  id_at, Worker, downloading, stored, announced, seeded, done, State, Action, end_of_seeding, Reach,
  init, store_path, fail, mark_downloaded, close_downloaded, end_seeding, pass_seeding,
  close_completed, mark_completed, await_torrent, stop, close_complete_channel, shutdown, dispatch,
  act,
}
use quayctl.Engine.Torrent.Invariant.{WorkerOk, Reach-Inv}
use quayctl.Engine.Torrent.Safety.{complete_all}

-- Whether a worker has not gone on from its wait for the seeding.
unfoldable pub is_before : Worker → Bool
is_before downloading = true
is_before stored = true
is_before announced = true
is_before _ = false

pub record Unended (s : State) : Type 0 where
  pub channels : (i : ℕ) → s.keep_seeding i ≡ false
  pub workers : (i : ℕ) → is_before (s.workers i) ≡ true

abbrev pub ends_seeding : Action → Bool
ends_seeding (end_of_seeding i) = true
ends_seeding _ = false

pub init-Unended : Unended init
unfolding init is_before
init-Unended = record { channels = λ i. refl; workers = λ i. refl }

module _ (torrents : List TorrentInfo) (duration : ℤ) where
  pub act-Unended :
      (a : Action) (s t : State)
      → Unended s
      → ends_seeding a ≡ false
      → act torrents (some duration) a s ≡ some t
      → Unended t
  unfolding act dispatch store_path fail mark_downloaded close_downloaded end_seeding pass_seeding
      mark_completed close_completed await_torrent stop close_complete_channel shutdown is_before
  act-Unended a s t unended open_ e = record {
    channels = λ i. ground (arith, e, unended.channels i);
    workers = λ i. ground (arith, e, unended.workers i, unended.channels i);
  }

  WorkerOk-before :
      (s : State) (b : Str) (w : Worker)
      → WorkerOk s b w
      → is_before w ≡ true
      → s.completed b ≡ false
  unfolding is_before
  WorkerOk-before s b downloading ok_ before = ok_.1
  WorkerOk-before s b stored ok_ before = ok_.1
  WorkerOk-before s b announced ok_ before = ok_.1
  WorkerOk-before s b seeded ok_ before = cc
  WorkerOk-before s b done ok_ before = cc

  -- Where no seeding has ended, `CompleteChannel` is open, if there is a torrent.
  pub Unended-open :
      Distinct (ids torrents)
      → {s : State} → Reach torrents (some duration) s
      → Unended s
      → (i : ℕ) (b : Str) → id_at torrents (some duration) i ≡ some b
      → s.complete ≡ false
  Unended-open distinct {s} r unended i b at_i = elim (Bool-cases s.complete) [
    | inl complete ↦
        let still =
          WorkerOk-before s b (s.workers i)
            ((Reach-Inv torrents (some duration) distinct r).each i b at_i) (unended.workers i) in
        let closed = (complete_all torrents (some duration) distinct r complete i b at_i).2 in
        absurd (ground (arith, still, closed))
    | inr open_ ↦ open_
  ]

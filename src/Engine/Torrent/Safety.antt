-- ===== src/Engine/Torrent/Safety.antt =====
-- What holds of the channels and paths of `DownloadTorrents` in engine/torrent.go.
use quayctl.Base.Int.{ℤ}
use quayctl.Base.{
  Option, Str, str_eq, str_beq_iff, ℕ, ◌≡◌, ◌≢◌, refl, true, false, List, [], some, Distinct, arith,
}
use quayctl.Base.Dict.{lookup, insert}
use quayctl.Engine.{ids, TorrentInfo}
use quayctl.Engine.Torrent.{
  Worker, downloading, stored, announced, done, panicked, State, download_ok, announce, update,
  close, init, close_downloaded, id_at, store_path, mark_downloaded, dispatch, act, Reach, start,
  later,
}
use quayctl.Engine.Torrent.Invariant.{WorkerOk, is_some, Reach-Inv}

module _ (torrents : List TorrentInfo) (seeds : Option ℤ) where
  -- If no id occurs twice among the torrents, no goroutine ever closes a channel a second time.
  pub closes_once :
      Distinct (ids torrents) → {s : State} → Reach torrents seeds s → s.status ≢ panicked
  closes_once distinct r = (Reach-Inv torrents seeds distinct r).fine

  WorkerOk-recorded :
      (s : State) (b : Str) (w : Worker)
      → WorkerOk s b w
      → s.downloaded b ≡ true
      → is_some (lookup b s.torrent_paths) ≡ true
  WorkerOk-recorded s b downloading h e = cc
  WorkerOk-recorded s b stored h e = h.2
  WorkerOk-recorded s b _ h e = h.2

  -- If no id occurs twice, then in every state that the goroutines reach, a torrent whose
  -- downloaded channel is closed has a path in `TorrentPaths`.
  pub downloaded_recorded :
      Distinct (ids torrents)
      → {s : State} → Reach torrents seeds s
      → (i : ℕ) (b : Str) → id_at torrents seeds i ≡ some b
      → s.downloaded b ≡ true
      → (p : Str) × (lookup b s.torrent_paths ≡ some p)
  downloaded_recorded distinct {s} r i b h e =
      let there =
        WorkerOk-recorded s b (s.workers i) ((Reach-Inv torrents seeds distinct r).each i b h) e in
      ground arith

  WorkerOk-completed :
      (s : State) (b : Str) (w : Worker)
      → WorkerOk s b w
      → s.completed b ≡ true
      → (s.downloaded b ≡ true) × (is_some (lookup b s.torrent_paths) ≡ true)
  WorkerOk-completed s b done h e = (h.0, h.2)
  WorkerOk-completed s b _ h e = cc

  -- If no id occurs twice, then once `CompleteChannel` is closed, for each of the torrents the
  -- client has been stopped, both channels of the torrent are closed, and it has a path in
  -- `TorrentPaths`.
  pub complete_all :
      Distinct (ids torrents)
      → {s : State} → Reach torrents seeds s
      → s.complete ≡ true
      → (i : ℕ) (b : Str) → id_at torrents seeds i ≡ some b
      → (s.client_stopped ≡ true)
        × (s.downloaded b ≡ true)
        × (s.completed b ≡ true)
        × ((p : Str) × (lookup b s.torrent_paths ≡ some p))
  complete_all distinct {s} r c i b h =
      let inv = Reach-Inv torrents seeds distinct r in
      let waits = rw (inv.unfinished c) at inv.waits in
      let closed = waits.0 i b h in
      let known = WorkerOk-completed s b (s.workers i) (inv.each i b h) closed in
      (waits.1, known.0, closed, ground arith)

  module _ (i j : ℕ) (b : Str) (apart : i ≢ j) where
    abbrev first_stored : State
    first_stored = record init {
      torrent_paths = insert b [] [];
      workers = update (λ _. downloading) i stored;
    }

    abbrev first_announced : State
    first_announced = record first_stored {
      downloaded = close (λ _. false) b;
      workers = update (update (λ _. downloading) i stored) i announced;
    }

    abbrev second_stored : State
    second_stored = record first_announced {
      torrent_paths = insert b [] (insert b [] []);
      workers = update (update (update (λ _. downloading) i stored) i announced) j stored;
    }

    -- If two torrents have one id, their workers share a channel, and there is a run in which a goroutine
    -- panics by closing it a second time.
    pub shared_id_panics :
        id_at torrents seeds i ≡ some b
        → id_at torrents seeds j ≡ some b
        → (s : State) × Reach torrents seeds s × (s.status ≡ panicked)
    unfolding act dispatch store_path mark_downloaded close_downloaded init
    shared_id_panics hi hj =
        let r1 : Reach torrents seeds first_stored =
          later (download_ok i []) start (ground arith) in
        let r2 : Reach torrents seeds first_announced =
          later (announce i) r1 (ground (arith, str_beq_iff b b)) in
        let r3 : Reach torrents seeds second_stored = later (download_ok j []) r2 (ground arith) in
        (
          record second_stored { status = panicked },
          later (announce j) r3 (ground (arith, str_beq_iff b b)),
          refl,
        )

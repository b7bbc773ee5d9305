-- ===== src/Engine/Torrent/Invariant/Defs.antt =====
-- The invariant of the goroutines of `DownloadTorrents`, for torrents whose ids are distinct.
use quayctl.Base.Int.{ℤ}
use quayctl.Base.{Str, str_eq, ℕ, ◌<◌, ◌≡◌, ◌≢◌, Bool, true, false, List, Option, none, some, arith}
use quayctl.Base.Dict.{lookup}
use quayctl.Engine.{TorrentInfo}
use quayctl.Engine.Torrent.{
  Worker, downloading, stored, done, Waiter, awaits, stopping, closing, ended, panicked, State,
  id_at, store_path, fail, mark_downloaded, end_seeding, pass_seeding, mark_completed,
}

abbrev pub is_some {ℓ} : {A : Type ℓ} → Option A → Bool
is_some none = false
is_some (some a) = true

-- What is known of the torrent of a worker.
abbrev pub WorkerOk : State → Str → Worker → Type 0
WorkerOk s b downloading = (s.downloaded b ≡ false) × (s.completed b ≡ false)
WorkerOk s b stored =
    (s.downloaded b ≡ false) × (s.completed b ≡ false) × (is_some (lookup b s.torrent_paths) ≡ true)
WorkerOk s b done =
    (s.downloaded b ≡ true) × (s.completed b ≡ true) × (is_some (lookup b s.torrent_paths) ≡ true)
WorkerOk s b _ =
    (s.downloaded b ≡ true) × (s.completed b ≡ false) × (is_some (lookup b s.torrent_paths) ≡ true)

module _ (torrents : List TorrentInfo) (seeds : Option ℤ) where
  -- The torrents above a position are completed.
  abbrev pub CompletedBelow : State → ℕ → Type 0
  CompletedBelow s k =
      (j : ℕ) (b : Str) → j < k → id_at torrents seeds j ≡ some b → s.completed b ≡ true

  abbrev pub AllCompleted : State → Type 0
  AllCompleted s = (j : ℕ) (b : Str) → id_at torrents seeds j ≡ some b → s.completed b ≡ true

  abbrev pub WaiterOk : State → Waiter → Type 0
  WaiterOk s (awaits k) = CompletedBelow s k × (s.complete ≡ false)
  WaiterOk s stopping = AllCompleted s × (s.complete ≡ false)
  WaiterOk s closing = AllCompleted s × (s.client_stopped ≡ true) × (s.complete ≡ false)
  WaiterOk s ended = AllCompleted s × (s.client_stopped ≡ true) × (s.complete ≡ true)

  pub record Inv (s : State) : Type 0 where
    pub each : (i : ℕ) (b : Str) → id_at torrents seeds i ≡ some b → WorkerOk s b (s.workers i)
    pub waits : WaiterOk s s.waiter
    pub unfinished : s.complete ≡ true → s.waiter ≡ ended
    pub fine : s.status ≢ panicked

  -- Where there is no torrent, no worker acts.
  pub no_actor : (i : ℕ) (s t : State) (path : Str) → id_at torrents seeds i ≡ none → record {
    stores : store_path torrents seeds i path s ≢ some t;
    fails : fail torrents seeds i s ≢ some t;
    marks : mark_downloaded torrents seeds i s ≢ some t;
    ends : end_seeding torrents seeds i s ≢ some t;
    passes : pass_seeding torrents seeds i s ≢ some t;
    completes : mark_completed torrents seeds i s ≢ some t;
  }
  unfolding store_path fail mark_downloaded end_seeding pass_seeding mark_completed
  no_actor i s t path h = ground arith

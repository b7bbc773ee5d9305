-- ===== src/Engine/Torrent/Completion.antt =====
-- Runs of `DownloadTorrents` in engine/torrent.go to the close of `CompleteChannel`.
use quayctl.Base.Int.{ℤ}
use quayctl.Base.{
  Option, str_eq, ℕ, zero, suc, ◌<◌, ◌≡◌, ◌≢◌, refl, true, List, [], ◌∷◌, some, Distinct, arith,
  Option-cases, Bool-cases, inl, inr,
}
use quayctl.Engine.{ids, TorrentInfo}
use quayctl.Engine.Torrent.{
  Status, closes, running, panicked, exited, State, Action, download_failed, signal,
  close_downloaded, close_completed, store_path, mark_downloaded, end_seeding, pass_seeding,
  mark_completed, await_torrent, stop, close_complete_channel, dispatch, act, run, Reach, later,
}
use quayctl.Engine.Torrent.Invariant.{Reach-Inv, act-Inv}
use quayctl.Engine.Torrent.Progress.{is_work, never_stuck}
use quayctl.Engine.Torrent.Termination.{work, act-work, AllWork}

module _ (torrents : List TorrentInfo) (seeds : Option ℤ) (finite : closes seeds ≡ true)
    (distinct : Distinct (ids torrents)) where
  act-not_exited :
      (a : Action) (s t : State)
      → is_work a ≡ true
      → act torrents seeds a s ≡ some t
      → t.status ≢ exited
  unfolding act dispatch store_path mark_downloaded end_seeding pass_seeding mark_completed
      await_torrent stop close_complete_channel close_downloaded close_completed
  act-not_exited (download_failed i) s t w e = cc
  act-not_exited signal s t w e = cc
  act-not_exited _ s t w e = ground arith

  is_running : (x : Status) → x ≢ panicked → x ≢ exited → x ≡ running
  is_running running p q = refl
  is_running panicked p q = absurd (p refl)
  is_running exited p q = absurd (q refl)

  -- A run from a state, with no failed download and no signal, to a state where `CompleteChannel` is
  -- closed.
  pub record Finish (s : State) : Type 0 where
    pub actions : List Action
    pub works : AllWork torrents seeds distinct actions
    pub last : State
    pub runs : run torrents seeds actions s ≡ some last
    pub complete : last.complete ≡ true

  Reach-Finish :
      (fuel : ℕ) (s : State)
      → work torrents seeds s < fuel
      → Reach torrents seeds s
      → s.status ≡ running
      → Finish s
  unfolding run
  Reach-Finish zero s lt r up = absurd (omega arith)
  Reach-Finish (suc fuel) s lt r up = elim (Bool-cases s.complete) [
    | inl c ↦ record { actions = []; works = tt; last = s; runs = refl; complete = c }
    | inr waits ↦
        let m = never_stuck torrents seeds finite distinct r up waits in
        elim (Option-cases (act torrents seeds m.action s)) [
          | inl no_step ↦ absurd (m.possible no_step)
          | inr (t, h) ↦
              let inv = Reach-Inv torrents seeds distinct r in
              let up' =
                is_running t.status (act-Inv torrents seeds distinct m.action s t inv h).fine
                  (act-not_exited m.action s t m.works h) in
              let less = act-work torrents seeds distinct m.action s t inv m.works h in
              let f = Reach-Finish fuel t (omega arith) (later m.action r h) up' in
              record {
                actions = m.action ∷ f.actions;
                works = (m.works, f.works);
                last = f.last;
                runs = rw (h, run) f.runs;
                complete = f.complete;
              }
        ]
  ]

  -- If no id occurs twice, and the downloads are not seeded, or seeded for a positive duration, then from
  -- every state that the goroutines reach while the process runs there is a run, with no failed download
  -- and no signal, to a state where `CompleteChannel` is closed.
  pub can_complete : {s : State} → Reach torrents seeds s → s.status ≡ running → Finish s
  can_complete {s} r up = Reach-Finish (suc (work torrents seeds s)) s (omega arith) r up

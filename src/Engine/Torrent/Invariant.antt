-- ===== src/Engine/Torrent/Invariant.antt =====
-- The invariant of the goroutines of `DownloadTorrents`, for torrents whose ids are distinct.
mod Defs
mod Workers
mod Waiting
pub use Defs.*
use quayctl.Base.Int.{ℤ}
use Workers.{
  pair, WaiterOk-mono, Frame, WorkerOk-store_path, WorkerOk-fail, WorkerOk-mark_downloaded,
  WorkerOk-end_seeding, WorkerOk-pass_seeding, WorkerOk-mark_completed, Frame-store_path,
  Frame-fail, Frame-mark_downloaded, Frame-end_seeding, Frame-pass_seeding, Frame-mark_completed,
}
use Waiting.{await_torrent-Inv, stop-Inv, close_complete_channel-Inv, shutdown-Inv}
use quayctl.Base.{
  Str, str_eq, str_beq_iff, ℕ, zero, suc, ◌+◌, ◌<◌, ◌≤◌, ◌≡◌, ◌≢◌, refl, ap, ◌∙◌, Bool, true, false,
  List, [], ◌∷◌, Option, none, some, ◌==◌, get_elem?, length, Distinct, Distinct-get_elem?, arith,
  lt_of_get_elem?-none, Option-cases, inl, inr, sym, subst, if◌then◌else◌,
}
use quayctl.Base.Dict.{Dict, lookup, insert, lookup-insert}
use quayctl.Engine.{ids, TorrentInfo}
use quayctl.Engine.Torrent.{
  Worker, downloading, stored, announced, seeded, done, Waiter, awaits, stopping, closing, ended,
  Status, running, panicked, exited, State, Action, download_ok, download_failed, announce,
  end_of_seeding, go_on, finish, await_next, stop_client, close_complete, signal, init,
  close_downloaded, close_completed, id_at, store_path, fail, mark_downloaded, end_seeding,
  pass_seeding, mark_completed, await_torrent, stop, close_complete_channel, shutdown, dispatch,
  act, Reach, start, later,
}

module _ (torrents : List TorrentInfo) (seeds : Option ℤ) (distinct : Distinct (ids torrents)) where
  framed :
      (s t : State)
      → Inv torrents seeds s
      → Frame torrents seeds distinct s t
      → ((j : ℕ) (b : Str) → id_at torrents seeds j ≡ some b → WorkerOk t b (t.workers j))
      → Inv torrents seeds t
  framed s t inv f each = record {
    each = each;
    waits = subst (WaiterOk torrents seeds t) (sym f.waiter) (
        WaiterOk-mono torrents seeds distinct s t f.waiter f.completed f.complete f.client_stopped
          s.waiter inv.waits);
    unfinished = λ c. f.waiter ∙ inv.unfinished (sym f.complete ∙ c);
    fine = f.fine;
  }

  module _ (i : ℕ) (k : Str) (s t : State) (inv : Inv torrents seeds s)
      (hi : id_at torrents seeds i ≡ some k) where
    store_path-Inv :
        (path : Str) → store_path torrents seeds i path s ≡ some t → Inv torrents seeds t
    store_path-Inv path e =
        framed s t inv
          (Frame-store_path torrents seeds distinct i k s t (inv.each i k hi) inv.fine hi path e)
          (λ j b hj.
            WorkerOk-store_path torrents seeds distinct i j path k b s t
              (pair torrents seeds distinct s i j k b inv hi hj) hi e)

    fail-Inv : fail torrents seeds i s ≡ some t → Inv torrents seeds t
    fail-Inv e =
        framed s t inv (Frame-fail torrents seeds distinct i k s t (inv.each i k hi) inv.fine hi e)
          (λ j b hj.
            WorkerOk-fail torrents seeds distinct i j k b s t
              (pair torrents seeds distinct s i j k b inv hi hj) hi e)

    mark_downloaded-Inv : mark_downloaded torrents seeds i s ≡ some t → Inv torrents seeds t
    mark_downloaded-Inv e =
        framed s t inv
          (Frame-mark_downloaded torrents seeds distinct i k s t (inv.each i k hi) inv.fine hi e)
          (λ j b hj.
            WorkerOk-mark_downloaded torrents seeds distinct i j k b s t
              (pair torrents seeds distinct s i j k b inv hi hj) hi e)

    end_seeding-Inv : end_seeding torrents seeds i s ≡ some t → Inv torrents seeds t
    end_seeding-Inv e =
        framed s t inv
          (Frame-end_seeding torrents seeds distinct i k s t (inv.each i k hi) inv.fine hi e)
          (λ j b hj.
            WorkerOk-end_seeding torrents seeds distinct i j k b s t
              (pair torrents seeds distinct s i j k b inv hi hj) hi e)

    pass_seeding-Inv : pass_seeding torrents seeds i s ≡ some t → Inv torrents seeds t
    pass_seeding-Inv e =
        framed s t inv
          (Frame-pass_seeding torrents seeds distinct i k s t (inv.each i k hi) inv.fine hi e)
          (λ j b hj.
            WorkerOk-pass_seeding torrents seeds distinct i j k b s t
              (pair torrents seeds distinct s i j k b inv hi hj) hi e)

    mark_completed-Inv : mark_completed torrents seeds i s ≡ some t → Inv torrents seeds t
    mark_completed-Inv e =
        framed s t inv
          (Frame-mark_completed torrents seeds distinct i k s t (inv.each i k hi) inv.fine hi e)
          (λ j b hj.
            WorkerOk-mark_completed torrents seeds distinct i j k b s t
              (pair torrents seeds distinct s i j k b inv hi hj) hi e)

  -- The action of a worker keeps the invariant, if it does so at the id of that worker.
  by_actor :
      (i : ℕ) (s t : State) (m : Option State)
      → (id_at torrents seeds i ≡ none → m ≢ some t)
      → ((k : Str) → id_at torrents seeds i ≡ some k → m ≡ some t → Inv torrents seeds t)
      → m ≡ some t
      → Inv torrents seeds t
  by_actor i s t m nobody somebody e = elim (Option-cases (id_at torrents seeds i)) [
    | inl h ↦ absurd (nobody h e)
    | inr (k, h) ↦ somebody k h e
  ]

  dispatch-Inv :
      (a : Action) (s t : State)
      → Inv torrents seeds s
      → dispatch torrents seeds a s ≡ some t
      → Inv torrents seeds t
  unfolding dispatch
  dispatch-Inv (download_ok i path) s t inv =
      by_actor i s t _ (λ h. (no_actor torrents seeds i s t path h).stores)
        (λ k h. store_path-Inv i k s t inv h path)
  dispatch-Inv (download_failed i) s t inv =
      by_actor i s t _ (λ h. (no_actor torrents seeds i s t [] h).fails)
        (λ k h. fail-Inv i k s t inv h)
  dispatch-Inv (announce i) s t inv =
      by_actor i s t _ (λ h. (no_actor torrents seeds i s t [] h).marks)
        (λ k h. mark_downloaded-Inv i k s t inv h)
  dispatch-Inv (end_of_seeding i) s t inv =
      by_actor i s t _ (λ h. (no_actor torrents seeds i s t [] h).ends)
        (λ k h. end_seeding-Inv i k s t inv h)
  dispatch-Inv (go_on i) s t inv =
      by_actor i s t _ (λ h. (no_actor torrents seeds i s t [] h).passes)
        (λ k h. pass_seeding-Inv i k s t inv h)
  dispatch-Inv (finish i) s t inv =
      by_actor i s t _ (λ h. (no_actor torrents seeds i s t [] h).completes)
        (λ k h. mark_completed-Inv i k s t inv h)
  dispatch-Inv await_next s t inv = await_torrent-Inv torrents seeds distinct s t inv
  dispatch-Inv stop_client s t inv = stop-Inv torrents seeds distinct s t inv
  dispatch-Inv close_complete s t inv = close_complete_channel-Inv torrents seeds distinct s t inv
  dispatch-Inv signal s t inv = shutdown-Inv torrents seeds distinct s t inv

  pub act-Inv :
      (a : Action) (s t : State)
      → Inv torrents seeds s
      → act torrents seeds a s ≡ some t
      → Inv torrents seeds t
  unfolding act
  act-Inv a s t inv e = dispatch-Inv a s t inv (ground arith)

  init-Inv : Inv torrents seeds init
  unfolding init
  init-Inv = record {
    each = λ i b h. (refl, refl);
    waits = ((λ j b lt hj. absurd (omega arith)), refl);
    unfinished = λ e. cc;
    fine = λ e. cc;
  }

  -- Every state that the goroutines can reach has the invariant.
  pub Reach-Inv : {s : State} → Reach torrents seeds s → Inv torrents seeds s
  Reach-Inv start = init-Inv
  Reach-Inv (later {s} {t} a r e) = act-Inv a s t (Reach-Inv r) e

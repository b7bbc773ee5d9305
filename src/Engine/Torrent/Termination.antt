-- ===== src/Engine/Torrent/Termination.antt =====
-- The work that is left in a state of `DownloadTorrents` in engine/torrent.go.
use quayctl.Base.Int.{ℤ}
use quayctl.Base.{
  Str, str_eq, ℕ, zero, suc, ◌+◌, ◌-◌, ◌*◌, ◌<◌, ◌≤◌, ◌≡◌, ◌≢◌, refl, ap, Bool, true, false, List,
  [], ◌∷◌, Option, none, some, length, lt_of_get_elem?, Distinct, dec_lt, arith, Option-cases, inl,
  inr,
}
use quayctl.Engine.{ids, TorrentInfo}
use quayctl.Engine.Torrent.{
  Worker, downloading, stored, announced, seeded, done, Waiter, awaits, stopping, closing, ended,
  panicked, State, Action, download_ok, download_failed, announce, end_of_seeding, go_on, finish,
  await_next, stop_client, close_complete, signal, init, id_at, store_path, mark_downloaded,
  end_seeding, pass_seeding, mark_completed, await_torrent, stop, close_complete_channel, dispatch,
  act, run, start,
}
use quayctl.Engine.Torrent.Invariant.{Inv, WorkerOk, Reach-Inv, act-Inv, no_actor}
use quayctl.Engine.Torrent.Progress.{is_work}

-- What is left to do for a worker whose seeding has ended or not, and for the waiter.
abbrev pub worker_work : Worker → Bool → ℕ
worker_work downloading k = 5
worker_work stored k = 4
worker_work announced false = 3
worker_work announced true = 2
worker_work seeded k = 1
worker_work done k = 0

abbrev pub waiter_work : ℕ → Waiter → ℕ
waiter_work n (awaits k) = n - k + 3
waiter_work n stopping = 2
waiter_work n closing = 1
waiter_work n ended = 0

-- The sum of the first numbers of a sequence.
total : ℕ → (ℕ → ℕ) → ℕ
total zero f = 0
total (suc n) f = total n f + f n

total-congr : (n : ℕ) (f g : ℕ → ℕ) → ((j : ℕ) → j < n → g j ≡ f j) → total n g ≡ total n f
unfolding total
total-congr zero f g h = refl
total-congr (suc n) f g h =
    omega (arith, total-congr n f g (λ j lt. h j (omega arith)), h n (omega arith))

total-change :
    (n i : ℕ) (f g : ℕ → ℕ)
    → i < n
    → ((j : ℕ) → j ≢ i → g j ≡ f j)
    → total n g + f i ≡ total n f + g i
unfolding total
total-change zero i f g lt h = absurd (omega arith)
total-change (suc n) i f g lt h = elim (dec_lt i n) [
  | yes below ↦ omega (arith, total-change n i f g below h, h n (λ e. absurd (omega arith)))
  | no last ↦
      let here : i ≡ n = omega arith in
      omega
        (arith, total-congr n f g (λ j jn. h j (λ e. absurd (omega arith))), ap f here, ap g here)
]

module _ (torrents : List TorrentInfo) (seeds : Option ℤ) where
  abbrev left : State → ℕ → ℕ
  left s j = worker_work (s.workers j) (s.keep_seeding j)

  -- What is left to do for all goroutines.
  pub work : State → ℕ
  work s = total (length (ids torrents)) (left s) + waiter_work (length (ids torrents)) s.waiter

  record Less (i : ℕ) (s t : State) : Type 0 where
    below : left t i < left s i
    same : (j : ℕ) → j ≢ i → left t j ≡ left s j
    waiter : t.waiter ≡ s.waiter

  module _ (i : ℕ) (k : Str) (s t : State) (own : WorkerOk s k (s.workers i))
      (hi : id_at torrents seeds i ≡ some k) where
    Less-work : Less i s t → work t < work s
    unfolding work
    Less-work l =
        let here = lt_of_get_elem? (ids torrents) i k hi in
        omega (
          arith,
          total-change (length (ids torrents)) i (left s) (left t) here l.same,
          l.below,
          ap (waiter_work (length (ids torrents))) l.waiter,
        )

    Less-store_path : (path : Str) → store_path torrents seeds i path s ≡ some t → Less i s t
    unfolding store_path
    Less-store_path path e = ground arith

    Less-mark_downloaded :
        t.status ≢ panicked → mark_downloaded torrents seeds i s ≡ some t → Less i s t
    unfolding mark_downloaded
    Less-mark_downloaded f e = ground arith

    Less-end_seeding : end_seeding torrents seeds i s ≡ some t → Less i s t
    unfolding end_seeding
    Less-end_seeding e = ground arith

    Less-pass_seeding : pass_seeding torrents seeds i s ≡ some t → Less i s t
    unfolding pass_seeding
    Less-pass_seeding e = ground arith

    Less-mark_completed :
        t.status ≢ panicked → mark_completed torrents seeds i s ≡ some t → Less i s t
    unfolding mark_completed
    Less-mark_completed f e = ground arith

  module _ (s t : State) where
    await_torrent-work :
        (w : Waiter) → s.waiter ≡ w → await_torrent torrents seeds s ≡ some t → work t < work s
    unfolding await_torrent work
    await_torrent-work (awaits k) ew e = elim (Option-cases (id_at torrents seeds k)) [
      | inl over ↦ ground arith
      | inr (b, h) ↦ ground (arith, lt_of_get_elem? (ids torrents) k b h)
    ]
    await_torrent-work stopping ew e = ground arith
    await_torrent-work _ ew e = ground arith

    stop-work : stop torrents seeds s ≡ some t → work t < work s
    unfolding stop work
    stop-work e = ground arith

    close_complete_channel-work :
        t.status ≢ panicked → close_complete_channel torrents seeds s ≡ some t → work t < work s
    unfolding close_complete_channel work
    close_complete_channel-work f e = ground arith

  by_actor-work :
      (i : ℕ) (s t : State) (m : Option State)
      → Inv torrents seeds s
      → (id_at torrents seeds i ≡ none → m ≢ some t)
      → ((k : Str)
          → id_at torrents seeds i ≡ some k
          → WorkerOk s k (s.workers i)
          → m ≡ some t
          → Less i s t)
      → m ≡ some t
      → work t < work s
  by_actor-work i s t m inv nobody somebody e = elim (Option-cases (id_at torrents seeds i)) [
    | inl h ↦ absurd (nobody h e)
    | inr (k, h) ↦ Less-work i k s t (inv.each i k h) h (somebody k h (inv.each i k h) e)
  ]

  dispatch-work :
      (a : Action) (s t : State)
      → Inv torrents seeds s
      → Inv torrents seeds t
      → is_work a ≡ true
      → dispatch torrents seeds a s ≡ some t
      → work t < work s
  unfolding dispatch
  dispatch-work (download_ok i path) s t inv after w =
      by_actor-work i s t _ inv (λ h. (no_actor torrents seeds i s t path h).stores)
        (λ k h own. Less-store_path i k s t own h path)
  dispatch-work (download_failed i) s t inv after w = cc
  dispatch-work (announce i) s t inv after w =
      by_actor-work i s t _ inv (λ h. (no_actor torrents seeds i s t [] h).marks)
        (λ k h own. Less-mark_downloaded i k s t own h after.fine)
  dispatch-work (end_of_seeding i) s t inv after w =
      by_actor-work i s t _ inv (λ h. (no_actor torrents seeds i s t [] h).ends)
        (λ k h own. Less-end_seeding i k s t own h)
  dispatch-work (go_on i) s t inv after w =
      by_actor-work i s t _ inv (λ h. (no_actor torrents seeds i s t [] h).passes)
        (λ k h own. Less-pass_seeding i k s t own h)
  dispatch-work (finish i) s t inv after w =
      by_actor-work i s t _ inv (λ h. (no_actor torrents seeds i s t [] h).completes)
        (λ k h own. Less-mark_completed i k s t own h after.fine)
  dispatch-work await_next s t inv after w = await_torrent-work s t s.waiter refl
  dispatch-work stop_client s t inv after w = stop-work s t
  dispatch-work close_complete s t inv after w = close_complete_channel-work s t after.fine
  dispatch-work signal s t inv after w = cc

  module _ (distinct : Distinct (ids torrents)) where
    pub act-work :
        (a : Action) (s t : State)
        → Inv torrents seeds s
        → is_work a ≡ true
        → act torrents seeds a s ≡ some t
        → work t < work s
    unfolding act
    act-work a s t inv w e =
        dispatch-work a s t inv (act-Inv torrents seeds distinct a s t inv e) w (ground arith)

    abbrev pub AllWork : List Action → Type 0
    AllWork [] = Unit {0}
    AllWork (a ∷ rest) = (is_work a ≡ true) × AllWork rest

    run-work :
        (actions : List Action) (s t : State)
        → Inv torrents seeds s
        → AllWork actions
        → run torrents seeds actions s ≡ some t
        → length actions + work t ≤ work s
    unfolding run
    run-work [] s t inv w e = ground arith
    run-work (a ∷ rest) s t inv w e = elim (Option-cases (act torrents seeds a s)) [
      | inl no_step ↦ ground arith
      | inr (u, h) ↦ omega (
        arith,
        act-work a s u inv w.0 h,
        run-work rest u t (act-Inv torrents seeds distinct a s u inv h) w.1 (ground arith),
      )
    ]

    total_const : (n c : ℕ) → total n (λ _. c) ≡ n * c
    unfolding total
    total_const zero c = omega arith
    total_const (suc n) c = omega (arith, total_const n c)

    -- If no id occurs twice, then a run in which no download fails and no signal comes has at most six
    -- actions for each torrent, and three more.
    pub run_bounded :
        (actions : List Action) (s : State)
        → AllWork actions
        → run torrents seeds actions init ≡ some s
        → length actions ≤ 6 * length (ids torrents) + 3
    unfolding init work
    run_bounded actions s w e = omega (
      arith,
      run-work actions init s (Reach-Inv torrents seeds distinct start) w e,
      total_const (length (ids torrents)) 5,
    )

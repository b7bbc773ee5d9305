-- ===== src/Engine/Torrent/Invariant/Workers.antt =====
-- What an action of one worker does to the torrents of all workers and to the waiter.
use quayctl.Base.Int.{ℤ}
use quayctl.Base.{
  Option, Str, str_eq, str_beq_iff, ℕ, ◌≡◌, ◌≢◌, ap, ◌∙◌, true, List, some, Distinct,
  Distinct-get_elem?, arith,
}
use quayctl.Base.Dict.{lookup-insert}
use quayctl.Engine.{ids, TorrentInfo}
use quayctl.Engine.Torrent.{
  Waiter, awaits, stopping, closing, ended, panicked, State, id_at, store_path, fail,
  mark_downloaded, end_seeding, pass_seeding, mark_completed,
}
use quayctl.Engine.Torrent.Invariant.Defs.{WorkerOk, WaiterOk, Inv}

module _ (torrents : List TorrentInfo) (seeds : Option ℤ) (distinct : Distinct (ids torrents)) where
  same_place :
      (i j : ℕ) (b : Str)
      → id_at torrents seeds i ≡ some b
      → id_at torrents seeds j ≡ some b
      → i ≡ j
  same_place i j b = Distinct-get_elem? (ids torrents) i j b distinct

  -- The facts about the acting worker `i` and another one, `j`.
  pub record Pair (s : State) (i j : ℕ) (k b : Str) : Type 0 where
    pub own : WorkerOk s k (s.workers i)
    pub other : WorkerOk s b (s.workers j)
    pub same : k ≡ b → i ≡ j
    pub back : i ≡ j → k ≡ b

  pub pair :
      (s : State) (i j : ℕ) (k b : Str)
      → Inv torrents seeds s
      → id_at torrents seeds i ≡ some k
      → id_at torrents seeds j ≡ some b
      → Pair s i j k b
  pair s i j k b inv hi hj = record {
    own = inv.each i k hi;
    other = inv.each j b hj;
    same = λ e. same_place i j b (hi ∙ ap some e) hj;
    back = λ e. cc;
  }

  pub WorkerOk-store_path :
      (i j : ℕ) (path k b : Str) (s t : State)
      → Pair s i j k b
      → id_at torrents seeds i ≡ some k
      → store_path torrents seeds i path s ≡ some t
      → WorkerOk t b (t.workers j)
  unfolding store_path
  WorkerOk-store_path i j path k b s t p hi e =
      ground (arith, p.same, p.back, lookup-insert k b path s.torrent_paths, str_beq_iff k b)

  module _ (i j : ℕ) (k b : Str) (s t : State) (p : Pair s i j k b)
      (hi : id_at torrents seeds i ≡ some k) where
    pub WorkerOk-fail : fail torrents seeds i s ≡ some t → WorkerOk t b (t.workers j)
    unfolding fail
    WorkerOk-fail e = ground (arith, p.same, p.back)

    pub WorkerOk-mark_downloaded :
        mark_downloaded torrents seeds i s ≡ some t → WorkerOk t b (t.workers j)
    unfolding mark_downloaded
    WorkerOk-mark_downloaded e = ground (arith, p.same, p.back, str_beq_iff k b)

    pub WorkerOk-end_seeding : end_seeding torrents seeds i s ≡ some t → WorkerOk t b (t.workers j)
    unfolding end_seeding
    WorkerOk-end_seeding e = ground (arith, p.same, p.back)

    pub WorkerOk-pass_seeding :
        pass_seeding torrents seeds i s ≡ some t → WorkerOk t b (t.workers j)
    unfolding pass_seeding
    WorkerOk-pass_seeding e = ground (arith, p.same, p.back)

    pub WorkerOk-mark_completed :
        mark_completed torrents seeds i s ≡ some t → WorkerOk t b (t.workers j)
    unfolding mark_completed
    WorkerOk-mark_completed e = ground (arith, p.same, p.back, str_beq_iff k b)

  -- What the waiter knows survives a step that opens no channel again.
  pub WaiterOk-mono :
      (s t : State)
      → t.waiter ≡ s.waiter
      → ((b : Str) → s.completed b ≡ true → t.completed b ≡ true)
      → t.complete ≡ s.complete
      → (s.client_stopped ≡ true → t.client_stopped ≡ true)
      → (w : Waiter) → WaiterOk torrents seeds s w
      → WaiterOk torrents seeds t w
  WaiterOk-mono s t e m c x (awaits k) h = ((λ j b lt hj. m b (h.0 j b lt hj)), c ∙ h.1)
  WaiterOk-mono s t e m c x stopping h = ((λ j b hj. m b (h.0 j b hj)), c ∙ h.1)
  WaiterOk-mono s t e m c x closing h = ((λ j b hj. m b (h.0 j b hj)), x h.1, c ∙ h.2)
  WaiterOk-mono s t e m c x ended h = ((λ j b hj. m b (h.0 j b hj)), x h.1, c ∙ h.2)

  -- What the action of a worker leaves to the waiter.
  pub record Frame (s t : State) : Type 0 where
    pub waiter : t.waiter ≡ s.waiter
    pub completed : (b : Str) → s.completed b ≡ true → t.completed b ≡ true
    pub complete : t.complete ≡ s.complete
    pub client_stopped : s.client_stopped ≡ true → t.client_stopped ≡ true
    pub fine : t.status ≢ panicked

  module _ (i : ℕ) (k : Str) (s t : State) (own : WorkerOk s k (s.workers i))
      (fine : s.status ≢ panicked) (hi : id_at torrents seeds i ≡ some k) where
    pub Frame-store_path : (path : Str) → store_path torrents seeds i path s ≡ some t → Frame s t
    unfolding store_path
    Frame-store_path path e = ground arith

    pub Frame-fail : fail torrents seeds i s ≡ some t → Frame s t
    unfolding fail
    Frame-fail e = ground arith

    pub Frame-mark_downloaded : mark_downloaded torrents seeds i s ≡ some t → Frame s t
    unfolding mark_downloaded
    Frame-mark_downloaded e = ground arith

    pub Frame-end_seeding : end_seeding torrents seeds i s ≡ some t → Frame s t
    unfolding end_seeding
    Frame-end_seeding e = ground arith

    pub Frame-pass_seeding : pass_seeding torrents seeds i s ≡ some t → Frame s t
    unfolding pass_seeding
    Frame-pass_seeding e = ground arith

    pub Frame-mark_completed : mark_completed torrents seeds i s ≡ some t → Frame s t
    unfolding mark_completed
    Frame-mark_completed e = ground arith

-- ===== src/Engine/Download/Tests.antt =====
-- The downloads of two torrents on the client.
use quayctl.Base.{
  ok, Str, text, str_eq, str_beq, nat_eq, ℕ, ◌≡◌, ◌==◌, refl, Bool, Bool-cases, true, not, List, [],
  ◌∷◌, none, some, contains, arith, Option-cases, inl, inr, if◌then◌else◌,
}
use quayctl.Base.Dict.{lookup, insert, erase}
use quayctl.Base.Int.{pos}
use quayctl.Engine.{TorrentInfo}
use quayctl.Engine.Torrent as Torrent
use quayctl.Engine.Torrent.{
  SeedOption, no_seed, local_seed_duration, download_ok, announce, end_of_seeding, go_on, finish,
}
use quayctl.Engine.Torrent.Tests.{two, two-Distinct}
use quayctl.Bittorrent.Client as Client
use quayctl.Bittorrent.Client.{
  Phase, returned, start, check_running, check_first, prepare, add, receive, seed, test_running,
  close_finished, finished_alert,
}
use quayctl.Engine.Download.{
  Joint, Action, of_worker, of_client, begin, request_of, answer_of, has_failed, allows,
  worker_acts, client_acts, joint_act, Documented, Reach, initially, next,
}
use quayctl.Engine.Download.Finished.{downloaded_finished}

-- The path of a handle.
abbrev pub path_of : ℕ → Str
path_of h = if h == 7 then text "/t/a" else text "/t/b"

abbrev pub script : List Action
script =
    of_client (start true)
    ∷ of_client (check_running 0)
    ∷ of_client (check_first 0)
    ∷ of_client (prepare 0 (ok tt))
    ∷ of_client (add 0 7)
    ∷ of_client (check_running 1)
    ∷ of_client (check_first 1)
    ∷ of_client (prepare 1 (ok tt))
    ∷ of_client (add 1 8)
    ∷ of_client test_running
    ∷ of_client (finished_alert 7)
    ∷ of_client close_finished
    ∷ of_client test_running
    ∷ of_client (finished_alert 8)
    ∷ of_client close_finished
    ∷ of_client (receive 0)
    ∷ of_client (receive 1)
    ∷ of_client (seed 0)
    ∷ of_client (seed 1)
    ∷ of_worker (download_ok 0 (text "/t/a"))
    ∷ of_worker (download_ok 1 (text "/t/b"))
    ∷ of_worker (announce 0)
    ∷ of_worker (announce 1)
    ∷ []

-- Whether the alert of an action is the first for its handle.
unfoldable pub is_documented : Action → Joint → Bool
is_documented (of_client (finished_alert h)) j = not (contains j.client.alerted h)
is_documented _ j = true

module _ (option : SeedOption) (torrents : List TorrentInfo) where
  abbrev Run : Joint → Type 0
  Run = Reach torrents option (pos 0) path_of

  -- The state after the actions, or after those before the first that is not possible.
  unfoldable pub play : List Action → Joint → Joint
  unfolding is_documented
  play [] j = j
  play (a ∷ rest) j =
      if is_documented a j
      then elim (joint_act torrents option (pos 0) path_of a j) [ none ↦ j | some k ↦ play rest k ]
      else j

  is_documented-Documented :
      (a : Action) (j : Joint)
      → is_documented a j ≡ true
      → Documented torrents option (pos 0) path_of j a
  unfolding is_documented
  is_documented-Documented (of_worker a) j h = tt
  is_documented-Documented (of_client (finished_alert n)) j h = ground (arith, h)
  is_documented-Documented (of_client _) j h = tt

  pub play-Reach : (actions : List Action) (j : Joint) → Run j → Run (play actions j)
  unfolding play
  play-Reach [] j r = r
  play-Reach (a ∷ rest) j r = elim (Bool-cases (is_documented a j)) [
    | inr not_documented ↦ rw not_documented r
    | inl documented ↦ elim (Option-cases (joint_act torrents option (pos 0) path_of a j)) [
      | inl stuck ↦ rw (documented, stuck) r
      | inr (k, done) ↦
          rw (documented, done)
            (play-Reach rest k (next a r (is_documented-Documented a j documented) done))
    ]
  ]

abbrev pub after : Joint
after = play no_seed two script begin

downloaded_finished_example :
    (t : ℕ) × (after.client.calls 0 ≡ returned t)
    × (lookup (text "a") after.engine.torrent_paths ≡ some (path_of (after.client.handles t)))
    × (contains after.client.alerted (after.client.handles t) ≡ true)
unfolding begin play is_documented request_of answer_of has_failed allows worker_acts client_acts
    joint_act local_seed_duration Torrent.init Torrent.act Torrent.dispatch Torrent.store_path
    Torrent.mark_downloaded Torrent.close_downloaded Client.new Client.act Client.dispatch
    Client.start_client Client.check_if_running Client.check_unique Client.prepare_call
    Client.add_torrent Client.receive_finished Client.seed_torrent Client.test_loop
    Client.handle_alert Client.close_is_finished Client.delete_torrent Client.remove_torrent
    Client.close_keep_seeding Client.find_torrent lookup insert erase contains text str_beq
downloaded_finished_example =
    downloaded_finished two no_seed (pos 0) path_of two-Distinct
      (play-Reach no_seed two script begin initially) 0 (text "a") refl refl

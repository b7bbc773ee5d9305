-- ===== src/Bittorrent/Client/Order/Tests.antt =====
-- A run of the client of bittorrent/bittorrent.go in which the torrents come in two orders.
use quayctl.Base.{
  Str, text, str_beq, str_beq_iff, ℕ, ◌≡◌, refl, true, false, List, [], ◌∷◌, some, contains, arith,
  nat_eq, str_eq, ◌⊎◌, ◌∙◌, sym,
}
use quayctl.Base.Dict.{Dict, lookup, insert, erase, keys}
use quayctl.Bittorrent.Client.{
  State, at_wait, at_alert, at_close, Action, finished_alert, stop_running, stop_torrents,
  find_torrent, remove_torrent, delete_torrent, delete_all, handle_alert, stop_client, stop_all,
  dispatch, act, run,
}
use quayctl.Bittorrent.Client.Tests.{requests, handles_of}
use quayctl.Bittorrent.Client.Order.{SameMap, HandlesApart}
use quayctl.Bittorrent.Client.Order.Alike.{reordered, Alike}
use quayctl.Bittorrent.Client.Order.Runs.{ShuffledRun, done, step, ShuffledRun-run}

abbrev listed : Dict ℕ
listed = (text "c", 2) ∷ (text "b", 1) ∷ (text "a", 0) ∷ []

abbrev shuffled : Dict ℕ
shuffled = (text "a", 0) ∷ (text "c", 2) ∷ (text "b", 1) ∷ []

abbrev again : Dict ℕ
again = (text "b", 1) ∷ (text "a", 0) ∷ (text "c", 2) ∷ []

same_lookups :
    (k : Str) → (lookup k listed ≡ lookup k shuffled) × (lookup k listed ≡ lookup k again)
unfolding lookup text str_beq
same_lookups k =
    ground (arith, str_beq_iff (text "a") k, str_beq_iff (text "b") k, str_beq_iff (text "c") k)

shuffled-SameMap : SameMap listed shuffled
unfolding keys contains text str_beq
shuffled-SameMap = record {
  left_distinct = (refl, (refl, (refl, tt)));
  right_distinct = (refl, (refl, (refl, tt)));
  lookups = λ k. (same_lookups k).0;
}

reversed-SameMap : SameMap listed again
unfolding keys contains text str_beq
reversed-SameMap = record {
  left_distinct = shuffled-SameMap.left_distinct;
  right_distinct = (refl, (refl, (refl, tt)));
  lookups = λ k. (same_lookups k).1;
}

listed-SameMap : SameMap listed listed
listed-SameMap = record {
  left_distinct = shuffled-SameMap.left_distinct;
  right_distinct = shuffled-SameMap.left_distinct;
  lookups = λ k. refl;
}

-- Three calls wait, and the consumer waits for an alert.
abbrev waiting : State
waiting = record {
  running = true;
  torrents = listed;
  handles = handles_of;
  finished = λ _. false;
  made = 3;
  calls = λ i. at_wait i;
  keep_seeding = λ _. false;
  seeders = λ _. false;
  consumer = at_alert;
  stops = 0;
  removed = [];
  alerted = [];
  panicked = false;
}

one_of_three : (k : Str) (p : ℕ) → lookup k listed ≡ some p → (p ≡ 0) ⊎ ((p ≡ 1) ⊎ (p ≡ 2))
unfolding lookup text str_beq
one_of_three k p e = ground (arith, e)

apart : (d : Dict ℕ) → SameMap listed d → HandlesApart handles_of d
apart d same k j p q at_k at_j equal = ground (
  arith,
  one_of_three k p (same.lookups k ∙ at_k),
  one_of_three j q (same.lookups j ∙ at_j),
  equal,
)

-- The alert of a torrent, while the torrents come in another order, and then `Stop`.
abbrev actions : List Action
actions = finished_alert 8 ∷ stop_running ∷ stop_torrents ∷ []

abbrev stopped : State
stopped = record waiting {
  running = false;
  torrents = [];
  consumer = at_close 1;
  removed = 9 ∷ 7 ∷ 8 ∷ [];
  alerted = 8 ∷ [];
}

-- Two orders of the torrents that are listed.
between : (d e : Dict ℕ) → SameMap listed d → SameMap listed e → SameMap d e
between d e left right = record {
  left_distinct = left.right_distinct;
  right_distinct = right.right_distinct;
  lookups = λ k. sym (left.lookups k) ∙ right.lookups k;
}

shuffled_run : ShuffledRun requests waiting actions stopped
unfolding act dispatch handle_alert stop_client stop_all delete_all delete_torrent remove_torrent
    find_torrent lookup insert erase keys text str_beq
shuffled_run =
    step (finished_alert 8) shuffled []
      (record { same_map = shuffled-SameMap; same_removed = λ h. refl })
      (apart listed listed-SameMap) refl
      (step stop_running shuffled []
        (record {
          same_map = between shuffled shuffled shuffled-SameMap shuffled-SameMap;
          same_removed = λ h. refl;
        })
        (apart shuffled shuffled-SameMap) refl
        (step stop_torrents again []
          (record {
            same_map = between shuffled again shuffled-SameMap reversed-SameMap;
            same_removed = λ h. refl;
          })
          (apart shuffled shuffled-SameMap) refl done))

ShuffledRun-run_example :
    (e : Dict ℕ) × (q : List ℕ) × (run requests actions waiting ≡ some (reordered e q stopped))
    × Alike stopped e q
ShuffledRun-run_example =
    ShuffledRun-run requests waiting stopped actions listed [] shuffled_run
      (record { same_map = listed-SameMap; same_removed = λ h. refl })

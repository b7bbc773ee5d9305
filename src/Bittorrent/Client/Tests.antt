-- ===== src/Bittorrent/Client/Tests.antt =====
-- Runs of the client of bittorrent/bittorrent.go at concrete calls.
use quayctl.Base.{
  Str, text, str_beq, ℕ, zero, suc, ◌≡◌, refl, Bool, true, false, List, [], ◌∷◌, ◌++◌, none, some,
  contains, arith, ok, nat_eq, str_eq, subst, not, ◌&&◌, Option-cases, inl, inr,
}
use quayctl.Base.Dict.{lookup, insert, erase, keys}
use quayctl.Base.Int.{ℤ, pos}
use quayctl.Bittorrent.Client.{
  Request, at_wait, returned, State, set, Action, no_alert, start, check_running, check_first,
  prepare, add, receive, seed, wake, test_running, close_finished, finished_alert, stop_running,
  stop_torrents, new, find_torrent, remove_torrent, close_keep_seeding, delete_torrent, delete_all,
  start_client, check_if_running, check_unique, prepare_call, add_torrent, receive_finished,
  seed_torrent, wake_seeder, test_loop, handle_alert, close_is_finished, stop_client, stop_all,
  dispatch, act, run, Documented, Reach, initially, next,
}
use quayctl.Bittorrent.Client.Removal.{values}
use quayctl.Bittorrent.Client.Alerts.{Answered, answers_are_finished}
use quayctl.Bittorrent.Client.Stop.{is_removed, stop_clears}
use quayctl.Bittorrent.Client.Lost.{stopped_waits}
use quayctl.Bittorrent.Client.Seeding.{seeding_ends, seeding_forever}
use quayctl.Bittorrent.Client.Listed.{never_stops, waiting_has_status}
use quayctl.Bittorrent.Status.{StateConstants, Floats, TorrentStatus, status_of_handle, get_status}

-- Call 0 asks for no seeding, call 1 for 5 nanoseconds, and the others for ever.
abbrev pub requests : ℕ → Request
requests zero = record { source_path = text "a"; seed_duration = none }
requests (suc zero) = record { source_path = text "b"; seed_duration = some (pos 5) }
requests (suc (suc _)) = record { source_path = text "c"; seed_duration = some (pos 0) }

abbrev begin_call : ℕ → ℕ → List Action
begin_call i h = check_running i ∷ check_first i ∷ prepare i (ok tt) ∷ add i h ∷ []

abbrev waiting_script : List Action
waiting_script =
    start true ∷ begin_call 0 7 ++ begin_call 1 8 ++ begin_call 2 9 ++ (test_running ∷ [])

abbrev finished_script : List Action
finished_script = finished_alert 8 ∷ close_finished ∷ receive 1 ∷ []

abbrev pub after : List Action → State
after actions = elim (run requests actions new) [ none ↦ new | some s ↦ s ]

abbrev pub waiting : State
waiting = after waiting_script

abbrev finished : State
finished = after (waiting_script ++ finished_script)

-- Whether the alerts of a run come once for each handle.
unfoldable alerts_once : List Action → State → Bool
unfolding act
alerts_once [] s = true
alerts_once (finished_alert h ∷ rest) s =
    not (contains s.alerted h)
    && (elim (act requests (finished_alert h) s) [ none ↦ true | some t ↦ alerts_once rest t ])
alerts_once (a ∷ rest) s = elim (act requests a s) [ none ↦ true | some t ↦ alerts_once rest t ]

once-Documented :
    (a : Action) (rest : List Action) (s : State)
    → alerts_once (a ∷ rest) s ≡ true
    → Documented requests s a
unfolding alerts_once
once-Documented (finished_alert h) rest s once = ground (arith, once)
once-Documented (start l) rest s once = tt
once-Documented (check_running i) rest s once = tt
once-Documented (check_first i) rest s once = tt
once-Documented (prepare i r) rest s once = tt
once-Documented (add i h) rest s once = tt
once-Documented (receive i) rest s once = tt
once-Documented (seed i) rest s once = tt
once-Documented (wake i) rest s once = tt
once-Documented test_running rest s once = tt
once-Documented no_alert rest s once = tt
once-Documented close_finished rest s once = tt
once-Documented stop_running rest s once = tt
once-Documented stop_torrents rest s once = tt

once-rest :
    (a : Action) (rest : List Action) (s t : State)
    → alerts_once (a ∷ rest) s ≡ true
    → act requests a s ≡ some t
    → alerts_once rest t ≡ true
unfolding alerts_once
once-rest a rest s t once done = ground (arith, once, done)

run-Reach :
    (actions : List Action) (s t : State)
    → Reach requests s
    → alerts_once actions s ≡ true
    → run requests actions s ≡ some t
    → Reach requests t
unfolding run
run-Reach [] s t reach once e = subst (Reach requests) (ground (arith, e)) reach
run-Reach (a ∷ rest) s t reach once e = elim (Option-cases (act requests a s)) [
  | inl none_done ↦ absurd (ground (arith, none_done))
  | inr (s', done) ↦
      run-Reach rest s' t (next a reach (once-Documented a rest s once) done)
        (once-rest a rest s s' once done) (ground (arith, done))
]

abbrev RunsTo : List Action → Type 0
RunsTo script = (alerts_once script new ≡ true) × (run requests script new ≡ some (after script))

waiting-run : RunsTo waiting_script
unfolding run act dispatch start_client check_if_running check_unique prepare_call add_torrent
    receive_finished seed_torrent wake_seeder test_loop handle_alert close_is_finished stop_client
    stop_all delete_all delete_torrent remove_torrent close_keep_seeding find_torrent lookup insert
    erase keys new contains values alerts_once never_stops text str_beq
waiting-run = (refl, refl)

waiting-Reach : Reach requests waiting
waiting-Reach = run-Reach waiting_script new waiting initially waiting-run.0 waiting-run.1

finished-run : RunsTo (waiting_script ++ finished_script)
unfolding run act dispatch start_client check_if_running check_unique prepare_call add_torrent
    receive_finished seed_torrent wake_seeder test_loop handle_alert close_is_finished stop_client
    stop_all delete_all delete_torrent remove_torrent close_keep_seeding find_torrent lookup insert
    erase keys new contains values alerts_once never_stops text str_beq
finished-run = (refl, refl)

finished-Reach : Reach requests finished
finished-Reach =
    run-Reach (waiting_script ++ finished_script) new finished initially finished-run.0
      finished-run.1

answers_are_finished_example :
    (finished.panicked ≡ false) × Answered finished (finished.keep_seeding 1) (finished.calls 1)
answers_are_finished_example = answers_are_finished requests finished-Reach 1

-- The handles of `waiting`.
abbrev pub handles_of : ℕ → ℕ
handles_of = set (set (set (λ _. 0) 0 7) 1 8) 2 9

waiting-handles : (u : ℕ) → handles_of u ≡ 7 → u ≡ 0
waiting-handles u same = ground (arith, same)

stop_clears_example :
    (t : State) × (run requests (stop_running ∷ stop_torrents ∷ []) waiting ≡ some t)
    × (t.running ≡ false)
    × (t.torrents ≡ [])
    × (is_removed waiting t (text "b") ≡ true)
unfolding run act dispatch start_client check_if_running check_unique prepare_call add_torrent
    receive_finished seed_torrent wake_seeder test_loop handle_alert close_is_finished stop_client
    stop_all delete_all delete_torrent remove_torrent close_keep_seeding find_torrent lookup insert
    erase keys new contains values alerts_once never_stops text str_beq
stop_clears_example = stop_clears requests waiting (text "b") refl

abbrev stopped_script : List Action
stopped_script = stop_running ∷ stop_torrents ∷ finished_alert 7 ∷ test_running ∷ []

stopped_waits_example : (after (waiting_script ++ stopped_script)).calls 0 ≡ at_wait 0
unfolding run act dispatch start_client check_if_running check_unique prepare_call add_torrent
    receive_finished seed_torrent wake_seeder test_loop handle_alert close_is_finished stop_client
    stop_all delete_all delete_torrent remove_torrent close_keep_seeding find_torrent lookup insert
    erase keys new contains values alerts_once never_stops text str_beq
stopped_waits_example =
    stopped_waits requests waiting-Reach 0 0 refl refl (λ e. cc e)
      (finished_alert 7 ∷ test_running ∷ []) (after (waiting_script ++ stopped_script)) refl

seeding_ends_example :
    (u : State) × (run requests (seed 1 ∷ wake 1 ∷ []) finished ≡ some u)
    × (u.calls 1 ≡ returned 1)
    × (u.keep_seeding 1 ≡ true)
    × (lookup (text "b") u.torrents ≡ none)
unfolding run act dispatch start_client check_if_running check_unique prepare_call add_torrent
    receive_finished seed_torrent wake_seeder test_loop handle_alert close_is_finished stop_client
    stop_all delete_all delete_torrent remove_torrent close_keep_seeding find_torrent lookup insert
    erase keys new contains values alerts_once never_stops text str_beq
seeding_ends_example = seeding_ends requests finished-Reach 1 1 refl refl

seeding_forever_example : finished.keep_seeding 2 ≡ false
unfolding run act dispatch start_client check_if_running check_unique prepare_call add_torrent
    receive_finished seed_torrent wake_seeder test_loop handle_alert close_is_finished stop_client
    stop_all delete_all delete_torrent remove_torrent close_keep_seeding find_torrent lookup insert
    erase keys new contains values alerts_once never_stops text str_beq
seeding_forever_example = seeding_forever requests finished-Reach 2 (pos 0) refl refl

abbrev constants : StateConstants
constants = record {
  queued_for_checking_value = 0;
  checking_files_value = 1;
  downloading_metadata_value = 2;
  downloading_value = 3;
  finished_value = 4;
  seeding_value = 5;
  allocating_value = 6;
  checking_resume_data_value = 7;
}

abbrev floats : Floats ℤ
floats = record { of_int = λ n. n; times = λ x n. x; divided = λ x n. x }

abbrev status_of : ℕ → TorrentStatus ℤ
status_of h = record {
  state = 3;
  progress_ratio = pos 0;
  bytes_down = pos 10;
  bytes_up = pos 20;
  connect_candidates = pos 1;
  peers = pos 2;
  seeds = pos 3;
}

abbrev name_of : ℕ → Str
name_of h = text "name"

waiting_has_status_example :
    (lookup (text "b") waiting.torrents ≡ some 1)
    × (get_status constants floats name_of status_of waiting (text "b")
        ≡ ok (status_of_handle constants floats name_of status_of 8))
unfolding run act dispatch start_client check_if_running check_unique prepare_call add_torrent
    receive_finished seed_torrent wake_seeder test_loop handle_alert close_is_finished stop_client
    stop_all delete_all delete_torrent remove_torrent close_keep_seeding find_torrent lookup insert
    erase keys new contains values alerts_once never_stops text str_beq
waiting_has_status_example =
    waiting_has_status requests constants floats name_of status_of waiting_script waiting refl
      waiting-run.1 1 1 refl

-- ===== src/Engine/Torrent/Tests.antt =====
-- The goroutines of `DownloadTorrents` on two torrents.
use quayctl.Base.Int.{ℤ}
use quayctl.Base.{
  if◌then◌else◌, close_of_nil, Option, Str, text, str_eq, subst, Option-cases, inl, inr, ◌++◌,
  str_beq, str_beq_iff, ◌+◌, ◌*◌, ◌≤◌, ◌≡◌, ◌≢◌, refl, true, false, List, [], ◌∷◌, none, some,
  length, ok, panic, contains, Distinct, arith, err,
}
use quayctl.Base.Dict.{lookup, insert}
use quayctl.Engine.{ids, TorrentInfo}
use quayctl.Base.{could_not_initialize}
use quayctl.Engine.Torrent.{
  download_torrents, shorten_name, State, Action, download_ok, announce, go_on, finish, await_next,
  stop_client, close_complete, init, store_path, mark_downloaded, pass_seeding, end_seeding,
  mark_completed, await_torrent, stop, close_complete_channel, close_downloaded, close_completed,
  dispatch, act, run, Reach, start, later, panicked,
}
use quayctl.Engine.Torrent.Safety.{closes_once, complete_all}
use quayctl.Engine.Torrent.Progress.{Move, never_stuck}
use quayctl.Engine.Torrent.Termination.{run_bounded}
use quayctl.Engine.Torrent.Completion.{Finish, can_complete}

abbrev pub torrent : Str → TorrentInfo
torrent b = record { id = b; torrent_path = text "/c1/torrent/app/blobs/" ++ b; title = b }

abbrev pub two : List TorrentInfo
two = torrent (text "a") ∷ torrent (text "b") ∷ []

pub two-Distinct : Distinct (ids two)
unfolding contains text str_beq
two-Distinct = (refl, (refl, tt))

module _ (torrents : List TorrentInfo) (seeds : Option ℤ) where
  run-Reach :
      (acts : List Action) {s t : State}
      → Reach torrents seeds s
      → run torrents seeds acts s ≡ some t
      → Reach torrents seeds t
  unfolding run
  run-Reach [] r e = subst (Reach torrents seeds) (ground arith) r
  run-Reach (a ∷ acts) {s} {t} r e = elim (Option-cases (act torrents seeds a s)) [
    | inl n ↦ absurd (ground arith)
    | inr (u, h) ↦ run-Reach acts (later a r h) (ground arith)
  ]

abbrev actions : List Action
actions =
    download_ok 1 (text "/b")
    ∷ download_ok 0 (text "/a")
    ∷ announce 0
    ∷ go_on 0
    ∷ finish 0
    ∷ announce 1
    ∷ go_on 1
    ∷ finish 1
    ∷ await_next
    ∷ await_next
    ∷ await_next
    ∷ stop_client
    ∷ close_complete
    ∷ []

pub final : State
unfolding run act dispatch store_path mark_downloaded end_seeding pass_seeding mark_completed
    await_torrent stop close_complete_channel close_downloaded close_completed init contains text
    str_beq insert
final = elim (run two none actions init) [ none ↦ init | some s ↦ s ]

final-run : run two none actions init ≡ some final
unfolding final run act dispatch store_path mark_downloaded end_seeding pass_seeding mark_completed
    await_torrent stop close_complete_channel close_downloaded close_completed init contains text
    str_beq insert
final-run = refl

pub final-Reach : Reach two none final
final-Reach = run-Reach two none actions start final-run

-- The state after the first download.
stored_state : State
unfolding run act dispatch store_path mark_downloaded end_seeding pass_seeding mark_completed
    await_torrent stop close_complete_channel close_downloaded close_completed init contains text
    str_beq insert
stored_state = elim (run two none (download_ok 1 (text "/b") ∷ []) init) [
  | none ↦ init
  | some s ↦ s
]

stored_state-Reach : Reach two none stored_state
unfolding stored_state run act dispatch store_path mark_downloaded end_seeding pass_seeding
    mark_completed await_torrent stop close_complete_channel close_downloaded close_completed init
    contains text str_beq insert
stored_state-Reach = run-Reach two none (download_ok 1 (text "/b") ∷ []) start refl

closes_once_example : final.status ≢ panicked
closes_once_example = closes_once two none two-Distinct final-Reach

complete_all_example :
    (final.client_stopped ≡ true)
    × (final.downloaded (text "a") ≡ true)
    × (final.completed (text "a") ≡ true)
    × ((p : Str) × (lookup (text "a") final.torrent_paths ≡ some p))
unfolding final run act dispatch store_path mark_downloaded end_seeding pass_seeding mark_completed
    await_torrent stop close_complete_channel close_downloaded close_completed init contains text
    str_beq insert
complete_all_example = complete_all two none two-Distinct final-Reach refl 0 (text "a") refl

never_stuck_example : Move two none refl stored_state
unfolding stored_state run act dispatch store_path mark_downloaded end_seeding pass_seeding
    mark_completed await_torrent stop close_complete_channel close_downloaded close_completed init
    contains text str_beq insert
never_stuck_example = never_stuck two none refl two-Distinct stored_state-Reach refl refl

run_bounded_example : length actions ≤ 6 * length (ids two) + 3
run_bounded_example =
    run_bounded two none two-Distinct actions final
      (
        refl,
        (
          refl,
          (
            refl,
            (refl, (refl, (refl, (refl, (refl, (refl, (refl, (refl, (refl, (refl, tt)))))))))),
          ),
        ),
      )
      final-run

can_complete_example : Finish two none refl two-Distinct stored_state
unfolding stored_state run act dispatch store_path mark_downloaded end_seeding pass_seeding
    mark_completed await_torrent stop close_complete_channel close_downloaded close_completed init
    contains text str_beq insert
can_complete_example = can_complete two none refl two-Distinct stored_state-Reach refl

pub final_downloaded : (b : Str) → contains (ids two) b ≡ true → final.downloaded b ≡ true
unfolding final run act dispatch store_path mark_downloaded end_seeding pass_seeding mark_completed
    await_torrent stop close_complete_channel close_downloaded close_completed init contains insert
final_downloaded b h = ground (
  arith,
  str_beq_iff b (text "a"),
  str_beq_iff b (text "b"),
  str_beq_iff (text "a") b,
  str_beq_iff (text "b") b,
)

-- The pool of progress bars is stopped for debugging.
download_torrents_test : download_torrents true true (λ started. ok tt) (ok tt) ≡ ok (false, init)
unfolding download_torrents
download_torrents_test = refl

-- The pool has not started, and its stop panics.
no_pool_test :
    download_torrents true false (λ started. if started then ok tt else panic close_of_nil) (ok tt)
    ≡ panic close_of_nil
unfolding download_torrents
no_pool_test = refl

could_not_initialize_test :
    download_torrents false true (λ started. ok tt) (err (text "no")) ≡ panic could_not_initialize
unfolding download_torrents
could_not_initialize_test = refl

shorten_name_test : shorten_name (text "sha256:0123456789abcdef") ≡ text "sha256:0123456789ab"
unfolding shorten_name text
shorten_name_test = refl

-- The download of one torrent.
abbrev one_actions : List Action
one_actions =
    download_ok 0 (text "/app")
    ∷ announce 0
    ∷ go_on 0
    ∷ finish 0
    ∷ await_next
    ∷ await_next
    ∷ stop_client
    ∷ close_complete
    ∷ []

pub final_of : TorrentInfo → State
unfolding run act dispatch store_path mark_downloaded end_seeding pass_seeding mark_completed
    await_torrent stop close_complete_channel close_downloaded close_completed init contains text
    str_beq insert
final_of t = elim (run (t ∷ []) none one_actions init) [ none ↦ init | some s ↦ s ]

-- That of an ACI image.
abbrev pub aci_torrent : TorrentInfo
aci_torrent = record {
  id = text "aci";
  torrent_path = text "http://quay/app.aci";
  title = text "quay/app";
}

pub aci-Reach : Reach (aci_torrent ∷ []) none (final_of aci_torrent)
unfolding final_of run act dispatch store_path mark_downloaded end_seeding pass_seeding
    mark_completed await_torrent stop close_complete_channel close_downloaded close_completed init
    contains text str_beq insert
aci-Reach = run-Reach (aci_torrent ∷ []) none one_actions start refl

pub aci_complete : (final_of aci_torrent).complete ≡ true
unfolding final_of run act dispatch store_path mark_downloaded end_seeding pass_seeding
    mark_completed await_torrent stop close_complete_channel close_downloaded close_completed init
    contains text str_beq insert
aci_complete = refl

-- That of a squashed image.
abbrev pub squashed_torrent : TorrentInfo
squashed_torrent = record {
  id = text "squashed";
  torrent_path = text "/c1/squash/app/latest";
  title = text "quay/app:latest.squash";
}

pub squashed-Reach : Reach (squashed_torrent ∷ []) none (final_of squashed_torrent)
unfolding final_of run act dispatch store_path mark_downloaded end_seeding pass_seeding
    mark_completed await_torrent stop close_complete_channel close_downloaded close_completed init
    contains text str_beq insert
squashed-Reach = run-Reach (squashed_torrent ∷ []) none one_actions start refl

pub squashed_complete : (final_of squashed_torrent).complete ≡ true
unfolding final_of run act dispatch store_path mark_downloaded end_seeding pass_seeding
    mark_completed await_torrent stop close_complete_channel close_downloaded close_completed init
    contains text str_beq insert
squashed_complete = refl

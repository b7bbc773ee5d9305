-- ===== src/Commands/Aci/Tests.antt =====
-- A pull of an ACI image.
use quayctl.Base.{text, str_eq, str_beq, nat_eq, ◌≡◌, ◌∙◌, refl, true, List, [], ◌∷◌, ok, contains}
use quayctl.Base.Dict.{lookup, insert, erase, keys}
use quayctl.Base.Int.{pos}
use quayctl.Engine.{TorrentInfo, rkt}
use quayctl.Engine.Torrent as Torrent
use quayctl.Engine.Torrent.{
  no_seed, local_seed_duration, info_of, download_ok, announce, go_on, finish, await_next,
  stop_client, close_complete,
}
use quayctl.Engine.Torrent.Tests.{aci_torrent}
use quayctl.Engine.Rkt as Rkt
use quayctl.Engine.Rkt.Pull.{rkt_pull_loads}
use quayctl.Engine.Rkt.Tests.{services, context, retrieve-run, fetch_succeeds}
use quayctl.Engine.Download.{
  Joint, Action, of_worker, of_client, begin, initially, request_of, answer_of, has_failed, allows,
  worker_acts, client_acts, joint_act,
}
use quayctl.Engine.Download.Finished.{engine-Reach}
use quayctl.Engine.Download.Tests.{path_of, play, play-Reach, is_documented}
use quayctl.Bittorrent.Client as Client
use quayctl.Bittorrent.Client.{
  start, check_running, check_first, prepare, add, receive, seed, test_running, close_finished,
  finished_alert, stop_running, stop_torrents,
}
use quayctl.Commands.{log_fatal, torrent_pull_run}
use quayctl.Commands.Whole.{found_in}
use quayctl.Commands.Aci.{rkt_handler, Fetched, pull-Fetched}

-- The download of one torrent, and the end of the client.
abbrev actions : List Action
actions =
    of_client (start true)
    ∷ of_client (check_running 0)
    ∷ of_client (check_first 0)
    ∷ of_client (prepare 0 (ok tt))
    ∷ of_client (add 0 7)
    ∷ of_client test_running
    ∷ of_client (finished_alert 7)
    ∷ of_client close_finished
    ∷ of_client (receive 0)
    ∷ of_client (seed 0)
    ∷ of_worker (download_ok 0 (text "/t/a"))
    ∷ of_worker (announce 0)
    ∷ of_worker (go_on 0)
    ∷ of_worker (finish 0)
    ∷ of_worker await_next
    ∷ of_worker await_next
    ∷ of_client stop_running
    ∷ of_client stop_torrents
    ∷ of_worker stop_client
    ∷ of_worker close_complete
    ∷ []

abbrev states : List TorrentInfo → Joint
states torrents = play no_seed torrents actions begin

complete : (states (aci_torrent ∷ [])).engine.complete ≡ true
unfolding begin play is_documented request_of answer_of has_failed allows worker_acts client_acts
    joint_act local_seed_duration Torrent.init Torrent.act Torrent.dispatch Torrent.store_path
    Torrent.mark_downloaded Torrent.close_downloaded Torrent.pass_seeding Torrent.mark_completed
    Torrent.close_completed Torrent.await_torrent Torrent.stop Torrent.close_complete_channel
    Client.new Client.act Client.dispatch Client.start_client Client.check_if_running
    Client.check_unique Client.prepare_call Client.add_torrent Client.receive_finished
    Client.seed_torrent Client.test_loop Client.handle_alert Client.close_is_finished
    Client.delete_torrent Client.remove_torrent Client.close_keep_seeding Client.find_torrent
    Client.stop_client Client.stop_all Client.delete_all keys lookup insert erase contains text
    str_beq
complete = refl

loaded :
    Rkt.load services
      (text "quay/app")
      (info_of (aci_torrent ∷ []) true (states (aci_torrent ∷ [])).engine)
      (rkt context)
    ≡ ok tt
loaded =
    let (c, path, same_context, found, same) =
      rkt_pull_loads services (text "quay/app") true (aci_torrent ∷ []) (rkt context) retrieve-run
        (local_seed_duration no_seed (pos 0)) true (states (aci_torrent ∷ [])).engine
        (engine-Reach (aci_torrent ∷ []) no_seed (pos 0) path_of
          (play-Reach no_seed (aci_torrent ∷ []) actions begin initially))
        complete in
    same ∙ fetch_succeeds c path _

pull_succeeds :
    torrent_pull_run (rkt_handler services) (found_in true states) true (text "quay/app" ∷ [])
    ≡ ok tt
unfolding torrent_pull_run log_fatal
pull_succeeds = simp (retrieve-run, loaded)

pull-Fetched_example : Fetched services (text "quay/app") true path_of states
pull-Fetched_example =
    pull-Fetched services (text "quay/app") true path_of (pos 0) true states
      (λ torrents. play-Reach no_seed torrents actions begin initially) pull_succeeds

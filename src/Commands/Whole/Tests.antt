-- ===== src/Commands/Whole/Tests.antt =====
-- A pull of an image of three layers, of which Docker has the lowest one.
use quayctl.Base.{
  Str, text, str_eq, str_beq, str_beq_iff, nat_eq, ◌≡◌, ◌≢◌, ◌∙◌, subst, refl, true, false, List,
  [], ◌∷◌, ok, contains, arith,
}
use quayctl.Base.Dict.{lookup, insert, erase}
use quayctl.Base.Int.{pos}
use quayctl.Engine.{ids, TorrentInfo, missing_layers, docker, Named}
use quayctl.Engine.Torrent as Torrent
use quayctl.Engine.Torrent.{no_seed, local_seed_duration, info_of}
use quayctl.Engine.Torrent.Tests.{two}
use quayctl.Engine.Docker.{load}
use quayctl.Engine.Docker.Tests.{app, context, manifest, services, registry, retrieve-program}
use quayctl.Engine.Pull.{pull_loads}
use quayctl.Engine.Download.{
  Joint, begin, request_of, answer_of, has_failed, allows, worker_acts, client_acts, joint_act,
  initially,
}
use quayctl.Engine.Download.Finished.{engine-Reach}
use quayctl.Engine.Download.Tests.{path_of, script, play, play-Reach, is_documented}
use quayctl.Bittorrent.Client as Client
use quayctl.Dockerclient.Load.Tests.{
  platform, environment, local_ip, with_blob, daemon_laws, names-apart, load_succeeds,
}
use quayctl.Dockerclient.Load.{local_name}
use quayctl.Dockerclient.Load.Names.{name_of}
use quayctl.Commands.{docker_handler, log_fatal, torrent_pull_run}
use quayctl.Commands.Whole.{program, found_in, Pulled, pull-Pulled}

abbrev states : List TorrentInfo → Joint
states torrents = play no_seed torrents script begin

downloaded : (b : Str) → contains (ids two) b ≡ true → (states two).engine.downloaded b ≡ true
unfolding begin play is_documented request_of answer_of has_failed allows worker_acts client_acts
    joint_act local_seed_duration Torrent.init Torrent.act Torrent.dispatch Torrent.store_path
    Torrent.mark_downloaded Torrent.close_downloaded Client.new Client.act Client.dispatch
    Client.start_client Client.check_if_running Client.check_unique Client.prepare_call
    Client.add_torrent Client.receive_finished Client.seed_torrent Client.test_loop
    Client.handle_alert Client.close_is_finished Client.delete_torrent Client.remove_torrent
    Client.close_keep_seeding Client.find_torrent lookup insert erase contains text str_beq
downloaded b h = ground (
  arith,
  str_beq_iff b (text "a"),
  str_beq_iff b (text "b"),
  str_beq_iff (text "a") b,
  str_beq_iff (text "b") b,
)

loaded :
    load
      (program registry platform environment with_blob services)
      false
      local_ip
      (info_of two true (states two).engine)
      (docker context)
    ≡ ok tt
loaded =
    let (paths, same, sound, complete) =
      pull_loads (program registry platform environment with_blob services) (text "quay/app") false
        missing_layers local_ip two context retrieve-program refl
        (local_seed_duration no_seed (pos 0)) true (states two).engine
        (engine-Reach two no_seed (pos 0) path_of (play-Reach no_seed two script begin initially))
        downloaded in
    same ∙ load_succeeds manifest paths

pull_succeeds :
    torrent_pull_run
      (docker_handler (program registry platform environment with_blob services) false local_ip)
      (found_in true states)
      false
      (text "quay/app" ∷ [])
    ≡ ok tt
unfolding torrent_pull_run log_fatal
pull_succeeds = simp (retrieve-program, loaded)

pull-Pulled_example :
    Pulled registry platform environment with_blob services daemon_laws
      (text "quay/app")
      false
      local_ip
      path_of
      true
      states
pull-Pulled_example =
    pull-Pulled registry platform environment with_blob services daemon_laws (text "quay/app") false
      local_ip path_of (pos 0) true states
      (λ torrents. play-Reach no_seed torrents script begin initially) apart pull_succeeds
  where
    apart :
        (named : Named)
        → registry.parse_named (text "quay/app") ≡ ok named
        → name_of named ≢ local_name platform environment named local_ip
    apart named e =
        let same : app ≡ named = cc in
        subst (λ (n : Named). name_of n ≢ local_name platform environment n local_ip) same
          names-apart

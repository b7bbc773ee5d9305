-- ===== src/Commands/Served/Tests.antt =====
-- The registry of a pull of an image of digest_two layers with digests of SHA-256.
use quayctl.Base.{
  ℕ, some, get_elem?, Bool-cases, inl, inr, ◌==◌, ==→≡, Str, text, str_eq, str_beq, str_beq_iff,
  nat_eq, ◌≡◌, ◌≢◌, ◌∙◌, subst, refl, true, false, List, [], ◌∷◌, ok, contains, arith,
}
use quayctl.Base.Dict.{lookup, insert, erase}
use quayctl.Base.Int.{pos}
use quayctl.Engine.{ids, TorrentInfo, missing_layers, docker, Named, SignedManifest, LayerInfo}
use quayctl.Engine.Torrent as Torrent
use quayctl.Engine.Torrent.{no_seed, local_seed_duration, info_of}
use quayctl.Engine.Docker.{load}
use quayctl.Engine.Docker.Tests.{
  app, digest_context, digest_manifest, digest_two, services, digest_registry, retrieve-digests,
}
use quayctl.Engine.Pull.{pull_loads}
use quayctl.Engine.Download.{
  Joint, begin, request_of, answer_of, has_failed, allows, worker_acts, client_acts, joint_act,
  initially,
}
use quayctl.Engine.Download.Finished.{engine-Reach}
use quayctl.Engine.Download.Tests.{path_of, script, play, play-Reach, is_documented}
use quayctl.Bittorrent.Client as Client
use quayctl.Dockerclient.Load.Tests.{
  platform, environment, local_ip, with_blob, daemon_laws, names-apart, load_succeeds,
}
use quayctl.Dockerclient.Load.{local_name}
use quayctl.Dockerclient.Load.Names.{name_of}
use quayctl.Commands.{docker_handler, log_fatal, torrent_pull_run}
use quayctl.Dockerclient.RegistryDriver.{LocalServeDriver, create}
use quayctl.Dockerclient.RegistryDriver.Tests as DriverTests
use quayctl.Dockerclient.RegistryDriver.Digests.{IsDigest}
use quayctl.Commands.Served.{LayerServed, pull_serves}
use quayctl.Commands.Whole.{program, found_in, Pulled, pull-Pulled}

abbrev states : List TorrentInfo → Joint
states torrents = play no_seed torrents script begin

downloaded :
    (b : Str) → contains (ids digest_two) b ≡ true → (states digest_two).engine.downloaded b ≡ true
unfolding begin play is_documented request_of answer_of has_failed allows worker_acts client_acts
    joint_act local_seed_duration Torrent.init Torrent.act Torrent.dispatch Torrent.store_path
    Torrent.mark_downloaded Torrent.close_downloaded Client.new Client.act Client.dispatch
    Client.start_client Client.check_if_running Client.check_unique Client.prepare_call
    Client.add_torrent Client.receive_finished Client.seed_torrent Client.test_loop
    Client.handle_alert Client.close_is_finished Client.delete_torrent Client.remove_torrent
    Client.close_keep_seeding Client.find_torrent lookup insert erase contains text str_beq
downloaded b h = ground (
  arith,
  str_beq_iff b (text "sha256:aa"),
  str_beq_iff b (text "sha256:bb"),
  str_beq_iff (text "sha256:aa") b,
  str_beq_iff (text "sha256:bb") b,
)

loaded :
    load
      (program digest_registry platform environment with_blob services)
      false
      local_ip
      (info_of digest_two true (states digest_two).engine)
      (docker digest_context)
    ≡ ok tt
loaded =
    let (paths, same, sound, complete) =
      pull_loads (program digest_registry platform environment with_blob services) (text "quay/app")
        false missing_layers local_ip digest_two digest_context retrieve-digests refl
        (local_seed_duration no_seed (pos 0)) true (states digest_two).engine
        (engine-Reach digest_two no_seed (pos 0) path_of
          (play-Reach no_seed digest_two script begin initially))
        downloaded in
    same ∙ load_succeeds digest_manifest paths

pull_succeeds :
    torrent_pull_run
      (docker_handler
        (program digest_registry platform environment with_blob services)
        false
        local_ip)
      (found_in true states)
      false
      (text "quay/app" ∷ [])
    ≡ ok tt
unfolding torrent_pull_run log_fatal
pull_succeeds = simp (retrieve-digests, loaded)

abbrev pulled :
    Pulled digest_registry platform environment with_blob services daemon_laws
      (text "quay/app")
      false
      local_ip
      path_of
      true
      states
pulled =
    pull-Pulled digest_registry platform environment with_blob services daemon_laws
      (text "quay/app") false local_ip path_of (pos 0) true states
      (λ torrents. play-Reach no_seed torrents script begin initially) apart pull_succeeds
  where
    apart :
        (named : Named)
        → digest_registry.parse_named (text "quay/app") ≡ ok named
        → name_of named ≢ local_name platform environment named local_ip
    apart named e =
        let same : app ≡ named = cc in
        subst (λ (n : Named). name_of n ≢ local_name platform environment n local_ip) same
          names-apart

same_manifest : digest_manifest ≡ pulled.context.v1_manifest
same_manifest = let listed = pulled.listed in cc

digests_of : (b : Str) → contains digest_manifest.fs_layers b ≡ true → IsDigest b
unfolding contains text
digests_of b there = elim (Bool-cases (b == text "sha256:aa")) [
  | inl here ↦ record { hex = text "aa"; same = ==→≡ b (text "sha256:aa") here; long = omega arith }
  | inr other ↦ record {
    hex = text "bb";
    same = ==→≡ b (text "sha256:bb") (ground (arith, there, other));
    long = omega arith;
  }
]

pull_serves_example :
    (d : LocalServeDriver) × (create DriverTests.platform pulled.context.named
        pulled.context.v1_manifest pulled.paths
      ≡ ok d)
    × ((i : ℕ) (layer : LayerInfo)
        → get_elem? pulled.context.layers i ≡ some layer
        → LayerServed path_of (states pulled.torrents) pulled.context.v1_manifest d layer)
unfolding text
pull_serves_example =
    pull_serves digest_registry platform environment with_blob services daemon_laws
      (text "quay/app") false local_ip path_of true states DriverTests.platform pulled
      (subst (λ (m : SignedManifest). (b : Str) → contains m.fs_layers b ≡ true → IsDigest b)
        same_manifest digests_of)
      (omega arith)

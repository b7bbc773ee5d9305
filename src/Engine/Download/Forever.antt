-- ===== src/Engine/Download/Forever.antt =====
-- The seeding without an end of engine/torrent.go and bittorrent/bittorrent.go.
use quayctl.Base.{
  Str, str_eq, nat_eq, ℕ, ◌≡◌, refl, false, List, some, arith, Option-cases, inl, inr, Distinct,
  subst,
}
use quayctl.Base.Int.{ℤ, is_positive}
use quayctl.Engine.{TorrentInfo, ids}
use quayctl.Engine.Torrent as Torrent
use quayctl.Engine.Torrent.{seed_after_pull, local_seed_duration, id_at, end_of_seeding}
use quayctl.Engine.Torrent.Unended.{Unended, init-Unended, act-Unended, Unended-open}
use quayctl.Bittorrent.Client.Seeding.{seeding_forever}
use quayctl.Engine.Download.{
  Joint, of_worker, of_client, begin, request_of, allows, worker_acts, client_acts, joint_act,
  Reach, initially, next,
}
use quayctl.Engine.Download.Finished.{engine-Reach, client-Reach}

module _ (torrents : List TorrentInfo) (duration : ℤ) (path_of : ℕ → Str)
    (forever : is_positive duration ≡ false) where
  abbrev Run : Joint → Type 0
  Run = Reach torrents seed_after_pull duration path_of

  -- The client does not close the channel of a call, so no worker goes on.
  not_allowed :
      {j : Joint}
      → Run j
      → (i : ℕ)
      → allows torrents seed_after_pull duration path_of j.client (end_of_seeding i) ≡ false
  unfolding allows request_of local_seed_duration
  not_allowed {j} r i =
      seeding_forever (request_of torrents seed_after_pull duration path_of)
        (client-Reach torrents seed_after_pull duration path_of r) i duration refl forever

  worker_acts-Unended :
      (a : Torrent.Action) (j k : Joint)
      → Run j
      → Unended j.engine
      → joint_act torrents seed_after_pull duration path_of (of_worker a) j ≡ some k
      → Unended k.engine
  unfolding joint_act worker_acts local_seed_duration
  worker_acts-Unended (end_of_seeding i) j k r unended e =
      absurd (ground (arith, e, not_allowed r i))
  worker_acts-Unended a j k r unended e =
      elim (Option-cases (Torrent.act torrents (some duration) a j.engine)) [
        | inl stuck ↦ absurd (ground (arith, e, stuck))
        | inr (s, acted) ↦
            subst Unended (ground (arith, e, acted))
              (act-Unended torrents duration a j.engine s unended refl acted)
      ]

  Reach-Unended : {j : Joint} → Run j → Unended j.engine
  unfolding begin joint_act client_acts
  Reach-Unended initially = init-Unended
  Reach-Unended (next {j} {k} (of_worker a) r d e) = worker_acts-Unended a j k r (Reach-Unended r) e
  Reach-Unended (next {j} {k} (of_client a) r d e) =
      subst Unended (ground (arith, e)) (Reach-Unended r)

  -- If no id occurs twice, and there is a torrent, then `CompleteChannel` is open in every state that the
  -- goroutines of `DownloadTorrents` that seed, for a duration of 0 or less, and those of the client reach together.
  pub never_complete :
      Distinct (ids torrents)
      → {j : Joint} → Reach torrents seed_after_pull duration path_of j
      → (i : ℕ) (b : Str) → id_at torrents (some duration) i ≡ some b
      → j.engine.complete ≡ false
  unfolding local_seed_duration
  never_complete distinct r i b at_i =
      Unended-open torrents duration distinct
        (engine-Reach torrents seed_after_pull duration path_of r) (Reach-Unended r) i b at_i

-- ===== src/Engine/Download/Finished.antt =====
-- The paths that the goroutines of `DownloadTorrents` record, and the torrents that libtorrent has
-- finished.
use quayctl.Base.{
  Str, str_eq, str_beq_iff, nat_eq, subst, ℕ, ◌≡◌, refl, true, List, some, contains, arith,
  Option-cases, inl, inr, Distinct, Distinct-get_elem?,
}
use quayctl.Base.Dict.{lookup, lookup-insert}
use quayctl.Base.Int.{ℤ}
use quayctl.Engine.{TorrentInfo, ids}
use quayctl.Engine.Torrent as Torrent
use quayctl.Engine.Torrent.{SeedOption, local_seed_duration, download_ok, id_at}
use quayctl.Engine.Torrent.Paths.{act-PathsOf}
use quayctl.Engine.Torrent.Safety.{downloaded_recorded}
use quayctl.Bittorrent.Client as Client
use quayctl.Bittorrent.Client.{Request, Phase, returned}
use quayctl.Bittorrent.Client.Invariant.{Inv, Reach-Inv}
use quayctl.Bittorrent.Client.Returned.{act-returned}
use quayctl.Engine.Download.{
  Joint, of_worker, of_client, begin, request_of, answer_of, allows, worker_acts, client_acts,
  joint_act, Reach, initially, next,
}

module _ (torrents : List TorrentInfo) (option : SeedOption) (duration : ℤ)
    (path_of : ℕ → Str) where
  abbrev requests : ℕ → Request
  requests = request_of torrents option duration path_of

  abbrev pub Run : Joint → Type 0
  Run = Reach torrents option duration path_of

  pub engine-Reach :
      {j : Joint} → Run j → Torrent.Reach torrents (local_seed_duration option duration) j.engine
  unfolding begin joint_act worker_acts client_acts
  engine-Reach initially = Torrent.start
  engine-Reach (next {j} {k} (of_worker a) r d e) =
      elim (Option-cases (Torrent.act torrents (local_seed_duration option duration) a j.engine)) [
        | inl stuck ↦ absurd (ground (arith, stuck))
        | inr (s, done) ↦
            subst (Torrent.Reach torrents (local_seed_duration option duration))
              (ground (arith, done)) (Torrent.later a (engine-Reach r) done)
      ]
  engine-Reach (next {j} {k} (of_client a) r d e) =
      subst (Torrent.Reach torrents (local_seed_duration option duration)) (ground (arith, e))
        (engine-Reach r)

  pub client-Reach : {j : Joint} → Run j → Client.Reach requests j.client
  unfolding begin joint_act worker_acts client_acts
  client-Reach initially = Client.initially
  client-Reach (next {j} {k} (of_worker a) r d e) =
      subst (Client.Reach requests) (ground (arith, e)) (client-Reach r)
  client-Reach (next {j} {k} (of_client a) r d e) =
      elim (Option-cases (Client.act requests a j.client)) [
        | inl stuck ↦ absurd (ground (arith, stuck))
        | inr (c, done) ↦
            subst (Client.Reach requests) (ground (arith, done))
              (Client.next a (client-Reach r) d done)
      ]

  -- Every recorded path is what the call of the torrent's worker has returned.
  abbrev Recorded : Joint → Type 0
  Recorded j =
      (i : ℕ) (b p : Str)
      → id_at torrents (local_seed_duration option duration) i ≡ some b
      → lookup b j.engine.torrent_paths ≡ some p
      → answer_of torrents option duration path_of j.client i ≡ some p

  client_acts-Recorded :
      (a : Client.Action) (j k : Joint)
      → Inv j.client
      → Recorded j
      → joint_act torrents option duration path_of (of_client a) j ≡ some k
      → Recorded k
  unfolding joint_act client_acts answer_of
  client_acts-Recorded a j k inv recorded e i b p named there =
      let before = recorded i b p named (ground (arith, e, there)) in
      elim (Option-cases (Client.act requests a j.client)) [
        | inl stuck ↦ absurd (ground (arith, stuck))
        | inr (c, done) ↦ of_phase (j.client.calls i) refl c done before
      ]
    where
      of_phase :
          (phase : Phase)
          → j.client.calls i ≡ phase
          → (c : Client.State) → Client.act requests a j.client ≡ some c
          → answer_of torrents option duration path_of j.client i ≡ some p
          → answer_of torrents option duration path_of k.client i ≡ some p
      of_phase (returned t) at c done before =
          ground (arith, at, e, done, before, act-returned requests a i t j.client c inv at done)
      of_phase _ at c done before = absurd (ground (arith, at, before))

  worker_acts-Recorded :
      Distinct (ids torrents)
      → (a : Torrent.Action) (j k : Joint) → Recorded j
      → joint_act torrents option duration path_of (of_worker a) j ≡ some k
      → Recorded k
  unfolding joint_act worker_acts allows answer_of
  worker_acts-Recorded distinct (download_ok w path) j k recorded e i b p named there =
      elim (Option-cases (
        Torrent.act torrents (local_seed_duration option duration) (download_ok w path) j.engine)) [
          | inl stuck ↦ absurd (ground (arith, stuck))
          | inr (s, done) ↦
              let (c, known, paths) =
                act-PathsOf torrents (local_seed_duration option duration) (download_ok w path)
                  j.engine s done in
              ground (
                arith,
                e,
                done,
                known,
                paths,
                recorded i b p named,
                lookup-insert c b path j.engine.torrent_paths,
                Distinct-get_elem? (ids torrents) w i b distinct,
                str_beq_iff c b,
                answered w path,
              )
        ]
    where
      answered :
          (w : ℕ) (path : Str)
          → allows torrents option duration path_of j.client (download_ok w path) ≡ true
          → answer_of torrents option duration path_of j.client w ≡ some path
      answered w path allowed =
          elim (Option-cases (answer_of torrents option duration path_of j.client w)) [
            | inl nothing ↦ absurd (ground (arith, nothing))
            | inr (q, same) ↦ ground (arith, same, str_beq_iff q path)
          ]
  worker_acts-Recorded distinct a j k recorded e i b p named there =
      elim (Option-cases (Torrent.act torrents (local_seed_duration option duration) a j.engine)) [
        | inl stuck ↦ absurd (ground (arith, stuck))
        | inr (s, done) ↦ ground (
          arith,
          e,
          done,
          recorded i b p named,
          act-PathsOf torrents (local_seed_duration option duration) a j.engine s done,
        )
      ]

  Reach-Recorded : Distinct (ids torrents) → {j : Joint} → Run j → Recorded j
  unfolding begin Torrent.init lookup
  Reach-Recorded distinct initially = λ i b p named there. cc there
  Reach-Recorded distinct (next {j} {k} (of_worker a) r d e) =
      worker_acts-Recorded distinct a j k (Reach-Recorded distinct r) e
  Reach-Recorded distinct (next {j} {k} (of_client a) r d e) =
      client_acts-Recorded a j k (Reach-Inv requests (client-Reach r)) (Reach-Recorded distinct r) e

  -- If no id occurs twice and libtorrent posts that a torrent is finished once for each handle, then in
  -- every state that the goroutines of `DownloadTorrents` and of the client reach together, a torrent
  -- whose downloaded channel is closed has a call of `Download` that has returned, the path of that
  -- call's handle stands in `TorrentPaths`, and libtorrent has posted that the handle is finished.
  pub downloaded_finished :
      Distinct (ids torrents)
      → {j : Joint} → Reach torrents option duration path_of j
      → (i : ℕ) (b : Str) → id_at torrents (local_seed_duration option duration) i ≡ some b
      → j.engine.downloaded b ≡ true
      → (t : ℕ) × (j.client.calls i ≡ returned t)
        × (lookup b j.engine.torrent_paths ≡ some (path_of (j.client.handles t)))
        × (contains j.client.alerted (j.client.handles t) ≡ true)
  unfolding answer_of
  downloaded_finished distinct {j} r i b named closed =
      let (p, there) =
        downloaded_recorded torrents (local_seed_duration option duration) distinct (engine-Reach r)
          i b named closed in
      of_phase p there (Reach-Recorded distinct r i b p named there) (j.client.calls i) refl
    where
      of_phase :
          (p : Str)
          → lookup b j.engine.torrent_paths ≡ some p
          → answer_of torrents option duration path_of j.client i ≡ some p
          → (phase : Phase) → j.client.calls i ≡ phase
          → (t : ℕ) × (j.client.calls i ≡ returned t)
            × (lookup b j.engine.torrent_paths ≡ some (path_of (j.client.handles t)))
            × (contains j.client.alerted (j.client.handles t) ≡ true)
      of_phase p there answer (returned t) at =
          let inv = Reach-Inv requests (client-Reach r) in
          (t, at, ground (arith, at, there, answer), ground (arith, at, inv.each i, inv.closed t))
      of_phase p there answer _ at = absurd (ground (arith, at, answer))

-- ===== src/Engine/Rkt/Pull.antt =====
-- A pull of an ACI image, and the credentials of its URLs.
use quayctl.Base.Int.{ℤ}
use quayctl.Base.{
  Str, text, str_eq, str_beq_iff, ◌≡◌, refl, ap, Bool, true, ◌&&◌, List, [], ◌∷◌, ◌++◌, Option,
  none, some, ok, wrap_error, ◌>>◌, >>=-eq-ok, ◌==◌, contains, Distinct, arith, if◌then◌else◌,
  Option-cases, get_elem?,
}
use quayctl.Base.Dict.{lookup}
use quayctl.Engine.{ids, TorrentInfo, Url, RktContext, Context, rkt}
use quayctl.Engine.Torrent.{State, Reach, info_of}
use quayctl.Engine.Torrent.Safety.{complete_all}
use quayctl.Engine.Rkt.{
  RktCredentials, Stage0Config, RktServices, set_user, domains_loop, credentials_loop,
  endpoint_urls, stage0_configs, default_label, retrieve, download_file, fetch, rkt_context,
  signature_path, await_complete, load,
}

-- A configuration that holds basic credentials for a host.
abbrev pub is_for : Str → Stage0Config → Bool
is_for host c = c.rkt_kind == text "auth" && c.auth_type == text "basic" && contains c.domains host

-- The last of the configurations that is for a host.
abbrev pub last_for : Str → List Stage0Config → Option RktCredentials
last_for host [] = none
last_for host (c ∷ rest) = elim (last_for host rest) [
  | some found ↦ some found
  | none ↦ if is_for host c then some c.credentials else none
]

-- The URLs with some credentials, if there are any.
abbrev pub with_user : Option RktCredentials → Url × Url → Url × Url
with_user none urls = urls
with_user (some c) (aci, signature) = (
  record aci { user = some (c.username, c.password) },
  record signature { user = some (c.username, c.password) },
)

domains_loop_lem :
    (c : RktCredentials) (domains : List Str) (aci signature : Url)
    → domains_loop c domains (aci, signature)
      ≡ with_user (if contains domains aci.host then some c else none) (aci, signature)
unfolding domains_loop set_user contains
domains_loop_lem c [] aci signature = refl
domains_loop_lem c (d ∷ rest) aci signature = ground (
  arith,
  domains_loop_lem c rest aci signature,
  domains_loop_lem c rest (record aci { user = some (c.username, c.password) })
      (record signature { user = some (c.username, c.password) }),
  str_beq_iff d aci.host,
  str_beq_iff aci.host d,
)

-- Both URLs get the user of the last of the configurations with basic credentials for the host of the
-- image, and keep their own if there is none.
pub credentials_loop-last :
    (configs : List Stage0Config) (aci signature : Url)
    → credentials_loop configs (aci, signature)
      ≡ with_user (last_for aci.host configs) (aci, signature)
unfolding credentials_loop contains
credentials_loop-last [] aci signature = refl
credentials_loop-last (c ∷ rest) aci signature =
    let k = c.credentials in
    ground (
      arith,
      credentials_loop-last rest aci signature,
      credentials_loop-last rest (record aci { user = some (k.username, k.password) })
          (record signature { user = some (k.username, k.password) }),
      domains_loop_lem k c.domains aci signature,
      Option-cases (last_for aci.host rest),
    )

module _ (svc : RktServices) (image : Str) (insecure : Bool) where
  -- What `RetrieveTorrents` returns: one torrent, and a context.
  retrieve-one :
      (torrents : List TorrentInfo) (ctx : Context)
      → retrieve svc image insecure ≡ ok (torrents, ctx)
      → (t : TorrentInfo) × (c : RktContext) × (torrents ≡ t ∷ [])
        × (t.id ≡ text "aci")
        × (ctx ≡ rkt c)
  unfolding retrieve
  retrieve-one torrents ctx e =
      let (parsed, e1, r1) = >>=-eq-ok (svc.new_app_from_string image) _ e in
      let app =
        default_label (text "os") svc.goos (default_label (text "arch") svc.goarch parsed) in
      let (endpoints, e2, r2) =
        >>=-eq-ok (wrap_error _ (svc.discover_aci_endpoints app insecure)) _ r1 in
      let (urls, e3, r3) = >>=-eq-ok (endpoint_urls svc app insecure endpoints) _ r2 in
      let (configs, e4, r4) = >>=-eq-ok (stage0_configs svc) _ r3 in
      (
        record {
          id = text "aci";
          torrent_path = svc.url_string (credentials_loop configs urls).0;
          title = image;
        },
        record { signature_url = (credentials_loop configs urls).1 },
        ground arith,
        refl,
        ground arith,
      )

  -- The torrent is the only one, and its id is that of the path that `LoadImage` looks up.
  pub retrieve-Distinct :
      (torrents : List TorrentInfo) (ctx : Context)
      → retrieve svc image insecure ≡ ok (torrents, ctx)
      → Distinct (ids torrents) × (get_elem? (ids torrents) 0 ≡ some (text "aci"))
  retrieve-Distinct torrents ctx e =
      let (t, c, one, named, context) = retrieve-one torrents ctx e in
      (rw one (unfold contains in (refl, tt)), rw one (ap some named))

  -- A load that succeeds has waited until `CompleteChannel` was closed.
  pub load-complete :
      (torrents : List TorrentInfo) (ctx : Context) (seeds : Option ℤ) (bars : Bool) (s : State)
      → load svc image (info_of torrents bars s) ctx ≡ ok tt
      → s.complete ≡ true
  unfolding load await_complete info_of
  load-complete torrents ctx seeds bars s e = ground (arith, e)

  -- If `RetrieveTorrents` succeeds, then in every state that `DownloadTorrents` reaches for what it
  -- returned with `CompleteChannel` closed, `LoadImage` neither waits nor panics before its calls: it
  -- downloads the signature to the path of the image with `.aci.asc`, and then fetches the image from
  -- that path.
  pub rkt_pull_loads :
      (torrents : List TorrentInfo) (ctx : Context)
      → retrieve svc image insecure ≡ ok (torrents, ctx)
      → (seeds : Option ℤ) (bars : Bool) (s : State) → Reach torrents seeds s
      → s.complete ≡ true
      → (c : RktContext) × (path : Str) × (ctx ≡ rkt c)
        × (lookup (text "aci") s.torrent_paths ≡ some path)
        × (load svc image (info_of torrents bars s) ctx ≡ (
            wrap_error
              (λ e. text "Could not download signature for image " ++ (image ++ (text ": " ++ e)))
              (download_file svc c.signature_url (path ++ text ".aci.asc"))
            >> fetch svc image path))
  unfolding load await_complete rkt_context signature_path info_of
  rkt_pull_loads torrents ctx e seeds bars s r done =
      let (t, c, one, named, context) = retrieve-one torrents ctx e in
      let (distinct, here) = retrieve-Distinct torrents ctx e in
      let (_, _, _, (path, found)) =
        complete_all torrents seeds distinct r done 0 (text "aci") here in
      (c, path, context, found, rw (context, done, found) refl)

-- ===== src/Dockerdist/Manifests.antt =====
-- What `DownloadManifest` of dockerdist/dockerdist.go returns.
use quayctl.Base.{
  Str, text, [], ◌∷◌, ◌≡◌, refl, subst, Bool, Option, none, some, Outcome, ok, err, panic, fatal,
  blocked, >>=-eq-ok, arith,
}
use quayctl.Engine.{Named, Manifest, signed, other}
use quayctl.Engine.Docker.{tag_or_latest}
use quayctl.Dockerdist.{
  TagError, DistServices, of_tag, Repository, endpoint_url, get_repository_client, get_digest,
  verify_signed, download_manifest,
}

module _ (svc : DistServices) where
  -- The digest of a name: its own, or what its tag or `latest` stands for in the registry.
  abbrev pub IsDigest : Repository → Named → Option Str → Str → Type 0
  IsDigest repo named (some own) digest = own ≡ digest
  IsDigest repo named none digest = svc.get_tag repo (tag_or_latest named.tag) ≡ ok digest

  -- A client for pulling the image: from its host, over plain HTTP if that is wanted, with the credentials
  -- that the configuration of Docker has for its index.
  pub record IsClientOf (repo : Repository) (named : Named) (insecure : Bool) : Type 0 where
    pub config : Str
    pub loaded : svc.load_config ≡ ok config
    pub indexed : svc.parse_search_index_info (svc.print_named named) ≡ ok repo.index
    pub located : svc.parse_url (endpoint_url svc insecure named.hostname) ≡ ok repo.url
    pub authorized : repo.auth ≡ svc.resolve_auth_config config repo.index
    pub scoped : repo.scopes ≡ text "pull" ∷ []

  get_repository_client-IsClientOf :
      (named : Named) (insecure : Bool) (repo : Repository)
      → get_repository_client svc named insecure (text "pull" ∷ []) ≡ ok repo
      → IsClientOf repo named insecure
  unfolding get_repository_client
  get_repository_client-IsClientOf named insecure repo e =
      let (index, indexed, r1) =
        >>=-eq-ok (svc.parse_search_index_info (svc.print_named named)) _ e in
      let (config, loaded, r2) = >>=-eq-ok svc.load_config _ r1 in
      let (url, located, r3) =
        >>=-eq-ok (svc.parse_url (endpoint_url svc insecure named.hostname)) _ r2 in
      let (_, made, r4) = >>=-eq-ok (svc.new_repository _) _ r3 in
      record {
        config = config;
        loaded = loaded;
        indexed = ground (arith, indexed, r4);
        located = ground (arith, located, r4);
        authorized = ground (arith, r4);
        scoped = ground (arith, r4);
      }

  -- A signed manifest has been verified.
  abbrev pub IsVerified : Manifest → Type 0
  IsVerified (signed m) = svc.verify m ≡ ok tt
  IsVerified other = Unit

  of_tag-ok : (r : Outcome TagError Str) (digest : Str) → of_tag r ≡ ok digest → r ≡ ok digest
  unfolding of_tag
  of_tag-ok (ok d) digest e = ground arith
  of_tag-ok (err x) digest e = absurd (ground arith)
  of_tag-ok (panic x) digest e = absurd (ground arith)
  of_tag-ok (fatal x) digest e = absurd (ground arith)
  of_tag-ok blocked digest e = absurd (ground arith)

  get_digest-IsDigest :
      (repo : Repository) (named : Named) (own : Option Str) (digest : Str)
      → named.digest ≡ own
      → get_digest svc repo named ≡ ok digest
      → IsDigest repo named own digest
  unfolding get_digest
  get_digest-IsDigest repo named (some d) digest has e = ground arith
  get_digest-IsDigest repo named none digest has e =
      of_tag-ok (svc.get_tag repo (tag_or_latest named.tag)) digest (ground arith)

  verify_signed-IsVerified : (m : Manifest) → verify_signed svc m ≡ ok tt → IsVerified m
  unfolding verify_signed
  verify_signed-IsVerified (signed m) e = e
  verify_signed-IsVerified other e = tt

  -- If `DownloadManifest` returns a name and a manifest, then the name is that of the image, and there is
  -- a client for pulling it from its host, over plain HTTP if that is wanted, with the credentials that
  -- the configuration of Docker has for its index, from which the manifest is what the registry has for the
  -- name's own digest, or, if it has none, for the digest that its tag, or `latest`, stands for; a signed
  -- manifest has been verified.
  pub download_manifest-IsVerified :
      (image : Str) (insecure : Bool) (named : Named) (manifest : Manifest)
      → download_manifest svc image insecure ≡ ok (named, manifest)
      → (svc.parse_named image ≡ ok named)
        × ((repo : Repository) × (digest : Str) × IsClientOf repo named insecure
            × IsDigest repo named named.digest digest
            × (svc.get_manifest repo digest ≡ ok manifest))
        × IsVerified manifest
  unfolding download_manifest
  download_manifest-IsVerified image insecure named manifest e =
      let (n, parsed, r1) = >>=-eq-ok (svc.parse_named image) _ e in
      let (repo, client, r2) =
        >>=-eq-ok (get_repository_client svc n insecure (text "pull" ∷ [])) _ r1 in
      let (digest, found, r3) = >>=-eq-ok (get_digest svc repo n) _ r2 in
      let (_, service, r4) = >>=-eq-ok (svc.manifests repo) _ r3 in
      let (m, got, r5) = >>=-eq-ok (svc.get_manifest repo digest) _ r4 in
      let (u, verified, r6) = >>=-eq-ok (verify_signed svc m) _ r5 in
      let (of_client, of_digest, stored) =
        answers n repo digest m client found got (ground (arith, r6)) (ground (arith, r6)) in
      (
        ground (arith, parsed, r6),
        (repo, digest, of_client, of_digest, stored),
        subst IsVerified (ground (arith, r6)) (verify_signed-IsVerified m verified),
      )
    where
      answers :
          (n : Named) (repo : Repository) (digest : Str) (m : Manifest)
          → get_repository_client svc n insecure (text "pull" ∷ []) ≡ ok repo
          → get_digest svc repo n ≡ ok digest
          → svc.get_manifest repo digest ≡ ok m
          → n ≡ named
          → m ≡ manifest
          → IsClientOf repo named insecure
            × IsDigest repo named named.digest digest
            × (svc.get_manifest repo digest ≡ ok manifest)
      answers n repo digest m client found got same_name same = (
        subst (λ (x : Named). IsClientOf repo x insecure) same_name
            (get_repository_client-IsClientOf n insecure repo client),
        subst (λ (x : Named). IsDigest repo x x.digest digest) same_name
            (get_digest-IsDigest repo n n.digest digest refl found),
        ground (arith, got, same),
      )

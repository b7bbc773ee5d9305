-- ===== src/Bittorrent/Prepare/Cleared.antt =====
-- The torrent files that `Download` of bittorrent/bittorrent.go hands to libtorrent.
use quayctl.Base.{
  Str, text, str_eq, ◌≡◌, refl, Bool-cases, Option-cases, inl, inr, ◌<◌, true, false, ◌||◌, List,
  Option, none, some, ok, if◌then◌else◌, has_prefix, arith,
}
use quayctl.Base.Dict.{Dict, lookup}
use quayctl.Bittorrent.{DownloadConfig}
use quayctl.Bittorrent.File.{dictionary, Bencode, clear_keys}
use quayctl.Bittorrent.File.Keys.{is_cleared, update-decode}
use quayctl.Bittorrent.Prepare.{
  Response, Web, Params, is_http, has_trackers, save_response, download_torrent_file, torrent_path,
  clean_torrent_file, params_of_file, torrent_params, params_of_source, prepare_torrent,
}

module _ {V : Type 0} (b : Bencode V) (web : Web) (config : DownloadConfig) where
  -- If the torrent file of a source that is no URL decodes to a dictionary, and can be opened and written,
  -- and decoding undoes encoding for what is written, then the preparation succeeds, with the custom
  -- trackers if there are some, and what it hands to libtorrent decodes to a dictionary without the web
  -- seeds if they are to be skipped, without the tracker if there are custom ones, and with every other
  -- key as in the file.
  pub prepare-decode :
      (source contents : Str) (files : Dict Str) (m : Dict V)
      → is_http source ≡ false
      → has_prefix source (text "magnet:") ≡ false
      → lookup source files ≡ some contents
      → b.decode contents ≡ dictionary m
      → b.open_error source ≡ none
      → b.write_error source ≡ none
      → b.decode (b.marshal (clear_keys b config.skip_webseed (has_trackers config) m)).0
        ≡ dictionary (clear_keys b config.skip_webseed (has_trackers config) m)
      → (key : Str)
      → (p : Params) × (contents' : Str) × (m' : Dict V) × ((prepare_torrent b web config source
            files).0
          ≡ ok p)
        × (p.trackers ≡ (if has_trackers config then some config.custom_trackers else none))
        × (p.torrent_info ≡ some contents')
        × (b.decode contents' ≡ dictionary m')
        × (lookup key m' ≡ (
            if is_cleared config.skip_webseed (has_trackers config) key
            then none
            else lookup key m))
  unfolding prepare_torrent torrent_path params_of_source torrent_params clean_torrent_file
      params_of_file
  prepare-decode source contents files m http magnet there decoded readable writable round key =
      let trackers = has_trackers config in
      let web_seeds = config.skip_webseed in
      let replaced : Option (List Str) = if trackers then some config.custom_trackers else none in
      let written = (b.marshal (clear_keys b web_seeds trackers m)).0 in
      let (m', contents', success, kept, decodes, keys) =
        update-decode b source contents files web_seeds trackers readable there m decoded writable
          round key in
      elim (Bool-cases (trackers || web_seeds)) [
        | inl cleans ↦ (
          record {
            url = none;
            torrent_info = some contents';
            trackers = replaced;
            clear_url_seeds = web_seeds;
          },
          contents',
          m',
          ground (arith, http, magnet, cleans, success, kept),
          refl,
          refl,
          decodes,
          keys,
        )
        | inr keeps ↦ (
          record {
            url = none;
            torrent_info = some contents;
            trackers = replaced;
            clear_url_seeds = web_seeds;
          },
          contents,
          m,
          ground (arith, http, magnet, keeps, there),
          refl,
          refl,
          decoded,
          ground (arith, keeps),
        )
      ]

  -- If the preparation of a URL succeeds, the server has answered the request for it with a status below
  -- 400.
  pub prepare-response :
      (source : Str) (files : Dict Str) (p : Params)
      → is_http source ≡ true
      → (prepare_torrent b web config source files).0 ≡ ok p
      → (response : Response) × (web.do_request source ≡ some response)
        × (response.status_code < 400)
  unfolding prepare_torrent torrent_path params_of_source download_torrent_file save_response
  prepare-response source files p http done = elim (Option-cases (web.do_request source)) [
    | inl unanswered ↦ absurd (ground (arith, unanswered))
    | inr (response, answered) ↦ (response, answered, ground (arith, answered))
  ]

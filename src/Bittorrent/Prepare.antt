-- ===== src/Bittorrent/Prepare.antt =====
-- The part of `Download` in bittorrent/bittorrent.go between its two looks at the active torrents: the
-- download of the .torrent file, and the parameters for libtorrent. HTTP and the files are parameters.
pub mod Cleared
mod Tests
use quayctl.Base.{
  Str, text, str_eq, ℕ, ◌/◌, Bool, true, false, ◌||◌, not, List, [], ◌∷◌, ◌++◌, Option, none, some,
  Outcome, ok, err, panic, fatal, blocked, ◌==◌, leb, if◌then◌else◌, has_prefix,
}
use quayctl.Base.Dict.{Dict, lookup, insert}
use quayctl.Bittorrent.{DownloadConfig}
use quayctl.Bittorrent.File.{Bencode, update_torrent_file}

pub record Response : Type 0 where
  pub status_code : ℕ
  pub body : Str

-- What the function calls: `ioutil.TempFile`, `http.NewRequest`, `client.Do`, and the
-- decimal digits of a status code.
pub record Web : Type 0 where
  pub temp_file : Outcome Str Str
  pub new_request : Str → Option Str
  pub do_request : Str → Option Response
  pub decimal : ℕ → Str

-- `libtorrent.AddTorrentParams`: the URL of a magnet link, or what the torrent file holds, which is
-- nothing if it is not there; the trackers if they are replaced; whether the URL seeds are cleared.
pub record Params : Type 0 where
  pub url : Option Str
  pub torrent_info : Option Str
  pub trackers : Option (List Str)
  pub clear_url_seeds : Bool

abbrev pub is_http : Str → Bool
is_http path = has_prefix path (text "http://") || has_prefix path (text "https://")

-- `len(config.CustomTrackers) > 0`
abbrev pub is_nonempty : List Str → Bool
is_nonempty [] = false
is_nonempty (x ∷ xs) = true

abbrev pub has_trackers : DownloadConfig → Bool
has_trackers config = is_nonempty config.custom_trackers

module _ {V : Type 0} (b : Bencode V) (web : Web) where
  -- `resp.StatusCode/100 >= 4`
  pub save_response : Str → Option Response → Dict Str → Outcome Str Str × Dict Str
  save_response name none files =
      (err (text "Unable to start torrent: could not download .torrent file."), files)
  save_response name (some response) files =
      if leb 4 (response.status_code / 100)
      then (
        err (
            text "Unable to start torrent: got "
            ++ (web.decimal response.status_code ++ text " for .torrent file")),
        files,
      )
      else (ok name, insert name response.body files)

  pub download_torrent_file : Str → Str → Dict Str → Outcome Str Str × Dict Str
  unfolding save_response
  download_torrent_file url name files = elim (web.new_request url) [
    | some e ↦ (err e, files)
    | none ↦ save_response name (web.do_request url) files
  ]

  -- The path of the torrent file: that of the source, or that of a temporary file.
  pub torrent_path : Str → Dict Str → Outcome Str Str × Dict Str
  unfolding download_torrent_file
  torrent_path source files =
      if is_http source
      then elim web.temp_file [
        | ok name ↦ download_torrent_file source name (insert name [] files)
        | _ ↦
            (err (text "Unable to start torrent: could not create temp file for .torrent."), files)
      ]
      else (ok source, files)

  -- "Remove the default tracker and/or webseed from the torrent." The error is dropped.
  pub clean_torrent_file : DownloadConfig → Str → Dict Str → Outcome Str (Unit {0}) × Dict Str
  clean_torrent_file config path files =
      if has_trackers config || config.skip_webseed
      then update_torrent_file b path config.skip_webseed (has_trackers config) files
      else (ok tt, files)

  pub params_of_file :
      DownloadConfig → Str → Outcome Str (Unit {0}) × Dict Str → Outcome Str Params × Dict Str
  params_of_file config path (panic p, files) = (panic p, files)
  params_of_file config path (_, files) = (
    ok (record {
      url = none;
      torrent_info = lookup path files;
      trackers = if has_trackers config then some config.custom_trackers else none;
      clear_url_seeds = config.skip_webseed;
    }),
    files,
  )

  pub torrent_params : DownloadConfig → Str → Dict Str → Outcome Str Params × Dict Str
  unfolding clean_torrent_file params_of_file
  torrent_params config path files =
      if has_prefix path (text "magnet:")
      then (
        ok (record {
          url = some path;
          torrent_info = none;
          trackers = none;
          clear_url_seeds = false;
        }),
        files,
      )
      else params_of_file config path (clean_torrent_file config path files)

  pub params_of_source : DownloadConfig → Outcome Str Str × Dict Str → Outcome Str Params × Dict Str
  unfolding torrent_params
  params_of_source config (ok path, files) = torrent_params config path files
  params_of_source config (err e, files) = (err e, files)
  params_of_source config (panic p, files) = (panic p, files)
  params_of_source config (fatal e, files) = (fatal e, files)
  params_of_source config (blocked, files) = (blocked, files)

  pub prepare_torrent : DownloadConfig → Str → Dict Str → Outcome Str Params × Dict Str
  unfolding torrent_path params_of_source
  prepare_torrent config source files = params_of_source config (torrent_path source files)

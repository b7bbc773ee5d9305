-- ===== src/Bittorrent/Prepare/Tests.antt =====
-- The preparation of bittorrent/bittorrent.go on a torrent file and on a URL.
use quayctl.Base.{Str, text, str_beq, str_eq, has_prefix, ◌≡◌, refl, true, [], ◌∷◌, none, some, ok}
use quayctl.Base.Dict.{Dict, lookup, erase}
use quayctl.Bittorrent.{DownloadConfig}
use quayctl.Bittorrent.File.{dictionary, clear_keys}
use quayctl.Bittorrent.File.Tests.{full, toy, files}
use quayctl.Bittorrent.Prepare.{Web, Params, prepare_torrent}
use quayctl.Bittorrent.Prepare.Cleared.{prepare-decode}

abbrev web : Web
web = record {
  temp_file = ok (text "temp");
  new_request = λ url. none;
  do_request = λ url. some (record { status_code = 200; body = text "full" });
  decimal = λ n. text "200";
}

abbrev config : DownloadConfig
config = record { skip_webseed = true; custom_trackers = text "mine" ∷ [] }

prepare-decode_example :
    (p : Params) × (contents' : Str) × (m' : Dict Str) × ((prepare_torrent toy web config
        (text "good")
        files).0
      ≡ ok p)
    × (p.trackers ≡ some (text "mine" ∷ []))
    × (p.torrent_info ≡ some contents')
    × (toy.decode contents' ≡ dictionary m')
    × (lookup (text "announce") m' ≡ none)
unfolding lookup text str_beq clear_keys erase has_prefix
prepare-decode_example =
    prepare-decode toy web config (text "good") (text "full") files full refl refl refl refl refl
      refl refl (text "announce")

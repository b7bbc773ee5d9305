-- ===== src/Bittorrent/File/Tests.antt =====
-- A toy bencode and `updateTorrentFile` of bittorrent/torrentfile.go on files with it.
use quayctl.Base.{
  Str, text, str_beq, str_eq, ◌≡◌, refl, true, [], ◌∷◌, none, some, ok, if◌then◌else◌, ◌==◌,
}
use quayctl.Base.Dict.{Dict, lookup}
use quayctl.Bittorrent.File.{undecodable, dictionary, Bencode, update_torrent_file}
use quayctl.Bittorrent.File.Keys.{bencode_errors_lost}

abbrev pub full : Dict Str
full =
    (text "announce", text "tracker")
    ∷ (text "info", text "pieces")
    ∷ (text "url-list", text "seed")
    ∷ []

abbrev cleared : Dict Str
cleared = (text "info", text "pieces") ∷ []

-- The text "full" stands for the first dictionary, "cleared" for the second, and nothing else decodes.
abbrev pub toy : Bencode Str
toy = record {
  decode = λ contents.
      if contents == text "full"
      then dictionary full
      else if contents == text "cleared"
      then dictionary cleared
      else undecodable (text "bad");
  marshal = λ m.
      (elim (lookup (text "announce") m) [ none ↦ text "cleared" | some v ↦ text "full" ], none);
  open_error = λ path. none;
  write_error = λ path. none;
}

abbrev pub files : Dict Str
files = (text "good", text "full") ∷ (text "bad", text "rubbish") ∷ []

bencode_errors_lost_example :
    ((update_torrent_file toy (text "bad") true true files).0 ≡ ok tt)
    × ((update_torrent_file toy (text "bad") true true files).1 ≡ files)
unfolding lookup text str_beq
bencode_errors_lost_example =
    bencode_errors_lost toy (text "bad") (text "rubbish") files true true refl refl (λ e. cc e) refl

-- ===== src/Bittorrent/File.antt =====
-- bittorrent/torrentfile.go: the removal of web seeds and trackers from a torrent file. Bencode and the
-- errors of the operating system are parameters; the files are a map from paths to contents.
pub mod Keys
pub mod Tests
use quayctl.Base.{
  Str, text, str_eq, Bool, Option, none, some, Outcome, ok, err, panic, fatal, blocked,
  type_assertion, if◌then◌else◌,
}
use quayctl.Base.Dict.{Dict, lookup, insert, erase}

-- What `bencode.Decode` gives: an error, a dictionary, or a value of another type.
pub data Decoded (V : Type 0) : Type 0 where
  undecodable : Str → Decoded V
  dictionary : Dict V → Decoded V
  other_value : Decoded V

-- What the function calls: `bencode.Decode`, `bencode.Marshal`, with the bytes that it writes and its
-- error, and the errors of `os.Open` for a file that is there and of `os.OpenFile`.
pub record Bencode (V : Type 0) : Type 0 where
  pub decode : Str → Decoded V
  pub marshal : Dict V → Str × Option Str
  pub open_error : Str → Option Str
  pub write_error : Str → Option Str

-- `delete(benmap, key)`, if it is wanted.
abbrev pub erase_if : {V : Type 0} → Bool → Str → Dict V → Dict V
erase_if wanted key m = if wanted then erase key m else m

module _ {V : Type 0} (b : Bencode V) where
  -- The dictionary with the wanted keys deleted.
  unfoldable pub clear_keys : Bool → Bool → Dict V → Dict V
  clear_keys clear_web_seeds clear_trackers benmap =
      erase_if clear_trackers (text "announce") (erase_if clear_web_seeds (text "url-list") benmap)

  -- The file is truncated when it is opened. An error of `Marshal` is not returned: `err` is nil there.
  pub write_torrent_file : Str → Dict V → Dict Str → Outcome Str (Unit {0}) × Dict Str
  write_torrent_file path benmap files = elim (b.write_error path) [
    | some e ↦ (err e, files)
    | none ↦ (ok tt, insert path (b.marshal benmap).0 files)
  ]

  -- `os.Open`, and what the file holds.
  pub read_torrent_file : Str → Dict Str → Outcome Str Str
  read_torrent_file path files = elim (b.open_error path) [
    | some e ↦ err e
    | none ↦ elim (lookup path files) [
      | none ↦ err (text "no such file or directory")
      | some contents ↦ ok contents
    ]
  ]

  -- The rest of the function, from the result of `Decode`. Its error is not returned: `err` is nil there.
  pub update_decoded : Str → Bool → Bool → Dict Str → Decoded V → Outcome Str (Unit {0}) × Dict Str
  unfolding clear_keys write_torrent_file
  update_decoded path clear_web_seeds clear_trackers files (undecodable e) = (ok tt, files)
  update_decoded path clear_web_seeds clear_trackers files other_value =
      (panic type_assertion, files)
  update_decoded path clear_web_seeds clear_trackers files (dictionary m) =
      write_torrent_file path (clear_keys clear_web_seeds clear_trackers m) files

  pub update_torrent_file : Str → Bool → Bool → Dict Str → Outcome Str (Unit {0}) × Dict Str
  unfolding read_torrent_file update_decoded
  update_torrent_file path clear_web_seeds clear_trackers files =
      elim (read_torrent_file path files) [
        | ok contents ↦ update_decoded path clear_web_seeds clear_trackers files (b.decode contents)
        | err e ↦ (err e, files)
        | panic p ↦ (panic p, files)
        | fatal e ↦ (fatal e, files)
        | blocked ↦ (blocked, files)
      ]

-- ===== src/Bittorrent/File/Keys.antt =====
-- What `updateTorrentFile` of bittorrent/torrentfile.go does to the keys of a torrent file.
use quayctl.Base.{
  Str, text, str_eq, ◌≡◌, ◌≢◌, Bool, ◌||◌, ◌&&◌, ◌==◌, none, some, ok, if◌then◌else◌, arith,
}
use quayctl.Base.Dict.{Dict, lookup, lookup-erase, lookup-insert_self}
use quayctl.Bittorrent.File.{
  Decoded, undecodable, dictionary, other_value, Bencode, erase_if, clear_keys, write_torrent_file,
  read_torrent_file, update_decoded, update_torrent_file,
}

-- Whether a key is one of those to delete.
abbrev pub is_cleared : Bool → Bool → Str → Bool
is_cleared clear_web_seeds clear_trackers key =
    (clear_web_seeds && text "url-list" == key) || (clear_trackers && text "announce" == key)

-- The files of a failed decoding, or else those of before.
abbrev pub decoded_files : {V : Type 0} → Decoded V → Dict Str → Dict Str → Dict Str
decoded_files (undecodable e) before after = after
decoded_files _ before after = before

module _ {V : Type 0} (b : Bencode V) where
  lookup-clear_keys :
      (web trackers : Bool) (key : Str) (m : Dict V)
      → lookup key (clear_keys b web trackers m)
        ≡ (if is_cleared web trackers key then none else lookup key m)
  unfolding clear_keys
  lookup-clear_keys web trackers key m = ground (
    arith,
    lookup-erase (text "announce") key (erase_if web (text "url-list") m),
    lookup-erase (text "url-list") key m,
  )

  module _ (path contents : Str) (files : Dict Str) (web trackers : Bool)
      (readable : b.open_error path ≡ none) (there : lookup path files ≡ some contents) where
    -- When the torrent file can be opened, decoded to a dictionary and written, and decoding undoes encoding
    -- for the dictionary that is written, the update succeeds, and the file then decodes to a
    -- dictionary that has no web seeds or no tracker, as was wanted, and every other key as before.
    pub update-decode :
        (m : Dict V)
        → b.decode contents ≡ dictionary m
        → b.write_error path ≡ none
        → b.decode (b.marshal (clear_keys b web trackers m)).0
          ≡ dictionary (clear_keys b web trackers m)
        → (key : Str)
        → (m' : Dict V) × (contents' : Str) × ((update_torrent_file b path web trackers files).0
            ≡ ok tt)
          × (lookup path (update_torrent_file b path web trackers files).1 ≡ some contents')
          × (b.decode contents' ≡ dictionary m')
          × (lookup key m' ≡ (if is_cleared web trackers key then none else lookup key m))
    unfolding update_torrent_file read_torrent_file update_decoded write_torrent_file
    update-decode m decoded writable round key = (
      clear_keys b web trackers m,
      (b.marshal (clear_keys b web trackers m)).0,
      ground (arith, readable, there, decoded, writable),
      ground (
        arith,
        readable,
        there,
        decoded,
        writable,
        lookup-insert_self path (b.marshal (clear_keys b web trackers m)).0 files,
      ),
      round,
      lookup-clear_keys web trackers key m,
    )

    -- If the torrent file can be opened for reading and for writing, and does not decode to a value that
    -- is no dictionary, the update reports success, whatever error the decoding or the encoding ends with.
    -- If the decoding has an error, no file changes.
    pub bencode_errors_lost :
        b.decode contents ≢ other_value
        → b.write_error path ≡ none
        → ((update_torrent_file b path web trackers files).0 ≡ ok tt)
          × (decoded_files
                (b.decode contents)
                files
                (update_torrent_file b path web trackers files).1
              ≡ files)
    unfolding update_torrent_file read_torrent_file update_decoded write_torrent_file
    bencode_errors_lost no_other writable = (
      ground (arith, readable, there, no_other, writable),
      ground (arith, readable, there, no_other, writable),
    )

-- ===== src/Bittorrent/Status.antt =====
-- bittorrent/bittorrent.go, `GetStatus` and `parseTorrentState`. What libtorrent says of a handle is a
-- parameter, and so are the values of its constants for the states and the floating-point numbers.
use quayctl.Base.{Str, text, ℕ, ◌==◌, nat_eq, if◌then◌else◌, none, some, Outcome, ok, err}
use quayctl.Base.Dict.{lookup}
use quayctl.Base.Int.{ℤ}
use quayctl.Bittorrent.Client.{State}

pub data TorrentState : Type 0 where
  queued_for_checking checking_files downloading_metadata downloading finished seeding allocating :
      TorrentState
  checking_resume_data unknown : TorrentState

-- The strings that the constants of `TorrentState` are.
unfoldable pub print_torrent_state : TorrentState → Str
print_torrent_state queued_for_checking = text "Queued for checking"
print_torrent_state checking_files = text "Checking files"
print_torrent_state downloading_metadata = text "Downloading metadata"
print_torrent_state downloading = text "Downloading"
print_torrent_state finished = text "Finished"
print_torrent_state seeding = text "Seeding"
print_torrent_state allocating = text "Allocating"
print_torrent_state checking_resume_data = text "Checking resume data"
print_torrent_state unknown = text "Unknown"

-- The values of libtorrent's constants for the states.
pub record StateConstants : Type 0 where
  pub queued_for_checking_value : ℕ
  pub checking_files_value : ℕ
  pub downloading_metadata_value : ℕ
  pub downloading_value : ℕ
  pub finished_value : ℕ
  pub seeding_value : ℕ
  pub allocating_value : ℕ
  pub checking_resume_data_value : ℕ

unfoldable pub parse_torrent_state : StateConstants → ℕ → TorrentState
parse_torrent_state c state =
    if state == c.queued_for_checking_value
    then queued_for_checking
    else if state == c.checking_files_value
    then checking_files
    else if state == c.downloading_metadata_value
    then downloading_metadata
    else if state == c.downloading_value
    then downloading
    else if state == c.finished_value
    then finished
    else if state == c.seeding_value
    then seeding
    else if state == c.allocating_value
    then allocating
    else if state == c.checking_resume_data_value
    then checking_resume_data
    else unknown

-- What libtorrent says of a torrent, and the operations on `float32` that the client uses.
pub record TorrentStatus (F : Type 0) : Type 0 where
  pub state : ℕ
  pub progress_ratio : F
  pub bytes_down : ℤ
  pub bytes_up : ℤ
  pub connect_candidates : ℤ
  pub peers : ℤ
  pub seeds : ℤ

pub record Floats (F : Type 0) : Type 0 where
  pub of_int : ℤ → F
  pub times : F → ℕ → F
  pub divided : F → ℕ → F

pub record Status (F : Type 0) : Type 0 where
  pub name : Str
  pub status : TorrentState
  pub progress : F
  pub download_rate : F
  pub upload_rate : F
  pub num_connect_candidates : ℤ
  pub num_peers : ℤ
  pub num_seeds : ℤ

module _ {F : Type 0} (c : StateConstants) (floats : Floats F) (name_of : ℕ → Str)
    (status_of : ℕ → TorrentStatus F) where
  unfoldable pub status_of_handle : ℕ → Status F
  unfolding parse_torrent_state
  status_of_handle h =
      let st = status_of h in
      record {
        name = name_of h;
        status = parse_torrent_state c st.state;
        progress = floats.times st.progress_ratio 100;
        download_rate = floats.divided (floats.of_int st.bytes_down) 1024;
        upload_rate = floats.divided (floats.of_int st.bytes_up) 1024;
        num_connect_candidates = st.connect_candidates;
        num_peers = st.peers;
        num_seeds = st.seeds;
      }

  -- `GetStatus`
  unfoldable pub get_status : State → Str → Outcome Str (Status F)
  unfolding status_of_handle
  get_status s source = elim (lookup source s.torrents) [
    | none ↦ err (text "torrent not found")
    | some t ↦ ok (status_of_handle (s.handles t))
  ]

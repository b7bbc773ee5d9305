-- ===== src/Bittorrent/Settings.antt =====
-- bittorrent/bittorrent.go, `NewClient` and `Start`, and `initBitTorrentClient` of engine/torrent.go: what
-- of the configuration reaches libtorrent's session. An `int` of Go is a number below 2 ^ w for words
-- of w bits, a negative one by its two's complement. libtorrent's constants and whether it listens are parameters.
use quayctl.Base.{
  Str, text, ℕ, ◌*◌, ◌^◌, ◌%◌, bit_or, Bool, true, if◌then◌else◌, List, [], ◌∷◌, Option, none, some,
  Outcome, ok, err,
}
use quayctl.Bittorrent.Client.{State, new, at_loop}

pub record ClientFingerprint : Type 0 where
  pub id : Str
  pub major : ℕ
  pub minor : ℕ
  pub revision : ℕ
  pub tag : ℕ

-- `FORCED` is 0, `ENABLED` 1 and `DISABLED` 2; any other `int` can be converted to the type.
pub record ClientConfig : Type 0 where
  pub fingerprint : ClientFingerprint
  pub lower_listen_port : ℕ
  pub upper_listen_port : ℕ
  pub connections_per_second : ℕ
  pub max_download_rate : ℕ
  pub max_upload_rate : ℕ
  pub encryption : ℕ
  pub debug : Bool

abbrev pub forced : ℕ
forced = 0

abbrev pub enabled : ℕ
enabled = 1

abbrev pub disabled : ℕ
disabled = 2

-- libtorrent's constants that the client reads.
pub record SessionConstants : Type 0 where
  pub add_default_plugins : ℕ
  pub both_levels : ℕ
  pub status_notification : ℕ
  pub error_notification : ℕ
  pub all_categories : ℕ

-- The settings of a session that the client sets, with its encryption policies, its alerts, its extensions
-- and its services.
pub record Session : Type 0 where
  pub fingerprint : ClientFingerprint
  pub flags : ℕ
  pub announce_to_all_tiers : Bool
  pub announce_to_all_trackers : Bool
  pub peer_connect_timeout : ℕ
  pub rate_limit_ip_overhead : Bool
  pub request_timeout : ℕ
  pub torrent_connect_boost : ℕ
  pub connection_speed : ℕ
  pub download_rate_limit : ℕ
  pub upload_rate_limit : ℕ
  pub out_enc_policy : ℕ
  pub in_enc_policy : ℕ
  pub allowed_enc_level : ℕ
  pub prefer_rc4 : Bool
  pub alert_mask : ℕ
  pub extensions : List Str
  pub services : List Str

-- The product of two `int`s of some bits.
abbrev pub mul_int : ℕ → ℕ → ℕ → ℕ
mul_int word a b = (a * b) % 2 ^ word

-- `byte(…)`
abbrev pub to_byte : ℕ → ℕ
to_byte a = a % 2 ^ 8

pub record Client : Type 0 where
  pub session : Session
  pub state : State
  pub config : ClientConfig

-- `word` is the width of an `int`: 64, or 32 on linux-x86 and linux-arm.
module _ (word : ℕ) (c : SessionConstants) where
  unfoldable pub alert_mask_of : Bool → ℕ
  alert_mask_of debug =
      if debug then c.all_categories else bit_or c.status_notification c.error_notification

  -- `NewClient`
  unfoldable pub new_client : ClientConfig → Client
  unfolding alert_mask_of
  new_client config = record {
    session = record {
      fingerprint = config.fingerprint;
      flags = c.add_default_plugins;
      announce_to_all_tiers = true;
      announce_to_all_trackers = true;
      peer_connect_timeout = 2;
      rate_limit_ip_overhead = true;
      request_timeout = 5;
      torrent_connect_boost = mul_int word config.connections_per_second 10;
      connection_speed = config.connections_per_second;
      download_rate_limit = config.max_download_rate;
      upload_rate_limit = config.max_upload_rate;
      out_enc_policy = to_byte config.encryption;
      in_enc_policy = to_byte config.encryption;
      allowed_enc_level = to_byte c.both_levels;
      prefer_rc4 = true;
      alert_mask = alert_mask_of config.debug;
      extensions = text "smart_ban" ∷ text "ut_pex" ∷ [];
      services = [];
    };
    state = new;
    config = config;
  }

  module _ (listen_on : ℕ → ℕ → Option Str) where
    -- `Start`, with the start of the consumer.
    unfoldable pub start : Client → Outcome Str Client
    start client =
        elim (listen_on client.config.lower_listen_port client.config.upper_listen_port) [
          | some e ↦ err e
          | none ↦ ok (record client {
            state = record client.state { running = true; consumer = at_loop };
            session = record client.session {
              services = text "upnp" ∷ text "natpmp" ∷ text "lsd" ∷ [];
            };
          })
        ]

    -- `initBitTorrentClient`; the first argument is the error of `os.MkdirAll`, or nil.
    unfoldable pub init_bit_torrent_client : Option Str → ClientConfig → Outcome Str Client
    unfolding start new_client
    init_bit_torrent_client (some e) config = err e
    init_bit_torrent_client none config = start (new_client config)

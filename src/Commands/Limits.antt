-- ===== src/Commands/Limits.antt =====
-- The limits that the flags of the torrent commands set on libtorrent's session: cmd/quayctl/torrentcmd.go
-- with `initBitTorrentClient` and `NewClient`.
use native.Mathlib.Nat.{mod-eq_of_lt}
use quayctl.Base.{
  Str, ℕ, ◌*◌, ◌^◌, ◌<◌, ◌≤◌, ◌≡◌, ◌↔◌, refl, Option, none, some, ok, arith, true, text, [], ◌∷◌,
}
use quayctl.Bittorrent.Settings.{
  SessionConstants, Client, disabled, mul_int, start, new_client, init_bit_torrent_client,
}
use quayctl.Bittorrent.Client.{new, start_client, at_loop}
use quayctl.Commands.Config.{Flags, client_config}

-- The flags are in range: their help allows the encryption modes 0 to 2, and the rates and the number of
-- connections are small enough for the products with them as `int`s of `word` bits.
pub record InRange (word : ℕ) (flags : Flags) : Type 0 where
  pub connections : flags.connections_per_second * 10 * 2 < 2 ^ word
  pub download : flags.download_rate * 1024 * 2 < 2 ^ word
  pub upload : flags.upload_rate * 1024 * 2 < 2 ^ word
  pub encryption : flags.encryption_mode ≤ disabled

mul_int-exact : (word a b : ℕ) → a * b * 2 < 2 ^ word → mul_int word a b ≡ a * b
mul_int-exact word a b small = mod-eq_of_lt (omega (arith, small))

module _ (c : SessionConstants) (listen_on : ℕ → ℕ → Option Str) where
  -- If the flags are in range, the folder is made and libtorrent listens on their ports, then
  -- `initBitTorrentClient` gives a client that `Start` has started from the state of `NewClient`. The
  -- limits of its session are 1024 times the flags in kB/s, and so 0, no limit, for the flag 0 only; it
  -- connects at the speed of the flag with a boost of ten times that, and both of its encryption policies
  -- are the mode of the flag.
  pub client-InRange :
      (word : ℕ) (flags : Flags)
      → InRange word flags
      → listen_on flags.lower_port flags.upper_port ≡ none
      → (client : Client) × (init_bit_torrent_client word c listen_on none
            (client_config word flags)
          ≡ ok client)
        × (start_client true new ≡ some client.state)
        × (client.session.download_rate_limit ≡ flags.download_rate * 1024)
        × (client.session.upload_rate_limit ≡ flags.upload_rate * 1024)
        × ((client.session.download_rate_limit ≡ 0) ↔ (flags.download_rate ≡ 0))
        × ((client.session.upload_rate_limit ≡ 0) ↔ (flags.upload_rate ≡ 0))
        × (client.session.connection_speed ≡ flags.connections_per_second)
        × (client.session.torrent_connect_boost ≡ flags.connections_per_second * 10)
        × (client.session.out_enc_policy ≡ flags.encryption_mode)
        × (client.session.in_enc_policy ≡ flags.encryption_mode)
  unfolding init_bit_torrent_client start new_client client_config start_client new
  client-InRange word flags range listens =
      let made = new_client word c (client_config word flags) in
      let download = mul_int-exact word flags.download_rate 1024 range.download in
      let upload = mul_int-exact word flags.upload_rate 1024 range.upload in
      (
        record made {
          state = record made.state { running = true; consumer = at_loop };
          session = record made.session {
            services = text "upnp" ∷ text "natpmp" ∷ text "lsd" ∷ [];
          };
        },
        rw (listens, start) refl,
        refl,
        download,
        upload,
        ground (arith, download),
        ground (arith, upload),
        refl,
        mul_int-exact word flags.connections_per_second 10 range.connections,
        ground (arith, range.encryption),
        ground (arith, range.encryption),
      )

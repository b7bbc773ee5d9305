-- ===== src/Engine/Torrent/Display/Tests.antt =====
-- The bars of two torrents, of which the first has no status to be had.
use quayctl.Base.{
  Str, text, ℕ, nat_eq, ◌≡◌, refl, [], ◌∷◌, some, Outcome, ok, err, false, true, get_elem?, str_eq,
  str_beq, ◌==◌, if◌then◌else◌,
}
use quayctl.Base.Dict.{lookup, insert}
use quayctl.Base.Int.{pos}
use quayctl.Engine.Torrent.Tests.{two, two-Distinct, torrent}
use quayctl.Bittorrent.Status.{Status, downloading}
use quayctl.Engine.Torrent.Display.{Bar, bars_of, pb_map, refresh, refresh_bars, show_step}
use quayctl.Engine.Torrent.Display.Shown.{show_step-refresh}

abbrev status_now : Str → Outcome Str (Status ℕ)
status_now path =
    if path == text "/c1/torrent/app/blobs/b"
    then ok (record {
      name = text "b";
      status = downloading;
      progress = 40;
      download_rate = 7;
      upload_rate = 2;
      num_connect_candidates = pos 3;
      num_peers = pos 3;
      num_seeds = pos 1;
    })
    else err (text "torrent not found")

abbrev kilobytes : ℕ → Str
kilobytes rate = if rate == 7 then text "7.2kB" else text "2.0kB"

abbrev bar_after : Bar
bar_after = record {
  prefix = text "b";
  postfix = text " Downloading DL7.2kB/s UL2.0kB/s";
  value = pos 40;
  is_shown = true;
}

abbrev first_bar : Bar
first_bar = record {
  prefix = text "a";
  postfix = text " Initializing";
  value = pos 0;
  is_shown = true;
}

abbrev second_bar : Bar
second_bar = record {
  prefix = text "b";
  postfix = text " Initializing";
  value = pos 0;
  is_shown = true;
}

shown_test :
    show_step pos kilobytes status_now (pb_map two) two false (bars_of two)
    ≡ some (first_bar ∷ bar_after ∷ [])
unfolding show_step refresh_bars refresh bars_of pb_map lookup insert text str_beq
shown_test = refl

show_step-refresh_example :
    get_elem? (first_bar ∷ bar_after ∷ []) 1
    ≡ some
        (refresh pos kilobytes status_now (status_now (torrent (text "b")).torrent_path) second_bar)
unfolding bars_of text
show_step-refresh_example =
    show_step-refresh pos kilobytes status_now two (bars_of two) (first_bar ∷ bar_after ∷ []) 1
      (torrent (text "b")) second_bar two-Distinct refl refl shown_test

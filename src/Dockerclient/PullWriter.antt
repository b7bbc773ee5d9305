-- ===== src/Dockerclient/PullWriter.antt =====
-- dockerclient/pullwriter.go: the writer that takes Docker's pull log in pieces and shows a progress bar
-- for each layer. The JSON decoder and the percentage, computed in floating point, are parameters.
mod Stream
mod Chunks
mod Bars
mod Tests
use quayctl.Base.{
  Str, text, str_eq, ℕ, zero, suc, ◌+◌, Bool, true, false, List, [], ◌∷◌, ◌++◌, Option, none, some,
  ◌==◌, nat_eq, ◌||◌, not, ltb, leb, if◌then◌else◌, length, Outcome, ok, fatal, ◌>>=◌,
}
use quayctl.Base.Dict.{Dict, lookup, insert}
use quayctl.Base.Int.{ℤ, pos, negsuc, is_positive}

-- The fields of `dockerResponse` and its `progressDetail` that are used.
pub record DockerResponse : Type 0 where
  pub id : Str
  pub status : Str
  pub current : ℤ
  pub total : ℤ

-- What the display sets of a progress bar.
pub record Bar : Type 0 where
  pub prefix : Str
  pub value : ℤ
  pub postfix : Str

-- A bar in `pb_map` is told by its position in `bars`. `logged` holds the lines that are printed.
pub record PullProgressDisplay : Type 0 where
  pub partial_buffer : Str
  pub pb_map : Dict ℕ
  pub pb_counter : ℕ
  pub bars : List Bar
  pub has_progress_bars : Bool
  pub tag_name : Str
  pub logged : List Str

-- What `dec.Decode` gives: a response and what follows it, the end of the input, an input that ends inside
-- a response, with the data that `dec.Buffered` then has, or another error, with its text and that data.
pub data Decoded : Type 0 where
  item : DockerResponse → Str → Decoded
  eof : Decoded
  unexpected_eof : Str → Decoded
  malformed : Str → Str → Decoded

pub record Platform : Type 0 where
  pub decode : Str → Decoded
  pub percent : ℤ → ℤ → ℤ

abbrev new_bar : Bar
new_bar = record { prefix = []; value = pos 0; postfix = text " Initializing" }

pub new_bars : ℕ → List Bar
new_bars zero = []
new_bars (suc n) = new_bar ∷ new_bars n

-- `pool_started` is `err == nil` of `pb.StartPool`.
pub new_pull_progress_display : Str → ℕ → Bool → PullProgressDisplay
new_pull_progress_display tag_name layer_count pool_started = record {
  partial_buffer = [];
  pb_map = [];
  pb_counter = 0;
  bars = new_bars layer_count;
  has_progress_bars = pool_started;
  tag_name = tag_name;
  logged = [];
}

-- The bar at a position, changed.
pub change : ℕ → (Bar → Bar) → List Bar → List Bar
change i f [] = []
change zero f (b ∷ bs) = f b ∷ bs
change (suc i) f (b ∷ bs) = b ∷ change i f bs

abbrev is_zero : ℤ → Bool
is_zero (pos n) = n == 0
is_zero (negsuc n) = false

-- `Prefix(m.ID + " ")`.
abbrev pub named : DockerResponse → Bar → Bar
named m b = record b { prefix = m.id ++ text " " }

module _ (p : Platform) where
  -- The value and the postfix of the bar of a response.
  pub show : DockerResponse → Bar → Bar
  show m b = record b {
    value = if is_positive m.total then p.percent m.current m.total else pos 100;
    postfix = text " " ++ m.status;
  }

  -- `w.pbMap[m.ID]`, with the next bar for a new id; `none` if no bar is left.
  pub assign : DockerResponse → PullProgressDisplay → Option (ℕ × PullProgressDisplay)
  assign m w = elim (lookup m.id w.pb_map) [
    | some i ↦ some (i, w)
    | none ↦
        if leb (length w.bars) w.pb_counter
        then none
        else some (
          w.pb_counter,
          record w {
            pb_map = insert m.id w.pb_counter w.pb_map;
            bars = change w.pb_counter (named m) w.bars;
            pb_counter = w.pb_counter + 1;
          },
        )
  ]

  pub show_bar : DockerResponse → PullProgressDisplay → PullProgressDisplay
  unfolding show assign
  show_bar m w = elim (assign m w) [
    | none ↦ w
    | some (i, w') ↦ record w' { bars = change i (show m) w'.bars }
  ]

  pub print_line : DockerResponse → PullProgressDisplay → PullProgressDisplay
  print_line m w =
      if is_zero m.total
      then record w { logged = w.logged ++ ((m.id ++ (text ": " ++ (m.status ++ text "\n"))) ∷ []) }
      else w

  pub update_status : DockerResponse → PullProgressDisplay → PullProgressDisplay
  unfolding show_bar print_line
  update_status m w =
      if m.id == [] || m.id == w.tag_name
      then w
      else if not w.has_progress_bars
      then print_line m w
      else show_bar m w

  -- The loop of `Write`; `none` means that the fuel ran out.
  pub decode_loop : ℕ → Str → PullProgressDisplay → Option (Outcome Str PullProgressDisplay)
  decode_loop zero input w = none
  decode_loop (suc fuel) input w = elim (p.decode input) [
    | eof ↦ some (ok w)
    | unexpected_eof buffered ↦ some (ok (record w { partial_buffer = buffered }))
    | malformed e entry ↦
        some (fatal (text "Error when reading logs: " ++ (e ++ (text "; Failed entry: " ++ entry))))
    | item m rest ↦ decode_loop fuel rest (update_status m w)
  ]

  -- `Write`: the new state, and the number of bytes that it says to have written.
  pub write : Str → PullProgressDisplay → Option (Outcome Str (PullProgressDisplay × ℕ))
  unfolding decode_loop
  write q w =
      let input = w.partial_buffer ++ q in
      elim (decode_loop (suc (length input)) input (record w { partial_buffer = [] })) [
        | none ↦ none
        | some r ↦ some (r >>= λ w'. ok (w', length q))
      ]

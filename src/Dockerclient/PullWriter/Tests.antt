-- ===== src/Dockerclient/PullWriter/Tests.antt =====
-- The writer with a decoder of responses of two bytes, the id and the status, which skips line ends before
-- them.
use quayctl.Base.{
  List, none, str_beq, ◌==◌, nat_eq, if◌then◌else◌, ◌≤◌, Str, str_eq, ℕ, ◌<◌, ◌≡◌, refl, ap, true,
  [], ◌∷◌, ◌++◌, some, length, ok, fatal, ◌⊎◌, arith, str_beq_iff,
}
use quayctl.Base.Dict.{lookup}
use quayctl.Base.Int.{pos}
use quayctl.Dockerclient.PullWriter.{
  DockerResponse, PullProgressDisplay, Decoded, item, eof, unexpected_eof, Platform, new_bars,
  update_status, decode_loop, write,
}
use quayctl.Dockerclient.PullWriter.Stream.{outline, IsStream, Similar}
use quayctl.Dockerclient.PullWriter.Chunks.{
  returned, write_all, concat, write_total, write_all-concat,
}
use quayctl.Dockerclient.PullWriter.Bars.{IsShared, write-IsShared}

abbrev response : ℕ → ℕ → DockerResponse
response i s = record { id = i ∷ []; status = s ∷ []; current = pos 1; total = pos 2 }

skip : Str → Str
skip [] = []
skip (c ∷ s) = if c == 10 then skip s else c ∷ s

-- What is left of an input after the line ends.
abbrev decode_rest : Str → Str → Decoded
decode_rest s [] = eof
decode_rest s (i ∷ []) = unexpected_eof s
decode_rest s (i ∷ t ∷ rest) = item (response i t) rest

abbrev decode_two : Str → Decoded
decode_two s = decode_rest s (skip s)

abbrev platform : Platform
platform = record { decode = decode_two; percent = λ current total. pos 50 }

skip-append : (s t : Str) (i : ℕ) (r : Str) → skip s ≡ i ∷ r → skip (s ++ t) ≡ i ∷ (r ++ t)
unfolding skip
skip-append [] t i r e = cc
skip-append (c ∷ s) t i r e = ground (arith, e, skip-append s t i r)

skip_nothing : (s t : Str) → skip s ≡ [] → skip (s ++ t) ≡ skip t
unfolding skip
skip_nothing [] t e = refl
skip_nothing (c ∷ s) t e = ground (arith, e, skip_nothing s t)

length-skip : (s : Str) → length (skip s) ≤ length s
unfolding skip
length-skip [] = ground arith
length-skip (c ∷ s) = ground (arith, length-skip s)

decode_rest-item :
    (s k : Str) (m : DockerResponse) (r : Str)
    → decode_rest s k ≡ item m r
    → (i : ℕ) × (t : ℕ) × (k ≡ i ∷ t ∷ r) × (m ≡ response i t)
decode_rest-item s [] m r e = cc
decode_rest-item s (i ∷ []) m r e = cc
decode_rest-item s (i ∷ t ∷ rest) m r e =
    let left : rest ≡ r = cc in (i, t, ap (λ x. i ∷ t ∷ x) left, cc)

decode_rest-eof : (s k : Str) → decode_rest s k ≡ eof → k ≡ []
decode_rest-eof s [] e = refl
decode_rest-eof s (i ∷ []) e = cc
decode_rest-eof s (i ∷ t ∷ rest) e = cc

decode_rest-kept : (s k b : Str) → decode_rest s k ≡ unexpected_eof b → b ≡ s
decode_rest-kept s [] b e = cc
decode_rest-kept s (i ∷ []) b e = cc
decode_rest-kept s (i ∷ t ∷ rest) b e = cc

outline-decode_rest : (s s' k : Str) → outline (decode_rest s k) ≡ outline (decode_rest s' k)
outline-decode_rest s s' [] = refl
outline-decode_rest s s' (i ∷ []) = refl
outline-decode_rest s s' (i ∷ t ∷ rest) = refl

advances_lem :
    (s : Str) (m : DockerResponse) (r : Str) → decode_two s ≡ item m r → length r < length s
advances_lem s m r e =
    let (i, t, left, _) = decode_rest-item s (skip s) m r e in
    let shorter = length-skip s in ground (arith, left, shorter)

stream : IsStream platform
stream = record {
  advances = advances_lem;
  item_append = λ s t m r e.
      let (i, k, left, one) = decode_rest-item s (skip s) m r e in
      rw (skip-append s t i (k ∷ r) left, one) refl;
  eof_append = λ s t e.
      rw (skip_nothing s t (decode_rest-eof s (skip s) e))
        (outline-decode_rest (s ++ t) t (skip t));
  unexpected_kept = λ s b e. decode_rest-kept s (skip s) b e;
}

-- A piece of the log that completes a response and holds another one and a half.
abbrev piece : Str
piece = 5 ∷ 2 ∷ 6 ∷ 7 ∷ []

abbrev display : PullProgressDisplay
display = record {
  partial_buffer = 1 ∷ [];
  pb_map = (2 ∷ [], 0) ∷ [];
  pb_counter = 1;
  bars = new_bars 2;
  has_progress_bars = true;
  tag_name = [];
  logged = [];
}

display-IsShared : IsShared display
unfolding new_bars lookup
display-IsShared = record {
  counted = omega arith;
  handed_out = λ a i e. ground arith;
  apart = λ a b i e e'. ground (arith, str_beq_iff (2 ∷ []) a, str_beq_iff (2 ∷ []) b);
}

write_total_example :
    ((w' : PullProgressDisplay) × (write platform piece display ≡ some (ok (w', length piece))))
    ⊎ ((e : Str) × (write platform piece display ≡ some (fatal e)))
write_total_example = write_total platform advances_lem piece display

-- The log in pieces: the end of a response with a line end after it, half a response, and its end.
abbrev pieces : List Str
pieces = (6 ∷ []) ∷ (7 ∷ 8 ∷ []) ∷ []

-- What `Write` leaves of the pieces.
after_pieces : PullProgressDisplay
unfolding write write_all returned decode_loop skip
after_pieces = elim (write_all platform (5 ∷ 10 ∷ []) pieces display) [
  | some w ↦ w
  | none ↦ display
]

after_pieces-run : write_all platform (5 ∷ 10 ∷ []) pieces display ≡ some after_pieces
unfolding after_pieces write write_all returned decode_loop skip update_status str_beq lookup
    new_bars
after_pieces-run = refl

write_all-concat_example :
    (u : PullProgressDisplay) × (returned (write platform ((5 ∷ 10 ∷ []) ++ concat pieces) display)
      ≡ some u)
    × Similar platform after_pieces u
write_all-concat_example =
    write_all-concat platform stream (5 ∷ 10 ∷ []) pieces display after_pieces after_pieces-run

-- What `Write` leaves of the piece.
after_piece : PullProgressDisplay
unfolding write decode_loop skip
after_piece = elim (write platform piece display) [ some (ok (w, n)) ↦ w | _ ↦ display ]

after_piece-run : write platform piece display ≡ some (ok (after_piece, 4))
unfolding after_piece write decode_loop skip
after_piece-run = refl

write-IsShared_example : IsShared after_piece
write-IsShared_example =
    write-IsShared platform piece display after_piece 4 display-IsShared after_piece-run

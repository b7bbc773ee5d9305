-- ===== src/Dockerclient/PullWriter/Bars.antt =====
-- The bars that dockerclient/pullwriter.go hands out to the layers.
use quayctl.Base.{
  Bool, subst, ok, ◌++◌, Str, str_eq, str_beq_iff, ℕ, zero, suc, ◌<◌, ◌≤◌, ◌≡◌, ◌≢◌, refl, sym, ap,
  ◌∙◌, List, [], ◌∷◌, some, length, get_elem?, arith, Option-cases, inl, inr,
}
use quayctl.Base.Dict.{lookup, lookup-insert}
use quayctl.Dockerclient.PullWriter.{
  DockerResponse, decode_loop, write, new_pull_progress_display, Bar, PullProgressDisplay, Platform,
  change, named, show_bar, print_line, assign, show, update_status,
}
use quayctl.Dockerclient.PullWriter.Stream.{
  at_item, at_eof, at_unexpected, at_malformed, decode-Cases,
}

length-change : (i : ℕ) (f : Bar → Bar) (bs : List Bar) → length (change i f bs) ≡ length bs
unfolding change
length-change i f [] = refl
length-change zero f (b ∷ bs) = refl
length-change (suc i) f (b ∷ bs) = ap suc (length-change i f bs)

get_elem?-change :
    (i j : ℕ) (f : Bar → Bar) (bs : List Bar) → i ≢ j → get_elem? (change j f bs) i ≡ get_elem? bs i
unfolding change
get_elem?-change i j f [] ne = refl
get_elem?-change zero zero f (b ∷ bs) ne = absurd (ne refl)
get_elem?-change (suc i) zero f (b ∷ bs) ne = refl
get_elem?-change zero (suc j) f (b ∷ bs) ne = refl
get_elem?-change (suc i) (suc j) f (b ∷ bs) ne = get_elem?-change i j f bs (λ e. ne (ap suc e))

-- The bars that are handed out are there, and no two layers have the same.
pub record IsShared (w : PullProgressDisplay) : Type 0 where
  pub counted : w.pb_counter ≤ length w.bars
  pub handed_out : (a : Str) (i : ℕ) → lookup a w.pb_map ≡ some i → i < w.pb_counter
  pub apart : (a b : Str) (i : ℕ) → lookup a w.pb_map ≡ some i → lookup b w.pb_map ≡ some i → a ≡ b

module _ (p : Platform) (m : DockerResponse) (w : PullProgressDisplay) where
  first_change : length (change w.pb_counter (named m) w.bars) ≡ length w.bars
  first_change = length-change w.pb_counter (named m) w.bars

  both_changes :
      length (change w.pb_counter (show p m) (change w.pb_counter (named m) w.bars)) ≡ length w.bars
  both_changes = length-change w.pb_counter (show p m) _ ∙ first_change

  length-bars : length (update_status p m w).bars ≡ length w.bars
  unfolding update_status show_bar print_line assign
  length-bars = elim (Option-cases (lookup m.id w.pb_map)) [
    | inl e ↦ ground (arith, first_change, both_changes, e)
    | inr (i, e) ↦ ground (arith, length-change i (show p m) w.bars, e)
  ]

  -- A response keeps the display sound: the bars handed out exist, and no two layers share one.
  pub update_status-IsShared : IsShared w → IsShared (update_status p m w)
  unfolding update_status show_bar print_line assign
  update_status-IsShared h = record {
    counted = let kept = length-bars in let c = h.counted in ground (arith, kept, c);
    handed_out = λ a i e.
        let o = h.handed_out a i in
        ground (arith, lookup-insert m.id a w.pb_counter w.pb_map, str_beq_iff m.id a);
    apart = λ a b i e e'.
        let oa = h.handed_out a i in
        let ob = h.handed_out b i in
        let same = h.apart a b i in
        ground (
          arith,
          lookup-insert m.id a w.pb_counter w.pb_map,
          lookup-insert m.id b w.pb_counter w.pb_map,
          str_beq_iff m.id a,
          str_beq_iff m.id b,
        );
  }

  -- If no two layers share a bar and the bars handed out exist, then a response leaves the bar of
  -- every layer but its own as it is.
  pub update_status-get_elem? :
      (a : Str) (i : ℕ)
      → IsShared w
      → lookup a w.pb_map ≡ some i
      → a ≢ m.id
      → get_elem? (update_status p m w).bars i ≡ get_elem? w.bars i
  unfolding update_status show_bar print_line assign
  update_status-get_elem? a i h e ne =
      let o = h.handed_out a i e in
      let other = get_elem?-change i w.pb_counter in
      elim (Option-cases (lookup m.id w.pb_map)) [
        | inl n ↦ ground (
          arith,
          other (named m) w.bars (omega arith),
          other (show p m) (change w.pb_counter (named m) w.bars) (omega arith),
          n,
        )
        | inr (j, l) ↦ ground (
          arith,
          get_elem?-change i j (show p m) w.bars
              (λ same. ne (h.apart a m.id i e (l ∙ ap some (sym same)))),
          l,
        )
      ]

-- What is unread does not matter to the bars.
IsShared-partial_buffer :
    (b : Str) (w : PullProgressDisplay) → IsShared w → IsShared (record w { partial_buffer = b })
IsShared-partial_buffer b w h = record {
  counted = h.counted;
  handed_out = h.handed_out;
  apart = h.apart;
}

decode_loop-IsShared :
    (p : Platform) (f : ℕ) (s : Str) (w w' : PullProgressDisplay)
    → IsShared w
    → decode_loop p f s w ≡ some (ok w')
    → IsShared w'
unfolding decode_loop
decode_loop-IsShared p zero s w w' h e = cc
decode_loop-IsShared p (suc f) s w w' h e = elim (decode-Cases p s) [
  | at_item m r at_s ↦
      decode_loop-IsShared p f r (update_status p m w) w' (update_status-IsShared p m w h)
        (ground arith)
  | at_eof at_s ↦ subst IsShared (ground arith) h
  | at_unexpected b at_s ↦ subst IsShared (ground arith) (IsShared-partial_buffer b w h)
  | at_malformed x b at_s ↦ absurd (ground arith)
]

-- If no two layers share a bar and the bars handed out exist, and `Write` returns, then the same holds
-- of the display that it leaves.
pub write-IsShared :
    (p : Platform) (q : Str) (w w' : PullProgressDisplay) (n : ℕ)
    → IsShared w
    → write p q w ≡ some (ok (w', n))
    → IsShared w'
unfolding write
write-IsShared p q w w' n h e =
    decode_loop-IsShared p (suc (length (w.partial_buffer ++ q))) (w.partial_buffer ++ q)
      (record w { partial_buffer = [] }) w' (IsShared-partial_buffer [] w h) (ground arith)

-- Before the first response no bar is handed out.
pub new_pull_progress_display-IsShared :
    (tag : Str) (layer_count : ℕ) (pool_started : Bool)
    → IsShared (new_pull_progress_display tag layer_count pool_started)
unfolding new_pull_progress_display lookup
new_pull_progress_display-IsShared tag layer_count pool_started = record {
  counted = omega arith;
  handed_out = λ a i e. cc;
  apart = λ a b i e e'. cc;
}

-- ===== src/Dockerclient/PullWriter/Chunks.antt =====
-- `Write` of dockerclient/pullwriter.go, on a log in pieces.
use mathlib.Core.List.{append_assoc, append-nil}
use quayctl.Base.{
  Str, Option-cases, str_eq, ℕ, zero, suc, ◌<◌, ◌≡◌, refl, sym, ap, ◌∙◌, List, [], ◌∷◌, ◌++◌,
  Option, none, some, length, length-append, Outcome, ok, fatal, arith, ◌⊎◌, inl, inr, subst,
}
use quayctl.Dockerclient.PullWriter.{
  DockerResponse, PullProgressDisplay, Platform, item, eof, show_bar, print_line, assign,
  update_status, decode_loop, write,
}
use quayctl.Dockerclient.PullWriter.Stream.{
  IsStream, at_item, at_eof, at_unexpected, at_malformed, decode-Cases, loop-item, loop-eof,
  loop-unexpected, loop-malformed, Alike, Similar, Similar-refl, Similar-trans, Results, return,
  end_program, decode_loop-Results, decode_loop_total,
}

-- The input of a call of `Write`, and the loop on it.
read : Platform → Str → PullProgressDisplay → Option (Outcome Str PullProgressDisplay)
read p q w =
    let input = w.partial_buffer ++ q in
    decode_loop p (suc (length input)) input (record w { partial_buffer = [] })

update_status-partial_buffer :
    (p : Platform) (m : DockerResponse) (w : PullProgressDisplay)
    → (update_status p m w).partial_buffer ≡ w.partial_buffer
unfolding update_status show_bar print_line assign
update_status-partial_buffer p m w = ground arith

cleared : (w : PullProgressDisplay) → w.partial_buffer ≡ [] → record w { partial_buffer = [] } ≡ w
cleared w e = sym (ap (λ b. record w { partial_buffer = b }) e)

-- What a call on one piece says of a call on that piece and another.
data Joined (p : Platform) (t : Str) (first both : Option (Outcome Str PullProgressDisplay))
    : Type 0 where
  goes_on :
      (w : PullProgressDisplay)
      → first ≡ some (ok w)
      → Results p (read p t w) both
      → Joined p t first both
  stops : (x : Str) → first ≡ some (fatal x) → Joined p t first both

module _ (p : Platform) (stream : IsStream p) where
  -- White space before an input.
  eof-Alike : (s t : Str) → p.decode s ≡ eof → Alike p t (s ++ t)
  eof-Alike s t e u = rw (append_assoc s t u) (sym (stream.eof_append s (t ++ u) e))

  decode_loop-Joined :
      (g f : ℕ) (s t : Str) (w : PullProgressDisplay)
      → length s < g
      → length (s ++ t) < f
      → w.partial_buffer ≡ []
      → Joined p t (decode_loop p g s w) (decode_loop p f (s ++ t) w)
  unfolding read
  decode_loop-Joined zero f s t w hg hf clear = absurd (omega arith)
  decode_loop-Joined (suc g) zero s t w hg hf clear = absurd (omega arith)
  decode_loop-Joined (suc g) (suc f) s t w hg hf clear = elim (decode-Cases p s) [
    | at_item m r e ↦
        let shorter = stream.advances s m r e in
        let ls = length-append s t in
        let lr = length-append r t in
        let clear' = update_status-partial_buffer p m w ∙ clear in
        let rest =
          decode_loop-Joined g f r t (update_status p m w) (omega arith) (omega arith) clear' in
        rw
          (
            loop-item p g s w m r e,
            loop-item p f (s ++ t) w m (r ++ t) (stream.item_append s t m r e),
          )
          rest
    | at_eof e ↦ goes_on w (loop-eof p g s w e) (
        rw (clear, cleared w clear)
          (decode_loop-Results p stream (length t) f t (s ++ t) w (eof-Alike s t e) (omega arith)
            hf))
    | at_unexpected b e ↦
        goes_on (record w { partial_buffer = b }) (loop-unexpected p g s w b e)
          (rw (cleared w clear, stream.unexpected_kept s b e)
            (decode_loop-Results p stream (length (s ++ t)) f (s ++ t) (s ++ t) w (λ u. refl)
              (omega arith) hf))
    | at_malformed x b e ↦ stops _ (loop-malformed p g s w x b e)
  ]

  read-Joined : (q r : Str) (w : PullProgressDisplay) → Joined p r (read p q w) (read p (q ++ r) w)
  unfolding read
  read-Joined q r w = rw (sym (append_assoc w.partial_buffer q r)) (
      decode_loop-Joined (suc (length (w.partial_buffer ++ q)))
        (suc (length ((w.partial_buffer ++ q) ++ r))) (w.partial_buffer ++ q) r
        (record w { partial_buffer = [] }) (omega arith) (omega arith) refl)

-- If every response takes at least a byte, then a call of `Write` ends: it returns that it wrote the
-- whole piece, or it reports an error that ends the program.
pub write_total :
    (p : Platform)
    → ((s : Str) (m : DockerResponse) (r : Str) → p.decode s ≡ item m r → length r < length s)
    → (q : Str) (w : PullProgressDisplay)
    → ((w' : PullProgressDisplay) × (write p q w ≡ some (ok (w', length q))))
      ⊎ ((e : Str) × (write p q w ≡ some (fatal e)))
unfolding write
write_total p advances q w =
    elim (decode_loop_total p advances (suc (length (w.partial_buffer ++ q)))
      (w.partial_buffer ++ q) (record w { partial_buffer = [] }) (omega arith)) [
        | inl (w', e) ↦ inl (w', rw (e, write) refl)
        | inr (x, e) ↦ inr (x, rw (e, write) refl)
      ]

-- The state that `Write` leaves; `none` if it does not return.
unfoldable pub returned :
    Option (Outcome Str (PullProgressDisplay × ℕ)) → Option PullProgressDisplay
returned (some (ok (w, n))) = some w
returned r = none

-- The pieces of the log, one call of `Write` after another.
unfoldable pub write_all :
    Platform → Str → List Str → PullProgressDisplay → Option PullProgressDisplay
write_all p q [] w = returned (write p q w)
write_all p q (r ∷ rs) w = elim (returned (write p q w)) [
  | none ↦ none
  | some w' ↦ write_all p r rs w'
]

pub concat : List Str → Str
concat [] = []
concat (q ∷ qs) = q ++ concat qs

of_read : Option (Outcome Str PullProgressDisplay) → Option PullProgressDisplay
of_read (some (ok w)) = some w
of_read r = none

returned-write :
    (p : Platform) (q : Str) (w : PullProgressDisplay)
    → returned (write p q w) ≡ of_read (read p q w)
unfolding write returned of_read read
returned-write p q w = ground arith

module _ (p : Platform) (stream : IsStream p) where
  -- A call that returns, and one on the piece and what comes after it.
  write-append :
      (q r : Str) (w v u : PullProgressDisplay)
      → returned (write p q w) ≡ some v
      → returned (write p r v) ≡ some u
      → (u' : PullProgressDisplay) × (returned (write p (q ++ r) w) ≡ some u') × Similar p u u'
  unfolding of_read
  write-append q r w v u first second = elim (read-Joined p stream q r w) [
    | stops x e ↦ absurd (ground (arith, first, returned-write p q w, e))
    | goes_on v' e both ↦
        let here : v' ≡ v = ground (arith, first, returned-write p q w, e) in
        elim both [
          | end_program x y e' _ ↦
              absurd (ground (arith, second, returned-write p r v, rw here at e'))
          | return a b e' e'' similar ↦
              let there : a ≡ u = ground (arith, second, returned-write p r v, rw here at e') in
              (
                b,
                rw (returned-write p (q ++ r) w, e'') refl,
                subst (λ x. Similar p x b) there similar,
              )
        ]
  ]

  -- If the JSON decoder reads a stream, and the calls of `Write` on the pieces of a log, one after another,
  -- return, then so does one call on the whole log. The displays that they leave are the same but for
  -- the data kept of an unfinished response, and of that data with any continuation the decoder makes
  -- the same.
  pub write_all-concat :
      (q : Str) (rs : List Str) (w u : PullProgressDisplay)
      → write_all p q rs w ≡ some u
      → (u' : PullProgressDisplay) × (returned (write p (q ++ concat rs) w) ≡ some u')
        × Similar p u u'
  unfolding write_all concat
  write_all-concat q [] w u e = (u, rw (append-nil q) e, Similar-refl p u)
  write_all-concat q (r ∷ rs) w u e = elim (Option-cases (returned (write p q w))) [
    | inl n ↦ absurd (ground (arith, e, n))
    | inr (v, h) ↦
        let (u1, whole, s1) = write_all-concat r rs v u (ground (arith, e, h)) in
        let (u2, joined, s2) = write-append q (r ++ concat rs) w v u1 h whole in
        (u2, joined, Similar-trans p u u1 u2 s1 s2)
  ]

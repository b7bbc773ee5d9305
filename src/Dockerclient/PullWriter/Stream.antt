-- ===== src/Dockerclient/PullWriter/Stream.antt =====
-- `Write` of dockerclient/pullwriter.go: what the JSON decoder is supposed to do, and the turns of the loop
-- that reads with it.
use mathlib.Core.List.{append-nil}
use quayctl.Base.{
  [], Option, Outcome, ok, fatal, ◌⊎◌, inl, inr, Str, text, str_eq, ℕ, zero, suc, ◌<◌, ◌≡◌, refl,
  sym, ◌∙◌, ◌++◌, some, length, arith,
}
use quayctl.Dockerclient.PullWriter.{
  DockerResponse, PullProgressDisplay, Decoded, item, eof, unexpected_eof, malformed, Platform,
  update_status, decode_loop,
}

-- What the decoder makes of an input, less the data that it keeps or reports.
abbrev pub outline : Decoded → Decoded
outline (item m r) = item m r
outline eof = eof
outline (unexpected_eof b) = unexpected_eof []
outline (malformed e b) = malformed [] []

-- How Go's JSON decoder reads a stream of objects: a response takes at least a byte, what follows it
-- does not change it, an input without a response is white space before what follows, and the data that
-- is kept of an unfinished response is the whole input, white space before it included.
pub record IsStream (p : Platform) : Type 0 where
  pub advances :
      (s : Str) (m : DockerResponse) (r : Str) → p.decode s ≡ item m r → length r < length s
  pub item_append :
      (s t : Str) (m : DockerResponse) (r : Str)
      → p.decode s ≡ item m r
      → p.decode (s ++ t) ≡ item m (r ++ t)
  pub eof_append :
      (s t : Str) → p.decode s ≡ eof → outline (p.decode (s ++ t)) ≡ outline (p.decode t)
  pub unexpected_kept : (s b : Str) → p.decode s ≡ unexpected_eof b → b ≡ s

pub data Cases (p : Platform) (s : Str) : Type 0 where
  at_item : (m : DockerResponse) (r : Str) → p.decode s ≡ item m r → Cases p s
  at_eof : p.decode s ≡ eof → Cases p s
  at_unexpected : (b : Str) → p.decode s ≡ unexpected_eof b → Cases p s
  at_malformed : (e b : Str) → p.decode s ≡ malformed e b → Cases p s

pub decode-Cases : (p : Platform) (s : Str) → Cases p s
decode-Cases p s = go (p.decode s) refl
  where
    go : (d : Decoded) → p.decode s ≡ d → Cases p s
    go (item m r) e = at_item m r e
    go eof e = at_eof e
    go (unexpected_eof b) e = at_unexpected b e
    go (malformed x b) e = at_malformed x b e

module _ (p : Platform) (f : ℕ) (s : Str) (w : PullProgressDisplay) where
  -- One turn of the loop, by what the decoder gives.
  pub loop-item :
      (m : DockerResponse) (r : Str)
      → p.decode s ≡ item m r
      → decode_loop p (suc f) s w ≡ decode_loop p f r (update_status p m w)
  unfolding decode_loop
  loop-item m r e = rw (e, decode_loop) refl

  pub loop-eof : p.decode s ≡ eof → decode_loop p (suc f) s w ≡ some (ok w)
  unfolding decode_loop
  loop-eof e = rw (e, decode_loop) refl

  pub loop-unexpected :
      (b : Str)
      → p.decode s ≡ unexpected_eof b
      → decode_loop p (suc f) s w ≡ some (ok (record w { partial_buffer = b }))
  unfolding decode_loop
  loop-unexpected b e = rw (e, decode_loop) refl

  pub loop-malformed :
      (x b : Str)
      → p.decode s ≡ malformed x b
      → decode_loop p (suc f) s w
        ≡ some (fatal (text "Error when reading logs: " ++ (x ++ (text "; Failed entry: " ++ b))))
  unfolding decode_loop
  loop-malformed x b e = rw (e, decode_loop) refl

-- Every response takes at least a byte.
abbrev pub Advances : Platform → Type 0
Advances p = (s : Str) (m : DockerResponse) (r : Str) → p.decode s ≡ item m r → length r < length s

module _ (p : Platform) (advances : Advances p) where
  -- With any fuel above the length of the input, the loop returns or ends the program.
  pub decode_loop_total :
      (f : ℕ) (s : Str) (w : PullProgressDisplay)
      → length s < f
      → ((w' : PullProgressDisplay) × (decode_loop p f s w ≡ some (ok w')))
        ⊎ ((e : Str) × (decode_loop p f s w ≡ some (fatal e)))
  decode_loop_total zero s w h = absurd (omega arith)
  decode_loop_total (suc f) s w h = elim (decode-Cases p s) [
    | at_item m r e ↦
        let shorter = advances s m r e in
        rw (loop-item p f s w m r e) (decode_loop_total f r (update_status p m w) (omega arith))
    | at_eof e ↦ inl (_, loop-eof p f s w e)
    | at_unexpected b e ↦ inl (_, loop-unexpected p f s w b e)
    | at_malformed x b e ↦ inr (_, loop-malformed p f s w x b e)
  ]

module _ (p : Platform) (stream : IsStream p) where
  -- Inputs that the decoder reads alike give the same result, with any fuel above their lengths.
  pub decode_loop-same :
      (f g : ℕ) (a b : Str) (w : PullProgressDisplay)
      → p.decode a ≡ p.decode b
      → length a < f
      → length b < g
      → decode_loop p f a w ≡ decode_loop p g b w
  decode_loop-same zero g a b w same hf hg = absurd (omega arith)
  decode_loop-same (suc f) zero a b w same hf hg = absurd (omega arith)
  decode_loop-same (suc f) (suc g) a b w same hf hg = elim (decode-Cases p b) [
    | at_item m r e ↦
        let shorter = stream.advances b m r e in
        let shorter_a = stream.advances a m r (same ∙ e) in
        let rest =
          decode_loop-same f g r r (update_status p m w) refl (omega arith) (omega arith) in
        loop-item p f a w m r (same ∙ e) ∙ (rest ∙ sym (loop-item p g b w m r e))
    | at_eof e ↦ loop-eof p f a w (same ∙ e) ∙ sym (loop-eof p g b w e)
    | at_unexpected x e ↦ loop-unexpected p f a w x (same ∙ e) ∙ sym (loop-unexpected p g b w x e)
    | at_malformed x y e ↦
        loop-malformed p f a w x y (same ∙ e) ∙ sym (loop-malformed p g b w x y e)
  ]

-- With any continuation, the decoder makes the same of two inputs, up to the data that it keeps.
abbrev pub Alike : Platform → Str → Str → Type 0
Alike p a b = (t : Str) → outline (p.decode (a ++ t)) ≡ outline (p.decode (b ++ t))

-- Two displays differ only in the data that they keep, and that is alike.
pub record Similar (p : Platform) (w w' : PullProgressDisplay) : Type 0 where
  pub shown : record w { partial_buffer = [] } ≡ record w' { partial_buffer = [] }
  pub kept : Alike p w.partial_buffer w'.partial_buffer

pub Similar-refl : (p : Platform) (w : PullProgressDisplay) → Similar p w w
Similar-refl p w = record { shown = refl; kept = λ t. refl }

pub Similar-trans :
    (p : Platform) (u v w : PullProgressDisplay) → Similar p u v → Similar p v w → Similar p u w
Similar-trans p u v w a b = record { shown = a.shown ∙ b.shown; kept = λ t. a.kept t ∙ b.kept t }

-- Both calls return, with displays that are similar, or both end the program.
pub data Results (p : Platform) (a b : Option (Outcome Str PullProgressDisplay)) : Type 0 where
  return :
      (w w' : PullProgressDisplay)
      → a ≡ some (ok w)
      → b ≡ some (ok w')
      → Similar p w w'
      → Results p a b
  end_program : (x y : Str) → a ≡ some (fatal x) → b ≡ some (fatal y) → Results p a b

module _ (p : Platform) (stream : IsStream p) where
  abbrev Decides : Str → Str → Type 0
  Decides a b = outline (p.decode a) ≡ outline (p.decode b)

  -- Inputs that are alike give the same result, but for the data that is kept.
  pub decode_loop-Results :
      (f g : ℕ) (a b : Str) (w : PullProgressDisplay)
      → Alike p a b
      → length a < suc f
      → length b < suc g
      → Results p (decode_loop p (suc f) a w) (decode_loop p (suc g) b w)
  decode_loop-Results f g a b w alike hf hg =
      let here : Decides a b = rw (sym (append-nil a), sym (append-nil b)) (alike []) in
      elim (decode-Cases p a) [
        | at_item m r e ↦ elim (decode-Cases p b) [
          | at_item n q e' ↦
              let read : p.decode a ≡ item n q = cc in
              let shorter_a = stream.advances a n q read in
              let shorter_b = stream.advances b n q e' in
              let same =
                loop-item p f a w n q read
                ∙ decode_loop-same p stream f g q q (update_status p n w) refl (omega arith)
                    (omega arith) in
              elim (decode_loop_total p stream.advances g q (update_status p n w) (omega arith)) [
                | inl (w', e'') ↦
                    return w' w' (same ∙ e'') (loop-item p g b w n q e' ∙ e'') (Similar-refl p w')
                | inr (x, e'') ↦ end_program x x (same ∙ e'') (loop-item p g b w n q e' ∙ e'')
              ]
          | at_eof e' ↦ absurd (ground (arith, here, e, e'))
          | at_unexpected x e' ↦ absurd (ground (arith, here, e, e'))
          | at_malformed x y e' ↦ absurd (ground (arith, here, e, e'))
        ]
        | at_eof e ↦ elim (decode-Cases p b) [
          | at_item n q e' ↦ absurd (ground (arith, here, e, e'))
          | at_eof e' ↦ return w w (loop-eof p f a w e) (loop-eof p g b w e') (Similar-refl p w)
          | at_unexpected x e' ↦ absurd (ground (arith, here, e, e'))
          | at_malformed x y e' ↦ absurd (ground (arith, here, e, e'))
        ]
        | at_unexpected z e ↦ elim (decode-Cases p b) [
          | at_item n q e' ↦ absurd (ground (arith, here, e, e'))
          | at_eof e' ↦ absurd (ground (arith, here, e, e'))
          | at_unexpected x e' ↦
              return _ _ (loop-unexpected p f a w z e) (loop-unexpected p g b w x e') (record {
                shown = refl;
                kept = rw (stream.unexpected_kept a z e, stream.unexpected_kept b x e') alike;
              })
          | at_malformed x y e' ↦ absurd (ground (arith, here, e, e'))
        ]
        | at_malformed z v e ↦ elim (decode-Cases p b) [
          | at_item n q e' ↦ absurd (ground (arith, here, e, e'))
          | at_eof e' ↦ absurd (ground (arith, here, e, e'))
          | at_unexpected x e' ↦ absurd (ground (arith, here, e, e'))
          | at_malformed x y e' ↦
              end_program _ _ (loop-malformed p f a w z v e) (loop-malformed p g b w x y e')
        ]
      ]

-- ===== src/Hpack/Decoder/Pieces.antt =====
-- A header block gives the same headers, table and errors however it is cut into buffers.
use commonlibrary_rust_ylong.Common.{
  ℕ, zero, suc, ◌+◌, ◌≤◌, ◌<◌, ◌≡◌, refl, sym, ap, ◌∙◌, Option, none, some, List, [], ◌∷◌, ◌++◌,
  length, length-append, arith,
}
use mathlib.Core.List.{append-nil}
use commonlibrary_rust_ylong.Hpack.Repr.Prefix.{Representation}
use commonlibrary_rust_ylong.Hpack.Repr.Decoder.{
  DecResult, decoded, need_more, error, ReprDecodeState, at_index, at_first_byte, decode_state,
}
use commonlibrary_rust_ylong.Hpack.Repr.Decoder.Strings.{resume}
use commonlibrary_rust_ylong.Hpack.Repr.Decoder.Resume.{decode_state-append}
use commonlibrary_rust_ylong.Hpack.Repr.Decoder.Shrinks.{
  Leaves, Leaves-mono, decode_state-Leaves, decode_start-Leaves,
}
use commonlibrary_rust_ylong.H2.Fate.{
  Fate, returned, failed, panicked, out_of_fuel, continue, continue-cong, continue_assoc,
}
use commonlibrary_rust_ylong.Hpack.Decoder.{
  Updater, update, start, after_round, decode_loop, HpackDecoder, save, enough_fuel, decode,
}

-- A saved state may end its representation without a byte.
abbrev pub pending : Option ReprDecodeState → ℕ
pending none = 0
pending (some s) = 1

pub round-Leaves :
    (st : Option ReprDecodeState) (b : ℕ) (buf : List ℕ)
    → Leaves (length buf + pending st) (decode_state (start st) (b ∷ buf))
round-Leaves none b buf =
    Leaves-mono (length buf) (length buf + 0) (decode_state (at_index at_first_byte) (b ∷ buf))
      (omega arith) (decode_start-Leaves b buf)
round-Leaves (some s) b buf =
    Leaves-mono (suc (length buf)) (length buf + 1) (decode_state s (b ∷ buf)) (omega arith)
      (decode_state-Leaves s (b ∷ buf))

-- More fuel than the loop needs changes nothing.
loop_fuel :
    (f g : ℕ) (buf : List ℕ) (st : Option ReprDecodeState) (u : Updater)
    → length buf + pending st < f
    → length buf + pending st < g
    → decode_loop f buf st u ≡ decode_loop g buf st u
unfolding decode_loop
loop_fuel f g [] st u hf hg = refl
loop_fuel zero g (b ∷ buf) st u hf hg = absurd (omega arith)
loop_fuel (suc f) zero (b ∷ buf) st u hf hg = absurd (omega arith)
loop_fuel (suc f) (suc g) (b ∷ buf) st u hf hg =
    go (λ rest u' h. loop_fuel f g rest none u' (omega arith) (omega arith))
      (decode_state (start st) (b ∷ buf)) (round-Leaves st b buf)
  where
    go :
        ((rest : List ℕ) (u' : Updater)
          → length rest ≤ length buf + pending st
          → decode_loop f rest none u' ≡ decode_loop g rest none u')
        → (r : DecResult Representation ReprDecodeState) → Leaves (length buf + pending st) r
        → after_round (λ rest. decode_loop f rest none) r u
          ≡ after_round (λ rest. decode_loop g rest none) r u
    go ih (decoded repr rest) h = continue-cong (update repr u) _ _ (λ _ u'. ih rest u' h)
    go ih (need_more s) h = refl
    go ih (error e) h = refl

-- The two buffers `xs` and `y ∷ ys`.
loop-append :
    (g : ℕ) (xs : List ℕ) (st : Option ReprDecodeState) (u : Updater) (f h y : ℕ) (ys : List ℕ)
    → length (xs ++ y ∷ ys) + pending st < f
    → length xs + pending st < g
    → length ys + 2 < h
    → decode_loop f (xs ++ y ∷ ys) st u
      ≡ continue (decode_loop g xs st u) (λ st' u'. decode_loop h (y ∷ ys) st' u')
unfolding decode_loop
loop-append g [] none u f h y ys hf hg hh =
    loop_fuel f h (y ∷ ys) none u (omega arith) (omega arith)
loop-append g [] (some s) u f h y ys hf hg hh =
    loop_fuel f h (y ∷ ys) (some s) u (omega arith) (omega arith)
loop-append zero (x ∷ xs) st u f h y ys hf hg hh = absurd (omega arith)
loop-append (suc g) (x ∷ xs) st u zero h y ys hf hg hh = absurd (omega arith)
loop-append (suc g) (x ∷ xs) st u (suc f) h y ys hf hg hh =
    let sizes = length-append xs (y ∷ ys) in
    ap (λ r. after_round (λ rest. decode_loop f rest none) r u)
      (decode_state-append (start st) (x ∷ xs) (y ∷ ys))
    ∙ go
        (λ rest u' le.
          loop-append g rest none u' f h y ys (omega (arith, length-append rest (y ∷ ys)))
            (omega arith) hh)
        (omega arith) (decode_state (start st) (x ∷ xs)) (round-Leaves st x xs)
  where
    go :
        ((rest : List ℕ) (u' : Updater)
          → length rest ≤ length xs + pending st
          → decode_loop f (rest ++ y ∷ ys) none u'
            ≡ continue (decode_loop g rest none u') (λ st' u''. decode_loop h (y ∷ ys) st' u''))
        → length ys + 2 < suc f
        → (r : DecResult Representation ReprDecodeState) → Leaves (length xs + pending st) r
        → after_round (λ rest. decode_loop f rest none) (resume decode_state r (y ∷ ys)) u
          ≡ continue
              (after_round (λ rest. decode_loop g rest none) r u)
              (λ st' u'. decode_loop h (y ∷ ys) st' u')
    go ih room (decoded repr rest) le =
        continue-cong (update repr u) _ _ (λ _ u'. ih rest u' le)
        ∙ sym (continue_assoc (update repr u) _ _)
    go ih room (need_more s) le =
        loop_fuel (suc f) h (y ∷ ys) (some s) u (omega arith) (omega arith)
    go ih room (error e) le = refl

-- Feeding a decoder with one more buffer, unless an earlier one failed.
abbrev pub feed : Fate (Unit {0}) × HpackDecoder → List ℕ → Fate (Unit {0}) × HpackDecoder
feed (returned tt, d) buf = decode d buf
feed (failed e, d) buf = (failed e, d)
feed (panicked, d) buf = (panicked, d)
feed (out_of_fuel, d) buf = (out_of_fuel, d)

save-continue :
    (m : Fate (Option ReprDecodeState) × Updater) (y : ℕ) (ys : List ℕ)
    → save (continue m (λ st u. decode_loop (enough_fuel (y ∷ ys)) (y ∷ ys) st u))
      ≡ feed (save m) (y ∷ ys)
unfolding decode
save-continue (returned st, u) y ys = refl
save-continue (failed e, u) y ys = refl
save-continue (panicked, u) y ys = refl
save-continue (out_of_fuel, u) y ys = refl

feed-nil : (m : Fate (Unit {0}) × HpackDecoder) → feed m [] ≡ m
unfolding decode
feed-nil (returned tt, d) = refl
feed-nil (failed e, d) = refl
feed-nil (panicked, d) = refl
feed-nil (out_of_fuel, d) = refl

-- However a header block is cut in two, decoding it whole and decoding the parts one after the other
-- end alike, with the same header lines, dynamic table, sizes and saved state, errors included.
pub decode-append :
    (d : HpackDecoder) (xs ys : List ℕ) → decode d (xs ++ ys) ≡ feed (decode d xs) ys
decode-append d xs [] = ap (decode d) (append-nil xs) ∙ sym (feed-nil (decode d xs))
decode-append d xs (y ∷ ys) =
    unfold decode in
    ap save (
      loop-append (enough_fuel xs) xs d.holder d.core (enough_fuel (xs ++ y ∷ ys))
        (enough_fuel (y ∷ ys)) y ys (room d.holder (xs ++ y ∷ ys)) (room d.holder xs) (omega arith))
    ∙ save-continue (decode_loop (enough_fuel xs) xs d.holder d.core) y ys
  where
    room : (st : Option ReprDecodeState) (buf : List ℕ) → length buf + pending st < enough_fuel buf
    room none buf = omega arith
    room (some s) buf = omega arith

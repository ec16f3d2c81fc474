-- ===== src/Frame/Decoder/Cuts.antt =====
-- However the bytes of the frames are cut into buffers, the same frames come out.
use mathlib.Core.List.{append_assoc}
use commonlibrary_rust_ylong.Common.{
  ℕ, zero, suc, ◌+◌, ◌<◌, ◌≡◌, refl, sym, ap, ◌∙◌, Option, none, some, List, ◌++◌, true,
  length-append, arith,
}
use commonlibrary_rust_ylong.H2.Fate.{
  Fate, returned, failed, panicked, out_of_fuel, continue, continue-cong, continue_assoc,
}
use commonlibrary_rust_ylong.Frame.Handlers.{FrameKind}
use commonlibrary_rust_ylong.Frame.Decoder.{
  FrameDecoder, round, after_round, decode_loop, enough_fuel, decode,
}
use commonlibrary_rust_ylong.Frame.Decoder.Rounds.{IsTidy}
use commonlibrary_rust_ylong.Frame.Decoder.Absorb.{settle, settle-continue, is_whole}
use commonlibrary_rust_ylong.Frame.Decoder.Steps.{Steps, remaining, turn_le, round-Steps, loop_fuel}
use commonlibrary_rust_ylong.Frame.Decoder.Resume.{resume, Stopped, round-append}

-- What a call left is not within a PRIORITY payload.
abbrev pub Whole : Fate (List FrameKind) × FrameDecoder → Type 0
Whole (returned a, d) = is_whole d ≡ true
Whole (_, d) = Unit {0}

abbrev prepend :
    List FrameKind → List FrameKind → FrameDecoder → Fate (List FrameKind) × FrameDecoder
prepend frames more d = (returned (frames ++ more), d)

-- One more buffer: the frames of both calls, unless one failed.
abbrev pub feed :
    Fate (List FrameKind) × FrameDecoder → List ℕ → Fate (List FrameKind) × FrameDecoder
feed m ys =
    continue m (λ frames d. continue (decode d ys) (λ more d'. (returned (frames ++ more), d')))

feed-prepend :
    (m : Fate (List FrameKind) × FrameDecoder) (frames : List FrameKind) (ys : List ℕ)
    → continue (feed m ys) (prepend frames) ≡ feed (continue m (prepend frames)) ys
feed-prepend (returned more, d) frames ys =
    continue_assoc (decode d ys) (prepend more) (prepend frames)
    ∙ continue-cong (decode d ys) _ _
        (λ last d'. ap (λ l. (returned l, d')) (sym (append_assoc frames more last)))
feed-prepend (failed e, d) frames ys = refl
feed-prepend (panicked, d) frames ys = refl
feed-prepend (out_of_fuel, d) frames ys = refl

continue-returned :
    (m : Fate (List FrameKind) × FrameDecoder) → continue m (λ more d. (returned more, d)) ≡ m
continue-returned (returned more, d) = refl
continue-returned (failed e, d) = refl
continue-returned (panicked, d) = refl
continue-returned (out_of_fuel, d) = refl

prepend-Whole :
    (m : Fate (List FrameKind) × FrameDecoder) (frames : List FrameKind)
    → Whole (continue m (prepend frames))
    → Whole m
prepend-Whole (returned more, d) frames h = h
prepend-Whole (failed e, d) frames h = tt
prepend-Whole (panicked, d) frames h = tt
prepend-Whole (out_of_fuel, d) frames h = tt

round-Stopped :
    (m : Fate (Option (List ℕ × List FrameKind)) × FrameDecoder)
    (next : List ℕ → FrameDecoder → Fate (List FrameKind) × FrameDecoder)
    → Whole (continue m (after_round next))
    → Stopped m
round-Stopped (returned none, d) next h = h
round-Stopped (returned (some _), d) next h = tt
round-Stopped (failed e, d) next h = tt
round-Stopped (panicked, d) next h = tt
round-Stopped (out_of_fuel, d) next h = tt

loop-append :
    (f g : ℕ) (xs ys : List ℕ) (d : FrameDecoder)
    → IsTidy d
    → remaining (xs ++ ys) d + 1 < f
    → remaining xs d < g
    → Whole (decode_loop g xs d)
    → settle (decode_loop f (xs ++ ys) d) ≡ settle (feed (decode_loop g xs d) ys)
unfolding decode_loop decode
loop-append f zero xs ys d tidy hf hg whole = absurd (omega arith)
loop-append zero (suc g) xs ys d tidy hf hg whole = absurd (omega arith)
loop-append (suc f) (suc g) xs ys d tidy hf hg whole =
    let sizes = length-append xs ys in
    settle-continue (round (xs ++ ys) d) (resume (round xs d) ys) (after_round (decode_loop f))
      (round-append xs ys d tidy (round-Stopped (round xs d) (decode_loop g) whole))
    ∙ go (round xs d) (round-Steps xs d tidy) whole
        (λ rest d' t less.
          loop-append f g rest ys d' t (omega (arith, length-append rest ys)) (omega arith))
        (λ d' t.
          loop_fuel (suc f) (enough_fuel ys) ys d' t (omega (arith, turn_le d'.stage))
            (omega (arith, turn_le d'.stage)))
  where
    go :
        (m : Fate (Option (List ℕ × List FrameKind)) × FrameDecoder)
        → Steps (remaining xs d) m
        → Whole (continue m (after_round (decode_loop g)))
        → ((rest : List ℕ) (d' : FrameDecoder)
            → IsTidy d'
            → remaining rest d' < remaining xs d
            → Whole (decode_loop g rest d')
            → settle (decode_loop f (rest ++ ys) d') ≡ settle (feed (decode_loop g rest d') ys))
        → ((d' : FrameDecoder) → IsTidy d' → decode_loop (suc f) ys d' ≡ decode d' ys)
        → settle (continue (resume m ys) (after_round (decode_loop f)))
          ≡ settle (feed (continue m (after_round (decode_loop g))) ys)
    go (returned none, d') t w ih same =
        ap settle (same d' t ∙ sym (continue-returned (decode d' ys)))
    go (returned (some (rest, frames)), d') (t, less) w ih same =
        settle-continue (decode_loop f (rest ++ ys) d') (feed (decode_loop g rest d') ys)
          (prepend frames) (ih rest d' t less (prepend-Whole (decode_loop g rest d') frames w))
        ∙ ap settle (feed-prepend (decode_loop g rest d') frames ys)
    go (failed e, d') t w ih same = refl
    go (panicked, d') t w ih same = refl
    go (out_of_fuel, d') t w ih same = refl

-- From a decoder whose offset counts its saved bytes, no more than what it waits for, and however the bytes are cut in two: decoding them
-- whole, and decoding the parts one after the other, give the same frames, the same errors and the same
-- decoder, provided that the first part does not end within the payload of a PRIORITY frame. Where
-- decoding fails, only the saved bytes may differ.
pub decode_cut :
    (d : FrameDecoder) (xs ys : List ℕ)
    → IsTidy d
    → Whole (decode d xs)
    → settle (decode d (xs ++ ys)) ≡ settle (feed (decode d xs) ys)
unfolding decode
decode_cut d xs ys tidy whole =
    loop-append (enough_fuel (xs ++ ys)) (enough_fuel xs) xs ys d tidy
      (omega (arith, turn_le d.stage)) (omega (arith, turn_le d.stage)) whole

-- ===== src/Frame/Decoder/Resume.antt =====
-- A round that stops at the end of its buffer goes on with the next one.
use mathlib.Core.List.{append_assoc}
use mathlib.Core.Path.{subst}
use commonlibrary_rust_ylong.Common.{
  ℕ, ◌+◌, ◌-◌, ◌≤◌, ◌≡◌, refl, sym, ap, ◌∙◌, inl, inr, Option, none, some, List, [], ◌++◌, true,
  false, Bool-cases, ltb, ◌==◌, length, length-append, take, drop, take-append_le, drop-append_le,
  arith,
}
use commonlibrary_rust_ylong.H2.Fate.{Fate, returned, failed, panicked, out_of_fuel, continue}
use commonlibrary_rust_ylong.Frame.Handlers.{Core, FrameHeader, FrameKind}
use commonlibrary_rust_ylong.Frame.Decoder.{
  FrameDecoder, Stage, header_stage, payload_stage, decode_payload, out_of_order, finished,
  decode_frame_payload, header_of, take_header, decode_frame_header, header_read, payload_read,
  round, save,
}
use commonlibrary_rust_ylong.Frame.Decoder.Rounds.{IsTidy, IsTidy-held, held}
use commonlibrary_rust_ylong.Frame.Decoder.Absorb.{settle, is_whole, round-absorb, header_of-take}
use commonlibrary_rust_ylong.Frame.Decoder.Steps.{Steps, remaining, round-Steps}

-- A round that has `ys` behind its buffer: one that stopped goes on with them.
abbrev pub resume :
    Fate (Option (List ℕ × List FrameKind)) × FrameDecoder
    → List ℕ
    → Fate (Option (List ℕ × List FrameKind)) × FrameDecoder
resume (returned none, d) ys = round ys d
resume (returned (some (rest, frames)), d) ys = (returned (some (rest ++ ys, frames)), d)
resume (failed e, d) ys = (failed e, d)
resume (panicked, d) ys = (panicked, d)
resume (out_of_fuel, d) ys = (out_of_fuel, d)

-- What stopped is not within a PRIORITY payload.
abbrev pub Stopped : Fate (Option (List ℕ × List FrameKind)) × FrameDecoder → Type 0
Stopped (returned none, d) = is_whole d ≡ true
Stopped (_, d) = Unit {0}

whole_before :
    (b xs : List ℕ) (st : Stage) (c : Core)
    → is_whole (save xs (held b st c)) ≡ true
    → is_whole (held b st c) ≡ true
whole_before b xs header_stage c h = refl
whole_before b xs payload_stage c h = ground (arith, h)

module _ (b xs ys : List ℕ) (st : Stage) (c : Core) where
  saved-absorb :
      IsTidy (held b st c)
      → IsTidy (save xs (held b st c))
      → is_whole (save xs (held b st c)) ≡ true
      → settle (round (xs ++ ys) (held b st c)) ≡ settle (round ys (save xs (held b st c)))
  saved-absorb tidy tidy' whole =
      round-absorb (xs ++ ys) (held b st c) tidy (whole_before b xs st c whole)
      ∙ ap (λ bytes. settle (round bytes (held [] st c))) (sym (append_assoc b xs ys))
      ∙ sym (round-absorb ys (save xs (held b st c)) tidy' whole)

  Stopped-append :
      IsTidy (held b st c)
      → Steps (remaining xs (held b st c)) (round xs (held b st c))
      → Stopped (round xs (held b st c))
      → round xs (held b st c) ≡ (returned none, save xs (held b st c))
      → settle (round (xs ++ ys) (held b st c)) ≡ settle (resume (round xs (held b st c)) ys)
  Stopped-append tidy steps stopped stop =
      saved-absorb tidy (subst (Steps (remaining xs (held b st c))) stop steps)
        (subst Stopped stop stopped)
      ∙ ap (λ m. settle (resume m ys)) (sym stop)

  header_resume :
      (o : Option FrameHeader) (rest : List ℕ) (d : FrameDecoder)
      → settle (continue (take_header o (rest ++ ys) d) header_read)
        ≡ settle (resume (continue (take_header o rest d) header_read) ys)
  header_resume none rest d = refl
  header_resume (some h) rest d = elim (Bool-cases (ltb d.core.max_frame_size h.payload_length)) [
    | inl e ↦ rw e refl
    | inr e ↦ rw e refl
  ]

  payload_resume :
      (m : Fate FrameKind × FrameDecoder) (rest : List ℕ)
      → settle (continue (continue m (finished (rest ++ ys))) payload_read)
        ≡ settle (resume (continue (continue m (finished rest)) payload_read) ys)
  payload_resume (returned kind, d) rest = refl
  payload_resume (failed e, d) rest = refl
  payload_resume (panicked, d) rest = refl
  payload_resume (out_of_fuel, d) rest = refl

header-append :
    (b xs ys : List ℕ) (c : Core)
    → IsTidy (held b header_stage c)
    → Steps (remaining xs (held b header_stage c)) (round xs (held b header_stage c))
    → Stopped (round xs (held b header_stage c))
    → settle (round (xs ++ ys) (held b header_stage c))
      ≡ settle (resume (round xs (held b header_stage c)) ys)
unfolding round decode_frame_header
header-append b xs ys c tidy steps stopped =
    let n : ℕ = 9 - length b in
    let sizes : length (xs ++ ys) ≡ length xs + length ys = length-append xs ys in
    elim (Bool-cases (ltb (length xs) n)) [
      | inl short ↦ Stopped-append b xs ys header_stage c tidy steps stopped (rw short refl)
      | inr long ↦
          let long' : ltb (length (xs ++ ys)) n ≡ false = ground arith in
          let fits : n ≤ length xs = ground arith in
          let bytes : take n (xs ++ ys) ≡ take n xs = take-append_le n xs ys fits in
          let rest : drop n (xs ++ ys) ≡ drop n xs ++ ys = drop-append_le n xs ys fits in
          rw (long, long', bytes, rest)
            (elim (Bool-cases (length b == 0)) [
              | inl fresh ↦
                  let same : header_of (xs ++ ys) ≡ header_of xs =
                    sym (header_of-take (xs ++ ys))
                    ∙ ap header_of (take-append_le 9 xs ys (ground arith))
                    ∙ header_of-take xs in
                  rw (fresh, same)
                    (header_resume b xs ys header_stage c (header_of xs) (drop n xs)
                      (held b header_stage c))
              | inr kept ↦
                  rw kept (
                    header_resume b xs ys header_stage c (header_of (b ++ take n xs)) (drop n xs) _)
            ])
    ]

payload-append :
    (b xs ys : List ℕ) (c : Core)
    → IsTidy (held b payload_stage c)
    → Steps (remaining xs (held b payload_stage c)) (round xs (held b payload_stage c))
    → Stopped (round xs (held b payload_stage c))
    → settle (round (xs ++ ys) (held b payload_stage c))
      ≡ settle (resume (round xs (held b payload_stage c)) ys)
unfolding round decode_frame_payload
payload-append b xs ys c tidy steps stopped =
    let n : ℕ = c.header.payload_length - length b in
    let sizes : length (xs ++ ys) ≡ length xs + length ys = length-append xs ys in
    elim (Bool-cases (out_of_order c)) [
      | inl e ↦ rw e refl
      | inr e ↦ elim (Bool-cases (ltb (length xs) n)) [
        | inl short ↦ Stopped-append b xs ys payload_stage c tidy steps stopped (rw (e, short) refl)
        | inr long ↦
            let long' : ltb (length (xs ++ ys)) n ≡ false = ground arith in
            let fits : n ≤ length xs = ground arith in
            let bytes : take n (xs ++ ys) ≡ take n xs = take-append_le n xs ys fits in
            let rest : drop n (xs ++ ys) ≡ drop n xs ++ ys = drop-append_le n xs ys fits in
            rw (e, long, long', bytes, rest)
              (payload_resume b xs ys payload_stage c
                (decode_payload c.header.frame_type (take n xs) (held b payload_stage c))
                (drop n xs))
      ]
    ]

held-append :
    (b xs ys : List ℕ) (st : Stage) (c : Core)
    → IsTidy (held b st c)
    → Stopped (round xs (held b st c))
    → settle (round (xs ++ ys) (held b st c)) ≡ settle (resume (round xs (held b st c)) ys)
held-append b xs ys header_stage c tidy stopped =
    header-append b xs ys c tidy (round-Steps xs (held b header_stage c) tidy) stopped
held-append b xs ys payload_stage c tidy stopped =
    payload-append b xs ys c tidy (round-Steps xs (held b payload_stage c) tidy) stopped

pub round-append :
    (xs ys : List ℕ) (d : FrameDecoder)
    → IsTidy d
    → Stopped (round xs d)
    → settle (round (xs ++ ys) d) ≡ settle (resume (round xs d) ys)
round-append xs ys d tidy =
    subst
      (λ d'.
        IsTidy d'
        → Stopped (round xs d')
        → settle (round (xs ++ ys) d') ≡ settle (resume (round xs d') ys))
      (IsTidy-held d tidy) (held-append d.buffer xs ys d.stage d.core) tidy

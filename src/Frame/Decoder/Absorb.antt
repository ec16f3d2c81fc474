-- ===== src/Frame/Decoder/Absorb.antt =====
-- A round on saved bytes and new ones is a round on both together.
use commonlibrary_rust_ylong.Common.{
  ℕ, suc, ◌+◌, ◌-◌, ◌≤◌, ◌<◌, ◌≡◌, refl, sym, ap, ◌∙◌, ◌⊎◌, inl, inr, Option, none, some, List, [],
  ◌∷◌, ◌++◌, Bool, true, false, Bool-cases, ltb, ◌==◌, ◌||◌, not, length, length-append, take, drop,
  take-append_ge, drop-append_ge, arith,
}
use mathlib.Core.Path.{subst}
use commonlibrary_rust_ylong.H2.Fate.{Fate, returned, failed, panicked, out_of_fuel, continue}
use commonlibrary_rust_ylong.Frame.Handlers.{Core, FrameHeader, FrameKind}
use commonlibrary_rust_ylong.Frame.Decoder.{
  FrameDecoder, Stage, header_stage, payload_stage, of_core, save, decode_payload, out_of_order,
  finished, decode_frame_payload, header_of, take_header, decode_frame_header, header_read,
  payload_read, round,
}
use commonlibrary_rust_ylong.Frame.Decoder.Rounds.{
  HasRoom, IsTidy, IsTidy-held, held, decode_payload-Agree, suc_nonzero,
}

-- A decoder that failed, without its saved bytes.
abbrev pub settle : {A : Type 0} → Fate A × FrameDecoder → Fate A × FrameDecoder
settle (returned a, d) = (returned a, d)
settle (failed e, d) = (failed e, record d { buffer = []; offset = 0 })
settle (panicked, d) = (panicked, record d { buffer = []; offset = 0 })
settle (out_of_fuel, d) = (out_of_fuel, record d { buffer = []; offset = 0 })

settle_first :
    {A B : Type 0} (m : Fate A × FrameDecoder) (k : A → FrameDecoder → Fate B × FrameDecoder)
    → settle (continue m k) ≡ settle (continue (settle m) k)
settle_first (returned a, d) k = refl
settle_first (failed e, d) k = refl
settle_first (panicked, d) k = refl
settle_first (out_of_fuel, d) k = refl

pub settle-continue :
    {A B : Type 0} (m m' : Fate A × FrameDecoder) (k : A → FrameDecoder → Fate B × FrameDecoder)
    → settle m ≡ settle m'
    → settle (continue m k) ≡ settle (continue m' k)
settle-continue m m' k same =
    settle_first m k ∙ ap (λ n. settle (continue n k)) same ∙ sym (settle_first m' k)

take_header-settle :
    (o : Option FrameHeader) (rest bytes : List ℕ) (n : ℕ) (c : Core)
    → settle (
        take_header o rest
          (record { buffer = bytes; offset = suc n; stage = header_stage; core = c }))
      ≡ settle (take_header o rest (held [] header_stage c))
take_header-settle none rest bytes n c = refl
take_header-settle (some h) rest bytes n c =
    elim (Bool-cases (ltb c.max_frame_size h.payload_length)) [
      | inl e ↦ rw e refl
      | inr e ↦ rw (e, suc_nonzero n) refl
    ]

-- Nine bytes are all that is read.
pub header_of-take : (buf : List ℕ) → header_of (take 9 buf) ≡ header_of buf
unfolding header_of
header_of-take (a ∷ b ∷ c ∷ t ∷ f ∷ s1 ∷ s2 ∷ s3 ∷ s4 ∷ rest) = refl
header_of-take _ = refl

save_twice :
    (b buf : List ℕ) (st : Stage) (c : Core)
    → save buf (held b st c) ≡ save (b ++ buf) (held [] st c)
save_twice b buf st c =
    let sizes : length (b ++ buf) ≡ length b + length buf = length-append b buf in
    let offsets : length b + length buf ≡ 0 + length (b ++ buf) = omega arith in
    ap (λ o. record { buffer = b ++ buf; offset = o; stage = st; core = c }) offsets

pub decode_frame_header-absorb :
    (b buf : List ℕ) (c : Core)
    → length b < 9
    → settle (decode_frame_header buf (held b header_stage c))
      ≡ settle (decode_frame_header (b ++ buf) (held [] header_stage c))
unfolding decode_frame_header
decode_frame_header-absorb [] buf c room = refl
decode_frame_header-absorb (x ∷ b) buf c room =
    let sizes : length (x ∷ b ++ buf) ≡ suc (length b) + length buf = length-append (x ∷ b) buf in
    let n : ℕ = 9 - suc (length b) in
    elim (Bool-cases (ltb (length buf) n)) [
      | inl short ↦
          let whole : ltb (length (x ∷ b ++ buf)) 9 ≡ true = ground arith in
          rw (short, whole) (ap (λ d. (returned none, d)) (save_twice (x ∷ b) buf header_stage c))
      | inr long ↦
          let whole : ltb (length (x ∷ b ++ buf)) 9 ≡ false = ground arith in
          let same : header_of (x ∷ b ++ take n buf) ≡ header_of (x ∷ b ++ buf) =
            ap header_of (sym (take-append_ge 9 n (x ∷ b) buf (omega arith)))
            ∙ header_of-take (x ∷ b ++ buf) in
          let rest : drop n buf ≡ drop 9 (x ∷ b ++ buf) =
            sym (drop-append_ge 9 n (x ∷ b) buf (omega arith)) in
          rw (long, whole, suc_nonzero (length b))
            (take_header-settle (header_of (x ∷ b ++ take n buf)) (drop n buf) _ (length b) c
              ∙ ap (λ o. settle (take_header o (drop n buf) (held [] header_stage c))) same
              ∙ ap (λ r. settle (take_header (header_of (x ∷ b ++ buf)) r (held [] header_stage c)))
                  rest)
    ]

finish_agree :
    (b b' rest : List ℕ) (c : Core) (r : Fate FrameKind × Core)
    → settle (continue (of_core (held b payload_stage c) r) (finished rest))
      ≡ settle (continue (of_core (held b' payload_stage c) r) (finished rest))
finish_agree [] [] rest c r = refl
finish_agree [] (x ∷ b') rest c (returned kind, c') = rw (suc_nonzero (length b')) refl
finish_agree (x ∷ b) [] rest c (returned kind, c') = rw (suc_nonzero (length b)) refl
finish_agree (x ∷ b) (y ∷ b') rest c (returned kind, c') =
    rw (suc_nonzero (length b), suc_nonzero (length b')) refl
finish_agree b b' rest c (failed e, c') = refl
finish_agree b b' rest c (panicked, c') = refl
finish_agree b b' rest c (out_of_fuel, c') = refl

pub decode_frame_payload-absorb :
    (b buf : List ℕ) (c : Core)
    → length b ≤ c.header.payload_length
    → ((c.header.frame_type == 2) ≡ false) ⊎ (length b ≡ 0)
    → settle (decode_frame_payload buf (held b payload_stage c))
      ≡ settle (decode_frame_payload (b ++ buf) (held [] payload_stage c))
unfolding decode_frame_payload
decode_frame_payload-absorb [] buf c room whole = refl
decode_frame_payload-absorb (x ∷ b) buf c room whole =
    let saved : List ℕ = x ∷ b in
    let all : ℕ = c.header.payload_length in
    let n : ℕ = all - length saved in
    let nothing : all - 0 ≡ all = omega arith in
    let sizes : length (saved ++ buf) ≡ length saved + length buf = length-append saved buf in
    elim (Bool-cases (out_of_order c)) [
      | inl e ↦ rw e refl
      | inr e ↦ elim (Bool-cases (ltb (length buf) n)) [
        | inl short ↦
            let short' : ltb (length (saved ++ buf)) all ≡ true = ground arith in
            rw (e, nothing, short, short')
              (ap (λ d. (returned none, d)) (save_twice saved buf payload_stage c))
        | inr long ↦
            let long' : ltb (length (saved ++ buf)) all ≡ false = ground arith in
            rw (e, nothing, long, long')
              (enough saved buf c room (ground arith)
                (elim whole [ inl other ↦ other | inr nil ↦ absurd (omega arith) ]))
      ]
    ]
  where
    enough :
        (b buf : List ℕ) (c : Core)
        → length b ≤ c.header.payload_length
        → c.header.payload_length - length b ≤ length buf
        → (c.header.frame_type == 2) ≡ false
        → settle (
            continue
              (decode_payload c.header.frame_type
                (take (c.header.payload_length - length b) buf)
                (held b payload_stage c))
              (finished (drop (c.header.payload_length - length b) buf)))
          ≡ settle (
              continue
                (decode_payload c.header.frame_type
                  (take c.header.payload_length (b ++ buf))
                  (held [] payload_stage c))
                (finished (drop c.header.payload_length (b ++ buf))))
    enough b buf c room long other =
        let all : ℕ = c.header.payload_length in
        let n : ℕ = all - length b in
        let bytes : b ++ take n buf ≡ take all (b ++ buf) =
          sym (take-append_ge all n b buf (omega arith)) in
        let rest : drop n buf ≡ drop all (b ++ buf) =
          sym (drop-append_ge all n b buf (omega arith)) in
        let (k, k', r, p, q) =
          decode_payload-Agree b (take n buf) [] (take all (b ++ buf)) payload_stage c bytes
            c.header.frame_type (inl other) in
        rw (p, q, rest) (finish_agree k k' (drop all (b ++ buf)) c r)

-- The decoder does not stand within the payload of a PRIORITY frame.
abbrev pub is_whole : FrameDecoder → Bool
is_whole d = elim d.stage [
  | header_stage ↦ true
  | payload_stage ↦ not (d.core.header.frame_type == 2) || d.offset == 0
]

held-absorb :
    (b buf : List ℕ) (st : Stage) (c : Core)
    → HasRoom st (length b) c.header.payload_length
    → is_whole (held b st c) ≡ true
    → settle (round buf (held b st c)) ≡ settle (round (b ++ buf) (held [] st c))
unfolding round
held-absorb b buf header_stage c room whole =
    settle-continue (decode_frame_header buf (held b header_stage c))
      (decode_frame_header (b ++ buf) (held [] header_stage c)) header_read
      (decode_frame_header-absorb b buf c room)
held-absorb b buf payload_stage c room whole =
    settle-continue (decode_frame_payload buf (held b payload_stage c))
      (decode_frame_payload (b ++ buf) (held [] payload_stage c)) payload_read
      (decode_frame_payload-absorb b buf c room (elim (Bool-cases (c.header.frame_type == 2)) [
        | inl e ↦ inr (ground (arith, whole, e))
        | inr e ↦ inl e
      ]))

pub round-absorb :
    (buf : List ℕ) (d : FrameDecoder)
    → IsTidy d
    → is_whole d ≡ true
    → settle (round buf d) ≡ settle (round (d.buffer ++ buf) (held [] d.stage d.core))
round-absorb buf d tidy =
    subst
      (λ d'.
        is_whole d' ≡ true
        → settle (round buf d') ≡ settle (round (d.buffer ++ buf) (held [] d.stage d.core)))
      (IsTidy-held d tidy)
      (held-absorb d.buffer buf d.stage d.core
        (subst (λ o. HasRoom d.stage o d.core.header.payload_length) tidy.counted tidy.room))

-- ===== src/Frame/Decoder/Steps.antt =====
-- What a round of `decode` leaves, and that the rounds come to an end.
use mathlib.Core.Path.{subst}
use commonlibrary_rust_ylong.Common.{
  ℕ, zero, suc, ◌+◌, ◌*◌, ◌-◌, ◌≤◌, ◌<◌, ◌≡◌, refl, ap, inl, inr, Option, none, some, List, [], ◌∷◌,
  ◌++◌, Bool-cases, ltb, ◌==◌, length, length-append, take, drop, length-drop, arith,
}
use commonlibrary_rust_ylong.H2.Fate.{Fate, returned, failed, panicked, out_of_fuel, continue}
use commonlibrary_rust_ylong.Frame.Handlers.{Core, FrameHeader, FrameKind}
use commonlibrary_rust_ylong.Frame.Decoder.{
  FrameDecoder, Stage, header_stage, payload_stage, of_core, out_of_order, finished,
  decode_frame_payload, header_of, take_header, decode_frame_header, header_read, payload_read,
  round, after_round, decode_loop,
}
use commonlibrary_rust_ylong.Frame.Decoder.Rounds.{
  HasRoom, IsTidy, IsTidy-held, held, decode_payload-Agree, suc_nonzero,
}

abbrev pub turn : Stage → ℕ
turn header_stage = 0
turn payload_stage = 1

pub turn_le : (st : Stage) → turn st ≤ 1
turn_le header_stage = omega arith
turn_le payload_stage = omega arith

-- The rounds that are left, at most: a payload may take no byte.
abbrev pub remaining : List ℕ → FrameDecoder → ℕ
remaining buf d = 2 * length buf + turn d.stage

-- What a round leaves: a tidy decoder, and fewer rounds where it goes on.
abbrev pub Steps : ℕ → Fate (Option (List ℕ × List FrameKind)) × FrameDecoder → Type 0
Steps n (returned none, d) = IsTidy d
Steps n (returned (some (rest, frames)), d) = IsTidy d × (remaining rest d < n)
Steps n (_, d) = Unit {0}

header-Steps :
    (b buf : List ℕ) (c : Core)
    → length b < 9
    → Steps (remaining buf (held b header_stage c)) (round buf (held b header_stage c))
unfolding round decode_frame_header
header-Steps b buf c room = elim (Bool-cases (ltb (length buf) (9 - length b))) [
  | inl short ↦
      rw short (record { counted = omega (arith, length-append b buf); room = ground arith })
  | inr long ↦
      let n : ℕ = 9 - length b in
      let less : length (drop n buf) < length buf = ground (arith, length-drop n buf) in
      rw long (elim (Bool-cases (length b == 0)) [
        | inl fresh ↦ rw fresh (read (header_of buf) b (drop n buf) (length b) (λ z. z) less)
        | inr kept ↦ rw kept (
            read (header_of (b ++ take n buf)) (b ++ take n buf) (drop n buf) (length b)
              (λ z. absurd (ground arith)) less)
      ])
]
  where
    read :
        (o : Option FrameHeader) (bytes rest : List ℕ) (n : ℕ)
        → (n ≡ 0 → length bytes ≡ 0)
        → length rest < length buf
        → Steps (2 * length buf + 0) (
            continue
              (take_header o rest
                (record { buffer = bytes; offset = n; stage = header_stage; core = c }))
              header_read)
    read none bytes rest n empty less = tt
    read (some h) bytes rest n empty less =
        elim (Bool-cases (ltb c.max_frame_size h.payload_length)) [
          | inl e ↦ rw e tt
          | inr e ↦ rw e (elim (Bool-cases (n == 0)) [
            | inl z ↦
                rw z (record { counted = ground (arith, empty); room = ground arith }, omega arith)
            | inr z ↦ rw z (record { counted = refl; room = omega arith }, omega arith)
          ])
        ]

payload-Steps :
    (b buf : List ℕ) (c : Core)
    → length b ≤ c.header.payload_length
    → Steps (remaining buf (held b payload_stage c)) (round buf (held b payload_stage c))
unfolding round decode_frame_payload
payload-Steps b buf c room =
    let n : ℕ = c.header.payload_length - length b in
    elim (Bool-cases (out_of_order c)) [
      | inl e ↦ rw e tt
      | inr e ↦ elim (Bool-cases (ltb (length buf) n)) [
        | inl short ↦
            rw (e, short)
              (record { counted = omega (arith, length-append b buf); room = ground arith })
        | inr long ↦
            let (k, k', r, p, q) =
              decode_payload-Agree b (take n buf) b (take n buf) payload_stage c refl
                c.header.frame_type (inr refl) in
            rw (e, long, p) (read k r (drop n buf) (omega (arith, length-drop n buf)))
      ]
    ]
  where
    read :
        (k : List ℕ) (r : Fate FrameKind × Core) (rest : List ℕ)
        → length rest ≤ length buf
        → Steps
            (2 * length buf + 1)
            (continue (continue (of_core (held k payload_stage c) r) (finished rest)) payload_read)
    read [] (returned kind, c') rest less =
        (record { counted = refl; room = omega arith }, omega arith)
    read (x ∷ k) (returned kind, c') rest less =
        rw (suc_nonzero (length k)) (record { counted = refl; room = omega arith }, omega arith)
    read k (failed e, c') rest less = tt
    read k (panicked, c') rest less = tt
    read k (out_of_fuel, c') rest less = tt

held-Steps :
    (b buf : List ℕ) (st : Stage) (c : Core)
    → HasRoom st (length b) c.header.payload_length
    → Steps (remaining buf (held b st c)) (round buf (held b st c))
held-Steps b buf header_stage c room = header-Steps b buf c room
held-Steps b buf payload_stage c room = payload-Steps b buf c room

pub round-Steps :
    (buf : List ℕ) (d : FrameDecoder) → IsTidy d → Steps (remaining buf d) (round buf d)
round-Steps buf d tidy =
    subst (λ d'. Steps (remaining buf d') (round buf d')) (IsTidy-held d tidy)
      (held-Steps d.buffer buf d.stage d.core
        (subst (λ o. HasRoom d.stage o d.core.header.payload_length) tidy.counted tidy.room))

-- More fuel than the loop needs changes nothing.
pub loop_fuel :
    (f g : ℕ) (buf : List ℕ) (d : FrameDecoder)
    → IsTidy d
    → remaining buf d < f
    → remaining buf d < g
    → decode_loop f buf d ≡ decode_loop g buf d
unfolding decode_loop
loop_fuel zero g buf d tidy hf hg = absurd (omega arith)
loop_fuel (suc f) zero buf d tidy hf hg = absurd (omega arith)
loop_fuel (suc f) (suc g) buf d tidy hf hg =
    go (round buf d) (round-Steps buf d tidy)
      (λ rest d' t less. loop_fuel f g rest d' t (omega arith) (omega arith))
  where
    go :
        (m : Fate (Option (List ℕ × List FrameKind)) × FrameDecoder)
        → Steps (remaining buf d) m
        → ((rest : List ℕ) (d' : FrameDecoder)
            → IsTidy d'
            → remaining rest d' < remaining buf d
            → decode_loop f rest d' ≡ decode_loop g rest d')
        → continue m (after_round (decode_loop f)) ≡ continue m (after_round (decode_loop g))
    go (returned none, d') s ih = refl
    go (returned (some (rest, frames)), d') (t, less) ih =
        ap (λ r. continue r (λ more d''. (returned (frames ++ more), d''))) (ih rest d' t less)
    go (failed e, d') s ih = refl
    go (panicked, d') s ih = refl
    go (out_of_fuel, d') s ih = refl

-- ===== src/Frame/Decoder/Total.antt =====
-- Decoding frames ends, and keeps the decoder in order.
use commonlibrary_rust_ylong.Common.{
  ℕ, zero, suc, ◌-◌, ◌≤◌, ◌<◌, refl, Option, none, some, inl, inr, List, ◌++◌, Bool-cases, ltb,
  ◌==◌, length, take, drop, arith,
}
use commonlibrary_rust_ylong.H2.Fate.{Fate, returned, failed, panicked, out_of_fuel, continue}
use commonlibrary_rust_ylong.Hpack.Decoder
use commonlibrary_rust_ylong.Hpack.Table.Dynamic
use commonlibrary_rust_ylong.Hpack.Table.Dynamic.Eviction.{IsValid}
use commonlibrary_rust_ylong.Frame.Handlers.{FrameHeader, FrameKind, reset_header}
use commonlibrary_rust_ylong.Frame.Handlers.Ends.{HasGoodHpack}
use commonlibrary_rust_ylong.Frame.Decoder.{
  FrameDecoder, Stage, header_stage, payload_stage, decode_payload, out_of_order, finished,
  decode_frame_payload, header_of, take_header, decode_frame_header, header_read, payload_read,
  round, after_round, decode_loop, enough_fuel, decode, new,
}
use commonlibrary_rust_ylong.Frame.Decoder.Rounds.{IsTidy}
use commonlibrary_rust_ylong.Frame.Decoder.Steps.{Steps, remaining, turn_le, round-Steps}
use commonlibrary_rust_ylong.Frame.Decoder.Lasts.{Lasts, decode_payload-Lasts}

-- The saved bytes are counted and leave room, HPACK is in order, and the payload is no longer than a
-- frame may be.
pub record IsSound (d : FrameDecoder) : Type 0 where
  pub tidy : IsTidy d
  pub hpack : HasGoodHpack d.core
  pub small : d.core.header.payload_length ≤ d.core.max_frame_size

-- How a call ends: with a sound decoder, or an error or a panic that leaves a valid table.
abbrev pub Leaves : {A : Type 0} → Fate A × FrameDecoder → Type 0
Leaves (returned a, d) = IsSound d
Leaves (failed e, d) = IsValid d.core.hpack.core.table
Leaves (panicked, d) = IsValid d.core.hpack.core.table
Leaves (out_of_fuel, d) = ⊥

abbrev Keeps : Fate (Option (List ℕ × List FrameKind)) × FrameDecoder → Type 0
Keeps (returned o, d) = HasGoodHpack d.core × (d.core.header.payload_length ≤ d.core.max_frame_size)
Keeps (failed e, d) = IsValid d.core.hpack.core.table
Keeps (panicked, d) = IsValid d.core.hpack.core.table
Keeps (out_of_fuel, d) = ⊥

header-Keeps :
    (o : Option FrameHeader) (rest : List ℕ) (d : FrameDecoder)
    → HasGoodHpack d.core
    → Keeps (continue (take_header o rest d) header_read)
header-Keeps none rest d g = g.table
header-Keeps (some h) rest d g = elim (Bool-cases (ltb d.core.max_frame_size h.payload_length)) [
  | inl e ↦ rw e g.table
  | inr e ↦ rw e (elim (Bool-cases (d.offset == 0)) [
    | inl z ↦ rw z (g, ground arith)
    | inr z ↦ rw z (g, ground arith)
  ])
]

payload-Keeps :
    (m : Fate FrameKind × FrameDecoder) (rest : List ℕ)
    → Lasts m
    → Keeps (continue (continue m (finished rest)) payload_read)
unfolding reset_header
payload-Keeps (returned kind, d) rest g = elim (Bool-cases (d.offset == 0)) [
  | inl z ↦ rw z (g, omega arith)
  | inr z ↦ rw z (g, omega arith)
]
payload-Keeps (failed e, d) rest g = g
payload-Keeps (panicked, d) rest g = g
payload-Keeps (out_of_fuel, d) rest g = g

header_round-Keeps :
    (buf : List ℕ) (d : FrameDecoder)
    → HasGoodHpack d.core
    → d.core.header.payload_length ≤ d.core.max_frame_size
    → Keeps (continue (decode_frame_header buf d) header_read)
unfolding decode_frame_header
header_round-Keeps buf d g small =
    let n : ℕ = 9 - d.offset in
    elim (Bool-cases (ltb (length buf) n)) [
      | inl short ↦ rw short (g, small)
      | inr long ↦ rw long (elim (Bool-cases (d.offset == 0)) [
        | inl z ↦ rw z (header-Keeps (header_of buf) (drop n buf) d g)
        | inr z ↦ rw z (header-Keeps (header_of (d.buffer ++ take n buf)) (drop n buf) _ g)
      ])
    ]

payload_round-Keeps :
    (buf : List ℕ) (d : FrameDecoder)
    → HasGoodHpack d.core
    → d.core.header.payload_length ≤ d.core.max_frame_size
    → Keeps (continue (decode_frame_payload buf d) payload_read)
unfolding decode_frame_payload
payload_round-Keeps buf d g small =
    let n : ℕ = d.core.header.payload_length - d.offset in
    elim (Bool-cases (out_of_order d.core)) [
      | inl e ↦ rw e g.table
      | inr e ↦ rw e (elim (Bool-cases (ltb (length buf) n)) [
        | inl short ↦ rw short (g, small)
        | inr long ↦ rw long (
            payload-Keeps (decode_payload d.core.header.frame_type (take n buf) d) (drop n buf)
              (decode_payload-Lasts (take n buf) d g d.core.header.frame_type))
      ])
    ]

round-Keeps : (buf : List ℕ) (d : FrameDecoder) → IsSound d → Keeps (round buf d)
unfolding round
round-Keeps buf d s = go d.stage
  where
    go : (st : Stage) → Keeps (round buf (record d { stage = st }))
    go header_stage = header_round-Keeps buf (record d { stage = header_stage }) s.hpack s.small
    go payload_stage = payload_round-Keeps buf (record d { stage = payload_stage }) s.hpack s.small

after-Leaves :
    (m : Fate (List FrameKind) × FrameDecoder) (frames : List FrameKind)
    → Leaves m
    → Leaves (continue m (λ more d. (returned (frames ++ more), d)))
after-Leaves (returned more, d) frames l = l
after-Leaves (failed e, d) frames l = l
after-Leaves (panicked, d) frames l = l
after-Leaves (out_of_fuel, d) frames l = l

loop-Leaves :
    (f : ℕ) (buf : List ℕ) (d : FrameDecoder)
    → remaining buf d < f
    → IsSound d
    → Leaves (decode_loop f buf d)
unfolding decode_loop
loop-Leaves zero buf d h s = absurd (omega arith)
loop-Leaves (suc f) buf d h s =
    go (round buf d) (round-Steps buf d s.tidy) (round-Keeps buf d s)
      (λ rest d' less s'. loop-Leaves f rest d' (omega arith) s')
  where
    go :
        (m : Fate (Option (List ℕ × List FrameKind)) × FrameDecoder)
        → Steps (remaining buf d) m
        → Keeps m
        → ((rest : List ℕ) (d' : FrameDecoder)
            → remaining rest d' < remaining buf d
            → IsSound d'
            → Leaves (decode_loop f rest d'))
        → Leaves (continue m (after_round (decode_loop f)))
    go (returned none, d') t (g, small) ih = record { tidy = t; hpack = g; small = small }
    go (returned (some (rest, frames)), d') (t, less) (g, small) ih =
        after-Leaves (decode_loop f rest d') frames
          (ih rest d' less (record { tidy = t; hpack = g; small = small }))
    go (failed e, d') t k ih = k
    go (panicked, d') t k ih = k
    go (out_of_fuel, d') t k ih = k

pub new-IsSound : IsSound new
unfolding new Decoder.with_max_size Dynamic.with_max_size reset_header
new-IsSound = record {
  tidy = record { counted = refl; room = omega arith };
  hpack = record { table = record { counted = refl; bounded = omega arith }; size = omega arith };
  small = omega arith;
}

-- From a sound decoder, decoding any bytes ends. Where it returns, the decoder is sound again: it has
-- counted the saved bytes, which are less than a header or no more than the payload, the payload is no
-- longer than a frame may be, and HPACK's table is valid and its header list within its limit. Where
-- it fails or panics, HPACK's table is valid.
pub decode_frames_end : (d : FrameDecoder) (buf : List ℕ) → IsSound d → Leaves (decode d buf)
unfolding decode
decode_frames_end d buf s = loop-Leaves (enough_fuel buf) buf d (omega (arith, turn_le d.stage)) s

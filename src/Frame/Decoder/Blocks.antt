-- ===== src/Frame/Decoder/Blocks.antt =====
-- A header block is not interrupted: RFC 9113, section 4.3.
use mathlib.Core.Path.{subst}
use commonlibrary_rust_ylong.Common.{
  ℕ, zero, suc, ◌+◌, ◌*◌, ◌-◌, ◌^◌, ◌<◌, ◌≤◌, ◌≡◌, ◌⊎◌, if◌then◌else◌, refl, sym, ap, ◌∙◌, Option,
  none, some, inl, inr, List, [], ◌∷◌, ◌++◌, true, false, Bool-cases, ltb, ◌==◌, length, take, drop,
  arith,
}
use commonlibrary_rust_ylong.H2.Fate.{Fate, returned, failed, panicked, out_of_fuel, continue}
use commonlibrary_rust_ylong.H2.Error.{connection_error, protocol_error}
use commonlibrary_rust_ylong.H2.Parts.{Parts}
use commonlibrary_rust_ylong.Frame.Format.{header_bytes}
use commonlibrary_rust_ylong.Frame.Decoder.Rounds.{held}
use commonlibrary_rust_ylong.Frame.Decoder.Reading.{header_round}
use commonlibrary_rust_ylong.Hpack.Decoder
use commonlibrary_rust_ylong.Hpack.Decoder.{HpackDecoder}
use commonlibrary_rust_ylong.Frame.{Frame, headers, push_promise, end_headers_mask, has_flag}
use commonlibrary_rust_ylong.Frame.Handlers.{
  Core, Act, Continuations, FrameHeader, FrameKind, complete, partial, of_hpack, continued_frame,
  continuation_frame,
}
use commonlibrary_rust_ylong.Frame.Decoder.{
  FrameDecoder, Stage, header_stage, payload_stage, of_core, save, handlers, decode_payload,
  out_of_order, finished, decode_frame_payload, header_of, take_header, decode_frame_header,
  header_read, payload_read, round, after_round, decode_loop, enough_fuel, decode,
}

-- The frame that a block makes: it has the stream and the flags kept for the block, and is PUSH_PROMISE
-- where a stream is kept as promised, and else HEADERS.
abbrev pub IsBlockFrame : Continuations → Frame → Type 0
IsBlockFrame k frame =
    (frame.id ≡ k.stream_id)
    × (frame.flags ≡ k.flags)
    × ((parts : Parts) × (frame.payload ≡ (
          if k.promised_stream_id == 0
          then headers parts
          else push_promise k.promised_stream_id parts)))

continued_frame-IsBlockFrame :
    (k : Continuations) (parts : Parts) → IsBlockFrame k (continued_frame k parts)
unfolding continued_frame
continued_frame-IsBlockFrame k parts = elim (Bool-cases (k.promised_stream_id == 0)) [
  | inl e ↦ rw e (refl, refl, (parts, refl))
  | inr e ↦ rw e (refl, refl, (parts, refl))
]

-- The frames go on with the block that `k` opened: parts of it, and then, unless the block is still
-- open, the frame that it completes.
abbrev pub Continues : Continuations → List FrameKind → FrameDecoder → Type 0
Continues k [] d = d.core.continuations ≡ k
Continues k (partial ∷ frames) d = Continues k frames d
Continues k (complete frame ∷ frames) d = IsBlockFrame k frame

abbrev pub ContinuesBlock : Continuations → Fate (List FrameKind) × FrameDecoder → Type 0
ContinuesBlock k (returned frames, d) = Continues k frames d
ContinuesBlock k (_, d) = Unit {0}

abbrev RoundContinues :
    Continuations → Fate (Option (List ℕ × List FrameKind)) × FrameDecoder → Type 0
RoundContinues k (returned none, d) = d.core.continuations ≡ k
RoundContinues k (returned (some (rest, frames)), d) = Continues k frames d
RoundContinues k (_, d) = Unit {0}

abbrev KindContinues : Continuations → Fate FrameKind × Core → Type 0
KindContinues k (returned partial, c) = c.continuations ≡ k
KindContinues k (returned (complete frame), c) = IsBlockFrame k frame
KindContinues k (_, c) = Unit {0}

hpack-Continues :
    {A : Type 0} (k : Continuations) (c : Core) (m : Fate A × HpackDecoder) (f : A → Act FrameKind)
    → ((a : A) (h : HpackDecoder) → KindContinues k (f a (record c { hpack = h })))
    → KindContinues k (continue (of_hpack c m) f)
hpack-Continues k c (returned a, h) f each = each a h
hpack-Continues k c (failed e, h) f each = tt
hpack-Continues k c (panicked, h) f each = tt
hpack-Continues k c (out_of_fuel, h) f each = tt

continuation-Continues :
    (buf : List ℕ) (c : Core) → KindContinues c.continuations (continuation_frame buf c)
unfolding continuation_frame
continuation-Continues buf c =
    let k = c.continuations in
    elim (Bool-cases (has_flag end_headers_mask c.header.flags)) [
      | inl e ↦ rw e (
          hpack-Continues k c (Decoder.decode c.hpack buf) _ λ _ h.
            hpack-Continues k (record c { hpack = h }) (Decoder.finish h) _
              (λ parts h'. continued_frame-IsBlockFrame k parts))
      | inr e ↦ rw e (hpack-Continues k c (Decoder.decode c.hpack buf) _ (λ _ h. refl))
    ]

payload-Continues :
    (k : Continuations) (d : FrameDecoder) (m : Fate FrameKind × Core) (rest : List ℕ)
    → KindContinues k m
    → RoundContinues k (continue (continue (of_core d m) (finished rest)) payload_read)
payload-Continues k d (returned partial, c) rest h = elim (Bool-cases (d.offset == 0)) [
  | inl z ↦ rw z h
  | inr z ↦ rw z h
]
payload-Continues k d (returned (complete frame), c) rest h = h
payload-Continues k d (failed e, c) rest h = tt
payload-Continues k d (panicked, c) rest h = tt
payload-Continues k d (out_of_fuel, c) rest h = tt

-- A CONTINUATION frame, the only one that passes while a block is open.
arm-Continues :
    (buf rest : List ℕ) (d : FrameDecoder)
    → RoundContinues d.core.continuations
        (continue (continue (decode_payload 9 buf d) (finished rest)) payload_read)
unfolding decode_payload handlers
arm-Continues buf rest d =
    let k = d.core.continuations in
    elim (Bool-cases (d.core.header.stream_id == 0)) [
      | inl e ↦ rw e tt
      | inr e ↦ rw e (elim (Bool-cases (d.offset == 0)) [
        | inl z ↦ rw z (
            payload-Continues k d (continuation_frame buf d.core) rest
              (continuation-Continues buf d.core))
        | inr z ↦ rw z (
            payload-Continues k (save buf d) (continuation_frame (save buf d).buffer d.core) rest
              (continuation-Continues (save buf d).buffer d.core))
      ])
    ]

in_order :
    (c : Core)
    → c.continuations.is_end_headers ≡ false
    → out_of_order c ≡ false
    → c.header.frame_type ≡ 9
unfolding out_of_order
in_order c h e = ground arith

payload_round-Continues :
    (buf : List ℕ) (d : FrameDecoder)
    → d.core.continuations.is_end_headers ≡ false
    → RoundContinues d.core.continuations (continue (decode_frame_payload buf d) payload_read)
unfolding decode_frame_payload
payload_round-Continues buf d open_block =
    let n : ℕ = d.core.header.payload_length - d.offset in
    elim (Bool-cases (out_of_order d.core)) [
      | inl e ↦ rw e tt
      | inr e ↦
          let continuation : d.core.header.frame_type ≡ 9 = in_order d.core open_block e in
          elim (Bool-cases (ltb (length buf) n)) [
            | inl short ↦ rw (e, short) refl
            | inr long ↦
                rw (e, long)
                  (subst
                    (λ t. RoundContinues d.core.continuations (
                      continue (continue (decode_payload t (take n buf) d) (finished (drop n buf)))
                        payload_read))
                    (sym continuation) (arm-Continues (take n buf) (drop n buf) d))
          ]
    ]

header_round-Continues :
    (buf : List ℕ) (d : FrameDecoder)
    → RoundContinues d.core.continuations (continue (decode_frame_header buf d) header_read)
unfolding decode_frame_header
header_round-Continues buf d =
    let n : ℕ = 9 - d.offset in
    elim (Bool-cases (ltb (length buf) n)) [
      | inl short ↦ rw short refl
      | inr long ↦ rw long (elim (Bool-cases (d.offset == 0)) [
        | inl z ↦ rw z (read (header_of buf) (drop n buf) d)
        | inr z ↦ rw z (read (header_of (d.buffer ++ take n buf)) (drop n buf) _)
      ])
    ]
  where
    read :
        (o : Option FrameHeader) (rest : List ℕ) (d' : FrameDecoder)
        → RoundContinues d'.core.continuations (continue (take_header o rest d') header_read)
    read none rest d' = tt
    read (some h) rest d' = elim (Bool-cases (ltb d'.core.max_frame_size h.payload_length)) [
      | inl e ↦ rw e tt
      | inr e ↦ rw e (elim (Bool-cases (d'.offset == 0)) [ inl z ↦ rw z refl | inr z ↦ rw z refl ])
    ]

round-Continues :
    (buf : List ℕ) (d : FrameDecoder)
    → d.core.continuations.is_end_headers ≡ false
    → RoundContinues d.core.continuations (round buf d)
unfolding round
round-Continues buf d open_block = go d.stage
  where
    go : (st : Stage) → RoundContinues d.core.continuations (round buf (record d { stage = st }))
    go header_stage = header_round-Continues buf (record d { stage = header_stage })
    go payload_stage = payload_round-Continues buf (record d { stage = payload_stage }) open_block

more-Continues :
    (k : Continuations) (frames : List FrameKind) (d : FrameDecoder)
    (m : Fate (List FrameKind) × FrameDecoder)
    → Continues k frames d
    → (d.core.continuations ≡ k → ContinuesBlock k m)
    → ContinuesBlock k (continue m (λ more d'. (returned (frames ++ more), d')))
more-Continues k frames d (failed e, d') h next = tt
more-Continues k frames d (panicked, d') h next = tt
more-Continues k frames d (out_of_fuel, d') h next = tt
more-Continues k [] d (returned more, d') h next = next h
more-Continues k (partial ∷ frames) d (returned more, d') h next =
    more-Continues k frames d (returned more, d') h next
more-Continues k (complete frame ∷ frames) d (returned more, d') h next = h

loop-Continues :
    (f : ℕ) (buf : List ℕ) (d : FrameDecoder) (k : Continuations)
    → k.is_end_headers ≡ false
    → d.core.continuations ≡ k
    → ContinuesBlock k (decode_loop f buf d)
unfolding decode_loop
loop-Continues zero buf d k open_block same = tt
loop-Continues (suc f) buf d k open_block same =
    go (round buf d)
      (subst (λ k'. RoundContinues k' (round buf d)) same
        (round-Continues buf d (ap (λ k'. k'.is_end_headers) same ∙ open_block)))
      (λ rest d' same'. loop-Continues f rest d' k open_block same')
  where
    go :
        (m : Fate (Option (List ℕ × List FrameKind)) × FrameDecoder)
        → RoundContinues k m
        → ((rest : List ℕ) (d' : FrameDecoder)
            → d'.core.continuations ≡ k
            → ContinuesBlock k (decode_loop f rest d'))
        → ContinuesBlock k (continue m (after_round (decode_loop f)))
    go (returned none, d') h ih = h
    go (returned (some (rest, frames)), d') h ih =
        more-Continues k frames d' (decode_loop f rest d') h (ih rest d')
    go (failed e, d') h ih = tt
    go (panicked, d') h ih = tt
    go (out_of_fuel, d') h ih = tt

-- What becomes of a header that the block does not go on with.
refused :
    (h : FrameHeader) (rest : List ℕ) (c : Core)
    → h.payload_length < 2 ^ 24
    → h.stream_id < 2 ^ 31
    → h.payload_length ≤ c.max_frame_size
    → out_of_order (record c { header = h }) ≡ true
    → decode (held [] header_stage c) (header_bytes h ++ rest)
      ≡ (failed (connection_error protocol_error), held [] payload_stage (record c { header = h }))
unfolding decode decode_loop
refused h rest c small stream allowed foreign =
    let fuel : enough_fuel (header_bytes h ++ rest) ≡ suc (suc (2 * length rest + 19)) =
      omega arith in
    let stops : round rest (held [] payload_stage (record c { header = h })) ≡ (
      failed (connection_error protocol_error),
      held [] payload_stage (record c { header = h }),
    ) =
      unfold round in unfold decode_frame_payload in rw foreign refl in
    rw (fuel, header_round h rest c small stream allowed, stops) refl

only_own :
    (h : FrameHeader) (c : Core)
    → c.continuations.is_end_headers ≡ false
    → out_of_order (record c { header = h }) ≡ false
    → (h.frame_type ≡ 9) × (h.stream_id ≡ c.continuations.stream_id)
unfolding out_of_order
only_own h c open_block ordered = ground arith

-- While a header block is open, a call of `decode` that returns gives parts of that block, and then
-- either the block is open as before, or the next frame is HEADERS, or PUSH_PROMISE if the block promised
-- a stream, with the stream, the flags and the promised stream that the decoder has kept for the block.
-- And between two frames, a header with a 31-bit stream and a 24-bit length, no longer than a frame may
-- be, is that of a CONTINUATION frame on the block's stream, or decoding it, with any bytes behind it,
-- fails with the connection error PROTOCOL_ERROR.
pub decode-ContinuesBlock :
    (d : FrameDecoder) (buf : List ℕ) (h : FrameHeader) (rest : List ℕ)
    → d.core.continuations.is_end_headers ≡ false
    → h.payload_length < 2 ^ 24
    → h.stream_id < 2 ^ 31
    → h.payload_length ≤ d.core.max_frame_size
    → ContinuesBlock d.core.continuations (decode d buf)
      × (((h.frame_type ≡ 9) × (h.stream_id ≡ d.core.continuations.stream_id))
          ⊎ ((decode (held [] header_stage d.core) (header_bytes h ++ rest)).0
              ≡ failed (connection_error protocol_error)))
unfolding decode
decode-ContinuesBlock d buf h rest open_block small stream allowed = (
  loop-Continues (enough_fuel buf) buf d d.core.continuations open_block refl,
  elim (Bool-cases (out_of_order (record d.core { header = h }))) [
    | inl foreign ↦ inr (ap (λ m. m.0) (refused h rest d.core small stream allowed foreign))
    | inr ordered ↦ inl (only_own h d.core open_block ordered)
  ],
)

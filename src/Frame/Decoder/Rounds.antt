-- ===== src/Frame/Decoder/Rounds.antt =====
-- One round of `decode`: what it leaves, and which saved bytes it may join.
use commonlibrary_rust_ylong.Common.{
  ℕ, zero, suc, ◌≤◌, ◌<◌, ◌≡◌, refl, sym, ap, ◌∙◌, ◌⊎◌, inl, inr, none, List, [], ◌∷◌, ◌++◌, false,
  Bool-cases, ◌==◌, ◌||◌, not, length, length-append, get_elem?, arith,
}
use commonlibrary_rust_ylong.H2.Fate.{Fate}
use commonlibrary_rust_ylong.Frame.Handlers.{
  Core, FrameKind, Act, priority_frame, ping_frame, goaway_frame, window_update_frame, reset_frame,
  settings_frame, data_frame, continuation_frame, headers_frame, push_promise_frame,
}
use commonlibrary_rust_ylong.Frame.Decoder.{
  FrameDecoder, Stage, header_stage, payload_stage, of_core, joined, on_connection, on_stream,
  decode_priority_payload, Handler, handlers, arm, decode_payload,
}

abbrev pub HasRoom : Stage → ℕ → ℕ → Type 0
HasRoom header_stage offset length = offset < 9
HasRoom payload_stage offset length = offset ≤ length

-- The offset counts the saved bytes, which are no more than the header or the payload has.
pub record IsTidy (d : FrameDecoder) : Type 0 where
  pub counted : d.offset ≡ length d.buffer
  pub room : HasRoom d.stage d.offset d.core.header.payload_length

abbrev pub held : List ℕ → Stage → Core → FrameDecoder
held b st c = record { buffer = b; offset = length b; stage = st; core = c }

pub IsTidy-held : (d : FrameDecoder) → IsTidy d → held d.buffer d.stage d.core ≡ d
IsTidy-held d t = ap (λ o. record d { offset = o }) (sym t.counted)

-- Two runs of a handler that differ in the saved bytes they leave only.
abbrev pub Agree : (m m' : Fate FrameKind × FrameDecoder) → Stage → Core → Type 0
Agree m m' st c =
    (b b' : List ℕ) × (r : Fate FrameKind × Core) × (m ≡ of_core (held b st c) r)
    × (m' ≡ of_core (held b' st c) r)

abbrev pub Each : (ℕ → Handler → Type 0) → List Handler → Type 0
Each P [] = Unit {0}
Each P (h ∷ l) = P 0 h × Each (λ i. P (suc i)) l

-- What holds of each arm holds of the one that is taken.
pub each-arm :
    (P : ℕ → Handler → Type 0) (l : List Handler)
    → ((i : ℕ) → P i (arm none))
    → Each P l
    → (t : ℕ) → P t (arm (get_elem? l t))
each-arm P [] other each t = other t
each-arm P (h ∷ l) other each zero = each.0
each-arm P (h ∷ l) other each (suc t) = each-arm (λ i. P (suc i)) l (λ i. other (suc i)) each.1 t

pub suc_nonzero : (n : ℕ) → (suc n == 0) ≡ false
suc_nonzero n = ground arith

held-joined :
    (f : List ℕ → Act FrameKind) (b buf : List ℕ) (st : Stage) (c : Core)
    → (b' : List ℕ) × (joined f buf (held b st c) ≡ of_core (held b' st c) (f (b ++ buf) c))
held-joined f [] buf st c = ([], refl)
held-joined f (x ∷ b) buf st c = (
  x ∷ b ++ buf,
  rw (suc_nonzero (length b)) (
      ap
        (λ o.
          of_core (record { buffer = x ∷ b ++ buf; offset = o; stage = st; core = c })
            (f (x ∷ b ++ buf) c))
        (sym (length-append (x ∷ b) buf))),
)

module _ (b buf b' buf' : List ℕ) (st : Stage) (c : Core) (same : b ++ buf ≡ b' ++ buf') where
  joined-Agree :
      (f : List ℕ → Act FrameKind)
      → Agree (joined f buf (held b st c)) (joined f buf' (held b' st c)) st c
  joined-Agree f =
      let (k, p) = held-joined f b buf st c in
      let (k', p') = held-joined f b' buf' st c in
      (k, k', f (b ++ buf) c, p, p' ∙ ap (λ bytes. of_core (held k' st c) (f bytes c)) (sym same))

  on_stream-Agree :
      (h : Handler)
      → Agree (h buf (held b st c)) (h buf' (held b' st c)) st c
      → Agree (on_stream h buf (held b st c)) (on_stream h buf' (held b' st c)) st c
  on_stream-Agree h a = elim (Bool-cases (c.header.stream_id == 0)) [
    | inl e ↦ rw e (b, b', (_, c), refl, refl)
    | inr e ↦ rw e a
  ]

  on_connection-Agree :
      (h : Handler)
      → Agree (h buf (held b st c)) (h buf' (held b' st c)) st c
      → Agree (on_connection h buf (held b st c)) (on_connection h buf' (held b' st c)) st c
  on_connection-Agree h a = elim (Bool-cases (c.header.stream_id == 0)) [
    | inl e ↦ rw e a
    | inr e ↦ rw e (b, b', (_, c), refl, refl)
  ]

  priority-Agree :
      length buf ≡ length buf'
      → Agree
          (decode_priority_payload buf (held b st c))
          (decode_priority_payload buf' (held b' st c))
          st
          c
  unfolding decode_priority_payload
  priority-Agree lengths =
      let test = λ (n : ℕ). not (c.header.payload_length == 5) || not (n == 5) in
      elim (Bool-cases (test (length buf))) [
        | inl e ↦ rw (e, sym (ap test lengths) ∙ e) (b, b', (_, c), refl, refl)
        | inr e ↦ rw (e, sym (ap test lengths) ∙ e) (joined-Agree priority_frame)
      ]

  none-Agree : Agree (arm none buf (held b st c)) (arm none buf' (held b' st c)) st c
  none-Agree = (b, b', (_, c), refl, refl)

  -- Whatever bytes are saved, if the same follow. PRIORITY needs the same saved, too.
  pub decode_payload-Agree :
      (t : ℕ)
      → ((t == 2) ≡ false) ⊎ (length buf ≡ length buf')
      → Agree (decode_payload t buf (held b st c)) (decode_payload t buf' (held b' st c)) st c
  unfolding decode_payload handlers
  decode_payload-Agree =
      each-arm
        (λ t h.
          ((t == 2) ≡ false) ⊎ (length buf ≡ length buf')
          → Agree (h buf (held b st c)) (h buf' (held b' st c)) st c)
        handlers (λ _ _. none-Agree)
        (
          λ _. on_stream-Agree (joined data_frame) (joined-Agree data_frame),
          (
            λ _. on_stream-Agree (joined headers_frame) (joined-Agree headers_frame),
            (
              λ p.
                  on_stream-Agree decode_priority_payload
                    (priority-Agree (elim p [ inl e ↦ absurd (ground (arith, e)) | inr e ↦ e ])),
              (
                λ _. on_stream-Agree (joined reset_frame) (joined-Agree reset_frame),
                (
                  λ _. on_connection-Agree (joined settings_frame) (joined-Agree settings_frame),
                  (
                    λ _.
                        on_stream-Agree (joined push_promise_frame)
                          (joined-Agree push_promise_frame),
                    (
                      λ _. on_connection-Agree (joined ping_frame) (joined-Agree ping_frame),
                      (
                        λ _. on_connection-Agree (joined goaway_frame) (joined-Agree goaway_frame),
                        (
                          λ _. joined-Agree window_update_frame,
                          (
                            λ _.
                                on_stream-Agree (joined continuation_frame)
                                  (joined-Agree continuation_frame),
                            tt,
                          ),
                        ),
                      ),
                    ),
                  ),
                ),
              ),
            ),
          ),
        )

-- ===== src/Frame/Encoder/Run/Whole.antt =====
-- A frame that fits the buffer is written as the wire format has it.
use commonlibrary_rust_ylong.Common.{
  ℕ, suc, ◌+◌, ◌*◌, ◌-◌, ◌<◌, ◌≡◌, refl, ap, ◌∙◌, inl, inr, none, some, List, [], ◌∷◌, ◌++◌, false,
  Bool-cases, ◌==◌, length, length-append, take, drop, arith,
}
use mathlib.Core.List.{append_assoc}
use commonlibrary_rust_ylong.Common.Result.{ok}
use commonlibrary_rust_ylong.Frame.Encoder.{FrameEncoder, Writer, state_number}
use commonlibrary_rust_ylong.Frame.Encoder.Run.{writer_of, behind, encode_loop, encode}

pub take_first : (l r : List ℕ) → take (length l) (l ++ r) ≡ l
take_first [] r = refl
take_first (x ∷ l) r = ap (λ t. x ∷ t) (take_first l r)

drop_first : (l r : List ℕ) → drop (length l) (l ++ r) ≡ r
drop_first [] r = refl
drop_first (x ∷ l) r = drop_first l r

nonempty : (l : List ℕ) → 0 < length l → (length l == 0) ≡ false
nonempty l h = ground arith

-- One round that changes the state.
pub encode_loop_round :
    (f : ℕ) (w : Writer) (e e' : FrameEncoder) (l tail buf : List ℕ)
    → 0 < length buf
    → writer_of e.state ≡ some w
    → w buf e ≡ (ok (length l, l ++ tail), e')
    → (state_number e'.state == state_number e.state) ≡ false
    → encode_loop (suc f) buf e ≡ behind (length l) (l ++ tail) (encode_loop f tail e')
unfolding encode_loop
encode_loop_round f w e e' l tail buf some_room arm wrote other =
    rw (nonempty buf some_room, arm) (rw wrote (rw (other, drop_first l tail) refl))

-- The loop breaks behind a frame.
pub encode_loop_complete :
    (f : ℕ) (e : FrameEncoder) (buf : List ℕ)
    → writer_of e.state ≡ none
    → encode_loop (suc f) buf e ≡ (ok (0, buf), e)
unfolding encode_loop
encode_loop_complete f e buf done = elim (Bool-cases (length buf == 0)) [
  | inl z ↦ rw z refl
  | inr z ↦ rw (z, done) refl
]

-- A header, a payload, and the end.
pub encode_two :
    (w w' : Writer) (e e1 e2 : FrameEncoder) (head body buf tail rest : List ℕ)
    → 0 < length buf
    → 0 < length tail
    → writer_of e.state ≡ some w
    → writer_of e1.state ≡ some w'
    → writer_of e2.state ≡ none
    → (state_number e1.state == state_number e.state) ≡ false
    → (state_number e2.state == state_number e1.state) ≡ false
    → w buf e ≡ (ok (length head, head ++ tail), e1)
    → w' tail e1 ≡ (ok (length body, body ++ rest), e2)
    → encode buf e ≡ (ok (length (head ++ body), head ++ body ++ rest), e2)
unfolding encode
encode_two w w' e e1 e2 head body buf tail rest room room' arm arm' done other other' wrote wrote' =
    let fuel : 2 * length buf + 2 ≡ suc (suc (suc (2 * length buf - 1))) = omega arith in
    let n : ℕ = 2 * length buf - 1 in
    let count : length head + (length body + 0) ≡ length (head ++ body) =
      omega (arith, length-append head body) in
    ap (λ k. encode_loop k buf e) fuel
    ∙ encode_loop_round (suc (suc n)) w e e1 head tail buf room arm wrote other
    ∙ ap (behind (length head) (head ++ tail)) (
        encode_loop_round (suc n) w' e1 e2 body rest tail room' arm' wrote' other'
        ∙ ap (behind (length body) (body ++ rest)) (encode_loop_complete n e2 rest done))
    ∙ rw (take_first head tail, take_first body rest, count, append_assoc head body rest) refl

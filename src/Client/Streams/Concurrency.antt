-- ===== src/Client/Streams/Concurrency.antt =====
-- How many waiting streams start.
use Prim.Native.Nat.{min}
use commonlibrary_rust_ylong.Common.{
  ℕ, zero, suc, ◌+◌, ◌-◌, ◌%◌, ◌^◌, ◌≤◌, ◌<◌, ◌≡◌, refl, sym, ◌∙◌, inl, inr, List, [], ◌∷◌, ◌++◌,
  Bool-cases, leb, length, take, drop, arith,
}
use mathlib.Core.List.{append_assoc, append-nil}
use commonlibrary_rust_ylong.Client.Streams.{
  Parameters, Streams, consume_loop, try_consume_pending_concurrency,
}

-- `n` streams from the front of the queue start.
abbrev pub started : {P : Parameters} → ℕ → List ℕ → Streams P → Streams P
started n pending s = record s {
  current_concurrent_streams = s.current_concurrent_streams + n;
  pending_concurrency = drop n pending;
  pending_send = s.pending_send ++ take n pending;
}

abbrev counts : {P : Parameters} → Streams P → ℕ → List ℕ → List ℕ → Streams P
counts s current pending sending = record s {
  current_concurrent_streams = current;
  pending_concurrency = pending;
  pending_send = sending;
}

counts_equal :
    {P : Parameters} (s : Streams P) {c d : ℕ} {p q t u : List ℕ}
    → c ≡ d
    → p ≡ q
    → t ≡ u
    → counts s c p t ≡ counts s d q u
counts_equal s e f g = λ i. counts s (e i) (f i) (g i)

none_started :
    {P : Parameters} (s : Streams P) (n : ℕ) (pending : List ℕ)
    → n ≡ 0
    → record s { pending_concurrency = pending } ≡ started n pending s
none_started s n pending e =
    rw e (counts_equal s (omega arith) refl (sym (append-nil s.pending_send)))

one_started :
    {P : Parameters} (s : Streams P) (n m id : ℕ) (pending : List ℕ)
    → n ≡ suc m
    → started m pending (record s {
      current_concurrent_streams = s.current_concurrent_streams + 1;
      pending_send = s.pending_send ++ id ∷ [];
    })
      ≡ started n (id ∷ pending) s
one_started s n m id pending e =
    rw e
      (counts_equal s (omega arith) refl (append_assoc s.pending_send (id ∷ []) (take m pending)))

consume_loop_lem :
    {P : Parameters} (fuel : ℕ) (pending : List ℕ) (s : Streams P)
    → length pending ≤ fuel
    → s.max_concurrent_streams < 2 ^ 32
    → consume_loop fuel pending s
      ≡ started
          (min (s.max_concurrent_streams - s.current_concurrent_streams) (length pending))
          pending
          s
unfolding consume_loop
consume_loop_lem zero [] s h b = none_started s _ [] (omega arith)
consume_loop_lem zero (id ∷ pending) s h b = absurd (omega arith)
consume_loop_lem (suc fuel) [] s h b = none_started s _ [] (omega arith)
consume_loop_lem {P} (suc fuel) (id ∷ pending) s h b =
    elim (Bool-cases (leb s.max_concurrent_streams s.current_concurrent_streams)) [
      | inl full ↦ rw full (none_started s _ (id ∷ pending) (ground arith))
      | inr room ↦
          let below : s.current_concurrent_streams < s.max_concurrent_streams = ground arith in
          let kept : (s.current_concurrent_streams + 1) % 2 ^ 32
              ≡ s.current_concurrent_streams + 1 =
            omega arith in
          let next : Streams P = record s {
            current_concurrent_streams = s.current_concurrent_streams + 1;
            pending_send = s.pending_send ++ id ∷ [];
          } in
          rw (room, kept)
            (consume_loop_lem fuel pending next (omega arith) b
              ∙ one_started s _ _ id pending (omega arith))
    ]

-- As many streams start as the limit leaves room for and as are waiting, whichever is less: they leave
-- the front of the waiting queue for the end of the sending queue, in order, and are counted.
pub try_consume_pending_concurrency_lem :
    {P : Parameters} (s : Streams P)
    → s.max_concurrent_streams < 2 ^ 32
    → try_consume_pending_concurrency s
      ≡ started
          (min
            (s.max_concurrent_streams - s.current_concurrent_streams)
            (length s.pending_concurrency))
          s.pending_concurrency
          s
unfolding try_consume_pending_concurrency
try_consume_pending_concurrency_lem s b =
    consume_loop_lem (length s.pending_concurrency) s.pending_concurrency s (omega arith) b

-- ===== src/Frame/Decoder/Lasts.antt =====
-- Whatever the frame type, reading a payload ends and keeps HPACK in order.
use commonlibrary_rust_ylong.Common.{ℕ, inl, inr, List, Bool-cases, ◌==◌, ◌||◌, not, length}
use commonlibrary_rust_ylong.H2.Fate.{Fate, returned, failed, panicked, out_of_fuel}
use commonlibrary_rust_ylong.Hpack.Table.Dynamic.Eviction.{IsValid}
use commonlibrary_rust_ylong.Frame.Handlers.{
  Core, FrameKind, Act, ping_frame, priority_frame, goaway_frame, window_update_frame, reset_frame,
  settings_frame, data_frame, continuation_frame, headers_frame, push_promise_frame,
}
use commonlibrary_rust_ylong.Frame.Handlers.Ends
use commonlibrary_rust_ylong.Frame.Handlers.Ends.{HasGoodHpack}
use commonlibrary_rust_ylong.Frame.Decoder.{
  FrameDecoder, of_core, save, joined, on_connection, on_stream, decode_priority_payload, Handler,
  handlers, decode_payload,
}
use commonlibrary_rust_ylong.Frame.Decoder.Rounds.{each-arm}

abbrev pub Lasts : {A : Type 0} → Fate A × FrameDecoder → Type 0
Lasts (returned a, d) = HasGoodHpack d.core
Lasts (failed e, d) = IsValid d.core.hpack.core.table
Lasts (panicked, d) = IsValid d.core.hpack.core.table
Lasts (out_of_fuel, d) = ⊥

module _ (buf : List ℕ) (d : FrameDecoder) (g : HasGoodHpack d.core) where
  of_core-Lasts :
      {A : Type 0} (d' : FrameDecoder) (m : Fate A × Core) → Ends.Ends m → Lasts (of_core d' m)
  of_core-Lasts d' (returned a, c) e = e
  of_core-Lasts d' (failed _, c) e = e
  of_core-Lasts d' (panicked, c) e = e
  of_core-Lasts d' (out_of_fuel, c) e = e

  joined-Lasts :
      (f : List ℕ → Act FrameKind)
      → ((bytes : List ℕ) (c : Core) → HasGoodHpack c → Ends.Ends (f bytes c))
      → Lasts (joined f buf d)
  joined-Lasts f e = elim (Bool-cases (d.offset == 0)) [
    | inl z ↦ rw z (of_core-Lasts d (f buf d.core) (e buf d.core g))
    | inr z ↦
        rw z (
          of_core-Lasts (save buf d) (f (save buf d).buffer d.core)
            (e (save buf d).buffer d.core g))
  ]

  on_stream-Lasts : (h : Handler) → Lasts (h buf d) → Lasts (on_stream h buf d)
  on_stream-Lasts h l = elim (Bool-cases (d.core.header.stream_id == 0)) [
    | inl z ↦ rw z g.table
    | inr z ↦ rw z l
  ]

  on_connection-Lasts : (h : Handler) → Lasts (h buf d) → Lasts (on_connection h buf d)
  on_connection-Lasts h l = elim (Bool-cases (d.core.header.stream_id == 0)) [
    | inl z ↦ rw z l
    | inr z ↦ rw z g.table
  ]

  stream_joined-Lasts :
      (f : List ℕ → Act FrameKind)
      → ((bytes : List ℕ) (c : Core) → HasGoodHpack c → Ends.Ends (f bytes c))
      → Lasts (on_stream (joined f) buf d)
  stream_joined-Lasts f e = on_stream-Lasts (joined f) (joined-Lasts f e)

  connection_joined-Lasts :
      (f : List ℕ → Act FrameKind)
      → ((bytes : List ℕ) (c : Core) → HasGoodHpack c → Ends.Ends (f bytes c))
      → Lasts (on_connection (joined f) buf d)
  connection_joined-Lasts f e = on_connection-Lasts (joined f) (joined-Lasts f e)

  priority-Lasts : Lasts (decode_priority_payload buf d)
  unfolding decode_priority_payload
  priority-Lasts =
      elim (Bool-cases (not (d.core.header.payload_length == 5) || not (length buf == 5))) [
        | inl z ↦ rw z g.table
        | inr z ↦ rw z (joined-Lasts priority_frame Ends.priority_frame-Ends)
      ]

  pub decode_payload-Lasts : (t : ℕ) → Lasts (decode_payload t buf d)
  unfolding decode_payload handlers
  decode_payload-Lasts =
      each-arm (λ t h. Lasts (h buf d)) handlers (λ _. g.table)
        (
          stream_joined-Lasts data_frame Ends.data_frame-Ends,
          (
            stream_joined-Lasts headers_frame Ends.headers_frame-Ends,
            (
              on_stream-Lasts decode_priority_payload priority-Lasts,
              (
                stream_joined-Lasts reset_frame Ends.reset_frame-Ends,
                (
                  connection_joined-Lasts settings_frame Ends.settings_frame-Ends,
                  (
                    stream_joined-Lasts push_promise_frame Ends.push_promise_frame-Ends,
                    (
                      connection_joined-Lasts ping_frame Ends.ping_frame-Ends,
                      (
                        connection_joined-Lasts goaway_frame Ends.goaway_frame-Ends,
                        (
                          joined-Lasts window_update_frame Ends.window_update_frame-Ends,
                          (stream_joined-Lasts continuation_frame Ends.continuation_frame-Ends, tt),
                        ),
                      ),
                    ),
                  ),
                ),
              ),
            ),
          ),
        )

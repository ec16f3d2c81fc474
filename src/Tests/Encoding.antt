-- ===== src/Tests/Encoding.antt =====
-- Concrete input for the frame encoder.
use commonlibrary_rust_ylong.Common.{ℕ, zero, suc, refl, inl, false, List, [], ◌∷◌, arith}
use commonlibrary_rust_ylong.Frame.{Frame, enable_push, settings}
use commonlibrary_rust_ylong.Frame.Format.{payload_bytes, settings_bytes, setting_bytes, IsPlain}
use commonlibrary_rust_ylong.Frame.Handlers.{no_continuations}
use commonlibrary_rust_ylong.Frame.Decoder
use commonlibrary_rust_ylong.Frame.Encoder
use commonlibrary_rust_ylong.Frame.Encoder.{FrameEncoder, set_frame}
use commonlibrary_rust_ylong.Frame.Encoder.Run.{encode}
use commonlibrary_rust_ylong.Frame.Encoder.Run.Plain.{Wrote}
use commonlibrary_rust_ylong.Frame.Encoder.Run.Encoded.{encode-Wrote}
use commonlibrary_rust_ylong.Frame.Encoder.Run.Large.{
  WroteBytes, large_frame, large_bytes, encode_large_data,
}
use commonlibrary_rust_ylong.Frame.RoundTrip.{IsReadBack, encode-IsReadBack}

abbrev zeros : ℕ → List ℕ
zeros zero = []
zeros (suc n) = 0 ∷ zeros n

abbrev no_push : Frame
no_push = record { id = 0; flags = 0; payload = settings (enable_push false ∷ []) }

no_push-IsPlain : IsPlain no_push
unfolding payload_bytes settings_bytes setting_bytes
no_push-IsPlain = record {
  stream = omega arith;
  length = omega arith;
  carries = (refl, inl refl, (omega arith, tt));
}

abbrev encoder : FrameEncoder
unfolding Encoder.new
encoder = Encoder.new 16384

encode-Wrote_example : Wrote no_push (encode (zeros 16) (set_frame no_push encoder))
unfolding encoder Encoder.new payload_bytes settings_bytes setting_bytes
encode-Wrote_example =
    encode-Wrote no_push encoder (zeros 16) no_push-IsPlain (omega arith) (omega arith)

encode-IsReadBack_example :
    IsReadBack Decoder.new.core no_push (encode (zeros 16) (set_frame no_push encoder))
unfolding encoder Encoder.new Decoder.new no_continuations payload_bytes settings_bytes
    setting_bytes
encode-IsReadBack_example =
    encode-IsReadBack no_push encoder (zeros 16) Decoder.new.core no_push-IsPlain (omega arith)
      (omega arith) (omega arith) refl

-- A frame size of two bytes, and three bytes of data.
abbrev small_encoder : FrameEncoder
unfolding Encoder.new
small_encoder = Encoder.new 2

abbrev three : List ℕ
three = 97 ∷ 98 ∷ 99 ∷ []

encode_large_data_example :
    WroteBytes
      (large_bytes 1 1 three small_encoder)
      (encode (zeros 30) (set_frame (large_frame 1 1 three small_encoder) small_encoder))
unfolding small_encoder Encoder.new
encode_large_data_example =
    encode_large_data 1 1 three small_encoder (zeros 30) (omega arith) (omega arith) (omega arith)

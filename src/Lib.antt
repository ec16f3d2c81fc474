-- ===== src/Lib.antt =====
-- A model of ylong_http and ylong_http_client, a Rust library for HTTP clients, with its theorems.
--
-- Three parts of its HTTP/2 are modelled, and a few types of messages. The first is what becomes of a header block: HPACK (RFC 7541) takes
-- the bytes of HEADERS and CONTINUATION frames, in buffers cut anywhere, and gives header lines.
--   ylong_http/src/h2/hpack/decoder.rs is Hpack/Decoder: `HpackDecoder::decode` is `decode`, a loop over
--     representations (`decode_loop`), each of which `Updater::update` applies to the dynamic table and
--     the header lines. A call's end is a `Fate`: returned, failed with an H2Error, or panicked at an
--     `unwrap`. The state that a call changes is the record Updater, passed on explicitly.
--   ylong_http/src/h2/hpack/representation/decoder.rs is Hpack/Repr/Decoder: a state machine that stops
--     where a buffer ends (`need_more`) and goes on from the saved state. The prefixes of
--     representation/mod.rs are Hpack/Repr/Prefix.
--   ylong_http/src/h2/hpack/integer.rs is Hpack/Integer, the decoder and the encoder of prefixed integers;
--     the loop `Integer::encode` of representation/encoder.rs, which drives that encoder, is `encode`.
--   ylong_http/src/h2/hpack/table.rs is Hpack/Table: Header (the fields), Static and StaticIndex (the
--     static table and its inverse), Dynamic (the dynamic table and TableSearcher).
--   ylong_http/src/huffman is Huffman, with the decoder's table of 256 states in Huffman/Table.
--   ylong_http/src/headers.rs is Headers, with the table of name characters in Headers/Chars.
--     Headers/Names describes names in the words of RFC 9110, and Headers/Laws is about the map.
--   ylong_http/src/h2/error.rs is H2/Error; h2/parts.rs and pseudo.rs are H2/Parts.
-- The second is the decoder of frames, which gives the fragments of header blocks to HPACK.
--   ylong_http/src/h2/frame.rs is Frame, the frames with their flags and settings.
--   ylong_http/src/h2/decoder.rs is Frame/Decoder: `FrameDecoder::decode` is `decode`, a loop of rounds that
--     read a header or a payload. The record FrameDecoder has the saved bytes and the stage, and its
--     Core what the handlers of the frame types in Frame/Handlers use, HPACK's decoder among it.
--     Frame/Numbers has the numbers in frames, and Frame/Format the wire format of RFC 9113, in numbers of
--     its own: it takes the types of frames and headers from the model, and no number of a code or an id.
--   ylong_http/src/h2/encoder.rs is Frame/Encoder, but for HEADERS: Control has the writers of a header and
--     a payload for each frame, and Run those of DATA and `FrameEncoder::encode` as `encode`. A call
--     takes the buffer as a list and gives it back with the number of bytes written. Frame/RoundTrip
--     puts the encoder and the decoder together.
-- The third is what the client keeps of its streams, in ylong_http_client/src/util/h2.
--   streams.rs is Client/Streams: the states of a stream, the four handlers of HEADERS and DATA frames, the
--     two resets, and the queue of streams that wait for others to end. The arms of a handler are a
--     function from a stream's state to a Change, and `apply_change` is what each arm does. The frames
--     and bodies that a stream holds, with the operation `clear`, are Parameters. Client/Streams/Lifecycle
--     has the states of RFC 9113 as a step relation, Client/Streams/Exchange one request with its
--     response, Client/Streams/Reset the resets, and Client/Streams/Concurrency the waiting streams.
--   buffer/window.rs is Client/Window, with the integers and the wrap-around of Common/Int.
-- Apart from HTTP/2, Message has what every version's messages use: ylong_http/src/response/status.rs is
-- Message/Status, with the reasons in Message/Status/Reason, request/method.rs is Message/Method, and
-- version.rs is Message/Version. `InvalidInput` is the one error of these, as of headers.rs.
-- Common holds what these share. Tests holds concrete inputs, some from the examples of RFC 7541.
--
-- Texts and buffers are lists of bytes, and bytes and machine integers are natural numbers. `usize` has
-- 64 bits; the checked operations of integer.rs are in Common/Result. The sums of text lengths in table.rs
-- and decoder.rs are not checked by the code and stay below 2 ^ 64 for texts that fit the memory.
-- A hash map is the list of its entries, the order of which no modelled operation shows.
--
-- An `i32` and a `u32` of the client wrap around, as in a build without overflow checks.
--
-- Five loops run on fuel. HPACK's `decode_loop` gets two rounds more than the buffer has bytes: each round
-- takes a byte but the first one, which may finish a saved state without one. The `decode_loop` of frames
-- gets three more than twice the bytes: a header takes a byte or more, and a payload may take none.
-- `fit_loop` gets as many rounds as the queue has entries, since each round takes one out, and so does
-- `consume_loop`. `encode_loop` of the frame encoder gets two more than twice the bytes of the buffer,
-- which is shown to be enough for what is stated. In a sixth loop, `encode` of Hpack/Integer, the count is
-- the room in the destination, which is the source's own bound.
--
-- Not modelled: the HPACK encoder but for its integers, Huffman encoding, HEADERS in the frame encoder,
-- HTTP/1, bodies, MIME, URIs, HTTP/3, and the rest of the client, which is mostly asynchronous input and
-- output. The iterators and text forms of headers.rs are left out, the getters of pseudo.rs, and the text
-- form of a status code. Of streams.rs the initial window sizes, GOAWAY and the queues for flow control are
-- left out.
pub mod Common
pub mod H2
pub mod Huffman
pub mod Headers
pub mod Hpack
pub mod Frame
pub mod Message
pub mod Client
pub mod Tests

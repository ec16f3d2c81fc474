-- ===== src/Frame/Encoder/Run/Filled.antt =====
-- What the loops of the encoder leave in the buffer.
use commonlibrary_rust_ylong.Common.{
  ℕ, suc, ◌+◌, ◌*◌, ◌-◌, ◌/◌, ◌%◌, ◌^◌, ◌≤◌, ◌<◌, ◌≡◌, refl, ap, ◌∙◌, some, List, [], ◌∷◌, ◌++◌,
  Bool, true, false, ltb, length, drop, get_elem?, arith,
}
use commonlibrary_rust_ylong.Common.Result.{Result, ok}
use commonlibrary_rust_ylong.Frame.{
  Setting, header_table_size, enable_push, max_concurrent_streams, initial_window_size,
  max_frame_size, max_header_list_size, Frame,
}
use commonlibrary_rust_ylong.Frame.Numbers.Bytes.{byte_at}
use commonlibrary_rust_ylong.Frame.Handlers.{FrameHeader}
use commonlibrary_rust_ylong.Frame.Format.{
  header_bytes, setting_code, setting_value, setting_bytes, settings_bytes, four_bytes,
  exclusive_bit,
}
use commonlibrary_rust_ylong.Frame.Encoder.{Failure, fill, header_byte}
use commonlibrary_rust_ylong.Frame.Encoder.Control.{
  goaway_byte, priority_byte, rst_stream_byte, of_bool, id_and_value, setting_byte, settings_byte,
  connection_header, each_index, set_byte,
}

-- From the index `i` on, the bytes are those of the list.
abbrev pub Gives : (ℕ → Result ℕ Failure) → ℕ → List ℕ → Type 0
Gives byte i [] = Unit {0}
Gives byte i (x ∷ l) = (byte i ≡ ok x) × Gives byte (suc i) l

pub fill-Gives :
    (byte : ℕ → Result ℕ Failure) (i : ℕ) (l buf : List ℕ)
    → Gives byte i l
    → length l ≤ length buf
    → fill (length l) i byte buf ≡ ok (l ++ drop (length l) buf)
unfolding fill
fill-Gives byte i [] buf g h = refl
fill-Gives byte i (x ∷ l) [] g h = absurd (omega arith)
fill-Gives byte i (x ∷ l) (b ∷ buf) (g, gs) h =
    rw (g, fill-Gives byte (suc i) l buf gs (omega arith)) refl

pub header_byte-Gives : (h : FrameHeader) → Gives (header_byte h) 0 (header_bytes h)
unfolding header_byte
header_byte-Gives h = (refl, (refl, (refl, (refl, (refl, (refl, (refl, (refl, (refl, tt)))))))))

pub rst_stream_byte-Gives :
    (frame : Frame)
    → Gives (rst_stream_byte frame 0) 0 (
        header_bytes (record {
          stream_id = frame.id;
          flags = frame.flags;
          frame_type = 3;
          payload_length = 4;
        }))
unfolding rst_stream_byte
rst_stream_byte-Gives frame =
    (refl, (refl, (refl, (refl, (refl, (refl, (refl, (refl, (refl, tt)))))))))

pub four-Gives : (v : ℕ) → Gives (λ i. ok (byte_at (24 - 8 * i) v)) 0 (four_bytes v)
four-Gives v = (refl, (refl, (refl, (refl, tt))))

shifted : (exclusive : Bool) → of_bool exclusive * 2 ^ 7 ≡ exclusive_bit exclusive
shifted true = refl
shifted false = refl

pub priority-Gives :
    (exclusive : _) (dependency weight : ℕ)
    → dependency < 2 ^ 31
    → Gives (priority_byte exclusive dependency weight) 0 (
        (exclusive_bit exclusive + byte_at 24 dependency)
        ∷ byte_at 16 dependency
        ∷ byte_at 8 dependency
        ∷ byte_at 0 dependency
        ∷ weight
        ∷ [])
unfolding priority_byte
priority-Gives exclusive dependency weight small =
    let bit : of_bool exclusive * 2 ^ 7 ≡ exclusive_bit exclusive = shifted exclusive in
    let top : byte_at 24 dependency % 128 ≡ byte_at 24 dependency = omega arith in
    (rw (bit, top) refl, (refl, (refl, (refl, (refl, tt)))))

-- The bytes of a list, from the index where it begins.
pub elements-Gives :
    (byte : ℕ → Result ℕ Failure) (l : List ℕ) (start : ℕ)
    → ((j : ℕ) (x : ℕ) → get_elem? l j ≡ some x → byte (start + j) ≡ ok x)
    → Gives byte start l
elements-Gives byte [] start h = tt
elements-Gives byte (x ∷ l) start h = (
  ap byte (omega arith) ∙ h 0 x refl,
  elements-Gives byte l (suc start)
      (λ j y e. let at : suc start + j ≡ start + suc j = omega arith in ap byte at ∙ h (suc j) y e),
)

pub goaway-Gives :
    (code last : ℕ) (debug : List ℕ)
    → Gives (goaway_byte code last debug) 0 (four_bytes last ++ four_bytes code ++ debug)
unfolding goaway_byte
goaway-Gives code last debug = (
  refl,
  (
    refl,
    (
      refl,
      (
        refl,
        (
          refl,
          (refl, (refl, (refl, elements-Gives (goaway_byte code last debug) debug 8 debug_byte))),
        ),
      ),
    ),
  ),
)
  where
    debug_byte : (j x : ℕ) → get_elem? debug j ≡ some x → goaway_byte code last debug (8 + j) ≡ ok x
    debug_byte j x e =
        let first : ltb (8 + j) 4 ≡ false = ground arith in
        let second : ltb (8 + j) 8 ≡ false = ground arith in
        let at : 8 + j - 8 ≡ j = omega arith in rw (first, second, at, e) refl

shift-Gives :
    (f g : ℕ → Result ℕ Failure) (i : ℕ) (l : List ℕ)
    → ((j : ℕ) → g (6 + j) ≡ f j)
    → Gives f i l
    → Gives g (6 + i) l
shift-Gives f g i [] same h = tt
shift-Gives f g i (x ∷ l) same (h, hs) =
    let at : suc (6 + i) ≡ 6 + suc i = omega arith in
    (same i ∙ h, rw at (shift-Gives f g (suc i) l same hs))

-- The encoder's numbers are those of the format.
identifier_bytes :
    (s : Setting)
    → (byte_at 8 (id_and_value s).0 ≡ 0) × (byte_at 0 (id_and_value s).0 ≡ setting_code s)
unfolding id_and_value setting_code
identifier_bytes (header_table_size v) = (refl, refl)
identifier_bytes _ = (refl, refl)

value_lem : (s : Setting) → (id_and_value s).1 ≡ setting_value s
unfolding id_and_value
value_lem (enable_push true) = refl
value_lem (enable_push false) = refl
value_lem (header_table_size v) = refl
value_lem (max_concurrent_streams v) = refl
value_lem (initial_window_size v) = refl
value_lem (max_frame_size v) = refl
value_lem (max_header_list_size v) = refl

value_byte :
    (s : Setting) (k : ℕ)
    → ◌≡◌ {A = Result ℕ Failure}
        (ok (byte_at k (id_and_value s).1))
        (ok (byte_at k (setting_value s)))
value_byte s k = ap (λ v. ok (byte_at k v)) (value_lem s)

next_setting :
    (s : Setting) (l : List Setting) (j : ℕ) → settings_byte (s ∷ l) (6 + j) ≡ settings_byte l j
unfolding settings_byte
next_setting s l j =
    let quotient : (6 + j) / 6 ≡ suc (j / 6) = omega arith in
    let remainder : (6 + j) % 6 ≡ j % 6 = omega arith in
    ap (λ q. setting_byte (get_elem? (s ∷ l) q) ((6 + j) % 6)) quotient
    ∙ ap (λ r. setting_byte (get_elem? l (j / 6)) r) remainder

pub settings-Gives : (l : List Setting) → Gives (settings_byte l) 0 (settings_bytes l)
unfolding settings_byte setting_byte settings_bytes setting_bytes
settings-Gives [] = tt
settings-Gives (s ∷ l) =
    let (high, low) = identifier_bytes s in
    let next =
      shift-Gives (settings_byte l) (settings_byte (s ∷ l)) 0 (settings_bytes l) (next_setting s l)
        (settings-Gives l) in
    (
      ap ok high,
      (ap ok low, (value_byte s 24, (value_byte s 16, (value_byte s 8, (value_byte s 0, next))))),
    )

-- The index loop of SETTINGS and PING, on a header that starts with the buffer.
pub connection_header-bytes :
    (len frame_type flags : ℕ) (buf : List ℕ)
    → 9 ≤ length buf
    → each_index 9 0 (connection_header len frame_type flags 0) buf
      ≡ ok (
          header_bytes
            (record { stream_id = 0; flags = flags; frame_type = frame_type; payload_length = len })
          ++ drop 9 buf)
unfolding each_index connection_header set_byte
connection_header-bytes len t f (b0 ∷ b1 ∷ b2 ∷ b3 ∷ b4 ∷ b5 ∷ b6 ∷ b7 ∷ b8 ∷ rest) h = refl
connection_header-bytes len t f [] h = absurd (omega arith)
connection_header-bytes len t f (b0 ∷ []) h = absurd (omega arith)
connection_header-bytes len t f (b0 ∷ b1 ∷ []) h = absurd (omega arith)
connection_header-bytes len t f (b0 ∷ b1 ∷ b2 ∷ []) h = absurd (omega arith)
connection_header-bytes len t f (b0 ∷ b1 ∷ b2 ∷ b3 ∷ []) h = absurd (omega arith)
connection_header-bytes len t f (b0 ∷ b1 ∷ b2 ∷ b3 ∷ b4 ∷ []) h = absurd (omega arith)
connection_header-bytes len t f (b0 ∷ b1 ∷ b2 ∷ b3 ∷ b4 ∷ b5 ∷ []) h = absurd (omega arith)
connection_header-bytes len t f (b0 ∷ b1 ∷ b2 ∷ b3 ∷ b4 ∷ b5 ∷ b6 ∷ []) h = absurd (omega arith)
connection_header-bytes len t f (b0 ∷ b1 ∷ b2 ∷ b3 ∷ b4 ∷ b5 ∷ b6 ∷ b7 ∷ []) h =
    absurd (omega arith)

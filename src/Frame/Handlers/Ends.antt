-- ===== src/Frame/Handlers/Ends.antt =====
-- Reading a payload ends, and keeps HPACK's table valid and the header list within its limit.
use commonlibrary_rust_ylong.Common.{
  ℕ, Option, none, some, inl, inr, List, [], ◌∷◌, Bool-cases, leb, ltb, ◌==◌, ◌||◌, not,
  if◌then◌else◌, length, get_elem?, drop, ◌%◌, ◌+◌, ◌*◌, ◌^◌, arith,
}
use commonlibrary_rust_ylong.Common.Result.{Result, ok, err}
use commonlibrary_rust_ylong.H2.Error.{H2Error}
use Prim.Native.Nat.{bit_or}
use commonlibrary_rust_ylong.Frame.Numbers.{get_code_value, get_setting}
use commonlibrary_rust_ylong.H2.Fate.{Fate, returned, failed, panicked, out_of_fuel, continue}
use commonlibrary_rust_ylong.Hpack.Decoder
use commonlibrary_rust_ylong.Hpack.Decoder.{Updater, HpackDecoder, finish}
use commonlibrary_rust_ylong.Hpack.Repr.Decoder.{ReprDecodeState}
use commonlibrary_rust_ylong.Hpack.Decoder.Total.{IsGood, LeavesDecoder, decode-ends}
use commonlibrary_rust_ylong.Hpack.Table.Dynamic.Eviction.{IsValid}
use commonlibrary_rust_ylong.Frame.{
  Setting, end_headers_mask, padded_mask, headers_priority_mask, ack_mask, has_flag,
}
use commonlibrary_rust_ylong.Frame.Handlers.{
  Core, Act, pure, push_setting, or_panic, or_fail, of_hpack, hpack_decode, hpack_finish, slice,
  complete_frame, padded_bounds, ping_frame, priority_payload, priority_frame, goaway_payload,
  goaway_frame, stream_id_of, code_value_of, window_update_frame, reset_frame, decode_settings,
  settings_frame, data_frame, continuation_frame, headers_open, headers_fragment, headers_frame,
  promise_open, push_promise_framing, push_promise_frame,
}

abbrev pub HasGoodHpack : Core → Type 0
HasGoodHpack c = IsGood c.hpack.core

-- An action that ends: where it returns HPACK is good, and where it does not the table is valid.
abbrev pub Ends : {A : Type 0} → Fate A × Core → Type 0
Ends (returned a, c) = HasGoodHpack c
Ends (failed e, c) = IsValid c.hpack.core.table
Ends (panicked, c) = IsValid c.hpack.core.table
Ends (out_of_fuel, c) = ⊥

continue-Ends :
    {A B : Type 0} (m : Fate A × Core) (f : A → Act B)
    → Ends m
    → ((a : A) (c : Core) → HasGoodHpack c → Ends (f a c))
    → Ends (continue m f)
continue-Ends (returned a, c) f h k = k a c h
continue-Ends (failed e, c) f h k = h
continue-Ends (panicked, c) f h k = h
continue-Ends (out_of_fuel, c) f h k = h

pure-Ends : {A : Type 0} (a : A) (c : Core) → HasGoodHpack c → Ends (pure a c)
pure-Ends a c g = g

or_panic-Ends : {A : Type 0} (o : Option A) (c : Core) → HasGoodHpack c → Ends (or_panic o c)
or_panic-Ends none c g = g.table
or_panic-Ends (some a) c g = g

or_fail-Ends : {A : Type 0} (r : Result A H2Error) (c : Core) → HasGoodHpack c → Ends (or_fail r c)
or_fail-Ends (ok a) c g = g
or_fail-Ends (err e) c g = g.table

hpack_decode-Ends : (buf : List ℕ) (c : Core) → HasGoodHpack c → Ends (hpack_decode buf c)
hpack_decode-Ends buf c g = go (Decoder.decode c.hpack buf) (decode-ends c.hpack buf g)
  where
    go : (m : Fate (Unit {0}) × HpackDecoder) → LeavesDecoder m → Ends (of_hpack c m)
    go (returned _, h) l = l
    go (failed e, h) l = l.0
    go (panicked, h) l = l.0
    go (out_of_fuel, h) l = l

finish-Ends :
    (c : Core) (u : Updater) (o : Option ReprDecodeState)
    → IsGood u
    → Ends (of_hpack c (finish (record { core = u; holder = o })))
unfolding finish
finish-Ends c u none g = record { table = g.table; size = omega arith }
finish-Ends c u (some s) g = g.table

hpack_finish-Ends : (c : Core) → HasGoodHpack c → Ends (hpack_finish c)
hpack_finish-Ends c g = finish-Ends c c.hpack.core c.hpack.holder g

bounds-Ends :
    (first : ℕ) (buf : List ℕ) (c : Core) → HasGoodHpack c → Ends (padded_bounds first buf c)
unfolding padded_bounds
bounds-Ends first buf c g = elim (Bool-cases (has_flag padded_mask c.header.flags)) [
  | inl padded ↦ rw padded (
      continue-Ends (or_panic (get_elem? buf 0) c) _ (or_panic-Ends (get_elem? buf 0) c g)
        λ p c' g'. elim (Bool-cases (leb c'.header.payload_length p)) [
          | inl over ↦ rw over g'.table
          | inr fits ↦ rw fits g'
        ])
  | inr plain ↦ rw plain g
]

pub ping_frame-Ends : (buf : List ℕ) (c : Core) → HasGoodHpack c → Ends (ping_frame buf c)
unfolding ping_frame complete_frame
ping_frame-Ends buf c g =
    elim (Bool-cases (not (c.header.payload_length == 8) || not (length buf == 8))) [
      | inl e ↦ rw e g.table
      | inr e ↦ rw e g
    ]

pub priority_frame-Ends : (buf : List ℕ) (c : Core) → HasGoodHpack c → Ends (priority_frame buf c)
unfolding priority_frame complete_frame
priority_frame-Ends buf c g =
    continue-Ends (or_panic (priority_payload buf) c) _ (or_panic-Ends (priority_payload buf) c g)
      (λ p c' g'. g')

pub goaway_frame-Ends : (buf : List ℕ) (c : Core) → HasGoodHpack c → Ends (goaway_frame buf c)
unfolding goaway_frame complete_frame
goaway_frame-Ends buf c g =
    elim (Bool-cases (ltb c.header.payload_length 8 || ltb (length buf) 8)) [
      | inl e ↦ rw e g.table
      | inr e ↦ rw e (
          continue-Ends (or_panic (goaway_payload buf) c) _ (or_panic-Ends (goaway_payload buf) c g)
            (λ p c' g'. g'))
    ]

pub window_update_frame-Ends :
    (buf : List ℕ) (c : Core) → HasGoodHpack c → Ends (window_update_frame buf c)
unfolding window_update_frame complete_frame
window_update_frame-Ends buf c g =
    elim (Bool-cases (not (c.header.payload_length == 4) || not (length buf == 4))) [
      | inl e ↦ rw e g.table
      | inr e ↦ rw e (
          continue-Ends (or_panic (stream_id_of buf) c) _ (or_panic-Ends (stream_id_of buf) c g)
            λ n c' g'. elim (Bool-cases (n == 0)) [ inl z ↦ rw z g'.table | inr z ↦ rw z g' ])
    ]

pub reset_frame-Ends : (buf : List ℕ) (c : Core) → HasGoodHpack c → Ends (reset_frame buf c)
unfolding reset_frame complete_frame
reset_frame-Ends buf c g =
    elim (Bool-cases (not (c.header.payload_length == 4) || not (length buf == 4))) [
      | inl e ↦ rw e g.table
      | inr e ↦ rw e (
          continue-Ends (or_panic (code_value_of buf) c) _ (or_panic-Ends (code_value_of buf) c g)
            (λ n c' g'. g'))
    ]

decode_settings-Ends : (buf : List ℕ) (c : Core) → HasGoodHpack c → Ends (decode_settings buf c)
unfolding decode_settings
decode_settings-Ends [] c g = g
decode_settings-Ends (x1 ∷ x2 ∷ x3 ∷ x4 ∷ x5 ∷ x6 ∷ rest) c g =
    let r : Result (Option Setting) H2Error =
      get_setting (bit_or (x1 * 2 ^ 8) x2) (get_code_value x3 x4 x5 x6) in
    continue-Ends (or_fail r c) _ (or_fail-Ends r c g) λ s c1 g1.
      continue-Ends (decode_settings rest c1) _ (decode_settings-Ends rest c1 g1)
        (λ l. pure-Ends (push_setting s l))
decode_settings-Ends _ c g = g.table

pub settings_frame-Ends : (buf : List ℕ) (c : Core) → HasGoodHpack c → Ends (settings_frame buf c)
unfolding settings_frame complete_frame
settings_frame-Ends buf c g = elim (Bool-cases (c.header.payload_length % 6 == 0)) [
  | inr e ↦ rw e g.table
  | inl e ↦ rw e (elim (Bool-cases (has_flag ack_mask c.header.flags)) [
    | inl ack ↦
        rw ack (elim (Bool-cases (not (c.header.payload_length == 0) || not (length buf == 0))) [
          | inl w ↦ rw w g.table
          | inr w ↦ rw w g
        ])
    | inr plain ↦
        rw plain
          (continue-Ends (decode_settings buf c) _ (decode_settings-Ends buf c g) (λ l c' g'. g'))
  ])
]

pub data_frame-Ends : (buf : List ℕ) (c : Core) → HasGoodHpack c → Ends (data_frame buf c)
unfolding data_frame complete_frame
data_frame-Ends buf c g = elim (Bool-cases (c.header.payload_length == 0)) [
  | inl e ↦ rw e g
  | inr e ↦ rw e (
      continue-Ends (padded_bounds 0 buf c) _ (bounds-Ends 0 buf c g) λ (first, last) c1 g1.
        continue-Ends (or_panic (slice first last buf) c1) _
          (or_panic-Ends (slice first last buf) c1 g1) (λ bytes c2 g2. g2))
]

pub continuation_frame-Ends :
    (buf : List ℕ) (c : Core) → HasGoodHpack c → Ends (continuation_frame buf c)
unfolding continuation_frame
continuation_frame-Ends buf c g = elim (Bool-cases (has_flag end_headers_mask c.header.flags)) [
  | inl e ↦ rw e (
      continue-Ends (hpack_decode buf c) _ (hpack_decode-Ends buf c g)
        λ _ c1 g1. continue-Ends (hpack_finish c1) _ (hpack_finish-Ends c1 g1) (λ parts c2 g2. g2))
  | inr e ↦ rw e (continue-Ends (hpack_decode buf c) _ (hpack_decode-Ends buf c g) (λ _ c1 g1. g1))
]

fragment-Ends : (buf : List ℕ) (c : Core) → HasGoodHpack c → Ends (headers_fragment buf c)
unfolding headers_fragment headers_open complete_frame
fragment-Ends buf c g = elim (Bool-cases (has_flag end_headers_mask c.header.flags)) [
  | inl e ↦ rw e (
      continue-Ends (hpack_decode buf c) _ (hpack_decode-Ends buf c g)
        λ _ c1 g1. continue-Ends (hpack_finish c1) _ (hpack_finish-Ends c1 g1) (λ parts c2 g2. g2))
  | inr e ↦ rw e (
      continue-Ends (hpack_decode buf (headers_open c)) _ (hpack_decode-Ends buf (headers_open c) g)
        (λ _ c1 g1. g1))
]

pub headers_frame-Ends : (buf : List ℕ) (c : Core) → HasGoodHpack c → Ends (headers_frame buf c)
unfolding headers_frame
headers_frame-Ends buf c g =
    continue-Ends (padded_bounds 0 buf c) _ (bounds-Ends 0 buf c g) λ (start, last) c1 g1.
      let first : ℕ = if has_flag headers_priority_mask c1.header.flags then start + 5 else start in
      elim (Bool-cases (ltb last first)) [
        | inl e ↦ rw e g1.table
        | inr e ↦ rw e (
            continue-Ends (or_panic (slice first last buf) c1) _
              (or_panic-Ends (slice first last buf) c1 g1)
              (λ fragment c2 g2. fragment-Ends fragment c2 g2))
      ]

framing-Ends : (promised : ℕ) (c : Core) → HasGoodHpack c → Ends (push_promise_framing promised c)
unfolding push_promise_framing promise_open complete_frame
framing-Ends promised c g = elim (Bool-cases (has_flag end_headers_mask c.header.flags)) [
  | inl e ↦ rw e (continue-Ends (hpack_finish c) _ (hpack_finish-Ends c g) (λ parts c1 g1. g1))
  | inr e ↦ rw e g
]

pub push_promise_frame-Ends :
    (buf : List ℕ) (c : Core) → HasGoodHpack c → Ends (push_promise_frame buf c)
unfolding push_promise_frame
push_promise_frame-Ends buf c g =
    continue-Ends (padded_bounds 4 buf c) _ (bounds-Ends 4 buf c g) λ (first, last) c1 g1.
      elim (Bool-cases (ltb last first)) [
        | inl e ↦ rw e g1.table
        | inr e ↦ rw e (
            continue-Ends (hpack_decode buf c1) _ (hpack_decode-Ends buf c1 g1) λ _ c2 g2.
              let at_id : List ℕ =
                if has_flag padded_mask c2.header.flags then drop 1 buf else buf in
              continue-Ends (or_panic (stream_id_of at_id) c2) _
                (or_panic-Ends (stream_id_of at_id) c2 g2)
                λ promised c3 g3. elim (Bool-cases (promised == 0)) [
                  | inl z ↦ rw z g3.table
                  | inr z ↦ rw z (framing-Ends promised c3 g3)
                ])
      ]

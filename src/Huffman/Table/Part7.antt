-- ===== src/Huffman/Table/Part7.antt =====
-- ylong_http/src/huffman/consts.rs: `HUFFMAN_DECODE`, states 224 to 255.
use commonlibrary_rust_ylong.Common.{ℕ, List, [], ◌∷◌}

unfoldable pub rows_e0 : List (List (ℕ × ℕ × ℕ))
rows_e0 =
    ((0x01, 0xfe, 0x02)
      ∷ (0x16, 0xfe, 0x03)
      ∷ (0x00, 0x02, 0x02)
      ∷ (0x00, 0x03, 0x02)
      ∷ (0x00, 0x04, 0x02)
      ∷ (0x00, 0x05, 0x02)
      ∷ (0x00, 0x06, 0x02)
      ∷ (0x00, 0x07, 0x02)
      ∷ (0x00, 0x08, 0x02)
      ∷ (0x00, 0x0b, 0x02)
      ∷ (0x00, 0x0c, 0x02)
      ∷ (0x00, 0x0e, 0x02)
      ∷ (0x00, 0x0f, 0x02)
      ∷ (0x00, 0x10, 0x02)
      ∷ (0x00, 0x11, 0x02)
      ∷ (0x00, 0x12, 0x02)
      ∷ [])
    ∷ ((0x02, 0xfe, 0x02)
        ∷ (0x09, 0xfe, 0x02)
        ∷ (0x17, 0xfe, 0x02)
        ∷ (0x28, 0xfe, 0x03)
        ∷ (0x01, 0x02, 0x02)
        ∷ (0x16, 0x02, 0x03)
        ∷ (0x01, 0x03, 0x02)
        ∷ (0x16, 0x03, 0x03)
        ∷ (0x01, 0x04, 0x02)
        ∷ (0x16, 0x04, 0x03)
        ∷ (0x01, 0x05, 0x02)
        ∷ (0x16, 0x05, 0x03)
        ∷ (0x01, 0x06, 0x02)
        ∷ (0x16, 0x06, 0x03)
        ∷ (0x01, 0x07, 0x02)
        ∷ (0x16, 0x07, 0x03)
        ∷ [])
    ∷ ((0x03, 0xfe, 0x02)
        ∷ (0x06, 0xfe, 0x02)
        ∷ (0x0a, 0xfe, 0x02)
        ∷ (0x0f, 0xfe, 0x02)
        ∷ (0x18, 0xfe, 0x02)
        ∷ (0x1f, 0xfe, 0x02)
        ∷ (0x29, 0xfe, 0x02)
        ∷ (0x38, 0xfe, 0x03)
        ∷ (0x02, 0x02, 0x02)
        ∷ (0x09, 0x02, 0x02)
        ∷ (0x17, 0x02, 0x02)
        ∷ (0x28, 0x02, 0x03)
        ∷ (0x02, 0x03, 0x02)
        ∷ (0x09, 0x03, 0x02)
        ∷ (0x17, 0x03, 0x02)
        ∷ (0x28, 0x03, 0x03)
        ∷ [])
    ∷ ((0x03, 0x02, 0x02)
        ∷ (0x06, 0x02, 0x02)
        ∷ (0x0a, 0x02, 0x02)
        ∷ (0x0f, 0x02, 0x02)
        ∷ (0x18, 0x02, 0x02)
        ∷ (0x1f, 0x02, 0x02)
        ∷ (0x29, 0x02, 0x02)
        ∷ (0x38, 0x02, 0x03)
        ∷ (0x03, 0x03, 0x02)
        ∷ (0x06, 0x03, 0x02)
        ∷ (0x0a, 0x03, 0x02)
        ∷ (0x0f, 0x03, 0x02)
        ∷ (0x18, 0x03, 0x02)
        ∷ (0x1f, 0x03, 0x02)
        ∷ (0x29, 0x03, 0x02)
        ∷ (0x38, 0x03, 0x03)
        ∷ [])
    ∷ ((0x02, 0x04, 0x02)
        ∷ (0x09, 0x04, 0x02)
        ∷ (0x17, 0x04, 0x02)
        ∷ (0x28, 0x04, 0x03)
        ∷ (0x02, 0x05, 0x02)
        ∷ (0x09, 0x05, 0x02)
        ∷ (0x17, 0x05, 0x02)
        ∷ (0x28, 0x05, 0x03)
        ∷ (0x02, 0x06, 0x02)
        ∷ (0x09, 0x06, 0x02)
        ∷ (0x17, 0x06, 0x02)
        ∷ (0x28, 0x06, 0x03)
        ∷ (0x02, 0x07, 0x02)
        ∷ (0x09, 0x07, 0x02)
        ∷ (0x17, 0x07, 0x02)
        ∷ (0x28, 0x07, 0x03)
        ∷ [])
    ∷ ((0x03, 0x04, 0x02)
        ∷ (0x06, 0x04, 0x02)
        ∷ (0x0a, 0x04, 0x02)
        ∷ (0x0f, 0x04, 0x02)
        ∷ (0x18, 0x04, 0x02)
        ∷ (0x1f, 0x04, 0x02)
        ∷ (0x29, 0x04, 0x02)
        ∷ (0x38, 0x04, 0x03)
        ∷ (0x03, 0x05, 0x02)
        ∷ (0x06, 0x05, 0x02)
        ∷ (0x0a, 0x05, 0x02)
        ∷ (0x0f, 0x05, 0x02)
        ∷ (0x18, 0x05, 0x02)
        ∷ (0x1f, 0x05, 0x02)
        ∷ (0x29, 0x05, 0x02)
        ∷ (0x38, 0x05, 0x03)
        ∷ [])
    ∷ ((0x03, 0x06, 0x02)
        ∷ (0x06, 0x06, 0x02)
        ∷ (0x0a, 0x06, 0x02)
        ∷ (0x0f, 0x06, 0x02)
        ∷ (0x18, 0x06, 0x02)
        ∷ (0x1f, 0x06, 0x02)
        ∷ (0x29, 0x06, 0x02)
        ∷ (0x38, 0x06, 0x03)
        ∷ (0x03, 0x07, 0x02)
        ∷ (0x06, 0x07, 0x02)
        ∷ (0x0a, 0x07, 0x02)
        ∷ (0x0f, 0x07, 0x02)
        ∷ (0x18, 0x07, 0x02)
        ∷ (0x1f, 0x07, 0x02)
        ∷ (0x29, 0x07, 0x02)
        ∷ (0x38, 0x07, 0x03)
        ∷ [])
    ∷ ((0x01, 0x08, 0x02)
        ∷ (0x16, 0x08, 0x03)
        ∷ (0x01, 0x0b, 0x02)
        ∷ (0x16, 0x0b, 0x03)
        ∷ (0x01, 0x0c, 0x02)
        ∷ (0x16, 0x0c, 0x03)
        ∷ (0x01, 0x0e, 0x02)
        ∷ (0x16, 0x0e, 0x03)
        ∷ (0x01, 0x0f, 0x02)
        ∷ (0x16, 0x0f, 0x03)
        ∷ (0x01, 0x10, 0x02)
        ∷ (0x16, 0x10, 0x03)
        ∷ (0x01, 0x11, 0x02)
        ∷ (0x16, 0x11, 0x03)
        ∷ (0x01, 0x12, 0x02)
        ∷ (0x16, 0x12, 0x03)
        ∷ [])
    ∷ ((0x02, 0x08, 0x02)
        ∷ (0x09, 0x08, 0x02)
        ∷ (0x17, 0x08, 0x02)
        ∷ (0x28, 0x08, 0x03)
        ∷ (0x02, 0x0b, 0x02)
        ∷ (0x09, 0x0b, 0x02)
        ∷ (0x17, 0x0b, 0x02)
        ∷ (0x28, 0x0b, 0x03)
        ∷ (0x02, 0x0c, 0x02)
        ∷ (0x09, 0x0c, 0x02)
        ∷ (0x17, 0x0c, 0x02)
        ∷ (0x28, 0x0c, 0x03)
        ∷ (0x02, 0x0e, 0x02)
        ∷ (0x09, 0x0e, 0x02)
        ∷ (0x17, 0x0e, 0x02)
        ∷ (0x28, 0x0e, 0x03)
        ∷ [])
    ∷ ((0x03, 0x08, 0x02)
        ∷ (0x06, 0x08, 0x02)
        ∷ (0x0a, 0x08, 0x02)
        ∷ (0x0f, 0x08, 0x02)
        ∷ (0x18, 0x08, 0x02)
        ∷ (0x1f, 0x08, 0x02)
        ∷ (0x29, 0x08, 0x02)
        ∷ (0x38, 0x08, 0x03)
        ∷ (0x03, 0x0b, 0x02)
        ∷ (0x06, 0x0b, 0x02)
        ∷ (0x0a, 0x0b, 0x02)
        ∷ (0x0f, 0x0b, 0x02)
        ∷ (0x18, 0x0b, 0x02)
        ∷ (0x1f, 0x0b, 0x02)
        ∷ (0x29, 0x0b, 0x02)
        ∷ (0x38, 0x0b, 0x03)
        ∷ [])
    ∷ ((0x03, 0x0c, 0x02)
        ∷ (0x06, 0x0c, 0x02)
        ∷ (0x0a, 0x0c, 0x02)
        ∷ (0x0f, 0x0c, 0x02)
        ∷ (0x18, 0x0c, 0x02)
        ∷ (0x1f, 0x0c, 0x02)
        ∷ (0x29, 0x0c, 0x02)
        ∷ (0x38, 0x0c, 0x03)
        ∷ (0x03, 0x0e, 0x02)
        ∷ (0x06, 0x0e, 0x02)
        ∷ (0x0a, 0x0e, 0x02)
        ∷ (0x0f, 0x0e, 0x02)
        ∷ (0x18, 0x0e, 0x02)
        ∷ (0x1f, 0x0e, 0x02)
        ∷ (0x29, 0x0e, 0x02)
        ∷ (0x38, 0x0e, 0x03)
        ∷ [])
    ∷ ((0x02, 0x0f, 0x02)
        ∷ (0x09, 0x0f, 0x02)
        ∷ (0x17, 0x0f, 0x02)
        ∷ (0x28, 0x0f, 0x03)
        ∷ (0x02, 0x10, 0x02)
        ∷ (0x09, 0x10, 0x02)
        ∷ (0x17, 0x10, 0x02)
        ∷ (0x28, 0x10, 0x03)
        ∷ (0x02, 0x11, 0x02)
        ∷ (0x09, 0x11, 0x02)
        ∷ (0x17, 0x11, 0x02)
        ∷ (0x28, 0x11, 0x03)
        ∷ (0x02, 0x12, 0x02)
        ∷ (0x09, 0x12, 0x02)
        ∷ (0x17, 0x12, 0x02)
        ∷ (0x28, 0x12, 0x03)
        ∷ [])
    ∷ ((0x03, 0x0f, 0x02)
        ∷ (0x06, 0x0f, 0x02)
        ∷ (0x0a, 0x0f, 0x02)
        ∷ (0x0f, 0x0f, 0x02)
        ∷ (0x18, 0x0f, 0x02)
        ∷ (0x1f, 0x0f, 0x02)
        ∷ (0x29, 0x0f, 0x02)
        ∷ (0x38, 0x0f, 0x03)
        ∷ (0x03, 0x10, 0x02)
        ∷ (0x06, 0x10, 0x02)
        ∷ (0x0a, 0x10, 0x02)
        ∷ (0x0f, 0x10, 0x02)
        ∷ (0x18, 0x10, 0x02)
        ∷ (0x1f, 0x10, 0x02)
        ∷ (0x29, 0x10, 0x02)
        ∷ (0x38, 0x10, 0x03)
        ∷ [])
    ∷ ((0x03, 0x11, 0x02)
        ∷ (0x06, 0x11, 0x02)
        ∷ (0x0a, 0x11, 0x02)
        ∷ (0x0f, 0x11, 0x02)
        ∷ (0x18, 0x11, 0x02)
        ∷ (0x1f, 0x11, 0x02)
        ∷ (0x29, 0x11, 0x02)
        ∷ (0x38, 0x11, 0x03)
        ∷ (0x03, 0x12, 0x02)
        ∷ (0x06, 0x12, 0x02)
        ∷ (0x0a, 0x12, 0x02)
        ∷ (0x0f, 0x12, 0x02)
        ∷ (0x18, 0x12, 0x02)
        ∷ (0x1f, 0x12, 0x02)
        ∷ (0x29, 0x12, 0x02)
        ∷ (0x38, 0x12, 0x03)
        ∷ [])
    ∷ ((0x00, 0x13, 0x02)
        ∷ (0x00, 0x14, 0x02)
        ∷ (0x00, 0x15, 0x02)
        ∷ (0x00, 0x17, 0x02)
        ∷ (0x00, 0x18, 0x02)
        ∷ (0x00, 0x19, 0x02)
        ∷ (0x00, 0x1a, 0x02)
        ∷ (0x00, 0x1b, 0x02)
        ∷ (0x00, 0x1c, 0x02)
        ∷ (0x00, 0x1d, 0x02)
        ∷ (0x00, 0x1e, 0x02)
        ∷ (0x00, 0x1f, 0x02)
        ∷ (0x00, 0x7f, 0x02)
        ∷ (0x00, 0xdc, 0x02)
        ∷ (0x00, 0xf9, 0x02)
        ∷ (0xfd, 0x00, 0x00)
        ∷ [])
    ∷ ((0x01, 0x13, 0x02)
        ∷ (0x16, 0x13, 0x03)
        ∷ (0x01, 0x14, 0x02)
        ∷ (0x16, 0x14, 0x03)
        ∷ (0x01, 0x15, 0x02)
        ∷ (0x16, 0x15, 0x03)
        ∷ (0x01, 0x17, 0x02)
        ∷ (0x16, 0x17, 0x03)
        ∷ (0x01, 0x18, 0x02)
        ∷ (0x16, 0x18, 0x03)
        ∷ (0x01, 0x19, 0x02)
        ∷ (0x16, 0x19, 0x03)
        ∷ (0x01, 0x1a, 0x02)
        ∷ (0x16, 0x1a, 0x03)
        ∷ (0x01, 0x1b, 0x02)
        ∷ (0x16, 0x1b, 0x03)
        ∷ [])
    ∷ []

unfoldable pub rows_f0 : List (List (ℕ × ℕ × ℕ))
rows_f0 =
    ((0x02, 0x13, 0x02)
      ∷ (0x09, 0x13, 0x02)
      ∷ (0x17, 0x13, 0x02)
      ∷ (0x28, 0x13, 0x03)
      ∷ (0x02, 0x14, 0x02)
      ∷ (0x09, 0x14, 0x02)
      ∷ (0x17, 0x14, 0x02)
      ∷ (0x28, 0x14, 0x03)
      ∷ (0x02, 0x15, 0x02)
      ∷ (0x09, 0x15, 0x02)
      ∷ (0x17, 0x15, 0x02)
      ∷ (0x28, 0x15, 0x03)
      ∷ (0x02, 0x17, 0x02)
      ∷ (0x09, 0x17, 0x02)
      ∷ (0x17, 0x17, 0x02)
      ∷ (0x28, 0x17, 0x03)
      ∷ [])
    ∷ ((0x03, 0x13, 0x02)
        ∷ (0x06, 0x13, 0x02)
        ∷ (0x0a, 0x13, 0x02)
        ∷ (0x0f, 0x13, 0x02)
        ∷ (0x18, 0x13, 0x02)
        ∷ (0x1f, 0x13, 0x02)
        ∷ (0x29, 0x13, 0x02)
        ∷ (0x38, 0x13, 0x03)
        ∷ (0x03, 0x14, 0x02)
        ∷ (0x06, 0x14, 0x02)
        ∷ (0x0a, 0x14, 0x02)
        ∷ (0x0f, 0x14, 0x02)
        ∷ (0x18, 0x14, 0x02)
        ∷ (0x1f, 0x14, 0x02)
        ∷ (0x29, 0x14, 0x02)
        ∷ (0x38, 0x14, 0x03)
        ∷ [])
    ∷ ((0x03, 0x15, 0x02)
        ∷ (0x06, 0x15, 0x02)
        ∷ (0x0a, 0x15, 0x02)
        ∷ (0x0f, 0x15, 0x02)
        ∷ (0x18, 0x15, 0x02)
        ∷ (0x1f, 0x15, 0x02)
        ∷ (0x29, 0x15, 0x02)
        ∷ (0x38, 0x15, 0x03)
        ∷ (0x03, 0x17, 0x02)
        ∷ (0x06, 0x17, 0x02)
        ∷ (0x0a, 0x17, 0x02)
        ∷ (0x0f, 0x17, 0x02)
        ∷ (0x18, 0x17, 0x02)
        ∷ (0x1f, 0x17, 0x02)
        ∷ (0x29, 0x17, 0x02)
        ∷ (0x38, 0x17, 0x03)
        ∷ [])
    ∷ ((0x02, 0x18, 0x02)
        ∷ (0x09, 0x18, 0x02)
        ∷ (0x17, 0x18, 0x02)
        ∷ (0x28, 0x18, 0x03)
        ∷ (0x02, 0x19, 0x02)
        ∷ (0x09, 0x19, 0x02)
        ∷ (0x17, 0x19, 0x02)
        ∷ (0x28, 0x19, 0x03)
        ∷ (0x02, 0x1a, 0x02)
        ∷ (0x09, 0x1a, 0x02)
        ∷ (0x17, 0x1a, 0x02)
        ∷ (0x28, 0x1a, 0x03)
        ∷ (0x02, 0x1b, 0x02)
        ∷ (0x09, 0x1b, 0x02)
        ∷ (0x17, 0x1b, 0x02)
        ∷ (0x28, 0x1b, 0x03)
        ∷ [])
    ∷ ((0x03, 0x18, 0x02)
        ∷ (0x06, 0x18, 0x02)
        ∷ (0x0a, 0x18, 0x02)
        ∷ (0x0f, 0x18, 0x02)
        ∷ (0x18, 0x18, 0x02)
        ∷ (0x1f, 0x18, 0x02)
        ∷ (0x29, 0x18, 0x02)
        ∷ (0x38, 0x18, 0x03)
        ∷ (0x03, 0x19, 0x02)
        ∷ (0x06, 0x19, 0x02)
        ∷ (0x0a, 0x19, 0x02)
        ∷ (0x0f, 0x19, 0x02)
        ∷ (0x18, 0x19, 0x02)
        ∷ (0x1f, 0x19, 0x02)
        ∷ (0x29, 0x19, 0x02)
        ∷ (0x38, 0x19, 0x03)
        ∷ [])
    ∷ ((0x03, 0x1a, 0x02)
        ∷ (0x06, 0x1a, 0x02)
        ∷ (0x0a, 0x1a, 0x02)
        ∷ (0x0f, 0x1a, 0x02)
        ∷ (0x18, 0x1a, 0x02)
        ∷ (0x1f, 0x1a, 0x02)
        ∷ (0x29, 0x1a, 0x02)
        ∷ (0x38, 0x1a, 0x03)
        ∷ (0x03, 0x1b, 0x02)
        ∷ (0x06, 0x1b, 0x02)
        ∷ (0x0a, 0x1b, 0x02)
        ∷ (0x0f, 0x1b, 0x02)
        ∷ (0x18, 0x1b, 0x02)
        ∷ (0x1f, 0x1b, 0x02)
        ∷ (0x29, 0x1b, 0x02)
        ∷ (0x38, 0x1b, 0x03)
        ∷ [])
    ∷ ((0x01, 0x1c, 0x02)
        ∷ (0x16, 0x1c, 0x03)
        ∷ (0x01, 0x1d, 0x02)
        ∷ (0x16, 0x1d, 0x03)
        ∷ (0x01, 0x1e, 0x02)
        ∷ (0x16, 0x1e, 0x03)
        ∷ (0x01, 0x1f, 0x02)
        ∷ (0x16, 0x1f, 0x03)
        ∷ (0x01, 0x7f, 0x02)
        ∷ (0x16, 0x7f, 0x03)
        ∷ (0x01, 0xdc, 0x02)
        ∷ (0x16, 0xdc, 0x03)
        ∷ (0x01, 0xf9, 0x02)
        ∷ (0x16, 0xf9, 0x03)
        ∷ (0xfe, 0x00, 0x00)
        ∷ (0xff, 0x00, 0x00)
        ∷ [])
    ∷ ((0x02, 0x1c, 0x02)
        ∷ (0x09, 0x1c, 0x02)
        ∷ (0x17, 0x1c, 0x02)
        ∷ (0x28, 0x1c, 0x03)
        ∷ (0x02, 0x1d, 0x02)
        ∷ (0x09, 0x1d, 0x02)
        ∷ (0x17, 0x1d, 0x02)
        ∷ (0x28, 0x1d, 0x03)
        ∷ (0x02, 0x1e, 0x02)
        ∷ (0x09, 0x1e, 0x02)
        ∷ (0x17, 0x1e, 0x02)
        ∷ (0x28, 0x1e, 0x03)
        ∷ (0x02, 0x1f, 0x02)
        ∷ (0x09, 0x1f, 0x02)
        ∷ (0x17, 0x1f, 0x02)
        ∷ (0x28, 0x1f, 0x03)
        ∷ [])
    ∷ ((0x03, 0x1c, 0x02)
        ∷ (0x06, 0x1c, 0x02)
        ∷ (0x0a, 0x1c, 0x02)
        ∷ (0x0f, 0x1c, 0x02)
        ∷ (0x18, 0x1c, 0x02)
        ∷ (0x1f, 0x1c, 0x02)
        ∷ (0x29, 0x1c, 0x02)
        ∷ (0x38, 0x1c, 0x03)
        ∷ (0x03, 0x1d, 0x02)
        ∷ (0x06, 0x1d, 0x02)
        ∷ (0x0a, 0x1d, 0x02)
        ∷ (0x0f, 0x1d, 0x02)
        ∷ (0x18, 0x1d, 0x02)
        ∷ (0x1f, 0x1d, 0x02)
        ∷ (0x29, 0x1d, 0x02)
        ∷ (0x38, 0x1d, 0x03)
        ∷ [])
    ∷ ((0x03, 0x1e, 0x02)
        ∷ (0x06, 0x1e, 0x02)
        ∷ (0x0a, 0x1e, 0x02)
        ∷ (0x0f, 0x1e, 0x02)
        ∷ (0x18, 0x1e, 0x02)
        ∷ (0x1f, 0x1e, 0x02)
        ∷ (0x29, 0x1e, 0x02)
        ∷ (0x38, 0x1e, 0x03)
        ∷ (0x03, 0x1f, 0x02)
        ∷ (0x06, 0x1f, 0x02)
        ∷ (0x0a, 0x1f, 0x02)
        ∷ (0x0f, 0x1f, 0x02)
        ∷ (0x18, 0x1f, 0x02)
        ∷ (0x1f, 0x1f, 0x02)
        ∷ (0x29, 0x1f, 0x02)
        ∷ (0x38, 0x1f, 0x03)
        ∷ [])
    ∷ ((0x02, 0x7f, 0x02)
        ∷ (0x09, 0x7f, 0x02)
        ∷ (0x17, 0x7f, 0x02)
        ∷ (0x28, 0x7f, 0x03)
        ∷ (0x02, 0xdc, 0x02)
        ∷ (0x09, 0xdc, 0x02)
        ∷ (0x17, 0xdc, 0x02)
        ∷ (0x28, 0xdc, 0x03)
        ∷ (0x02, 0xf9, 0x02)
        ∷ (0x09, 0xf9, 0x02)
        ∷ (0x17, 0xf9, 0x02)
        ∷ (0x28, 0xf9, 0x03)
        ∷ (0x00, 0x0a, 0x02)
        ∷ (0x00, 0x0d, 0x02)
        ∷ (0x00, 0x16, 0x02)
        ∷ (0x00, 0x00, 0x04)
        ∷ [])
    ∷ ((0x03, 0x7f, 0x02)
        ∷ (0x06, 0x7f, 0x02)
        ∷ (0x0a, 0x7f, 0x02)
        ∷ (0x0f, 0x7f, 0x02)
        ∷ (0x18, 0x7f, 0x02)
        ∷ (0x1f, 0x7f, 0x02)
        ∷ (0x29, 0x7f, 0x02)
        ∷ (0x38, 0x7f, 0x03)
        ∷ (0x03, 0xdc, 0x02)
        ∷ (0x06, 0xdc, 0x02)
        ∷ (0x0a, 0xdc, 0x02)
        ∷ (0x0f, 0xdc, 0x02)
        ∷ (0x18, 0xdc, 0x02)
        ∷ (0x1f, 0xdc, 0x02)
        ∷ (0x29, 0xdc, 0x02)
        ∷ (0x38, 0xdc, 0x03)
        ∷ [])
    ∷ ((0x03, 0xf9, 0x02)
        ∷ (0x06, 0xf9, 0x02)
        ∷ (0x0a, 0xf9, 0x02)
        ∷ (0x0f, 0xf9, 0x02)
        ∷ (0x18, 0xf9, 0x02)
        ∷ (0x1f, 0xf9, 0x02)
        ∷ (0x29, 0xf9, 0x02)
        ∷ (0x38, 0xf9, 0x03)
        ∷ (0x01, 0x0a, 0x02)
        ∷ (0x16, 0x0a, 0x03)
        ∷ (0x01, 0x0d, 0x02)
        ∷ (0x16, 0x0d, 0x03)
        ∷ (0x01, 0x16, 0x02)
        ∷ (0x16, 0x16, 0x03)
        ∷ (0x00, 0x00, 0x04)
        ∷ (0x00, 0x00, 0x05)
        ∷ [])
    ∷ ((0x02, 0x0a, 0x02)
        ∷ (0x09, 0x0a, 0x02)
        ∷ (0x17, 0x0a, 0x02)
        ∷ (0x28, 0x0a, 0x03)
        ∷ (0x02, 0x0d, 0x02)
        ∷ (0x09, 0x0d, 0x02)
        ∷ (0x17, 0x0d, 0x02)
        ∷ (0x28, 0x0d, 0x03)
        ∷ (0x02, 0x16, 0x02)
        ∷ (0x09, 0x16, 0x02)
        ∷ (0x17, 0x16, 0x02)
        ∷ (0x28, 0x16, 0x03)
        ∷ (0x00, 0x00, 0x04)
        ∷ (0x00, 0x00, 0x04)
        ∷ (0x00, 0x00, 0x04)
        ∷ (0x00, 0x00, 0x05)
        ∷ [])
    ∷ ((0x03, 0x0a, 0x02)
        ∷ (0x06, 0x0a, 0x02)
        ∷ (0x0a, 0x0a, 0x02)
        ∷ (0x0f, 0x0a, 0x02)
        ∷ (0x18, 0x0a, 0x02)
        ∷ (0x1f, 0x0a, 0x02)
        ∷ (0x29, 0x0a, 0x02)
        ∷ (0x38, 0x0a, 0x03)
        ∷ (0x03, 0x0d, 0x02)
        ∷ (0x06, 0x0d, 0x02)
        ∷ (0x0a, 0x0d, 0x02)
        ∷ (0x0f, 0x0d, 0x02)
        ∷ (0x18, 0x0d, 0x02)
        ∷ (0x1f, 0x0d, 0x02)
        ∷ (0x29, 0x0d, 0x02)
        ∷ (0x38, 0x0d, 0x03)
        ∷ [])
    ∷ ((0x03, 0x16, 0x02)
        ∷ (0x06, 0x16, 0x02)
        ∷ (0x0a, 0x16, 0x02)
        ∷ (0x0f, 0x16, 0x02)
        ∷ (0x18, 0x16, 0x02)
        ∷ (0x1f, 0x16, 0x02)
        ∷ (0x29, 0x16, 0x02)
        ∷ (0x38, 0x16, 0x03)
        ∷ (0x00, 0x00, 0x04)
        ∷ (0x00, 0x00, 0x04)
        ∷ (0x00, 0x00, 0x04)
        ∷ (0x00, 0x00, 0x04)
        ∷ (0x00, 0x00, 0x04)
        ∷ (0x00, 0x00, 0x04)
        ∷ (0x00, 0x00, 0x04)
        ∷ (0x00, 0x00, 0x05)
        ∷ [])
    ∷ []

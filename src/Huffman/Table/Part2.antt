-- ===== src/Huffman/Table/Part2.antt =====
-- ylong_http/src/huffman/consts.rs: `HUFFMAN_DECODE`, states 64 to 95.
use commonlibrary_rust_ylong.Common.{ℕ, List, [], ◌∷◌}

unfoldable pub rows_40 : List (List (ℕ × ℕ × ℕ))
rows_40 =
    ((0x01, 0x77, 0x02)
      ∷ (0x16, 0x77, 0x03)
      ∷ (0x01, 0x78, 0x02)
      ∷ (0x16, 0x78, 0x03)
      ∷ (0x01, 0x79, 0x02)
      ∷ (0x16, 0x79, 0x03)
      ∷ (0x01, 0x7a, 0x02)
      ∷ (0x16, 0x7a, 0x03)
      ∷ (0x00, 0x26, 0x02)
      ∷ (0x00, 0x2a, 0x02)
      ∷ (0x00, 0x2c, 0x02)
      ∷ (0x00, 0x3b, 0x02)
      ∷ (0x00, 0x58, 0x02)
      ∷ (0x00, 0x5a, 0x02)
      ∷ (0x4b, 0x00, 0x00)
      ∷ (0x4e, 0x00, 0x00)
      ∷ [])
    ∷ ((0x02, 0x77, 0x02)
        ∷ (0x09, 0x77, 0x02)
        ∷ (0x17, 0x77, 0x02)
        ∷ (0x28, 0x77, 0x03)
        ∷ (0x02, 0x78, 0x02)
        ∷ (0x09, 0x78, 0x02)
        ∷ (0x17, 0x78, 0x02)
        ∷ (0x28, 0x78, 0x03)
        ∷ (0x02, 0x79, 0x02)
        ∷ (0x09, 0x79, 0x02)
        ∷ (0x17, 0x79, 0x02)
        ∷ (0x28, 0x79, 0x03)
        ∷ (0x02, 0x7a, 0x02)
        ∷ (0x09, 0x7a, 0x02)
        ∷ (0x17, 0x7a, 0x02)
        ∷ (0x28, 0x7a, 0x03)
        ∷ [])
    ∷ ((0x03, 0x77, 0x02)
        ∷ (0x06, 0x77, 0x02)
        ∷ (0x0a, 0x77, 0x02)
        ∷ (0x0f, 0x77, 0x02)
        ∷ (0x18, 0x77, 0x02)
        ∷ (0x1f, 0x77, 0x02)
        ∷ (0x29, 0x77, 0x02)
        ∷ (0x38, 0x77, 0x03)
        ∷ (0x03, 0x78, 0x02)
        ∷ (0x06, 0x78, 0x02)
        ∷ (0x0a, 0x78, 0x02)
        ∷ (0x0f, 0x78, 0x02)
        ∷ (0x18, 0x78, 0x02)
        ∷ (0x1f, 0x78, 0x02)
        ∷ (0x29, 0x78, 0x02)
        ∷ (0x38, 0x78, 0x03)
        ∷ [])
    ∷ ((0x03, 0x79, 0x02)
        ∷ (0x06, 0x79, 0x02)
        ∷ (0x0a, 0x79, 0x02)
        ∷ (0x0f, 0x79, 0x02)
        ∷ (0x18, 0x79, 0x02)
        ∷ (0x1f, 0x79, 0x02)
        ∷ (0x29, 0x79, 0x02)
        ∷ (0x38, 0x79, 0x03)
        ∷ (0x03, 0x7a, 0x02)
        ∷ (0x06, 0x7a, 0x02)
        ∷ (0x0a, 0x7a, 0x02)
        ∷ (0x0f, 0x7a, 0x02)
        ∷ (0x18, 0x7a, 0x02)
        ∷ (0x1f, 0x7a, 0x02)
        ∷ (0x29, 0x7a, 0x02)
        ∷ (0x38, 0x7a, 0x03)
        ∷ [])
    ∷ ((0x01, 0x26, 0x02)
        ∷ (0x16, 0x26, 0x03)
        ∷ (0x01, 0x2a, 0x02)
        ∷ (0x16, 0x2a, 0x03)
        ∷ (0x01, 0x2c, 0x02)
        ∷ (0x16, 0x2c, 0x03)
        ∷ (0x01, 0x3b, 0x02)
        ∷ (0x16, 0x3b, 0x03)
        ∷ (0x01, 0x58, 0x02)
        ∷ (0x16, 0x58, 0x03)
        ∷ (0x01, 0x5a, 0x02)
        ∷ (0x16, 0x5a, 0x03)
        ∷ (0x4c, 0x00, 0x00)
        ∷ (0x4d, 0x00, 0x00)
        ∷ (0x4f, 0x00, 0x00)
        ∷ (0x51, 0x00, 0x00)
        ∷ [])
    ∷ ((0x02, 0x26, 0x02)
        ∷ (0x09, 0x26, 0x02)
        ∷ (0x17, 0x26, 0x02)
        ∷ (0x28, 0x26, 0x03)
        ∷ (0x02, 0x2a, 0x02)
        ∷ (0x09, 0x2a, 0x02)
        ∷ (0x17, 0x2a, 0x02)
        ∷ (0x28, 0x2a, 0x03)
        ∷ (0x02, 0x2c, 0x02)
        ∷ (0x09, 0x2c, 0x02)
        ∷ (0x17, 0x2c, 0x02)
        ∷ (0x28, 0x2c, 0x03)
        ∷ (0x02, 0x3b, 0x02)
        ∷ (0x09, 0x3b, 0x02)
        ∷ (0x17, 0x3b, 0x02)
        ∷ (0x28, 0x3b, 0x03)
        ∷ [])
    ∷ ((0x03, 0x26, 0x02)
        ∷ (0x06, 0x26, 0x02)
        ∷ (0x0a, 0x26, 0x02)
        ∷ (0x0f, 0x26, 0x02)
        ∷ (0x18, 0x26, 0x02)
        ∷ (0x1f, 0x26, 0x02)
        ∷ (0x29, 0x26, 0x02)
        ∷ (0x38, 0x26, 0x03)
        ∷ (0x03, 0x2a, 0x02)
        ∷ (0x06, 0x2a, 0x02)
        ∷ (0x0a, 0x2a, 0x02)
        ∷ (0x0f, 0x2a, 0x02)
        ∷ (0x18, 0x2a, 0x02)
        ∷ (0x1f, 0x2a, 0x02)
        ∷ (0x29, 0x2a, 0x02)
        ∷ (0x38, 0x2a, 0x03)
        ∷ [])
    ∷ ((0x03, 0x2c, 0x02)
        ∷ (0x06, 0x2c, 0x02)
        ∷ (0x0a, 0x2c, 0x02)
        ∷ (0x0f, 0x2c, 0x02)
        ∷ (0x18, 0x2c, 0x02)
        ∷ (0x1f, 0x2c, 0x02)
        ∷ (0x29, 0x2c, 0x02)
        ∷ (0x38, 0x2c, 0x03)
        ∷ (0x03, 0x3b, 0x02)
        ∷ (0x06, 0x3b, 0x02)
        ∷ (0x0a, 0x3b, 0x02)
        ∷ (0x0f, 0x3b, 0x02)
        ∷ (0x18, 0x3b, 0x02)
        ∷ (0x1f, 0x3b, 0x02)
        ∷ (0x29, 0x3b, 0x02)
        ∷ (0x38, 0x3b, 0x03)
        ∷ [])
    ∷ ((0x02, 0x58, 0x02)
        ∷ (0x09, 0x58, 0x02)
        ∷ (0x17, 0x58, 0x02)
        ∷ (0x28, 0x58, 0x03)
        ∷ (0x02, 0x5a, 0x02)
        ∷ (0x09, 0x5a, 0x02)
        ∷ (0x17, 0x5a, 0x02)
        ∷ (0x28, 0x5a, 0x03)
        ∷ (0x00, 0x21, 0x02)
        ∷ (0x00, 0x22, 0x02)
        ∷ (0x00, 0x28, 0x02)
        ∷ (0x00, 0x29, 0x02)
        ∷ (0x00, 0x3f, 0x02)
        ∷ (0x50, 0x00, 0x00)
        ∷ (0x52, 0x00, 0x00)
        ∷ (0x54, 0x00, 0x00)
        ∷ [])
    ∷ ((0x03, 0x58, 0x02)
        ∷ (0x06, 0x58, 0x02)
        ∷ (0x0a, 0x58, 0x02)
        ∷ (0x0f, 0x58, 0x02)
        ∷ (0x18, 0x58, 0x02)
        ∷ (0x1f, 0x58, 0x02)
        ∷ (0x29, 0x58, 0x02)
        ∷ (0x38, 0x58, 0x03)
        ∷ (0x03, 0x5a, 0x02)
        ∷ (0x06, 0x5a, 0x02)
        ∷ (0x0a, 0x5a, 0x02)
        ∷ (0x0f, 0x5a, 0x02)
        ∷ (0x18, 0x5a, 0x02)
        ∷ (0x1f, 0x5a, 0x02)
        ∷ (0x29, 0x5a, 0x02)
        ∷ (0x38, 0x5a, 0x03)
        ∷ [])
    ∷ ((0x01, 0x21, 0x02)
        ∷ (0x16, 0x21, 0x03)
        ∷ (0x01, 0x22, 0x02)
        ∷ (0x16, 0x22, 0x03)
        ∷ (0x01, 0x28, 0x02)
        ∷ (0x16, 0x28, 0x03)
        ∷ (0x01, 0x29, 0x02)
        ∷ (0x16, 0x29, 0x03)
        ∷ (0x01, 0x3f, 0x02)
        ∷ (0x16, 0x3f, 0x03)
        ∷ (0x00, 0x27, 0x02)
        ∷ (0x00, 0x2b, 0x02)
        ∷ (0x00, 0x7c, 0x02)
        ∷ (0x53, 0x00, 0x00)
        ∷ (0x55, 0x00, 0x00)
        ∷ (0x58, 0x00, 0x00)
        ∷ [])
    ∷ ((0x02, 0x21, 0x02)
        ∷ (0x09, 0x21, 0x02)
        ∷ (0x17, 0x21, 0x02)
        ∷ (0x28, 0x21, 0x03)
        ∷ (0x02, 0x22, 0x02)
        ∷ (0x09, 0x22, 0x02)
        ∷ (0x17, 0x22, 0x02)
        ∷ (0x28, 0x22, 0x03)
        ∷ (0x02, 0x28, 0x02)
        ∷ (0x09, 0x28, 0x02)
        ∷ (0x17, 0x28, 0x02)
        ∷ (0x28, 0x28, 0x03)
        ∷ (0x02, 0x29, 0x02)
        ∷ (0x09, 0x29, 0x02)
        ∷ (0x17, 0x29, 0x02)
        ∷ (0x28, 0x29, 0x03)
        ∷ [])
    ∷ ((0x03, 0x21, 0x02)
        ∷ (0x06, 0x21, 0x02)
        ∷ (0x0a, 0x21, 0x02)
        ∷ (0x0f, 0x21, 0x02)
        ∷ (0x18, 0x21, 0x02)
        ∷ (0x1f, 0x21, 0x02)
        ∷ (0x29, 0x21, 0x02)
        ∷ (0x38, 0x21, 0x03)
        ∷ (0x03, 0x22, 0x02)
        ∷ (0x06, 0x22, 0x02)
        ∷ (0x0a, 0x22, 0x02)
        ∷ (0x0f, 0x22, 0x02)
        ∷ (0x18, 0x22, 0x02)
        ∷ (0x1f, 0x22, 0x02)
        ∷ (0x29, 0x22, 0x02)
        ∷ (0x38, 0x22, 0x03)
        ∷ [])
    ∷ ((0x03, 0x28, 0x02)
        ∷ (0x06, 0x28, 0x02)
        ∷ (0x0a, 0x28, 0x02)
        ∷ (0x0f, 0x28, 0x02)
        ∷ (0x18, 0x28, 0x02)
        ∷ (0x1f, 0x28, 0x02)
        ∷ (0x29, 0x28, 0x02)
        ∷ (0x38, 0x28, 0x03)
        ∷ (0x03, 0x29, 0x02)
        ∷ (0x06, 0x29, 0x02)
        ∷ (0x0a, 0x29, 0x02)
        ∷ (0x0f, 0x29, 0x02)
        ∷ (0x18, 0x29, 0x02)
        ∷ (0x1f, 0x29, 0x02)
        ∷ (0x29, 0x29, 0x02)
        ∷ (0x38, 0x29, 0x03)
        ∷ [])
    ∷ ((0x02, 0x3f, 0x02)
        ∷ (0x09, 0x3f, 0x02)
        ∷ (0x17, 0x3f, 0x02)
        ∷ (0x28, 0x3f, 0x03)
        ∷ (0x01, 0x27, 0x02)
        ∷ (0x16, 0x27, 0x03)
        ∷ (0x01, 0x2b, 0x02)
        ∷ (0x16, 0x2b, 0x03)
        ∷ (0x01, 0x7c, 0x02)
        ∷ (0x16, 0x7c, 0x03)
        ∷ (0x00, 0x23, 0x02)
        ∷ (0x00, 0x3e, 0x02)
        ∷ (0x56, 0x00, 0x00)
        ∷ (0x57, 0x00, 0x00)
        ∷ (0x59, 0x00, 0x00)
        ∷ (0x5a, 0x00, 0x00)
        ∷ [])
    ∷ ((0x03, 0x3f, 0x02)
        ∷ (0x06, 0x3f, 0x02)
        ∷ (0x0a, 0x3f, 0x02)
        ∷ (0x0f, 0x3f, 0x02)
        ∷ (0x18, 0x3f, 0x02)
        ∷ (0x1f, 0x3f, 0x02)
        ∷ (0x29, 0x3f, 0x02)
        ∷ (0x38, 0x3f, 0x03)
        ∷ (0x02, 0x27, 0x02)
        ∷ (0x09, 0x27, 0x02)
        ∷ (0x17, 0x27, 0x02)
        ∷ (0x28, 0x27, 0x03)
        ∷ (0x02, 0x2b, 0x02)
        ∷ (0x09, 0x2b, 0x02)
        ∷ (0x17, 0x2b, 0x02)
        ∷ (0x28, 0x2b, 0x03)
        ∷ [])
    ∷ []

unfoldable pub rows_50 : List (List (ℕ × ℕ × ℕ))
rows_50 =
    ((0x03, 0x27, 0x02)
      ∷ (0x06, 0x27, 0x02)
      ∷ (0x0a, 0x27, 0x02)
      ∷ (0x0f, 0x27, 0x02)
      ∷ (0x18, 0x27, 0x02)
      ∷ (0x1f, 0x27, 0x02)
      ∷ (0x29, 0x27, 0x02)
      ∷ (0x38, 0x27, 0x03)
      ∷ (0x03, 0x2b, 0x02)
      ∷ (0x06, 0x2b, 0x02)
      ∷ (0x0a, 0x2b, 0x02)
      ∷ (0x0f, 0x2b, 0x02)
      ∷ (0x18, 0x2b, 0x02)
      ∷ (0x1f, 0x2b, 0x02)
      ∷ (0x29, 0x2b, 0x02)
      ∷ (0x38, 0x2b, 0x03)
      ∷ [])
    ∷ ((0x02, 0x7c, 0x02)
        ∷ (0x09, 0x7c, 0x02)
        ∷ (0x17, 0x7c, 0x02)
        ∷ (0x28, 0x7c, 0x03)
        ∷ (0x01, 0x23, 0x02)
        ∷ (0x16, 0x23, 0x03)
        ∷ (0x01, 0x3e, 0x02)
        ∷ (0x16, 0x3e, 0x03)
        ∷ (0x00, 0x00, 0x02)
        ∷ (0x00, 0x24, 0x02)
        ∷ (0x00, 0x40, 0x02)
        ∷ (0x00, 0x5b, 0x02)
        ∷ (0x00, 0x5d, 0x02)
        ∷ (0x00, 0x7e, 0x02)
        ∷ (0x5b, 0x00, 0x00)
        ∷ (0x5c, 0x00, 0x00)
        ∷ [])
    ∷ ((0x03, 0x7c, 0x02)
        ∷ (0x06, 0x7c, 0x02)
        ∷ (0x0a, 0x7c, 0x02)
        ∷ (0x0f, 0x7c, 0x02)
        ∷ (0x18, 0x7c, 0x02)
        ∷ (0x1f, 0x7c, 0x02)
        ∷ (0x29, 0x7c, 0x02)
        ∷ (0x38, 0x7c, 0x03)
        ∷ (0x02, 0x23, 0x02)
        ∷ (0x09, 0x23, 0x02)
        ∷ (0x17, 0x23, 0x02)
        ∷ (0x28, 0x23, 0x03)
        ∷ (0x02, 0x3e, 0x02)
        ∷ (0x09, 0x3e, 0x02)
        ∷ (0x17, 0x3e, 0x02)
        ∷ (0x28, 0x3e, 0x03)
        ∷ [])
    ∷ ((0x03, 0x23, 0x02)
        ∷ (0x06, 0x23, 0x02)
        ∷ (0x0a, 0x23, 0x02)
        ∷ (0x0f, 0x23, 0x02)
        ∷ (0x18, 0x23, 0x02)
        ∷ (0x1f, 0x23, 0x02)
        ∷ (0x29, 0x23, 0x02)
        ∷ (0x38, 0x23, 0x03)
        ∷ (0x03, 0x3e, 0x02)
        ∷ (0x06, 0x3e, 0x02)
        ∷ (0x0a, 0x3e, 0x02)
        ∷ (0x0f, 0x3e, 0x02)
        ∷ (0x18, 0x3e, 0x02)
        ∷ (0x1f, 0x3e, 0x02)
        ∷ (0x29, 0x3e, 0x02)
        ∷ (0x38, 0x3e, 0x03)
        ∷ [])
    ∷ ((0x01, 0x00, 0x02)
        ∷ (0x16, 0x00, 0x03)
        ∷ (0x01, 0x24, 0x02)
        ∷ (0x16, 0x24, 0x03)
        ∷ (0x01, 0x40, 0x02)
        ∷ (0x16, 0x40, 0x03)
        ∷ (0x01, 0x5b, 0x02)
        ∷ (0x16, 0x5b, 0x03)
        ∷ (0x01, 0x5d, 0x02)
        ∷ (0x16, 0x5d, 0x03)
        ∷ (0x01, 0x7e, 0x02)
        ∷ (0x16, 0x7e, 0x03)
        ∷ (0x00, 0x5e, 0x02)
        ∷ (0x00, 0x7d, 0x02)
        ∷ (0x5d, 0x00, 0x00)
        ∷ (0x5e, 0x00, 0x00)
        ∷ [])
    ∷ ((0x02, 0x00, 0x02)
        ∷ (0x09, 0x00, 0x02)
        ∷ (0x17, 0x00, 0x02)
        ∷ (0x28, 0x00, 0x03)
        ∷ (0x02, 0x24, 0x02)
        ∷ (0x09, 0x24, 0x02)
        ∷ (0x17, 0x24, 0x02)
        ∷ (0x28, 0x24, 0x03)
        ∷ (0x02, 0x40, 0x02)
        ∷ (0x09, 0x40, 0x02)
        ∷ (0x17, 0x40, 0x02)
        ∷ (0x28, 0x40, 0x03)
        ∷ (0x02, 0x5b, 0x02)
        ∷ (0x09, 0x5b, 0x02)
        ∷ (0x17, 0x5b, 0x02)
        ∷ (0x28, 0x5b, 0x03)
        ∷ [])
    ∷ ((0x03, 0x00, 0x02)
        ∷ (0x06, 0x00, 0x02)
        ∷ (0x0a, 0x00, 0x02)
        ∷ (0x0f, 0x00, 0x02)
        ∷ (0x18, 0x00, 0x02)
        ∷ (0x1f, 0x00, 0x02)
        ∷ (0x29, 0x00, 0x02)
        ∷ (0x38, 0x00, 0x03)
        ∷ (0x03, 0x24, 0x02)
        ∷ (0x06, 0x24, 0x02)
        ∷ (0x0a, 0x24, 0x02)
        ∷ (0x0f, 0x24, 0x02)
        ∷ (0x18, 0x24, 0x02)
        ∷ (0x1f, 0x24, 0x02)
        ∷ (0x29, 0x24, 0x02)
        ∷ (0x38, 0x24, 0x03)
        ∷ [])
    ∷ ((0x03, 0x40, 0x02)
        ∷ (0x06, 0x40, 0x02)
        ∷ (0x0a, 0x40, 0x02)
        ∷ (0x0f, 0x40, 0x02)
        ∷ (0x18, 0x40, 0x02)
        ∷ (0x1f, 0x40, 0x02)
        ∷ (0x29, 0x40, 0x02)
        ∷ (0x38, 0x40, 0x03)
        ∷ (0x03, 0x5b, 0x02)
        ∷ (0x06, 0x5b, 0x02)
        ∷ (0x0a, 0x5b, 0x02)
        ∷ (0x0f, 0x5b, 0x02)
        ∷ (0x18, 0x5b, 0x02)
        ∷ (0x1f, 0x5b, 0x02)
        ∷ (0x29, 0x5b, 0x02)
        ∷ (0x38, 0x5b, 0x03)
        ∷ [])
    ∷ ((0x02, 0x5d, 0x02)
        ∷ (0x09, 0x5d, 0x02)
        ∷ (0x17, 0x5d, 0x02)
        ∷ (0x28, 0x5d, 0x03)
        ∷ (0x02, 0x7e, 0x02)
        ∷ (0x09, 0x7e, 0x02)
        ∷ (0x17, 0x7e, 0x02)
        ∷ (0x28, 0x7e, 0x03)
        ∷ (0x01, 0x5e, 0x02)
        ∷ (0x16, 0x5e, 0x03)
        ∷ (0x01, 0x7d, 0x02)
        ∷ (0x16, 0x7d, 0x03)
        ∷ (0x00, 0x3c, 0x02)
        ∷ (0x00, 0x60, 0x02)
        ∷ (0x00, 0x7b, 0x02)
        ∷ (0x5f, 0x00, 0x00)
        ∷ [])
    ∷ ((0x03, 0x5d, 0x02)
        ∷ (0x06, 0x5d, 0x02)
        ∷ (0x0a, 0x5d, 0x02)
        ∷ (0x0f, 0x5d, 0x02)
        ∷ (0x18, 0x5d, 0x02)
        ∷ (0x1f, 0x5d, 0x02)
        ∷ (0x29, 0x5d, 0x02)
        ∷ (0x38, 0x5d, 0x03)
        ∷ (0x03, 0x7e, 0x02)
        ∷ (0x06, 0x7e, 0x02)
        ∷ (0x0a, 0x7e, 0x02)
        ∷ (0x0f, 0x7e, 0x02)
        ∷ (0x18, 0x7e, 0x02)
        ∷ (0x1f, 0x7e, 0x02)
        ∷ (0x29, 0x7e, 0x02)
        ∷ (0x38, 0x7e, 0x03)
        ∷ [])
    ∷ ((0x02, 0x5e, 0x02)
        ∷ (0x09, 0x5e, 0x02)
        ∷ (0x17, 0x5e, 0x02)
        ∷ (0x28, 0x5e, 0x03)
        ∷ (0x02, 0x7d, 0x02)
        ∷ (0x09, 0x7d, 0x02)
        ∷ (0x17, 0x7d, 0x02)
        ∷ (0x28, 0x7d, 0x03)
        ∷ (0x01, 0x3c, 0x02)
        ∷ (0x16, 0x3c, 0x03)
        ∷ (0x01, 0x60, 0x02)
        ∷ (0x16, 0x60, 0x03)
        ∷ (0x01, 0x7b, 0x02)
        ∷ (0x16, 0x7b, 0x03)
        ∷ (0x60, 0x00, 0x00)
        ∷ (0x6e, 0x00, 0x00)
        ∷ [])
    ∷ ((0x03, 0x5e, 0x02)
        ∷ (0x06, 0x5e, 0x02)
        ∷ (0x0a, 0x5e, 0x02)
        ∷ (0x0f, 0x5e, 0x02)
        ∷ (0x18, 0x5e, 0x02)
        ∷ (0x1f, 0x5e, 0x02)
        ∷ (0x29, 0x5e, 0x02)
        ∷ (0x38, 0x5e, 0x03)
        ∷ (0x03, 0x7d, 0x02)
        ∷ (0x06, 0x7d, 0x02)
        ∷ (0x0a, 0x7d, 0x02)
        ∷ (0x0f, 0x7d, 0x02)
        ∷ (0x18, 0x7d, 0x02)
        ∷ (0x1f, 0x7d, 0x02)
        ∷ (0x29, 0x7d, 0x02)
        ∷ (0x38, 0x7d, 0x03)
        ∷ [])
    ∷ ((0x02, 0x3c, 0x02)
        ∷ (0x09, 0x3c, 0x02)
        ∷ (0x17, 0x3c, 0x02)
        ∷ (0x28, 0x3c, 0x03)
        ∷ (0x02, 0x60, 0x02)
        ∷ (0x09, 0x60, 0x02)
        ∷ (0x17, 0x60, 0x02)
        ∷ (0x28, 0x60, 0x03)
        ∷ (0x02, 0x7b, 0x02)
        ∷ (0x09, 0x7b, 0x02)
        ∷ (0x17, 0x7b, 0x02)
        ∷ (0x28, 0x7b, 0x03)
        ∷ (0x61, 0x00, 0x00)
        ∷ (0x65, 0x00, 0x00)
        ∷ (0x6f, 0x00, 0x00)
        ∷ (0x85, 0x00, 0x00)
        ∷ [])
    ∷ ((0x03, 0x3c, 0x02)
        ∷ (0x06, 0x3c, 0x02)
        ∷ (0x0a, 0x3c, 0x02)
        ∷ (0x0f, 0x3c, 0x02)
        ∷ (0x18, 0x3c, 0x02)
        ∷ (0x1f, 0x3c, 0x02)
        ∷ (0x29, 0x3c, 0x02)
        ∷ (0x38, 0x3c, 0x03)
        ∷ (0x03, 0x60, 0x02)
        ∷ (0x06, 0x60, 0x02)
        ∷ (0x0a, 0x60, 0x02)
        ∷ (0x0f, 0x60, 0x02)
        ∷ (0x18, 0x60, 0x02)
        ∷ (0x1f, 0x60, 0x02)
        ∷ (0x29, 0x60, 0x02)
        ∷ (0x38, 0x60, 0x03)
        ∷ [])
    ∷ ((0x03, 0x7b, 0x02)
        ∷ (0x06, 0x7b, 0x02)
        ∷ (0x0a, 0x7b, 0x02)
        ∷ (0x0f, 0x7b, 0x02)
        ∷ (0x18, 0x7b, 0x02)
        ∷ (0x1f, 0x7b, 0x02)
        ∷ (0x29, 0x7b, 0x02)
        ∷ (0x38, 0x7b, 0x03)
        ∷ (0x62, 0x00, 0x00)
        ∷ (0x63, 0x00, 0x00)
        ∷ (0x66, 0x00, 0x00)
        ∷ (0x69, 0x00, 0x00)
        ∷ (0x70, 0x00, 0x00)
        ∷ (0x77, 0x00, 0x00)
        ∷ (0x86, 0x00, 0x00)
        ∷ (0x99, 0x00, 0x00)
        ∷ [])
    ∷ ((0x00, 0x5c, 0x02)
        ∷ (0x00, 0xc3, 0x02)
        ∷ (0x00, 0xd0, 0x02)
        ∷ (0x64, 0x00, 0x00)
        ∷ (0x67, 0x00, 0x00)
        ∷ (0x68, 0x00, 0x00)
        ∷ (0x6a, 0x00, 0x00)
        ∷ (0x6b, 0x00, 0x00)
        ∷ (0x71, 0x00, 0x00)
        ∷ (0x74, 0x00, 0x00)
        ∷ (0x78, 0x00, 0x00)
        ∷ (0x7e, 0x00, 0x00)
        ∷ (0x87, 0x00, 0x00)
        ∷ (0x8e, 0x00, 0x00)
        ∷ (0x9a, 0x00, 0x00)
        ∷ (0xa9, 0x00, 0x00)
        ∷ [])
    ∷ []

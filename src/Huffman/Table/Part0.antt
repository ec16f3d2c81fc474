-- ===== src/Huffman/Table/Part0.antt =====
-- ylong_http/src/huffman/consts.rs: `HUFFMAN_DECODE`, states 0 to 31.
use commonlibrary_rust_ylong.Common.{ℕ, List, [], ◌∷◌}

unfoldable pub rows_00 : List (List (ℕ × ℕ × ℕ))
rows_00 =
    ((0x04, 0x00, 0x00)
      ∷ (0x05, 0x00, 0x00)
      ∷ (0x07, 0x00, 0x00)
      ∷ (0x08, 0x00, 0x00)
      ∷ (0x0b, 0x00, 0x00)
      ∷ (0x0c, 0x00, 0x00)
      ∷ (0x10, 0x00, 0x00)
      ∷ (0x13, 0x00, 0x00)
      ∷ (0x19, 0x00, 0x00)
      ∷ (0x1c, 0x00, 0x00)
      ∷ (0x20, 0x00, 0x00)
      ∷ (0x23, 0x00, 0x00)
      ∷ (0x2a, 0x00, 0x00)
      ∷ (0x31, 0x00, 0x00)
      ∷ (0x39, 0x00, 0x00)
      ∷ (0x40, 0x00, 0x01)
      ∷ [])
    ∷ ((0x00, 0x30, 0x02)
        ∷ (0x00, 0x31, 0x02)
        ∷ (0x00, 0x32, 0x02)
        ∷ (0x00, 0x61, 0x02)
        ∷ (0x00, 0x63, 0x02)
        ∷ (0x00, 0x65, 0x02)
        ∷ (0x00, 0x69, 0x02)
        ∷ (0x00, 0x6f, 0x02)
        ∷ (0x00, 0x73, 0x02)
        ∷ (0x00, 0x74, 0x02)
        ∷ (0x0d, 0x00, 0x00)
        ∷ (0x0e, 0x00, 0x00)
        ∷ (0x11, 0x00, 0x00)
        ∷ (0x12, 0x00, 0x00)
        ∷ (0x14, 0x00, 0x00)
        ∷ (0x15, 0x00, 0x00)
        ∷ [])
    ∷ ((0x01, 0x30, 0x02)
        ∷ (0x16, 0x30, 0x03)
        ∷ (0x01, 0x31, 0x02)
        ∷ (0x16, 0x31, 0x03)
        ∷ (0x01, 0x32, 0x02)
        ∷ (0x16, 0x32, 0x03)
        ∷ (0x01, 0x61, 0x02)
        ∷ (0x16, 0x61, 0x03)
        ∷ (0x01, 0x63, 0x02)
        ∷ (0x16, 0x63, 0x03)
        ∷ (0x01, 0x65, 0x02)
        ∷ (0x16, 0x65, 0x03)
        ∷ (0x01, 0x69, 0x02)
        ∷ (0x16, 0x69, 0x03)
        ∷ (0x01, 0x6f, 0x02)
        ∷ (0x16, 0x6f, 0x03)
        ∷ [])
    ∷ ((0x02, 0x30, 0x02)
        ∷ (0x09, 0x30, 0x02)
        ∷ (0x17, 0x30, 0x02)
        ∷ (0x28, 0x30, 0x03)
        ∷ (0x02, 0x31, 0x02)
        ∷ (0x09, 0x31, 0x02)
        ∷ (0x17, 0x31, 0x02)
        ∷ (0x28, 0x31, 0x03)
        ∷ (0x02, 0x32, 0x02)
        ∷ (0x09, 0x32, 0x02)
        ∷ (0x17, 0x32, 0x02)
        ∷ (0x28, 0x32, 0x03)
        ∷ (0x02, 0x61, 0x02)
        ∷ (0x09, 0x61, 0x02)
        ∷ (0x17, 0x61, 0x02)
        ∷ (0x28, 0x61, 0x03)
        ∷ [])
    ∷ ((0x03, 0x30, 0x02)
        ∷ (0x06, 0x30, 0x02)
        ∷ (0x0a, 0x30, 0x02)
        ∷ (0x0f, 0x30, 0x02)
        ∷ (0x18, 0x30, 0x02)
        ∷ (0x1f, 0x30, 0x02)
        ∷ (0x29, 0x30, 0x02)
        ∷ (0x38, 0x30, 0x03)
        ∷ (0x03, 0x31, 0x02)
        ∷ (0x06, 0x31, 0x02)
        ∷ (0x0a, 0x31, 0x02)
        ∷ (0x0f, 0x31, 0x02)
        ∷ (0x18, 0x31, 0x02)
        ∷ (0x1f, 0x31, 0x02)
        ∷ (0x29, 0x31, 0x02)
        ∷ (0x38, 0x31, 0x03)
        ∷ [])
    ∷ ((0x03, 0x32, 0x02)
        ∷ (0x06, 0x32, 0x02)
        ∷ (0x0a, 0x32, 0x02)
        ∷ (0x0f, 0x32, 0x02)
        ∷ (0x18, 0x32, 0x02)
        ∷ (0x1f, 0x32, 0x02)
        ∷ (0x29, 0x32, 0x02)
        ∷ (0x38, 0x32, 0x03)
        ∷ (0x03, 0x61, 0x02)
        ∷ (0x06, 0x61, 0x02)
        ∷ (0x0a, 0x61, 0x02)
        ∷ (0x0f, 0x61, 0x02)
        ∷ (0x18, 0x61, 0x02)
        ∷ (0x1f, 0x61, 0x02)
        ∷ (0x29, 0x61, 0x02)
        ∷ (0x38, 0x61, 0x03)
        ∷ [])
    ∷ ((0x02, 0x63, 0x02)
        ∷ (0x09, 0x63, 0x02)
        ∷ (0x17, 0x63, 0x02)
        ∷ (0x28, 0x63, 0x03)
        ∷ (0x02, 0x65, 0x02)
        ∷ (0x09, 0x65, 0x02)
        ∷ (0x17, 0x65, 0x02)
        ∷ (0x28, 0x65, 0x03)
        ∷ (0x02, 0x69, 0x02)
        ∷ (0x09, 0x69, 0x02)
        ∷ (0x17, 0x69, 0x02)
        ∷ (0x28, 0x69, 0x03)
        ∷ (0x02, 0x6f, 0x02)
        ∷ (0x09, 0x6f, 0x02)
        ∷ (0x17, 0x6f, 0x02)
        ∷ (0x28, 0x6f, 0x03)
        ∷ [])
    ∷ ((0x03, 0x63, 0x02)
        ∷ (0x06, 0x63, 0x02)
        ∷ (0x0a, 0x63, 0x02)
        ∷ (0x0f, 0x63, 0x02)
        ∷ (0x18, 0x63, 0x02)
        ∷ (0x1f, 0x63, 0x02)
        ∷ (0x29, 0x63, 0x02)
        ∷ (0x38, 0x63, 0x03)
        ∷ (0x03, 0x65, 0x02)
        ∷ (0x06, 0x65, 0x02)
        ∷ (0x0a, 0x65, 0x02)
        ∷ (0x0f, 0x65, 0x02)
        ∷ (0x18, 0x65, 0x02)
        ∷ (0x1f, 0x65, 0x02)
        ∷ (0x29, 0x65, 0x02)
        ∷ (0x38, 0x65, 0x03)
        ∷ [])
    ∷ ((0x03, 0x69, 0x02)
        ∷ (0x06, 0x69, 0x02)
        ∷ (0x0a, 0x69, 0x02)
        ∷ (0x0f, 0x69, 0x02)
        ∷ (0x18, 0x69, 0x02)
        ∷ (0x1f, 0x69, 0x02)
        ∷ (0x29, 0x69, 0x02)
        ∷ (0x38, 0x69, 0x03)
        ∷ (0x03, 0x6f, 0x02)
        ∷ (0x06, 0x6f, 0x02)
        ∷ (0x0a, 0x6f, 0x02)
        ∷ (0x0f, 0x6f, 0x02)
        ∷ (0x18, 0x6f, 0x02)
        ∷ (0x1f, 0x6f, 0x02)
        ∷ (0x29, 0x6f, 0x02)
        ∷ (0x38, 0x6f, 0x03)
        ∷ [])
    ∷ ((0x01, 0x73, 0x02)
        ∷ (0x16, 0x73, 0x03)
        ∷ (0x01, 0x74, 0x02)
        ∷ (0x16, 0x74, 0x03)
        ∷ (0x00, 0x20, 0x02)
        ∷ (0x00, 0x25, 0x02)
        ∷ (0x00, 0x2d, 0x02)
        ∷ (0x00, 0x2e, 0x02)
        ∷ (0x00, 0x2f, 0x02)
        ∷ (0x00, 0x33, 0x02)
        ∷ (0x00, 0x34, 0x02)
        ∷ (0x00, 0x35, 0x02)
        ∷ (0x00, 0x36, 0x02)
        ∷ (0x00, 0x37, 0x02)
        ∷ (0x00, 0x38, 0x02)
        ∷ (0x00, 0x39, 0x02)
        ∷ [])
    ∷ ((0x02, 0x73, 0x02)
        ∷ (0x09, 0x73, 0x02)
        ∷ (0x17, 0x73, 0x02)
        ∷ (0x28, 0x73, 0x03)
        ∷ (0x02, 0x74, 0x02)
        ∷ (0x09, 0x74, 0x02)
        ∷ (0x17, 0x74, 0x02)
        ∷ (0x28, 0x74, 0x03)
        ∷ (0x01, 0x20, 0x02)
        ∷ (0x16, 0x20, 0x03)
        ∷ (0x01, 0x25, 0x02)
        ∷ (0x16, 0x25, 0x03)
        ∷ (0x01, 0x2d, 0x02)
        ∷ (0x16, 0x2d, 0x03)
        ∷ (0x01, 0x2e, 0x02)
        ∷ (0x16, 0x2e, 0x03)
        ∷ [])
    ∷ ((0x03, 0x73, 0x02)
        ∷ (0x06, 0x73, 0x02)
        ∷ (0x0a, 0x73, 0x02)
        ∷ (0x0f, 0x73, 0x02)
        ∷ (0x18, 0x73, 0x02)
        ∷ (0x1f, 0x73, 0x02)
        ∷ (0x29, 0x73, 0x02)
        ∷ (0x38, 0x73, 0x03)
        ∷ (0x03, 0x74, 0x02)
        ∷ (0x06, 0x74, 0x02)
        ∷ (0x0a, 0x74, 0x02)
        ∷ (0x0f, 0x74, 0x02)
        ∷ (0x18, 0x74, 0x02)
        ∷ (0x1f, 0x74, 0x02)
        ∷ (0x29, 0x74, 0x02)
        ∷ (0x38, 0x74, 0x03)
        ∷ [])
    ∷ ((0x02, 0x20, 0x02)
        ∷ (0x09, 0x20, 0x02)
        ∷ (0x17, 0x20, 0x02)
        ∷ (0x28, 0x20, 0x03)
        ∷ (0x02, 0x25, 0x02)
        ∷ (0x09, 0x25, 0x02)
        ∷ (0x17, 0x25, 0x02)
        ∷ (0x28, 0x25, 0x03)
        ∷ (0x02, 0x2d, 0x02)
        ∷ (0x09, 0x2d, 0x02)
        ∷ (0x17, 0x2d, 0x02)
        ∷ (0x28, 0x2d, 0x03)
        ∷ (0x02, 0x2e, 0x02)
        ∷ (0x09, 0x2e, 0x02)
        ∷ (0x17, 0x2e, 0x02)
        ∷ (0x28, 0x2e, 0x03)
        ∷ [])
    ∷ ((0x03, 0x20, 0x02)
        ∷ (0x06, 0x20, 0x02)
        ∷ (0x0a, 0x20, 0x02)
        ∷ (0x0f, 0x20, 0x02)
        ∷ (0x18, 0x20, 0x02)
        ∷ (0x1f, 0x20, 0x02)
        ∷ (0x29, 0x20, 0x02)
        ∷ (0x38, 0x20, 0x03)
        ∷ (0x03, 0x25, 0x02)
        ∷ (0x06, 0x25, 0x02)
        ∷ (0x0a, 0x25, 0x02)
        ∷ (0x0f, 0x25, 0x02)
        ∷ (0x18, 0x25, 0x02)
        ∷ (0x1f, 0x25, 0x02)
        ∷ (0x29, 0x25, 0x02)
        ∷ (0x38, 0x25, 0x03)
        ∷ [])
    ∷ ((0x03, 0x2d, 0x02)
        ∷ (0x06, 0x2d, 0x02)
        ∷ (0x0a, 0x2d, 0x02)
        ∷ (0x0f, 0x2d, 0x02)
        ∷ (0x18, 0x2d, 0x02)
        ∷ (0x1f, 0x2d, 0x02)
        ∷ (0x29, 0x2d, 0x02)
        ∷ (0x38, 0x2d, 0x03)
        ∷ (0x03, 0x2e, 0x02)
        ∷ (0x06, 0x2e, 0x02)
        ∷ (0x0a, 0x2e, 0x02)
        ∷ (0x0f, 0x2e, 0x02)
        ∷ (0x18, 0x2e, 0x02)
        ∷ (0x1f, 0x2e, 0x02)
        ∷ (0x29, 0x2e, 0x02)
        ∷ (0x38, 0x2e, 0x03)
        ∷ [])
    ∷ ((0x01, 0x2f, 0x02)
        ∷ (0x16, 0x2f, 0x03)
        ∷ (0x01, 0x33, 0x02)
        ∷ (0x16, 0x33, 0x03)
        ∷ (0x01, 0x34, 0x02)
        ∷ (0x16, 0x34, 0x03)
        ∷ (0x01, 0x35, 0x02)
        ∷ (0x16, 0x35, 0x03)
        ∷ (0x01, 0x36, 0x02)
        ∷ (0x16, 0x36, 0x03)
        ∷ (0x01, 0x37, 0x02)
        ∷ (0x16, 0x37, 0x03)
        ∷ (0x01, 0x38, 0x02)
        ∷ (0x16, 0x38, 0x03)
        ∷ (0x01, 0x39, 0x02)
        ∷ (0x16, 0x39, 0x03)
        ∷ [])
    ∷ []

unfoldable pub rows_10 : List (List (ℕ × ℕ × ℕ))
rows_10 =
    ((0x02, 0x2f, 0x02)
      ∷ (0x09, 0x2f, 0x02)
      ∷ (0x17, 0x2f, 0x02)
      ∷ (0x28, 0x2f, 0x03)
      ∷ (0x02, 0x33, 0x02)
      ∷ (0x09, 0x33, 0x02)
      ∷ (0x17, 0x33, 0x02)
      ∷ (0x28, 0x33, 0x03)
      ∷ (0x02, 0x34, 0x02)
      ∷ (0x09, 0x34, 0x02)
      ∷ (0x17, 0x34, 0x02)
      ∷ (0x28, 0x34, 0x03)
      ∷ (0x02, 0x35, 0x02)
      ∷ (0x09, 0x35, 0x02)
      ∷ (0x17, 0x35, 0x02)
      ∷ (0x28, 0x35, 0x03)
      ∷ [])
    ∷ ((0x03, 0x2f, 0x02)
        ∷ (0x06, 0x2f, 0x02)
        ∷ (0x0a, 0x2f, 0x02)
        ∷ (0x0f, 0x2f, 0x02)
        ∷ (0x18, 0x2f, 0x02)
        ∷ (0x1f, 0x2f, 0x02)
        ∷ (0x29, 0x2f, 0x02)
        ∷ (0x38, 0x2f, 0x03)
        ∷ (0x03, 0x33, 0x02)
        ∷ (0x06, 0x33, 0x02)
        ∷ (0x0a, 0x33, 0x02)
        ∷ (0x0f, 0x33, 0x02)
        ∷ (0x18, 0x33, 0x02)
        ∷ (0x1f, 0x33, 0x02)
        ∷ (0x29, 0x33, 0x02)
        ∷ (0x38, 0x33, 0x03)
        ∷ [])
    ∷ ((0x03, 0x34, 0x02)
        ∷ (0x06, 0x34, 0x02)
        ∷ (0x0a, 0x34, 0x02)
        ∷ (0x0f, 0x34, 0x02)
        ∷ (0x18, 0x34, 0x02)
        ∷ (0x1f, 0x34, 0x02)
        ∷ (0x29, 0x34, 0x02)
        ∷ (0x38, 0x34, 0x03)
        ∷ (0x03, 0x35, 0x02)
        ∷ (0x06, 0x35, 0x02)
        ∷ (0x0a, 0x35, 0x02)
        ∷ (0x0f, 0x35, 0x02)
        ∷ (0x18, 0x35, 0x02)
        ∷ (0x1f, 0x35, 0x02)
        ∷ (0x29, 0x35, 0x02)
        ∷ (0x38, 0x35, 0x03)
        ∷ [])
    ∷ ((0x02, 0x36, 0x02)
        ∷ (0x09, 0x36, 0x02)
        ∷ (0x17, 0x36, 0x02)
        ∷ (0x28, 0x36, 0x03)
        ∷ (0x02, 0x37, 0x02)
        ∷ (0x09, 0x37, 0x02)
        ∷ (0x17, 0x37, 0x02)
        ∷ (0x28, 0x37, 0x03)
        ∷ (0x02, 0x38, 0x02)
        ∷ (0x09, 0x38, 0x02)
        ∷ (0x17, 0x38, 0x02)
        ∷ (0x28, 0x38, 0x03)
        ∷ (0x02, 0x39, 0x02)
        ∷ (0x09, 0x39, 0x02)
        ∷ (0x17, 0x39, 0x02)
        ∷ (0x28, 0x39, 0x03)
        ∷ [])
    ∷ ((0x03, 0x36, 0x02)
        ∷ (0x06, 0x36, 0x02)
        ∷ (0x0a, 0x36, 0x02)
        ∷ (0x0f, 0x36, 0x02)
        ∷ (0x18, 0x36, 0x02)
        ∷ (0x1f, 0x36, 0x02)
        ∷ (0x29, 0x36, 0x02)
        ∷ (0x38, 0x36, 0x03)
        ∷ (0x03, 0x37, 0x02)
        ∷ (0x06, 0x37, 0x02)
        ∷ (0x0a, 0x37, 0x02)
        ∷ (0x0f, 0x37, 0x02)
        ∷ (0x18, 0x37, 0x02)
        ∷ (0x1f, 0x37, 0x02)
        ∷ (0x29, 0x37, 0x02)
        ∷ (0x38, 0x37, 0x03)
        ∷ [])
    ∷ ((0x03, 0x38, 0x02)
        ∷ (0x06, 0x38, 0x02)
        ∷ (0x0a, 0x38, 0x02)
        ∷ (0x0f, 0x38, 0x02)
        ∷ (0x18, 0x38, 0x02)
        ∷ (0x1f, 0x38, 0x02)
        ∷ (0x29, 0x38, 0x02)
        ∷ (0x38, 0x38, 0x03)
        ∷ (0x03, 0x39, 0x02)
        ∷ (0x06, 0x39, 0x02)
        ∷ (0x0a, 0x39, 0x02)
        ∷ (0x0f, 0x39, 0x02)
        ∷ (0x18, 0x39, 0x02)
        ∷ (0x1f, 0x39, 0x02)
        ∷ (0x29, 0x39, 0x02)
        ∷ (0x38, 0x39, 0x03)
        ∷ [])
    ∷ ((0x1a, 0x00, 0x00)
        ∷ (0x1b, 0x00, 0x00)
        ∷ (0x1d, 0x00, 0x00)
        ∷ (0x1e, 0x00, 0x00)
        ∷ (0x21, 0x00, 0x00)
        ∷ (0x22, 0x00, 0x00)
        ∷ (0x24, 0x00, 0x00)
        ∷ (0x25, 0x00, 0x00)
        ∷ (0x2b, 0x00, 0x00)
        ∷ (0x2e, 0x00, 0x00)
        ∷ (0x32, 0x00, 0x00)
        ∷ (0x35, 0x00, 0x00)
        ∷ (0x3a, 0x00, 0x00)
        ∷ (0x3d, 0x00, 0x00)
        ∷ (0x41, 0x00, 0x00)
        ∷ (0x44, 0x00, 0x01)
        ∷ [])
    ∷ ((0x00, 0x3d, 0x02)
        ∷ (0x00, 0x41, 0x02)
        ∷ (0x00, 0x5f, 0x02)
        ∷ (0x00, 0x62, 0x02)
        ∷ (0x00, 0x64, 0x02)
        ∷ (0x00, 0x66, 0x02)
        ∷ (0x00, 0x67, 0x02)
        ∷ (0x00, 0x68, 0x02)
        ∷ (0x00, 0x6c, 0x02)
        ∷ (0x00, 0x6d, 0x02)
        ∷ (0x00, 0x6e, 0x02)
        ∷ (0x00, 0x70, 0x02)
        ∷ (0x00, 0x72, 0x02)
        ∷ (0x00, 0x75, 0x02)
        ∷ (0x26, 0x00, 0x00)
        ∷ (0x27, 0x00, 0x00)
        ∷ [])
    ∷ ((0x01, 0x3d, 0x02)
        ∷ (0x16, 0x3d, 0x03)
        ∷ (0x01, 0x41, 0x02)
        ∷ (0x16, 0x41, 0x03)
        ∷ (0x01, 0x5f, 0x02)
        ∷ (0x16, 0x5f, 0x03)
        ∷ (0x01, 0x62, 0x02)
        ∷ (0x16, 0x62, 0x03)
        ∷ (0x01, 0x64, 0x02)
        ∷ (0x16, 0x64, 0x03)
        ∷ (0x01, 0x66, 0x02)
        ∷ (0x16, 0x66, 0x03)
        ∷ (0x01, 0x67, 0x02)
        ∷ (0x16, 0x67, 0x03)
        ∷ (0x01, 0x68, 0x02)
        ∷ (0x16, 0x68, 0x03)
        ∷ [])
    ∷ ((0x02, 0x3d, 0x02)
        ∷ (0x09, 0x3d, 0x02)
        ∷ (0x17, 0x3d, 0x02)
        ∷ (0x28, 0x3d, 0x03)
        ∷ (0x02, 0x41, 0x02)
        ∷ (0x09, 0x41, 0x02)
        ∷ (0x17, 0x41, 0x02)
        ∷ (0x28, 0x41, 0x03)
        ∷ (0x02, 0x5f, 0x02)
        ∷ (0x09, 0x5f, 0x02)
        ∷ (0x17, 0x5f, 0x02)
        ∷ (0x28, 0x5f, 0x03)
        ∷ (0x02, 0x62, 0x02)
        ∷ (0x09, 0x62, 0x02)
        ∷ (0x17, 0x62, 0x02)
        ∷ (0x28, 0x62, 0x03)
        ∷ [])
    ∷ ((0x03, 0x3d, 0x02)
        ∷ (0x06, 0x3d, 0x02)
        ∷ (0x0a, 0x3d, 0x02)
        ∷ (0x0f, 0x3d, 0x02)
        ∷ (0x18, 0x3d, 0x02)
        ∷ (0x1f, 0x3d, 0x02)
        ∷ (0x29, 0x3d, 0x02)
        ∷ (0x38, 0x3d, 0x03)
        ∷ (0x03, 0x41, 0x02)
        ∷ (0x06, 0x41, 0x02)
        ∷ (0x0a, 0x41, 0x02)
        ∷ (0x0f, 0x41, 0x02)
        ∷ (0x18, 0x41, 0x02)
        ∷ (0x1f, 0x41, 0x02)
        ∷ (0x29, 0x41, 0x02)
        ∷ (0x38, 0x41, 0x03)
        ∷ [])
    ∷ ((0x03, 0x5f, 0x02)
        ∷ (0x06, 0x5f, 0x02)
        ∷ (0x0a, 0x5f, 0x02)
        ∷ (0x0f, 0x5f, 0x02)
        ∷ (0x18, 0x5f, 0x02)
        ∷ (0x1f, 0x5f, 0x02)
        ∷ (0x29, 0x5f, 0x02)
        ∷ (0x38, 0x5f, 0x03)
        ∷ (0x03, 0x62, 0x02)
        ∷ (0x06, 0x62, 0x02)
        ∷ (0x0a, 0x62, 0x02)
        ∷ (0x0f, 0x62, 0x02)
        ∷ (0x18, 0x62, 0x02)
        ∷ (0x1f, 0x62, 0x02)
        ∷ (0x29, 0x62, 0x02)
        ∷ (0x38, 0x62, 0x03)
        ∷ [])
    ∷ ((0x02, 0x64, 0x02)
        ∷ (0x09, 0x64, 0x02)
        ∷ (0x17, 0x64, 0x02)
        ∷ (0x28, 0x64, 0x03)
        ∷ (0x02, 0x66, 0x02)
        ∷ (0x09, 0x66, 0x02)
        ∷ (0x17, 0x66, 0x02)
        ∷ (0x28, 0x66, 0x03)
        ∷ (0x02, 0x67, 0x02)
        ∷ (0x09, 0x67, 0x02)
        ∷ (0x17, 0x67, 0x02)
        ∷ (0x28, 0x67, 0x03)
        ∷ (0x02, 0x68, 0x02)
        ∷ (0x09, 0x68, 0x02)
        ∷ (0x17, 0x68, 0x02)
        ∷ (0x28, 0x68, 0x03)
        ∷ [])
    ∷ ((0x03, 0x64, 0x02)
        ∷ (0x06, 0x64, 0x02)
        ∷ (0x0a, 0x64, 0x02)
        ∷ (0x0f, 0x64, 0x02)
        ∷ (0x18, 0x64, 0x02)
        ∷ (0x1f, 0x64, 0x02)
        ∷ (0x29, 0x64, 0x02)
        ∷ (0x38, 0x64, 0x03)
        ∷ (0x03, 0x66, 0x02)
        ∷ (0x06, 0x66, 0x02)
        ∷ (0x0a, 0x66, 0x02)
        ∷ (0x0f, 0x66, 0x02)
        ∷ (0x18, 0x66, 0x02)
        ∷ (0x1f, 0x66, 0x02)
        ∷ (0x29, 0x66, 0x02)
        ∷ (0x38, 0x66, 0x03)
        ∷ [])
    ∷ ((0x03, 0x67, 0x02)
        ∷ (0x06, 0x67, 0x02)
        ∷ (0x0a, 0x67, 0x02)
        ∷ (0x0f, 0x67, 0x02)
        ∷ (0x18, 0x67, 0x02)
        ∷ (0x1f, 0x67, 0x02)
        ∷ (0x29, 0x67, 0x02)
        ∷ (0x38, 0x67, 0x03)
        ∷ (0x03, 0x68, 0x02)
        ∷ (0x06, 0x68, 0x02)
        ∷ (0x0a, 0x68, 0x02)
        ∷ (0x0f, 0x68, 0x02)
        ∷ (0x18, 0x68, 0x02)
        ∷ (0x1f, 0x68, 0x02)
        ∷ (0x29, 0x68, 0x02)
        ∷ (0x38, 0x68, 0x03)
        ∷ [])
    ∷ ((0x01, 0x6c, 0x02)
        ∷ (0x16, 0x6c, 0x03)
        ∷ (0x01, 0x6d, 0x02)
        ∷ (0x16, 0x6d, 0x03)
        ∷ (0x01, 0x6e, 0x02)
        ∷ (0x16, 0x6e, 0x03)
        ∷ (0x01, 0x70, 0x02)
        ∷ (0x16, 0x70, 0x03)
        ∷ (0x01, 0x72, 0x02)
        ∷ (0x16, 0x72, 0x03)
        ∷ (0x01, 0x75, 0x02)
        ∷ (0x16, 0x75, 0x03)
        ∷ (0x00, 0x3a, 0x02)
        ∷ (0x00, 0x42, 0x02)
        ∷ (0x00, 0x43, 0x02)
        ∷ (0x00, 0x44, 0x02)
        ∷ [])
    ∷ []

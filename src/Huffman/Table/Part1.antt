-- ===== src/Huffman/Table/Part1.antt =====
-- ylong_http/src/huffman/consts.rs: `HUFFMAN_DECODE`, states 32 to 63.
use commonlibrary_rust_ylong.Common.{ℕ, List, [], ◌∷◌}

unfoldable pub rows_20 : List (List (ℕ × ℕ × ℕ))
rows_20 =
    ((0x02, 0x6c, 0x02)
      ∷ (0x09, 0x6c, 0x02)
      ∷ (0x17, 0x6c, 0x02)
      ∷ (0x28, 0x6c, 0x03)
      ∷ (0x02, 0x6d, 0x02)
      ∷ (0x09, 0x6d, 0x02)
      ∷ (0x17, 0x6d, 0x02)
      ∷ (0x28, 0x6d, 0x03)
      ∷ (0x02, 0x6e, 0x02)
      ∷ (0x09, 0x6e, 0x02)
      ∷ (0x17, 0x6e, 0x02)
      ∷ (0x28, 0x6e, 0x03)
      ∷ (0x02, 0x70, 0x02)
      ∷ (0x09, 0x70, 0x02)
      ∷ (0x17, 0x70, 0x02)
      ∷ (0x28, 0x70, 0x03)
      ∷ [])
    ∷ ((0x03, 0x6c, 0x02)
        ∷ (0x06, 0x6c, 0x02)
        ∷ (0x0a, 0x6c, 0x02)
        ∷ (0x0f, 0x6c, 0x02)
        ∷ (0x18, 0x6c, 0x02)
        ∷ (0x1f, 0x6c, 0x02)
        ∷ (0x29, 0x6c, 0x02)
        ∷ (0x38, 0x6c, 0x03)
        ∷ (0x03, 0x6d, 0x02)
        ∷ (0x06, 0x6d, 0x02)
        ∷ (0x0a, 0x6d, 0x02)
        ∷ (0x0f, 0x6d, 0x02)
        ∷ (0x18, 0x6d, 0x02)
        ∷ (0x1f, 0x6d, 0x02)
        ∷ (0x29, 0x6d, 0x02)
        ∷ (0x38, 0x6d, 0x03)
        ∷ [])
    ∷ ((0x03, 0x6e, 0x02)
        ∷ (0x06, 0x6e, 0x02)
        ∷ (0x0a, 0x6e, 0x02)
        ∷ (0x0f, 0x6e, 0x02)
        ∷ (0x18, 0x6e, 0x02)
        ∷ (0x1f, 0x6e, 0x02)
        ∷ (0x29, 0x6e, 0x02)
        ∷ (0x38, 0x6e, 0x03)
        ∷ (0x03, 0x70, 0x02)
        ∷ (0x06, 0x70, 0x02)
        ∷ (0x0a, 0x70, 0x02)
        ∷ (0x0f, 0x70, 0x02)
        ∷ (0x18, 0x70, 0x02)
        ∷ (0x1f, 0x70, 0x02)
        ∷ (0x29, 0x70, 0x02)
        ∷ (0x38, 0x70, 0x03)
        ∷ [])
    ∷ ((0x02, 0x72, 0x02)
        ∷ (0x09, 0x72, 0x02)
        ∷ (0x17, 0x72, 0x02)
        ∷ (0x28, 0x72, 0x03)
        ∷ (0x02, 0x75, 0x02)
        ∷ (0x09, 0x75, 0x02)
        ∷ (0x17, 0x75, 0x02)
        ∷ (0x28, 0x75, 0x03)
        ∷ (0x01, 0x3a, 0x02)
        ∷ (0x16, 0x3a, 0x03)
        ∷ (0x01, 0x42, 0x02)
        ∷ (0x16, 0x42, 0x03)
        ∷ (0x01, 0x43, 0x02)
        ∷ (0x16, 0x43, 0x03)
        ∷ (0x01, 0x44, 0x02)
        ∷ (0x16, 0x44, 0x03)
        ∷ [])
    ∷ ((0x03, 0x72, 0x02)
        ∷ (0x06, 0x72, 0x02)
        ∷ (0x0a, 0x72, 0x02)
        ∷ (0x0f, 0x72, 0x02)
        ∷ (0x18, 0x72, 0x02)
        ∷ (0x1f, 0x72, 0x02)
        ∷ (0x29, 0x72, 0x02)
        ∷ (0x38, 0x72, 0x03)
        ∷ (0x03, 0x75, 0x02)
        ∷ (0x06, 0x75, 0x02)
        ∷ (0x0a, 0x75, 0x02)
        ∷ (0x0f, 0x75, 0x02)
        ∷ (0x18, 0x75, 0x02)
        ∷ (0x1f, 0x75, 0x02)
        ∷ (0x29, 0x75, 0x02)
        ∷ (0x38, 0x75, 0x03)
        ∷ [])
    ∷ ((0x02, 0x3a, 0x02)
        ∷ (0x09, 0x3a, 0x02)
        ∷ (0x17, 0x3a, 0x02)
        ∷ (0x28, 0x3a, 0x03)
        ∷ (0x02, 0x42, 0x02)
        ∷ (0x09, 0x42, 0x02)
        ∷ (0x17, 0x42, 0x02)
        ∷ (0x28, 0x42, 0x03)
        ∷ (0x02, 0x43, 0x02)
        ∷ (0x09, 0x43, 0x02)
        ∷ (0x17, 0x43, 0x02)
        ∷ (0x28, 0x43, 0x03)
        ∷ (0x02, 0x44, 0x02)
        ∷ (0x09, 0x44, 0x02)
        ∷ (0x17, 0x44, 0x02)
        ∷ (0x28, 0x44, 0x03)
        ∷ [])
    ∷ ((0x03, 0x3a, 0x02)
        ∷ (0x06, 0x3a, 0x02)
        ∷ (0x0a, 0x3a, 0x02)
        ∷ (0x0f, 0x3a, 0x02)
        ∷ (0x18, 0x3a, 0x02)
        ∷ (0x1f, 0x3a, 0x02)
        ∷ (0x29, 0x3a, 0x02)
        ∷ (0x38, 0x3a, 0x03)
        ∷ (0x03, 0x42, 0x02)
        ∷ (0x06, 0x42, 0x02)
        ∷ (0x0a, 0x42, 0x02)
        ∷ (0x0f, 0x42, 0x02)
        ∷ (0x18, 0x42, 0x02)
        ∷ (0x1f, 0x42, 0x02)
        ∷ (0x29, 0x42, 0x02)
        ∷ (0x38, 0x42, 0x03)
        ∷ [])
    ∷ ((0x03, 0x43, 0x02)
        ∷ (0x06, 0x43, 0x02)
        ∷ (0x0a, 0x43, 0x02)
        ∷ (0x0f, 0x43, 0x02)
        ∷ (0x18, 0x43, 0x02)
        ∷ (0x1f, 0x43, 0x02)
        ∷ (0x29, 0x43, 0x02)
        ∷ (0x38, 0x43, 0x03)
        ∷ (0x03, 0x44, 0x02)
        ∷ (0x06, 0x44, 0x02)
        ∷ (0x0a, 0x44, 0x02)
        ∷ (0x0f, 0x44, 0x02)
        ∷ (0x18, 0x44, 0x02)
        ∷ (0x1f, 0x44, 0x02)
        ∷ (0x29, 0x44, 0x02)
        ∷ (0x38, 0x44, 0x03)
        ∷ [])
    ∷ ((0x2c, 0x00, 0x00)
        ∷ (0x2d, 0x00, 0x00)
        ∷ (0x2f, 0x00, 0x00)
        ∷ (0x30, 0x00, 0x00)
        ∷ (0x33, 0x00, 0x00)
        ∷ (0x34, 0x00, 0x00)
        ∷ (0x36, 0x00, 0x00)
        ∷ (0x37, 0x00, 0x00)
        ∷ (0x3b, 0x00, 0x00)
        ∷ (0x3c, 0x00, 0x00)
        ∷ (0x3e, 0x00, 0x00)
        ∷ (0x3f, 0x00, 0x00)
        ∷ (0x42, 0x00, 0x00)
        ∷ (0x43, 0x00, 0x00)
        ∷ (0x45, 0x00, 0x00)
        ∷ (0x48, 0x00, 0x01)
        ∷ [])
    ∷ ((0x00, 0x45, 0x02)
        ∷ (0x00, 0x46, 0x02)
        ∷ (0x00, 0x47, 0x02)
        ∷ (0x00, 0x48, 0x02)
        ∷ (0x00, 0x49, 0x02)
        ∷ (0x00, 0x4a, 0x02)
        ∷ (0x00, 0x4b, 0x02)
        ∷ (0x00, 0x4c, 0x02)
        ∷ (0x00, 0x4d, 0x02)
        ∷ (0x00, 0x4e, 0x02)
        ∷ (0x00, 0x4f, 0x02)
        ∷ (0x00, 0x50, 0x02)
        ∷ (0x00, 0x51, 0x02)
        ∷ (0x00, 0x52, 0x02)
        ∷ (0x00, 0x53, 0x02)
        ∷ (0x00, 0x54, 0x02)
        ∷ [])
    ∷ ((0x01, 0x45, 0x02)
        ∷ (0x16, 0x45, 0x03)
        ∷ (0x01, 0x46, 0x02)
        ∷ (0x16, 0x46, 0x03)
        ∷ (0x01, 0x47, 0x02)
        ∷ (0x16, 0x47, 0x03)
        ∷ (0x01, 0x48, 0x02)
        ∷ (0x16, 0x48, 0x03)
        ∷ (0x01, 0x49, 0x02)
        ∷ (0x16, 0x49, 0x03)
        ∷ (0x01, 0x4a, 0x02)
        ∷ (0x16, 0x4a, 0x03)
        ∷ (0x01, 0x4b, 0x02)
        ∷ (0x16, 0x4b, 0x03)
        ∷ (0x01, 0x4c, 0x02)
        ∷ (0x16, 0x4c, 0x03)
        ∷ [])
    ∷ ((0x02, 0x45, 0x02)
        ∷ (0x09, 0x45, 0x02)
        ∷ (0x17, 0x45, 0x02)
        ∷ (0x28, 0x45, 0x03)
        ∷ (0x02, 0x46, 0x02)
        ∷ (0x09, 0x46, 0x02)
        ∷ (0x17, 0x46, 0x02)
        ∷ (0x28, 0x46, 0x03)
        ∷ (0x02, 0x47, 0x02)
        ∷ (0x09, 0x47, 0x02)
        ∷ (0x17, 0x47, 0x02)
        ∷ (0x28, 0x47, 0x03)
        ∷ (0x02, 0x48, 0x02)
        ∷ (0x09, 0x48, 0x02)
        ∷ (0x17, 0x48, 0x02)
        ∷ (0x28, 0x48, 0x03)
        ∷ [])
    ∷ ((0x03, 0x45, 0x02)
        ∷ (0x06, 0x45, 0x02)
        ∷ (0x0a, 0x45, 0x02)
        ∷ (0x0f, 0x45, 0x02)
        ∷ (0x18, 0x45, 0x02)
        ∷ (0x1f, 0x45, 0x02)
        ∷ (0x29, 0x45, 0x02)
        ∷ (0x38, 0x45, 0x03)
        ∷ (0x03, 0x46, 0x02)
        ∷ (0x06, 0x46, 0x02)
        ∷ (0x0a, 0x46, 0x02)
        ∷ (0x0f, 0x46, 0x02)
        ∷ (0x18, 0x46, 0x02)
        ∷ (0x1f, 0x46, 0x02)
        ∷ (0x29, 0x46, 0x02)
        ∷ (0x38, 0x46, 0x03)
        ∷ [])
    ∷ ((0x03, 0x47, 0x02)
        ∷ (0x06, 0x47, 0x02)
        ∷ (0x0a, 0x47, 0x02)
        ∷ (0x0f, 0x47, 0x02)
        ∷ (0x18, 0x47, 0x02)
        ∷ (0x1f, 0x47, 0x02)
        ∷ (0x29, 0x47, 0x02)
        ∷ (0x38, 0x47, 0x03)
        ∷ (0x03, 0x48, 0x02)
        ∷ (0x06, 0x48, 0x02)
        ∷ (0x0a, 0x48, 0x02)
        ∷ (0x0f, 0x48, 0x02)
        ∷ (0x18, 0x48, 0x02)
        ∷ (0x1f, 0x48, 0x02)
        ∷ (0x29, 0x48, 0x02)
        ∷ (0x38, 0x48, 0x03)
        ∷ [])
    ∷ ((0x02, 0x49, 0x02)
        ∷ (0x09, 0x49, 0x02)
        ∷ (0x17, 0x49, 0x02)
        ∷ (0x28, 0x49, 0x03)
        ∷ (0x02, 0x4a, 0x02)
        ∷ (0x09, 0x4a, 0x02)
        ∷ (0x17, 0x4a, 0x02)
        ∷ (0x28, 0x4a, 0x03)
        ∷ (0x02, 0x4b, 0x02)
        ∷ (0x09, 0x4b, 0x02)
        ∷ (0x17, 0x4b, 0x02)
        ∷ (0x28, 0x4b, 0x03)
        ∷ (0x02, 0x4c, 0x02)
        ∷ (0x09, 0x4c, 0x02)
        ∷ (0x17, 0x4c, 0x02)
        ∷ (0x28, 0x4c, 0x03)
        ∷ [])
    ∷ ((0x03, 0x49, 0x02)
        ∷ (0x06, 0x49, 0x02)
        ∷ (0x0a, 0x49, 0x02)
        ∷ (0x0f, 0x49, 0x02)
        ∷ (0x18, 0x49, 0x02)
        ∷ (0x1f, 0x49, 0x02)
        ∷ (0x29, 0x49, 0x02)
        ∷ (0x38, 0x49, 0x03)
        ∷ (0x03, 0x4a, 0x02)
        ∷ (0x06, 0x4a, 0x02)
        ∷ (0x0a, 0x4a, 0x02)
        ∷ (0x0f, 0x4a, 0x02)
        ∷ (0x18, 0x4a, 0x02)
        ∷ (0x1f, 0x4a, 0x02)
        ∷ (0x29, 0x4a, 0x02)
        ∷ (0x38, 0x4a, 0x03)
        ∷ [])
    ∷ []

unfoldable pub rows_30 : List (List (ℕ × ℕ × ℕ))
rows_30 =
    ((0x03, 0x4b, 0x02)
      ∷ (0x06, 0x4b, 0x02)
      ∷ (0x0a, 0x4b, 0x02)
      ∷ (0x0f, 0x4b, 0x02)
      ∷ (0x18, 0x4b, 0x02)
      ∷ (0x1f, 0x4b, 0x02)
      ∷ (0x29, 0x4b, 0x02)
      ∷ (0x38, 0x4b, 0x03)
      ∷ (0x03, 0x4c, 0x02)
      ∷ (0x06, 0x4c, 0x02)
      ∷ (0x0a, 0x4c, 0x02)
      ∷ (0x0f, 0x4c, 0x02)
      ∷ (0x18, 0x4c, 0x02)
      ∷ (0x1f, 0x4c, 0x02)
      ∷ (0x29, 0x4c, 0x02)
      ∷ (0x38, 0x4c, 0x03)
      ∷ [])
    ∷ ((0x01, 0x4d, 0x02)
        ∷ (0x16, 0x4d, 0x03)
        ∷ (0x01, 0x4e, 0x02)
        ∷ (0x16, 0x4e, 0x03)
        ∷ (0x01, 0x4f, 0x02)
        ∷ (0x16, 0x4f, 0x03)
        ∷ (0x01, 0x50, 0x02)
        ∷ (0x16, 0x50, 0x03)
        ∷ (0x01, 0x51, 0x02)
        ∷ (0x16, 0x51, 0x03)
        ∷ (0x01, 0x52, 0x02)
        ∷ (0x16, 0x52, 0x03)
        ∷ (0x01, 0x53, 0x02)
        ∷ (0x16, 0x53, 0x03)
        ∷ (0x01, 0x54, 0x02)
        ∷ (0x16, 0x54, 0x03)
        ∷ [])
    ∷ ((0x02, 0x4d, 0x02)
        ∷ (0x09, 0x4d, 0x02)
        ∷ (0x17, 0x4d, 0x02)
        ∷ (0x28, 0x4d, 0x03)
        ∷ (0x02, 0x4e, 0x02)
        ∷ (0x09, 0x4e, 0x02)
        ∷ (0x17, 0x4e, 0x02)
        ∷ (0x28, 0x4e, 0x03)
        ∷ (0x02, 0x4f, 0x02)
        ∷ (0x09, 0x4f, 0x02)
        ∷ (0x17, 0x4f, 0x02)
        ∷ (0x28, 0x4f, 0x03)
        ∷ (0x02, 0x50, 0x02)
        ∷ (0x09, 0x50, 0x02)
        ∷ (0x17, 0x50, 0x02)
        ∷ (0x28, 0x50, 0x03)
        ∷ [])
    ∷ ((0x03, 0x4d, 0x02)
        ∷ (0x06, 0x4d, 0x02)
        ∷ (0x0a, 0x4d, 0x02)
        ∷ (0x0f, 0x4d, 0x02)
        ∷ (0x18, 0x4d, 0x02)
        ∷ (0x1f, 0x4d, 0x02)
        ∷ (0x29, 0x4d, 0x02)
        ∷ (0x38, 0x4d, 0x03)
        ∷ (0x03, 0x4e, 0x02)
        ∷ (0x06, 0x4e, 0x02)
        ∷ (0x0a, 0x4e, 0x02)
        ∷ (0x0f, 0x4e, 0x02)
        ∷ (0x18, 0x4e, 0x02)
        ∷ (0x1f, 0x4e, 0x02)
        ∷ (0x29, 0x4e, 0x02)
        ∷ (0x38, 0x4e, 0x03)
        ∷ [])
    ∷ ((0x03, 0x4f, 0x02)
        ∷ (0x06, 0x4f, 0x02)
        ∷ (0x0a, 0x4f, 0x02)
        ∷ (0x0f, 0x4f, 0x02)
        ∷ (0x18, 0x4f, 0x02)
        ∷ (0x1f, 0x4f, 0x02)
        ∷ (0x29, 0x4f, 0x02)
        ∷ (0x38, 0x4f, 0x03)
        ∷ (0x03, 0x50, 0x02)
        ∷ (0x06, 0x50, 0x02)
        ∷ (0x0a, 0x50, 0x02)
        ∷ (0x0f, 0x50, 0x02)
        ∷ (0x18, 0x50, 0x02)
        ∷ (0x1f, 0x50, 0x02)
        ∷ (0x29, 0x50, 0x02)
        ∷ (0x38, 0x50, 0x03)
        ∷ [])
    ∷ ((0x02, 0x51, 0x02)
        ∷ (0x09, 0x51, 0x02)
        ∷ (0x17, 0x51, 0x02)
        ∷ (0x28, 0x51, 0x03)
        ∷ (0x02, 0x52, 0x02)
        ∷ (0x09, 0x52, 0x02)
        ∷ (0x17, 0x52, 0x02)
        ∷ (0x28, 0x52, 0x03)
        ∷ (0x02, 0x53, 0x02)
        ∷ (0x09, 0x53, 0x02)
        ∷ (0x17, 0x53, 0x02)
        ∷ (0x28, 0x53, 0x03)
        ∷ (0x02, 0x54, 0x02)
        ∷ (0x09, 0x54, 0x02)
        ∷ (0x17, 0x54, 0x02)
        ∷ (0x28, 0x54, 0x03)
        ∷ [])
    ∷ ((0x03, 0x51, 0x02)
        ∷ (0x06, 0x51, 0x02)
        ∷ (0x0a, 0x51, 0x02)
        ∷ (0x0f, 0x51, 0x02)
        ∷ (0x18, 0x51, 0x02)
        ∷ (0x1f, 0x51, 0x02)
        ∷ (0x29, 0x51, 0x02)
        ∷ (0x38, 0x51, 0x03)
        ∷ (0x03, 0x52, 0x02)
        ∷ (0x06, 0x52, 0x02)
        ∷ (0x0a, 0x52, 0x02)
        ∷ (0x0f, 0x52, 0x02)
        ∷ (0x18, 0x52, 0x02)
        ∷ (0x1f, 0x52, 0x02)
        ∷ (0x29, 0x52, 0x02)
        ∷ (0x38, 0x52, 0x03)
        ∷ [])
    ∷ ((0x03, 0x53, 0x02)
        ∷ (0x06, 0x53, 0x02)
        ∷ (0x0a, 0x53, 0x02)
        ∷ (0x0f, 0x53, 0x02)
        ∷ (0x18, 0x53, 0x02)
        ∷ (0x1f, 0x53, 0x02)
        ∷ (0x29, 0x53, 0x02)
        ∷ (0x38, 0x53, 0x03)
        ∷ (0x03, 0x54, 0x02)
        ∷ (0x06, 0x54, 0x02)
        ∷ (0x0a, 0x54, 0x02)
        ∷ (0x0f, 0x54, 0x02)
        ∷ (0x18, 0x54, 0x02)
        ∷ (0x1f, 0x54, 0x02)
        ∷ (0x29, 0x54, 0x02)
        ∷ (0x38, 0x54, 0x03)
        ∷ [])
    ∷ ((0x00, 0x55, 0x02)
        ∷ (0x00, 0x56, 0x02)
        ∷ (0x00, 0x57, 0x02)
        ∷ (0x00, 0x59, 0x02)
        ∷ (0x00, 0x6a, 0x02)
        ∷ (0x00, 0x6b, 0x02)
        ∷ (0x00, 0x71, 0x02)
        ∷ (0x00, 0x76, 0x02)
        ∷ (0x00, 0x77, 0x02)
        ∷ (0x00, 0x78, 0x02)
        ∷ (0x00, 0x79, 0x02)
        ∷ (0x00, 0x7a, 0x02)
        ∷ (0x46, 0x00, 0x00)
        ∷ (0x47, 0x00, 0x00)
        ∷ (0x49, 0x00, 0x00)
        ∷ (0x4a, 0x00, 0x01)
        ∷ [])
    ∷ ((0x01, 0x55, 0x02)
        ∷ (0x16, 0x55, 0x03)
        ∷ (0x01, 0x56, 0x02)
        ∷ (0x16, 0x56, 0x03)
        ∷ (0x01, 0x57, 0x02)
        ∷ (0x16, 0x57, 0x03)
        ∷ (0x01, 0x59, 0x02)
        ∷ (0x16, 0x59, 0x03)
        ∷ (0x01, 0x6a, 0x02)
        ∷ (0x16, 0x6a, 0x03)
        ∷ (0x01, 0x6b, 0x02)
        ∷ (0x16, 0x6b, 0x03)
        ∷ (0x01, 0x71, 0x02)
        ∷ (0x16, 0x71, 0x03)
        ∷ (0x01, 0x76, 0x02)
        ∷ (0x16, 0x76, 0x03)
        ∷ [])
    ∷ ((0x02, 0x55, 0x02)
        ∷ (0x09, 0x55, 0x02)
        ∷ (0x17, 0x55, 0x02)
        ∷ (0x28, 0x55, 0x03)
        ∷ (0x02, 0x56, 0x02)
        ∷ (0x09, 0x56, 0x02)
        ∷ (0x17, 0x56, 0x02)
        ∷ (0x28, 0x56, 0x03)
        ∷ (0x02, 0x57, 0x02)
        ∷ (0x09, 0x57, 0x02)
        ∷ (0x17, 0x57, 0x02)
        ∷ (0x28, 0x57, 0x03)
        ∷ (0x02, 0x59, 0x02)
        ∷ (0x09, 0x59, 0x02)
        ∷ (0x17, 0x59, 0x02)
        ∷ (0x28, 0x59, 0x03)
        ∷ [])
    ∷ ((0x03, 0x55, 0x02)
        ∷ (0x06, 0x55, 0x02)
        ∷ (0x0a, 0x55, 0x02)
        ∷ (0x0f, 0x55, 0x02)
        ∷ (0x18, 0x55, 0x02)
        ∷ (0x1f, 0x55, 0x02)
        ∷ (0x29, 0x55, 0x02)
        ∷ (0x38, 0x55, 0x03)
        ∷ (0x03, 0x56, 0x02)
        ∷ (0x06, 0x56, 0x02)
        ∷ (0x0a, 0x56, 0x02)
        ∷ (0x0f, 0x56, 0x02)
        ∷ (0x18, 0x56, 0x02)
        ∷ (0x1f, 0x56, 0x02)
        ∷ (0x29, 0x56, 0x02)
        ∷ (0x38, 0x56, 0x03)
        ∷ [])
    ∷ ((0x03, 0x57, 0x02)
        ∷ (0x06, 0x57, 0x02)
        ∷ (0x0a, 0x57, 0x02)
        ∷ (0x0f, 0x57, 0x02)
        ∷ (0x18, 0x57, 0x02)
        ∷ (0x1f, 0x57, 0x02)
        ∷ (0x29, 0x57, 0x02)
        ∷ (0x38, 0x57, 0x03)
        ∷ (0x03, 0x59, 0x02)
        ∷ (0x06, 0x59, 0x02)
        ∷ (0x0a, 0x59, 0x02)
        ∷ (0x0f, 0x59, 0x02)
        ∷ (0x18, 0x59, 0x02)
        ∷ (0x1f, 0x59, 0x02)
        ∷ (0x29, 0x59, 0x02)
        ∷ (0x38, 0x59, 0x03)
        ∷ [])
    ∷ ((0x02, 0x6a, 0x02)
        ∷ (0x09, 0x6a, 0x02)
        ∷ (0x17, 0x6a, 0x02)
        ∷ (0x28, 0x6a, 0x03)
        ∷ (0x02, 0x6b, 0x02)
        ∷ (0x09, 0x6b, 0x02)
        ∷ (0x17, 0x6b, 0x02)
        ∷ (0x28, 0x6b, 0x03)
        ∷ (0x02, 0x71, 0x02)
        ∷ (0x09, 0x71, 0x02)
        ∷ (0x17, 0x71, 0x02)
        ∷ (0x28, 0x71, 0x03)
        ∷ (0x02, 0x76, 0x02)
        ∷ (0x09, 0x76, 0x02)
        ∷ (0x17, 0x76, 0x02)
        ∷ (0x28, 0x76, 0x03)
        ∷ [])
    ∷ ((0x03, 0x6a, 0x02)
        ∷ (0x06, 0x6a, 0x02)
        ∷ (0x0a, 0x6a, 0x02)
        ∷ (0x0f, 0x6a, 0x02)
        ∷ (0x18, 0x6a, 0x02)
        ∷ (0x1f, 0x6a, 0x02)
        ∷ (0x29, 0x6a, 0x02)
        ∷ (0x38, 0x6a, 0x03)
        ∷ (0x03, 0x6b, 0x02)
        ∷ (0x06, 0x6b, 0x02)
        ∷ (0x0a, 0x6b, 0x02)
        ∷ (0x0f, 0x6b, 0x02)
        ∷ (0x18, 0x6b, 0x02)
        ∷ (0x1f, 0x6b, 0x02)
        ∷ (0x29, 0x6b, 0x02)
        ∷ (0x38, 0x6b, 0x03)
        ∷ [])
    ∷ ((0x03, 0x71, 0x02)
        ∷ (0x06, 0x71, 0x02)
        ∷ (0x0a, 0x71, 0x02)
        ∷ (0x0f, 0x71, 0x02)
        ∷ (0x18, 0x71, 0x02)
        ∷ (0x1f, 0x71, 0x02)
        ∷ (0x29, 0x71, 0x02)
        ∷ (0x38, 0x71, 0x03)
        ∷ (0x03, 0x76, 0x02)
        ∷ (0x06, 0x76, 0x02)
        ∷ (0x0a, 0x76, 0x02)
        ∷ (0x0f, 0x76, 0x02)
        ∷ (0x18, 0x76, 0x02)
        ∷ (0x1f, 0x76, 0x02)
        ∷ (0x29, 0x76, 0x02)
        ∷ (0x38, 0x76, 0x03)
        ∷ [])
    ∷ []

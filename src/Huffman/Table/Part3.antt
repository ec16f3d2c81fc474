-- ===== src/Huffman/Table/Part3.antt =====
-- ylong_http/src/huffman/consts.rs: `HUFFMAN_DECODE`, states 96 to 127.
use commonlibrary_rust_ylong.Common.{ℕ, List, [], ◌∷◌}

unfoldable pub rows_60 : List (List (ℕ × ℕ × ℕ))
rows_60 =
    ((0x01, 0x5c, 0x02)
      ∷ (0x16, 0x5c, 0x03)
      ∷ (0x01, 0xc3, 0x02)
      ∷ (0x16, 0xc3, 0x03)
      ∷ (0x01, 0xd0, 0x02)
      ∷ (0x16, 0xd0, 0x03)
      ∷ (0x00, 0x80, 0x02)
      ∷ (0x00, 0x82, 0x02)
      ∷ (0x00, 0x83, 0x02)
      ∷ (0x00, 0xa2, 0x02)
      ∷ (0x00, 0xb8, 0x02)
      ∷ (0x00, 0xc2, 0x02)
      ∷ (0x00, 0xe0, 0x02)
      ∷ (0x00, 0xe2, 0x02)
      ∷ (0x6c, 0x00, 0x00)
      ∷ (0x6d, 0x00, 0x00)
      ∷ [])
    ∷ ((0x02, 0x5c, 0x02)
        ∷ (0x09, 0x5c, 0x02)
        ∷ (0x17, 0x5c, 0x02)
        ∷ (0x28, 0x5c, 0x03)
        ∷ (0x02, 0xc3, 0x02)
        ∷ (0x09, 0xc3, 0x02)
        ∷ (0x17, 0xc3, 0x02)
        ∷ (0x28, 0xc3, 0x03)
        ∷ (0x02, 0xd0, 0x02)
        ∷ (0x09, 0xd0, 0x02)
        ∷ (0x17, 0xd0, 0x02)
        ∷ (0x28, 0xd0, 0x03)
        ∷ (0x01, 0x80, 0x02)
        ∷ (0x16, 0x80, 0x03)
        ∷ (0x01, 0x82, 0x02)
        ∷ (0x16, 0x82, 0x03)
        ∷ [])
    ∷ ((0x03, 0x5c, 0x02)
        ∷ (0x06, 0x5c, 0x02)
        ∷ (0x0a, 0x5c, 0x02)
        ∷ (0x0f, 0x5c, 0x02)
        ∷ (0x18, 0x5c, 0x02)
        ∷ (0x1f, 0x5c, 0x02)
        ∷ (0x29, 0x5c, 0x02)
        ∷ (0x38, 0x5c, 0x03)
        ∷ (0x03, 0xc3, 0x02)
        ∷ (0x06, 0xc3, 0x02)
        ∷ (0x0a, 0xc3, 0x02)
        ∷ (0x0f, 0xc3, 0x02)
        ∷ (0x18, 0xc3, 0x02)
        ∷ (0x1f, 0xc3, 0x02)
        ∷ (0x29, 0xc3, 0x02)
        ∷ (0x38, 0xc3, 0x03)
        ∷ [])
    ∷ ((0x03, 0xd0, 0x02)
        ∷ (0x06, 0xd0, 0x02)
        ∷ (0x0a, 0xd0, 0x02)
        ∷ (0x0f, 0xd0, 0x02)
        ∷ (0x18, 0xd0, 0x02)
        ∷ (0x1f, 0xd0, 0x02)
        ∷ (0x29, 0xd0, 0x02)
        ∷ (0x38, 0xd0, 0x03)
        ∷ (0x02, 0x80, 0x02)
        ∷ (0x09, 0x80, 0x02)
        ∷ (0x17, 0x80, 0x02)
        ∷ (0x28, 0x80, 0x03)
        ∷ (0x02, 0x82, 0x02)
        ∷ (0x09, 0x82, 0x02)
        ∷ (0x17, 0x82, 0x02)
        ∷ (0x28, 0x82, 0x03)
        ∷ [])
    ∷ ((0x03, 0x80, 0x02)
        ∷ (0x06, 0x80, 0x02)
        ∷ (0x0a, 0x80, 0x02)
        ∷ (0x0f, 0x80, 0x02)
        ∷ (0x18, 0x80, 0x02)
        ∷ (0x1f, 0x80, 0x02)
        ∷ (0x29, 0x80, 0x02)
        ∷ (0x38, 0x80, 0x03)
        ∷ (0x03, 0x82, 0x02)
        ∷ (0x06, 0x82, 0x02)
        ∷ (0x0a, 0x82, 0x02)
        ∷ (0x0f, 0x82, 0x02)
        ∷ (0x18, 0x82, 0x02)
        ∷ (0x1f, 0x82, 0x02)
        ∷ (0x29, 0x82, 0x02)
        ∷ (0x38, 0x82, 0x03)
        ∷ [])
    ∷ ((0x01, 0x83, 0x02)
        ∷ (0x16, 0x83, 0x03)
        ∷ (0x01, 0xa2, 0x02)
        ∷ (0x16, 0xa2, 0x03)
        ∷ (0x01, 0xb8, 0x02)
        ∷ (0x16, 0xb8, 0x03)
        ∷ (0x01, 0xc2, 0x02)
        ∷ (0x16, 0xc2, 0x03)
        ∷ (0x01, 0xe0, 0x02)
        ∷ (0x16, 0xe0, 0x03)
        ∷ (0x01, 0xe2, 0x02)
        ∷ (0x16, 0xe2, 0x03)
        ∷ (0x00, 0x99, 0x02)
        ∷ (0x00, 0xa1, 0x02)
        ∷ (0x00, 0xa7, 0x02)
        ∷ (0x00, 0xac, 0x02)
        ∷ [])
    ∷ ((0x02, 0x83, 0x02)
        ∷ (0x09, 0x83, 0x02)
        ∷ (0x17, 0x83, 0x02)
        ∷ (0x28, 0x83, 0x03)
        ∷ (0x02, 0xa2, 0x02)
        ∷ (0x09, 0xa2, 0x02)
        ∷ (0x17, 0xa2, 0x02)
        ∷ (0x28, 0xa2, 0x03)
        ∷ (0x02, 0xb8, 0x02)
        ∷ (0x09, 0xb8, 0x02)
        ∷ (0x17, 0xb8, 0x02)
        ∷ (0x28, 0xb8, 0x03)
        ∷ (0x02, 0xc2, 0x02)
        ∷ (0x09, 0xc2, 0x02)
        ∷ (0x17, 0xc2, 0x02)
        ∷ (0x28, 0xc2, 0x03)
        ∷ [])
    ∷ ((0x03, 0x83, 0x02)
        ∷ (0x06, 0x83, 0x02)
        ∷ (0x0a, 0x83, 0x02)
        ∷ (0x0f, 0x83, 0x02)
        ∷ (0x18, 0x83, 0x02)
        ∷ (0x1f, 0x83, 0x02)
        ∷ (0x29, 0x83, 0x02)
        ∷ (0x38, 0x83, 0x03)
        ∷ (0x03, 0xa2, 0x02)
        ∷ (0x06, 0xa2, 0x02)
        ∷ (0x0a, 0xa2, 0x02)
        ∷ (0x0f, 0xa2, 0x02)
        ∷ (0x18, 0xa2, 0x02)
        ∷ (0x1f, 0xa2, 0x02)
        ∷ (0x29, 0xa2, 0x02)
        ∷ (0x38, 0xa2, 0x03)
        ∷ [])
    ∷ ((0x03, 0xb8, 0x02)
        ∷ (0x06, 0xb8, 0x02)
        ∷ (0x0a, 0xb8, 0x02)
        ∷ (0x0f, 0xb8, 0x02)
        ∷ (0x18, 0xb8, 0x02)
        ∷ (0x1f, 0xb8, 0x02)
        ∷ (0x29, 0xb8, 0x02)
        ∷ (0x38, 0xb8, 0x03)
        ∷ (0x03, 0xc2, 0x02)
        ∷ (0x06, 0xc2, 0x02)
        ∷ (0x0a, 0xc2, 0x02)
        ∷ (0x0f, 0xc2, 0x02)
        ∷ (0x18, 0xc2, 0x02)
        ∷ (0x1f, 0xc2, 0x02)
        ∷ (0x29, 0xc2, 0x02)
        ∷ (0x38, 0xc2, 0x03)
        ∷ [])
    ∷ ((0x02, 0xe0, 0x02)
        ∷ (0x09, 0xe0, 0x02)
        ∷ (0x17, 0xe0, 0x02)
        ∷ (0x28, 0xe0, 0x03)
        ∷ (0x02, 0xe2, 0x02)
        ∷ (0x09, 0xe2, 0x02)
        ∷ (0x17, 0xe2, 0x02)
        ∷ (0x28, 0xe2, 0x03)
        ∷ (0x01, 0x99, 0x02)
        ∷ (0x16, 0x99, 0x03)
        ∷ (0x01, 0xa1, 0x02)
        ∷ (0x16, 0xa1, 0x03)
        ∷ (0x01, 0xa7, 0x02)
        ∷ (0x16, 0xa7, 0x03)
        ∷ (0x01, 0xac, 0x02)
        ∷ (0x16, 0xac, 0x03)
        ∷ [])
    ∷ ((0x03, 0xe0, 0x02)
        ∷ (0x06, 0xe0, 0x02)
        ∷ (0x0a, 0xe0, 0x02)
        ∷ (0x0f, 0xe0, 0x02)
        ∷ (0x18, 0xe0, 0x02)
        ∷ (0x1f, 0xe0, 0x02)
        ∷ (0x29, 0xe0, 0x02)
        ∷ (0x38, 0xe0, 0x03)
        ∷ (0x03, 0xe2, 0x02)
        ∷ (0x06, 0xe2, 0x02)
        ∷ (0x0a, 0xe2, 0x02)
        ∷ (0x0f, 0xe2, 0x02)
        ∷ (0x18, 0xe2, 0x02)
        ∷ (0x1f, 0xe2, 0x02)
        ∷ (0x29, 0xe2, 0x02)
        ∷ (0x38, 0xe2, 0x03)
        ∷ [])
    ∷ ((0x02, 0x99, 0x02)
        ∷ (0x09, 0x99, 0x02)
        ∷ (0x17, 0x99, 0x02)
        ∷ (0x28, 0x99, 0x03)
        ∷ (0x02, 0xa1, 0x02)
        ∷ (0x09, 0xa1, 0x02)
        ∷ (0x17, 0xa1, 0x02)
        ∷ (0x28, 0xa1, 0x03)
        ∷ (0x02, 0xa7, 0x02)
        ∷ (0x09, 0xa7, 0x02)
        ∷ (0x17, 0xa7, 0x02)
        ∷ (0x28, 0xa7, 0x03)
        ∷ (0x02, 0xac, 0x02)
        ∷ (0x09, 0xac, 0x02)
        ∷ (0x17, 0xac, 0x02)
        ∷ (0x28, 0xac, 0x03)
        ∷ [])
    ∷ ((0x03, 0x99, 0x02)
        ∷ (0x06, 0x99, 0x02)
        ∷ (0x0a, 0x99, 0x02)
        ∷ (0x0f, 0x99, 0x02)
        ∷ (0x18, 0x99, 0x02)
        ∷ (0x1f, 0x99, 0x02)
        ∷ (0x29, 0x99, 0x02)
        ∷ (0x38, 0x99, 0x03)
        ∷ (0x03, 0xa1, 0x02)
        ∷ (0x06, 0xa1, 0x02)
        ∷ (0x0a, 0xa1, 0x02)
        ∷ (0x0f, 0xa1, 0x02)
        ∷ (0x18, 0xa1, 0x02)
        ∷ (0x1f, 0xa1, 0x02)
        ∷ (0x29, 0xa1, 0x02)
        ∷ (0x38, 0xa1, 0x03)
        ∷ [])
    ∷ ((0x03, 0xa7, 0x02)
        ∷ (0x06, 0xa7, 0x02)
        ∷ (0x0a, 0xa7, 0x02)
        ∷ (0x0f, 0xa7, 0x02)
        ∷ (0x18, 0xa7, 0x02)
        ∷ (0x1f, 0xa7, 0x02)
        ∷ (0x29, 0xa7, 0x02)
        ∷ (0x38, 0xa7, 0x03)
        ∷ (0x03, 0xac, 0x02)
        ∷ (0x06, 0xac, 0x02)
        ∷ (0x0a, 0xac, 0x02)
        ∷ (0x0f, 0xac, 0x02)
        ∷ (0x18, 0xac, 0x02)
        ∷ (0x1f, 0xac, 0x02)
        ∷ (0x29, 0xac, 0x02)
        ∷ (0x38, 0xac, 0x03)
        ∷ [])
    ∷ ((0x72, 0x00, 0x00)
        ∷ (0x73, 0x00, 0x00)
        ∷ (0x75, 0x00, 0x00)
        ∷ (0x76, 0x00, 0x00)
        ∷ (0x79, 0x00, 0x00)
        ∷ (0x7b, 0x00, 0x00)
        ∷ (0x7f, 0x00, 0x00)
        ∷ (0x82, 0x00, 0x00)
        ∷ (0x88, 0x00, 0x00)
        ∷ (0x8b, 0x00, 0x00)
        ∷ (0x8f, 0x00, 0x00)
        ∷ (0x92, 0x00, 0x00)
        ∷ (0x9b, 0x00, 0x00)
        ∷ (0xa2, 0x00, 0x00)
        ∷ (0xaa, 0x00, 0x00)
        ∷ (0xb4, 0x00, 0x00)
        ∷ [])
    ∷ ((0x00, 0xb0, 0x02)
        ∷ (0x00, 0xb1, 0x02)
        ∷ (0x00, 0xb3, 0x02)
        ∷ (0x00, 0xd1, 0x02)
        ∷ (0x00, 0xd8, 0x02)
        ∷ (0x00, 0xd9, 0x02)
        ∷ (0x00, 0xe3, 0x02)
        ∷ (0x00, 0xe5, 0x02)
        ∷ (0x00, 0xe6, 0x02)
        ∷ (0x7a, 0x00, 0x00)
        ∷ (0x7c, 0x00, 0x00)
        ∷ (0x7d, 0x00, 0x00)
        ∷ (0x80, 0x00, 0x00)
        ∷ (0x81, 0x00, 0x00)
        ∷ (0x83, 0x00, 0x00)
        ∷ (0x84, 0x00, 0x00)
        ∷ [])
    ∷ []

unfoldable pub rows_70 : List (List (ℕ × ℕ × ℕ))
rows_70 =
    ((0x01, 0xb0, 0x02)
      ∷ (0x16, 0xb0, 0x03)
      ∷ (0x01, 0xb1, 0x02)
      ∷ (0x16, 0xb1, 0x03)
      ∷ (0x01, 0xb3, 0x02)
      ∷ (0x16, 0xb3, 0x03)
      ∷ (0x01, 0xd1, 0x02)
      ∷ (0x16, 0xd1, 0x03)
      ∷ (0x01, 0xd8, 0x02)
      ∷ (0x16, 0xd8, 0x03)
      ∷ (0x01, 0xd9, 0x02)
      ∷ (0x16, 0xd9, 0x03)
      ∷ (0x01, 0xe3, 0x02)
      ∷ (0x16, 0xe3, 0x03)
      ∷ (0x01, 0xe5, 0x02)
      ∷ (0x16, 0xe5, 0x03)
      ∷ [])
    ∷ ((0x02, 0xb0, 0x02)
        ∷ (0x09, 0xb0, 0x02)
        ∷ (0x17, 0xb0, 0x02)
        ∷ (0x28, 0xb0, 0x03)
        ∷ (0x02, 0xb1, 0x02)
        ∷ (0x09, 0xb1, 0x02)
        ∷ (0x17, 0xb1, 0x02)
        ∷ (0x28, 0xb1, 0x03)
        ∷ (0x02, 0xb3, 0x02)
        ∷ (0x09, 0xb3, 0x02)
        ∷ (0x17, 0xb3, 0x02)
        ∷ (0x28, 0xb3, 0x03)
        ∷ (0x02, 0xd1, 0x02)
        ∷ (0x09, 0xd1, 0x02)
        ∷ (0x17, 0xd1, 0x02)
        ∷ (0x28, 0xd1, 0x03)
        ∷ [])
    ∷ ((0x03, 0xb0, 0x02)
        ∷ (0x06, 0xb0, 0x02)
        ∷ (0x0a, 0xb0, 0x02)
        ∷ (0x0f, 0xb0, 0x02)
        ∷ (0x18, 0xb0, 0x02)
        ∷ (0x1f, 0xb0, 0x02)
        ∷ (0x29, 0xb0, 0x02)
        ∷ (0x38, 0xb0, 0x03)
        ∷ (0x03, 0xb1, 0x02)
        ∷ (0x06, 0xb1, 0x02)
        ∷ (0x0a, 0xb1, 0x02)
        ∷ (0x0f, 0xb1, 0x02)
        ∷ (0x18, 0xb1, 0x02)
        ∷ (0x1f, 0xb1, 0x02)
        ∷ (0x29, 0xb1, 0x02)
        ∷ (0x38, 0xb1, 0x03)
        ∷ [])
    ∷ ((0x03, 0xb3, 0x02)
        ∷ (0x06, 0xb3, 0x02)
        ∷ (0x0a, 0xb3, 0x02)
        ∷ (0x0f, 0xb3, 0x02)
        ∷ (0x18, 0xb3, 0x02)
        ∷ (0x1f, 0xb3, 0x02)
        ∷ (0x29, 0xb3, 0x02)
        ∷ (0x38, 0xb3, 0x03)
        ∷ (0x03, 0xd1, 0x02)
        ∷ (0x06, 0xd1, 0x02)
        ∷ (0x0a, 0xd1, 0x02)
        ∷ (0x0f, 0xd1, 0x02)
        ∷ (0x18, 0xd1, 0x02)
        ∷ (0x1f, 0xd1, 0x02)
        ∷ (0x29, 0xd1, 0x02)
        ∷ (0x38, 0xd1, 0x03)
        ∷ [])
    ∷ ((0x02, 0xd8, 0x02)
        ∷ (0x09, 0xd8, 0x02)
        ∷ (0x17, 0xd8, 0x02)
        ∷ (0x28, 0xd8, 0x03)
        ∷ (0x02, 0xd9, 0x02)
        ∷ (0x09, 0xd9, 0x02)
        ∷ (0x17, 0xd9, 0x02)
        ∷ (0x28, 0xd9, 0x03)
        ∷ (0x02, 0xe3, 0x02)
        ∷ (0x09, 0xe3, 0x02)
        ∷ (0x17, 0xe3, 0x02)
        ∷ (0x28, 0xe3, 0x03)
        ∷ (0x02, 0xe5, 0x02)
        ∷ (0x09, 0xe5, 0x02)
        ∷ (0x17, 0xe5, 0x02)
        ∷ (0x28, 0xe5, 0x03)
        ∷ [])
    ∷ ((0x03, 0xd8, 0x02)
        ∷ (0x06, 0xd8, 0x02)
        ∷ (0x0a, 0xd8, 0x02)
        ∷ (0x0f, 0xd8, 0x02)
        ∷ (0x18, 0xd8, 0x02)
        ∷ (0x1f, 0xd8, 0x02)
        ∷ (0x29, 0xd8, 0x02)
        ∷ (0x38, 0xd8, 0x03)
        ∷ (0x03, 0xd9, 0x02)
        ∷ (0x06, 0xd9, 0x02)
        ∷ (0x0a, 0xd9, 0x02)
        ∷ (0x0f, 0xd9, 0x02)
        ∷ (0x18, 0xd9, 0x02)
        ∷ (0x1f, 0xd9, 0x02)
        ∷ (0x29, 0xd9, 0x02)
        ∷ (0x38, 0xd9, 0x03)
        ∷ [])
    ∷ ((0x03, 0xe3, 0x02)
        ∷ (0x06, 0xe3, 0x02)
        ∷ (0x0a, 0xe3, 0x02)
        ∷ (0x0f, 0xe3, 0x02)
        ∷ (0x18, 0xe3, 0x02)
        ∷ (0x1f, 0xe3, 0x02)
        ∷ (0x29, 0xe3, 0x02)
        ∷ (0x38, 0xe3, 0x03)
        ∷ (0x03, 0xe5, 0x02)
        ∷ (0x06, 0xe5, 0x02)
        ∷ (0x0a, 0xe5, 0x02)
        ∷ (0x0f, 0xe5, 0x02)
        ∷ (0x18, 0xe5, 0x02)
        ∷ (0x1f, 0xe5, 0x02)
        ∷ (0x29, 0xe5, 0x02)
        ∷ (0x38, 0xe5, 0x03)
        ∷ [])
    ∷ ((0x01, 0xe6, 0x02)
        ∷ (0x16, 0xe6, 0x03)
        ∷ (0x00, 0x81, 0x02)
        ∷ (0x00, 0x84, 0x02)
        ∷ (0x00, 0x85, 0x02)
        ∷ (0x00, 0x86, 0x02)
        ∷ (0x00, 0x88, 0x02)
        ∷ (0x00, 0x92, 0x02)
        ∷ (0x00, 0x9a, 0x02)
        ∷ (0x00, 0x9c, 0x02)
        ∷ (0x00, 0xa0, 0x02)
        ∷ (0x00, 0xa3, 0x02)
        ∷ (0x00, 0xa4, 0x02)
        ∷ (0x00, 0xa9, 0x02)
        ∷ (0x00, 0xaa, 0x02)
        ∷ (0x00, 0xad, 0x02)
        ∷ [])
    ∷ ((0x02, 0xe6, 0x02)
        ∷ (0x09, 0xe6, 0x02)
        ∷ (0x17, 0xe6, 0x02)
        ∷ (0x28, 0xe6, 0x03)
        ∷ (0x01, 0x81, 0x02)
        ∷ (0x16, 0x81, 0x03)
        ∷ (0x01, 0x84, 0x02)
        ∷ (0x16, 0x84, 0x03)
        ∷ (0x01, 0x85, 0x02)
        ∷ (0x16, 0x85, 0x03)
        ∷ (0x01, 0x86, 0x02)
        ∷ (0x16, 0x86, 0x03)
        ∷ (0x01, 0x88, 0x02)
        ∷ (0x16, 0x88, 0x03)
        ∷ (0x01, 0x92, 0x02)
        ∷ (0x16, 0x92, 0x03)
        ∷ [])
    ∷ ((0x03, 0xe6, 0x02)
        ∷ (0x06, 0xe6, 0x02)
        ∷ (0x0a, 0xe6, 0x02)
        ∷ (0x0f, 0xe6, 0x02)
        ∷ (0x18, 0xe6, 0x02)
        ∷ (0x1f, 0xe6, 0x02)
        ∷ (0x29, 0xe6, 0x02)
        ∷ (0x38, 0xe6, 0x03)
        ∷ (0x02, 0x81, 0x02)
        ∷ (0x09, 0x81, 0x02)
        ∷ (0x17, 0x81, 0x02)
        ∷ (0x28, 0x81, 0x03)
        ∷ (0x02, 0x84, 0x02)
        ∷ (0x09, 0x84, 0x02)
        ∷ (0x17, 0x84, 0x02)
        ∷ (0x28, 0x84, 0x03)
        ∷ [])
    ∷ ((0x03, 0x81, 0x02)
        ∷ (0x06, 0x81, 0x02)
        ∷ (0x0a, 0x81, 0x02)
        ∷ (0x0f, 0x81, 0x02)
        ∷ (0x18, 0x81, 0x02)
        ∷ (0x1f, 0x81, 0x02)
        ∷ (0x29, 0x81, 0x02)
        ∷ (0x38, 0x81, 0x03)
        ∷ (0x03, 0x84, 0x02)
        ∷ (0x06, 0x84, 0x02)
        ∷ (0x0a, 0x84, 0x02)
        ∷ (0x0f, 0x84, 0x02)
        ∷ (0x18, 0x84, 0x02)
        ∷ (0x1f, 0x84, 0x02)
        ∷ (0x29, 0x84, 0x02)
        ∷ (0x38, 0x84, 0x03)
        ∷ [])
    ∷ ((0x02, 0x85, 0x02)
        ∷ (0x09, 0x85, 0x02)
        ∷ (0x17, 0x85, 0x02)
        ∷ (0x28, 0x85, 0x03)
        ∷ (0x02, 0x86, 0x02)
        ∷ (0x09, 0x86, 0x02)
        ∷ (0x17, 0x86, 0x02)
        ∷ (0x28, 0x86, 0x03)
        ∷ (0x02, 0x88, 0x02)
        ∷ (0x09, 0x88, 0x02)
        ∷ (0x17, 0x88, 0x02)
        ∷ (0x28, 0x88, 0x03)
        ∷ (0x02, 0x92, 0x02)
        ∷ (0x09, 0x92, 0x02)
        ∷ (0x17, 0x92, 0x02)
        ∷ (0x28, 0x92, 0x03)
        ∷ [])
    ∷ ((0x03, 0x85, 0x02)
        ∷ (0x06, 0x85, 0x02)
        ∷ (0x0a, 0x85, 0x02)
        ∷ (0x0f, 0x85, 0x02)
        ∷ (0x18, 0x85, 0x02)
        ∷ (0x1f, 0x85, 0x02)
        ∷ (0x29, 0x85, 0x02)
        ∷ (0x38, 0x85, 0x03)
        ∷ (0x03, 0x86, 0x02)
        ∷ (0x06, 0x86, 0x02)
        ∷ (0x0a, 0x86, 0x02)
        ∷ (0x0f, 0x86, 0x02)
        ∷ (0x18, 0x86, 0x02)
        ∷ (0x1f, 0x86, 0x02)
        ∷ (0x29, 0x86, 0x02)
        ∷ (0x38, 0x86, 0x03)
        ∷ [])
    ∷ ((0x03, 0x88, 0x02)
        ∷ (0x06, 0x88, 0x02)
        ∷ (0x0a, 0x88, 0x02)
        ∷ (0x0f, 0x88, 0x02)
        ∷ (0x18, 0x88, 0x02)
        ∷ (0x1f, 0x88, 0x02)
        ∷ (0x29, 0x88, 0x02)
        ∷ (0x38, 0x88, 0x03)
        ∷ (0x03, 0x92, 0x02)
        ∷ (0x06, 0x92, 0x02)
        ∷ (0x0a, 0x92, 0x02)
        ∷ (0x0f, 0x92, 0x02)
        ∷ (0x18, 0x92, 0x02)
        ∷ (0x1f, 0x92, 0x02)
        ∷ (0x29, 0x92, 0x02)
        ∷ (0x38, 0x92, 0x03)
        ∷ [])
    ∷ ((0x01, 0x9a, 0x02)
        ∷ (0x16, 0x9a, 0x03)
        ∷ (0x01, 0x9c, 0x02)
        ∷ (0x16, 0x9c, 0x03)
        ∷ (0x01, 0xa0, 0x02)
        ∷ (0x16, 0xa0, 0x03)
        ∷ (0x01, 0xa3, 0x02)
        ∷ (0x16, 0xa3, 0x03)
        ∷ (0x01, 0xa4, 0x02)
        ∷ (0x16, 0xa4, 0x03)
        ∷ (0x01, 0xa9, 0x02)
        ∷ (0x16, 0xa9, 0x03)
        ∷ (0x01, 0xaa, 0x02)
        ∷ (0x16, 0xaa, 0x03)
        ∷ (0x01, 0xad, 0x02)
        ∷ (0x16, 0xad, 0x03)
        ∷ [])
    ∷ ((0x02, 0x9a, 0x02)
        ∷ (0x09, 0x9a, 0x02)
        ∷ (0x17, 0x9a, 0x02)
        ∷ (0x28, 0x9a, 0x03)
        ∷ (0x02, 0x9c, 0x02)
        ∷ (0x09, 0x9c, 0x02)
        ∷ (0x17, 0x9c, 0x02)
        ∷ (0x28, 0x9c, 0x03)
        ∷ (0x02, 0xa0, 0x02)
        ∷ (0x09, 0xa0, 0x02)
        ∷ (0x17, 0xa0, 0x02)
        ∷ (0x28, 0xa0, 0x03)
        ∷ (0x02, 0xa3, 0x02)
        ∷ (0x09, 0xa3, 0x02)
        ∷ (0x17, 0xa3, 0x02)
        ∷ (0x28, 0xa3, 0x03)
        ∷ [])
    ∷ []

-- ===== src/Huffman/Table/Part5.antt =====
-- ylong_http/src/huffman/consts.rs: `HUFFMAN_DECODE`, states 160 to 191.
use commonlibrary_rust_ylong.Common.{ℕ, List, [], ◌∷◌}

unfoldable pub rows_a0 : List (List (ℕ × ℕ × ℕ))
rows_a0 =
    ((0x03, 0x98, 0x02)
      ∷ (0x06, 0x98, 0x02)
      ∷ (0x0a, 0x98, 0x02)
      ∷ (0x0f, 0x98, 0x02)
      ∷ (0x18, 0x98, 0x02)
      ∷ (0x1f, 0x98, 0x02)
      ∷ (0x29, 0x98, 0x02)
      ∷ (0x38, 0x98, 0x03)
      ∷ (0x03, 0x9b, 0x02)
      ∷ (0x06, 0x9b, 0x02)
      ∷ (0x0a, 0x9b, 0x02)
      ∷ (0x0f, 0x9b, 0x02)
      ∷ (0x18, 0x9b, 0x02)
      ∷ (0x1f, 0x9b, 0x02)
      ∷ (0x29, 0x9b, 0x02)
      ∷ (0x38, 0x9b, 0x03)
      ∷ [])
    ∷ ((0x03, 0x9d, 0x02)
        ∷ (0x06, 0x9d, 0x02)
        ∷ (0x0a, 0x9d, 0x02)
        ∷ (0x0f, 0x9d, 0x02)
        ∷ (0x18, 0x9d, 0x02)
        ∷ (0x1f, 0x9d, 0x02)
        ∷ (0x29, 0x9d, 0x02)
        ∷ (0x38, 0x9d, 0x03)
        ∷ (0x03, 0x9e, 0x02)
        ∷ (0x06, 0x9e, 0x02)
        ∷ (0x0a, 0x9e, 0x02)
        ∷ (0x0f, 0x9e, 0x02)
        ∷ (0x18, 0x9e, 0x02)
        ∷ (0x1f, 0x9e, 0x02)
        ∷ (0x29, 0x9e, 0x02)
        ∷ (0x38, 0x9e, 0x03)
        ∷ [])
    ∷ ((0x01, 0xa5, 0x02)
        ∷ (0x16, 0xa5, 0x03)
        ∷ (0x01, 0xa6, 0x02)
        ∷ (0x16, 0xa6, 0x03)
        ∷ (0x01, 0xa8, 0x02)
        ∷ (0x16, 0xa8, 0x03)
        ∷ (0x01, 0xae, 0x02)
        ∷ (0x16, 0xae, 0x03)
        ∷ (0x01, 0xaf, 0x02)
        ∷ (0x16, 0xaf, 0x03)
        ∷ (0x01, 0xb4, 0x02)
        ∷ (0x16, 0xb4, 0x03)
        ∷ (0x01, 0xb6, 0x02)
        ∷ (0x16, 0xb6, 0x03)
        ∷ (0x01, 0xb7, 0x02)
        ∷ (0x16, 0xb7, 0x03)
        ∷ [])
    ∷ ((0x02, 0xa5, 0x02)
        ∷ (0x09, 0xa5, 0x02)
        ∷ (0x17, 0xa5, 0x02)
        ∷ (0x28, 0xa5, 0x03)
        ∷ (0x02, 0xa6, 0x02)
        ∷ (0x09, 0xa6, 0x02)
        ∷ (0x17, 0xa6, 0x02)
        ∷ (0x28, 0xa6, 0x03)
        ∷ (0x02, 0xa8, 0x02)
        ∷ (0x09, 0xa8, 0x02)
        ∷ (0x17, 0xa8, 0x02)
        ∷ (0x28, 0xa8, 0x03)
        ∷ (0x02, 0xae, 0x02)
        ∷ (0x09, 0xae, 0x02)
        ∷ (0x17, 0xae, 0x02)
        ∷ (0x28, 0xae, 0x03)
        ∷ [])
    ∷ ((0x03, 0xa5, 0x02)
        ∷ (0x06, 0xa5, 0x02)
        ∷ (0x0a, 0xa5, 0x02)
        ∷ (0x0f, 0xa5, 0x02)
        ∷ (0x18, 0xa5, 0x02)
        ∷ (0x1f, 0xa5, 0x02)
        ∷ (0x29, 0xa5, 0x02)
        ∷ (0x38, 0xa5, 0x03)
        ∷ (0x03, 0xa6, 0x02)
        ∷ (0x06, 0xa6, 0x02)
        ∷ (0x0a, 0xa6, 0x02)
        ∷ (0x0f, 0xa6, 0x02)
        ∷ (0x18, 0xa6, 0x02)
        ∷ (0x1f, 0xa6, 0x02)
        ∷ (0x29, 0xa6, 0x02)
        ∷ (0x38, 0xa6, 0x03)
        ∷ [])
    ∷ ((0x03, 0xa8, 0x02)
        ∷ (0x06, 0xa8, 0x02)
        ∷ (0x0a, 0xa8, 0x02)
        ∷ (0x0f, 0xa8, 0x02)
        ∷ (0x18, 0xa8, 0x02)
        ∷ (0x1f, 0xa8, 0x02)
        ∷ (0x29, 0xa8, 0x02)
        ∷ (0x38, 0xa8, 0x03)
        ∷ (0x03, 0xae, 0x02)
        ∷ (0x06, 0xae, 0x02)
        ∷ (0x0a, 0xae, 0x02)
        ∷ (0x0f, 0xae, 0x02)
        ∷ (0x18, 0xae, 0x02)
        ∷ (0x1f, 0xae, 0x02)
        ∷ (0x29, 0xae, 0x02)
        ∷ (0x38, 0xae, 0x03)
        ∷ [])
    ∷ ((0x02, 0xaf, 0x02)
        ∷ (0x09, 0xaf, 0x02)
        ∷ (0x17, 0xaf, 0x02)
        ∷ (0x28, 0xaf, 0x03)
        ∷ (0x02, 0xb4, 0x02)
        ∷ (0x09, 0xb4, 0x02)
        ∷ (0x17, 0xb4, 0x02)
        ∷ (0x28, 0xb4, 0x03)
        ∷ (0x02, 0xb6, 0x02)
        ∷ (0x09, 0xb6, 0x02)
        ∷ (0x17, 0xb6, 0x02)
        ∷ (0x28, 0xb6, 0x03)
        ∷ (0x02, 0xb7, 0x02)
        ∷ (0x09, 0xb7, 0x02)
        ∷ (0x17, 0xb7, 0x02)
        ∷ (0x28, 0xb7, 0x03)
        ∷ [])
    ∷ ((0x03, 0xaf, 0x02)
        ∷ (0x06, 0xaf, 0x02)
        ∷ (0x0a, 0xaf, 0x02)
        ∷ (0x0f, 0xaf, 0x02)
        ∷ (0x18, 0xaf, 0x02)
        ∷ (0x1f, 0xaf, 0x02)
        ∷ (0x29, 0xaf, 0x02)
        ∷ (0x38, 0xaf, 0x03)
        ∷ (0x03, 0xb4, 0x02)
        ∷ (0x06, 0xb4, 0x02)
        ∷ (0x0a, 0xb4, 0x02)
        ∷ (0x0f, 0xb4, 0x02)
        ∷ (0x18, 0xb4, 0x02)
        ∷ (0x1f, 0xb4, 0x02)
        ∷ (0x29, 0xb4, 0x02)
        ∷ (0x38, 0xb4, 0x03)
        ∷ [])
    ∷ ((0x03, 0xb6, 0x02)
        ∷ (0x06, 0xb6, 0x02)
        ∷ (0x0a, 0xb6, 0x02)
        ∷ (0x0f, 0xb6, 0x02)
        ∷ (0x18, 0xb6, 0x02)
        ∷ (0x1f, 0xb6, 0x02)
        ∷ (0x29, 0xb6, 0x02)
        ∷ (0x38, 0xb6, 0x03)
        ∷ (0x03, 0xb7, 0x02)
        ∷ (0x06, 0xb7, 0x02)
        ∷ (0x0a, 0xb7, 0x02)
        ∷ (0x0f, 0xb7, 0x02)
        ∷ (0x18, 0xb7, 0x02)
        ∷ (0x1f, 0xb7, 0x02)
        ∷ (0x29, 0xb7, 0x02)
        ∷ (0x38, 0xb7, 0x03)
        ∷ [])
    ∷ ((0x00, 0xbc, 0x02)
        ∷ (0x00, 0xbf, 0x02)
        ∷ (0x00, 0xc5, 0x02)
        ∷ (0x00, 0xe7, 0x02)
        ∷ (0x00, 0xef, 0x02)
        ∷ (0xb0, 0x00, 0x00)
        ∷ (0xb2, 0x00, 0x00)
        ∷ (0xb3, 0x00, 0x00)
        ∷ (0xb7, 0x00, 0x00)
        ∷ (0xb8, 0x00, 0x00)
        ∷ (0xba, 0x00, 0x00)
        ∷ (0xbb, 0x00, 0x00)
        ∷ (0xc0, 0x00, 0x00)
        ∷ (0xc7, 0x00, 0x00)
        ∷ (0xd0, 0x00, 0x00)
        ∷ (0xdf, 0x00, 0x00)
        ∷ [])
    ∷ ((0x01, 0xbc, 0x02)
        ∷ (0x16, 0xbc, 0x03)
        ∷ (0x01, 0xbf, 0x02)
        ∷ (0x16, 0xbf, 0x03)
        ∷ (0x01, 0xc5, 0x02)
        ∷ (0x16, 0xc5, 0x03)
        ∷ (0x01, 0xe7, 0x02)
        ∷ (0x16, 0xe7, 0x03)
        ∷ (0x01, 0xef, 0x02)
        ∷ (0x16, 0xef, 0x03)
        ∷ (0x00, 0x09, 0x02)
        ∷ (0x00, 0x8e, 0x02)
        ∷ (0x00, 0x90, 0x02)
        ∷ (0x00, 0x91, 0x02)
        ∷ (0x00, 0x94, 0x02)
        ∷ (0x00, 0x9f, 0x02)
        ∷ [])
    ∷ ((0x02, 0xbc, 0x02)
        ∷ (0x09, 0xbc, 0x02)
        ∷ (0x17, 0xbc, 0x02)
        ∷ (0x28, 0xbc, 0x03)
        ∷ (0x02, 0xbf, 0x02)
        ∷ (0x09, 0xbf, 0x02)
        ∷ (0x17, 0xbf, 0x02)
        ∷ (0x28, 0xbf, 0x03)
        ∷ (0x02, 0xc5, 0x02)
        ∷ (0x09, 0xc5, 0x02)
        ∷ (0x17, 0xc5, 0x02)
        ∷ (0x28, 0xc5, 0x03)
        ∷ (0x02, 0xe7, 0x02)
        ∷ (0x09, 0xe7, 0x02)
        ∷ (0x17, 0xe7, 0x02)
        ∷ (0x28, 0xe7, 0x03)
        ∷ [])
    ∷ ((0x03, 0xbc, 0x02)
        ∷ (0x06, 0xbc, 0x02)
        ∷ (0x0a, 0xbc, 0x02)
        ∷ (0x0f, 0xbc, 0x02)
        ∷ (0x18, 0xbc, 0x02)
        ∷ (0x1f, 0xbc, 0x02)
        ∷ (0x29, 0xbc, 0x02)
        ∷ (0x38, 0xbc, 0x03)
        ∷ (0x03, 0xbf, 0x02)
        ∷ (0x06, 0xbf, 0x02)
        ∷ (0x0a, 0xbf, 0x02)
        ∷ (0x0f, 0xbf, 0x02)
        ∷ (0x18, 0xbf, 0x02)
        ∷ (0x1f, 0xbf, 0x02)
        ∷ (0x29, 0xbf, 0x02)
        ∷ (0x38, 0xbf, 0x03)
        ∷ [])
    ∷ ((0x03, 0xc5, 0x02)
        ∷ (0x06, 0xc5, 0x02)
        ∷ (0x0a, 0xc5, 0x02)
        ∷ (0x0f, 0xc5, 0x02)
        ∷ (0x18, 0xc5, 0x02)
        ∷ (0x1f, 0xc5, 0x02)
        ∷ (0x29, 0xc5, 0x02)
        ∷ (0x38, 0xc5, 0x03)
        ∷ (0x03, 0xe7, 0x02)
        ∷ (0x06, 0xe7, 0x02)
        ∷ (0x0a, 0xe7, 0x02)
        ∷ (0x0f, 0xe7, 0x02)
        ∷ (0x18, 0xe7, 0x02)
        ∷ (0x1f, 0xe7, 0x02)
        ∷ (0x29, 0xe7, 0x02)
        ∷ (0x38, 0xe7, 0x03)
        ∷ [])
    ∷ ((0x02, 0xef, 0x02)
        ∷ (0x09, 0xef, 0x02)
        ∷ (0x17, 0xef, 0x02)
        ∷ (0x28, 0xef, 0x03)
        ∷ (0x01, 0x09, 0x02)
        ∷ (0x16, 0x09, 0x03)
        ∷ (0x01, 0x8e, 0x02)
        ∷ (0x16, 0x8e, 0x03)
        ∷ (0x01, 0x90, 0x02)
        ∷ (0x16, 0x90, 0x03)
        ∷ (0x01, 0x91, 0x02)
        ∷ (0x16, 0x91, 0x03)
        ∷ (0x01, 0x94, 0x02)
        ∷ (0x16, 0x94, 0x03)
        ∷ (0x01, 0x9f, 0x02)
        ∷ (0x16, 0x9f, 0x03)
        ∷ [])
    ∷ ((0x03, 0xef, 0x02)
        ∷ (0x06, 0xef, 0x02)
        ∷ (0x0a, 0xef, 0x02)
        ∷ (0x0f, 0xef, 0x02)
        ∷ (0x18, 0xef, 0x02)
        ∷ (0x1f, 0xef, 0x02)
        ∷ (0x29, 0xef, 0x02)
        ∷ (0x38, 0xef, 0x03)
        ∷ (0x02, 0x09, 0x02)
        ∷ (0x09, 0x09, 0x02)
        ∷ (0x17, 0x09, 0x02)
        ∷ (0x28, 0x09, 0x03)
        ∷ (0x02, 0x8e, 0x02)
        ∷ (0x09, 0x8e, 0x02)
        ∷ (0x17, 0x8e, 0x02)
        ∷ (0x28, 0x8e, 0x03)
        ∷ [])
    ∷ []

unfoldable pub rows_b0 : List (List (ℕ × ℕ × ℕ))
rows_b0 =
    ((0x03, 0x09, 0x02)
      ∷ (0x06, 0x09, 0x02)
      ∷ (0x0a, 0x09, 0x02)
      ∷ (0x0f, 0x09, 0x02)
      ∷ (0x18, 0x09, 0x02)
      ∷ (0x1f, 0x09, 0x02)
      ∷ (0x29, 0x09, 0x02)
      ∷ (0x38, 0x09, 0x03)
      ∷ (0x03, 0x8e, 0x02)
      ∷ (0x06, 0x8e, 0x02)
      ∷ (0x0a, 0x8e, 0x02)
      ∷ (0x0f, 0x8e, 0x02)
      ∷ (0x18, 0x8e, 0x02)
      ∷ (0x1f, 0x8e, 0x02)
      ∷ (0x29, 0x8e, 0x02)
      ∷ (0x38, 0x8e, 0x03)
      ∷ [])
    ∷ ((0x02, 0x90, 0x02)
        ∷ (0x09, 0x90, 0x02)
        ∷ (0x17, 0x90, 0x02)
        ∷ (0x28, 0x90, 0x03)
        ∷ (0x02, 0x91, 0x02)
        ∷ (0x09, 0x91, 0x02)
        ∷ (0x17, 0x91, 0x02)
        ∷ (0x28, 0x91, 0x03)
        ∷ (0x02, 0x94, 0x02)
        ∷ (0x09, 0x94, 0x02)
        ∷ (0x17, 0x94, 0x02)
        ∷ (0x28, 0x94, 0x03)
        ∷ (0x02, 0x9f, 0x02)
        ∷ (0x09, 0x9f, 0x02)
        ∷ (0x17, 0x9f, 0x02)
        ∷ (0x28, 0x9f, 0x03)
        ∷ [])
    ∷ ((0x03, 0x90, 0x02)
        ∷ (0x06, 0x90, 0x02)
        ∷ (0x0a, 0x90, 0x02)
        ∷ (0x0f, 0x90, 0x02)
        ∷ (0x18, 0x90, 0x02)
        ∷ (0x1f, 0x90, 0x02)
        ∷ (0x29, 0x90, 0x02)
        ∷ (0x38, 0x90, 0x03)
        ∷ (0x03, 0x91, 0x02)
        ∷ (0x06, 0x91, 0x02)
        ∷ (0x0a, 0x91, 0x02)
        ∷ (0x0f, 0x91, 0x02)
        ∷ (0x18, 0x91, 0x02)
        ∷ (0x1f, 0x91, 0x02)
        ∷ (0x29, 0x91, 0x02)
        ∷ (0x38, 0x91, 0x03)
        ∷ [])
    ∷ ((0x03, 0x94, 0x02)
        ∷ (0x06, 0x94, 0x02)
        ∷ (0x0a, 0x94, 0x02)
        ∷ (0x0f, 0x94, 0x02)
        ∷ (0x18, 0x94, 0x02)
        ∷ (0x1f, 0x94, 0x02)
        ∷ (0x29, 0x94, 0x02)
        ∷ (0x38, 0x94, 0x03)
        ∷ (0x03, 0x9f, 0x02)
        ∷ (0x06, 0x9f, 0x02)
        ∷ (0x0a, 0x9f, 0x02)
        ∷ (0x0f, 0x9f, 0x02)
        ∷ (0x18, 0x9f, 0x02)
        ∷ (0x1f, 0x9f, 0x02)
        ∷ (0x29, 0x9f, 0x02)
        ∷ (0x38, 0x9f, 0x03)
        ∷ [])
    ∷ ((0x00, 0xab, 0x02)
        ∷ (0x00, 0xce, 0x02)
        ∷ (0x00, 0xd7, 0x02)
        ∷ (0x00, 0xe1, 0x02)
        ∷ (0x00, 0xec, 0x02)
        ∷ (0x00, 0xed, 0x02)
        ∷ (0xbc, 0x00, 0x00)
        ∷ (0xbd, 0x00, 0x00)
        ∷ (0xc1, 0x00, 0x00)
        ∷ (0xc4, 0x00, 0x00)
        ∷ (0xc8, 0x00, 0x00)
        ∷ (0xcb, 0x00, 0x00)
        ∷ (0xd1, 0x00, 0x00)
        ∷ (0xd8, 0x00, 0x00)
        ∷ (0xe0, 0x00, 0x00)
        ∷ (0xee, 0x00, 0x00)
        ∷ [])
    ∷ ((0x01, 0xab, 0x02)
        ∷ (0x16, 0xab, 0x03)
        ∷ (0x01, 0xce, 0x02)
        ∷ (0x16, 0xce, 0x03)
        ∷ (0x01, 0xd7, 0x02)
        ∷ (0x16, 0xd7, 0x03)
        ∷ (0x01, 0xe1, 0x02)
        ∷ (0x16, 0xe1, 0x03)
        ∷ (0x01, 0xec, 0x02)
        ∷ (0x16, 0xec, 0x03)
        ∷ (0x01, 0xed, 0x02)
        ∷ (0x16, 0xed, 0x03)
        ∷ (0x00, 0xc7, 0x02)
        ∷ (0x00, 0xcf, 0x02)
        ∷ (0x00, 0xea, 0x02)
        ∷ (0x00, 0xeb, 0x02)
        ∷ [])
    ∷ ((0x02, 0xab, 0x02)
        ∷ (0x09, 0xab, 0x02)
        ∷ (0x17, 0xab, 0x02)
        ∷ (0x28, 0xab, 0x03)
        ∷ (0x02, 0xce, 0x02)
        ∷ (0x09, 0xce, 0x02)
        ∷ (0x17, 0xce, 0x02)
        ∷ (0x28, 0xce, 0x03)
        ∷ (0x02, 0xd7, 0x02)
        ∷ (0x09, 0xd7, 0x02)
        ∷ (0x17, 0xd7, 0x02)
        ∷ (0x28, 0xd7, 0x03)
        ∷ (0x02, 0xe1, 0x02)
        ∷ (0x09, 0xe1, 0x02)
        ∷ (0x17, 0xe1, 0x02)
        ∷ (0x28, 0xe1, 0x03)
        ∷ [])
    ∷ ((0x03, 0xab, 0x02)
        ∷ (0x06, 0xab, 0x02)
        ∷ (0x0a, 0xab, 0x02)
        ∷ (0x0f, 0xab, 0x02)
        ∷ (0x18, 0xab, 0x02)
        ∷ (0x1f, 0xab, 0x02)
        ∷ (0x29, 0xab, 0x02)
        ∷ (0x38, 0xab, 0x03)
        ∷ (0x03, 0xce, 0x02)
        ∷ (0x06, 0xce, 0x02)
        ∷ (0x0a, 0xce, 0x02)
        ∷ (0x0f, 0xce, 0x02)
        ∷ (0x18, 0xce, 0x02)
        ∷ (0x1f, 0xce, 0x02)
        ∷ (0x29, 0xce, 0x02)
        ∷ (0x38, 0xce, 0x03)
        ∷ [])
    ∷ ((0x03, 0xd7, 0x02)
        ∷ (0x06, 0xd7, 0x02)
        ∷ (0x0a, 0xd7, 0x02)
        ∷ (0x0f, 0xd7, 0x02)
        ∷ (0x18, 0xd7, 0x02)
        ∷ (0x1f, 0xd7, 0x02)
        ∷ (0x29, 0xd7, 0x02)
        ∷ (0x38, 0xd7, 0x03)
        ∷ (0x03, 0xe1, 0x02)
        ∷ (0x06, 0xe1, 0x02)
        ∷ (0x0a, 0xe1, 0x02)
        ∷ (0x0f, 0xe1, 0x02)
        ∷ (0x18, 0xe1, 0x02)
        ∷ (0x1f, 0xe1, 0x02)
        ∷ (0x29, 0xe1, 0x02)
        ∷ (0x38, 0xe1, 0x03)
        ∷ [])
    ∷ ((0x02, 0xec, 0x02)
        ∷ (0x09, 0xec, 0x02)
        ∷ (0x17, 0xec, 0x02)
        ∷ (0x28, 0xec, 0x03)
        ∷ (0x02, 0xed, 0x02)
        ∷ (0x09, 0xed, 0x02)
        ∷ (0x17, 0xed, 0x02)
        ∷ (0x28, 0xed, 0x03)
        ∷ (0x01, 0xc7, 0x02)
        ∷ (0x16, 0xc7, 0x03)
        ∷ (0x01, 0xcf, 0x02)
        ∷ (0x16, 0xcf, 0x03)
        ∷ (0x01, 0xea, 0x02)
        ∷ (0x16, 0xea, 0x03)
        ∷ (0x01, 0xeb, 0x02)
        ∷ (0x16, 0xeb, 0x03)
        ∷ [])
    ∷ ((0x03, 0xec, 0x02)
        ∷ (0x06, 0xec, 0x02)
        ∷ (0x0a, 0xec, 0x02)
        ∷ (0x0f, 0xec, 0x02)
        ∷ (0x18, 0xec, 0x02)
        ∷ (0x1f, 0xec, 0x02)
        ∷ (0x29, 0xec, 0x02)
        ∷ (0x38, 0xec, 0x03)
        ∷ (0x03, 0xed, 0x02)
        ∷ (0x06, 0xed, 0x02)
        ∷ (0x0a, 0xed, 0x02)
        ∷ (0x0f, 0xed, 0x02)
        ∷ (0x18, 0xed, 0x02)
        ∷ (0x1f, 0xed, 0x02)
        ∷ (0x29, 0xed, 0x02)
        ∷ (0x38, 0xed, 0x03)
        ∷ [])
    ∷ ((0x02, 0xc7, 0x02)
        ∷ (0x09, 0xc7, 0x02)
        ∷ (0x17, 0xc7, 0x02)
        ∷ (0x28, 0xc7, 0x03)
        ∷ (0x02, 0xcf, 0x02)
        ∷ (0x09, 0xcf, 0x02)
        ∷ (0x17, 0xcf, 0x02)
        ∷ (0x28, 0xcf, 0x03)
        ∷ (0x02, 0xea, 0x02)
        ∷ (0x09, 0xea, 0x02)
        ∷ (0x17, 0xea, 0x02)
        ∷ (0x28, 0xea, 0x03)
        ∷ (0x02, 0xeb, 0x02)
        ∷ (0x09, 0xeb, 0x02)
        ∷ (0x17, 0xeb, 0x02)
        ∷ (0x28, 0xeb, 0x03)
        ∷ [])
    ∷ ((0x03, 0xc7, 0x02)
        ∷ (0x06, 0xc7, 0x02)
        ∷ (0x0a, 0xc7, 0x02)
        ∷ (0x0f, 0xc7, 0x02)
        ∷ (0x18, 0xc7, 0x02)
        ∷ (0x1f, 0xc7, 0x02)
        ∷ (0x29, 0xc7, 0x02)
        ∷ (0x38, 0xc7, 0x03)
        ∷ (0x03, 0xcf, 0x02)
        ∷ (0x06, 0xcf, 0x02)
        ∷ (0x0a, 0xcf, 0x02)
        ∷ (0x0f, 0xcf, 0x02)
        ∷ (0x18, 0xcf, 0x02)
        ∷ (0x1f, 0xcf, 0x02)
        ∷ (0x29, 0xcf, 0x02)
        ∷ (0x38, 0xcf, 0x03)
        ∷ [])
    ∷ ((0x03, 0xea, 0x02)
        ∷ (0x06, 0xea, 0x02)
        ∷ (0x0a, 0xea, 0x02)
        ∷ (0x0f, 0xea, 0x02)
        ∷ (0x18, 0xea, 0x02)
        ∷ (0x1f, 0xea, 0x02)
        ∷ (0x29, 0xea, 0x02)
        ∷ (0x38, 0xea, 0x03)
        ∷ (0x03, 0xeb, 0x02)
        ∷ (0x06, 0xeb, 0x02)
        ∷ (0x0a, 0xeb, 0x02)
        ∷ (0x0f, 0xeb, 0x02)
        ∷ (0x18, 0xeb, 0x02)
        ∷ (0x1f, 0xeb, 0x02)
        ∷ (0x29, 0xeb, 0x02)
        ∷ (0x38, 0xeb, 0x03)
        ∷ [])
    ∷ ((0xc2, 0x00, 0x00)
        ∷ (0xc3, 0x00, 0x00)
        ∷ (0xc5, 0x00, 0x00)
        ∷ (0xc6, 0x00, 0x00)
        ∷ (0xc9, 0x00, 0x00)
        ∷ (0xca, 0x00, 0x00)
        ∷ (0xcc, 0x00, 0x00)
        ∷ (0xcd, 0x00, 0x00)
        ∷ (0xd2, 0x00, 0x00)
        ∷ (0xd5, 0x00, 0x00)
        ∷ (0xd9, 0x00, 0x00)
        ∷ (0xdc, 0x00, 0x00)
        ∷ (0xe1, 0x00, 0x00)
        ∷ (0xe7, 0x00, 0x00)
        ∷ (0xef, 0x00, 0x00)
        ∷ (0xf6, 0x00, 0x00)
        ∷ [])
    ∷ ((0x00, 0xc0, 0x02)
        ∷ (0x00, 0xc1, 0x02)
        ∷ (0x00, 0xc8, 0x02)
        ∷ (0x00, 0xc9, 0x02)
        ∷ (0x00, 0xca, 0x02)
        ∷ (0x00, 0xcd, 0x02)
        ∷ (0x00, 0xd2, 0x02)
        ∷ (0x00, 0xd5, 0x02)
        ∷ (0x00, 0xda, 0x02)
        ∷ (0x00, 0xdb, 0x02)
        ∷ (0x00, 0xee, 0x02)
        ∷ (0x00, 0xf0, 0x02)
        ∷ (0x00, 0xf2, 0x02)
        ∷ (0x00, 0xf3, 0x02)
        ∷ (0x00, 0xff, 0x02)
        ∷ (0xce, 0x00, 0x00)
        ∷ [])
    ∷ []

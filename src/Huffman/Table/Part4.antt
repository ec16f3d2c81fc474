-- ===== src/Huffman/Table/Part4.antt =====
-- ylong_http/src/huffman/consts.rs: `HUFFMAN_DECODE`, states 128 to 159.
use commonlibrary_rust_ylong.Common.{ℕ, List, [], ◌∷◌}

unfoldable pub rows_80 : List (List (ℕ × ℕ × ℕ))
rows_80 =
    ((0x03, 0x9a, 0x02)
      ∷ (0x06, 0x9a, 0x02)
      ∷ (0x0a, 0x9a, 0x02)
      ∷ (0x0f, 0x9a, 0x02)
      ∷ (0x18, 0x9a, 0x02)
      ∷ (0x1f, 0x9a, 0x02)
      ∷ (0x29, 0x9a, 0x02)
      ∷ (0x38, 0x9a, 0x03)
      ∷ (0x03, 0x9c, 0x02)
      ∷ (0x06, 0x9c, 0x02)
      ∷ (0x0a, 0x9c, 0x02)
      ∷ (0x0f, 0x9c, 0x02)
      ∷ (0x18, 0x9c, 0x02)
      ∷ (0x1f, 0x9c, 0x02)
      ∷ (0x29, 0x9c, 0x02)
      ∷ (0x38, 0x9c, 0x03)
      ∷ [])
    ∷ ((0x03, 0xa0, 0x02)
        ∷ (0x06, 0xa0, 0x02)
        ∷ (0x0a, 0xa0, 0x02)
        ∷ (0x0f, 0xa0, 0x02)
        ∷ (0x18, 0xa0, 0x02)
        ∷ (0x1f, 0xa0, 0x02)
        ∷ (0x29, 0xa0, 0x02)
        ∷ (0x38, 0xa0, 0x03)
        ∷ (0x03, 0xa3, 0x02)
        ∷ (0x06, 0xa3, 0x02)
        ∷ (0x0a, 0xa3, 0x02)
        ∷ (0x0f, 0xa3, 0x02)
        ∷ (0x18, 0xa3, 0x02)
        ∷ (0x1f, 0xa3, 0x02)
        ∷ (0x29, 0xa3, 0x02)
        ∷ (0x38, 0xa3, 0x03)
        ∷ [])
    ∷ ((0x02, 0xa4, 0x02)
        ∷ (0x09, 0xa4, 0x02)
        ∷ (0x17, 0xa4, 0x02)
        ∷ (0x28, 0xa4, 0x03)
        ∷ (0x02, 0xa9, 0x02)
        ∷ (0x09, 0xa9, 0x02)
        ∷ (0x17, 0xa9, 0x02)
        ∷ (0x28, 0xa9, 0x03)
        ∷ (0x02, 0xaa, 0x02)
        ∷ (0x09, 0xaa, 0x02)
        ∷ (0x17, 0xaa, 0x02)
        ∷ (0x28, 0xaa, 0x03)
        ∷ (0x02, 0xad, 0x02)
        ∷ (0x09, 0xad, 0x02)
        ∷ (0x17, 0xad, 0x02)
        ∷ (0x28, 0xad, 0x03)
        ∷ [])
    ∷ ((0x03, 0xa4, 0x02)
        ∷ (0x06, 0xa4, 0x02)
        ∷ (0x0a, 0xa4, 0x02)
        ∷ (0x0f, 0xa4, 0x02)
        ∷ (0x18, 0xa4, 0x02)
        ∷ (0x1f, 0xa4, 0x02)
        ∷ (0x29, 0xa4, 0x02)
        ∷ (0x38, 0xa4, 0x03)
        ∷ (0x03, 0xa9, 0x02)
        ∷ (0x06, 0xa9, 0x02)
        ∷ (0x0a, 0xa9, 0x02)
        ∷ (0x0f, 0xa9, 0x02)
        ∷ (0x18, 0xa9, 0x02)
        ∷ (0x1f, 0xa9, 0x02)
        ∷ (0x29, 0xa9, 0x02)
        ∷ (0x38, 0xa9, 0x03)
        ∷ [])
    ∷ ((0x03, 0xaa, 0x02)
        ∷ (0x06, 0xaa, 0x02)
        ∷ (0x0a, 0xaa, 0x02)
        ∷ (0x0f, 0xaa, 0x02)
        ∷ (0x18, 0xaa, 0x02)
        ∷ (0x1f, 0xaa, 0x02)
        ∷ (0x29, 0xaa, 0x02)
        ∷ (0x38, 0xaa, 0x03)
        ∷ (0x03, 0xad, 0x02)
        ∷ (0x06, 0xad, 0x02)
        ∷ (0x0a, 0xad, 0x02)
        ∷ (0x0f, 0xad, 0x02)
        ∷ (0x18, 0xad, 0x02)
        ∷ (0x1f, 0xad, 0x02)
        ∷ (0x29, 0xad, 0x02)
        ∷ (0x38, 0xad, 0x03)
        ∷ [])
    ∷ ((0x89, 0x00, 0x00)
        ∷ (0x8a, 0x00, 0x00)
        ∷ (0x8c, 0x00, 0x00)
        ∷ (0x8d, 0x00, 0x00)
        ∷ (0x90, 0x00, 0x00)
        ∷ (0x91, 0x00, 0x00)
        ∷ (0x93, 0x00, 0x00)
        ∷ (0x96, 0x00, 0x00)
        ∷ (0x9c, 0x00, 0x00)
        ∷ (0x9f, 0x00, 0x00)
        ∷ (0xa3, 0x00, 0x00)
        ∷ (0xa6, 0x00, 0x00)
        ∷ (0xab, 0x00, 0x00)
        ∷ (0xae, 0x00, 0x00)
        ∷ (0xb5, 0x00, 0x00)
        ∷ (0xbe, 0x00, 0x00)
        ∷ [])
    ∷ ((0x00, 0xb2, 0x02)
        ∷ (0x00, 0xb5, 0x02)
        ∷ (0x00, 0xb9, 0x02)
        ∷ (0x00, 0xba, 0x02)
        ∷ (0x00, 0xbb, 0x02)
        ∷ (0x00, 0xbd, 0x02)
        ∷ (0x00, 0xbe, 0x02)
        ∷ (0x00, 0xc4, 0x02)
        ∷ (0x00, 0xc6, 0x02)
        ∷ (0x00, 0xe4, 0x02)
        ∷ (0x00, 0xe8, 0x02)
        ∷ (0x00, 0xe9, 0x02)
        ∷ (0x94, 0x00, 0x00)
        ∷ (0x95, 0x00, 0x00)
        ∷ (0x97, 0x00, 0x00)
        ∷ (0x98, 0x00, 0x00)
        ∷ [])
    ∷ ((0x01, 0xb2, 0x02)
        ∷ (0x16, 0xb2, 0x03)
        ∷ (0x01, 0xb5, 0x02)
        ∷ (0x16, 0xb5, 0x03)
        ∷ (0x01, 0xb9, 0x02)
        ∷ (0x16, 0xb9, 0x03)
        ∷ (0x01, 0xba, 0x02)
        ∷ (0x16, 0xba, 0x03)
        ∷ (0x01, 0xbb, 0x02)
        ∷ (0x16, 0xbb, 0x03)
        ∷ (0x01, 0xbd, 0x02)
        ∷ (0x16, 0xbd, 0x03)
        ∷ (0x01, 0xbe, 0x02)
        ∷ (0x16, 0xbe, 0x03)
        ∷ (0x01, 0xc4, 0x02)
        ∷ (0x16, 0xc4, 0x03)
        ∷ [])
    ∷ ((0x02, 0xb2, 0x02)
        ∷ (0x09, 0xb2, 0x02)
        ∷ (0x17, 0xb2, 0x02)
        ∷ (0x28, 0xb2, 0x03)
        ∷ (0x02, 0xb5, 0x02)
        ∷ (0x09, 0xb5, 0x02)
        ∷ (0x17, 0xb5, 0x02)
        ∷ (0x28, 0xb5, 0x03)
        ∷ (0x02, 0xb9, 0x02)
        ∷ (0x09, 0xb9, 0x02)
        ∷ (0x17, 0xb9, 0x02)
        ∷ (0x28, 0xb9, 0x03)
        ∷ (0x02, 0xba, 0x02)
        ∷ (0x09, 0xba, 0x02)
        ∷ (0x17, 0xba, 0x02)
        ∷ (0x28, 0xba, 0x03)
        ∷ [])
    ∷ ((0x03, 0xb2, 0x02)
        ∷ (0x06, 0xb2, 0x02)
        ∷ (0x0a, 0xb2, 0x02)
        ∷ (0x0f, 0xb2, 0x02)
        ∷ (0x18, 0xb2, 0x02)
        ∷ (0x1f, 0xb2, 0x02)
        ∷ (0x29, 0xb2, 0x02)
        ∷ (0x38, 0xb2, 0x03)
        ∷ (0x03, 0xb5, 0x02)
        ∷ (0x06, 0xb5, 0x02)
        ∷ (0x0a, 0xb5, 0x02)
        ∷ (0x0f, 0xb5, 0x02)
        ∷ (0x18, 0xb5, 0x02)
        ∷ (0x1f, 0xb5, 0x02)
        ∷ (0x29, 0xb5, 0x02)
        ∷ (0x38, 0xb5, 0x03)
        ∷ [])
    ∷ ((0x03, 0xb9, 0x02)
        ∷ (0x06, 0xb9, 0x02)
        ∷ (0x0a, 0xb9, 0x02)
        ∷ (0x0f, 0xb9, 0x02)
        ∷ (0x18, 0xb9, 0x02)
        ∷ (0x1f, 0xb9, 0x02)
        ∷ (0x29, 0xb9, 0x02)
        ∷ (0x38, 0xb9, 0x03)
        ∷ (0x03, 0xba, 0x02)
        ∷ (0x06, 0xba, 0x02)
        ∷ (0x0a, 0xba, 0x02)
        ∷ (0x0f, 0xba, 0x02)
        ∷ (0x18, 0xba, 0x02)
        ∷ (0x1f, 0xba, 0x02)
        ∷ (0x29, 0xba, 0x02)
        ∷ (0x38, 0xba, 0x03)
        ∷ [])
    ∷ ((0x02, 0xbb, 0x02)
        ∷ (0x09, 0xbb, 0x02)
        ∷ (0x17, 0xbb, 0x02)
        ∷ (0x28, 0xbb, 0x03)
        ∷ (0x02, 0xbd, 0x02)
        ∷ (0x09, 0xbd, 0x02)
        ∷ (0x17, 0xbd, 0x02)
        ∷ (0x28, 0xbd, 0x03)
        ∷ (0x02, 0xbe, 0x02)
        ∷ (0x09, 0xbe, 0x02)
        ∷ (0x17, 0xbe, 0x02)
        ∷ (0x28, 0xbe, 0x03)
        ∷ (0x02, 0xc4, 0x02)
        ∷ (0x09, 0xc4, 0x02)
        ∷ (0x17, 0xc4, 0x02)
        ∷ (0x28, 0xc4, 0x03)
        ∷ [])
    ∷ ((0x03, 0xbb, 0x02)
        ∷ (0x06, 0xbb, 0x02)
        ∷ (0x0a, 0xbb, 0x02)
        ∷ (0x0f, 0xbb, 0x02)
        ∷ (0x18, 0xbb, 0x02)
        ∷ (0x1f, 0xbb, 0x02)
        ∷ (0x29, 0xbb, 0x02)
        ∷ (0x38, 0xbb, 0x03)
        ∷ (0x03, 0xbd, 0x02)
        ∷ (0x06, 0xbd, 0x02)
        ∷ (0x0a, 0xbd, 0x02)
        ∷ (0x0f, 0xbd, 0x02)
        ∷ (0x18, 0xbd, 0x02)
        ∷ (0x1f, 0xbd, 0x02)
        ∷ (0x29, 0xbd, 0x02)
        ∷ (0x38, 0xbd, 0x03)
        ∷ [])
    ∷ ((0x03, 0xbe, 0x02)
        ∷ (0x06, 0xbe, 0x02)
        ∷ (0x0a, 0xbe, 0x02)
        ∷ (0x0f, 0xbe, 0x02)
        ∷ (0x18, 0xbe, 0x02)
        ∷ (0x1f, 0xbe, 0x02)
        ∷ (0x29, 0xbe, 0x02)
        ∷ (0x38, 0xbe, 0x03)
        ∷ (0x03, 0xc4, 0x02)
        ∷ (0x06, 0xc4, 0x02)
        ∷ (0x0a, 0xc4, 0x02)
        ∷ (0x0f, 0xc4, 0x02)
        ∷ (0x18, 0xc4, 0x02)
        ∷ (0x1f, 0xc4, 0x02)
        ∷ (0x29, 0xc4, 0x02)
        ∷ (0x38, 0xc4, 0x03)
        ∷ [])
    ∷ ((0x01, 0xc6, 0x02)
        ∷ (0x16, 0xc6, 0x03)
        ∷ (0x01, 0xe4, 0x02)
        ∷ (0x16, 0xe4, 0x03)
        ∷ (0x01, 0xe8, 0x02)
        ∷ (0x16, 0xe8, 0x03)
        ∷ (0x01, 0xe9, 0x02)
        ∷ (0x16, 0xe9, 0x03)
        ∷ (0x00, 0x01, 0x02)
        ∷ (0x00, 0x87, 0x02)
        ∷ (0x00, 0x89, 0x02)
        ∷ (0x00, 0x8a, 0x02)
        ∷ (0x00, 0x8b, 0x02)
        ∷ (0x00, 0x8c, 0x02)
        ∷ (0x00, 0x8d, 0x02)
        ∷ (0x00, 0x8f, 0x02)
        ∷ [])
    ∷ ((0x02, 0xc6, 0x02)
        ∷ (0x09, 0xc6, 0x02)
        ∷ (0x17, 0xc6, 0x02)
        ∷ (0x28, 0xc6, 0x03)
        ∷ (0x02, 0xe4, 0x02)
        ∷ (0x09, 0xe4, 0x02)
        ∷ (0x17, 0xe4, 0x02)
        ∷ (0x28, 0xe4, 0x03)
        ∷ (0x02, 0xe8, 0x02)
        ∷ (0x09, 0xe8, 0x02)
        ∷ (0x17, 0xe8, 0x02)
        ∷ (0x28, 0xe8, 0x03)
        ∷ (0x02, 0xe9, 0x02)
        ∷ (0x09, 0xe9, 0x02)
        ∷ (0x17, 0xe9, 0x02)
        ∷ (0x28, 0xe9, 0x03)
        ∷ [])
    ∷ []

unfoldable pub rows_90 : List (List (ℕ × ℕ × ℕ))
rows_90 =
    ((0x03, 0xc6, 0x02)
      ∷ (0x06, 0xc6, 0x02)
      ∷ (0x0a, 0xc6, 0x02)
      ∷ (0x0f, 0xc6, 0x02)
      ∷ (0x18, 0xc6, 0x02)
      ∷ (0x1f, 0xc6, 0x02)
      ∷ (0x29, 0xc6, 0x02)
      ∷ (0x38, 0xc6, 0x03)
      ∷ (0x03, 0xe4, 0x02)
      ∷ (0x06, 0xe4, 0x02)
      ∷ (0x0a, 0xe4, 0x02)
      ∷ (0x0f, 0xe4, 0x02)
      ∷ (0x18, 0xe4, 0x02)
      ∷ (0x1f, 0xe4, 0x02)
      ∷ (0x29, 0xe4, 0x02)
      ∷ (0x38, 0xe4, 0x03)
      ∷ [])
    ∷ ((0x03, 0xe8, 0x02)
        ∷ (0x06, 0xe8, 0x02)
        ∷ (0x0a, 0xe8, 0x02)
        ∷ (0x0f, 0xe8, 0x02)
        ∷ (0x18, 0xe8, 0x02)
        ∷ (0x1f, 0xe8, 0x02)
        ∷ (0x29, 0xe8, 0x02)
        ∷ (0x38, 0xe8, 0x03)
        ∷ (0x03, 0xe9, 0x02)
        ∷ (0x06, 0xe9, 0x02)
        ∷ (0x0a, 0xe9, 0x02)
        ∷ (0x0f, 0xe9, 0x02)
        ∷ (0x18, 0xe9, 0x02)
        ∷ (0x1f, 0xe9, 0x02)
        ∷ (0x29, 0xe9, 0x02)
        ∷ (0x38, 0xe9, 0x03)
        ∷ [])
    ∷ ((0x01, 0x01, 0x02)
        ∷ (0x16, 0x01, 0x03)
        ∷ (0x01, 0x87, 0x02)
        ∷ (0x16, 0x87, 0x03)
        ∷ (0x01, 0x89, 0x02)
        ∷ (0x16, 0x89, 0x03)
        ∷ (0x01, 0x8a, 0x02)
        ∷ (0x16, 0x8a, 0x03)
        ∷ (0x01, 0x8b, 0x02)
        ∷ (0x16, 0x8b, 0x03)
        ∷ (0x01, 0x8c, 0x02)
        ∷ (0x16, 0x8c, 0x03)
        ∷ (0x01, 0x8d, 0x02)
        ∷ (0x16, 0x8d, 0x03)
        ∷ (0x01, 0x8f, 0x02)
        ∷ (0x16, 0x8f, 0x03)
        ∷ [])
    ∷ ((0x02, 0x01, 0x02)
        ∷ (0x09, 0x01, 0x02)
        ∷ (0x17, 0x01, 0x02)
        ∷ (0x28, 0x01, 0x03)
        ∷ (0x02, 0x87, 0x02)
        ∷ (0x09, 0x87, 0x02)
        ∷ (0x17, 0x87, 0x02)
        ∷ (0x28, 0x87, 0x03)
        ∷ (0x02, 0x89, 0x02)
        ∷ (0x09, 0x89, 0x02)
        ∷ (0x17, 0x89, 0x02)
        ∷ (0x28, 0x89, 0x03)
        ∷ (0x02, 0x8a, 0x02)
        ∷ (0x09, 0x8a, 0x02)
        ∷ (0x17, 0x8a, 0x02)
        ∷ (0x28, 0x8a, 0x03)
        ∷ [])
    ∷ ((0x03, 0x01, 0x02)
        ∷ (0x06, 0x01, 0x02)
        ∷ (0x0a, 0x01, 0x02)
        ∷ (0x0f, 0x01, 0x02)
        ∷ (0x18, 0x01, 0x02)
        ∷ (0x1f, 0x01, 0x02)
        ∷ (0x29, 0x01, 0x02)
        ∷ (0x38, 0x01, 0x03)
        ∷ (0x03, 0x87, 0x02)
        ∷ (0x06, 0x87, 0x02)
        ∷ (0x0a, 0x87, 0x02)
        ∷ (0x0f, 0x87, 0x02)
        ∷ (0x18, 0x87, 0x02)
        ∷ (0x1f, 0x87, 0x02)
        ∷ (0x29, 0x87, 0x02)
        ∷ (0x38, 0x87, 0x03)
        ∷ [])
    ∷ ((0x03, 0x89, 0x02)
        ∷ (0x06, 0x89, 0x02)
        ∷ (0x0a, 0x89, 0x02)
        ∷ (0x0f, 0x89, 0x02)
        ∷ (0x18, 0x89, 0x02)
        ∷ (0x1f, 0x89, 0x02)
        ∷ (0x29, 0x89, 0x02)
        ∷ (0x38, 0x89, 0x03)
        ∷ (0x03, 0x8a, 0x02)
        ∷ (0x06, 0x8a, 0x02)
        ∷ (0x0a, 0x8a, 0x02)
        ∷ (0x0f, 0x8a, 0x02)
        ∷ (0x18, 0x8a, 0x02)
        ∷ (0x1f, 0x8a, 0x02)
        ∷ (0x29, 0x8a, 0x02)
        ∷ (0x38, 0x8a, 0x03)
        ∷ [])
    ∷ ((0x02, 0x8b, 0x02)
        ∷ (0x09, 0x8b, 0x02)
        ∷ (0x17, 0x8b, 0x02)
        ∷ (0x28, 0x8b, 0x03)
        ∷ (0x02, 0x8c, 0x02)
        ∷ (0x09, 0x8c, 0x02)
        ∷ (0x17, 0x8c, 0x02)
        ∷ (0x28, 0x8c, 0x03)
        ∷ (0x02, 0x8d, 0x02)
        ∷ (0x09, 0x8d, 0x02)
        ∷ (0x17, 0x8d, 0x02)
        ∷ (0x28, 0x8d, 0x03)
        ∷ (0x02, 0x8f, 0x02)
        ∷ (0x09, 0x8f, 0x02)
        ∷ (0x17, 0x8f, 0x02)
        ∷ (0x28, 0x8f, 0x03)
        ∷ [])
    ∷ ((0x03, 0x8b, 0x02)
        ∷ (0x06, 0x8b, 0x02)
        ∷ (0x0a, 0x8b, 0x02)
        ∷ (0x0f, 0x8b, 0x02)
        ∷ (0x18, 0x8b, 0x02)
        ∷ (0x1f, 0x8b, 0x02)
        ∷ (0x29, 0x8b, 0x02)
        ∷ (0x38, 0x8b, 0x03)
        ∷ (0x03, 0x8c, 0x02)
        ∷ (0x06, 0x8c, 0x02)
        ∷ (0x0a, 0x8c, 0x02)
        ∷ (0x0f, 0x8c, 0x02)
        ∷ (0x18, 0x8c, 0x02)
        ∷ (0x1f, 0x8c, 0x02)
        ∷ (0x29, 0x8c, 0x02)
        ∷ (0x38, 0x8c, 0x03)
        ∷ [])
    ∷ ((0x03, 0x8d, 0x02)
        ∷ (0x06, 0x8d, 0x02)
        ∷ (0x0a, 0x8d, 0x02)
        ∷ (0x0f, 0x8d, 0x02)
        ∷ (0x18, 0x8d, 0x02)
        ∷ (0x1f, 0x8d, 0x02)
        ∷ (0x29, 0x8d, 0x02)
        ∷ (0x38, 0x8d, 0x03)
        ∷ (0x03, 0x8f, 0x02)
        ∷ (0x06, 0x8f, 0x02)
        ∷ (0x0a, 0x8f, 0x02)
        ∷ (0x0f, 0x8f, 0x02)
        ∷ (0x18, 0x8f, 0x02)
        ∷ (0x1f, 0x8f, 0x02)
        ∷ (0x29, 0x8f, 0x02)
        ∷ (0x38, 0x8f, 0x03)
        ∷ [])
    ∷ ((0x9d, 0x00, 0x00)
        ∷ (0x9e, 0x00, 0x00)
        ∷ (0xa0, 0x00, 0x00)
        ∷ (0xa1, 0x00, 0x00)
        ∷ (0xa4, 0x00, 0x00)
        ∷ (0xa5, 0x00, 0x00)
        ∷ (0xa7, 0x00, 0x00)
        ∷ (0xa8, 0x00, 0x00)
        ∷ (0xac, 0x00, 0x00)
        ∷ (0xad, 0x00, 0x00)
        ∷ (0xaf, 0x00, 0x00)
        ∷ (0xb1, 0x00, 0x00)
        ∷ (0xb6, 0x00, 0x00)
        ∷ (0xb9, 0x00, 0x00)
        ∷ (0xbf, 0x00, 0x00)
        ∷ (0xcf, 0x00, 0x00)
        ∷ [])
    ∷ ((0x00, 0x93, 0x02)
        ∷ (0x00, 0x95, 0x02)
        ∷ (0x00, 0x96, 0x02)
        ∷ (0x00, 0x97, 0x02)
        ∷ (0x00, 0x98, 0x02)
        ∷ (0x00, 0x9b, 0x02)
        ∷ (0x00, 0x9d, 0x02)
        ∷ (0x00, 0x9e, 0x02)
        ∷ (0x00, 0xa5, 0x02)
        ∷ (0x00, 0xa6, 0x02)
        ∷ (0x00, 0xa8, 0x02)
        ∷ (0x00, 0xae, 0x02)
        ∷ (0x00, 0xaf, 0x02)
        ∷ (0x00, 0xb4, 0x02)
        ∷ (0x00, 0xb6, 0x02)
        ∷ (0x00, 0xb7, 0x02)
        ∷ [])
    ∷ ((0x01, 0x93, 0x02)
        ∷ (0x16, 0x93, 0x03)
        ∷ (0x01, 0x95, 0x02)
        ∷ (0x16, 0x95, 0x03)
        ∷ (0x01, 0x96, 0x02)
        ∷ (0x16, 0x96, 0x03)
        ∷ (0x01, 0x97, 0x02)
        ∷ (0x16, 0x97, 0x03)
        ∷ (0x01, 0x98, 0x02)
        ∷ (0x16, 0x98, 0x03)
        ∷ (0x01, 0x9b, 0x02)
        ∷ (0x16, 0x9b, 0x03)
        ∷ (0x01, 0x9d, 0x02)
        ∷ (0x16, 0x9d, 0x03)
        ∷ (0x01, 0x9e, 0x02)
        ∷ (0x16, 0x9e, 0x03)
        ∷ [])
    ∷ ((0x02, 0x93, 0x02)
        ∷ (0x09, 0x93, 0x02)
        ∷ (0x17, 0x93, 0x02)
        ∷ (0x28, 0x93, 0x03)
        ∷ (0x02, 0x95, 0x02)
        ∷ (0x09, 0x95, 0x02)
        ∷ (0x17, 0x95, 0x02)
        ∷ (0x28, 0x95, 0x03)
        ∷ (0x02, 0x96, 0x02)
        ∷ (0x09, 0x96, 0x02)
        ∷ (0x17, 0x96, 0x02)
        ∷ (0x28, 0x96, 0x03)
        ∷ (0x02, 0x97, 0x02)
        ∷ (0x09, 0x97, 0x02)
        ∷ (0x17, 0x97, 0x02)
        ∷ (0x28, 0x97, 0x03)
        ∷ [])
    ∷ ((0x03, 0x93, 0x02)
        ∷ (0x06, 0x93, 0x02)
        ∷ (0x0a, 0x93, 0x02)
        ∷ (0x0f, 0x93, 0x02)
        ∷ (0x18, 0x93, 0x02)
        ∷ (0x1f, 0x93, 0x02)
        ∷ (0x29, 0x93, 0x02)
        ∷ (0x38, 0x93, 0x03)
        ∷ (0x03, 0x95, 0x02)
        ∷ (0x06, 0x95, 0x02)
        ∷ (0x0a, 0x95, 0x02)
        ∷ (0x0f, 0x95, 0x02)
        ∷ (0x18, 0x95, 0x02)
        ∷ (0x1f, 0x95, 0x02)
        ∷ (0x29, 0x95, 0x02)
        ∷ (0x38, 0x95, 0x03)
        ∷ [])
    ∷ ((0x03, 0x96, 0x02)
        ∷ (0x06, 0x96, 0x02)
        ∷ (0x0a, 0x96, 0x02)
        ∷ (0x0f, 0x96, 0x02)
        ∷ (0x18, 0x96, 0x02)
        ∷ (0x1f, 0x96, 0x02)
        ∷ (0x29, 0x96, 0x02)
        ∷ (0x38, 0x96, 0x03)
        ∷ (0x03, 0x97, 0x02)
        ∷ (0x06, 0x97, 0x02)
        ∷ (0x0a, 0x97, 0x02)
        ∷ (0x0f, 0x97, 0x02)
        ∷ (0x18, 0x97, 0x02)
        ∷ (0x1f, 0x97, 0x02)
        ∷ (0x29, 0x97, 0x02)
        ∷ (0x38, 0x97, 0x03)
        ∷ [])
    ∷ ((0x02, 0x98, 0x02)
        ∷ (0x09, 0x98, 0x02)
        ∷ (0x17, 0x98, 0x02)
        ∷ (0x28, 0x98, 0x03)
        ∷ (0x02, 0x9b, 0x02)
        ∷ (0x09, 0x9b, 0x02)
        ∷ (0x17, 0x9b, 0x02)
        ∷ (0x28, 0x9b, 0x03)
        ∷ (0x02, 0x9d, 0x02)
        ∷ (0x09, 0x9d, 0x02)
        ∷ (0x17, 0x9d, 0x02)
        ∷ (0x28, 0x9d, 0x03)
        ∷ (0x02, 0x9e, 0x02)
        ∷ (0x09, 0x9e, 0x02)
        ∷ (0x17, 0x9e, 0x02)
        ∷ (0x28, 0x9e, 0x03)
        ∷ [])
    ∷ []

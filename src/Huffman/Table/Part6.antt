-- ===== src/Huffman/Table/Part6.antt =====
-- ylong_http/src/huffman/consts.rs: `HUFFMAN_DECODE`, states 192 to 223.
use commonlibrary_rust_ylong.Common.{ℕ, List, [], ◌∷◌}

unfoldable pub rows_c0 : List (List (ℕ × ℕ × ℕ))
rows_c0 =
    ((0x01, 0xc0, 0x02)
      ∷ (0x16, 0xc0, 0x03)
      ∷ (0x01, 0xc1, 0x02)
      ∷ (0x16, 0xc1, 0x03)
      ∷ (0x01, 0xc8, 0x02)
      ∷ (0x16, 0xc8, 0x03)
      ∷ (0x01, 0xc9, 0x02)
      ∷ (0x16, 0xc9, 0x03)
      ∷ (0x01, 0xca, 0x02)
      ∷ (0x16, 0xca, 0x03)
      ∷ (0x01, 0xcd, 0x02)
      ∷ (0x16, 0xcd, 0x03)
      ∷ (0x01, 0xd2, 0x02)
      ∷ (0x16, 0xd2, 0x03)
      ∷ (0x01, 0xd5, 0x02)
      ∷ (0x16, 0xd5, 0x03)
      ∷ [])
    ∷ ((0x02, 0xc0, 0x02)
        ∷ (0x09, 0xc0, 0x02)
        ∷ (0x17, 0xc0, 0x02)
        ∷ (0x28, 0xc0, 0x03)
        ∷ (0x02, 0xc1, 0x02)
        ∷ (0x09, 0xc1, 0x02)
        ∷ (0x17, 0xc1, 0x02)
        ∷ (0x28, 0xc1, 0x03)
        ∷ (0x02, 0xc8, 0x02)
        ∷ (0x09, 0xc8, 0x02)
        ∷ (0x17, 0xc8, 0x02)
        ∷ (0x28, 0xc8, 0x03)
        ∷ (0x02, 0xc9, 0x02)
        ∷ (0x09, 0xc9, 0x02)
        ∷ (0x17, 0xc9, 0x02)
        ∷ (0x28, 0xc9, 0x03)
        ∷ [])
    ∷ ((0x03, 0xc0, 0x02)
        ∷ (0x06, 0xc0, 0x02)
        ∷ (0x0a, 0xc0, 0x02)
        ∷ (0x0f, 0xc0, 0x02)
        ∷ (0x18, 0xc0, 0x02)
        ∷ (0x1f, 0xc0, 0x02)
        ∷ (0x29, 0xc0, 0x02)
        ∷ (0x38, 0xc0, 0x03)
        ∷ (0x03, 0xc1, 0x02)
        ∷ (0x06, 0xc1, 0x02)
        ∷ (0x0a, 0xc1, 0x02)
        ∷ (0x0f, 0xc1, 0x02)
        ∷ (0x18, 0xc1, 0x02)
        ∷ (0x1f, 0xc1, 0x02)
        ∷ (0x29, 0xc1, 0x02)
        ∷ (0x38, 0xc1, 0x03)
        ∷ [])
    ∷ ((0x03, 0xc8, 0x02)
        ∷ (0x06, 0xc8, 0x02)
        ∷ (0x0a, 0xc8, 0x02)
        ∷ (0x0f, 0xc8, 0x02)
        ∷ (0x18, 0xc8, 0x02)
        ∷ (0x1f, 0xc8, 0x02)
        ∷ (0x29, 0xc8, 0x02)
        ∷ (0x38, 0xc8, 0x03)
        ∷ (0x03, 0xc9, 0x02)
        ∷ (0x06, 0xc9, 0x02)
        ∷ (0x0a, 0xc9, 0x02)
        ∷ (0x0f, 0xc9, 0x02)
        ∷ (0x18, 0xc9, 0x02)
        ∷ (0x1f, 0xc9, 0x02)
        ∷ (0x29, 0xc9, 0x02)
        ∷ (0x38, 0xc9, 0x03)
        ∷ [])
    ∷ ((0x02, 0xca, 0x02)
        ∷ (0x09, 0xca, 0x02)
        ∷ (0x17, 0xca, 0x02)
        ∷ (0x28, 0xca, 0x03)
        ∷ (0x02, 0xcd, 0x02)
        ∷ (0x09, 0xcd, 0x02)
        ∷ (0x17, 0xcd, 0x02)
        ∷ (0x28, 0xcd, 0x03)
        ∷ (0x02, 0xd2, 0x02)
        ∷ (0x09, 0xd2, 0x02)
        ∷ (0x17, 0xd2, 0x02)
        ∷ (0x28, 0xd2, 0x03)
        ∷ (0x02, 0xd5, 0x02)
        ∷ (0x09, 0xd5, 0x02)
        ∷ (0x17, 0xd5, 0x02)
        ∷ (0x28, 0xd5, 0x03)
        ∷ [])
    ∷ ((0x03, 0xca, 0x02)
        ∷ (0x06, 0xca, 0x02)
        ∷ (0x0a, 0xca, 0x02)
        ∷ (0x0f, 0xca, 0x02)
        ∷ (0x18, 0xca, 0x02)
        ∷ (0x1f, 0xca, 0x02)
        ∷ (0x29, 0xca, 0x02)
        ∷ (0x38, 0xca, 0x03)
        ∷ (0x03, 0xcd, 0x02)
        ∷ (0x06, 0xcd, 0x02)
        ∷ (0x0a, 0xcd, 0x02)
        ∷ (0x0f, 0xcd, 0x02)
        ∷ (0x18, 0xcd, 0x02)
        ∷ (0x1f, 0xcd, 0x02)
        ∷ (0x29, 0xcd, 0x02)
        ∷ (0x38, 0xcd, 0x03)
        ∷ [])
    ∷ ((0x03, 0xd2, 0x02)
        ∷ (0x06, 0xd2, 0x02)
        ∷ (0x0a, 0xd2, 0x02)
        ∷ (0x0f, 0xd2, 0x02)
        ∷ (0x18, 0xd2, 0x02)
        ∷ (0x1f, 0xd2, 0x02)
        ∷ (0x29, 0xd2, 0x02)
        ∷ (0x38, 0xd2, 0x03)
        ∷ (0x03, 0xd5, 0x02)
        ∷ (0x06, 0xd5, 0x02)
        ∷ (0x0a, 0xd5, 0x02)
        ∷ (0x0f, 0xd5, 0x02)
        ∷ (0x18, 0xd5, 0x02)
        ∷ (0x1f, 0xd5, 0x02)
        ∷ (0x29, 0xd5, 0x02)
        ∷ (0x38, 0xd5, 0x03)
        ∷ [])
    ∷ ((0x01, 0xda, 0x02)
        ∷ (0x16, 0xda, 0x03)
        ∷ (0x01, 0xdb, 0x02)
        ∷ (0x16, 0xdb, 0x03)
        ∷ (0x01, 0xee, 0x02)
        ∷ (0x16, 0xee, 0x03)
        ∷ (0x01, 0xf0, 0x02)
        ∷ (0x16, 0xf0, 0x03)
        ∷ (0x01, 0xf2, 0x02)
        ∷ (0x16, 0xf2, 0x03)
        ∷ (0x01, 0xf3, 0x02)
        ∷ (0x16, 0xf3, 0x03)
        ∷ (0x01, 0xff, 0x02)
        ∷ (0x16, 0xff, 0x03)
        ∷ (0x00, 0xcb, 0x02)
        ∷ (0x00, 0xcc, 0x02)
        ∷ [])
    ∷ ((0x02, 0xda, 0x02)
        ∷ (0x09, 0xda, 0x02)
        ∷ (0x17, 0xda, 0x02)
        ∷ (0x28, 0xda, 0x03)
        ∷ (0x02, 0xdb, 0x02)
        ∷ (0x09, 0xdb, 0x02)
        ∷ (0x17, 0xdb, 0x02)
        ∷ (0x28, 0xdb, 0x03)
        ∷ (0x02, 0xee, 0x02)
        ∷ (0x09, 0xee, 0x02)
        ∷ (0x17, 0xee, 0x02)
        ∷ (0x28, 0xee, 0x03)
        ∷ (0x02, 0xf0, 0x02)
        ∷ (0x09, 0xf0, 0x02)
        ∷ (0x17, 0xf0, 0x02)
        ∷ (0x28, 0xf0, 0x03)
        ∷ [])
    ∷ ((0x03, 0xda, 0x02)
        ∷ (0x06, 0xda, 0x02)
        ∷ (0x0a, 0xda, 0x02)
        ∷ (0x0f, 0xda, 0x02)
        ∷ (0x18, 0xda, 0x02)
        ∷ (0x1f, 0xda, 0x02)
        ∷ (0x29, 0xda, 0x02)
        ∷ (0x38, 0xda, 0x03)
        ∷ (0x03, 0xdb, 0x02)
        ∷ (0x06, 0xdb, 0x02)
        ∷ (0x0a, 0xdb, 0x02)
        ∷ (0x0f, 0xdb, 0x02)
        ∷ (0x18, 0xdb, 0x02)
        ∷ (0x1f, 0xdb, 0x02)
        ∷ (0x29, 0xdb, 0x02)
        ∷ (0x38, 0xdb, 0x03)
        ∷ [])
    ∷ ((0x03, 0xee, 0x02)
        ∷ (0x06, 0xee, 0x02)
        ∷ (0x0a, 0xee, 0x02)
        ∷ (0x0f, 0xee, 0x02)
        ∷ (0x18, 0xee, 0x02)
        ∷ (0x1f, 0xee, 0x02)
        ∷ (0x29, 0xee, 0x02)
        ∷ (0x38, 0xee, 0x03)
        ∷ (0x03, 0xf0, 0x02)
        ∷ (0x06, 0xf0, 0x02)
        ∷ (0x0a, 0xf0, 0x02)
        ∷ (0x0f, 0xf0, 0x02)
        ∷ (0x18, 0xf0, 0x02)
        ∷ (0x1f, 0xf0, 0x02)
        ∷ (0x29, 0xf0, 0x02)
        ∷ (0x38, 0xf0, 0x03)
        ∷ [])
    ∷ ((0x02, 0xf2, 0x02)
        ∷ (0x09, 0xf2, 0x02)
        ∷ (0x17, 0xf2, 0x02)
        ∷ (0x28, 0xf2, 0x03)
        ∷ (0x02, 0xf3, 0x02)
        ∷ (0x09, 0xf3, 0x02)
        ∷ (0x17, 0xf3, 0x02)
        ∷ (0x28, 0xf3, 0x03)
        ∷ (0x02, 0xff, 0x02)
        ∷ (0x09, 0xff, 0x02)
        ∷ (0x17, 0xff, 0x02)
        ∷ (0x28, 0xff, 0x03)
        ∷ (0x01, 0xcb, 0x02)
        ∷ (0x16, 0xcb, 0x03)
        ∷ (0x01, 0xcc, 0x02)
        ∷ (0x16, 0xcc, 0x03)
        ∷ [])
    ∷ ((0x03, 0xf2, 0x02)
        ∷ (0x06, 0xf2, 0x02)
        ∷ (0x0a, 0xf2, 0x02)
        ∷ (0x0f, 0xf2, 0x02)
        ∷ (0x18, 0xf2, 0x02)
        ∷ (0x1f, 0xf2, 0x02)
        ∷ (0x29, 0xf2, 0x02)
        ∷ (0x38, 0xf2, 0x03)
        ∷ (0x03, 0xf3, 0x02)
        ∷ (0x06, 0xf3, 0x02)
        ∷ (0x0a, 0xf3, 0x02)
        ∷ (0x0f, 0xf3, 0x02)
        ∷ (0x18, 0xf3, 0x02)
        ∷ (0x1f, 0xf3, 0x02)
        ∷ (0x29, 0xf3, 0x02)
        ∷ (0x38, 0xf3, 0x03)
        ∷ [])
    ∷ ((0x03, 0xff, 0x02)
        ∷ (0x06, 0xff, 0x02)
        ∷ (0x0a, 0xff, 0x02)
        ∷ (0x0f, 0xff, 0x02)
        ∷ (0x18, 0xff, 0x02)
        ∷ (0x1f, 0xff, 0x02)
        ∷ (0x29, 0xff, 0x02)
        ∷ (0x38, 0xff, 0x03)
        ∷ (0x02, 0xcb, 0x02)
        ∷ (0x09, 0xcb, 0x02)
        ∷ (0x17, 0xcb, 0x02)
        ∷ (0x28, 0xcb, 0x03)
        ∷ (0x02, 0xcc, 0x02)
        ∷ (0x09, 0xcc, 0x02)
        ∷ (0x17, 0xcc, 0x02)
        ∷ (0x28, 0xcc, 0x03)
        ∷ [])
    ∷ ((0x03, 0xcb, 0x02)
        ∷ (0x06, 0xcb, 0x02)
        ∷ (0x0a, 0xcb, 0x02)
        ∷ (0x0f, 0xcb, 0x02)
        ∷ (0x18, 0xcb, 0x02)
        ∷ (0x1f, 0xcb, 0x02)
        ∷ (0x29, 0xcb, 0x02)
        ∷ (0x38, 0xcb, 0x03)
        ∷ (0x03, 0xcc, 0x02)
        ∷ (0x06, 0xcc, 0x02)
        ∷ (0x0a, 0xcc, 0x02)
        ∷ (0x0f, 0xcc, 0x02)
        ∷ (0x18, 0xcc, 0x02)
        ∷ (0x1f, 0xcc, 0x02)
        ∷ (0x29, 0xcc, 0x02)
        ∷ (0x38, 0xcc, 0x03)
        ∷ [])
    ∷ ((0xd3, 0x00, 0x00)
        ∷ (0xd4, 0x00, 0x00)
        ∷ (0xd6, 0x00, 0x00)
        ∷ (0xd7, 0x00, 0x00)
        ∷ (0xda, 0x00, 0x00)
        ∷ (0xdb, 0x00, 0x00)
        ∷ (0xdd, 0x00, 0x00)
        ∷ (0xde, 0x00, 0x00)
        ∷ (0xe2, 0x00, 0x00)
        ∷ (0xe4, 0x00, 0x00)
        ∷ (0xe8, 0x00, 0x00)
        ∷ (0xeb, 0x00, 0x00)
        ∷ (0xf0, 0x00, 0x00)
        ∷ (0xf3, 0x00, 0x00)
        ∷ (0xf7, 0x00, 0x00)
        ∷ (0xfa, 0x00, 0x00)
        ∷ [])
    ∷ []

unfoldable pub rows_d0 : List (List (ℕ × ℕ × ℕ))
rows_d0 =
    ((0x00, 0xd3, 0x02)
      ∷ (0x00, 0xd4, 0x02)
      ∷ (0x00, 0xd6, 0x02)
      ∷ (0x00, 0xdd, 0x02)
      ∷ (0x00, 0xde, 0x02)
      ∷ (0x00, 0xdf, 0x02)
      ∷ (0x00, 0xf1, 0x02)
      ∷ (0x00, 0xf4, 0x02)
      ∷ (0x00, 0xf5, 0x02)
      ∷ (0x00, 0xf6, 0x02)
      ∷ (0x00, 0xf7, 0x02)
      ∷ (0x00, 0xf8, 0x02)
      ∷ (0x00, 0xfa, 0x02)
      ∷ (0x00, 0xfb, 0x02)
      ∷ (0x00, 0xfc, 0x02)
      ∷ (0x00, 0xfd, 0x02)
      ∷ [])
    ∷ ((0x01, 0xd3, 0x02)
        ∷ (0x16, 0xd3, 0x03)
        ∷ (0x01, 0xd4, 0x02)
        ∷ (0x16, 0xd4, 0x03)
        ∷ (0x01, 0xd6, 0x02)
        ∷ (0x16, 0xd6, 0x03)
        ∷ (0x01, 0xdd, 0x02)
        ∷ (0x16, 0xdd, 0x03)
        ∷ (0x01, 0xde, 0x02)
        ∷ (0x16, 0xde, 0x03)
        ∷ (0x01, 0xdf, 0x02)
        ∷ (0x16, 0xdf, 0x03)
        ∷ (0x01, 0xf1, 0x02)
        ∷ (0x16, 0xf1, 0x03)
        ∷ (0x01, 0xf4, 0x02)
        ∷ (0x16, 0xf4, 0x03)
        ∷ [])
    ∷ ((0x02, 0xd3, 0x02)
        ∷ (0x09, 0xd3, 0x02)
        ∷ (0x17, 0xd3, 0x02)
        ∷ (0x28, 0xd3, 0x03)
        ∷ (0x02, 0xd4, 0x02)
        ∷ (0x09, 0xd4, 0x02)
        ∷ (0x17, 0xd4, 0x02)
        ∷ (0x28, 0xd4, 0x03)
        ∷ (0x02, 0xd6, 0x02)
        ∷ (0x09, 0xd6, 0x02)
        ∷ (0x17, 0xd6, 0x02)
        ∷ (0x28, 0xd6, 0x03)
        ∷ (0x02, 0xdd, 0x02)
        ∷ (0x09, 0xdd, 0x02)
        ∷ (0x17, 0xdd, 0x02)
        ∷ (0x28, 0xdd, 0x03)
        ∷ [])
    ∷ ((0x03, 0xd3, 0x02)
        ∷ (0x06, 0xd3, 0x02)
        ∷ (0x0a, 0xd3, 0x02)
        ∷ (0x0f, 0xd3, 0x02)
        ∷ (0x18, 0xd3, 0x02)
        ∷ (0x1f, 0xd3, 0x02)
        ∷ (0x29, 0xd3, 0x02)
        ∷ (0x38, 0xd3, 0x03)
        ∷ (0x03, 0xd4, 0x02)
        ∷ (0x06, 0xd4, 0x02)
        ∷ (0x0a, 0xd4, 0x02)
        ∷ (0x0f, 0xd4, 0x02)
        ∷ (0x18, 0xd4, 0x02)
        ∷ (0x1f, 0xd4, 0x02)
        ∷ (0x29, 0xd4, 0x02)
        ∷ (0x38, 0xd4, 0x03)
        ∷ [])
    ∷ ((0x03, 0xd6, 0x02)
        ∷ (0x06, 0xd6, 0x02)
        ∷ (0x0a, 0xd6, 0x02)
        ∷ (0x0f, 0xd6, 0x02)
        ∷ (0x18, 0xd6, 0x02)
        ∷ (0x1f, 0xd6, 0x02)
        ∷ (0x29, 0xd6, 0x02)
        ∷ (0x38, 0xd6, 0x03)
        ∷ (0x03, 0xdd, 0x02)
        ∷ (0x06, 0xdd, 0x02)
        ∷ (0x0a, 0xdd, 0x02)
        ∷ (0x0f, 0xdd, 0x02)
        ∷ (0x18, 0xdd, 0x02)
        ∷ (0x1f, 0xdd, 0x02)
        ∷ (0x29, 0xdd, 0x02)
        ∷ (0x38, 0xdd, 0x03)
        ∷ [])
    ∷ ((0x02, 0xde, 0x02)
        ∷ (0x09, 0xde, 0x02)
        ∷ (0x17, 0xde, 0x02)
        ∷ (0x28, 0xde, 0x03)
        ∷ (0x02, 0xdf, 0x02)
        ∷ (0x09, 0xdf, 0x02)
        ∷ (0x17, 0xdf, 0x02)
        ∷ (0x28, 0xdf, 0x03)
        ∷ (0x02, 0xf1, 0x02)
        ∷ (0x09, 0xf1, 0x02)
        ∷ (0x17, 0xf1, 0x02)
        ∷ (0x28, 0xf1, 0x03)
        ∷ (0x02, 0xf4, 0x02)
        ∷ (0x09, 0xf4, 0x02)
        ∷ (0x17, 0xf4, 0x02)
        ∷ (0x28, 0xf4, 0x03)
        ∷ [])
    ∷ ((0x03, 0xde, 0x02)
        ∷ (0x06, 0xde, 0x02)
        ∷ (0x0a, 0xde, 0x02)
        ∷ (0x0f, 0xde, 0x02)
        ∷ (0x18, 0xde, 0x02)
        ∷ (0x1f, 0xde, 0x02)
        ∷ (0x29, 0xde, 0x02)
        ∷ (0x38, 0xde, 0x03)
        ∷ (0x03, 0xdf, 0x02)
        ∷ (0x06, 0xdf, 0x02)
        ∷ (0x0a, 0xdf, 0x02)
        ∷ (0x0f, 0xdf, 0x02)
        ∷ (0x18, 0xdf, 0x02)
        ∷ (0x1f, 0xdf, 0x02)
        ∷ (0x29, 0xdf, 0x02)
        ∷ (0x38, 0xdf, 0x03)
        ∷ [])
    ∷ ((0x03, 0xf1, 0x02)
        ∷ (0x06, 0xf1, 0x02)
        ∷ (0x0a, 0xf1, 0x02)
        ∷ (0x0f, 0xf1, 0x02)
        ∷ (0x18, 0xf1, 0x02)
        ∷ (0x1f, 0xf1, 0x02)
        ∷ (0x29, 0xf1, 0x02)
        ∷ (0x38, 0xf1, 0x03)
        ∷ (0x03, 0xf4, 0x02)
        ∷ (0x06, 0xf4, 0x02)
        ∷ (0x0a, 0xf4, 0x02)
        ∷ (0x0f, 0xf4, 0x02)
        ∷ (0x18, 0xf4, 0x02)
        ∷ (0x1f, 0xf4, 0x02)
        ∷ (0x29, 0xf4, 0x02)
        ∷ (0x38, 0xf4, 0x03)
        ∷ [])
    ∷ ((0x01, 0xf5, 0x02)
        ∷ (0x16, 0xf5, 0x03)
        ∷ (0x01, 0xf6, 0x02)
        ∷ (0x16, 0xf6, 0x03)
        ∷ (0x01, 0xf7, 0x02)
        ∷ (0x16, 0xf7, 0x03)
        ∷ (0x01, 0xf8, 0x02)
        ∷ (0x16, 0xf8, 0x03)
        ∷ (0x01, 0xfa, 0x02)
        ∷ (0x16, 0xfa, 0x03)
        ∷ (0x01, 0xfb, 0x02)
        ∷ (0x16, 0xfb, 0x03)
        ∷ (0x01, 0xfc, 0x02)
        ∷ (0x16, 0xfc, 0x03)
        ∷ (0x01, 0xfd, 0x02)
        ∷ (0x16, 0xfd, 0x03)
        ∷ [])
    ∷ ((0x02, 0xf5, 0x02)
        ∷ (0x09, 0xf5, 0x02)
        ∷ (0x17, 0xf5, 0x02)
        ∷ (0x28, 0xf5, 0x03)
        ∷ (0x02, 0xf6, 0x02)
        ∷ (0x09, 0xf6, 0x02)
        ∷ (0x17, 0xf6, 0x02)
        ∷ (0x28, 0xf6, 0x03)
        ∷ (0x02, 0xf7, 0x02)
        ∷ (0x09, 0xf7, 0x02)
        ∷ (0x17, 0xf7, 0x02)
        ∷ (0x28, 0xf7, 0x03)
        ∷ (0x02, 0xf8, 0x02)
        ∷ (0x09, 0xf8, 0x02)
        ∷ (0x17, 0xf8, 0x02)
        ∷ (0x28, 0xf8, 0x03)
        ∷ [])
    ∷ ((0x03, 0xf5, 0x02)
        ∷ (0x06, 0xf5, 0x02)
        ∷ (0x0a, 0xf5, 0x02)
        ∷ (0x0f, 0xf5, 0x02)
        ∷ (0x18, 0xf5, 0x02)
        ∷ (0x1f, 0xf5, 0x02)
        ∷ (0x29, 0xf5, 0x02)
        ∷ (0x38, 0xf5, 0x03)
        ∷ (0x03, 0xf6, 0x02)
        ∷ (0x06, 0xf6, 0x02)
        ∷ (0x0a, 0xf6, 0x02)
        ∷ (0x0f, 0xf6, 0x02)
        ∷ (0x18, 0xf6, 0x02)
        ∷ (0x1f, 0xf6, 0x02)
        ∷ (0x29, 0xf6, 0x02)
        ∷ (0x38, 0xf6, 0x03)
        ∷ [])
    ∷ ((0x03, 0xf7, 0x02)
        ∷ (0x06, 0xf7, 0x02)
        ∷ (0x0a, 0xf7, 0x02)
        ∷ (0x0f, 0xf7, 0x02)
        ∷ (0x18, 0xf7, 0x02)
        ∷ (0x1f, 0xf7, 0x02)
        ∷ (0x29, 0xf7, 0x02)
        ∷ (0x38, 0xf7, 0x03)
        ∷ (0x03, 0xf8, 0x02)
        ∷ (0x06, 0xf8, 0x02)
        ∷ (0x0a, 0xf8, 0x02)
        ∷ (0x0f, 0xf8, 0x02)
        ∷ (0x18, 0xf8, 0x02)
        ∷ (0x1f, 0xf8, 0x02)
        ∷ (0x29, 0xf8, 0x02)
        ∷ (0x38, 0xf8, 0x03)
        ∷ [])
    ∷ ((0x02, 0xfa, 0x02)
        ∷ (0x09, 0xfa, 0x02)
        ∷ (0x17, 0xfa, 0x02)
        ∷ (0x28, 0xfa, 0x03)
        ∷ (0x02, 0xfb, 0x02)
        ∷ (0x09, 0xfb, 0x02)
        ∷ (0x17, 0xfb, 0x02)
        ∷ (0x28, 0xfb, 0x03)
        ∷ (0x02, 0xfc, 0x02)
        ∷ (0x09, 0xfc, 0x02)
        ∷ (0x17, 0xfc, 0x02)
        ∷ (0x28, 0xfc, 0x03)
        ∷ (0x02, 0xfd, 0x02)
        ∷ (0x09, 0xfd, 0x02)
        ∷ (0x17, 0xfd, 0x02)
        ∷ (0x28, 0xfd, 0x03)
        ∷ [])
    ∷ ((0x03, 0xfa, 0x02)
        ∷ (0x06, 0xfa, 0x02)
        ∷ (0x0a, 0xfa, 0x02)
        ∷ (0x0f, 0xfa, 0x02)
        ∷ (0x18, 0xfa, 0x02)
        ∷ (0x1f, 0xfa, 0x02)
        ∷ (0x29, 0xfa, 0x02)
        ∷ (0x38, 0xfa, 0x03)
        ∷ (0x03, 0xfb, 0x02)
        ∷ (0x06, 0xfb, 0x02)
        ∷ (0x0a, 0xfb, 0x02)
        ∷ (0x0f, 0xfb, 0x02)
        ∷ (0x18, 0xfb, 0x02)
        ∷ (0x1f, 0xfb, 0x02)
        ∷ (0x29, 0xfb, 0x02)
        ∷ (0x38, 0xfb, 0x03)
        ∷ [])
    ∷ ((0x03, 0xfc, 0x02)
        ∷ (0x06, 0xfc, 0x02)
        ∷ (0x0a, 0xfc, 0x02)
        ∷ (0x0f, 0xfc, 0x02)
        ∷ (0x18, 0xfc, 0x02)
        ∷ (0x1f, 0xfc, 0x02)
        ∷ (0x29, 0xfc, 0x02)
        ∷ (0x38, 0xfc, 0x03)
        ∷ (0x03, 0xfd, 0x02)
        ∷ (0x06, 0xfd, 0x02)
        ∷ (0x0a, 0xfd, 0x02)
        ∷ (0x0f, 0xfd, 0x02)
        ∷ (0x18, 0xfd, 0x02)
        ∷ (0x1f, 0xfd, 0x02)
        ∷ (0x29, 0xfd, 0x02)
        ∷ (0x38, 0xfd, 0x03)
        ∷ [])
    ∷ ((0x00, 0xfe, 0x02)
        ∷ (0xe3, 0x00, 0x00)
        ∷ (0xe5, 0x00, 0x00)
        ∷ (0xe6, 0x00, 0x00)
        ∷ (0xe9, 0x00, 0x00)
        ∷ (0xea, 0x00, 0x00)
        ∷ (0xec, 0x00, 0x00)
        ∷ (0xed, 0x00, 0x00)
        ∷ (0xf1, 0x00, 0x00)
        ∷ (0xf2, 0x00, 0x00)
        ∷ (0xf4, 0x00, 0x00)
        ∷ (0xf5, 0x00, 0x00)
        ∷ (0xf8, 0x00, 0x00)
        ∷ (0xf9, 0x00, 0x00)
        ∷ (0xfb, 0x00, 0x00)
        ∷ (0xfc, 0x00, 0x00)
        ∷ [])
    ∷ []

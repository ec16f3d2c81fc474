-- ===== src/Huffman/Table.antt =====
-- ylong_http/src/huffman/consts.rs: the decoding table, sixteen states in each part.
mod Part0
mod Part1
mod Part2
mod Part3
mod Part4
mod Part5
mod Part6
mod Part7
use commonlibrary_rust_ylong.Common.{ℕ, List, [], ◌∷◌, ◌++◌}
use Part0.{rows_00, rows_10}
use Part1.{rows_20, rows_30}
use Part2.{rows_40, rows_50}
use Part3.{rows_60, rows_70}
use Part4.{rows_80, rows_90}
use Part5.{rows_a0, rows_b0}
use Part6.{rows_c0, rows_d0}
use Part7.{rows_e0, rows_f0}

-- `HUFFMAN_DECODE`: at a state and four bits, the next state, the decoded byte and the flags.
unfoldable pub huffman_decode_table : List (List (ℕ × ℕ × ℕ))
unfolding rows_00 rows_10 rows_20 rows_30 rows_40 rows_50 rows_60 rows_70 rows_80 rows_90 rows_a0
    rows_b0 rows_c0 rows_d0 rows_e0 rows_f0
huffman_decode_table =
    rows_00
    ++ (rows_10
        ++ (rows_20
            ++ (rows_30
                ++ (rows_40
                    ++ (rows_50
                        ++ (rows_60
                            ++ (rows_70
                                ++ (rows_80
                                    ++ (rows_90
                                        ++ (rows_a0
                                            ++ (rows_b0
                                                ++ (rows_c0
                                                    ++ (rows_d0
                                                        ++ (rows_e0 ++ (rows_f0)))))))))))))))

-- ===== src/UnitTests/Vectors/Bounds.antt =====
-- The texts of the test vectors on bounds in src/lib.rs.
use enr.Prelude.{◌++◌}
use enr.Bytes.{Bytes, text}

-- A text, which is also read behind its prefix.
abbrev pub bare_text : Bytes
bare_text =
    text "-Iu4QM-YJF2RRpMcZkFiWzMf2kRd1A5F1GIekPa4Sfi_v0DCLTDBfOMTMMWJhhawr1YLUPb5008CpnBK"
    ++ (text "rgjY3sstjfgCgmlkgnY0gmlwhH8AAAGJc2VjcDI1NmsxoQP8u1uyQFyJYuQUTyA1raXKhSw1HhhxNUQ2"
        ++ (text "VE52LNHWMIN0Y3CCIyiDdWRwgiMo"))

abbrev pub prefixed_text : Bytes
prefixed_text =
    text "enr:-Iu4QM-YJF2RRpMcZkFiWzMf2kRd1A5F1GIekPa4Sfi_v0DCLTDBfOMTMMWJhhawr1YLUPb5008C"
    ++ (text "pnBKrgjY3sstjfgCgmlkgnY0gmlwhH8AAAGJc2VjcDI1NmsxoQP8u1uyQFyJYuQUTyA1raXKhSw1Hhhx"
        ++ (text "NUQ2VE52LNHWMIN0Y3CCIyiDdWRwgiMo"))

-- Records of 300 and of 301 bytes, and the key that signs them.
abbrev pub large_enr : Bytes
large_enr =
    text "enr:-QEpuEDaLyrPP4gxBI9YL7QE9U1tZig_Nt8rue8bRIuYv_IMziFc8OEt3LQMwkwt6da-Z0Y8Baqk"
    ++ (text "DalZbBq647UtV2eiAYJpZIJ2NIJpcIR_AAABiXNlY3AyNTZrMaEDymNMrg1JrLQB2KTGtv6MVbcNEVv0"
        ++ (text "AHacwUAPMljNMTiDdWRwgnZferiieHh4eHh4eHh4eHh4eHh4eHh4eHh4eHh4eHh4eHh4eHh4eHh4eHh4"
            ++ (text
                  "eHh4eHh4eHh4eHh4eHh4eHh4eHh4eHh4eHh4eHh4eHh4eHh4eHh4eHh4eHh4eHh4eHh4eHh4eHh4eHh4"
                ++ (text
                      "eHh4eHh4eHh4eHh4eHh4eHh4eHh4eHh4eHh4eHh4eHh4eHh4eHh4eHh4eHh4eHh4eHh4eHh4eHh4eHh4"
                    ++ (text "eHh4")))))

abbrev pub too_large_enr : Bytes
too_large_enr =
    text "enr:-QEquEBxABglcZbIGKJ8RHDCp2Ft59tdf61RhV3XXf2BKTlKE2XwzNfihH-46hKkANsXaGRwH8Dp"
    ++ (text "7a3lTrKiv2FMMaFYAYJpZIJ2NIJpcIR_AAABiXNlY3AyNTZrMaEDymNMrg1JrLQB2KTGtv6MVbcNEVv0"
        ++ (text "AHacwUAPMljNMTiDdWRwgnZferijeHh4eHh4eHh4eHh4eHh4eHh4eHh4eHh4eHh4eHh4eHh4eHh4eHh4"
            ++ (text
                  "eHh4eHh4eHh4eHh4eHh4eHh4eHh4eHh4eHh4eHh4eHh4eHh4eHh4eHh4eHh4eHh4eHh4eHh4eHh4eHh4"
                ++ (text
                      "eHh4eHh4eHh4eHh4eHh4eHh4eHh4eHh4eHh4eHh4eHh4eHh4eHh4eHh4eHh4eHh4eHh4eHh4eHh4eHh4"
                    ++ (text "eHh4eA")))))

abbrev pub key_hex : Bytes
key_hex = text "b71c71a67e1177ad4e901695e1b4b9ee17ae16c6668d313eac2f96dbcda3f291"

-- What the key signs with a mocked nonce.
abbrev pub mock_enr_base64 : Bytes
mock_enr_base64 =
    text "enr:-IS4QLJYdRwxdy-AbzWC6wL9ooB6O6uvCvJsJ36rbJztiAs1JzPY0__YkgFzZwNUuNhm1BDN6c4-"
    ++ (text "UVRCJP9bXNCmoDYBgmlkgnY0gmlwhH8AAAGJc2VjcDI1NmsxoQPKY0yuDUmstAHYpMa2_oxVtw0RW_QA"
        ++ (text "dpzBQA8yWM0xOIN1ZHCCdl8"))

-- Ports below 256 in two bytes, and one that is not.
abbrev pub bad_enr_0 : Bytes
bad_enr_0 =
    text "enr:-Hy4QDMsoimQl2Qb9CuIWlNjyt0C0DmZC4QpAsJzgUHowOq2Nph9UbAtZ_qS_8fl6SU-eSWrswHi"
    ++ (text "LCoMUGQfjhl_GW0BgmlkgnY0iXNlY3AyNTZrMaECMoYV0PAXMueQz19FHpBO0jGBoLYCWhfSxGf5kQgk"
        ++ (text "9KqDdGNwggAA"))

abbrev pub bad_enr_30 : Bytes
bad_enr_30 =
    text "enr:-Hy4QCCgTB9tAEJL1DFwTTtwd79xxQx2hvi5RX9vWvcdKqbpS3SDzHHBivpOgxE40HGt6P0NtCE5"
    ++ (text "QKzOQ5fzBwepDfMBgmlkgnY0iXNlY3AyNTZrMaECMoYV0PAXMueQz19FHpBO0jGBoLYCWhfSxGf5kQgk"
        ++ (text "9KqDdGNwggAe"))

abbrev pub bad_enr_255 : Bytes
bad_enr_255 =
    text "enr:-Hy4QOrU9C35gZyJigIi-u19sRP42eEjVEhzO-LnKXKM5VlDMZ45vnOIa3bqm15ap8pmLjq5kmRP"
    ++ (text "zjuA0RUdzSsieqcBgmlkgnY0iXNlY3AyNTZrMaECMoYV0PAXMueQz19FHpBO0jGBoLYCWhfSxGf5kQgk"
        ++ (text "9KqDdGNwggD_"))

abbrev pub good_enr_30303 : Bytes
good_enr_30303 =
    text "enr:-Hy4QF_mn4BuM6hY4CuLH8xDQd7U8kVZe9fyNgRB1vjdToGWQsQhetRvsByoJCWGQ6kf2aiWC0le"
    ++ (text "24lkp0IPIJkLSTUBgmlkgnY0iXNlY3AyNTZrMaECMoYV0PAXMueQz19FHpBO0jGBoLYCWhfSxGf5kQgk"
        ++ (text "9KqDdGNwgnZf"))

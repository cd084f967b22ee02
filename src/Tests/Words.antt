-- ===== src/Tests/Words.antt =====
-- Words and keys.
use zeroskip.Prelude.{◌≡◌, ◌++◌, some, length, arith}
use zeroskip.Word.{little, big, store64, write_be64, read_be64}
use zeroskip.Word.BigEndian.{write_be64-big_endian, read_be64-write_be64}
use zeroskip.Search.Order.{memcmp_raw, lex, memcmp_raw-lex}
use zeroskip.Tests.{a_key, a_val, some_bytes}

write_be64-big_endian_example :
    write_be64 little 0x0102030405060708 ≡ store64 big 0x0102030405060708
write_be64-big_endian_example = write_be64-big_endian little 0x0102030405060708

read_be64-write_be64_example :
    read_be64 little (some_bytes ++ write_be64 little 258 ++ a_key) (length some_bytes) ≡ some 258
read_be64-write_be64_example = read_be64-write_be64 little 258 some_bytes a_key (omega arith)

memcmp_raw-lex_example : memcmp_raw a_key a_val ≡ lex a_key a_val
memcmp_raw-lex_example = memcmp_raw-lex a_key a_val

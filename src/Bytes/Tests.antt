-- ===== src/Bytes/Tests.antt =====
-- Heights and their keys.
use mantlemint.Prelude.{◌≡◌, ok, arith}
use mantlemint.Bytes.{big_endian_to_uint, uint_to_big_endian}
use mantlemint.Bytes.BigEndian.{big_endian_roundtrip}

big_endian_roundtrip_example : big_endian_to_uint (uint_to_big_endian 4724005) ≡ ok 4724005
big_endian_roundtrip_example = big_endian_roundtrip 4724005 (omega arith)

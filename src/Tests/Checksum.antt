-- ===== src/Tests/Checksum.antt =====
-- Tests of the checksum.
use linux_communication.Common.{◌≡◌, ◌≢◌, refl, ◌∷◌, [], arith}
use linux_communication.Crc.{get_crc}
use linux_communication.Crc.Serial.{serial_crc}
use linux_communication.Crc.Table.{get_crc-serial}
use linux_communication.Crc.Detect.{get_crc_detects}

check_value :
    get_crc (0x31 ∷ 0x32 ∷ 0x33 ∷ 0x34 ∷ 0x35 ∷ 0x36 ∷ 0x37 ∷ 0x38 ∷ 0x39 ∷ []) ≡ 0xcbf43926
unfolding get_crc
check_value = refl

get_crc-serial_example : get_crc (0x31 ∷ 0xff ∷ []) ≡ serial_crc (0x31 ∷ 0xff ∷ [])
get_crc-serial_example = get_crc-serial (0x31 ∷ 0xff ∷ []) (omega arith, (omega arith, tt))

get_crc_detects_example : get_crc (7 ∷ 8 ∷ 9 ∷ []) ≢ get_crc (7 ∷ 24 ∷ 9 ∷ [])
get_crc_detects_example =
    get_crc_detects (7 ∷ []) (9 ∷ []) 8 24 (omega arith, tt) (omega arith, tt) (omega arith)
      (omega arith) (ground arith)

-- ===== src/Z21/Tests.antt =====
-- Packets of the Z21 protocol, and the theorems at concrete packets.
use bigfred.Base.{ℕ, ◌%◌, ◌≡◌, ◌≢◌, ◌⊎◌, refl, true, some, List, [], ◌∷◌, arith, nat_key}
use bigfred.Z21.Protocol
use bigfred.Z21.Packets
use bigfred.Z21.Drive.{top_speed, decode-encode_drive_db3, encode_drive_db3_over}
use bigfred.Z21.Pom.{parse-build_pom_write_byte}
use bigfred.Z21.Frames.{join, AreFrontOf, split_z21_datagram-join, split_z21_datagram-AreFrontOf}

-- Everything that a packet goes through.
program : Unit {0}
unfolding Protocol.packet_header Protocol.split_loop Protocol.split_z21_datagram
    Protocol.valid_frame Protocol.build_reply Protocol.serial_reply Protocol.build_hw_info_reply
    Protocol.is_drive_header Packets.parse_loco_addr Packets.xor Packets.xor_from Packets.xor_sum
    Packets.build_xbus_reply Packets.build_pom_write_byte Packets.parse_pom_write_byte
    Packets.is_drive_db3_estop Packets.decode_drive_db3 Packets.encode_drive_db3
    Packets.encode_info_db3 Packets.loco_info_db2 Packets.parse_set_loco_drive
    Packets.parse_set_loco_function Packets.parse_get_loco_info Packets.parse_set_loco_estop
    Packets.parse_purge_loco
program = tt

checksum : Packets.xor_sum (0xe3 ∷ 0xf0 ∷ 0x00 ∷ 0x03 ∷ []) ≡ 0x10
unfolding program
checksum = refl

decode-encode_drive_db3_example :
    Packets.decode_drive_db3 2 (Packets.encode_drive_db3 20 true 2) ≡ (20, true)
decode-encode_drive_db3_example = decode-encode_drive_db3 20 2 true (omega arith)

encode_drive_db3_over_example :
    ((◌≢◌ {A = ℕ} 0 0)
      × (Packets.decode_drive_db3 0 (Packets.encode_drive_db3 17 true 0) ≡ (top_speed 0, true)))
    ⊎ ((◌≡◌ {A = ℕ} 0 0)
        × (Packets.decode_drive_db3 0 (Packets.encode_drive_db3 17 true 0) ≡ (17 % 16, true)))
encode_drive_db3_over_example = encode_drive_db3_over 17 0 true (omega arith)

parse-build_pom_write_byte_example :
    Packets.parse_pom_write_byte (Packets.build_pom_write_byte 1234 28 6) ≡ some (1234, 28, 6)
parse-build_pom_write_byte_example =
    parse-build_pom_write_byte 1234 28 6 (omega arith) (omega arith)

abbrev payload : List ℕ
payload = 1 ∷ 2 ∷ 3 ∷ []

abbrev frames : List (List ℕ)
frames = Protocol.serial_reply 7 ∷ Protocol.build_reply 0x84 payload ∷ []

split_z21_datagram-join_example : Protocol.split_z21_datagram (join frames) ≡ frames
unfolding program
split_z21_datagram-join_example = split_z21_datagram-join frames (refl, (refl, tt))

split_z21_datagram-AreFrontOf_example :
    AreFrontOf (9 ∷ 0 ∷ 1 ∷ payload) (Protocol.split_z21_datagram (9 ∷ 0 ∷ 1 ∷ payload))
split_z21_datagram-AreFrontOf_example = split_z21_datagram-AreFrontOf (9 ∷ 0 ∷ 1 ∷ payload)

-- ===== src/Z21/Packets.antt =====
-- packets.go: the packets of locomotives, parsed and built.
use bigfred.Base.{
  ℕ, zero, suc, ◌+◌, ◌*◌, ◌/◌, ◌%◌, ◌-◌, Bool, false, not, ◌||◌, Option, none, some, List, [], ◌∷◌,
  ◌++◌, length, ltb, leb, ◌==◌, nat_key, if◌then◌else◌, maybe,
}
use bigfred.Z21.Protocol.{byte_at, put_uint16, packet_header, header_xbus}

-- Whether the packet is an X-BUS one: the test on packetHeader's answer.
abbrev pub is_xbus : List ℕ → Bool
is_xbus pkt = maybe false (λ (h : ℕ × ℕ). h.1 == header_xbus) (packet_header pkt)

-- parseLocoAddr
unfoldable pub parse_loco_addr : List ℕ → ℕ → Option ℕ
parse_loco_addr pkt offset =
    if ltb (length pkt) (offset + 2)
    then none
    else some (byte_at pkt offset % 64 * 256 + byte_at pkt (offset + 1))

-- The two bytes of an address: `adrMSB` and `adrLSB`.
abbrev pub loco_addr_bytes : ℕ → List ℕ
loco_addr_bytes addr =
    (if ltb addr 128 then addr / 256 % 64 else addr / 256 % 64 + 0xc0) ∷ addr % 256 ∷ []

-- `^` of two numbers below `2 ^ n`.
unfoldable pub xor : ℕ → ℕ → ℕ → ℕ
xor zero a b = 0
xor (suc n) a b = (if a % 2 == b % 2 then 0 else 1) + 2 * xor n (a / 2) (b / 2)

-- The loop of xorSum.
unfoldable pub xor_from : ℕ → List ℕ → ℕ
xor_from v [] = v
xor_from v (b ∷ x) = xor_from (xor 8 v b) x

unfoldable pub xor_sum : List ℕ → ℕ
xor_sum x = xor_from 0 x

unfoldable pub build_xbus_reply : List ℕ → List ℕ
build_xbus_reply x = put_uint16 ((4 + length x) % 65536) ++ (put_uint16 header_xbus ++ x)

-- buildPOMWriteByte
unfoldable pub build_pom_write_byte : ℕ → ℕ → ℕ → List ℕ
build_pom_write_byte loco_addr cv_wire value =
    let cv = (0xec + cv_wire / 256 % 4) ∷ (cv_wire % 256) ∷ value ∷ [] in
    let x = 0xe6 ∷ 0x30 ∷ (loco_addr_bytes loco_addr ++ cv) in
    build_xbus_reply (x ++ xor_sum x ∷ [])

-- parsePOMWriteByte: the address, the CV's index and the value.
unfoldable pub parse_pom_write_byte : List ℕ → Option (ℕ × ℕ × ℕ)
parse_pom_write_byte pkt =
    if ltb (length pkt) 12
      || (not (is_xbus pkt) || (not (byte_at pkt 4 == 0xe6) || not (byte_at pkt 5 == 0x30)))
    then none
    else if byte_at pkt 8 / 4 == 59
    then elim (parse_loco_addr pkt 6) [
      | none ↦ none
      | some addr ↦ some (addr, byte_at pkt 8 % 4 * 256 + byte_at pkt 9, byte_at pkt 10)
    ]
    else none

-- isDriveDB3EStop
unfoldable pub is_drive_db3_estop : ℕ → ℕ → Bool
is_drive_db3_estop speed_steps_proto db3 =
    let v = db3 % 128 in
    if speed_steps_proto == 0 || speed_steps_proto == 2 then v % 16 == 1 else v == 1

-- decodeDriveDB3
unfoldable pub decode_drive_db3 : ℕ → ℕ → ℕ × Bool
decode_drive_db3 speed_steps_proto db3 =
    let forward = leb 128 db3 in
    let v = db3 % 128 in
    if speed_steps_proto == 0
    then (v % 16, forward)
    else if speed_steps_proto == 2
    then (let raw = v % 16 * 2 + v / 16 % 2 in
        if leb raw 1 then (0, forward) else if leb raw 3 then (1, forward) else (raw - 3, forward))
    else (v, forward)

-- encodeDriveDB3
unfoldable pub encode_drive_db3 : ℕ → Bool → ℕ → ℕ
encode_drive_db3 speed forward speed_steps_proto =
    let db3 = if forward then 128 else 0 in
    if speed == 0
    then db3
    else if speed == 1
    then db3 + 1
    else if speed_steps_proto == 0
    then db3 + speed % 16
    else if speed_steps_proto == 2
    then (let clamped = if ltb 28 speed then 28 else speed in
        db3 + (clamped + 3) % 2 * 16 + (clamped + 3) / 2 % 16)
    else db3 + (if ltb 127 speed then 127 else speed) % 128

-- encodeInfoDB3
unfoldable pub encode_info_db3 : ℕ → Bool → ℕ → ℕ
encode_info_db3 speed forward speed_steps =
    encode_drive_db3 speed forward
      (if speed_steps == 14 then 0 else if speed_steps == 28 then 2 else 3)

-- locoInfoDB2
unfoldable pub loco_info_db2 : ℕ → ℕ
loco_info_db2 speed_steps = if speed_steps == 14 then 0 else if speed_steps == 28 then 2 else 4

pub record DrivePacket : Type 0 where
  pub addr : ℕ
  pub speed : ℕ
  pub forward : Bool
  pub estop : Bool

-- parseSetLocoDrive
unfoldable pub parse_set_loco_drive : List ℕ → Option DrivePacket
parse_set_loco_drive pkt =
    if ltb (length pkt) 10
      || (not (is_xbus pkt) || (not (byte_at pkt 4 == 0xe4) || not (byte_at pkt 5 / 16 == 1)))
    then none
    else elim (parse_loco_addr pkt 6) [
      | none ↦ none
      | some addr ↦
          let proto = byte_at pkt 5 % 16 in
          let (speed, forward) = decode_drive_db3 proto (byte_at pkt 8) in
          some (record {
            addr = addr;
            speed = speed;
            forward = forward;
            estop = is_drive_db3_estop proto (byte_at pkt 8);
          })
    ]

pub record FunctionPacket : Type 0 where
  pub addr : ℕ
  pub fn : ℕ
  pub sw : ℕ

-- parseSetLocoFunction; `sw` is 0 for off, 1 for on and 2 for toggle.
unfoldable pub parse_set_loco_function : List ℕ → Option FunctionPacket
parse_set_loco_function pkt =
    if ltb (length pkt) 10
      || (not (is_xbus pkt) || (not (byte_at pkt 4 == 0xe4) || not (byte_at pkt 5 == 0xf8)))
    then none
    else elim (parse_loco_addr pkt 6) [
      | none ↦ none
      | some addr ↦
          if ltb 2 (byte_at pkt 8 / 64)
          then none
          else some (record { addr = addr; fn = byte_at pkt 8 % 64; sw = byte_at pkt 8 / 64 })
    ]

-- parseGetLocoInfo
unfoldable pub parse_get_loco_info : List ℕ → Option ℕ
parse_get_loco_info pkt =
    if ltb (length pkt) 9
      || (not (is_xbus pkt) || (not (byte_at pkt 4 == 0xe3) || not (byte_at pkt 5 == 0xf0)))
    then none
    else parse_loco_addr pkt 6

-- parseSetLocoEStop
unfoldable pub parse_set_loco_estop : List ℕ → Option ℕ
parse_set_loco_estop pkt =
    if ltb (length pkt) 8 || (not (is_xbus pkt) || not (byte_at pkt 4 == 0x92))
    then none
    else parse_loco_addr pkt 5

-- parsePurgeLoco
unfoldable pub parse_purge_loco : List ℕ → Option ℕ
parse_purge_loco pkt =
    if ltb (length pkt) 9
      || (not (is_xbus pkt) || (not (byte_at pkt 4 == 0xe3) || not (byte_at pkt 5 == 0x44)))
    then none
    else parse_loco_addr pkt 6

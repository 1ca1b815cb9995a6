-- ===== src/Z21/Protocol.antt =====
-- protocol.go: the frames of the Z21 LAN protocol. A byte is a number below 256, a packet a list of
-- bytes. Bits are taken by division: `x & 0x7F` is `x % 128`, `x >> 8` is `x / 256`, and `|` of numbers
-- with no common bit is a sum.
use bigfred.Base.{
  ℕ, zero, suc, ◌+◌, ◌*◌, ◌/◌, ◌%◌, Bool, false, ◌&&◌, ◌||◌, Option, none, some, List, [], ◌∷◌,
  ◌++◌, length, take, get_elem?, ltb, ◌==◌, nat_key, if◌then◌else◌, maybe,
}

-- `pkt[i]`, for an `i` that a length check has shown to be in range.
abbrev pub byte_at : List ℕ → ℕ → ℕ
byte_at pkt i = maybe 0 (λ b. b) (get_elem? pkt i)

-- `b[n:]`
abbrev pub drop : ℕ → List ℕ → List ℕ
drop zero b = b
drop (suc n) [] = []
drop (suc n) (x ∷ b) = drop n b

-- binary.LittleEndian.PutUint16
abbrev pub put_uint16 : ℕ → List ℕ
put_uint16 n = n % 256 ∷ n / 256 % 256 ∷ []

-- binary.LittleEndian.Uint16 of two bytes.
abbrev pub uint16 : ℕ → ℕ → ℕ
uint16 low high = low + 256 * high

abbrev pub header_xbus : ℕ
header_xbus = 0x40

abbrev pub header_get_serial_number : ℕ
header_get_serial_number = 0x10

abbrev pub header_get_hw_info : ℕ
header_get_hw_info = 0x1a

-- packetHeader: the length field and the header.
unfoldable pub packet_header : List ℕ → Option (ℕ × ℕ)
packet_header (l0 ∷ l1 ∷ h0 ∷ h1 ∷ rest) = some (uint16 l0 l1, uint16 h0 h1)
packet_header (l0 ∷ l1 ∷ h0 ∷ []) = none
packet_header (l0 ∷ l1 ∷ []) = none
packet_header (l0 ∷ []) = none
packet_header [] = none

-- The loop of splitZ21Datagram, over a number of rounds that the length of the payload bounds.
unfoldable pub split_loop : ℕ → List ℕ → List (List ℕ)
split_loop zero b = []
split_loop (suc n) b = elim (packet_header b) [
  | none ↦ []
  | some (l, _) ↦
      let rest = split_loop n (drop l b) in
      if ltb l 4 || ltb (length b) l then [] else take l b ∷ rest
]

unfoldable pub split_z21_datagram : List ℕ → List (List ℕ)
split_z21_datagram b = split_loop (length b) b

unfoldable pub valid_frame : List ℕ → Bool
valid_frame pkt = maybe false (λ (h : ℕ × ℕ). h.0 == length pkt) (packet_header pkt)

unfoldable pub build_reply : ℕ → List ℕ → List ℕ
build_reply header payload =
    put_uint16 ((4 + length payload) % 65536) ++ (put_uint16 header ++ payload)

-- binary.LittleEndian.PutUint32
abbrev pub put_uint32 : ℕ → List ℕ
put_uint32 n = n % 256 ∷ n / 256 % 256 ∷ n / 65536 % 256 ∷ n / 16777216 % 256 ∷ []

unfoldable pub serial_reply : ℕ → List ℕ
serial_reply serial = build_reply header_get_serial_number (put_uint32 serial)

unfoldable pub build_hw_info_reply : ℕ → ℕ → List ℕ
build_hw_info_reply hw_type fw_version =
    build_reply header_get_hw_info (put_uint32 hw_type ++ put_uint32 fw_version)

-- isDriveHeader
unfoldable pub is_drive_header : ℕ → List ℕ → Bool
is_drive_header header pkt =
    if header == header_xbus && ltb 5 (length pkt)
    then if byte_at pkt 4 == 0xe4
      then byte_at pkt 5 / 16 == 1 || (byte_at pkt 5 == 0xf8 || byte_at pkt 5 == 0x13)
      else byte_at pkt 4 == 0xe3 && byte_at pkt 5 == 0xf0
    else false

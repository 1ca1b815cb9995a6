-- ===== src/Z21/Pom.antt =====
-- The write of a configuration variable: what is built is parsed.
use bigfred.Base.{ℕ, ◌≡◌, ◌<◌, some, arith, nat_key}
use bigfred.Z21.Protocol.{packet_header}
use bigfred.Z21.Packets.{
  parse_loco_addr, build_xbus_reply, build_pom_write_byte, parse_pom_write_byte,
}

-- The address, the variable's index and the value of a packet that buildPOMWriteByte builds come
-- back from it, for an address below 2 ^ 14 and an index below 2 ^ 10.
pub parse-build_pom_write_byte :
    (addr cv value : ℕ)
    → addr < 16384
    → cv < 1024
    → parse_pom_write_byte (build_pom_write_byte addr cv value) ≡ some (addr, cv, value)
unfolding parse_pom_write_byte build_pom_write_byte parse_loco_addr build_xbus_reply packet_header
parse-build_pom_write_byte addr cv value la lc = ground (arith, la, lc)

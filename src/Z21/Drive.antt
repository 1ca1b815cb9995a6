-- ===== src/Z21/Drive.antt =====
-- The speed byte of a locomotive: what is encoded is decoded.
use bigfred.Base.{
  ℕ, ◌%◌, ◌≡◌, ◌≢◌, ◌≤◌, ◌<◌, ◌⊎◌, Bool, true, false, arith, if◌then◌else◌, ◌==◌, nat_key,
}
use bigfred.Z21.Packets.{is_drive_db3_estop, decode_drive_db3, encode_drive_db3}

-- The highest speed of a format, by its protocol number.
abbrev pub top_speed : ℕ → ℕ
top_speed proto = if proto == 0 then 15 else if proto == 2 then 28 else 127

-- A speed within the format's range, and its direction, come back from the byte they are encoded
-- in.
pub decode-encode_drive_db3 :
    (speed proto : ℕ) (forward : Bool)
    → speed ≤ top_speed proto
    → decode_drive_db3 proto (encode_drive_db3 speed forward proto) ≡ (speed, forward)
unfolding decode_drive_db3 encode_drive_db3
decode-encode_drive_db3 speed proto true l = ground (arith, l)
decode-encode_drive_db3 speed proto false l = ground (arith, l)

-- A speed above the range: the 28-step and the 128-step formats encode the top speed. The 14-step
-- format wraps around, and encodes what is left modulo 16.
pub encode_drive_db3_over :
    (speed proto : ℕ) (forward : Bool)
    → top_speed proto < speed
    → ((proto ≢ 0)
        × (decode_drive_db3 proto (encode_drive_db3 speed forward proto)
            ≡ (top_speed proto, forward)))
      ⊎ ((proto ≡ 0)
          × (decode_drive_db3 proto (encode_drive_db3 speed forward proto) ≡ (speed % 16, forward)))
unfolding decode_drive_db3 encode_drive_db3
encode_drive_db3_over speed proto true l = ground (arith, l)
encode_drive_db3_over speed proto false l = ground (arith, l)

-- Within the range the byte is an emergency stop exactly for speed 1.
pub estop-encode_drive_db3 :
    (speed proto : ℕ) (forward : Bool)
    → speed ≤ top_speed proto
    → is_drive_db3_estop proto (encode_drive_db3 speed forward proto) ≡ (speed == 1)
unfolding is_drive_db3_estop encode_drive_db3
estop-encode_drive_db3 speed proto true l = ground (arith, l)
estop-encode_drive_db3 speed proto false l = ground (arith, l)

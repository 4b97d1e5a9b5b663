-- ===== src/Frame.antt =====
-- The wire format that both sides share: the constants of uart_wifi_driver/common.h and of
-- uart_wifi_passthrough/main/common.h, and the frame `[2 byte data_len][n byte data][1 byte split]`
-- that their comments describe. Bytes are numbers below 256; a length is little endian on both
-- machines.
pub mod Parse
use esp8266_hosted_linux.Base.{
  Option, none, some, ◌==◌, suc, ℕ, ◌+◌, ◌*◌, ◌/◌, ◌%◌, ◌≤◌, ◌<◌, Bool, true, false, ◌&&◌, ◌||◌,
  List, [], ◌∷◌, ◌++◌, Bytes, length, get_or, leb, ltb, if◌then◌else◌,
}

abbrev pub split_data : ℕ
split_data = 0x55

abbrev pub split_cmd : ℕ
split_cmd = 0xaa

abbrev pub mtu_len : ℕ
mtu_len = 1500

abbrev pub max_frame_len : ℕ
max_frame_len = 2 + mtu_len + 1

-- STATUS_LEN, STATUS_DATA and STATUS_SPLIT
pub data Status : Type 0 where
  status_len status_data status_split : Status

-- `*((int16_t *)buf)`: the bit pattern, read from the first two bytes
abbrev pub read16 : Bytes → ℕ
read16 buf = get_or buf 0 0 + 256 * get_or buf 1 0

-- An int16_t with this bit pattern is below zero.
abbrev pub is_negative16 : ℕ → Bool
is_negative16 w = leb 0x8000 w

-- `uartDataLen > hi || uartDataLen < lo` for an int16_t, with `0 < lo` and `hi < 0x8000`
abbrev pub out_of_range : ℕ → ℕ → ℕ → Bool
out_of_range lo hi w = if is_negative16 w then true else ltb hi w || ltb w lo

-- The index behind the first `b` of a list: the loops `for (skip = 0; …) if (data[skip++] == b)`,
-- which every receiver has.
unfoldable pub skip_past : ℕ → Bytes → Option ℕ
skip_past b [] = none
skip_past b (x ∷ xs) =
    if x == b then some 1 else elim (skip_past b xs) [ none ↦ none | some n ↦ some (suc n) ]

-- A frame with its split byte, as a specification: the code never builds one in one place.
unfoldable pub frame : ℕ → Bytes → Bytes
frame split p = (length p % 256) ∷ (length p / 256 % 256) ∷ (p ++ (split ∷ []))

-- The frames of a list of packets, one behind the other.
unfoldable pub frames : ℕ → List Bytes → Bytes
frames split [] = []
frames split (p ∷ ps) = frame split p ++ frames split ps

-- An IP packet that both receivers accept.
abbrev pub IsPacket : Bytes → Type 0
IsPacket p = (20 ≤ length p) × (length p ≤ mtu_len)

abbrev pub ArePackets : List Bytes → Type 0
ArePackets [] = Unit
ArePackets (p ∷ ps) = IsPacket p × ArePackets ps

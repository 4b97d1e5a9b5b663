-- ===== src/Dump.antt =====
-- The hexadecimal dumps for the log: `dump`, `recv_dump` and `send_dump` of uart_wifi_driver/dump.c,
-- which differ in their array only, `recv_dump_skb` and `send_dump_skb`, and `wifi_send_dump` of uart_wifi_passthrough/main/uart2wifi.c with
-- `wifi_recv_dump` of wifi2uart.c, which are one function. A `char` is unsigned, as on the ESP8266 and on
-- ARM.
pub mod Hex
pub mod Parts
pub mod Text
use esp8266_hosted_linux.Base.{
  ℕ, ◌+◌, ◌-◌, ◌*◌, ◌/◌, ◌%◌, Bool, true, false, List, [], ◌∷◌, ◌++◌, Bytes, length, take, poke,
  ltb, leb, ◌==◌, if◌then◌else◌,
}
use esp8266_hosted_linux.Frame.{max_frame_len}
use esp8266_hosted_linux.Driver.Xmit.{Skb}

-- A call logs a number of bytes and their text, and leaves the array; or it writes behind the array.
pub data Dumped : Type 0 where
  logged : ℕ → Bytes → Bytes → Dumped
  out_of_bounds : Dumped

abbrev pub digit : ℕ → ℕ
digit n = if ltb n 10 then 48 + n else 55 + n

-- "0x%02X,"
unfoldable pub hex_byte : ℕ → Bytes
hex_byte b = 48 ∷ 120 ∷ digit (b / 16 % 16) ∷ digit (b % 16) ∷ 44 ∷ []

-- What `%s` prints of an array
unfoldable pub text_of : Bytes → Bytes
text_of [] = []
text_of (x ∷ xs) = let rest = text_of xs in if x == 0 then [] else x ∷ rest

-- `snprintf(output + offset, sizeof(output) - offset, …)`, which is given the text
unfoldable pub snprintf : ℕ → Bytes → Bytes → Bytes
snprintf offset text output =
    let size = length output - offset in
    if size == 0 then output else poke offset (take (size - 1) text ++ (0 ∷ [])) output

-- `output[offset] = '\0'` and the log line
unfoldable pub finish : ℕ → ℕ → Bytes → Dumped
unfolding text_of
finish i offset output =
    if ltb offset (length output)
    then logged i (text_of (poke offset (0 ∷ []) output)) (poke offset (0 ∷ []) output)
    else out_of_bounds

abbrev pub output_size : ℕ
output_size = 4096

-- With `offset` past the end the size that `snprintf` gets wraps around, and the kernel's `snprintf` gives
-- 0 for a size that no int can hold, which ends the loop.
unfoldable pub dump_from : Bytes → ℕ → ℕ → Bytes → Dumped
unfolding hex_byte snprintf finish
dump_from [] i offset output = finish i offset output
dump_from (b ∷ buf) i offset output =
    let rest = dump_from buf (i + 1) (offset + 5) (snprintf offset (hex_byte b) output) in
    if ltb (length output) offset then finish i offset output else rest

unfoldable pub dump : Bytes → Bytes → Dumped
unfolding dump_from
dump buf output = dump_from buf 0 0 output

-- Whether `dump` writes behind its array: each byte takes 5 of the 4096, and the NUL one.
abbrev pub dump_overflows : Bytes → Bool
dump_overflows buf = leb output_size (5 * length buf)

-- Into arrays of their own
abbrev pub recv_dump : Bytes → Bytes → Dumped
recv_dump = dump

abbrev pub send_dump : Bytes → Bytes → Dumped
send_dump = dump

abbrev pub wifi_output_size : ℕ
wifi_output_size = max_frame_len * 5 + 1

unfoldable pub wifi_dump_from : Bytes → ℕ → ℕ → Bytes → Dumped
unfolding hex_byte snprintf finish
wifi_dump_from [] i offset output = finish i offset output
wifi_dump_from (b ∷ buf) i offset output =
    let rest = wifi_dump_from buf (i + 1) (offset + 5) (snprintf offset (hex_byte b) output) in
    if leb (length output - 5) offset then finish i offset output else rest

unfoldable pub wifi_send_dump : Bytes → Bytes → Dumped
unfolding wifi_dump_from
wifi_send_dump ptr output = wifi_dump_from ptr 0 0 output

abbrev pub wifi_recv_dump : Bytes → Bytes → Dumped
wifi_recv_dump = wifi_send_dump

-- The log lines of several dumps into one array, or a write behind it.
pub data Logs : Type 0 where
  lines : List Bytes → Bytes → Logs
  broken : Logs

unfoldable pub dump_parts : List Bytes → Bytes → Logs
unfolding dump
dump_parts [] output = lines [] output
dump_parts (p ∷ ps) output = elim (dump p output) [
  | out_of_bounds ↦ broken
  | logged i t output' ↦ elim (dump_parts ps output') [
    | broken ↦ broken
    | lines ts output'' ↦ lines (t ∷ ts) output''
  ]
]

-- The linear part of an skb, and then its fragments
abbrev pub recv_dump_skb : Skb → Bytes → Logs
recv_dump_skb skb = dump_parts (skb.head ∷ skb.frags)

abbrev pub send_dump_skb : Skb → Bytes → Logs
send_dump_skb skb = dump_parts (skb.head ∷ skb.frags)

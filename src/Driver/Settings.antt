-- ===== src/Driver/Settings.antt =====
-- The settings of uart_wifi_driver/main.c: `str_store`, which the sysfs files `tty_name`, `ssid` and
-- `password` call, keeps SSID and password as the frames that `esp8266ex_init_work_handler` of
-- uart_wifi_driver/netdev.c writes to the firmware after a reset; `str_show`, which shows them.
--
-- An array is the list of its bytes. The locks are left out: one writer at a time.
pub mod Frames
pub mod Show
use esp8266_hosted_linux.Base.{
  ℕ, zero, suc, ◌+◌, ◌-◌, ◌*◌, ◌%◌, ◌/◌, ◌^◌, Bool, true, false, List, [], ◌∷◌, ◌++◌, Bytes, length,
  get_or, Option, none, some, drop, take, poke, ltb, ◌==◌, not, if◌then◌else◌,
}
use esp8266_hosted_linux.Frame.{split_cmd, read16}

-- WPA_MAX_SSID_LEN, WPA_MAX_PASSWD_LEN
abbrev pub wpa_max_ssid_len : ℕ
wpa_max_ssid_len = 32

abbrev pub wpa_max_passwd_len : ℕ
wpa_max_passwd_len = 64

-- The arrays of `struct uart_wifi_struct`
pub record Settings : Type 0 where
  pub tty_name : Bytes
  pub ssid : Bytes
  pub password : Bytes

abbrev pub tty_name_size : ℕ
tty_name_size = 10

abbrev pub ssid_size : ℕ
ssid_size = 2 + wpa_max_ssid_len + 1

abbrev pub password_size : ℕ
password_size = 2 + wpa_max_passwd_len + 1

pub data Attribute : Type 0 where
  attr_tty_name attr_ssid attr_password attr_other : Attribute

-- `str_store` returns `count` with new settings, or -EINVAL; or it reads or writes outside an array.
pub data Stored : Type 0 where
  stored : ℕ → Settings → Stored
  einval out_of_bounds : Stored

-- The `n` bytes that `strncpy` writes: after a NUL, and behind the end of `buf`, only NULs.
unfoldable pub strncpy : Bytes → ℕ → Bytes
strncpy buf zero = []
strncpy [] (suc n) = 0 ∷ strncpy [] n
strncpy (x ∷ xs) (suc n) = let rest = strncpy xs n in if x == 0 then 0 ∷ strncpy [] n else x ∷ rest

-- The stores of one text: length, bytes, NUL in place of the newline, SPLIT_CMD.
unfoldable pub store_text : Bytes → Bytes → Bytes
unfolding strncpy
store_text array buf =
    let count = length buf in
    let a₁ = poke 0 ((count % 256) ∷ (count / 256 % 256) ∷ []) array in
    let a₂ = poke 2 (strncpy buf count) a₁ in
    let a₃ = poke (2 + count - 1) (0 ∷ []) a₂ in poke (2 + count) (split_cmd ∷ []) a₃

unfoldable pub store_tty_name : Bytes → Bytes → Bytes
unfolding strncpy
store_tty_name array buf =
    let count = length buf in poke (count - 1) (0 ∷ []) (poke 0 (strncpy buf count) array)

-- A test by the limit, then the stores, of which the last reaches `reach` bytes.
unfoldable pub checked : (limit reach size : ℕ) → ℕ → Settings → Stored
checked limit reach size count s =
    if ltb limit count then einval else if ltb size reach then out_of_bounds else stored count s

-- `buf` are the `count` bytes written to the file.
unfoldable pub str_store : Attribute → Bytes → Settings → Stored
unfolding store_text store_tty_name checked
str_store attr buf s =
    let count = length buf in
    if count == 0
    then out_of_bounds
    else if not (get_or buf (count - 1) 0 == 10)
    then einval
    else elim attr [
      | attr_tty_name ↦
          checked tty_name_size count (length s.tty_name) count
            (record s { tty_name = store_tty_name s.tty_name buf })
      | attr_ssid ↦
          checked wpa_max_ssid_len (2 + count + 1) (length s.ssid) count
            (record s { ssid = store_text s.ssid buf })
      | attr_password ↦
          checked wpa_max_passwd_len (2 + count + 1) (length s.password) count
            (record s { password = store_text s.password buf })
      | attr_other ↦ einval
    ]

-- `tty->ops->write(tty, ssid, ssid_len + 3)`
abbrev pub written_text : Bytes → Bytes
written_text array = take (read16 array + 3) array

-- What one turn of the reset work writes.
unfoldable pub setup_bytes : Settings → Bytes
setup_bytes s = written_text s.ssid ++ written_text s.password

-- `str_show` returns a count and what it leaves in the page, or -EINVAL; or it reads behind an array that
-- has no NUL.
pub data Shown : Type 0 where
  shown : ℕ → Bytes → Shown
  no_attribute unterminated : Shown

-- The text of a C string, when there is a NUL
unfoldable pub c_string : Bytes → Option Bytes
c_string [] = none
c_string (x ∷ xs) =
    let rest = c_string xs in
    if x == 0 then some [] else elim rest [ none ↦ none | some t ↦ some (x ∷ t) ]

-- `snprintf(buf, size, "%s\n", …)`: at most `size - 1` bytes and a NUL, and the count without that limit
unfoldable pub show_text : ℕ → Bytes → Bytes → Shown
unfolding c_string
show_text size array buf = elim (c_string array) [
  | none ↦ unterminated
  | some t ↦ shown (length t + 1) (poke 0 (take (size - 1) (t ++ (10 ∷ [])) ++ (0 ∷ [])) buf)
]

unfoldable pub str_show : Attribute → Settings → Bytes → Shown
unfolding show_text
str_show attr_tty_name s buf = show_text tty_name_size s.tty_name buf
str_show attr_ssid s buf = show_text wpa_max_ssid_len (drop 2 s.ssid) buf
str_show attr_password s buf = show_text wpa_max_passwd_len (drop 2 s.password) buf
str_show attr_other s buf = no_attribute

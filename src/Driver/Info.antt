-- ===== src/Driver/Info.antt =====
-- `ttyio_netif_info` of uart_wifi_driver/uart.c, which takes the firmware's addresses before the first
-- packet, `transform_netif_info`, which prints them, and `str_show_connect_info` of
-- uart_wifi_driver/main.c, which shows them; `ttyio_receive_buf2`, which chooses a receiver.
--
-- One round of the `restart:` loop is one `step`; a fall through into the next `case` is a call. Of
-- the calls of `recv_dump` with the chunk what counts is whether they write behind their array; those with
-- the block, of at most 64 bytes, and the log lines are left out.
pub mod Bounds
pub mod Hang
pub mod Step
pub mod Text
pub mod Accept
use esp8266_hosted_linux.Base.{
  ℕ, zero, suc, ◌+◌, ◌-◌, ◌*◌, ◌%◌, ◌/◌, min, Bool, true, false, Option, none, some, List, [], ◌∷◌,
  ◌++◌, Bytes, length, get_or, take, drop, poke, ltb, ◌==◌, if◌then◌else◌,
}
use esp8266_hosted_linux.Dump.{dump_overflows}
use esp8266_hosted_linux.Frame.{Status, status_len, status_data, status_split, split_cmd, read16}
use esp8266_hosted_linux.Driver.Receive.{Receiver, receive_data}
use esp8266_hosted_linux.Driver.Receive as Receive

-- sizeof(netif_info)
abbrev pub netif_info_size : ℕ
netif_info_size = 2 + 12 + 1 + 12 * 4 + 1

-- The fields of `struct uart_wifi_struct`, but for `uart_recv_status`, which the receiver of packets has
-- too. `writes` are the buffers given to `tty->ops->write`, in order, and `wakeups` counts the calls
-- that wake the readers.
pub record Info : Type 0 where
  pub netif_info : Bytes
  pub netif_info_recv_len : ℕ
  pub netif_info_vaild : Bool
  pub writes : List Bytes
  pub wakeups : ℕ

-- The variables of a call while its loop runs.
pub record Rx : Type 0 where
  pub netif_info : Bytes
  pub status : Status
  pub recv_len : ℕ
  pub data_len : ℕ
  pub processed : ℕ
  pub surplus : ℕ

-- How a round ends: `goto restart`, `goto exit`, the return with a good block, or with an `int surplus`
-- below zero.
pub data Next : Type 0 where
  restart exit accept : Rx → Next
  overrun : Next

-- A call returns the number of bytes processed, the stored status, and the new state.
pub data Outcome : Type 0 where
  returned : ℕ → Status → Info → Outcome
  corrupted no_fuel : Outcome

-- Where a byte is first found: the loops `for (skip = 0; …; skip++) if (data[skip] == b)`.
unfoldable pub index_of : ℕ → Bytes → Option ℕ
index_of b [] = none
index_of b (x ∷ xs) =
    if x == b then some 0 else elim (index_of b xs) [ none ↦ none | some n ↦ some (suc n) ]

-- `%hhu` of a byte
abbrev pub decimal : ℕ → Bytes
decimal n =
    if ltb n 10
    then (48 + n) ∷ []
    else if ltb n 100
    then (48 + n / 10) ∷ (48 + n % 10) ∷ []
    else (48 + n / 100) ∷ (48 + n / 10 % 10) ∷ (48 + n % 10) ∷ []

-- Four bytes from `i` on, as "a.b.c.d\n"
unfoldable pub dotted : Bytes → ℕ → Bytes
dotted buf i =
    decimal (get_or buf i 0)
    ++ (46
        ∷ (decimal (get_or buf (i + 1) 0)
            ++ (46
                ∷ (decimal (get_or buf (i + 2) 0)
                    ++ (46 ∷ (decimal (get_or buf (i + 3) 0) ++ (10 ∷ [])))))))

unfoldable pub addresses_text : Bytes → Bytes
unfolding dotted
addresses_text buf = dotted buf 2 ++ (dotted buf 6 ++ dotted buf 10)

-- `snprintf(buf + 15, 12 * 4, …)`: at most 47 characters and a NUL
unfoldable pub transform_netif_info : Bytes → Bytes
unfolding addresses_text
transform_netif_info buf = poke 15 (take (12 * 4 - 1) (addresses_text buf) ++ (0 ∷ [])) buf

-- `actualcopy = min(surplus, want)` and `memcpy`; `goto exit` when the chunk is used up.
unfoldable pub fill : Bytes → ℕ → Rx → Next
fill cp want m =
    let n = min m.surplus want in
    if m.surplus == 0
    then exit m
    else restart (record m {
      netif_info = poke m.recv_len (take n (drop m.processed cp)) m.netif_info;
      recv_len = m.recv_len + n;
      surplus = m.surplus - n;
      processed = m.processed + n;
    })

-- `netif_info_recv_len -= skip` and `memmove` to the front
unfoldable pub shift : ℕ → Rx → Rx
shift skip m = record m {
  netif_info = poke 0 (take (m.recv_len - skip) (drop skip m.netif_info)) m.netif_info;
  recv_len = m.recv_len - skip;
  status = status_len;
}

-- STATUS_SPLIT, second loop: a 12 is looked for in the chunk. `skip` starts at `processed`, and
-- `processed` and `surplus` move by the whole of `skip`.
unfoldable pub skip_chunk : Bytes → Rx → Next
unfolding index_of
skip_chunk cp m = elim (index_of 12 (drop m.processed cp)) [
  | none ↦ exit (record m { processed = length cp; recv_len = 0 })
  | some k ↦
      if ltb m.surplus (m.processed + k)
      then overrun
      else restart (record m {
        recv_len = 0;
        surplus = m.surplus - (m.processed + k);
        processed = m.processed + (m.processed + k);
        status = status_len;
      })
]

-- STATUS_SPLIT, first loop: a 12 is looked for in what has been received.
unfoldable pub step_split : Bytes → Rx → Next
unfolding index_of shift skip_chunk
step_split cp m = elim (index_of 12 (take m.recv_len m.netif_info)) [
  | some skip ↦ restart (shift skip m)
  | none ↦ skip_chunk cp m
]

unfoldable pub step_data : Bytes → Rx → Next
unfolding fill step_split
step_data cp m =
    if ltb m.recv_len (m.data_len + 3)
    then fill cp (m.data_len + 3 - m.recv_len) m
    else if get_or m.netif_info (m.data_len + 2) 0 == split_cmd
    then accept m
    else step_split cp (record m { status = status_split })

-- The length is not 12: another 12 is looked for behind a 12 at the front.
unfoldable pub bad_length : Rx → Next
unfolding index_of shift
bad_length m =
    let lost = restart (record m { status = status_split }) in
    if get_or m.netif_info 0 0 == 12
    then elim (index_of 12 (drop 1 (take m.recv_len m.netif_info))) [
      | some k ↦ restart (shift (suc k) m)
      | none ↦ lost
    ]
    else lost

unfoldable pub step_len : Bytes → Rx → Next
unfolding fill step_data bad_length
step_len cp m =
    if ltb m.recv_len 2
    then fill cp (2 - m.recv_len) m
    else if read16 m.netif_info == 12
    then step_data cp (record m { data_len = 12; status = status_data })
    else bad_length (record m { data_len = read16 m.netif_info })

unfoldable pub step : Status → Bytes → Rx → Next
unfolding step_len step_data step_split
step status_len cp m = step_len cp m
step status_data cp m = step_data cp m
step status_split cp m = step_split cp m

-- The return with a good block: the whole array is written back and the addresses are printed behind
-- the block. The stored status and length stay as they were when the call began.
abbrev pub accepted : Status → Info → Rx → Outcome
accepted stored s m = returned m.processed stored (record s {
  netif_info = transform_netif_info m.netif_info;
  netif_info_vaild = true;
  writes = s.writes ++ (m.netif_info ∷ []);
  wakeups = s.wakeups + 1;
})

unfoldable pub run : ℕ → Status → Info → Bytes → Rx → Outcome
unfolding step transform_netif_info
run zero stored s cp m = no_fuel
run (suc fuel) stored s cp m = elim (step m.status cp m) [
  | restart m' ↦ run fuel stored s cp m'
  | exit m' ↦
      returned m'.processed m'.status
        (record s { netif_info = m'.netif_info; netif_info_recv_len = m'.recv_len })
  | accept m' ↦ accepted stored s m'
  | overrun ↦ corrupted
]

-- The locals at `restart:`
abbrev pub entry : Status → Info → Bytes → Rx
entry stored s cp = record {
  netif_info = s.netif_info;
  status = stored;
  recv_len = s.netif_info_recv_len;
  data_len = 12;
  processed = 0;
  surplus = length cp;
}

-- A call, with at most `fuel` rounds of the loop. The chunk is dumped first; a second dump of it, in the
-- search for a 12, has the same length.
unfoldable pub ttyio_netif_info : ℕ → Status → Info → Bytes → Outcome
unfolding run
ttyio_netif_info fuel stored s cp =
    if dump_overflows cp then corrupted else run fuel stored s cp (entry stored s cp)

-- The bytes that a read of the file `netif_info` gives when a block has been accepted.
unfoldable pub str_show_connect_info : Info → Bytes
str_show_connect_info s = take (12 * 4) (drop 15 s.netif_info)

-- The line discipline: `attached` says whether `tty->disc_data` is set.
pub record LineDiscipline : Type 0 where
  pub attached : Bool
  pub receiver : Receiver
  pub info : Info

pub data Received : Type 0 where
  took : ℕ → LineDiscipline → Received
  lost : Received

module _ (can_alloc : ℕ → Bool) (fuel : ℕ) where
  unfoldable pub ttyio_receive_buf2 : LineDiscipline → Bytes → Received
  unfolding receive_data ttyio_netif_info
  ttyio_receive_buf2 d cp =
      if d.attached
      then if d.info.netif_info_vaild
        then elim (receive_data can_alloc d.receiver cp) [
          | Receive.returned n r ↦ took n (record d { receiver = r })
          | _ ↦ lost
        ]
        else elim (ttyio_netif_info fuel d.receiver.uart_recv_status d.info cp) [
          | returned n t s ↦
              took n
                (record d { receiver = record (d.receiver) { uart_recv_status = t }; info = s })
          | _ ↦ lost
        ]
      else took (length cp) d

  -- The tty layer's calls, one chunk after the other.
  unfoldable pub receive_calls : LineDiscipline → List Bytes → Received
  unfolding ttyio_receive_buf2
  receive_calls d [] = took 0 d
  receive_calls d (cp ∷ cps) = elim (ttyio_receive_buf2 d cp) [
    | took n d' ↦ receive_calls d' cps
    | lost ↦ lost
  ]

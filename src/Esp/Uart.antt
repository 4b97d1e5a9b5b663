-- ===== src/Esp/Uart.antt =====
-- What the receivers of uart_wifi_passthrough/main/uart2wifi.c share: the globals `status`,
-- `uartDataLen`, `uartRecvLen` and `uartRecvBuffer`, `uart0_recv_data`, and the search for a split
-- byte. The buffer is the list of its first `uartRecvLen` bytes; the code reads no others.
--
-- The bytes that the hardware has received come as a list of chunks: what one call of
-- `uart0_recv_data` finds in the receive FIFO.
use esp8266_hosted_linux.Base.{
  ℕ, ◌+◌, ◌≤◌, Option, none, some, List, [], ◌∷◌, ◌++◌, Bytes, length, drop, ltb, if◌then◌else◌,
}
use esp8266_hosted_linux.Frame.{Status, status_len, max_frame_len, skip_past}

-- UART_FIFO_LEN, as the comment in common.h gives it
abbrev pub uart_fifo_len : ℕ
uart_fifo_len = 128

-- sizeof(uartRecvBuffer)
abbrev pub buffer_len : ℕ
buffer_len = max_frame_len + uart_fifo_len

pub record Uart : Type 0 where
  pub status : Status
  pub data_len : ℕ
  pub buf : Bytes

-- The FIFO gives at most `uart_fifo_len` bytes at a time.
abbrev pub FitsFifo : List Bytes → Type 0
FitsFifo [] = Unit
FitsFifo (c ∷ cs) = (length c ≤ uart_fifo_len) × FitsFifo cs

-- `uart0_recv_data(uartRecvBuffer+uartRecvLen)`, with `uartRecvLen += ret`; `none` where it writes
-- behind the buffer.
unfoldable pub uart0_recv_data : Uart → Bytes → Option Uart
uart0_recv_data u c =
    if ltb buffer_len (length u.buf + length c) then none else some (record u { buf = u.buf ++ c })

-- The loop of STATUS_SPLIT: what follows the split byte is kept, and nothing if there is none.
unfoldable pub relocate : ℕ → Uart → Uart
relocate b u = elim (skip_past b u.buf) [
  | some i ↦ record u { buf = drop i u.buf; status = status_len }
  | none ↦ record u { buf = [] }
]

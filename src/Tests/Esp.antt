-- ===== src/Tests/Esp.antt =====
-- uart_wifi_passthrough: the receivers of uart2wifi.c and the queue of wifi2uart.c on small inputs.
use esp8266_hosted_linux.Base.{
  ◌≡◌, refl, arith, true, false, none, some, List, [], ◌∷◌, ◌++◌, Bytes, take, drop, concat,
  if◌then◌else◌, ◌==◌,
}
use esp8266_hosted_linux.Frame.{status_len, split_data, split_cmd, frame, frames}
use esp8266_hosted_linux.Esp.Uart.{Uart, FitsFifo}
use esp8266_hosted_linux.Esp.Config.{done, recv_ssid, recv_passwd, recv_netif_info}
use esp8266_hosted_linux.Esp.Config.Bounds.{Settles, config-Settles}
use esp8266_hosted_linux.Esp.Config.Setup.{
  Receives, recv_ssid-recv_passwd, recv_netif_info-echo, recv_ssid-any_split,
}
use esp8266_hosted_linux.Esp.Forward.{Wifi, leave, uart2wifi}
use esp8266_hosted_linux.Esp.Forward.Bounds.{Returns, uart2wifi-Returns}
use esp8266_hosted_linux.Esp.Forward.Step.{OnWire}
use esp8266_hosted_linux.Esp.Forward.Stream.{uart2wifi-OnWire, uart2wifi-sends}
use esp8266_hosted_linux.Esp.Queue.{
  Ptr, queue_clear, ret, Heap, Queue, queue_init, queue_ok, queue_enqueue, queue_dequeue, null,
}
use esp8266_hosted_linux.Esp.Queue.Cells.{NotIn, element}
use esp8266_hosted_linux.Esp.Queue.Clear.{Freed, queue_clear-Freed}
use esp8266_hosted_linux.Esp.Send.{send_to_uart0_sync}
use esp8266_hosted_linux.Esp.Send.Sync.{send_to_uart0_sync-whole}
use esp8266_hosted_linux.Esp.Queue.Refine.{
  IsQueue, Holds, Gives, push, pop, init-Holds, queue_enqueue-push, queue_dequeue-pop,
}
use esp8266_hosted_linux.Tests.{ip, ip_chunks}

abbrev reset_uart : Uart
reset_uart = record { status = status_len; data_len = 0; buf = [] }

-- An SSID "ab" with its NUL, and the password "12345678"
abbrev ssid : Bytes
ssid = 97 ∷ 98 ∷ 0 ∷ []

abbrev passwd : Bytes
passwd = 49 ∷ 50 ∷ 51 ∷ 52 ∷ 53 ∷ 54 ∷ 55 ∷ 56 ∷ []

abbrev setup_line : Bytes
setup_line = 3 ∷ 0 ∷ (ssid ++ (170 ∷ 8 ∷ 0 ∷ (passwd ++ (170 ∷ []))))

line_of_setup :
    [] ++ concat (take 7 setup_line ∷ drop 7 setup_line ∷ [])
    ≡ frame split_cmd ssid ++ (frame split_cmd passwd ++ [])
unfolding frame
line_of_setup = refl

recv_ssid-recv_passwd_example :
    (u : Uart) × (fifo : List Bytes) × (recv_ssid reset_uart
        (take 7 setup_line ∷ drop 7 setup_line ∷ [])
      ≡ done ssid u fifo)
    × Receives passwd [] (recv_passwd u fifo)
recv_ssid-recv_passwd_example =
    recv_ssid-recv_passwd ssid passwd [] reset_uart (take 7 setup_line ∷ drop 7 setup_line ∷ [])
      refl (omega arith, (omega arith, tt)) (omega arith, omega arith) (omega arith, omega arith)
      line_of_setup

-- The frame of "ab" with the byte 7 in the place of SPLIT_CMD
line_of_seven :
    [] ++ concat ((3 ∷ 0 ∷ 97 ∷ 98 ∷ 0 ∷ 7 ∷ []) ∷ []) ≡ frame 7 ((97 ∷ 98 ∷ []) ++ (0 ∷ [])) ++ []
unfolding frame
line_of_seven = refl

recv_ssid-any_split_example :
    Receives ssid [] (recv_ssid reset_uart ((3 ∷ 0 ∷ 97 ∷ 98 ∷ 0 ∷ 7 ∷ []) ∷ []))
recv_ssid-any_split_example =
    recv_ssid-any_split [] reset_uart ((3 ∷ 0 ∷ 97 ∷ 98 ∷ 0 ∷ 7 ∷ []) ∷ []) refl (omega arith, tt) 7
      (97 ∷ 98 ∷ []) (omega arith) line_of_seven

-- The info block of the ESP: 12 bytes of addresses
abbrev info : Bytes
info = 192 ∷ 168 ∷ 1 ∷ 2 ∷ 192 ∷ 168 ∷ 1 ∷ 1 ∷ 255 ∷ 255 ∷ 255 ∷ 0 ∷ []

abbrev echo : List Bytes
echo = (12 ∷ 0 ∷ info) ∷ (170 ∷ 1 ∷ 2 ∷ []) ∷ []

line_of_echo : [] ++ concat echo ≡ frame split_cmd info ++ (1 ∷ 2 ∷ [])
unfolding frame
line_of_echo = refl

recv_netif_info-echo_example :
    Receives info (1 ∷ 2 ∷ []) (recv_netif_info (frame split_cmd info) 15 reset_uart echo)
recv_netif_info-echo_example =
    recv_netif_info-echo (1 ∷ 2 ∷ []) reset_uart echo refl (omega arith, (omega arith, tt)) info
      (omega arith) line_of_echo

config-Settles_example :
    Settles (recv_ssid reset_uart ip_chunks)
    × Settles (recv_passwd reset_uart ip_chunks)
    × Settles (recv_netif_info (15 ∷ 0 ∷ []) 3 reset_uart ip_chunks)
config-Settles_example =
    config-Settles reset_uart ip_chunks tt (omega arith, (omega arith, (omega arith, tt)))
      (15 ∷ 0 ∷ []) 3 (omega arith)

abbrev reset_wifi : Wifi
reset_wifi = record { uart = reset_uart; send_pbuf = none; sent = [] }

uart2wifi-Returns_example :
    Returns (uart2wifi true false reset_wifi ((1 ∷ 2 ∷ 85 ∷ []) ∷ ip_chunks))
uart2wifi-Returns_example =
    uart2wifi-Returns true false reset_wifi ((1 ∷ 2 ∷ 85 ∷ []) ∷ ip_chunks) tt
      (omega arith, (omega arith, (omega arith, (omega arith, tt))))

line_of_ip : [] ++ (concat ip_chunks ++ []) ≡ frames split_data (ip ∷ [])
unfolding frames frame
line_of_ip = refl

reset-OnWire : OnWire (ip ∷ []) [] reset_wifi ip_chunks (ip ∷ [])
reset-OnWire = record {
  valid = ((omega arith, omega arith), tt);
  packets = refl;
  bytes = line_of_ip;
  place = tt;
  kept = tt;
}

uart2wifi-OnWire_example :
    (s : Wifi) × (fifo ps : List Bytes) × (uart2wifi true false reset_wifi ip_chunks ≡ leave s fifo)
    × FitsFifo fifo
    × OnWire (ip ∷ []) [] s fifo ps
uart2wifi-OnWire_example =
    uart2wifi-OnWire true false (ip ∷ []) [] reset_wifi ip_chunks (ip ∷ []) reset-OnWire
      (omega arith, (omega arith, (omega arith, tt)))

uart2wifi-sends_example :
    (s : Wifi) × (fifo : List Bytes) × (uart2wifi true true reset_wifi ip_chunks ≡ leave s fifo)
    × (s.sent ≡ ip ∷ [])
uart2wifi-sends_example =
    uart2wifi-sends true true (ip ∷ []) [] reset_wifi ip_chunks (ip ∷ []) reset-OnWire
      (omega arith, (omega arith, (omega arith, tt))) ip [] refl refl refl tt refl

abbrev empty_heap : Heap
empty_heap p = none

queue_enqueue-push_example :
    Gives queue_ok (ip ∷ []) (queue_enqueue true 5 true queue_init empty_heap (some ip) 20)
unfolding push
queue_enqueue-push_example =
    queue_enqueue-push queue_init empty_heap [] true 5 true ip (init-Holds empty_heap) (omega arith)
      (λ _. refl)

-- A queue of one packet, at the address 5
abbrev pub full_heap : Heap
full_heap p = if p == 5 then some (element ip null) else none

abbrev pub full_queue : Queue
full_queue = record { head = 5; tail = 5; max_total_length = 32768; current_total_length = 20 }

full-IsQueue : IsQueue full_queue full_heap ((5, ip) ∷ [])
full-IsQueue = record {
  head = refl;
  tail = refl;
  chain = (omega arith, refl, tt, tt);
  sum = refl;
  limit = omega arith;
  max = refl;
}

pub full-Holds : Holds full_queue full_heap (ip ∷ [])
full-Holds = ((5, ip) ∷ [], full-IsQueue, refl)

queue_dequeue-pop_example : Gives (some (ip, 20)) [] (queue_dequeue true full_queue full_heap)
unfolding pop
queue_dequeue-pop_example = queue_dequeue-pop full_queue full_heap (ip ∷ []) true full-Holds

queue_clear-Freed_example :
    (q : Queue) × (h : Heap) × (queue_clear true 4 full_queue full_heap ≡ ret tt q h)
    × Holds q h []
    × Freed h ((5, ip) ∷ [])
    × ((p : Ptr) → NotIn p ((5, ip) ∷ []) → h p ≡ full_heap p)
queue_clear-Freed_example =
    queue_clear-Freed 4 full_queue full_heap ((5, ip) ∷ []) full-IsQueue (omega arith)

send_to_uart0_sync-whole_example :
    send_to_uart0_sync (120 ∷ 0 ∷ 3 ∷ 0 ∷ []) (1 ∷ 2 ∷ 3 ∷ []) ≡ (1 ∷ 2 ∷ 3 ∷ [], [])
send_to_uart0_sync-whole_example =
    send_to_uart0_sync-whole (120 ∷ 0 ∷ 3 ∷ 0 ∷ []) (1 ∷ 2 ∷ 3 ∷ [])
      (omega arith, (omega arith, (omega arith, (omega arith, tt)))) (omega arith)

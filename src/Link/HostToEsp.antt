-- ===== src/Link/HostToEsp.antt =====
-- From the network stack of the host to the Wi-Fi interface of the ESP8266: uart_wifi_xmit of
-- uart_wifi_driver/netdev.c on one end of the line, uart2wifi of uart_wifi_passthrough's uart2wifi.c,
-- called again and again by main.c, on the other.
use esp8266_hosted_linux.Base.{
  ◌≤◌, ◌≡◌, refl, ap, sym, subst, ◌∙◌, Bool, List, [], ◌∷◌, ◌++◌, Bytes, length, concat, none,
}
use esp8266_hosted_linux.Frame.{status_len, split_data, frames, ArePackets}
use esp8266_hosted_linux.Driver.Xmit.{TtyOps, Skb, NetDevice, xmit_all}
use esp8266_hosted_linux.Driver.Xmit.Frames.{AreSkbs, packets, xmit_all-frames}
use esp8266_hosted_linux.Esp.Uart.{FitsFifo}
use esp8266_hosted_linux.Esp.Forward.{Wifi, leave, calls}
use esp8266_hosted_linux.Esp.Forward.Step.{Kept, Place, OnWire}
use esp8266_hosted_linux.Esp.Forward.Stream.{uart2wifi-OnWire}

module _ (total : List Bytes) (more : Bytes) where
  calls-OnWire :
      (answers : List (Bool × Bool)) (s : Wifi) (fifo ps : List Bytes)
      → OnWire total more s fifo ps
      → FitsFifo fifo
      → (s' : Wifi) × (fifo' ps' : List Bytes) × (calls answers s fifo ≡ leave s' fifo')
        × OnWire total more s' fifo' ps'
  unfolding calls
  calls-OnWire [] s fifo ps on f = (s, fifo, ps, refl, on)
  calls-OnWire ((alloc, output) ∷ answers) s fifo ps on f =
      let (s₁, fifo₁, ps₁, e, f₁, on₁) = uart2wifi-OnWire alloc output total more s fifo ps on f in
      let (s₂, fifo₂, ps₂, e₂, on₂) = calls-OnWire answers s₁ fifo₁ ps₁ on₁ f₁ in
      (s₂, fifo₂, ps₂, rw (e, calls) e₂, on₂)

-- The receiver of the firmware between two frames, with nothing sent yet.
abbrev pub IsReset : Wifi → Type 0
IsReset s = (s.status ≡ status_len) × (s.buf ≡ []) × (s.send_pbuf ≡ none) × (s.sent ≡ [])

-- The stack hands some IP packets to the driver, whose tty has room for all their frames. Whatever part
-- of the bytes written has come to the FIFO of a firmware between two frames, cut into chunks of at
-- most `uart_fifo_len` bytes anywhere, any number of calls of `uart2wifi`, with any answers of memory and
-- Wi-Fi interface, return, and the packets sent on are the first of those packets, whole and in
-- order.
pub xmitted-arrive :
    (ops : TtyOps) (skbs : List Skb) (d : NetDevice) (t : ops.Tty) (answers : List (Bool × Bool))
    (s : Wifi) (fifo : List Bytes) (more : Bytes)
    → AreSkbs skbs
    → ArePackets (packets skbs)
    → length (frames split_data (packets skbs)) ≤ ops.write_room t
    → ops.written t ≡ []
    → concat fifo ++ more ≡ ops.written (xmit_all ops skbs d t).2
    → FitsFifo fifo
    → IsReset s
    → (s' : Wifi) × (fifo' rest : List Bytes) × (calls answers s fifo ≡ leave s' fifo')
      × (s'.sent ++ rest ≡ packets skbs)
xmitted-arrive ops skbs d t answers s fifo more v ip room unwritten line f reset =
    let (_, e) = xmit_all-frames ops skbs d t v room in
    let (s', fifo', rest, r, on) =
      calls-OnWire (packets skbs) more answers s fifo (packets skbs)
        (record {
          valid = ip;
          packets = ap (λ x. x ++ packets skbs) reset.3;
          bytes =
              ap (λ x. x ++ (concat fifo ++ more)) reset.1
              ∙ line
              ∙ e
              ∙ ap (λ x. x ++ frames split_data (packets skbs)) unwritten;
          place = subst (λ t. Place t s.data_len (packets skbs)) (sym reset.0) tt;
          kept = subst (λ o. Kept o (packets skbs)) (sym reset.2) tt;
        })
        f in
    (s', fifo', rest, r, on.packets)

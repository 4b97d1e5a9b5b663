-- ===== src/Esp/Main/Safety.antt =====
-- What holds of every state that the firmware reaches: the main loop has an interface to send to, its
-- calls return, packet, zero_bytes, and no handler of an event writes behind a buffer.
use esp8266_hosted_linux.Base.{
  ap, zero, suc, length, ℕ, ◌≡◌, ◌≢◌, refl, sym, subst, arith, inl, inr, ◌⊎◌, Bool, true, false,
  List, [], Bytes, none, Option-cases,
}
use esp8266_hosted_linux.Frame.{max_frame_len, status_len}
use esp8266_hosted_linux.Esp.Uart.{Uart, FitsFifo}
use esp8266_hosted_linux.Esp.Config as Config
use esp8266_hosted_linux.Esp.Config.{recv_ssid, recv_passwd, recv_netif_info}
use esp8266_hosted_linux.Esp.Config.Bounds as ConfigBounds
use esp8266_hosted_linux.Esp.Config.Bounds.{Settles, config-Settles}
use esp8266_hosted_linux.Esp.Forward as Forward
use esp8266_hosted_linux.Esp.Forward.{uart2wifi}
use esp8266_hosted_linux.Esp.Forward.Bounds.{DataLen, Returns, uart2wifi-Returns}
use esp8266_hosted_linux.Esp.Send.{Sender, Event, recv, send, perform}
use esp8266_hosted_linux.Esp.Send.History as History
use esp8266_hosted_linux.Esp.Send.History.{Allowed, Adds, perform-Adds}
use esp8266_hosted_linux.Esp.Main.{
  packet, zero_bytes, Netif, Globals, Outcome, finished, waits, overflow, WifiEvent,
  wifi_event_handler, looping, dropping, Main, Step, init_failed, configured, event, take_semaphore,
  turn, leave_loop, drops, Reach, start, later,
}
use esp8266_hosted_linux.Esp.Main.Sound.{
  config_len, len_of_status, Sends, perform-Sends, Sound, OutcomeSound, wifi_event_handler-Sound,
}

abbrev MainSound : Main → Type 0
MainSound s = Sound (s.phase ≡ looping) s.globals

passwd_received :
    (u v : Uart) (fifo left : List Bytes) (p : Bytes)
    → u.status ≡ status_len
    → FitsFifo fifo
    → recv_passwd u fifo ≡ Config.done p v left
    → v.status ≡ status_len
passwd_received u v fifo left p st f e =
    subst Settles e
      (config-Settles u fifo (subst (λ t. ConfigBounds.DataLen t u.data_len) (sym st) tt) f [] 0
        (omega arith)).1

ssid_received :
    (u v : Uart) (fifo left : List Bytes) (p : Bytes)
    → DataLen u.status u.data_len
    → FitsFifo fifo
    → recv_ssid u fifo ≡ Config.done p v left
    → v.status ≡ status_len
ssid_received u v fifo left p d f e =
    subst Settles e (config-Settles u fifo (config_len _ _ d) f [] 0 (omega arith)).0

-- A state in which the main task does not loop.
elsewhere : (P Q : Type 0) (g : Globals) → (Q → ⊥) → Sound P g → Sound Q g
elsewhere P Q g away ok = (ok.0, ok.1, ok.2, ok.3, ok.4, λ h. absurd (away h))

link_down : (P : Type 0) (g : Globals) → Sound P g → Sound P (record g { gpio5 = true })
link_down P g ok = (ok.0, ok.1, ok.2, (λ h. ground arith), ok.4, ok.5)

not_looping : dropping ≢ looping
not_looping h = ground (arith, h)

Step-Sound : (s t : Main) → Step s t → MainSound s → MainSound t
Step-Sound s _ (init_failed p) ok =
    elsewhere _ _ (record (s.globals) { gpio5 = true }) not_looping (link_down _ s.globals ok)
Step-Sound s _ (configured ssid passwd u v fifo rest left p f f' e e') ok =
    let st =
      passwd_received u v rest left passwd
        (ssid_received s.globals.wifi.uart u fifo rest ssid ok.0 f e) f' e' in
    (len_of_status v.status v.data_len st, ok.1, ok.2, ok.3, ok.4, λ h. ground (arith, h))
Step-Sound s _ (event e netif_list counts fifo left g p f r) ok =
    subst (OutcomeSound (s.phase ≡ looping)) r
      (wifi_event_handler-Sound (s.phase ≡ looping) e netif_list counts s.globals fifo ok f)
Step-Sound s _ (take_semaphore p given) ok =
    (ok.0, ok.1, (λ h. ground (arith, h)), ok.3, ok.4, λ _. ok.2 given)
Step-Sound s _ (turn alloc output taken count fifo left w sender p on f r a e) ok =
    let h : Returns (Forward.leave w left) =
      subst Returns r (uart2wifi-Returns alloc output s.globals.wifi fifo ok.0 f) in
    (
      h.0,
      ok.1,
      ok.2,
      ok.3,
      perform-Sends (send taken count) s.globals.sender sender ok.4 a e,
      λ _. ok.5 p,
    )
Step-Sound s _ (packet taken fresh memory payload sender there a e) ok = (
  ok.0,
  ok.1,
  ok.2,
  ok.3,
  perform-Sends (recv taken fresh memory payload) s.globals.sender sender ok.4 a e,
  ok.5,
)
Step-Sound s _ (leave_loop p off) ok =
    elsewhere _ _ (record (s.globals) { gpio5 = true }) not_looping (link_down _ s.globals ok)
Step-Sound s _ (drops c p short) ok = (ok.0, ok.1, ok.2, ok.3, ok.4, λ h. absurd (not_looping h))

length-zero_bytes : (n : ℕ) → length (zero_bytes n) ≡ n
unfolding zero_bytes
length-zero_bytes zero = refl
length-zero_bytes (suc n) = ap suc (length-zero_bytes n)

Reach-Sound : (s : Main) → Reach s → MainSound s
Reach-Sound _ start = (
  tt,
  (λ h. ground (arith, h)),
  (λ h. ground (arith, h)),
  (λ h. ground (arith, h)),
  (
    [],
    History.start-IsSender (λ _. none) (zero_bytes max_frame_len) (length-zero_bytes max_frame_len),
  ),
  λ h. ground (arith, h),
)
Reach-Sound _ (later s t r step) = Step-Sound s t step (Reach-Sound s r)

-- A handler returns or waits.
abbrev pub NoOverflow : Outcome → Type 0
NoOverflow overflow = ⊥
NoOverflow _ = Unit

Sound-NoOverflow : (P : Type 0) (o : Outcome) → OutcomeSound P o → NoOverflow o
Sound-NoOverflow P (finished g fifo) ok = tt
Sound-NoOverflow P (waits g) ok = tt
Sound-NoOverflow P overflow ok = ok

-- Either an interface is known, or nothing needs one.
Sound-target :
    (P : Type 0) (g : Globals)
    → Sound P g
    → (g.target_wifi_netif ≢ none) ⊎ ((P → ⊥) × (g.run_flag ≡ false) × (g.gpio5 ≡ true))
Sound-target P g ok = elim (Option-cases g.target_wifi_netif) [
  | inl e ↦ inr ((λ p. ok.5 p e), ground (arith, ok.1, e), ground (arith, ok.3, e))
  | inr (n, e) ↦ inl (λ h. ground (arith, e, h))
]

perform-Sound : (e : Event) (s : Sender) → Sends s → Allowed e s → History.Returns (perform e s)
perform-Sound e s (ds, v) a = History.Adds-Returns e s ds (perform e s) (perform-Adds e s ds v a)

-- In every state that the firmware reaches from reset, by turns of its main loop, packets from lwIP and
-- events in any order: `target_wifi_netif` is not NULL, or the main task is not in its loop, `runFlag` is
-- 0 and GPIO 5 is high; with at most `uart_fifo_len` bytes in the FIFO at a time a call of `uart2wifi`
-- returns, whatever the FIFO brings and whatever answers it gets, and writes nothing behind the buffer,
-- and the handler of an event writes nothing behind the buffer either; and an allowed call of
-- `wifi2uart` or `uart_wifi_recv` returns, with no dangling pointer and no write behind the buffer.
pub Reach-Safe :
    (s : Main) (alloc output : Bool) (e : WifiEvent) (netif_list : List Netif) (counts : List ℕ)
    (fifo : List Bytes) (call : Event)
    → Reach s
    → FitsFifo fifo
    → Allowed call s.globals.sender
    → ((s.globals.target_wifi_netif ≢ none)
        ⊎ ((s.phase ≢ looping) × (s.globals.run_flag ≡ false) × (s.globals.gpio5 ≡ true)))
      × Returns (uart2wifi alloc output s.globals.wifi fifo)
      × NoOverflow (wifi_event_handler e netif_list counts s.globals fifo)
      × History.Returns (perform call s.globals.sender)
Reach-Safe s alloc output e netif_list counts fifo call r f a =
    let ok = Reach-Sound s r in
    (
      Sound-target _ s.globals ok,
      uart2wifi-Returns alloc output s.globals.wifi fifo ok.0 f,
      Sound-NoOverflow (s.phase ≡ looping) _
          (wifi_event_handler-Sound (s.phase ≡ looping) e netif_list counts s.globals fifo ok f),
      perform-Sound call s.globals.sender ok.4 a,
    )

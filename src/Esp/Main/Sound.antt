-- ===== src/Esp/Main/Sound.antt =====
-- What the handlers of events and the sender keep of the globals.
use esp8266_hosted_linux.Base.{
  ℕ, ◌≡◌, ◌≢◌, refl, sym, subst, arith, true, false, List, [], ◌∷◌, ◌++◌, Bytes, none, some,
}
use esp8266_hosted_linux.Frame.{Status, status_len, status_data, status_split}
use esp8266_hosted_linux.Esp.Uart.{FitsFifo}
use esp8266_hosted_linux.Esp.Config as Config
use esp8266_hosted_linux.Esp.Config.{recv_ssid, recv_passwd, recv_netif_info}
use esp8266_hosted_linux.Esp.Config.Bounds as ConfigBounds
use esp8266_hosted_linux.Esp.Config.Bounds.{Settles, config-Settles}
use esp8266_hosted_linux.Esp.Forward.Bounds.{DataLen}
use esp8266_hosted_linux.Esp.Send as Send
use esp8266_hosted_linux.Esp.Send.{Sender, Event, recv, send, perform, send_to_uart0_sync}
use esp8266_hosted_linux.Esp.Send.Stream.{IsSender}
use esp8266_hosted_linux.Esp.Send.History.{Allowed, Adds, perform-Adds}
use esp8266_hosted_linux.Esp.Main.{
  Netif, Globals, Outcome, finished, waits, overflow, info_block, find_netif, await_echo, handshake,
  start_hock, WifiEvent, sta_start, sta_connected, sta_disconnected, sta_authmode_change,
  other_event, got_ip, wifi_event_handler,
}

pub config_len : (t : Status) (w : ℕ) → DataLen t w → ConfigBounds.DataLen t w
config_len status_data w d = omega arith
config_len status_len w d = tt
config_len status_split w d = tt

forward_len : (t : Status) (w : ℕ) → ConfigBounds.DataLen t w → DataLen t w
forward_len status_data w d = omega arith
forward_len status_len w d = tt
forward_len status_split w d = tt

pub len_of_status : (t : Status) (w : ℕ) → t ≡ status_len → DataLen t w
len_of_status t w e = subst (λ t. DataLen t w) (sym e) tt

abbrev pub Sends : Sender → Type 0
Sends s = (ds : List Bytes) × IsSender s ds

pub perform-Sends :
    (e : Event) (s t : Sender) → Sends s → Allowed e s → perform e s ≡ Send.ok t → Sends t
perform-Sends e s t (ds, v) a p = let (new, ds', _, v', _) = adds in (ds', v')
  where
    adds : Adds e s ds (Send.ok t)
    adds = subst (Adds e s ds) p (perform-Adds e s ds v a)

-- The length that the receivers hold is in range, and an interface is known once `runFlag` has been
-- set, the semaphore has been given, GPIO 5 is low, or the main task loops; the sender holds a queue of
-- packets.
abbrev pub Sound : Type 0 → Globals → Type 0
Sound loops g =
    DataLen g.wifi.uart.status g.wifi.uart.data_len
    × (g.run_flag ≡ true → g.target_wifi_netif ≢ none)
    × (g.semaphore ≡ true → g.target_wifi_netif ≢ none)
    × (g.gpio5 ≡ false → g.target_wifi_netif ≢ none)
    × Sends g.sender
    × (loops → g.target_wifi_netif ≢ none)

module _ (loops : Type 0) where
  abbrev pub OutcomeSound : Outcome → Type 0
  OutcomeSound (finished g fifo) = Sound loops g
  OutcomeSound (waits g) = Sound loops g
  OutcomeSound overflow = ⊥

  await_echo-Sound :
      (n : Netif) (g : Globals) (fifo : List Bytes)
      → g.netif_info ≡ info_block n
      → Sound loops g
      → FitsFifo fifo
      → OutcomeSound (await_echo n g fifo)
  unfolding await_echo
  await_echo-Sound n g fifo e ok f =
      next _ refl
        (config-Settles g.wifi.uart fifo (config_len _ _ ok.0) f g.netif_info 15
          (rw e (omega arith))).2
    where
      next :
          (r : Config.Round)
          → recv_netif_info g.netif_info 15 g.wifi.uart fifo ≡ r
          → Settles r
          → OutcomeSound (await_echo n g fifo)
      next (Config.done p u left) e s =
          rw (e, OutcomeSound)
            (
              len_of_status _ _ s,
              (λ _ h. ground (arith, h)),
              (λ _ h. ground (arith, h)),
              (λ _ h. ground (arith, h)),
              ok.4,
              (λ _ h. ground (arith, h)),
            )
      next (Config.blocked u) e s =
          rw (e, OutcomeSound) (forward_len _ _ s, ok.1, ok.2, ok.3, ok.4, ok.5)
      next (Config.again u left) e s = absurd s
      next Config.overflow e s = absurd s
      next Config.no_fuel e s = absurd s

  handshake-Sound :
      (n : Netif) (counts : List ℕ) (g : Globals) (fifo : List Bytes)
      → g.netif_info ≡ info_block n
      → Sound loops g
      → FitsFifo fifo
      → OutcomeSound (handshake n counts g fifo)
  unfolding handshake
  handshake-Sound n counts g fifo e ok f =
      let g' = record g { sync_sent = g.sync_sent ++ (send_to_uart0_sync counts g.netif_info).0 } in
      elim (send_to_uart0_sync counts g.netif_info).1
        as (λ l. OutcomeSound (elim l [ [] ↦ await_echo n g' fifo | _ ∷ _ ↦ waits g' ])) [
          | [] ↦ await_echo-Sound n g' fifo e ok f
          | _ ∷ _ ↦ ok
        ]

  start_hock-Sound :
      (ip : ℕ) (netif_list : List Netif) (counts : List ℕ) (g : Globals) (fifo : List Bytes)
      → Sound loops g
      → FitsFifo fifo
      → OutcomeSound (start_hock ip netif_list counts g fifo)
  unfolding start_hock
  start_hock-Sound ip netif_list counts g fifo ok f =
      elim (find_netif ip netif_list)
        as (λ o. OutcomeSound (elim o [
          | none ↦ finished g fifo
          | some n ↦ handshake n counts (record g { netif_info = info_block n }) fifo
        ])) [
          | none ↦ ok
          | some n ↦
              handshake-Sound n counts (record g { netif_info = info_block n }) fifo refl ok f
        ]

  pub wifi_event_handler-Sound :
      (e : WifiEvent) (netif_list : List Netif) (counts : List ℕ) (g : Globals) (fifo : List Bytes)
      → Sound loops g
      → FitsFifo fifo
      → OutcomeSound (wifi_event_handler e netif_list counts g fifo)
  unfolding wifi_event_handler
  wifi_event_handler-Sound sta_start netif_list counts g fifo ok f = ok
  wifi_event_handler-Sound sta_connected netif_list counts g fifo ok f = ok
  wifi_event_handler-Sound sta_disconnected netif_list counts g fifo ok f = ground (arith, ok)
  wifi_event_handler-Sound sta_authmode_change netif_list counts g fifo ok f = ok
  wifi_event_handler-Sound other_event netif_list counts g fifo ok f = ok
  wifi_event_handler-Sound (got_ip ip) netif_list counts g fifo ok f =
      start_hock-Sound ip netif_list counts g fifo ok f

-- ===== src/Tests/Info.antt =====
-- The handshake of the addresses: the block of the address 192.168.1.7, on both sides.
use esp8266_hosted_linux.Base.{
  ℕ, zero, suc, ◌≤◌, ◌<◌, ◌≡◌, ◌⊎◌, refl, arith, true, false, List, [], ◌∷◌, ◌++◌, Bytes, take,
  drop, concat,
}
use esp8266_hosted_linux.Frame.{status_len, split_cmd, frame}
use esp8266_hosted_linux.Driver.Info.{
  Info, corrupted, no_fuel, ttyio_netif_info, LineDiscipline, took, receive_calls,
}
use esp8266_hosted_linux.Driver.Info.Accept.{Accepted, Unmoved, NonEmpty, receive_calls-Accepted}
use esp8266_hosted_linux.Driver.Info.Text.{numeral, lines_of, shown_text}
use esp8266_hosted_linux.Driver.Info.Bounds.{Bounded, ttyio_netif_info-Bounded}
use esp8266_hosted_linux.Driver.Info.Hang.{ttyio_netif_info-hangs}
use esp8266_hosted_linux.Tests.{fresh_receiver}

abbrev pub zeros : ℕ → Bytes
zeros zero = []
zeros (suc n) = 0 ∷ zeros n

abbrev pub no_info : Info
no_info = record {
  netif_info = zeros 64;
  netif_info_recv_len = 0;
  netif_info_vaild = false;
  writes = [];
  wakeups = 0;
}

abbrev pub waiting_line : LineDiscipline
waiting_line = record { attached = true; receiver = fresh_receiver; info = no_info }

abbrev pub some_addresses : Bytes
some_addresses = 192 ∷ 168 ∷ 1 ∷ 7 ∷ 255 ∷ 255 ∷ 255 ∷ 0 ∷ 192 ∷ 168 ∷ 1 ∷ 1 ∷ []

abbrev pub block : Bytes
block = 12 ∷ 0 ∷ (some_addresses ++ (170 ∷ []))

abbrev pub block_chunks : List Bytes
block_chunks = take 1 block ∷ take 9 (drop 1 block) ∷ drop 10 block ∷ []

abbrev pub chunks-NonEmpty : NonEmpty block_chunks
chunks-NonEmpty = (omega arith, (omega arith, (omega arith, tt)))

block_whole : concat block_chunks ≡ frame split_cmd some_addresses
unfolding frame
block_whole = refl

receive_calls-Accepted_example :
    (n : ℕ) × (d' : LineDiscipline) × (receive_calls (λ _. true) 16 waiting_line block_chunks
      ≡ took n d')
    × (d'.attached ≡ true)
    × Accepted some_addresses refl no_info d'.info
    × Unmoved some_addresses refl fresh_receiver d'.receiver
receive_calls-Accepted_example =
    receive_calls-Accepted some_addresses refl (λ _. true) 16 block_chunks waiting_line
      (omega arith) chunks-NonEmpty block_whole refl refl refl refl refl

-- "192.168.1.7", "255.255.255.0", "192.168.1.1"
some_addresses_text :
    shown_text some_addresses
    ≡ 49 ∷ 57 ∷ 50 ∷ 46 ∷ 49 ∷ 54 ∷ 56 ∷ 46 ∷ 49 ∷ 46 ∷ 55 ∷ 10 ∷ 50 ∷ 53 ∷ 53 ∷ 46 ∷ 50 ∷ 53 ∷ 53
      ∷ 46 ∷ 50 ∷ 53 ∷ 53 ∷ 46 ∷ 48 ∷ 10 ∷ 49 ∷ 57 ∷ 50 ∷ 46 ∷ 49 ∷ 54 ∷ 56 ∷ 46 ∷ 49 ∷ 46 ∷ 49 ∷ 10
      ∷ []
unfolding lines_of numeral
some_addresses_text = refl

-- A length of 12 + 256, with its low byte first
ttyio_netif_info-hangs_example :
    ((14 ≤ 819) × (ttyio_netif_info 1000 status_len no_info (12 ∷ 1 ∷ some_addresses) ≡ no_fuel))
    ⊎ ((819 < 14)
        × (ttyio_netif_info 1000 status_len no_info (12 ∷ 1 ∷ some_addresses) ≡ corrupted))
ttyio_netif_info-hangs_example =
    ttyio_netif_info-hangs no_info 1 some_addresses (omega arith) (λ h. ground (arith, h)) 1000 refl
      (omega arith)

ttyio_netif_info-Bounded_example : Bounded 16 (ttyio_netif_info 20 status_len no_info (7 ∷ block))
ttyio_netif_info-Bounded_example =
    ttyio_netif_info-Bounded status_len no_info (record { size = refl; block = omega arith })
      (7 ∷ block) 20

-- ===== src/Tests/Dump.antt =====
-- The dumps on three bytes, with arrays of zeros.
use esp8266_hosted_linux.Base.{ℕ, zero, suc, ◌<◌, ◌≤◌, ◌≡◌, ◌⊎◌, ap, refl, [], ◌∷◌, length}
use esp8266_hosted_linux.Dump.{dump, wifi_send_dump, out_of_bounds, output_size, wifi_output_size}
use esp8266_hosted_linux.Dump.Hex.{dumps-Shows}
use esp8266_hosted_linux.Dump.Text.{hex, Shows}
use esp8266_hosted_linux.Tests.Info.{zeros}

length-zeros : (n : ℕ) → length (zeros n) ≡ n
length-zeros zero = refl
length-zeros (suc n) = ap suc (length-zeros n)

dumps-Shows_example :
    (((3 ≤ 819)
        × Shows output_size 3 (hex (1 ∷ 171 ∷ 0 ∷ [])) (dump (1 ∷ 171 ∷ 0 ∷ []) (zeros 4096)))
      ⊎ ((819 < 3) × (dump (1 ∷ 171 ∷ 0 ∷ []) (zeros 4096) ≡ out_of_bounds)))
    × Shows wifi_output_size 3
        (hex (1 ∷ 171 ∷ 0 ∷ []))
        (wifi_send_dump (1 ∷ 171 ∷ 0 ∷ []) (zeros 7516))
dumps-Shows_example =
    dumps-Shows (1 ∷ 171 ∷ 0 ∷ []) (zeros 4096) (zeros 7516) (length-zeros 4096) (length-zeros 7516)

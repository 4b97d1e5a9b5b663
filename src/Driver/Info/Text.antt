-- ===== src/Driver/Info/Text.antt =====
-- The text that transform_netif_info of uart_wifi_driver/uart.c prints, against three lines of four numbers.
use esp8266_hosted_linux.Base.{
  ℕ, zero, suc, ◌+◌, ◌/◌, ◌%◌, ◌≡◌, refl, sym, ap, ap₂, ◌∙◌, arith, inl, inr, [], ◌∷◌, ◌++◌, Bytes,
  length, take, drop, get_or, poke, poke-behind, ltb, Bool-cases, length-append, length-take,
  length-drop, append_assoc, append-nil, take-append-drop, drop-append, if◌then◌else◌,
}
use esp8266_hosted_linux.Frame.{split_cmd, frame}
use esp8266_hosted_linux.Frame.Parse.{length-frame}
use esp8266_hosted_linux.Driver.Info.{
  netif_info_size, Info, decimal, dotted, addresses_text, transform_netif_info,
  str_show_connect_info,
}

-- A number with at most `more + 1` decimal digits, in ASCII.
unfoldable pub numeral : ℕ → ℕ → Bytes
numeral zero n = (48 + n) ∷ []
numeral (suc more) n =
    let front = numeral more (n / 10) in
    if ltb n 10 then (48 + n) ∷ [] else front ++ ((48 + n % 10) ∷ [])

-- Bytes as numbers, with a dot behind each, but a line end where a group of four is full; `left` are still
-- missing in the first group behind its first number.
unfoldable pub lines_of : ℕ → Bytes → Bytes
unfolding numeral
lines_of left [] = []
lines_of zero (b ∷ bs) = numeral 2 b ++ (10 ∷ lines_of 3 bs)
lines_of (suc left) (b ∷ bs) = numeral 2 b ++ (46 ∷ lines_of left bs)

decimal-numeral : (n : ℕ) → decimal n ≡ numeral 2 n
unfolding numeral
decimal-numeral n = elim (Bool-cases (ltb n 10)) [
  | inl e ↦ ground arith
  | inr e ↦ elim (Bool-cases (ltb n 100)) [ inl f ↦ ground arith | inr f ↦ ground arith ]
]

-- `k` bytes from `i` on, as the code reads them one by one.
abbrev read : ℕ → ℕ → Bytes → Bytes
read zero i xs = []
read (suc k) i xs = get_or xs i 0 ∷ read k (suc i) xs

read-later : (k i x : ℕ) (xs : Bytes) → read k (suc i) (x ∷ xs) ≡ read k i xs
read-later zero i x xs = refl
read-later (suc k) i x xs = ap (λ l. get_or xs i 0 ∷ l) (read-later k (suc i) x xs)

read-whole : (xs more : Bytes) → read (length xs) 0 (xs ++ more) ≡ xs
read-whole [] more = refl
read-whole (x ∷ xs) more =
    ap (λ l. x ∷ l) (read-later (length xs) 0 x (xs ++ more) ∙ read-whole xs more)

-- Four numbers and their line
four :
    (a b c d : ℕ) (more : Bytes)
    → (decimal a ++ (46 ∷ (decimal b ++ (46 ∷ (decimal c ++ (46 ∷ (decimal d ++ (10 ∷ []))))))))
        ++ lines_of 3 more
      ≡ lines_of 3 (a ∷ b ∷ c ∷ d ∷ more)
unfolding lines_of
four a b c d more =
    rw (decimal-numeral a, decimal-numeral b, decimal-numeral c, decimal-numeral d)
      (simp append_assoc refl)

addresses_text-read : (buf : Bytes) → addresses_text buf ≡ lines_of 3 (read 12 2 buf)
unfolding addresses_text dotted lines_of
addresses_text-read buf =
    let at = λ (i : ℕ). get_or buf i 0 in
    ap (λ l. dotted buf 2 ++ (dotted buf 6 ++ l))
      (sym (append-nil (dotted buf 10)) ∙ four (at 10) (at 11) (at 12) (at 13) [])
    ∙ ap (λ l. dotted buf 2 ++ l)
        (four (at 6) (at 7) (at 8) (at 9) (at 10 ∷ at 11 ∷ at 12 ∷ at 13 ∷ []))
    ∙ four (at 2) (at 3) (at 4) (at 5)
        (at 6 ∷ at 7 ∷ at 8 ∷ at 9 ∷ at 10 ∷ at 11 ∷ at 12 ∷ at 13 ∷ [])

-- The text that a file of 48 bytes has room for, with the NUL behind it
abbrev pub shown_text : Bytes → Bytes
shown_text addresses = take 47 (lines_of 3 addresses)

-- Behind the block stand the three lines, of which at most 47 bytes, and a NUL; a read of the file gives
-- them, and what the array has behind them up to 48 bytes.
pub record Printed (addresses array : Bytes) (s : Info) : Type 0 where
  pub kept :
      s.netif_info
      ≡ frame split_cmd addresses
        ++ (shown_text addresses ++ (0 ∷ drop (length (shown_text addresses) + 1) (drop 15 array)))
  pub shown :
      str_show_connect_info s
      ≡ take 48
          (shown_text addresses ++ (0 ∷ drop (length (shown_text addresses) + 1) (drop 15 array)))

module _ (addresses array : Bytes) (twelve : length addresses ≡ 12)
    (front : take 15 array ≡ frame split_cmd addresses) where
  whole : array ≡ frame split_cmd addresses ++ drop 15 array
  whole = sym (take-append-drop 15 array) ∙ ap (λ l. l ++ drop 15 array) front

  text-whole : addresses_text array ≡ lines_of 3 addresses
  unfolding frame
  text-whole =
      let lo = length addresses % 256 in
      let hi = length addresses / 256 % 256 in
      let body = (addresses ++ (split_cmd ∷ [])) ++ drop 15 array in
      addresses_text-read array
      ∙ ap (λ l. lines_of 3 (read 12 2 l)) whole
      ∙ ap (lines_of 3) (
          read-later 12 1 lo (hi ∷ body)
          ∙ read-later 12 0 hi body
          ∙ ap (read 12 0) (append_assoc addresses (split_cmd ∷ []) (drop 15 array))
          ∙ ap (λ k. read k 0 (addresses ++ (split_cmd ∷ drop 15 array))) (sym twelve)
          ∙ read-whole addresses (split_cmd ∷ drop 15 array))

  length-block : length (frame split_cmd addresses) ≡ 15
  length-block = length-frame split_cmd addresses ∙ ap (λ n. n + 3) twelve

  transform_netif_info-kept :
      length array ≡ netif_info_size
      → transform_netif_info array
        ≡ frame split_cmd addresses
          ++ (shown_text addresses
              ++ (0 ∷ drop (length (shown_text addresses) + 1) (drop 15 array)))
  unfolding transform_netif_info
  transform_netif_info-kept size =
      let text = shown_text addresses in
      let line = text ++ (0 ∷ []) in
      let rest = drop 15 array in
      let n : length line ≡ length text + 1 = length-append text (0 ∷ []) in
      ap₂ (λ t a. poke 15 (take 47 t ++ (0 ∷ [])) a) text-whole whole
      ∙ poke-behind 15 (frame split_cmd addresses) line rest (sym length-block)
          (omega (arith, n, size, length-take 47 (lines_of 3 addresses), length-drop 15 array))
      ∙ ap (λ k. frame split_cmd addresses ++ (line ++ drop k rest)) n
      ∙ ap (λ l. frame split_cmd addresses ++ l) (append_assoc text (0 ∷ []) _)

  pub transform_netif_info-Printed :
      (s : Info)
      → length array ≡ netif_info_size
      → s.netif_info ≡ transform_netif_info array
      → Printed addresses array s
  unfolding str_show_connect_info
  transform_netif_info-Printed s size e =
      let kept = e ∙ transform_netif_info-kept size in
      record {
        kept = kept;
        shown =
            ap (λ a. take 48 (drop 15 a)) kept
            ∙ ap (take 48) (drop-append (frame split_cmd addresses) _ 15 (sym length-block));
      }

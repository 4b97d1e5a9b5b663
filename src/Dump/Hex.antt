-- ===== src/Dump/Hex.antt =====
-- The dumps against the text that they are to show.
use esp8266_hosted_linux.Base.{
  ℕ, zero, suc, ◌+◌, ◌-◌, ◌≤◌, ◌<◌, ◌≡◌, ◌≢◌, ◌⊎◌, true, false, inl, inr, refl, ap, ◌∙◌, arith, [],
  ◌∷◌, ◌++◌, Bytes, length, take, drop, ltb, length-append, take-nil, ge→ltb, lt→ltb, ltb→ge,
  ltb→lt, Bool-cases,
}
use esp8266_hosted_linux.Dump.{
  out_of_bounds, dump_overflows, hex_byte, snprintf, finish, output_size, dump_from, dump,
  wifi_output_size, wifi_dump_from, wifi_send_dump,
}
use esp8266_hosted_linux.Dump.Text.{
  hex, Filled, Filled-next, Shows, finish-none, snprintf-byte, logged-same, length-snprintf, le→leb,
  gt→leb, from_zero, dump_overflows-false, dump_overflows-true,
}

pub dump-Shows :
    (buf : Bytes) (i n : ℕ) (a more : Bytes)
    → Filled output_size i n a more
    → i + length buf ≤ 819
    → Shows output_size (i + length buf) (a ++ hex buf) (dump_from buf i n (a ++ more))
unfolding dump_from hex
dump-Shows [] i n a more f short = finish-none output_size i n a more f (omega (arith, f))
dump-Shows (b ∷ buf) i n a more f short =
    let room : 5 < length more = omega (arith, f) in
    let next = dump_from buf (i + 1) (n + 5) in
    let (output, e, l) =
      dump-Shows buf (i + 1) (n + 5) (a ++ hex_byte b) (0 ∷ drop 6 more)
        (Filled-next output_size i n b a more f room) (omega (arith, short)) in
    (
      output,
      rw (ge→ltb (length (a ++ more)) n (omega (arith, f.1, length-append a more)))
          (ap next (snprintf-byte n b a more f.0 f.1 room) ∙ e ∙ logged-same i b a buf output),
      l,
    )

-- Behind the end of the array nothing is shown any more.
dump-past :
    (buf : Bytes) (i n : ℕ) (output : Bytes)
    → length output < n
    → dump_from buf i n output ≡ out_of_bounds
unfolding dump_from finish
dump-past [] i n output h = rw (ge→ltb n (length output) (omega arith)) refl
dump-past (b ∷ buf) i n output h =
    rw (lt→ltb (length output) n h, ge→ltb n (length output) (omega arith)) refl

dump-overflows :
    (buf : Bytes) (i n : ℕ) (a more : Bytes)
    → Filled output_size i n a more
    → 819 < i + length buf
    → dump_from buf i n (a ++ more) ≡ out_of_bounds
unfolding dump_from
dump-overflows [] i n a more f long = absurd (omega (arith, f))
dump-overflows (b ∷ buf) i n a more f long =
    let next = dump_from buf (i + 1) (n + 5) in
    let output = a ++ more in
    let l = length-append a more in
    rw (ge→ltb (length output) n (omega (arith, f.1, l))) (elim (Bool-cases (ltb i 819)) [
      | inl e ↦
          let room : 5 < length more = omega (arith, f, ltb→lt i 819 e) in
          ap next (snprintf-byte n b a more f.0 f.1 room)
          ∙ dump-overflows buf (i + 1) (n + 5) (a ++ hex_byte b) (0 ∷ drop 6 more)
              (Filled-next output_size i n b a more f room) (omega (arith, long))
      | inr e ↦ dump-past buf (i + 1) (n + 5) (snprintf n (hex_byte b) output) (
          omega (
            arith,
            f,
            l,
            ltb→ge i 819 e,
            length-snprintf n (hex_byte b) output (omega (arith, f.1, l)),
          ))
    ])

-- 7516 bytes have room for 1503 bytes and a NUL; `k` is how many are still taken.
wifi_dump-Shows :
    (ptr : Bytes) (k i n : ℕ) (a more : Bytes)
    → Filled wifi_output_size i n a more
    → k + i ≡ 1503
    → Shows wifi_output_size
        (i + length (take k ptr))
        (a ++ hex (take k ptr))
        (wifi_dump_from ptr i n (a ++ more))
unfolding wifi_dump_from hex
wifi_dump-Shows [] k i n a more f h =
    rw (take-nil ℕ k) (finish-none wifi_output_size i n a more f (omega (arith, f, h)))
wifi_dump-Shows (b ∷ ptr) zero i n a more f h =
    rw (le→leb (length (a ++ more) - 5) n (omega (arith, f, h, length-append a more)))
      (finish-none wifi_output_size i n a more f (omega (arith, f, h)))
wifi_dump-Shows (b ∷ ptr) (suc k) i n a more f h =
    let room : 5 < length more = omega (arith, f, h) in
    let next = wifi_dump_from ptr (i + 1) (n + 5) in
    let (output, e, l) =
      wifi_dump-Shows ptr k (i + 1) (n + 5) (a ++ hex_byte b) (0 ∷ drop 6 more)
        (Filled-next wifi_output_size i n b a more f room) (omega (arith, h)) in
    (
      output,
      rw (gt→leb (length (a ++ more) - 5) n (omega (arith, f, h, length-append a more))) (
          ap next (snprintf-byte n b a more f.0 f.1 room)
          ∙ e
          ∙ logged-same i b a (take k ptr) output),
      l,
    )

-- Whatever was in the array of 4096 bytes, `dump` of at most 819 bytes logs all of them in hexadecimal,
-- and with more it writes behind the array. Whatever was in the array of 7516 bytes, `wifi_send_dump`
-- logs the first 1503 of its bytes in hexadecimal, or all if there are fewer. A log line ends at the
-- first NUL of the array, and the array keeps its size.
pub dumps-Shows :
    (buf output wifi_output : Bytes)
    → length output ≡ output_size
    → length wifi_output ≡ wifi_output_size
    → (((length buf ≤ 819) × Shows output_size (length buf) (hex buf) (dump buf output))
        ⊎ ((819 < length buf) × (dump buf output ≡ out_of_bounds)))
      × Shows wifi_output_size
          (length (take 1503 buf))
          (hex (take 1503 buf))
          (wifi_send_dump buf wifi_output)
unfolding dump wifi_send_dump
dumps-Shows buf output wifi_output size wifi_size = (
  elim (Bool-cases (ltb 819 (length buf))) [
    | inl e ↦ inr (
      ltb→lt 819 (length buf) e,
      dump-overflows buf 0 0 [] output (tt, omega arith, omega arith, omega (arith, size))
          (omega (arith, ltb→lt 819 (length buf) e)),
    )
    | inr e ↦ inl (
      ltb→ge 819 (length buf) e,
      from_zero _ _ _ _ (
          dump-Shows buf 0 0 [] output (tt, omega arith, omega arith, omega (arith, size))
            (omega (arith, ltb→ge 819 (length buf) e))),
    )
  ],
  from_zero _ _ _ _ (
      wifi_dump-Shows buf 1503 0 0 [] wifi_output
        (tt, omega arith, omega arith, omega (arith, wifi_size)) (omega arith)),
)

-- `dump_overflows` tells for every array whether `dump` writes behind it.
dump-dump_overflows :
    (buf output : Bytes)
    → length output ≡ output_size
    → ((dump buf output ≡ out_of_bounds) × (dump_overflows buf ≡ true))
      ⊎ ((dump buf output ≢ out_of_bounds) × (dump_overflows buf ≡ false))
unfolding dump
dump-dump_overflows buf output size =
    let f : Filled output_size 0 0 [] output =
      (tt, omega arith, omega arith, omega (arith, size)) in
    elim (Bool-cases (ltb 819 (length buf))) [
      | inl e ↦
          let long = ltb→lt 819 (length buf) e in
          inl
            (dump-overflows buf 0 0 [] output f (omega (arith, long)), dump_overflows-true buf long)
      | inr e ↦
          let short = ltb→ge 819 (length buf) e in
          let (_, shown, _) = dump-Shows buf 0 0 [] output f (omega (arith, short)) in
          inr ((λ h. ground (arith, shown, h)), dump_overflows-false buf short)
    ]

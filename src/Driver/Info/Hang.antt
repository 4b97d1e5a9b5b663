-- ===== src/Driver/Info/Hang.antt =====
-- A block that begins with 12 and is no good: `ttyio_netif_info` finds the same 12 again and again.
use esp8266_hosted_linux.Base.{
  ℕ, zero, suc, ◌+◌, ◌-◌, ◌*◌, ◌≤◌, ◌<◌, min, ◌≡◌, ◌≢◌, refl, sym, subst, arith, [], ◌∷◌, Bytes,
  length, poke, ne→==, ◌⊎◌, inl, inr, ltb, ltb→lt, ltb→ge, Bool-cases,
}
use esp8266_hosted_linux.Dump.Text.{dump_overflows-false, dump_overflows-true}
use esp8266_hosted_linux.Frame.{Status, status_len, status_split}
use esp8266_hosted_linux.Driver.Info.{
  Info, Rx, restart, corrupted, no_fuel, index_of, fill, shift, step_split, bad_length, step_len,
  step, run, entry, ttyio_netif_info,
}

-- At `restart:` with two bytes, of which the first is 12.
abbrev stuck : ℕ → Bytes → Status → ℕ → ℕ → ℕ → Rx
stuck x r t data_len processed surplus = record {
  netif_info = 12 ∷ x ∷ r;
  status = t;
  recv_len = 2;
  data_len = data_len;
  processed = processed;
  surplus = surplus;
}

module _ (stored : Status) (s : Info) (cp : Bytes) (x : ℕ) (r : Bytes) (pos : 0 < x)
    (ne : x ≢ 12) where
  step-lost :
      (w n k : ℕ)
      → step status_len cp (stuck x r status_len w n k)
        ≡ restart (stuck x r status_split (12 + 256 * x) n k)
  unfolding step step_len bad_length index_of
  step-lost w n k = rw (ne→== (12 + 256 * x) 12 (omega arith), ne→== x 12 ne) refl

  step-found :
      (w n k : ℕ)
      → step status_split cp (stuck x r status_split w n k) ≡ restart (stuck x r status_len w n k)
  unfolding step step_split index_of shift poke
  step-found w n k = refl

  run-restart :
      (fuel : ℕ) (m m' : Rx)
      → step m.status cp m ≡ restart m'
      → run fuel stored s cp m' ≡ no_fuel
      → run (suc fuel) stored s cp m ≡ no_fuel
  unfolding run
  run-restart fuel m m' e h = rw (e, run) h

  -- No fuel is enough: two rounds lead back to the same bytes.
  run-stuck :
      (fuel w n k : ℕ)
      → (run fuel stored s cp (stuck x r status_len w n k) ≡ no_fuel)
        × (run fuel stored s cp (stuck x r status_split w n k) ≡ no_fuel)
  unfolding run
  run-stuck zero w n k = (refl, refl)
  run-stuck (suc fuel) w n k = (
    run-restart fuel (stuck x r status_len w n k) (stuck x r status_split (12 + 256 * x) n k)
        (step-lost w n k) (run-stuck fuel (12 + 256 * x) n k).1,
    run-restart fuel (stuck x r status_split w n k) (stuck x r status_len w n k) (step-found w n k)
        (run-stuck fuel w n k).0,
  )

module _ (s : Info) (x : ℕ) (rest : Bytes) (pos : 0 < x) (ne : x ≢ 12) where
  abbrev started : Bytes → ℕ → Rx
  started arr n = record (entry status_len s (12 ∷ x ∷ rest)) { netif_info = arr; recv_len = n }

  step-started :
      (a b : ℕ) (r : Bytes)
      → step status_len (12 ∷ x ∷ rest) (started (a ∷ b ∷ r) 0)
        ≡ restart (stuck x r status_len 12 2 (length (12 ∷ x ∷ rest) - 2))
  unfolding step step_len fill poke
  step-started a b r =
      let e : min (length (12 ∷ x ∷ rest)) 2 ≡ 2 = omega arith in
      rw (ne→== (length (12 ∷ x ∷ rest)) 0 (omega arith), e) refl

  run-started :
      (fuel : ℕ) (arr : Bytes)
      → 2 ≤ length arr
      → run fuel status_len s (12 ∷ x ∷ rest) (started arr 0) ≡ no_fuel
  unfolding run
  run-started zero arr size = refl
  run-started (suc fuel) [] size = absurd (omega arith)
  run-started (suc fuel) (a ∷ []) size = absurd (omega arith)
  run-started (suc fuel) (a ∷ b ∷ r) size =
      let cp = 12 ∷ x ∷ rest in
      run-restart status_len s cp x r pos ne fuel (started (a ∷ b ∷ r) 0)
        (stuck x r status_len 12 2 (length cp - 2)) (step-started a b r)
        (run-stuck status_len s cp x r pos ne fuel 12 2 (length cp - 2)).0

  -- A receiver of addresses that has nothing yet gets a chunk whose first byte is 12 and whose second
  -- is neither 0 nor 12. The call never returns: with at most 819 bytes in the chunk it is not done after any
  -- number of rounds, and with more the dump of the chunk writes behind its array.
  pub ttyio_netif_info-hangs :
      (fuel : ℕ)
      → s.netif_info_recv_len ≡ 0
      → 2 ≤ length s.netif_info
      → ((length (12 ∷ x ∷ rest) ≤ 819)
          × (ttyio_netif_info fuel status_len s (12 ∷ x ∷ rest) ≡ no_fuel))
        ⊎ ((819 < length (12 ∷ x ∷ rest))
            × (ttyio_netif_info fuel status_len s (12 ∷ x ∷ rest) ≡ corrupted))
  unfolding ttyio_netif_info
  ttyio_netif_info-hangs fuel none_yet size =
      let cp = 12 ∷ x ∷ rest in
      elim (Bool-cases (ltb 819 (length cp))) [
        | inl e ↦
            let long = ltb→lt 819 (length cp) e in inr (long, rw (dump_overflows-true cp long) refl)
        | inr e ↦
            let short = ltb→ge 819 (length cp) e in
            inl (
              short,
              rw (dump_overflows-false cp short) (
                  subst (λ n. run fuel status_len s cp (started s.netif_info n) ≡ no_fuel)
                    (sym none_yet) (run-started fuel s.netif_info size)),
            )
      ]

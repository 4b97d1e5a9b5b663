-- ===== src/Driver/Receive/Resync.antt =====
-- `ttyio_receive_data` after an error: the search for a split byte in the chunk.
use esp8266_hosted_linux.Base.{
  ℕ, suc, ◌+◌, ◌-◌, ◌*◌, ◌≤◌, ◌<◌, ◌≡◌, ◌≢◌, refl, sym, ap, ◌∙◌, arith, Bool, true, some, List, [],
  ◌∷◌, ◌++◌, Bytes, length, drop, ltb, length-append, drop-append, append_assoc, append-nil, ◌⊎◌,
  inl, inr, ltb→lt, ltb→ge, Bool-cases,
}
use esp8266_hosted_linux.Frame.{
  status_len, status_split, split_data, mtu_len, out_of_range, skip_past, frames, ArePackets,
}
use esp8266_hosted_linux.Driver.Receive.{
  Receiver, Outcome, returned, corrupted, no_fuel, step_split, step_len, step, run, rounds, entry,
  receive_with, receive_data,
}
use esp8266_hosted_linux.Driver.Receive.Stream.{IsIdle, Took, run-Took, finished}
use esp8266_hosted_linux.Driver.Receive.Search.{
  NoSplit, run-restart, run-overrun, behind, skip_chunk-dumped, step-behind, fill-whole,
  NoSplit-pair, skip_chunk-overrun, step_split-chunk,
}

module _ (can_alloc : ℕ → Bool) (always : (n : ℕ) → can_alloc n ≡ true) where
  Took-IsIdle :
      (total : List Bytes) (count : ℕ) (r : Outcome)
      → Took total [] count r
      → (s' : Receiver) × (r ≡ returned count s') × (s'.packets ≡ total) × IsIdle s'
  Took-IsIdle total count (returned n s') (e, w) =
      let f = finished total s' s'.recv_skb w in (s', ap (λ n. returned n s') e, f.0, f.1)
  Took-IsIdle total count corrupted t = absurd t
  Took-IsIdle total count no_fuel t = absurd t

  dumped :
      (s : Receiver) (junk rest : Bytes)
      → s.recv_skb ≡ some []
      → s.uart_recv_status ≡ status_split
      → NoSplit junk
      → 819 < length (junk ++ (split_data ∷ rest))
      → receive_data can_alloc s (junk ++ (split_data ∷ rest)) ≡ corrupted
  unfolding receive_data receive_with step step_split skip_past
  dumped s junk rest none_held st none_in long =
      let cp = junk ++ (split_data ∷ rest) in
      let m = entry [] s cp in
      let f = 4 * length cp + 1 in
      let fuel : rounds m ≡ suc f = omega arith in
      ap (λ o. receive_with can_alloc o s cp) none_held
      ∙ ap (λ f. run can_alloc f cp m) fuel
      ∙ run-overrun can_alloc cp f m
          (ap (λ t. step can_alloc t cp m) st ∙ skip_chunk-dumped cp junk rest m refl none_in long)

  recovered :
      (s : Receiver) (junk : Bytes) (ps : List Bytes)
      → s.recv_skb ≡ some []
      → s.uart_recv_status ≡ status_split
      → NoSplit junk
      → ArePackets ps
      → length (junk ++ (split_data ∷ frames split_data ps)) ≤ 819
      → let cp = junk ++ (split_data ∷ frames split_data ps) in
        (s' : Receiver) × (receive_data can_alloc s cp ≡ returned (length cp) s')
        × (s'.packets ≡ s.packets ++ ps)
        × IsIdle s'
  unfolding receive_data receive_with
  recovered s junk ps none_held st none_in v short =
      let fr = frames split_data ps in
      let cp = junk ++ (split_data ∷ fr) in
      let m = entry [] s cp in
      let m' = behind (length cp) (length junk + 1) m in
      let n : length cp ≡ length junk + 1 + length fr =
        omega (arith, length-append junk (split_data ∷ fr)) in
      let fuel : rounds m ≡ suc (4 * length cp + 1) = omega arith in
      let rest : drop (0 + (0 + (length junk + 1))) cp ≡ fr =
        ap (drop (0 + (0 + (length junk + 1)))) (sym (append_assoc junk (split_data ∷ []) fr))
        ∙ drop-append (junk ++ (split_data ∷ [])) fr (0 + (0 + (length junk + 1)))
            (omega (arith, length-append junk (split_data ∷ []))) in
      let took =
        run-Took can_alloc always (s.packets ++ ps) cp [] (4 * length cp + 1) m' ps
          (record { room = omega arith; range = tt; balance = omega (arith, n) }) (omega (arith, n))
          (record {
            valid = v;
            packets = refl;
            bytes = ap (λ x. x ++ []) rest ∙ append-nil fr;
            place = omega arith;
          }) in
      let (s', e, p, i) = Took-IsIdle (s.packets ++ ps) (length cp) _ took in
      (
        s',
        ap (λ o. receive_with can_alloc o s cp) none_held
            ∙ ap (λ f. run can_alloc f cp m) fuel
            ∙ run-restart can_alloc cp (4 * length cp + 1) m m'
                (step-behind can_alloc s junk fr st none_in short)
            ∙ e,
        p,
        i,
      )

  -- A receiver that looks for a split byte with an empty skb, gets a chunk of any bytes without one, a
  -- split byte, and the frames of some packets. If every skb can be had and the chunk has at most 819
  -- bytes, the call delivers exactly these packets, takes the whole chunk, and leaves the receiver between
  -- two frames; with a longer chunk its dump writes behind the array of 4096 bytes.
  pub receive_data-recovers :
      (s : Receiver) (junk : Bytes) (ps : List Bytes)
      → s.recv_skb ≡ some []
      → s.uart_recv_status ≡ status_split
      → NoSplit junk
      → ArePackets ps
      → let cp = junk ++ (split_data ∷ frames split_data ps) in
        ((length cp ≤ 819)
          × (s' : Receiver) × (receive_data can_alloc s cp ≡ returned (length cp) s')
          × (s'.packets ≡ s.packets ++ ps)
          × IsIdle s')
        ⊎ ((819 < length cp) × (receive_data can_alloc s cp ≡ corrupted))
  receive_data-recovers s junk ps none_held st none_in v =
      let cp = junk ++ (split_data ∷ frames split_data ps) in
      elim (Bool-cases (ltb 819 (length cp))) [
        | inl e ↦
            let long = ltb→lt 819 (length cp) e in
            inr (long, dumped s junk (frames split_data ps) none_held st none_in long)
        | inr e ↦
            let short = ltb→ge 819 (length cp) e in
            let (s', r, p, i) = recovered s junk ps none_held st none_in v short in
            inl (short, s', r, p, i)
      ]

-- An idle receiver reads a length that is out of range, in two bytes that are not split bytes; then come
-- bytes with no split byte, a split byte, and at most one byte. `skip` is counted from the start of
-- the chunk and added to what has been processed, so `surplus` falls below zero and the next copy has
-- a negative length. A chunk of more than 819 bytes has been dumped behind an array before that.
pub receive_data-overruns :
    (can_alloc : ℕ → Bool) (s : Receiver) (lo hi : ℕ) (junk tail : Bytes)
    → s.recv_skb ≡ some []
    → s.uart_recv_status ≡ status_len
    → lo ≢ split_data
    → hi ≢ split_data
    → out_of_range 20 mtu_len (lo + 256 * hi) ≡ true
    → NoSplit junk
    → length tail < 2
    → receive_data can_alloc s (lo ∷ hi ∷ (junk ++ (split_data ∷ tail))) ≡ corrupted
unfolding receive_data receive_with step step_len
receive_data-overruns can_alloc s lo hi junk tail none_held st l h bad none_in short =
    let cp = lo ∷ hi ∷ (junk ++ (split_data ∷ tail)) in
    let m = entry [] s cp in
    let n : length cp ≡ 3 + length junk + length tail =
      omega (arith, length-append junk (split_data ∷ tail)) in
    let m₁ = record m { skb = lo ∷ hi ∷ []; surplus = length cp - 2; processed = 2 } in
    let m₂ = record m₁ { data_len = lo + 256 * hi; status = status_split } in
    let f = 4 * length cp - 1 in
    let fuel : rounds m ≡ suc (suc (suc f)) = omega (arith, n) in
    ap (λ o. receive_with can_alloc o s cp) none_held
    ∙ ap (λ f. run can_alloc f cp m) fuel
    ∙ run-restart can_alloc cp (suc (suc f)) m m₁
        (ap (λ t. step can_alloc t cp m) st ∙ fill-whole cp 2 m (omega arith) (omega (arith, n)))
    ∙ run-restart can_alloc cp (suc f) m₁ m₂ (ap (λ t. step can_alloc t cp m₁) st ∙ rw bad refl)
    ∙ run-overrun can_alloc cp f m₂ (
        step_split-chunk cp m₂ (NoSplit-pair lo hi l h)
        ∙ skip_chunk-overrun cp junk tail m₂ refl none_in (omega (arith, n)))

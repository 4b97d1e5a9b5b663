-- ===== src/Driver/Info/Bounds.antt =====
-- `ttyio_netif_info` stays inside its array.
use esp8266_hosted_linux.Base.{
  ℕ, zero, suc, ◌+◌, ◌-◌, ◌≤◌, ◌<◌, min, ◌≡◌, refl, ◌∙◌, arith, ◌⊎◌, inl, inr, true, some, [], ◌∷◌,
  ◌++◌, Bytes, length, take, drop, get_or, length-poke, length-append, length-take, length-drop,
  ◌==◌, Bool-cases, ltb, ltb→lt, ltb→ge, Option-cases,
}
use esp8266_hosted_linux.Dump.Text.{dump_overflows-false, dump_overflows-true}
use esp8266_hosted_linux.Frame.{Status, status_len, status_data, status_split, read16}
use esp8266_hosted_linux.Driver.Info.{
  netif_info_size, Info, Rx, Next, restart, exit, accept, overrun, Outcome, returned, index_of,
  addresses_text, transform_netif_info, fill, shift, skip_chunk, step_split, step_data, bad_length,
  step_len, step, run, entry, ttyio_netif_info,
}

-- In STATUS_DATA the length has passed the check of STATUS_LEN, or is that of the block.
abbrev pub DataLen : Status → ℕ → Type 0
DataLen status_data w = w ≡ 12
DataLen _ w = Unit

DataLen-entry : (t : Status) → DataLen t 12
DataLen-entry status_len = tt
DataLen-entry status_data = refl
DataLen-entry status_split = tt

-- The array has its size, and at most one block has been received.
pub record IsRx (count : ℕ) (m : Rx) : Type 0 where
  pub size : length m.netif_info ≡ netif_info_size
  pub block : m.recv_len ≤ 15
  pub len : DataLen m.status m.data_len
  pub balance : m.processed + m.surplus ≡ count

pub index_of_bounds : (b : ℕ) (xs : Bytes) (k : ℕ) → index_of b xs ≡ some k → k < length xs
unfolding index_of
index_of_bounds b [] k e = ground arith
index_of_bounds b (x ∷ xs) k e = elim (Option-cases (index_of b xs)) [
  | inl n ↦ ground arith
  | inr (j, q) ↦ ground (arith, index_of_bounds b xs j q)
]

-- Between two calls
pub record IsInfo (s : Info) : Type 0 where
  pub size : length s.netif_info ≡ netif_info_size
  pub block : s.netif_info_recv_len ≤ 15

-- What a round does on each way out.
abbrev pub StepOk : ℕ → Next → Type 0
StepOk count (restart m) = IsRx count m
StepOk count (exit m) =
    (m.processed ≡ count) × (length m.netif_info ≡ netif_info_size) × (m.recv_len ≤ 15)
StepOk count (accept m) = IsRx count m
StepOk count overrun = Unit

module _ (cp : Bytes) where
  fill-StepOk :
      (want : ℕ) (m : Rx)
      → IsRx (length cp) m
      → m.recv_len + want ≤ 15
      → StepOk (length cp) (fill cp want m)
  unfolding fill
  fill-StepOk want m v room = ground (
    arith,
    length-poke m.recv_len (take (min m.surplus want) (drop m.processed cp)) m.netif_info,
    length-take (min m.surplus want) (drop m.processed cp),
    length-drop m.processed cp,
  )

  shift-IsRx :
      (skip : ℕ) (m : Rx) → IsRx (length cp) m → skip ≤ m.recv_len → IsRx (length cp) (shift skip m)
  unfolding shift
  shift-IsRx skip m v h = ground (
    arith,
    length-poke 0 (take (m.recv_len - skip) (drop skip m.netif_info)) m.netif_info,
    length-take (m.recv_len - skip) (drop skip m.netif_info),
    length-drop skip m.netif_info,
  )

  chunk-StepOk :
      (m : Rx) → IsRx (length cp) m → m.status ≡ status_split → StepOk (length cp) (skip_chunk cp m)
  unfolding skip_chunk
  chunk-StepOk m v s = elim (Option-cases (index_of 12 (drop m.processed cp))) [
    | inl e ↦ ground arith
    | inr (k, e) ↦ ground (arith, index_of_bounds 12 (drop m.processed cp) k e)
  ]

  split-StepOk :
      (m : Rx) → IsRx (length cp) m → m.status ≡ status_split → StepOk (length cp) (step_split cp m)
  unfolding step_split
  split-StepOk m v s = elim (Option-cases (index_of 12 (take m.recv_len m.netif_info))) [
    | inl e ↦ ground (arith, chunk-StepOk m v s)
    | inr (k, e) ↦
        rw (e, step_split)
          (shift-IsRx k m v (
            omega (
              arith,
              index_of_bounds 12 (take m.recv_len m.netif_info) k e,
              length-take m.recv_len m.netif_info,
            )))
  ]

  data-StepOk :
      (m : Rx) → IsRx (length cp) m → m.status ≡ status_data → StepOk (length cp) (step_data cp m)
  unfolding step_data
  data-StepOk m v s = ground (
    arith,
    fill-StepOk (m.data_len + 3 - m.recv_len) m v,
    split-StepOk (record m { status = status_split }),
  )

  bad-StepOk : (m : Rx) → IsRx (length cp) m → StepOk (length cp) (bad_length m)
  unfolding bad_length
  bad-StepOk m v = elim (Bool-cases (get_or m.netif_info 0 0 == 12)) [
    | inr e ↦ ground arith
    | inl e ↦ elim (Option-cases (index_of 12 (drop 1 (take m.recv_len m.netif_info)))) [
      | inl z ↦ ground arith
      | inr (k, q) ↦
          rw (e, q, bad_length)
            (shift-IsRx (suc k) m v (
              omega (
                arith,
                index_of_bounds 12 (drop 1 (take m.recv_len m.netif_info)) k q,
                length-drop 1 (take m.recv_len m.netif_info),
                length-take m.recv_len m.netif_info,
              )))
    ]
  ]

  len-StepOk :
      (m : Rx) → IsRx (length cp) m → m.status ≡ status_len → StepOk (length cp) (step_len cp m)
  unfolding step_len
  len-StepOk m v s = ground (
    arith,
    fill-StepOk (2 - m.recv_len) m v,
    data-StepOk (record m { data_len = 12; status = status_data }),
    bad-StepOk (record m { data_len = read16 m.netif_info }),
  )

  step-StepOk :
      (t : Status) (m : Rx) → IsRx (length cp) m → m.status ≡ t → StepOk (length cp) (step t cp m)
  unfolding step
  step-StepOk status_len m v s = len-StepOk m v s
  step-StepOk status_data m v s = data-StepOk m v s
  step-StepOk status_split m v s = split-StepOk m v s

length-transform_netif_info :
    (a : Bytes) → length a ≡ netif_info_size → length (transform_netif_info a) ≡ netif_info_size
unfolding transform_netif_info
length-transform_netif_info a size =
    let text = take 47 (addresses_text a) in
    length-poke 15 (text ++ (0 ∷ [])) a
      (omega (arith, length-append text (0 ∷ []), length-take 47 (addresses_text a)))
    ∙ size

-- A call that returns was offered at most 819 bytes, which is what the dump takes, leaves the array with
-- its size and at most one block received, and has taken the whole chunk or accepted a block.
abbrev pub Bounded : ℕ → Outcome → Type 0
Bounded count (returned n t s) =
    (count ≤ 819) × IsInfo s × (n ≤ count) × ((n ≡ count) ⊎ (s.netif_info_vaild ≡ true))
Bounded count _ = Unit

module _ (stored : Status) (s : Info) (v : IsInfo s) (cp : Bytes) where
  next-Bounded :
      length cp ≤ 819
      → (fuel : ℕ) (m : Rx) (r : Next) → step m.status cp m ≡ r
      → StepOk (length cp) r
      → ((m' : Rx) → IsRx (length cp) m' → Bounded (length cp) (run fuel stored s cp m'))
      → Bounded (length cp) (run (suc fuel) stored s cp m)
  unfolding run
  next-Bounded short fuel m (restart m') e ok next = rw (e, Bounded) (next m' ok)
  next-Bounded short fuel m (exit m') e ok next =
      rw (e, Bounded) (short, record { size = ok.1; block = ok.2 }, omega arith, inl ok.0)
  next-Bounded short fuel m (accept m') e ok next =
      rw (e, Bounded)
        (
          short,
          record { size = length-transform_netif_info m'.netif_info ok.size; block = v.block },
          omega (arith, ok.balance),
          inr refl,
        )
  next-Bounded short fuel m overrun e ok next = rw (e, Bounded) tt

  run-Bounded :
      length cp ≤ 819
      → (fuel : ℕ) (m : Rx) → IsRx (length cp) m
      → Bounded (length cp) (run fuel stored s cp m)
  run-Bounded short zero m v = unfold run in tt
  run-Bounded short (suc fuel) m v =
      next-Bounded short fuel m _ refl (step-StepOk cp m.status m v refl)
        (λ m' v'. run-Bounded short fuel m' v')

  -- Whatever bytes come, a call of `ttyio_netif_info` that returns was offered at most 819 bytes, has written
  -- only inside the array of 64 bytes, keeps at most one block of 15 bytes, and has taken the whole chunk
  -- unless it accepted a block.
  pub ttyio_netif_info-Bounded :
      (fuel : ℕ) → Bounded (length cp) (ttyio_netif_info fuel stored s cp)
  unfolding ttyio_netif_info
  ttyio_netif_info-Bounded fuel = elim (Bool-cases (ltb 819 (length cp))) [
    | inl e ↦ rw (dump_overflows-true cp (ltb→lt 819 (length cp) e), Bounded) tt
    | inr e ↦
        let short : length cp ≤ 819 = ltb→ge 819 (length cp) e in
        rw (dump_overflows-false cp short) (
          run-Bounded short fuel (entry stored s cp) (record {
            size = v.size;
            block = v.block;
            len = DataLen-entry stored;
            balance = omega arith;
          }))
  ]

-- ===== src/Driver/Receive/Bounds.antt =====
-- `ttyio_receive_data`: every call ends, the skb never outgrows its buffer, and the number of bytes
-- that a call reports is the length of the chunk unless no skb could be had.
use esp8266_hosted_linux.Base.{
  ℕ, zero, suc, ◌+◌, ◌-◌, ◌*◌, ◌≤◌, ◌<◌, min, ◌≡◌, refl, arith, ◌⊎◌, inl, inr, Bool, Option, none,
  some, Bytes, length, take, drop, Bool-cases, Option-cases, length-append, length-take,
  length-drop,
}
use esp8266_hosted_linux.Frame.{
  Status, status_len, status_data, status_split, split_data, mtu_len, max_frame_len, read16,
}
use esp8266_hosted_linux.Frame.{skip_past}
use esp8266_hosted_linux.Frame.Parse.{skip_past_bounds}
use esp8266_hosted_linux.Driver.Receive.{
  Receiver, Rx, Next, restart, exit, exit_no_skb, overrun, Outcome, returned, corrupted, no_fuel,
  copy, fill, skip_chunk, step_split, deliver, step_data, step_len, step, run, entry, receive_with,
  receive_data,
}

-- In STATUS_DATA the length has passed the check of STATUS_LEN.
abbrev pub DataLen : Status → ℕ → Type 0
DataLen status_data w = (20 ≤ w) × (w ≤ mtu_len)
DataLen _ w = Unit

-- The skb holds at most one frame, and `processed + surplus` is `count`.
pub record IsValid (count : ℕ) (m : Rx) : Type 0 where
  pub room : length m.skb ≤ max_frame_len
  pub range : DataLen m.status m.data_len
  pub balance : m.processed + m.surplus ≡ count

-- One round more may be spent outside STATUS_SPLIT, to get there.
abbrev pub weight : Status → ℕ
weight status_split = 0
weight _ = 1

pub weight_le_one : (t : Status) → weight t ≤ 1
weight_le_one status_split = omega arith
weight_le_one _ = omega arith

abbrev pub measure : Rx → ℕ
measure m = 4 * m.surplus + 2 * length m.skb + weight m.status

abbrev pub Fits : Rx → Type 0
Fits m = (length m.skb ≤ max_frame_len) × DataLen m.status m.data_len

-- What a round does on each way out.
abbrev pub StepOk : ℕ → ℕ → Next → Type 0
StepOk count before (restart m) = IsValid count m × (measure m < before)
StepOk count before (exit m) = (m.processed ≡ count) × Fits m
StepOk count before (exit_no_skb m) = (m.processed ≤ count) × DataLen m.status m.data_len
StepOk count before overrun = Unit

module _ (cp : Bytes) where
  pub length-copy :
      (want : ℕ) (m : Rx)
      → m.processed + m.surplus ≡ length cp
      → length (copy cp want m).skb ≡ length m.skb + min m.surplus want
  unfolding copy
  length-copy want m e = omega (
    arith,
    length-append m.skb (take (min m.surplus want) (drop m.processed cp)),
    length-take (min m.surplus want) (drop m.processed cp),
    length-drop m.processed cp,
  )

  fill-StepOk :
      (want : ℕ) (m : Rx) (before : ℕ)
      → IsValid (length cp) m
      → 0 < want
      → length m.skb + want ≤ max_frame_len
      → weight m.status ≡ 1
      → measure m ≤ before
      → StepOk (length cp) before (fill cp want m)
  unfolding fill copy
  fill-StepOk want m before v pos room w le = ground (arith, length-copy want m)

  chunk-StepOk :
      (m : Rx) (before : ℕ)
      → IsValid (length cp) m
      → m.status ≡ status_split
      → 4 * m.surplus ≤ before
      → StepOk (length cp) before (skip_chunk cp m)
  unfolding skip_chunk
  chunk-StepOk m before v s le = elim (Option-cases (skip_past split_data (drop m.processed cp))) [
    | inl e ↦ ground arith
    | inr (k, e) ↦ ground (arith, skip_past_bounds split_data (drop m.processed cp) k e)
  ]

  split-StepOk :
      (m : Rx) (before : ℕ)
      → IsValid (length cp) m
      → m.status ≡ status_split
      → 4 * m.surplus + 2 * length m.skb ≤ before
      → StepOk (length cp) before (step_split cp m)
  unfolding step_split
  split-StepOk m before v s le = elim (Option-cases (skip_past split_data m.skb)) [
    | inl e ↦ ground (arith, chunk-StepOk m before v s)
    | inr (k, e) ↦ ground (arith, skip_past_bounds split_data m.skb k e, length-drop k m.skb)
  ]

module _ (can_alloc : ℕ → Bool) (cp : Bytes) where
  data-StepOk :
      (m : Rx) (before : ℕ)
      → IsValid (length cp) m
      → m.status ≡ status_data
      → measure m ≤ before
      → StepOk (length cp) before (step_data can_alloc cp m)
  unfolding step_data deliver
  data-StepOk m before v s le = ground (
    arith,
    fill-StepOk cp (m.data_len + 3 - length m.skb) m before v,
    split-StepOk cp (record m { status = status_split }) before,
  )

  len-StepOk :
      (m : Rx) (before : ℕ)
      → IsValid (length cp) m
      → m.status ≡ status_len
      → measure m ≤ before
      → StepOk (length cp) before (step_len can_alloc cp m)
  unfolding step_len
  len-StepOk m before v s le = ground (
    arith,
    fill-StepOk cp (2 - length m.skb) m before v,
    data-StepOk (record m { data_len = read16 m.skb; status = status_data }) before,
  )

  pub step-StepOk :
      (t : Status) (m : Rx)
      → IsValid (length cp) m
      → m.status ≡ t
      → StepOk (length cp) (measure m) (step can_alloc t cp m)
  unfolding step
  step-StepOk status_len m v s = len-StepOk m (measure m) v s (omega arith)
  step-StepOk status_data m v s = data-StepOk m (measure m) v s (omega arith)
  step-StepOk status_split m v s = split-StepOk cp m (measure m) v s (ground arith)
  -- The skb of a waiting receiver holds less than a buffer, and its length field is in range.

abbrev pub SkbFits : Option Bytes → Type 0
SkbFits none = Unit
SkbFits (some skb) = length skb ≤ max_frame_len

pub record IsReceiver (s : Receiver) : Type 0 where
  pub skb_fits : SkbFits s.recv_skb
  pub range : DataLen s.uart_recv_status s.uart_data_len

-- A call returns within its rounds, unless the memory is corrupted; the new state is in bounds, and
-- `n` bytes were taken: all of them, or the state has no skb.
abbrev pub Accounted : ℕ → Outcome → Type 0
Accounted count (returned n s) = IsReceiver s × (n ≤ count) × ((n ≡ count) ⊎ (s.recv_skb ≡ none))
Accounted count corrupted = Unit
Accounted count no_fuel = ⊥

module _ (can_alloc : ℕ → Bool) (cp : Bytes) where
  next-Accounted :
      (fuel : ℕ) (m : Rx) (r : Next)
      → StepOk (length cp) (measure m) r
      → step can_alloc m.status cp m ≡ r
      → ((m' : Rx)
          → IsValid (length cp) m'
          → measure m' < measure m
          → Accounted (length cp) (run can_alloc fuel cp m'))
      → Accounted (length cp) (run can_alloc (suc fuel) cp m)
  unfolding run
  next-Accounted fuel m (restart m') ok e next = rw (e, Accounted) (next m' ok.0 ok.1)
  next-Accounted fuel m (exit m') ok e next =
      rw (e, Accounted) (record { skb_fits = ok.1.0; range = ok.1.1 }, omega arith, inl ok.0)
  next-Accounted fuel m (exit_no_skb m') ok e next =
      rw (e, Accounted) (record { skb_fits = tt; range = ok.1 }, ok.0, inr refl)
  next-Accounted fuel m overrun ok e next = rw (e, Accounted) tt

  run-Accounted :
      (fuel : ℕ) (m : Rx)
      → IsValid (length cp) m
      → measure m < fuel
      → Accounted (length cp) (run can_alloc fuel cp m)
  run-Accounted zero m v h = absurd (omega arith)
  run-Accounted (suc fuel) m v h =
      next-Accounted fuel m _ (step-StepOk can_alloc cp m.status m v refl) refl
        (λ m' v' lt. run-Accounted fuel m' v' (omega arith))

  receive_with-Accounted :
      (o : Option Bytes) (s : Receiver)
      → s.recv_skb ≡ o
      → SkbFits o
      → DataLen s.uart_recv_status s.uart_data_len
      → Accounted (length cp) (receive_with can_alloc o s cp)
  unfolding receive_with
  receive_with-Accounted (some skb) s e f d =
      run-Accounted _ (entry skb s cp) (record { room = f; range = d; balance = omega arith })
        (omega (arith, weight_le_one s.uart_recv_status))
  receive_with-Accounted none s e f d = elim (Bool-cases (can_alloc s.allocs)) [
    | inl yes' ↦ rw yes' (run-Accounted _ _ (omega arith) (omega arith))
    | inr no' ↦ rw no' (record { skb_fits = rw (e, SkbFits) tt; range = d }, omega arith, inr e)
  ]

  -- A call of `ttyio_receive_data` on a receiver within bounds ends within its rounds. Unless the
  -- memory is corrupted, it returns a receiver within bounds (the skb holds at most
  -- `max_frame_len` bytes, and in STATUS_DATA the length is between 20 and `mtu_len`) and a count
  -- of at most the chunk's length, which is that length unless there is no skb afterwards.
  pub receive_data-Accounted :
      (s : Receiver) → IsReceiver s → Accounted (length cp) (receive_data can_alloc s cp)
  unfolding receive_data
  receive_data-Accounted s v = receive_with-Accounted s.recv_skb s refl v.skb_fits v.range

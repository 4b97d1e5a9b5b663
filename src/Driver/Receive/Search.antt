-- ===== src/Driver/Receive/Search.antt =====
-- The search of `ttyio_receive_data` for a split byte: single rounds of the loop.
use esp8266_hosted_linux.Base.{
  ℕ, suc, ◌+◌, ◌-◌, ◌≤◌, ◌<◌, min, ◌≡◌, ◌≢◌, refl, ap, ◌∙◌, arith, Bool, none, some, [], ◌∷◌, ◌++◌,
  Bytes, length, take, drop, ltb, length-append, lt→ltb, ge→ltb, if◌then◌else◌, ne→==, inl, inr,
  ltb→lt, ltb→ge, Bool-cases,
}
use esp8266_hosted_linux.Dump.Text.{dump_overflows-false, dump_overflows-true}
use esp8266_hosted_linux.Frame.{status_len, status_split, split_data, skip_past}
use esp8266_hosted_linux.Driver.Receive.{
  Receiver, Rx, restart, corrupted, copy, fill, skip_chunk, step_split, step, run, entry, overrun,
}

-- No byte of `junk` is a split byte.
abbrev pub NoSplit : Bytes → Type 0
NoSplit junk = skip_past split_data junk ≡ none

skip_past-append :
    (junk rest : Bytes)
    → NoSplit junk
    → skip_past split_data (junk ++ (split_data ∷ rest)) ≡ some (length junk + 1)
unfolding skip_past
skip_past-append [] rest h = refl
skip_past-append (x ∷ junk) rest h = ground (arith, skip_past-append junk rest)

module _ (can_alloc : ℕ → Bool) (cp : Bytes) where
  pub run-restart :
      (fuel : ℕ) (m m' : Rx)
      → step can_alloc m.status cp m ≡ restart m'
      → run can_alloc (suc fuel) cp m ≡ run can_alloc fuel cp m'
  unfolding run
  run-restart fuel m m' e = rw (e, run) refl

  pub run-overrun :
      (fuel : ℕ) (m : Rx)
      → step can_alloc m.status cp m ≡ overrun
      → run can_alloc (suc fuel) cp m ≡ corrupted
  unfolding run
  run-overrun fuel m e = rw (e, run) refl

-- The state behind a split byte that the search finds in an unread chunk.
abbrev pub behind : ℕ → ℕ → Rx → Rx
behind count k m = record m {
  skb = [];
  surplus = count - (0 + k);
  processed = 0 + (0 + k);
  status = status_len;
}

-- The search of the chunk: the split byte stands behind `junk`, and `skip` counts what has been
-- processed once more.
skip_chunk-found :
    (cp junk rest : Bytes) (m : Rx)
    → drop m.processed cp ≡ junk ++ (split_data ∷ rest)
    → NoSplit junk
    → length cp ≤ 819
    → skip_chunk cp m ≡ (
        let skip = m.processed + (length junk + 1) in
        if ltb m.surplus skip
        then overrun
        else restart (record m {
          skb = [];
          surplus = m.surplus - skip;
          processed = m.processed + skip;
          status = status_len;
        }))
unfolding skip_chunk
skip_chunk-found cp junk rest m at none_in short =
    rw (at, skip_past-append junk rest none_in, dump_overflows-false cp short, skip_chunk) refl

-- The dump of the chunk that comes before
pub skip_chunk-dumped :
    (cp junk rest : Bytes) (m : Rx)
    → drop m.processed cp ≡ junk ++ (split_data ∷ rest)
    → NoSplit junk
    → 819 < length cp
    → skip_chunk cp m ≡ overrun
unfolding skip_chunk
skip_chunk-dumped cp junk rest m at none_in long =
    rw (at, skip_past-append junk rest none_in, dump_overflows-true cp long, skip_chunk) refl

pub step-behind :
    (can_alloc : ℕ → Bool) (s : Receiver) (junk rest : Bytes)
    → s.uart_recv_status ≡ status_split
    → NoSplit junk
    → length (junk ++ (split_data ∷ rest)) ≤ 819
    → let cp = junk ++ (split_data ∷ rest) in
      let m = entry [] s cp in
      step can_alloc m.status cp m ≡ restart (behind (length cp) (length junk + 1) m)
unfolding step step_split skip_past
step-behind can_alloc s junk rest st none_in short =
    let cp = junk ++ (split_data ∷ rest) in
    let n : 0 + (length junk + 1) ≤ length cp =
      omega (arith, length-append junk (split_data ∷ rest)) in
    ap (λ t. step can_alloc t cp (entry [] s cp)) st
    ∙ skip_chunk-found cp junk rest (entry [] s cp) refl none_in short
    ∙ rw (ge→ltb (length cp) (0 + (length junk + 1)) n) refl

-- A copy that the chunk has enough bytes for.
pub fill-whole :
    (cp : Bytes) (want : ℕ) (m : Rx)
    → 0 < want
    → want ≤ m.surplus
    → fill cp want m
      ≡ restart (record m {
        skb = m.skb ++ take want (drop m.processed cp);
        surplus = m.surplus - want;
        processed = m.processed + want;
      })
unfolding fill copy
fill-whole cp want m pos enough =
    let e : min m.surplus want ≡ want = omega arith in rw (ne→== m.surplus 0 (omega arith), e) refl

pub NoSplit-pair : (lo hi : ℕ) → lo ≢ split_data → hi ≢ split_data → NoSplit (lo ∷ hi ∷ [])
unfolding skip_past
NoSplit-pair lo hi l h = ground arith

-- Whether or not the dump of the chunk has written behind its array, `surplus` falls below zero.
pub skip_chunk-overrun :
    (cp junk rest : Bytes) (m : Rx)
    → drop m.processed cp ≡ junk ++ (split_data ∷ rest)
    → NoSplit junk
    → m.surplus < m.processed + (length junk + 1)
    → skip_chunk cp m ≡ overrun
skip_chunk-overrun cp junk rest m at none_in behind = elim (Bool-cases (ltb 819 (length cp))) [
  | inl e ↦ skip_chunk-dumped cp junk rest m at none_in (ltb→lt 819 (length cp) e)
  | inr e ↦
      skip_chunk-found cp junk rest m at none_in (ltb→ge 819 (length cp) e)
      ∙ rw (lt→ltb m.surplus (m.processed + (length junk + 1)) behind) refl
]

-- Where the skb has no split byte, the chunk is searched.
pub step_split-chunk : (cp : Bytes) (m : Rx) → NoSplit m.skb → step_split cp m ≡ skip_chunk cp m
unfolding step_split
step_split-chunk cp m h = rw (h, step_split) refl

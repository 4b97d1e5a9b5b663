-- ===== src/Driver/Info/Step.antt =====
-- `ttyio_netif_info` on a good block: one round of the `restart:` loop.
use esp8266_hosted_linux.Base.{
  ℕ, zero, suc, ◌+◌, ◌-◌, ◌≤◌, ◌<◌, min, ◌≡◌, inl, inr, refl, sym, subst, ap, ap₂, ◌∙◌, ◌*◌,
  nil_of_length, arith, [], ◌∷◌, ◌++◌, Bytes, length, take, drop, poke, length-poke, get_or, ltb,
  ltb→lt, ltb→ge, ◌==◌, eq→==, Bool-cases, length-append, length-take, length-drop, take-append,
  take-append-drop, drop-drop, append_assoc,
}
use esp8266_hosted_linux.Frame.{
  Status, status_len, status_data, status_split, split_cmd, read16, frame,
}
use esp8266_hosted_linux.Frame.Parse.{read16-frame, get_or-frame, frame_exact}
use esp8266_hosted_linux.Driver.Info.{
  netif_info_size, Rx, Next, restart, exit, accept, overrun, fill, step_data, step_len, step,
}

take-poke :
    (off : ℕ) (b a : Bytes) (n : ℕ)
    → off ≤ length a
    → n ≡ off + length b
    → take n (poke off b a) ≡ take off a ++ b
unfolding poke
take-poke off b a n h e =
    ap (take n) (sym (append_assoc (take off a) b (drop (off + length b) a)))
    ∙ take-append (take off a ++ b) (drop (off + length b) a) n
        (omega (arith, e, length-append (take off a) b, length-take off a))

get_or-take : (n i : ℕ) (a : Bytes) (d : ℕ) → i < n → get_or (take n a) i d ≡ get_or a i d
get_or-take zero i a d h = absurd (omega arith)
get_or-take (suc n) i [] d h = refl
get_or-take (suc n) zero (x ∷ a) d h = refl
get_or-take (suc n) (suc i) (x ∷ a) d h = get_or-take n i a d (omega arith)

-- Where in the block the receiver stands; `slack` is 1 while it may be complete.
abbrev pub Place : ℕ → Status → ℕ → Type 0
Place slack status_len n = n < 2 + slack
Place slack status_data n = n < 15 + slack
Place slack status_split n = ⊥

Place-le : (t : Status) (n k : ℕ) → n ≤ k → Place 1 t k → Place 1 t n
Place-le status_len n k h p = omega arith
Place-le status_data n k h p = omega arith
Place-le status_split n k h p = p

-- A receiver that waits has room for a whole round.
pub Place-later : (t : Status) (n : ℕ) → Place 0 t n → Place 1 t n
Place-later status_len n p = omega arith
Place-later status_data n p = omega arith
Place-later status_split n p = p

-- It has not got the whole block.
pub Place-short : (t : Status) (n : ℕ) → Place 0 t n → n < 15
Place-short status_len n p = omega arith
Place-short status_data n p = p
Place-short status_split n p = absurd p

Place-data : (t : Status) (slack n : ℕ) → t ≡ status_data → n < 15 + slack → Place slack t n
Place-data t slack n e h = subst (λ x. Place slack x n) (sym e) h

Place-len : (t : Status) (slack n : ℕ) → t ≡ status_len → n < 2 + slack → Place slack t n
Place-len t slack n e h = subst (λ x. Place slack x n) (sym e) h

module _ (addresses : Bytes) (twelve : length addresses ≡ 12) where
  -- What has been received and the bytes `todo`, which are still to come, make up the block.
  pub record OnBlock (slack : ℕ) (todo : Bytes) (t : Status) (array : Bytes) (n : ℕ) : Type 0 where
    pub size : length array ≡ netif_info_size
    pub bytes : take n array ++ todo ≡ frame split_cmd addresses ++ []
    pub place : Place slack t n

  module _ (cp more : Bytes) where
    abbrev pub RxOn : ℕ → Rx → Type 0
    RxOn slack m = OnBlock slack (drop m.processed cp ++ more) m.status m.netif_info m.recv_len

    abbrev pub Balanced : Rx → Type 0
    Balanced m = m.processed + m.surplus ≡ length cp

    -- The whole block, and nothing to come.
    abbrev pub Complete : Rx → Type 0
    Complete m =
        (take 15 m.netif_info ≡ frame split_cmd addresses ++ [])
        × (length m.netif_info ≡ netif_info_size)
        × (m.processed ≡ length cp)
        × (more ≡ [])

    abbrev pub NextOn : ℕ → Next → Type 0
    NextOn before (restart m) = RxOn 1 m × Balanced m × (m.data_len ≡ 12) × (m.surplus < before)
    NextOn before (exit m) = RxOn 0 m × (m.processed ≡ length cp)
    NextOn before (accept m) = Complete m
    NextOn before overrun = ⊥

    bytes-fill :
        (n : ℕ) (m : Rx)
        → Balanced m
        → n ≤ m.surplus
        → m.recv_len ≤ length m.netif_info
        → take (m.recv_len + n) (poke m.recv_len (take n (drop m.processed cp)) m.netif_info)
            ++ (drop (m.processed + n) cp ++ more)
          ≡ take m.recv_len m.netif_info ++ (drop m.processed cp ++ more)
    bytes-fill n m bal few room =
        let ch = take n (drop m.processed cp) in
        let k : n ≡ length ch =
          omega (arith, length-take n (drop m.processed cp), length-drop m.processed cp) in
        let old = take m.recv_len m.netif_info in
        ap (λ x. x ++ (drop (m.processed + n) cp ++ more))
          (take-poke m.recv_len ch m.netif_info (m.recv_len + n) room (ap (λ j. m.recv_len + j) k))
        ∙ append_assoc old ch (drop (m.processed + n) cp ++ more)
        ∙ ap (λ x. old ++ x)
            (sym (append_assoc ch (drop (m.processed + n) cp) more)
              ∙ ap (λ x. x ++ more)
                  (ap (λ x. ch ++ x) (sym (drop-drop m.processed n cp))
                    ∙ take-append-drop n (drop m.processed cp)))

    fill-On :
        (want : ℕ) (m : Rx)
        → RxOn 0 m
        → Balanced m
        → m.data_len ≡ 12
        → 0 < want
        → Place 1 m.status (m.recv_len + want)
        → m.recv_len + want ≤ 15
        → NextOn m.surplus (fill cp want m)
    unfolding fill
    fill-On want m on bal len pos place room = elim (Bool-cases (m.surplus == 0)) [
      | inl e ↦ rw e (on, ground arith)
      | inr e ↦
          let n = min m.surplus want in
          let ch = take n (drop m.processed cp) in
          let k : length ch ≡ n =
            omega (arith, length-take n (drop m.processed cp), length-drop m.processed cp) in
          rw e (
            record {
              size = length-poke m.recv_len ch m.netif_info (omega (arith, k, on.size)) ∙ on.size;
              bytes = bytes-fill n m bal (omega arith) (omega (arith, on.size)) ∙ on.bytes;
              place = Place-le m.status (m.recv_len + n) (m.recv_len + want) (omega arith) place;
            },
            omega arith,
            len,
            ground arith,
          )
    ]

    data-On :
        (m : Rx)
        → m.status ≡ status_data
        → RxOn 1 m
        → m.recv_len ≤ 15
        → Balanced m
        → m.data_len ≡ 12
        → NextOn m.surplus (step_data cp m)
    unfolding step_data
    data-On m st on room bal len = elim (Bool-cases (ltb m.recv_len (m.data_len + 3))) [
      | inl e ↦
          let short = ltb→lt m.recv_len (m.data_len + 3) e in
          rw e (
            fill-On (m.data_len + 3 - m.recv_len) m
              (record {
                size = on.size;
                bytes = on.bytes;
                place = Place-data m.status 0 _ st (omega arith);
              })
              bal len (omega arith) (Place-data m.status 1 _ st (omega arith)) (omega arith))
      | inr e ↦
          let long = ltb→ge m.recv_len (m.data_len + 3) e in
          let full : m.recv_len ≡ 15 = omega arith in
          let now : take 15 m.netif_info ++ (drop m.processed cp ++ more)
              ≡ frame split_cmd addresses ++ [] =
            subst
              (λ n.
                take n m.netif_info ++ (drop m.processed cp ++ more)
                ≡ frame split_cmd addresses ++ [])
              full on.bytes in
          let (whole, rest) =
            frame_exact split_cmd addresses (take 15 m.netif_info) _ _ now
              (omega (arith, length-take 15 m.netif_info, on.size)) in
          let hit : get_or m.netif_info (m.data_len + 2) 0 ≡ split_cmd =
            ap (λ n. get_or m.netif_info n 0) {y = length addresses + 2} (omega arith)
            ∙ sym (get_or-take 15 (length addresses + 2) m.netif_info 0 (omega arith))
            ∙ ap (λ x. get_or x (length addresses + 2) 0) whole
            ∙ get_or-frame split_cmd addresses [] in
          let nothing : length (drop m.processed cp) + length more ≡ 0 =
            omega (arith, ap length rest, length-append (drop m.processed cp) more) in
          rw e (
            rw (eq→== _ _ hit) (
              whole,
              on.size,
              omega (arith, length-drop m.processed cp),
              nil_of_length more (omega arith),
            ))
    ]

    len-On :
        (m : Rx)
        → m.status ≡ status_len
        → RxOn 1 m
        → m.recv_len ≤ 2
        → Balanced m
        → m.data_len ≡ 12
        → NextOn m.surplus (step_len cp m)
    unfolding step_len
    len-On m st on room bal len = elim (Bool-cases (ltb m.recv_len 2)) [
      | inl e ↦
          let short = ltb→lt m.recv_len 2 e in
          rw e (
            fill-On (2 - m.recv_len) m
              (record {
                size = on.size;
                bytes = on.bytes;
                place = Place-len m.status 0 _ st (omega arith);
              })
              bal len (omega arith) (Place-len m.status 1 _ st (omega arith)) (omega arith))
      | inr e ↦
          let long = ltb→ge m.recv_len 2 e in
          let w : read16 m.netif_info ≡ 12 =
            ap₂ (λ a b. a + 256 * b) (sym (get_or-take m.recv_len 0 m.netif_info 0 (omega arith)))
              (sym (get_or-take m.recv_len 1 m.netif_info 0 (omega arith)))
            ∙ read16-frame split_cmd addresses (take m.recv_len m.netif_info) _ [] on.bytes
                (omega (arith, length-take m.recv_len m.netif_info, on.size)) (omega arith)
            ∙ twelve in
          rw e (
            rw (eq→== _ _ w) (
              data-On (record m { data_len = 12; status = status_data }) refl
                (record { size = on.size; bytes = on.bytes; place = omega arith }) (omega arith) bal
                refl))
    ]

    pub step-On :
        (t : Status) (m : Rx)
        → m.status ≡ t
        → RxOn 1 m
        → Balanced m
        → m.data_len ≡ 12
        → NextOn m.surplus (step t cp m)
    unfolding step
    step-On status_len m st on bal len =
        len-On m st on (omega (arith, subst (λ x. Place 1 x m.recv_len) st on.place)) bal len
    step-On status_data m st on bal len =
        data-On m st on (omega (arith, subst (λ x. Place 1 x m.recv_len) st on.place)) bal len
    step-On status_split m st on bal len = absurd (subst (λ x. Place 1 x m.recv_len) st on.place)

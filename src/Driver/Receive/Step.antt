-- ===== src/Driver/Receive/Step.antt =====
-- `ttyio_receive_data` on a stream of good frames: one round of the `restart:` loop.
use esp8266_hosted_linux.Base.{
  ℕ, ◌+◌, ◌-◌, ◌≤◌, ◌<◌, min, ◌≡◌, refl, sym, subst, ap, ◌∙◌, arith, inl, inr, ltb→lt, ltb→ge,
  eq→==, Bool, true, false, List, [], ◌∷◌, ◌++◌, Bytes, length, take, drop, get_or, ltb, ◌==◌,
  Bool-cases, length-append, take-append-drop, drop-drop, append_assoc, if◌then◌else◌,
}
use esp8266_hosted_linux.Frame.{
  Status, status_len, status_data, status_split, split_data, mtu_len, out_of_range, read16, frame,
  frames, ArePackets, IsPacket,
}
use esp8266_hosted_linux.Frame.Parse.{
  length-frame, get_or-frame, take-drop-frame, read16-frame, frame_exact,
}
use esp8266_hosted_linux.Driver.Receive.{
  Rx, Next, restart, exit, copy, fill, deliver, step_data, step_len, step, payload,
}
use esp8266_hosted_linux.Driver.Receive.Bounds.{length-copy}

-- Where in the first packet the receiver stands; `slack` is 1 while a finished frame may still lie
-- in the skb.
abbrev pub Place : ℕ → Status → ℕ → Bytes → List Bytes → Type 0
Place slack status_len w skb ps = length skb ≤ 2
Place slack status_data w skb [] = ⊥
Place slack status_data w skb (p ∷ _) = (w ≡ length p) × (length skb < length p + 3 + slack)
Place slack status_split w skb ps = ⊥

-- Of the packets `total` those in `done` are delivered, and `skb` with the bytes `todo` that are
-- still to come makes up the frames of the others, `ps`.
pub record OnStream (total : List Bytes) (slack : ℕ) (todo : Bytes) (st : Status) (w : ℕ)
    (skb : Bytes) (done : List Bytes) (ps : List Bytes) : Type 0 where
  pub valid : ArePackets ps
  pub packets : done ++ ps ≡ total
  pub bytes : skb ++ todo ≡ frames split_data ps
  pub place : Place slack st w skb ps

Place-data :
    (t : Status) (slack : ℕ) (p : Bytes) (w : ℕ) (skb : Bytes) (ps : List Bytes)
    → t ≡ status_data
    → w ≡ length p
    → length skb < length p + 3 + slack
    → Place slack t w skb (p ∷ ps)
Place-data t slack p w skb ps e a b = subst (λ x. Place slack x w skb (p ∷ ps)) (sym e) (a, b)

pub Place-len :
    (t : Status) (slack w : ℕ) (skb : Bytes) (ps : List Bytes)
    → t ≡ status_len
    → length skb ≤ 2
    → Place slack t w skb ps
Place-len t slack w skb ps e h = subst (λ x. Place slack x w skb ps) (sym e) h

out_of_range-IsPacket : (p : Bytes) → IsPacket p → out_of_range 20 mtu_len (length p) ≡ false
out_of_range-IsPacket p h = ground arith

-- Two bytes of a stream begin a packet.
ne_nil_of_bytes :
    (skb todo : Bytes) (ps : List Bytes)
    → skb ++ todo ≡ frames split_data ps
    → 0 < length skb
    → (p : Bytes) × (qs : List Bytes) × (ps ≡ p ∷ qs)
unfolding frames
ne_nil_of_bytes skb todo [] e h = absurd (omega (arith, ap length e, length-append skb todo))
ne_nil_of_bytes skb todo (p ∷ qs) e h = (p, qs, refl)

module _ (total : List Bytes) (cp more : Bytes) where
  abbrev pub RxOn : ℕ → Rx → List Bytes → Type 0
  RxOn slack m =
      OnStream total slack (drop m.processed cp ++ more) m.status m.data_len m.skb m.packets

  abbrev pub NextOn : Next → Type 0
  NextOn (restart m) = (ps : List Bytes) × RxOn 1 m ps
  NextOn (exit m) = (ps : List Bytes) × RxOn 0 m ps
  NextOn _ = ⊥

  bytes-copy :
      (want : ℕ) (m : Rx)
      → (copy cp want m).skb ++ (drop (copy cp want m).processed cp ++ more)
        ≡ m.skb ++ (drop m.processed cp ++ more)
  unfolding copy
  bytes-copy want m =
      let n = min m.surplus want in
      append_assoc m.skb (take n (drop m.processed cp)) _
      ∙ ap (λ x. m.skb ++ x)
          (sym (append_assoc (take n (drop m.processed cp)) (drop (m.processed + n) cp) more)
            ∙ ap (λ x. x ++ more)
                (ap (λ x. take n (drop m.processed cp) ++ x) (sym (drop-drop m.processed n cp))
                  ∙ take-append-drop n (drop m.processed cp)))

  fill-On :
      (want : ℕ) (m : Rx) (ps : List Bytes)
      → RxOn 0 m ps
      → Place 1 m.status m.data_len (copy cp want m).skb ps
      → NextOn (fill cp want m)
  unfolding fill copy
  fill-On want m ps on place = elim (Bool-cases (m.surplus == 0)) [
    | inl e ↦ rw e (ps, on)
    | inr e ↦ rw e (
      ps,
      record {
        valid = on.valid;
        packets = on.packets;
        bytes = bytes-copy want m ∙ on.bytes;
        place = place;
      },
    )
  ]

  payload-frame : (p : Bytes) → payload (frame split_data p ++ []) ≡ p
  payload-frame p =
      let n : length (frame split_data p ++ []) - 3 ≡ length p =
        omega (arith, length-frame split_data p, length-append (frame split_data p) []) in
      ap (λ k. take k (drop 2 (frame split_data p ++ []))) n ∙ take-drop-frame split_data p []

  module _ (can_alloc : ℕ → Bool) (always : (n : ℕ) → can_alloc n ≡ true) where
    deliver-On :
        (m : Rx) (p : Bytes) (ps : List Bytes)
        → ArePackets ps
        → m.packets ++ (p ∷ ps) ≡ total
        → m.skb ≡ frame split_data p ++ []
        → frames split_data ps ≡ drop m.processed cp ++ more
        → NextOn (deliver can_alloc m)
    unfolding deliver
    deliver-On m p ps v done whole rest = rw (always m.allocs) (
      ps,
      record {
        valid = v;
        packets = rw (whole, payload-frame p) (append_assoc m.packets (p ∷ []) ps ∙ done);
        bytes = sym rest;
        place = omega arith;
      },
    )

    data-On :
        (m : Rx) (p : Bytes) (ps : List Bytes)
        → m.status ≡ status_data
        → RxOn 1 m (p ∷ ps)
        → m.data_len ≡ length p
        → length m.skb < length p + 4
        → m.processed + m.surplus ≡ length cp
        → NextOn (step_data can_alloc cp m)
    unfolding step_data frames
    data-On m p ps st on w small bal = elim (Bool-cases (ltb (length m.skb) (m.data_len + 3))) [
      | inl e ↦
          let short = ltb→lt (length m.skb) (m.data_len + 3) e in
          rw e (
            fill-On _ m (p ∷ ps)
              (record {
                valid = on.valid;
                packets = on.packets;
                bytes = on.bytes;
                place = Place-data m.status 0 p _ _ _ st w (omega arith);
              })
              (Place-data m.status 1 p _ _ _ st w
                (omega (arith, length-copy cp (m.data_len + 3 - length m.skb) m bal))))
      | inr e ↦
          let long = ltb→ge (length m.skb) (m.data_len + 3) e in
          let (whole, rest) = frame_exact split_data p m.skb _ _ on.bytes (omega arith) in
          let hit : get_or m.skb (m.data_len + 2) 0 ≡ split_data =
            rw (whole, w) (get_or-frame split_data p []) in
          rw e (rw (eq→== _ _ hit) (deliver-On m p ps on.valid.1 on.packets whole rest))
    ]

    header-On :
        (m : Rx) (p : Bytes) (ps : List Bytes)
        → RxOn 1 m (p ∷ ps)
        → length m.skb ≡ 2
        → m.processed + m.surplus ≡ length cp
        → NextOn (
            if out_of_range 20 mtu_len (read16 m.skb)
            then restart (record m { data_len = read16 m.skb; status = status_split })
            else step_data can_alloc cp
                (record m { data_len = read16 m.skb; status = status_data }))
    unfolding frames
    header-On m p ps on two bal =
        let w = read16-frame split_data p m.skb _ _ on.bytes (omega arith) on.valid.0.1 in
        let good : out_of_range 20 mtu_len (read16 m.skb) ≡ false =
          rw w (out_of_range-IsPacket p on.valid.0) in
        rw good (
          data-On (record m { data_len = read16 m.skb; status = status_data }) p ps refl
            (record {
              valid = on.valid;
              packets = on.packets;
              bytes = on.bytes;
              place = (w, omega arith);
            })
            w (omega arith) bal)

    len-On :
        (m : Rx) (ps : List Bytes)
        → m.status ≡ status_len
        → RxOn 1 m ps
        → length m.skb ≤ 2
        → m.processed + m.surplus ≡ length cp
        → NextOn (step_len can_alloc cp m)
    unfolding step_len
    len-On m ps st on small bal = elim (Bool-cases (ltb (length m.skb) 2)) [
      | inl e ↦ rw e (
          fill-On _ m ps
            (record {
              valid = on.valid;
              packets = on.packets;
              bytes = on.bytes;
              place = Place-len m.status 0 _ _ ps st small;
            })
            (Place-len m.status 1 _ _ ps st
              (omega (arith, length-copy cp (2 - length m.skb) m bal))))
      | inr e ↦
          let two = ltb→ge (length m.skb) 2 e in
          let (p, qs, q) = ne_nil_of_bytes m.skb _ ps on.bytes (omega arith) in
          rw e (header-On m p qs (subst (RxOn 1 m) q on) (omega arith) bal)
    ]

    pub step-On :
        (t : Status) (m : Rx) (ps : List Bytes)
        → m.status ≡ t
        → RxOn 1 m ps
        → m.processed + m.surplus ≡ length cp
        → NextOn (step can_alloc t cp m)
    unfolding step
    step-On status_len m ps st on bal =
        len-On m ps st on (subst (λ t. Place 1 t m.data_len m.skb ps) st on.place) bal
    step-On status_data m [] st on bal =
        absurd (subst (λ t. Place 1 t m.data_len m.skb []) st on.place)
    step-On status_data m (p ∷ ps) st on bal =
        let at = subst (λ t. Place 1 t m.data_len m.skb (p ∷ ps)) st on.place in
        data-On m p ps st on at.0 (omega (arith, at.1)) bal
    step-On status_split m ps st on bal =
        absurd (subst (λ t. Place 1 t m.data_len m.skb ps) st on.place)

-- ===== src/Frame/Parse.antt =====
-- What a receiver finds in its buffer while a stream of frames comes in.
use esp8266_hosted_linux.Base.{
  Option-cases, some, inl, inr, ℕ, suc, ◌+◌, ◌/◌, ◌%◌, ◌≤◌, ◌≡◌, refl, sym, ap, ◌∙◌, arith,
  nil_of_length, [], ◌∷◌, ◌++◌, Bytes, length, get_or, take, drop, length-append, append-split,
  take-append, drop-append, get_or-append, append_assoc,
}
use esp8266_hosted_linux.Frame.{frame, read16, mtu_len, skip_past}

module _ (split : ℕ) (p : Bytes) where
  pub length-frame : length (frame split p) ≡ length p + 3
  unfolding frame
  length-frame = omega (arith, length-append p (split ∷ []))

  pub read16-frame_self : length p ≤ mtu_len → read16 (frame split p) ≡ length p
  unfolding frame
  read16-frame_self h = omega arith

  module _ (r : Bytes) where
    pub get_or-frame : get_or (frame split p ++ r) (length p + 2) 0 ≡ split
    unfolding frame
    get_or-frame =
        let e : length p + 2 ≡ suc (suc (length p)) = omega arith in
        rw e (rw append_assoc (get_or-append p r split 0 (length p) refl))

    pub take-drop-frame : take (length p) (drop 2 (frame split p ++ r)) ≡ p
    unfolding frame
    take-drop-frame = rw append_assoc (take-append p (split ∷ r) (length p) refl)

    pub drop-frame : drop (length p + 3) (frame split p ++ r) ≡ r
    drop-frame = drop-append (frame split p) r (length p + 3) (sym length-frame)

module _ (split : ℕ) (p pre more tail : Bytes) (e : pre ++ more ≡ frame split p ++ tail) where
  pub read16-frame : 2 ≤ length pre → length p ≤ mtu_len → read16 pre ≡ length p
  unfolding frame
  read16-frame h m =
      let (s, q, _) =
        append-split ((length p % 256) ∷ (length p / 256 % 256) ∷ []) _ pre more e h in
      rw q (omega arith)

  pub frame_complete :
      length p + 3 ≤ length pre → (r : Bytes) × (pre ≡ frame split p ++ r) × (tail ≡ r ++ more)
  frame_complete h =
      append-split (frame split p) tail pre more e (omega (arith, length-frame split p))

  pub frame_exact : length p + 3 ≡ length pre → (pre ≡ frame split p ++ []) × (tail ≡ more)
  frame_exact h =
      let (r, a, b) = frame_complete (omega arith) in
      let z : length r ≡ 0 =
        omega (arith, ap length a, length-append (frame split p) r, length-frame split p) in
      let n = nil_of_length r z in (a ∙ ap (λ x. frame split p ++ x) n, b ∙ ap (λ x. x ++ more) n)

pub skip_past_bounds :
    (b : ℕ) (xs : Bytes) (k : ℕ) → skip_past b xs ≡ some k → (1 ≤ k) × (k ≤ length xs)
unfolding skip_past
skip_past_bounds b [] k e = ground arith
skip_past_bounds b (x ∷ xs) k e = elim (Option-cases (skip_past b xs)) [
  | inl n ↦ ground arith
  | inr (j, q) ↦ ground (arith, skip_past_bounds b xs j q)
]

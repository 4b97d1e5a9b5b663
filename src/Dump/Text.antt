-- ===== src/Dump/Text.antt =====
-- The text in the array of a dump: what one `snprintf` adds, and what the end shows.
use esp8266_hosted_linux.Base.{
  ℕ, ◌+◌, ◌-◌, ◌*◌, ◌≤◌, ◌<◌, ◌≡◌, inl, inr, refl, sym, ap, ap₂, subst, ◌∙◌, arith, true, false, [],
  ◌∷◌, ◌++◌, Bytes, length, take, drop, poke, leb, ◌==◌, length-append, length-drop, length-take,
  append_assoc, append-nil, poke-append, length-poke, take-append-drop, take_all, ne→==, lt→ltb,
  Bool-cases,
}
use esp8266_hosted_linux.Dump.{
  Dumped, logged, dump_overflows, output_size, digit, hex_byte, text_of, snprintf, finish,
}

-- The reference: the text of a list of bytes.
unfoldable pub hex : Bytes → Bytes
unfolding hex_byte
hex [] = []
hex (b ∷ bs) = hex_byte b ++ hex bs

abbrev pub NoNul : Bytes → Type 0
NoNul [] = Unit
NoNul (x ∷ xs) = (0 < x) × NoNul xs

NoNul-append : (a b : Bytes) → NoNul a → NoNul b → NoNul (a ++ b)
NoNul-append [] b h k = k
NoNul-append (x ∷ a) b h k = (h.0, NoNul-append a b h.1 k)

digit_pos : (n : ℕ) → 0 < digit n
digit_pos n = ground arith

hex_byte-NoNul : (b : ℕ) → NoNul (hex_byte b)
unfolding hex_byte
hex_byte-NoNul b = (omega arith, (omega arith, (digit_pos _, (digit_pos _, (omega arith, tt)))))

length-hex_byte : (b : ℕ) → length (hex_byte b) ≡ 5
unfolding hex_byte
length-hex_byte b = refl

text_of-nul : (a r : Bytes) → NoNul a → text_of (a ++ (0 ∷ r)) ≡ a
unfolding text_of
text_of-nul [] r h = refl
text_of-nul (x ∷ a) r h =
    rw (ne→== x 0 (λ e. omega (arith, e, h.0))) (ap (◌∷◌ x) (text_of-nul a r h.1))

-- The array holds the text `a`, which ends at `n`; behind it are other bytes.
module _ (a : Bytes) (clean : NoNul a) (n : ℕ) (at_end : n ≡ length a) where
  finish-text : (i x : ℕ) (r : Bytes) → finish i n (a ++ (x ∷ r)) ≡ logged i a (a ++ (0 ∷ r))
  unfolding finish
  finish-text i x r =
      let e : poke n (0 ∷ []) (a ++ (x ∷ r)) ≡ a ++ (0 ∷ r) =
        poke-append n a (x ∷ []) r (0 ∷ []) at_end refl in
      let l : n < length (a ++ (x ∷ r)) = omega (arith, at_end, length-append a (x ∷ r)) in
      rw (lt→ltb n (length (a ++ (x ∷ r))) l, e)
        (ap (λ t. logged i t (a ++ (0 ∷ r))) (text_of-nul a r clean))

  snprintf-fits :
      (text more : Bytes)
      → length text < length more
      → snprintf n text (a ++ more) ≡ (a ++ text) ++ (0 ∷ drop (length text + 1) more)
  unfolding snprintf
  snprintf-fits text more fits =
      let size = length (a ++ more) - n in
      let s : size ≡ length more = omega (arith, at_end, length-append a more) in
      let r = drop (length text + 1) more in
      let b = text ++ (0 ∷ []) in
      let cut : take (size - 1) text ≡ text = take_all (size - 1) text (omega (arith, s, fits)) in
      rw (ne→== size 0 (λ e. omega (arith, e, s, fits)), cut)
        (ap (λ m. poke n b (a ++ m)) (sym (take-append-drop (length text + 1) more))
          ∙ poke-append n a (take (length text + 1) more) r b at_end
              (omega (arith, length-append text (0 ∷ []), length-take (length text + 1) more, fits))
          ∙ ap (λ z. a ++ z) (append_assoc text (0 ∷ []) r)
          ∙ sym (append_assoc a text (0 ∷ r)))

pub length-snprintf :
    (n : ℕ) (text output : Bytes)
    → n ≤ length output
    → length (snprintf n text output) ≡ length output
unfolding snprintf
length-snprintf n text output h = elim (Bool-cases (length output - n == 0)) [
  | inl e ↦ rw e refl
  | inr e ↦ rw e (
      length-poke n (take (length output - n - 1) text ++ (0 ∷ [])) output (
        ground (
          arith,
          e,
          length-append (take (length output - n - 1) text) (0 ∷ []),
          length-take (length output - n - 1) text,
        )))
]

pub le→leb : (a b : ℕ) → a ≤ b → leb a b ≡ true
le→leb a b h = ground arith

pub gt→leb : (a b : ℕ) → b < a → leb a b ≡ false
gt→leb a b h = ground arith

-- In a loop of dumps the array `a ++ more` has the
-- text of the first `i` bytes in front, and its size is not a multiple of 5.
abbrev pub Filled : ℕ → ℕ → ℕ → Bytes → Bytes → Type 0
Filled size i n a more = NoNul a × (n ≡ length a) × (n ≡ 5 * i) × (length a + length more ≡ size)

-- Room for one more byte
pub Filled-next :
    (size i n b : ℕ) (a more : Bytes)
    → Filled size i n a more
    → 5 < length more
    → Filled size (i + 1) (n + 5) (a ++ hex_byte b) (0 ∷ drop 6 more)
Filled-next size i n b a more f room =
    let h = length-hex_byte b in
    let l = length-append a (hex_byte b) in
    (
      NoNul-append a (hex_byte b) f.0 (hex_byte-NoNul b),
      omega (arith, f.1, l, h),
      omega (arith, f.2),
      omega (arith, f.3, l, h, length-drop 6 more, room),
    )

-- The text that is shown, and an array of the same size
abbrev pub Shows : ℕ → ℕ → Bytes → Dumped → Type 0
Shows size i text r = (output : Bytes) × (r ≡ logged i text output) × (length output ≡ size)

finish-Shows :
    (size i n : ℕ) (a more : Bytes)
    → Filled size i n a more
    → 0 < length more
    → Shows size i a (finish i n (a ++ more))
finish-Shows size i n a [] f room = absurd (omega arith)
finish-Shows size i n a (x ∷ r) f room =
    (a ++ (0 ∷ r), finish-text a f.0 n f.1 i x r, omega (arith, length-append a (0 ∷ r), f.3))

-- Nothing more is taken.
pub finish-none :
    (size i n : ℕ) (a more : Bytes)
    → Filled size i n a more
    → 0 < length more
    → Shows size (i + 0) (a ++ []) (finish i n (a ++ more))
finish-none size i n a more f room = rw append-nil (
    subst (λ k. Shows size k a (finish i n (a ++ more))) {x = i} (omega arith)
      (finish-Shows size i n a more f room))

-- The loops' call of `snprintf`, when there is room
pub snprintf-byte :
    (n b : ℕ) (a more : Bytes)
    → NoNul a
    → n ≡ length a
    → 5 < length more
    → snprintf n (hex_byte b) (a ++ more) ≡ (a ++ hex_byte b) ++ (0 ∷ drop 6 more)
snprintf-byte n b a more clean e room =
    snprintf-fits a clean n e (hex_byte b) more (omega (arith, length-hex_byte b, room))
    ∙ ap (λ k. (a ++ hex_byte b) ++ (0 ∷ drop (k + 1) more)) (length-hex_byte b)

pub logged-same :
    (i b : ℕ) (a buf output : Bytes)
    → logged (i + 1 + length buf) ((a ++ hex_byte b) ++ hex buf) output
      ≡ logged (i + length (b ∷ buf)) (a ++ hex (b ∷ buf)) output
unfolding hex
logged-same i b a buf output =
    ap₂ (λ k t. logged k t output) {x = i + 1 + length buf} (omega arith)
      (append_assoc a (hex_byte b) (hex buf))

pub from_zero :
    (size n : ℕ) (text : Bytes) (r : Dumped) → Shows size (0 + n) text r → Shows size n text r
from_zero size n text r h = subst (λ k. Shows size k text r) {x = 0 + n} (omega arith) h

pub dump_overflows-false : (buf : Bytes) → length buf ≤ 819 → dump_overflows buf ≡ false
dump_overflows-false buf h = gt→leb output_size (5 * length buf) (omega (arith, h))

pub dump_overflows-true : (buf : Bytes) → 819 < length buf → dump_overflows buf ≡ true
dump_overflows-true buf h = le→leb output_size (5 * length buf) (omega (arith, h))

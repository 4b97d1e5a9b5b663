-- ===== src/Driver/Probe/Texts.antt =====
-- A property of the device tree in its array: `probe_text` and `probe_tty_name` on every branch.
use esp8266_hosted_linux.Base.{
  ℕ, ◌+◌, ◌/◌, ◌%◌, ◌≤◌, ◌<◌, ◌≡◌, ◌⊎◌, inl, inr, refl, sym, ap, ◌∙◌, arith, Option, none, some, [],
  ◌∷◌, ◌++◌, Bytes, length, drop, poke, ltb, if◌then◌else◌, Bool-cases, length-append, length-poke,
  length-drop, append_assoc, take-append, poke-behind, ltb→lt, ltb→ge,
}
use esp8266_hosted_linux.Frame.{split_cmd, frame, read16}
use esp8266_hosted_linux.Frame.Parse.{length-frame}
use esp8266_hosted_linux.Driver.Settings.{written_text}
use esp8266_hosted_linux.Driver.Probe.{no_text, some_text, probe_text, probe_tty_name}

-- What the reset work will write for a property: its frame, or a frame of no bytes without its end when
-- there is no property or it is longer than the limit.
abbrev pub property_frame : ℕ → Option Bytes → Bytes
property_frame limit none = 0 ∷ 0 ∷ 0 ∷ []
property_frame limit (some text) =
    if ltb limit (length text + 1) then 0 ∷ 0 ∷ 0 ∷ [] else frame split_cmd (text ++ (0 ∷ []))

some_text-frame :
    (text array : Bytes)
    → length text + 4 ≤ length array
    → (r : Bytes) × (some_text text array ≡ frame split_cmd (text ++ (0 ∷ [])) ++ r)
unfolding frame
some_text-frame text array fits =
    let count = length text + 1 in
    let t = text ++ (0 ∷ []) in
    let n : length t ≡ count = length-append text (0 ∷ []) in
    let hdr = (count % 256) ∷ (count / 256 % 256) ∷ [] in
    let rest = drop 2 array in
    let rest₂ = drop (length t) rest in
    let m = length-drop 2 array in
    let m₂ = length-drop (length t) rest in
    let end = split_cmd ∷ [] in
    (
      drop 1 rest₂,
      ap (λ a. poke (2 + count) end (poke 2 t a))
            (poke-behind 0 [] hdr array refl (omega (arith, fits)))
          ∙ ap (poke (2 + count) end) (poke-behind 2 hdr t rest refl (omega (arith, n, m, fits)))
          ∙ poke-behind (2 + count) (hdr ++ t) end rest₂ (omega (arith, n))
              (omega (arith, n, m, m₂, fits))
          ∙ ap (λ k. (k % 256) ∷ (k / 256 % 256) ∷ (t ++ (end ++ drop 1 rest₂))) (sym n)
          ∙ ap (λ z. (length t % 256) ∷ (length t / 256 % 256) ∷ z)
              (sym (append_assoc t end (drop 1 rest₂))),
    )

length-some_text :
    (text array : Bytes)
    → length text + 4 ≤ length array
    → length (some_text text array) ≡ length array
length-some_text text array fits =
    let count = length text + 1 in
    let n = length-append text (0 ∷ []) in
    let a₁ = poke 0 ((count % 256) ∷ (count / 256 % 256) ∷ []) array in
    let a₂ = poke 2 (text ++ (0 ∷ [])) a₁ in
    let e₁ = length-poke 0 ((count % 256) ∷ (count / 256 % 256) ∷ []) array (omega (arith, fits)) in
    let e₂ = length-poke 2 (text ++ (0 ∷ [])) a₁ (omega (arith, n, e₁, fits)) in
    length-poke (2 + count) (split_cmd ∷ []) a₂ (omega (arith, e₁, e₂, fits)) ∙ e₂ ∙ e₁

written-some_text :
    (text array : Bytes)
    → length text + 4 ≤ length array
    → length text < 64
    → written_text (some_text text array) ≡ frame split_cmd (text ++ (0 ∷ []))
unfolding frame
written-some_text text array fits short =
    let (r, e) = some_text-frame text array fits in
    let f = frame split_cmd (text ++ (0 ∷ [])) in
    ap written_text e
    ∙ take-append f r (read16 (f ++ r) + 3)
        (omega (arith, length-append text (0 ∷ []), length-frame split_cmd (text ++ (0 ∷ []))))

-- A text that passes the test but does not fit, and one for which that is not so
abbrev pub Overruns : (limit size : ℕ) → Option Bytes → Type 0
Overruns limit size none = ⊥
Overruns limit size (some text) = (length text + 1 ≤ limit) × (size < length text + 4)

abbrev pub Fits : (limit size : ℕ) → Option Bytes → Type 0
Fits limit size none = Unit
Fits limit size (some text) = (limit < length text + 1) ⊎ (length text + 4 ≤ size)

abbrev pub IsText : ℕ → Option Bytes → ℕ → Bytes → Type 0
IsText limit prop size array =
    (length array ≡ size) × (written_text array ≡ property_frame limit prop)

abbrev pub TextOutcome : (limit size : ℕ) → Option Bytes → Option Bytes → Type 0
TextOutcome limit size prop none = Overruns limit size prop
TextOutcome limit size prop (some array) = Fits limit size prop × IsText limit prop size array

pub probe_text-Outcome :
    (limit : ℕ) (prop : Option Bytes) (array : Bytes)
    → length array ≤ 67
    → length (no_text array) ≡ length array
    → written_text (no_text array) ≡ 0 ∷ 0 ∷ 0 ∷ []
    → TextOutcome limit (length array) prop (probe_text limit prop array)
unfolding probe_text
probe_text-Outcome limit none array small l w = (tt, (l, w))
probe_text-Outcome limit (some text) array small l w =
    elim (Bool-cases (ltb limit (length text + 1))) [
      | inl e ↦ rw e (inl (ltb→lt limit (length text + 1) e), (l, rw e w))
      | inr e ↦
          let passed = ltb→ge limit (length text + 1) e in
          elim (Bool-cases (ltb (length array) (length text + 1 + 3))) [
            | inl e' ↦
                rw (e, e') (passed, omega (arith, ltb→lt (length array) (length text + 1 + 3) e'))
            | inr e' ↦
                let fits : length text + 4 ≤ length array =
                  omega (arith, ltb→ge (length array) (length text + 1 + 3) e') in
                rw (e, e')
                  (
                    inr fits,
                    (
                      length-some_text text array fits,
                      rw e (written-some_text text array fits (omega (arith, fits, small))),
                    ),
                  )
          ]
    ]

pub length-probe_tty_name :
    (prop : Option Bytes) (array : Bytes)
    → 1 ≤ length array
    → length (probe_tty_name prop array) ≡ length array
unfolding probe_tty_name
length-probe_tty_name none array pos = length-poke 0 (0 ∷ []) array (omega (arith, pos))
length-probe_tty_name (some text) array pos =
    elim (Bool-cases (ltb (length array) (length text + 1))) [
      | inl e ↦ rw e (length-poke 0 (0 ∷ []) array (omega (arith, pos)))
      | inr e ↦ rw e (
          length-poke 0 (text ++ (0 ∷ [])) array
            (omega (arith, length-append text (0 ∷ []), ltb→ge (length array) (length text + 1) e)))
    ]

-- ===== src/Driver/Settings/Show.antt =====
-- What is written to the sysfs files of the settings, and what they show afterwards.
use esp8266_hosted_linux.Base.{
  ℕ, ◌+◌, ◌-◌, ◌≤◌, ◌≡◌, refl, sym, ap, ◌∙◌, arith, inl, inr, some, [], ◌∷◌, ◌++◌, Bytes, length,
  take, drop, poke, ◌==◌, if◌then◌else◌, Bool-cases, length-append, append_assoc, take-append,
  take-append-drop, take_all, append-nil, poke-append, ne→==, ==→eq, eq→==, ge→ltb, get_or,
  length-take,
}
use esp8266_hosted_linux.Frame.{split_cmd, frame}
use esp8266_hosted_linux.Driver.Settings.{
  Settings, Attribute, attr_tty_name, attr_ssid, attr_password, attr_other, tty_name_size,
  wpa_max_ssid_len, wpa_max_passwd_len, stored, checked, strncpy, store_tty_name, store_text,
  str_store, Shown, shown, c_string, show_text, str_show,
}
use esp8266_hosted_linux.Driver.Settings.Frames.{
  NoNul, IsSettings, store_text-line, accepted, strncpy-line, line-newline, with_ssid,
  with_password,
}

c_string-nul : (t r : Bytes) → NoNul t → c_string (t ++ (0 ∷ r)) ≡ some t
unfolding c_string
c_string-nul [] r h = refl
c_string-nul (x ∷ t) r h = rw (ne→== x 0 (λ e. ground (arith, e, h.0)), c_string-nul t r h.1) refl

-- What is shown of a text, by a call that may write `size` bytes: with its newline, or with a NUL in its
-- place when there is no room for both.
abbrev pub line_shown : ℕ → Bytes → Bytes
line_shown size t = t ++ ((if length t + 1 == size then 0 else 10) ∷ [])

abbrev Shows : ℕ → Bytes → Shown → Type 0
Shows size t r =
    (page : Bytes) × (r ≡ shown (length t + 1) page)
    × (take (length t + 1) page ≡ line_shown size t)

-- The first bytes of a page after a write to its front
take-front : (n : ℕ) (a b page : Bytes) → n ≡ length a → take n (poke 0 (a ++ b) page) ≡ a
unfolding poke
take-front n a b page e =
    let rest = drop (0 + length (a ++ b)) page in
    ap (take n) (append_assoc a b rest) ∙ take-append a (b ++ rest) n e

show_text-Shows :
    (size : ℕ) (t r page : Bytes)
    → NoNul t
    → length t + 1 ≤ size
    → Shows size t (show_text size (t ++ (0 ∷ r)) page)
unfolding show_text
show_text-Shows size t r page clean short =
    let line = t ++ (10 ∷ []) in
    let n = length-append t (10 ∷ []) in
    (
      poke 0 (take (size - 1) line ++ (0 ∷ [])) page,
      rw (c_string-nul t r clean, show_text) refl,
      elim (Bool-cases (length t + 1 == size)) [
        | inl e ↦
            rw (e, take-append t (10 ∷ []) (size - 1) (omega (arith, ==→eq (length t + 1) size e)))
              (ap (λ b. take (length t + 1) (poke 0 b page)) (sym (append-nil (t ++ (0 ∷ []))))
                ∙ take-front (length t + 1) (t ++ (0 ∷ [])) [] page
                    (omega (arith, length-append t (0 ∷ []))))
        | inr e ↦
            rw (e, take_all (size - 1) line (ground (arith, n, e, short)))
              (take-front (length t + 1) line (0 ∷ []) page (omega (arith, n)))
      ],
    )

-- The array of a text that has been stored, without the length in front
text_stored :
    (array t : Bytes)
    → NoNul t
    → length t + 4 ≤ length array
    → (r : Bytes) × (drop 2 (store_text array (t ++ (10 ∷ []))) ≡ t ++ (0 ∷ r))
unfolding frame
text_stored array t clean fits =
    let (r, e) = store_text-line array t clean fits in
    (
      split_cmd ∷ r,
      ap (drop 2) e
          ∙ append_assoc (t ++ (0 ∷ [])) (split_cmd ∷ []) r
          ∙ append_assoc t (0 ∷ []) (split_cmd ∷ r),
    )

tty_name_stored :
    (array t : Bytes)
    → NoNul t
    → length t + 1 ≤ length array
    → (r : Bytes) × (store_tty_name array (t ++ (10 ∷ [])) ≡ t ++ (0 ∷ r))
unfolding store_tty_name
tty_name_stored array t clean fits =
    let line = t ++ (10 ∷ []) in
    let count = length line in
    let n : count ≡ length t + 1 = length-append t (10 ∷ []) in
    let c = drop count array in
    (
      c,
      ap (λ b. poke (count - 1) (0 ∷ []) (poke 0 b array))
            (ap (strncpy line) n ∙ strncpy-line t clean)
          ∙ ap (λ a. poke (count - 1) (0 ∷ []) (poke 0 line a)) (sym (take-append-drop count array))
          ∙ ap (poke (count - 1) (0 ∷ [])) (
              poke-append 0 [] (take count array) c line refl
                (omega (arith, n, fits, length-take count array)))
          ∙ ap (poke (count - 1) (0 ∷ [])) (append_assoc t (10 ∷ []) c)
          ∙ poke-append (count - 1) t (10 ∷ []) c (0 ∷ []) (omega (arith, n)) refl,
    )

-- How many bytes a file takes, with the newline.
abbrev pub limit_of : Attribute → ℕ
limit_of attr_tty_name = tty_name_size
limit_of attr_ssid = wpa_max_ssid_len
limit_of attr_password = wpa_max_passwd_len
limit_of attr_other = 0

-- A line without NULs that fits the file `tty_name`, `ssid` or `password` is stored, and the file then
-- shows it again; only a line that fills the file to its limit is shown with a NUL in place of its
-- newline.
pub str_store-str_show :
    (attr : Attribute) (s : Settings) (t page : Bytes)
    → IsSettings s
    → NoNul t
    → length t + 1 ≤ limit_of attr
    → (s' : Settings) × (page' : Bytes) × (str_store attr (t ++ (10 ∷ [])) s
        ≡ stored (length t + 1) s')
      × (str_show attr s' page ≡ shown (length t + 1) page')
      × (take (length t + 1) page' ≡ line_shown (limit_of attr) t)
unfolding str_store str_show checked
str_store-str_show attr_tty_name s t page v clean short =
    let line = t ++ (10 ∷ []) in
    let n = length-append t (10 ∷ []) in
    let s' = record s { tty_name = store_tty_name s.tty_name line } in
    let (r, e) = tty_name_stored s.tty_name t clean (omega (arith, v.tty_name, short)) in
    let (page', q, front) = show_text-Shows tty_name_size t r page clean short in
    (
      s',
      page',
      rw
          (
            ne→== (length line) 0 (omega (arith, n)),
            eq→== (get_or line (length line - 1) 0) 10 (line-newline t),
            ge→ltb tty_name_size (length line) (omega (arith, n, short)),
            ge→ltb (length s.tty_name) (length line) (omega (arith, n, short, v.tty_name)),
          )
          (ap (λ k. stored k s') n),
      ap (λ a. show_text tty_name_size a page) e ∙ q,
      front,
    )
str_store-str_show attr_ssid s t page v clean short =
    let (r, e) = text_stored s.ssid t clean (omega (arith, v.ssid, short)) in
    let (page', q, front) = show_text-Shows wpa_max_ssid_len t r page clean short in
    (
      with_ssid s (t ++ (10 ∷ [])),
      page',
      accepted wpa_max_ssid_len (length s.ssid) t (with_ssid s (t ++ (10 ∷ []))) short
          (omega (arith, v.ssid, short)),
      ap (λ a. show_text wpa_max_ssid_len a page) e ∙ q,
      front,
    )
str_store-str_show attr_password s t page v clean short =
    let (r, e) = text_stored s.password t clean (omega (arith, v.password, short)) in
    let (page', q, front) = show_text-Shows wpa_max_passwd_len t r page clean short in
    (
      with_password s (t ++ (10 ∷ [])),
      page',
      accepted wpa_max_passwd_len (length s.password) t (with_password s (t ++ (10 ∷ []))) short
          (omega (arith, v.password, short)),
      ap (λ a. show_text wpa_max_passwd_len a page) e ∙ q,
      front,
    )
str_store-str_show attr_other s t page v clean short = absurd (omega (arith, short))

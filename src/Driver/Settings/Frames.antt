-- ===== src/Driver/Settings/Frames.antt =====
-- `str_store` keeps the arrays in bounds, and what the reset work writes are frames.
use esp8266_hosted_linux.Base.{
  ℕ, zero, suc, ◌+◌, ◌-◌, ◌%◌, ◌/◌, ◌≤◌, ◌<◌, ◌≡◌, ◌≢◌, refl, ap, sym, ◌∙◌, arith, [], ◌∷◌, ◌++◌,
  Bytes, length, get_or, take, drop, poke, length-poke, poke-append, ◌==◌, not, if◌then◌else◌,
  length-append, take-append, take-append-drop, length-take, length-drop, append_assoc,
  get_or-append, ge→ltb, eq→==, ne→==,
}
use esp8266_hosted_linux.Frame.{split_cmd, read16, frame}
use esp8266_hosted_linux.Frame.Parse.{length-frame}
use esp8266_hosted_linux.Driver.Settings.{
  Settings, tty_name_size, ssid_size, password_size, Attribute, attr_tty_name, attr_ssid,
  attr_password, attr_other, Stored, stored, einval, out_of_bounds, strncpy, store_text,
  store_tty_name, checked, str_store, written_text, wpa_max_ssid_len, wpa_max_passwd_len,
}

length-strncpy : (buf : Bytes) (n : ℕ) → length (strncpy buf n) ≡ n
unfolding strncpy
length-strncpy buf zero = refl
length-strncpy [] (suc n) = ap suc (length-strncpy [] n)
length-strncpy (x ∷ xs) (suc n) = ground (arith, length-strncpy xs n, length-strncpy [] n)

abbrev pub NoNul : Bytes → Type 0
NoNul [] = Unit
NoNul (x ∷ xs) = (x ≢ 0) × NoNul xs

pub strncpy-line :
    (text : Bytes) → NoNul text → strncpy (text ++ (10 ∷ [])) (length text + 1) ≡ text ++ (10 ∷ [])
unfolding strncpy
strncpy-line [] h = refl
strncpy-line (x ∷ xs) h = ground (arith, strncpy-line xs h.1, h.0)

length-store_text :
    (array buf : Bytes)
    → 0 < length buf
    → length buf + 3 ≤ length array
    → length (store_text array buf) ≡ length array
unfolding store_text
length-store_text array buf pos fits =
    let count = length buf in
    let a₁ = poke 0 ((count % 256) ∷ (count / 256 % 256) ∷ []) array in
    let a₂ = poke 2 (strncpy buf count) a₁ in
    let a₃ = poke (2 + count - 1) (0 ∷ []) a₂ in
    let e₁ = length-poke 0 ((count % 256) ∷ (count / 256 % 256) ∷ []) array (omega arith) in
    let e₂ = length-poke 2 (strncpy buf count) a₁ (omega (arith, e₁, length-strncpy buf count)) in
    let e₃ = length-poke (2 + count - 1) (0 ∷ []) a₂ (omega (arith, e₁, e₂)) in
    length-poke (2 + count) (split_cmd ∷ []) a₃ (omega (arith, e₁, e₂, e₃)) ∙ e₃ ∙ e₂ ∙ e₁

pub length-store_tty_name :
    (array buf : Bytes)
    → 0 < length buf
    → length buf ≤ length array
    → length (store_tty_name array buf) ≡ length array
unfolding store_tty_name
length-store_tty_name array buf pos fits =
    let a = poke 0 (strncpy buf (length buf)) array in
    let e =
      length-poke 0 (strncpy buf (length buf)) array
        (omega (arith, length-strncpy buf (length buf))) in
    length-poke (length buf - 1) (0 ∷ []) a (omega (arith, e)) ∙ e

-- The arrays have their sizes.
pub record IsSettings (s : Settings) : Type 0 where
  pub tty_name : length s.tty_name ≡ tty_name_size
  pub ssid : length s.ssid ≡ ssid_size
  pub password : length s.password ≡ password_size

abbrev pub Kept : ℕ → Stored → Type 0
Kept count (stored n s) = (n ≡ count) × IsSettings s
Kept count einval = Unit
Kept count out_of_bounds = ⊥

-- `str_store` of at least one byte, to any file, stays inside its arrays.
pub str_store-Kept :
    (attr : Attribute) (buf : Bytes) (s : Settings)
    → IsSettings s
    → 0 < length buf
    → Kept (length buf) (str_store attr buf s)
unfolding str_store checked
str_store-Kept attr_tty_name buf s v pos = ground (arith, length-store_tty_name s.tty_name buf)
str_store-Kept attr_ssid buf s v pos = ground (arith, length-store_text s.ssid buf)
str_store-Kept attr_password buf s v pos = ground (arith, length-store_text s.password buf)
str_store-Kept attr_other buf s v pos = ground arith

-- What `store_text` leaves of a line.
pub store_text-line :
    (array text : Bytes)
    → NoNul text
    → length text + 4 ≤ length array
    → (r : Bytes) × (store_text array (text ++ (10 ∷ [])) ≡ frame split_cmd (text ++ (0 ∷ [])) ++ r)
unfolding store_text frame
store_text-line array text clean fits =
    let buf = text ++ (10 ∷ []) in
    let count = length buf in
    let n : count ≡ length text + 1 = length-append text (10 ∷ []) in
    let same : count ≡ length (text ++ (0 ∷ [])) = omega (arith, n, length-append text (0 ∷ [])) in
    let hdr = (count % 256) ∷ (count / 256 % 256) ∷ [] in
    let rest = drop 2 array in
    let rest₃ = drop count rest in
    let x = take count rest in
    let y = take 1 rest₃ in
    let r = drop 1 rest₃ in
    let m = length-drop 2 array in
    let m₃ = length-drop count rest in
    let e₀ : array ≡ take 2 array ++ rest = sym (take-append-drop 2 array) in
    let e₁ : poke 0 hdr array ≡ hdr ++ (x ++ rest₃) =
      ap (poke 0 hdr) e₀
      ∙ poke-append 0 [] (take 2 array) rest hdr refl (omega (arith, length-take 2 array))
      ∙ ap (λ z. hdr ++ z) (sym (take-append-drop count rest)) in
    let e₂ : poke 2 (strncpy buf count) (hdr ++ (x ++ rest₃)) ≡ hdr ++ (buf ++ rest₃) =
      ap (λ k. poke 2 (strncpy buf k) (hdr ++ (x ++ rest₃))) n
      ∙ ap (λ b. poke 2 b (hdr ++ (x ++ rest₃))) (strncpy-line text clean)
      ∙ poke-append 2 hdr x rest₃ buf refl (omega (arith, n, m, length-take count rest)) in
    let e₃ : poke (2 + count - 1) (0 ∷ []) (hdr ++ (buf ++ rest₃))
        ≡ (hdr ++ text) ++ ((0 ∷ []) ++ rest₃) =
      ap (λ z. poke (2 + count - 1) (0 ∷ []) (hdr ++ z)) (append_assoc text (10 ∷ []) rest₃)
      ∙ poke-append (2 + count - 1) (hdr ++ text) (10 ∷ []) rest₃ (0 ∷ []) (omega (arith, n))
          refl in
    let e₄ : poke (2 + count) (split_cmd ∷ []) ((hdr ++ text) ++ ((0 ∷ []) ++ rest₃))
        ≡ ((hdr ++ text) ++ (0 ∷ [])) ++ ((split_cmd ∷ []) ++ r) =
      ap (poke (2 + count) (split_cmd ∷ [])) (
        sym (append_assoc (hdr ++ text) (0 ∷ []) rest₃)
        ∙ ap (λ z. ((hdr ++ text) ++ (0 ∷ [])) ++ z) (sym (take-append-drop 1 rest₃)))
      ∙ poke-append (2 + count) ((hdr ++ text) ++ (0 ∷ [])) y r (split_cmd ∷ [])
          (omega (arith, n, length-append (hdr ++ text) (0 ∷ [])))
          (omega (arith, n, m, m₃, length-take 1 rest₃)) in
    (
      r,
      ap
            (λ a.
              poke (2 + count) (split_cmd ∷ [])
                (poke (2 + count - 1) (0 ∷ []) (poke 2 (strncpy buf count) a)))
            e₁
          ∙ ap (λ a. poke (2 + count) (split_cmd ∷ []) (poke (2 + count - 1) (0 ∷ []) a)) e₂
          ∙ ap (poke (2 + count) (split_cmd ∷ [])) e₃
          ∙ e₄
          ∙ ap (λ k. (k % 256) ∷ (k / 256 % 256) ∷ ((text ++ (0 ∷ [])) ++ (split_cmd ∷ r))) same
          ∙ ap
              (λ z. (length (text ++ (0 ∷ [])) % 256) ∷ (length (text ++ (0 ∷ [])) / 256 % 256) ∷ z)
              (sym (append_assoc (text ++ (0 ∷ [])) (split_cmd ∷ []) r)),
    )

written_text-line :
    (array text : Bytes)
    → NoNul text
    → length text + 4 ≤ length array
    → length text < 64
    → written_text (store_text array (text ++ (10 ∷ []))) ≡ frame split_cmd (text ++ (0 ∷ []))
unfolding frame
written_text-line array text clean fits short =
    let (r, e) = store_text-line array text clean fits in
    let f = frame split_cmd (text ++ (0 ∷ [])) in
    let n = length-append text (0 ∷ []) in
    ap written_text e
    ∙ take-append f r (read16 (f ++ r) + 3)
        (omega (arith, n, length-frame split_cmd (text ++ (0 ∷ []))))

-- The last byte of a line
pub line-newline :
    (text : Bytes) → get_or (text ++ (10 ∷ [])) (length (text ++ (10 ∷ [])) - 1) 0 ≡ 10
line-newline text = get_or-append text [] 10 0 _ (omega (arith, length-append text (10 ∷ [])))

-- A line that is not too long passes the tests.
pub accepted :
    (limit size : ℕ) (text : Bytes) (s : Settings)
    → let line = text ++ (10 ∷ []) in
      length text + 1 ≤ limit
      → length text + 4 ≤ size
      → (if length line == 0
          then out_of_bounds
          else if not (get_or line (length line - 1) 0 == 10)
          then einval
          else checked limit (2 + length line + 1) size (length line) s)
        ≡ stored (length text + 1) s
unfolding checked
accepted limit size text s short fits =
    let line = text ++ (10 ∷ []) in
    let n = length-append text (10 ∷ []) in
    rw
      (
        ne→== (length line) 0 (omega (arith, n)),
        eq→== (get_or line (length line - 1) 0) 10 (line-newline text),
        ge→ltb limit (length line) (omega (arith, n)),
        ge→ltb size (2 + length line + 1) (omega (arith, n)),
      )
      (ap (λ k. stored k s) n)

-- The settings with a new SSID or a new password
abbrev pub with_ssid : Settings → Bytes → Settings
with_ssid s line = record s { ssid = store_text s.ssid line }

abbrev pub with_password : Settings → Bytes → Settings
with_password s line = record s { password = store_text s.password line }

module _ (s : Settings) (v : IsSettings s) (text : Bytes) (clean : NoNul text) where
  -- A line without NULs, of at most 32 bytes with its newline, written to `ssid`, is stored whole: the
  -- bytes that the reset work writes for it are the frame of the text with a NUL; password and tty
  -- name stay.
  pub str_store-ssid :
      length text + 1 ≤ wpa_max_ssid_len
      → (s' : Settings) × (str_store attr_ssid (text ++ (10 ∷ [])) s ≡ stored (length text + 1) s')
        × IsSettings s'
        × (written_text s'.ssid ≡ frame split_cmd (text ++ (0 ∷ [])))
        × (s'.password ≡ s.password)
        × (s'.tty_name ≡ s.tty_name)
  unfolding str_store checked
  str_store-ssid short =
      let line = text ++ (10 ∷ []) in
      let n = length-append text (10 ∷ []) in
      (
        with_ssid s line,
        accepted wpa_max_ssid_len (length s.ssid) text (with_ssid s line) short
            (omega (arith, v.ssid)),
        record {
          tty_name = v.tty_name;
          password = v.password;
          ssid =
              length-store_text s.ssid line (omega (arith, n)) (omega (arith, n, v.ssid)) ∙ v.ssid;
        },
        written_text-line s.ssid text clean (omega (arith, v.ssid)) (omega arith),
        refl,
        refl,
      )

  -- A line without NULs, of at most 64 bytes with its newline, written to `password`, is stored whole:
  -- the bytes that the reset work writes for it are the frame of the text with a NUL; SSID and tty
  -- name stay.
  pub str_store-password :
      length text + 1 ≤ wpa_max_passwd_len
      → (s' : Settings) × (str_store attr_password (text ++ (10 ∷ [])) s
          ≡ stored (length text + 1) s')
        × IsSettings s'
        × (written_text s'.password ≡ frame split_cmd (text ++ (0 ∷ [])))
        × (s'.ssid ≡ s.ssid)
        × (s'.tty_name ≡ s.tty_name)
  unfolding str_store checked
  str_store-password short =
      let line = text ++ (10 ∷ []) in
      let n = length-append text (10 ∷ []) in
      (
        with_password s line,
        accepted wpa_max_passwd_len (length s.password) text (with_password s line) short
            (omega (arith, v.password)),
        record {
          tty_name = v.tty_name;
          ssid = v.ssid;
          password =
              length-store_text s.password line (omega (arith, n)) (omega (arith, n, v.password))
              ∙ v.password;
        },
        written_text-line s.password text clean (omega (arith, v.password)) (omega arith),
        refl,
        refl,
      )

-- ===== src/V4l/Ident.antt =====
-- Source identifiers of src/sapi_v4l.c, "<device path>,<channel>": `parse_src_identifier`, and the
-- identifiers that `src_list_device_append` makes.
use libvidcap.Base.{
  ℕ, zero, suc, ◌<◌, ◌≤◌, ◌≡◌, ◌≢◌, refl, ap, ◌∙◌, arith, Bool, true, false, leb, ◌==◌, ◌&&◌,
  if◌then◌else◌, Option, none, some, List, [], ◌∷◌, ◌++◌, length, take, ℤ, IsInt,
}
use libvidcap.V4l.Text.{Text, print_int, scan_int, scan_int-print_int}

-- `struct vidcap_src_info`
pub record Source : Type 0 where
  pub identifier : Text
  pub description : Text

-- `device_path_max`
abbrev pub device_path_max : ℕ
device_path_max = 128

-- The text before the first `,`, which is 44, and the text after it.
abbrev pub split_at_comma : Text → Option (Text × Text)
split_at_comma [] = none
split_at_comma (c ∷ l) =
    if c == 44
    then some ([], l)
    else elim (split_at_comma l) [ none ↦ none | some r ↦ some (c ∷ r.0, r.1) ]

-- With the path and the text of the channel. The path is stored in any case; the callers drop it
-- where this fails.
abbrev pub with_channel : Option (Text × Text) → Option (Text × ℤ)
with_channel none = none
with_channel (some (path, rest)) = elim (scan_int rest) [
  | none ↦ none
  | some channel ↦ some (path, channel)
]

-- `parse_src_identifier`; `none` is -1. The end of the text has to come within
-- `device_path_len` bytes.
unfoldable pub parse_src_identifier : Text → ℕ → Option (Text × ℤ)
parse_src_identifier identifier device_path_len =
    if leb device_path_len (length identifier)
    then none
    else with_channel (split_at_comma identifier)

-- The source that `src_list_device_append` makes. `snprintf` into 256 bytes keeps 255.
unfoldable pub device_source : Text → ℤ → Text → Text → Source
device_source device_path channel device_name channel_name = record {
  identifier = take 255 (device_path ++ 44 ∷ print_int channel);
  description = take 255 (device_name ++ 32 ∷ channel_name);
}

-- No `,` in a text.
abbrev pub NoComma : Text → Type 0
NoComma [] = Unit
NoComma (c ∷ l) = (c ≢ 44) × NoComma l

split_at_comma-append :
    (path rest : Text) → NoComma path → split_at_comma (path ++ 44 ∷ rest) ≡ some (path, rest)
split_at_comma-append [] rest h = refl
split_at_comma-append (c ∷ l) rest (h, hs) =
    let no : (c == 44) ≡ false = ground (arith, h) in rw (no, split_at_comma-append l rest hs) refl

with_channel_lem :
    (path rest : Text) (channel : ℤ)
    → scan_int rest ≡ some channel
    → with_channel (some (path, rest)) ≡ some (path, channel)
with_channel_lem path rest channel e = rw (with_channel, e) refl

take_all : {A : Type 0} (n : ℕ) (l : List A) → length l ≤ n → take n l ≡ l
take_all zero [] h = refl
take_all zero (x ∷ l) h = elim h [ ]
take_all (suc n) [] h = refl
take_all (suc n) (x ∷ l) h = ap (λ t. x ∷ t) (take_all n l (omega arith))

-- The identifier that is made for a channel of a device is read back as that channel and that
-- device, for a path without a comma and an identifier that fits `device_path_max`.
pub parse_src_identifier-device_source :
    (path : Text) (channel : ℤ) (device_name channel_name : Text)
    → NoComma path
    → IsInt channel
    → length (path ++ 44 ∷ print_int channel) < device_path_max
    → parse_src_identifier
        (device_source path channel device_name channel_name).identifier
        device_path_max
      ≡ some (path, channel)
unfolding parse_src_identifier device_source
parse_src_identifier-device_source path channel device_name channel_name plain int short =
    let whole = take_all 255 (path ++ 44 ∷ print_int channel) (omega arith) in
    let fits : leb device_path_max (length (path ++ 44 ∷ print_int channel)) ≡ false =
      ground (arith, short) in
    rw (whole, fits)
      (ap with_channel (split_at_comma-append path (print_int channel) plain)
        ∙ with_channel_lem path (print_int channel) channel (scan_int-print_int channel int))

-- Equality of texts.
abbrev pub same_text : Text → Text → Bool
same_text [] [] = true
same_text [] (d ∷ m) = false
same_text (c ∷ l) [] = false
same_text (c ∷ l) (d ∷ m) = (c == d) && same_text l m

pub same_text_refl : (t : Text) → same_text t t ≡ true
same_text_refl [] = refl
same_text_refl (c ∷ l) = let e : (c == c) ≡ true = ground arith in rw (e, same_text_refl l) refl

pub same_text-eq : (s t : Text) → same_text s t ≡ true → s ≡ t
same_text-eq [] [] h = refl
same_text-eq [] (d ∷ m) h = absurd (ground (arith, h))
same_text-eq (c ∷ l) [] h = absurd (ground (arith, h))
same_text-eq (c ∷ l) (d ∷ m) h =
    let heads : c ≡ d = ground (arith, h) in
    let tails : same_text l m ≡ true = ground (arith, h) in rw (heads, same_text-eq l m tails) refl

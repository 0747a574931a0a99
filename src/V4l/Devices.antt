-- ===== src/V4l/Devices.antt =====
-- The sources of one device in a list, and the others.
use libvidcap.Base.{
  ◌≤◌, ◌≡◌, ◌≢◌, refl, sym, ap, ◌∙◌, arith, true, false, List, [], ◌∷◌, ◌++◌, length, Bool-cases,
  inl, inr,
}
use libvidcap.V4l.Text.{Text}
use libvidcap.V4l.Ident.{Source, same_text-eq}
use libvidcap.V4l.SrcList.{path_of, is_on, on_device, off_device, AllNamed}

pub on_device-append :
    (path : Text) (l m : List Source)
    → on_device path (l ++ m) ≡ on_device path l ++ on_device path m
on_device-append path [] m = refl
on_device-append path (s ∷ l) m = elim (Bool-cases (is_on path s)) [
  | inl here ↦ rw here (ap (λ r. s ∷ r) (on_device-append path l m))
  | inr past ↦ rw past (on_device-append path l m)
]

pub off_device-append :
    (path : Text) (l m : List Source)
    → off_device path (l ++ m) ≡ off_device path l ++ off_device path m
off_device-append path [] m = refl
off_device-append path (s ∷ l) m = elim (Bool-cases (is_on path s)) [
  | inl here ↦ rw here (off_device-append path l m)
  | inr past ↦ rw past (ap (λ r. s ∷ r) (off_device-append path l m))
]

pub AllNamed-append : (l m : List Source) → AllNamed l → AllNamed m → AllNamed (l ++ m)
AllNamed-append [] m h k = k
AllNamed-append (s ∷ l) m (h, hs) k = (h, AllNamed-append l m hs k)

pub AllNamed-on : (path : Text) (l : List Source) → AllNamed l → AllNamed (on_device path l)
AllNamed-on path [] h = _
AllNamed-on path (s ∷ l) (h, hs) = elim (Bool-cases (is_on path s)) [
  | inl here ↦ rw here (h, AllNamed-on path l hs)
  | inr past ↦ rw past (AllNamed-on path l hs)
]

pub length-on_device : (path : Text) (l : List Source) → length (on_device path l) ≤ length l
length-on_device path [] = omega arith
length-on_device path (s ∷ l) = elim (Bool-cases (is_on path s)) [
  | inl here ↦ rw here (omega (arith, length-on_device path l))
  | inr past ↦ rw past (omega (arith, length-on_device path l))
]

pub off_device-all : (path : Text) (l : List Source) → on_device path l ≡ [] → off_device path l ≡ l
off_device-all path [] e = refl
off_device-all path (s ∷ l) e = elim (Bool-cases (is_on path s)) [
  | inl here ↦ ground (arith, e, here)
  | inr past ↦ rw past (ap (λ r. s ∷ r) (off_device-all path l (rw past at e)))
]

pub on_device-on :
    (path : Text) (l : List Source) → on_device path (on_device path l) ≡ on_device path l
on_device-on path [] = refl
on_device-on path (s ∷ l) = elim (Bool-cases (is_on path s)) [
  | inl here ↦ rw (here, here) (ap (λ r. s ∷ r) (on_device-on path l))
  | inr past ↦ rw past (on_device-on path l)
]

pub off_device-on : (path : Text) (l : List Source) → off_device path (on_device path l) ≡ []
off_device-on path [] = refl
off_device-on path (s ∷ l) = elim (Bool-cases (is_on path s)) [
  | inl here ↦ rw (here, here) (off_device-on path l)
  | inr past ↦ rw past (off_device-on path l)
]

-- A source is on one device.
is_on-other :
    (path path' : Text) (s : Source) → path ≢ path' → is_on path s ≡ true → is_on path' s ≡ false
is_on-other path path' s ne here = elim (Bool-cases (is_on path' s)) [
  | inl there ↦
      absurd (ne (sym (same_text-eq (path_of s) path here) ∙ same_text-eq (path_of s) path' there))
  | inr past ↦ past
]

pub on_device-other :
    (path path' : Text) (l : List Source) → path ≢ path' → on_device path' (on_device path l) ≡ []
on_device-other path path' [] ne = refl
on_device-other path path' (s ∷ l) ne = elim (Bool-cases (is_on path s)) [
  | inl here ↦ rw (here, is_on-other path path' s ne here) (on_device-other path path' l ne)
  | inr past ↦ rw past (on_device-other path path' l ne)
]

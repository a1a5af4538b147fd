-- ===== src/Patch/Access.antt =====
-- ios/IOS/Patch.cpp: which names the PowerPC can open.
use ctgpr_msc.Base.{
  ℕ, zero, suc, ◌<◌, ◌≡◌, refl, ap, ◌∙◌, inl, inr, arith, List, [], ◌∷◌, ◌++◌, Bool, Bool-cases,
  true, false, ◌||◌, ◌==◌, ==_iff, if◌then◌else◌, length, take, drop, get_or, set, replicate,
}
use ctgpr_msc.Base.Bytes.{eq_bytes}
use ctgpr_msc.Base.Words.{codes}
use ctgpr_msc.Patch.{
  strncpy, starts_with, device_name_for_ppc, is_internal, ppc_boot, ios_open_strncpy,
}

-- The names that are refused, and those that lead to the program's own devices.
unfoldable pub is_denied : List ℕ → Bool
is_denied name =
    eq_bytes name (codes "/dev/sao_loader")
    || (eq_bytes name (codes "/dev/flash") || eq_bytes name (codes "/dev/boot2"))

unfoldable pub is_proxied : List ℕ → Bool
is_proxied name =
    eq_bytes name (codes "/dev/es")
    || (eq_bytes name (codes "/dev/sdio/slot0") || eq_bytes name (codes "/dev/usb/hid"))

-- The name that is opened for the PowerPC: none for a name of the program's own or one that is refused.
unfoldable pub name_for_ppc : List ℕ → List ℕ
name_for_ppc name =
    if is_internal name || is_denied name
    then []
    else if is_proxied name
    then b'~' ∷ drop 1 name
    else name

-- The text in a buffer, up to its NUL.
unfoldable pub c_string : List ℕ → List ℕ
c_string [] = []
c_string (c ∷ cs) = if c == 0 then [] else c ∷ c_string cs

abbrev pub IsText : List ℕ → Type 0
IsText [] = Unit
IsText (c ∷ cs) = ((c == 0) ≡ false) × IsText cs

c_string-padded :
    (num pad : ℕ) (src : List ℕ)
    → length src < num
    → 0 < pad
    → IsText src
    → c_string (take num (src ++ replicate pad 0)) ≡ src
unfolding c_string
c_string-padded zero pad src h more text = absurd (omega arith)
c_string-padded (suc num) zero src h more text = absurd (omega arith)
c_string-padded (suc num) (suc pad) [] h more text = refl
c_string-padded (suc num) (suc pad) (c ∷ cs) h more (char, text) =
    rw char (ap (λ t. c ∷ t) (c_string-padded num (suc pad) cs (omega arith) more text))

c_string-strncpy :
    (num : ℕ) (src : List ℕ) → length src < num → IsText src → c_string (strncpy num src) ≡ src
unfolding strncpy
c_string-strncpy num src h text = c_string-padded num num src h (omega arith) text

-- The name with a tilde for its first byte.
c_string-proxied :
    (num : ℕ) (src : List ℕ)
    → length src < num
    → 0 < length src
    → IsText src
    → c_string (set (strncpy num src) 0 b'~') ≡ b'~' ∷ drop 1 src
unfolding strncpy c_string
c_string-proxied num [] h some_text text = absurd (omega arith)
c_string-proxied zero (c ∷ cs) h some_text text = absurd (omega arith)
c_string-proxied (suc num) (c ∷ cs) h some_text (char, text) =
    ap (λ t. b'~' ∷ t) (c_string-padded num (suc num) cs (omega arith) (omega arith) text)

c_string-denied : (num : ℕ) (src : List ℕ) → c_string (set (strncpy num src) 0 0) ≡ []
unfolding strncpy c_string
c_string-denied zero src = refl
c_string-denied (suc num) [] = refl
c_string-denied (suc num) (c ∷ cs) = refl

eq_bytes-prefix :
    (pre rest src : List ℕ) → starts_with pre src ≡ false → eq_bytes src (pre ++ rest) ≡ false
unfolding eq_bytes starts_with
eq_bytes-prefix [] rest src h = absurd (cc h)
eq_bytes-prefix (c ∷ cs) rest [] h = refl
eq_bytes-prefix (c ∷ cs) rest (d ∷ ds) h = ground (arith, eq_bytes-prefix cs rest ds)

-- A name that is outside /dev, or does not begin with a slash, is none of those in the lists.
outside :
    (src : List ℕ)
    → starts_with (codes "/dev/") src ≡ false
    → (is_denied src ≡ false) × (is_proxied src ≡ false)
unfolding is_denied is_proxied
outside src h = (
  rw
      (
        eq_bytes-prefix (codes "/dev/") (codes "sao_loader") src h,
        eq_bytes-prefix (codes "/dev/") (codes "flash") src h,
        eq_bytes-prefix (codes "/dev/") (codes "boot2") src h,
      )
      refl,
  rw
      (
        eq_bytes-prefix (codes "/dev/") (codes "es") src h,
        eq_bytes-prefix (codes "/dev/") (codes "sdio/slot0") src h,
        eq_bytes-prefix (codes "/dev/") (codes "usb/hid") src h,
      )
      refl,
)

no_slash :
    (src : List ℕ) → (get_or src 0 0 == b'/') ≡ false → starts_with (codes "/dev/") src ≡ false
unfolding starts_with
no_slash [] h = refl
no_slash (c ∷ cs) h = ground arith

slash_is_outer : (src : List ℕ) → (get_or src 0 0 == b'/') ≡ true → is_internal src ≡ false
unfolding is_internal
slash_is_outer src h = rw ((==_iff (get_or src 0 0) b'/').0 h) refl

-- The tests on the names of devices, one after the other and in two lists.
chosen :
    {A B : Type 0} (f : A → B) (b c d e g h : Bool) (denied proxied dest : A)
    → f (
        if b
        then denied
        else if c || d
        then denied
        else if e
        then proxied
        else if g
        then proxied
        else if h
        then proxied
        else dest)
      ≡ (if b || (c || d) then f denied else if e || (g || h) then f proxied else f dest)
chosen f true c d e g h denied proxied dest = refl
chosen f false true d e g h denied proxied dest = refl
chosen f false false true e g h denied proxied dest = refl
chosen f false false false true g h denied proxied dest = refl
chosen f false false false false true h denied proxied dest = refl
chosen f false false false false false true denied proxied dest = refl
chosen f false false false false false false denied proxied dest = refl

slash_is_text : (src : List ℕ) → (get_or src 0 0 == b'/') ≡ true → 0 < length src
slash_is_text [] h = absurd (cc h)
slash_is_text (c ∷ cs) h = omega arith

-- The names of devices.
device_lem :
    (src : List ℕ) (num : ℕ)
    → length src < num
    → IsText src
    → 0 < length src
    → is_internal src ≡ false
    → c_string (device_name_for_ppc src (strncpy num src)) ≡ name_for_ppc src
unfolding device_name_for_ppc name_for_ppc is_denied is_proxied
device_lem src num h text some_text outer =
    chosen c_string (eq_bytes src (codes "/dev/sao_loader")) (eq_bytes src (codes "/dev/flash"))
      (eq_bytes src (codes "/dev/boot2")) (eq_bytes src (codes "/dev/es"))
      (eq_bytes src (codes "/dev/sdio/slot0")) (eq_bytes src (codes "/dev/usb/hid"))
      (set (strncpy num src) 0 0) (set (strncpy num src) 0 b'~') (strncpy num src)
    ∙ rw
        (
          outer,
          c_string-denied num src,
          c_string-proxied num src h some_text text,
          c_string-strncpy num src h text,
        )
        refl

-- The name that `IOSOpenStrncpy` hands to the kernel for a request of the PowerPC, where it fits the
-- buffer: none for a name that begins with the tilde or the dollar sign, which the program's own
-- devices do, and none for the loader's file, the flash and boot2; the program's own device for
-- /dev/es, /dev/sdio/slot0 and /dev/usb/hid; and every other name as it is.
pub ios_open_strncpy_lem :
    (src : List ℕ) (num : ℕ) (open_str : List ℕ)
    → length src < num
    → IsText src
    → c_string (ios_open_strncpy src num ppc_boot open_str).0 ≡ name_for_ppc src
unfolding ios_open_strncpy name_for_ppc
ios_open_strncpy_lem src num open_str h text = elim (Bool-cases (get_or src 0 0 == b'/')) [
  | inr other ↦ elim (Bool-cases (is_internal src)) [
    | inl internal ↦ rw (other, internal) (c_string-denied num src)
    | inr outer ↦
        let absent = outside src (no_slash src other) in
        rw (other, outer, absent.0, absent.1) (c_string-strncpy num src h text)
  ]
  | inl slash ↦ elim (Bool-cases (starts_with (codes "/dev/") src)) [
    | inr file ↦
        let absent = outside src file in
        rw (slash, file, slash_is_outer src slash, absent.0, absent.1)
          (c_string-strncpy num src h text)
    | inl device ↦
        rw (slash, device)
          (device_lem src num h text (slash_is_text src slash) (slash_is_outer src slash))
  ]
]

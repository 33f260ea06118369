-- ===== src/Mime/Builder/Rows.antt =====
-- The rows of base64 that `base64_lines` of crates/lagoon-mail/src/mime/builder.rs writes.
use lagoon_email.Prelude.{
  ℕ, suc, zero, ◌≤◌, Text, false, List, [], ◌∷◌, ◌++◌, any, length, ◌≡◌, refl, ap, ◌∙◌, arith, All,
}
use lagoon_email.Smtp.Stuffing.{split_crlf, push}
use lagoon_email.Smtp.Stuffing.Received.{split_crlf-pushed}
use lagoon_email.Mime.Builder.{Tools, rows, base64_lines}
use lagoon_email.Mime.Addresses.Unbroken.{is_break, Unbroken}

-- the lines one after another
abbrev pub flat : List Text → Text
flat [] = []
flat (l ∷ ls) = l ++ flat ls

abbrev pub IsRow : Text → Type 0
IsRow l = length l ≤ 76

-- the first line has no more than so many characters, and the others are rows
abbrev Fits : ℕ → List Text → Type 0
Fits left [] = Unit
Fits left (l ∷ ls) = (length l ≤ left) × All IsRow ls

split_crlf-push :
    (c : ℕ) (t : Text) → is_break c ≡ false → split_crlf (c ∷ t) ≡ push c (split_crlf t)
unfolding split_crlf
split_crlf-push c [] h = refl
split_crlf-push c (d ∷ cs) h = split_crlf-pushed c d cs (ground (arith, h))

flat-push : (c : ℕ) (ls : List Text) → flat (push c ls) ≡ c ∷ flat ls
flat-push c [] = refl
flat-push c (l ∷ ls) = refl

push-Fits : (left c : ℕ) (ls : List Text) → Fits left ls → Fits (suc left) (push c ls)
push-Fits left c [] h = (omega arith, tt)
push-Fits left c (l ∷ ls) (h, hs) = (omega (arith, h), hs)

Fits-IsRow : (ls : List Text) → Fits 76 ls → All IsRow ls
Fits-IsRow [] h = tt
Fits-IsRow (l ∷ ls) h = h

abbrev Splits : ℕ → Text → Type 0
Splits left t = Fits left (split_crlf (rows left t)) × (flat (split_crlf (rows left t)) ≡ t)

pushed-Splits :
    (left c : ℕ) (t : Text) (r : Text)
    → is_break c ≡ false
    → Fits left (split_crlf r)
    → flat (split_crlf r) ≡ t
    → Fits (suc left) (split_crlf (c ∷ r)) × (flat (split_crlf (c ∷ r)) ≡ c ∷ t)
pushed-Splits left c t r h fits same =
    rw (split_crlf-push c r h)
      (push-Fits left c (split_crlf r) fits, flat-push c (split_crlf r) ∙ ap (λ x. c ∷ x) same)

rows-Splits : (left : ℕ) (t : Text) → Unbroken t → Splits left t
unfolding any rows
rows-Splits left [] h = unfold split_crlf in (omega arith, refl)
rows-Splits zero (c ∷ cs) h = new_row c cs (rows 75 cs) (
    pushed-Splits 75 c cs (rows 75 cs) (ground (arith, h)) (rows-Splits 75 cs (ground (arith, h))).0
      (rows-Splits 75 cs (ground (arith, h))).1)
  where
    new_row :
        (c : ℕ) (cs r : Text)
        → Fits 76 (split_crlf (c ∷ r)) × (flat (split_crlf (c ∷ r)) ≡ c ∷ cs)
        → Fits 0 (split_crlf (13 ∷ 10 ∷ c ∷ r)) × (flat (split_crlf (13 ∷ 10 ∷ c ∷ r)) ≡ c ∷ cs)
    new_row c cs r (fits, same) =
        unfold split_crlf in ((omega arith, Fits-IsRow (split_crlf (c ∷ r)) fits), same)
rows-Splits (suc left) (c ∷ cs) h =
    pushed-Splits left c cs (rows left cs) (ground (arith, h))
      (rows-Splits left cs (ground (arith, h))).0 (rows-Splits left cs (ground (arith, h))).1

-- The base64 of a part is cut into lines of 76 characters at most, and the lines put together again are
-- the base64.
pub base64_lines-rows :
    (tools : Tools) (bytes : List ℕ)
    → Unbroken (tools.base64 bytes)
    → All IsRow (split_crlf (base64_lines tools bytes))
      × (flat (split_crlf (base64_lines tools bytes)) ≡ tools.base64 bytes)
unfolding base64_lines
base64_lines-rows tools bytes h = (
  Fits-IsRow (split_crlf (rows 76 (tools.base64 bytes))) (rows-Splits 76 (tools.base64 bytes) h).0,
  (rows-Splits 76 (tools.base64 bytes) h).1,
)

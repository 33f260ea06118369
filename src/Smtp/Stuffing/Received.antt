-- ===== src/Smtp/Stuffing/Received.antt =====
-- What a server that follows RFC 5321 reads of the stuffed message.
use lagoon_email.Prelude.{
  ℕ, Text, Bool, true, false, ◌&&◌, Option, none, some, List, [], ◌∷◌, ◌++◌, map, ◌==◌,
  if◌then◌else◌, ◌≡◌, refl, ap, ◌∙◌, arith, All, inl, inr, Bool-cases, append_assoc, text_eq,
}
use lagoon_email.Smtp.Stuffing.{
  push, split_crlf, stuff_line, join_crlf, ends_with_crlf, with_crlf, dot_stuffed_for_data,
}

-- The receiver of section 4.5.2: a line that is one dot ends the message; any other line loses a leading
-- dot. The result is the message and the lines after it.
unfoldable pub unstuff_line : Text → Text
unstuff_line [] = []
unstuff_line (c ∷ cs) = if c == b'.' then cs else c ∷ cs

abbrev pub with_line : Text → Option (Text × List Text) → Option (Text × List Text)
with_line l none = none
with_line l (some (message, rest)) = some (l ++ (13 ∷ 10 ∷ message), rest)

unfoldable pub received : List Text → Option (Text × List Text)
received [] = none
received (l ∷ ls) =
    if text_eq l (b'.' ∷ []) then some ([], ls) else with_line (unstuff_line l) (received ls)

-- the lines, each with its end
unfoldable pub flat : List Text → Text
flat [] = []
flat (l ∷ ls) = l ++ (13 ∷ 10 ∷ flat ls)

split_crlf-broken :
    (c d : ℕ) (cs : Text)
    → (c == 13 && d == 10) ≡ true
    → split_crlf (c ∷ d ∷ cs) ≡ [] ∷ split_crlf cs
unfolding split_crlf
split_crlf-broken c d cs h = rw (split_crlf, h) refl

pub split_crlf-pushed :
    (c d : ℕ) (cs : Text)
    → (c == 13 && d == 10) ≡ false
    → split_crlf (c ∷ d ∷ cs) ≡ push c (split_crlf (d ∷ cs))
unfolding split_crlf
split_crlf-pushed c d cs h = rw (split_crlf, h) refl

push_twice : (c d : ℕ) (xs ls : List Text) → push c (push d xs ++ ls) ≡ push c (push d xs) ++ ls
push_twice c d [] ls = refl
push_twice c d (x ∷ xs) ls = refl

push-append :
    (c : ℕ) (s : Text) (ls : List Text) → push c (split_crlf s ++ ls) ≡ push c (split_crlf s) ++ ls
unfolding split_crlf
push-append c [] ls = refl
push-append c (d ∷ []) ls = refl
push-append c (d ∷ e ∷ cs) ls = elim (Bool-cases (d == 13 && e == 10)) [
  | inl h ↦ rw (split_crlf-broken d e cs h) refl
  | inr h ↦ rw (split_crlf-pushed d e cs h) (push_twice c d (split_crlf (e ∷ cs)) ls)
]

-- A line break splits the text there, whatever stands around it.
pub split_crlf-append :
    (s r : Text) → split_crlf (s ++ (13 ∷ 10 ∷ r)) ≡ split_crlf s ++ split_crlf r
unfolding split_crlf
split_crlf-append [] r = refl
split_crlf-append (c ∷ []) r = ground arith
split_crlf-append (c ∷ d ∷ cs) r = elim (Bool-cases (c == 13 && d == 10)) [
  | inl h ↦
      rw (split_crlf-broken c d (cs ++ (13 ∷ 10 ∷ r)) h, split_crlf-broken c d cs h)
        (ap (λ ls. [] ∷ ls) (split_crlf-append cs r))
  | inr h ↦
      rw (split_crlf-pushed c d (cs ++ (13 ∷ 10 ∷ r)) h, split_crlf-pushed c d cs h)
        (ap (push c) (split_crlf-append (d ∷ cs) r) ∙ push-append c (d ∷ cs) (split_crlf r))
]

-- A text without a line break.
abbrev pub IsLine : Text → Type 0
IsLine l = split_crlf l ≡ l ∷ []

abbrev starts_as : ℕ → List Text → Bool
starts_as d [] = false
starts_as d ([] ∷ ls) = true
starts_as d ((e ∷ l) ∷ ls) = d == e

starts_as-split_crlf : (d : ℕ) (cs : Text) → starts_as d (split_crlf (d ∷ cs)) ≡ true
unfolding split_crlf
starts_as-split_crlf d [] = ground arith
starts_as-split_crlf d (e ∷ cs) = elim (Bool-cases (d == 13 && e == 10)) [
  | inl h ↦ rw (split_crlf-broken d e cs h) refl
  | inr h ↦ rw (split_crlf-pushed d e cs h) (pushed (split_crlf (e ∷ cs)))
]
  where
    pushed : (ls : List Text) → starts_as d (push d ls) ≡ true
    pushed [] = ground arith
    pushed (l ∷ ls) = ground arith

split_crlf-lines : (s : Text) → All IsLine (split_crlf s)
unfolding split_crlf
split_crlf-lines [] = (refl, tt)
split_crlf-lines (c ∷ []) = (refl, tt)
split_crlf-lines (c ∷ d ∷ cs) = elim (Bool-cases (c == 13 && d == 10)) [
  | inl h ↦ rw (split_crlf-broken c d cs h) (refl, split_crlf-lines cs)
  | inr h ↦
      rw (split_crlf-pushed c d cs h)
        (longer (split_crlf (d ∷ cs)) (starts_as-split_crlf d cs) h (split_crlf-lines (d ∷ cs)))
]
  where
    longer :
        (ls : List Text)
        → starts_as d ls ≡ true
        → (c == 13 && d == 10) ≡ false
        → All IsLine ls
        → All IsLine (push c ls)
    longer [] e h a = cc
    longer ([] ∷ ls) e h (a, rest) = (refl, rest)
    longer ((x ∷ l) ∷ ls) e h (a, rest) = (joined (test x e h), rest)
      where
        test :
            (x : ℕ) → (d == x) ≡ true → (c == 13 && d == 10) ≡ false → (c == 13 && x == 10) ≡ false
        test x e h = ground arith

        joined : (c == 13 && x == 10) ≡ false → IsLine (c ∷ x ∷ l)
        joined t = split_crlf-pushed c x l t ∙ ap (push c) a

stuff_line-IsLine : (l : Text) → IsLine l → IsLine (stuff_line l)
unfolding split_crlf stuff_line
stuff_line-IsLine [] h = refl
stuff_line-IsLine (c ∷ cs) h = elim (Bool-cases (c == b'.')) [
  | inl e ↦ rw (e, h) refl
  | inr e ↦ rw e h
]

map-lines : (ls : List Text) → All IsLine ls → All IsLine (map stuff_line ls)
map-lines [] a = tt
map-lines (l ∷ ls) (h, a) = (stuff_line-IsLine l h, map-lines ls a)

split_crlf-flat :
    (ls : List Text) (r : Text) → All IsLine ls → split_crlf (flat ls ++ r) ≡ ls ++ split_crlf r
unfolding flat
split_crlf-flat [] r a = refl
split_crlf-flat (l ∷ ls) r (h, a) =
    rw
      (
        append_assoc l (13 ∷ 10 ∷ flat ls) r,
        split_crlf-append l (flat ls ++ r),
        h,
        split_crlf-flat ls r a,
      )
      refl

join_crlf-flat : (ls : List Text) → join_crlf (ls ++ ([] ∷ [])) ≡ flat ls
unfolding join_crlf flat
join_crlf-flat [] = refl
join_crlf-flat (l ∷ []) = refl
join_crlf-flat (l ∷ m ∷ ls) = rw (join_crlf-flat (m ∷ ls)) refl

flat-split_crlf : (s : Text) → flat (split_crlf s) ≡ s ++ (13 ∷ 10 ∷ [])
unfolding flat split_crlf
flat-split_crlf [] = refl
flat-split_crlf (c ∷ []) = refl
flat-split_crlf (c ∷ d ∷ cs) = elim (Bool-cases (c == 13 && d == 10)) [
  | inl h ↦ rw (split_crlf-broken c d cs h, flat-split_crlf cs) (broken h)
  | inr h ↦
      rw (split_crlf-pushed c d cs h) (pushed (split_crlf (d ∷ cs)) (flat-split_crlf (d ∷ cs)))
]
  where
    broken :
        (c == 13 && d == 10) ≡ true
        → 13 ∷ 10 ∷ (cs ++ (13 ∷ 10 ∷ [])) ≡ c ∷ d ∷ (cs ++ (13 ∷ 10 ∷ []))
    broken h = grind arith

    pushed :
        (ls : List Text)
        → flat ls ≡ d ∷ (cs ++ (13 ∷ 10 ∷ []))
        → flat (push c ls) ≡ c ∷ d ∷ (cs ++ (13 ∷ 10 ∷ []))
    pushed [] e = cc
    pushed (l ∷ ls) e = ap (λ t. c ∷ t) e

with_crlf-shape : (t : Text) → (s : Text) × (with_crlf t ≡ s ++ (13 ∷ 10 ∷ []))
unfolding with_crlf ends_with_crlf
with_crlf-shape t = elim (Bool-cases (ends_with_crlf t)) [
  | inl e ↦ rw e (ended t e)
  | inr e ↦ rw e (t, refl)
]
  where
    ended : (t : Text) → ends_with_crlf t ≡ true → (s : Text) × (t ≡ s ++ (13 ∷ 10 ∷ []))
    ended [] h = absurd (ground (arith, h))
    ended (c ∷ []) h = absurd (ground (arith, h))
    ended (c ∷ d ∷ []) h = ([], ground arith)
    ended (c ∷ d ∷ e ∷ cs) h = let (s, p) = ended (d ∷ e ∷ cs) h in (c ∷ s, ap (λ t. c ∷ t) p)

unstuff_line-stuff_line :
    (l : Text) → (text_eq (stuff_line l) (b'.' ∷ []) ≡ false) × (unstuff_line (stuff_line l) ≡ l)
unfolding stuff_line unstuff_line text_eq
unstuff_line-stuff_line [] = (refl, refl)
unstuff_line-stuff_line (c ∷ cs) = elim (Bool-cases (c == b'.')) [
  | inl e ↦ rw e (refl, refl)
  | inr e ↦ rw (e, e) (refl, refl)
]

received-stuffed :
    (ls rest : List Text)
    → received (map stuff_line ls ++ ((b'.' ∷ []) ∷ rest)) ≡ some (flat ls, rest)
unfolding received flat text_eq
received-stuffed [] rest = refl
received-stuffed (l ∷ ls) rest =
    let (e, p) = unstuff_line-stuff_line l in rw (e, p, received-stuffed ls rest) refl

map_last : (ls : List Text) → map stuff_line (ls ++ ([] ∷ [])) ≡ map stuff_line ls ++ ([] ∷ [])
unfolding stuff_line
map_last [] = refl
map_last (l ∷ ls) = ap (λ t. stuff_line l ∷ t) (map_last ls)

-- A server that follows the standard reads back exactly the message, with a final line break added where
-- it had none, and everything after it as what follows: no line of the message ends it early, and none
-- of it is taken for a command.
pub received-dot_stuffed_for_data :
    (message following : Text)
    → received (split_crlf (dot_stuffed_for_data message ++ following))
      ≡ some (with_crlf message, split_crlf following)
unfolding dot_stuffed_for_data received split_crlf
received-dot_stuffed_for_data message following =
    let (s, e) = with_crlf-shape message in
    rw
      (
        e,
        split_crlf-append s [],
        map_last (split_crlf s),
        join_crlf-flat (map stuff_line (split_crlf s)),
        append_assoc (flat (map stuff_line (split_crlf s))) (b'.' ∷ 13 ∷ 10 ∷ []) following,
        split_crlf-flat (map stuff_line (split_crlf s)) (b'.' ∷ 13 ∷ 10 ∷ following)
            (map-lines (split_crlf s) (split_crlf-lines s)),
        split_crlf-append (b'.' ∷ []) following,
        received-stuffed (split_crlf s) (split_crlf following),
        flat-split_crlf s,
      )
      refl

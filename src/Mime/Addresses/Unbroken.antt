-- ===== src/Mime/Addresses/Unbroken.antt =====
-- The pieces of a list of addresses in one line are in one line each.
use lagoon_email.Prelude.{
  ℕ, Text, text_eq, Bool, true, false, not, ◌&&◌, ◌||◌, List, [], ◌∷◌, ◌++◌, ◌==◌, any, trim,
  trim_start, ◌≡◌, refl, arith, All, inl, inr, Bool-cases, if◌then◌else◌,
}
use mathlib.Core.List.{reverse, reverse_aux}
use lagoon_email.Mime.Addresses.{
  Pieces, read_char, read_chars, trimmed_pieces, last_piece, no_pieces, collected,
  split_address_list,
}

abbrev pub is_break : ℕ → Bool
is_break c = c == 13 || c == 10

abbrev pub Unbroken : Text → Type 0
Unbroken t = any is_break t ≡ false

pub append-Unbroken : (s t : Text) → Unbroken s → Unbroken t → Unbroken (s ++ t)
unfolding any
append-Unbroken [] t h k = k
append-Unbroken (c ∷ cs) t h k = ground (arith, h, append-Unbroken cs t (ground (arith, h)) k)

trim_start-Unbroken : (t : Text) → Unbroken t → Unbroken (trim_start t)
unfolding any trim_start
trim_start-Unbroken [] h = refl
trim_start-Unbroken (c ∷ cs) h = ground (arith, h, trim_start-Unbroken cs (ground (arith, h)))

reverse_aux-Unbroken : (t acc : Text) → Unbroken t → Unbroken acc → Unbroken (reverse_aux t acc)
unfolding any
reverse_aux-Unbroken [] acc h k = k
reverse_aux-Unbroken (c ∷ cs) acc h k =
    reverse_aux-Unbroken cs (c ∷ acc) (ground (arith, h)) (ground (arith, h, k))

reverse-Unbroken : (t : Text) → Unbroken t → Unbroken (reverse t)
unfolding any
reverse-Unbroken t h = reverse_aux-Unbroken t [] h refl

pub trim-Unbroken : (t : Text) → Unbroken t → Unbroken (trim t)
unfolding trim
trim-Unbroken t h =
    reverse-Unbroken _ (trim_start-Unbroken _ (reverse-Unbroken _ (trim_start-Unbroken t h)))

abbrev Clean : Pieces → Type 0
Clean p = All Unbroken p.pieces × Unbroken p.current

pub All-append : (xs ys : List Text) → All Unbroken xs → All Unbroken ys → All Unbroken (xs ++ ys)
All-append [] ys a b = b
All-append (x ∷ xs) ys (h, a) b = (h, All-append xs ys a b)

if-Clean : (b : Bool) (p q : Pieces) → Clean p → Clean q → Clean (if b then p else q)
if-Clean true p q h k = h
if-Clean false p q h k = k

read_char-Clean : (c : ℕ) (p : Pieces) → is_break c ≡ false → Clean p → Clean (read_char c p)
unfolding read_char any
read_char-Clean c p e (a, h) = if-Clean p.escaped _ _ longer (
    if-Clean (c == b'\\' && p.in_quotes) _ _ longer (
      if-Clean (c == b'"') _ _ longer (
        if-Clean (c == b'<') _ _ longer (
          if-Clean (c == b'>') _ _ longer (
            if-Clean (c == b',' && (not p.in_quotes && p.angle_depth == 0)) _ _
              (All-append p.pieces (p.current ∷ []) a (h, tt), refl) longer)))))
  where
    longer : All Unbroken p.pieces × Unbroken (p.current ++ (c ∷ []))
    longer = (a, append-Unbroken p.current (c ∷ []) h (rw e refl))

read_chars-Clean : (t : Text) (p : Pieces) → Unbroken t → Clean p → Clean (read_chars t p)
unfolding read_chars any
read_chars-Clean [] p h k = k
read_chars-Clean (c ∷ cs) p h k =
    read_chars-Clean cs (read_char c p) (ground (arith, h))
      (read_char-Clean c p (ground (arith, h)) k)

trimmed_pieces-Unbroken : (ts : List Text) → All Unbroken ts → All Unbroken (trimmed_pieces ts)
unfolding trimmed_pieces
trimmed_pieces-Unbroken [] a = tt
trimmed_pieces-Unbroken (t ∷ ts) (h, a) = elim (Bool-cases (text_eq (trim t) [])) [
  | inl e ↦ rw e (trimmed_pieces-Unbroken ts a)
  | inr e ↦ rw e (trim-Unbroken t h, trimmed_pieces-Unbroken ts a)
]

pub split_address_list-Unbroken : (t : Text) → Unbroken t → All Unbroken (split_address_list t)
unfolding split_address_list any
split_address_list-Unbroken t h = trimmed_pieces-Unbroken _ (
    ended (read_chars (trim t) no_pieces)
      (read_chars-Clean (trim t) no_pieces (trim-Unbroken t h) (tt, refl)))
  where
    ended : (p : Pieces) → Clean p → All Unbroken (collected p)
    ended p (a, k) = All-append p.pieces (last_piece p.current) a (last (text_eq p.current []))
      where
        last : (b : Bool) → All Unbroken (if b then [] else p.current ∷ [])
        last true = tt
        last false = (k, tt)

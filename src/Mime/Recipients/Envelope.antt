-- ===== src/Mime/Recipients/Envelope.antt =====
-- The envelope names every recipient once.
use lagoon_email.Prelude.{
  ℕ, ◌+◌, ◌≤◌, Text, text_eq, text_eq_sound, text_eq_refl, text_eq_iff, Bool, true, false, List, [],
  ◌∷◌, ◌++◌, map, if◌then◌else◌, contains, lower, ◌≡◌, refl, ap, sym, ◌∙◌, arith, inl, inr,
  Bool-cases,
}
use lagoon_email.Mime.Builder.{OutboundMessage}
use lagoon_email.Mime.Recipients.{
  parse_address_list, parse_all, recipient_addresses, Recipients, without_angles, insert,
  insert_all, named_addresses, envelope_recipients,
}

-- two addresses that differ only in the case of their letters have one key
abbrev pub keys : List Text → List Text
keys [] = []
keys (t ∷ ts) = map lower t ∷ keys ts

-- how often a key occurs
abbrev pub occurrences : Text → List Text → ℕ
occurrences k [] = 0
occurrences k (t ∷ ts) = (if text_eq k t then 1 else 0) + occurrences k ts

keys-append : (ts : List Text) (t : Text) → keys (ts ++ (t ∷ [])) ≡ keys ts ++ (map lower t ∷ [])
keys-append [] t = refl
keys-append (u ∷ us) t = ap (λ rest. map lower u ∷ rest) (keys-append us t)

occurrences-append :
    (k : Text) (ts : List Text) (t : Text)
    → occurrences k (ts ++ (t ∷ [])) ≡ occurrences k ts + (if text_eq k t then 1 else 0)
occurrences-append k [] t = omega arith
occurrences-append k (u ∷ us) t = omega (arith, occurrences-append k us t)

occurrences-contains : (k : Text) (ts : List Text) → contains ts k ≡ false → occurrences k ts ≡ 0
unfolding contains
occurrences-contains k [] h = refl
occurrences-contains k (t ∷ ts) h =
    ground (arith, text_eq_iff t k, text_eq_iff k t, text_eq_refl k, h, occurrences-contains k ts)

contains-append :
    (ts : List Text) (t k : Text) → contains ts k ≡ true → contains (ts ++ (t ∷ [])) k ≡ true
unfolding contains
contains-append (u ∷ us) t k h = ground (arith, h, contains-append us t k)
contains-append [] t k h = cc

contains-last : (ts : List Text) (t : Text) → contains (ts ++ (t ∷ [])) t ≡ true
unfolding contains
contains-last [] t = rw (text_eq_refl t) refl
contains-last (u ∷ us) t = ground (arith, contains-last us t)

-- what the loop keeps: the set has the keys of the result, each of them once
abbrev IsKept : Recipients → Type 0
IsKept s = (s.seen ≡ keys s.result) × ((k : Text) → occurrences k s.seen ≤ 1)

occurrences-new :
    (k t : Text) (ts : List Text)
    → contains ts t ≡ false
    → occurrences k ts ≤ 1
    → occurrences k (ts ++ (t ∷ [])) ≤ 1
occurrences-new k t ts new once = elim (Bool-cases (text_eq k t)) [
  | inl same ↦ omega (
    arith,
    occurrences-append k ts t ∙ ap (λ b. occurrences k ts + (if b then 1 else 0)) same,
    ap (λ j. occurrences j ts) (text_eq_sound k t same) ∙ occurrences-contains t ts new,
  )
  | inr other ↦ omega (
    arith,
    occurrences-append k ts t ∙ ap (λ b. occurrences k ts + (if b then 1 else 0)) other,
    once,
  )
]

insert-IsKept : (t : Text) (s : Recipients) → IsKept s → IsKept (insert t s)
insert-IsKept t s (e, once) = elim (Bool-cases (text_eq t [])) [
  | inl empty ↦ rw empty (e, once)
  | inr full ↦ elim (Bool-cases (contains s.seen (map lower t))) [
    | inl old ↦ rw (full, old) (e, once)
    | inr new ↦
        rw (full, new)
          (
            ap (λ ks. ks ++ (map lower t ∷ [])) e ∙ sym (keys-append s.result t),
            λ k. occurrences-new k (map lower t) s.seen new (once k),
          )
  ]
]

insert_all-IsKept : (ts : List Text) (s : Recipients) → IsKept s → IsKept (insert_all ts s)
unfolding insert_all
insert_all-IsKept [] s h = h
insert_all-IsKept (t ∷ ts) s h =
    insert_all-IsKept ts (insert (without_angles t) s) (insert-IsKept (without_angles t) s h)

insert_keeps :
    (t : Text) (s : Recipients) (k : Text)
    → contains s.seen k ≡ true
    → contains (insert t s).seen k ≡ true
insert_keeps t s k h = kept (text_eq t []) (contains s.seen (map lower t))
  where
    kept :
        (a b : Bool)
        → contains
            (if a then s else if b then s else record {
              seen = s.seen ++ (map lower t ∷ []);
              result = s.result ++ (t ∷ []);
            }).seen
            k
          ≡ true
    kept true b = h
    kept false true = h
    kept false false = contains-append s.seen (map lower t) k h

insert_adds :
    (t : Text) (s : Recipients)
    → text_eq t [] ≡ false
    → contains (insert t s).seen (map lower t) ≡ true
insert_adds t s full = elim (Bool-cases (contains s.seen (map lower t))) [
  | inl old ↦ rw (full, old) old
  | inr new ↦ rw (full, new) (contains-last s.seen (map lower t))
]

insert_all_keeps :
    (ts : List Text) (s : Recipients) (k : Text)
    → contains s.seen k ≡ true
    → contains (insert_all ts s).seen k ≡ true
unfolding insert_all
insert_all_keeps [] s k h = h
insert_all_keeps (t ∷ ts) s k h =
    insert_all_keeps ts (insert (without_angles t) s) k (insert_keeps (without_angles t) s k h)

insert_all_adds :
    (ts : List Text) (s : Recipients) (raw : Text)
    → contains ts raw ≡ true
    → text_eq (without_angles raw) [] ≡ false
    → contains (insert_all ts s).seen (map lower (without_angles raw)) ≡ true
unfolding insert_all contains
insert_all_adds (t ∷ ts) s raw h full = elim (Bool-cases (text_eq t raw)) [
  | inl same ↦
      insert_all_keeps ts (insert (without_angles t) s) (map lower (without_angles raw))
        (rw (text_eq_sound t raw same) (insert_adds (without_angles raw) s full))
  | inr other ↦ insert_all_adds ts (insert (without_angles t) s) raw (ground (arith, h, other)) full
]
insert_all_adds [] s raw h full = cc

-- Every address that is parsed from the To, Cc and Bcc fields and is not blank is in the envelope, the
-- blind ones too, and no two recipients of the envelope differ only in the case of their letters.
pub envelope_recipients_complete :
    (o : OutboundMessage) (raw : Text)
    → contains (parse_address_list o.to ++ (parse_all o.cc ++ parse_all o.bcc)) raw ≡ true
    → text_eq (without_angles raw) [] ≡ false
    → (contains (keys (envelope_recipients o)) (map lower (without_angles raw)) ≡ true)
      × ((k : Text) → occurrences k (keys (envelope_recipients o)) ≤ 1)
unfolding envelope_recipients recipient_addresses
envelope_recipients_complete o raw h full = (
  rw (sym kept.0) (insert_all_adds (named_addresses o) no_one raw h full),
  λ k. rw (sym kept.0) (kept.1 k),
)
  where
    no_one : Recipients
    no_one = record { seen = []; result = [] }

    kept : IsKept (insert_all (named_addresses o) no_one)
    kept = insert_all-IsKept (named_addresses o) no_one (refl, λ k. omega arith)

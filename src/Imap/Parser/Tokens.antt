-- ===== src/Imap/Parser/Tokens.antt =====
-- `tokenize` reads back what the client writes.
use lagoon_email.Prelude.{
  ℕ, subst, ◌≡◌, refl, ap, sym, ◌∙◌, Text, codes, Bool, true, false, not, ◌||◌, List, [], ◌∷◌, ◌++◌,
  append-nil, append_assoc, ◌==◌, if◌then◌else◌, arith, any, all, All, Result, ok, err, Bool-cases,
  inl, inr,
}
use lagoon_email.Mail.Error.{MailError, protocol}
use lagoon_email.Imap.Quoting.{quote_mark, backslash, is_control, replace, escape, quoted}
use lagoon_email.Imap.Parser.{
  Lexer, lex_start, lex_plain, lex_char, lex, lex_end, tokenize, is_blank,
}

-- what `escape` writes for one character
hide : ℕ → Text
hide c =
    if c == backslash
    then backslash ∷ backslash ∷ []
    else if c == quote_mark
    then backslash ∷ quote_mark ∷ []
    else c ∷ []

escaped : Text → Text
escaped [] = []
escaped (c ∷ cs) = hide c ++ escaped cs

escape-escaped : (s : Text) → escape s ≡ escaped s
unfolding escape replace escaped hide
escape-escaped [] = refl
escape-escaped (c ∷ cs) = ground (arith, escape-escaped cs)

lex-append : (s t : Text) (l : Lexer) → lex (s ++ t) l ≡ lex t (lex s l)
unfolding lex
lex-append [] t l = refl
lex-append (c ∷ cs) t l = lex-append cs t (lex_char c l)

-- the lexer inside a quoted string
abbrev inside : List Text → Text → Lexer
inside atoms current = record {
  atoms = atoms;
  current = current;
  has_current = true;
  in_quote = true;
  pending_escape = false;
}

-- the lexer behind an atom, or between two
abbrev behind : List Text → Text → Bool → Lexer
behind atoms current has = record {
  atoms = atoms;
  current = current;
  has_current = has;
  in_quote = false;
  pending_escape = false;
}

lex-hide :
    (c : ℕ) (atoms : List Text) (current : Text)
    → lex (hide c) (inside atoms current) ≡ inside atoms (current ++ c ∷ [])
unfolding lex lex_char hide
lex-hide c atoms current = ground arith

lex-escaped :
    (s : Text) (atoms : List Text) (current : Text)
    → lex (escaped s) (inside atoms current) ≡ inside atoms (current ++ s)
unfolding escaped
lex-escaped [] atoms current = unfold lex in ap (inside atoms) (sym (append-nil current))
lex-escaped (c ∷ cs) atoms current =
    lex-append (hide c) (escaped cs) (inside atoms current)
    ∙ ap (lex (escaped cs)) (lex-hide c atoms current)
    ∙ lex-escaped cs atoms (current ++ c ∷ [])
    ∙ ap (inside atoms) (append_assoc current (c ∷ []) cs)

lex-quoted :
    (s : Text) (atoms : List Text)
    → lex (quote_mark ∷ (escape s ++ quote_mark ∷ [])) (behind atoms [] false) ≡ behind atoms s true
unfolding escaped lex lex_char
lex-quoted s atoms = rw escape-escaped (
    lex-append (escaped s) (quote_mark ∷ []) (inside atoms [])
    ∙ ap (lex (quote_mark ∷ [])) (lex-escaped s atoms []))

-- A character that a plain word may hold.
abbrev pub is_plain : ℕ → Bool
is_plain c = not (c == quote_mark || is_blank c)

plain_char :
    (c : ℕ) (atoms : List Text) (current : Text) (has : Bool)
    → is_plain c ≡ true
    → lex_plain c (behind atoms current has) ≡ behind atoms (current ++ c ∷ []) true
unfolding lex_plain
plain_char c atoms current has h = ground arith

lex-word :
    (w : Text) (atoms : List Text) (current : Text)
    → all is_plain w ≡ true
    → lex w (behind atoms current true) ≡ behind atoms (current ++ w) true
unfolding all lex lex_char
lex-word [] atoms current h = ap (λ c. behind atoms c true) (sym (append-nil current))
lex-word (c ∷ cs) atoms current h =
    let head : lex_plain c (behind atoms current true) ≡ behind atoms (current ++ c ∷ []) true =
      plain_char c atoms current true (ground arith) in
    ap (lex cs) head
    ∙ lex-word cs atoms (current ++ c ∷ []) (ground arith)
    ∙ ap (λ t. behind atoms t true) (append_assoc current (c ∷ []) cs)

-- One argument of a command: a plain word of at least one character, or a quoted string.
pub data Argument : Type 0 where
  word : ℕ → Text → Argument
  string : Text → Argument

abbrev pub IsWritable : Argument → Type 0
IsWritable (word c w) = (is_plain c ≡ true) × (all is_plain w ≡ true)
IsWritable (string s) = any is_control s ≡ false

abbrev pub argument_value : Argument → Text
argument_value (word c w) = c ∷ w
argument_value (string s) = s

abbrev pub or_empty : Result MailError Text → Text
or_empty (ok t) = t
or_empty (err e) = []

abbrev pub write : Argument → Text
write (word c w) = c ∷ w
write (string s) = or_empty (quoted s)

-- A command line: the arguments with a space between two.
abbrev pub write_line : List Argument → Text
write_line [] = []
write_line (x ∷ []) = write x
write_line (x ∷ y ∷ rest) = write x ++ b' ' ∷ write_line (y ∷ rest)

abbrev pub values : List Argument → List Text
values [] = []
values (x ∷ xs) = argument_value x ∷ values xs

quoted_ok :
    (s : Text)
    → any is_control s ≡ false
    → quoted s ≡ ok (quote_mark ∷ (escape s ++ quote_mark ∷ []))
unfolding quoted
quoted_ok s h = rw h

quoted_refused :
    (s : Text)
    → any is_control s ≡ true
    → quoted s ≡ err (protocol (codes "control-char-in-argument"))
unfolding quoted
quoted_refused s h = rw h

lex-space :
    (t v : Text) (atoms : List Text)
    → lex (b' ' ∷ t) (behind atoms v true) ≡ lex t (behind (atoms ++ v ∷ []) [] false)
unfolding lex lex_char lex_plain
lex-space t v atoms = refl

lex-write :
    (x : Argument) (atoms : List Text)
    → IsWritable x
    → lex (write x) (behind atoms [] false) ≡ behind atoms (argument_value x) true
lex-write (word c w) atoms (hc, hw) =
    unfold lex lex_char in
    ap (lex w) (plain_char c atoms [] false hc) ∙ lex-word w atoms (c ∷ []) hw
lex-write (string s) atoms h =
    ap (λ t. lex (or_empty t) (behind atoms [] false)) (quoted_ok s h) ∙ lex-quoted s atoms

lex-write_line :
    (x : Argument) (xs : List Argument) (atoms : List Text)
    → All IsWritable (x ∷ xs)
    → lex_end (lex (write_line (x ∷ xs)) (behind atoms [] false)) ≡ atoms ++ values (x ∷ xs)
lex-write_line x [] atoms (h, hs) = ap lex_end (lex-write x atoms h) ∙ unfold lex_end in refl
lex-write_line x (y ∷ rest) atoms (h, hs) =
    ap lex_end (
      lex-append (write x) (b' ' ∷ write_line (y ∷ rest)) (behind atoms [] false)
      ∙ ap (lex (b' ' ∷ write_line (y ∷ rest))) (lex-write x atoms h))
    ∙ ap lex_end (lex-space (write_line (y ∷ rest)) (argument_value x) atoms)
    ∙ lex-write_line y rest (atoms ++ argument_value x ∷ []) hs
    ∙ append_assoc atoms (argument_value x ∷ []) (values (y ∷ rest))

-- A line of plain words and quoted strings is read back: the atoms are the words and the strings as
-- they were before quoting, whatever spaces, quotation marks and backslashes the strings hold.
pub tokenize-write_line :
    (x : Argument) (xs : List Argument)
    → All IsWritable (x ∷ xs)
    → tokenize (write_line (x ∷ xs)) ≡ values (x ∷ xs)
unfolding tokenize lex_start
tokenize-write_line x xs h = lex-write_line x xs [] h

ok_not_err : (t : Text) (e : MailError) → ◌≡◌ {A = Result MailError Text} (ok t) (err e) → ⊥
ok_not_err t e h = cc

ok_same : (t u : Text) → ◌≡◌ {A = Result MailError Text} (ok t) (ok u) → t ≡ u
ok_same t u h = cc

any-control_append : (s t : Text) → any is_control (s ++ t) ≡ (any is_control s || any is_control t)
unfolding any
any-control_append [] t = refl
any-control_append (c ∷ cs) t = ground (arith, any-control_append cs t)

hide_control : (c : ℕ) → any is_control (hide c) ≡ is_control c
unfolding any hide is_control
hide_control c = ground arith

escaped_control : (s : Text) → any is_control (escaped s) ≡ any is_control s
unfolding escaped any
escaped_control [] = refl
escaped_control (c ∷ cs) = rw (any-control_append, hide_control, escaped_control cs) refl

written_control :
    (s : Text) → any is_control (quote_mark ∷ (escape s ++ quote_mark ∷ [])) ≡ any is_control s
unfolding any is_control
written_control s = rw (escape-escaped, any-control_append, escaped_control) (ground arith)

-- What is written for an argument holds no control character, so that it cannot end the command line
-- and begin another one.
pub quoted_is_safe : (s t : Text) → quoted s ≡ ok t → any is_control t ≡ false
quoted_is_safe s t e = elim (Bool-cases (any is_control s)) [
  | inl bad ↦ absurd (ok_not_err _ _ (sym e ∙ quoted_refused s bad))
  | inr good ↦
      subst (λ u. any is_control u ≡ false) (ok_same _ _ (sym (quoted_ok s good) ∙ e))
        (written_control s ∙ good)
]

-- ===== src/Imap/Capabilities/Roles.antt =====
-- Which folders have a role, and which of those are reserved.
use lagoon_email.Prelude.{
  Text, codes, text_eq, text_eq_sound, ◌≡◌, refl, subst, true, Option, none, some, List, [], ◌∷◌,
  arith, any, all, contains, Bool-cases, inl, inr,
}
use lagoon_email.Imap.Capabilities.{
  ImapMailbox, is_archive_mailbox, is_reserved_folder, has_special_use, archive_names,
  reserved_names, role_leaf, is_among, is_reserved_leaf,
}

contains-subset :
    (xs ys : List Text) (t : Text)
    → all (contains ys) xs ≡ true
    → contains xs t ≡ true
    → contains ys t ≡ true
unfolding contains all
contains-subset [] ys t h k = cc
contains-subset (x ∷ xs) ys t h k = elim (Bool-cases (text_eq x t)) [
  | inl e ↦ subst (λ u. contains ys u ≡ true) (text_eq_sound x t e) (ground arith)
  | inr e ↦ contains-subset xs ys t (ground arith) (ground arith)
]

archive_names-reserved : all (contains reserved_names) archive_names ≡ true
unfolding contains all text_eq
archive_names-reserved = refl

leaf-reserved : (o : Option Text) → is_among archive_names o ≡ true → is_reserved_leaf o ≡ true
leaf-reserved none h = refl
leaf-reserved (some leaf) h =
    contains-subset archive_names reserved_names leaf archive_names-reserved h

-- Every folder that counts as the archive, by its attribute or by its name, is reserved: the picker
-- of folders never offers it.
pub archive-is_reserved :
    (m : ImapMailbox) → is_archive_mailbox m ≡ true → is_reserved_folder m ≡ true
unfolding is_archive_mailbox is_reserved_folder any
archive-is_reserved m h = elim (Bool-cases (has_special_use m (codes "\\Archive"))) [
  | inl e ↦ rw e (ground arith)
  | inr e ↦ ground (arith, leaf-reserved (role_leaf m.name))
]

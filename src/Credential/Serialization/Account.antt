-- ===== src/Credential/Serialization/Account.antt =====
-- The names that the scenarios pack for one entered name.
use smile2unlock_v.Base.{
  ℕ, suc, ◌+◌, ◌≡◌, refl, ap, sym, [], ◌∷◌, ◌++◌, true, false, not, ◌&&◌, none, some, arith, ◌==◌,
  ==_iff, if◌then◌else◌, Bool-cases, take, drop, inl, inr,
}
use smile2unlock_v.Base.Text.{is_empty, find}
use smile2unlock_v.Credential.Results.{ok, ◌>>=◌}
use smile2unlock_v.Credential.Names.{
  Wide, contains, is_qualified_username, build_qualified_username, serialized_names,
  split_domain_and_username, domain_username_string_alloc,
}
use smile2unlock_v.Credential.Serialization.{Calls, credui_name}

-- A text with a backslash is put together from what stands before and behind the first one.
found_backslash :
    (s : Wide)
    → contains b'\\' s ≡ true
    → (i : ℕ) × (find b'\\' s ≡ some i) × (take i s ++ b'\\' ∷ drop (i + 1) s ≡ s)
unfolding contains find take drop
found_backslash [] h = cc
found_backslash (x ∷ s) h = elim (Bool-cases (x == b'\\')) [
  | inl e ↦ (0, rw e refl, ap (λ c. c ∷ s) (sym ((==_iff x b'\\').0 e)))
  | inr e ↦
      let (i, f, p) = found_backslash s (ground arith) in
      let next : suc i + 1 ≡ suc (i + 1) = omega arith in
      (suc i, rw (e, f) refl, rw next (ap (λ (t : Wide). x ∷ t) p))
]

-- The domain and the user as one name.
abbrev pub joined : Wide × Wide → Wide
joined (domain, username) = domain ++ b'\\' ∷ username

-- The name that CredUI packs for an entered name is the domain and the user that the logon
-- scenarios pack for it, joined by a backslash; but a name with '@' and no backslash is packed as
-- it is. The entered name is not empty, the computer's name is known, the tile has no account of
-- its own, and every allocation succeeds.
pub credui_name-serialized_names :
    (c : Calls) (computer username : Wide)
    → is_empty username ≡ false
    → c.name_heap ≡ true
    → c.computer_name ≡ ok computer
    → credui_name c (some username) ≡ (
        if contains b'@' username && not (contains b'\\' username)
        then ok username
        else (serialized_names true true (ok computer) none (some username) >>= λ names.
            ok (joined names)))
unfolding credui_name is_qualified_username build_qualified_username serialized_names
    split_domain_and_username domain_username_string_alloc
credui_name-serialized_names c computer username ne heap named =
    elim (Bool-cases (contains b'\\' username)) [
      | inl e ↦
          let (i, f, p) = found_backslash username e in
          elim (Bool-cases (contains b'@' username)) [
            | inl m ↦ rw (heap, e, m, f, p) refl
            | inr m ↦ rw (heap, e, m, f, p) refl
          ]
      | inr e ↦ elim (Bool-cases (contains b'@' username)) [
        | inl m ↦ rw (heap, e, m) refl
        | inr m ↦ rw (heap, named, ne, e, m) refl
      ]
    ]

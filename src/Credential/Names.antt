-- ===== src/Credential/Names.antt =====
-- The names of accounts: IsQualifiedUsername and BuildQualifiedUsername of
-- CredentialProvider/CSampleCredential.cpp, DomainUsernameStringAlloc and SplitDomainAndUsername of
-- CredentialProvider/helpers.cpp. A wide text is the list of its UTF-16 units before the NUL;
-- whether an allocation succeeds is an argument.
use Prim.Native.Char.{code}
use Prim.Native.String.{String}
use smile2unlock_v.Base.{
  ℕ, ◌+◌, ◌≡◌, refl, List, [], ◌∷◌, ◌++◌, Bool, true, false, ◌||◌, Option, none, some, arith, ◌==◌,
  if◌then◌else◌, Bool-cases, length, take, drop, take-append_left, drop_past, inl, inr,
}
use smile2unlock_v.Base.Text.{Free, is_empty, find, find-append}
use smile2unlock_v.Credential.Results.{
  e_fail, e_invalidarg, e_unexpected, Outcome, ok, err, ◌>>=◌, allocated,
}

abbrev pub Wide : Type 0
Wide = List ℕ

-- A literal, whose characters are of the basic plane.
abbrev pub wide : String → Wide
wide String.[] = []
wide (String.◌∷◌ c s) = code c ∷ wide s

-- `wcschr(s, c) != nullptr`.
unfoldable pub contains : ℕ → Wide → Bool
contains c [] = false
contains c (x ∷ s) = x == c || contains c s

unfoldable pub is_qualified_username : Option Wide → Bool
unfolding contains
is_qualified_username none = false
is_qualified_username (some username) = contains b'\\' username || contains b'@' username

-- L"%s\\%s" in a buffer of the size that it needs.
unfoldable pub domain_username_string_alloc : (heap : Bool) → Wide → Wide → Outcome Wide
domain_username_string_alloc heap domain username = allocated heap (domain ++ b'\\' ∷ username)

split_at : (domain_heap username_heap : Bool) → Wide → Option ℕ → Outcome (Wide × Wide)
split_at domain_heap username_heap name none = err e_unexpected
split_at domain_heap username_heap name (some whack) =
    allocated domain_heap (take whack name) >>= λ domain.
    allocated username_heap (domain, drop (whack + 1) name)

unfoldable pub split_domain_and_username :
    (domain_heap username_heap : Bool) → Wide → Outcome (Wide × Wide)
unfolding split_at
split_domain_and_username domain_heap username_heap name =
    split_at domain_heap username_heap name (find b'\\' name)

unfoldable pub build_qualified_username :
    (heap : Bool) → (computer_name : Outcome Wide) → Option Wide → Outcome Wide
unfolding domain_username_string_alloc
build_qualified_username heap computer_name none = err e_invalidarg
build_qualified_username heap computer_name (some username) =
    if is_empty username
    then err e_invalidarg
    else if contains b'\\' username
    then allocated heap username
    else if contains b'@' username
    then domain_username_string_alloc heap (wide "MicrosoftAccount") username
    else computer_name >>= λ computer. domain_username_string_alloc heap computer username

-- The split takes a joined name apart, and the first part holds no backslash.
pub split_domain_and_username-join :
    (domain username : Wide)
    → Free b'\\' domain
    → split_domain_and_username true true (domain ++ b'\\' ∷ username) ≡ ok (domain, username)
unfolding split_domain_and_username drop
split_domain_and_username-join domain username f =
    rw
      (
        find-append b'\\' domain username f,
        take-append_left domain (b'\\' ∷ username),
        drop_past (length domain) 1 domain (b'\\' ∷ username) refl,
      )
      refl

pub contains-Free : (c : ℕ) (s : Wide) → contains c s ≡ false → Free c s
unfolding contains
contains-Free c [] h = tt
contains-Free c (x ∷ s) h = (λ e. ground (arith), contains-Free c s (ground arith))

-- The domain and the user that GetSerialization packs outside of CredUI, from the name of the
-- account of the tile and the name that was entered or recognised. `heap` and `heap'` are the two
-- allocations of the branch that is taken.
entered_names :
    (heap heap' : Bool) → (computer_name : Outcome Wide) → Option Wide → Outcome (Wide × Wide)
unfolding contains split_domain_and_username
entered_names heap heap' computer_name none = err e_fail
entered_names heap heap' computer_name (some username) =
    if contains b'\\' username
    then split_domain_and_username heap heap' username
    else if contains b'@' username
    then (allocated heap (wide "MicrosoftAccount") >>= λ domain. allocated heap' (domain, username))
    else elim computer_name [
      | ok computer ↦ allocated heap computer >>= λ domain. allocated heap' (domain, username)
      | err e ↦ err e_fail
    ]

unfoldable pub serialized_names :
    (heap heap' : Bool)
    → (computer_name : Outcome Wide) → (qualified_name username : Option Wide)
    → Outcome (Wide × Wide)
unfolding entered_names
serialized_names heap heap' computer_name none username =
    entered_names heap heap' computer_name username
serialized_names heap heap' computer_name (some qualified_name) username =
    if contains b'\\' qualified_name
    then split_domain_and_username heap heap' qualified_name
    else entered_names heap heap' computer_name username

microsoft_Free : Free b'\\' (wide "MicrosoftAccount")
microsoft_Free = omega arith

-- The account that the logon scenarios pack for an entered name is the one that splitting its
-- qualified form gives. The entered name is not empty, the computer's
-- name holds no backslash, the tile has no account of its own, and every allocation succeeds.
pub serialized_names-build_qualified_username :
    (computer username : Wide)
    → is_empty username ≡ false
    → Free b'\\' computer
    → (build_qualified_username true (ok computer) (some username) >>= λ name.
        split_domain_and_username true true name)
      ≡ serialized_names true true (ok computer) none (some username)
unfolding build_qualified_username serialized_names
serialized_names-build_qualified_username computer username ne f =
    elim (Bool-cases (contains b'\\' username)) [
      | inl e ↦ rw (ne, e) refl
      | inr e ↦ elim (Bool-cases (contains b'@' username)) [
        | inl m ↦
            rw (ne, e, m)
              (split_domain_and_username-join (wide "MicrosoftAccount") username microsoft_Free)
        | inr m ↦ rw (ne, e, m) (split_domain_and_username-join computer username f)
      ]
    ]

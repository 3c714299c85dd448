-- ===== src/Gui/Remote/Listings.antt =====
-- What the client reads of the lists of users and faces that the server prints.
use smile2unlock_v.Base.{
  ◌≡◌, ◌≢◌, refl, List, [], ◌∷◌, ◌++◌, map, false, some, arith, All, All-append,
}
use mathlib.Core.List.{append_assoc}
use smile2unlock_v.Base.Text.{Bytes, Free, is_empty}
use smile2unlock_v.Base.Decimal.{ℤ, IsInt, to_string, stoi-to_string, to_string-Free}
use smile2unlock_v.Gui.Lines.{lines, lines-append}
use smile2unlock_v.Gui.Models.{User, FaceData, no_user, no_face}
use smile2unlock_v.Gui.Handler.Texts.{tab, serialize_users, serialize_faces}
use smile2unlock_v.Gui.Remote.Parse.{tab_fields, parse_users, parse_faces, read_users, read_faces}

tab_fields-append : (f s : Bytes) → Free tab f → tab_fields (f ++ tab ∷ s) ≡ f ∷ tab_fields s
unfolding tab_fields
tab_fields-append [] s h = refl
tab_fields-append (c ∷ f) s h = ground (arith, tab_fields-append f s h.1)

-- What stands behind the last tab is no field.
tab_fields-Free : (f : Bytes) → Free tab f → tab_fields f ≡ []
unfolding tab_fields
tab_fields-Free [] h = refl
tab_fields-Free (c ∷ f) h = ground (arith, tab_fields-Free f h.1)

-- A text that fits in a field.
abbrev pub IsField : Bytes → Type 0
IsField s = Free tab s × Free b'\n' s

to_string-IsField : (v : ℤ) → IsField (to_string v)
to_string-IsField v = (
  to_string-Free tab v (omega arith) (λ e. absurd (omega (arith, e))),
  to_string-Free b'\n' v (omega arith) (λ e. absurd (omega (arith, e))),
)

-- A line has a field and a tab.
is_empty_line : (f s : Bytes) → is_empty (f ++ tab ∷ s) ≡ false
unfolding is_empty
is_empty_line [] s = refl
is_empty_line (c ∷ f) s = refl

Free-line : (f s : Bytes) → Free b'\n' f → Free b'\n' s → Free b'\n' (f ++ tab ∷ s)
Free-line f s h k = All-append (λ x. x ≢ b'\n') f (tab ∷ s) h ((λ e. absurd (omega (arith, e))), k)

-- A user whose texts fit in fields and whose name is not empty.
pub record IsListed (u : User) : Type 0 where
  pub id : IsInt u.id
  pub named : is_empty u.username ≡ false
  pub username : IsField u.username
  pub encrypted_password : IsField u.encrypted_password
  pub remark : IsField u.remark

-- What the client has of a user.
abbrev pub seen_user : User → User
seen_user u = record no_user { id = u.id; username = u.username }

user_line : User → Bytes
user_line u = to_string u.id ++ tab ∷ (u.username ++ tab ∷ (u.encrypted_password ++ tab ∷ u.remark))

user_line-Free : (u : User) → IsListed u → Free b'\n' (user_line u)
unfolding user_line
user_line-Free u l =
    Free-line _ _ (to_string-IsField u.id).1
      (Free-line _ _ l.username.1 (Free-line _ _ l.encrypted_password.1 l.remark.1))

serialize_users-line :
    (u : User) (us : List User)
    → serialize_users (u ∷ us) ≡ user_line u ++ b'\n' ∷ serialize_users us
unfolding serialize_users user_line
serialize_users-line u us = rw (append_assoc, append_assoc, append_assoc) refl

fields-user_line :
    (u : User)
    → IsListed u
    → tab_fields (user_line u) ≡ to_string u.id ∷ u.username ∷ u.encrypted_password ∷ []
unfolding user_line
fields-user_line u l =
    rw
      (
        tab_fields-append (to_string u.id) _ (to_string-IsField u.id).0,
        tab_fields-append u.username _ l.username.0,
        tab_fields-append u.encrypted_password _ l.encrypted_password.0,
        tab_fields-Free u.remark l.remark.0,
      )
      refl

is_empty-user_line : (u : User) → is_empty (user_line u) ≡ false
unfolding user_line
is_empty-user_line u = is_empty_line (to_string u.id) _

read_users-user_line :
    (u : User) (ls : List Bytes) (us : List User)
    → IsListed u
    → read_users ls ≡ some us
    → read_users (user_line u ∷ ls) ≡ some (seen_user u ∷ us)
unfolding read_users
read_users-user_line u ls us l e =
    rw (is_empty-user_line u, fields-user_line u l, stoi-to_string u.id l.id, e, l.named) refl

-- The client reads the list of users that the server prints with all ids and names in their order,
-- and with every remark empty: the remark is the last field of a line, and only a field before a
-- tab is read. The ids are ints, the names are not empty, and no text holds a tab or a line break.
pub parse_users-serialize_users :
    (us : List User) → All IsListed us → parse_users (serialize_users us) ≡ some (map seen_user us)
unfolding parse_users serialize_users lines
parse_users-serialize_users [] h = refl
parse_users-serialize_users (u ∷ us) (l, h) =
    rw
      (
        serialize_users-line u us,
        lines-append (user_line u) (serialize_users us) (user_line-Free u l),
        read_users-user_line u (lines (serialize_users us)) (map seen_user us) l
            (parse_users-serialize_users us h),
      )
      refl

pub record IsListedFace (f : FaceData) : Type 0 where
  pub id : IsInt f.id
  pub remark : IsField f.remark

-- What the client has of a face.
abbrev pub seen_face : FaceData → FaceData
seen_face f = record no_face { id = f.id }

face_line : FaceData → Bytes
face_line f = to_string f.id ++ tab ∷ f.remark

serialize_faces-line :
    (f : FaceData) (fs : List FaceData)
    → serialize_faces (f ∷ fs) ≡ face_line f ++ b'\n' ∷ serialize_faces fs
unfolding serialize_faces face_line
serialize_faces-line f fs = rw (append_assoc) refl

read_faces-face_line :
    (f : FaceData) (ls : List Bytes) (fs : List FaceData)
    → IsListedFace f
    → read_faces ls ≡ some fs
    → read_faces (face_line f ∷ ls) ≡ some (seen_face f ∷ fs)
unfolding read_faces face_line
read_faces-face_line f ls fs l e =
    rw
      (
        is_empty_line (to_string f.id) f.remark,
        tab_fields-append (to_string f.id) f.remark (to_string-IsField f.id).0,
        tab_fields-Free f.remark l.remark.0,
        stoi-to_string f.id l.id,
        e,
      )
      refl

face_line-Free : (f : FaceData) → IsListedFace f → Free b'\n' (face_line f)
unfolding face_line
face_line-Free f l = Free-line (to_string f.id) f.remark (to_string-IsField f.id).1 l.remark.1

-- The client reads the list of faces that the server prints with all ids in their order, and with
-- every remark empty. The ids are ints, and no remark holds a tab or a line break.
parse_faces-serialize_faces :
    (fs : List FaceData)
    → All IsListedFace fs
    → parse_faces (serialize_faces fs) ≡ some (map seen_face fs)
unfolding parse_faces serialize_faces lines
parse_faces-serialize_faces [] h = refl
parse_faces-serialize_faces (f ∷ fs) (l, h) =
    let free : Free b'\n' (face_line f) = face_line-Free f l in
    rw
      (
        serialize_faces-line f fs,
        lines-append (face_line f) (serialize_faces fs) free,
        read_faces-face_line f (lines (serialize_faces fs)) (map seen_face fs) l
            (parse_faces-serialize_faces fs h),
      )
      refl

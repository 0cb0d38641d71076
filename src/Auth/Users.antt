-- ===== src/Auth/Users.antt =====
-- `AuthUser`, and the container of users as its documentation describes it: a sequence with unique
-- keys, in which an element that clashes with one already there is not inserted.
use socks5balancer_asio.Prelude.{
  ℕ, ◌≡◌, ◌⊎◌, Bool, true, false, ◌&&◌, ◌||◌, List, [], ◌∷◌, ◌++◌, Option, none, some, Bytes,
  bytes_eq, ◌==◌, if◌then◌else◌, is_empty,
}

pub record AuthUser : Type 0 where
  pub id : ℕ
  pub user : Bytes
  pub pwd : Bytes
  pub base64 : Bytes

-- The first element that passes a test.
abbrev pub first : (AuthUser → Bool) → List AuthUser → Option AuthUser
first test [] = none
first test (u ∷ us) = if test u then some u else first test us

abbrev pub IsIn : {A : Type 0} → A → List A → Type 0
IsIn u [] = ⊥
IsIn u (x ∷ xs) = (u ≡ x) ⊎ IsIn u xs

-- The unique indices: the whole user, its id, its name with its password, its base64 text.
abbrev pub clashes : AuthUser → AuthUser → Bool
clashes a b =
    a.id == b.id || (bytes_eq a.user b.user && bytes_eq a.pwd b.pwd) || bytes_eq a.base64 b.base64

abbrev pub clashes_any : AuthUser → List AuthUser → Bool
clashes_any a [] = false
clashes_any a (u ∷ us) = clashes a u || clashes_any a us

pub record AuthInfoContainer : Type 1 where
  pub Container : Type 0
  pub empty : Container
  pub emplace_back : Container → AuthUser → Container
  pub is_empty_container : Container → Bool
  -- the elements in the order of insertion
  pub to_list : Container → List AuthUser
  -- `find` of the hashed indices; `none` is `end()`
  pub find_id : Container → ℕ → Option AuthUser
  pub find_user : Container → Bytes → Option AuthUser
  pub find_user_pwd : Container → Bytes → Bytes → Option AuthUser
  pub find_base64 : Container → Bytes → Option AuthUser
  pub to_list-empty : to_list empty ≡ []
  pub to_list-emplace_back :
      (c : Container) (u : AuthUser)
      → to_list (emplace_back c u)
        ≡ (if clashes_any u (to_list c) then to_list c else to_list c ++ u ∷ [])
  pub is_empty_container_lem : (c : Container) → is_empty_container c ≡ is_empty (to_list c)
  pub find_id_lem : (c : Container) (i : ℕ) → find_id c i ≡ first (λ u. u.id == i) (to_list c)
  -- the index by name is not unique: `find` gives one of the elements with that name
  pub find_user_found :
      (c : Container) (name : Bytes) (u : AuthUser)
      → find_user c name ≡ some u
      → IsIn u (to_list c) × (bytes_eq u.user name ≡ true)
  pub find_user_missing :
      (c : Container) (name : Bytes)
      → find_user c name ≡ none
      → first (λ u. bytes_eq u.user name) (to_list c) ≡ none
  pub find_user_pwd_lem :
      (c : Container) (name pwd : Bytes)
      → find_user_pwd c name pwd
        ≡ first (λ u. bytes_eq u.user name && bytes_eq u.pwd pwd) (to_list c)
  pub find_base64_lem :
      (c : Container) (text : Bytes)
      → find_base64 c text ≡ first (λ u. bytes_eq u.base64 text) (to_list c)

-- ===== src/Tests/Users.antt =====
-- The user container as a list.
use socks5balancer_asio.Prelude.{
  ◌≡◌, refl, sym, subst, inl, inr, Bool, true, ◌&&◌, List, [], ◌∷◌, ◌++◌, some, bytes_eq, ◌==◌,
  if◌then◌else◌, is_empty, Bool-cases, arith,
}
use socks5balancer_asio.Auth.Users.{AuthUser, AuthInfoContainer, first, IsIn, clashes_any}

pub first_found :
    (test : AuthUser → Bool) (us : List AuthUser) (u : AuthUser)
    → first test us ≡ some u
    → IsIn u us × (test u ≡ true)
first_found test [] u e = cc
first_found test (x ∷ us) u e = elim (Bool-cases (test x)) [
  | inl hit ↦
      let same : x ≡ u = ground arith in (inl (sym same), subst (λ y. test y ≡ true) same hit)
  | inr miss ↦ let (h, t) = first_found test us u (rw miss at e) in (inr h, t)
]

abbrev pub users : AuthInfoContainer
users = record {
  Container = List AuthUser;
  empty = [];
  emplace_back = λ c u. if clashes_any u c then c else c ++ u ∷ [];
  is_empty_container = is_empty;
  to_list = λ c. c;
  find_id = λ c i. first (λ u. u.id == i) c;
  find_user = λ c name. first (λ u. bytes_eq u.user name) c;
  find_user_pwd = λ c name pwd. first (λ u. bytes_eq u.user name && bytes_eq u.pwd pwd) c;
  find_base64 = λ c text. first (λ u. bytes_eq u.base64 text) c;
  to_list-empty = refl;
  to_list-emplace_back = λ c u. refl;
  is_empty_container_lem = λ c. refl;
  find_id_lem = λ c i. refl;
  find_user_found = λ c name. first_found (λ u. bytes_eq u.user name) c;
  find_user_missing = λ c name e. e;
  find_user_pwd_lem = λ c name pwd. refl;
  find_base64_lem = λ c text. refl;
}

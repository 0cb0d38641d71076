-- ===== src/Auth/Checks.antt =====
-- What `needAuth` and `checkAuth` answer after the constructor has read the configuration.
use socks5balancer_asio.Prelude.{
  suc, ◌≡◌, refl, sym, ap, subst, ◌∙◌, ◌⊎◌, inl, inr, Bool, true, false, not, ◌&&◌, List, [], ◌∷◌,
  ◌++◌, some, Bytes, bytes_eq, if◌then◌else◌, is_empty, arith, Bool-cases,
}
use socks5balancer_asio.Config.{AuthClientInfo}
use socks5balancer_asio.Auth.Users.{AuthUser, AuthInfoContainer, first, clashes_any, IsIn}
use socks5balancer_asio.Auth.Manager.{
  AuthClientManager, init_loop, init_user_info, need_auth, check_auth, check_auth_user_only,
}

pub bytes_eq-eq : (xs ys : Bytes) → bytes_eq xs ys ≡ true → xs ≡ ys
bytes_eq-eq [] [] e = refl
bytes_eq-eq [] (y ∷ ys) e = cc
bytes_eq-eq (x ∷ xs) [] e = cc
bytes_eq-eq (x ∷ xs) (y ∷ ys) e = ground (arith, bytes_eq-eq xs ys)

&&-true : (a b : Bool) → (a && b) ≡ true → (a ≡ true) × (b ≡ true)
&&-true true true e = (refl, refl)
&&-true true false e = cc
&&-true false b e = cc

-- A user made from an entry of the configuration.
abbrev pub Comes : List AuthClientInfo → AuthUser → Type 0
Comes infos u = (a : AuthClientInfo) × IsIn a infos × (a.user ≡ u.user) × (a.pwd ≡ u.pwd)

abbrev AllCome : List AuthClientInfo → List AuthUser → Type 0
AllCome infos us = (u : AuthUser) → IsIn u us → Comes infos u

IsIn-append : {A : Type 0} (u : A) (xs ys : List A) → IsIn u (xs ++ ys) → IsIn u xs ⊎ IsIn u ys
IsIn-append u [] ys h = inr h
IsIn-append u (x ∷ xs) ys (inl e) = inl (inl e)
IsIn-append u (x ∷ xs) ys (inr h) = elim (IsIn-append u xs ys h) [
  | inl l ↦ inl (inr l)
  | inr r ↦ inr r
]

module _ (ic : AuthInfoContainer) where
  abbrev added : AuthClientManager ic → AuthClientInfo → AuthUser
  added m a = record {
    id = suc m.last_id;
    user = a.user;
    pwd = a.pwd;
    base64 = a.base64_auth_string;
  }

  abbrev grown : AuthClientManager ic → AuthClientInfo → AuthClientManager ic
  grown m a = record m {
    last_id = suc m.last_id;
    auth_info = ic.emplace_back m.auth_info (added m a);
  }

  grown_comes :
      (infos : List AuthClientInfo) (m : AuthClientManager ic) (a : AuthClientInfo)
      → IsIn a infos
      → AllCome infos (ic.to_list m.auth_info)
      → AllCome infos (ic.to_list (grown m a).auth_info)
  grown_comes infos m a here all u h =
      step (clashes_any (added m a) (ic.to_list m.auth_info))
        (subst (IsIn u) (ic.to_list-emplace_back m.auth_info (added m a)) h)
    where
      old : List AuthUser
      old = ic.to_list m.auth_info

      last : IsIn u (added m a ∷ []) → Comes infos u
      last (inl e) =
          (a, here, sym (ap (λ (x : AuthUser). x.user) e), sym (ap (λ (x : AuthUser). x.pwd) e))
      last (inr n) = absurd n

      step : (b : Bool) → IsIn u (if b then old else old ++ added m a ∷ []) → Comes infos u
      step true k = all u k
      step false k = elim (IsIn-append u old (added m a ∷ []) k) [
        | inl l ↦ all u l
        | inr r ↦ last r
      ]

  loop_comes :
      (infos rest : List AuthClientInfo) (m : AuthClientManager ic)
      → ((a : AuthClientInfo) → IsIn a rest → IsIn a infos)
      → AllCome infos (ic.to_list m.auth_info)
      → AllCome infos (ic.to_list (init_loop ic m rest).auth_info)
  unfolding init_loop
  loop_comes infos [] m sub all = all
  loop_comes infos (a ∷ rest) m sub all =
      loop_comes infos rest (grown m a) (λ b h. sub b (inr h))
        (grown_comes infos m a (sub a (inl refl)) all)

first-IsIn :
    (test : AuthUser → Bool) (us : List AuthUser) (u : AuthUser)
    → first test us ≡ some u
    → IsIn u us × (test u ≡ true)
first-IsIn test [] u e = cc
first-IsIn test (x ∷ us) u e = elim (Bool-cases (test x)) [
  | inl hit ↦
      let same : x ≡ u = ground arith in (inl (sym same), subst (λ y. test y ≡ true) same hit)
  | inr miss ↦ let (h, t) = first-IsIn test us u (rw miss at e) in (inr h, t)
]

all_come :
    (ic : AuthInfoContainer) (infos : List AuthClientInfo)
    → AllCome infos (ic.to_list (init_user_info ic infos).auth_info)
unfolding init_user_info
all_come ic infos =
    loop_comes ic infos infos (record { last_id = 0; auth_info = ic.empty }) (λ a h. h)
      (λ u h. absurd (subst (IsIn u) ic.to_list-empty h))

-- `checkAuth` accepts no name and password but those of an entry of the configuration.
pub check_auth_sound :
    (ic : AuthInfoContainer) (infos : List AuthClientInfo) (user pwd : Bytes) (u : AuthUser)
    → check_auth (init_user_info ic infos) user pwd ≡ some u
    → (a : AuthClientInfo) × IsIn a infos × (a.user ≡ user) × (a.pwd ≡ pwd)
unfolding check_auth
check_auth_sound ic infos user pwd u e =
    let m = init_user_info ic infos in
    let (h, t) =
      first-IsIn _ (ic.to_list m.auth_info) u
        (sym (ic.find_user_pwd_lem m.auth_info user pwd) ∙ e) in
    let (a, at, n, p) = all_come ic infos u h in
    let (tn, tp) = &&-true (bytes_eq u.user user) (bytes_eq u.pwd pwd) t in
    (a, at, n ∙ bytes_eq-eq u.user user tn, p ∙ bytes_eq-eq u.pwd pwd tp)

-- `checkAuthUserOnly`, which SOCKS4 uses, accepts no name but that of an entry of the configuration.
pub check_auth_user_only_sound :
    (ic : AuthInfoContainer) (infos : List AuthClientInfo) (user : Bytes) (u : AuthUser)
    → check_auth_user_only (init_user_info ic infos) user ≡ some u
    → (a : AuthClientInfo) × IsIn a infos × (a.user ≡ user)
unfolding check_auth_user_only
check_auth_user_only_sound ic infos user u e =
    let m = init_user_info ic infos in
    let (h, t) = ic.find_user_found m.auth_info user u e in
    let (a, at, n, p) = all_come ic infos u h in (a, at, n ∙ bytes_eq-eq u.user user t)

module _ (ic : AuthInfoContainer) where
  is_empty-append : (us : List AuthUser) (u : AuthUser) → is_empty (us ++ u ∷ []) ≡ false
  is_empty-append [] u = refl
  is_empty-append (x ∷ us) u = refl

  grown_filled :
      (m : AuthClientManager ic) (a : AuthClientInfo)
      → (ic.to_list m.auth_info ≡ []) ⊎ (is_empty (ic.to_list m.auth_info) ≡ false)
      → is_empty (ic.to_list (grown ic m a).auth_info) ≡ false
  grown_filled m a (inl e) = rw (ic.to_list-emplace_back m.auth_info (added ic m a), e)
  grown_filled m a (inr n) =
      rw (ic.to_list-emplace_back m.auth_info (added ic m a))
        (elim (Bool-cases (clashes_any (added ic m a) (ic.to_list m.auth_info))) [
          | inl clash ↦ rw clash n
          | inr free ↦ rw free (is_empty-append (ic.to_list m.auth_info) (added ic m a))
        ])

  loop_filled :
      (rest : List AuthClientInfo) (m : AuthClientManager ic)
      → is_empty (ic.to_list m.auth_info) ≡ false
      → is_empty (ic.to_list (init_loop ic m rest).auth_info) ≡ false
  unfolding init_loop
  loop_filled [] m n = n
  loop_filled (a ∷ rest) m n = loop_filled rest (grown ic m a) (grown_filled m a (inr n))

-- Authentication is demanded exactly when the configuration has an entry.
pub need_auth-init_user_info :
    (ic : AuthInfoContainer) (infos : List AuthClientInfo)
    → need_auth (init_user_info ic infos) ≡ not (is_empty infos)
unfolding need_auth init_user_info init_loop
need_auth-init_user_info ic [] =
    ap not (ic.is_empty_container_lem ic.empty ∙ ap is_empty ic.to_list-empty)
need_auth-init_user_info ic (a ∷ rest) =
    let m : AuthClientManager ic = record { last_id = 0; auth_info = ic.empty } in
    ap not (
      ic.is_empty_container_lem _
      ∙ loop_filled ic rest (grown ic m a) (grown_filled ic m a (inl ic.to_list-empty)))

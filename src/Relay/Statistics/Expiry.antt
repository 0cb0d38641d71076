-- ===== src/Relay/Statistics/Expiry.antt =====
-- Expired sessions in the statistics.
use mathlib.Core.List.{append_assoc}
use socks5balancer_asio.Prelude.{
  ℕ, suc, ◌≡◌, refl, sym, ap, ◌∙◌, Bool, false, not, List, [], ◌∷◌, ◌++◌, some, length,
  if◌then◌else◌, length-append, get_elem?, Bool-cases, inl, inr, arith,
}
use socks5balancer_asio.Relay.Statistics.Sessions.{SessionInfo, SessionInfoContainer, filter}
use socks5balancer_asio.Relay.Statistics.Info.{
  Info, close_loop, close_all_session, calc_sessions_number, remove_expired_session,
}

abbrev pub ids : List SessionInfo → List ℕ
ids [] = []
ids (a ∷ rest) = a.raw_ptr ∷ ids rest

abbrev pub live : (ℕ → Bool) → List SessionInfo → List SessionInfo
live expired = filter (λ a. not (expired a.raw_ptr))

abbrev pub AllLive : (ℕ → Bool) → List SessionInfo → Type 0
AllLive expired [] = Unit
AllLive expired (a ∷ rest) = (expired a.raw_ptr ≡ false) × AllLive expired rest

live-AllLive : (expired : ℕ → Bool) (xs : List SessionInfo) → AllLive expired (live expired xs)
live-AllLive expired [] = tt
live-AllLive expired (a ∷ xs) = elim (Bool-cases (expired a.raw_ptr)) [
  | inl e ↦ rw e (live-AllLive expired xs)
  | inr e ↦ rw e (e, live-AllLive expired xs)
]

-- Nothing is removed where all are live.
all_stay : (expired : ℕ → Bool) (xs : List SessionInfo) → AllLive expired xs → live expired xs ≡ xs
all_stay expired [] v = refl
all_stay expired (a ∷ xs) v = rw (v.0) (ap (◌∷◌ a) (all_stay expired xs v.1))

length-ids : (xs : List SessionInfo) → length (ids xs) ≡ length xs
length-ids [] = refl
length-ids (a ∷ xs) = ap suc (length-ids xs)

at_place :
    (before after : List SessionInfo) (a : SessionInfo)
    → get_elem? (before ++ a ∷ after) (length before) ≡ some a
at_place [] after a = refl
at_place (b ∷ before) after a = at_place before after a

module _ (sc : SessionInfoContainer) where
  turn :
      (expired : ℕ → Bool) (fuel i : ℕ) (c : sc.Container) (a : SessionInfo)
      → get_elem? (sc.to_list c) i ≡ some a
      → let (closed, after) = close_loop sc expired fuel (suc i) c in
        close_loop sc expired (suc fuel) i c ≡ (
          if expired a.raw_ptr
          then close_loop sc expired fuel i (sc.erase i c)
          else (a.raw_ptr ∷ closed, after))
  unfolding close_loop
  turn expired fuel i c a e = elim (Bool-cases (expired a.raw_ptr)) [
    | inl gone ↦ ground (arith, e, gone)
    | inr kept ↦ ground (arith, e, kept)
  ]

  -- The loop with its iterator behind `before`.
  close_loop_lem :
      (expired : ℕ → Bool) (before after : List SessionInfo) (c : sc.Container)
      → sc.to_list c ≡ before ++ after
      → let r = close_loop sc expired (length after) (length before) c in
        (r.0 ≡ ids (live expired after)) × (sc.to_list r.1 ≡ before ++ live expired after)
  unfolding close_loop
  close_loop_lem expired before [] c e = (refl, e)
  close_loop_lem expired before (a ∷ after) c e =
      let found : get_elem? (sc.to_list c) (length before) ≡ some a =
        ap (λ xs. get_elem? xs (length before)) e ∙ at_place before after a in
      elim (Bool-cases (expired a.raw_ptr)) [
        | inl gone ↦
            rw (turn expired (length after) (length before) c a found, gone)
              (close_loop_lem expired before after (sc.erase (length before) c)
                (sc.to_list-erase before after a c e))
        | inr kept ↦
            let (closed, left) =
              close_loop_lem expired (before ++ a ∷ []) after c
                (e ∙ sym (append_assoc before (a ∷ []) after)) in
            let next : length (before ++ a ∷ []) ≡ suc (length before) =
              omega (arith, length-append before (a ∷ [])) in
            rw (turn expired (length after) (length before) c a found, kept)
              (
                ap (◌∷◌ a.raw_ptr) (rw next at closed),
                (rw next at left) ∙ append_assoc before (a ∷ []) (live expired after),
              )
      ]

module _ {sc : SessionInfoContainer} where
  closed_all :
      (expired : ℕ → Bool) (n : Info sc)
      → let (closed, after) = close_all_session expired n in
        (closed ≡ ids (live expired (sc.to_list n.sessions)))
        × (sc.to_list after.sessions ≡ live expired (sc.to_list n.sessions))
  unfolding close_all_session
  closed_all expired n =
      rw (sc.size_lem n.sessions)
        (close_loop_lem sc expired [] (sc.to_list n.sessions) n.sessions refl)

  -- Closing all sessions of a statistics entry closes its live sessions, each once and in their
  -- order, and leaves exactly these in it; the number that is counted next, with the same sessions
  -- gone, is how many were closed, and counting removes none of them.
  pub close_all_session-calc_sessions_number :
      (expired : ℕ → Bool) (n : Info sc)
      → let (closed, after) = close_all_session expired n in
        (closed ≡ ids (live expired (sc.to_list n.sessions)))
        × (sc.to_list after.sessions ≡ live expired (sc.to_list n.sessions))
        × ((calc_sessions_number expired after).0 ≡ length closed)
        × (sc.to_list (calc_sessions_number expired after).1.sessions ≡ sc.to_list after.sessions)
  unfolding calc_sessions_number remove_expired_session
  close_all_session-calc_sessions_number expired n =
      let (closed, left) = closed_all expired n in
      let after = (close_all_session expired n).1 in
      let xs = sc.to_list n.sessions in
      let same : sc.to_list (remove_expired_session expired after).sessions ≡ live expired xs =
        sc.to_list-remove_if (λ a. expired a.raw_ptr) after.sessions
        ∙ ap (live expired) left
        ∙ all_stay expired (live expired xs) (live-AllLive expired xs) in
      (
        closed,
        left,
        sc.size_lem _
            ∙ ap length same
            ∙ sym (length-ids (live expired xs))
            ∙ ap length (sym closed),
        same ∙ sym left,
      )

-- ===== src/Tests/Delay.antt =====
-- The delay histories at concrete inputs.
use socks5balancer_asio.Prelude.{
  ℕ, ◌≡◌, ◌<◌, ◌≤◌, pos, [], ◌∷◌, ◌++◌, some, none, ◌⊎◌, min, max, suc, length, drop, arith,
}
use socks5balancer_asio.Delay.Buffer.{DelayInfo}
use socks5balancer_asio.Delay.History.{
  TimeHistory, entries, add_delay_info, set_max_size, remove_before,
}
use socks5balancer_asio.Delay.History.Trim.{
  IsBounded, latest, set_max_size_cases, add_delay_info_keeps_latest,
}
use socks5balancer_asio.Delay.History.Prune.{drop_older, remove_before_drops_older}
use socks5balancer_asio.Tests.Ring.{ring}

abbrev entry : ℕ → DelayInfo
entry t = record { delay = pos t; time_clock = t }

-- Three entries where three are kept, in a buffer with room for four.
abbrev three : TimeHistory ring
three = record {
  q = record { room = 4; stored = entry 1 ∷ entry 2 ∷ entry 3 ∷ []; fits = omega arith };
  max_size = 3;
}

three-IsBounded : IsBounded three
three-IsBounded = record { within = omega arith; some_room = omega arith; keeps_one = omega arith }

add_delay_info_keeps_latest_example :
    (h' : TimeHistory ring) × (add_delay_info three (pos 4) 4 ≡ some h')
    × IsBounded h'
    × (entries h' ≡ latest (min 3 4) (entries three ++ entry 4 ∷ []))
add_delay_info_keeps_latest_example = add_delay_info_keeps_latest three (pos 4) 4 three-IsBounded

set_max_size_cases_example :
    ((length (entries three) ≤ max 1 1)
      × (set_max_size three 1 ≡ some (record three { max_size = max 1 1 })))
    ⊎ (((length (entries three) ≡ suc (max 1 1))
          × (h' : TimeHistory ring) × (set_max_size three 1 ≡ some h')
          × (entries h' ≡ drop 1 (entries three))
          × (h'.max_size ≡ max 1 1))
        ⊎ ((suc (max 1 1) < length (entries three)) × (set_max_size three 1 ≡ none)))
set_max_size_cases_example = set_max_size_cases three 1

remove_before_drops_older_example :
    (h' : TimeHistory ring) × (remove_before three 3 ≡ some h')
    × (entries h' ≡ drop_older 3 (entries three))
    × (h'.max_size ≡ 3)
remove_before_drops_older_example = remove_before_drops_older three 3

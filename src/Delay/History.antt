-- ===== src/Delay/History.antt =====
-- `TimeHistory` of DelayCollection.h. A result `none` is undefined behaviour of the C++ code.
pub mod Trim
pub mod Prune
use socks5balancer_asio.Prelude.{
  ℕ, zero, suc, ◌-◌, ◌≤◌, ◌<◌, max, ℤ, List, [], ◌∷◌, Option, none, some, Bool, true, false, length,
  drop, ltb, ◌==◌, if◌then◌else◌,
}
use socks5balancer_asio.Delay.Buffer.{CircularBuffer, DelayInfo}

pub record TimeHistory (cb : CircularBuffer) : Type 0 where
  pub q : cb.Buffer
  pub max_size : ℕ

module _ {cb : CircularBuffer} where
  abbrev pub entries : TimeHistory cb → List DelayInfo
  entries h = cb.to_list h.q

  -- The branch of `trim` that re-creates the buffer: the copy goes to the start of an empty one.
  recreate : TimeHistory cb → ℕ → Option (TimeHistory cb)
  recreate h need_remove =
      elim (cb.copy_to_begin (drop need_remove (entries h)) (cb.make h.max_size)) [
        | none ↦ none
        | some m ↦ some (record h { q = m })
      ]

  unfoldable pub trim : TimeHistory cb → Option (TimeHistory cb)
  unfolding recreate
  trim h =
      if ltb h.max_size (length (entries h))
      then (if length (entries h) - h.max_size == 1
          then some (record h { q = cb.pop_front h.q })
          else recreate h (length (entries h) - h.max_size))
      else some h

  unfoldable pub add_delay_info : TimeHistory cb → ℤ → ℕ → Option (TimeHistory cb)
  add_delay_info h delay now =
      trim (record h { q = cb.push_back h.q (record { delay = delay; time_clock = now }) })

  unfoldable pub set_max_size : TimeHistory cb → ℕ → Option (TimeHistory cb)
  set_max_size h m = trim (record h { max_size = max m 1 })

  unfoldable pub get_max_size : TimeHistory cb → ℕ
  get_max_size h = h.max_size

  unfoldable pub history : TimeHistory cb → List DelayInfo
  history h = entries h

  -- `while (!q->empty())` of `removeBefore`, on fuel.
  remove_before_loop : ℕ → ℕ → TimeHistory cb → Option (TimeHistory cb)
  remove_before_loop zero time h = none
  remove_before_loop (suc fuel) time h =
      let rest = remove_before_loop fuel time (record h { q = cb.pop_front h.q }) in
      elim (entries h) [
        | [] ↦ some h
        | front ∷ _ ↦ if ltb front.time_clock time then rest else some h
      ]

  unfoldable pub remove_before : TimeHistory cb → ℕ → Option (TimeHistory cb)
  unfolding remove_before_loop
  remove_before h time = remove_before_loop (suc (length (entries h))) time h

  unfoldable pub clean : TimeHistory cb → TimeHistory cb
  clean h = record h { q = cb.clear h.q }

-- The constructor; `limit` is 8192, or CMParams_Limit_TimeHistory_Number where the build sets it.
unfoldable pub make_history : (cb : CircularBuffer) → ℕ → TimeHistory cb
make_history cb limit = record { q = cb.make limit; max_size = limit }

-- ===== src/Delay/Buffer.antt =====
-- The part of `boost::circular_buffer<DelayInfo>` that DelayCollection.h uses, as its documentation
-- describes it, and the entries that it holds. Mutexes are not modelled: each method runs alone.
use socks5balancer_asio.Prelude.{
  ℕ, ◌<◌, ◌≤◌, ◌≡◌, ℤ, List, [], ◌∷◌, ◌++◌, Option, none, length, drop,
}

-- `TimeHistory::DelayInfo`: a delay in milliseconds, and the system clock when it was stored.
pub record DelayInfo : Type 0 where
  pub delay : ℤ
  pub time_clock : ℕ

pub record CircularBuffer : Type 1 where
  pub Buffer : Type 0
  -- a new empty buffer of the capacity given
  pub make : ℕ → Buffer
  pub capacity : Buffer → ℕ
  -- the entries from `begin()` to `end()`
  pub to_list : Buffer → List DelayInfo
  pub push_back : Buffer → DelayInfo → Buffer
  pub pop_front : Buffer → Buffer
  pub clear : Buffer → Buffer
  -- `std::copy` to `begin()`; `none` is a write at or behind `end()`, which is undefined
  pub copy_to_begin : List DelayInfo → Buffer → Option Buffer
  pub to_list-make : (n : ℕ) → to_list (make n) ≡ []
  pub capacity-make : (n : ℕ) → capacity (make n) ≡ n
  pub length-le-capacity : (b : Buffer) → length (to_list b) ≤ capacity b
  pub capacity-push_back : (b : Buffer) (a : DelayInfo) → capacity (push_back b a) ≡ capacity b
  pub to_list-push_back_room :
      (b : Buffer) (a : DelayInfo)
      → length (to_list b) < capacity b
      → to_list (push_back b a) ≡ to_list b ++ a ∷ []
  -- a full buffer overwrites its first entry
  pub to_list-push_back_full :
      (b : Buffer) (a : DelayInfo)
      → 0 < capacity b
      → length (to_list b) ≡ capacity b
      → to_list (push_back b a) ≡ drop 1 (to_list b ++ a ∷ [])
  pub capacity-pop_front : (b : Buffer) → capacity (pop_front b) ≡ capacity b
  pub to_list-pop_front : (b : Buffer) → to_list (pop_front b) ≡ drop 1 (to_list b)
  pub capacity-clear : (b : Buffer) → capacity (clear b) ≡ capacity b
  pub to_list-clear : (b : Buffer) → to_list (clear b) ≡ []
  pub copy_to_begin_outside :
      (xs : List DelayInfo) (b : Buffer)
      → length (to_list b) < length xs
      → copy_to_begin xs b ≡ none

-- ===== src/Tests/Ring.antt =====
-- A circular buffer as a list that never outgrows its capacity.
use socks5balancer_asio.Prelude.{
  ℕ, ◌≤◌, ◌<◌, ◌≡◌, refl, List, [], ◌∷◌, ◌++◌, Option, none, some, length, drop, ltb, if◌then◌else◌,
  arith, Bool, true, false, length-append, length-drop,
}
use socks5balancer_asio.Delay.Buffer.{CircularBuffer, DelayInfo}

pub record Ring : Type 0 where
  pub room : ℕ
  pub stored : List DelayInfo
  pub fits : length stored ≤ room

abbrev pub pushed : Ring → DelayInfo → List DelayInfo
pushed r a =
    if ltb (length r.stored) r.room then r.stored ++ a ∷ [] else drop 1 (r.stored ++ a ∷ [])

pub pushed_fits : (r : Ring) (a : DelayInfo) → length (pushed r a) ≤ r.room
pushed_fits r a =
    ground (arith, r.fits, length-append r.stored (a ∷ []), length-drop 1 (r.stored ++ a ∷ []))

abbrev pub copied : List DelayInfo → Ring → List DelayInfo
copied xs r = xs ++ drop (length xs) r.stored

pub copied_fits :
    (xs : List DelayInfo) (r : Ring) → length xs ≤ length r.stored → length (copied xs r) ≤ r.room
copied_fits xs r h =
    omega (
      arith,
      r.fits,
      length-append xs (drop (length xs) r.stored),
      length-drop (length xs) r.stored,
    )

pub not_longer :
    (xs : List DelayInfo) (r : Ring)
    → ltb (length r.stored) (length xs) ≡ false
    → length xs ≤ length r.stored
not_longer xs r e = ground arith

-- The copy, by whether it is longer than the buffer.
abbrev pub copy_if :
    (xs : List DelayInfo) (r : Ring) (b : Bool)
    → ltb (length r.stored) (length xs) ≡ b
    → Option Ring
copy_if xs r true e = none
copy_if xs r false e =
    some (record r { stored = copied xs r; fits = copied_fits xs r (not_longer xs r e) })

pub copy_if_outside :
    (xs : List DelayInfo) (r : Ring) (b : Bool) (e : ltb (length r.stored) (length xs) ≡ b)
    → length r.stored < length xs
    → copy_if xs r b e ≡ none
copy_if_outside xs r true e h = refl
copy_if_outside xs r false e h = absurd (ground arith)

pub push_room :
    (r : Ring) (a : DelayInfo) → length r.stored < r.room → pushed r a ≡ r.stored ++ a ∷ []
push_room r a h = ground arith

pub push_full :
    (r : Ring) (a : DelayInfo) → length r.stored ≡ r.room → pushed r a ≡ drop 1 (r.stored ++ a ∷ [])
push_full r a h = ground arith

abbrev pub ring : CircularBuffer
ring = record {
  Buffer = Ring;
  make = λ n. record { room = n; stored = []; fits = omega arith };
  capacity = λ r. r.room;
  to_list = λ r. r.stored;
  push_back = λ r a. record r { stored = pushed r a; fits = pushed_fits r a };
  pop_front = λ r. record r {
    stored = drop 1 r.stored;
    fits = omega (arith, r.fits, length-drop 1 r.stored);
  };
  clear = λ r. record r { stored = []; fits = omega arith };
  copy_to_begin = λ xs r. copy_if xs r (ltb (length r.stored) (length xs)) refl;
  to_list-make = λ n. refl;
  capacity-make = λ n. refl;
  length-le-capacity = λ r. r.fits;
  capacity-push_back = λ r a. refl;
  to_list-push_back_room = push_room;
  to_list-push_back_full = λ r a p. push_full r a;
  capacity-pop_front = λ r. refl;
  to_list-pop_front = λ r. refl;
  capacity-clear = λ r. refl;
  to_list-clear = λ r. refl;
  copy_to_begin_outside = λ xs r. copy_if_outside xs r (ltb (length r.stored) (length xs)) refl;
}

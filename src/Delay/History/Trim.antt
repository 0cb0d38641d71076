-- ===== src/Delay/History/Trim.antt =====
-- What `trim`, and through it `addDelayInfo` and `setMaxSize`, do to the stored history.
use socks5balancer_asio.Prelude.{
  ℕ, suc, ◌-◌, ◌≤◌, ◌<◌, ◌≡◌, ◌∙◌, ap, refl, max, min, ℤ, List, [], ◌∷◌, ◌++◌, none, some, ◌⊎◌, inl,
  inr, length, length-append, length-drop, drop, ltb, arith, Bool-cases,
}
use socks5balancer_asio.Delay.Buffer.{CircularBuffer, DelayInfo}
use socks5balancer_asio.Delay.History.{TimeHistory, entries, trim, add_delay_info, set_max_size}

-- A history in use holds at most `max_size` entries, and its buffer has room for one.
pub record IsBounded {cb : CircularBuffer} (h : TimeHistory cb) : Type 0 where
  pub within : length (cb.to_list h.q) ≤ h.max_size
  pub some_room : 0 < cb.capacity h.q
  pub keeps_one : 0 < h.max_size

-- The last `n` entries of a list.
abbrev pub latest : ℕ → List DelayInfo → List DelayInfo
latest n xs = drop (length xs - n) xs

drop_same : (m n : ℕ) (xs : List DelayInfo) → m ≡ n → drop m xs ≡ drop n xs
drop_same m n xs e = rw e

module _ {cb : CircularBuffer} (h : TimeHistory cb) where
  trim_none : length (entries h) ≤ h.max_size → trim h ≡ some h
  unfolding trim
  trim_none e = ground arith

  trim_one : length (entries h) ≡ suc h.max_size → trim h ≡ some (record h { q = cb.pop_front h.q })
  unfolding trim
  trim_one e = ground arith

  trim_more : 0 < h.max_size → suc h.max_size < length (entries h) → trim h ≡ none
  unfolding trim
  trim_more k e = ground (
    arith,
    cb.copy_to_begin_outside (drop (length (entries h) - h.max_size) (entries h))
        (cb.make h.max_size),
    cb.to_list-make h.max_size,
    length-drop (length (entries h) - h.max_size) (entries h),
  )

-- `setMaxSize` on every branch: a history that fits is kept, one entry too many drops the oldest
-- one, and with more than one entry too many the copy writes outside the new buffer.
pub set_max_size_cases :
    {cb : CircularBuffer} (h : TimeHistory cb) (m : ℕ)
    → ((length (entries h) ≤ max m 1) × (set_max_size h m ≡ some (record h { max_size = max m 1 })))
      ⊎ (((length (entries h) ≡ suc (max m 1))
            × (h' : TimeHistory cb) × (set_max_size h m ≡ some h')
            × (entries h' ≡ drop 1 (entries h))
            × (h'.max_size ≡ max m 1))
          ⊎ ((suc (max m 1) < length (entries h)) × (set_max_size h m ≡ none)))
unfolding set_max_size
set_max_size_cases {cb} h m = split (length (entries h)) refl
  where
    resized : TimeHistory cb
    resized = record h { max_size = max m 1 }

    split :
        (n : ℕ)
        → length (entries h) ≡ n
        → ((length (entries h) ≤ max m 1) × (set_max_size h m ≡ some resized))
          ⊎ (((length (entries h) ≡ suc (max m 1))
                × (h' : TimeHistory cb) × (set_max_size h m ≡ some h')
                × (entries h' ≡ drop 1 (entries h))
                × (h'.max_size ≡ max m 1))
              ⊎ ((suc (max m 1) < length (entries h)) × (set_max_size h m ≡ none)))
    split n e = elim (Bool-cases (ltb (max m 1) n)) [
      | inl over ↦ elim (Bool-cases (ltb (suc (max m 1)) n)) [
        | inl more ↦ inr (inr (ground arith, trim_more resized (omega arith) (ground arith)))
        | inr one ↦ inr (
            inl (
              ground arith,
              record resized { q = cb.pop_front h.q },
              trim_one resized (ground arith),
              cb.to_list-pop_front h.q,
              refl,
            ))
      ]
      | inr fits ↦ inl (ground arith, trim_none resized (ground arith))
    ]

module _ {cb : CircularBuffer} (h : TimeHistory cb) (delay : ℤ) (now : ℕ) (v : IsBounded h) where
  abbrev pushed : TimeHistory cb
  pushed = record h { q = cb.push_back h.q (record { delay = delay; time_clock = now }) }

  abbrev grown : List DelayInfo
  grown = entries h ++ record { delay = delay; time_clock = now } ∷ []

  length-grown : length grown ≡ suc (length (entries h))
  length-grown =
      omega (arith, length-append (entries h) (record { delay = delay; time_clock = now } ∷ []))

  abbrev Keeps : TimeHistory cb → Type 0
  Keeps h' = (IsBounded h') × (entries h' ≡ latest (min h.max_size (cb.capacity h.q)) grown)

  full-Keeps : length (entries h) ≡ cb.capacity h.q → (trim pushed ≡ some pushed) × Keeps pushed
  full-Keeps e = (
    trim_none pushed (omega (arith, size)),
    (
      record {
        within = omega (arith, size);
        some_room = omega (arith, v.some_room, cb.capacity-push_back h.q _);
        keeps_one = v.keeps_one;
      },
      stored ∙ drop_same 1 _ grown (omega (arith, length-grown, v.within)),
    ),
  )
    where
      stored : entries pushed ≡ drop 1 grown
      stored = cb.to_list-push_back_full h.q _ v.some_room e

      size : (length (entries pushed) ≡ length (entries h)) × (length (entries h) ≤ h.max_size)
      size = (omega (arith, ap length stored, length-drop 1 grown, length-grown), v.within)

  room-Keeps :
      length (entries h) < cb.capacity h.q
      → length (entries h) < h.max_size
      → (trim pushed ≡ some pushed) × Keeps pushed
  room-Keeps r m = (
    trim_none pushed (omega (arith, size)),
    (
      record {
        within = omega (arith, size);
        some_room = omega (arith, v.some_room, cb.capacity-push_back h.q _);
        keeps_one = v.keeps_one;
      },
      stored ∙ drop_same 0 _ grown (omega (arith, length-grown)),
    ),
  )
    where
      stored : entries pushed ≡ grown
      stored = cb.to_list-push_back_room h.q _ r

      size : length (entries pushed) ≡ suc (length (entries h))
      size = omega (arith, ap length stored, length-grown)

  abbrev popped : TimeHistory cb
  popped = record pushed { q = cb.pop_front pushed.q }

  over-Keeps :
      length (entries h) < cb.capacity h.q
      → length (entries h) ≡ h.max_size
      → (trim pushed ≡ some popped) × Keeps popped
  over-Keeps r m = (
    trim_one pushed (omega (arith, size)),
    (
      record {
        within = omega (
          arith,
          size,
          ap length (cb.to_list-pop_front pushed.q),
          length-drop 1 (entries pushed),
        );
        some_room = omega (
          arith,
          v.some_room,
          cb.capacity-pop_front pushed.q,
          cb.capacity-push_back h.q (record { delay = delay; time_clock = now }),
        );
        keeps_one = v.keeps_one;
      },
      cb.to_list-pop_front pushed.q
          ∙ ap (drop 1) stored
          ∙ drop_same 1 _ grown (omega (arith, length-grown)),
    ),
  )
    where
      stored : entries pushed ≡ grown
      stored = cb.to_list-push_back_room h.q _ r

      size : length (entries pushed) ≡ suc (length (entries h))
      size = omega (arith, ap length stored, length-grown)

-- `addDelayInfo` on a bounded history stores the entry and the oldest makes room for it, within
-- both the limit and the capacity of the buffer; the history stays bounded, and no write leaves
-- the buffer.
pub add_delay_info_keeps_latest :
    {cb : CircularBuffer} (h : TimeHistory cb) (delay : ℤ) (now : ℕ)
    → IsBounded h
    → (h' : TimeHistory cb) × (add_delay_info h delay now ≡ some h')
      × IsBounded h'
      × (entries h'
          ≡ latest
              (min h.max_size (cb.capacity h.q))
              (entries h ++ record { delay = delay; time_clock = now } ∷ []))
unfolding add_delay_info
add_delay_info_keeps_latest {cb} h delay now v =
    elim (Bool-cases (ltb (length (entries h)) (cb.capacity h.q))) [
      | inr full ↦
          let k = full-Keeps h delay now v (grind (arith, cb.length-le-capacity h.q)) in
          (pushed h delay now v, k.0, k.1.0, k.1.1)
      | inl room ↦ elim (Bool-cases (ltb (length (entries h)) h.max_size)) [
        | inl below ↦
            let k = room-Keeps h delay now v (ground arith) (ground arith) in
            (pushed h delay now v, k.0, k.1.0, k.1.1)
        | inr at ↦
            let k = over-Keeps h delay now v (ground arith) (ground (arith, v.within)) in
            (popped h delay now v, k.0, k.1.0, k.1.1)
      ]
    ]

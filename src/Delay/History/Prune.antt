-- ===== src/Delay/History/Prune.antt =====
-- What `removeBefore` leaves.
use socks5balancer_asio.Prelude.{
  ℕ, zero, suc, ◌<◌, ◌≡◌, refl, ap, sym, ◌∙◌, List, [], ◌∷◌, Option, some, false, length, drop, ltb,
  if◌then◌else◌, arith, Bool-cases, inl, inr,
}
use socks5balancer_asio.Delay.Buffer.{CircularBuffer, DelayInfo}
use socks5balancer_asio.Delay.History.{TimeHistory, entries, remove_before_loop, remove_before}

-- The list from its first entry that is not older than `time`.
pub drop_older : ℕ → List DelayInfo → List DelayInfo
drop_older time [] = []
drop_older time (d ∷ ds) = if ltb d.time_clock time then drop_older time ds else d ∷ ds

module _ {cb : CircularBuffer} (time : ℕ) where
  abbrev Drops : Option (TimeHistory cb) → TimeHistory cb → Type 0
  Drops r h =
      (h' : TimeHistory cb) × (r ≡ some h')
      × (entries h' ≡ drop_older time (entries h))
      × (h'.max_size ≡ h.max_size)

  abbrev popped : TimeHistory cb → TimeHistory cb
  popped h = record h { q = cb.pop_front h.q }

  loop_step :
      (fuel : ℕ) (h : TimeHistory cb) (l : List DelayInfo)
      → entries h ≡ l
      → length l < suc fuel
      → (length (entries (popped h)) < fuel
          → Drops (remove_before_loop fuel time (popped h)) (popped h))
      → Drops (remove_before_loop (suc fuel) time h) h
  unfolding remove_before_loop drop_older
  loop_step fuel h [] e lt ih =
      (h, rw (e, remove_before_loop), e ∙ ap (drop_older time) (sym e), refl)
  loop_step fuel h (d ∷ ds) e lt later = elim (Bool-cases (ltb d.time_clock time)) [
    | inl old ↦ (
      ih.0,
      rw (e, remove_before_loop) (rw old ih.1),
      rw (e, old) (ih.2 ∙ ap (drop_older time) rest),
      ih.3,
    )
    | inr new ↦ (h, rw (e, remove_before_loop) (rw new), kept new, refl)
  ]
    where
      rest : entries (popped h) ≡ ds
      rest = cb.to_list-pop_front h.q ∙ ap (drop 1) e

      kept : ltb d.time_clock time ≡ false → entries h ≡ drop_older time (entries h)
      kept new = e ∙ sym (rw (e, new))

      ih : Drops (remove_before_loop fuel time (popped h)) (popped h)
      ih = later (rw rest (omega arith))

  loop-Drops :
      (fuel : ℕ) (h : TimeHistory cb)
      → length (entries h) < fuel
      → Drops (remove_before_loop fuel time h) h
  loop-Drops zero h lt = elim lt [ ]
  loop-Drops (suc fuel) h lt = loop_step fuel h (entries h) refl lt (loop-Drops fuel (popped h))

-- `removeBefore` ends, removes exactly the entries in front of the first one that is not older
-- than `time`, and leaves the limit alone.
pub remove_before_drops_older :
    {cb : CircularBuffer} (h : TimeHistory cb) (time : ℕ)
    → (h' : TimeHistory cb) × (remove_before h time ≡ some h')
      × (entries h' ≡ drop_older time (entries h))
      × (h'.max_size ≡ h.max_size)
unfolding remove_before
remove_before_drops_older h time = loop-Drops time (suc (length (entries h))) h (omega arith)

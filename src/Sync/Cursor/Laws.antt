-- ===== src/Sync/Cursor/Laws.antt =====
-- The windows in which orders are fetched leave no gap.
use cross_pilot.Sync.Cursor.{one_second, since_of, order_sync_window}
use cross_pilot.Prelude.Int.{ℤ, pos, ◌-ℤ◌, ◌≤ℤ◌, ◌<ℤ◌, ltb_ℤ, leb_ℤ, int_laws}
use cross_pilot.Prelude.{if◌then◌else◌, Bool-cases, ◌≡◌, refl, ◌⊎◌, inl, inr, Option, some, arith}

window_cases :
    (cursor_at : Option ℤ) (now overlap initial : ℤ)
    → (now ≤ℤ since_of cursor_at now overlap initial)
        × (order_sync_window cursor_at now overlap initial
            ≡ (now -ℤ (if ltb_ℤ (pos 0) overlap then overlap else one_second), now))
      ⊎ (since_of cursor_at now overlap initial <ℤ now)
        × (order_sync_window cursor_at now overlap initial
            ≡ (since_of cursor_at now overlap initial, now))
unfolding order_sync_window
window_cases cursor_at now overlap initial =
    elim (Bool-cases (leb_ℤ now (since_of cursor_at now overlap initial))) [
      | inl late ↦ rw late (inl (ground arith, refl))
      | inr fine ↦ rw fine (inr (ground arith, refl))
    ]

-- A window is never empty, ends now, and with an overlap that is not negative it starts no later
-- than the high-water mark: no order that was updated since the mark is left out.
pub window_covers :
    (mark now overlap initial : ℤ)
    → pos 0 ≤ℤ overlap
    → ((order_sync_window (some mark) now overlap initial).0
        <ℤ (order_sync_window (some mark) now overlap initial).1)
      × ((order_sync_window (some mark) now overlap initial).1 ≡ now)
      × ((order_sync_window (some mark) now overlap initial).0 ≤ℤ mark)
window_covers mark now overlap initial h = elim (window_cases (some mark) now overlap initial) [
  | inl (late, e) ↦ rw e (elim (Bool-cases (ltb_ℤ (pos 0) overlap)) [
    | inl some_overlap ↦ rw some_overlap (grind int_laws, refl, grind int_laws)
    | inr none_at_all ↦ rw none_at_all (grind int_laws, refl, grind int_laws)
  ])
  | inr (fine, e) ↦ rw e (fine, refl, grind int_laws)
]

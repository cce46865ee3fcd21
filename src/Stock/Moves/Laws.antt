-- ===== src/Stock/Moves/Laws.antt =====
-- What the moves do to the bins of the two warehouses.
use cross_pilot.Prelude.Result.{Result, ok, ◌>>=◌}
use cross_pilot.Prelude.Int.{ℤ, pos, ◌+ℤ◌, ◌-ℤ◌, negate, ◌≤ℤ◌, leb_ℤ, int_laws}
use cross_pilot.Prelude.{◌≡◌, refl, false, arith}
use cross_pilot.Stock.Moves.{
  ValueError, transfer_out, transfer_in, available, in_transit, StockMove, ship_moves, receive_move,
  cancel_transit_moves, Bin, Outcome, applied, insufficient, apply_bin,
}

-- The constraints of the table on these numbers.
pub record IsSound (b : Bin) : Type 0 where
  pub reserved : pos 0 ≤ℤ b.occupied
  pub covered : b.occupied ≤ℤ b.available
  pub transit : pos 0 ≤ℤ b.in_transit

-- Any move keeps a sound bin sound, and one that is refused changes nothing.
pub apply_bin-IsSound :
    (b : Bin) (move : StockMove)
    → IsSound b
    → IsSound (apply_bin b move).1
      × ((apply_bin b move).0 ≡ insufficient → (apply_bin b move).1 ≡ b)
unfolding apply_bin
apply_bin-IsSound b move h = grind int_laws

-- goods and goods on the way
abbrev pub goods : Bin → ℤ
goods b = b.available +ℤ b.in_transit

-- A transfer's life over the source bin and the destination bin: shipping, then one of the ends.
abbrev pub shipped : Bin → Bin → ℤ → Result ValueError (Outcome × Bin × Outcome × Bin)
shipped src dst q = ship_moves q >>= λ m.
    let (o, s) = apply_bin src m.0 in let (p, d) = apply_bin dst m.1 in ok (o, s, p, d)

abbrev pub received : Bin → Bin → ℤ → Result ValueError (Bin × Outcome × Bin)
received src dst q = receive_move q >>= λ m. let (o, d) = apply_bin dst m in ok (src, o, d)

abbrev pub cancelled : Bin → Bin → ℤ → Result ValueError (Outcome × Bin × Outcome × Bin)
cancelled src dst q = cancel_transit_moves q >>= λ m.
    let (p, d) = apply_bin dst m.0 in let (o, s) = apply_bin src m.1 in ok (o, s, p, d)

apply_bin-applied :
    (b : Bin) (move : StockMove) (a t : ℤ)
    → b.available +ℤ move.available_delta ≡ a
    → b.in_transit +ℤ move.in_transit_delta ≡ t
    → pos 0 ≤ℤ a
    → pos 0 ≤ℤ t
    → b.occupied ≤ℤ a
    → apply_bin b move ≡ (applied, record b { available = a; in_transit = t })
unfolding apply_bin
apply_bin-applied b move a t ea et h k l = ground arith

module _ (src dst : Bin) (q : ℤ) (hs : IsSound src) (hd : IsSound dst)
    (some_goods : pos 1 ≤ℤ q) where
  positive_quantity : leb_ℤ q (pos 0) ≡ false
  positive_quantity = ground arith

  -- A transfer of a positive quantity that the source has free is shipped on both sides: its goods
  -- leave what is available at the source and are on the way to the destination.
  pub ship_lem :
      src.occupied +ℤ q ≤ℤ src.available
      → shipped src dst q
        ≡ ok (
          applied,
          record src { available = src.available -ℤ q },
          applied,
          record dst { in_transit = dst.in_transit +ℤ q },
        )
  unfolding ship_moves
  ship_lem fits = rw (
    positive_quantity,
    apply_bin-applied src
        (record {
          available_delta = negate q;
          in_transit_delta = pos 0;
          flow_type = transfer_out;
          bucket = available;
        })
        (src.available -ℤ q) src.in_transit (omega int_laws) (omega int_laws)
        (omega (int_laws, hs.reserved)) hs.transit (omega int_laws),
    apply_bin-applied dst
        (record {
          available_delta = pos 0;
          in_transit_delta = q;
          flow_type = transfer_in;
          bucket = in_transit;
        })
        dst.available (dst.in_transit +ℤ q) (omega int_laws) (omega int_laws)
        (omega (int_laws, hd.reserved, hd.covered)) (omega (int_laws, hd.transit)) hd.covered,
  )

  -- Receiving what is on the way makes it available at the destination, and the source is left alone.
  pub receive_lem :
      (s : Bin)
      → received s (record dst { in_transit = dst.in_transit +ℤ q }) q
        ≡ ok (s, applied, record dst { available = dst.available +ℤ q })
  unfolding receive_move
  receive_lem s = rw (
    positive_quantity,
    apply_bin-applied (record dst { in_transit = dst.in_transit +ℤ q })
        (record {
          available_delta = q;
          in_transit_delta = negate q;
          flow_type = transfer_in;
          bucket = available;
        })
        (dst.available +ℤ q) dst.in_transit refl (omega int_laws)
        (omega (int_laws, hd.reserved, hd.covered)) hd.transit (omega (int_laws, hd.covered)),
  )

  -- Cancelling what is on the way brings both bins back to what they were before it was shipped.
  pub cancel_lem :
      src.occupied +ℤ q ≤ℤ src.available
      → cancelled
          (record src { available = src.available -ℤ q })
          (record dst { in_transit = dst.in_transit +ℤ q })
          q
        ≡ ok (applied, src, applied, dst)
  unfolding cancel_transit_moves
  cancel_lem fits = rw (
    positive_quantity,
    apply_bin-applied (record dst { in_transit = dst.in_transit +ℤ q })
        (record {
          available_delta = pos 0;
          in_transit_delta = negate q;
          flow_type = transfer_in;
          bucket = in_transit;
        })
        dst.available dst.in_transit (omega int_laws) (omega int_laws)
        (omega (int_laws, hd.reserved, hd.covered)) hd.transit hd.covered,
    apply_bin-applied (record src { available = src.available -ℤ q })
        (record {
          available_delta = q;
          in_transit_delta = pos 0;
          flow_type = transfer_out;
          bucket = available;
        })
        src.available src.in_transit (omega int_laws) (omega int_laws)
        (omega (int_laws, hs.reserved, hs.covered)) hs.transit hs.covered,
  )

  -- A transfer of a positive quantity that the source has free: shipped and received, it has moved
  -- from the source to the destination; shipped and cancelled, both bins are as before.
  pub transfer_ends :
      src.occupied +ℤ q ≤ℤ src.available
      → ((shipped src dst q >>= λ r. received r.1 r.3 q)
          ≡ ok (
            record src { available = src.available -ℤ q },
            applied,
            record dst { available = dst.available +ℤ q },
          ))
        × ((shipped src dst q >>= λ r. cancelled r.1 r.3 q) ≡ ok (applied, src, applied, dst))
  transfer_ends fits = (rw (ship_lem fits) (receive_lem _), rw (ship_lem fits) (cancel_lem fits))

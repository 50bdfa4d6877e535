-- ===== src/Distance/Code.antt =====
-- The distance that computeDistanceCode's code of internal/encoder/encoder.go stands for, and where
-- the decoder's ring is after it.
use go_brrr.Prelude.{ℕ, ◌-◌, ltb, leb, if◌then◌else◌}
use go_brrr.Distance.{Ring, take_distance_from_ring_buffer, record_distance, skip_dictionary}

unfoldable pub receive_distance : Ring → ℕ → ℕ × Ring
receive_distance r code =
    if ltb code 16
    then take_distance_from_ring_buffer r code
    else (code - 15, record r { context = 0 })

-- With the largest distance that is a copy.
unfoldable pub settle : ℕ → ℕ → Ring → ℕ × Ring
settle most code r =
    let (distance, r') = receive_distance r code in
    (distance, if leb distance most then record_distance distance r' else skip_dictionary r')

-- ===== src/WhaleLand/Connection/Ids.antt =====
-- connection.rs, `get_and_increment_next_object_id`: the IDs that it gives.
use one_true_pairing.Common.{ℕ, zero, suc, ◌+◌, ◌%◌, ◌^◌, ◌<◌, ◌≡◌, refl, arith}
use one_true_pairing.WhaleLand.Error.{ObjectId, IsObjectId, object_id_new, ok}
use one_true_pairing.WhaleLand.Connection.{next_object_id_loop}

-- Whatever the counter, a u32, the loop for object IDs ends in its second round at the latest,
-- with an ID that is not zero, and leaves a counter that is a u32.
pub next_object_id_loop-IsObjectId :
    (fuel counter : ℕ)
    → counter < 2 ^ 32
    → (oid : ObjectId) × (next : ℕ) × (next_object_id_loop (suc (suc fuel)) counter
        ≡ (ok oid, next))
      × IsObjectId oid
      × (next < 2 ^ 32)
unfolding next_object_id_loop object_id_new
next_object_id_loop-IsObjectId fuel zero h = (1, 2, refl, (omega arith, omega arith), omega arith)
next_object_id_loop-IsObjectId fuel (suc n) h =
    (suc n, (suc n + 1) % 2 ^ 32, ground arith, (omega arith, h), omega arith)

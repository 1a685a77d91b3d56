-- ===== src/Qos/ReceiveTests.antt =====
-- A run of the handler of Data.
use nfd_qo_s.Base.{ℕ, ◌<◌, ◌≡◌, refl, ◌≢◌, inl, false, Option, none, some, List, [], ◌∷◌, arith}
use nfd_qo_s.Base.Int.{pos}
use nfd_qo_s.Qos.Tests.{whole, counted_rates}
use nfd_qo_s.Qos.Stats.{PrTypes}
use nfd_qo_s.Table.Pit.{InRecord}
use nfd_qo_s.Qos.Receive.{Arrived, after_receive_data}
use nfd_qo_s.Qos.Bucket.{TokenBucket, new_bucket}
use nfd_qo_s.Qos.TxQueue.{TxQueue}
use nfd_qo_s.Base.Int.{pos}
use nfd_qo_s.Qos.Receive.Unknown.{after_receive_data-unknown}

abbrev one_each : TokenBucket
one_each = record new_bucket { tokens = (301, pos 2) ∷ []; capacity = pos 10 }

abbrev buckets : List TokenBucket
buckets = one_each ∷ one_each ∷ one_each ∷ []

abbrev types : PrTypes
types = record { type_one = 21; type_two = 22; type_three = 23 }

abbrev waiting : InRecord
waiting = record {
  base = record { face = 301; last_nonce = 7; last_renewed = 100; expiry = 600 };
  interest = none;
}

abbrev arrived : Arrived
arrived = record {
  faces = λ g. record { face_id = g; is_ad_hoc = false };
  in_face = 302;
  name = 8 ∷ 22 ∷ 65 ∷ [];
  wire_encode = 6 ∷ 1 ∷ 0 ∷ [];
  pit_entry = 1;
  in_records = waiting ∷ [];
  out_records = [];
}

abbrev device : ℕ → Option ℕ
device g = some 20

unlike : (n : ℕ) → n < 65 → ◌≢◌ {A = ℕ} 65 n
unlike n h e = absurd (omega (arith, e))

abbrev unknown_data : Arrived
unknown_data = record arrived { name = 8 ∷ 65 ∷ 65 ∷ [] }

after_receive_data-unknown_example :
    after_receive_data whole counted_rates types 3 device 200 50 unknown_data [] [] buckets ≡ none
after_receive_data-unknown_example =
    after_receive_data-unknown whole counted_rates types 3 device 200 50 301 unknown_data [] []
      buckets (unlike 21 (omega arith), unlike 22 (omega arith), unlike 23 (omega arith))
      (omega arith) (record { valid = tt; distinct = tt; devices = tt; sendable = tt }) refl
      (inl (refl, refl))

-- ===== src/TcMalloc/ClassSize/Tests.antt =====
-- Runs of the size arithmetic at single sizes.
use mylittle_code_house.Base.{◌<◌, ◌≡◌, refl, ok, err, assert_failed, arith, Returns}
use mylittle_code_house.TcMalloc.ClassSize.{max_listnode, round_up, round_up_to, index}
use mylittle_code_house.TcMalloc.ClassSize.Buckets.{bucket_size, index-round_up, index-round_up_top}

round_up_129 : round_up 129 ≡ 144
unfolding round_up round_up_to
round_up_129 = refl

index_top : index 253952 ≡ ok 206
unfolding index
index_top = refl

index-round_up_example :
    Returns (λ i. (i < max_listnode) × (bucket_size i ≡ round_up 1500)) (index (round_up 1500))
index-round_up_example = index-round_up 1500 (omega arith) (omega arith)

index-round_up_top_example : index (round_up 260000) ≡ err assert_failed
index-round_up_top_example = index-round_up_top 260000 (omega arith) (omega arith)

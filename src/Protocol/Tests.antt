-- ===== src/Protocol/Tests.antt =====
-- The request 12 * -7.
use mylittle_code_house.Base.{◌≡◌, refl, [], ◌∷◌}
use mylittle_code_house.Base.Int.{pos, negsuc}
use mylittle_code_house.Calculator.{Request}
use mylittle_code_house.Protocol.{to_string, decimal, serialize, no_return, de_serialize}
use mylittle_code_house.Protocol.RoundTrip.{de_serialize-serialize}

abbrev product : Request
product = record { x = pos 12; y = negsuc 6; op = b'*' }

abbrev blank : Request
blank = record { x = pos 0; y = pos 0; op = 0 }

product_text : serialize product ≡ b'1' ∷ b'2' ∷ b' ' ∷ b'*' ∷ b' ' ∷ b'-' ∷ b'7' ∷ []
unfolding serialize to_string decimal
product_text = refl

de_serialize-serialize_example : de_serialize blank (serialize product) ≡ (product, no_return)
de_serialize-serialize_example = de_serialize-serialize blank product

-- ===== src/M1/Server/Body.antt =====
-- The bodies that `_body` of apps/m1_rtl_to_gds/src/openroad_app_m1/server.py accepts.
use agentic_rtlto_gds_design.Prelude.{ℕ, ◌≡◌, refl, ◌≤◌, Option, none, some, arith}
use agentic_rtlto_gds_design.Prelude.Json.{ℤ, pos, negsuc, Json, obj, Fields}
use agentic_rtlto_gds_design.Prelude.Result.{ok}
use agentic_rtlto_gds_design.M1.Server.{Request, request_body, max_body_bytes, parsed_body}

-- A length that the request gives, and an object of that length.
pub record Accepted (r : Request) (fields : Fields) : Type 0 where
  pub length : ℕ
  pub given : r.content_length ≡ some (some (pos length))
  pub bounded : length ≤ max_body_bytes
  pub object : r.body (pos length) ≡ some (obj fields)

parsed : (o : Option Json) (fields : Fields) → parsed_body o ≡ ok fields → o ≡ some (obj fields)
parsed o fields h = ground arith

request_body-of_length :
    (r : Request) (o : Option (Option ℤ)) (fields : Fields)
    → r.content_length ≡ o
    → request_body r ≡ ok fields
    → Accepted r fields
unfolding request_body
request_body-of_length r none fields e h = absurd (ground arith)
request_body-of_length r (some none) fields e h = absurd (ground arith)
request_body-of_length r (some (some (negsuc n))) fields e h = absurd (ground arith)
request_body-of_length r (some (some (pos n))) fields e h = record {
  length = n;
  given = e;
  bounded = ground arith;
  object = parsed (r.body (pos n)) fields (ground arith);
}

-- A body that the server accepts is a JSON object, of a length that the request gives and that is at
-- most 2 MiB.
pub request_body-Accepted :
    (r : Request) (fields : Fields) → request_body r ≡ ok fields → Accepted r fields
request_body-Accepted r fields h = request_body-of_length r r.content_length fields refl h

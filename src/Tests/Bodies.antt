-- ===== src/Tests/Bodies.antt =====
-- The reading of the server's bodies, over natural numbers.
use pontis.Base.{ℕ, String, ◌≡◌, refl, ◌↔◌, Bool, true, false, Option, none, some, [], ◌∷◌}
use pontis.Wire.Json.{Json, Items, Fields, lookup}
use pontis.Wire.Validate.{Check, parse_sync_response, parse_server_snapshot_page}
use pontis.Wire.Validate.Bodies.{
  IsSyncResponse, IsSnapshotPage, parse_sync_response_iff, parse_server_snapshot_page_iff,
}
use pontis.Wire.Codec.{SyncResponse, decode_sync_response}
use pontis.Wire.Codec.RoundTrip.{response_object, decode-response_object}

abbrev finite : ℕ → Bool
finite n = true

abbrev not_nan : ℕ → Bool
not_nan n = false

abbrev printed : Option (Json ℕ) → String
printed v = "?"

abbrev response : SyncResponse ℕ
response = record {
  protocol_version = 1;
  epoch = 1;
  journal_floor_revision = 0;
  from_revision = 7;
  through_revision = 8;
  server_revision = 8;
  has_more = false;
  operation_results =
      (record {
        op_id = "o1";
        client_seq = 1;
        status = "APPLIED";
        reason = "";
        result_revision = 8;
        settle_after_revision = 8;
      })
      ∷ [];
  changes = (record { revision = 8; type = "delete"; node_id = "c1"; payload = none }) ∷ [];
}

decode-response_object_example :
    decode_sync_response not_nan (response_object response) ≡ some response
decode-response_object_example = decode-response_object not_nan (λ n. refl) response

-- What the decoder reads also passes the validator.
response_passes : parse_sync_response finite printed (response_object response) ≡ Check.fine
unfolding parse_sync_response response_object lookup
response_passes = refl

parse_sync_response_iff_example :
    (parse_sync_response finite printed (response_object response) ≡ Check.fine)
    ↔ IsSyncResponse finite printed (response_object response)
parse_sync_response_iff_example = parse_sync_response_iff finite printed (response_object response)

-- A page without a cursor.
abbrev page : Json ℕ
page =
    Json.object (
      Fields.field "total" (Json.number 0) (Fields.field "nodes" (Json.array Items.nil) Fields.end))

parse_server_snapshot_page_iff_example :
    (parse_server_snapshot_page finite printed page ≡ Check.fine)
    ↔ IsSnapshotPage finite printed page
parse_server_snapshot_page_iff_example = parse_server_snapshot_page_iff finite printed page

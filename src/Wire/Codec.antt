-- ===== src/Wire/Codec.antt =====
-- packages/protocol/src/codec.ts: the decoding of a sync response. A decoder that throws is `none`.
pub mod RoundTrip
use pontis.Base.{String, Bool, true, false, Option, none, some, List, [], ◌∷◌, if◌then◌else◌}
use pontis.Wire.Json.{Json, Items, Fields, lookup, member}

-- A cast checks nothing, so that a text of a union is any text, and a payload any value.
pub record OperationResult (Number : Type 0) : Type 0 where
  pub op_id : String
  pub client_seq : Number
  pub status : String
  pub reason : String
  pub result_revision : Number
  pub settle_after_revision : Number

pub record Change (Number : Type 0) : Type 0 where
  pub revision : Number
  pub type : String
  pub node_id : String
  pub payload : Option (Json Number)

pub record SyncResponse (Number : Type 0) : Type 0 where
  pub protocol_version : Number
  pub epoch : Number
  pub journal_floor_revision : Number
  pub from_revision : Number
  pub through_revision : Number
  pub server_revision : Number
  pub has_more : Bool
  pub operation_results : List (OperationResult Number)
  pub changes : List (Change Number)

abbrev pub decoded : {A B : Type 0} → Option A → (A → Option B) → Option B
decoded none f = none
decoded (some a) f = f a

-- `Number.isNaN` is the host's.
module _ {Number : Type 0} (is_nan : Number → Bool) where
  abbrev pub num : Option (Json Number) → Option Number
  num (some (Json.number n)) = if is_nan n then none else some n
  num v = none

  abbrev pub str : Option (Json Number) → Option String
  str (some (Json.text s)) = some s
  str v = none

  abbrev pub arr : Option (Json Number) → Option (Items Number)
  arr none = some Items.nil
  arr (some (Json.array xs)) = some xs
  arr (some v) = none

  -- `v === true`
  abbrev pub is_truth : Option (Json Number) → Bool
  is_truth (some (Json.bool b)) = b
  is_truth v = false

  -- `values.map(decode)`
  abbrev pub decode_all : {A : Type 0} → (Json Number → Option A) → Items Number → Option (List A)
  decode_all f Items.nil = some []
  decode_all f (Items.item x xs) =
      let rest = decode_all f xs in decoded (f x) λ a. decoded rest λ bs. some (a ∷ bs)

  unfoldable pub decode_result : Json Number → Option (OperationResult Number)
  unfolding lookup
  decode_result o = decoded (str (member o "op_id")) λ op_id.
      decoded (num (member o "client_seq")) λ client_seq.
        decoded (str (member o "status")) λ status. decoded (str (member o "reason")) λ reason.
          decoded (num (member o "result_revision")) λ result_revision.
            decoded (num (member o "settle_after_revision")) λ settle_after_revision. some (record {
              op_id = op_id;
              client_seq = client_seq;
              status = status;
              reason = reason;
              result_revision = result_revision;
              settle_after_revision = settle_after_revision;
            })

  unfoldable pub decode_change : Json Number → Option (Change Number)
  unfolding lookup
  decode_change raw = decoded (num (member raw "revision")) λ revision.
      decoded (str (member raw "type")) λ type. decoded (str (member raw "node_id")) λ node_id.
        some (record {
          revision = revision;
          type = type;
          node_id = node_id;
          payload = member raw "payload";
        })

  unfoldable pub decode_sync_response : Json Number → Option (SyncResponse Number)
  unfolding lookup decode_result decode_change
  decode_sync_response raw = decoded (num (member raw "protocol_version")) λ protocol_version.
      decoded (num (member raw "epoch")) λ epoch.
        decoded (num (member raw "journal_floor_revision")) λ journal_floor_revision.
          decoded (num (member raw "from_revision")) λ from_revision.
            decoded (num (member raw "through_revision")) λ through_revision.
              decoded (num (member raw "server_revision")) λ server_revision.
                decoded (arr (member raw "operation_results")) λ results.
                  decoded (decode_all decode_result results) λ operation_results.
                    decoded (arr (member raw "changes")) λ raw_changes.
                      decoded (decode_all decode_change raw_changes) λ changes. some (record {
                        protocol_version = protocol_version;
                        epoch = epoch;
                        journal_floor_revision = journal_floor_revision;
                        from_revision = from_revision;
                        through_revision = through_revision;
                        server_revision = server_revision;
                        has_more = is_truth (member raw "has_more");
                        operation_results = operation_results;
                        changes = changes;
                      })

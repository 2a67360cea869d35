-- ===== src/Wire/Codec/RoundTrip.antt =====
-- codec.ts and the objects that packages/protocol/src/types.ts describes.
use pontis.Base.{◌≡◌, refl, Bool, false, Option, none, some, List, [], ◌∷◌}
use pontis.Wire.Json.{Json, Items, Fields, lookup}
use pontis.Wire.Codec.{
  OperationResult, Change, SyncResponse, decode_all, decode_result, decode_change,
  decode_sync_response,
}

module _ {Number : Type 0} where
  -- The objects of packages/protocol/src/types.ts.
  abbrev pub result_object : OperationResult Number → Json Number
  result_object o = Json.object (
      Fields.field "op_id" (Json.text o.op_id) (
        Fields.field "client_seq" (Json.number o.client_seq) (
          Fields.field "status" (Json.text o.status) (
            Fields.field "reason" (Json.text o.reason) (
              Fields.field "result_revision" (Json.number o.result_revision) (
                Fields.field "settle_after_revision" (Json.number o.settle_after_revision)
                  Fields.end))))))

  abbrev pub payload_field : Option (Json Number) → Fields Number
  payload_field none = Fields.end
  payload_field (some v) = Fields.field "payload" v Fields.end

  abbrev pub change_object : Change Number → Json Number
  change_object c = Json.object (
      Fields.field "revision" (Json.number c.revision) (
        Fields.field "type" (Json.text c.type)
          (Fields.field "node_id" (Json.text c.node_id) (payload_field c.payload))))

  abbrev pub written : {A : Type 0} → (A → Json Number) → List A → Items Number
  written f [] = Items.nil
  written f (a ∷ bs) = let rest = written f bs in Items.item (f a) rest

  unfoldable pub response_object : SyncResponse Number → Json Number
  response_object r = Json.object (
      Fields.field "protocol_version" (Json.number r.protocol_version) (
        Fields.field "epoch" (Json.number r.epoch) (
          Fields.field "journal_floor_revision" (Json.number r.journal_floor_revision) (
            Fields.field "from_revision" (Json.number r.from_revision) (
              Fields.field "through_revision" (Json.number r.through_revision) (
                Fields.field "server_revision" (Json.number r.server_revision) (
                  Fields.field "has_more" (Json.bool r.has_more) (
                    Fields.field "operation_results"
                      (Json.array (written result_object r.operation_results))
                      (Fields.field "changes" (Json.array (written change_object r.changes))
                        Fields.end)))))))))

module _ {Number : Type 0} (is_nan : Number → Bool) (never : (n : Number) → is_nan n ≡ false) where
  result_round : (o : OperationResult Number) → decode_result is_nan (result_object o) ≡ some o
  unfolding decode_result lookup
  result_round o =
      rw (never o.client_seq, never o.result_revision, never o.settle_after_revision) refl

  payload_round : (o : Option (Json Number)) → lookup "payload" (payload_field o) ≡ o
  unfolding lookup
  payload_round none = refl
  payload_round (some v) = refl

  change_round : (c : Change Number) → decode_change is_nan (change_object c) ≡ some c
  unfolding decode_change lookup
  change_round c =
      let kept : lookup "payload" (payload_field c.payload) ≡ c.payload = payload_round c.payload in
      rw (never c.revision, kept) refl

  all_round :
      {A : Type 0} (f : Json Number → Option A) (g : A → Json Number) (bs : List A)
      → ((a : A) → f (g a) ≡ some a)
      → decode_all is_nan f (written g bs) ≡ some bs
  all_round f g [] h = refl
  all_round f g (a ∷ bs) h = rw (h a, all_round f g bs h) refl

  -- Where no number of JSON is NaN, `decodeSyncResponse` of an object with the fields that the type
  -- of responses describes is the response, every result and every change in their order.
  pub decode-response_object :
      (r : SyncResponse Number) → decode_sync_response is_nan (response_object r) ≡ some r
  unfolding decode_sync_response response_object lookup
  decode-response_object r =
      rw
        (
          never r.protocol_version,
          never r.epoch,
          never r.journal_floor_revision,
          never r.from_revision,
          never r.through_revision,
          never r.server_revision,
          all_round (decode_result is_nan) result_object r.operation_results result_round,
          all_round (decode_change is_nan) change_object r.changes change_round,
        )
        refl

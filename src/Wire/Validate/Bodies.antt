-- ===== src/Wire/Validate/Bodies.antt =====
-- validate.ts: the bodies of a sync round and of a snapshot page that pass.
use pontis.Base.{String, ◌≡◌, refl, ◌↔◌, Bool, Option, some, Bool-cases, inl, inr}
use pontis.Wire.Json.{Json, member, is_object}
use pontis.Wire.Validate.{
  Check, and_also, with_object, check_change, check_sync_fields, parse_sync_response, check_node,
  check_node_fields, check_page, parse_server_snapshot_page,
}
use pontis.Wire.Validate.Accepted.{
  IsNumber, IsText, IsTruth, IsArrayOf, Anything, IsObject, both_iff, require_number_iff,
  require_string_iff, require_bool_iff, require_array_iff, require_each_iff, guard_iff,
}

conj :
    {P Q : Type 0} (a b : Check)
    → (a ≡ Check.fine) ↔ P
    → (b ≡ Check.fine) ↔ Q
    → (and_also a b ≡ Check.fine) ↔ (P × Q)
conj a b p q = (
  λ e. (p.0 ((both_iff a b).0 e).0, q.0 ((both_iff a b).0 e).1),
  λ h. (both_iff a b).1 (p.1 h.0, q.1 h.1),
)

module _ {Number : Type 0} (is_finite : Number → Bool)
    (stringify : Option (Json Number) → String) where
  abbrev pub IsSyncResponse : Json Number → Type 0
  IsSyncResponse j =
      IsObject j
      × (IsNumber is_finite (member j "protocol_version")
          × (IsNumber is_finite (member j "epoch")
              × (IsNumber is_finite (member j "from_revision")
                  × (IsNumber is_finite (member j "through_revision")
                      × (IsNumber is_finite (member j "server_revision")
                          × (IsTruth (member j "has_more")
                              × (IsArrayOf Anything (member j "operation_results")
                                  × IsArrayOf IsObject (member j "changes"))))))))

  check_change_iff :
      (c : Json Number) → (check_change is_finite stringify c ≡ Check.fine) ↔ IsObject c
  check_change_iff c = elim (Bool-cases (is_object c)) [
    | inl t ↦ rw t (λ e. refl, λ h. refl)
    | inr f ↦ rw f (λ e. cc, λ h. cc)
  ]

  -- `parseSyncResponse` accepts a body exactly if it is an object whose five revisions and versions
  -- are finite numbers, whose has_more is a Boolean, whose operation_results is an array, and whose
  -- changes is an array of objects.
  pub parse_sync_response_iff :
      (j : Json Number)
      → (parse_sync_response is_finite stringify j ≡ Check.fine) ↔ IsSyncResponse j
  unfolding parse_sync_response
  parse_sync_response_iff j =
      let fields =
        conj _ _
          (require_number_iff is_finite stringify (member j "protocol_version") "protocol_version")
          (conj _ _ (require_number_iff is_finite stringify (member j "epoch") "epoch") (
            conj _ _
              (require_number_iff is_finite stringify (member j "from_revision") "from_revision")
              (conj _ _
                (require_number_iff is_finite stringify (member j "through_revision")
                  "through_revision")
                (conj _ _
                  (require_number_iff is_finite stringify (member j "server_revision")
                    "server_revision")
                  (conj _ _ (require_bool_iff is_finite stringify (member j "has_more")) (
                    conj _ _
                      (require_array_iff is_finite stringify (member j "operation_results")
                        "operation_results")
                      (require_each_iff is_finite stringify (check_change is_finite stringify)
                        IsObject (member j "changes") "changes" check_change_iff))))))) in
      let whole = guard_iff is_finite stringify _ j (check_sync_fields is_finite stringify j) in
      (λ e. ((whole.0 e).0, fields.0 (whole.0 e).1), λ h. whole.1 (h.0, fields.1 h.1))

  with_guard_iff :
      (j : Json Number) (name : String) (f : Json Number → Check)
      → (with_object is_finite stringify (some j) name f ≡ Check.fine)
        ↔ (IsObject j × (f j ≡ Check.fine))
  with_guard_iff j name f = guard_iff is_finite stringify _ j (f j)

  abbrev pub IsNode : Json Number → Type 0
  IsNode j = IsObject j × (IsText (member j "node_ref") × IsText (member j "type"))

  abbrev pub IsSnapshotPage : Json Number → Type 0
  IsSnapshotPage j =
      IsObject j
      × (IsNumber is_finite (member j "total")
          × (IsText (member j "next_cursor") × IsArrayOf IsNode (member j "nodes")))

  under_guard :
      {P : Type 0} (j : Json Number) (name : String) (f : Json Number → Check)
      → (f j ≡ Check.fine) ↔ P
      → (with_object is_finite stringify (some j) name f ≡ Check.fine) ↔ (IsObject j × P)
  under_guard j name f p =
      let whole = with_guard_iff j name f in
      (λ e. ((whole.0 e).0, p.0 (whole.0 e).1), λ h. whole.1 (h.0, p.1 h.1))

  check_node_iff : (j : Json Number) → (check_node is_finite stringify j ≡ Check.fine) ↔ IsNode j
  check_node_iff j = under_guard j "node" (check_node_fields is_finite stringify) (
      conj _ _ (require_string_iff is_finite stringify (member j "node_ref") "node_ref")
        (require_string_iff is_finite stringify (member j "type") "type"))

  -- `parseServerSnapshotPage` accepts a body exactly if it is an object whose total is a finite
  -- number, whose next_cursor is a text, so that the last page is told by an empty one, and whose
  -- nodes is an array of objects with the texts node_ref and type.
  pub parse_server_snapshot_page_iff :
      (j : Json Number)
      → (parse_server_snapshot_page is_finite stringify j ≡ Check.fine) ↔ IsSnapshotPage j
  unfolding parse_server_snapshot_page
  parse_server_snapshot_page_iff j =
      under_guard j "server snapshot page" (check_page is_finite stringify) (
        conj _ _ (require_number_iff is_finite stringify (member j "total") "total") (
          conj _ _ (require_string_iff is_finite stringify (member j "next_cursor") "next_cursor") (
            require_each_iff is_finite stringify (check_node is_finite stringify) IsNode
              (member j "nodes") "nodes" check_node_iff)))

-- ===== src/Sync/Coordinator/Request/Carried.antt =====
-- What a request of syncCoordinator.ts carries, and what the outbox holds of it afterwards.
use pontis.Base.{
  String, ◌≡◌, refl, ap, ◌∙◌, Bool, true, false, ◌&&◌, ◌||◌, some, List, [], ◌∷◌, ◌++◌, ◌==◌, keep,
  map, any, ltb, if◌then◌else◌, arith, eq_iff, eq_refl, All, All-append, All-keep, Option-cases,
  Bool-cases, inl, inr,
}
use pontis.Base.Table
use pontis.Base.Table.{string_key}
use pontis.Base.Sort
use pontis.Base.Sort.{IsSorted, IsComparator}
use pontis.Base.Collection.{contains}
use pontis.Protocol.{OperationWire}
use pontis.Store.{is_unsettled_op, BindingRecord, PendingStatus, PendingOpRecord, PontisDb, op_key}
use pontis.Sync.Events.Outbox.{is_queued, is_in_flight}
use pontis.Sync.Coordinator.Rows.{rows-get, any-get}
use pontis.Sync.Coordinator.Request.{
  with_status, seq_after, is_sync_op, outstanding, to_wire, sent, mark_one, mark_in_flight,
  op_id_of, build_request,
}

get-mark_one :
    (i j : String) (ops : List PendingOpRecord) (o : PendingOpRecord)
    → Table.get op_key j ops ≡ some o
    → Table.get op_key j (mark_one i ops) ≡ (if i == j then some (sent o) else some o)
unfolding mark_one
get-mark_one i j ops o e = elim (Option-cases (Table.get op_key i ops)) [
  | inl f ↦ rw (mark_one, f) (ground (arith, eq_iff i j))
  | inr (p, f) ↦
      let named : p.op_id ≡ i = Table.key_get op_key i ops f in
      rw (mark_one, f, Table.get-put) (ground (arith, eq_iff i j))
]

abbrev sent_if : Bool → PendingOpRecord → PendingOpRecord
sent_if true o = sent o
sent_if false o = o

get-mark_in_flight :
    (ids : List String) (j : String) (ops : List PendingOpRecord) (o : PendingOpRecord)
    → Table.get op_key j ops ≡ some o
    → Table.get op_key j (mark_in_flight ids ops) ≡ some (sent_if (contains j ids) o)
unfolding mark_in_flight contains
get-mark_in_flight [] j ops o e = e
get-mark_in_flight (i ∷ ids) j ops o e = elim (Bool-cases (i == j)) [
  | inl f ↦
      let step : Table.get op_key j (mark_one i ops) ≡ some (sent o) =
        ground (arith, get-mark_one i j ops o e) in
      get-mark_in_flight ids j (mark_one i ops) (sent o) step
      ∙ ap some (rw f (again (contains j ids)))
  | inr f ↦
      let step : Table.get op_key j (mark_one i ops) ≡ some o =
        ground (arith, get-mark_one i j ops o e) in
      get-mark_in_flight ids j (mark_one i ops) o step ∙ ap some (rw f refl)
]
  where
    again : (b : Bool) → sent_if b (sent o) ≡ sent o
    again true = refl
    again false = refl

named_behind :
    (j : String) (ids : List String) (ys : List PendingOpRecord)
    → All (λ (o : PendingOpRecord). contains o.op_id ids ≡ true) ys
    → All (λ (o : PendingOpRecord). contains o.op_id (j ∷ ids) ≡ true) ys
unfolding contains
named_behind j ids [] h = tt
named_behind j ids (y ∷ ys) h = (ground (arith, h.0), named_behind j ids ys h.1)

rows_named :
    (ops : List PendingOpRecord)
    → All (λ (o : PendingOpRecord). contains o.op_id (map op_id_of ops) ≡ true) ops
unfolding contains
rows_named [] = tt
rows_named (x ∷ xs) =
    (rw (eq_refl x.op_id) refl, named_behind x.op_id (map op_id_of xs) xs (rows_named xs))

outstanding-All :
    (P : PendingOpRecord → Type 0) (i : String) (ops : List PendingOpRecord)
    → All P ops
    → All P (outstanding i ops)
unfolding outstanding with_status
outstanding-All P i ops h =
    All-keep P is_sync_op _
      (Sort.sort-All seq_after P _ (All-append P _ _ (All-keep P _ ops h) (All-keep P _ ops h)))

abbrev pub InFlight : PontisDb → OperationWire → Type 0
InFlight db w =
    (o : PendingOpRecord) × (Table.get op_key w.op_id db.pending_ops ≡ some o)
    × (o.status ≡ PendingStatus.in_flight)
    × (to_wire o ≡ w)

carried :
    (db : PontisDb) (ids : List String) (ops : List PendingOpRecord)
    → All (λ (o : PendingOpRecord). Table.get op_key o.op_id db.pending_ops ≡ some o) ops
    → All (λ (o : PendingOpRecord). contains o.op_id ids ≡ true) ops
    → All
        (InFlight (record db { pending_ops = mark_in_flight ids db.pending_ops }))
        (map to_wire ops)
unfolding to_wire
carried db ids [] h k = tt
carried db ids (o ∷ ops) h k = (
  (sent o, get-mark_in_flight ids o.op_id db.pending_ops o h.0 ∙ ap some (rw k.0 refl), refl, refl),
  carried db ids ops h.1 k.1,
)

-- From an outbox with distinct ids, every operation that a request carries stands in the outbox
-- afterwards, in flight and with the payload that was sent.
pub build_request-InFlight :
    (b : BindingRecord) (db : PontisDb)
    → Table.HasDistinctKeys op_key db.pending_ops
    → All (InFlight (build_request b db).1) (build_request b db).0.operations
unfolding build_request
build_request-InFlight b db d =
    carried db (map op_id_of (outstanding b.id db.pending_ops)) (outstanding b.id db.pending_ops)
      (outstanding-All _ b.id db.pending_ops (rows-get db.pending_ops d))
      (rows_named (outstanding b.id db.pending_ops))

abbrev pub wire_after : OperationWire → OperationWire → Bool
wire_after x y = ltb y.client_seq x.client_seq

seq_after-IsComparator : IsComparator seq_after
seq_after-IsComparator = record { asym = λ x y. ground arith; trans = λ x y z. ground arith }

outstanding-IsSorted :
    (i : String) (ops : List PendingOpRecord) → IsSorted seq_after (outstanding i ops)
unfolding outstanding
outstanding-IsSorted i ops =
    Sort.keep-IsSorted seq_after is_sync_op _
      (Sort.sort-IsSorted seq_after seq_after-IsComparator _)

wires-All :
    (o : PendingOpRecord) (ops : List PendingOpRecord)
    → All (λ p. seq_after o p ≡ false) ops
    → All (λ w. wire_after (to_wire o) w ≡ false) (map to_wire ops)
unfolding to_wire
wires-All o [] h = tt
wires-All o (p ∷ ps) h = (h.0, wires-All o ps h.1)

wires-IsSorted :
    (ops : List PendingOpRecord) → IsSorted seq_after ops → IsSorted wire_after (map to_wire ops)
wires-IsSorted [] h = tt
wires-IsSorted (o ∷ ops) h = (wires-All o ops h.0, wires-IsSorted ops h.1)

-- The operations of a request ascend by their sequence numbers.
pub build_request-IsSorted :
    (b : BindingRecord) (db : PontisDb) → IsSorted wire_after (build_request b db).0.operations
unfolding build_request
build_request-IsSorted b db =
    wires-IsSorted (outstanding b.id db.pending_ops) (outstanding-IsSorted b.id db.pending_ops)

any-insert :
    (p : PendingOpRecord → Bool) (x : PendingOpRecord) (xs : List PendingOpRecord)
    → any p (Sort.insert seq_after x xs) ≡ (p x || any p xs)
unfolding Sort.insert
any-insert p x [] = refl
any-insert p x (y ∷ ys) = ground (arith, any-insert p x ys)

any-sort :
    (p : PendingOpRecord → Bool) (xs : List PendingOpRecord)
    → any p (Sort.sort seq_after xs) ≡ any p xs
unfolding Sort.sort
any-sort p [] = refl
any-sort p (x ∷ xs) = ground (arith, any-insert p x (Sort.sort seq_after xs), any-sort p xs)

any-keep :
    (p q : PendingOpRecord → Bool) (xs : List PendingOpRecord)
    → any p (keep q xs) ≡ any (λ o. q o && p o) xs
any-keep p q [] = refl
any-keep p q (x ∷ xs) = ground (arith, any-keep p q xs)

any-append :
    (p : PendingOpRecord → Bool) (xs ys : List PendingOpRecord)
    → any p (xs ++ ys) ≡ (any p xs || any p ys)
any-append p [] ys = refl
any-append p (x ∷ xs) ys = ground (arith, any-append p xs ys)

any-wires :
    (i : String) (ops : List PendingOpRecord)
    → any (λ (w : OperationWire). w.op_id == i) (map to_wire ops)
      ≡ any (λ (o : PendingOpRecord). o.op_id == i) ops
unfolding to_wire
any-wires i [] = refl
any-wires i (o ∷ ops) = ground (arith, any-wires i ops)

-- What a round has to send: an operation of the binding that the server has not answered, and that
-- is not a transfer.
abbrev pub is_outstanding : String → PendingOpRecord → Bool
is_outstanding binding_id o = is_sync_op o && (o.binding_id == binding_id && is_unsettled_op o)

any-merged :
    (b i : String) (ops : List PendingOpRecord)
    → (any (λ (o : PendingOpRecord). is_sync_op o && o.op_id == i) (with_status is_queued b ops)
        || any
            (λ (o : PendingOpRecord). is_sync_op o && o.op_id == i)
            (with_status is_in_flight b ops))
      ≡ any (λ (o : PendingOpRecord). is_outstanding b o && o.op_id == i) ops
unfolding with_status is_unsettled_op
any-merged b i [] = refl
any-merged b i (x ∷ xs) = ground (arith, any-merged b i xs)

any-outstanding :
    (b i : String) (ops : List PendingOpRecord)
    → any (λ (o : PendingOpRecord). o.op_id == i) (outstanding b ops)
      ≡ any (λ (o : PendingOpRecord). is_outstanding b o && o.op_id == i) ops
unfolding outstanding
any-outstanding b i ops =
    let all = with_status is_queued b ops ++ with_status is_in_flight b ops in
    any-keep (λ o. o.op_id == i) is_sync_op (Sort.sort seq_after all)
    ∙ any-sort (λ o. is_sync_op o && o.op_id == i) all
    ∙ any-append (λ o. is_sync_op o && o.op_id == i) (with_status is_queued b ops)
        (with_status is_in_flight b ops)
    ∙ any-merged b i ops

-- From an outbox with distinct ids, a request of a binding carries an operation exactly if it is of
-- that binding, is not answered yet and is not a transfer.
pub build_request_carries :
    (b : BindingRecord) (db : PontisDb) (i : String) (o : PendingOpRecord)
    → Table.HasDistinctKeys op_key db.pending_ops
    → Table.get op_key i db.pending_ops ≡ some o
    → any (λ (w : OperationWire). w.op_id == i) (build_request b db).0.operations
      ≡ is_outstanding b.id o
unfolding build_request
build_request_carries b db i o d e =
    any-wires i (outstanding b.id db.pending_ops)
    ∙ any-outstanding b.id i db.pending_ops
    ∙ any-get (is_outstanding b.id) db.pending_ops i o d e

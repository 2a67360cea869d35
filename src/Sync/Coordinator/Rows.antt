-- ===== src/Sync/Coordinator/Rows.antt =====
-- The rows of the outbox by their keys.
use pontis.Base.{
  String, ◌≡◌, refl, Bool, false, ◌&&◌, none, some, List, [], ◌∷◌, ◌==◌, any, arith, eq_iff,
  eq_refl, All,
}
use pontis.Base.Table
use pontis.Base.Table.{string_key}
use pontis.Store.{PendingOpRecord, op_key}

rows_behind :
    (x : PendingOpRecord) (t ys : List PendingOpRecord)
    → Table.get op_key x.op_id t ≡ none
    → All (λ (o : PendingOpRecord). Table.get op_key o.op_id t ≡ some o) ys
    → All (λ (o : PendingOpRecord). Table.get op_key o.op_id (x ∷ t) ≡ some o) ys
unfolding Table.get
rows_behind x t [] e h = tt
rows_behind x t (y ∷ ys) e h =
    (ground (arith, h.0, eq_iff x.op_id y.op_id), rows_behind x t ys e h.1)

-- Each row of a table with distinct keys is the row of its key.
pub rows-get :
    (ops : List PendingOpRecord)
    → Table.HasDistinctKeys op_key ops
    → All (λ (o : PendingOpRecord). Table.get op_key o.op_id ops ≡ some o) ops
unfolding Table.get
rows-get [] d = tt
rows-get (x ∷ xs) d = (rw (eq_refl x.op_id) refl, rows_behind x xs xs d.0 (rows-get xs d.1))

none_there :
    (q : PendingOpRecord → Bool) (ops : List PendingOpRecord) (i : String)
    → Table.get op_key i ops ≡ none
    → any (λ (p : PendingOpRecord). q p && p.op_id == i) ops ≡ false
unfolding Table.get
none_there q [] i e = refl
none_there q (x ∷ xs) i e = ground (arith, none_there q xs i)

-- In a table with distinct keys a row of a key passes a test if its only row does.
pub any-get :
    (q : PendingOpRecord → Bool) (ops : List PendingOpRecord) (i : String) (o : PendingOpRecord)
    → Table.HasDistinctKeys op_key ops
    → Table.get op_key i ops ≡ some o
    → any (λ (p : PendingOpRecord). q p && p.op_id == i) ops ≡ q o
unfolding Table.get
any-get q [] i o d e = cc
any-get q (x ∷ xs) i o d e =
    ground (arith, any-get q xs i o d.1, none_there q xs i, eq_iff x.op_id i)

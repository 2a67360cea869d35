-- ===== src/Sync/Events/Refine/Removed.antt =====
-- `handleRemoved` as effects.
use pontis.Base.{
  ℕ, String, ◌≡◌, refl, Bool, true, false, Option, none, some, List, [], ◌∷◌, if◌then◌else◌,
}
use pontis.Base.Table.{string_key}
use pontis.Browser.{BrowserNode}
use pontis.Store.{BindingMode, BindingRecord, LocalNodeRecord, PendingOpRecord, PontisDb}
use pontis.Store.Subtree.{collect_subtree}
use pontis.Sync.Events.Outbox.{is_queued, find_create}
use pontis.Sync.Events.Echo.{EventDisposition, Handled, Expectation}
use pontis.Sync.Events.Removed.{
  answer, drop_rows, delete_mirror_subtree, lose_mount, is_root_of, removed_uncreated,
  removed_locally, removed_matches, removed_mirror, handle_removed,
}
use pontis.Sync.Events.Scope.{is_managed_scope, mirror_of}
use pontis.Sync.Events.Refine.{warn-Effect, consume-Effect, queue_with-Effect, find_create_lem}
use pontis.Sync.Events.Effects.{Effect, IsOrdered, binding_of}

module _ (uuid : ℕ → String) (fuel : ℕ) where
  -- What a handler that returns has done.
  abbrev pub Done : PontisDb → Option Handled → Type 0
  Done db none = Unit
  Done db (some r) = Effect uuid db r.1

  delete_subtree-Effect :
      (d : EventDisposition) (b i : String) (db : PontisDb) {start : PontisDb}
      → Effect uuid start db
      → Done start (answer d (delete_mirror_subtree fuel b i db))
  unfolding delete_mirror_subtree
  delete_subtree-Effect d b i db {start} e = by_rows (collect_subtree fuel db.local_nodes b i)
    where
      by_rows : (rows : Option (List LocalNodeRecord)) → Done start (answer d (drop_rows rows db))
      by_rows none = tt
      by_rows (some rows) = Effect.next e (Effect.mirror db _)

  lose_mount-Effect :
      (m : BindingMode) (db : PontisDb) (b : BindingRecord)
      → binding_of db b.id ≡ some b
      → Effect uuid db (lose_mount m db b)
  lose_mount-Effect BindingMode.partial db b e =
      Effect.next
        (Effect.restate db b _ e
          (record { id = refl; epoch = refl; applied = refl; received = refl; client_seq = refl }))
        (warn-Effect uuid _ _)
  lose_mount-Effect BindingMode.full db b e =
      Effect.restate db b _ e
        (record { id = refl; epoch = refl; applied = refl; received = refl; client_seq = refl })

  pub removed-Effect :
      (db : PontisDb) (b : BindingRecord) (n : BrowserNode)
      → IsOrdered uuid db
      → binding_of db b.id ≡ some b
      → Done db (handle_removed uuid fuel db b n)
  unfolding handle_removed
  removed-Effect db b n h at =
      rooted (is_root_of b.mount.mode b.mount n.id) (is_managed_scope db b n.id)
        (mirror_of db b.id n.id)
    where
      uncreated :
          (o sent : Option PendingOpRecord)
          → find_create db b.id n.id is_queued ≡ o
          → Done db (removed_uncreated uuid fuel b n db o sent)
      uncreated (some o) sent e =
          let (found, was) = find_create_lem uuid db b.id n.id h e in
          delete_subtree-Effect _ _ _ _ (Effect.retract db o found was)
      uncreated none (some o) e =
          delete_subtree-Effect _ _ _ _ (queue_with-Effect uuid b.id _ _ db (λ d. Effect.stay d))
      uncreated none none e = Effect.stay db

      locally : (id : Option String) → Done db (removed_locally uuid fuel b n db id)
      locally none = uncreated _ _ refl
      locally (some id) =
          delete_subtree-Effect _ _ _ _ (queue_with-Effect uuid b.id _ _ db (λ d. Effect.stay d))

      matches :
          (m : LocalNodeRecord) (es : List Expectation)
          → Done db (removed_matches uuid fuel b n m db es)
      matches m (e ∷ []) = delete_subtree-Effect _ _ _ _ (consume-Effect uuid (e ∷ []) db)
      matches m [] = locally m.canonical_id
      matches m (e ∷ f ∷ es) = locally m.canonical_id

      mirrored : (m : Option LocalNodeRecord) → Done db (removed_mirror uuid fuel db b n m)
      mirrored none = Effect.stay db
      mirrored (some m) = matches m _

      gated :
          (g : Bool) (m : Option LocalNodeRecord)
          → Done db
              (if g then removed_mirror uuid fuel db b n m else some (EventDisposition.ignored, db))
      gated true m = mirrored m
      gated false m = Effect.stay db

      rooted :
          (r g : Bool) (m : Option LocalNodeRecord)
          → Done db (
              if r
              then some (EventDisposition.ignored, lose_mount b.mount.mode db b)
              else if g
              then removed_mirror uuid fuel db b n m
              else some (EventDisposition.ignored, db))
      rooted true g m = lose_mount-Effect b.mount.mode db b at
      rooted false g m = gated g m

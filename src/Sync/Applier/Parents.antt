-- ===== src/Sync/Applier/Parents.antt =====
-- `resolveParent` of extension/src/core/sync/remoteChangeApplier.ts.
use Prim.Native.String
use pontis.Base.{String, Option, none, some, List, [], ◌∷◌, ◌==◌, if◌then◌else◌}
use pontis.Protocol.{ParentKind, ParentRefWire}
use pontis.Store.{
  BindingMode, BindingMount, BindingRecord, LocalNodeRecord, PontisDb, is_text,
  find_mirror_by_canonical,
}
use pontis.Sync.Tree.{or_empty}

pub data ParentResolution : Type 0 where
  mapped : String → ParentResolution
  excluded : ParentResolution
  missing : String → ParentResolution

-- `id ? { kind: 'mapped', … } : other`
abbrev pub mapped_or : ParentResolution → Option String → ParentResolution
mapped_or other none = other
mapped_or other (some id) = if id == "" then other else ParentResolution.mapped id

-- `mount.roots[key]`
unfoldable pub root_browser : String → List (String × String) → Option String
root_browser key [] = none
root_browser key ((k, id) ∷ roots) = if k == key then some id else root_browser key roots

abbrev pub among_roots : Option (List (String × String)) → Option String → ParentResolution
among_roots (some roots) (some key) = mapped_or ParentResolution.excluded (root_browser key roots)
among_roots _ _ = ParentResolution.excluded

abbrev pub resolve_root : BindingMode → BindingMount → Option String → ParentResolution
resolve_root BindingMode.partial mount key =
    if is_text key mount.root_key
    then mapped_or (ParentResolution.missing (String.◌++◌ "root:" (or_empty key)))
        mount.folder_browser_id
    else ParentResolution.excluded
resolve_root BindingMode.full mount key = among_roots mount.roots key

abbrev pub browser_id_of : Option LocalNodeRecord → Option String
browser_id_of none = none
browser_id_of (some r) = some r.browser_id

abbrev pub resolve_kind : PontisDb → BindingRecord → ParentKind → ParentRefWire → ParentResolution
resolve_kind db b ParentKind.root p = resolve_root b.mount.mode b.mount p.key
resolve_kind db b ParentKind.node p =
    mapped_or (ParentResolution.missing (or_empty p.id))
      (browser_id_of (find_mirror_by_canonical db b.id (or_empty p.id)))

unfoldable pub resolve_parent : PontisDb → BindingRecord → ParentRefWire → ParentResolution
unfolding root_browser
resolve_parent db b p = resolve_kind db b p.type p

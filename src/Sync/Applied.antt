-- ===== src/Sync/Applied.antt =====
-- How a call of the applier ends, and the applier as its callers see it.
use pontis.Base.{String}
use pontis.Protocol.{ChangeWire}
use pontis.Store.{PontisDb}

-- What the device holds: the browser, and the replica of it.
pub record Local (Browser : Type 0) : Type 0 where
  pub browser : Browser
  pub db : PontisDb

-- It returns, a change meets a lost mapping (with the message of `UnmappedProjectionError`), it
-- throws another exception, or it never ends (the fuel of `collect_subtree` ran out).
pub data Applied (Browser : Type 0) : Type 0 where
  done thrown endless : Local Browser → Applied Browser
  unmapped : String → Local Browser → Applied Browser

abbrev pub local_of : {Browser : Type 0} → Applied Browser → Local Browser
local_of (Applied.done l) = l
local_of (Applied.thrown l) = l
local_of (Applied.endless l) = l
local_of (Applied.unmapped message l) = l

-- The applier that a coordinator is constructed with.
pub record Applier (Browser : Type 0) : Type 0 where
  pub recover : String → Local Browser → Applied Browser
  pub apply_change : String → ChangeWire → Local Browser → Applied Browser

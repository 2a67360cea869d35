-- ===== src/Sync/Events/Claimed.antt =====
-- `handleCreated` of eventProcessor.ts at the echo of a remote create.
use pontis.Base.{List}
use pontis.Base.Table
use pontis.Base.Table.{string_key, pair_key}

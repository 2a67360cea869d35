-- ===== src/Browser.antt =====
-- extension/src/core/browser/types.ts: what the browser adapter hands over.
pub mod Adapter
pub mod Snapshot
use pontis.Base.{ℕ, String, Bool, Option}
use pontis.Protocol.{NodeType}

pub record BrowserNode : Type 0 where
  pub id : String
  pub parent_id : Option String
  pub title : String
  pub url : Option String
  pub type : NodeType
  pub index : ℕ
  pub folder_type : Option String
  pub unmodifiable : Bool

pub data BrowserEvent : Type 0 where
  created : BrowserNode → BrowserEvent
  changed : BrowserNode → BrowserEvent
  moved : BrowserNode → Option String → BrowserEvent
  removed : BrowserNode → BrowserEvent

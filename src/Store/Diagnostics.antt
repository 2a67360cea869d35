-- ===== src/Store/Diagnostics.antt =====
-- `logDiagnostic` of db.ts: an append to a table that keeps its last rows.
use pontis.Base.{ℕ, ◌+◌, ◌-◌, String, List, [], ◌∷◌, ◌++◌, length, drop, ltb, if◌then◌else◌}
use pontis.Store.{PontisDb, DiagnosticEvent, Level}

abbrev pub diagnostic_cap : ℕ
diagnostic_cap = 500

-- The rows stand in the order of their ids; the oldest above the cap are dropped.
unfoldable pub trim : List DiagnosticEvent → List DiagnosticEvent
trim rows =
    if ltb diagnostic_cap (length rows) then drop (length rows - diagnostic_cap) rows else rows

unfoldable pub log_diagnostic : Level → String → String → PontisDb → PontisDb
unfolding trim
log_diagnostic level scope message db = record db {
  diagnostics = trim (
      db.diagnostics
      ++ (record {
        id = db.next_diagnostic;
        ts = db.now;
        level = level;
        scope = scope;
        message = message;
      })
        ∷ []);
  next_diagnostic = db.next_diagnostic + 1;
}

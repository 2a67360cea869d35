-- ===== src/Store/Texts.antt =====
-- The comparisons of texts that may be absent, as equations.
use pontis.Base.{String, ◌≡◌, ◌↔◌, true, Option, none, some, arith, eq_iff}
use pontis.Store.{is_text, same_text}

pub is_text_iff : (o : Option String) (s : String) → (is_text o s ≡ true) ↔ (o ≡ some s)
is_text_iff none s = ground arith
is_text_iff (some t) s = ground (arith, eq_iff t s)

pub same_text_iff : (a b : Option String) → (same_text a b ≡ true) ↔ (a ≡ b)
same_text_iff none none = ground arith
same_text_iff none (some b) = ground arith
same_text_iff (some a) none = ground arith
same_text_iff (some a) (some b) = ground (arith, eq_iff a b)

-- ===== src/Store/Locks/Exclusion.antt =====
-- The run lock of db.ts keeps two rounds out of one binding.
use pontis.Base.{
  ℕ, ◌+◌, ◌-◌, ◌≤◌, ◌<◌, String, ◌≡◌, refl, ◌⊎◌, inl, inr, Bool, true, false, not, none, some, List,
  [], ◌∷◌, ◌==◌, arith, eq_refl, keep, All, length, any,
}
use pontis.Base.Table
use pontis.Base.Table.{string_key}
use pontis.Store.{RunLockRecord, lock_key}
use pontis.Store.Locks.{run_lock_stale_ms, lock_row, acquire_run_lock, release_run_lock}

-- The rounds on one binding: the lock table, the clock, and the tokens that are inside a round, each
-- with the time at which it took the lock.
pub record Rounds : Type 0 where
  pub locks : List RunLockRecord
  pub now : ℕ
  pub inside : List (String × ℕ)

abbrev pub is_inside : String → List (String × ℕ) → Bool
is_inside token = any (λ (h : String × ℕ). h.0 == token)

-- What may happen: time passes, within the stale window of every round; a new token asks for the
-- lock and enters, or is refused; a token leaves and releases the lock.
pub data Step (binding_id : String) : Rounds → Rounds → Type 0 where
  tick :
      (r : Rounds) (d : ℕ)
      → All (λ (h : String × ℕ). r.now + d - h.1 < run_lock_stale_ms) r.inside
      → Step binding_id r (record r { now = r.now + d })
  enter :
      (r : Rounds) (token t : String) (locks : List RunLockRecord)
      → is_inside token r.inside ≡ false
      → acquire_run_lock r.locks binding_id token r.now ≡ (some t, locks)
      → Step binding_id r (record r { locks = locks; inside = (token, r.now) ∷ r.inside })
  refuse :
      (r : Rounds) (token : String) (locks : List RunLockRecord)
      → acquire_run_lock r.locks binding_id token r.now ≡ (none, locks)
      → Step binding_id r (record r { locks = locks })
  leave :
      (r : Rounds) (token : String)
      → is_inside token r.inside ≡ true
      → Step binding_id r (record r {
        locks = release_run_lock r.locks binding_id token;
        inside = keep (λ (h : String × ℕ). not (h.0 == token)) r.inside;
      })

pub data Reach (binding_id : String) (s : Rounds) : Rounds → Type 0 where
  here : Reach binding_id s s
  next : {t u : Rounds} → Reach binding_id s t → Step binding_id t u → Reach binding_id s u

pub acquired :
    (locks new : List RunLockRecord) (b token t : String) (now : ℕ)
    → acquire_run_lock locks b token now ≡ (some t, new)
    → new ≡ Table.put lock_key (lock_row b token now) locks
unfolding acquire_run_lock
acquired locks new b token t now e = ground arith

not_acquired :
    (locks new : List RunLockRecord) (b token : String) (now : ℕ)
    → acquire_run_lock locks b token now ≡ (none, new)
    → new ≡ locks
unfolding acquire_run_lock
not_acquired locks new b token now e = ground arith

-- A live lock of another token is not taken over.
held_off :
    (locks : List RunLockRecord) (b token other : String) (now at : ℕ)
    → Table.get lock_key b locks ≡ some (lock_row b other at)
    → now - at < run_lock_stale_ms
    → (other == token) ≡ false
    → acquire_run_lock locks b token now ≡ (none, locks)
unfolding acquire_run_lock
held_off locks b token other now at e live ne = ground (arith, eq_refl b)

held_put :
    (locks : List RunLockRecord) (b token : String) (now : ℕ)
    → Table.get lock_key b (Table.put lock_key (lock_row b token now) locks)
      ≡ some (lock_row b token now)
held_put locks b token now = rw Table.get-put (rw (eq_refl b))

pub freed :
    (locks : List RunLockRecord) (b token : String) (now : ℕ)
    → Table.get lock_key b
        (release_run_lock (Table.put lock_key (lock_row b token now) locks) b token)
      ≡ none
unfolding release_run_lock
freed locks b token now = ground (
  arith,
  held_put locks b token now,
  eq_refl token,
  eq_refl b,
  Table.get-delete lock_key b b (Table.put lock_key (lock_row b token now) locks),
)

released :
    (locks : List RunLockRecord) (b token other : String) (now later : ℕ)
    → (acquire_run_lock
        (release_run_lock (Table.put lock_key (lock_row b token now) locks) b token)
        b
        other
        later).0
      ≡ some other
unfolding acquire_run_lock release_run_lock
released locks b token other now later = ground (
  arith,
  held_put locks b token now,
  eq_refl token,
  eq_refl b,
  Table.get-delete lock_key b b (Table.put lock_key (lock_row b token now) locks),
)

module _ (binding_id : String) where
  -- The one token inside is the holder in the table, and is not stale.
  record Holds (r : Rounds) (token : String) (at : ℕ) : Type 0 where
    alone : r.inside ≡ (token, at) ∷ []
    held : Table.get lock_key binding_id r.locks ≡ some (lock_row binding_id token at)
    live : r.now - at < run_lock_stale_ms

  abbrev Exclusive : Rounds → Type 0
  Exclusive r = (r.inside ≡ []) ⊎ ((token : String) × (at : ℕ) × Holds r token at)

  Step-Exclusive : {r u : Rounds} → Step binding_id r u → Exclusive r → Exclusive u
  Step-Exclusive (Step.tick r d h) (inl e) = inl e
  Step-Exclusive (Step.tick r d h) (inr (token, at, k)) =
      inr (token, at, record { alone = k.alone; held = k.held; live = (rw k.alone at h).0 })
  Step-Exclusive (Step.enter r token t locks new got) (inl e) = inr (
    token,
    r.now,
    record {
      alone = rw e;
      held =
          rw (acquired r.locks locks binding_id token t r.now got)
            (held_put r.locks binding_id token r.now);
      live = omega arith;
    },
  )
  Step-Exclusive (Step.enter r token t locks new got) (inr (other, at, k)) =
      let ne : (other == token) ≡ false = ground (arith, k.alone) in
      cc (got, held_off r.locks binding_id token other r.now at k.held k.live ne)
  Step-Exclusive (Step.refuse r token locks got) x =
      rw (not_acquired r.locks locks binding_id token r.now got) x
  Step-Exclusive (Step.leave r token was) (inl e) = inl (rw e)
  Step-Exclusive (Step.leave r token was) (inr (other, at, k)) = inl (ground (arith, k.alone))

  Reach-Exclusive : {r u : Rounds} → Reach binding_id r u → Exclusive r → Exclusive u
  Reach-Exclusive Reach.here x = x
  Reach-Exclusive (Reach.next p s) x = Step-Exclusive s (Reach-Exclusive p x)

  few : (r : Rounds) → Exclusive r → length r.inside ≤ 1
  few r (inl e) = rw e (omega arith)
  few r (inr (token, at, k)) = rw k.alone (omega arith)

  -- Whatever the lock table held before, from no round inside, and as long as no round outlives the
  -- stale window, at most one token at a time is inside a round of the binding.
  pub mutual_exclusion :
      (locks : List RunLockRecord) (now : ℕ) (u : Rounds)
      → Reach binding_id (record { locks = locks; now = now; inside = [] }) u
      → length u.inside ≤ 1
  mutual_exclusion locks now u p = few u (Reach-Exclusive p (inl refl))

  -- A token that acquires the lock and releases it leaves the binding free: any token acquires
  -- next.
  pub acquire-release :
      (locks locks' : List RunLockRecord) (token t other : String) (now later : ℕ)
      → acquire_run_lock locks binding_id token now ≡ (some t, locks')
      → (acquire_run_lock (release_run_lock locks' binding_id token) binding_id other later).0
        ≡ some other
  acquire-release locks locks' token t other now later e =
      rw (acquired locks locks' binding_id token t now e)
        (released locks binding_id token other now later)

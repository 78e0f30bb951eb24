-- ===== src/Limits/Table.antt =====
-- A table of limiters by key with the least recently used first out: `clientLimiters`,
-- the clients of `exchangeLimiter` and `passwordLimitBucket`. Go's map is its keys, and leads to the element
-- of the list with that key; the list is kept back to front, the least recent entry first.
-- Times are nanoseconds; golang.org/x/time/rate is an interface.
use tdns.Base.{
  ltb, leb, if◌then◌else◌, Eq, ◌==◌, nat_eq, text_eq, length, contains, ℕ, ◌+◌, Bool, false, not,
  List, [], ◌∷◌, ◌++◌,
}

-- `rate.NewLimiter` with the table's rate and burst, and `AllowN(now, 1)`.
pub record Limiter : Type 1 where
  pub State : Type 0
  pub fresh : State
  pub allow_n : State → ℕ → State × Bool

module _ (K : Type 0) (l : Limiter) where
  pub record Entry : Type 0 where
    pub address : K
    pub limiter : l.State
    pub last_seen : ℕ

module _ (K : Type 0) ⦃e : Eq K⦄ (l : Limiter) where
  pub record Table : Type 0 where
    pub entries : List K
    pub order : List (Entry K l)

  -- `delete`, on the keys of the map.
  unfoldable pub remove_key : K → List K → List K
  remove_key k [] = []
  remove_key k (j ∷ ks) = if j == k then ks else j ∷ remove_key k ks

  -- The entry is past the idle timeout at `now`.
  abbrev pub is_idle : ℕ → ℕ → Entry K l → Bool
  is_idle idle now entry = not (ltb now (entry.last_seen + idle))

  -- `removeExpired`, `removeIdle`, `removeIdlePasswordEntries`: from the back, up to the first
  -- entry that is not idle.
  unfoldable pub remove_idle_from : ℕ → ℕ → List (Entry K l) → List K → Table
  remove_idle_from idle now [] ks = record { entries = ks; order = [] }
  remove_idle_from idle now (x ∷ xs) ks =
      let rest = remove_idle_from idle now xs (remove_key x.address ks) in
      if is_idle idle now x then rest else record { entries = ks; order = x ∷ xs }

  unfoldable pub remove_idle : ℕ → ℕ → Table → Table
  unfolding remove_idle_from
  remove_idle idle now t = remove_idle_from idle now t.order t.entries

  abbrev pub without_oldest : List (Entry K l) → List K → Table
  without_oldest [] ks = record { entries = ks; order = [] }
  without_oldest (x ∷ xs) ks = record { entries = remove_key x.address ks; order = xs }

  -- `removeOldest`
  unfoldable pub remove_oldest : Table → Table
  remove_oldest t = without_oldest t.order t.entries

  -- The entry of a key is seen and moves to the front.
  unfoldable pub seen : K → ℕ → List (Entry K l) → List (Entry K l)
  seen k now [] = []
  seen k now (x ∷ xs) =
      if x.address == k then xs ++ record x { last_seen = now } ∷ [] else x ∷ seen k now xs

  abbrev pub push_front : K → ℕ → Table → Table
  push_front k now t = record {
    entries = k ∷ t.entries;
    order = t.order ++ record { address = k; limiter = l.fresh; last_seen = now } ∷ [];
  }

  -- The part that the three share: the idle entries go, and the key has its entry, at the front.
  unfoldable pub touch : ℕ → ℕ → K → ℕ → Table → Table
  touch idle limit k now t =
      let t' = remove_idle idle now t in
      if contains t'.entries k
      then record t' { order = seen k now t'.order }
      else push_front k now (if leb limit (length t'.entries) then remove_oldest t' else t')

  abbrev pub with_state : Entry K l → l.State × Bool → List (Entry K l) → List (Entry K l) × Bool
  with_state x (s, allowed) rest = (record x { limiter = s } ∷ rest, allowed)

  abbrev pub behind : Entry K l → List (Entry K l) × Bool → List (Entry K l) × Bool
  behind x (xs, allowed) = (x ∷ xs, allowed)

  -- `entry.limiter.AllowN(now, 1)`, on the entry of the key.
  unfoldable pub charge_order : K → ℕ → List (Entry K l) → List (Entry K l) × Bool
  charge_order k now [] = ([], false)
  charge_order k now (x ∷ xs) =
      let rest = charge_order k now xs in
      if x.address == k then with_state x (l.allow_n x.limiter now) xs else behind x rest

  abbrev with_order : Table → List (Entry K l) × Bool → Table × Bool
  with_order t (xs, allowed) = (record t { order = xs }, allowed)

  unfoldable pub charge : K → ℕ → Table → Table × Bool
  charge k now t = with_order t (charge_order k now t.order)

  -- `clientLimiters.allow`, `allowPasswordBucket`
  unfoldable pub allow : ℕ → ℕ → K → ℕ → Table → Table × Bool
  allow idle limit k now t = charge k now (touch idle limit k now t)

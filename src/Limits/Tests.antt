-- ===== src/Limits/Tests.antt =====
-- A table of limiters that count down.
use tdns.Base.{
  ltb, if◌then◌else◌, nat_eq, text_eq, contains, ℕ, ◌-◌, refl, true, false, [], ◌∷◌, arith,
}
use tdns.Limits.Table.{Limiter, Entry, Table, seen, allow}
use tdns.Limits.Laws.{IsConsistent, IsBounded, allow-IsBounded}
use tdns.Limits.Isolation.{find, IsSameOrGone, allow_ne}

-- Each limiter allows two requests.
abbrev pub bucket : Limiter
bucket = record {
  State = ℕ;
  fresh = 2;
  allow_n = λ s now. if ltb 0 s then (s - 1, true) else (s, false);
}

abbrev entry : ℕ → ℕ → ℕ → Entry ℕ bucket
entry k s seen = record { address = k; limiter = s; last_seen = seen }

abbrev two_clients : Table ℕ bucket
two_clients = record { entries = 7 ∷ 9 ∷ []; order = entry 9 1 40 ∷ entry 7 2 50 ∷ [] }

two_clients-IsConsistent : IsConsistent ℕ bucket two_clients
unfolding contains
two_clients-IsConsistent = record {
  distinct = (refl, (refl, tt));
  distinct_keys = (refl, (refl, tt));
  same_size = refl;
  same = λ k. ground arith;
}

allow-IsBounded_example : IsBounded ℕ bucket 2 (allow ℕ bucket 100 2 8 60 two_clients).0
allow-IsBounded_example =
    allow-IsBounded ℕ bucket 100 2 8 60 two_clients (omega arith)
      (two_clients-IsConsistent, omega arith)

allow_ne_example :
    IsSameOrGone ℕ bucket
      (find ℕ bucket 7 two_clients.order)
      (find ℕ bucket 7 (allow ℕ bucket 100 2 8 60 two_clients).0.order)
allow_ne_example = allow_ne ℕ bucket 100 2 8 7 60 two_clients two_clients-IsConsistent refl

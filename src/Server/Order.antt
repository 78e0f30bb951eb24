-- ===== src/Server/Order.antt =====
-- server/server.go: the order in which the middlewares of a stage run. The iteration over Go's map
-- of middlewares is a list in any order.
use mathlib.Core.List.Permᴰ
use tdns.Base.{refl, sym, subst}
use tdns.Base.Sorting.{sort_by-eq_of_perm, sort_by-IsSorted, contains-sort_by}
use mathlib.Core.List.{append-nil, append_assoc}
use tdns.Base.{
  ltb, eqb, if◌then◌else◌, ◌==◌, nat_eq, Text, text_eq, contains, ℕ, ◌≡◌, ap, ◌∙◌, Bool, true,
  false, ◌&&◌, ◌||◌, List, [], ◌∷◌, ◌++◌, arith,
}
use tdns.Base.Strings.{txt}
use tdns.Base.Sorting.{sort_by, IsOrder, IsSorted, text_leb, text_leb-IsOrder}
use mathlib.Core.List.{Permᴰ}

pub data Stage : Type 0 where
  pre_routing resolving post_routing : Stage

abbrev pre_routing_order : Text → ℕ
pre_routing_order name =
    if name == txt "tagger"
    then 0
    else if name == txt "status"
    then 10
    else if name == txt "blacklist"
    then 20
    else if name == txt "zen-mode"
    then 30
    else if name == txt "static-response"
    then 40
    else if name == txt "cacheget"
    then 50
    else 1000

unfoldable pub middleware_order : Stage → Text → ℕ
middleware_order pre_routing name = pre_routing_order name
middleware_order resolving name = if name == txt "stub-resolver" then 0 else 1000
middleware_order post_routing name =
    if name == txt "cacheset" then 0 else if name == txt "dns-log" then 10 else 1000

-- `left` may stand before `right`: the test of `sortMiddlewareNames`, and equality.
unfoldable pub runs_before : Stage → Text → Text → Bool
runs_before stage left right =
    ltb (middleware_order stage left) (middleware_order stage right)
    || (eqb (middleware_order stage left) (middleware_order stage right) && text_leb left right)

runs_before-IsOrder : (stage : Stage) → IsOrder (runs_before stage)
unfolding runs_before
runs_before-IsOrder stage = record {
  total = λ a b. ground (arith, text_leb-IsOrder.total a b);
  trans = λ a b c h k. ground (arith, text_leb-IsOrder.trans a b c);
  antisymm = λ a b h k. ground (arith, text_leb-IsOrder.antisymm a b);
}

abbrev sort_middleware_names : Stage → List Text → List Text
sort_middleware_names stage = sort_by (runs_before stage)

pub record MiddlewareIndex : Type 0 where
  pub pre_routing_names : List Text
  pub resolving_names : List Text
  pub post_routing_names : List Text

-- One round of the loop of `getIndexes`.
unfoldable pub index_middleware : MiddlewareIndex → Text × Stage → MiddlewareIndex
index_middleware ix (name, pre_routing) = record ix {
  pre_routing_names = ix.pre_routing_names ++ name ∷ [];
}
index_middleware ix (name, resolving) = record ix {
  resolving_names = ix.resolving_names ++ name ∷ [];
}
index_middleware ix (name, post_routing) = record ix {
  post_routing_names = ix.post_routing_names ++ name ∷ [];
}

unfoldable pub index_all : MiddlewareIndex → List (Text × Stage) → MiddlewareIndex
index_all ix [] = ix
index_all ix (p ∷ ps) = index_all (index_middleware ix p) ps

abbrev empty_index : MiddlewareIndex
empty_index = record { pre_routing_names = []; resolving_names = []; post_routing_names = [] }

abbrev sort_index : MiddlewareIndex → MiddlewareIndex
sort_index ix = record {
  pre_routing_names = sort_middleware_names pre_routing ix.pre_routing_names;
  resolving_names = sort_middleware_names resolving ix.resolving_names;
  post_routing_names = sort_middleware_names post_routing ix.post_routing_names;
}

unfoldable pub get_indexes : List (Text × Stage) → MiddlewareIndex
get_indexes middlewares = sort_index (index_all empty_index middlewares)

abbrev is_stage : Stage → Stage → Bool
is_stage pre_routing pre_routing = true
is_stage resolving resolving = true
is_stage post_routing post_routing = true
is_stage _ _ = false

abbrev names_cons : Stage → Text × Stage → List Text → List Text
names_cons stage (name, s) rest = if is_stage stage s then name ∷ rest else rest

-- The names of a stage, in the order of the iteration.
unfoldable pub names_of : Stage → List (Text × Stage) → List Text
names_of stage [] = []
names_of stage (p ∷ ps) = names_cons stage p (names_of stage ps)

abbrev with_names : MiddlewareIndex → List (Text × Stage) → MiddlewareIndex
with_names ix ps = record {
  pre_routing_names = ix.pre_routing_names ++ names_of pre_routing ps;
  resolving_names = ix.resolving_names ++ names_of resolving ps;
  post_routing_names = ix.post_routing_names ++ names_of post_routing ps;
}

index_all-with_names :
    (ix : MiddlewareIndex) (ps : List (Text × Stage)) → index_all ix ps ≡ with_names ix ps
unfolding index_all index_middleware names_of
index_all-with_names ix [] = simp append-nil
index_all-with_names ix ((name, pre_routing) ∷ ps) =
    index_all-with_names (index_middleware ix (name, pre_routing)) ps ∙ simp append_assoc
index_all-with_names ix ((name, resolving) ∷ ps) =
    index_all-with_names (index_middleware ix (name, resolving)) ps ∙ simp append_assoc
index_all-with_names ix ((name, post_routing) ∷ ps) =
    index_all-with_names (index_middleware ix (name, post_routing)) ps ∙ simp append_assoc

names_cons-perm :
    (stage : Stage) (p : Text × Stage) {xs ys : List Text}
    → Permᴰ xs ys
    → Permᴰ (names_cons stage p xs) (names_cons stage p ys)
names_cons-perm stage (name, s) {xs} {ys} k = go (is_stage stage s)
  where
    go : (b : Bool) → Permᴰ (if b then name ∷ xs else xs) (if b then name ∷ ys else ys)
    go true = Permᴰ.cons refl k
    go false = k

names_cons_comm :
    (stage : Stage) (p q : Text × Stage) (xs : List Text)
    → Permᴰ
        (names_cons stage p (names_cons stage q xs))
        (names_cons stage q (names_cons stage p xs))
names_cons_comm stage (name, s) (name', s') xs = go (is_stage stage s) (is_stage stage s')
  where
    go :
        (b b' : Bool)
        → Permᴰ
            (if b then name ∷ (if b' then name' ∷ xs else xs) else (if b' then name' ∷ xs else xs))
            (if b' then name' ∷ (if b then name ∷ xs else xs) else (if b then name ∷ xs else xs))
    go true true = Permᴰ.swap refl refl
    go true false = Permᴰ.refl _
    go false true = Permᴰ.refl _
    go false false = Permᴰ.refl _

names_of-perm :
    (stage : Stage) {ps qs : List (Text × Stage)}
    → Permᴰ ps qs
    → Permᴰ (names_of stage ps) (names_of stage qs)
unfolding names_of
names_of-perm stage Permᴰ.nil = Permᴰ.nil
names_of-perm stage (Permᴰ.cons {a = a} {l₁ = xs} {l₂ = ys} e p) =
    subst
      (λ b. Permᴰ (names_cons stage a (names_of stage xs)) (names_cons stage b (names_of stage ys)))
      e (names_cons-perm stage a (names_of-perm stage p))
names_of-perm stage (Permᴰ.swap {a = a} {b = b} {b' = b'} {l = l} e f) =
    subst (λ x. Permᴰ (names_of stage (a ∷ b ∷ l)) (names_of stage (x ∷ b' ∷ l))) f
      (subst (λ x. Permᴰ (names_of stage (a ∷ b ∷ l)) (names_of stage (b ∷ x ∷ l))) e
        (names_cons_comm stage a b (names_of stage l)))
names_of-perm stage (Permᴰ.trans p q) = Permᴰ.trans (names_of-perm stage p) (names_of-perm stage q)

-- Each stage's list is its names sorted by their order, then by name.
get_indexes-names_of :
    (ps : List (Text × Stage)) → get_indexes ps ≡ sort_index (with_names empty_index ps)
unfolding get_indexes
get_indexes-names_of ps = ap sort_index (index_all-with_names empty_index ps)

-- The index does not depend on the order in which the map is iterated; each of its lists is
-- sorted by `runs_before` and holds exactly the names of the middlewares of its stage.
pub get_indexes_lem :
    (ps qs : List (Text × Stage)) (q : Text)
    → Permᴰ ps qs
    → (get_indexes ps ≡ get_indexes qs)
      × IsSorted (runs_before pre_routing) (get_indexes ps).pre_routing_names
      × IsSorted (runs_before resolving) (get_indexes ps).resolving_names
      × IsSorted (runs_before post_routing) (get_indexes ps).post_routing_names
      × (contains (get_indexes ps).pre_routing_names q ≡ contains (names_of pre_routing ps) q)
      × (contains (get_indexes ps).resolving_names q ≡ contains (names_of resolving ps) q)
      × (contains (get_indexes ps).post_routing_names q ≡ contains (names_of post_routing ps) q)
get_indexes_lem ps qs q p = rw (get_indexes-names_of ps) (
  (λ i. record {
    pre_routing_names = same pre_routing i;
    resolving_names = same resolving i;
    post_routing_names = same post_routing i;
  })
      ∙ sym (get_indexes-names_of qs),
  sort_by-IsSorted _ (runs_before-IsOrder pre_routing) _,
  sort_by-IsSorted _ (runs_before-IsOrder resolving) _,
  sort_by-IsSorted _ (runs_before-IsOrder post_routing) _,
  contains-sort_by _ q _,
  contains-sort_by _ q _,
  contains-sort_by _ q _,
)
  where
    same :
        (stage : Stage)
        → sort_middleware_names stage (names_of stage ps)
          ≡ sort_middleware_names stage (names_of stage qs)
    same stage = sort_by-eq_of_perm _ (runs_before-IsOrder stage) (names_of-perm stage p)

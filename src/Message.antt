-- ===== src/Message.antt =====
-- middleware/common.go: the message that travels through the middlewares, with the values that
-- its context carries (config/config.go). The record of a DNS message has the fields of
-- github.com/miekg/dns that the program reads or writes; a pointer that may be nil is an `Option`.
pub mod Laws
pub mod Tests
use tdns.Base.{
  if◌then◌else◌, ◌==◌, nat_eq, Text, text_eq, is_empty, any, contains, ℕ, Bool, ◌||◌, Option, none,
  some, List, [], ◌∷◌, ◌++◌,
}
use tdns.Base.Maps.{lookup, insert}
use tdns.Base.Strings.{fields}

-- `net.Addr`, by the cases that the program distinguishes.
pub data Addr : Type 0 where
  udp : Text → Addr
  tcp : Text → Addr
  ip_only : Text → Addr
  other : Text → Addr
  absent : Addr

pub record Question : Type 0 where
  pub qname : Text
  pub qtype : ℕ
  pub qclass : ℕ

pub record Rr : Type 0 where
  pub owner : Text
  pub rrtype : ℕ
  pub ttl : ℕ
  pub rdata : Text

-- A resource record may be a nil interface.
pub record Msg : Type 0 where
  pub id : ℕ
  pub response : Bool
  pub opcode : ℕ
  pub recursion_desired : Bool
  pub checking_disabled : Bool
  pub rcode : ℕ
  pub question : List Question
  pub answer : List (Option Rr)
  pub ns : List (Option Rr)
  pub extra : List (Option Rr)

pub record CtxValue : Type 0 where
  pub remote_addr : Addr
  pub values : List (Text × Text)
  pub labels : List Text

pub record Message : Type 0 where
  pub msg : Option Msg
  pub ctx : Option CtxValue
  pub resolved : Bool

-- The errors that the request path tells apart; `upstream` holds one of a library.
pub data Error : Type 0 where
  no_context no_msg bad_record bad_entry saturated mux_timeout no_response : Error
  no_answer upstream : ℕ → Error

pub data Result {ℓ} (A : Type ℓ) : Type ℓ where
  ok : A → Result A
  err : Error → Result A

-- What `Run` of a middleware does: it returns its message with no error or with one, or it returns
-- a nil message with an error, or it panics.
pub data Run : Type 0 where
  ran : Message → Run
  failed : Message → Error → Run
  lost : Error → Run
  panic : Run

infixl 5 ◌>>=◌
abbrev pub ◌>>=◌ {ℓ κ} : {A : Type ℓ} {B : Type κ} → Result A → (A → Result B) → Result B
ok a >>= f = f a
err e >>= f = err e

abbrev pub or_fail {ℓ} : {A : Type ℓ} → Option A → Error → Result A
or_fail none e = err e
or_fail (some a) e = ok a

abbrev pub set_resolved : Message → Bool → Message
set_resolved m r = record m { resolved = r }

abbrev pub set_msg : Message → Msg → Message
set_msg m d = record m { msg = some d }

abbrev pub get_msg : Message → Result Msg
get_msg m = or_fail m.msg no_msg

abbrev get_ctx_value : Message → Result CtxValue
get_ctx_value m = or_fail m.ctx no_context

unfoldable pub add_value : Message → Text → Text → Result Message
add_value m key value = do
  cv ← get_ctx_value m
  ok (record m { ctx = some (record cv { values = insert key value cv.values }) })

-- The loop of `AddLabels`.
unfoldable pub add_each : List Text → List Text → List Text
add_each have [] = have
add_each have (label ∷ rest) =
    add_each (if is_empty label || contains have label then have else have ++ label ∷ []) rest

unfoldable pub add_labels : Message → List Text → Result Message
unfolding add_each
add_labels m ls = do
  cv ← get_ctx_value m
  ok (record m { ctx = some (record cv { labels = add_each cv.labels ls }) })

abbrev value_of : Option CtxValue → Text → Option Text
value_of none key = none
value_of (some cv) key = lookup key cv.values

unfoldable pub get_value : Message → Text → Option Text
get_value m key = value_of m.ctx key

abbrev labels_of : Option CtxValue → List Text
labels_of none = []
labels_of (some cv) = cv.labels

abbrev pub labels : Message → List Text
labels m = labels_of m.ctx

unfoldable pub has_label : Message → Text → Bool
has_label m label = any (λ each. each == label) (labels m)

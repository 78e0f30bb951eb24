-- ===== src/Cache/Laws.antt =====
-- What the cache serves of what was put into it.
use tdns.Base.{List, [], ◌∷◌}
use tdns.Message.{Rr}
use tdns.Cache.{aged_by}
use tdns.Cache.Ttl.{adjust_section_ttls, adjust_section_ttls-IsPositive}
use tdns.Base.{Bool-cases, All, ◌-◌, ◌≤◌, ◌<◌, ◌⊎◌, inl, inr, Option, none, map}
use tdns.Cache.Ttl.{age, IsPositive}
use tdns.Base.{arith}
use tdns.Base.{
  ltb, if◌then◌else◌, nat_eq, Text, text_eq, is_empty, ℕ, ◌*◌, ◌/◌, ◌%◌, ◌^◌, ◌≡◌, true, false,
  some,
}
use tdns.Message.{Msg, ok, ◌>>=◌}
use tdns.Cache.{Backend, cap_response_ttls, second, age_message, Cache}
use mathlib.Core.Option

-- What the store and the codecs are documented to do: a read after a write returns what was
-- written, and decoding undoes encoding.
pub record IsFaithful (b : Backend) : Type 0 where
  pub get-set :
      (s s' : b.Store) (k : Text) (v : b.Entry) → b.set s k v ≡ ok s' → b.get s' k ≡ some v
  pub unpack-pack : (m : Msg) (p : b.Packet) → b.pack m ≡ ok p → b.unpack p ≡ ok m
  pub unmarshal-marshal :
      (t : ℕ) (p : b.Packet) (raw : b.Entry) → b.marshal t p ≡ ok raw → b.unmarshal raw ≡ ok (t, p)

-- What is put under a key.
pub stored : ℕ → Msg → Msg
stored ttl m = if ltb 0 ttl then cap_response_ttls m (ttl * 60 % 2 ^ 32) else m

aged_by_lem :
    (elapsed : ℕ) (m aged : Msg) (o : Option (List (Option Rr)))
    → aged_by elapsed m o ≡ some aged
    → (o ≡ some aged.answer) × (is_empty aged.answer ≡ false)
aged_by_lem elapsed m aged none h = cc
aged_by_lem elapsed m aged (some []) h = cc
aged_by_lem elapsed m aged (some (rr ∷ rs)) h = ground arith

-- What is served has its answers aged by the whole seconds since it was stored, and none of them
-- has run out; with a clock that is not past the storing time it is served as it is.
pub age_message_lem :
    (now cached_at : ℕ) (m aged : Msg)
    → age_message now cached_at m ≡ some aged
    → ((now ≤ cached_at * second) × (aged ≡ m))
      ⊎ ((cached_at * second < now)
          × All IsPositive aged.answer
          × (aged.answer ≡ map (age ((now - cached_at * second) / second % 2 ^ 32)) m.answer)
          × (is_empty aged.answer ≡ false))
unfolding age_message
age_message_lem now cached_at m aged h = elim (Bool-cases (ltb (cached_at * second) now)) [
  | inl e ↦
      let elapsed = (now - cached_at * second) / second % 2 ^ 32 in
      let (adjusted, full) =
        aged_by_lem elapsed m aged (adjust_section_ttls m.answer elapsed true)
          (rw (e, age_message) at h) in
      let (live, same) = adjust_section_ttls-IsPositive m.answer elapsed aged.answer adjusted in
      inr (ground arith, live, same, full)
  | inr e ↦ inl (ground arith, ground arith)
]

-- ===== src/Cache/Hits.antt =====
-- A response that came from the cache, and what the cache stores.
use tdns.Base.{
  nat_eq, Text, text_eq, Bool-cases, beq_refl, ℕ, ◌≡◌, refl, ap, ◌∙◌, ◌⊎◌, inl, inr, true, false,
  not, ◌||◌, Option, none, some, List, [], ◌∷◌, arith,
}
use tdns.Base.Strings.{txt}
use tdns.Message.{
  Question, Msg, Message, no_msg, Result, ok, err, ran, or_fail, set_msg, get_msg, get_value,
  labels,
}
use tdns.Message.Laws.{get_value-add_value}
use tdns.Selectors.Requests.{Net}
use tdns.Cache.{
  Backend, cache_hit_value, cacheable_answers, key, is_true, Cache, put, response_from_entry,
  should_bypass, finish, serve, on_entry, on_lookup, get_question, get_in_msg, run_get, after_put,
  put_question, set_in_msg, run_set,
}

module _ (n : Net) (b : Backend) where
  -- What a message that was served from the cache carries.
  abbrev IsHit : Message → Type 0
  IsHit m = (get_value m cache_hit_value ≡ some (txt "true")) × ((r : Msg) × (m.msg ≡ some r))

  finish-IsHit :
      (c c' : Cache n b) (m mess' : Message) (d : Msg)
      → get_value m cache_hit_value ≡ some (txt "true")
      → m.msg ≡ some d
      → finish n b c (ok m) ≡ (c', ran mess')
      → IsHit mess'
  unfolding get_value
  finish-IsHit c c' m mess' d v e h = (ground arith, (d, ground arith))

  serve-IsHit :
      (c c' : Cache n b) (mess mess' : Message) (response : Msg)
      → serve n b c mess response ≡ (c', ran mess')
      → IsHit mess'
  serve-IsHit c c' mess mess' response h =
      elim (get_value-add_value (set_msg mess response) cache_hit_value cache_hit_value
        (txt "true")) [
          | inl (_, e) ↦ absurd (ground (arith, e))
          | inr (m, e, v, _, d, _) ↦
              finish-IsHit c c' m mess' response (v ∙ rw (beq_refl cache_hit_value) refl) d
                (rw e at h)
        ]

  on_entry-IsHit :
      (c c' : Cache n b) (mess mess' : Message) (k : Text) (r : Result (Option Msg))
      → mess.resolved ≡ false
      → on_entry n b c mess k r ≡ (c', ran mess')
      → mess'.resolved ≡ true
      → IsHit mess'
  on_entry-IsHit c c' mess mess' k (err e) fresh h served = cc
  on_entry-IsHit c c' mess mess' k (ok none) fresh h served = absurd (ground arith)
  on_entry-IsHit c c' mess mess' k (ok (some response)) fresh h served =
      serve-IsHit c c' mess mess' response h

  on_lookup-IsHit :
      (c c' : Cache n b) (mess mess' : Message) (now : ℕ) (m : Msg) (k : Text) (o : Option b.Entry)
      → mess.resolved ≡ false
      → on_lookup n b c mess now m k o ≡ (c', ran mess')
      → mess'.resolved ≡ true
      → IsHit mess'
  on_lookup-IsHit c c' mess mess' now m k none fresh h served = absurd (ground arith)
  on_lookup-IsHit c c' mess mess' now m k (some raw) fresh h served =
      on_entry-IsHit c c' mess mess' k (response_from_entry n b now raw m) fresh h served

  get_question-IsHit :
      (c c' : Cache n b) (mess mess' : Message) (now : ℕ) (m : Msg) (qs : List Question)
      → mess.resolved ≡ false
      → get_question n b c mess now m qs ≡ (c', ran mess')
      → mess'.resolved ≡ true
      → IsHit mess'
  get_question-IsHit c c' mess mess' now m [] fresh h served = cc
  get_question-IsHit c c' mess mess' now m (q ∷ _) fresh h served =
      on_lookup-IsHit c c' mess mess' now m (key q (labels mess)) _ fresh h served

  get_in_msg-IsHit :
      (c c' : Cache n b) (now : ℕ) (mess mess' : Message) (r : Result Msg)
      → mess.resolved ≡ false
      → get_in_msg n b c now mess r ≡ (c', ran mess')
      → mess'.resolved ≡ true
      → IsHit mess'
  get_in_msg-IsHit c c' now mess mess' (err e) fresh h served = cc
  get_in_msg-IsHit c c' now mess mess' (ok m) fresh h served =
      elim (Bool-cases (not c.enabled || should_bypass n b c mess)) [
        | inl off ↦ absurd (ground arith)
        | inr on ↦ get_question-IsHit c c' mess mess' now m m.question fresh (rw on at h) served
      ]

  set_in_msg_hit :
      (c : Cache n b) (now : ℕ) (mess : Message) (m : Msg)
      → get_value mess cache_hit_value ≡ some (txt "true")
      → set_in_msg n b c now mess (ok m) ≡ (c, ran mess)
  set_in_msg_hit c now mess m v = rw (v, beq_refl (txt "true")) (ground arith)

  -- A response that came from the cache is not put there again.
  pub run_set-run_get :
      (c c' : Cache n b) (now later : ℕ) (mess mess' : Message)
      → mess.resolved ≡ false
      → run_get n b c now mess ≡ (c', ran mess')
      → mess'.resolved ≡ true
      → run_set n b c' later mess' ≡ (c', ran mess')
  unfolding run_set run_get
  run_set-run_get c c' now later mess mess' fresh h served =
      let (v, r) = get_in_msg-IsHit c c' now mess mess' (get_msg mess) fresh h served in
      ap (λ o. set_in_msg n b c' later mess' (or_fail o no_msg)) r.1
      ∙ set_in_msg_hit c' later mess' r.0 v

  put_uncacheable :
      (c : Cache n b) (now : ℕ) (k : Text) (m : Msg)
      → cacheable_answers m.answer ≡ false
      → put n b c now k m ≡ ok c
  unfolding put
  put_uncacheable c now k m h = ground arith

  put_question-cases :
      (c : Cache n b) (mess : Message) (now : ℕ) (m : Msg) (qs : List Question)
      → ((put_question n b c mess now m qs).0 ≡ c) ⊎ (cacheable_answers m.answer ≡ true)
  put_question-cases c mess now m [] = inl refl
  put_question-cases c mess now m (q ∷ _) = elim (Bool-cases (cacheable_answers m.answer)) [
    | inl e ↦ inr e
    | inr e ↦
        inl (ap (λ r. (after_put n b c mess r).0) (put_uncacheable c now (key q (labels mess)) m e))
  ]

  -- What `CacheSet` asks for before it stores the response `m`.
  abbrev pub MayStore : Cache n b → Message → Msg → Type 0
  MayStore c mess m =
      (c.enabled ≡ true)
      × (should_bypass n b c mess ≡ false)
      × (is_true (get_value mess cache_hit_value) ≡ false)
      × (m.rcode ≡ 0)
      × (m.response ≡ true)
      × (cacheable_answers m.answer ≡ true)

  set_in_msg-cases :
      (c : Cache n b) (now : ℕ) (mess : Message) (m : Msg)
      → ((set_in_msg n b c now mess (ok m)).0 ≡ c) ⊎ MayStore c mess m
  set_in_msg-cases c now mess m = ground (arith, put_question-cases c mess now m m.question)

  set_in_msg-or_fail :
      (c : Cache n b) (now : ℕ) (mess : Message) (o : Option Msg)
      → ((set_in_msg n b c now mess (or_fail o no_msg)).0 ≡ c)
        ⊎ ((m : Msg) × (o ≡ some m) × MayStore c mess m)
  set_in_msg-or_fail c now mess none = inl refl
  set_in_msg-or_fail c now mess (some m) = elim (set_in_msg-cases c now mess m) [
    | inl e ↦ inl e
    | inr s ↦ inr (m, refl, s)
  ]

  -- `CacheSet` changes the cache only for a successful response with cacheable answers that did
  -- not come from the cache, while the cache is enabled and not bypassed.
  pub run_set_lem :
      (c : Cache n b) (now : ℕ) (mess : Message)
      → ((run_set n b c now mess).0 ≡ c) ⊎ ((m : Msg) × (mess.msg ≡ some m) × MayStore c mess m)
  unfolding run_set
  run_set_lem c now mess = set_in_msg-or_fail c now mess mess.msg

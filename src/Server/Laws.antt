-- ===== src/Server/Laws.antt =====
-- What the pipeline promises, whatever the middlewares are.
use tdns.Base.{
  ltb, nat_eq, Text, text_eq, if_elim, ◌≤◌, ◌≡◌, refl, true, false, Option, none, some, arith,
}
use tdns.Message.{Msg, Message, saturated, Run}
use tdns.Server.{
  Outcome, refused, Upstream, Server, Resolving, went, stopped, fell, pre_route, post_route, post,
  acquire, after_slot, after_pre_routing, process,
}

module _ {S : Type 0} (run : Text → S → Message → S × Run)
    (resolve : S → Option Msg → S × Upstream) where
  after_slot-slots :
      (srv : Server S) (r : S × Resolving)
      → (after_slot run resolve (acquire run resolve srv) r).0.slots ≡ srv.slots
  after_slot-slots srv (s, went m) = omega arith
  after_slot-slots srv (s, stopped e) = omega arith
  after_slot-slots srv (s, fell) = omega arith

  after_pre_routing-slots :
      (srv : Server S) (r : S × Option Message)
      → (after_pre_routing run resolve srv r).0.slots ≡ srv.slots
  after_pre_routing-slots srv (s, none) = refl
  after_pre_routing-slots srv (s, some m) =
      if_elim KeepsSlots m.resolved _ _ (λ _. refl)
        λ _.
          if_elim KeepsSlots (ltb srv.slots srv.capacity) _ _ (λ _. after_slot-slots srv _)
            (λ _. refl)
    where
      KeepsSlots : Server S × Outcome → Type 0
      KeepsSlots x = x.0.slots ≡ srv.slots

  -- Every slot that a request takes is given back, whatever it ends in: a reply, an error or a panic.
  pub process-slots :
      (srv : Server S) (m : Message) → (process run resolve srv m).0.slots ≡ srv.slots
  unfolding process
  process-slots srv m = after_pre_routing-slots srv _

  -- With all slots taken, a request that no pre-routing middleware resolves is refused, and neither the
  -- resolving middlewares nor the upstream are asked.
  process_saturated :
      (srv : Server S) (m m' : Message) (s : S)
      → pre_route run resolve srv.index.pre_routing_names srv.state m ≡ (s, some m')
      → m'.resolved ≡ false
      → srv.capacity ≤ srv.slots
      → process run resolve srv m ≡ (record srv { state = s }, refused saturated)
  unfolding process
  process_saturated srv m m' s e h k = rw e (
      if_elim (λ x. x ≡ (record srv { state = s }, refused saturated)) m'.resolved _ _
        (λ r. absurd (ground arith))
        (λ _.
          if_elim (λ x. x ≡ (record srv { state = s }, refused saturated))
            (ltb srv.slots srv.capacity) _ _ (λ r. absurd (ground arith)) (λ _. refl)))

  -- A request that a pre-routing middleware resolves goes straight to the post-routing, and takes no slot.
  process_resolved :
      (srv : Server S) (m m' : Message) (s : S)
      → pre_route run resolve srv.index.pre_routing_names srv.state m ≡ (s, some m')
      → m'.resolved ≡ true
      → process run resolve srv m
        ≡ post run resolve srv (post_route run resolve srv.index.post_routing_names s m')
  unfolding process
  process_resolved srv m m' s e h = rw e (rw h refl)

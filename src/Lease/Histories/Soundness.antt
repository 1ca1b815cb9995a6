-- ===== src/Lease/Histories/Soundness.antt =====
-- The drive leases of server/cmd/lease.go over whole histories, and what follows for their ends and
-- their listings.
use bigfred.Base.{
  ℕ, ◌+◌, ◌≡◌, ◌≤◌, refl, ap, ◌∙◌, Bool, true, false, ◌&&◌, ◌||◌, none, List, [], ◌∷◌, ◌++◌, All,
  lookup, insert, lookup-erase_self, leb, ltb, ◌==◌, nat_key, arith, beq_refl,
}
use bigfred.Lease.Redis.{LeaseKey, Redis, LeaseWire, Json, lease_key_key}
use bigfred.Lease.Service.{
  LeaseEntry, LeaseService, Repositories, LeaseEffect, cancel_timer, with_db, with_timers, stopped,
  expire_on_layouts, expire_lease, fire_timer,
}
use bigfred.Lease.Commands.Outcomes.{get_lease-absent}
use bigfred.Lease.Histories.{Event, World, event, events, IsLeased, IsSoundWorld}
use bigfred.Lease.Histories.Granting.{create-IsSoundWorld}
use bigfred.Lease.Histories.Changing.{update_speed_limit-IsSoundWorld, update_duration-IsSoundWorld}
use bigfred.Lease.Histories.Ending.{
  revoke-IsSoundWorld, list_received-IsSoundWorld, fire_timer-IsSoundWorld, pass-IsSoundWorld,
  expire_on_layouts-keeps,
}

-- Whether a target was braked on a layout.
unfoldable pub braked : ℕ → LeaseKey → List LeaseEffect → Bool
braked layout key [] = false
braked layout key (LeaseEffect.stop_leased_target l k ∷ es) =
    (l == layout && k == key) || braked layout key es
braked layout key (LeaseEffect.delete_lease k ∷ es) = braked layout key es
braked layout key (LeaseEffect.sync_layout_roster l ∷ es) = braked layout key es
braked layout key (LeaseEffect.broadcast_lease l u t e ∷ es) = braked layout key es
braked layout key (LeaseEffect.audit_publish l u n m e ∷ es) = braked layout key es
braked layout key (LeaseEffect.go_expire_lease k e ∷ es) = braked layout key es

braked-append :
    (layout : ℕ) (key : LeaseKey) (es fs : List LeaseEffect)
    → braked layout key (es ++ fs) ≡ (braked layout key es || braked layout key fs)
unfolding braked
braked-append layout key [] fs = refl
braked-append layout key (LeaseEffect.stop_leased_target l k ∷ es) fs =
    ground (arith, braked-append layout key es fs)
braked-append layout key (LeaseEffect.delete_lease k ∷ es) fs = braked-append layout key es fs
braked-append layout key (LeaseEffect.sync_layout_roster l ∷ es) fs = braked-append layout key es fs
braked-append layout key (LeaseEffect.broadcast_lease l u t e ∷ es) fs =
    braked-append layout key es fs
braked-append layout key (LeaseEffect.audit_publish l u n m e ∷ es) fs =
    braked-append layout key es fs
braked-append layout key (LeaseEffect.go_expire_lease k e ∷ es) fs = braked-append layout key es fs

braked-stop :
    (layout : ℕ) (key : LeaseKey) (es fs : List LeaseEffect)
    → braked layout key (es ++ LeaseEffect.stop_leased_target layout key ∷ fs) ≡ true
unfolding braked
braked-stop layout key es fs = ground (
  arith,
  braked-append layout key es (LeaseEffect.stop_leased_target layout key ∷ fs),
  beq_refl layout,
  beq_refl key,
)

module _ {D : Type 0} where
  expire_on_layouts-braked_before :
      (layout : ℕ) (layouts : List ℕ) (entry : LeaseEntry) (key : LeaseKey) (s : LeaseService D)
      → braked layout key s.effects ≡ true
      → braked layout key (expire_on_layouts layouts entry key s).effects ≡ true
  unfolding expire_on_layouts
  expire_on_layouts-braked_before layout [] entry key s h = h
  expire_on_layouts-braked_before layout (l ∷ ls) entry key s h =
      expire_on_layouts-braked_before layout ls entry key _
        (rw (braked-append layout key s.effects _, h) refl)

  expire_on_layouts-braked :
      (layouts : List ℕ) (entry : LeaseEntry) (key : LeaseKey) (s : LeaseService D)
      → All (λ l. braked l key (expire_on_layouts layouts entry key s).effects ≡ true) layouts
  unfolding expire_on_layouts braked
  expire_on_layouts-braked [] entry key s = tt
  expire_on_layouts-braked (l ∷ ls) entry key s = (
    expire_on_layouts-braked_before l ls entry key _ (braked-stop l key s.effects _),
    expire_on_layouts-braked ls entry key _,
  )

module _ (r : Redis) (j : Json r.Payload) where
  open r use {Db, get, pass, smembers}

  event-IsSoundWorld :
      (e : Event) (w : World r j) → IsSoundWorld r j w → IsSoundWorld r j (event r j e w)
  unfolding event
  event-IsSoundWorld (Event.create_event repos layout actor key to limit duration) (now, s) h =
      create-IsSoundWorld r j repos now layout actor key to limit duration s h
  event-IsSoundWorld (Event.revoke_event repos layout actor key) (now, s) h =
      revoke-IsSoundWorld r j repos now layout actor key s h
  event-IsSoundWorld (Event.limit_event repos layout actor key limit) (now, s) h =
      update_speed_limit-IsSoundWorld r j repos now layout actor key limit s h
  event-IsSoundWorld (Event.duration_event repos layout actor key duration) (now, s) h =
      update_duration-IsSoundWorld r j repos now layout actor key duration s h
  event-IsSoundWorld (Event.received_event repos layout user) (now, s) h =
      list_received-IsSoundWorld r j repos now layout user s h
  event-IsSoundWorld (Event.timer_event repos key) (now, s) h =
      fire_timer-IsSoundWorld r j repos now key s h
  event-IsSoundWorld (Event.time_event d) (now, s) h = pass-IsSoundWorld r j now d s h

  -- From a world whose leases are sound, any history of calls, timers and time ends in one whose leases
  -- are sound: each lease that Redis holds is in force, is kept exactly until it ends, has a speed
  -- limit of at most 100 and two different parties, ends at most 24 hours from now, stands in the
  -- index of either party, and has a running timer that is due when it ends.
  pub events-IsSoundWorld :
      (es : List Event) (w : World r j) → IsSoundWorld r j w → IsSoundWorld r j (events r j es w)
  unfolding events
  events-IsSoundWorld [] w h = h
  events-IsSoundWorld (e ∷ es) w h =
      events-IsSoundWorld es (event r j e w) (event-IsSoundWorld e w h)

  expired-gone :
      (now d : ℕ) (s : LeaseService Db) (key : LeaseKey) (w : LeaseWire)
      → IsLeased r j now s key w
      → w.expires_at ≤ now + d
      → get key (pass d s.db) ≡ none
  expired-gone now d s key w l h =
      let over : ltb d (r.pttl key s.db) ≡ false = ground (arith, l.ttl) in
      rw (r.get-pass key d s.db, over) refl

  -- A lease that nobody ends is braked when it is over: once its time is up Redis holds it no more, and
  -- its timer, when it goes off then, brakes the target on every layout that has it and is gone itself.
  pub expiry-brakes :
      (repos : Repositories) (now d : ℕ) (s : LeaseService Db) (key : LeaseKey) (w : LeaseWire)
      → IsLeased r j now s key w
      → w.expires_at ≤ now + d
      → (get key (pass d s.db) ≡ none)
        × All
            (λ layout.
              braked layout key
                (fire_timer r j repos (now + d) key (with_db (pass d s.db) s)).effects
              ≡ true)
            (repos.layout_ids key)
        × (lookup key (fire_timer r j repos (now + d) key (with_db (pass d s.db) s)).timers ≡ none)
  unfolding fire_timer expire_lease cancel_timer
  expiry-brakes repos now d s key w l h =
      let gone = expired-gone now d s key w l h in
      let t = l.timer in
      let is_due : leb t.due (now + d) ≡ true = rw l.due (ground (arith, h)) in
      let absent = get_lease-absent r j key (pass d s.db) gone in
      let fired = with_timers (insert key (stopped t) s.timers) (with_db (pass d s.db) s) in
      let keeps =
        expire_on_layouts-keeps (repos.layout_ids key) t.captured key (cancel_timer key fired) in
      (
        gone,
        rw (l.armed, fire_timer, l.running, is_due, l.kind, expire_lease, absent)
            (expire_on_layouts-braked (repos.layout_ids key) t.captured key
              (cancel_timer key fired)),
        rw (l.armed, fire_timer, l.running, is_due, l.kind, expire_lease, absent)
            (ap (lookup key) keeps.1 ∙ lookup-erase_self key (insert key (stopped t) s.timers)),
      )
